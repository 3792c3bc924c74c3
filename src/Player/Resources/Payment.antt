-- ===== src/Player/Resources/Payment.antt =====
-- Prices in counters: `ChkResEnough` and the `RemoveResources` that follows it.
use mm_server.Prelude.{
  ◌≡◌, ◌≢◌, refl, sym, ap, subst, ◌∙◌, Bool, true, false, Option, some, List, [], ◌∷◌, arith,
  if◌then◌else◌, Bool-cases, inl, inr,
}
use mm_server.Prelude.Fault.{Returns, Returns-map}
use mm_server.Prelude.Int.{ℤ, pos, ◌+ℤ◌, ◌-ℤ◌, ◌≤ℤ◌, ◌<ℤ◌, ltb_ℤ, int_laws, -ℤ_parts}
use mm_server.Prelude.Lists.{All, All-map, All-map₂}
use mm_server.Player.State.{Value, Player, Config, value}
use mm_server.Player.Values.{
  sub_value, sub_gold, sub_friend_points, sub_soul_stone, sub_charm_medal,
}
use mm_server.Player.Values.Bounds.{IsCount, debt, sub_value-Updates}
use mm_server.Player.Items.{resource_id}
use mm_server.Player.Resources.{
  resource_value, get_item_resource_value, remove_resource_of, remove_item_resource, chk_res_enough,
  remove_resources,
}

-- The counters that are taken from without a check, under the ids by which a price names them.
pub data Coin : Type 0 where
  gold friend_points soul_stone charm_medal : Coin

abbrev pub coin_id : Coin → ℤ
coin_id Coin.gold = pos 2
coin_id Coin.friend_points = pos 6
coin_id Coin.soul_stone = pos 9
coin_id Coin.charm_medal = pos 10

abbrev pub coin_value : Coin → Value
coin_value Coin.gold = Value.gold
coin_value Coin.friend_points = Value.friend_points
coin_value Coin.soul_stone = Value.soul_stone
coin_value Coin.charm_medal = Value.charm_medal

abbrev pub Price : Type 0
Price = List (Coin × ℤ)

-- The price as the game data writes it: ids and amounts in turn.
abbrev pub price_list : Price → List ℤ
price_list [] = []
price_list ((c, n) ∷ ps) = coin_id c ∷ n ∷ price_list ps

-- No counter is named twice.
abbrev pub NamesOnce : Price → Type 0
NamesOnce [] = Unit {0}
NamesOnce ((c, _) ∷ ps) = All (λ (e : Coin × ℤ). coin_value c ≢ coin_value e.0) ps × NamesOnce ps

-- Each entry is covered by what the player has at first.
abbrev pub covers : Player → Price → Bool
covers p [] = true
covers p ((c, n) ∷ ps) = if ltb_ℤ (value (coin_value c) p) n then false else covers p ps

coin_have :
    (c : Coin) (cfg : Config) (now : ℤ) (p : Player)
    → get_item_resource_value cfg now (coin_id c) p ≡ some (p, value (coin_value c) p)
unfolding get_item_resource_value resource_value resource_id
coin_have Coin.gold cfg now p = refl
coin_have Coin.friend_points cfg now p = refl
coin_have Coin.soul_stone cfg now p = refl
coin_have Coin.charm_medal cfg now p = refl

coin_take :
    (c : Coin) (cfg : Config) (now n : ℤ) (p : Player)
    → remove_item_resource cfg now (coin_id c) n p ≡ some (sub_value (coin_value c) n p)
unfolding remove_item_resource remove_resource_of resource_id sub_gold sub_friend_points
    sub_soul_stone sub_charm_medal
coin_take Coin.gold cfg now n p = refl
coin_take Coin.friend_points cfg now n p = refl
coin_take Coin.soul_stone cfg now n p = refl
coin_take Coin.charm_medal cfg now n p = refl

-- `ChkResEnough` changes nothing here, and tells whether each entry is covered by itself.
chk_res_enough-covers :
    (cfg : Config) (now : ℤ) (p : Player) (price : Price)
    → chk_res_enough cfg now (price_list price) p ≡ some (p, covers p price)
unfolding chk_res_enough
chk_res_enough-covers cfg now p [] = refl
chk_res_enough-covers cfg now p ((c, n) ∷ ps) =
    rw (coin_have c cfg now p, chk_res_enough-covers cfg now p ps)
      (elim (Bool-cases (ltb_ℤ (value (coin_value c) p) n)) [
        | inl short ↦ rw short
        | inr covered ↦ rw covered
      ])

-- What paying a price leaves: each named counter is down by its amount and not in debt, the others
-- are as they were.
pub record Paid (price : Price) (p q : Player) : Type 0 where
  pub paid :
      All
        (λ (e : Coin × ℤ).
          (value (coin_value e.0) q ≡ value (coin_value e.0) p -ℤ e.1)
          × IsCount (value (coin_value e.0) q))
        price
  pub others :
      (f : Value) → All (λ (e : Coin × ℤ). coin_value e.0 ≢ f) price → value f q ≡ value f p

covers-agree :
    (p q : Player) (price : Price)
    → All (λ (e : Coin × ℤ). value (coin_value e.0) q ≡ value (coin_value e.0) p) price
    → covers q price ≡ covers p price
covers-agree p q [] h = refl
covers-agree p q ((c, n) ∷ ps) h = rw (h.0, covers-agree p q ps h.1)

Value-discrete : Discrete Value
Value-discrete = hlevel

-- The first entry of a covered price is paid exactly.
module _ (c : Coin) (n : ℤ) (p : Player) (amount : IsCount n)
    (counts : (f : Value) → IsCount (value f p))
    (covered : ltb_ℤ (value (coin_value c) p) n ≡ false) where
  after : Player
  after = (sub_value (coin_value c) n p).0

  first_paid : value (coin_value c) after ≡ value (coin_value c) p -ℤ n
  unfolding after debt
  first_paid =
      let u =
        sub_value-Updates (coin_value c) n p (counts _)
          (record { lower = omega arith; upper = amount.1 }) in
      let nonneg : ltb_ℤ n (pos 0) ≡ false = ground arith in u.stored ∙ rw nonneg

  first_others : (f : Value) → coin_value c ≢ f → value f after ≡ value f p
  unfolding after
  first_others =
      (sub_value-Updates (coin_value c) n p (counts _)
        (record { lower = omega arith; upper = amount.1 })).others

  first_left : IsCount (value (coin_value c) p -ℤ n)
  first_left = ground (arith, counts (coin_value c), -ℤ_parts (value (coin_value c) p) n)

  after_counts : (f : Value) → IsCount (value f after)
  after_counts f = elim (Value-discrete (coin_value c) f) [
    | yes same ↦
        subst (λ (g : Value). IsCount (value g after)) same
          (subst (λ v. IsCount v) (sym first_paid) first_left)
    | no other ↦ subst (λ v. IsCount v) (sym (first_others f other)) (counts f)
  ]

  pay_rest :
      (ps : Price) (q : Player)
      → All (λ (e : Coin × ℤ). coin_value c ≢ coin_value e.0) ps
      → Paid ps after q
      → Paid ((c, n) ∷ ps) p q
  pay_rest ps q once r = record {
    paid = (
      (
        r.others (coin_value c) (All-map ps (λ e ne same. ne (sym same)) once) ∙ first_paid,
        subst (λ v. IsCount v)
            (sym
              (r.others (coin_value c) (All-map ps (λ e ne same. ne (sym same)) once) ∙ first_paid))
            first_left,
      ),
      All-map₂ ps
          (λ e ne done. (done.0 ∙ ap (λ v. v -ℤ e.1) (first_others (coin_value e.0) ne), done.1))
          once r.paid,
    );
    others = λ f h. r.others f h.1 ∙ first_others f h.0;
  }

  rest_covered :
      (ps : Price)
      → All (λ (e : Coin × ℤ). coin_value c ≢ coin_value e.0) ps
      → covers p ps ≡ true
      → covers after ps ≡ true
  rest_covered ps once h =
      covers-agree p after ps (All-map ps (λ e ne. first_others (coin_value e.0) ne) once) ∙ h

-- A price that is covered is paid.
covered-Paid :
    (cfg : Config) (now : ℤ) (price : Price) (p : Player)
    → NamesOnce price
    → All (λ (e : Coin × ℤ). IsCount e.1) price
    → ((f : Value) → IsCount (value f p))
    → covers p price ≡ true
    → Returns (remove_resources cfg now (price_list price) p) (Paid price p)
unfolding remove_resources after
covered-Paid cfg now [] p once amounts counts yes_all = record { paid = tt; others = λ f h. refl }
covered-Paid cfg now ((c, n) ∷ ps) p once amounts counts enough =
    let covered : ltb_ℤ (value (coin_value c) p) n ≡ false = ground arith in
    let further : covers p ps ≡ true = ground arith in
    rw (coin_take c cfg now n p) (
      Returns-map _ (λ q. pay_rest c n p amounts.0 counts covered ps q once.0)
        (covered-Paid cfg now ps (sub_value (coin_value c) n p).0 once.1 amounts.1
          (after_counts c n p amounts.0 counts covered)
          (rest_covered c n p amounts.0 counts covered ps once.0 further)))

some_same : (x y : Player × Bool) → ◌≡◌ {A = Option (Player × Bool)} (some x) (some y) → x ≡ y
some_same x y h = cc

-- A price in gold, friend points, soul stones and charm medals that names none of them twice, with
-- amounts that are not negative, for a player without a debt: where `ChkResEnough` says yes,
-- `RemoveResources` takes exactly the price, leaves no debt in these counters, and no other counter
-- changes.
pub remove_resources-Paid :
    (cfg : Config) (now : ℤ) (price : Price) (p q : Player)
    → NamesOnce price
    → All (λ (e : Coin × ℤ). IsCount e.1) price
    → ((f : Value) → IsCount (value f p))
    → chk_res_enough cfg now (price_list price) p ≡ some (q, true)
    → Returns (remove_resources cfg now (price_list price) q) (Paid price p)
remove_resources-Paid cfg now price p q once amounts counts enough =
    let checked = some_same _ _ (sym (chk_res_enough-covers cfg now p price) ∙ enough) in
    let same : p ≡ q = ap (λ (r : Player × Bool). r.0) checked in
    let covered : covers p price ≡ true = ap (λ (r : Player × Bool). r.1) checked in
    subst (λ r. Returns (remove_resources cfg now (price_list price) r) (Paid price p)) same
      (covered-Paid cfg now price p once amounts counts covered)

second_debt :
    (f : Value) (m n : ℤ) (p : Player)
    → IsCount m
    → IsCount n
    → IsCount (value f p)
    → m ≤ℤ value f p
    → value f p <ℤ m +ℤ n
    → value f (sub_value f n (sub_value f m p).0).0 <ℤ pos 0
unfolding debt
second_debt f m n p hm hn h lm over =
    let v = value f p in
    let u = sub_value-Updates f m p h (record { lower = omega arith; upper = hm.1 }) in
    let m_nonneg : ltb_ℤ m (pos 0) ≡ false = ground arith in
    let n_nonneg : ltb_ℤ n (pos 0) ≡ false = ground arith in
    let first : value f (sub_value f m p).0 ≡ v -ℤ m = u.stored ∙ rw m_nonneg in
    let first_count : IsCount (value f (sub_value f m p).0) =
      rw first (ground (arith, -ℤ_parts v m)) in
    let w =
      sub_value-Updates f n (sub_value f m p).0 first_count
        (record { lower = omega arith; upper = hn.1 }) in
    let second : value f (sub_value f n (sub_value f m p).0).0 ≡ v -ℤ m -ℤ n =
      w.stored ∙ rw (n_nonneg, first) in
    rw second (omega int_laws)

-- A price that names gold, friend points, soul stones or charm medals twice is checked entry by entry:
-- where each of the two amounts is covered and their sum is not, `ChkResEnough` says yes, and paying
-- leaves a debt of this counter, which was not in debt before.
pub named_twice_leaves_debt :
    (cfg : Config) (now : ℤ) (c : Coin) (m n : ℤ) (p : Player)
    → IsCount m
    → IsCount n
    → IsCount (value (coin_value c) p)
    → m ≤ℤ value (coin_value c) p
    → n ≤ℤ value (coin_value c) p
    → value (coin_value c) p <ℤ m +ℤ n
    → let price = price_list ((c, m) ∷ (c, n) ∷ []) in
      (chk_res_enough cfg now price p ≡ some (p, true))
      × Returns (remove_resources cfg now price p) (λ q. value (coin_value c) q <ℤ pos 0)
unfolding remove_resources
named_twice_leaves_debt cfg now c m n p hm hn h lm ln over =
    let price : Price = (c, m) ∷ (c, n) ∷ [] in
    let both : covers p price ≡ true = ground arith in
    (
      chk_res_enough-covers cfg now p price ∙ ap (λ b. some (p, b)) both,
      rw (coin_take c cfg now m p, coin_take c cfg now n (sub_value (coin_value c) m p).0)
          (second_debt (coin_value c) m n p hm hn h lm over),
    )
