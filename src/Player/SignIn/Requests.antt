-- ===== src/Player/SignIn/Requests.antt =====
-- A player's requests to the sign-in, one after the other.
use mm_server.Prelude.{
  ℕ, suc, ◌≡◌, refl, sym, ap, ap₂, subst, ◌∙◌, ◌≢◌, inl, inr, Bool-cases, Option-cases, Option,
  none, some, List, [], ◌∷◌, ◌++◌, arith, if◌then◌else◌, ◌&&◌, beq_ne, true, false,
}
use mm_server.Prelude.Fault.{IsTotal, Returns, Returns->>=, Returns-map, ◌>>=◌}
use mm_server.Prelude.Int.{ℤ, pos, negsuc, ◌+ℤ◌, ◌≤ℤ◌, ◌<ℤ◌, leb_ℤ, eqb_ℤ, int_eq, int_laws}
use mm_server.Prelude.Int32.{max_int32}
use mm_server.Prelude.Lists.{get_elem?, length, All}
use mm_server.Prelude.Dict.{lookup}
use mm_server.Player.State.{Player, Config, Sign, SignItem}
use mm_server.Player.Values.{Call}
use mm_server.Player.Resources.{add_resources}
use mm_server.Player.Resources.Total.{IsConfig}
use mm_server.Player.SignIn.{get_sign_data, check_signed, sign_award}
use mm_server.Player.SignIn.Awards.{IsValid, IsDue, SameWealth, AwardOutcome, sign_award-Outcome}
use mm_server.Player.SignIn.Days.{looked, Checked, check_signed-Checked}

-- The two messages that C2SSignDataHandler and C2SSignAwardHandler serve.
pub data Request : Type 0 where
  look award : (now id : ℤ) → Request

abbrev pub time_of : Request → ℤ
time_of (Request.look now id) = now
time_of (Request.award now id) = now

-- How many rewards the code says that one request was given.
abbrev paid_by : Request → ℤ → ℤ
paid_by (Request.look now id) r = pos 0
paid_by (Request.award now id) r = if eqb_ℤ r (pos 1) then pos 1 else pos 0

unfoldable pub serve : Config → ℕ → Request → Player → Option Call
serve cfg zone (Request.look now id) p = get_sign_data cfg.signs zone now p
serve cfg zone (Request.award now id) p = sign_award cfg now id p

-- The player after the requests, and how many rewards they were given.
unfoldable pub serve_all : Config → ℕ → List Request → Player → Option (Player × ℤ)
serve_all cfg zone [] p = some (p, pos 0)
serve_all cfg zone (r ∷ rs) p = do
  (q, res) ← serve cfg zone r p
  (q', paid) ← serve_all cfg zone rs q
  some (q', paid_by r res +ℤ paid)

-- The row of the reward that a player may take: the next one, if its day was signed.
abbrev pub due_row : Config → ℤ → Sign → Option SignItem
due_row cfg id s =
    if eqb_ℤ id (s.award_index +ℤ pos 1) && leb_ℤ id s.signed_index
    then lookup id cfg.signs.sign_map
    else none

abbrev pub moved_to : ℤ → Sign → Option SignItem → Sign
moved_to id s none = s
moved_to id s (some item) = record s { award_index = id }

abbrev pub rewarded : ℤ → Option SignItem → List (ℤ × SignItem)
rewarded now none = []
rewarded now (some item) = (now, item) ∷ []

-- What one request is to make of the sign-in, and which reward it is to give, with its time.
abbrev pub sign_next : Config → ℕ → Request → Sign → Sign
sign_next cfg zone (Request.look now id) s = looked zone now s
sign_next cfg zone (Request.award now id) s = moved_to id s (due_row cfg id s)

abbrev pub reward_next : Config → Request → Sign → List (ℤ × SignItem)
reward_next cfg (Request.look now id) s = []
reward_next cfg (Request.award now id) s = rewarded now (due_row cfg id s)

-- The same for any requests.
unfoldable pub sign_after : Config → ℕ → List Request → Sign → Sign
sign_after cfg zone [] s = s
sign_after cfg zone (r ∷ rs) s = sign_after cfg zone rs (sign_next cfg zone r s)

unfoldable pub rewards_after : Config → ℕ → List Request → Sign → List (ℤ × SignItem)
rewards_after cfg zone [] s = []
rewards_after cfg zone (r ∷ rs) s =
    reward_next cfg r s ++ rewards_after cfg zone rs (sign_next cfg zone r s)

-- One player is what the resources of the rewards, in their order, make of another.
abbrev pub Given : Config → List (ℤ × SignItem) → Player → Player → Type 0
Given cfg [] p q = SameWealth p q
Given cfg ((now, item) ∷ rest) p q =
    (before : Player) × (got : Player) × SameWealth p before
    × (add_resources cfg now item.reward before ≡ some got)
    × Given cfg rest got q

-- How many rewards there are.
abbrev pub count_of : List (ℤ × SignItem) → ℤ
count_of [] = pos 0
count_of (_ ∷ rest) = count_of rest +ℤ pos 1

-- What a player goes through: the sign-in is the one described, and all else is what the described
-- rewards make of it.
pub record Served (cfg : Config) (zone : ℕ) (rs : List Request) (p : Player) (c : Player × ℤ)
    : Type 0 where
  pub valid : IsValid (c.0.sign)
  pub at_most : c.0.sign.signed_index ≤ℤ p.sign.signed_index +ℤ pos (length rs)
  pub sign : c.0.sign ≡ sign_after cfg zone rs p.sign
  pub rewards : Given cfg (rewards_after cfg zone rs p.sign) p c.0
  pub paid : c.1 ≡ count_of (rewards_after cfg zone rs p.sign)

-- The same of one request.
record Step (cfg : Config) (zone : ℕ) (r : Request) (p : Player) (c : Player × ℤ) : Type 0 where
  valid : IsValid (c.0.sign)
  at_most : c.0.sign.signed_index ≤ℤ p.sign.signed_index +ℤ pos 1
  sign : c.0.sign ≡ sign_next cfg zone r p.sign
  rewards : Given cfg (reward_next cfg r p.sign) p c.0
  paid : paid_by r c.1 ≡ count_of (reward_next cfg r p.sign)

-- A reward that is due is the one described.
due-row :
    (cfg : Config) (id : ℤ) (s : Sign) (item : SignItem)
    → IsDue cfg id s item
    → due_row cfg id s ≡ some item
due-row cfg id s item d =
    let next : eqb_ℤ id (s.award_index +ℤ pos 1) ≡ true = (int_eq.beq_iff _ _).1 (d.next) in
    let signed : leb_ℤ id s.signed_index ≡ true = ground (arith, d.was_signed) in
    rw (next, signed) (d.row)

undue-row :
    (cfg : Config) (id : ℤ) (s : Sign)
    → ((item : SignItem) → ¬ IsDue cfg id s item)
    → due_row cfg id s ≡ none
undue-row cfg id s none_due = elim (Bool-cases (eqb_ℤ id (s.award_index +ℤ pos 1))) [
  | inr jumps ↦ rw jumps refl
  | inl next ↦ elim (Bool-cases (leb_ℤ id s.signed_index)) [
    | inr unsigned ↦ rw (next, unsigned) refl
    | inl signed ↦ elim (Option-cases (lookup id cfg.signs.sign_map)) [
      | inl missing ↦ rw (next, signed) missing
      | inr (item, found) ↦ absurd (
          none_due item
            (record { next = (int_eq.beq_iff _ _).0 next; was_signed = ground arith; row = found }))
    ]
  ]
]

le_refl : (a : ℤ) → a ≤ℤ a
le_refl a = omega arith

le_next : (a : ℤ) → a ≤ℤ a +ℤ pos 1
unfolding ◌+ℤ◌
le_next a = ground arith

le_zero : (a : ℤ) → a ≤ℤ a +ℤ pos 0
le_zero a = grind int_laws

zero_left : (a : ℤ) → a ≡ pos 0 +ℤ a
unfolding ◌+ℤ◌
zero_left (pos a) = ground arith
zero_left (negsuc a) = ground arith

swap_one : (a b : ℤ) → a +ℤ b +ℤ pos 1 ≡ a +ℤ pos 1 +ℤ b
swap_one a b = grind int_laws

next_nonneg : (a k : ℤ) → pos 0 ≤ℤ a → k ≡ a +ℤ pos 1 → pos 0 ≤ℤ k
unfolding ◌+ℤ◌
next_nonneg a k h next = ground arith

within_trans : (n : ℕ) (a b c : ℤ) → b ≤ℤ a +ℤ pos 1 → c ≤ℤ b +ℤ pos n → c ≤ℤ a +ℤ pos (suc n)
within_trans n a b c h k = grind int_laws

not_one : (r : ℤ) → r ≢ pos 1 → eqb_ℤ r (pos 1) ≡ false
not_one r h = beq_ne int_eq r (pos 1) h

served_room :
    (n : ℕ) (a b : ℤ) → b ≤ℤ a +ℤ pos 1 → a +ℤ pos (suc n) <ℤ max_int32 → b +ℤ pos n <ℤ max_int32
served_room n a b h k = grind int_laws

first_room : (n : ℕ) (a : ℤ) → a +ℤ pos (suc n) <ℤ max_int32 → a +ℤ pos 1 <ℤ max_int32
first_room n a h = grind int_laws

award-Step :
    (cfg : Config) (zone : ℕ) (now id : ℤ) (p : Player) (c : Call)
    → IsValid p.sign
    → AwardOutcome cfg now id p c
    → Step cfg zone (Request.award now id) p c
award-Step cfg zone now id p (q, r) v (inl (item, due, done, a)) =
    let row = due-row cfg id p.sign item due in
    record {
      valid = subst IsValid (sym a.sign) (record {
        counted = next_nonneg p.sign.award_index id (v.counted) (due.next);
        signed = due.was_signed;
        room = v.room;
        fresh = v.fresh;
      });
      at_most = rw (a.sign) (le_next p.sign.signed_index);
      sign = rw row (a.sign);
      rewards = rw row (p, a.got, refl, a.given, a.kept);
      paid = rw (row, done) (zero_left (pos 1));
    }
award-Step cfg zone now id p (q, r) v (inr (none_due, refused, same)) =
    let row = undue-row cfg id p.sign none_due in
    subst (λ (q : Player). Step cfg zone (Request.award now id) p (q, r)) (sym same)
      (record {
        valid = v;
        at_most = le_next p.sign.signed_index;
        sign = rw row refl;
        rewards = rw row refl;
        paid = rw (row, not_one r refused) refl;
      })

look-Step :
    (cfg : Config) (zone : ℕ) (now id : ℤ) (p : Player) (r : Sign × ℤ) (q : Player)
    → Checked zone now p.sign r
    → q.sign ≡ r.0
    → SameWealth p q
    → Step cfg zone (Request.look now id) p (q, pos 1)
look-Step cfg zone now id p r q c signed same = record {
  valid = rw signed (c.valid);
  at_most = rw signed (elim (c.step) [
    | inl (_, unchanged) ↦
        subst (λ (t : Sign). t.signed_index ≤ℤ p.sign.signed_index +ℤ pos 1) (sym unchanged)
          (le_next p.sign.signed_index)
    | inr (_, next, _) ↦
        subst (λ i. i ≤ℤ p.sign.signed_index +ℤ pos 1) (sym next)
          (le_refl (p.sign.signed_index +ℤ pos 1))
  ]);
  sign = signed ∙ c.day;
  rewards = same;
  paid = refl;
}

serve-Step :
    (cfg : Config) (zone : ℕ) (r : Request) (p : Player)
    → IsConfig cfg
    → IsTotal (get_elem? cfg.signs.array 0)
    → IsValid p.sign
    → pos 0 <ℤ time_of r
    → p.sign.signed_index +ℤ pos 1 <ℤ max_int32
    → Returns (serve cfg zone r p) (Step cfg zone r p)
unfolding serve get_sign_data
serve-Step cfg zone (Request.look now id) p config rows v later room =
    Returns->>= (Step cfg zone (Request.look now id) p) (check_signed cfg.signs zone now p.sign) _
      (check_signed-Checked cfg.signs zone now p.sign rows v later room)
      (λ r c. look-Step cfg zone now id p r _ c refl refl)
serve-Step cfg zone (Request.award now id) p config rows v later room =
    Returns-map (sign_award cfg now id p) (λ c o. award-Step cfg zone now id p c v o)
      (sign_award-Outcome cfg now id p config v)

Given-same :
    (cfg : Config) (rewards : List (ℤ × SignItem)) (p p' q : Player)
    → SameWealth p p'
    → Given cfg rewards p' q
    → Given cfg rewards p q
Given-same cfg [] p p' q same g = same ∙ g
Given-same cfg ((now, item) ∷ rest) p p' q same (before, got, near, given, g) =
    (before, got, same ∙ near, given, g)

Given-append :
    (cfg : Config) (first rest : List (ℤ × SignItem)) (p q r : Player)
    → Given cfg first p q
    → Given cfg rest q r
    → Given cfg (first ++ rest) p r
Given-append cfg [] rest p q r g h = Given-same cfg rest p q r g h
Given-append cfg ((now, item) ∷ more) rest p q r (before, got, near, given, g) h =
    (before, got, near, given, Given-append cfg more rest got q r g h)

count_append :
    (first rest : List (ℤ × SignItem)) → count_of (first ++ rest) ≡ count_of first +ℤ count_of rest
count_append [] rest = zero_left (count_of rest)
count_append (x ∷ first) rest =
    ap (λ n. n +ℤ pos 1) (count_append first rest) ∙ swap_one (count_of first) (count_of rest)

-- One request, then the others.
Served-Step :
    (cfg : Config) (zone : ℕ) (r : Request) (rs : List Request) (p : Player) (c d : Player × ℤ)
    → Step cfg zone r p c
    → Served cfg zone rs c.0 d
    → Served cfg zone (r ∷ rs) p (d.0, paid_by r c.1 +ℤ d.1)
unfolding sign_after rewards_after
Served-Step cfg zone r rs p c d h k = record {
  valid = k.valid;
  at_most =
      within_trans (length rs) p.sign.signed_index c.0.sign.signed_index d.0.sign.signed_index
        (h.at_most) (k.at_most);
  sign = k.sign ∙ ap (sign_after cfg zone rs) (h.sign);
  rewards =
      Given-append cfg (reward_next cfg r p.sign) _ p c.0 d.0 (h.rewards)
        (subst (λ s. Given cfg (rewards_after cfg zone rs s) c.0 d.0) (h.sign) (k.rewards));
  paid =
      ap₂ (λ a b. a +ℤ b) (h.paid)
        (k.paid ∙ ap (λ s. count_of (rewards_after cfg zone rs s)) (h.sign))
      ∙ sym (count_append (reward_next cfg r p.sign) _);
}

-- With settings under which no gift panics and a table that has rows, from a valid sign-in on, with
-- requests made after 1970 and days to come that have numbers, serving any requests returns. The
-- sign-in is then the one of a description: a look signs one more day where none was signed on its
-- calendar day, and a request for the next reward, if its day was signed and the table has its row,
-- takes this reward. All else of the player but the messages is what the resources of exactly these
-- rewards, in their order, make of it, and as many requests for a reward succeed.
pub serve_all-Served :
    (cfg : Config) (zone : ℕ) (rs : List Request) (p : Player)
    → IsConfig cfg
    → IsTotal (get_elem? cfg.signs.array 0)
    → IsValid p.sign
    → All (λ r. pos 0 <ℤ time_of r) rs
    → p.sign.signed_index +ℤ pos (length rs) <ℤ max_int32
    → Returns (serve_all cfg zone rs p) (Served cfg zone rs p)
unfolding serve_all sign_after rewards_after
serve_all-Served cfg zone [] p config rows v later room = record {
  valid = v;
  at_most = le_zero p.sign.signed_index;
  sign = refl;
  rewards = refl;
  paid = refl;
}
serve_all-Served cfg zone (r ∷ rs) p config rows v later room =
    Returns->>= _ (serve cfg zone r p) _
      (serve-Step cfg zone r p config rows v later.0
        (first_room (length rs) p.sign.signed_index room))
      (λ c h.
        Returns->>= _ (serve_all cfg zone rs c.0) _
          (serve_all-Served cfg zone rs c.0 config rows (h.valid) later.1
            (served_room (length rs) p.sign.signed_index c.0.sign.signed_index (h.at_most) room))
          (λ d k. Served-Step cfg zone r rs p c d h k))
