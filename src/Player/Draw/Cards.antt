-- ===== src/Player/Draw/Cards.antt =====
-- What a draw gives and costs (src/game_server/player_draw_card.go, `drop_item` after its loop,
-- `DropItems`, `DropItems2` and `DrawCard`; src/game_server/utils.go, `rand31n_from_range`). Cats and
-- buildings leave an effect; the n-th number that `rand` returns below a limit is an argument.
use mm_server.Prelude.{
  ℕ, zero, suc, Bool, true, false, Option, none, some, List, [], ◌∷◌, ◌++◌, if◌then◌else◌, not,
  ◌&&◌,
}
use mm_server.Prelude.Int.{ℤ, pos, negsuc, pos_part, ltb_ℤ, leb_ℤ, eqb_ℤ, int_eq}
use mm_server.Prelude.Int32.{add32, sub32, mul32}
use mm_server.Prelude.Dict.{Dict, lookup, contains, insert}
use mm_server.Player.State.{Player, Config, Effect, ItemInfo, emit}
use mm_server.Player.Items.{add_item, send_items_update}
use mm_server.Player.Resources.{add_item_resource, remove_item_resource, get_item_resource_value}
use mm_server.Player.Draw.{DropCardItem, DropCardTypeLib, Pick, pick_drop}

-- How code ends that may panic, or not end in the rounds given.
pub data Run (A : Type 0) : Type 0 where
  done : A → Run A
  fault : Run A
  out_of_fuel : Run A

infixl 5 ◌>>=◌
abbrev pub ◌>>=◌ : {A B : Type 0} → Run A → (A → Run B) → Run B
(done a) >>= f = f a
fault >>= f = fault
out_of_fuel >>= f = out_of_fuel

abbrev pub of_option : {A : Type 0} → Option A → Run A
of_option none = fault
of_option (some a) = done a

-- One row of src/tables/table_extract.go; `drop_items` pairs a library with a number.
pub record Extract : Type 0 where
  pub drop_items : List (ℤ × ℤ)
  pub cost_id : ℤ
  pub cost_num : ℤ
  pub first_drop_ids : List ℤ

pub record Tables : Type 0 where
  pub libs : Dict ℤ DropCardTypeLib
  pub is_cat : ℤ → Bool
  -- whether `AddCat` returns a cat: it returns nil where a range of the cat's row is empty
  pub adds_cat : ℤ → Bool
  pub is_building : ℤ → Bool
  pub extracts : Dict ℤ Extract

-- What was given: the lists of the message to the client.
pub record Drops : Type 0 where
  pub items : List ItemInfo
  pub cats : List ℤ
  pub buildings : List (ℤ × ℤ)

-- The player, what was given before and now, and how many random numbers were drawn.
pub record Session : Type 0 where
  pub player : Player
  pub used_drop_ids : Dict ℤ ℤ
  pub first_draw_cards : Dict ℤ ℤ
  pub drops : Drops
  pub drawn : ℕ

-- `rand.Int31n(n)`, which panics where n is not positive.
unfoldable pub int31n : (ℕ → ℤ → ℤ) → ℤ → Session → Run (Session × ℤ)
int31n rand n s =
    if leb_ℤ n (pos 0) then fault else done (record s { drawn = suc s.drawn }, rand s.drawn n)

-- `rand31n_from_range`; its callers here drop the flag.
unfoldable pub rand31n_from_range : (ℕ → ℤ → ℤ) → ℤ → ℤ → Session → Run (Session × ℤ)
rand31n_from_range rand low high s =
    let roll = int31n rand (add32 (sub32 high low) (pos 1)) s in
    if ltb_ℤ high low
    then done (s, pos 0)
    else if eqb_ℤ low high
    then done (s, low)
    else roll >>= λ (q, n). done (q, add32 n low)

abbrev info : ℤ → ℤ → ItemInfo
info id num = record { item_cfg_id = id; item_num = num; remain_seconds = pos 0 }

abbrev give_item : ItemInfo → Session → Session
give_item i s = record s { drops = record (s.drops) { items = s.drops.items ++ i ∷ [] } }

abbrev with_player : Player → Session → Session
with_player p s = record s { player = p }

abbrev pub no_drops : Drops
no_drops = record { items = []; cats = []; buildings = [] }

-- `total_drop_count` of `DropItems`, from what was summed so far
unfoldable pub sum_nums : List (ℤ × ℤ) → ℤ → ℤ
sum_nums [] total = total
sum_nums ((id, num) ∷ rest) total = sum_nums rest (add32 total num)

-- `total_drop_count` of `DropItems2`
unfoldable pub sum_seconds : List ℤ → ℤ → ℤ
sum_seconds (id ∷ num ∷ rest) total = sum_seconds rest (add32 total num)
sum_seconds _ total = total

-- `E_ERR_ITEM_NUM_NOT_ENOUGH` and `E_ERR_DRAW_WRONG_DRAW_TYPE`
abbrev pub item_num_not_enough : ℤ
item_num_not_enough = negsuc 101001

abbrev pub wrong_draw_type : ℤ
wrong_draw_type = negsuc 100299

-- `len(ids) > 0`
abbrev pub is_given : List ℤ → Bool
is_given [] = false
is_given (_ ∷ _) = true

-- What the client is told at the end of a draw.
unfoldable pub tell_draw : Bool → Drops → Player → Player
tell_draw first d p =
    emit (Effect.send_draw_result first d.items d.cats d.buildings)
      (emit Effect.send_depot_building_update (send_items_update (emit Effect.send_cats_update p)))

module _ (cfg : Config) (tabs : Tables) (rand : ℕ → ℤ → ℤ) (now : ℤ) where
  give_cat : Bool → ℤ → Session → Session
  give_cat badd id s =
      let q = if badd then emit (Effect.add_cat id) s.player else s.player in
      let told = if badd && not (tabs.adds_cat id) then [] else id ∷ [] in
      record s { player = q; drops = record (s.drops) { cats = s.drops.cats ++ told } }

  give_building : Bool → ℤ → ℤ → Session → Session
  give_building badd id num s =
      let q = if badd then emit (Effect.add_depot_building id num) s.player else s.player in
      record s {
        player = q;
        drops = record (s.drops) { buildings = s.drops.buildings ++ (id, num) ∷ [] };
      }

  give_added : ℤ → ℤ → Session → Player × ℤ → Run Session
  give_added id num s (q, code) =
      done
        (if ltb_ℤ code (pos 0) then with_player q s else give_item (info id num) (with_player q s))

  -- Neither an item, a cat nor a building: a resource.
  give_resource : Bool → ℤ → ℤ → Session → Run Session
  unfolding give_added
  give_resource badd id num s =
      if badd
      then of_option (add_item_resource cfg now id num s.player) >>= give_added id num s
      else done (give_item (info id num) s)

  -- `drop_item` at the entry that it picked.
  unfoldable pub give_drop : Bool → DropCardItem → Session → Run Session
  unfolding give_cat give_building give_resource
  give_drop badd t s = do
    (q, num) ← rand31n_from_range rand t.min_num t.max_num s
    let id = t.drop_type
    let added = if badd then (add_item cfg now id num true q.player).0 else q.player
    if contains id cfg.item_table
        then done (give_item (info id num) (with_player added q))
        else if tabs.is_cat id
        then done (give_cat badd id q)
        else if tabs.is_building id
        then done (give_building badd id num q)
        else give_resource badd id num q

  after_pick : Bool → Pick → Session → Run Session
  after_pick badd (Pick.picked t used) s = give_drop badd t (record s { used_drop_ids = used })
  after_pick badd (Pick.nothing used) s = done (record s { used_drop_ids = used })
  after_pick badd Pick.fault s = fault
  after_pick badd Pick.out_of_fuel s = out_of_fuel

  -- `drop_item`
  unfoldable pub drop_item : ℕ → DropCardTypeLib → Bool → Bool → Session → Run Session
  unfolding after_pick
  drop_item fuel lib check_same badd s = do
    (q, r) ← int31n rand lib.total_weight s
    after_pick badd (pick_drop lib check_same fuel r q.used_drop_ids) q

  -- So many drops from one library.
  unfoldable pub drop_times : ℕ → DropCardTypeLib → Bool → Bool → ℕ → Session → Run Session
  drop_times fuel lib check_same badd zero s = done s
  drop_times fuel lib check_same badd (suc n) s = do
    q ← drop_item fuel lib check_same badd s
    drop_times fuel lib check_same badd n q

  -- One pass of `DropItems` over its entries: a library that is missing ends it when it is first
  -- needed, and what was given stays given.
  unfoldable pub drop_pass : ℕ → Bool → List (ℤ × ℤ) → Session → Run (Session × Bool)
  drop_pass fuel badd [] s = done (s, true)
  drop_pass fuel badd ((id, num) ∷ rest) s = elim (leb_ℤ num (pos 0)) [
    | true ↦ drop_pass fuel badd rest s
    | false ↦ elim (lookup id tabs.libs) [
      | none ↦ done (s, false)
      | some lib ↦
          drop_times fuel lib true badd (pos_part num) s >>= λ q. drop_pass fuel badd rest q
    ]
  ]

  unfoldable pub drop_rounds : ℕ → Bool → List (ℤ × ℤ) → ℕ → Session → Run (Session × Bool)
  drop_rounds fuel badd items zero s = done (s, true)
  drop_rounds fuel badd items (suc n) s = do
    (q, ok) ← drop_pass fuel badd items s
    let further = drop_rounds fuel badd items n q
    if ok then further else done (q, false)

  -- `DropItems`. The capacity of its lists is an int32 product: `make` panics where it is negative.
  unfoldable pub drop_items : ℕ → List (ℤ × ℤ) → ℤ → Bool → Session → Run (Session × Bool)
  drop_items fuel items draw_count badd s =
      let run =
        drop_rounds fuel badd items (pos_part draw_count)
          (record s { used_drop_ids = []; drops = no_drops }) in
      if ltb_ℤ (mul32 draw_count (sum_nums items (pos 0))) (pos 0) then fault else run

  -- The loop of `DropItems2`, which looks each library up before it draws from it.
  unfoldable pub drop_list : ℕ → Bool → List ℤ → Session → Run (Session × Bool)
  drop_list fuel badd (id ∷ num ∷ rest) s = elim (lookup id tabs.libs) [
    | none ↦ done (s, false)
    | some lib ↦ drop_times fuel lib false badd (pos_part num) s >>= λ q. drop_list fuel badd rest q
  ]
  drop_list fuel badd _ s = done (s, true)

  -- `DropItems2`
  unfoldable pub drop_items2 : ℕ → List ℤ → Bool → Session → Run (Session × Bool)
  drop_items2 fuel ids badd s =
      let run = drop_list fuel badd ids (record s { drops = no_drops }) in
      if ltb_ℤ (sum_seconds ids (pos 0)) (pos 0) then fault else run

  -- The end of `DrawCard`: what the draw costs is taken after it.
  unfoldable pub pay_draw : Extract → ℤ → Bool → Session → Run (Session × ℤ)
  pay_draw x draw_count first s = do
    (q, _) ←
        of_option (remove_item_resource cfg now x.cost_id (mul32 x.cost_num draw_count) s.player)
    done (with_player (tell_draw first s.drops q) s, pos 1)

  unfoldable pub first_paid : Extract → ℤ → ℤ → Session × Bool → Run (Session × ℤ)
  first_paid x draw_type draw_count (q, ok) =
      let marked = record q { first_draw_cards = insert draw_type (pos 1) q.first_draw_cards } in
      let paid = pay_draw x draw_count true marked in if ok then paid else done (q, wrong_draw_type)

  unfoldable pub first_draw : ℕ → Extract → ℤ → ℤ → Session → Run (Session × ℤ)
  first_draw fuel x draw_type draw_count s =
      drop_items2 fuel x.first_drop_ids true s >>= first_paid x draw_type draw_count

  later_draw : ℕ → Extract → ℤ → Session → Run (Session × ℤ)
  later_draw fuel x draw_count s = do
    (q, ok) ← drop_items fuel x.drop_items draw_count true s
    let paid = pay_draw x draw_count false q
    if ok then paid else done (q, wrong_draw_type)

  -- The draw that a player makes who can pay for it.
  unfoldable pub chosen_draw : ℕ → Extract → ℤ → ℤ → Session → Run (Session × ℤ)
  unfolding first_draw later_draw
  chosen_draw fuel x draw_type draw_count s =
      if not (contains draw_type s.first_draw_cards) && is_given x.first_drop_ids
      then first_draw fuel x draw_type draw_count s
      else later_draw fuel x draw_count s

  unfoldable pub priced_draw : ℕ → Extract → ℤ → ℤ → Session → Player × ℤ → Run (Session × ℤ)
  priced_draw fuel x draw_type draw_count s (p, have) =
      let q = with_player p s in
      let drawn = chosen_draw fuel x draw_type draw_count q in
      if ltb_ℤ have (mul32 x.cost_num draw_count) then done (q, item_num_not_enough) else drawn

  -- `DrawCard`
  unfoldable pub draw_card : ℕ → ℤ → ℤ → Session → Run (Session × ℤ)
  draw_card fuel draw_type draw_count s = elim (lookup draw_type tabs.extracts) [
    | none ↦ done (s, negsuc 0)
    | some x ↦
        of_option (get_item_resource_value cfg now x.cost_id s.player)
        >>= priced_draw fuel x draw_type draw_count s
  ]
