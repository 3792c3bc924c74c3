-- ===== src/Ranks.antt =====
-- The short ranking list (src/libs/utils/short_ranklist.go): an array of items, the greatest first,
-- with a map from the key of an item to its place. The items are behind an interface. The length of
-- the array is an int32, so that no place overflows; the list's lock is held by each operation.
pub mod Shift
pub mod Order
pub mod Search
pub mod Raise
pub mod Lower
pub mod Insert
pub mod Update
pub mod Delete
pub mod Runs
pub mod Items
use mm_server.Prelude.{
  ℕ, zero, suc, ◌+◌, ◌-◌, Bool, true, false, Option, none, some, List, [], ◌∷◌, if◌then◌else◌, ltb,
  leb, ◌==◌, not, Eq,
}
use mm_server.Prelude.Fault.{◌>>=◌}
use mm_server.Prelude.Dict.{Dict, lookup, insert, erase}

-- `ShortRankItem`. `assign` and `add` give what the receiver holds after the call.
pub record ShortRankItem (A K V : Type 0) : Type 0 where
  pub less : A → A → Bool
  pub greater : A → A → Bool
  pub get_key : A → K
  pub get_value : A → V
  pub assign : A → A → A
  pub add : A → A → A
  pub new : A → A

-- A place of the array that holds no item holds nil.
pub record ShortRankList (A K : Type 0) : Type 0 where
  pub items : ℕ → Option A
  pub max_num : ℕ
  pub curr_num : ℕ
  pub keys_map : Dict K ℕ

module _ {A K V : Type 0} ⦃e : Eq K⦄ (ops : ShortRankItem A K V) where
  abbrev pub Ranks : Type 0
  Ranks = ShortRankList A K

  -- `Init`, of a list that was not used before
  unfoldable pub init : ℕ → Option Ranks
  init max =
      if max == 0
      then none
      else some (record { items = λ i. none; max_num = max; curr_num = 0; keys_map = [] })

  -- An item that a method is called on: a panic out of range, and on nil.
  unfoldable pub item_at : ℕ → Ranks → Option A
  item_at i l = if ltb i l.max_num then l.items i else none

  abbrev pub set_at : ℕ → Option A → (ℕ → Option A) → ℕ → Option A
  set_at i x items j = if j == i then x else items j

  unfoldable pub put_at : ℕ → Option A → Ranks → Option Ranks
  put_at i x l = if ltb i l.max_num then some (record l { items = set_at i x l.items }) else none

  -- `this.keys_map[k] = i`
  abbrev pub place_key : K → ℕ → Ranks → Ranks
  place_key k i l = record l { keys_map = insert k i l.keys_map }

  -- An item is put at a place, and the place noted for its key.
  unfoldable pub move_to : K → ℕ → A → Ranks → Option Ranks
  move_to k i x l = do m ← put_at i (some x) l; some (place_key k i m)

  -- The loop that looks up the list, from place n - 1 on: the place that the item goes to.
  unfoldable pub rise : A → ℕ → Ranks → Option ℕ
  rise item zero l = some 0
  rise item (suc n) l = do
    x ← item_at n l
    let up = rise item n l
    if ops.greater item x then up else some (suc n)

  -- The loop that looks down the list over n places from place i on: the place where it stops.
  unfoldable pub fall : A → ℕ → ℕ → Ranks → Option ℕ
  fall item i zero l = some i
  fall item i (suc n) l = do
    x ← item_at i l
    let on = fall item (suc i) n l
    if ops.greater item x then some i else on

  -- The items of n places from `low` on go down by one, the last first.
  unfoldable pub shift_down : ℕ → ℕ → Ranks → Option Ranks
  shift_down low zero l = some l
  shift_down low (suc n) l = do
    x ← item_at (low + n) l
    m ← move_to (ops.get_key x) (suc (low + n)) x l
    shift_down low n m

  -- The items of n places behind `low` go up by one, the first first.
  unfoldable pub shift_up : ℕ → ℕ → Ranks → Option Ranks
  shift_up low zero l = some l
  shift_up low (suc n) l = do
    x ← item_at (suc low) l
    m ← move_to (ops.get_key x) low x l
    shift_up (suc low) n m

  -- The new item goes from the end to place `p`, in front of those that stand there.
  unfoldable pub insert_at : ℕ → ℕ → K → A → Ranks → Option Ranks
  insert_at p last k fresh l = do m ← shift_down p (last - p) l; move_to k p fresh m

  -- `Update` with a key that the list does not have.
  unfoldable pub add_item : A → Ranks → Option (Ranks × Bool)
  add_item item l = do
    let fresh = ops.assign (ops.new item) item
    let last = l.curr_num
    m ← move_to (ops.get_key item) last fresh l
    p ← rise item last m
    let placed = insert_at p last (ops.get_key item) fresh m
    r ← if p == last then some m else placed
    some (record r { curr_num = suc last }, true)

  -- `Update` where the item at `idx` is now greater than it was.
  unfoldable pub raise_item : ℕ → A → A → Ranks → Option (Ranks × Bool)
  raise_item idx old item l = do
    p ← rise item idx l
    m ← shift_down p (idx - p) l
    let renewed = ops.assign old item
    r ← move_to (ops.get_key renewed) p renewed m
    some (r, true)

  -- `Update` where the item at `idx` is now less than it was.
  unfoldable pub lower_item : ℕ → A → A → Ranks → Option (Ranks × Bool)
  lower_item idx old item l = do
    i ← fall item (suc idx) (l.curr_num - suc idx) l
    m ← shift_up idx (i - 1 - idx) l
    let renewed = ops.assign old item
    r ← move_to (ops.get_key renewed) (i - 1) renewed m
    some (r, true)

  unfoldable pub update_item : ℕ → A → A → Ranks → Option (Ranks × Bool)
  update_item idx old item l =
      let raised = raise_item idx old item l in
      let lowered = lower_item idx old item l in
      if ops.greater item old
      then raised
      else if ops.less item old
      then lowered
      else some (l, false)

  -- `Update` with a key that the list has, by what is at its place.
  unfoldable pub update_at : A → Bool → Ranks → ℕ → Option A → Option (Ranks × Bool)
  update_at item add l idx none = some (l, false)
  update_at item add l idx (some old) =
      update_item idx old (if add then ops.add item old else item) l

  -- `Update`. The caller's own item, to which `Add` adds, is not part of the result.
  unfoldable pub update : A → Bool → Ranks → Option (Ranks × Bool)
  update item add l = elim (lookup (ops.get_key item) l.keys_map) [
    | none ↦
        let added = add_item item l in if leb l.max_num l.curr_num then some (l, false) else added
    | some idx ↦
        let found = update_at item add l idx (l.items idx) in
        if ltb idx l.max_num then found else none
  ]

  -- `Delete`
  unfoldable pub delete : K → Ranks → Option (Ranks × Bool)
  delete key l = elim (lookup key l.keys_map) [
    | none ↦ some (l, false)
    | some idx ↦ do
      m ← shift_up idx (l.curr_num - 1 - idx) l
      r ← put_at (l.curr_num - 1) none m
      some (record r { keys_map = erase key r.keys_map; curr_num = l.curr_num - 1 }, true)
  ]

  -- `Clear`
  unfoldable pub clear : Ranks → Ranks
  clear l = record l { items = λ i. none; curr_num = 0; keys_map = [] }

  -- `GetRank`: 0 for a key that the list does not have.
  unfoldable pub get_rank : K → Ranks → ℕ
  get_rank key l = elim (lookup key l.keys_map) [ none ↦ 0 | some i ↦ suc i ]

  -- What `GetByRank` returns of an item: nil for a place without one.
  unfoldable pub shown : Option A → Option (K × V)
  shown none = none
  shown (some x) = some (ops.get_key x, ops.get_value x)

  -- `GetByRank`; rank 0 is an index below the array.
  unfoldable pub get_by_rank : ℕ → Ranks → Option (Option (K × V))
  get_by_rank zero l = none
  get_by_rank (suc i) l =
      if ltb l.curr_num (suc i)
      then some none
      else if ltb i l.max_num
      then some (shown (l.items i))
      else none

-- Calls of the list, in the order in which they hold its lock.
pub data Request (A K : Type 0) : Type 0 where
  ask_update : A → Bool → Request A K
  ask_delete : K → Request A K
  ask_clear : Request A K

module _ {A K V : Type 0} ⦃e : Eq K⦄ (ops : ShortRankItem A K V) where
  unfoldable pub serve : Request A K → ShortRankList A K → Option (ShortRankList A K × Bool)
  serve (Request.ask_update item add) l = update ops item add l
  serve (Request.ask_delete key) l = delete ops key l
  serve Request.ask_clear l = some (clear ops l, true)

  unfoldable pub serve_all : List (Request A K) → ShortRankList A K → Option (ShortRankList A K)
  serve_all [] l = some l
  serve_all (q ∷ qs) l = do (m, _) ← serve q l; serve_all qs m
