-- ===== src/Player/Draw.antt =====
-- Drawing cards: how an entry of a drop library is picked (src/game_server/player_draw_card.go,
-- `drop_item`), and how the libraries are built from their table (src/tables/table_drop_card.go).
-- The numbers that `rand` returns are arguments.
pub mod Table
pub mod Choice
pub mod Repeats
pub mod Ends
pub mod Hangs
pub mod Cards
pub mod Free
use mm_server.Prelude.{
  ℕ, zero, suc, Bool, true, false, Option, none, some, List, [], ◌∷◌, ◌++◌, if◌then◌else◌, ltb,
  ◌==◌, ◌&&◌, ◌||◌,
}
use mm_server.Prelude.Int.{ℤ, pos, ltb_ℤ, int_eq}
use mm_server.Prelude.Int32.{add32, sub32}
use mm_server.Prelude.Lists.{get_elem?}
use mm_server.Prelude.Dict.{Dict, lookup, contains, insert, size}

-- One row of the table.
pub record DropCardItem : Type 0 where
  pub group_id : ℤ
  pub drop_type : ℤ
  pub weight : ℤ
  pub min_num : ℤ
  pub max_num : ℤ

-- The rows of one group. `total_count` counts rows of a file, so that it cannot overflow.
pub record DropCardTypeLib : Type 0 where
  pub drop_lib_type : ℤ
  pub total_count : ℕ
  pub total_weight : ℤ
  pub drop_items : List DropCardItem

-- What the first loop of the loader makes of a group at one of its rows.
unfoldable pub counted : DropCardItem → Option DropCardTypeLib → DropCardTypeLib
counted t none = record {
  drop_lib_type = t.group_id;
  total_count = 1;
  total_weight = t.weight;
  drop_items = [];
}
counted t (some l) = record l {
  total_count = suc l.total_count;
  total_weight = add32 l.total_weight t.weight;
}

unfoldable pub count_row : DropCardItem → Dict ℤ DropCardTypeLib → Dict ℤ DropCardTypeLib
count_row t libs = insert t.group_id (counted t (lookup t.group_id libs)) libs

unfoldable pub count_rows : List DropCardItem → Dict ℤ DropCardTypeLib → Dict ℤ DropCardTypeLib
count_rows [] libs = libs
count_rows (t ∷ ts) libs = count_rows ts (count_row t libs)

-- The second loop: files each row with its group.
unfoldable pub file_row : DropCardItem → Dict ℤ DropCardTypeLib → Dict ℤ DropCardTypeLib
file_row t libs = elim (lookup t.group_id libs) [
  | none ↦ libs
  | some l ↦ insert t.group_id (record l { drop_items = l.drop_items ++ t ∷ [] }) libs
]

unfoldable pub file_rows : List DropCardItem → Dict ℤ DropCardTypeLib → Dict ℤ DropCardTypeLib
file_rows [] libs = libs
file_rows (t ∷ ts) libs = file_rows ts (file_row t libs)

-- `DropCardTableManager.Init` after the file was parsed.
unfoldable pub load_drop_cards : List DropCardItem → Dict ℤ DropCardTypeLib
load_drop_cards rows = file_rows rows (count_rows rows [])

-- The variables of the loop in `drop_item`, and `used_drop_ids` of the player.
pub record Cursor : Type 0 where
  pub i : ℕ
  pub rand_val : ℤ
  pub get_same : Bool
  pub used_drop_ids : Dict ℤ ℤ

-- How the loop ends: with an entry, with none, by an index out of range, or not in the rounds given.
pub data Pick : Type 0 where
  picked : DropCardItem → Dict ℤ ℤ → Pick
  nothing : Dict ℤ ℤ → Pick
  fault : Pick
  out_of_fuel : Pick

pub data Turn : Type 0 where
  stop : Pick → Turn
  next : Cursor → Turn

-- The entry was given before: look on from here, and from the last entry on at the start.
unfoldable pub skip_same : DropCardTypeLib → Cursor → Cursor
skip_same lib c = record {
  i = suc (if suc c.i == lib.total_count then 0 else c.i);
  rand_val = c.rand_val;
  get_same = true;
  used_drop_ids = if size c.used_drop_ids == lib.total_count then [] else c.used_drop_ids;
}

unfoldable pub use_drop : Bool → DropCardItem → Dict ℤ ℤ → Dict ℤ ℤ
use_drop check_same t used = if check_same then insert t.drop_type t.weight used else used

-- The body of the loop at one entry.
unfoldable pub visit : DropCardTypeLib → Bool → DropCardItem → Cursor → Turn
visit lib check_same t c =
    if ltb_ℤ c.rand_val t.weight || c.get_same
    then if check_same && contains t.drop_type c.used_drop_ids
      then Turn.next (skip_same lib c)
      else Turn.stop (Pick.picked t (use_drop check_same t c.used_drop_ids))
    else Turn.next (record c { i = suc c.i; rand_val = sub32 c.rand_val t.weight })

unfoldable pub turn : DropCardTypeLib → Bool → Cursor → Turn
turn lib check_same c =
    if ltb c.i lib.total_count
    then elim (get_elem? lib.drop_items c.i) [
      | none ↦ Turn.stop Pick.fault
      | some t ↦ visit lib check_same t c
    ]
    else Turn.stop (Pick.nothing c.used_drop_ids)

-- The loop, in so many rounds.
unfoldable pub pick_loop : DropCardTypeLib → Bool → ℕ → Cursor → Pick
pick_loop lib check_same zero c = Pick.out_of_fuel
pick_loop lib check_same (suc n) c = elim (turn lib check_same c) [
  | Turn.stop p ↦ p
  | Turn.next d ↦ pick_loop lib check_same n d
]

-- `drop_item` up to the entry that it picks, where `rand.Int31n(TotalWeight)` returned `r`.
unfoldable pub pick_drop : DropCardTypeLib → Bool → ℕ → ℤ → Dict ℤ ℤ → Pick
pick_drop lib check_same fuel r used =
    let fresh = if check_same && (size used == lib.total_count) then [] else used in
    pick_loop lib check_same fuel
      (record { i = 0; rand_val = r; get_same = false; used_drop_ids = fresh })
