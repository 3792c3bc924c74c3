-- ===== src/Tests/Draws.antt =====
-- Draws from concrete libraries.
use mm_server.Prelude.{ℕ, ◌≡◌, refl, true, false, some, List, [], ◌∷◌, arith}
use mm_server.Prelude.Int.{ℤ, pos, int_eq, ◌*ℤ◌, ◌+ℤ◌, ◌-ℤ◌}
use mm_server.Prelude.Int32.{wrap32, mul32, add32, sub32}
use mm_server.Prelude.Dict.{lookup, insert, contains, size}
use mm_server.Prelude.Weights.{total_of, FallsTo}
use mm_server.Player.State.{Value, value}
use mm_server.Player.Items.{resource_id, add_item, chk_add_item_by_num, item_update, added_item}
use mm_server.Player.Draw.{
  DropCardItem, DropCardTypeLib, Pick, pick_drop, load_drop_cards, pick_loop, turn, visit, use_drop,
  count_rows, count_row, file_rows, file_row, counted,
}
use mm_server.Player.Draw.Table.{weight_of, group_of, Loaded, load_drop_cards-Loaded}
use mm_server.Player.Draw.Choice.{IsReady, pick_drop-FallsTo}
use mm_server.Player.Draw.Repeats.{PicksNew}
use mm_server.Player.Draw.Ends.{pick_drop-PicksNew}
use mm_server.Player.Draw.Hangs.{second_draw_hangs}
use mm_server.Player.Draw.Cards.{
  Tables, Extract, Session, done, no_drops, draw_card, drop_items2, drop_list, drop_times,
  drop_item, give_drop, int31n, rand31n_from_range, sum_seconds,
}
use mm_server.Player.Draw.Free.{first_draw_free}
use mm_server.Tests.Data.{config, player}

abbrev row : ℤ → ℤ → ℤ → DropCardItem
row group id weight = record {
  group_id = group;
  drop_type = id;
  weight = weight;
  min_num = pos 1;
  max_num = pos 1;
}

abbrev card_rows : List DropCardItem
card_rows =
    row (pos 1) (pos 100) (pos 5) ∷ row (pos 2) (pos 7) (pos 9) ∷ row (pos 1) (pos 3) (pos 4) ∷ []

load_drop_cards-Loaded_example :
    Loaded (pos 1) (group_of (pos 1) card_rows) (lookup (pos 1) (load_drop_cards card_rows))
unfolding total_of
load_drop_cards-Loaded_example =
    load_drop_cards-Loaded card_rows (pos 1) (omega arith, (omega arith, (omega arith, tt)))
      (omega arith)

abbrev pair : DropCardTypeLib
pair = record {
  drop_lib_type = pos 1;
  total_count = 2;
  total_weight = pos 9;
  drop_items = row (pos 1) (pos 100) (pos 5) ∷ row (pos 1) (pos 3) (pos 4) ∷ [];
}

loaded_pair : lookup (pos 1) (load_drop_cards card_rows) ≡ some pair
unfolding load_drop_cards lookup count_rows count_row file_rows file_row counted insert add32 wrap32
    ◌+ℤ◌
loaded_pair = refl

pair-IsReady : IsReady pair
pair-IsReady = record { count = refl; weighted = (omega arith, (omega arith, tt)) }

pick_drop-FallsTo_example :
    (t : DropCardItem) × (pick_drop pair false 2 (pos 6) [] ≡ Pick.picked t [])
    × FallsTo weight_of pair.drop_items 6 t
unfolding total_of
pick_drop-FallsTo_example =
    pick_drop-FallsTo pair 2 6 [] pair-IsReady (omega arith) (omega arith) (omega arith)

-- The first entry was given, the number falls to it, and the second is picked.
pick_drop-PicksNew_example :
    PicksNew pair ((pos 100, pos 5) ∷ []) (pick_drop pair true 6 (pos 2) ((pos 100, pos 5) ∷ []))
unfolding total_of size contains lookup
pick_drop-PicksNew_example =
    pick_drop-PicksNew pair ((pos 100, pos 5) ∷ []) 6 2 1 (row (pos 1) (pos 3) (pos 4)) pair-IsReady
      (omega arith) (omega arith) (λ h. absurd (omega arith)) (omega arith) refl refl (omega arith)

second_draw_hangs_example :
    (pick_drop pair true 2 (pos 5) []
      ≡ Pick.picked (row (pos 1) (pos 3) (pos 4)) ((pos 3, pos 4) ∷ []))
    × (pick_drop pair true 1000 (pos 8) ((pos 3, pos 4) ∷ []) ≡ Pick.out_of_fuel)
unfolding total_of
second_draw_hangs_example =
    second_draw_hangs pair (row (pos 1) (pos 100) (pos 5)) (row (pos 1) (pos 3) (pos 4)) 1000 5 8
      pair-IsReady refl (omega arith) (omega arith) (omega arith) (omega arith) (omega arith)

abbrev extract : Extract
extract = record {
  drop_items = (pos 1, pos 1) ∷ [];
  cost_id = pos 2;
  cost_num = pos 50;
  first_drop_ids = pos 1 ∷ pos 1 ∷ [];
}

abbrev tables : Tables
tables = record {
  libs = (pos 1, pair) ∷ [];
  is_cat = λ id. false;
  adds_cat = λ id. false;
  is_building = λ id. false;
  extracts = (pos 4, extract) ∷ [];
}

abbrev session : Session
session = record {
  player = record player { info = record (player.info) { gold = pos 0 } };
  used_drop_ids = [];
  first_draw_cards = [];
  drops = no_drops;
  drawn = 0;
}

abbrev zeros : ℕ → ℤ → ℤ
zeros i n = pos 0

abbrev given : Session
given = record session {
  player = (add_item config (pos 0) (pos 100) (pos 1) true session.player).0;
  drops = record no_drops {
    items = record { item_cfg_id = pos 100; item_num = pos 1; remain_seconds = pos 0 } ∷ [];
  };
  drawn = 1;
}

given_first :
    drop_items2 config tables zeros (pos 0) 4 extract.first_drop_ids true session
    ≡ done (given, true)
unfolding drop_items2 drop_list drop_times drop_item give_drop int31n rand31n_from_range sum_seconds
    pick_drop pick_loop turn visit use_drop contains lookup insert size sub32 add32 wrap32 ◌+ℤ◌ ◌-ℤ◌
given_first = refl

-- Zero draws, by a player without gold.
first_draw_free_example :
    (e : Session) × (draw_card config tables zeros (pos 0) 4 (pos 4) (pos 0) session
      ≡ done (e, pos 1))
    × (value Value.gold e.player ≡ value Value.gold given.player)
    × (e.player.items ≡ given.player.items)
unfolding mul32 wrap32 ◌*ℤ◌ lookup contains resource_id add_item chk_add_item_by_num item_update
    added_item
first_draw_free_example =
    first_draw_free config tables zeros (pos 0) 4 (pos 4) (pos 0) extract session given refl refl
      refl refl (omega arith) (omega arith) given_first
      (record { lower = omega arith; upper = omega arith })
