-- ===== src/Player/Draw/Free.antt =====
-- First draws that cost nothing (src/game_server/player_draw_card.go, `DrawCard`): the number of draws
-- that the client names only sets the price, since the first drops are given once.
use mm_server.Prelude.{ℕ, zero, suc, ◌≡◌, refl, ◌∙◌, ap, Bool, true, false, some, arith}
use mm_server.Prelude.Int.{ℤ, pos, negsuc, ◌-ℤ◌, int_laws, ◌≤ℤ◌, ltb_ℤ, int_eq}
use mm_server.Prelude.Int32.{IsInt32, mul32, neg32, sub32, add32, wrap32, wrap32_id}
use mm_server.Prelude.Dict.{lookup, contains, insert}
use mm_server.Player.State.{Player, Config, Value, Effect, value, get_value, emit}
use mm_server.Player.Values.{sub_gold, sub_value, inc_value}
use mm_server.Player.Items.{ResourceId, resource_id}
use mm_server.Player.Items.Counts.{send_items_update_keeps}
use mm_server.Player.Resources.{
  get_item_resource_value, resource_value, remove_item_resource, remove_resource_of,
}
use mm_server.Player.Draw.Cards.{
  Session, Tables, Extract, done, ◌>>=◌, of_option, draw_card, pay_draw, priced_draw, chosen_draw,
  first_draw, first_paid, tell_draw, drop_items2, is_given,
}

add32_zero : (a : ℤ) → IsInt32 a → add32 a (pos 0) ≡ a
unfolding add32
add32_zero a h = ap wrap32 (grind int_laws) ∙ wrap32_id a h

-- A sum that is not positive takes nothing.
pub sub_gold_nothing :
    (v : ℤ) (p : Player)
    → v ≤ℤ pos 0
    → IsInt32 (value Value.gold p)
    → (value Value.gold (sub_gold v p).0 ≡ value Value.gold p) × ((sub_gold v p).0.items ≡ p.items)
unfolding sub_gold sub_value inc_value neg32 sub32 ◌-ℤ◌ wrap32
sub_gold_nothing (pos zero) p low small = (add32_zero (value Value.gold p) small, refl)
sub_gold_nothing (pos (suc n)) p low small = absurd (omega arith)
sub_gold_nothing (negsuc n) p low small = ground arith

gold_value :
    (cfg : Config) (now id : ℤ) (p : Player)
    → resource_id id ≡ ResourceId.gold
    → get_item_resource_value cfg now id p ≡ some (p, value Value.gold p)
unfolding get_item_resource_value resource_value
gold_value cfg now id p gold = ap (λ r. resource_value r cfg now id p) gold

gold_paid :
    (cfg : Config) (now id num : ℤ) (p : Player)
    → resource_id id ≡ ResourceId.gold
    → remove_item_resource cfg now id num p ≡ some (sub_gold num p)
unfolding remove_item_resource remove_resource_of
gold_paid cfg now id num p gold = ap (λ r. remove_resource_of r cfg now id num p) gold

module _ (cfg : Config) (tabs : Tables) (rand : ℕ → ℤ → ℤ) (now : ℤ) where
  priced :
      (fuel : ℕ) (draw_type count have : ℤ) (x : Extract) (s : Session)
      → contains draw_type s.first_draw_cards ≡ false
      → is_given x.first_drop_ids ≡ true
      → ltb_ℤ have (mul32 x.cost_num count) ≡ false
      → priced_draw cfg tabs rand now fuel x draw_type count s (s.player, have) ≡ (
          drop_items2 cfg tabs rand now fuel x.first_drop_ids true s
          >>= first_paid cfg tabs rand now x draw_type count)
  unfolding priced_draw chosen_draw first_draw
  priced fuel draw_type count have x s fresh given able = rw (able, fresh, given) refl

  paid_in_gold :
      (count : ℤ) (x : Extract) (first : Bool) (s : Session)
      → resource_id x.cost_id ≡ ResourceId.gold
      → pay_draw cfg tabs rand now x count first s
        ≡ done (
          record s {
            player = tell_draw first s.drops (sub_gold (mul32 x.cost_num count) s.player).0;
          },
          pos 1,
        )
  unfolding pay_draw
  paid_in_gold count x first s gold =
      rw (gold_paid cfg now x.cost_id (mul32 x.cost_num count) s.player gold) refl

-- A first draw whose price is in gold, by a player whose gold is not in debt, with a number of draws at
-- which the machine's product of price and number is not positive (zero, a negative number, or one that
-- overflows): if the first drops are given, the draw succeeds, however little gold the player has, and
-- takes none of it.
pub first_draw_free :
    (cfg : Config) (tabs : Tables) (rand : ℕ → ℤ → ℤ) (now : ℤ) (fuel : ℕ) (draw_type count : ℤ)
    (x : Extract) (s q : Session)
    → lookup draw_type tabs.extracts ≡ some x
    → contains draw_type s.first_draw_cards ≡ false
    → is_given x.first_drop_ids ≡ true
    → resource_id x.cost_id ≡ ResourceId.gold
    → mul32 x.cost_num count ≤ℤ pos 0
    → pos 0 ≤ℤ value Value.gold s.player
    → drop_items2 cfg tabs rand now fuel x.first_drop_ids true s ≡ done (q, true)
    → IsInt32 (value Value.gold q.player)
    → (e : Session) × (draw_card cfg tabs rand now fuel draw_type count s ≡ done (e, pos 1))
      × (value Value.gold e.player ≡ value Value.gold q.player)
      × (e.player.items ≡ q.player.items)
unfolding draw_card tell_draw first_paid
first_draw_free cfg tabs rand now fuel draw_type count x s q row fresh given gold price able drops
      small =
    let kept = sub_gold_nothing (mul32 x.cost_num count) q.player price small in
    let paid : Player = (sub_gold (mul32 x.cost_num count) q.player).0 in
    let sent = send_items_update_keeps (emit Effect.send_cats_update paid) in
    let marked = record q { first_draw_cards = insert draw_type (pos 1) q.first_draw_cards } in
    let told = tell_draw true marked.drops paid in
    (
      record marked { player = told },
      rw (row, draw_card)
          (ap (λ o. of_option o >>= priced_draw cfg tabs rand now fuel x draw_type count s)
              (gold_value cfg now x.cost_id s.player gold)
            ∙ priced cfg tabs rand now fuel draw_type count _ x s fresh given (ground arith)
            ∙ ap (λ r. r >>= first_paid cfg tabs rand now x draw_type count) drops
            ∙ paid_in_gold cfg tabs rand now count x true marked gold),
      ap (get_value Value.gold) sent.0 ∙ kept.0,
      sent.1 ∙ kept.1,
    )
