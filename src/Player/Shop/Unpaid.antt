-- ===== src/Player/Shop/Unpaid.antt =====
-- Purchases for which less is taken than their price (src/game_server/player_shop.go, `buy_item`).
use mm_server.Prelude.{◌≡◌, refl, sym, ap, subst, ◌∙◌, Bool, true, false, none, some, arith}
use mm_server.Prelude.Fault.{Returns, Returns-map}
use mm_server.Prelude.Int.{ℤ, pos, ◌≤ℤ◌, ◌<ℤ◌, ltb_ℤ, eqb_ℤ, int_eq}
use mm_server.Prelude.Int32.{mul32, IsInt32}
use mm_server.Player.State.{Player, Config, Value, value, get_value}
use mm_server.Player.Items.{ResourceId, resource_id}
use mm_server.Player.Items.Counts.{send_items_update_keeps}
use mm_server.Player.Values.Bounds.{IsCount, sub_diamond_clamps}
use mm_server.Player.Draw.Free.{sub_gold_nothing}
use mm_server.Player.Shop.{
  ShopItem, Shopper, buy_row, take_limited, buy_tested, price_error_of, hand_over, give_bag,
  price_error, priced_in, is_empty, has_suffix, mcard, charge, send_updates,
}

-- What of the counters is left of a purchase: the price is taken after the goods were given.
handed_over :
    (cfg : Config) (now : ℤ) (t : ShopItem) (num : ℤ) (send : Bool) (s : Shopper) (got : Player)
    → give_bag cfg now (mul32 num t.number) t.bag_items s.player ≡ some got
    → Returns (hand_over cfg now t num send s) (λ (q, code).
      (code ≡ pos 1)
      × (q.player.info
          ≡ (charge
              (resource_id t.cost_resource_id)
              (mul32 num t.cost_num)
              (send_updates got)).info))
unfolding hand_over
handed_over cfg now t num true s got given = rw given (refl, refl)
handed_over cfg now t num false s got given = rw given (refl, refl)

row_of_bundle :
    (cfg : Config) (now : ℤ) (t : ShopItem) (num : ℤ) (send : Bool) (s : Shopper)
    → is_empty t.bundle_id ≡ false
    → has_suffix t.bundle_id mcard ≡ false
    → eqb_ℤ t.limited_type (pos 0) ≡ true
    → buy_row cfg now t num send s ≡ hand_over cfg now t num send s
unfolding buy_row take_limited
row_of_bundle cfg now t num send s bundle other free = rw (bundle, other, free) refl

sent_diamonds : (p : Player) → value Value.diamond (send_updates p) ≡ value Value.diamond p
sent_diamonds p = ap (get_value Value.diamond) (send_items_update_keeps p).0

all_diamonds :
    (p : Player) (price : ℤ)
    → IsCount (value Value.diamond p)
    → IsCount price
    → value Value.diamond p <ℤ price
    → value Value.diamond (charge ResourceId.diamond price (send_updates p)) ≡ pos 0
unfolding charge
all_diamonds p price some_left count short =
    let same = sent_diamonds p in
    (sub_diamond_clamps price (send_updates p) (subst IsCount (sym same) some_left) count).2
      (subst (λ d. d <ℤ price) (sym same) short)

-- Goods that belong to a bundle which is no month card, priced in diamonds and not limited: a player
-- who has fewer diamonds than the price, once the goods are given, buys them all the same, and is left
-- with none.
pub bundle_unpaid :
    (cfg : Config) (now : ℤ) (t : ShopItem) (num : ℤ) (send : Bool) (s : Shopper) (got : Player)
    → is_empty t.bundle_id ≡ false
    → has_suffix t.bundle_id mcard ≡ false
    → eqb_ℤ t.limited_type (pos 0) ≡ true
    → resource_id t.cost_resource_id ≡ ResourceId.diamond
    → give_bag cfg now (mul32 num t.number) t.bag_items s.player ≡ some got
    → IsCount (value Value.diamond got)
    → IsCount (mul32 num t.cost_num)
    → value Value.diamond got <ℤ mul32 num t.cost_num
    → Returns
        (buy_row cfg now t num send s)
        (λ (q, code). (code ≡ pos 1) × (value Value.diamond q.player ≡ pos 0))
bundle_unpaid cfg now t num send s got bundle other free priced given some_left price short =
    subst (λ r. Returns r (λ (q, code). (code ≡ pos 1) × (value Value.diamond q.player ≡ pos 0)))
      (sym (row_of_bundle cfg now t num send s bundle other free))
      (Returns-map (hand_over cfg now t num send s)
        (λ r h. (
          h.0,
          ap (get_value Value.diamond)
                (h.1 ∙ ap (λ k. (charge k (mul32 num t.cost_num) (send_updates got)).info) priced)
              ∙ all_diamonds got (mul32 num t.cost_num) some_left price short,
        ))
        (handed_over cfg now t num send s got given))

row_of_gold :
    (cfg : Config) (now : ℤ) (t : ShopItem) (num : ℤ) (send : Bool) (s : Shopper)
    → is_empty t.bundle_id ≡ true
    → eqb_ℤ t.limited_type (pos 0) ≡ true
    → resource_id t.cost_resource_id ≡ ResourceId.gold
    → ltb_ℤ (value Value.gold s.player) (mul32 num t.cost_num) ≡ false
    → buy_row cfg now t num send s ≡ hand_over cfg now t num send s
unfolding buy_row take_limited price_error price_error_of priced_in buy_tested
row_of_gold cfg now t num send s alone free priced able =
    let tested : price_error t num s.player ≡ none =
      ap (λ k. price_error_of k (priced_in k) (mul32 num t.cost_num) s.player) priced
      ∙ rw able refl in
    rw alone (ap (buy_tested cfg now t num send s) tested ∙ rw free refl)

pub overflow_unpaid :
    (cfg : Config) (now : ℤ) (t : ShopItem) (num : ℤ) (send : Bool) (s : Shopper) (got : Player)
    → is_empty t.bundle_id ≡ true
    → eqb_ℤ t.limited_type (pos 0) ≡ true
    → resource_id t.cost_resource_id ≡ ResourceId.gold
    → mul32 num t.cost_num ≤ℤ pos 0
    → pos 0 ≤ℤ value Value.gold s.player
    → give_bag cfg now (mul32 num t.number) t.bag_items s.player ≡ some got
    → IsInt32 (value Value.gold got)
    → Returns
        (buy_row cfg now t num send s)
        (λ (q, code). (code ≡ pos 1) × (value Value.gold q.player ≡ value Value.gold got))
unfolding charge
overflow_unpaid cfg now t num send s got alone free priced cheap able given small =
    let sent : value Value.gold (send_updates got) ≡ value Value.gold got =
      ap (get_value Value.gold) (send_items_update_keeps got).0 in
    subst
      (λ r.
        Returns r
          (λ (q, code). (code ≡ pos 1) × (value Value.gold q.player ≡ value Value.gold got)))
      (sym (row_of_gold cfg now t num send s alone free priced (ground arith)))
      (Returns-map (hand_over cfg now t num send s)
        (λ r h. (
          h.0,
          ap (get_value Value.gold)
                (h.1 ∙ ap (λ k. (charge k (mul32 num t.cost_num) (send_updates got)).info) priced)
              ∙ (sub_gold_nothing (mul32 num t.cost_num) (send_updates got) cheap
                  (subst IsInt32 (sym sent) small)).0
              ∙ sent,
        ))
        (handed_over cfg now t num send s got given))
