-- ===== src/Player/Resources/Sales.antt =====
-- What `sell_item` pays, and what it takes for it.
use mm_server.Prelude.{
  ℕ, suc, ◌≡◌, refl, sym, ap, ap₂, subst, ◌∙◌, Bool, true, false, Option, none, some, arith,
}
use mm_server.Prelude.Int.{ℤ, pos, negsuc, ◌+ℤ◌, ◌*ℤ◌, ◌≤ℤ◌, ◌<ℤ◌, int_eq}
use mm_server.Prelude.Int32.{mul32, mul32_fits, mul32-IsInt32, IsInt32}
use mm_server.Prelude.Dict.{lookup}
use mm_server.Player.State.{Value, Player, Config, ItemCfg, ItemData, ItemInfo, Info, value}
use mm_server.Player.Values.{Call, add_gold}
use mm_server.Player.Values.Bounds.{IsCount, add_value_counts, capped_sum, capped_sum_nonpos}
use mm_server.Player.Items.{chk_remove_item, remove_item, send_items_update, item_update}
use mm_server.Player.Items.Counts.{held, chk_remove_entry, chk_remove_item_negative}
use mm_server.Player.Resources.{sell_item, pay_for_item}

chk_remove_item_done :
    (cfg : Config) (item : ItemCfg) (id num : ℤ) (d : ItemData) (p : Player)
    → lookup id cfg.item_table ≡ some item
    → lookup id p.items ≡ some d
    → (chk_remove_item cfg.item_table id num p.items).1 ≡ true
unfolding chk_remove_item
chk_remove_item_done cfg item id num d p known e =
    rw (known, chk_remove_item) (rw (e, chk_remove_item) (ground arith))

-- A call that takes an item away touches the item column and nothing of the counters.
record Taken (cfg : Config) (id num : ℤ) (p : Player) (r : Player × Option ItemInfo) : Type 0 where
  info : r.0.info ≡ p.info
  items : r.0.items ≡ (chk_remove_item cfg.item_table id num p.items).0
  done : (i : ItemInfo) × (r.1 ≡ some i)

remove_item-Taken :
    (cfg : Config) (item : ItemCfg) (now id num : ℤ) (silence : Bool) (d : ItemData) (p : Player)
    → lookup id cfg.item_table ≡ some item
    → lookup id p.items ≡ some d
    → Taken cfg id num p (remove_item cfg now id num silence p)
unfolding remove_item item_update
remove_item-Taken cfg item now id num true d p known e =
    rw (known, remove_item)
      (rw (chk_remove_item_done cfg item id num d p known e)
        (record { info = refl; items = refl; done = (_, refl) }))
remove_item-Taken cfg item now id num false d p known e =
    rw (known, remove_item)
      (rw (chk_remove_item_done cfg item id num d p known e)
        (record { info = refl; items = refl; done = (_, refl) }))

send_items_update-info : (p : Player) → (send_items_update p).info ≡ p.info
unfolding send_items_update
send_items_update-info p = ground arith

send_items_update-items : (p : Player) → (send_items_update p).items ≡ p.items
unfolding send_items_update
send_items_update-items p = ground arith

-- What a sale of `count` of an item that the player has leaves behind.
pub record Sold (cfg : Config) (item : ItemCfg) (id count : ℤ) (p : Player) (r : Call)
    : Type 0 where
  pub result : r.1 ≡ pos 1
  pub paid : value Value.gold r.0 ≡ capped_sum (value Value.gold p) (item.sale_coin *ℤ count)
  pub taken : r.0.items ≡ (chk_remove_item cfg.item_table id count p.items).0

-- The sale from the item's removal on.
sell_after-Sold :
    (cfg : Config) (item : ItemCfg) (id count : ℤ) (p : Player) (r : Player × Option ItemInfo)
    → Taken cfg id count p r
    → IsCount (value Value.gold p)
    → IsInt32 (item.sale_coin *ℤ count)
    → Sold cfg item id count p (pay_for_item item id count r)
unfolding pay_for_item add_gold
sell_after-Sold cfg item id count p (q, o) t gold price =
    let (i, removed) = t.done in
    let s = send_items_update q in
    let same : value Value.gold s ≡ value Value.gold p =
      ap (λ (x : Info). x.gold) (send_items_update-info q ∙ t.info) in
    let u =
      add_value_counts Value.gold (mul32 item.sale_coin count) s
        (subst (λ v. IsCount v) (sym same) gold) (mul32-IsInt32 item.sale_coin count) in
    rw removed (record {
      result = refl;
      paid = u.stored ∙ ap₂ capped_sum same (mul32_fits item.sale_coin count price);
      taken = u.items ∙ (send_items_update-items q ∙ t.items);
    })

-- A sale of an item that the player has, where the gold is not in debt and the product of price and
-- count fits an int32, succeeds. It pays the price for all that is asked for, as far as the gold does
-- not pass the largest int32 and nothing where the product is negative, whatever the player has of the
-- item, and takes what `ChkRemoveItem` takes.
pub sell_item-Sold :
    (cfg : Config) (item : ItemCfg) (now id count : ℤ) (d : ItemData) (p : Player)
    → lookup id cfg.item_table ≡ some item
    → lookup id p.items ≡ some d
    → IsCount (value Value.gold p)
    → IsInt32 (item.sale_coin *ℤ count)
    → Sold cfg item id count p (sell_item cfg now id count p)
unfolding sell_item
sell_item-Sold cfg item now id count d p known e gold price =
    rw (known, sell_item)
      (sell_after-Sold cfg item id count p _
        (remove_item-Taken cfg item now id count false d p known e) gold price)

-- A sale of more than the player has goes through: the entry is gone, and the gold is that of the
-- whole amount asked for.
sell_item_oversells :
    (cfg : Config) (item : ItemCfg) (now id count : ℤ) (d : ItemData) (p : Player)
    → lookup id cfg.item_table ≡ some item
    → lookup id p.items ≡ some d
    → IsCount (value Value.gold p)
    → IsInt32 (item.sale_coin *ℤ count)
    → IsCount d.item_num
    → IsCount count
    → d.item_num <ℤ count
    → let (q, r) = sell_item cfg now id count p in
      (r ≡ pos 1)
      × (lookup id q.items ≡ none)
      × (value Value.gold q ≡ capped_sum (value Value.gold p) (item.sale_coin *ℤ count))
sell_item_oversells cfg item now id count d p known e gold price h k more =
    let s = sell_item-Sold cfg item now id count d p known e gold price in
    let (_, _, _, gone, _) = chk_remove_entry cfg.item_table item id known count d p.items e h k in
    (s.result, ap (lookup id) (s.taken) ∙ gone (omega arith), s.paid)

mul_neg : (a : ℤ) (n : ℕ) → pos 0 ≤ℤ a → a *ℤ negsuc n ≤ℤ pos 0
unfolding ◌*ℤ◌
mul_neg (pos m) n h = grind arith
mul_neg (negsuc m) n h = absurd (omega arith)

-- A sale of a negative amount goes through as well, for an item that the player has and whose price
-- is not negative, where the gold is not in debt and the product of price and amount fits an int32, as
-- does the new count: the gold stays, and the player is given as many of the item.
pub sell_item_negative :
    (cfg : Config) (item : ItemCfg) (now id : ℤ) (n : ℕ) (d : ItemData) (p : Player)
    → lookup id cfg.item_table ≡ some item
    → lookup id p.items ≡ some d
    → IsCount (value Value.gold p)
    → pos 0 ≤ℤ item.sale_coin
    → IsInt32 (item.sale_coin *ℤ negsuc n)
    → IsCount d.item_num
    → IsCount (d.item_num +ℤ pos (suc n))
    → let (q, r) = sell_item cfg now id (negsuc n) p in
      (r ≡ pos 1)
      × (value Value.gold q ≡ value Value.gold p)
      × (held id q.items ≡ d.item_num +ℤ pos (suc n))
sell_item_negative cfg item now id n d p known e gold price_pos price h k =
    let s = sell_item-Sold cfg item now id (negsuc n) d p known e gold price in
    (
      s.result,
      s.paid ∙ capped_sum_nonpos _ _ gold (mul_neg item.sale_coin n price_pos),
      ap (held id) (s.taken)
          ∙ chk_remove_item_negative cfg.item_table item id known n d p.items e h k,
    )
