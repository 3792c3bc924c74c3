-- ===== src/Player/Shop/Buy.antt =====
-- What a purchase comes to (src/game_server/player_shop.go, `buy_item`).
use mm_server.Prelude.{
  ◌≡◌, ◌≢◌, refl, Bool, true, false, Option, none, some, List, [], ◌∷◌, if◌then◌else◌, ◌||◌, ◌⊎◌,
  sym, subst, ◌∙◌, inl, inr, arith, Bool-cases, Option-cases,
}
use mm_server.Prelude.Fault.{
  Returns, Returns-map, Returns->>=, IsTotal, IsTotal->>=, IfReturns, IsTotal-Returns,
}
use mm_server.Prelude.Int.{ℤ, pos, negsuc, ◌≤ℤ◌, ltb_ℤ, eqb_ℤ, int_eq}
use mm_server.Prelude.Int32.{add32, mul32}
use mm_server.Prelude.Dict.{lookup, insert}
use mm_server.Player.State.{Player, Config, Value, Effect, value, emit}
use mm_server.Player.Items.{ResourceId, resource_id}
use mm_server.Player.Resources.{add_item_resource}
use mm_server.Player.Resources.Total.{IsConfig, add_item_resource-IsTotal}
use mm_server.Player.Shop.{
  ShopItem, Shopper, buy_row, take_limited, take_own, buy_tested, price_error_of, hand_over,
  give_bag, charge, send_updates, price_error, priced_in, is_empty,
}

give_bag-IsTotal :
    (cfg : Config) (now times : ℤ) (bag : List ℤ) (p : Player)
    → IsConfig cfg
    → IsTotal (give_bag cfg now times bag p)
unfolding give_bag add_item_resource
give_bag-IsTotal cfg now times [] p c = tt
give_bag-IsTotal cfg now times (id ∷ []) p c = tt
give_bag-IsTotal cfg now times (id ∷ num ∷ rest) p c =
    IsTotal->>= (add_item_resource cfg now id (mul32 times num) p) _
      (add_item_resource-IsTotal (resource_id id) cfg now id (mul32 times num) p c)
      (λ r. give_bag-IsTotal cfg now times rest r.0 c)

-- A purchase that was refused changes nothing.
abbrev pub Refused : Shopper → Shopper × ℤ → Type 0
Refused s (q, code) = (q ≡ s) × (code ≢ pos 1)

-- The player has what the machine makes of the price.
abbrev pub CanPay : ShopItem → ℤ → Player → Type 0
CanPay t num p =
    (f : Value) × (code : ℤ) × (priced_in (resource_id t.cost_resource_id) ≡ some (f, code))
    × (ltb_ℤ (value f p) (mul32 num t.cost_num) ≡ false)

-- What a purchase leaves of the numbers of limited goods.
abbrev pub Counted : ShopItem → Shopper → Shopper → Type 0
Counted t s q =
    (((t.limited_type ≡ pos 0) ⊎ (t.limited_type ≡ pos 1)) × (q.shop_items ≡ s.shop_items))
    ⊎ ((n : ℤ) × (t.limited_type ≡ pos 2)
        × (lookup t.id s.shop_items ≡ some n)
        × (pos 1 ≤ℤ n)
        × (q.shop_items ≡ insert t.id (add32 n (negsuc 0)) s.shop_items))

-- There is something left to be sold to the player.
abbrev pub IsLeft : ShopItem → Shopper → Type 0
IsLeft t s =
    ((t.limited_type ≡ pos 0) ⊎ (t.limited_type ≡ pos 1))
    ⊎ ((n : ℤ) × (t.limited_type ≡ pos 2) × (lookup t.id s.shop_items ≡ some n) × (pos 1 ≤ℤ n))

-- All of a player but the messages to the client.
abbrev pub untold : Player → Player
untold p = record p { effects = [] }

-- The player was given the goods, and then the price was taken.
pub record Bought (cfg : Config) (now : ℤ) (t : ShopItem) (num : ℤ) (p q : Player) : Type 0 where
  pub got : Player
  pub given : give_bag cfg now (mul32 num t.number) t.bag_items p ≡ some got
  pub charged :
      untold q
      ≡ untold (charge (resource_id t.cost_resource_id) (mul32 num t.cost_num) (send_updates got))

abbrev Handed : Config → ℤ → ShopItem → ℤ → Shopper → Shopper × ℤ → Type 0
Handed cfg now t num s (q, code) =
    (code ≡ pos 1) × (q.shop_items ≡ s.shop_items) × Bought cfg now t num s.player q.player

itself : {A : Type 0} (m : Option A) → IfReturns (λ a. m ≡ some a) m
itself none = tt
itself (some a) = refl

untold_either :
    (send : Bool) (e : Effect) (p : Player) → untold (if send then emit e p else p) ≡ untold p
untold_either true e p = refl
untold_either false e p = refl

hand_over-Handed :
    (cfg : Config) (now : ℤ) (t : ShopItem) (num : ℤ) (send : Bool) (s : Shopper)
    → IsConfig cfg
    → Returns (hand_over cfg now t num send s) (Handed cfg now t num s)
unfolding hand_over
hand_over-Handed cfg now t num send s c =
    let bag = give_bag cfg now (mul32 num t.number) t.bag_items s.player in
    Returns->>= {P = λ got. bag ≡ some got} (Handed cfg now t num s) bag _
      (IsTotal-Returns (λ got. bag ≡ some got) bag
        (give_bag-IsTotal cfg now (mul32 num t.number) t.bag_items s.player c) (itself bag))
      (λ got h. (refl, refl, record { got = got; given = h; charged = untold_either send _ _ }))

abbrev Taken : Config → ℤ → ShopItem → ℤ → Shopper → Shopper × ℤ → Type 0
Taken cfg now t num s (q, code) =
    (Refused s (q, code) × ¬ IsLeft t s)
    ⊎ ((code ≡ pos 1) × Counted t s q × Bought cfg now t num s.player q.player)

-- Goods that are limited for the player, of which none is left.
sold_out :
    (t : ShopItem) (s : Shopper) (o : Option ℤ)
    → t.limited_type ≡ pos 2
    → lookup t.id s.shop_items ≡ o
    → ((n : ℤ) → o ≡ some n → ¬ (pos 1 ≤ℤ n))
    → ¬ IsLeft t s
sold_out t s o own found few (inl (inl free)) =
    let clash : pos 2 ≡ pos 0 = sym own ∙ free in absurd (ground (arith, clash))
sold_out t s o own found few (inl (inr free)) =
    let clash : pos 2 ≡ pos 1 = sym own ∙ free in absurd (ground (arith, clash))
sold_out t s o own found few (inr (n, same, there, one)) = few n (sym found ∙ there) one

-- Goods of another type.
unlisted :
    (t : ShopItem) (s : Shopper)
    → eqb_ℤ t.limited_type (pos 0) || eqb_ℤ t.limited_type (pos 1) ≡ false
    → eqb_ℤ t.limited_type (pos 2) ≡ false
    → ¬ IsLeft t s
unlisted t s bound odd (inl (inl free)) =
    let is_zero = (int_eq.beq_iff _ _).1 free in absurd (ground (arith, is_zero, bound))
unlisted t s bound odd (inl (inr free)) =
    let is_one = (int_eq.beq_iff _ _).1 free in absurd (ground (arith, is_one, bound))
unlisted t s bound odd (inr (n, own, there, one)) =
    let is_two = (int_eq.beq_iff _ _).1 own in absurd (ground (arith, is_two, odd))

take_own-Taken :
    (cfg : Config) (now : ℤ) (t : ShopItem) (num : ℤ) (send : Bool) (s : Shopper) (o : Option ℤ)
    → IsConfig cfg
    → t.limited_type ≡ pos 2
    → lookup t.id s.shop_items ≡ o
    → Returns (take_own cfg now t num send s o) (Taken cfg now t num s)
unfolding take_own
take_own-Taken cfg now t num send s none c own found = inl (
  (refl, λ h. absurd (ground arith)),
  sold_out t s none own found (λ n h. absurd (ground (arith, h))),
)
take_own-Taken cfg now t num send s (some left) c own found =
    let taken = record s { shop_items = insert t.id (add32 left (negsuc 0)) s.shop_items } in
    elim (Bool-cases (ltb_ℤ left (pos 1))) [
      | inl gone ↦
          let few : (n : ℤ) → some left ≡ some n → ¬ (pos 1 ≤ℤ n) =
            λ n h one. let same : left ≡ n = cc in absurd (ground (arith, gone, one)) in
          rw gone (inl ((refl, λ h. absurd (ground arith)), sold_out t s (some left) own found few))
      | inr there ↦ rw there (
          Returns-map (hand_over cfg now t num send taken)
            (λ r h. inr (h.0, inr (left, own, found, ground arith, h.1), h.2))
            (hand_over-Handed cfg now t num send taken c))
    ]

free_type : (n : ℤ) → eqb_ℤ n (pos 0) || eqb_ℤ n (pos 1) ≡ true → (n ≡ pos 0) ⊎ (n ≡ pos 1)
free_type n h = ground (arith, int_eq.beq_iff n (pos 0), int_eq.beq_iff n (pos 1))

take_limited-Taken :
    (cfg : Config) (now : ℤ) (t : ShopItem) (num : ℤ) (send : Bool) (s : Shopper)
    → IsConfig cfg
    → Returns (take_limited cfg now t num send s) (Taken cfg now t num s)
unfolding take_limited
take_limited-Taken cfg now t num send s c =
    elim (Bool-cases (eqb_ℤ t.limited_type (pos 0) || eqb_ℤ t.limited_type (pos 1))) [
      | inl free ↦ rw free (
          Returns-map (hand_over cfg now t num send s)
            (λ r h. inr (h.0, inl (free_type t.limited_type free, h.1), h.2))
            (hand_over-Handed cfg now t num send s c))
      | inr bound ↦ rw bound (elim (Bool-cases (eqb_ℤ t.limited_type (pos 2))) [
        | inr odd ↦ rw odd (inl ((refl, λ h. absurd (ground arith)), unlisted t s bound odd))
        | inl own ↦
            rw own (take_own-Taken cfg now t num send s _ c ((int_eq.beq_iff _ _).0 own) refl)
      ])
    ]

-- What a purchase of goods that belong to no bundle comes to.
abbrev pub Sold : Config → ℤ → ShopItem → ℤ → Shopper → Shopper × ℤ → Type 0
Sold cfg now t num s (q, code) =
    (Refused s (q, code) × ¬ (CanPay t num s.player × IsLeft t s))
    ⊎ ((code ≡ pos 1)
        × CanPay t num s.player
        × Counted t s q
        × Bought cfg now t num s.player q.player)

price_error_code :
    (r : ResourceId) (price : ℤ) (p : Player) (code : ℤ)
    → price_error_of r (priced_in r) price p ≡ some code
    → code ≢ pos 1
unfolding price_error_of priced_in
price_error_code r price p code h k = ground arith

unpaid :
    (v price code : ℤ) → (if ltb_ℤ v price then some code else none) ≡ none → ltb_ℤ v price ≡ false
unpaid v price code h = ground arith

price_paid :
    (r : ResourceId) (o : Option (Value × ℤ)) (price : ℤ) (p : Player)
    → price_error_of r o price p ≡ none
    → (f : Value) × (code : ℤ) × (o ≡ some (f, code)) × (ltb_ℤ (value f p) price ≡ false)
unfolding price_error_of
price_paid r (some (f, code)) price p h = (f, code, refl, unpaid (value f p) price code h)
price_paid r none price p h = absurd (ground arith)

paid_case :
    (cfg : Config) (now : ℤ) (t : ShopItem) (num : ℤ) (s : Shopper) (r : Shopper × ℤ)
    → price_error_of
        (resource_id t.cost_resource_id)
        (priced_in (resource_id t.cost_resource_id))
        (mul32 num t.cost_num)
        s.player
      ≡ none
    → Taken cfg now t num s r
    → Sold cfg now t num s r
paid_case cfg now t num s r able (inl (refused, gone)) = inl (refused, λ h. gone h.1)
paid_case cfg now t num s r able (inr h) = inr (
  h.0,
  price_paid (resource_id t.cost_resource_id) _ (mul32 num t.cost_num) s.player able,
  h.1,
  h.2,
)

-- A price that was refused is not covered.
price_due :
    (r : ResourceId) (o : Option (Value × ℤ)) (price code : ℤ) (p : Player)
    → price_error_of r o price p ≡ some code
    → ¬ ((f : Value) × (c : ℤ) × (o ≡ some (f, c)) × (ltb_ℤ (value f p) price ≡ false))
unfolding price_error_of
price_due r o price code p err (f, c, priced, enough) =
    let tested : price_error_of r (some (f, c)) price p ≡ some code =
      subst (λ o. price_error_of r o price p ≡ some code) priced err in
    let fine : none ≡ some code = rw enough at tested in absurd (ground (arith, fine))

pub buy_row-Sold :
    (cfg : Config) (now : ℤ) (t : ShopItem) (num : ℤ) (send : Bool) (s : Shopper)
    → IsConfig cfg
    → is_empty t.bundle_id ≡ true
    → Returns (buy_row cfg now t num send s) (Sold cfg now t num s)
unfolding buy_row price_error buy_tested
buy_row-Sold cfg now t num send s c alone =
    rw alone
      (elim (Option-cases (
        price_error_of (resource_id t.cost_resource_id) (priced_in (resource_id t.cost_resource_id))
          (mul32 num t.cost_num) s.player)) [
            | inr (code, refused) ↦
                rw (refused, price_error)
                  (inl (
                    (refl, price_error_code _ _ s.player code refused),
                    λ h. price_due _ _ (mul32 num t.cost_num) code s.player refused h.0,
                  ))
            | inl able ↦
                rw (able, price_error)
                  (Returns-map (take_limited cfg now t num send s)
                    (λ r h. paid_case cfg now t num s r able h)
                    (take_limited-Taken cfg now t num send s c))
          ])
