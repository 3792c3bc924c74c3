-- ===== src/Player/SignIn/Frame.antt =====
-- What giving resources (AddItemResource) does to the columns of the sign-in and the mails.
use mm_server.Prelude.{
  ℕ, zero, suc, ◌+◌, ◌-◌, ◌≡◌, refl, ◌∙◌, Bool, Bool-cases, leb, true, Option, none, some, List, [],
  ◌∷◌, arith, inl, inr,
}
use mm_server.Prelude.Fault.{IfReturns, IfReturns->>=, IfReturns-map}
use mm_server.Prelude.Int.{ℤ, pos, negsuc, ltb_ℤ, int_eq}
use mm_server.Player.State.{Value, Player, Config, LevelTable, ItemInfo}
use mm_server.Player.Values.{
  Call, inc_value, add_value, add_gold, add_diamond, add_cat_food, add_charm_medal, add_charm_val,
  add_friend_points, add_soul_stone, add_spirit, calc_spirit, calc_spirit_at, grow_spirit,
}
use mm_server.Player.Level.{add_exp, add_exp_by, add_exp_at, store_level, level_loop}
use mm_server.Player.Items.{ResourceId, resource_id, add_item, item_update}
use mm_server.Player.Resources.{add_resource_of, item_result, add_item_resource, add_resources}

pub record Keeps (p q : Player) : Type 0 where
  pub sign : q.sign ≡ p.sign
  pub mail_box : q.mail_box ≡ p.mail_box

returns_any : {A : Type 0} (m : Option A) → IfReturns (λ _. Unit) m
returns_any none = tt
returns_any (some a) = tt

pub Keeps-trans : (p q r : Player) → Keeps p q → Keeps q r → Keeps p r
Keeps-trans p q r h k = record { sign = k.sign ∙ h.sign; mail_box = k.mail_box ∙ h.mail_box }

inc_value-Keeps : (f : Value) (v : ℤ) (p : Player) → Keeps p (inc_value f v p).0
unfolding inc_value
inc_value-Keeps f v p = record { sign = refl; mail_box = refl }

add_value-Keeps : (f : Value) (v : ℤ) (p : Player) → Keeps p (add_value f v p).0
unfolding add_value inc_value
add_value-Keeps f v p = ground arith

add_charm_val-Keeps : (v : ℤ) (p : Player) → Keeps p (add_charm_val v p).0
unfolding add_charm_val inc_value
add_charm_val-Keeps v p = ground arith

calc_spirit-Keeps :
    (cfg : Config) (now remain : ℤ) (p : Player)
    → IfReturns (λ (r : Player × ℤ × ℤ). Keeps p r.0) (calc_spirit cfg now remain p)
unfolding calc_spirit calc_spirit_at grow_spirit
calc_spirit-Keeps cfg now remain p = ground arith

add_spirit-Keeps :
    (cfg : Config) (now v : ℤ) (p : Player)
    → IfReturns (λ (r : Call). Keeps p r.0) (add_spirit cfg now v p)
unfolding add_spirit
add_spirit-Keeps cfg now v p =
    IfReturns->>= (λ (r : Call). Keeps p r.0) (calc_spirit cfg now (pos 0) p) _
      (calc_spirit-Keeps cfg now (pos 0) p)
      (λ r h. Keeps-trans p r.0 _ h (add_value-Keeps Value.spirit v r.0))

level_stored-Keeps :
    (lvl : ℕ) (p : Player) (r : ℕ × ℤ)
    → IfReturns (λ (r : Player × ℤ × ℤ). Keeps p r.0) (store_level lvl p r)
unfolding store_level
level_stored-Keeps lvl p (l, e) = ground arith

add_exp_at-Keeps :
    (t : LevelTable) (lvl : ℕ) (e : ℤ) (p : Player)
    → IfReturns (λ (r : Player × ℤ × ℤ). Keeps p r.0) (add_exp_at t lvl e p)
unfolding add_exp_at
add_exp_at-Keeps t lvl e p = elim (Bool-cases (leb (lvl + 1) t.max_level)) [
  | inl below ↦ rw below (
      IfReturns->>= {P = λ _. Unit} (λ (r : Player × ℤ × ℤ). Keeps p r.0)
        (level_loop t.array (t.max_level - lvl) lvl e) (store_level lvl p) (returns_any _)
        (λ r _. level_stored-Keeps lvl p r))
  | inr last ↦ rw last (record { sign = refl; mail_box = refl })
]

add_exp_by-Keeps :
    (t : LevelTable) (e : ℤ) (p : Player)
    → (l : ℤ) → p.level ≡ l
    → IfReturns (λ (r : Player × ℤ × ℤ). Keeps p r.0) (add_exp_by t l e p)
unfolding add_exp_by
add_exp_by-Keeps t e p (pos zero) same = record { sign = refl; mail_box = refl }
add_exp_by-Keeps t e p (pos (suc l)) same = add_exp_at-Keeps t (suc l) e p
add_exp_by-Keeps t e p (negsuc l) same = record { sign = refl; mail_box = refl }

add_exp-Keeps :
    (t : LevelTable) (v : ℤ) (p : Player)
    → IfReturns (λ (r : Player × ℤ × ℤ). Keeps p r.0) (add_exp t v p)
unfolding add_exp
add_exp-Keeps t v p = elim (Bool-cases (ltb_ℤ v (pos 0))) [
  | inl negative ↦ rw negative (record { sign = refl; mail_box = refl })
  | inr other ↦ rw other (add_exp_by-Keeps t _ p p.level refl)
]

add_item-Keeps :
    (cfg : Config) (now id num : ℤ) (silence : Bool) (p : Player)
    → Keeps p (add_item cfg now id num silence p).0
unfolding add_item item_update
add_item-Keeps cfg now id num silence p = ground arith

item_result-Keeps :
    (p : Player) (r : Player × Option ItemInfo) → Keeps p r.0 → Keeps p (item_result r).0
item_result-Keeps p (q, none) h = h
item_result-Keeps p (q, some i) h = h

pub add_item_resource-Keeps :
    (r : ResourceId) (cfg : Config) (now id num : ℤ) (p : Player)
    → IfReturns (λ (r : Call). Keeps p r.0) (add_resource_of r cfg now id num p)
unfolding add_resource_of add_gold add_diamond add_cat_food add_friend_points add_soul_stone
    add_charm_medal
add_item_resource-Keeps ResourceId.rmb cfg now id num p = record { sign = refl; mail_box = refl }
add_item_resource-Keeps ResourceId.gold cfg now id num p = add_value-Keeps Value.gold num p
add_item_resource-Keeps ResourceId.diamond cfg now id num p = add_value-Keeps Value.diamond num p
add_item_resource-Keeps ResourceId.cat_food cfg now id num p = add_value-Keeps Value.cat_food num p
add_item_resource-Keeps ResourceId.spirit cfg now id num p = add_spirit-Keeps cfg now num p
add_item_resource-Keeps ResourceId.friend_point cfg now id num p =
    add_value-Keeps Value.friend_points num p
add_item_resource-Keeps ResourceId.charm_value cfg now id num p = add_charm_val-Keeps num p
add_item_resource-Keeps ResourceId.exp_value cfg now id num p =
    IfReturns->>= (λ (r : Call). Keeps p r.0) (add_exp cfg.levels num p) _
      (add_exp-Keeps cfg.levels num p) (λ r h. h)
add_item_resource-Keeps ResourceId.soul_stone cfg now id num p =
    add_value-Keeps Value.soul_stone num p
add_item_resource-Keeps ResourceId.charm_medal cfg now id num p =
    add_value-Keeps Value.charm_medal num p
add_item_resource-Keeps ResourceId.item cfg now id num p =
    item_result-Keeps p (add_item cfg now id num true p) (add_item-Keeps cfg now id num true p)

-- Giving a list of resources leaves the sign-in and the mails as they were.
pub add_resources-Keeps :
    (cfg : Config) (now : ℤ) (res : List ℤ) (p : Player)
    → IfReturns (λ q. Keeps p q) (add_resources cfg now res p)
unfolding add_resources add_item_resource
add_resources-Keeps cfg now [] p = record { sign = refl; mail_box = refl }
add_resources-Keeps cfg now (id ∷ []) p = record { sign = refl; mail_box = refl }
add_resources-Keeps cfg now (id ∷ num ∷ rest) p =
    IfReturns->>= (λ q. Keeps p q) (add_resource_of (resource_id id) cfg now id num p) _
      (add_item_resource-Keeps (resource_id id) cfg now id num p)
      (λ r h.
        IfReturns-map (add_resources cfg now rest r.0) (λ q k. Keeps-trans p r.0 q h k)
          (add_resources-Keeps cfg now rest r.0))
