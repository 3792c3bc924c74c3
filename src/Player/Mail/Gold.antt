-- ===== src/Player/Mail/Gold.antt =====
-- A mail that holds gold (`GetMailAttachedItems`), and what its claims pay.
use mm_server.Prelude.{◌≡◌, refl, sym, subst, ◌∙◌, ◌≢◌, true, some, [], ◌∷◌, arith}
use mm_server.Prelude.Fault.{Returns, Returns-both, Returns-map}
use mm_server.Prelude.Int.{ℤ, pos, int_eq}
use mm_server.Prelude.Int32.{IsInt32, add32}
use mm_server.Prelude.Dict.{lookup, contains, insert}
use mm_server.Player.State.{Value, Player, Config, Mail, value}
use mm_server.Player.Values.{Call, add_gold}
use mm_server.Player.Values.Bounds.{IsCount, capped_sum, capped_sum-IsCount, add_value_counts}
use mm_server.Player.Items.{resource_id, send_items_update}
use mm_server.Player.Resources.{add_item_resource, add_resource_of}
use mm_server.Player.Mail.Claims.{taken, claim-IsClaimed}
use mm_server.Player.Mail.{
  set_mails, attached_pairs, give_attached, mark_taken, take_from, take_all,
  get_mail_attached_items,
}

-- A mail that holds `n` gold and nothing else.
pub record IsGold (n : ℤ) (m : Mail) : Type 0 where
  pub ids : m.attach_item_ids ≡ pos 2 ∷ []
  pub nums : m.attach_item_nums ≡ n ∷ []

gold_pairs :
    (n : ℤ) (m : Mail)
    → IsGold n m
    → attached_pairs m.attach_item_ids m.attach_item_nums ≡ (pos 2, n) ∷ []
unfolding attached_pairs
gold_pairs n m g = rw (g.ids, g.nums) refl

give_gold :
    (cfg : Config) (now n : ℤ) (p : Player)
    → contains (pos 2) cfg.item_table ≡ true
    → give_attached cfg now ((pos 2, n) ∷ []) [] p
      ≡ some ((add_gold n p).0, insert (pos 2) (add32 (pos 0) n) [])
unfolding give_attached add_item_resource add_resource_of resource_id lookup
give_gold cfg now n p known = rw known refl

take_gold :
    (cfg : Config) (now id n : ℤ) (m : Mail) (p : Player)
    → lookup id p.mail_box.mails ≡ some m
    → IsGold n m
    → contains (pos 2) cfg.item_table ≡ true
    → take_from cfg now id [] p
      ≡ some (
        set_mails (mark_taken id (add_gold n p).0.mail_box.mails) (add_gold n p).0,
        insert (pos 2) (add32 (pos 0) n) [],
        pos 1,
      )
unfolding take_from
take_gold cfg now id n m p found g known =
    rw (found, take_from) (rw (gold_pairs n m g) (rw (give_gold cfg now n p known) refl))

send_items_update-gold : (p : Player) → value Value.gold (send_items_update p) ≡ value Value.gold p
unfolding send_items_update
send_items_update-gold p = ground arith

pub gold_given :
    (n : ℤ) (p : Player)
    → IsCount (value Value.gold p)
    → IsInt32 n
    → value Value.gold (add_gold n p).0 ≡ capped_sum (value Value.gold p) n
unfolding add_gold
gold_given n p gold fits = (add_value_counts Value.gold n p gold fits).stored

gold_claimed :
    (cfg : Config) (now id n : ℤ) (m : Mail) (p : Player)
    → lookup id p.mail_box.mails ≡ some m
    → IsGold n m
    → contains (pos 2) cfg.item_table ≡ true
    → IsCount (value Value.gold p)
    → IsInt32 n
    → Returns
        (get_mail_attached_items cfg now (id ∷ []) p)
        (λ (c : Call). value Value.gold c.0 ≡ capped_sum (value Value.gold p) n)
unfolding get_mail_attached_items take_all
gold_claimed cfg now id n m p found g known gold fits =
    rw (take_gold cfg now id n m p found g known)
      (send_items_update-gold _ ∙ gold_given n p gold fits)

gold_pairs_ne :
    (n : ℤ) (m : Mail) → IsGold n m → attached_pairs m.attach_item_ids m.attach_item_nums ≢ []
gold_pairs_ne n m g e = absurd (ground (arith, gold_pairs n m g))

pub get_mail_attached_items_pays_twice :
    (cfg : Config) (now later id n : ℤ) (m : Mail) (p : Player)
    → lookup id p.mail_box.mails ≡ some m
    → IsGold n m
    → contains (pos 2) cfg.item_table ≡ true
    → IsCount (value Value.gold p)
    → IsInt32 n
    → Returns (get_mail_attached_items cfg now (id ∷ []) p) (λ (c : Call).
      Returns
        (get_mail_attached_items cfg later (id ∷ []) c.0)
        (λ (d : Call). value Value.gold d.0 ≡ capped_sum (capped_sum (value Value.gold p) n) n))
get_mail_attached_items_pays_twice cfg now later id n m p found g known gold fits =
    Returns-map (get_mail_attached_items cfg now (id ∷ []) p)
      (λ (c : Call) h.
        let count = subst IsCount (sym h.0) (capped_sum-IsCount _ n gold) in
        subst
          (λ v.
            Returns (get_mail_attached_items cfg later (id ∷ []) c.0)
              (λ (d : Call). value Value.gold d.0 ≡ capped_sum v n))
          h.0
          (gold_claimed cfg later id n (taken m) c.0 h.1.1 (record { ids = g.ids; nums = g.nums })
            known count fits))
      (Returns-both _ _ (get_mail_attached_items cfg now (id ∷ []) p)
        (gold_claimed cfg now id n m p found g known gold fits)
        (claim-IsClaimed cfg now id m p found (gold_pairs_ne n m g)))
