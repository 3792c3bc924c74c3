-- ===== src/Player/Mail/Send/Refused.antt =====
-- A letter whose sender does not have what is attached.
use mm_server.Prelude.{◌≡◌, refl, sym, subst, ◌∙◌, ◌≢◌, true, some, List, ◌∷◌, arith, if◌then◌else◌}
use mm_server.Prelude.Fault.{◌>>=◌, Returns}
use mm_server.Prelude.Int.{ℤ, pos, ◌<ℤ◌, ltb_ℤ, int_eq}
use mm_server.Prelude.Int32.{max_int32}
use mm_server.Prelude.Dict.{lookup}
use mm_server.Player.State.{Player, Config, MailBox}
use mm_server.Player.Items.{get_item}
use mm_server.Player.Mail.{new_mail, fresh_mail}
use mm_server.Player.Mail.Box.{IsBox, Delivered, new_mail-Delivered}
use mm_server.Player.Mail.Send.{
  World, Letter, set_box, attach_all, lacks, finish_send, deliver_letter, find_receiver,
  real_send_mail, check_letter, err_send_failed,
}
use mm_server.Player.Mail.Send.Attach.{Boxed, set_box-Boxed}
use mm_server.Player.Mail.Send.System.{positive_id}

-- What a refused letter leaves: the receiver's box has a new mail, without the items.
pub record Refused (cfg : Config) (now sender receiver : ℤ) (l : Letter) (p : Player) (w : World)
    (r : World × ℤ) : Type 0 where
  pub failed : r.1 ≡ err_send_failed
  pub box : MailBox
  pub player : Boxed receiver p box w r.0
  pub id : ℤ
  pub mail :
      Delivered cfg.mail
        (fresh_mail id l.mail_type l.subtype sender l.title l.content now l.extra_value)
        p.mail_box
        box

-- The first item that the sender does not have ends the loop at once.
attach_all_lacking :
    (sender receiver mail_id item num : ℤ) (rest : List ℤ) (p q : Player) (w : World)
    → lookup sender w ≡ some q
    → lookup receiver w ≡ some p
    → ltb_ℤ (get_item item q) num ≡ true
    → attach_all (some sender) receiver mail_id (item ∷ num ∷ rest) w ≡ some (w, err_send_failed)
unfolding attach_all lacks
attach_all_lacking sender receiver mail_id item num rest p q w has found lacking =
    rw (has, found) (rw lacking refl)

lt_ltb : (a b : ℤ) → a <ℤ b → ltb_ℤ a b ≡ true
lt_ltb a b h = ground arith

refused :
    (cfg : Config) (now sender receiver item num : ℤ) (rest : List ℤ) (l : Letter) (b : MailBox)
    (p q : Player) (w : World) (id : ℤ)
    → lookup sender w ≡ some q
    → sender ≢ receiver
    → l.items ≡ item ∷ num ∷ rest
    → get_item item q <ℤ num
    → Delivered cfg.mail
        (fresh_mail id l.mail_type l.subtype sender l.title l.content now l.extra_value)
        p.mail_box
        b
    → Returns
        (attach_all (some sender) receiver id l.items (set_box receiver b p w) >>= λ r.
          if ltb_ℤ r.1 (pos 0) then some r else finish_send cfg now (some sender) receiver id l r.0)
        (Refused cfg now sender receiver l p w)
refused cfg now sender receiver item num rest l b p q w id has apart held lacking d =
    let boxed = set_box-Boxed receiver p b w in
    subst
      (λ xs.
        Returns
          (attach_all (some sender) receiver id xs (set_box receiver b p w) >>= λ r.
            if ltb_ℤ r.1 (pos 0)
            then some r
            else finish_send cfg now (some sender) receiver id l r.0)
          (Refused cfg now sender receiver l p w))
      (sym held)
      (rw
        (attach_all_lacking sender receiver id item num rest (record p { mail_box = b }) q
          (set_box receiver b p w) (boxed.others sender apart ∙ has) (boxed.player)
          (lt_ltb (get_item item q) num lacking))
        (record { failed = refl; box = b; player = boxed; id = id; mail = d }))

-- A letter that passes the checks, to a player that is there and whose box is in order, from
-- another player who does not have the first item that is attached, reports a failure; still the
-- receiver's box has a new mail, with nothing attached, and a full box has lost its first.
pub real_send_mail-Refused :
    (cfg : Config) (now sender receiver item num : ℤ) (rest : List ℤ) (l : Letter) (p q : Player)
    (w : World)
    → check_letter cfg now (some sender) l w ≡ some (pos 1)
    → lookup receiver w ≡ some p
    → lookup sender w ≡ some q
    → sender ≢ receiver
    → l.items ≡ item ∷ num ∷ rest
    → get_item item q <ℤ num
    → IsBox cfg.mail p.mail_box
    → pos 0 <ℤ cfg.mail.max_count
    → p.mail_box.curr_id <ℤ max_int32
    → Returns
        (real_send_mail cfg now (some sender) receiver l w)
        (Refused cfg now sender receiver l p w)
unfolding real_send_mail find_receiver deliver_letter
real_send_mail-Refused cfg now sender receiver item num rest l p q w checked found has apart held
      lacking v some_room ids =
    let (next, d) =
      new_mail-Delivered cfg.mail now l.mail_type l.subtype sender l.title l.content l.extra_value
        p.mail_box some_room ids v in
    let b =
      (new_mail cfg.mail now l.mail_type l.subtype sender l.title l.content l.extra_value
        p.mail_box).0 in
    rw (checked, found)
      (rw (positive_id p.mail_box.curr_id _ (v.counted) next)
        (refused cfg now sender receiver item num rest l b p q w _ has apart held lacking d))
