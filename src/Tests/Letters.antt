-- ===== src/Tests/Letters.antt =====
-- Mails at concrete players.
use mm_server.Prelude.{◌≡◌, refl, arith, some, none, List, [], ◌∷◌}
use mm_server.Prelude.Fault.{Returns}
use mm_server.Prelude.Int.{ℤ, pos, ◌+ℤ◌, ◌*ℤ◌, int_eq}
use mm_server.Prelude.Int32.{mul32, wrap32}
use mm_server.Prelude.Dict.{lookup, size, contains}
use mm_server.Player.State.{Value, value, Effect}
use mm_server.Player.Values.{Call}
use mm_server.Player.Values.Bounds.{capped_sum}
use mm_server.Player.Items.{get_item, get_item_num}
use mm_server.Player.Resources.Total.{IsConfig}
use mm_server.Player.Mail.{
  new_mail, fresh_mail, get_mail_list, delete_mails, get_mail_attached_items,
}
use mm_server.Player.Mail.Box.{IsBox, Delivered, new_mail-Delivered}
use mm_server.Player.Mail.Expiry.{Swept, get_mail_list-Swept}
use mm_server.Player.Mail.Deletes.{Deleted, delete_mails-Deleted}
use mm_server.Player.Mail.Gold.{get_mail_attached_items_pays_twice}
use mm_server.Player.Mail.Send.{World, Letter, real_send_mail, check_letter, mail_has_subtype}
use mm_server.Player.Mail.Send.System.{Arrived, real_send_mail-Arrived}
use mm_server.Player.Mail.Send.Refused.{Refused, real_send_mail-Refused}
use mm_server.Player.Mail.Send.Attach.{one_more}
use mm_server.Player.Mail.Send.Negative.{WentThrough, real_send_mail_negative}
use mm_server.Prelude.Int.{negsuc}
use mm_server.Player.Mail.Steps.{Reach, BoxStep, Reach-IsBox}
use mm_server.Player.Mail.{attach_mail_item}
use mm_server.Player.State.{MailBox}
use mm_server.Tests.Data.{config, player, present}

config-IsConfig : IsConfig config
unfolding mul32 wrap32 ◌*ℤ◌
config-IsConfig = record {
  minutes = λ e. absurd (ground arith);
  period = λ e. absurd (ground arith);
  rows = ground arith;
}

-- The box is full.
player-IsBox : IsBox config.mail player.mail_box
unfolding lookup size
player-IsBox = record {
  unique = (refl, (refl, tt));
  filed = ((refl, ground arith, ground arith), ((refl, ground arith, ground arith), tt));
  bounded = ground arith;
  counted = ground arith;
}

new_mail-Delivered_example :
    let (b, id) =
      new_mail config.mail (pos 5000) (pos 1) (pos 1101) (pos 0) [] [] (pos 0) player.mail_box in
    (id ≡ pos 2 +ℤ pos 1)
    × Delivered config.mail
        (fresh_mail id (pos 1) (pos 1101) (pos 0) [] [] (pos 5000) (pos 0))
        player.mail_box
        b
new_mail-Delivered_example =
    new_mail-Delivered config.mail (pos 5000) (pos 1) (pos 1101) (pos 0) [] [] (pos 0)
      player.mail_box (ground arith) (ground arith) player-IsBox

get_mail_list-Swept_example :
    let (q, r) = get_mail_list config.mail (pos 700000) player in
    (ids : List ℤ) × (q.effects ≡ Effect.send_mail_list ids ∷ [])
    × Swept config.mail (pos 700000) player q ids
unfolding lookup
get_mail_list-Swept_example =
    get_mail_list-Swept config.mail (pos 700000) player (refl, (refl, tt)) (refl, (refl, tt))

delete_mails-Deleted_example :
    let (q, r) = delete_mails (pos 2 ∷ pos 9 ∷ []) player in Deleted (pos 2 ∷ pos 9 ∷ []) player q r
unfolding lookup
delete_mails-Deleted_example = delete_mails-Deleted (pos 2 ∷ pos 9 ∷ []) player (refl, (refl, tt))

get_mail_attached_items_pays_twice_example :
    Returns (get_mail_attached_items config (pos 5000) (pos 1 ∷ []) player) (λ (c : Call).
      Returns
        (get_mail_attached_items config (pos 5001) (pos 1 ∷ []) c.0)
        (λ (d : Call). value Value.gold d.0 ≡ capped_sum (capped_sum (pos 100) (pos 50)) (pos 50)))
unfolding lookup contains
get_mail_attached_items_pays_twice_example =
    get_mail_attached_items_pays_twice config (pos 5000) (pos 5001) (pos 1) (pos 50) present player
      refl (record { ids = refl; nums = refl }) refl (ground arith) (ground arith)

abbrev world : World
world = (pos 7, player) ∷ (pos 8, player) ∷ []

abbrev letter : Letter
letter = record {
  mail_type = pos 1;
  subtype = pos 1101;
  title = [];
  content = [];
  items = pos 100 ∷ pos 50 ∷ pos 2 ∷ pos 10 ∷ [];
  extra_value = pos 0;
}

real_send_mail-Arrived_example :
    Returns
      (real_send_mail config (pos 5000) none (pos 8) letter world)
      (Arrived config (pos 5000) (pos 8) letter player world)
unfolding lookup check_letter mail_has_subtype wrap32
real_send_mail-Arrived_example =
    real_send_mail-Arrived config (pos 5000) (pos 8) letter player world refl refl player-IsBox
      (ground arith) (ground arith)

-- Player 7 has five fish and attaches fifty.
real_send_mail-Refused_example :
    Returns
      (real_send_mail config (pos 5000) (some (pos 7)) (pos 8) letter world)
      (Refused config (pos 5000) (pos 7) (pos 8) letter player world)
unfolding lookup check_letter mail_has_subtype wrap32 get_item get_item_num
real_send_mail-Refused_example =
    real_send_mail-Refused config (pos 5000) (pos 7) (pos 8) (pos 100) (pos 50)
      (pos 2 ∷ pos 10 ∷ []) letter player player world refl refl refl (λ e. absurd (ground arith))
      refl (ground arith) player-IsBox (ground arith) (ground arith)

-- Player 7 attaches minus ten gold.
real_send_mail_negative_example :
    Returns
      (real_send_mail config
        (pos 5000)
        (some (pos 7))
        (pos 8)
        (record letter { items = pos 2 ∷ negsuc 9 ∷ [] })
        world)
      (WentThrough
        (pos 7)
        (pos 8)
        (player.mail_box.curr_id +ℤ pos 1)
        (capped_sum (pos 100) (pos 10))
        (one_more (pos 2) (negsuc 9) (
          fresh_mail
            (player.mail_box.curr_id +ℤ pos 1)
            letter.mail_type
            letter.subtype
            (pos 7)
            letter.title
            letter.content
            (pos 5000)
            letter.extra_value)))
unfolding lookup check_letter mail_has_subtype wrap32 get_item get_item_num
real_send_mail_negative_example =
    real_send_mail_negative config (pos 5000) (pos 7) (pos 8) 9
      (record letter { items = pos 2 ∷ negsuc 9 ∷ [] }) player player world refl refl refl
      (λ e. absurd (ground arith)) refl (ground arith) (ground arith) (ground arith) player-IsBox
      (ground arith) (ground arith)

abbrev after_new_mail : MailBox
after_new_mail =
    (new_mail config.mail (pos 5000) (pos 1) (pos 1101) (pos 0) [] [] (pos 0) player.mail_box).0

-- A new mail in the full box, and an item attached to it.
Reach-IsBox_example :
    IsBox config.mail (attach_mail_item (pos 3) (pos 100) (pos 4) after_new_mail).0
Reach-IsBox_example = Reach-IsBox config.mail (ground arith) player-IsBox (
    Reach.next
      (Reach.next Reach.here (
        BoxStep.receive (pos 5000) (pos 1) (pos 1101) (pos 0) [] [] (pos 0) player.mail_box
          (ground arith)))
      (BoxStep.attach (pos 3) (pos 100) (pos 4) after_new_mail))
