-- ===== src/Player/Mail/Send/System.antt =====
-- A mail of the system, from the request to the receiver's box.
use mm_server.Prelude.{
  ◌≡◌, refl, sym, ap, subst, ◌∙◌, false, none, some, [], ◌∷◌, ◌++◌, arith, if◌then◌else◌,
}
use mm_server.Prelude.Fault.{◌>>=◌, Returns, Returns->>=}
use mm_server.Prelude.Int.{ℤ, pos, ◌+ℤ◌, ◌≤ℤ◌, ◌<ℤ◌, ltb_ℤ, leb_ℤ, int_eq, int_laws}
use mm_server.Prelude.Int32.{max_int32}
use mm_server.Prelude.Dict.{lookup, lookup-insert_self}
use mm_server.Player.State.{Player, Config, Mail, MailBox, MailConfig, Text}
use mm_server.Player.Mail.{new_mail, fresh_mail, cache_new_mail}
use mm_server.Player.Mail.Box.{IsBox, new_mail-Delivered}
use mm_server.Player.Mail.Send.{
  World, Letter, set_box, attach_all, finish_send, charge_sender, stamp_sender, deliver_letter,
  find_receiver, real_send_mail, check_letter,
}
use mm_server.Player.Mail.Send.Attach.{
  AllAttached, Boxed, with_items, ids_of, nums_of, attach_all-Attached, set_box-Boxed,
}

-- The mail that a letter of the system is to arrive as.
abbrev pub sent_mail : ℤ → ℤ → Letter → Mail
sent_mail id now l =
    with_items (ids_of l.items) (nums_of l.items)
      (fresh_mail id l.mail_type l.subtype (pos 0) l.title l.content now l.extra_value)

-- What has happened when the letter has arrived.
pub record Arrived (cfg : Config) (now receiver : ℤ) (l : Letter) (p : Player) (w : World)
    (r : World × ℤ) : Type 0 where
  pub next : r.1 ≡ p.mail_box.curr_id +ℤ pos 1
  pub box : MailBox
  pub player : Boxed receiver p box w r.0
  pub mail : lookup r.1 box.mails ≡ some (sent_mail r.1 now l)
  pub pending : box.new_mail_ids ≡ p.mail_box.new_mail_ids ++ r.1 ∷ []

finish_system :
    (cfg : Config) (now receiver id : ℤ) (l : Letter) (q : Player) (w : World)
    → lookup receiver w ≡ some q
    → finish_send cfg now none receiver id l w
      ≡ some (set_box receiver (cache_new_mail id q.mail_box) q w, id)
unfolding finish_send charge_sender stamp_sender
finish_system cfg now receiver id l q w found = rw found refl

rebox-Boxed :
    (receiver : ℤ) (p : Player) (b b' b'' : MailBox) (w w' : World)
    → Boxed receiver (record p { mail_box = b }) b' (set_box receiver b p w) w'
    → Boxed receiver p b'' w (set_box receiver b'' (record p { mail_box = b' }) w')
rebox-Boxed receiver p b b' b'' w w' h = record {
  player = lookup-insert_self receiver _ w';
  others = λ j ne.
      (set_box-Boxed receiver (record p { mail_box = b' }) b'' w').others j ne
      ∙ (h.others j ne ∙ (set_box-Boxed receiver p b w).others j ne);
}

finish_arrives :
    (cfg : Config) (now receiver id : ℤ) (l : Letter) (b : MailBox) (p : Player) (w : World)
    (r : World × ℤ)
    → id ≡ p.mail_box.curr_id +ℤ pos 1
    → b.new_mail_ids ≡ p.mail_box.new_mail_ids
    → AllAttached receiver id l.items
        (fresh_mail id l.mail_type l.subtype (pos 0) l.title l.content now l.extra_value)
        (record p { mail_box = b })
        (set_box receiver b p w)
        r
    → Returns
        (if ltb_ℤ r.1 (pos 0) then some r else finish_send cfg now none receiver id l r.0)
        (Arrived cfg now receiver l p w)
unfolding cache_new_mail
finish_arrives cfg now receiver id l b p w (w', res) next pending (done, (b', a, c)) = rw done (
    subst (λ m. Returns m (Arrived cfg now receiver l p w))
      (sym (finish_system cfg now receiver id l (record p { mail_box = b' }) w' (c.player)))
      (record {
        next = next;
        box = cache_new_mail id b';
        player = rebox-Boxed receiver p b b' (cache_new_mail id b') w w' c;
        mail = a.mail;
        pending = ap (λ ids. ids ++ id ∷ []) (a.pending ∙ pending);
      }))

-- The letter is attached and finished, from a box that already holds the mail.
arrive :
    (cfg : Config) (now receiver id : ℤ) (l : Letter) (b : MailBox) (p : Player) (w : World)
    → id ≡ p.mail_box.curr_id +ℤ pos 1
    → b.new_mail_ids ≡ p.mail_box.new_mail_ids
    → lookup id b.mails
      ≡ some (fresh_mail id l.mail_type l.subtype (pos 0) l.title l.content now l.extra_value)
    → Returns
        (attach_all none receiver id l.items (set_box receiver b p w) >>= λ r.
          if ltb_ℤ r.1 (pos 0) then some r else finish_send cfg now none receiver id l r.0)
        (Arrived cfg now receiver l p w)
arrive cfg now receiver id l b p w next pending filed =
    Returns->>= (Arrived cfg now receiver l p w)
      (attach_all none receiver id l.items (set_box receiver b p w)) _
      (attach_all-Attached receiver id l.items _ (record p { mail_box = b })
        (set_box receiver b p w) (lookup-insert_self receiver _ w) filed)
      (λ (r : World × ℤ) h. finish_arrives cfg now receiver id l b p w r next pending h)

above : (a k : ℤ) → pos 0 ≤ℤ a → k ≡ a +ℤ pos 1 → pos 0 <ℤ k
above a k h next = grind int_laws

new_mail-pending :
    (cfg : MailConfig) (now typ subtype sender_id : ℤ) (title content : Text) (extra : ℤ)
    (b : MailBox)
    → (new_mail cfg now typ subtype sender_id title content extra b).0.new_mail_ids ≡ b.new_mail_ids
unfolding new_mail
new_mail-pending cfg now typ subtype sender_id title content extra b = refl

pub positive_id : (a k : ℤ) → pos 0 ≤ℤ a → k ≡ a +ℤ pos 1 → leb_ℤ k (pos 0) ≡ false
positive_id a k h next = ground (arith, above a k h next)

-- A letter of the system that passes the checks, to a player that is there and whose box is in
-- order, arrives: the call returns the id of the receiver's next mail, the mail stands in the box
-- under that id with all items that the letter holds, in order, and waits to be told of; nobody
-- else changes, and of the receiver only the box does.
pub real_send_mail-Arrived :
    (cfg : Config) (now receiver : ℤ) (l : Letter) (p : Player) (w : World)
    → check_letter cfg now none l w ≡ some (pos 1)
    → lookup receiver w ≡ some p
    → IsBox cfg.mail p.mail_box
    → pos 0 <ℤ cfg.mail.max_count
    → p.mail_box.curr_id <ℤ max_int32
    → Returns (real_send_mail cfg now none receiver l w) (Arrived cfg now receiver l p w)
unfolding real_send_mail find_receiver deliver_letter
real_send_mail-Arrived cfg now receiver l p w checked found v some_room ids =
    let (next, d) =
      new_mail-Delivered cfg.mail now l.mail_type l.subtype (pos 0) l.title l.content l.extra_value
        p.mail_box some_room ids v in
    rw (checked, found)
      (rw (positive_id p.mail_box.curr_id _ (v.counted) next)
        (arrive cfg now receiver _ l _ p w next (new_mail-pending _ _ _ _ _ _ _ _ _) (d.filed)))
