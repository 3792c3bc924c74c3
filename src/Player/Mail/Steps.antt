-- ===== src/Player/Mail/Steps.antt =====
-- Every way in which the code changes a mail box, as a step, and what any sequence of steps keeps.
use mm_server.Prelude.{
  if◌then◌else◌, ℕ, suc, ◌≡◌, refl, sym, subst, ◌∙◌, Bool, Bool-cases, true, false, Option-cases,
  some, List, [], ◌∷◌, arith, inl, inr,
}
use mm_server.Prelude.Int.{ℤ, pos, ◌≤ℤ◌, ◌<ℤ◌, int_eq}
use mm_server.Prelude.Int32.{max_int32}
use mm_server.Prelude.Dict.{
  lookup, contains, insert, erase, size, HasUniqueKeys, insert-HasUniqueKeys, erase-HasUniqueKeys,
  insert-AllEntries, erase-AllEntries, lookup-AllEntries, size-insert, size-erase,
}
use mm_server.Player.State.{Mail, MailBox, MailConfig, Text}
use mm_server.Player.Mail.{
  Mails, new_mail, attach_mail_item, cache_new_mail, erase_all, expired_ids, set_read, read_all,
  delete_all, mark_taken,
}
use mm_server.Player.Mail.Box.{IsBox, IsFiled, new_mail-Delivered}

abbrev with_mails : MailBox → Mails → MailBox
with_mails b ms = record b { mails = ms }

erased-size : (n : ℤ) (a b : ℕ) (c : Bool) → a ≡ (if c then suc b else b) → pos a ≤ℤ n → pos b ≤ℤ n
erased-size n a b true e h = ground arith
erased-size n a b false e h = ground arith

erase-IsBox :
    (cfg : MailConfig) (id : ℤ) (b : MailBox)
    → IsBox cfg b
    → IsBox cfg (with_mails b (erase id b.mails))
erase-IsBox cfg id b v = record {
  unique = erase-HasUniqueKeys id b.mails (v.unique);
  filed = erase-AllEntries (IsFiled b.curr_id) id b.mails (v.filed);
  bounded =
      erased-size cfg.max_count (size b.mails) (size (erase id b.mails)) (contains id b.mails)
        (size-erase id b.mails (v.unique)) (v.bounded);
  counted = v.counted;
}

-- A mail that is there is put back under its own id.
insert-IsBox :
    (cfg : MailConfig) (id : ℤ) (m m' : Mail) (b : MailBox)
    → lookup id b.mails ≡ some m
    → m'.id ≡ m.id
    → IsBox cfg b
    → IsBox cfg (with_mails b (insert id m' b.mails))
unfolding contains
insert-IsBox cfg id m m' b found same v =
    let (named, positive, given) =
      lookup-AllEntries (IsFiled b.curr_id) id m b.mails (v.filed) found in
    let still : size (insert id m' b.mails) ≡ size b.mails =
      size-insert id m' b.mails ∙ (ground (arith, found)) in
    record {
      unique = insert-HasUniqueKeys id m' b.mails (v.unique);
      filed =
          insert-AllEntries (IsFiled b.curr_id) id m' b.mails (v.filed)
            (same ∙ named, positive, given);
      bounded = subst (λ n. pos n ≤ℤ cfg.max_count) (sym still) (v.bounded);
      counted = v.counted;
    }

attach-IsBox :
    (cfg : MailConfig) (mail_id item num : ℤ) (b : MailBox)
    → IsBox cfg b
    → IsBox cfg (attach_mail_item mail_id item num b).0
unfolding attach_mail_item
attach-IsBox cfg mail_id item num b v = elim (Option-cases (lookup mail_id b.mails)) [
  | inl missing ↦ rw (missing, attach_mail_item) v
  | inr (m, found) ↦ rw (found, attach_mail_item) (insert-IsBox cfg mail_id m _ b found refl v)
]

mark-IsBox :
    (cfg : MailConfig) (id : ℤ) (b : MailBox)
    → IsBox cfg b
    → IsBox cfg (with_mails b (mark_taken id b.mails))
unfolding mark_taken
mark-IsBox cfg id b v = elim (Option-cases (lookup id b.mails)) [
  | inl missing ↦ rw (missing, mark_taken) v
  | inr (m, found) ↦ rw (found, mark_taken) (insert-IsBox cfg id m _ b found refl v)
]

set_read-IsBox :
    (cfg : MailConfig) (id : ℤ) (b : MailBox)
    → IsBox cfg b
    → IsBox cfg (with_mails b (set_read id b.mails))
unfolding set_read
set_read-IsBox cfg id b v = elim (Option-cases (lookup id b.mails)) [
  | inl missing ↦ rw (missing, set_read) v
  | inr (m, found) ↦ rw (found, set_read) (insert-IsBox cfg id m _ b found refl v)
]

erase_all-IsBox :
    (cfg : MailConfig) (ids : List ℤ) (b : MailBox)
    → IsBox cfg b
    → IsBox cfg (with_mails b (erase_all ids b.mails))
unfolding erase_all
erase_all-IsBox cfg [] b v = v
erase_all-IsBox cfg (id ∷ ids) b v =
    erase_all-IsBox cfg ids (with_mails b (erase id b.mails)) (erase-IsBox cfg id b v)

delete_all-IsBox :
    (cfg : MailConfig) (ids : List ℤ) (b : MailBox)
    → IsBox cfg b
    → IsBox cfg (with_mails b (delete_all ids b.mails).0)
unfolding delete_all
delete_all-IsBox cfg [] b v = v
delete_all-IsBox cfg (id ∷ ids) b v = elim (Bool-cases (contains id b.mails)) [
  | inl there ↦
      rw there (delete_all-IsBox cfg ids (with_mails b (erase id b.mails)) (erase-IsBox cfg id b v))
  | inr missing ↦ rw missing v
]

read_all-IsBox :
    (cfg : MailConfig) (ids : List ℤ) (b : MailBox)
    → IsBox cfg b
    → IsBox cfg (with_mails b (read_all ids b.mails).0)
unfolding read_all
read_all-IsBox cfg [] b v = v
read_all-IsBox cfg (id ∷ ids) b v = elim (Bool-cases (contains id b.mails)) [
  | inl there ↦
      rw there
        (read_all-IsBox cfg ids (with_mails b (set_read id b.mails)) (set_read-IsBox cfg id b v))
  | inr missing ↦ rw missing v
]

-- One change of a box: a new mail while there is a next id, an item attached, the listing that
-- drops old mails, mails read, a mail's items taken, mails deleted, the client told of new mails,
-- and the time of the last letter.
pub data BoxStep (cfg : MailConfig) : MailBox → MailBox → Type 0 where
  receive :
      (now typ subtype sender_id : ℤ) (title content : Text) (extra : ℤ) (b : MailBox)
      → b.curr_id <ℤ max_int32
      → BoxStep cfg b (new_mail cfg now typ subtype sender_id title content extra b).0
  attach :
      (mail_id item num : ℤ) (b : MailBox) → BoxStep cfg b (attach_mail_item mail_id item num b).0
  announce : (mail_id : ℤ) (b : MailBox) → BoxStep cfg b (cache_new_mail mail_id b)
  told : (b : MailBox) → BoxStep cfg b (record b { new_mail_ids = [] })
  list :
      (now : ℤ) (b : MailBox)
      → BoxStep cfg b (with_mails b (erase_all (expired_ids cfg now b.mails) b.mails))
  read : (ids : List ℤ) (b : MailBox) → BoxStep cfg b (with_mails b (read_all ids b.mails).0)
  take : (id : ℤ) (b : MailBox) → BoxStep cfg b (with_mails b (mark_taken id b.mails))
  delete : (ids : List ℤ) (b : MailBox) → BoxStep cfg b (with_mails b (delete_all ids b.mails).0)
  stamp : (now : ℤ) (b : MailBox) → BoxStep cfg b (record b { last_send_player_mail_time = now })

-- The boxes that steps lead to.
pub data Reach (cfg : MailConfig) (b : MailBox) : MailBox → Type 0 where
  here : Reach cfg b b
  next : {c d : MailBox} → Reach cfg b c → BoxStep cfg c d → Reach cfg b d

same-IsBox :
    (cfg : MailConfig) (b c : MailBox)
    → c.mails ≡ b.mails
    → c.curr_id ≡ b.curr_id
    → IsBox cfg b
    → IsBox cfg c
same-IsBox cfg b c mails ids v = record {
  unique = subst (λ ms. HasUniqueKeys ms) (sym mails) (v.unique);
  filed = rw (mails, ids) (v.filed);
  bounded = rw mails (v.bounded);
  counted = rw ids (v.counted);
}

BoxStep-IsBox :
    (cfg : MailConfig)
    → pos 0 <ℤ cfg.max_count
    → {b c : MailBox} → BoxStep cfg b c
    → IsBox cfg b
    → IsBox cfg c
unfolding cache_new_mail
BoxStep-IsBox cfg room (BoxStep.receive now typ subtype sender title content extra b ids) v =
    (new_mail-Delivered cfg now typ subtype sender title content extra b room ids v).1.box
BoxStep-IsBox cfg room (BoxStep.attach mail_id item num b) v = attach-IsBox cfg mail_id item num b v
BoxStep-IsBox cfg room (BoxStep.announce mail_id b) v = same-IsBox cfg b _ refl refl v
BoxStep-IsBox cfg room (BoxStep.told b) v = same-IsBox cfg b _ refl refl v
BoxStep-IsBox cfg room (BoxStep.list now b) v =
    erase_all-IsBox cfg (expired_ids cfg now b.mails) b v
BoxStep-IsBox cfg room (BoxStep.read ids b) v = read_all-IsBox cfg ids b v
BoxStep-IsBox cfg room (BoxStep.take id b) v = mark-IsBox cfg id b v
BoxStep-IsBox cfg room (BoxStep.delete ids b) v = delete_all-IsBox cfg ids b v
BoxStep-IsBox cfg room (BoxStep.stamp now b) v = same-IsBox cfg b _ refl refl v

-- Whatever happens to a box, in any order, from a box in order on: no two mails have one id, every
-- mail stands under its own id, which was given out before, and there are never more mails than the
-- settings allow, where they allow one.
pub Reach-IsBox :
    (cfg : MailConfig) {b c : MailBox}
    → pos 0 <ℤ cfg.max_count
    → IsBox cfg b
    → Reach cfg b c
    → IsBox cfg c
Reach-IsBox cfg room v Reach.here = v
Reach-IsBox cfg room v (Reach.next r step) = BoxStep-IsBox cfg room step (Reach-IsBox cfg room v r)
