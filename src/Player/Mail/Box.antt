-- ===== src/Player/Mail/Box.antt =====
-- A mail box under new mails: what keeps it in order, and what a new mail does to it.
use mm_server.Prelude.{
  ℕ, suc, ◌≡◌, refl, sym, ap, subst, ◌∙◌, ◌≢◌, ◌⊎◌, inl, inr, Bool, true, false, Option, none, some,
  Option-cases, beq_ne, arith, if◌then◌else◌,
}
use mm_server.Prelude.Int.{ℤ, pos, ◌+ℤ◌, ◌≤ℤ◌, ◌<ℤ◌, int_eq, int_laws}
use mm_server.Prelude.Int32.{add32, max_int32, add32_fits, IsInt32}
use mm_server.Prelude.Dict.{
  lookup, contains, insert, erase, size, HasUniqueKeys, lookup-insert, lookup-erase,
  lookup-insert_self, lookup-erase_self, insert-HasUniqueKeys, erase-HasUniqueKeys, size-insert,
  AllEntries, insert-AllEntries, erase-AllEntries, map-AllEntries, lookup-AllEntries,
}
use mm_server.Player.State.{Mail, MailBox, MailConfig, Text}
use mm_server.Player.Mail.Room.{Room, make_room-Room}
use mm_server.Player.Mail.{Mails, make_room, add_mail, fresh_mail, new_mail}

-- A mail is filed under its own id, which was given out already.
abbrev pub IsFiled : ℤ → ℤ × Mail → Type 0
IsFiled curr_id (k, m) = (m.id ≡ k) × (pos 0 <ℤ k) × (k ≤ℤ curr_id)

-- At most one mail to an id, no more mails than the settings allow.
pub record IsBox (cfg : MailConfig) (b : MailBox) : Type 0 where
  pub unique : HasUniqueKeys b.mails
  pub filed : AllEntries (IsFiled b.curr_id) b.mails
  pub bounded : pos (size b.mails) ≤ℤ cfg.max_count
  pub counted : pos 0 ≤ℤ b.curr_id

-- The mails after a new one: of a box that is not full all that were there, of a full one all but the
-- one with the least id.
abbrev pub RoomMade : MailConfig → Mail → Mails → Mails → Type 0
RoomMade cfg m ms ms' =
    ((pos (size ms) <ℤ cfg.max_count) × ((j : ℤ) → j ≢ m.id → lookup j ms' ≡ lookup j ms))
    ⊎ ((first : ℤ) × (cfg.max_count ≤ℤ pos (size ms))
        × AllEntries (λ (x : ℤ × Mail). first ≤ℤ x.0) ms
        × (contains first ms ≡ true)
        × (lookup first ms' ≡ none)
        × ((j : ℤ) → j ≢ m.id → j ≢ first → lookup j ms' ≡ lookup j ms))

-- What a new mail does to a box.
pub record Delivered (cfg : MailConfig) (m : Mail) (b b' : MailBox) : Type 0 where
  pub box : IsBox cfg b'
  pub new : lookup m.id b.mails ≡ none
  pub filed : lookup m.id b'.mails ≡ some m
  pub room : RoomMade cfg m b.mails b'.mails

beyond : (curr k : ℤ) → k ≤ℤ curr → k ≡ curr +ℤ pos 1 → ⊥
beyond curr k h next = grind int_laws

next_pos : (a k : ℤ) → pos 0 ≤ℤ a → k ≡ a +ℤ pos 1 → pos 0 <ℤ k
next_pos a k h next = grind int_laws

le_next : (a k j : ℤ) → j ≤ℤ a → k ≡ a +ℤ pos 1 → j ≤ℤ k
le_next a k j h next = grind int_laws

le_refl : (a : ℤ) → a ≤ℤ a
le_refl a = omega arith

lt_le : (a : ℤ) → pos 0 <ℤ a → pos 0 ≤ℤ a
lt_le a h = omega arith

lt_bound : (n : ℤ) (a b : ℕ) → pos a <ℤ n → b ≡ suc a → pos b ≤ℤ n
lt_bound n a b h e = ground arith

if_same : (c : Bool) (x : Option Mail) → (if c then x else x) ≡ x
if_same true x = refl
if_same false x = refl

next_fits : (a : ℤ) → pos 0 ≤ℤ a → a <ℤ max_int32 → IsInt32 (a +ℤ pos 1)
next_fits a h k = record { lower = grind int_laws; upper = grind int_laws }

unused_id :
    (curr k : ℤ) (ms : Mails)
    → AllEntries (IsFiled curr) ms
    → k ≡ curr +ℤ pos 1
    → lookup k ms ≡ none
unused_id curr k ms filed next = elim (Option-cases (lookup k ms)) [
  | inl missing ↦ missing
  | inr (m, found) ↦
      let (_, _, old) = lookup-AllEntries (IsFiled curr) k m ms filed found in
      absurd (beyond curr k old next)
]

-- Making room keeps an unused id unused, and the box's entries what they are.
Room-unused :
    (cfg : MailConfig) (k : ℤ) (ms ms' : Mails)
    → Room cfg ms ms'
    → lookup k ms ≡ none
    → lookup k ms' ≡ none
Room-unused cfg k ms ms' r missing = elim (r.kept) [
  | inl (_, same) ↦ rw same missing
  | inr (first, _, _, _, same) ↦
      rw (same, lookup-erase first k ms, missing) (if_same (int_eq.beq first k) none)
]

Room-filed :
    (cfg : MailConfig) (P : ℤ × Mail → Type 0) (ms ms' : Mails)
    → Room cfg ms ms'
    → AllEntries P ms
    → AllEntries P ms'
Room-filed cfg P ms ms' r all = elim (r.kept) [
  | inl (_, same) ↦ subst (AllEntries P) (sym same) all
  | inr (first, _, _, _, same) ↦ subst (AllEntries P) (sym same) (erase-AllEntries P first ms all)
]

Room-unique :
    (cfg : MailConfig) (ms ms' : Mails) → Room cfg ms ms' → HasUniqueKeys ms → HasUniqueKeys ms'
Room-unique cfg ms ms' r unique = elim (r.kept) [
  | inl (_, same) ↦ subst HasUniqueKeys (sym same) unique
  | inr (first, _, _, _, same) ↦
      subst HasUniqueKeys (sym same) (erase-HasUniqueKeys first ms unique)
]

add_mail_unused : (m : Mail) (ms : Mails) → lookup m.id ms ≡ none → add_mail m ms ≡ insert m.id m ms
unfolding add_mail contains
add_mail_unused m ms missing = ground arith

size-insert_unused :
    (k : ℤ) (m : Mail) (ms : Mails) → lookup k ms ≡ none → size (insert k m ms) ≡ suc (size ms)
unfolding contains
size-insert_unused k m ms missing = size-insert k m ms ∙ (ground arith)

lookup-insert_other :
    (k j : ℤ) (m : Mail) (ms : Mails) → j ≢ k → lookup j (insert k m ms) ≡ lookup j ms
lookup-insert_other k j m ms ne = rw (lookup-insert, beq_ne int_eq k j (λ e. ne (sym e))) refl

lookup-erase_other : (k j : ℤ) (ms : Mails) → j ≢ k → lookup j (erase k ms) ≡ lookup j ms
lookup-erase_other k j ms ne = rw (lookup-erase, beq_ne int_eq k j (λ e. ne (sym e))) refl

contained_ne : (k j : ℤ) (ms : Mails) → lookup k ms ≡ none → contains j ms ≡ true → j ≢ k
unfolding contains
contained_ne k j ms missing there same =
    absurd (ground (arith, subst (λ i. lookup i ms ≡ none) (sym same) missing))

kept_or_dropped :
    (cfg : MailConfig) (m : Mail) (b : MailBox) (ms' : Mails)
    → Room cfg b.mails ms'
    → lookup m.id b.mails ≡ none
    → RoomMade cfg m b.mails (insert m.id m ms')
kept_or_dropped cfg m b ms' r new = elim (r.kept) [
  | inl (below, same) ↦
      inl (below, λ j ne. lookup-insert_other m.id j m ms' ne ∙ ap (lookup j) same)
  | inr (first, full, least, there, same) ↦ inr (
    first,
    full,
    least,
    there,
    lookup-insert_other m.id first m ms' (contained_ne m.id first b.mails new there)
        ∙ (ap (lookup first) same ∙ lookup-erase_self first b.mails),
    λ j ne ne'.
        lookup-insert_other m.id j m ms' ne
        ∙ (ap (lookup j) same ∙ lookup-erase_other first j b.mails ne'),
  )
]

-- A mail put under the next id into a box with room.
deliver :
    (cfg : MailConfig) (m : Mail) (b : MailBox) (ms' : Mails)
    → IsBox cfg b
    → m.id ≡ b.curr_id +ℤ pos 1
    → Room cfg b.mails ms'
    → Delivered cfg m b (record b { mails = insert m.id m ms'; curr_id = m.id })
deliver cfg m b ms' v next r =
    let new = unused_id b.curr_id m.id b.mails (v.filed) next in
    let unused = Room-unused cfg m.id b.mails ms' r new in
    record {
      box = record {
        unique = insert-HasUniqueKeys m.id m ms' (Room-unique cfg b.mails ms' r (v.unique));
        filed =
            insert-AllEntries (IsFiled m.id) m.id m ms'
              (map-AllEntries ms' (λ x h. (h.0, h.1, le_next b.curr_id m.id x.0 h.2 next))
                (Room-filed cfg (IsFiled b.curr_id) b.mails ms' r (v.filed)))
              (refl, next_pos b.curr_id m.id (v.counted) next, le_refl m.id);
        bounded = lt_bound cfg.max_count _ _ (r.below) (size-insert_unused m.id m ms' unused);
        counted = lt_le m.id (next_pos b.curr_id m.id (v.counted) next);
      };
      new = new;
      filed = lookup-insert_self m.id m ms';
      room = kept_or_dropped cfg m b ms' r new;
    }

-- A new mail gets an id that no mail of the box had, and leaves the box in order. In a box that is
-- not full all other mails stay; in a full one the mail with the least id goes, and the others stay.
-- The settings leave room for a mail, and there is a next id.
pub new_mail-Delivered :
    (cfg : MailConfig) (now typ subtype sender_id : ℤ) (title content : Text) (extra : ℤ)
    (b : MailBox)
    → pos 0 <ℤ cfg.max_count
    → b.curr_id <ℤ max_int32
    → IsBox cfg b
    → let (b', id) = new_mail cfg now typ subtype sender_id title content extra b in
      (id ≡ b.curr_id +ℤ pos 1)
      × Delivered cfg (fresh_mail id typ subtype sender_id title content now extra) b b'
unfolding new_mail
new_mail-Delivered cfg now typ subtype sender_id title content extra b some_room ids v =
    let next = add32_fits b.curr_id (pos 1) (next_fits b.curr_id (v.counted) ids) in
    let m = fresh_mail (add32 b.curr_id (pos 1)) typ subtype sender_id title content now extra in
    let positive = map-AllEntries b.mails (λ x h. h.1) (v.filed) in
    let r = make_room-Room cfg b.mails some_room (v.unique) positive (v.bounded) in
    let new = unused_id b.curr_id m.id b.mails (v.filed) next in
    let unused = Room-unused cfg m.id b.mails (make_room cfg b.mails) r new in
    (
      next,
      rw (add_mail_unused m (make_room cfg b.mails) unused)
          (deliver cfg m b (make_room cfg b.mails) v next r),
    )
