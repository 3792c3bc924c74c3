-- ===== src/Player/Mail/Send/Attach.antt =====
-- Attaching the items of a letter of the system, which has no sender (`RealSendMail`).
use mm_server.Prelude.{◌≡◌, refl, sym, ap, ◌∙◌, ◌≢◌, none, some, List, [], ◌∷◌, ◌++◌, beq_ne}
use mm_server.Prelude.Fault.{Returns, Returns-map}
use mm_server.Prelude.Int.{ℤ, pos, int_eq}
use mm_server.Prelude.Dict.{lookup, insert, lookup-insert, lookup-insert_self}
use mm_server.Player.State.{Player, Mail, MailBox}
use mm_server.Player.Mail.{attach_mail_item}
use mm_server.Player.Mail.Send.{World, set_box, attach_all, lacks}

-- The ids in a list of ids and amounts, and the amounts.
unfoldable pub ids_of : List ℤ → List ℤ
ids_of [] = []
ids_of (id ∷ []) = []
ids_of (id ∷ num ∷ rest) = id ∷ ids_of rest

unfoldable pub nums_of : List ℤ → List ℤ
nums_of [] = []
nums_of (id ∷ []) = []
nums_of (id ∷ num ∷ rest) = num ∷ nums_of rest

-- A mail with more attached to it.
abbrev pub with_items : List ℤ → List ℤ → Mail → Mail
with_items ids nums m = record m {
  attach_item_ids = m.attach_item_ids ++ ids;
  attach_item_nums = m.attach_item_nums ++ nums;
}

-- A box in which one mail got more attached to it.
pub record Attached (mail_id : ℤ) (m : Mail) (items : List ℤ) (b b' : MailBox) : Type 0 where
  pub mail : lookup mail_id b'.mails ≡ some (with_items (ids_of items) (nums_of items) m)
  pub others : (j : ℤ) → j ≢ mail_id → lookup j b'.mails ≡ lookup j b.mails
  pub curr_id : b'.curr_id ≡ b.curr_id
  pub pending : b'.new_mail_ids ≡ b.new_mail_ids

-- A world in which one player has another mail box.
pub record Boxed (receiver : ℤ) (p : Player) (b : MailBox) (w w' : World) : Type 0 where
  pub player : lookup receiver w' ≡ some (record p { mail_box = b })
  pub others : (j : ℤ) → j ≢ receiver → lookup j w' ≡ lookup j w

append_nil : (xs : List ℤ) → xs ++ [] ≡ xs
append_nil [] = refl
append_nil (x ∷ xs) = ap (λ ys. x ∷ ys) (append_nil xs)

append_assoc : (xs ys zs : List ℤ) → (xs ++ ys) ++ zs ≡ xs ++ (ys ++ zs)
append_assoc [] ys zs = refl
append_assoc (x ∷ xs) ys zs = ap (λ ys. x ∷ ys) (append_assoc xs ys zs)

with_nothing : (m : Mail) → m ≡ with_items [] [] m
with_nothing m = rw (append_nil m.attach_item_ids, append_nil m.attach_item_nums) refl

pub set_box-Boxed :
    (receiver : ℤ) (p : Player) (b : MailBox) (w : World)
    → Boxed receiver p b w (set_box receiver b p w)
set_box-Boxed receiver p b w = record {
  player = lookup-insert_self receiver _ w;
  others = λ j ne. rw (lookup-insert, beq_ne int_eq receiver j (λ e. ne (sym e))) refl;
}

-- A mail with one more item.
abbrev pub one_more : ℤ → ℤ → Mail → Mail
one_more id num m = with_items (id ∷ []) (num ∷ []) m

pub attach_filed :
    (mail_id id num : ℤ) (m : Mail) (b : MailBox)
    → lookup mail_id b.mails ≡ some m
    → attach_mail_item mail_id id num b
      ≡ (record b { mails = insert mail_id (one_more id num m) b.mails }, pos 1)
unfolding attach_mail_item
attach_filed mail_id id num m b filed = rw (filed, attach_mail_item) refl

Attached-step :
    (mail_id id num : ℤ) (rest : List ℤ) (m : Mail) (b b' : MailBox)
    → Attached mail_id
        (one_more id num m)
        rest
        (record b { mails = insert mail_id (one_more id num m) b.mails })
        b'
    → Attached mail_id m (id ∷ num ∷ rest) b b'
unfolding ids_of nums_of
Attached-step mail_id id num rest m b b' a = record {
  mail =
      a.mail
      ∙ (rw
          (
            append_assoc m.attach_item_ids (id ∷ []) (ids_of rest),
            append_assoc m.attach_item_nums (num ∷ []) (nums_of rest),
          )
          refl);
  others =
      λ j ne. a.others j ne ∙ (rw (lookup-insert, beq_ne int_eq mail_id j (λ e. ne (sym e))) refl);
  curr_id = a.curr_id;
  pending = a.pending;
}

Boxed-step :
    (receiver : ℤ) (p : Player) (b b' : MailBox) (w w' : World)
    → Boxed receiver (record p { mail_box = b }) b' (set_box receiver b p w) w'
    → Boxed receiver p b' w w'
Boxed-step receiver p b b' w w' h = record {
  player = h.player;
  others = λ j ne. h.others j ne ∙ (set_box-Boxed receiver p b w).others j ne;
}

-- What attaching for the system returns: no error, and one box changed.
abbrev pub AllAttached : ℤ → ℤ → List ℤ → Mail → Player → World → World × ℤ → Type 0
AllAttached receiver mail_id items m p w (w', r) =
    (r ≡ pos 1) × ((b : MailBox) × Attached mail_id m items p.mail_box b × Boxed receiver p b w w')

no_items :
    (receiver mail_id : ℤ) (items : List ℤ) (m : Mail) (p : Player) (w : World)
    → ids_of items ≡ []
    → nums_of items ≡ []
    → lookup receiver w ≡ some p
    → lookup mail_id p.mail_box.mails ≡ some m
    → AllAttached receiver mail_id items m p w (w, pos 1)
no_items receiver mail_id items m p w no_ids no_nums found filed = (
  refl,
  (
    p.mail_box,
    record {
      mail = filed ∙ (rw (no_ids, no_nums) (ap some (with_nothing m)));
      others = λ j _. refl;
      curr_id = refl;
      pending = refl;
    },
    record { player = found; others = λ j _. refl },
  ),
)

pub attach_all-Attached :
    (receiver mail_id : ℤ) (items : List ℤ) (m : Mail) (p : Player) (w : World)
    → lookup receiver w ≡ some p
    → lookup mail_id p.mail_box.mails ≡ some m
    → Returns (attach_all none receiver mail_id items w) (AllAttached receiver mail_id items m p w)
unfolding attach_all ids_of nums_of lacks
attach_all-Attached receiver mail_id [] m p w found filed =
    no_items receiver mail_id [] m p w refl refl found filed
attach_all-Attached receiver mail_id (id ∷ []) m p w found filed =
    no_items receiver mail_id (id ∷ []) m p w refl refl found filed
attach_all-Attached receiver mail_id (id ∷ num ∷ rest) m p w found filed =
    let m' = one_more id num m in
    let b = record (p.mail_box) { mails = insert mail_id m' p.mail_box.mails } in
    rw (found, attach_filed mail_id id num m p.mail_box filed)
      (Returns-map (attach_all none receiver mail_id rest (set_box receiver b p w))
        (λ (r : World × ℤ) h.
          let (done, (b', a, c)) = h in
          (
            done,
            (
              b',
              Attached-step mail_id id num rest m p.mail_box b' a,
              Boxed-step receiver p b b' w r.0 c,
            ),
          ))
        (attach_all-Attached receiver mail_id rest m' (record p { mail_box = b })
          (set_box receiver b p w) (lookup-insert_self receiver _ w)
          (lookup-insert_self mail_id m' p.mail_box.mails)))
