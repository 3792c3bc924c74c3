-- ===== src/Player/Mail/Send/Negative.antt =====
-- A letter that holds a negative amount of gold.
use mm_server.Prelude.{
  ℕ, suc, ◌≡◌, refl, sym, ap, subst, ◌∙◌, ◌≢◌, Bool-cases, false, some, List, [], ◌∷◌, ◌++◌, arith,
  if◌then◌else◌, inl, inr, beq_ne,
}
use mm_server.Prelude.Fault.{◌>>=◌, Returns, Returns-map, Returns->>=}
use mm_server.Prelude.Int.{ℤ, pos, negsuc, ◌+ℤ◌, ◌-ℤ◌, ◌≤ℤ◌, ◌<ℤ◌, ltb_ℤ, eqb_ℤ, int_eq}
use mm_server.Prelude.Int32.{max_int32, neg32, sub32_fits}
use mm_server.Prelude.Dict.{lookup, insert, lookup-insert, lookup-insert_self}
use mm_server.Player.State.{Value, Player, Config, Mail, MailBox, value}
use mm_server.Player.Values.{add_gold}
use mm_server.Player.Values.Bounds.{IsCount, capped_sum}
use mm_server.Player.Items.{get_item, resource_id}
use mm_server.Player.Resources.{add_item_resource, add_resource_of}
use mm_server.Player.Mail.{cache_new_mail, fresh_mail, new_mail}
use mm_server.Player.Mail.Box.{IsBox, new_mail-Delivered}
use mm_server.Player.Mail.Gold.{gold_given}
use mm_server.Player.Mail.Send.{
  World, Letter, set_box, attach_all, lacks, charge, charge_sender, stamp_sender, finish_send,
  deliver_letter, find_receiver, real_send_mail, check_letter,
}
use mm_server.Player.Mail.Send.Attach.{attach_filed, one_more, set_box-Boxed}
use mm_server.Player.Mail.Send.System.{positive_id}

-- A player who is in a world with so much gold.
pub record HasGold (id : ℤ) (gold : ℤ) (w : World) : Type 0 where
  pub player : Player
  pub found : lookup id w ≡ some player
  pub held : value Value.gold player ≡ gold

-- A letter that went through: the call returns the id of the mail, which stands in the receiver's box,
-- and the sender has so much gold.
pub record WentThrough (sender receiver id gold : ℤ) (m : Mail) (r : World × ℤ) : Type 0 where
  pub result : r.1 ≡ id
  pub box : MailBox
  pub receiver_box : (p : Player) × (lookup receiver r.0 ≡ some p) × (p.mail_box ≡ box)
  pub mail : lookup id box.mails ≡ some m
  pub pending : (before : List ℤ) × (box.new_mail_ids ≡ before ++ id ∷ [])
  pub sender_gold : HasGold sender gold r.0

neg32_neg : (n : ℕ) → pos (suc n) ≤ℤ max_int32 → neg32 (negsuc n) ≡ pos (suc n)
unfolding neg32 ◌-ℤ◌
neg32_neg n h =
    sub32_fits (pos 0) (negsuc n) (record { lower = ground arith; upper = ground arith })
    ∙ (ground arith)

not_lacking : (a : ℤ) (n : ℕ) → pos 0 ≤ℤ a → ltb_ℤ a (negsuc n) ≡ false
not_lacking a n h = ground arith

charge_gold :
    (cfg : Config) (now n : ℤ) (q : Player)
    → charge cfg now (pos 2 ∷ n ∷ []) q ≡ some (add_gold (neg32 n) q).0
unfolding charge add_item_resource add_resource_of resource_id
charge_gold cfg now n q = refl

set_box_gold :
    (id : ℤ) (b : MailBox) (q : Player) (w : World)
    → HasGold id (value Value.gold q) (set_box id b q w)
set_box_gold id b q w = record {
  player = record q { mail_box = b };
  found = lookup-insert_self id _ w;
  held = refl;
}

-- What stamping leaves of the others.
record Stamped (id amount : ℤ) (w w' : World) : Type 0 where
  gold : HasGold id amount w'
  others : (j : ℤ) → j ≢ id → lookup j w' ≡ lookup j w

stamp_gold :
    (now id mail_type : ℤ) (q : Player) (w : World)
    → lookup id w ≡ some q
    → Returns (stamp_sender now (some id) mail_type w) (Stamped id (value Value.gold q) w)
unfolding stamp_sender
stamp_gold now id mail_type q w found = rw found (elim (Bool-cases (eqb_ℤ mail_type (pos 2))) [
  | inl stamped ↦
      rw stamped (record { gold = set_box_gold id _ q w; others = (set_box-Boxed id q _ w).others })
  | inr other ↦
      rw other
        (record { gold = record { player = q; found = found; held = refl }; others = λ j ne. refl })
])

charged :
    (cfg : Config) (now sender n : ℤ) (q : Player) (w : World)
    → lookup sender w ≡ some q
    → charge_sender cfg now (some sender) (pos 2 ∷ n ∷ []) w
      ≡ some (insert sender (add_gold (neg32 n) q).0 w)
unfolding charge_sender
charged cfg now sender n q w has = rw has (rw (charge_gold cfg now n q) refl)

finish_gold :
    (cfg : Config) (now sender receiver id n : ℤ) (l : Letter) (m : Mail) (p q : Player) (w : World)
    → l.items ≡ pos 2 ∷ n ∷ []
    → sender ≢ receiver
    → lookup sender w ≡ some q
    → lookup receiver w ≡ some p
    → lookup id p.mail_box.mails ≡ some m
    → Returns
        (finish_send cfg now (some sender) receiver id l w)
        (WentThrough sender receiver id (value Value.gold (add_gold (neg32 n) q).0) m)
unfolding finish_send cache_new_mail
finish_gold cfg now sender receiver id n l m p q w items apart has found filed =
    let q' = (add_gold (neg32 n) q).0 in
    let w₁ = insert sender q' w in
    let paid : charge_sender cfg now (some sender) l.items w ≡ some w₁ =
      ap (λ xs. charge_sender cfg now (some sender) xs w) items
      ∙ charged cfg now sender n q w has in
    let there : lookup receiver w₁ ≡ some p =
      rw (lookup-insert, beq_ne int_eq sender receiver apart) found in
    let b = cache_new_mail id p.mail_box in
    let still : lookup sender (set_box receiver b p w₁) ≡ some q' =
      (set_box-Boxed receiver p b w₁).others sender apart ∙ lookup-insert_self sender q' w in
    rw (paid, there)
      (Returns->>= (WentThrough sender receiver id (value Value.gold q') m)
        (stamp_sender now (some sender) l.mail_type (set_box receiver b p w₁)) _
        (stamp_gold now sender l.mail_type q' (set_box receiver b p w₁) still)
        (λ w₃ h. record {
          result = refl;
          box = b;
          receiver_box = (
            record p { mail_box = b },
            h.others receiver (λ e. apart (sym e)) ∙ (set_box-Boxed receiver p b w₁).player,
            refl,
          );
          mail = filed;
          pending = (p.mail_box.new_mail_ids, refl);
          sender_gold = h.gold;
        }))

-- Attaching a negative amount: nobody lacks it.
attach_negative :
    (sender receiver id n : ℤ) (m : Mail) (p q : Player) (w : World)
    → lookup sender w ≡ some q
    → lookup receiver w ≡ some p
    → lookup id p.mail_box.mails ≡ some m
    → ltb_ℤ (get_item (pos 2) q) n ≡ false
    → attach_all (some sender) receiver id (pos 2 ∷ n ∷ []) w
      ≡ some (
        set_box receiver
            (record (p.mail_box) { mails = insert id (one_more (pos 2) n m) p.mail_box.mails })
            p
            w,
        pos 1,
      )
unfolding attach_all lacks
attach_negative sender receiver id n m p q w has found filed enough =
    rw (has, found) (rw (enough, attach_filed id (pos 2) n m p.mail_box filed) refl)

attached_gold :
    (cfg : Config) (now sender receiver id n : ℤ) (l : Letter) (m : Mail) (b : MailBox)
    (p q : Player) (w : World)
    → l.items ≡ pos 2 ∷ n ∷ []
    → sender ≢ receiver
    → lookup sender w ≡ some q
    → lookup id b.mails ≡ some m
    → ltb_ℤ (get_item (pos 2) q) n ≡ false
    → Returns
        (attach_all (some sender) receiver id l.items (set_box receiver b p w) >>= λ r.
          if ltb_ℤ r.1 (pos 0) then some r else finish_send cfg now (some sender) receiver id l r.0)
        (WentThrough sender receiver id
          (value Value.gold (add_gold (neg32 n) q).0)
          (one_more (pos 2) n m))
attached_gold cfg now sender receiver id n l m b p q w items apart has filed enough =
    let w₁ = set_box receiver b p w in
    let boxed = set_box-Boxed receiver p b w in
    let p₁ = record p { mail_box = b } in
    let b₂ = record b { mails = insert id (one_more (pos 2) n m) b.mails } in
    let still = boxed.others sender apart ∙ has in
    let attached : attach_all (some sender) receiver id l.items w₁
        ≡ some (set_box receiver b₂ p₁ w₁, pos 1) =
      ap (λ xs. attach_all (some sender) receiver id xs w₁) items
      ∙ attach_negative sender receiver id n m p₁ q w₁ still (boxed.player) filed enough in
    let again = set_box-Boxed receiver p₁ b₂ w₁ in
    rw attached (
      finish_gold cfg now sender receiver id n l (one_more (pos 2) n m)
        (record p₁ { mail_box = b₂ }) q (set_box receiver b₂ p₁ w₁) items apart
        (again.others sender apart ∙ still) (again.player)
        (lookup-insert_self id (one_more (pos 2) n m) b.mails))

given_gold :
    (cfg : Config) (now sender receiver id n g : ℤ) (l : Letter) (m : Mail) (b : MailBox)
    (p q : Player) (w : World)
    → l.items ≡ pos 2 ∷ n ∷ []
    → sender ≢ receiver
    → lookup sender w ≡ some q
    → lookup id b.mails ≡ some m
    → ltb_ℤ (get_item (pos 2) q) n ≡ false
    → value Value.gold (add_gold (neg32 n) q).0 ≡ g
    → Returns
        (attach_all (some sender) receiver id l.items (set_box receiver b p w) >>= λ r.
          if ltb_ℤ r.1 (pos 0) then some r else finish_send cfg now (some sender) receiver id l r.0)
        (WentThrough sender receiver id g (one_more (pos 2) n m))
given_gold cfg now sender receiver id n g l m b p q w items apart has filed enough given =
    subst
      (λ g.
        Returns
          (attach_all (some sender) receiver id l.items (set_box receiver b p w) >>= λ r.
            if ltb_ℤ r.1 (pos 0)
            then some r
            else finish_send cfg now (some sender) receiver id l r.0)
          (WentThrough sender receiver id g (one_more (pos 2) n m)))
      given (attached_gold cfg now sender receiver id n l m b p q w items apart has filed enough)

-- A letter that passes the checks, to another player that is there and whose box is in order, with a
-- negative amount of gold attached that has a positive int32 for its opposite, from a sender whose gold
-- is not in debt, goes through: the call returns the id of the receiver's next mail, which stands in
-- the box with the negative amount attached and waits to be told of, and the sender is given as much
-- gold, up to the largest int32.
pub real_send_mail_negative :
    (cfg : Config) (now sender receiver : ℤ) (n : ℕ) (l : Letter) (p q : Player) (w : World)
    → check_letter cfg now (some sender) l w ≡ some (pos 1)
    → lookup receiver w ≡ some p
    → lookup sender w ≡ some q
    → sender ≢ receiver
    → l.items ≡ pos 2 ∷ negsuc n ∷ []
    → pos 0 ≤ℤ get_item (pos 2) q
    → pos (suc n) ≤ℤ max_int32
    → IsCount (value Value.gold q)
    → IsBox cfg.mail p.mail_box
    → pos 0 <ℤ cfg.mail.max_count
    → p.mail_box.curr_id <ℤ max_int32
    → Returns (real_send_mail cfg now (some sender) receiver l w) (
        WentThrough sender receiver
          (p.mail_box.curr_id +ℤ pos 1)
          (capped_sum (value Value.gold q) (pos (suc n)))
          (one_more (pos 2) (negsuc n) (
            fresh_mail
              (p.mail_box.curr_id +ℤ pos 1)
              l.mail_type
              l.subtype
              sender
              l.title
              l.content
              now
              l.extra_value)))
unfolding real_send_mail find_receiver deliver_letter
real_send_mail_negative cfg now sender receiver n l p q w checked found has apart items enough small
      gold v some_room ids =
    let (next, d) =
      new_mail-Delivered cfg.mail now l.mail_type l.subtype sender l.title l.content l.extra_value
        p.mail_box some_room ids v in
    let b =
      (new_mail cfg.mail now l.mail_type l.subtype sender l.title l.content l.extra_value
        p.mail_box).0 in
    let given : value Value.gold (add_gold (neg32 (negsuc n)) q).0
        ≡ capped_sum (value Value.gold q) (pos (suc n)) =
      ap (λ k. value Value.gold (add_gold k q).0) (neg32_neg n small)
      ∙ gold_given (pos (suc n)) q gold (record { lower = omega arith; upper = small }) in
    rw (checked, found)
      (rw (positive_id p.mail_box.curr_id _ (v.counted) next) (
        Returns-map _
          (λ r h.
            subst
              (λ k.
                WentThrough sender receiver k (capped_sum (value Value.gold q) (pos (suc n)))
                  (one_more (pos 2) (negsuc n)
                    (fresh_mail k l.mail_type l.subtype sender l.title l.content now l.extra_value))
                  r)
              next h)
          (given_gold cfg now sender receiver _ (negsuc n)
            (capped_sum (value Value.gold q) (pos (suc n))) l _ b p q w items apart has (d.filed)
            (not_lacking (get_item (pos 2) q) n enough) given)))
