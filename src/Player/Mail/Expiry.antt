-- ===== src/Player/Mail/Expiry.antt =====
-- The list of mails (`GetMailList`): mails that are too old go when it is asked for.
use mm_server.Prelude.{
  ◌≡◌, refl, ap, subst, ◌∙◌, Bool, Bool-cases, true, false, Option, none, some, List, [], ◌∷◌,
  arith, if◌then◌else◌, not, Option-cases, inl, inr,
}
use mm_server.Prelude.Int.{ℤ, int_eq}
use mm_server.Prelude.Dict.{lookup, contains, erase, lookup-erase, HasUniqueKeys, AllEntries}
use mm_server.Player.State.{Player, Mail, MailConfig, Effect}
use mm_server.Player.Mail.{Mails, is_expired, listed_ids, expired_ids, erase_all, get_mail_list}

-- Whether an id stands in a list.
unfoldable pub is_listed : ℤ → List ℤ → Bool
is_listed j [] = false
is_listed j (id ∷ ids) = if int_eq.beq id j then true else is_listed j ids

-- A mail under its own id.
abbrev pub IsNamed : ℤ × Mail → Type 0
IsNamed (k, m) = m.id ≡ k

abbrev pub unexpired : MailConfig → ℤ → Option Mail → Option Mail
unexpired cfg now none = none
unexpired cfg now (some m) = if is_expired cfg now m then none else some m

lookup-erase_all :
    (j : ℤ) (ids : List ℤ) (ms : Mails)
    → lookup j (erase_all ids ms) ≡ (if is_listed j ids then none else lookup j ms)
unfolding erase_all is_listed
lookup-erase_all j [] ms = refl
lookup-erase_all j (id ∷ ids) ms =
    lookup-erase_all j ids (erase id ms) ∙ (ground (arith, lookup-erase id j ms))

is_listed-if :
    (take : Bool) (j id : ℤ) (ids : List ℤ)
    → is_listed j (if take then id ∷ ids else ids)
      ≡ (if int_eq.beq id j then (if take then true else is_listed j ids) else is_listed j ids)
unfolding is_listed
is_listed-if true j id ids = ground arith
is_listed-if false j id ids = ground arith

no_other : (k j : ℤ) (ms : Mails) → int_eq.beq k j ≡ true → lookup k ms ≡ none → lookup j ms ≡ none
no_other k j ms same missing = subst (λ i. lookup i ms ≡ none) ((int_eq.beq_iff k j).0 same) missing

-- A property of the mail at hand, for the mail that stands under an id.
holds_at : (Mail → Bool) → Option Mail → Bool
holds_at P none = false
holds_at P (some m) = P m

if_bool : (b : Bool) → (if b then true else false) ≡ b
if_bool b = ground arith

-- One mail put before a list of ids that describes the others.
listed_first :
    (P : Mail → Bool) (j i k : ℤ) (m : Mail) (ids : List ℤ) (ms : Mails)
    → i ≡ k
    → lookup k ms ≡ none
    → is_listed j ids ≡ holds_at P (lookup j ms)
    → is_listed j (if P m then i ∷ ids else ids) ≡ holds_at P (lookup j ((k, m) ∷ ms))
unfolding holds_at lookup
listed_first P j i k m ids ms named missing rest = elim (Bool-cases (int_eq.beq k j)) [
  | inl same ↦
      let gone = no_other k j ms same missing in
      let none_left : is_listed j ids ≡ false = rest ∙ ap (holds_at P) gone in
      is_listed-if (P m) j i ids ∙ (rw (named, same, none_left) (if_bool (P m)))
  | inr other ↦ is_listed-if (P m) j i ids ∙ (rw (named, other) rest)
]

is_listed-expired_ids :
    (cfg : MailConfig) (now j : ℤ) (ms : Mails)
    → HasUniqueKeys ms
    → AllEntries IsNamed ms
    → is_listed j (expired_ids cfg now ms) ≡ holds_at (is_expired cfg now) (lookup j ms)
unfolding expired_ids is_listed holds_at lookup
is_listed-expired_ids cfg now j [] unique named = refl
is_listed-expired_ids cfg now j ((k, m) ∷ ms) unique named =
    listed_first (is_expired cfg now) j m.id k m (expired_ids cfg now ms) ms named.0 unique.0
      (is_listed-expired_ids cfg now j ms unique.1 named.1)

if_not : (b : Bool) (xs ys : List ℤ) → (if b then xs else ys) ≡ (if not b then ys else xs)
if_not true xs ys = refl
if_not false xs ys = refl

is_listed-listed_ids :
    (cfg : MailConfig) (now j : ℤ) (ms : Mails)
    → HasUniqueKeys ms
    → AllEntries IsNamed ms
    → is_listed j (listed_ids cfg now ms) ≡ holds_at (λ m. not (is_expired cfg now m)) (lookup j ms)
unfolding listed_ids is_listed holds_at lookup
is_listed-listed_ids cfg now j [] unique named = refl
is_listed-listed_ids cfg now j ((k, m) ∷ ms) unique named =
    ap (is_listed j) (if_not (is_expired cfg now m) _ _)
    ∙ listed_first (λ m. not (is_expired cfg now m)) j m.id k m (listed_ids cfg now ms) ms named.0
        unique.0 (is_listed-listed_ids cfg now j ms unique.1 named.1)

-- What `GetMailList` leaves and lists: the mails that are not too old.
pub record Swept (cfg : MailConfig) (now : ℤ) (p q : Player) (ids : List ℤ) : Type 0 where
  pub kept : (j : ℤ) → lookup j q.mail_box.mails ≡ unexpired cfg now (lookup j p.mail_box.mails)
  pub listed : (j : ℤ) → is_listed j ids ≡ contains j q.mail_box.mails
  pub told : q.mail_box.new_mail_ids ≡ []

kept_unexpired :
    (cfg : MailConfig) (now : ℤ) (o : Option Mail)
    → (if holds_at (is_expired cfg now) o then none else o) ≡ unexpired cfg now o
unfolding holds_at
kept_unexpired cfg now none = refl
kept_unexpired cfg now (some m) = ground arith

lookup-kept :
    (cfg : MailConfig) (now j : ℤ) (ms : Mails)
    → HasUniqueKeys ms
    → AllEntries IsNamed ms
    → lookup j (erase_all (expired_ids cfg now ms) ms) ≡ unexpired cfg now (lookup j ms)
lookup-kept cfg now j ms unique named =
    lookup-erase_all j (expired_ids cfg now ms) ms
    ∙ (rw (is_listed-expired_ids cfg now j ms unique named) (kept_unexpired cfg now (lookup j ms)))

young_contained :
    (cfg : MailConfig) (now j : ℤ) (ms ms' : Mails)
    → lookup j ms' ≡ unexpired cfg now (lookup j ms)
    → holds_at (λ m. not (is_expired cfg now m)) (lookup j ms) ≡ contains j ms'
unfolding contains holds_at
young_contained cfg now j ms ms' kept = elim (Option-cases (lookup j ms)) [
  | inl missing ↦ ground arith
  | inr (m, found) ↦ ground arith
]

-- `GetMailList`, on a box with one mail to an id, each under its own id: the mails that are too old
-- are gone and the others stay as they were; the reply lists exactly those that stay; no mail is
-- still to be told of.
pub get_mail_list-Swept :
    (cfg : MailConfig) (now : ℤ) (p : Player)
    → HasUniqueKeys p.mail_box.mails
    → AllEntries IsNamed p.mail_box.mails
    → let (q, r) = get_mail_list cfg now p in
      (ids : List ℤ) × (q.effects ≡ Effect.send_mail_list ids ∷ p.effects) × Swept cfg now p q ids
unfolding get_mail_list
get_mail_list-Swept cfg now p unique named =
    let ms = p.mail_box.mails in
    let kept = λ (j : ℤ). lookup-kept cfg now j ms unique named in
    (
      listed_ids cfg now ms,
      refl,
      record {
        kept = kept;
        listed = λ j.
            is_listed-listed_ids cfg now j ms unique named
            ∙ young_contained cfg now j ms _ (kept j);
        told = refl;
      },
    )
