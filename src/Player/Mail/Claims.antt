-- ===== src/Player/Mail/Claims.antt =====
-- Taking what is attached to a mail (`GetMailAttachedItems`), once and again.
use mm_server.Prelude.{
  ◌≡◌, refl, ap, ◌∙◌, ◌≢◌, Bool, true, false, Option, some, List, [], ◌∷◌, arith, if◌then◌else◌,
}
use mm_server.Player.Resources.Total.{IsConfig, add_item_resource-IsTotal}
use mm_server.Prelude.{Option-cases, inl, inr}
use mm_server.Player.Items.{resource_id}
use mm_server.Player.Resources.{add_resource_of}
use mm_server.Prelude.Fault.{
  IsTotal, IsTotal->>=, if-IsTotal, IsTotal-Returns, Returns, Returns-map, ◌>>=◌, IfReturns,
  IfReturns->>=, IfReturns-map, Returns, Returns-map,
}
use mm_server.Prelude.Int.{ℤ, pos, eqb_ℤ, int_eq}
use mm_server.Prelude.Dict.{Dict, lookup, contains, lookup-insert_self}
use mm_server.Player.State.{Player, Config, Mail, MailBox, Effect, emit}
use mm_server.Player.Values.{Call}
use mm_server.Player.Items.{resource_id, send_items_update}
use mm_server.Player.Resources.{add_item_resource, add_resource_of}
use mm_server.Player.SignIn.Frame.{Keeps, Keeps-trans, add_item_resource-Keeps}
use mm_server.Player.Mail.{
  Mails, set_mails, attached_pairs, give_attached, mark_taken, take_from, take_all,
  get_mail_attached_items,
}

-- A mail that was read and whose items were taken.
abbrev pub taken : Mail → Mail
taken m = record m { is_read = pos 1; is_get_attached = pos 1 }

lookup-mark_taken :
    (id : ℤ) (m : Mail) (ms : Mails)
    → lookup id ms ≡ some m
    → lookup id (mark_taken id ms) ≡ some (taken m)
unfolding mark_taken
lookup-mark_taken id m ms found = rw (found, mark_taken) (lookup-insert_self id (taken m) ms)

given-IfReturns :
    (P : Call → Type 0) (known : Bool) (given : Option Call) (p : Player)
    → IfReturns P given
    → P (p, pos 0)
    → IfReturns P (if known then given else some (p, pos 0))
given-IfReturns P true given p h k = h
given-IfReturns P false given p h k = k

give_attached-Keeps :
    (cfg : Config) (now : ℤ) (pairs : List (ℤ × ℤ)) (sums : Dict ℤ ℤ) (p : Player)
    → IfReturns (λ (r : Player × Dict ℤ ℤ). Keeps p r.0) (give_attached cfg now pairs sums p)
unfolding give_attached add_item_resource
give_attached-Keeps cfg now [] sums p = record { sign = refl; mail_box = refl }
give_attached-Keeps cfg now ((id, num) ∷ rest) sums p =
    IfReturns->>= {P = λ (r : Call). Keeps p r.0} _ _ _
      (given-IfReturns (λ (r : Call). Keeps p r.0) (contains id cfg.item_table) _ p
        (add_item_resource-Keeps (resource_id id) cfg now id num p)
        (record { sign = refl; mail_box = refl }))
      (λ (r : Call) h.
        IfReturns-map (give_attached cfg now rest _ r.0)
          (λ (q : Player × Dict ℤ ℤ) k. Keeps-trans p r.0 q.0 h k)
          (give_attached-Keeps cfg now rest _ r.0))

-- What a claim that goes through does to its mail.
abbrev IsTaken : ℤ → Mail → Player × Dict ℤ ℤ × ℤ → Type 0
IsTaken id m (q, _, r) = (r ≡ pos 1) × (lookup id q.mail_box.mails ≡ some (taken m))

take_pairs :
    (cfg : Config) (now id : ℤ) (m : Mail) (pairs : List (ℤ × ℤ)) (sums : Dict ℤ ℤ) (p : Player)
    → lookup id p.mail_box.mails ≡ some m
    → IfReturns (IsTaken id m) (
        give_attached cfg now pairs sums p >>= λ (q, sums').
        some (set_mails (mark_taken id q.mail_box.mails) q, sums', pos 1))
take_pairs cfg now id m pairs sums p found =
    IfReturns->>= {P = λ (r : Player × Dict ℤ ℤ). Keeps p r.0} _
      (give_attached cfg now pairs sums p) _ (give_attached-Keeps cfg now pairs sums p)
      (λ (r : Player × Dict ℤ ℤ) k. (
        refl,
        lookup-mark_taken id m r.0.mail_box.mails
            (ap (λ (b : MailBox). lookup id b.mails) (k.mail_box) ∙ found),
      ))

pairs_cases :
    {A : Type 0} (P : Option A → Type 0) (pairs : List (ℤ × ℤ)) (x : Option A)
    (f : ℤ × ℤ → List (ℤ × ℤ) → Option A)
    → pairs ≢ []
    → ((pair : ℤ × ℤ) (rest : List (ℤ × ℤ)) → P (f pair rest))
    → P (elim pairs [ [] ↦ x | pair ∷ rest ↦ f pair rest ])
pairs_cases P [] x f ne h = absurd (ne refl)
pairs_cases P (pair ∷ rest) x f ne h = h pair rest

take_from-IsTaken :
    (cfg : Config) (now id : ℤ) (m : Mail) (sums : Dict ℤ ℤ) (p : Player)
    → lookup id p.mail_box.mails ≡ some m
    → attached_pairs m.attach_item_ids m.attach_item_nums ≢ []
    → IfReturns (IsTaken id m) (take_from cfg now id sums p)
unfolding take_from
take_from-IsTaken cfg now id m sums p found some_there =
    rw (found, take_from)
      (pairs_cases (IfReturns (IsTaken id m)) _ _ _ some_there
        (λ pair rest. take_pairs cfg now id m (pair ∷ rest) sums p found))

send_items_update-box : (p : Player) → (send_items_update p).mail_box ≡ p.mail_box
unfolding send_items_update
send_items_update-box p = ground arith

abbrev pub IsClaimed : ℤ → Mail → Call → Type 0
IsClaimed id m (q, r) = (r ≡ pos 1) × (lookup id q.mail_box.mails ≡ some (taken m))

take_one-IsTaken :
    (cfg : Config) (now id : ℤ) (m : Mail) (sums : Dict ℤ ℤ) (p : Player)
    → lookup id p.mail_box.mails ≡ some m
    → attached_pairs m.attach_item_ids m.attach_item_nums ≢ []
    → IfReturns (IsTaken id m) (take_all cfg now (id ∷ []) sums p)
unfolding take_all
take_one-IsTaken cfg now id m sums p found some_there =
    IfReturns->>= {P = IsTaken id m} (IsTaken id m) (take_from cfg now id sums p) _
      (take_from-IsTaken cfg now id m sums p found some_there) (λ (q, s, r) h. rw h.0 (refl, h.1))

reply-IsClaimed :
    (id : ℤ) (m : Mail) (sums : Dict ℤ ℤ) (q : Player) (r : ℤ)
    → IsTaken id m (q, sums, r)
    → IsClaimed id m (
        if eqb_ℤ r (pos 1)
        then (send_items_update (emit (Effect.send_attached_items (id ∷ []) sums) q), pos 1)
        else (q, r))
reply-IsClaimed id m sums q r h =
    rw h.0 (refl, ap (λ (b : MailBox). lookup id b.mails) (send_items_update-box _) ∙ h.1)

pub claim-IsClaimed :
    (cfg : Config) (now id : ℤ) (m : Mail) (p : Player)
    → lookup id p.mail_box.mails ≡ some m
    → attached_pairs m.attach_item_ids m.attach_item_nums ≢ []
    → IfReturns (IsClaimed id m) (get_mail_attached_items cfg now (id ∷ []) p)
unfolding get_mail_attached_items
claim-IsClaimed cfg now id m p found some_there =
    IfReturns->>= {P = IsTaken id m} (IsClaimed id m) (take_all cfg now (id ∷ []) [] p) _
      (take_one-IsTaken cfg now id m [] p found some_there)
      (λ (q, s, r) h. reply-IsClaimed id m s q r h)

pairs-IsTotal :
    {A : Type 0} (pairs : List (ℤ × ℤ)) (x : Option A) (f : ℤ × ℤ → List (ℤ × ℤ) → Option A)
    → IsTotal x
    → ((pair : ℤ × ℤ) (rest : List (ℤ × ℤ)) → IsTotal (f pair rest))
    → IsTotal (elim pairs [ [] ↦ x | pair ∷ rest ↦ f pair rest ])
pairs-IsTotal [] x f h k = h
pairs-IsTotal (pair ∷ rest) x f h k = k pair rest

give_attached-IsTotal :
    (cfg : Config) (now : ℤ) (pairs : List (ℤ × ℤ)) (sums : Dict ℤ ℤ) (p : Player)
    → IsConfig cfg
    → IsTotal (give_attached cfg now pairs sums p)
unfolding give_attached add_item_resource
give_attached-IsTotal cfg now [] sums p c = tt
give_attached-IsTotal cfg now ((id, num) ∷ rest) sums p c =
    IsTotal->>=
      (if contains id cfg.item_table
        then add_resource_of (resource_id id) cfg now id num p
        else some (p, pos 0))
      _
      (if-IsTotal (contains id cfg.item_table) _ _
        (add_item_resource-IsTotal (resource_id id) cfg now id num p c) tt)
      (λ r. give_attached-IsTotal cfg now rest _ r.0 c)

take_from-IsTotal :
    (cfg : Config) (now id : ℤ) (sums : Dict ℤ ℤ) (p : Player)
    → IsConfig cfg
    → IsTotal (take_from cfg now id sums p)
unfolding take_from
take_from-IsTotal cfg now id sums p c = elim (Option-cases (lookup id p.mail_box.mails)) [
  | inl missing ↦ rw (missing, take_from) tt
  | inr (m, found) ↦
      rw (found, take_from)
        (pairs-IsTotal (attached_pairs m.attach_item_ids m.attach_item_nums) _ _ tt (λ pair rest.
          IsTotal->>= (give_attached cfg now (pair ∷ rest) sums p) _
            (give_attached-IsTotal cfg now (pair ∷ rest) sums p c) (λ r. tt)))
]

take_all-IsTotal :
    (cfg : Config) (now : ℤ) (ids : List ℤ) (sums : Dict ℤ ℤ) (p : Player)
    → IsConfig cfg
    → IsTotal (take_all cfg now ids sums p)
unfolding take_all
take_all-IsTotal cfg now [] sums p c = tt
take_all-IsTotal cfg now (id ∷ ids) sums p c =
    IsTotal->>= (take_from cfg now id sums p) _ (take_from-IsTotal cfg now id sums p c)
      (λ r. if-IsTotal (eqb_ℤ r.2 (pos 1)) _ _ (take_all-IsTotal cfg now ids r.1 r.0 c) tt)

-- `GetMailAttachedItems` does not panic.
claim-IsTotal :
    (cfg : Config) (now : ℤ) (ids : List ℤ) (p : Player)
    → IsConfig cfg
    → IsTotal (get_mail_attached_items cfg now ids p)
unfolding get_mail_attached_items
claim-IsTotal cfg now [] p c = tt
claim-IsTotal cfg now (id ∷ ids) p c =
    IsTotal->>= (take_all cfg now (id ∷ ids) [] p) _ (take_all-IsTotal cfg now (id ∷ ids) [] p c)
      (λ r. tt)

claim-Returns :
    (cfg : Config) (now id : ℤ) (m : Mail) (p : Player)
    → IsConfig cfg
    → lookup id p.mail_box.mails ≡ some m
    → attached_pairs m.attach_item_ids m.attach_item_nums ≢ []
    → Returns (get_mail_attached_items cfg now (id ∷ []) p) (IsClaimed id m)
claim-Returns cfg now id m p c found some_there =
    IsTotal-Returns (IsClaimed id m) (get_mail_attached_items cfg now (id ∷ []) p)
      (claim-IsTotal cfg now (id ∷ []) p c) (claim-IsClaimed cfg now id m p found some_there)

-- A claim of one mail that holds items reports success, and leaves the mail with all its items: the
-- same claim made once more reports success again.
get_mail_attached_items_again :
    (cfg : Config) (now later id : ℤ) (m : Mail) (p : Player)
    → IsConfig cfg
    → lookup id p.mail_box.mails ≡ some m
    → attached_pairs m.attach_item_ids m.attach_item_nums ≢ []
    → Returns (get_mail_attached_items cfg now (id ∷ []) p) (λ (c : Call).
      IsClaimed id m c × Returns (get_mail_attached_items cfg later (id ∷ []) c.0) (IsClaimed id m))
get_mail_attached_items_again cfg now later id m p c found some_there =
    Returns-map (get_mail_attached_items cfg now (id ∷ []) p)
      (λ (r : Call) h. (h, claim-Returns cfg later id (taken m) r.0 c h.1 some_there))
      (claim-Returns cfg now id m p c found some_there)
