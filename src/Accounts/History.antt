-- ===== src/Accounts/History.antt =====
-- What the accounts of src/login_server/account_mgr.go remember of the requests.
use mm_server.Prelude.{
  Bool, Bool-cases, Option, Option-cases, true, false, none, some, List, [], ◌∷◌, ◌≡◌, refl, ap,
  subst, ◌∙◌, if◌then◌else◌, arith, inl, inr,
}
use mm_server.Prelude.Int.{pos}
use mm_server.Prelude.Text.{Text, same_text, same_text_iff, text_eq}
use mm_server.Prelude.Dict.{lookup, insert, lookup-insert}
use mm_server.Accounts.{
  AccountInfo, Accounts, Request, new_account, found_or_new, account_info_get, change, set_state,
  set_token, set_client_os, is_logged, has_account_login, account_login, account_enter_game,
  account_logout, os_of, account_get_client_os, serve, serve_all,
}

abbrev pub account_of : Request → Text
account_of (Request.login acc _ _) = acc
account_of (Request.enter_game acc) = acc
account_of (Request.logout acc) = acc

abbrev pub is_login : Request → Bool
is_login (Request.login _ _ _) = true
is_login _ = false

-- Whether the last request for an account is a login; `before` where there is none.
pub ends_in_login : Text → List Request → Bool → Bool
ends_in_login acc [] before = before
ends_in_login acc (r ∷ rs) before =
    ends_in_login acc rs (if same_text (account_of r) acc then is_login r else before)

-- The operating system of the last login of an account; `before` where there is none.
pub last_os : Text → List Request → Bool × Text → Bool × Text
last_os acc [] before = before
last_os acc (Request.login a token client_os ∷ rs) before =
    last_os acc rs (if same_text a acc then (true, client_os) else before)
last_os acc (_ ∷ rs) before = last_os acc rs before

-- What becomes of the record of an account.
after : (AccountInfo → AccountInfo) → Bool → Text → Option AccountInfo → Option AccountInfo
after f true acc none = some (f (new_account acc))
after f false acc none = none
after f create acc (some i) = some (f i)

changed :
    (a acc : Text) (f : AccountInfo → AccountInfo) (create : Bool) (m : Accounts)
    (o : Option AccountInfo)
    → lookup a m ≡ o
    → lookup acc (change a f (found_or_new a create m o))
      ≡ (if same_text a acc then after f create a o else lookup acc m)
unfolding change found_or_new after
changed a acc f true m none held =
    lookup-insert a acc (f (new_account a)) (insert a (new_account a) m)
    ∙ (elim (Bool-cases (same_text a acc)) [
      | inl this ↦ rw this refl
      | inr other ↦ rw other (rw other at (lookup-insert a acc (new_account a) m))
    ])
changed a acc f false m none held = elim (Bool-cases (same_text a acc)) [
  | inl this ↦
      let key : a ≡ acc = (same_text_iff a acc).0 this in
      rw this (subst (λ x. lookup x m ≡ none) key held)
  | inr other ↦ rw other refl
]
changed a acc f true m (some i) held = lookup-insert a acc (f i) m
changed a acc f false m (some i) held = lookup-insert a acc (f i) m

-- One request, seen from one account: its record, whether it is logged in, and its system.
step_one : Request → Text → Option AccountInfo → Option AccountInfo
step_one (Request.login a token os) acc o =
    if same_text a acc
    then after (λ i. set_client_os os (set_token token (set_state (pos 1) i))) true a o
    else o
step_one (Request.enter_game a) acc o =
    if same_text a acc then after (set_state (pos 2)) false a o else o
step_one (Request.logout a) acc o =
    if same_text a acc then after (set_state (pos 0)) false a o else o

-- The record that a request changes is that of its account.
own :
    (a acc : Text) (f : AccountInfo → AccountInfo) (create : Bool) (m : Accounts)
    → lookup acc (change a f (account_info_get a create m))
      ≡ (if same_text a acc then after f create a (lookup acc m) else lookup acc m)
unfolding account_info_get
own a acc f create m =
    changed a acc f create m (lookup a m) refl ∙ (elim (Bool-cases (same_text a acc)) [
      | inl this ↦
          let key : a ≡ acc = (same_text_iff a acc).0 this in
          rw this (ap (λ x. after f create a (lookup x m)) key)
      | inr other ↦ rw other refl
    ])

serve-lookup :
    (r : Request) (acc : Text) (m : Accounts)
    → lookup acc (serve r m) ≡ step_one r acc (lookup acc m)
unfolding serve account_login account_enter_game account_logout step_one
serve-lookup (Request.login a token os) acc m = own a acc _ true m
serve-lookup (Request.enter_game a) acc m = own a acc _ false m
serve-lookup (Request.logout a) acc m = own a acc _ false m

logged_step :
    (r : Request) (acc : Text) (o : Option AccountInfo)
    → is_logged (step_one r acc o)
      ≡ (if same_text (account_of r) acc then is_login r else is_logged o)
unfolding step_one after is_logged set_state set_token set_client_os
logged_step (Request.login a token os) acc none = ground arith
logged_step (Request.login a token os) acc (some i) = ground arith
logged_step (Request.enter_game a) acc none = ground arith
logged_step (Request.enter_game a) acc (some i) = ground arith
logged_step (Request.logout a) acc none = ground arith
logged_step (Request.logout a) acc (some i) = ground arith

logged_all :
    (rs : List Request) (acc : Text) (m : Accounts)
    → is_logged (lookup acc (serve_all rs m)) ≡ ends_in_login acc rs (is_logged (lookup acc m))
unfolding serve_all ends_in_login
logged_all [] acc m = refl
logged_all (r ∷ rs) acc m =
    logged_all rs acc (serve r m)
    ∙ ap (ends_in_login acc rs)
        (ap is_logged (serve-lookup r acc m) ∙ logged_step r acc (lookup acc m))

os_step :
    (r : Request) (acc : Text) (rs : List Request) (o : Option AccountInfo)
    → last_os acc rs (os_of (step_one r acc o)) ≡ last_os acc (r ∷ rs) (os_of o)
unfolding last_os step_one after os_of set_state set_token set_client_os
os_step (Request.login a token os) acc rs none = elim (Bool-cases (same_text a acc)) [
  | inl this ↦ rw this refl
  | inr other ↦ rw other refl
]
os_step (Request.login a token os) acc rs (some i) = elim (Bool-cases (same_text a acc)) [
  | inl this ↦ rw this refl
  | inr other ↦ rw other refl
]
os_step (Request.enter_game a) acc rs none = ap (last_os acc rs) (ground arith)
os_step (Request.enter_game a) acc rs (some i) = ap (last_os acc rs) (ground arith)
os_step (Request.logout a) acc rs none = ap (last_os acc rs) (ground arith)
os_step (Request.logout a) acc rs (some i) = ap (last_os acc rs) (ground arith)

os_all :
    (rs : List Request) (acc : Text) (m : Accounts)
    → os_of (lookup acc (serve_all rs m)) ≡ last_os acc rs (os_of (lookup acc m))
unfolding serve_all last_os
os_all [] acc m = refl
os_all (r ∷ rs) acc m =
    os_all rs acc (serve r m)
    ∙ ap (λ o. last_os acc rs (os_of o)) (serve-lookup r acc m)
    ∙ os_step r acc rs (lookup acc m)

looked_up : (acc : Text) (m : Accounts) → (account_info_get acc false m).1 ≡ lookup acc m
unfolding account_info_get found_or_new
looked_up acc m = elim (Option-cases (lookup acc m)) [
  | inl missing ↦ rw (missing, found_or_new) refl
  | inr (i, found) ↦ rw (found, found_or_new) refl
]

-- After any requests, from no account on: an account counts as logged in where its own last request is
-- a login, and the system that is told for it is that of its last login, whatever the requests of
-- other accounts between them.
pub serve_all-has_account_login :
    (rs : List Request) (acc : Text)
    → (has_account_login acc (serve_all rs []) ≡ ends_in_login acc rs false)
      × (account_get_client_os acc (serve_all rs []) ≡ last_os acc rs (false, []))
unfolding has_account_login account_get_client_os lookup is_logged os_of
serve_all-has_account_login rs acc =
    let m = serve_all rs [] in
    (
      ap is_logged (looked_up acc m) ∙ logged_all rs acc [],
      ap os_of (looked_up acc m) ∙ os_all rs acc [],
    )
