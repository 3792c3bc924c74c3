-- ===== src/LoginTokens/Agreement.antt =====
-- How the two maps of src/game_server/login_token.go agree.
use mm_server.Prelude.{
  ◌⊎◌, [], ℕ, Bool, Bool-cases, true, false, Option, none, some, ◌≡◌, refl, sym, subst, ◌∙◌, arith,
  inl, inr, ◌||◌,
}
use mm_server.Prelude.Fault.{IfReturns}
use mm_server.Prelude.Int.{ℤ}
use mm_server.Prelude.Text.{Text, is_empty, same_text, same_text_iff, text_eq}
use mm_server.Prelude.Dict.{Dict, lookup, insert, erase, lookup-insert, lookup-erase}
use mm_server.LoginTokens.{
  LoginTokenInfo, LoginTokenMgr, Json, Step, Reach, add_to_uid2token, bind_new_account, IsOrderly,
  AllOrderly, restart, remove_from_uid2token, set_token, save_redis_login_token, bind_token,
  remove_token, put_token,
}
use mm_server.LoginTokens.Names.{HasNames, restart-acc2uid, Reach-HasNames}

abbrev pub Tokens : Type 0
Tokens = Dict Text LoginTokenInfo

abbrev pub Has : Tokens → Text → Text → Type 0
Has tokens acc uid = (i : LoginTokenInfo) × (lookup uid tokens ≡ some i) × (i.account ≡ acc)

-- The unique id that an account has leads to a token of this account.
abbrev pub Agrees : Tokens → Dict Text Text → Type 0
Agrees tokens uids = (acc uid : Text) → lookup acc uids ≡ some uid → Has tokens acc uid

-- A token is put under a unique id, for the account that this has or is given.
insert-Agrees :
    (uid acc : Text) (i : LoginTokenInfo) (tokens : Tokens) (uids : Dict Text Text)
    → i.account ≡ acc
    → ((j : LoginTokenInfo) → lookup uid tokens ≡ some j → (j.account ≡ acc) ⊎ (j.account ≡ []))
    → lookup [] uids ≡ none
    → Agrees tokens uids
    → Agrees (insert uid i tokens) (insert acc uid uids)
insert-Agrees uid acc i tokens uids named same no_empty h a u found =
    elim (Bool-cases (same_text acc a)) [
      | inl this ↦
          let put : some uid ≡ some u = sym (rw this at (lookup-insert acc a uid uids)) ∙ found in
          let key : acc ≡ a = (same_text_iff acc a).0 this in
          let at_uid : same_text uid u ≡ true = (same_text_iff uid u).1 (cc) in
          (i, rw at_uid at (lookup-insert uid u i tokens), named ∙ key)
      | inr other ↦
          let old = sym (rw other at (lookup-insert acc a uid uids)) ∙ found in
          let (j, there, owner) = h a u old in
          elim (Bool-cases (same_text uid u)) [
            | inl taken ↦
                let key : uid ≡ u = (same_text_iff uid u).0 taken in
                elim (same j (subst (λ x. lookup x tokens ≡ some j) (sym key) there)) [
                  | inl known ↦
                      let this : acc ≡ a = sym known ∙ owner in
                      absurd (ground (arith, (same_text_iff acc a).1 this))
                  | inr nobody ↦
                      let empty : a ≡ [] = sym owner ∙ nobody in
                      let held : lookup [] uids ≡ some u =
                        subst (λ x. lookup x uids ≡ some u) empty old in
                      absurd (ground (arith, held))
                ]
            | inr apart ↦ (j, rw apart at (lookup-insert uid u i tokens) ∙ there, owner)
          ]
    ]

-- An account is forgotten, together with its token or with its token going to another account.
forget-Agrees :
    (uid acc : Text) (i : LoginTokenInfo) (tokens rest : Tokens) (uids : Dict Text Text)
    → lookup uid tokens ≡ some i
    → i.account ≡ acc
    → ((u : Text) → same_text uid u ≡ false → lookup u rest ≡ lookup u tokens)
    → Agrees tokens uids
    → Agrees rest (erase acc uids)
forget-Agrees uid acc i tokens rest uids held named kept h a u found =
    elim (Bool-cases (same_text acc a)) [
      | inl this ↦
          let gone : none ≡ some u = sym (rw this at (lookup-erase acc a uids)) ∙ found in
          absurd (ground (arith, gone))
      | inr other ↦
          let old = sym (rw other at (lookup-erase acc a uids)) ∙ found in
          let (j, there, owner) = h a u old in
          elim (Bool-cases (same_text uid u)) [
            | inl taken ↦
                let key : uid ≡ u = (same_text_iff uid u).0 taken in
                let at_key : lookup u tokens ≡ some i =
                  subst (λ x. lookup x tokens ≡ some i) key held in
                let one : some i ≡ some j = sym at_key ∙ there in
                let this : acc ≡ a = cc in absurd (ground (arith, (same_text_iff acc a).1 this))
            | inr apart ↦ (j, kept u apart ∙ there, owner)
          ]
    ]

-- An account is given the unique id of its token.
assign-Agrees :
    (uid acc : Text) (tokens : Tokens) (uids : Dict Text Text)
    → Has tokens acc uid
    → Agrees tokens uids
    → Agrees tokens (insert acc uid uids)
assign-Agrees uid acc tokens uids (i, held, named) h a u found =
    elim (Bool-cases (same_text acc a)) [
      | inl this ↦
          let put : some uid ≡ some u = sym (rw this at (lookup-insert acc a uid uids)) ∙ found in
          let key : acc ≡ a = (same_text_iff acc a).0 this in (i, cc, named ∙ key)
      | inr other ↦ h a u (sym (rw other at (lookup-insert acc a uid uids)) ∙ found)
    ]

-- A token that is changed keeps its account.
renew-Agrees :
    (uid : Text) (i j : LoginTokenInfo) (tokens : Tokens) (uids : Dict Text Text)
    → lookup uid tokens ≡ some i
    → j.account ≡ i.account
    → Agrees tokens uids
    → Agrees (insert uid j tokens) uids
renew-Agrees uid i j tokens uids held same h a u found =
    let (k, there, owner) = h a u found in
    elim (Bool-cases (same_text uid u)) [
      | inl taken ↦
          let key : uid ≡ u = (same_text_iff uid u).0 taken in
          let at_key : lookup u tokens ≡ some i = subst (λ x. lookup x tokens ≡ some i) key held in
          let one : some i ≡ some k = sym at_key ∙ there in
          (j, rw taken at (lookup-insert uid u j tokens), cc)
      | inr apart ↦ (k, rw apart at (lookup-insert uid u j tokens) ∙ there, owner)
    ]

abbrev pub IsAgreed : LoginTokenMgr → Type 0
IsAgreed m = Agrees m.uid2token m.acc2uid

bind-IsAgreed :
    (uid acc new_acc : Text) (m n : LoginTokenMgr) (done : Bool) (o : Option LoginTokenInfo)
    → lookup uid m.uid2token ≡ o
    → bind_token uid acc new_acc m o ≡ some (n, done)
    → IsAgreed m
    → IsAgreed n
unfolding bind_token
bind-IsAgreed uid acc new_acc m n done none held out h = absurd (ground (arith, out))
bind-IsAgreed uid acc new_acc m n done (some i) held out h =
    let j : LoginTokenInfo = record i { account = new_acc } in
    let tokens = insert uid j m.uid2token in
    elim (Bool-cases (same_text i.account acc)) [
      | inl same ↦
          let kept : Agrees tokens (erase acc m.acc2uid) =
            forget-Agrees uid acc i m.uid2token tokens m.acc2uid held
              ((same_text_iff i.account acc).0 same)
              (λ u apart. rw apart at (lookup-insert uid u j m.uid2token)) h in
          let at_uid : same_text uid uid ≡ true = (same_text_iff uid uid).1 refl in
          let whole : Agrees tokens (insert new_acc uid (erase acc m.acc2uid)) =
            assign-Agrees uid new_acc tokens (erase acc m.acc2uid)
              (j, rw at_uid at (lookup-insert uid uid j m.uid2token), refl) kept in
          let result : some (
            record m { uid2token = tokens; acc2uid = insert new_acc uid (erase acc m.acc2uid) },
            true,
          )
              ≡ some (n, done) =
            rw same at out in
          subst (λ r. IfReturns (λ q. IsAgreed q.0) r) result whole
      | inr other ↦
          let result : some (m, false) ≡ some (n, done) = rw other at out in
          subst (λ r. IfReturns (λ q. IsAgreed q.0) r) result h
    ]

remove-IsAgreed :
    (uid : Text) (m : LoginTokenMgr) (o : Option LoginTokenInfo)
    → lookup uid m.uid2token ≡ o
    → IsAgreed m
    → IsAgreed (remove_token uid m o)
unfolding remove_token
remove-IsAgreed uid m none held h = h
remove-IsAgreed uid m (some i) held h =
    forget-Agrees uid i.account i m.uid2token (erase uid m.uid2token) m.acc2uid held refl
      (λ u apart. rw apart at (lookup-erase uid u m.uid2token)) h

module _ (json : Json) where
  save-IsAgreed :
      (posted : Bool) (uid token : Text) (now player_id : ℤ) (m : LoginTokenMgr)
      → IsAgreed m
      → IsAgreed (save_redis_login_token json posted uid token now player_id m)
  unfolding save_redis_login_token
  save-IsAgreed true uid token now player_id m h = h
  save-IsAgreed false uid token now player_id m h = h

  put-IsAgreed :
      (posted : Bool) (now : ℤ) (uid token : Text) (player_id : ℤ) (m : LoginTokenMgr)
      (o : Option LoginTokenInfo)
      → lookup uid m.uid2token ≡ o
      → IsAgreed m
      → IsAgreed (put_token json posted now uid token player_id m o).0
  unfolding put_token
  put-IsAgreed posted now uid token player_id m none held h = h
  put-IsAgreed posted now uid token player_id m (some i) held h =
      save-IsAgreed posted uid token now player_id _
        (renew-Agrees uid i _ m.uid2token m.acc2uid held refl h)

  add-IsAgreed :
      (posted : Bool) (now : ℤ) (uid acc token : Text) (player_id : ℤ) (server : Option ℕ)
      (m : LoginTokenMgr)
      → ((i : LoginTokenInfo)
          → lookup uid m.uid2token ≡ some i
          → (i.account ≡ acc) ⊎ (i.account ≡ []))
      → HasNames json m
      → IsAgreed m
      → IsAgreed (add_to_uid2token json posted now uid acc token player_id server m)
  unfolding add_to_uid2token
  add-IsAgreed posted now uid acc token player_id server m same names h =
      elim (Bool-cases (is_empty uid || is_empty acc || is_empty token)) [
        | inl empty ↦ rw empty h
        | inr full ↦ rw full (
            save-IsAgreed posted uid token now player_id _
              (insert-Agrees uid acc _ m.uid2token m.acc2uid refl same names h))
      ]

  restart-IsAgreed : (m : LoginTokenMgr) → IsAgreed (restart json m).0
  unfolding lookup
  restart-IsAgreed m acc uid found =
      let gone : lookup acc [] ≡ some uid =
        subst (λ (d : Dict Text Text). lookup acc d ≡ some uid) (restart-acc2uid json m) found in
      absurd (ground (arith, gone))

  Step-IsAgreed :
      {m n : LoginTokenMgr} {s : Bool} (t : Step json m n s)
      → IsOrderly json t
      → HasNames json m
      → IsAgreed m
      → IsAgreed n
  unfolding bind_new_account remove_from_uid2token set_token
  Step-IsAgreed {m} (Step.added posted now uid acc token player_id server) same names h =
      add-IsAgreed posted now uid acc token player_id server m same names h
  Step-IsAgreed {m} {n} (Step.bound {done = done} uid acc new_acc out) full names h =
      bind-IsAgreed uid acc new_acc m n done (lookup uid m.uid2token) refl out h
  Step-IsAgreed {m} (Step.removed uid) o names h = elim (Bool-cases (is_empty uid)) [
    | inl empty ↦ rw empty h
    | inr full ↦ rw full (remove-IsAgreed uid m (lookup uid m.uid2token) refl h)
  ]
  Step-IsAgreed {m} (Step.renewed posted now uid token player_id) o names h =
      put-IsAgreed posted now uid token player_id m (lookup uid m.uid2token) refl h
  Step-IsAgreed {m} Step.started_again o names h = restart-IsAgreed m

  -- Whatever accounts are announced, bound to a new name, removed and given new tokens, and however
  -- often the server starts again and loads its tokens, from the first start with an empty hash on:
  -- where no announcement gives a unique id to another account than its token has, if this has one,
  -- and no new name is empty, the unique id of an account leads to a token, and this token is for that
  -- account.
  pub Reach-IsAgreed :
      {m : LoginTokenMgr} {s : Bool} (r : Reach json m s) → AllOrderly json r → IsAgreed m
  Reach-IsAgreed Reach.start orderly = restart-IsAgreed _
  Reach-IsAgreed (Reach.after so step) (all, o) =
      Step-IsAgreed step o (Reach-HasNames json so all) (Reach-IsAgreed so all)
