-- ===== src/LoginTokens/Names.antt =====
-- No account of the second map of src/game_server/login_token.go is empty.
use mm_server.Prelude.{
  [], ◌∷◌, ap, Option-cases, ℕ, Bool, Bool-cases, true, false, Option, none, some, ◌≡◌, refl, subst,
  ◌∙◌, arith, inl, inr, ◌||◌,
}
use mm_server.Prelude.Fault.{IfReturns}
use mm_server.Prelude.Int.{ℤ}
use mm_server.Prelude.Text.{Text, is_empty, same_text, text_eq}
use mm_server.Prelude.Dict.{Dict, lookup, insert, erase, lookup-insert, lookup-erase}
use mm_server.LoginTokens.{
  LoginTokenInfo, LoginTokenMgr, Json, Step, Reach, add_to_uid2token, bind_new_account, IsOrderly,
  AllOrderly, restart, load_redis_data, load_items, init, remove_from_uid2token, set_token,
  save_redis_login_token, bind_token, remove_token, put_token,
}

module _ (json : Json) where
  -- No account is empty.
  abbrev pub HasNames : LoginTokenMgr → Type 0
  HasNames m = lookup [] m.acc2uid ≡ none

  load_items-acc2uid :
      (d : Dict Text Text) (m : LoginTokenMgr) → (load_items json d m).0.acc2uid ≡ m.acc2uid
  unfolding load_items
  load_items-acc2uid [] m = refl
  load_items-acc2uid ((uid, item) ∷ d) m = elim (Option-cases (json.unmarshal item)) [
    | inl bad ↦ rw (bad, load_items) refl
    | inr (r, good) ↦ rw (good, load_items) (load_items-acc2uid d _)
  ]

  pub restart-acc2uid : (m : LoginTokenMgr) → (restart json m).0.acc2uid ≡ []
  unfolding restart load_redis_data init
  restart-acc2uid m = load_items-acc2uid m.redis _

  restart-HasNames : (m : LoginTokenMgr) → HasNames (restart json m).0
  unfolding lookup
  restart-HasNames m = ap (lookup []) (restart-acc2uid m)

  insert-HasNames :
      (acc uid : Text) (uids : Dict Text Text)
      → is_empty acc ≡ false
      → lookup [] uids ≡ none
      → lookup [] (insert acc uid uids) ≡ none
  unfolding same_text
  insert-HasNames [] uid uids full names = absurd (ground (arith, full))
  insert-HasNames (c ∷ acc) uid uids full names = lookup-insert (c ∷ acc) [] uid uids ∙ names

  erase-HasNames :
      (acc : Text) (uids : Dict Text Text)
      → lookup [] uids ≡ none
      → lookup [] (erase acc uids) ≡ none
  unfolding same_text
  erase-HasNames [] uids names = lookup-erase [] [] uids
  erase-HasNames (c ∷ acc) uids names = lookup-erase (c ∷ acc) [] uids ∙ names

  bind-HasNames :
      (uid acc new_acc : Text) (m n : LoginTokenMgr) (done : Bool) (o : Option LoginTokenInfo)
      → is_empty new_acc ≡ false
      → bind_token uid acc new_acc m o ≡ some (n, done)
      → HasNames m
      → HasNames n
  unfolding bind_token
  bind-HasNames uid acc new_acc m n done none full out names = absurd (ground (arith, out))
  bind-HasNames uid acc new_acc m n done (some i) full out names =
      subst (λ r. IfReturns (λ q. HasNames q.0) r) out
        (elim (Bool-cases (same_text i.account acc)) [
          | inl same ↦ rw same (
              insert-HasNames new_acc uid (erase acc m.acc2uid) full
                (erase-HasNames acc m.acc2uid names))
          | inr other ↦ rw other names
        ])

  remove-HasNames :
      (uid : Text) (m : LoginTokenMgr) (o : Option LoginTokenInfo)
      → HasNames m
      → HasNames (remove_token uid m o)
  unfolding remove_token
  remove-HasNames uid m none names = names
  remove-HasNames uid m (some i) names = erase-HasNames i.account m.acc2uid names

  save-acc2uid :
      (posted : Bool) (uid token : Text) (now player_id : ℤ) (m : LoginTokenMgr)
      → (save_redis_login_token json posted uid token now player_id m).acc2uid ≡ m.acc2uid
  unfolding save_redis_login_token
  save-acc2uid true uid token now player_id m = refl
  save-acc2uid false uid token now player_id m = refl

  put-HasNames :
      (posted : Bool) (now : ℤ) (uid token : Text) (player_id : ℤ) (m : LoginTokenMgr)
      (o : Option LoginTokenInfo)
      → HasNames m
      → HasNames (put_token json posted now uid token player_id m o).0
  unfolding put_token
  put-HasNames posted now uid token player_id m none names = names
  put-HasNames posted now uid token player_id m (some i) names =
      ap (lookup []) (save-acc2uid posted uid token now player_id _) ∙ names

  add-HasNames :
      (posted : Bool) (now : ℤ) (uid acc token : Text) (player_id : ℤ) (server : Option ℕ)
      (m : LoginTokenMgr)
      → HasNames m
      → HasNames (add_to_uid2token json posted now uid acc token player_id server m)
  unfolding add_to_uid2token
  add-HasNames posted now uid acc token player_id server m names =
      elim (Bool-cases (is_empty uid || is_empty acc || is_empty token)) [
        | inl empty ↦ rw empty names
        | inr full ↦
            let named : is_empty acc ≡ false = ground (arith, full) in
            rw full (
              ap (lookup []) (save-acc2uid posted uid token now player_id _)
              ∙ insert-HasNames acc uid m.acc2uid named names)
      ]

  Step-HasNames :
      {m n : LoginTokenMgr} {s : Bool} (t : Step json m n s)
      → IsOrderly json t
      → HasNames m
      → HasNames n
  unfolding bind_new_account remove_from_uid2token set_token
  Step-HasNames {m} (Step.added posted now uid acc token player_id server) same names =
      add-HasNames posted now uid acc token player_id server m names
  Step-HasNames {m} {n} (Step.bound {done = done} uid acc new_acc out) full names =
      bind-HasNames uid acc new_acc m n done (lookup uid m.uid2token) full out names
  Step-HasNames {m} (Step.removed uid) o names = elim (Bool-cases (is_empty uid)) [
    | inl empty ↦ rw empty names
    | inr full ↦ rw full (remove-HasNames uid m (lookup uid m.uid2token) names)
  ]
  Step-HasNames {m} (Step.renewed posted now uid token player_id) o names =
      put-HasNames posted now uid token player_id m (lookup uid m.uid2token) names
  Step-HasNames {m} Step.started_again o names = restart-HasNames m

  pub Reach-HasNames :
      {m : LoginTokenMgr} {s : Bool} (r : Reach json m s) → AllOrderly json r → HasNames m
  Reach-HasNames Reach.start orderly = restart-HasNames _
  Reach-HasNames (Reach.after so step) (all, o) = Step-HasNames step o (Reach-HasNames so all)
