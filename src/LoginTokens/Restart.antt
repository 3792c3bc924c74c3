-- ===== src/LoginTokens/Restart.antt =====
-- What a restart makes of the tokens (src/game_server/login_token.go, `LoadRedisData`).
use mm_server.Prelude.{
  Bool-cases, true, Option, none, some, [], ◌≡◌, refl, sym, ap, subst, inl, inr,
}
use mm_server.Prelude.Int.{pos}
use mm_server.Prelude.Text.{Text, is_empty, text_eq}
use mm_server.Prelude.Dict.{lookup, lookup-erase_self}
use mm_server.LoginTokens.{
  LoginTokenInfo, LoginTokenMgr, Json, Reach, remove_from_uid2token, remove_token, get_token_by_uid,
  load_items, load_redis_data, restart, loaded, init,
}
use mm_server.LoginTokens.Loading.{ReadsBack, load_items-Loads}
use mm_server.LoginTokens.Saved.{IsSaved, Reach-IsSaved}

module _ (json : Json) where
  restarted :
      (m : LoginTokenMgr) (uid : Text) (i : LoginTokenInfo)
      → ReadsBack json
      → IsSaved json m
      → lookup uid m.uid2token ≡ some i
      → ((restart json m).1 ≡ pos 1)
        × ((j : LoginTokenInfo) × (get_token_by_uid uid (restart json m).0 ≡ some j)
            × (j.token ≡ i.token))
  unfolding restart load_redis_data init get_token_by_uid
  restarted m uid i law v found =
      let l =
        load_items-Loads json m.redis (record m { uid2token = []; acc2uid = [] }) law (v.unique)
          (v.written) in
      let (r, there, same) = v.saved uid i found in
      (l.code, (loaded r, rw (v.named uid i found) (l.read uid r there), same))

  -- From the first start of the server on, when the hash is empty, over operations and restarts in any
  -- order, each change saved and what was marshalled read back: after one more restart, which reports
  -- no error, the server knows each unique id that it knew, with the token that it had.
  pub restart_keeps_token :
      {m : LoginTokenMgr} (uid : Text) (i : LoginTokenInfo)
      → ReadsBack json
      → Reach json m true
      → lookup uid m.uid2token ≡ some i
      → ((restart json m).1 ≡ pos 1)
        × ((j : LoginTokenInfo) × (get_token_by_uid uid (restart json m).0 ≡ some j)
            × (j.token ≡ i.token))
  restart_keeps_token {m} uid i law reached found =
      restarted m uid i law (Reach-IsSaved json law refl reached) found

  remove_token-redis :
      (uid : Text) (m : LoginTokenMgr) (o : Option LoginTokenInfo)
      → (remove_token uid m o).redis ≡ m.redis
  unfolding remove_token
  remove_token-redis uid m none = refl
  remove_token-redis uid m (some i) = refl

  removed-restart :
      (m : LoginTokenMgr) (uid : Text) → restart json (remove_from_uid2token uid m) ≡ restart json m
  unfolding restart load_redis_data init remove_from_uid2token
  removed-restart m uid = elim (Bool-cases (is_empty uid)) [
    | inl empty ↦ rw empty refl
    | inr full ↦ rw full (
        ap (λ r. load_items json r (record { uid2token = []; acc2uid = []; redis = r }))
          (remove_token-redis uid m (lookup uid m.uid2token)))
  ]

  remove_token-unknown :
      (uid : Text) (m : LoginTokenMgr) (o : Option LoginTokenInfo)
      → lookup uid m.uid2token ≡ o
      → lookup uid (remove_token uid m o).uid2token ≡ none
  unfolding remove_token
  remove_token-unknown uid m none held = held
  remove_token-unknown uid m (some i) held = lookup-erase_self uid m.uid2token

  removed_token-unknown :
      (uid : Text) (m : LoginTokenMgr) → get_token_by_uid uid (remove_from_uid2token uid m) ≡ none
  unfolding get_token_by_uid remove_from_uid2token
  removed_token-unknown uid m = elim (Bool-cases (is_empty uid)) [
    | inl empty ↦ rw empty refl
    | inr full ↦ rw full (remove_token-unknown uid m (lookup uid m.uid2token) refl)
  ]

  -- From the first start of the server on, when the hash is empty, over operations and restarts in any
  -- order, each change saved and what was marshalled read back: a unique id that has a token is
  -- unknown as soon as it is removed, and known again after a restart, with the token that it had.
  pub removed_token_returns :
      {m : LoginTokenMgr} (uid : Text) (i : LoginTokenInfo)
      → ReadsBack json
      → Reach json m true
      → lookup uid m.uid2token ≡ some i
      → (get_token_by_uid uid (remove_from_uid2token uid m) ≡ none)
        × ((j : LoginTokenInfo) × (get_token_by_uid uid
                (restart json (remove_from_uid2token uid m)).0
              ≡ some j)
            × (j.token ≡ i.token))
  removed_token_returns {m} uid i law reached found =
      let (code, back) = restart_keeps_token uid i law reached found in
      (
        removed_token-unknown uid m,
        subst
            (λ q. (j : LoginTokenInfo) × (get_token_by_uid uid q.0 ≡ some j) × (j.token ≡ i.token))
            (sym (removed-restart m uid)) back,
      )
