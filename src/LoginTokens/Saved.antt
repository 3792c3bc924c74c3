-- ===== src/LoginTokens/Saved.antt =====
-- What operations keep of the tokens and of their hash in Redis (src/game_server/login_token.go).
use mm_server.Prelude.{
  [], ap, Option-cases, ℕ, Bool, Bool-cases, true, false, Option, none, some, ◌≡◌, refl, sym, subst,
  ◌∙◌, arith, inl, inr, ◌||◌,
}
use mm_server.Prelude.Fault.{IfReturns}
use mm_server.Prelude.Int.{ℤ}
use mm_server.Prelude.Text.{Text, is_empty, same_text, same_text_iff, text_eq}
use mm_server.Prelude.Dict.{
  Dict, lookup, insert, erase, lookup-insert, lookup-erase, HasUniqueKeys, insert-HasUniqueKeys,
  AllEntries, insert-AllEntries, lookup-AllEntries,
}
use mm_server.LoginTokens.{
  RedisLoginTokenInfo, LoginTokenInfo, LoginTokenMgr, Json, Step, Reach, add_to_uid2token,
  bind_new_account, remove_from_uid2token, set_token, save_redis_login_token, bind_token,
  remove_token, put_token, load_items, load_redis_data, restart, init, loaded,
}
use mm_server.LoginTokens.Loading.{ReadsBack, IsWritten, Loads, load_items-Loads, load_items-redis}

module _ (json : Json) where
  -- The token that the hash holds for a unique id.
  abbrev pub InRedis : Dict Text Text → Text → LoginTokenInfo → Type 0
  InRedis redis uid i =
      (r : RedisLoginTokenInfo) × (lookup uid redis ≡ some (json.marshal r)) × (r.token ≡ i.token)

  -- Every token is in the hash, under a unique id that is not empty.
  pub record IsSaved (m : LoginTokenMgr) : Type 0 where
    pub unique : HasUniqueKeys m.redis
    pub written : AllEntries (IsWritten json) m.redis
    pub saved :
        (uid : Text) (i : LoginTokenInfo) → lookup uid m.uid2token ≡ some i → InRedis m.redis uid i
    pub named :
        (uid : Text) (i : LoginTokenInfo) → lookup uid m.uid2token ≡ some i → is_empty uid ≡ false

  -- A token is put into the map and into the hash.
  write-IsSaved :
      (uid : Text) (r : RedisLoginTokenInfo) (i : LoginTokenInfo) (uids : Dict Text Text)
      (m : LoginTokenMgr)
      → r.token ≡ i.token
      → is_empty uid ≡ false
      → IsSaved m
      → IsSaved (record {
        uid2token = insert uid i m.uid2token;
        acc2uid = uids;
        redis = insert uid (json.marshal r) m.redis;
      })
  write-IsSaved uid r i uids m same full v = record {
    unique = insert-HasUniqueKeys uid (json.marshal r) m.redis (v.unique);
    written =
        insert-AllEntries (IsWritten json) uid (json.marshal r) m.redis (v.written) (r, refl, full);
    saved = λ u j found. elim (Bool-cases (same_text uid u)) [
      | inl this ↦
          let put : some i ≡ some j =
            sym (rw this at (lookup-insert uid u i m.uid2token)) ∙ found in
          (r, rw this at (lookup-insert uid u (json.marshal r) m.redis), cc)
      | inr other ↦
          let old = sym (rw other at (lookup-insert uid u i m.uid2token)) ∙ found in
          let (s, there, token) = v.saved u j old in
          (s, rw other at (lookup-insert uid u (json.marshal r) m.redis) ∙ there, token)
    ];
    named = λ u j found. elim (Bool-cases (same_text uid u)) [
      | inl this ↦ subst (λ x. is_empty x ≡ false) ((same_text_iff uid u).0 this) full
      | inr other ↦ v.named u j (sym (rw other at (lookup-insert uid u i m.uid2token)) ∙ found)
    ];
  }

  -- The map holds no token that it did not hold before.
  keep-IsSaved :
      (tokens : Dict Text LoginTokenInfo) (uids : Dict Text Text) (m : LoginTokenMgr)
      → ((u : Text) (j : LoginTokenInfo)
          → lookup u tokens ≡ some j
          → (i : LoginTokenInfo) × (lookup u m.uid2token ≡ some i) × (i.token ≡ j.token))
      → IsSaved m
      → IsSaved (record m { uid2token = tokens; acc2uid = uids })
  keep-IsSaved tokens uids m old v = record {
    unique = v.unique;
    written = v.written;
    saved = λ u j found.
        let (i, there, token) = old u j found in
        let (r, kept, same) = v.saved u i there in (r, kept, same ∙ token);
    named = λ u j found. let (i, there, token) = old u j found in v.named u i there;
  }

  renewed_from :
      (uid : Text) (i j : LoginTokenInfo) (m : LoginTokenMgr)
      → lookup uid m.uid2token ≡ some i
      → i.token ≡ j.token
      → (u : Text) (k : LoginTokenInfo) → lookup u (insert uid j m.uid2token) ≡ some k
      → (old : LoginTokenInfo) × (lookup u m.uid2token ≡ some old) × (old.token ≡ k.token)
  renewed_from uid i j m held same u k found = elim (Bool-cases (same_text uid u)) [
    | inl this ↦
        let key : uid ≡ u = (same_text_iff uid u).0 this in
        let put : some j ≡ some k = sym (rw this at (lookup-insert uid u j m.uid2token)) ∙ found in
        (i, subst (λ x. lookup x m.uid2token ≡ some i) key held, cc)
    | inr other ↦ (k, sym (rw other at (lookup-insert uid u j m.uid2token)) ∙ found, refl)
  ]

  bind-IsSaved :
      (uid acc new_acc : Text) (m n : LoginTokenMgr) (done : Bool) (o : Option LoginTokenInfo)
      → lookup uid m.uid2token ≡ o
      → bind_token uid acc new_acc m o ≡ some (n, done)
      → IsSaved m
      → IsSaved n
  unfolding bind_token
  bind-IsSaved uid acc new_acc m n done none held out v = absurd (ground (arith, out))
  bind-IsSaved uid acc new_acc m n done (some i) held out v =
      let j : LoginTokenInfo = record i { account = new_acc } in
      let tokens = insert uid j m.uid2token in
      let uids = insert new_acc uid (erase acc m.acc2uid) in
      elim (Bool-cases (same_text i.account acc)) [
        | inl same ↦
            let result : some (record m { uid2token = tokens; acc2uid = uids }, true)
                ≡ some (n, done) =
              rw same at out in
            let bound = keep-IsSaved tokens uids m (renewed_from uid i j m held refl) v in
            subst (λ r. IfReturns (λ q. IsSaved q.0) r) result bound
        | inr other ↦
            let result : some (m, false) ≡ some (n, done) = rw other at out in
            subst (λ r. IfReturns (λ q. IsSaved q.0) r) result v
      ]

  remove-IsSaved :
      (uid : Text) (m : LoginTokenMgr) (o : Option LoginTokenInfo)
      → IsSaved m
      → IsSaved (remove_token uid m o)
  unfolding remove_token
  remove-IsSaved uid m none v = v
  remove-IsSaved uid m (some i) v =
      keep-IsSaved (erase uid m.uid2token) (erase i.account m.acc2uid) m
        (λ u j found. elim (Bool-cases (same_text uid u)) [
          | inl this ↦
              let gone : none ≡ some j =
                sym (rw this at (lookup-erase uid u m.uid2token)) ∙ found in
              absurd (ground (arith, gone))
          | inr other ↦ (j, sym (rw other at (lookup-erase uid u m.uid2token)) ∙ found, refl)
        ])
        v

  add-IsSaved :
      (now : ℤ) (uid acc token : Text) (player_id : ℤ) (server : Option ℕ) (m : LoginTokenMgr)
      → IsSaved m
      → IsSaved (add_to_uid2token json true now uid acc token player_id server m)
  unfolding add_to_uid2token save_redis_login_token
  add-IsSaved now uid acc token player_id server m v =
      elim (Bool-cases (is_empty uid || is_empty acc || is_empty token)) [
        | inl empty ↦ rw empty v
        | inr full ↦
            let named : is_empty uid ≡ false = ground (arith, full) in
            rw full (write-IsSaved uid _ _ (insert acc uid m.acc2uid) m refl named v)
      ]

  put-IsSaved :
      (now : ℤ) (uid token : Text) (player_id : ℤ) (m : LoginTokenMgr) (o : Option LoginTokenInfo)
      → lookup uid m.uid2token ≡ o
      → IsSaved m
      → IsSaved (put_token json true now uid token player_id m o).0
  unfolding put_token save_redis_login_token
  put-IsSaved now uid token player_id m none held v = v
  put-IsSaved now uid token player_id m (some i) held v =
      write-IsSaved uid _ _ m.acc2uid m refl (v.named uid i held) v

  -- A token that the loop has read from the hash.
  from_redis :
      (d : Dict Text Text) (q : LoginTokenMgr × ℤ)
      → ReadsBack json
      → AllEntries (IsWritten json) d
      → Loads json d (record { uid2token = []; acc2uid = []; redis = d }) q
      → (uid : Text) (i : LoginTokenInfo) → lookup uid q.0.uid2token ≡ some i
      → InRedis d uid i × (is_empty uid ≡ false)
  unfolding lookup
  from_redis d q law all l uid i found = elim (Option-cases (lookup uid d)) [
    | inl missing ↦
        let gone : none ≡ some i = sym (l.rest uid missing) ∙ found in absurd (ground (arith, gone))
    | inr (item, held) ↦
        let (r, written, full) = lookup-AllEntries (IsWritten json) uid item d all held in
        let there : lookup uid d ≡ some (json.marshal r) = held ∙ ap (λ x. some x) written in
        let same : some (loaded r) ≡ some i = sym (l.read uid r there) ∙ found in
        ((r, there, cc), full)
  ]

  -- What a restart reads is what is saved.
  restart-IsSaved : (m : LoginTokenMgr) → ReadsBack json → IsSaved m → IsSaved (restart json m).0
  unfolding restart load_redis_data init lookup
  restart-IsSaved m law v =
      let fresh = record m { uid2token = []; acc2uid = [] } in
      let l = load_items-Loads json m.redis fresh law (v.unique) (v.written) in
      let same : (load_items json m.redis fresh).0.redis ≡ m.redis =
        load_items-redis json m.redis fresh law (v.written) in
      let read = from_redis m.redis (load_items json m.redis fresh) law (v.written) l in
      record {
        unique = subst (λ d. HasUniqueKeys d) (sym same) (v.unique);
        written = subst (λ d. AllEntries (IsWritten json) d) (sym same) (v.written);
        saved = λ uid i found. subst (λ d. InRedis d uid i) (sym same) (read uid i found).0;
        named = λ uid i found. (read uid i found).1;
      }

  Step-IsSaved :
      {m n : LoginTokenMgr} {s : Bool}
      → ReadsBack json
      → s ≡ true
      → Step json m n s
      → IsSaved m
      → IsSaved n
  unfolding bind_new_account remove_from_uid2token set_token
  Step-IsSaved {m} law all (Step.added posted now uid acc token player_id server) v =
      rw all (add-IsSaved now uid acc token player_id server m v)
  Step-IsSaved {m} {n} law all (Step.bound {done = done} uid acc new_acc out) v =
      bind-IsSaved uid acc new_acc m n done (lookup uid m.uid2token) refl out v
  Step-IsSaved {m} law all (Step.removed uid) v = elim (Bool-cases (is_empty uid)) [
    | inl empty ↦ rw empty v
    | inr full ↦ rw full (remove-IsSaved uid m (lookup uid m.uid2token) v)
  ]
  Step-IsSaved {m} law all (Step.renewed posted now uid token player_id) v =
      rw all (put-IsSaved now uid token player_id m (lookup uid m.uid2token) refl v)
  Step-IsSaved {m} law all Step.started_again v = restart-IsSaved m law v

  empty-IsSaved : IsSaved (record { uid2token = []; acc2uid = []; redis = [] })
  unfolding lookup
  empty-IsSaved = record {
    unique = tt;
    written = tt;
    saved = λ uid i found. absurd (ground arith);
    named = λ uid i found. absurd (ground arith);
  }

  pub Reach-IsSaved :
      {m : LoginTokenMgr} {s : Bool} → ReadsBack json → s ≡ true → Reach json m s → IsSaved m
  Reach-IsSaved law all Reach.start = restart-IsSaved _ law empty-IsSaved
  Reach-IsSaved law all (Reach.after {s = s} {t = t} so step) =
      Step-IsSaved law (ground (arith, all)) step (Reach-IsSaved law (ground (arith, all)) so)
