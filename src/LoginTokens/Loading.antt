-- ===== src/LoginTokens/Loading.antt =====
-- The loop of `LoadRedisData` (src/game_server/login_token.go) over the hash of the tokens.
use mm_server.Prelude.{
  Bool-cases, false, none, some, [], ◌∷◌, ◌≡◌, refl, sym, ap, subst, ◌∙◌, arith, inl, inr,
}
use mm_server.Prelude.Int.{ℤ, pos}
use mm_server.Prelude.Text.{Text, is_empty, same_text, same_text_iff, text_eq}
use mm_server.Prelude.Dict.{Dict, lookup, insert, lookup-insert, HasUniqueKeys, AllEntries}
use mm_server.LoginTokens.{RedisLoginTokenInfo, LoginTokenMgr, Json, load_items, loaded}

-- What was marshalled is read back.
abbrev pub ReadsBack : Json → Type 0
ReadsBack json = (r : RedisLoginTokenInfo) → json.unmarshal (json.marshal r) ≡ some r

module _ (json : Json) where
  -- An entry of the hash that the server has written.
  abbrev pub IsWritten : Text × Text → Type 0
  IsWritten (uid, item) =
      (r : RedisLoginTokenInfo) × (item ≡ json.marshal r) × (is_empty uid ≡ false)

  -- What the loop over a part of the hash makes of the first map.
  pub record Loads (d : Dict Text Text) (m : LoginTokenMgr) (q : LoginTokenMgr × ℤ) : Type 0 where
    pub code : q.1 ≡ pos 1
    pub read :
        (uid : Text) (r : RedisLoginTokenInfo)
        → lookup uid d ≡ some (json.marshal r)
        → lookup uid q.0.uid2token ≡ some (loaded r)
    pub rest :
        (uid : Text) → lookup uid d ≡ none → lookup uid q.0.uid2token ≡ lookup uid m.uid2token

  pub load_items-Loads :
      (d : Dict Text Text) (m : LoginTokenMgr)
      → ReadsBack json
      → HasUniqueKeys d
      → AllEntries IsWritten d
      → Loads d m (load_items json d m)
  unfolding load_items lookup
  load_items-Loads [] m law unique all = record {
    code = refl;
    read = λ uid r found. absurd (ground arith);
    rest = λ uid missing. refl;
  }
  load_items-Loads ((k, item) ∷ d) m law unique all =
      let (r, written, full) = all.0 in
      let put = record m { uid2token = insert k (loaded r) m.uid2token } in
      let l = load_items-Loads d put law unique.1 all.1 in
      let reads : json.unmarshal item ≡ some r = ap (json.unmarshal) written ∙ law r in
      rw (reads, load_items)
        (record {
          code = l.code;
          read = λ uid s found. elim (Bool-cases (same_text k uid)) [
            | inl this ↦
                let key : k ≡ uid = (same_text_iff k uid).0 this in
                let head : some item ≡ some (json.marshal s) = rw this at found in
                let same_item : item ≡ json.marshal s = cc in
                let same : some r ≡ some s = sym reads ∙ ap (json.unmarshal) same_item ∙ law s in
                let last : lookup uid d ≡ none = subst (λ x. lookup x d ≡ none) key unique.0 in
                l.rest uid last
                ∙ rw this at (lookup-insert k uid (loaded r) m.uid2token)
                ∙ ap (λ o. elim o [ none ↦ none | some x ↦ some (loaded x) ]) same
            | inr other ↦ l.read uid s (rw other at found)
          ];
          rest = λ uid missing. elim (Bool-cases (same_text k uid)) [
            | inl this ↦
                let head : some item ≡ none = rw this at missing in absurd (ground (arith, head))
            | inr other ↦
                l.rest uid (rw other at missing)
                ∙ rw other at (lookup-insert k uid (loaded r) m.uid2token)
          ];
        })

  pub load_items-redis :
      (d : Dict Text Text) (m : LoginTokenMgr)
      → ReadsBack json
      → AllEntries IsWritten d
      → (load_items json d m).0.redis ≡ m.redis
  unfolding load_items
  load_items-redis [] m law all = refl
  load_items-redis ((k, item) ∷ d) m law all =
      let (r, written, full) = all.0 in
      let put = record m { uid2token = insert k (loaded r) m.uid2token } in
      let reads : json.unmarshal item ≡ some r = ap (json.unmarshal) written ∙ law r in
      rw (reads, load_items) (load_items-redis d put law all.1)
