-- ===== src/LoginTokens.antt =====
-- The tokens of the accounts that the login server announces to the game server
-- (src/game_server/login_token.go): two maps, and a hash in Redis from which the first map is filled
-- when the server starts. `encoding/json` and the time are arguments, and so is whether the queue of
-- Redis took a command; a connection is a number. Each operation holds the lock of the maps.
pub mod Agreement
pub mod Loading
pub mod Names
pub mod Saved
pub mod Restart
use mm_server.Prelude.{
  ℕ, Bool, true, false, Option, none, some, [], ◌∷◌, if◌then◌else◌, not, ◌≡◌, ◌⊎◌, ◌&&◌, ◌||◌,
}
use mm_server.Prelude.Int.{ℤ, pos, negsuc}
use mm_server.Prelude.Text.{Text, is_empty, same_text, text_eq}
use mm_server.Prelude.Dict.{Dict, lookup, insert, erase}

pub record RedisLoginTokenInfo : Type 0 where
  pub token : Text
  pub player_id : ℤ
  pub create_time : ℤ

-- `login_server` is nil for what was loaded from Redis.
pub record LoginTokenInfo : Type 0 where
  pub account : Text
  pub token : Text
  pub player_id : ℤ
  pub create_time : ℤ
  pub login_server : Option ℕ

-- `json.Marshal`, which does not fail on this type, and `json.Unmarshal`.
pub record Json : Type 0 where
  pub marshal : RedisLoginTokenInfo → Text
  pub unmarshal : Text → Option RedisLoginTokenInfo

-- The maps, and the hash `UID_TOKEN_KEY` of Redis.
pub record LoginTokenMgr : Type 0 where
  pub uid2token : Dict Text LoginTokenInfo
  pub acc2uid : Dict Text Text
  pub redis : Dict Text Text

-- `Init`: what Redis holds stays.
unfoldable pub init : LoginTokenMgr → LoginTokenMgr
init m = record m { uid2token = []; acc2uid = [] }

abbrev pub loaded : RedisLoginTokenInfo → LoginTokenInfo
loaded r = record {
  account = [];
  token = r.token;
  player_id = r.player_id;
  create_time = r.create_time;
  login_server = none;
}

-- `BindNewAccount` at the token: a panic where there is none.
bind_token :
    Text → Text → Text → LoginTokenMgr → Option LoginTokenInfo → Option (LoginTokenMgr × Bool)
bind_token uid acc new_acc m none = none
bind_token uid acc new_acc m (some i) =
    let bound = record m {
      uid2token = insert uid (record i { account = new_acc }) m.uid2token;
      acc2uid = insert new_acc uid (erase acc m.acc2uid);
    } in
    if same_text i.account acc then some (bound, true) else some (m, false)

unfoldable pub bind_new_account : Text → Text → Text → LoginTokenMgr → Option (LoginTokenMgr × Bool)
unfolding bind_token
bind_new_account uid acc new_acc m = bind_token uid acc new_acc m (lookup uid m.uid2token)

remove_token : Text → LoginTokenMgr → Option LoginTokenInfo → LoginTokenMgr
remove_token uid m none = m
remove_token uid m (some i) = record m {
  uid2token = erase uid m.uid2token;
  acc2uid = erase i.account m.acc2uid;
}

unfoldable pub remove_from_uid2token : Text → LoginTokenMgr → LoginTokenMgr
unfolding remove_token
remove_from_uid2token uid m =
    let removed = remove_token uid m (lookup uid m.uid2token) in if is_empty uid then m else removed

unfoldable pub get_token_by_uid : Text → LoginTokenMgr → Option LoginTokenInfo
get_token_by_uid uid m = if is_empty uid then none else lookup uid m.uid2token

unfoldable pub get_login_server_by_uid : Text → LoginTokenMgr → Option ℕ
get_login_server_by_uid uid m = elim (lookup uid m.uid2token) [
  | none ↦ none
  | some i ↦ i.login_server
]

-- An account that has none has the empty text for its id.
unfoldable pub get_uid_by_account : Text → LoginTokenMgr → Text
get_uid_by_account acc m = elim (lookup acc m.acc2uid) [ none ↦ [] | some uid ↦ uid ]

module _ (json : Json) where
  -- `_save_redis_login_token`
  unfoldable pub save_redis_login_token : Bool → Text → Text → ℤ → ℤ → LoginTokenMgr → LoginTokenMgr
  save_redis_login_token posted uid token now player_id m =
      let item : RedisLoginTokenInfo = record {
        token = token;
        player_id = player_id;
        create_time = now;
      } in
      if posted then record m { redis = insert uid (json.marshal item) m.redis } else m

  unfoldable pub add_to_uid2token :
      Bool → ℤ → Text → Text → Text → ℤ → Option ℕ → LoginTokenMgr → LoginTokenMgr
  add_to_uid2token posted now uid acc token player_id server m =
      let item : LoginTokenInfo = record {
        account = acc;
        token = token;
        player_id = player_id;
        create_time = now;
        login_server = server;
      } in
      let noted = record m {
        uid2token = insert uid item m.uid2token;
        acc2uid = insert acc uid m.acc2uid;
      } in
      let saved = save_redis_login_token posted uid token now player_id noted in
      if is_empty uid || is_empty acc || is_empty token then m else saved

  put_token :
      Bool → ℤ → Text → Text → ℤ → LoginTokenMgr → Option LoginTokenInfo → LoginTokenMgr × Bool
  put_token posted now uid token player_id m none = (m, false)
  put_token posted now uid token player_id m (some i) =
      let noted = record m { uid2token = insert uid (record i { token = token }) m.uid2token } in
      (save_redis_login_token posted uid token now player_id noted, true)

  -- `SetToken`: the player's id goes to Redis only.
  unfoldable pub set_token : Bool → ℤ → Text → Text → ℤ → LoginTokenMgr → LoginTokenMgr × Bool
  unfolding put_token
  set_token posted now uid token player_id m =
      put_token posted now uid token player_id m (lookup uid m.uid2token)

  -- The loop of `LoadRedisData` over the hash: what cannot be read ends it.
  unfoldable pub load_items : Dict Text Text → LoginTokenMgr → LoginTokenMgr × ℤ
  load_items [] m = (m, pos 1)
  load_items ((uid, item) ∷ rest) m = elim (json.unmarshal item) [
    | none ↦ (m, negsuc 0)
    | some r ↦ load_items rest (record m { uid2token = insert uid (loaded r) m.uid2token })
  ]

  -- `LoadRedisData`, where Redis answers.
  unfoldable pub load_redis_data : LoginTokenMgr → LoginTokenMgr × ℤ
  load_redis_data m = load_items m.redis m

  -- The server stops and starts again.
  unfoldable pub restart : LoginTokenMgr → LoginTokenMgr × ℤ
  restart m = load_redis_data (init m)

  -- One operation on the tokens, or a restart of the server. The last index says whether all that the
  -- operation had to save was saved.
  pub data Step : LoginTokenMgr → LoginTokenMgr → Bool → Type 0 where
    added :
        {m : LoginTokenMgr} (posted : Bool) (now : ℤ) (uid acc token : Text) (player_id : ℤ)
        (server : Option ℕ)
        → Step m (add_to_uid2token posted now uid acc token player_id server m) posted
    bound :
        {m n : LoginTokenMgr} {done : Bool} (uid acc new_acc : Text)
        → bind_new_account uid acc new_acc m ≡ some (n, done)
        → Step m n true
    removed : {m : LoginTokenMgr} (uid : Text) → Step m (remove_from_uid2token uid m) true
    renewed :
        {m : LoginTokenMgr} (posted : Bool) (now : ℤ) (uid token : Text) (player_id : ℤ)
        → Step m (set_token posted now uid token player_id m).0 posted
    started_again : {m : LoginTokenMgr} → Step m (restart m).0 true

  -- What operations and restarts make of the manager from the first start of the server on, when the
  -- hash in Redis is empty. The index says whether all was saved.
  pub data Reach : LoginTokenMgr → Bool → Type 0 where
    start : Reach (restart (record { uid2token = []; acc2uid = []; redis = [] })).0 true
    after : {m n : LoginTokenMgr} {s t : Bool} → Reach m s → Step m n t → Reach n (t && s)

  -- An announcement gives a unique id to the account that its token has, unless this was loaded from
  -- Redis and has none; a new name of an account is not empty.
  abbrev pub IsOrderly : {m n : LoginTokenMgr} {t : Bool} → Step m n t → Type 0
  IsOrderly {m} (Step.added posted now uid acc token player_id server) =
      (i : LoginTokenInfo) → lookup uid m.uid2token ≡ some i → (i.account ≡ acc) ⊎ (i.account ≡ [])
  IsOrderly (Step.bound uid acc new_acc out) = is_empty new_acc ≡ false
  IsOrderly (Step.removed uid) = Unit
  IsOrderly (Step.renewed posted now uid token player_id) = Unit
  IsOrderly Step.started_again = Unit

  abbrev pub AllOrderly : {m : LoginTokenMgr} {s : Bool} → Reach m s → Type 0
  AllOrderly Reach.start = Unit
  AllOrderly (Reach.after so step) = AllOrderly so × IsOrderly step
