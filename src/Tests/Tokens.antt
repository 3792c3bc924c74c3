-- ===== src/Tests/Tokens.antt =====
-- Tokens of a concrete account.
use mm_server.Prelude.{
  sym, ◌∙◌, inr, ◌≡◌, refl, true, none, some, ℕ, zero, suc, Option, [], ◌∷◌, arith,
}
use mm_server.Prelude.Int.{ℤ, pos, negsuc}
use mm_server.Prelude.Text.{Text, text_eq, same_text}
use mm_server.Prelude.Dict.{lookup, insert}
use mm_server.LoginTokens.{
  RedisLoginTokenInfo, LoginTokenInfo, LoginTokenMgr, Json, Step, Reach, add_to_uid2token,
  set_token, save_redis_login_token, get_token_by_uid, remove_from_uid2token, restart,
  load_redis_data, load_items, init, AllOrderly,
}
use mm_server.LoginTokens.Agreement.{IsAgreed, Reach-IsAgreed}
use mm_server.LoginTokens.Loading.{ReadsBack}
use mm_server.LoginTokens.Restart.{restart_keeps_token, removed_token_returns}

-- A sign and a number for an int32, and the token behind them.
abbrev number : ℤ → Text → Text
number (pos n) rest = 0 ∷ n ∷ rest
number (negsuc n) rest = 1 ∷ n ∷ rest

abbrev signed : ℕ → ℕ → ℤ
signed zero n = pos n
signed (suc _) n = negsuc n

abbrev read_token : Text → Option RedisLoginTokenInfo
read_token (a ∷ n ∷ b ∷ k ∷ token) =
    some (record { token = token; player_id = signed a n; create_time = signed b k })
read_token _ = none

abbrev plain : Json
plain = record {
  marshal = λ r. number r.player_id (number r.create_time r.token);
  unmarshal = read_token;
}

number_read :
    (token : Text) (a b : ℤ)
    → read_token (number a (number b token))
      ≡ some (record { token = token; player_id = a; create_time = b })
number_read token (pos n) (pos k) = refl
number_read token (pos n) (negsuc k) = refl
number_read token (negsuc n) (pos k) = refl
number_read token (negsuc n) (negsuc k) = refl

plain-ReadsBack : ReadsBack plain
plain-ReadsBack r = number_read r.token r.player_id r.create_time

abbrev uid : Text
uid = 117 ∷ []

abbrev account : Text
account = 97 ∷ []

abbrev first_start : LoginTokenMgr
first_start = (restart plain (record { uid2token = []; acc2uid = []; redis = [] })).0

abbrev one_token : LoginTokenMgr
one_token =
    add_to_uid2token plain true (pos 1000) uid account (116 ∷ []) (pos 7) (some 1) first_start

abbrev two_tokens : LoginTokenMgr
two_tokens = (set_token plain true (pos 2000) uid (119 ∷ []) (pos 7) one_token).0

abbrev known_again : LoginTokenMgr
known_again = (restart plain two_tokens).0

abbrev announced : LoginTokenMgr
announced =
    add_to_uid2token plain true (pos 3000) uid account (121 ∷ []) (pos 7) (some 2) known_again

abbrev last_token : LoginTokenInfo
last_token = record {
  account = account;
  token = 119 ∷ [];
  player_id = pos 7;
  create_time = pos 1000;
  login_server = some 1;
}

two_tokens_kept : Reach plain two_tokens true
two_tokens_kept =
    Reach.after
      (Reach.after Reach.start (Step.added true (pos 1000) uid account (116 ∷ []) (pos 7) (some 1)))
      (Step.renewed true (pos 2000) uid (119 ∷ []) (pos 7))

announced_kept : Reach plain announced true
announced_kept =
    Reach.after (Reach.after two_tokens_kept Step.started_again)
      (Step.added true (pos 3000) uid account (121 ∷ []) (pos 7) (some 2))

first_unknown : lookup uid first_start.uid2token ≡ none
unfolding restart load_redis_data load_items init lookup
first_unknown = refl

nameless :
    lookup uid known_again.uid2token
    ≡ some (record {
      account = [];
      token = 119 ∷ [];
      player_id = pos 7;
      create_time = pos 2000;
      login_server = none;
    })
unfolding add_to_uid2token set_token save_redis_login_token restart load_redis_data load_items init
    lookup insert same_text
nameless = refl

announced-AllOrderly : AllOrderly plain announced_kept
unfolding announced_kept two_tokens_kept
announced-AllOrderly = (
  (
    (
      (
        tt,
        λ i found.
            let gone : none ≡ some i = sym first_unknown ∙ found in absurd (ground (arith, gone)),
      ),
      tt,
    ),
    tt,
  ),
  λ i found. let same = sym nameless ∙ found in inr (cc),
)

Reach-IsAgreed_example : IsAgreed announced
Reach-IsAgreed_example = Reach-IsAgreed plain announced_kept announced-AllOrderly

last_held : lookup uid two_tokens.uid2token ≡ some last_token
unfolding add_to_uid2token set_token save_redis_login_token restart load_redis_data load_items init
    lookup insert same_text
last_held = refl

restart_keeps_token_example :
    ((restart plain two_tokens).1 ≡ pos 1)
    × ((j : LoginTokenInfo) × (get_token_by_uid uid (restart plain two_tokens).0 ≡ some j)
        × (j.token ≡ last_token.token))
restart_keeps_token_example =
    restart_keeps_token plain uid last_token plain-ReadsBack two_tokens_kept last_held

removed_token_returns_example :
    (get_token_by_uid uid (remove_from_uid2token uid two_tokens) ≡ none)
    × ((j : LoginTokenInfo) × (get_token_by_uid uid
            (restart plain (remove_from_uid2token uid two_tokens)).0
          ≡ some j)
        × (j.token ≡ last_token.token))
removed_token_returns_example =
    removed_token_returns plain uid last_token plain-ReadsBack two_tokens_kept last_held
