-- ===== src/Accounts.antt =====
-- The accounts that the login server knows (src/login_server/account_mgr.go): a map of records with a
-- state. The operations are whole steps here; the code takes the lock of the record for each field.
pub mod History
use mm_server.Prelude.{Bool, true, false, Option, none, some, List, [], ◌∷◌, if◌then◌else◌}
use mm_server.Prelude.Int.{ℤ, pos, eqb_ℤ}
use mm_server.Prelude.Text.{Text, text_eq}
use mm_server.Prelude.Dict.{Dict, lookup, insert}

-- The state is 0 for an account that is not logged in, 1 for one that is, 2 for one in the game.
pub record AccountInfo : Type 0 where
  pub account : Text
  pub token : Text
  pub unique_id : Text
  pub state : ℤ
  pub client_os : Text

abbrev pub Accounts : Type 0
Accounts = Dict Text AccountInfo

abbrev pub new_account : Text → AccountInfo
new_account acc = record {
  account = acc;
  token = [];
  unique_id = [];
  state = pos 0;
  client_os = [];
}

unfoldable pub found_or_new :
    Text → Bool → Accounts → Option AccountInfo → Accounts × Option AccountInfo
found_or_new acc true m none = (insert acc (new_account acc) m, some (new_account acc))
found_or_new acc false m none = (m, none)
found_or_new acc first_create m (some i) = (m, some i)

-- The record is in the map afterwards, if there is one.
unfoldable pub account_info_get : Text → Bool → Accounts → Accounts × Option AccountInfo
account_info_get acc first_create m = found_or_new acc first_create m (lookup acc m)

-- A record behind a pointer is changed.
unfoldable pub change :
    Text → (AccountInfo → AccountInfo) → Accounts × Option AccountInfo → Accounts
change acc f (m, none) = m
change acc f (m, some i) = insert acc (f i) m

unfoldable pub set_state : ℤ → AccountInfo → AccountInfo
set_state state i = record i { state = state }

unfoldable pub set_token : Text → AccountInfo → AccountInfo
set_token token i = record i { token = token }

unfoldable pub set_client_os : Text → AccountInfo → AccountInfo
set_client_os client_os i = record i { client_os = client_os }

unfoldable pub is_logged : Option AccountInfo → Bool
is_logged none = false
is_logged (some i) = eqb_ℤ i.state (pos 1)

unfoldable pub has_account_login : Text → Accounts → Bool
has_account_login acc m = is_logged (account_info_get acc false m).1

unfoldable pub account_login : Text → Text → Text → Accounts → Accounts
account_login acc token client_os m =
    change acc (λ i. set_client_os client_os (set_token token (set_state (pos 1) i)))
      (account_info_get acc true m)

unfoldable pub account_enter_game : Text → Accounts → Accounts
account_enter_game acc m = change acc (set_state (pos 2)) (account_info_get acc false m)

unfoldable pub account_logout : Text → Accounts → Accounts
account_logout acc m = change acc (set_state (pos 0)) (account_info_get acc false m)

unfoldable pub os_of : Option AccountInfo → Bool × Text
os_of none = (false, [])
os_of (some i) = (true, i.client_os)

unfoldable pub account_get_client_os : Text → Accounts → Bool × Text
account_get_client_os acc m = os_of (account_info_get acc false m).1

pub data Request : Type 0 where
  login : Text → Text → Text → Request
  enter_game : Text → Request
  logout : Text → Request

unfoldable pub serve : Request → Accounts → Accounts
serve (Request.login acc token client_os) m = account_login acc token client_os m
serve (Request.enter_game acc) m = account_enter_game acc m
serve (Request.logout acc) m = account_logout acc m

unfoldable pub serve_all : List Request → Accounts → Accounts
serve_all [] m = m
serve_all (r ∷ rs) m = serve_all rs (serve r m)
