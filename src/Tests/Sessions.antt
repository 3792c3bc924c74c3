-- ===== src/Tests/Sessions.antt =====
-- Requests of two concrete accounts.
use mm_server.Prelude.{◌≡◌, false, [], ◌∷◌, List}
use mm_server.Prelude.Text.{Text}
use mm_server.Accounts.{Request, serve_all, has_account_login, account_get_client_os}
use mm_server.Accounts.History.{ends_in_login, last_os, serve_all-has_account_login}

abbrev anna : Text
anna = 97 ∷ []

abbrev ben : Text
ben = 98 ∷ []

abbrev requests : List Request
requests =
    Request.login anna (116 ∷ []) (105 ∷ [])
    ∷ Request.logout ben
    ∷ Request.login ben (117 ∷ []) (106 ∷ [])
    ∷ Request.enter_game anna
    ∷ []

serve_all-has_account_login_example :
    (has_account_login anna (serve_all requests []) ≡ ends_in_login anna requests false)
    × (account_get_client_os anna (serve_all requests []) ≡ last_os anna requests (false, []))
serve_all-has_account_login_example = serve_all-has_account_login requests anna
