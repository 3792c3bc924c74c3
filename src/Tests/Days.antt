-- ===== src/Tests/Days.antt =====
-- The sign-in at concrete players.
use mm_server.Prelude.{◌≡◌, refl, arith, some, List, [], ◌∷◌}
use mm_server.Prelude.Fault.{Returns}
use mm_server.Prelude.Int.{pos, ◌+ℤ◌, ◌*ℤ◌, int_eq}
use mm_server.Prelude.Int32.{mul32, add32, wrap32}
use mm_server.Player.State.{Sign}
use mm_server.Player.Resources.Total.{IsConfig}
use mm_server.Player.SignIn.{check_signed, sign_again, sign_award}
use mm_server.Player.SignIn.Awards.{IsValid, AwardOutcome, sign_award-Outcome}
use mm_server.Player.SignIn.Requests.{Request, serve_all, Served, serve_all-Served}
use mm_server.Tests.Data.{config, player}

config-IsConfig : IsConfig config
unfolding mul32 wrap32 ◌*ℤ◌
config-IsConfig = record {
  minutes = λ e. absurd (ground arith);
  period = λ e. absurd (ground arith);
  rows = ground arith;
}

player-IsValid : IsValid player.sign
player-IsValid = record {
  counted = ground arith;
  signed = ground arith;
  room = ground arith;
  fresh = λ never. absurd (ground arith);
}

sign_award-Outcome_example :
    Returns
      (sign_award config (pos 200000) (pos 2) player)
      (AwardOutcome config (pos 200000) (pos 2) player)
sign_award-Outcome_example =
    sign_award-Outcome config (pos 200000) (pos 2) player config-IsConfig player-IsValid

abbrev signed_sign : Sign
signed_sign = record { last_signed_time = pos 200000; signed_index = pos 3; award_index = pos 1 }

signs : check_signed config.signs 28800 (pos 200000) player.sign ≡ some (signed_sign, pos 1)
unfolding check_signed sign_again add32 wrap32 ◌+ℤ◌
signs = refl

abbrev requests : List Request
requests =
    Request.look (pos 200000) (pos 0)
    ∷ Request.award (pos 200001) (pos 2)
    ∷ Request.award (pos 200002) (pos 2)
    ∷ []

serve_all-Served_example :
    Returns (serve_all config 28800 requests player) (Served config 28800 requests player)
unfolding ◌+ℤ◌
serve_all-Served_example =
    serve_all-Served config 28800 requests player config-IsConfig tt player-IsValid
      (ground arith, (ground arith, (ground arith, tt))) (ground arith)
