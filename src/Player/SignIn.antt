-- ===== src/Player/SignIn.antt =====
-- The daily sign-in (src/game_server/player_sign.go). A day is a local calendar day, in a zone at a
-- fixed number of seconds east of UTC; times are after 1970.
pub mod Frame
pub mod Awards
pub mod Days
pub mod Requests
use mm_server.Prelude.{
  ℕ, ◌+◌, ◌/◌, Bool, true, false, Option, none, some, List, [], ◌∷◌, if◌then◌else◌, not, ◌==◌,
}
use mm_server.Prelude.Fault.{◌>>=◌}
use mm_server.Prelude.Int.{ℤ, pos, negsuc, pos_part, ltb_ℤ, leb_ℤ, eqb_ℤ, int_eq}
use mm_server.Prelude.Int32.{add32}
use mm_server.Prelude.Lists.{get_elem?}
use mm_server.Prelude.Dict.{Dict, lookup, insert}
use mm_server.Player.State.{Player, Config, Sign, SignItem, SignTable, Effect, emit}
use mm_server.Player.Values.{Call}
use mm_server.Player.Resources.{add_resources}

-- `dbPlayerSignColumn.has_reward`
unfoldable pub has_reward : Sign → Bool
has_reward s = ltb_ℤ s.award_index s.signed_index

-- The calendar day of a time.
abbrev pub day_of : ℕ → ℤ → ℕ
day_of zone t = (pos_part t + zone) / 86400

-- The case of `check_signed` for a player who signed before.
unfoldable pub sign_again : ℕ → ℤ → Sign → Sign × ℤ
sign_again zone now s =
    if day_of zone now == day_of zone s.last_signed_time
    then (s, pos 0)
    else (record s { signed_index = add32 s.signed_index (pos 1); last_signed_time = now }, pos 1)

-- `check_signed`: the new column, and 1 if the day was signed now. A player who never signed makes
-- the code look at the first row of the table, which an empty table does not have.
unfoldable pub check_signed : SignTable → ℕ → ℤ → Sign → Option (Sign × ℤ)
check_signed table zone now s =
    let first = get_elem? table.array 0 >>= λ _.
    some (record s { signed_index = pos 1; last_signed_time = now }, pos 1) in
    if eqb_ℤ s.last_signed_time (pos 0) then first else some (sign_again zone now s)

abbrev count_of : ℤ → Dict ℤ ℤ → ℤ
count_of id m = elim (lookup id m) [ none ↦ pos 0 | some n ↦ n ]

-- `rewards[reward[2*n]] += reward[2*n+1]`, over the whole pairs of the list.
unfoldable pub sum_rewards : List ℤ → Dict ℤ ℤ → Dict ℤ ℤ
sum_rewards [] m = m
sum_rewards (id ∷ []) m = m
sum_rewards (id ∷ num ∷ rest) m = sum_rewards rest (insert id (add32 (count_of id m) num) m)

abbrev pub err_already_award : ℤ
err_already_award = negsuc 102700

abbrev pub err_must_award_in_sequence : ℤ
err_must_award_in_sequence = negsuc 102701

abbrev pub err_all_awarded : ℤ
err_all_awarded = negsuc 102702

-- `sign_award` after its checks.
unfoldable pub give_award : Config → ℤ → ℤ → SignItem → Player → Option Call
give_award cfg now id item p = do
  q ← add_resources cfg now item.reward p
  let awarded = record q { sign = record (q.sign) { award_index = id } }
  some (emit (Effect.send_sign_award id (sum_rewards item.reward [])) awarded, pos 1)

unfoldable pub award_known : Config → ℤ → ℤ → Option SignItem → Player → Option Call
award_known cfg now id none p = some (p, negsuc 0)
award_known cfg now id (some item) p = give_award cfg now id item p

-- `sign_award`
unfoldable pub sign_award : Config → ℤ → ℤ → Player → Option Call
sign_award cfg now id p =
    if leb_ℤ id p.sign.award_index
    then some (p, err_already_award)
    else if not (eqb_ℤ (add32 p.sign.award_index (pos 1)) id)
    then some (p, err_must_award_in_sequence)
    else if leb_ℤ p.sign.signed_index p.sign.award_index
    then some (p, err_all_awarded)
    else award_known cfg now id (lookup id cfg.signs.sign_map) p

-- `get_sign_data` signs the day, and reports both indices; the seconds until the next day, which the
-- reply also holds, are left out.
unfoldable pub get_sign_data : SignTable → ℕ → ℤ → Player → Option Call
get_sign_data table zone now p = do
  (s, _) ← check_signed table zone now p.sign
  some (emit (Effect.send_sign_data s.award_index s.signed_index) (record p { sign = s }), pos 1)
