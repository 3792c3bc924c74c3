-- ===== src/Player/SignIn/Days.antt =====
-- Signing a day (`check_signed`).
use mm_server.Prelude.{
  ℕ, ◌≡◌, refl, sym, ap, subst, ◌∙◌, ◌⊎◌, inl, inr, Bool-cases, false, Option, none, some, arith,
  ◌==◌, ==_iff, Bool, true, not, if◌then◌else◌,
}
use mm_server.Prelude.Fault.{IsTotal, Returns, IfReturns, ◌>>=◌}
use mm_server.Prelude.Int.{ℤ, pos, negsuc, ◌+ℤ◌, ◌≤ℤ◌, ◌<ℤ◌, eqb_ℤ, int_eq}
use mm_server.Prelude.Int32.{add32, max_int32}
use mm_server.Prelude.Lists.{get_elem?}
use mm_server.Player.State.{Sign, SignTable}
use mm_server.Player.SignIn.{day_of, check_signed, sign_again}
use mm_server.Player.SignIn.Awards.{IsValid, add32_next, eqb_ℤ→eq}

-- No day was signed on the calendar day of a time.
abbrev pub is_new_day : ℕ → ℤ → Sign → Bool
is_new_day zone now s =
    if eqb_ℤ s.last_signed_time (pos 0)
    then true
    else not (day_of zone now == day_of zone s.last_signed_time)

-- The sign-in after a look at it, in numbers without a limit.
abbrev pub looked : ℕ → ℤ → Sign → Sign
looked zone now s =
    if is_new_day zone now s
    then record s { signed_index = s.signed_index +ℤ pos 1; last_signed_time = now }
    else s

-- What one check does: nothing, or the next day is signed.
pub record Checked (zone : ℕ) (now : ℤ) (s : Sign) (r : Sign × ℤ) : Type 0 where
  pub day : r.0 ≡ looked zone now s
  pub valid : IsValid r.0
  pub award : r.0.award_index ≡ s.award_index
  pub step :
      ((r.1 ≡ pos 0) × (r.0 ≡ s))
      ⊎ ((r.1 ≡ pos 1)
          × (r.0.signed_index ≡ s.signed_index +ℤ pos 1)
          × (r.0.last_signed_time ≡ now))

next_above : (a b k : ℤ) → a ≤ℤ b → k ≡ b +ℤ pos 1 → a ≤ℤ k
unfolding ◌+ℤ◌
next_above a (pos b) k h grown = ground arith
next_above a (negsuc b) k h grown = ground arith

signed_next-IsValid :
    (s : Sign) (now k : ℤ)
    → IsValid s
    → pos 0 <ℤ now
    → k ≡ s.signed_index +ℤ pos 1
    → k <ℤ max_int32
    → IsValid (record s { signed_index = k; last_signed_time = now })
unfolding ◌+ℤ◌
signed_next-IsValid s now k v later grown room = record {
  counted = v.counted;
  signed = next_above s.award_index s.signed_index k (v.signed) grown;
  room = room;
  fresh = λ never. absurd (ground arith);
}

signed_pos : (s : Sign) → IsValid s → pos 0 ≤ℤ s.signed_index
signed_pos s v = grind (arith, v.counted, v.signed)

le_refl : (a : ℤ) → a ≤ℤ a
le_refl a = omega arith

next_signed :
    (s : Sign)
    → IsValid s
    → s.signed_index +ℤ pos 1 <ℤ max_int32
    → add32 s.signed_index (pos 1) ≡ s.signed_index +ℤ pos 1
next_signed s v room =
    add32_next s.signed_index s.signed_index (signed_pos s v) (le_refl s.signed_index) (v.room)

sign_again-Checked :
    (zone : ℕ) (now : ℤ) (s : Sign)
    → IsValid s
    → pos 0 <ℤ now
    → s.signed_index +ℤ pos 1 <ℤ max_int32
    → eqb_ℤ s.last_signed_time (pos 0) ≡ false
    → Checked zone now s (sign_again zone now s)
unfolding sign_again
sign_again-Checked zone now s v later room before =
    elim (Bool-cases (day_of zone now == day_of zone s.last_signed_time)) [
      | inl same ↦ rw same (record {
        day = rw (before, same) refl;
        valid = v;
        award = refl;
        step = inl (refl, refl);
      })
      | inr other ↦
          let grown = next_signed s v room in
          rw other (record {
            day =
                rw (before, other)
                  (ap (λ i. record s { signed_index = i; last_signed_time = now }) grown);
            valid = signed_next-IsValid s now _ v later grown (rw grown room);
            award = refl;
            step = inr (refl, grown, refl);
          })
    ]

never_signed : (t : ℤ) → t ≡ pos 0 → eqb_ℤ t (pos 0) ≡ true
never_signed t h = (int_eq.beq_iff t (pos 0)).1 h

first_signed :
    (zone : ℕ) (s : Sign) (now : ℤ)
    → IsValid s
    → s.last_signed_time ≡ pos 0
    → pos 0 <ℤ now
    → s.signed_index +ℤ pos 1 <ℤ max_int32
    → Checked zone now s (record s { signed_index = pos 1; last_signed_time = now }, pos 1)
unfolding ◌+ℤ◌
first_signed zone s now v never later room =
    let grown : pos 1 ≡ s.signed_index +ℤ pos 1 = sym (ap (λ i. i +ℤ pos 1) (v.fresh never)) in
    record {
      day =
          rw (never_signed s.last_signed_time never)
            (ap (λ i. record s { signed_index = i; last_signed_time = now }) grown);
      valid = signed_next-IsValid s now (pos 1) v later grown (omega arith);
      award = refl;
      step = inr (refl, grown, refl);
    }

first_check :
    {A : Type 0} {B : Type 0} (P : B → Type 0) (b : B) (m : Option A)
    → P b
    → IfReturns P (m >>= λ _. some b)
first_check P b none h = tt
first_check P b (some a) h = h

first_check-Returns :
    {A : Type 0} {B : Type 0} (P : B → Type 0) (b : B) (m : Option A)
    → IsTotal m
    → P b
    → Returns (m >>= λ _. some b) P
first_check-Returns P b none t h = absurd t
first_check-Returns P b (some a) t h = h

-- A check of the sign-in, with a table that has rows, leaves a valid column and the taken rewards as
-- they were; it changes nothing, or it signs exactly one more day. The time is after 1970, and the
-- next day has a number.
pub check_signed-Checked :
    (table : SignTable) (zone : ℕ) (now : ℤ) (s : Sign)
    → IsTotal (get_elem? table.array 0)
    → IsValid s
    → pos 0 <ℤ now
    → s.signed_index +ℤ pos 1 <ℤ max_int32
    → Returns (check_signed table zone now s) (Checked zone now s)
unfolding check_signed
check_signed-Checked table zone now s rows v later room =
    elim (Bool-cases (eqb_ℤ s.last_signed_time (pos 0))) [
      | inl never ↦ rw never (
          first_check-Returns (Checked zone now s) _ (get_elem? table.array 0) rows
            (first_signed zone s now v (eqb_ℤ→eq _ _ never) later room))
      | inr before ↦ rw before (sign_again-Checked zone now s v later room before)
    ]

-- A player who signed on the same day is not signed again.
signed_today :
    (table : SignTable) (zone : ℕ) (now : ℤ) (s : Sign)
    → eqb_ℤ s.last_signed_time (pos 0) ≡ false
    → day_of zone now ≡ day_of zone s.last_signed_time
    → check_signed table zone now s ≡ some (s, pos 0)
unfolding check_signed sign_again
signed_today table zone now s before same =
    rw (before, (==_iff (day_of zone now) (day_of zone s.last_signed_time)).1 same) refl

-- A column whose last signature is on the day of a time.
record SignedOn (zone : ℕ) (now : ℤ) (s : Sign) : Type 0 where
  before : eqb_ℤ s.last_signed_time (pos 0) ≡ false
  same : day_of zone now ≡ day_of zone s.last_signed_time

stamped-SignedOn :
    (zone : ℕ) (now : ℤ) (s : Sign) → pos 0 <ℤ now → s.last_signed_time ≡ now → SignedOn zone now s
stamped-SignedOn zone now s later stamp = record {
  before = subst (λ t. eqb_ℤ t (pos 0) ≡ false) (sym stamp) (ground arith);
  same = ap (day_of zone) (sym stamp);
}

sign_again-SignedOn :
    (zone : ℕ) (now : ℤ) (s : Sign)
    → pos 0 <ℤ now
    → eqb_ℤ s.last_signed_time (pos 0) ≡ false
    → SignedOn zone now (sign_again zone now s).0
unfolding sign_again
sign_again-SignedOn zone now s later before =
    elim (Bool-cases (day_of zone now == day_of zone s.last_signed_time)) [
      | inl today ↦ rw today (record { before = before; same = (==_iff _ _).0 today })
      | inr other ↦ rw other (stamped-SignedOn zone now _ later refl)
    ]

check_signed-SignedOn :
    (table : SignTable) (zone : ℕ) (now : ℤ) (s : Sign)
    → pos 0 <ℤ now
    → IfReturns (λ (r : Sign × ℤ). SignedOn zone now r.0) (check_signed table zone now s)
unfolding check_signed
check_signed-SignedOn table zone now s later =
    elim (Bool-cases (eqb_ℤ s.last_signed_time (pos 0))) [
      | inl never ↦ rw never (
          first_check (λ (r : Sign × ℤ). SignedOn zone now r.0) _ (get_elem? table.array 0)
            (stamped-SignedOn zone now _ later refl))
      | inr before ↦ rw before (sign_again-SignedOn zone now s later before)
    ]

-- After a check, another one on the same day signs nothing and changes nothing.
check_signed_once_a_day :
    (table : SignTable) (zone : ℕ) (now again : ℤ) (s s' : Sign) (n : ℤ)
    → check_signed table zone now s ≡ some (s', n)
    → pos 0 <ℤ now
    → day_of zone again ≡ day_of zone now
    → check_signed table zone again s' ≡ some (s', pos 0)
check_signed_once_a_day table zone now again s s' n done later same =
    let on : SignedOn zone now s' =
      subst (λ m. IfReturns (λ (r : Sign × ℤ). SignedOn zone now r.0) m) done
        (check_signed-SignedOn table zone now s later) in
    signed_today table zone again s' (on.before) (same ∙ on.same)
