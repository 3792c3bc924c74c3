-- ===== src/Servers/Choice.antt =====
-- The choice of a server by weight.
use mm_server.Prelude.{
  ℕ, ◌+◌, ◌-◌, ◌≤◌, ◌<◌, ◌^◌, ◌≡◌, refl, subst, sym, ap, ◌∙◌, Bool-cases, false, List, [], ◌∷◌,
  ◌++◌, arith, inl, inr,
}
use mm_server.Prelude.Fault.{Returns, Returns-map}
use mm_server.Prelude.Int.{ℤ, pos, pos_part, ◌≤ℤ◌, ltb_ℤ, leb_ℤ, int_eq}
use mm_server.Prelude.Int32.{sub32, sub32_pos}
use mm_server.Prelude.Lists.{All}
use mm_server.Servers.{HallServerInfo, ServerList, choose_server, random_one_server}

-- A weight that the configuration accepts.
abbrev pub IsWeighted : HallServerInfo → Type 0
IsWeighted s = pos 0 ≤ℤ s.weight

abbrev pub weight_of : HallServerInfo → ℕ
weight_of s = pos_part s.weight

unfoldable pub total_of : List HallServerInfo → ℕ
total_of [] = 0
total_of (s ∷ ss) = weight_of s + total_of ss

-- A number falls to the server in whose part of the sum of the weights it lies.
pub record FallsTo (servers : List HallServerInfo) (r : ℕ) (s : HallServerInfo) : Type 0 where
  pub before : List HallServerInfo
  pub behind : List HallServerInfo
  pub split : servers ≡ before ++ s ∷ behind
  pub from : total_of before ≤ r
  pub below : r < total_of before + weight_of s

later-FallsTo :
    (t s : HallServerInfo) (ss : List HallServerInfo) (r : ℕ)
    → weight_of t ≤ r
    → FallsTo ss (r - weight_of t) s
    → FallsTo (t ∷ ss) r s
unfolding total_of
later-FallsTo t s ss r h f = record {
  before = t ∷ f.before;
  behind = f.behind;
  split = ap (λ xs. t ∷ xs) (f.split);
  from = omega (arith, f.from);
  below = omega (arith, f.below);
}

-- The test of a weight that is not negative, by the number that it is.
pub weighted_cases : (s : HallServerInfo) → IsWeighted s → s.weight ≡ pos (weight_of s)
weighted_cases s h = ground arith

rest_of :
    (s : HallServerInfo) (r : ℕ)
    → IsWeighted s
    → weight_of s ≤ r
    → r < 2 ^ 31
    → sub32 (pos r) s.weight ≡ pos (r - weight_of s)
rest_of s r h below small =
    ap (sub32 (pos r)) (weighted_cases s h) ∙ sub32_pos r (weight_of s) below small

choose_server-FallsTo :
    (servers : List HallServerInfo) (r : ℕ)
    → All IsWeighted servers
    → total_of servers < 2 ^ 31
    → r < total_of servers
    → Returns (choose_server servers (pos r)) (FallsTo servers r)
unfolding choose_server total_of
choose_server-FallsTo [] r all small h = absurd (omega arith)
choose_server-FallsTo (s ∷ ss) r all small h = elim (Bool-cases (leb_ℤ s.weight (pos 0))) [
  | inl empty ↦
      let same : r ≡ r - weight_of s = ground arith in
      rw empty (
        Returns-map (choose_server ss (pos r))
          (λ (t : HallServerInfo) f.
            later-FallsTo s t ss r (ground arith) (subst (λ k. FallsTo ss k t) same f))
          (choose_server-FallsTo ss r all.1 (omega arith) (ground arith)))
  | inr full ↦ elim (Bool-cases (ltb_ℤ (pos r) s.weight)) [
    | inl here ↦
        rw (full, here)
          (record {
            before = [];
            behind = ss;
            split = refl;
            from = omega arith;
            below = ground arith;
          })
    | inr after ↦
        let past : weight_of s ≤ r = ground arith in
        rw (full, after)
          (rw (rest_of s r all.0 past (omega arith)) (
            Returns-map (choose_server ss (pos (r - weight_of s)))
              (λ (t : HallServerInfo) f. later-FallsTo s t ss r past f)
              (choose_server-FallsTo ss (r - weight_of s) all.1 (omega arith) (omega arith))))
  ]
]

-- Where the weights are not negative and the stored total is their sum, which fits, a random number
-- below the total chooses a server: the one in whose part of the sum of the weights the number lies.
pub random_one_server-FallsTo :
    (rand : ℤ → ℤ) (l : ServerList) (r : ℕ)
    → All IsWeighted l.servers
    → total_of l.servers < 2 ^ 31
    → l.total_weight ≡ pos (total_of l.servers)
    → rand l.total_weight ≡ pos r
    → r < total_of l.servers
    → Returns (random_one_server rand l) (λ o. Returns o (FallsTo l.servers r))
unfolding random_one_server
random_one_server-FallsTo rand l r all small stored drawn h =
    let positive : leb_ℤ l.total_weight (pos 0) ≡ false =
      subst (λ t. leb_ℤ t (pos 0) ≡ false) (sym stored) (ground arith) in
    rw positive (
      subst (λ k. Returns (choose_server l.servers k) (FallsTo l.servers r)) (sym drawn)
        (choose_server-FallsTo l.servers r all small h))
