-- ===== src/Prelude/Weights.antt =====
-- A choice by weight: which element of a list a number falls to.
use Prim.Native.Nat.{ℕ, ◌+◌, ◌-◌, ◌≤◌, ◌<◌}
use mathlib.Core.Path.{◌≡◌, ap}
use mathlib.Core.List.{List, [], ◌∷◌, ◌++◌}
use native.Mathlib.Omega.{arith}

module _ {A : Type 0} (weight : A → ℕ) where
  unfoldable pub total_of : List A → ℕ
  total_of [] = 0
  total_of (x ∷ xs) = weight x + total_of xs

  -- A number falls to the element in whose part of the sum of the weights it lies.
  pub record FallsTo (xs : List A) (r : ℕ) (x : A) : Type 0 where
    pub before : List A
    pub behind : List A
    pub split : xs ≡ before ++ x ∷ behind
    pub from : total_of before ≤ r
    pub below : r < total_of before + weight x

  pub later-FallsTo :
      (y x : A) (xs : List A) (r : ℕ)
      → weight y ≤ r
      → FallsTo xs (r - weight y) x
      → FallsTo (y ∷ xs) r x
  unfolding total_of
  later-FallsTo y x xs r h f = record {
    before = y ∷ f.before;
    behind = f.behind;
    split = ap (λ zs. y ∷ zs) (f.split);
    from = omega (arith, f.from);
    below = omega (arith, f.below);
  }
