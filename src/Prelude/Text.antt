-- ===== src/Prelude/Text.antt =====
-- A Go string as its bytes.
use Prim.Native.Nat.{ℕ}
use mathlib.Core.Path.{◌≡◌, refl}
use mathlib.Core.Logic.{◌↔◌}
use mathlib.Core.Bool.{Bool, true, false, ◌&&◌}
use mathlib.Core.List.{List, [], ◌∷◌}
use native.Mathlib.Omega.{arith}
use mm_server.Prelude.Tests.{◌==◌, ==_iff, Eq}

abbrev pub Text : Type 0
Text = List ℕ

-- `s == ""`
abbrev pub is_empty : Text → Bool
is_empty [] = true
is_empty (_ ∷ _) = false

unfoldable pub same_text : Text → Text → Bool
same_text [] [] = true
same_text (a ∷ s) (b ∷ t) = a == b && same_text s t
same_text _ _ = false

pub same_text_iff : (s t : Text) → (same_text s t ≡ true) ↔ (s ≡ t)
unfolding same_text
same_text_iff [] [] = (λ h. refl, λ h. refl)
same_text_iff [] (b ∷ t) = (λ h. absurd (ground arith), λ h. absurd (ground arith))
same_text_iff (a ∷ s) [] = (λ h. absurd (ground arith), λ h. absurd (ground arith))
same_text_iff (a ∷ s) (b ∷ t) = (
  λ h. ground (arith, same_text_iff s t, ==_iff a b),
  λ h. ground (arith, same_text_iff s t, ==_iff a b),
)

instance abbrev pub text_eq : Eq Text
text_eq = record { beq = same_text; beq_iff = same_text_iff }
