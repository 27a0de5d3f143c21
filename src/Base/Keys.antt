-- ===== src/Base/Keys.antt =====
-- Byte strings as keys of a map.
use tsn_fieldbus.Base.Tests.{Eq, ◌==◌, ==_iff}
use Prim.Native.Nat.{ℕ}
use mathlib.Core.Path.{◌≡◌, refl}
use mathlib.Core.Bool.{Bool, true, false, ◌&&◌}
use mathlib.Core.Logic.{◌↔◌}
use mathlib.Core.List.{List, [], ◌∷◌}
use native.Mathlib.Omega.{arith}

abbrev pub bytes_beq : List ℕ → List ℕ → Bool
bytes_beq [] [] = true
bytes_beq [] (y ∷ ys) = false
bytes_beq (x ∷ xs) [] = false
bytes_beq (x ∷ xs) (y ∷ ys) = x == y && bytes_beq xs ys

pub bytes_beq_iff : (xs ys : List ℕ) → (bytes_beq xs ys ≡ true) ↔ (xs ≡ ys)
bytes_beq_iff [] [] = (λ h. refl, λ h. refl)
bytes_beq_iff [] (y ∷ ys) = (λ h. ground arith, λ h. ground arith)
bytes_beq_iff (x ∷ xs) [] = (λ h. ground arith, λ h. ground arith)
bytes_beq_iff (x ∷ xs) (y ∷ ys) = (
  λ h. ground (arith, bytes_beq_iff xs ys, ==_iff x y),
  λ h. ground (arith, bytes_beq_iff xs ys, ==_iff x y),
)

instance abbrev pub bytes_eq : Eq (List ℕ)
bytes_eq = record { beq = bytes_beq; beq_iff = bytes_beq_iff }
