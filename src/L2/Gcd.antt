-- ===== src/L2/Gcd.antt =====
-- The greatest common divisor of the stream cycle times, from common/src/l2_utils.rs: the sender's
-- timer ticks with it.
pub mod Divides
use tsn_fieldbus.Base.{ℕ, ◌%◌, ◌<◌, List, [], ◌∷◌, arith}
use tsn_fieldbus.Base.Order.{lt_wf}
use mathlib.Core.Logic.{dite}
use mathlib.Core.WellFounded.{Acc}
use native.Mathlib.Decide.{dec_lt}

pub mod_smaller : (a b : ℕ) → 0 < b → a % b < b
mod_smaller a b h = omega arith

-- `while b != 0`: the second number falls in each round.
gcd_loop : (a b : ℕ) → Acc ◌<◌ b → ℕ
gcd_loop a b (Acc.intro _ smaller) =
    dite (dec_lt 0 b) (λ h. gcd_loop b (a % b) (smaller (a % b) (mod_smaller a b h))) (λ _. a)

unfoldable pub gcd_u32 : ℕ → ℕ → ℕ
unfolding gcd_loop lt_wf dec_lt
gcd_u32 a b = gcd_loop a b (lt_wf.apply b)

-- `for value in iter`
gcd_rest : ℕ → List ℕ → ℕ
gcd_rest acc [] = acc
gcd_rest acc (value ∷ values) = gcd_rest (gcd_u32 acc value) values

unfoldable pub gcd_all : List ℕ → ℕ
unfolding gcd_rest gcd_u32
gcd_all [] = 0
gcd_all (value ∷ values) = gcd_rest value values
