-- ===== src/Base/Order.antt =====
-- `<` on the native numbers: it is well founded, and lists that increase by it.
use Prim.Native.Nat.{ℕ, zero, suc, ◌<◌}
use mathlib.Core.List.{List, [], ◌∷◌}
use mathlib.Core.WellFounded.{Acc, WellFounded}
use native.Mathlib.Omega.{arith}

Acc-below : (k n : ℕ) → n < k → Acc ◌<◌ n
Acc-below zero n h = elim h [ ]
Acc-below (suc k) n h = Acc.intro n (λ m hm. Acc-below k m (omega arith))

unfoldable pub lt_wf : WellFounded ◌<◌
unfolding Acc-below
lt_wf = record { apply = λ n. Acc-below (suc n) n (omega arith) }

-- Each number is larger than the one before.
abbrev pub Increasing : ℕ → List ℕ → Type 0
Increasing n [] = Unit {0}
Increasing n (x ∷ xs) = (n < x) × Increasing x xs
