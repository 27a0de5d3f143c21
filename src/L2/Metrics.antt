-- ===== src/L2/Metrics.antt =====
-- The cycle metrics of both handlers, from common/src/l2_utils.rs.
pub mod Laws
use tsn_fieldbus.Base.{
  ℕ, ◌^◌, ◌/◌, ◌%◌, ◌==◌, min, max, Option, none, some, saturating_add, u64_max, u128_max, List, [],
  ◌∷◌, if◌then◌else◌,
}

pub record CycleMetrics : Type 0 where
  pub min_ns : Option ℕ
  pub max_ns : Option ℕ
  pub total_ns : ℕ
  pub samples : ℕ

unfoldable pub default : CycleMetrics
default = record { min_ns = none; max_ns = none; total_ns = 0; samples = 0 }

-- `map_or(default, f)`
abbrev map_or : ℕ → (ℕ → ℕ) → Option ℕ → ℕ
map_or d f none = d
map_or d f (some v) = f v

unfoldable pub record_cycle : CycleMetrics → ℕ → CycleMetrics
record_cycle m cycle_ns = record {
  min_ns = some (map_or cycle_ns (λ value. min value cycle_ns) m.min_ns);
  max_ns = some (map_or cycle_ns (λ value. max value cycle_ns) m.max_ns);
  total_ns = saturating_add u128_max m.total_ns cycle_ns;
  samples = saturating_add u64_max m.samples 1;
}

unfoldable pub average_ns : CycleMetrics → Option ℕ
average_ns m = if m.samples == 0 then none else some (m.total_ns / m.samples % 2 ^ 64)

infixl 5 ◌>>=◌
abbrev ◌>>=◌ {ℓ} : {A B : Type ℓ} → Option A → (A → Option B) → Option B
none >>= f = none
some a >>= f = f a

unfoldable pub values : CycleMetrics → Option (ℕ × ℕ × ℕ)
unfolding average_ns
values m = do lo ← m.min_ns; hi ← m.max_ns; avg ← average_ns m; some (lo, hi, avg)

unfoldable pub record_all : CycleMetrics → List ℕ → CycleMetrics
unfolding record_cycle
record_all m [] = m
record_all m (x ∷ xs) = record_all (record_cycle m x) xs
