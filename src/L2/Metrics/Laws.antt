-- ===== src/L2/Metrics/Laws.antt =====
-- The metrics of any run of samples, as long as the sample counter does not saturate.
use tsn_fieldbus.Base.{
  ℕ, suc, ◌+◌, ◌*◌, ◌/◌, ◌≤◌, ◌<◌, ◌^◌, min, max, ◌≡◌, refl, arith, List, [], ◌∷◌, All, length,
  some, u64_max, u128_max,
}
use tsn_fieldbus.L2.Metrics.{CycleMetrics, default, record_cycle, values, record_all}

-- `n` samples with the given sum, which lie between `lo` and `hi`.
record Summary (m : CycleMetrics) (n total lo hi : ℕ) : Type 0 where
  counted : m.samples ≡ n
  summed : m.total_ns ≡ total
  least : m.min_ns ≡ some lo
  most : m.max_ns ≡ some hi
  above : lo * n ≤ total
  below : total ≤ hi * n
  word : hi < 2 ^ 64

abbrev sum : List ℕ → ℕ
sum [] = 0
sum (x ∷ xs) = x + sum xs

mul_bound : (a b n m : ℕ) → a ≤ b → n ≤ m → a * n ≤ b * m
mul_bound a b n m h k = grind arith

product_fits : (hi n total : ℕ) → hi < 2 ^ 64 → n ≤ u64_max → total ≤ hi * n → total ≤ u128_max
product_fits hi n total h k e = omega (arith, mul_bound hi u64_max n u64_max (omega arith) k)

first-Summary : (x : ℕ) → x < 2 ^ 64 → Summary (record_cycle default x) 1 x x x
unfolding record_cycle default
first-Summary x h = record {
  counted = omega arith;
  summed = omega arith;
  least = refl;
  most = refl;
  above = omega arith;
  below = omega arith;
  word = h;
}

step-Summary :
    (m : CycleMetrics) (n total lo hi x : ℕ)
    → Summary m n total lo hi
    → x < 2 ^ 64
    → n + 1 ≤ u64_max
    → Summary (record_cycle m x) (n + 1) (total + x) (min lo x) (max hi x)
unfolding record_cycle
step-Summary m n total lo hi x s h k =
    let low : min lo x * n ≤ lo * n = mul_bound (min lo x) lo n n (omega arith) (omega arith) in
    let high : hi * n ≤ max hi x * n = mul_bound hi (max hi x) n n (omega arith) (omega arith) in
    let below' : total + x ≤ max hi x * (n + 1) = omega (arith, s.below) in
    record {
      counted = omega (arith, s.counted);
      summed = omega (
        arith,
        s.summed,
        product_fits (max hi x) (n + 1) (total + x) (omega (arith, s.word)) k below',
      );
      least = rw (s.least);
      most = rw (s.most);
      above = omega (arith, s.above);
      below = below';
      word = omega (arith, s.word);
    }

Summary-cast :
    {m : CycleMetrics} {n n' total total' lo hi : ℕ}
    → n ≡ n'
    → total ≡ total'
    → Summary m n total lo hi
    → Summary m n' total' lo hi
Summary-cast p q s = rw (← p, ← q) s

run-Summary :
    (m : CycleMetrics) (n total lo hi : ℕ) (xs : List ℕ)
    → Summary m n total lo hi
    → All (λ x. x < 2 ^ 64) xs
    → n + length xs ≤ u64_max
    → (lo' : ℕ) × (hi' : ℕ) × Summary (record_all m xs) (n + length xs) (total + sum xs) lo' hi'
      × (lo' ≤ lo)
      × (hi ≤ hi')
      × All (λ x. lo' ≤ x) xs
      × All (λ x. x ≤ hi') xs
unfolding record_all
run-Summary m n total lo hi [] s h k =
    (lo, hi, Summary-cast (omega arith) (omega arith) s, omega arith, omega arith, tt, tt)
run-Summary m n total lo hi (x ∷ xs) s (hx, h) k =
    let (lo', hi', s', below, above, alls, most) =
      run-Summary (record_cycle m x) (n + 1) (total + x) (min lo x) (max hi x) xs
        (step-Summary m n total lo hi x s hx (omega arith)) h (omega arith) in
    (
      lo',
      hi',
      Summary-cast (omega arith) (omega arith) s',
      omega arith,
      omega arith,
      (omega arith, alls),
      (omega arith, most),
    )

mul-div_le : (a b n : ℕ) → 0 < n → a * n ≤ b → a ≤ b / n
mul-div_le a b n h k = grind arith

div_le-mul : (a b n : ℕ) → 0 < n → b ≤ a * n → b / n ≤ a
div_le-mul a b n h k = grind arith

-- After at least one and fewer than 2 ^ 64 samples of 64 bits the metrics are there: the first two
-- bound every sample, the third is the sum over the number of samples, rounded down, and lies between
-- them. Neither the sum nor the count saturates.
pub values-record_all :
    (x : ℕ) (xs : List ℕ)
    → All (λ y. y < 2 ^ 64) (x ∷ xs)
    → length (x ∷ xs) ≤ u64_max
    → (lo : ℕ) × (hi : ℕ) × (values (record_all default (x ∷ xs))
        ≡ some (lo, hi, sum (x ∷ xs) / length (x ∷ xs)))
      × All (λ y. lo ≤ y) (x ∷ xs)
      × All (λ y. y ≤ hi) (x ∷ xs)
      × (lo ≤ sum (x ∷ xs) / length (x ∷ xs))
      × (sum (x ∷ xs) / length (x ∷ xs) ≤ hi)
unfolding record_all values
values-record_all x xs (hx, h) k =
    let (lo, hi, s, below, above, alls, most) =
      run-Summary (record_cycle default x) 1 x x x xs (first-Summary x hx) h (omega arith) in
    let n : ℕ = suc (length xs) in
    let t : Summary (record_all (record_cycle default x) xs) n (x + sum xs) lo hi =
      Summary-cast (omega arith) (omega arith) s in
    let low : lo ≤ (x + sum xs) / n = mul-div_le lo (x + sum xs) n (omega arith) t.above in
    let high : (x + sum xs) / n ≤ hi = div_le-mul hi (x + sum xs) n (omega arith) t.below in
    (lo, hi, ground (arith, t), (below, alls), (above, most), low, high)
