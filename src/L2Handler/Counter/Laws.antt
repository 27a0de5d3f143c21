-- ===== src/L2Handler/Counter/Laws.antt =====
-- What the check of the cycle counter reports.
use tsn_fieldbus.Base.{
  ℕ, ◌+◌, ◌-◌, ◌*◌, ◌%◌, ◌^◌, ◌≤◌, ◌<◌, ◌≡◌, arith, none, some, refl, min, leb, ltb, div_ceil,
  if◌then◌else◌,
}
use tsn_fieldbus.L2.Cycle.{ticks_per_cycle, tolerance_ticks, cycle_counter}
use tsn_fieldbus.L2.Cycle.Laws.{ticks_per_cycle_bounds, tolerance_ticks_bounds, cycle_counter-lt}
use native.Mathlib.Decide.{dec_le}
use native.Mathlib.Nat.{add-mul-div_right, div-eq_of_lt, add_comm, add-mul}
use tsn_fieldbus.L2Handler.Counter.{missed_cycles, expected_counter, wrapping_sub, wrapping_add}

-- How far `received` is ahead of `last` after a cycle of `ticks`, when it is `ahead` ticks further.
forward_of :
    (last ticks received ahead : ℕ)
    → ahead < 2 ^ 16
    → received < 2 ^ 16
    → received ≡ (last + ticks + ahead) % 2 ^ 16
    → wrapping_sub received (wrapping_add last (ticks % 2 ^ 16)) ≡ ahead
forward_of last ticks received ahead h hr e = omega arith

backward_of :
    (last ticks received behind : ℕ)
    → behind < 2 ^ 16
    → received < 2 ^ 16
    → (received + behind) % 2 ^ 16 ≡ (last + ticks) % 2 ^ 16
    → wrapping_sub (wrapping_add last (ticks % 2 ^ 16)) received ≡ behind
backward_of last ticks received behind h hr e = omega arith

opposite : (a b : ℕ) → a < 2 ^ 16 → b < 2 ^ 16 → min (wrapping_sub a b) (wrapping_sub b a) ≤ 2 ^ 15
opposite a b ha hb = omega arith

opposite_sum :
    (a b : ℕ)
    → a < 2 ^ 16
    → b < 2 ^ 16
    → 0 < wrapping_sub a b
    → wrapping_sub b a ≡ 2 ^ 16 - wrapping_sub a b
opposite_sum a b ha hb h = omega arith

-- The check, with the distances by name.
missed_cycles_by :
    (cycle last received forward backward : ℕ)
    → wrapping_sub received (expected_counter cycle last) ≡ forward
    → wrapping_sub (expected_counter cycle last) received ≡ backward
    → missed_cycles cycle last received ≡ (
        if ltb (tolerance_ticks cycle) (min forward backward)
        then some (if leb forward backward then div_ceil forward (ticks_per_cycle cycle) else 1)
        else none)
unfolding missed_cycles
missed_cycles_by cycle last received forward backward hf hb = rw (hf, hb)

missed_cycles-near :
    (cycle last received : ℕ)
    → min
        (wrapping_sub received (expected_counter cycle last))
        (wrapping_sub (expected_counter cycle last) received)
      ≤ tolerance_ticks cycle
    → missed_cycles cycle last received ≡ none
unfolding missed_cycles
missed_cycles-near cycle last received h = ground arith

-- From 682,666,667 ns on the tolerance is half the range of the counter: no counter is ever refused.
pub missed_cycles-slow :
    (cycle last received : ℕ)
    → 682_666_667 ≤ cycle
    → last < 2 ^ 16
    → received < 2 ^ 16
    → missed_cycles cycle last received ≡ none
unfolding expected_counter tolerance_ticks
missed_cycles-slow cycle last received slow hl hr =
    missed_cycles-near cycle last received (omega arith)

-- The counters of two readings of the clock that are less than a wrap apart.
counters_apart :
    (micros elapsed : ℕ)
    → elapsed ≤ 2_000_000
    → let d = wrapping_sub (cycle_counter (micros + elapsed)) (cycle_counter micros) in
      (125 * d ≤ 4 * elapsed + 250) × (4 * elapsed ≤ 125 * d + 125)
unfolding cycle_counter
counters_apart micros elapsed h = (omega arith, omega arith)

-- The distance to the expected counter, by the distance to the last one.
near_expected :
    (last received ticks d : ℕ)
    → last < 2 ^ 16
    → received < 2 ^ 16
    → wrapping_sub received last ≡ d
    → (ticks ≤ d → wrapping_sub received (wrapping_add last (ticks % 2 ^ 16)) ≡ d - ticks)
      × (d ≤ ticks
          → ticks < 2 ^ 16
          → wrapping_sub (wrapping_add last (ticks % 2 ^ 16)) received ≡ ticks - d)
near_expected last received ticks d hl hr e = (λ h. omega arith, λ h k. omega arith)

-- A frame that is sent at most two cycles after the one before counts no missed cycle, although the
-- counter wraps at 0xffff and the check at 0x10000, for cycles from 125 microseconds on.
pub missed_cycles-punctual :
    (cycle micros elapsed : ℕ)
    → 125_000 ≤ cycle
    → cycle < 2 ^ 32
    → 1000 * elapsed ≤ 2 * cycle
    → missed_cycles cycle (cycle_counter micros) (cycle_counter (micros + elapsed)) ≡ none
unfolding expected_counter ticks_per_cycle
missed_cycles-punctual cycle micros elapsed long fits soon = elim (dec_le 682_666_667 cycle) [
  | yes slow ↦ missed_cycles-slow cycle _ _ slow (fits_u16 micros) (fits_u16 (micros + elapsed))
  | no quick ↦ missed_cycles-near cycle _ _ (
      let (few, many) = counters_apart micros elapsed (omega arith) in
      let (covers, tight, _) = ticks_per_cycle_bounds cycle fits in
      let (least, tolerates, _) = tolerance_ticks_bounds cycle fits in
      let last : ℕ = cycle_counter micros in
      let received : ℕ = cycle_counter (micros + elapsed) in
      let (ahead, behind) =
        near_expected last received (ticks_per_cycle cycle) (wrapping_sub received last)
          (fits_u16 micros) (fits_u16 (micros + elapsed)) refl in
      elim (dec_le (ticks_per_cycle cycle) (wrapping_sub received last)) [
        | yes late ↦ let far = ahead late in omega arith
        | no early ↦ let far = behind (omega arith) (omega arith) in omega arith
      ])
]
  where
    fits_u16 : (m : ℕ) → cycle_counter m < 2 ^ 16
    fits_u16 m = omega (arith, cycle_counter-lt m)

ceil_multiple : (n t : ℕ) → 1 ≤ t → div_ceil (n * t) t ≡ n
ceil_multiple n t h =
    rw (add_comm (n * t) (t - 1), add-mul-div_right (t - 1) n h, div-eq_of_lt (below t h))
      (omega arith)
  where
    below : (t : ℕ) → 1 ≤ t → t - 1 < t
    below t h = omega arith

-- When a counter is late by a whole number of cycles, beyond the tolerance and by at most half the
-- range of the counter, exactly these cycles are reported as missed.
pub missed_cycles-lost :
    (cycle last lost : ℕ)
    → cycle < 2 ^ 32
    → last < 2 ^ 16
    → tolerance_ticks cycle < lost * ticks_per_cycle cycle
    → lost * ticks_per_cycle cycle ≤ 2 ^ 15
    → missed_cycles cycle last ((last + (lost + 1) * ticks_per_cycle cycle) % 2 ^ 16) ≡ some lost
unfolding missed_cycles expected_counter
missed_cycles-lost cycle last lost fits hl beyond room =
    let ticks : ℕ = ticks_per_cycle cycle in
    let (positive, _, _) = ticks_per_cycle_bounds cycle fits in
    let received : ℕ = (last + (lost + 1) * ticks) % 2 ^ 16 in
    let expected : ℕ = expected_counter cycle last in
    let next : (lost + 1) * ticks ≡ ticks + lost * ticks =
      (rw (add-mul lost 1 ticks) (omega arith)) in
    let forward : wrapping_sub received expected ≡ lost * ticks =
      forward_of last ticks received (lost * ticks) (omega arith) (omega arith) (omega arith) in
    let backward : wrapping_sub expected received ≡ 2 ^ 16 - wrapping_sub received expected =
      opposite_sum received expected (omega arith) (omega arith) (omega arith) in
    ground (arith, ceil_multiple lost ticks positive)
