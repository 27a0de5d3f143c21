-- ===== src/L2Handler/Counter.antt =====
-- The check of the cycle counter, which the receivers of slave/src/l2_handler.rs and
-- master/src/l2_handler.rs share word by word.
pub mod Laws
use tsn_fieldbus.Base.{
  ℕ, ◌+◌, ◌-◌, ◌%◌, ◌^◌, min, div_ceil, ltb, leb, if◌then◌else◌, Option, none, some,
}
use tsn_fieldbus.L2.Cycle.{ticks_per_cycle, tolerance_ticks}

-- `wrapping_add` and `wrapping_sub` of `u16`.
abbrev pub wrapping_add : ℕ → ℕ → ℕ
wrapping_add a b = (a + b) % 2 ^ 16

abbrev pub wrapping_sub : ℕ → ℕ → ℕ
wrapping_sub a b = (a + (2 ^ 16 - b)) % 2 ^ 16

unfoldable pub expected_counter : ℕ → ℕ → ℕ
expected_counter cycle_time_nano last = wrapping_add last (ticks_per_cycle cycle_time_nano % 2 ^ 16)

-- The cycles that are reported as missed when `received` follows `last`; `none` within the tolerance.
unfoldable pub missed_cycles : ℕ → ℕ → ℕ → Option ℕ
unfolding expected_counter
missed_cycles cycle_time_nano last received =
    let ticks = ticks_per_cycle cycle_time_nano in
    let expected = expected_counter cycle_time_nano last in
    let forward = wrapping_sub received expected in
    let backward = wrapping_sub expected received in
    let tolerance = tolerance_ticks cycle_time_nano in
    if ltb tolerance (min forward backward)
    then some (if leb forward backward then div_ceil forward ticks else 1)
    else none

-- The check for a stream of which the last counter may be unknown.
unfoldable pub check_counter : ℕ → Option ℕ → ℕ → Option ℕ
check_counter cycle_time_nano none received = none
check_counter cycle_time_nano (some last) received = missed_cycles cycle_time_nano last received
