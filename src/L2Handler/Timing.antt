-- ===== src/L2Handler/Timing.antt =====
-- What the threads of slave/src/l2_handler.rs and master/src/l2_handler.rs share in time keeping. An
-- instant is the number of nanoseconds that a monotonic clock has counted.
pub mod Laws
use tsn_fieldbus.Base.{
  ℕ, ◌-◌, ◌%◌, ◌^◌, ◌==◌, leb, max, Option, none, some, Bool, true, false, List, [], ◌∷◌, not,
  if◌then◌else◌, Result, ok, err,
}
use tsn_fieldbus.Base.Table.{Table}
use tsn_fieldbus.Proto.{
  DeviceState, init, safe_op, op, device_state_number, device_state_try_from, StreamConfig,
}
use tsn_fieldbus.L2.Cycle.{absolute_cycle_jitter_ns}
use tsn_fieldbus.L2.Metrics.{CycleMetrics, record_cycle}
use tsn_fieldbus.L2.Gcd.{gcd_all}

-- `DeviceState::try_from(state).unwrap_or(DeviceState::Init)`
abbrev pub state_or_init : Option DeviceState → DeviceState
state_or_init none = init
state_or_init (some state) = state

unfoldable pub state_of : ℕ → DeviceState
state_of number = state_or_init (device_state_try_from number)

-- `previous_state != Some(state)`
unfoldable pub has_changed : Option DeviceState → DeviceState → Bool
has_changed none state = true
has_changed (some previous) state = not (device_state_number previous == device_state_number state)

-- `state == DeviceState::Op` and `state == DeviceState::SafeOp`
unfoldable pub is_op : DeviceState → Bool
is_op op = true
is_op _ = false

unfoldable pub is_safe_op : DeviceState → Bool
is_safe_op safe_op = true
is_safe_op _ = false

-- `now.duration_since(previous).as_nanos() as u64`; a duration is zero where the clock went back.
unfoldable pub duration_ns : ℕ → ℕ → ℕ
duration_ns now previous = (now - previous) % 2 ^ 64

-- The metrics of the cycles and of their jitter, after a cycle that began at `previous`.
unfoldable pub observe : CycleMetrics → CycleMetrics → ℕ → ℕ → ℕ → CycleMetrics × CycleMetrics
unfolding duration_ns record_cycle
observe metrics jitter_metrics target now previous = (
  record_cycle metrics (duration_ns now previous),
  record_cycle jitter_metrics (absolute_cycle_jitter_ns (duration_ns now previous) target),
)

-- Whether a stream is due: `elapsed() >= cycle_time`, or never sent.
unfoldable pub is_due : ℕ → ℕ → Option ℕ → Bool
unfolding duration_ns
is_due cycle_time elapsed_at none = true
is_due cycle_time elapsed_at (some instant) = leb cycle_time (duration_ns elapsed_at instant)

-- The cycle times above zero, and the tick of the sender's timer.
unfoldable pub cycle_times : List StreamConfig → List ℕ
cycle_times [] = []
cycle_times (stream ∷ streams) =
    let rest = cycle_times streams in
    if leb 1 stream.cycle_time_nano then stream.cycle_time_nano ∷ rest else rest

unfoldable pub base_cycle : List StreamConfig → ℕ
unfolding cycle_times
base_cycle streams = max (gcd_all (cycle_times streams)) 1
