-- ===== src/L2/Cycle.antt =====
-- Cycle counters, tolerances and stream inputs, from common/src/l2_utils.rs.
pub mod Laws
use tsn_fieldbus.Base.{
  ℕ, ◌^◌, ◌+◌, ◌-◌, ◌*◌, ◌/◌, ◌%◌, max, div_ceil, ltb, if◌then◌else◌, List, [], ◌∷◌, length, take,
  Option, none, some, Result, ok, err, ◌>>=◌, ◌>>◌, fail_if, ok_or,
}
use tsn_fieldbus.Proto.{StatusCode, err_param_invalid, err_invalid_len, Position, StreamConfig}
use tsn_fieldbus.Mac.{MacAddr, mac}

abbrev pub cycle_counter_tick_ns : ℕ
cycle_counter_tick_ns = 31_250

unfoldable pub bit_len_to_byte_len : ℕ → ℕ
bit_len_to_byte_len bit_len = div_ceil bit_len 8

-- The clock is read as microseconds since the epoch.
unfoldable pub cycle_counter : ℕ → ℕ
cycle_counter total_micros = total_micros * 4 / 125 % 0xffff % 2 ^ 16

unfoldable pub ticks_per_cycle : ℕ → ℕ
ticks_per_cycle cycle_time_nano =
    max (div_ceil (max cycle_time_nano 1) cycle_counter_tick_ns) 1 % 2 ^ 32

-- The source computes `ceil (cycle * 1.5 / 31250)` on `f64`. The product is exact, since a cycle time has
-- 32 bits; the quotient is a multiple of 1 / 62500 below 2 ^ 18, which `f64` holds to within 2 ^ -35, so
-- that its ceiling is that of the exact quotient.
unfoldable pub tolerance_ticks : ℕ → ℕ
tolerance_ticks cycle_time_nano =
    max (div_ceil (3 * max cycle_time_nano 1) (2 * cycle_counter_tick_ns)) 1

-- `none` is the panic of an index out of range.
unfoldable pub parse_destination_mac : StreamConfig → Option MacAddr
parse_destination_mac stream = six stream.destination_mac
  where
    six : List ℕ → Option MacAddr
    six (a ∷ b ∷ c ∷ d ∷ e ∷ f ∷ _) = some (mac a b c d e f)
    six _ = none

-- `abs_diff`
unfoldable pub absolute_cycle_jitter_ns : ℕ → ℕ → ℕ
absolute_cycle_jitter_ns observed target =
    if ltb observed target then target - observed else observed - target

-- `ProcessImageAccess` (common/src/hardware_abstraction.rs), which a manufacturer implements: reads of
-- the outputs, and writes of the inputs, which may change the hardware.
pub record ProcessImageAccess (S : Type 0) : Type 0 where
  pub read_outputs : S → Position → Result StatusCode (List ℕ)
  pub write_inputs : S → List ℕ → Position → S × Result StatusCode (Unit {0})

module _ {S : Type 0} (process_image : ProcessImageAccess S) where
  write_content : S → Option Position → List ℕ → S × Result StatusCode (Unit {0})
  write_content hw none payload = (hw, err err_param_invalid)
  write_content hw (some content) payload =
      let expected_len = bit_len_to_byte_len content.bit_len in
      if ltb (length payload) expected_len
      then (hw, err err_invalid_len)
      else process_image.write_inputs hw (take expected_len payload) content

  unfoldable pub handle_input_packet : S → StreamConfig → List ℕ → S × Result StatusCode (Unit {0})
  unfolding write_content
  handle_input_packet hw stream payload = write_content hw stream.stream_content payload

  unfoldable pub build_frame_payload : S → StreamConfig → Result StatusCode (List ℕ)
  build_frame_payload hw stream = do
    content ← ok_or stream.stream_content err_param_invalid
    process_image.read_outputs hw content
