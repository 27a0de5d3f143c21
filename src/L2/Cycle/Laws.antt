-- ===== src/L2/Cycle/Laws.antt =====
-- Bounds of the cycle arithmetic.
use tsn_fieldbus.Base.{
  ℕ, ◌+◌, ◌*◌, ◌≤◌, ◌<◌, ◌^◌, max, ◌≡◌, arith, List, length, ◌++◌, some, err, length-append,
  take-append,
}
use tsn_fieldbus.Proto.{Position, StreamConfig, err_invalid_len}
use tsn_fieldbus.L2.Cycle.{
  bit_len_to_byte_len, cycle_counter, ticks_per_cycle, tolerance_ticks, cycle_counter_tick_ns,
  ProcessImageAccess, handle_input_packet,
}

-- The byte length is the least number of bytes that holds the bits.
pub bit_len_to_byte_len_least :
    (bits : ℕ)
    → (bits ≤ 8 * bit_len_to_byte_len bits)
      × ((n : ℕ) → bits ≤ 8 * n → bit_len_to_byte_len bits ≤ n)
unfolding bit_len_to_byte_len
bit_len_to_byte_len_least bits = (omega arith, λ n h. omega arith)

-- The counter never takes the value 0xffff: it wraps one tick before the `u16` does.
pub cycle_counter-lt : (micros : ℕ) → cycle_counter micros < 0xffff
unfolding cycle_counter
cycle_counter-lt micros = omega arith

-- The ticks of a cycle of 32 bits cover it, with less than one tick to spare, and there is at least one.
pub ticks_per_cycle_bounds :
    (cycle : ℕ)
    → cycle < 2 ^ 32
    → (1 ≤ ticks_per_cycle cycle)
      × (cycle ≤ cycle_counter_tick_ns * ticks_per_cycle cycle)
      × (cycle_counter_tick_ns * ticks_per_cycle cycle < max cycle 1 + cycle_counter_tick_ns)
unfolding ticks_per_cycle
ticks_per_cycle_bounds cycle h = omega arith

-- The tolerance of a cycle of 32 bits is one and a half cycles, rounded up to ticks, and at least the
-- ticks of one cycle.
pub tolerance_ticks_bounds :
    (cycle : ℕ)
    → cycle < 2 ^ 32
    → (ticks_per_cycle cycle ≤ tolerance_ticks cycle)
      × (3 * cycle ≤ 2 * cycle_counter_tick_ns * tolerance_ticks cycle)
      × (2 * cycle_counter_tick_ns * tolerance_ticks cycle
          < 3 * max cycle 1 + 2 * cycle_counter_tick_ns)
unfolding ticks_per_cycle tolerance_ticks
tolerance_ticks_bounds cycle h = omega arith

-- A packet with content of the right length is written to the hardware as that content; bytes behind
-- it, such as Ethernet padding, change nothing.
pub handle_input_packet_padding :
    {S : Type 0} (p : ProcessImageAccess S) (hw : S) (stream : StreamConfig) (content : Position)
    (payload padding : List ℕ)
    → stream.stream_content ≡ some content
    → length payload ≡ bit_len_to_byte_len content.bit_len
    → handle_input_packet p hw stream (payload ++ padding) ≡ p.write_inputs hw payload content
unfolding handle_input_packet
handle_input_packet_padding p hw stream content payload padding hc hl = ground (
  arith,
  length-append payload padding,
  take-append (bit_len_to_byte_len content.bit_len) payload padding hl,
)

-- A packet that is shorter than the content is refused and leaves the hardware alone.
pub handle_input_packet_short :
    {S : Type 0} (p : ProcessImageAccess S) (hw : S) (stream : StreamConfig) (content : Position)
    (payload : List ℕ)
    → stream.stream_content ≡ some content
    → length payload < bit_len_to_byte_len content.bit_len
    → handle_input_packet p hw stream payload ≡ (hw, err err_invalid_len)
unfolding handle_input_packet
handle_input_packet_short p hw stream content payload h short = ground arith
