-- ===== src/L2Handler/Slave/Receive.antt =====
-- The receiver thread of slave/src/l2_handler.rs. A turn of its loop reads the state, waits for a frame
-- and handles it; `now` is the instant that the turn takes, `timestamp` the wall clock of the status.
pub mod Accepts
pub mod Reports
pub mod Errors
pub mod Refines
pub mod Replay
use tsn_fieldbus.Base.{
  nat_eq, ℕ, ◌==◌, ◌%◌, ◌^◌, not, if◌then◌else◌, Bool, true, false, Option, none, some, List, [],
  ◌∷◌, Result, ok, err,
}
use tsn_fieldbus.Base.Table.{Table, get, insert}
use tsn_fieldbus.Proto.{
  StatusCode, no_error, err_cycle_counter, err_stream_id_unknown, err_auth_failed,
  err_frame_parsing, err_frame_with_error_status, err_invalid_ethertype, status_code_number,
  DeviceState, StreamConfig,
}
use tsn_fieldbus.Security.Crypto.{Blake3}
use tsn_fieldbus.L2.Frame.{ParsedL2Frame, parse_l2_frame}
use tsn_fieldbus.L2.Cycle.{ProcessImageAccess, handle_input_packet}
use tsn_fieldbus.L2.Metrics.{CycleMetrics, default, values}
use tsn_fieldbus.StreamStore.{StreamStore, validate_stream_tag}
use tsn_fieldbus.DeviceStatus.{
  DeviceStatusStore, increment_missed_cycles_by, update_status_code, update_receive_cycle_metrics,
}
use tsn_fieldbus.L2Handler.Counter.{check_counter}
use tsn_fieldbus.L2Handler.Timing.{has_changed, is_op, is_safe_op, observe}
use tsn_fieldbus.L2Handler.Slave.Device.{Device, report, current_state}

pub record SlaveReceiver : Type 0 where
  pub stream_map : Table ℕ StreamConfig
  pub last_cycle_counter : Table ℕ ℕ
  pub last_receive_instant_by_stream : Table ℕ ℕ
  pub receive_metrics : CycleMetrics
  pub receive_jitter_metrics : CycleMetrics
  pub previous_state : Option DeviceState

-- A later stream replaces an earlier one of the same number.
unfoldable pub map_streams : Table ℕ StreamConfig → List StreamConfig → Table ℕ StreamConfig
map_streams stream_map [] = stream_map
map_streams stream_map (stream ∷ streams) =
    map_streams (insert (stream.stream_id % 2 ^ 16) stream stream_map) streams

unfoldable pub new_receiver : List StreamConfig → SlaveReceiver
unfolding map_streams default
new_receiver streams = record {
  stream_map = map_streams [] streams;
  last_cycle_counter = [];
  last_receive_instant_by_stream = [];
  receive_metrics = default;
  receive_jitter_metrics = default;
  previous_state = none;
}

-- What a turn does after it has read the state: wait for a frame, sleep, or end the thread.
pub data Phase : Type 0 where
  listen sleep exit : Phase

phase_of : DeviceState → Phase
unfolding is_safe_op is_op
phase_of state = if is_safe_op state then sleep else if not (is_op state) then exit else listen

unfoldable pub read_state : DeviceState → SlaveReceiver → SlaveReceiver × Phase
unfolding phase_of has_changed
read_state state r = (
  if has_changed r.previous_state state
      then record r {
        last_cycle_counter = [];
        last_receive_instant_by_stream = [];
        previous_state = some state;
      }
      else r,
  phase_of state,
)

-- The counter is compared with the stream's last one, and what was missed is reported.
report_missed : Option ℕ → ℕ → DeviceStatusStore → DeviceStatusStore
unfolding increment_missed_cycles_by update_status_code
report_missed none timestamp status_store = status_store
report_missed (some missed) timestamp status_store =
    update_status_code (increment_missed_cycles_by status_store missed timestamp) err_cycle_counter

publish_metrics : Option (ℕ × ℕ × ℕ) → ℕ → DeviceStatusStore → DeviceStatusStore
unfolding update_receive_cycle_metrics
publish_metrics none timestamp status_store = status_store
publish_metrics (some (min_ns, max_ns, average_ns)) timestamp status_store =
    update_receive_cycle_metrics status_store min_ns max_ns average_ns timestamp

-- The cycle that ends with this frame is recorded, if there was a frame before it.
record_receive : SlaveReceiver → StreamConfig → Option ℕ → ℕ → SlaveReceiver
unfolding observe
record_receive r stream none now = r
record_receive r stream (some previous) now =
    let m =
      observe r.receive_metrics r.receive_jitter_metrics stream.cycle_time_nano now previous in
    record r { receive_metrics = m.0; receive_jitter_metrics = m.1 }

publish_receive : SlaveReceiver → Option ℕ → ℕ → DeviceStatusStore → DeviceStatusStore
unfolding publish_metrics values
publish_receive r none timestamp status_store = status_store
publish_receive r (some previous) timestamp status_store =
    publish_metrics (values r.receive_metrics) timestamp status_store

module _ {S : Type 0} (image : ProcessImageAccess S) where
  write_result : Device S → S × Result StatusCode (Unit {0}) → Device S
  unfolding report
  write_result d (hw, ok done) = record d { process_image = hw }
  write_result d (hw, err code) = report code (record d { process_image = hw })

  -- A frame of a configured stream with a valid tag and no error status.
  unfoldable pub process_frame :
      SlaveReceiver → Device S → StreamConfig → ParsedL2Frame → ℕ → ℕ → SlaveReceiver × Device S
  unfolding report_missed record_receive publish_receive write_result check_counter
  process_frame r d stream parsed now timestamp =
      let stream_id = parsed.header.stream_id in
      let missed =
        check_counter stream.cycle_time_nano (get stream_id r.last_cycle_counter)
          parsed.header.cycle_counter in
      let previous = get stream_id r.last_receive_instant_by_stream in
      let r' =
        record_receive
          (record r {
            last_cycle_counter = insert stream_id parsed.header.cycle_counter r.last_cycle_counter;
            last_receive_instant_by_stream = insert stream_id now r.last_receive_instant_by_stream;
          })
          stream previous now in
      let status_store =
        publish_receive r' previous timestamp (report_missed missed timestamp d.status_store) in
      (
        r',
        write_result (record d { status_store = status_store })
            (handle_input_packet image d.process_image stream parsed.payload),
      )

  -- The frame after the check of its tag, whose result is the last argument.
  on_validated :
      SlaveReceiver
      → StreamConfig
      → ParsedL2Frame
      → ℕ
      → ℕ
      → Device S
      → Result StatusCode Bool
      → SlaveReceiver × Device S
  unfolding process_frame report
  on_validated r stream parsed now timestamp d (ok true) =
      if not (parsed.header.status == status_code_number no_error)
      then (r, report err_frame_with_error_status d)
      else process_frame r d stream parsed now timestamp
  on_validated r stream parsed now timestamp d (ok false) = (r, report err_auth_failed d)
  on_validated r stream parsed now timestamp d (err code) = (r, report code d)

  module _ (b : Blake3) where
    on_stream :
        SlaveReceiver
        → Device S
        → ParsedL2Frame
        → ℕ
        → ℕ
        → Option StreamConfig
        → SlaveReceiver × Device S
    unfolding report on_validated
    on_stream r d parsed now timestamp none = (r, report err_stream_id_unknown d)
    on_stream r d parsed now timestamp (some stream) =
        let v =
          validate_stream_tag b d.stream_store parsed.header parsed.payload parsed.sequence_number
            parsed.auth_tag in
        on_validated r stream parsed now timestamp (record d { stream_store = v.0 }) v.1

    on_parsed :
        SlaveReceiver
        → Device S
        → ℕ
        → ℕ
        → Result StatusCode ParsedL2Frame
        → SlaveReceiver × Device S
    unfolding report on_stream
    on_parsed r d now timestamp (ok parsed) =
        on_stream r d parsed now timestamp (get parsed.header.stream_id r.stream_map)
    on_parsed r d now timestamp (err err_invalid_ethertype) = (r, d)
    on_parsed r d now timestamp (err _) = (r, report err_frame_parsing d)

    unfoldable pub handle_frame :
        SlaveReceiver → Device S → ℕ → ℕ → List ℕ → SlaveReceiver × Device S
    unfolding on_parsed
    handle_frame r d now timestamp frame = on_parsed r d now timestamp (parse_l2_frame frame)

    -- What the phase waits for: a frame, or an error of the receiver, which is only logged.
    in_phase : Phase → SlaveReceiver → Device S → ℕ → ℕ → Option (List ℕ) → SlaveReceiver × Device S
    unfolding handle_frame
    in_phase listen r d now timestamp (some frame) = handle_frame r d now timestamp frame
    in_phase _ r d now timestamp _ = (r, d)

    -- A turn of the loop. Its state is read from the device as `seen`, and the device may have changed
    -- when the frame comes.
    unfoldable pub turn :
        SlaveReceiver
        → (seen : Device S) → Device S
        → ℕ
        → ℕ
        → Option (List ℕ)
        → Phase × (SlaveReceiver × Device S)
    unfolding read_state in_phase current_state
    turn r seen d now timestamp next =
        let read = read_state (current_state seen) r in
        (read.1, in_phase read.1 read.0 d now timestamp next)
