-- ===== src/L2Handler/Master/Receive.antt =====
-- The receiver thread of master/src/l2_handler.rs. Unlike the slave's it has no status to report to: a
-- frame that is refused is only logged, and missed cycles are counted in the thread.
pub mod Refines
pub mod Accepts
use tsn_fieldbus.Base.{
  nat_eq, ℕ, ◌==◌, ◌%◌, ◌^◌, not, ◌||◌, if◌then◌else◌, Bool, true, false, Option, none, some, List,
  [], ◌∷◌, Result, ok, err, saturating_add, u64_max,
}
use tsn_fieldbus.Base.Table.{Table, get, insert}
use tsn_fieldbus.Proto.{StatusCode, no_error, status_code_number, DeviceState, StreamConfig}
use tsn_fieldbus.Security.Crypto.{Blake3}
use tsn_fieldbus.L2.Frame.{ParsedL2Frame, parse_l2_frame}
use tsn_fieldbus.L2.Cycle.{ProcessImageAccess, handle_input_packet}
use tsn_fieldbus.L2.Metrics.{CycleMetrics, default}
use tsn_fieldbus.StreamStore.{StreamStore, validate_stream_tag}
use tsn_fieldbus.L2Handler.Counter.{check_counter}
use tsn_fieldbus.L2Handler.Timing.{has_changed, is_op, is_safe_op, observe}
use tsn_fieldbus.L2Handler.Master.Controller.{Controller, current_state}

pub record MasterReceiver : Type 0 where
  pub stream_map : Table ℕ StreamConfig
  pub last_cycle_counter : Table ℕ ℕ
  pub last_receive_instant_by_stream : Table ℕ ℕ
  pub receive_metrics : CycleMetrics
  pub receive_jitter_metrics : CycleMetrics
  pub missed_cycles_total : ℕ
  pub previous_state : Option DeviceState

unfoldable pub map_streams : Table ℕ StreamConfig → List StreamConfig → Table ℕ StreamConfig
map_streams stream_map [] = stream_map
map_streams stream_map (stream ∷ streams) =
    map_streams (insert (stream.stream_id % 2 ^ 16) stream stream_map) streams

unfoldable pub new_receiver : List StreamConfig → MasterReceiver
unfolding map_streams default
new_receiver streams = record {
  stream_map = map_streams [] streams;
  last_cycle_counter = [];
  last_receive_instant_by_stream = [];
  receive_metrics = default;
  receive_jitter_metrics = default;
  missed_cycles_total = 0;
  previous_state = none;
}

read_state : DeviceState → MasterReceiver → MasterReceiver
unfolding has_changed
read_state state r =
    if has_changed r.previous_state state
    then record r {
      last_cycle_counter = [];
      last_receive_instant_by_stream = [];
      previous_state = some state;
    }
    else r

count_missed : Option ℕ → MasterReceiver → MasterReceiver
count_missed none r = r
count_missed (some missed) r = record r {
  missed_cycles_total = saturating_add u64_max r.missed_cycles_total missed;
}

-- The cycle that ends with this frame, if there was a frame before it.
record_cycle : Option ℕ → StreamConfig → ℕ → MasterReceiver → MasterReceiver
unfolding observe
record_cycle none stream now r = r
record_cycle (some previous) stream now r =
    let m =
      observe r.receive_metrics r.receive_jitter_metrics stream.cycle_time_nano now previous in
    record r { receive_metrics = m.0; receive_jitter_metrics = m.1 }

-- Instants are kept in the operational state only.
record_receive : Bool → ℕ → StreamConfig → ℕ → MasterReceiver → MasterReceiver
unfolding record_cycle
record_receive true stream_id stream now r =
    record_cycle (get stream_id r.last_receive_instant_by_stream) stream now (record r {
      last_receive_instant_by_stream = insert stream_id now r.last_receive_instant_by_stream;
    })
record_receive false stream_id stream now r = r

module _ {S : Type 0} (image : ProcessImageAccess S) where
  -- A frame of a configured stream with a valid tag and no error status. An error of the write is only
  -- logged.
  unfoldable pub process_frame :
      DeviceState
      → MasterReceiver
      → Controller S
      → StreamConfig
      → ParsedL2Frame
      → ℕ
      → MasterReceiver × Controller S
  unfolding count_missed record_receive check_counter
  process_frame state r c stream parsed now =
      let stream_id = parsed.header.stream_id in
      let missed =
        check_counter stream.cycle_time_nano (get stream_id r.last_cycle_counter)
          parsed.header.cycle_counter in
      let r' = count_missed missed r in
      (
        record_receive (is_op state) stream_id stream now (record r' {
          last_cycle_counter = insert stream_id parsed.header.cycle_counter r'.last_cycle_counter;
        }),
        record c {
          process_image = (handle_input_packet image c.process_image stream parsed.payload).0;
        },
      )

  on_validated :
      DeviceState
      → MasterReceiver
      → StreamConfig
      → ParsedL2Frame
      → ℕ
      → Controller S
      → Result StatusCode Bool
      → MasterReceiver × Controller S
  unfolding process_frame
  on_validated state r stream parsed now c (ok true) =
      if not (parsed.header.status == status_code_number no_error)
      then (r, c)
      else process_frame state r c stream parsed now
  on_validated state r stream parsed now c (ok false) = (r, c)
  on_validated state r stream parsed now c (err code) = (r, c)

  module _ (b : Blake3) where
    on_stream :
        DeviceState
        → MasterReceiver
        → Controller S
        → ParsedL2Frame
        → ℕ
        → Option StreamConfig
        → MasterReceiver × Controller S
    unfolding on_validated
    on_stream state r c parsed now none = (r, c)
    on_stream state r c parsed now (some stream) =
        let v =
          validate_stream_tag b c.stream_store parsed.header parsed.payload parsed.sequence_number
            parsed.auth_tag in
        on_validated state r stream parsed now (record c { stream_store = v.0 }) v.1

    on_parsed :
        DeviceState
        → MasterReceiver
        → Controller S
        → ℕ
        → Result StatusCode ParsedL2Frame
        → MasterReceiver × Controller S
    unfolding on_stream
    on_parsed state r c now (ok parsed) =
        on_stream state r c parsed now (get parsed.header.stream_id r.stream_map)
    on_parsed state r c now (err code) = (r, c)

    unfoldable pub handle_frame :
        DeviceState → MasterReceiver → Controller S → ℕ → List ℕ → MasterReceiver × Controller S
    unfolding on_parsed
    handle_frame state r c now frame = on_parsed state r c now (parse_l2_frame frame)

    handle_next :
        DeviceState
        → MasterReceiver
        → Controller S
        → ℕ
        → Option (List ℕ)
        → MasterReceiver × Controller S
    unfolding handle_frame
    handle_next state r c now none = (r, c)
    handle_next state r c now (some frame) = handle_frame state r c now frame

    -- A turn of the loop, and whether the thread goes on. The state is read from `seen`, and the
    -- controller may have changed when the frame comes.
    unfoldable pub turn :
        MasterReceiver
        → (seen : Controller S) → Controller S
        → ℕ
        → Option (List ℕ)
        → Bool × (MasterReceiver × Controller S)
    unfolding read_state handle_next current_state
    turn r seen c now next =
        let state = current_state seen in
        let r' = read_state state r in
        if not (is_op state || is_safe_op state)
        then (false, (r', c))
        else (true, handle_next state r' c now next)
