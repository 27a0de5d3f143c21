-- ===== src/L2Handler/Master/Send.antt =====
-- The sender thread of master/src/l2_handler.rs. What the clocks, the network and the state of the
-- device do while a stream is served is a `Moment`; the frames that were handed to the transmitter are
-- listed in their order.
pub mod Frames
use tsn_fieldbus.Base.{
  nat_eq, ℕ, suc, ◌%◌, ◌^◌, max, not, ◌||◌, if◌then◌else◌, Bool, true, false, Option, none, some,
  List, [], ◌∷◌, ◌++◌, Result, ok, err, ok_or,
}
use tsn_fieldbus.Base.Table.{Table, get, insert}
use tsn_fieldbus.Proto.{
  StatusCode, no_error, err_socket_channel, status_code_number, DeviceState, StreamConfig,
}
use tsn_fieldbus.Mac.{MacAddr}
use tsn_fieldbus.Security.Crypto.{Blake3}
use tsn_fieldbus.L2.Header.{L2Header}
use tsn_fieldbus.L2.Header
use tsn_fieldbus.L2.Frame.{build_l2_frame}
use tsn_fieldbus.L2.Cycle.{
  ProcessImageAccess, build_frame_payload, parse_destination_mac, cycle_counter,
}
use tsn_fieldbus.L2.Metrics.{CycleMetrics, default}
use tsn_fieldbus.StreamStore.{generate_stream_tag}
use tsn_fieldbus.L2Handler.Timing.{has_changed, is_op, is_safe_op, is_due, observe}
use tsn_fieldbus.L2Handler.Master.Controller.{Controller, current_state}

-- While one stream is served: the state that is read, the instant of the test whether it is due, the
-- instant after it, and the microseconds since the epoch. A failure of the transmitter is only logged.
pub record Moment : Type 0 where
  pub state : DeviceState
  pub elapsed_at : ℕ
  pub now : ℕ
  pub micros : ℕ

pub record MasterSender : Type 0 where
  pub last_sent : Table ℕ ℕ
  pub send_metrics : CycleMetrics
  pub send_jitter_metrics : CycleMetrics
  pub previous_state : Option DeviceState

unfoldable pub new_sender : MasterSender
unfolding default
new_sender = record {
  last_sent = [];
  send_metrics = default;
  send_jitter_metrics = default;
  previous_state = none;
}

-- The thread is not started on an interface without an address.
unfoldable pub source_mac : Option MacAddr → Result StatusCode MacAddr
source_mac interface_mac = ok_or interface_mac err_socket_channel

record_send : Bool → ℕ → Option ℕ → Moment → MasterSender → MasterSender
unfolding observe
record_send true cycle_time (some previous) moment s =
    let m = observe s.send_metrics s.send_jitter_metrics cycle_time moment.now previous in
    record s { send_metrics = m.0; send_jitter_metrics = m.1 }
record_send _ cycle_time _ moment s = s

unfoldable pub status_and_payload : Result StatusCode (List ℕ) → StatusCode × List ℕ
status_and_payload (ok payload) = (no_error, payload)
status_and_payload (err code) = (code, [])

-- The frame with its tag goes to the transmitter; without a tag the stream is skipped.
transmit :
    MacAddr
    → MacAddr
    → StreamConfig
    → L2Header
    → List ℕ
    → Result StatusCode (ℕ × List ℕ)
    → List (List ℕ)
transmit source destination stream header payload (err code) = []
transmit source destination stream header payload (ok (sequence_number, auth_tag)) =
    build_l2_frame source destination (stream.vlan_id_pcp % 2 ^ 16) header payload
      (record { sequence_number = sequence_number; auth_tag = auth_tag })
    ∷ []

module _ (b : Blake3) {S : Type 0} (image : ProcessImageAccess S) (source : MacAddr) where
  send_frame : MacAddr → Controller S → StreamConfig → Moment → Controller S × List (List ℕ)
  unfolding transmit status_and_payload
  send_frame destination c stream moment =
      let content = status_and_payload (build_frame_payload image c.process_image stream) in
      let header =
        Header.new (stream.stream_id % 2 ^ 16) (cycle_counter moment.micros)
          (status_code_number content.0 % 2 ^ 8) in
      let g = generate_stream_tag b c.stream_store header content.1 in
      (record c { stream_store = g.0 }, transmit source destination stream header content.1 g.1)

  -- `none` is the panic of a destination address that is too short.
  send_to :
      Option MacAddr
      → MasterSender
      → Controller S
      → StreamConfig
      → Moment
      → Option (MasterSender × (Controller S × List (List ℕ)))
  unfolding send_frame
  send_to none s c stream moment = none
  send_to (some destination) s c stream moment = some (s, send_frame destination c stream moment)

  -- The body of the loop over the streams, after the state was found active.
  unfoldable pub send_stream :
      MasterSender
      → Controller S
      → StreamConfig
      → Moment
      → Option (MasterSender × (Controller S × List (List ℕ)))
  unfolding send_to record_send
  send_stream s c stream moment =
      let cycle_time = max stream.cycle_time_nano 1 in
      let stream_id = stream.stream_id % 2 ^ 16 in
      let previous = get stream_id s.last_sent in
      if not (is_due cycle_time moment.elapsed_at previous)
      then some (s, (c, []))
      else send_to (parse_destination_mac stream)
          (record_send (is_op moment.state) cycle_time previous moment
            (record s { last_sent = insert stream_id moment.now s.last_sent }))
          c stream moment

  -- The loop over the streams, which ends when the state is no longer active.
  unfoldable pub send_streams :
      List StreamConfig
      → (ℕ → Moment)
      → MasterSender
      → Controller S
      → Option (MasterSender × (Controller S × List (List ℕ)))
  send_streams [] moments s c = some (s, (c, []))
  send_streams (stream ∷ streams) moments s c =
      if not (is_op (moments 0).state || is_safe_op (moments 0).state)
      then some (s, (c, []))
      else elim (send_stream s c stream (moments 0)) [
        | none ↦ none
        | some (s', (c', frames)) ↦ elim (send_streams streams (λ n. moments (suc n)) s' c') [
          | none ↦ none
          | some (s'', (c'', frames')) ↦ some (s'', (c'', frames ++ frames'))
        ]
      ]

  read_state : DeviceState → MasterSender → MasterSender
  unfolding has_changed
  read_state state s =
      if has_changed s.previous_state state
      then record s { last_sent = []; previous_state = some state }
      else s

  -- A turn, and whether the thread goes on. The timer ticks between the reading of the state, from
  -- `seen`, and the loop.
  unfoldable pub turn :
      List StreamConfig
      → (ℕ → Moment)
      → MasterSender
      → (seen : Controller S) → Controller S
      → Option (Bool × (MasterSender × (Controller S × List (List ℕ))))
  unfolding read_state send_streams current_state
  turn streams moments s seen c =
      let state = current_state seen in
      let s' = read_state state s in
      if not (is_op state || is_safe_op state)
      then some (false, (s', (c, [])))
      else elim (send_streams streams moments s' c) [ none ↦ none | some sent ↦ some (true, sent) ]
