-- ===== src/L2Handler/Slave/Send.antt =====
-- The sender thread of slave/src/l2_handler.rs. What the clocks and the network do while a stream is
-- served is a `Moment`; the frames that were handed to the transmitter are listed in their order.
pub mod Frames
pub mod Spacing
use tsn_fieldbus.Base.{
  nat_eq, ℕ, suc, ◌%◌, ◌^◌, max, not, ◌||◌, if◌then◌else◌, Bool, true, false, Option, none, some,
  List, [], ◌∷◌, ◌++◌, Result, ok, err,
}
use tsn_fieldbus.Base.Table.{Table, get, insert}
use tsn_fieldbus.Proto.{
  StatusCode, no_error, err_socket_channel, status_code_number, DeviceState, StreamConfig,
}
use tsn_fieldbus.Mac.{MacAddr, mac}
use tsn_fieldbus.Security.Crypto.{Blake3}
use tsn_fieldbus.Security.Footer.{SecurityFooter}
use tsn_fieldbus.L2.Header.{L2Header}
use tsn_fieldbus.L2.Header
use tsn_fieldbus.L2.Frame.{build_l2_frame}
use tsn_fieldbus.L2.Cycle.{
  ProcessImageAccess, build_frame_payload, parse_destination_mac, cycle_counter,
}
use tsn_fieldbus.L2.Metrics.{CycleMetrics, default, values}
use tsn_fieldbus.StreamStore.{StreamStore, generate_stream_tag}
use tsn_fieldbus.DeviceStatus.{DeviceStatusStore, update_send_cycle_metrics}
use tsn_fieldbus.L2Handler.Timing.{has_changed, is_op, is_safe_op, is_due, observe}
use tsn_fieldbus.L2Handler.Slave.Device.{Device, report, current_state}

-- While one stream is served: the instant of the test whether it is due, the instant after it, the
-- microseconds since the epoch, the wall clock of the status, and whether the transmitter fails.
pub record Moment : Type 0 where
  pub elapsed_at : ℕ
  pub now : ℕ
  pub micros : ℕ
  pub timestamp : ℕ
  pub fails : Bool

pub record SlaveSender : Type 0 where
  pub last_sent : Table ℕ ℕ
  pub send_metrics : CycleMetrics
  pub send_jitter_metrics : CycleMetrics
  pub previous_state : Option DeviceState

unfoldable pub new_sender : SlaveSender
unfolding default
new_sender = record {
  last_sent = [];
  send_metrics = default;
  send_jitter_metrics = default;
  previous_state = none;
}

-- `interface.mac.unwrap_or(MacAddr::zero())`
unfoldable pub source_mac : Option MacAddr → MacAddr
source_mac none = mac 0 0 0 0 0 0
source_mac (some m) = m

publish_metrics : Option (ℕ × ℕ × ℕ) → ℕ → DeviceStatusStore → DeviceStatusStore
unfolding update_send_cycle_metrics
publish_metrics none timestamp status_store = status_store
publish_metrics (some (min_ns, max_ns, average_ns)) timestamp status_store =
    update_send_cycle_metrics status_store min_ns max_ns average_ns timestamp

-- The cycle that ends now, when the stream was sent before and the state is operational.
pub record_send :
    Bool → ℕ → Option ℕ → Moment → SlaveSender → DeviceStatusStore → SlaveSender × DeviceStatusStore
unfolding observe publish_metrics values
record_send true cycle_time (some previous) moment s status_store =
    let m = observe s.send_metrics s.send_jitter_metrics cycle_time moment.now previous in
    (
      record s { send_metrics = m.0; send_jitter_metrics = m.1 },
      publish_metrics (values m.0) moment.timestamp status_store,
    )
record_send _ cycle_time _ moment s status_store = (s, status_store)

-- The status and the payload of the frame: an error is sent as a status without a payload.
unfoldable pub status_and_payload : Result StatusCode (List ℕ) → StatusCode × List ℕ
status_and_payload (ok payload) = (no_error, payload)
status_and_payload (err code) = (code, [])

module _ {S : Type 0} where
  -- `fails` is that `send_to` returned `Some(Err(_))`.
  after_transmit : Bool → Device S → Device S
  unfolding report
  after_transmit true d = report err_socket_channel d
  after_transmit false d = d

  -- The frame with its tag goes to the transmitter; without a tag the stream is skipped.
  transmit :
      MacAddr
      → MacAddr
      → StreamConfig
      → L2Header
      → List ℕ
      → Bool
      → Device S
      → Result StatusCode (ℕ × List ℕ)
      → Device S × List (List ℕ)
  unfolding report after_transmit
  transmit source destination stream header payload fails d (err code) = (report code d, [])
  transmit source destination stream header payload fails d (ok (sequence_number, auth_tag)) = (
    after_transmit fails d,
    build_l2_frame source destination (stream.vlan_id_pcp % 2 ^ 16) header payload
          (record { sequence_number = sequence_number; auth_tag = auth_tag })
        ∷ [],
  )

module _ (b : Blake3) {S : Type 0} (image : ProcessImageAccess S) (source : MacAddr) where
  -- The frame of a stream that is due, to its destination.
  send_frame : MacAddr → Device S → StreamConfig → Moment → Device S × List (List ℕ)
  unfolding transmit status_and_payload
  send_frame destination d stream moment =
      let content = status_and_payload (build_frame_payload image d.process_image stream) in
      let header =
        Header.new (stream.stream_id % 2 ^ 16) (cycle_counter moment.micros)
          (status_code_number content.0 % 2 ^ 8) in
      let g = generate_stream_tag b d.stream_store header content.1 in
      transmit source destination stream header content.1 moment.fails
        (record d { stream_store = g.0 }) g.1

  -- `none` is the panic of a destination address that is too short.
  send_to :
      Option MacAddr
      → SlaveSender
      → Device S
      → StreamConfig
      → Moment
      → Option (SlaveSender × (Device S × List (List ℕ)))
  unfolding send_frame
  send_to none s d stream moment = none
  send_to (some destination) s d stream moment = some (s, send_frame destination d stream moment)

  -- The body of the loop over the streams.
  unfoldable pub send_stream :
      DeviceState
      → SlaveSender
      → Device S
      → StreamConfig
      → Moment
      → Option (SlaveSender × (Device S × List (List ℕ)))
  unfolding send_to record_send
  send_stream state s d stream moment =
      let cycle_time = max stream.cycle_time_nano 1 in
      let stream_id = stream.stream_id % 2 ^ 16 in
      let previous = get stream_id s.last_sent in
      if not (is_due cycle_time moment.elapsed_at previous)
      then some (s, (d, []))
      else (let recorded =
            record_send (is_op state) cycle_time previous moment
              (record s { last_sent = insert stream_id moment.now s.last_sent }) d.status_store in
          send_to (parse_destination_mac stream) recorded.0 (record d { status_store = recorded.1 })
            stream moment)

  -- The loop over the streams, the `n`-th of them at the `n`-th moment.
  unfoldable pub send_streams :
      DeviceState
      → List StreamConfig
      → (ℕ → Moment)
      → SlaveSender
      → Device S
      → Option (SlaveSender × (Device S × List (List ℕ)))
  send_streams state [] moments s d = some (s, (d, []))
  send_streams state (stream ∷ streams) moments s d =
      elim (send_stream state s d stream (moments 0)) [
        | none ↦ none
        | some (s', (d', frames)) ↦ elim (send_streams state streams (λ n. moments (suc n)) s' d') [
          | none ↦ none
          | some (s'', (d'', frames')) ↦ some (s'', (d'', frames ++ frames'))
        ]
      ]

  read_state : DeviceState → SlaveSender → SlaveSender
  unfolding has_changed
  read_state state s =
      if has_changed s.previous_state state
      then record s { last_sent = []; previous_state = some state }
      else s

  -- A turn after the timer has ticked, and whether the thread goes on. The state is read from the
  -- device once for all streams.
  unfoldable pub turn :
      List StreamConfig
      → (ℕ → Moment)
      → SlaveSender
      → Device S
      → Option (Bool × (SlaveSender × (Device S × List (List ℕ))))
  unfolding read_state send_streams current_state
  turn streams moments s d =
      let state = current_state d in
      let s' = read_state state s in
      if not (is_op state || is_safe_op state)
      then some (false, (s', (d, [])))
      else elim (send_streams state streams moments s' d) [
        | none ↦ none
        | some sent ↦ some (true, sent)
      ]
