-- ===== src/L2Handler/Slave/Send/Frames.antt =====
-- When the slave's sender sends a stream, and what it sends.
use tsn_fieldbus.Base.{
  nat_eq, ℕ, ◌≡◌, ◌%◌, ◌^◌, max, refl, arith, List, [], ◌∷◌, Option, none, some, Bool, true, false,
  u64_max, saturating_add,
}
use tsn_fieldbus.Base.Table.{get, insert, get-insert_self}
use tsn_fieldbus.Proto.{StatusCode, status_code_number, DeviceState, StreamConfig}
use tsn_fieldbus.Mac.{MacAddr}
use tsn_fieldbus.Security.Crypto.{Blake3}
use tsn_fieldbus.L2.Header.{L2Header}
use tsn_fieldbus.L2.Header
use tsn_fieldbus.L2.Header.Laws.{IsL2Header}
use tsn_fieldbus.L2.Cycle.Laws.{cycle_counter-lt}
use tsn_fieldbus.L2.Cycle.{
  ProcessImageAccess, build_frame_payload, parse_destination_mac, cycle_counter,
}
use tsn_fieldbus.StreamStore.{StreamEntry, generate_stream_tag}
use tsn_fieldbus.StreamStore.Tags.{generate_stream_tag_known}
use tsn_fieldbus.DeviceStatus.{DeviceStatusStore}
use tsn_fieldbus.L2Handler.Timing.{is_due, is_op}
use tsn_fieldbus.L2Handler.Link.{tagged_frame}
use tsn_fieldbus.L2Handler.Slave.Device.{Device, report}
use tsn_fieldbus.L2Handler.Slave.Send.{
  Moment, SlaveSender, send_stream, send_to, send_frame, transmit, after_transmit, record_send,
  status_and_payload,
}

pub record_send-last_sent :
    (operational : Bool) (cycle_time : ℕ) (previous : Option ℕ) (moment : Moment) (s : SlaveSender)
    (status_store : DeviceStatusStore)
    → (record_send operational cycle_time previous moment s status_store).0.last_sent ≡ s.last_sent
unfolding record_send
record_send-last_sent true cycle_time (some previous) moment s status_store = refl
record_send-last_sent true cycle_time none moment s status_store = refl
record_send-last_sent false cycle_time previous moment s status_store = refl

module _ {S : Type 0} where
  after_transmit-keeps :
      (fails : Bool) (d : Device S)
      → ((after_transmit fails d).stream_store ≡ d.stream_store)
        × ((after_transmit fails d).process_image ≡ d.process_image)
  unfolding after_transmit report
  after_transmit-keeps true d = (refl, refl)
  after_transmit-keeps false d = (refl, refl)

-- The header of a stream's frame.
unfoldable pub header_of : StreamConfig → Moment → StatusCode → L2Header
unfolding Header.new
header_of stream moment code =
    Header.new (stream.stream_id % 2 ^ 16) (cycle_counter moment.micros)
      (status_code_number code % 2 ^ 8)

pub header_of-IsL2Header :
    (stream : StreamConfig) (moment : Moment) (code : StatusCode)
    → IsL2Header (header_of stream moment code)
unfolding header_of Header.new
header_of-IsL2Header stream moment code = record {
  version_u8 = omega arith;
  stream_u16 = omega arith;
  counter_u16 = omega (arith, cycle_counter-lt moment.micros);
  status_u8 = omega arith;
  flags_u8 = omega arith;
}

module _ (b : Blake3) {S : Type 0} (image : ProcessImageAccess S) (source : MacAddr) where
  send_frame-tagged :
      (d : Device S) (stream : StreamConfig) (moment : Moment) (destination : MacAddr)
      (es : StreamEntry)
      → get (stream.stream_id % 2 ^ 16) d.stream_store.streams ≡ some es
      → let content = status_and_payload (build_frame_payload image d.process_image stream) in
        let header = header_of stream moment content.0 in
        send_frame b image source destination d stream moment ≡ (
          after_transmit moment.fails (record d {
            stream_store = (generate_stream_tag b d.stream_store header content.1).0;
          }),
          tagged_frame b d.stream_store es source destination
                (stream.vlan_id_pcp % 2 ^ 16)
                header
                content.1
              ∷ [],
        )
  unfolding send_frame transmit header_of Header.new
  send_frame-tagged d stream moment destination es known =
      let content : StatusCode × List ℕ =
        status_and_payload (build_frame_payload image d.process_image stream) in
      let (made, _, _, _) =
        generate_stream_tag_known b d.stream_store (header_of stream moment content.0) content.1 es
          known in
      rw made refl

  -- A stream that is due is sent as one frame with the next number of the stream. The frame has the
  -- process data, or the code of a failed read and no data. The stream is then known as sent now.
  pub send_stream_due :
      (state : DeviceState) (s : SlaveSender) (d : Device S) (stream : StreamConfig)
      (moment : Moment) (destination : MacAddr) (es : StreamEntry)
      → let id = stream.stream_id % 2 ^ 16 in
        let content = status_and_payload (build_frame_payload image d.process_image stream) in
        is_due (max stream.cycle_time_nano 1) moment.elapsed_at (get id s.last_sent) ≡ true
        → parse_destination_mac stream ≡ some destination
        → get id d.stream_store.streams ≡ some es
        → (s' : SlaveSender) × (d' : Device S) × (send_stream b image source state s d stream moment
            ≡ some (
              s',
              (
                d',
                tagged_frame b d.stream_store es source destination
                      (stream.vlan_id_pcp % 2 ^ 16)
                      (header_of stream moment content.0)
                      content.1
                    ∷ [],
              ),
            ))
          × (get id s'.last_sent ≡ some moment.now)
          × (d'.process_image ≡ d.process_image)
          × (d'.stream_store.shared_secret ≡ d.stream_store.shared_secret)
          × (get id d'.stream_store.streams
              ≡ some (record es { sequence_number = saturating_add u64_max es.sequence_number 1 }))
  unfolding send_stream send_to header_of Header.new
  send_stream_due state s d stream moment destination es due addressed known =
      let id : ℕ = stream.stream_id % 2 ^ 16 in
      let content : StatusCode × List ℕ =
        status_and_payload (build_frame_payload image d.process_image stream) in
      let header : L2Header = header_of stream moment content.0 in
      let sent : SlaveSender = record s { last_sent = insert id moment.now s.last_sent } in
      let recorded : SlaveSender × DeviceStatusStore =
        record_send (is_op state) (max stream.cycle_time_nano 1) (get id s.last_sent) moment sent
          d.status_store in
      let d' : Device S = record d { status_store = recorded.1 } in
      let (made, grown, _, secret) =
        generate_stream_tag_known b d.stream_store header content.1 es known in
      let (store, hw) =
        after_transmit-keeps moment.fails (record d' {
          stream_store = (generate_stream_tag b d.stream_store header content.1).0;
        }) in
      (
        recorded.0,
        (send_frame b image source destination d' stream moment).0,
        rw (due, addressed, send_frame-tagged d' stream moment destination es known) refl,
        rw
            (record_send-last_sent (is_op state) (max stream.cycle_time_nano 1) (get id s.last_sent)
              moment sent d.status_store)
            (get-insert_self id moment.now s.last_sent),
        rw (send_frame-tagged d' stream moment destination es known) hw,
        rw (send_frame-tagged d' stream moment destination es known, store) secret,
        rw (send_frame-tagged d' stream moment destination es known, store) grown,
      )
