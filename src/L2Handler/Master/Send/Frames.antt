-- ===== src/L2Handler/Master/Send/Frames.antt =====
-- When the master's sender sends a stream, and what it sends.
use tsn_fieldbus.Base.{
  nat_eq, ℕ, ◌+◌, ◌<◌, ◌≡◌, ◌%◌, ◌^◌, max, refl, arith, List, [], ◌∷◌, Option, none, some, Bool,
  true, false, u64_max, saturating_add,
}
use tsn_fieldbus.Base.Table.{get, insert, get-insert_self}
use tsn_fieldbus.Proto.{StatusCode, status_code_number, StreamConfig}
use tsn_fieldbus.Mac.{MacAddr}
use tsn_fieldbus.Security.Crypto.{Blake3}
use tsn_fieldbus.L2.Header.{L2Header}
use tsn_fieldbus.L2.Header
use tsn_fieldbus.L2.Header.Laws.{IsL2Header}
use tsn_fieldbus.L2.Cycle.Laws.{cycle_counter-lt}
use tsn_fieldbus.L2.Cycle.{
  ProcessImageAccess, build_frame_payload, parse_destination_mac, cycle_counter,
}
use tsn_fieldbus.StreamStore.{StreamEntry, generate_stream_tag}
use tsn_fieldbus.StreamStore.Tags.{generate_stream_tag_known}
use tsn_fieldbus.L2Handler.Timing.{is_due, is_op}
use tsn_fieldbus.L2Handler.Timing.Laws.{is_due-early}
use tsn_fieldbus.L2Handler.Link.{tagged_frame}
use tsn_fieldbus.L2Handler.Master.Controller.{Controller}
use tsn_fieldbus.L2Handler.Master.Send.{
  Moment, MasterSender, send_stream, send_to, send_frame, transmit, record_send, status_and_payload,
}

record_send-last_sent :
    (operational : Bool) (cycle_time : ℕ) (previous : Option ℕ) (moment : Moment) (s : MasterSender)
    → (record_send operational cycle_time previous moment s).last_sent ≡ s.last_sent
unfolding record_send
record_send-last_sent true cycle_time (some previous) moment s = refl
record_send-last_sent true cycle_time none moment s = refl
record_send-last_sent false cycle_time previous moment s = refl

-- The header of a stream's frame.
unfoldable pub header_of : StreamConfig → Moment → StatusCode → L2Header
unfolding Header.new
header_of stream moment code =
    Header.new (stream.stream_id % 2 ^ 16) (cycle_counter moment.micros)
      (status_code_number code % 2 ^ 8)

pub header_of-IsL2Header :
    (stream : StreamConfig) (moment : Moment) (code : StatusCode)
    → IsL2Header (header_of stream moment code)
unfolding header_of Header.new
header_of-IsL2Header stream moment code = record {
  version_u8 = omega arith;
  stream_u16 = omega arith;
  counter_u16 = omega (arith, cycle_counter-lt moment.micros);
  status_u8 = omega arith;
  flags_u8 = omega arith;
}

module _ (b : Blake3) {S : Type 0} (image : ProcessImageAccess S) (source : MacAddr) where
  send_frame-tagged :
      (c : Controller S) (stream : StreamConfig) (moment : Moment) (destination : MacAddr)
      (es : StreamEntry)
      → get (stream.stream_id % 2 ^ 16) c.stream_store.streams ≡ some es
      → let content = status_and_payload (build_frame_payload image c.process_image stream) in
        let header = header_of stream moment content.0 in
        send_frame b image source destination c stream moment ≡ (
          record c { stream_store = (generate_stream_tag b c.stream_store header content.1).0 },
          tagged_frame b c.stream_store es source destination
                (stream.vlan_id_pcp % 2 ^ 16)
                header
                content.1
              ∷ [],
        )
  unfolding send_frame transmit header_of Header.new
  send_frame-tagged c stream moment destination es known =
      let content : StatusCode × List ℕ =
        status_and_payload (build_frame_payload image c.process_image stream) in
      let (made, _, _, _) =
        generate_stream_tag_known b c.stream_store (header_of stream moment content.0) content.1 es
          known in
      rw made refl

  -- A stream that is due is sent as one frame with the next number of the stream. The frame has the
  -- process data, or the code of a failed read and no data. The stream is then known as sent now.
  pub send_stream_due :
      (s : MasterSender) (c : Controller S) (stream : StreamConfig) (moment : Moment)
      (destination : MacAddr) (es : StreamEntry)
      → let id = stream.stream_id % 2 ^ 16 in
        let content = status_and_payload (build_frame_payload image c.process_image stream) in
        is_due (max stream.cycle_time_nano 1) moment.elapsed_at (get id s.last_sent) ≡ true
        → parse_destination_mac stream ≡ some destination
        → get id c.stream_store.streams ≡ some es
        → (s' : MasterSender) × (c' : Controller S) × (send_stream b image source s c stream moment
            ≡ some (
              s',
              (
                c',
                tagged_frame b c.stream_store es source destination
                      (stream.vlan_id_pcp % 2 ^ 16)
                      (header_of stream moment content.0)
                      content.1
                    ∷ [],
              ),
            ))
          × (get id s'.last_sent ≡ some moment.now)
          × (c'.process_image ≡ c.process_image)
          × (c'.stream_store.shared_secret ≡ c.stream_store.shared_secret)
          × (get id c'.stream_store.streams
              ≡ some (record es { sequence_number = saturating_add u64_max es.sequence_number 1 }))
  unfolding send_stream send_to header_of Header.new
  send_stream_due s c stream moment destination es due addressed known =
      let id : ℕ = stream.stream_id % 2 ^ 16 in
      let content : StatusCode × List ℕ =
        status_and_payload (build_frame_payload image c.process_image stream) in
      let header : L2Header = header_of stream moment content.0 in
      let sent : MasterSender = record s { last_sent = insert id moment.now s.last_sent } in
      let recorded : MasterSender =
        record_send (is_op moment.state) (max stream.cycle_time_nano 1) (get id s.last_sent) moment
          sent in
      let (made, grown, _, secret) =
        generate_stream_tag_known b c.stream_store header content.1 es known in
      (
        recorded,
        record c { stream_store = (generate_stream_tag b c.stream_store header content.1).0 },
        rw (due, addressed, send_frame-tagged c stream moment destination es known) refl,
        rw
            (record_send-last_sent (is_op moment.state) (max stream.cycle_time_nano 1)
              (get id s.last_sent) moment sent)
            (get-insert_self id moment.now s.last_sent),
        refl,
        secret,
        grown,
      )

  -- A stream that is due, addressed and known is sent as one frame. When it is served next, it is not
  -- sent again, and nothing else changes, before its cycle time has passed.
  pub send_stream-spaced :
      (s : MasterSender) (c later : Controller S) (stream : StreamConfig) (moment moment' : Moment)
      (destination : MacAddr) (es : StreamEntry)
      → let id = stream.stream_id % 2 ^ 16 in
        is_due (max stream.cycle_time_nano 1) moment.elapsed_at (get id s.last_sent) ≡ true
        → parse_destination_mac stream ≡ some destination
        → get id c.stream_store.streams ≡ some es
        → moment'.elapsed_at < moment.now + max stream.cycle_time_nano 1
        → (s' : MasterSender) × (c' : Controller S) × (frame : List ℕ) × (send_stream b image source
              s c stream moment
            ≡ some (s', (c', frame ∷ [])))
          × (send_stream b image source s' later stream moment' ≡ some (s', (later, [])))
  unfolding send_stream
  send_stream-spaced s c later stream moment moment' destination es due addressed known early =
      let (s', c', sent, at, _, _, _) =
        send_stream_due s c stream moment destination es due addressed known in
      let again : is_due (max stream.cycle_time_nano 1) moment'.elapsed_at (some moment.now)
          ≡ false =
        is_due-early (max stream.cycle_time_nano 1) moment'.elapsed_at moment.now (omega arith)
          early in
      (s', c', _, sent, rw (at, again) refl)
