-- ===== src/L2Handler/Delivery/ToSlave.antt =====
-- Output data of the master, from the sender of master/src/l2_handler.rs to the receiver of
-- slave/src/l2_handler.rs.
use tsn_fieldbus.Base.{
  nat_eq, ℕ, ◌%◌, ◌^◌, max, ◌≡◌, ◌≢◌, refl, sym, ap, ◌∙◌, arith, List, [], ◌∷◌, length, some, true,
  ok, err,
}
use tsn_fieldbus.Base.Table.{get}
use tsn_fieldbus.Proto.{
  StatusCode, status_code_number, no_error, err_frame_with_error_status, status_code_number-lt,
  status_code_try_from, status_code_try_from-number, Position, StreamConfig,
}
use tsn_fieldbus.Mac.{MacAddr}
use tsn_fieldbus.Security.Crypto.{Blake3}
use tsn_fieldbus.L2.Header.{L2Header}
use tsn_fieldbus.L2.Header
use tsn_fieldbus.L2.Frame.{ParsedL2Frame}
use tsn_fieldbus.L2.Cycle.{
  ProcessImageAccess, bit_len_to_byte_len, build_frame_payload, parse_destination_mac,
}
use tsn_fieldbus.StreamStore.{StreamEntry}
use mathlib.Core.Option.{some-injective}
use tsn_fieldbus.L2Handler.Timing.{is_due}
use tsn_fieldbus.L2Handler.Link.{
  tagged_frame, read_frame, parse-tagged_frame, tagged_frame-validates,
}
use tsn_fieldbus.L2Handler.Delivery.{IsReady, tagged_frame-written}
use tsn_fieldbus.L2Handler.Master.Controller.{Controller}
use tsn_fieldbus.L2Handler.Master.Send.{Moment, MasterSender, send_stream, status_and_payload}
use tsn_fieldbus.L2Handler.Master.Send.Frames.{header_of, header_of-IsL2Header, send_stream_due}
use tsn_fieldbus.L2Handler.Slave.Device.{Device}
use tsn_fieldbus.L2Handler.Slave.Receive.{SlaveReceiver, handle_frame}
use tsn_fieldbus.L2Handler.Slave.Receive.Reports.{report-code, report-image}
use tsn_fieldbus.L2Handler.Slave.Receive.Errors.{handle_frame-reports}
use tsn_fieldbus.L2Handler.Slave.Receive.Refines.{handle_frame-refines}

-- The status byte of a failure is not that of `no_error`.
failed_status :
    (code : StatusCode)
    → code ≢ no_error
    → status_code_number code % 2 ^ 8 ≢ status_code_number no_error
failed_status code bad same = bad (
    some-injective _ _ (
      sym (status_code_try_from-number code)
      ∙ ap status_code_try_from (omega (arith, status_code_number-lt code, same))
      ∙ status_code_try_from-number no_error))

module _ (b : Blake3) {S T : Type 0} (outputs : ProcessImageAccess S)
    (inputs : ProcessImageAccess T) where
  -- What the master reads from its process image for a stream that is due leaves in one frame, and the
  -- slave that receives this frame writes exactly that to its process image, at the content of its own
  -- configuration of the stream. The slave has to know the stream and the secret, to be behind the
  -- master's number, which fits 64 bits, and to expect as many bytes as were read. A frame whose cycle
  -- counter does not match is written too: the check of the counter only counts and reports.
  pub master_outputs-delivered :
      (source destination : MacAddr) (s : MasterSender) (c : Controller S) (stream : StreamConfig)
      (moment : Moment) (es : StreamEntry) (payload : List ℕ) (r : SlaveReceiver) (d : Device T)
      (content : Position) (now timestamp : ℕ)
      → let id = stream.stream_id % 2 ^ 16 in
        is_due (max stream.cycle_time_nano 1) moment.elapsed_at (get id s.last_sent) ≡ true
        → parse_destination_mac stream ≡ some destination
        → get id c.stream_store.streams ≡ some es
        → build_frame_payload outputs c.process_image stream ≡ ok payload
        → IsReady id c.stream_store d.stream_store r.stream_map es content
        → length payload ≡ bit_len_to_byte_len content.bit_len
        → (s' : MasterSender) × (c' : Controller S) × (frame : List ℕ) × (send_stream b outputs
              source s c stream moment
            ≡ some (s', (c', frame ∷ [])))
          × ((handle_frame inputs b r d now timestamp frame).1.process_image
              ≡ (inputs.write_inputs d.process_image payload content).0)
  unfolding header_of Header.new status_and_payload
  master_outputs-delivered source destination s c stream moment es payload r d content now timestamp
        due addressed known read ready fits =
      let (s', c', sent, _, _, _, _) =
        send_stream_due b outputs source s c stream moment destination es due addressed known in
      let frame : List ℕ =
        tagged_frame b c.stream_store es source destination (stream.vlan_id_pcp % 2 ^ 16)
          (header_of stream moment no_error) payload in
      (
        s',
        c',
        frame,
        sent
            ∙ ap
                (λ x. some (
                  s',
                  (
                    c',
                    tagged_frame b c.stream_store es source destination
                          (stream.vlan_id_pcp % 2 ^ 16)
                          (header_of stream moment (status_and_payload x).0)
                          (status_and_payload x).1
                        ∷ [],
                  ),
                ))
                read,
        ap (λ x. x.1) (handle_frame-refines inputs r now timestamp b d frame)
            ∙ tagged_frame-written b inputs c.stream_store d.stream_store r.stream_map es content
                source destination (stream.vlan_id_pcp % 2 ^ 16) (header_of stream moment no_error)
                payload d.process_image ready (omega arith)
                (header_of-IsL2Header stream moment no_error) refl fits,
      )

  -- When the master cannot read the process data of a stream that is due, the frame that leaves makes
  -- the slave report an error of the frame and leave its process image as it is.
  pub master_failure-reported :
      (source destination : MacAddr) (s : MasterSender) (c : Controller S) (stream : StreamConfig)
      (moment : Moment) (es : StreamEntry) (code : StatusCode) (r : SlaveReceiver) (d : Device T)
      (content : Position) (now timestamp : ℕ)
      → let id = stream.stream_id % 2 ^ 16 in
        is_due (max stream.cycle_time_nano 1) moment.elapsed_at (get id s.last_sent) ≡ true
        → parse_destination_mac stream ≡ some destination
        → get id c.stream_store.streams ≡ some es
        → build_frame_payload outputs c.process_image stream ≡ err code
        → code ≢ no_error
        → IsReady id c.stream_store d.stream_store r.stream_map es content
        → (s' : MasterSender) × (c' : Controller S) × (frame : List ℕ) × (send_stream b outputs
              source s c stream moment
            ≡ some (s', (c', frame ∷ [])))
          × (let out = (handle_frame inputs b r d now timestamp frame).1 in
              (out.process_image ≡ d.process_image)
              × (out.status_store.current.status_code
                  ≡ status_code_number err_frame_with_error_status))
  unfolding header_of Header.new status_and_payload
  master_failure-reported source destination s c stream moment es code r d content now timestamp due
        addressed known read bad ready =
      let (s', c', sent, _, _, _, _) =
        send_stream_due b outputs source s c stream moment destination es due addressed known in
      let h : L2Header = header_of stream moment code in
      let parsed : ParsedL2Frame =
        read_frame b c.stream_store es source destination (stream.vlan_id_pcp % 2 ^ 16) h [] in
      let frame : List ℕ =
        tagged_frame b c.stream_store es source destination (stream.vlan_id_pcp % 2 ^ 16) h [] in
      let (_, _, _, bad_status) = handle_frame-reports inputs b r d now timestamp frame in
      let reported =
        bad_status parsed ready.input _
          (parse-tagged_frame b c.stream_store es source destination (stream.vlan_id_pcp % 2 ^ 16) h
            [] (omega arith) (header_of-IsL2Header stream moment code) ready.room)
          ready.configured
          (tagged_frame-validates b c.stream_store d.stream_store es ready.er h [] ready.known
            ready.secret ready.behind)
          (failed_status code bad) in
      (
        s',
        c',
        frame,
        sent
            ∙ ap
                (λ x. some (
                  s',
                  (
                    c',
                    tagged_frame b c.stream_store es source destination
                          (stream.vlan_id_pcp % 2 ^ 16)
                          (header_of stream moment (status_and_payload x).0)
                          (status_and_payload x).1
                        ∷ [],
                  ),
                ))
                read,
        rw reported
            (report-image err_frame_with_error_status _, report-code err_frame_with_error_status _),
      )
