-- ===== src/L2Handler/Delivery/ToMaster.antt =====
-- Process data of the slave, from the sender of slave/src/l2_handler.rs to the receiver of
-- master/src/l2_handler.rs.
use tsn_fieldbus.Base.{
  nat_eq, ℕ, ◌%◌, ◌^◌, max, ◌≡◌, refl, ap, ◌∙◌, arith, List, [], ◌∷◌, length, some, true, ok,
}
use tsn_fieldbus.Base.Table.{get}
use tsn_fieldbus.Proto.{no_error, DeviceState, Position, StreamConfig}
use tsn_fieldbus.Mac.{MacAddr}
use tsn_fieldbus.Security.Crypto.{Blake3}
use tsn_fieldbus.L2.Header.{L2Header}
use tsn_fieldbus.L2.Header
use tsn_fieldbus.L2.Cycle.{
  ProcessImageAccess, bit_len_to_byte_len, build_frame_payload, parse_destination_mac,
}
use tsn_fieldbus.StreamStore.{StreamEntry}
use tsn_fieldbus.L2Handler.Timing.{is_due}
use tsn_fieldbus.L2Handler.Link.{tagged_frame}
use tsn_fieldbus.L2Handler.Delivery.{IsReady, tagged_frame-written}
use tsn_fieldbus.L2Handler.Slave.Device.{Device}
use tsn_fieldbus.L2Handler.Slave.Send.{Moment, SlaveSender, send_stream, status_and_payload}
use tsn_fieldbus.L2Handler.Slave.Send.Frames.{header_of, header_of-IsL2Header, send_stream_due}
use tsn_fieldbus.L2Handler.Master.Controller.{Controller}
use tsn_fieldbus.L2Handler.Master.Receive.{MasterReceiver, handle_frame}
use tsn_fieldbus.L2Handler.Master.Receive.Refines.{master_handle_frame-refines}

module _ (b : Blake3) {S T : Type 0} (outputs : ProcessImageAccess S)
    (inputs : ProcessImageAccess T) where
  -- What the slave reads from its process image for a stream that is due leaves in one frame, and the
  -- master that receives this frame writes exactly that to its process image, at the content of its own
  -- configuration of the stream. The master has to know the stream and the secret, to be behind the
  -- slave's number, which fits 64 bits, and to expect as many bytes as were read. A frame whose cycle
  -- counter does not match is written too: the check of the counter only counts.
  pub slave_outputs-delivered :
      (source destination : MacAddr) (s : SlaveSender) (c : Device S) (stream : StreamConfig)
      (moment : Moment) (es : StreamEntry) (payload : List ℕ) (r : MasterReceiver)
      (d : Controller T) (content : Position) (state after : DeviceState) (now : ℕ)
      → let id = stream.stream_id % 2 ^ 16 in
        is_due (max stream.cycle_time_nano 1) moment.elapsed_at (get id s.last_sent) ≡ true
        → parse_destination_mac stream ≡ some destination
        → get id c.stream_store.streams ≡ some es
        → build_frame_payload outputs c.process_image stream ≡ ok payload
        → IsReady id c.stream_store d.stream_store r.stream_map es content
        → length payload ≡ bit_len_to_byte_len content.bit_len
        → (s' : SlaveSender) × (c' : Device S) × (frame : List ℕ) × (send_stream b outputs source
              state s c stream moment
            ≡ some (s', (c', frame ∷ [])))
          × ((handle_frame inputs b after r d now frame).1.process_image
              ≡ (inputs.write_inputs d.process_image payload content).0)
  unfolding header_of Header.new status_and_payload
  slave_outputs-delivered source destination s c stream moment es payload r d content state after
        now due addressed known read ready fits =
      let (s', c', sent, _, _, _, _) =
        send_stream_due b outputs source state s c stream moment destination es due addressed
          known in
      let frame : List ℕ =
        tagged_frame b c.stream_store es source destination (stream.vlan_id_pcp % 2 ^ 16)
          (header_of stream moment no_error) payload in
      (
        s',
        c',
        frame,
        sent
            ∙ ap
                (λ x. some (
                  s',
                  (
                    c',
                    tagged_frame b c.stream_store es source destination
                          (stream.vlan_id_pcp % 2 ^ 16)
                          (header_of stream moment (status_and_payload x).0)
                          (status_and_payload x).1
                        ∷ [],
                  ),
                ))
                read,
        ap (λ x. x.1) (master_handle_frame-refines inputs after r now b d frame)
            ∙ tagged_frame-written b inputs c.stream_store d.stream_store r.stream_map es content
                source destination (stream.vlan_id_pcp % 2 ^ 16) (header_of stream moment no_error)
                payload d.process_image ready (omega arith)
                (header_of-IsL2Header stream moment no_error) refl fits,
      )
