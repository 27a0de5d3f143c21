-- ===== src/L2Handler/Delivery.antt =====
-- From the process image of one side to that of the other: the sender of one side of
-- slave/src/l2_handler.rs and master/src/l2_handler.rs, and the receiver of the other.
pub mod ToSlave
pub mod ToMaster
use tsn_fieldbus.Base.{
  nat_eq, ℕ, ◌<◌, ◌≤◌, ◌%◌, ◌^◌, max, ◌≡◌, refl, sym, ap, ◌∙◌, arith, List, [], ◌∷◌, ◌++◌, length,
  some, true, ok, err, u64_max,
}
use tsn_fieldbus.Base.Table.{Table, get}
use tsn_fieldbus.Proto.{status_code_number, no_error, Position, StreamConfig, DeviceState}
use tsn_fieldbus.Mac.{MacAddr}
use tsn_fieldbus.Security.Crypto.{Blake3}
use tsn_fieldbus.L2.Header.{L2Header}
use tsn_fieldbus.L2.Header.Laws.{IsL2Header}
use tsn_fieldbus.L2.Cycle.{
  ProcessImageAccess, bit_len_to_byte_len, handle_input_packet, build_frame_payload,
  parse_destination_mac,
}
use tsn_fieldbus.L2.Cycle.Laws.{handle_input_packet_padding}
use tsn_fieldbus.StreamStore.{StreamEntry, StreamStore}
use tsn_fieldbus.L2Handler.Timing.{is_due}
use tsn_fieldbus.L2Handler.Accepted.{IsAccepted, accept_frame}
use tsn_fieldbus.L2Handler.Link.{tagged_frame, tagged_frame-IsAccepted}
use mathlib.Core.List.{append-nil}

-- The receiver takes a stream with this content, knows the secret and is behind
-- the sender's number, which has room.
pub record IsReady (id : ℕ) (sender receiver : StreamStore) (stream_map : Table ℕ StreamConfig)
    (es : StreamEntry) (content : Position) : Type 0 where
  pub er : StreamEntry
  pub input : StreamConfig
  pub room : es.sequence_number ≤ u64_max
  pub known : get id receiver.streams ≡ some er
  pub secret : receiver.shared_secret ≡ sender.shared_secret
  pub behind : er.sequence_number < es.sequence_number
  pub configured : get id stream_map ≡ some input
  pub placed : input.stream_content ≡ some content

module _ (b : Blake3) {S : Type 0} (image : ProcessImageAccess S) where
  -- An accepted frame is written.
  accept_frame-IsAccepted :
      (stream_map : Table ℕ StreamConfig) (store : StreamStore) (hw : S) (frame : List ℕ)
      → (a : IsAccepted b stream_map store frame)
      → (accept_frame image b stream_map store hw frame).1
        ≡ (handle_input_packet image hw a.stream a.parsed.payload).0
  unfolding accept_frame
  accept_frame-IsAccepted stream_map store hw frame a =
      rw (a.parses, a.configured, a.authentic, a.healthy) refl

  -- A tagged frame without an error is written as the content, at a receiver that is ready.
  pub tagged_frame-written :
      (sender receiver : StreamStore) (stream_map : Table ℕ StreamConfig) (es : StreamEntry)
      (content : Position) (source destination : MacAddr) (vlan : ℕ) (h : L2Header)
      (payload : List ℕ) (hw : S)
      → IsReady h.stream_id sender receiver stream_map es content
      → vlan < 256 ^ 2
      → IsL2Header h
      → h.status ≡ status_code_number no_error
      → length payload ≡ bit_len_to_byte_len content.bit_len
      → (accept_frame image b stream_map receiver hw
          (tagged_frame b sender es source destination vlan h payload)).1
        ≡ (image.write_inputs hw payload content).0
  tagged_frame-written sender receiver stream_map es content source destination vlan h payload hw
        ready hv hh healthy fits =
      let frame : List ℕ = tagged_frame b sender es source destination vlan h payload in
      let (a, input, read) =
        tagged_frame-IsAccepted b sender receiver es ready.er source destination vlan h payload
          stream_map ready.input hv hh ready.room ready.known ready.secret ready.behind
          ready.configured healthy in
      accept_frame-IsAccepted stream_map receiver hw frame a
      ∙ ap (λ x. (handle_input_packet image hw x a.parsed.payload).0) input
      ∙ ap (λ x. (handle_input_packet image hw ready.input x.payload).0) read
      ∙ ap (λ x. (handle_input_packet image hw ready.input x).0) (sym (append-nil payload))
      ∙ ap (λ x. x.0)
          (handle_input_packet_padding image hw ready.input content payload [] ready.placed fits)
