-- ===== src/L2Handler/Link.antt =====
-- The frames that the senders of slave/src/l2_handler.rs and master/src/l2_handler.rs build, at a
-- receiver that shares the secret.
use tsn_fieldbus.Base.{
  nat_eq, ℕ, ◌<◌, ◌≤◌, ◌^◌, ◌≡◌, refl, ap, arith, List, some, true, ok, u64_max,
}
use tsn_fieldbus.Base.Table.{Table, get, insert}
use tsn_fieldbus.Proto.{status_code_number, no_error, StreamConfig}
use tsn_fieldbus.Mac.{MacAddr}
use tsn_fieldbus.Security.Crypto.{Blake3, calculate_hmac}
use tsn_fieldbus.Security.Crypto.Compare.{calculate_hmac-IsBytes}
use tsn_fieldbus.Security.Footer.{SecurityFooter}
use tsn_fieldbus.Security.Footer.Laws.{IsFooter}
use tsn_fieldbus.L2.Header.{L2Header}
use tsn_fieldbus.L2.Header.Laws.{IsL2Header}
use tsn_fieldbus.L2.Frame.{ParsedL2Frame, build_l2_frame, parse_l2_frame}
use tsn_fieldbus.L2.Frame.Laws.{parse-build}
use tsn_fieldbus.StreamStore.{StreamEntry, StreamStore, tag_parts, validate_stream_tag}
use tsn_fieldbus.StreamStore.Tags.{validate_stream_tag_known}
use tsn_fieldbus.L2Handler.Accepted.{IsAccepted}

module _ (b : Blake3) where
  -- The frame that a sender builds for a message, with its tag and number.
  abbrev pub tagged_frame :
      StreamStore → StreamEntry → MacAddr → MacAddr → ℕ → L2Header → List ℕ → List ℕ
  tagged_frame sender es source destination vlan h payload =
      build_l2_frame source destination vlan h payload (record {
        sequence_number = es.sequence_number;
        auth_tag = calculate_hmac b sender.shared_secret (tag_parts h payload es.sequence_number);
      })

  -- What the receiver reads in it.
  abbrev pub read_frame :
      StreamStore → StreamEntry → MacAddr → MacAddr → ℕ → L2Header → List ℕ → ParsedL2Frame
  read_frame sender es source destination vlan h payload = record {
    destination = destination;
    source = source;
    vlan_id_pcp = vlan;
    header = h;
    payload = payload;
    sequence_number = es.sequence_number;
    auth_tag = calculate_hmac b sender.shared_secret (tag_parts h payload es.sequence_number);
  }

  pub parse-tagged_frame :
      (sender : StreamStore) (es : StreamEntry) (source destination : MacAddr) (vlan : ℕ)
      (h : L2Header) (payload : List ℕ)
      → vlan < 256 ^ 2
      → IsL2Header h
      → es.sequence_number ≤ u64_max
      → parse_l2_frame (tagged_frame sender es source destination vlan h payload)
        ≡ ok (read_frame sender es source destination vlan h payload)
  parse-tagged_frame sender es source destination vlan h payload hv hh room =
      let tag : List ℕ =
        calculate_hmac b sender.shared_secret (tag_parts h payload es.sequence_number) in
      let footer : SecurityFooter = record {
        sequence_number = es.sequence_number;
        auth_tag = tag;
      } in
      let fits : IsFooter footer = record {
        sequence_u64 = omega arith;
        tag_length =
            (calculate_hmac-IsBytes b sender.shared_secret
              (tag_parts h payload es.sequence_number)).0;
      } in
      parse-build source destination vlan h payload footer hv hh fits

  -- A receiver that knows the stream and the secret, and is behind the sender's number, accepts the tag.
  pub tagged_frame-validates :
      (sender receiver : StreamStore) (es er : StreamEntry) (h : L2Header) (payload : List ℕ)
      → get h.stream_id receiver.streams ≡ some er
      → receiver.shared_secret ≡ sender.shared_secret
      → er.sequence_number < es.sequence_number
      → validate_stream_tag b receiver h payload es.sequence_number
          (calculate_hmac b sender.shared_secret (tag_parts h payload es.sequence_number))
        ≡ (
          record receiver {
            streams =
                insert h.stream_id
                  (record er { sequence_number = es.sequence_number })
                  receiver.streams;
          },
          ok true,
        )
  tagged_frame-validates sender receiver es er h payload known secret behind =
      let n : ℕ = es.sequence_number in
      let tag : List ℕ = calculate_hmac b sender.shared_secret (tag_parts h payload n) in
      let (accept, _) =
        validate_stream_tag_known b receiver h payload n tag er known
          (calculate_hmac-IsBytes b sender.shared_secret (tag_parts h payload n)).0 in
      let same : calculate_hmac b receiver.shared_secret (tag_parts h payload n) ≡ tag =
        rw secret in
      accept behind same

  -- Then it accepts the frame, if that reports no error.
  pub tagged_frame-IsAccepted :
      (sender receiver : StreamStore) (es er : StreamEntry) (source destination : MacAddr)
      (vlan : ℕ) (h : L2Header) (payload : List ℕ) (stream_map : Table ℕ StreamConfig)
      (stream : StreamConfig)
      → vlan < 256 ^ 2
      → IsL2Header h
      → es.sequence_number ≤ u64_max
      → get h.stream_id receiver.streams ≡ some er
      → receiver.shared_secret ≡ sender.shared_secret
      → er.sequence_number < es.sequence_number
      → get h.stream_id stream_map ≡ some stream
      → h.status ≡ status_code_number no_error
      → (a : IsAccepted b stream_map receiver
          (tagged_frame sender es source destination vlan h payload))
        × (a.stream ≡ stream)
        × (a.parsed ≡ read_frame sender es source destination vlan h payload)
  tagged_frame-IsAccepted sender receiver es er source destination vlan h payload stream_map stream
        hv hh room known secret behind configured healthy =
      (
        record {
          parsed = read_frame sender es source destination vlan h payload;
          stream = stream;
          parses = parse-tagged_frame sender es source destination vlan h payload hv hh room;
          configured = configured;
          authentic =
              ap (λ r. r.1)
                (tagged_frame-validates sender receiver es er h payload known secret behind);
          healthy = healthy;
        },
        refl,
        refl,
      )
