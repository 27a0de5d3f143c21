-- ===== src/L2Handler/Slave/Receive/Accepts.antt =====
-- Which frames the slave's receiver lets through to the process image.
use tsn_fieldbus.Base.{
  nat_eq, ℕ, ◌<◌, ◌≡◌, ◌≢◌, ◌⊎◌, inl, inr, refl, arith, List, Option, none, some, Bool, true, false,
  ok, err, Bool-cases, Option-cases, Result-cases, ◌==◌, Result,
}
use tsn_fieldbus.Base.Table.{get}
use tsn_fieldbus.Proto.{StatusCode, status_code_number, no_error, StreamConfig, err_auth_failed}
use tsn_fieldbus.Security.Crypto.{Blake3, calculate_hmac}
use tsn_fieldbus.L2.Frame.{ParsedL2Frame, parse_l2_frame}
use tsn_fieldbus.L2.Cycle.{ProcessImageAccess}
use tsn_fieldbus.StreamStore.{StreamEntry, StreamStore, tag_parts, validate_stream_tag}
use tsn_fieldbus.L2Handler.Accepted.{IsAccepted, IsAccepted-authentic}
use tsn_fieldbus.L2Handler.Slave.Device.{Device, report}
use tsn_fieldbus.L2Handler.Slave.Receive.{
  SlaveReceiver, process_frame, handle_frame, on_parsed, on_stream, on_validated,
}

module _ (b : Blake3) {S : Type 0} (image : ProcessImageAccess S) where
  on_parsed_image :
      (r : SlaveReceiver) (d : Device S) (now timestamp : ℕ) (code : StatusCode)
      → (on_parsed image b r d now timestamp (err code)).1.process_image ≡ d.process_image
  unfolding on_parsed report
  on_parsed_image r d now timestamp code = ground arith

  -- An accepted frame is processed, on the store that the check of its tag leaves.
  pub handle_frame-accepted :
      (r : SlaveReceiver) (d : Device S) (now timestamp : ℕ) (frame : List ℕ)
      → (a : IsAccepted b r.stream_map d.stream_store frame)
      → handle_frame image b r d now timestamp frame
        ≡ process_frame image r
            (record d {
              stream_store =
                  (validate_stream_tag b d.stream_store a.parsed.header a.parsed.payload
                    a.parsed.sequence_number a.parsed.auth_tag).0;
            })
            a.stream
            a.parsed
            now
            timestamp
  unfolding handle_frame on_parsed on_stream on_validated
  handle_frame-accepted r d now timestamp frame a =
      rw (a.parses, a.configured, a.authentic) (ground (arith, a.healthy))

  -- A frame whose tag is refused is reported as such.
  pub handle_frame-refused :
      (r : SlaveReceiver) (d : Device S) (now timestamp : ℕ) (frame : List ℕ) (p : ParsedL2Frame)
      (stream : StreamConfig)
      → parse_l2_frame frame ≡ ok p
      → get p.header.stream_id r.stream_map ≡ some stream
      → validate_stream_tag b d.stream_store p.header p.payload p.sequence_number p.auth_tag
        ≡ (d.stream_store, ok false)
      → handle_frame image b r d now timestamp frame ≡ (r, report err_auth_failed d)
  unfolding handle_frame on_parsed on_stream on_validated
  handle_frame-refused r d now timestamp frame p stream parses configured refused =
      rw (parses, configured, refused) refl

  on_validated_cases :
      (r : SlaveReceiver) (stream : StreamConfig) (parsed : ParsedL2Frame) (now timestamp : ℕ)
      (d : Device S) (v : Result StatusCode Bool)
      → ((v ≡ ok true) × (parsed.header.status ≡ status_code_number no_error))
        ⊎ ((on_validated image r stream parsed now timestamp d v).1.process_image ≡ d.process_image)
  unfolding on_validated report
  on_validated_cases r stream parsed now timestamp d (ok true) =
      elim (Bool-cases (parsed.header.status == status_code_number no_error)) [
        | inl zero_status ↦ inl (refl, ground arith)
        | inr bad ↦ inr (ground arith)
      ]
  on_validated_cases r stream parsed now timestamp d (ok false) = inr refl
  on_validated_cases r stream parsed now timestamp d (err code) = inr refl

  -- Any other frame leaves the process image alone.
  handle_frame-cases :
      (r : SlaveReceiver) (d : Device S) (now timestamp : ℕ) (frame : List ℕ)
      → IsAccepted b r.stream_map d.stream_store frame
        ⊎ ((handle_frame image b r d now timestamp frame).1.process_image ≡ d.process_image)
  unfolding handle_frame on_parsed on_stream
  handle_frame-cases r d now timestamp frame = elim (Result-cases (parse_l2_frame frame)) [
    | inr (code, bad) ↦ inr (rw bad (on_parsed_image r d now timestamp code))
    | inl (parsed, parses) ↦ elim (Option-cases (get parsed.header.stream_id r.stream_map)) [
      | inl unknown ↦ inr (at_stream parsed parses none unknown refl)
      | inr (stream, configured) ↦
          elim (on_validated_cases r stream parsed now timestamp
            (record d { stream_store = (checked parsed).0 }) (checked parsed).1) [
              | inl (authentic, healthy) ↦ inl (record {
                parsed = parsed;
                stream = stream;
                parses = parses;
                configured = configured;
                authentic = authentic;
                healthy = healthy;
              })
              | inr same ↦ inr (at_stream parsed parses (some stream) configured same)
            ]
    ]
  ]
    where
      checked : ParsedL2Frame → StreamStore × Result StatusCode Bool
      checked parsed =
          validate_stream_tag b d.stream_store parsed.header parsed.payload parsed.sequence_number
            parsed.auth_tag

      at_stream :
          (parsed : ParsedL2Frame)
          → parse_l2_frame frame ≡ ok parsed
          → (known : Option StreamConfig) → get parsed.header.stream_id r.stream_map ≡ known
          → (on_stream image b r d parsed now timestamp known).1.process_image ≡ d.process_image
          → (handle_frame image b r d now timestamp frame).1.process_image ≡ d.process_image
      at_stream parsed parses known found same = rw (parses, found) same

  -- The process image changes only on a frame that parses, names an input stream, reports no error and
  -- carries the tag of that stream under the shared secret with a number above the last accepted one.
  pub handle_frame-authentic :
      (r : SlaveReceiver) (d : Device S) (now timestamp : ℕ) (frame : List ℕ)
      → (handle_frame image b r d now timestamp frame).1.process_image ≢ d.process_image
      → (p : ParsedL2Frame) × (stream : StreamConfig) × (entry : StreamEntry) × (parse_l2_frame
            frame
          ≡ ok p)
        × (get p.header.stream_id r.stream_map ≡ some stream)
        × (p.header.status ≡ status_code_number no_error)
        × (get p.header.stream_id d.stream_store.streams ≡ some entry)
        × (entry.sequence_number < p.sequence_number)
        × (calculate_hmac b d.stream_store.shared_secret
              (tag_parts p.header p.payload p.sequence_number)
            ≡ p.auth_tag)
  handle_frame-authentic r d now timestamp frame changed =
      elim (handle_frame-cases r d now timestamp frame) [
        | inr same ↦ absurd (changed same)
        | inl a ↦
            let p : ParsedL2Frame = a.parsed in
            let (entry, known, fresh, tagged) =
              IsAccepted-authentic b r.stream_map d.stream_store frame a in
            (p, a.stream, entry, a.parses, a.configured, a.healthy, known, fresh, tagged)
      ]
