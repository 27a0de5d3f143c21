-- ===== src/L2Handler/Accepted.antt =====
-- The frames that the receivers of slave/src/l2_handler.rs and master/src/l2_handler.rs let through.
use tsn_fieldbus.Base.{
  nat_eq, ℕ, ◌<◌, ◌≡◌, List, Option, none, some, Bool, true, false, ok, err, Result, ◌==◌,
  if◌then◌else◌,
}
use tsn_fieldbus.Base.Table.{Table, get}
use tsn_fieldbus.Proto.{StatusCode, status_code_number, no_error, StreamConfig}
use tsn_fieldbus.Security.Crypto.{Blake3, calculate_hmac}
use tsn_fieldbus.L2.Frame.{ParsedL2Frame, parse_l2_frame}
use tsn_fieldbus.L2.Cycle.{ProcessImageAccess, handle_input_packet}
use tsn_fieldbus.L2.Frame.Laws.{parse-tag_length}
use tsn_fieldbus.StreamStore.{StreamEntry, StreamStore, tag_parts, validate_stream_tag}
use tsn_fieldbus.StreamStore.Tags.{validate_stream_tag_iff}

module _ (b : Blake3) where
  -- The frame parses, names an input stream, carries the stream's tag under the shared secret with a
  -- number that was not seen before, and reports no error.
  pub record IsAccepted (stream_map : Table ℕ StreamConfig) (store : StreamStore) (frame : List ℕ)
      : Type 0 where
    pub parsed : ParsedL2Frame
    pub stream : StreamConfig
    pub parses : parse_l2_frame frame ≡ ok parsed
    pub configured : get parsed.header.stream_id stream_map ≡ some stream
    pub authentic :
        (validate_stream_tag b store parsed.header parsed.payload parsed.sequence_number
          parsed.auth_tag).1
        ≡ ok true
    pub healthy : parsed.header.status ≡ status_code_number no_error

  -- What an accepted frame is known by.
  pub IsAccepted-authentic :
      (stream_map : Table ℕ StreamConfig) (store : StreamStore) (frame : List ℕ)
      → (a : IsAccepted stream_map store frame)
      → let p = a.parsed in
        (entry : StreamEntry) × (get p.header.stream_id store.streams ≡ some entry)
        × (entry.sequence_number < p.sequence_number)
        × (calculate_hmac b store.shared_secret (tag_parts p.header p.payload p.sequence_number)
            ≡ p.auth_tag)
  IsAccepted-authentic stream_map store frame a =
      let p : ParsedL2Frame = a.parsed in
      (validate_stream_tag_iff b store p.header p.payload p.sequence_number p.auth_tag
          (parse-tag_length frame p a.parses)).0
        a.authentic

-- How a frame changes the streams and the process image, on either side: what the two receivers have in
-- common besides their own memory and what they report.
module _ {S : Type 0} (image : ProcessImageAccess S) where
  abbrev pub write_checked :
      StreamConfig → ParsedL2Frame → S → StreamStore × Result StatusCode Bool → StreamStore × S
  write_checked stream p hw (store, ok true) =
      if p.header.status == status_code_number no_error
      then (store, (handle_input_packet image hw stream p.payload).0)
      else (store, hw)
  write_checked stream p hw (store, ok false) = (store, hw)
  write_checked stream p hw (store, err code) = (store, hw)

  module _ (b : Blake3) where
    abbrev pub write_stream :
        ParsedL2Frame → StreamStore → S → Option StreamConfig → StreamStore × S
    write_stream p store hw none = (store, hw)
    write_stream p store hw (some stream) =
        write_checked stream p hw
          (validate_stream_tag b store p.header p.payload p.sequence_number p.auth_tag)

    abbrev pub write_parsed :
        Table ℕ StreamConfig → StreamStore → S → Result StatusCode ParsedL2Frame → StreamStore × S
    write_parsed stream_map store hw (ok p) =
        write_stream p store hw (get p.header.stream_id stream_map)
    write_parsed stream_map store hw (err code) = (store, hw)

    unfoldable pub accept_frame : Table ℕ StreamConfig → StreamStore → S → List ℕ → StreamStore × S
    accept_frame stream_map store hw frame = write_parsed stream_map store hw (parse_l2_frame frame)
