-- ===== src/L2Handler/Slave/Receive/Errors.antt =====
-- The error that the slave's receiver reports for a frame.
use tsn_fieldbus.Base.{nat_eq, ℕ, ◌≡◌, ◌≢◌, refl, arith, List, none, some, true, ok, err}
use tsn_fieldbus.Base.Table.{get}
use tsn_fieldbus.Proto.{
  StatusCode, status_code_number, no_error, StreamConfig, err_frame_parsing, err_invalid_ethertype,
  err_stream_id_unknown, err_frame_with_error_status,
}
use tsn_fieldbus.Security.Crypto.{Blake3}
use tsn_fieldbus.L2.Frame.{ParsedL2Frame, parse_l2_frame}
use tsn_fieldbus.L2.Cycle.{ProcessImageAccess}
use tsn_fieldbus.StreamStore.{StreamStore, validate_stream_tag}
use tsn_fieldbus.L2Handler.Slave.Device.{Device, report}
use tsn_fieldbus.L2Handler.Slave.Receive.{
  SlaveReceiver, handle_frame, on_parsed, on_stream, on_validated,
}

module _ {S : Type 0} (image : ProcessImageAccess S) (b : Blake3) where
  -- A frame of another protocol changes nothing. One that does not parse, one of no input stream, and
  -- an authentic one that carries an error are each reported under their own code, and none of them is
  -- written to the process image.
  pub handle_frame-reports :
      (r : SlaveReceiver) (d : Device S) (now timestamp : ℕ) (frame : List ℕ)
      → let out = handle_frame image b r d now timestamp frame in
        (parse_l2_frame frame ≡ err err_invalid_ethertype → out ≡ (r, d))
        × ((code : StatusCode)
            → parse_l2_frame frame ≡ err code
            → code ≢ err_invalid_ethertype
            → out ≡ (r, report err_frame_parsing d))
        × ((p : ParsedL2Frame)
            → parse_l2_frame frame ≡ ok p
            → get p.header.stream_id r.stream_map ≡ none
            → out ≡ (r, report err_stream_id_unknown d))
        × ((p : ParsedL2Frame) (stream : StreamConfig) (store : StreamStore)
            → parse_l2_frame frame ≡ ok p
            → get p.header.stream_id r.stream_map ≡ some stream
            → validate_stream_tag b d.stream_store p.header p.payload p.sequence_number p.auth_tag
              ≡ (store, ok true)
            → p.header.status ≢ status_code_number no_error
            → out ≡ (r, report err_frame_with_error_status (record d { stream_store = store })))
  unfolding handle_frame on_parsed on_stream on_validated
  handle_frame-reports r d now timestamp frame = (
    λ e. rw (e, on_parsed) refl,
    λ code e other. rw (e, on_parsed) (ground arith),
    λ p e unknown. rw (e, unknown) refl,
    λ p stream store e known good bad. rw (e, known, good) (ground arith),
  )
