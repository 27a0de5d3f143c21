-- ===== src/L2Handler/Slave/Receive/Refines.antt =====
-- The slave's receiver does to the streams and the process image what `accept_frame` does.
use tsn_fieldbus.Base.{
  arith, nat_eq, ℕ, ◌≡◌, refl, List, Option, none, some, Bool, true, false, Result, ok, err,
  Bool-cases, inl, inr, ◌==◌,
}
use tsn_fieldbus.Base.Table.{get}
use tsn_fieldbus.Proto.{StatusCode, status_code_number, no_error, StreamConfig}
use tsn_fieldbus.Security.Crypto.{Blake3}
use tsn_fieldbus.L2.Frame.{ParsedL2Frame, parse_l2_frame}
use tsn_fieldbus.L2.Cycle.{ProcessImageAccess}
use tsn_fieldbus.StreamStore.{StreamStore, validate_stream_tag}
use tsn_fieldbus.L2Handler.Accepted.{write_checked, write_stream, write_parsed, accept_frame}
use tsn_fieldbus.L2Handler.Slave.Device.{Device, report}
use tsn_fieldbus.L2Handler.Slave.Receive.{
  SlaveReceiver, on_validated, on_stream, on_parsed, handle_frame,
}
use tsn_fieldbus.L2Handler.Slave.Receive.Reports.{process_frame-image}

-- What the receiver changes besides its own memory and the status.
abbrev effect : {S : Type 0} → SlaveReceiver × Device S → StreamStore × S
effect out = (out.1.stream_store, out.1.process_image)

module _ {S : Type 0} (image : ProcessImageAccess S) (r : SlaveReceiver) (now timestamp : ℕ) where
  on_validated-effect :
      (stream : StreamConfig) (p : ParsedL2Frame) (d : Device S) (store : StreamStore)
      (v : Result StatusCode Bool)
      → effect (on_validated image r stream p now timestamp (record d { stream_store = store }) v)
        ≡ write_checked image stream p d.process_image (store, v)
  unfolding on_validated report
  on_validated-effect stream p d store (ok true) =
      let (put, kept) =
        process_frame-image image r (record d { stream_store = store }) stream p now timestamp in
      elim (Bool-cases (p.header.status == status_code_number no_error)) [
        | inl healthy ↦ rw healthy (rw (put, kept) refl)
        | inr bad ↦ rw bad refl
      ]
  on_validated-effect stream p d store (ok false) = refl
  on_validated-effect stream p d store (err code) = refl

  module _ (b : Blake3) where
    on_stream-effect :
        (p : ParsedL2Frame) (d : Device S) (known : Option StreamConfig)
        → effect (on_stream image b r d p now timestamp known)
          ≡ write_stream image b p d.stream_store d.process_image known
    unfolding on_stream report
    on_stream-effect p d none = refl
    on_stream-effect p d (some stream) =
        let v : StreamStore × Result StatusCode Bool =
          validate_stream_tag b d.stream_store p.header p.payload p.sequence_number p.auth_tag in
        on_validated-effect stream p d v.0 v.1

    on_parsed-effect :
        (d : Device S) (result : Result StatusCode ParsedL2Frame)
        → effect (on_parsed image b r d now timestamp result)
          ≡ write_parsed image b r.stream_map d.stream_store d.process_image result
    unfolding on_parsed report
    on_parsed-effect d (ok p) = on_stream-effect p d (get p.header.stream_id r.stream_map)
    on_parsed-effect d (err code) = ground arith

    -- The slave's receiver changes the streams and the process image as `accept_frame` does.
    pub handle_frame-refines :
        (d : Device S) (frame : List ℕ)
        → let out = (handle_frame image b r d now timestamp frame).1 in
          (out.stream_store, out.process_image)
          ≡ accept_frame image b r.stream_map d.stream_store d.process_image frame
    unfolding handle_frame accept_frame
    handle_frame-refines d frame = on_parsed-effect d (parse_l2_frame frame)
