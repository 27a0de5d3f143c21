-- ===== src/L2Handler/Master/Receive/Refines.antt =====
-- The master's receiver does to the streams and the process image what `accept_frame` does.
use tsn_fieldbus.Base.{
  arith, nat_eq, ℕ, ◌≡◌, refl, List, Option, none, some, Bool, true, false, Result, ok, err,
  Bool-cases, inl, inr, ◌==◌,
}
use tsn_fieldbus.Base.Table.{get}
use tsn_fieldbus.Proto.{StatusCode, DeviceState, status_code_number, no_error, StreamConfig}
use tsn_fieldbus.Security.Crypto.{Blake3}
use tsn_fieldbus.L2.Frame.{ParsedL2Frame, parse_l2_frame}
use tsn_fieldbus.L2.Cycle.{ProcessImageAccess}
use tsn_fieldbus.StreamStore.{StreamStore, validate_stream_tag}
use tsn_fieldbus.L2Handler.Accepted.{write_checked, write_stream, write_parsed, accept_frame}
use tsn_fieldbus.L2Handler.Master.Controller.{Controller}
use tsn_fieldbus.L2Handler.Master.Receive.{
  MasterReceiver, process_frame, on_validated, on_stream, on_parsed, handle_frame,
}

-- What the receiver changes besides its own memory and the status.
abbrev effect : {S : Type 0} → MasterReceiver × Controller S → StreamStore × S
effect out = (out.1.stream_store, out.1.process_image)

module _ {S : Type 0} (image : ProcessImageAccess S) (state : DeviceState) (r : MasterReceiver)
    (now : ℕ) where
  on_validated-effect :
      (stream : StreamConfig) (p : ParsedL2Frame) (c : Controller S) (store : StreamStore)
      (v : Result StatusCode Bool)
      → effect (on_validated image state r stream p now (record c { stream_store = store }) v)
        ≡ write_checked image stream p c.process_image (store, v)
  unfolding on_validated
  on_validated-effect stream p c store (ok true) =
      elim (Bool-cases (p.header.status == status_code_number no_error)) [
        | inl healthy ↦ rw (healthy, process_frame) refl
        | inr bad ↦ rw bad refl
      ]
  on_validated-effect stream p c store (ok false) = refl
  on_validated-effect stream p c store (err code) = refl

  module _ (b : Blake3) where
    on_stream-effect :
        (p : ParsedL2Frame) (c : Controller S) (known : Option StreamConfig)
        → effect (on_stream image b state r c p now known)
          ≡ write_stream image b p c.stream_store c.process_image known
    unfolding on_stream
    on_stream-effect p c none = refl
    on_stream-effect p c (some stream) =
        let v : StreamStore × Result StatusCode Bool =
          validate_stream_tag b c.stream_store p.header p.payload p.sequence_number p.auth_tag in
        on_validated-effect stream p c v.0 v.1

    on_parsed-effect :
        (c : Controller S) (result : Result StatusCode ParsedL2Frame)
        → effect (on_parsed image b state r c now result)
          ≡ write_parsed image b r.stream_map c.stream_store c.process_image result
    unfolding on_parsed
    on_parsed-effect c (ok p) = on_stream-effect p c (get p.header.stream_id r.stream_map)
    on_parsed-effect c (err code) = ground arith

    -- The master's receiver changes the streams and the process image as `accept_frame` does.
    pub master_handle_frame-refines :
        (c : Controller S) (frame : List ℕ)
        → let out = (handle_frame image b state r c now frame).1 in
          (out.stream_store, out.process_image)
          ≡ accept_frame image b r.stream_map c.stream_store c.process_image frame
    unfolding handle_frame accept_frame
    master_handle_frame-refines c frame = on_parsed-effect c (parse_l2_frame frame)
