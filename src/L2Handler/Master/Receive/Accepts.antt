-- ===== src/L2Handler/Master/Receive/Accepts.antt =====
-- Which frames the master's receiver lets through to the process image.
use tsn_fieldbus.Base.{
  nat_eq, ℕ, ◌<◌, ◌≡◌, ◌≢◌, ◌⊎◌, inl, inr, refl, ◌∙◌, ap, arith, List, some, Bool, true, false, ok,
  err, Bool-cases, Option-cases, Result-cases, ◌==◌, Result,
}
use tsn_fieldbus.Base.Table.{Table, get}
use tsn_fieldbus.Proto.{DeviceState, StatusCode, status_code_number, no_error, StreamConfig}
use tsn_fieldbus.Security.Crypto.{Blake3, calculate_hmac}
use tsn_fieldbus.L2.Frame.{ParsedL2Frame, parse_l2_frame}
use tsn_fieldbus.L2.Cycle.{ProcessImageAccess}
use tsn_fieldbus.StreamStore.{StreamEntry, StreamStore, tag_parts, validate_stream_tag}
use tsn_fieldbus.L2Handler.Accepted.{IsAccepted, IsAccepted-authentic, accept_frame, write_checked}
use tsn_fieldbus.L2Handler.Master.Controller.{Controller}
use tsn_fieldbus.L2Handler.Master.Receive.{MasterReceiver, handle_frame}
use tsn_fieldbus.L2Handler.Master.Receive.Refines.{master_handle_frame-refines}

module _ {S : Type 0} (image : ProcessImageAccess S) where
  write_checked-cases :
      (stream : StreamConfig) (p : ParsedL2Frame) (hw : S) (store : StreamStore)
      (v : Result StatusCode Bool)
      → ((v ≡ ok true) × (p.header.status ≡ status_code_number no_error))
        ⊎ ((write_checked image stream p hw (store, v)).1 ≡ hw)
  write_checked-cases stream p hw store (ok true) =
      elim (Bool-cases (p.header.status == status_code_number no_error)) [
        | inl healthy ↦ inl (refl, ground arith)
        | inr bad ↦ inr (ground arith)
      ]
  write_checked-cases stream p hw store (ok false) = inr refl
  write_checked-cases stream p hw store (err code) = inr refl

  module _ (b : Blake3) (stream_map : Table ℕ StreamConfig) (store : StreamStore) (hw : S)
      (frame : List ℕ) where
    -- A frame that is not accepted leaves the process image alone.
    accept_frame-cases :
        IsAccepted b stream_map store frame
        ⊎ ((accept_frame image b stream_map store hw frame).1 ≡ hw)
    unfolding accept_frame
    accept_frame-cases = elim (Result-cases (parse_l2_frame frame)) [
      | inr (code, bad) ↦ inr (rw bad refl)
      | inl (p, parses) ↦ elim (Option-cases (get p.header.stream_id stream_map)) [
        | inl unknown ↦ inr (rw (parses, unknown) refl)
        | inr (stream, configured) ↦
            let v : StreamStore × Result StatusCode Bool =
              validate_stream_tag b store p.header p.payload p.sequence_number p.auth_tag in
            elim (write_checked-cases stream p hw v.0 v.1) [
              | inl (authentic, healthy) ↦ inl (record {
                parsed = p;
                stream = stream;
                parses = parses;
                configured = configured;
                authentic = authentic;
                healthy = healthy;
              })
              | inr same ↦ inr (rw (parses, configured) same)
            ]
      ]
    ]

module _ (b : Blake3) {S : Type 0} (image : ProcessImageAccess S) where
  -- The process image of the master changes only on a frame that parses, names an input stream, reports
  -- no error and carries the tag of that stream under the shared secret with a number above the last
  -- accepted one.
  pub master_handle_frame-authentic :
      (state : DeviceState) (r : MasterReceiver) (c : Controller S) (now : ℕ) (frame : List ℕ)
      → (handle_frame image b state r c now frame).1.process_image ≢ c.process_image
      → (p : ParsedL2Frame) × (stream : StreamConfig) × (entry : StreamEntry) × (parse_l2_frame
            frame
          ≡ ok p)
        × (get p.header.stream_id r.stream_map ≡ some stream)
        × (p.header.status ≡ status_code_number no_error)
        × (get p.header.stream_id c.stream_store.streams ≡ some entry)
        × (entry.sequence_number < p.sequence_number)
        × (calculate_hmac b c.stream_store.shared_secret
              (tag_parts p.header p.payload p.sequence_number)
            ≡ p.auth_tag)
  master_handle_frame-authentic state r c now frame changed =
      elim (accept_frame-cases image b r.stream_map c.stream_store c.process_image frame) [
        | inr same ↦ absurd (
            changed
              (ap (λ x. x.1) (master_handle_frame-refines image state r now b c frame) ∙ same))
        | inl a ↦
            let (entry, known, fresh, tagged) =
              IsAccepted-authentic b r.stream_map c.stream_store frame a in
            (a.parsed, a.stream, entry, a.parses, a.configured, a.healthy, known, fresh, tagged)
      ]
