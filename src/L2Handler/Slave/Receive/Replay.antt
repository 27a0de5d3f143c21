-- ===== src/L2Handler/Slave/Receive/Replay.antt =====
-- No frame is taken twice by the slave's receiver, whatever frames come in between.
use tsn_fieldbus.Base.{
  nat_eq, ℕ, ◌≤◌, ◌≡◌, refl, sym, subst, ◌∙◌, ap, arith, List, [], ◌∷◌, Option, none, some, Bool,
  true, false, ok, err, Result, Bool-cases, inl, inr, ◌==◌, ◌&&◌,
}
use tsn_fieldbus.Base.Table.{Table, get}
use tsn_fieldbus.Proto.{StatusCode, status_code_number, no_error, StreamConfig, err_auth_failed}
use tsn_fieldbus.Security.Crypto.{Blake3}
use tsn_fieldbus.L2.Frame.{ParsedL2Frame, parse_l2_frame}
use tsn_fieldbus.L2.Cycle.{ProcessImageAccess}
use tsn_fieldbus.StreamStore.{StreamEntry, StreamStore, validate_stream_tag}
use tsn_fieldbus.StreamStore.Tags.{validate_stream_tag_advances, validate_stream_tag_stale}
use tsn_fieldbus.StreamStore.Replay.{Message, validate-step, is_accepted}
use tsn_fieldbus.L2Handler.Accepted.{
  IsAccepted, accept_frame, write_checked, write_stream, write_parsed,
}
use tsn_fieldbus.L2Handler.Slave.Device.{Device, report}
use tsn_fieldbus.L2Handler.Slave.Receive.{
  SlaveReceiver, record_receive, process_frame, on_validated, on_stream, on_parsed, handle_frame,
}
use tsn_fieldbus.L2Handler.Slave.Receive.Accepts.{handle_frame-accepted, handle_frame-refused}
use tsn_fieldbus.L2Handler.Slave.Receive.Reports.{code_of, process_frame-image, report-code}
use tsn_fieldbus.L2Handler.Slave.Receive.Refines.{handle_frame-refines}

-- A frame that arrives, with the readings of the clocks for it.
pub record Arrival : Type 0 where
  pub now : ℕ
  pub timestamp : ℕ
  pub frame : List ℕ

-- The stream has accepted the number `n`, or a later one.
abbrev HasPassed : ℕ → ℕ → StreamStore → Type 0
HasPassed id n store =
    (entry : StreamEntry) × (get id store.streams ≡ some entry) × (n ≤ entry.sequence_number)

module _ (b : Blake3) where
  validate-HasPassed :
      (id n : ℕ) (store : StreamStore) (p : ParsedL2Frame)
      → HasPassed id n store
      → HasPassed id n
          (validate_stream_tag b store p.header p.payload p.sequence_number p.auth_tag).0
  validate-HasPassed id n store p (entry, known, passed) =
      let m : Message = record {
        header = p.header;
        payload = p.payload;
        received = p.sequence_number;
        tag = p.auth_tag;
      } in
      let (moves, stays) = validate-step b id store m entry known in
      elim (Bool-cases (
        p.header.stream_id == id
        && is_accepted
            (validate_stream_tag b store p.header p.payload p.sequence_number p.auth_tag).1)) [
              | inl accepted ↦
                  let (above, at) = moves accepted in
                  (record entry { sequence_number = p.sequence_number }, at, omega arith)
              | inr other ↦ (entry, stays other, passed)
            ]

  module _ {S : Type 0} (image : ProcessImageAccess S) (id n : ℕ) where
    write_checked-store :
        (stream : StreamConfig) (p : ParsedL2Frame) (hw : S) (store : StreamStore)
        (v : Result StatusCode Bool)
        → (write_checked image stream p hw (store, v)).0 ≡ store
    write_checked-store stream p hw store (ok true) = ground arith
    write_checked-store stream p hw store (ok false) = refl
    write_checked-store stream p hw store (err code) = refl

    accept_frame-HasPassed :
        (stream_map : Table ℕ StreamConfig) (store : StreamStore) (hw : S) (frame : List ℕ)
        → HasPassed id n store
        → HasPassed id n (accept_frame image b stream_map store hw frame).0
    unfolding accept_frame
    accept_frame-HasPassed stream_map store hw frame h = of_parsed (parse_l2_frame frame)
      where
        of_stream :
            (p : ParsedL2Frame) (known : Option StreamConfig)
            → HasPassed id n (write_stream image b p store hw known).0
        of_stream p none = h
        of_stream p (some stream) =
            let v : StreamStore × Result StatusCode Bool =
              validate_stream_tag b store p.header p.payload p.sequence_number p.auth_tag in
            subst (HasPassed id n) (sym (write_checked-store stream p hw v.0 v.1))
              (validate-HasPassed id n store p h)

        of_parsed :
            (result : Result StatusCode ParsedL2Frame)
            → HasPassed id n (write_parsed image b stream_map store hw result).0
        of_parsed (ok p) = of_stream p (get p.header.stream_id stream_map)
        of_parsed (err code) = h

module _ {S : Type 0} (image : ProcessImageAccess S) where
  record_receive-map :
      (r : SlaveReceiver) (stream : StreamConfig) (previous : Option ℕ) (now : ℕ)
      → (record_receive r stream previous now).stream_map ≡ r.stream_map
  unfolding record_receive
  record_receive-map r stream none now = refl
  record_receive-map r stream (some previous) now = refl

  on_validated-map :
      (r : SlaveReceiver) (stream : StreamConfig) (p : ParsedL2Frame) (now timestamp : ℕ)
      (d : Device S) (v : Result StatusCode Bool)
      → (on_validated image r stream p now timestamp d v).0.stream_map ≡ r.stream_map
  unfolding on_validated process_frame
  on_validated-map r stream p now timestamp d (ok true) =
      elim (Bool-cases (p.header.status == status_code_number no_error)) [
        | inl healthy ↦ rw healthy (record_receive-map _ stream _ now)
        | inr bad ↦ rw bad refl
      ]
  on_validated-map r stream p now timestamp d (ok false) = refl
  on_validated-map r stream p now timestamp d (err code) = refl

  module _ (b : Blake3) where
    on_stream-map :
        (r : SlaveReceiver) (d : Device S) (p : ParsedL2Frame) (now timestamp : ℕ)
        (known : Option StreamConfig)
        → (on_stream image b r d p now timestamp known).0.stream_map ≡ r.stream_map
    unfolding on_stream
    on_stream-map r d p now timestamp none = refl
    on_stream-map r d p now timestamp (some stream) = on_validated-map r stream p now timestamp _ _

    -- The configured streams stay.
    handle_frame-map :
        (r : SlaveReceiver) (d : Device S) (now timestamp : ℕ) (frame : List ℕ)
        → (handle_frame image b r d now timestamp frame).0.stream_map ≡ r.stream_map
    unfolding handle_frame on_parsed
    handle_frame-map r d now timestamp frame = of (parse_l2_frame frame)
      where
        of :
            (result : Result StatusCode ParsedL2Frame)
            → (on_parsed image b r d now timestamp result).0.stream_map ≡ r.stream_map
        of (ok p) = on_stream-map r d p now timestamp (get p.header.stream_id r.stream_map)
        of (err code) = ground arith

    -- Any frames, one after the other.
    abbrev pub handle_frames : List Arrival → SlaveReceiver → Device S → SlaveReceiver × Device S
    handle_frames [] r d = (r, d)
    handle_frames (x ∷ xs) r d =
        let out = handle_frame image b r d x.now x.timestamp x.frame in handle_frames xs out.0 out.1

    handle_frames-HasPassed :
        (id n : ℕ) (xs : List Arrival) (r : SlaveReceiver) (d : Device S)
        → HasPassed id n d.stream_store
        → HasPassed id n (handle_frames xs r d).1.stream_store
    handle_frames-HasPassed id n [] r d h = h
    handle_frames-HasPassed id n (x ∷ xs) r d h =
        let out : SlaveReceiver × Device S = handle_frame image b r d x.now x.timestamp x.frame in
        handle_frames-HasPassed id n xs out.0 out.1 (
          subst (HasPassed id n)
            (sym (ap (λ y. y.0) (handle_frame-refines image r x.now x.timestamp b d x.frame)))
            (accept_frame-HasPassed b image id n r.stream_map d.stream_store d.process_image x.frame
              h))

    handle_frames-map :
        (xs : List Arrival) (r : SlaveReceiver) (d : Device S)
        → (handle_frames xs r d).0.stream_map ≡ r.stream_map
    handle_frames-map [] r d = refl
    handle_frames-map (x ∷ xs) r d =
        let out : SlaveReceiver × Device S = handle_frame image b r d x.now x.timestamp x.frame in
        handle_frames-map xs out.0 out.1 ∙ handle_frame-map r d x.now x.timestamp x.frame

    -- A frame that was accepted is never taken again, whatever frames come in between: it is reported
    -- as not authentic, and the process image and the streams stay as they are.
    pub handle_frames-replay :
        (r : SlaveReceiver) (d : Device S) (x again : Arrival) (between : List Arrival)
        → IsAccepted b r.stream_map d.stream_store x.frame
        → again.frame ≡ x.frame
        → let before = handle_frames (x ∷ between) r d in
          let after =
            handle_frame image b before.0 before.1 again.now again.timestamp again.frame in
          (after.1.process_image ≡ before.1.process_image)
          × (after.1.stream_store ≡ before.1.stream_store)
          × (code_of after.1 ≡ status_code_number err_auth_failed)
    unfolding report
    handle_frames-replay r d x again between a same =
        let p : ParsedL2Frame = a.parsed in
        let v : StreamStore × Result StatusCode Bool =
          validate_stream_tag b d.stream_store p.header p.payload p.sequence_number p.auth_tag in
        let first : SlaveReceiver × Device S = handle_frame image b r d x.now x.timestamp x.frame in
        let store : first.1.stream_store ≡ v.0 =
          ap (λ y. y.1.stream_store) (handle_frame-accepted b image r d x.now x.timestamp x.frame a)
          ∙ (process_frame-image image r (record d { stream_store = v.0 }) a.stream p x.now
              x.timestamp).1 in
        let (entry, last, known) =
          validate_stream_tag_advances b d.stream_store p.header p.payload p.sequence_number
            p.auth_tag a.authentic in
        let passed : HasPassed p.header.stream_id p.sequence_number first.1.stream_store =
          subst (HasPassed p.header.stream_id p.sequence_number) (sym store)
            (entry, known, omega arith) in
        let before : SlaveReceiver × Device S = handle_frames between first.0 first.1 in
        let (entry', known', passed') =
          handle_frames-HasPassed p.header.stream_id p.sequence_number between first.0 first.1
            passed in
        rw
          (handle_frame-refused b image before.0 before.1 again.now again.timestamp again.frame p
            a.stream (ap parse_l2_frame same ∙ a.parses)
            (ap (get p.header.stream_id) (
                handle_frames-map between first.0 first.1
                ∙ handle_frame-map r d x.now x.timestamp x.frame)
              ∙ a.configured)
            (validate_stream_tag_stale b before.1.stream_store p.header p.payload p.sequence_number
              p.auth_tag entry' known' passed'))
          (refl, refl, report-code err_auth_failed before.1)
