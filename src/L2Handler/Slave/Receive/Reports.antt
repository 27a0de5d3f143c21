-- ===== src/L2Handler/Slave/Receive/Reports.antt =====
-- What the slave's receiver reports, and that it takes no frame twice.
use tsn_fieldbus.Base.{
  nat_eq, ℕ, ◌≤◌, ◌≡◌, refl, ◌∙◌, ap, arith, List, Option, none, some, Bool, false, ok, err, Result,
  u32_max, saturating_add,
}
use tsn_fieldbus.Base.Table.{get}
use tsn_fieldbus.Proto.{
  StatusCode, status_code_number, StreamConfig, err_auth_failed, err_cycle_counter,
}
use tsn_fieldbus.Security.Crypto.{Blake3}
use tsn_fieldbus.L2.Frame.{ParsedL2Frame}
use tsn_fieldbus.L2.Cycle.{ProcessImageAccess, handle_input_packet}
use tsn_fieldbus.StreamStore.{StreamStore, validate_stream_tag}
use tsn_fieldbus.StreamStore.Tags.{validate_stream_tag_again}
use tsn_fieldbus.DeviceStatus.{
  DeviceStatusStore, increment_missed_cycles_by, update_receive_cycle_metrics,
}
use tsn_fieldbus.DeviceStatus.Fields.{update_status_code-fields, increment_missed_cycles_by-fields}
use tsn_fieldbus.L2Handler.Counter.{check_counter}
use tsn_fieldbus.L2Handler.Accepted.{IsAccepted}
use tsn_fieldbus.L2Handler.Slave.Device.{Device, report}
use tsn_fieldbus.L2Handler.Slave.Receive.{
  SlaveReceiver, process_frame, handle_frame, report_missed, publish_receive, publish_metrics,
  write_result,
}
use tsn_fieldbus.L2Handler.Slave.Receive.Accepts.{handle_frame-accepted, handle_frame-refused}

abbrev pub code_of : {S : Type 0} → Device S → ℕ
code_of d = d.status_store.current.status_code

module _ {S : Type 0} where
  pub report-code :
      (code : StatusCode) (d : Device S) → code_of (report code d) ≡ status_code_number code
  unfolding report
  report-code code d = (update_status_code-fields d.status_store code).0

  pub report-image :
      (code : StatusCode) (d : Device S) → (report code d).process_image ≡ d.process_image
  unfolding report
  report-image code d = refl

-- The code that the check of the counter leaves.
pub code_after_check : Option ℕ → ℕ → ℕ
code_after_check none before = before
code_after_check (some missed) before = status_code_number err_cycle_counter

-- How many cycles the check has found missed.
pub missed_count : Option ℕ → ℕ
missed_count none = 0
missed_count (some missed) = missed

report_missed-status :
    (missed : Option ℕ) (timestamp : ℕ) (s : DeviceStatusStore)
    → s.current.missed_cycles ≤ u32_max
    → let r = report_missed missed timestamp s in
      (r.current.missed_cycles
        ≡ saturating_add u32_max s.current.missed_cycles (missed_count missed))
      × (r.current.status_code ≡ code_after_check missed s.current.status_code)
unfolding report_missed missed_count code_after_check
report_missed-status none timestamp s h = (omega arith, refl)
report_missed-status (some missed) timestamp s h =
    let counted : DeviceStatusStore = increment_missed_cycles_by s missed timestamp in
    let (coded, kept) = update_status_code-fields counted err_cycle_counter in
    (kept ∙ (increment_missed_cycles_by-fields s missed timestamp h).0, coded)

publish_receive-status :
    (r : SlaveReceiver) (previous : Option ℕ) (timestamp : ℕ) (s : DeviceStatusStore)
    → let p = publish_receive r previous timestamp s in
      (p.current.missed_cycles ≡ s.current.missed_cycles)
      × (p.current.status_code ≡ s.current.status_code)
unfolding publish_receive publish_metrics update_receive_cycle_metrics
publish_receive-status r previous timestamp s = (ground arith, ground arith)

module _ {S : Type 0} (image : ProcessImageAccess S) where
  write_result-status :
      (d : Device S) (hw : S) (result : Result StatusCode (Unit {0}))
      → let w = write_result image d (hw, result) in
        (w.process_image ≡ hw)
        × (w.stream_store ≡ d.stream_store)
        × (w.status_store.current.missed_cycles ≡ d.status_store.current.missed_cycles)
        × (code_of w ≡ elim result [ ok _ ↦ code_of d | err code ↦ status_code_number code ])
  unfolding write_result report
  write_result-status d hw (ok _) = (refl, refl, refl, refl)
  write_result-status d hw (err code) =
      let (coded, kept) = update_status_code-fields d.status_store code in (refl, refl, kept, coded)

  -- Processing a frame writes its payload to the process image, remembers its counter, adds the missed
  -- cycles, and reports the code of a failed write before that of a counter that does not fit.
  process_frame_does :
      (r : SlaveReceiver) (d : Device S) (stream : StreamConfig) (p : ParsedL2Frame)
      (now timestamp : ℕ)
      → d.status_store.current.missed_cycles ≤ u32_max
      → let id = p.header.stream_id in
        let out = process_frame image r d stream p now timestamp in
        let missed =
          check_counter stream.cycle_time_nano
            (get id r.last_cycle_counter)
            p.header.cycle_counter in
        let written = handle_input_packet image d.process_image stream p.payload in
        (out.1.process_image ≡ written.0)
        × (out.1.stream_store ≡ d.stream_store)
        × (out.1.status_store.current.missed_cycles
            ≡ saturating_add u32_max d.status_store.current.missed_cycles (missed_count missed))
        × (code_of out.1 ≡ elim written.1 [
          | ok _ ↦ code_after_check missed (code_of d)
          | err code ↦ status_code_number code
        ])
  unfolding process_frame
  process_frame_does r d stream p now timestamp h =
      let id : ℕ = p.header.stream_id in
      let previous : Option ℕ = get id r.last_receive_instant_by_stream in
      let missed : Option ℕ =
        check_counter stream.cycle_time_nano (get id r.last_cycle_counter) p.header.cycle_counter in
      let r' : SlaveReceiver = (process_frame image r d stream p now timestamp).0 in
      let checked : DeviceStatusStore = report_missed missed timestamp d.status_store in
      let status : DeviceStatusStore = publish_receive r' previous timestamp checked in
      let written : S × Result StatusCode (Unit {0}) =
        handle_input_packet image d.process_image stream p.payload in
      let (counted, coded) = report_missed-status missed timestamp d.status_store h in
      let (counted', coded') = publish_receive-status r' previous timestamp checked in
      let (put, store, counted'', coded'') =
        write_result-status (record d { status_store = status }) written.0 written.1 in
      (put, store, counted'' ∙ counted' ∙ counted, coded'' ∙ after_write written.1 (coded' ∙ coded))
    where
      after_write :
          (result : Result StatusCode (Unit {0})) {before after : ℕ}
          → before ≡ after
          → elim result [ ok _ ↦ before | err code ↦ status_code_number code ]
            ≡ elim result [ ok _ ↦ after | err code ↦ status_code_number code ]
      after_write (ok _) same = same
      after_write (err code) same = refl

  -- The process image and the store after a frame was processed.
  pub process_frame-image :
      (r : SlaveReceiver) (d : Device S) (stream : StreamConfig) (p : ParsedL2Frame)
      (now timestamp : ℕ)
      → let out = (process_frame image r d stream p now timestamp).1 in
        (out.process_image ≡ (handle_input_packet image d.process_image stream p.payload).0)
        × (out.stream_store ≡ d.stream_store)
  unfolding process_frame
  process_frame-image r d stream p now timestamp =
      let written : S × Result StatusCode (Unit {0}) =
        handle_input_packet image d.process_image stream p.payload in
      let (put, store, _, _) =
        write_result-status (record d { status_store = _ }) written.0 written.1 in
      (put, store)

  module _ (b : Blake3) where
    -- An accepted frame is written to the process image as its stream's input. The cycles that its
    -- counter shows as missed are added up to the largest `u32`, and the status has the code of a
    -- failed write, else that of a wrong counter, else its old one.
    pub handle_frame-writes :
        (r : SlaveReceiver) (d : Device S) (now timestamp : ℕ) (frame : List ℕ)
        → (a : IsAccepted b r.stream_map d.stream_store frame)
        → d.status_store.current.missed_cycles ≤ u32_max
        → let id = a.parsed.header.stream_id in
          let out = (handle_frame image b r d now timestamp frame).1 in
          let missed =
            check_counter a.stream.cycle_time_nano
              (get id r.last_cycle_counter)
              a.parsed.header.cycle_counter in
          let written = handle_input_packet image d.process_image a.stream a.parsed.payload in
          (out.process_image ≡ written.0)
          × (out.status_store.current.missed_cycles
              ≡ saturating_add u32_max d.status_store.current.missed_cycles (missed_count missed))
          × (code_of out ≡ elim written.1 [
            | ok _ ↦ code_after_check missed (code_of d)
            | err code ↦ status_code_number code
          ])
    handle_frame-writes r d now timestamp frame a h =
        let d' : Device S = record d {
          stream_store =
              (validate_stream_tag b d.stream_store a.parsed.header a.parsed.payload
                a.parsed.sequence_number a.parsed.auth_tag).0;
        } in
        let (put, store, counted, coded) =
          process_frame_does r d' a.stream a.parsed now timestamp h in
        rw (handle_frame-accepted b image r d now timestamp frame a) (put, counted, coded)

    -- A frame that was accepted is refused when it comes again, whatever the receiver remembers besides
    -- its input streams: it is reported as not authentic, and the process image and the streams stay.
    pub handle_frame-replay :
        (r later : SlaveReceiver) (d : Device S) (now timestamp now' timestamp' : ℕ)
        (frame : List ℕ)
        → (a : IsAccepted b r.stream_map d.stream_store frame) → later.stream_map ≡ r.stream_map
        → let first = (handle_frame image b r d now timestamp frame).1 in
          let second = (handle_frame image b later first now' timestamp' frame).1 in
          (second.process_image ≡ first.process_image)
          × (second.stream_store ≡ first.stream_store)
          × (code_of second ≡ status_code_number err_auth_failed)
    unfolding report
    handle_frame-replay r later d now timestamp now' timestamp' frame a same =
        let p : ParsedL2Frame = a.parsed in
        let v : StreamStore × Result StatusCode Bool =
          validate_stream_tag b d.stream_store p.header p.payload p.sequence_number p.auth_tag in
        let first : Device S = (handle_frame image b r d now timestamp frame).1 in
        let store : first.stream_store ≡ v.0 =
          ap (λ x. x.1.stream_store) (handle_frame-accepted b image r d now timestamp frame a)
          ∙ (process_frame-image r (record d { stream_store = v.0 }) a.stream p now timestamp).1 in
        let again : validate_stream_tag b first.stream_store p.header p.payload p.sequence_number
              p.auth_tag
            ≡ (first.stream_store, ok false) =
          rw store (
            validate_stream_tag_again b d.stream_store p.header p.payload p.sequence_number
              p.auth_tag a.authentic) in
        rw
          (handle_frame-refused b image later first now' timestamp' frame p a.stream a.parses
            (ap (get p.header.stream_id) same ∙ a.configured) again)
          (refl, refl, report-code err_auth_failed first)
