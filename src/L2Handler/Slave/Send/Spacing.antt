-- ===== src/L2Handler/Slave/Send/Spacing.antt =====
-- How far apart the slave's sender sends the frames of a stream.
use tsn_fieldbus.Base.{
  nat_eq, ℕ, suc, ◌+◌, ◌<◌, ◌≡◌, ◌≢◌, ◌%◌, ◌^◌, max, refl, ◌∙◌, arith, List, [], ◌∷◌, ◌++◌, All,
  some, true, false, Bool-cases, inl, inr,
}
use tsn_fieldbus.Base.Table.{get, insert, get-insert_ne}
use tsn_fieldbus.Proto.{DeviceState, StreamConfig}
use tsn_fieldbus.Mac.{MacAddr}
use tsn_fieldbus.Security.Crypto.{Blake3}
use tsn_fieldbus.L2.Cycle.{ProcessImageAccess, parse_destination_mac}
use tsn_fieldbus.StreamStore.{StreamEntry}
use tsn_fieldbus.DeviceStatus.{DeviceStatusStore}
use tsn_fieldbus.L2Handler.Timing.{is_due, is_op}
use tsn_fieldbus.L2Handler.Timing.Laws.{is_due-early}
use tsn_fieldbus.L2Handler.Slave.Device.{Device}
use tsn_fieldbus.L2Handler.Slave.Send.{
  Moment, SlaveSender, send_stream, send_streams, send_to, send_frame, record_send,
}
use tsn_fieldbus.L2Handler.Slave.Send.Frames.{send_stream_due, record_send-last_sent}

-- A stream with another number, whose destination is an address.
abbrev pub IsOther : ℕ → StreamConfig → Type 0
IsOther id stream =
    (stream.stream_id % 2 ^ 16 ≢ id)
    × (destination : MacAddr) × (parse_destination_mac stream ≡ some destination)

module _ (b : Blake3) {S : Type 0} (image : ProcessImageAccess S) (source : MacAddr)
    (state : DeviceState) where
  -- To serve another stream, whether it is due or not, does not change when a stream was sent.
  send_stream-other :
      (id : ℕ) (s : SlaveSender) (d : Device S) (stream : StreamConfig) (moment : Moment)
      → IsOther id stream
      → (s' : SlaveSender) × (d' : Device S) × (frames : List (List ℕ)) × (send_stream b image
            source state s d stream moment
          ≡ some (s', (d', frames)))
        × (get id s'.last_sent ≡ get id s.last_sent)
  unfolding send_stream send_to
  send_stream-other id s d stream moment (other, destination, addressed) =
      let key : ℕ = stream.stream_id % 2 ^ 16 in
      let cycle : ℕ = max stream.cycle_time_nano 1 in
      let recorded : SlaveSender × DeviceStatusStore =
        record_send (is_op state) cycle (get key s.last_sent) moment
          (record s { last_sent = insert key moment.now s.last_sent }) d.status_store in
      let sent : Device S × List (List ℕ) =
        send_frame b image source destination (record d { status_store = recorded.1 }) stream
          moment in
      elim (Bool-cases (is_due cycle moment.elapsed_at (get key s.last_sent))) [
        | inr early ↦ (s, d, [], rw early refl, refl)
        | inl due ↦ (
          recorded.0,
          sent.0,
          sent.1,
          rw (due, addressed) refl,
          rw
              (record_send-last_sent (is_op state) cycle (get key s.last_sent) moment
                (record s { last_sent = insert key moment.now s.last_sent }) d.status_store)
              (get-insert_ne key id moment.now s.last_sent (ground (arith, other))),
        )
      ]

  send_streams-other :
      (id : ℕ) (s : SlaveSender) (d : Device S) (others : List StreamConfig) (moments : ℕ → Moment)
      → All (IsOther id) others
      → (s' : SlaveSender) × (d' : Device S) × (frames : List (List ℕ)) × (send_streams b image
            source state others moments s d
          ≡ some (s', (d', frames)))
        × (get id s'.last_sent ≡ get id s.last_sent)
  unfolding send_streams
  send_streams-other id s d [] moments h = (s, d, [], refl, refl)
  send_streams-other id s d (stream ∷ others) moments (h, hs) =
      let (s1, d1, frames1, sent1, same1) = send_stream-other id s d stream (moments 0) h in
      let (s2, d2, frames2, sent2, same2) =
        send_streams-other id s1 d1 others (λ n. moments (suc n)) hs in
      (s2, d2, frames1 ++ frames2, rw (send_streams, sent1, sent2) refl, same2 ∙ same1)

  -- A stream that is due, addressed and known is sent as one frame. Whatever streams with other numbers
  -- and an address as destination are served after that in the same state, on whatever device, the
  -- stream is not sent again when it is served before its cycle time has passed, and nothing changes.
  pub send_stream-spaced :
      (s : SlaveSender) (d between later : Device S) (stream : StreamConfig)
      (others : List StreamConfig) (moment moment' : Moment) (moments : ℕ → Moment)
      (destination : MacAddr) (es : StreamEntry)
      → let id = stream.stream_id % 2 ^ 16 in
        is_due (max stream.cycle_time_nano 1) moment.elapsed_at (get id s.last_sent) ≡ true
        → parse_destination_mac stream ≡ some destination
        → get id d.stream_store.streams ≡ some es
        → All (IsOther id) others
        → moment'.elapsed_at < moment.now + max stream.cycle_time_nano 1
        → (s' s'' : SlaveSender) × (d' d'' : Device S) × (frame : List ℕ) × (frames : List (List ℕ))
          × (send_stream b image source state s d stream moment ≡ some (s', (d', frame ∷ [])))
          × (send_streams b image source state others moments s' between
              ≡ some (s'', (d'', frames)))
          × (send_stream b image source state s'' later stream moment' ≡ some (s'', (later, [])))
  unfolding send_stream
  send_stream-spaced s d between later stream others moment moment' moments destination es due
        addressed known apart early =
      let id : ℕ = stream.stream_id % 2 ^ 16 in
      let (s', d', sent, at, _, _, _) =
        send_stream_due b image source state s d stream moment destination es due addressed known in
      let (s'', d'', frames, served, same) =
        send_streams-other id s' between others moments apart in
      let again : is_due (max stream.cycle_time_nano 1) moment'.elapsed_at (some moment.now)
          ≡ false =
        is_due-early (max stream.cycle_time_nano 1) moment'.elapsed_at moment.now (omega arith)
          early in
      (s', s'', d', d'', _, frames, sent, served, rw (same ∙ at, again) refl)
