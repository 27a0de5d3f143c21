-- ===== src/StreamStore/Replay.antt =====
-- Sequences of tags: no number is accepted twice, and what a sender sends is accepted.
use tsn_fieldbus.Base.{
  nat_eq, ℕ, ◌<◌, ◌≡◌, arith, List, [], ◌∷◌, some, Bool, true, false, Result, ok, err, ◌==◌, ==_iff,
  ◌&&◌, Bool-cases, Option-cases, inl, inr, if◌then◌else◌,
}
use tsn_fieldbus.Base.Order.{Increasing}
use tsn_fieldbus.Base.Table.{get, insert, get-insert}
use tsn_fieldbus.Proto.{StatusCode}
use tsn_fieldbus.Security.Crypto.{Blake3}
use tsn_fieldbus.L2.Header.{L2Header}
use tsn_fieldbus.StreamStore.{StreamEntry, StreamStore, validate_stream_tag}

-- A message as it arrives, from whomever.
pub record Message : Type 0 where
  pub header : L2Header
  pub payload : List ℕ
  pub received : ℕ
  pub tag : List ℕ

abbrev pub is_accepted : Result StatusCode Bool → Bool
is_accepted (ok accepted) = accepted
is_accepted (err e) = false

module _ (b : Blake3) where
  -- The sequence numbers that a store accepts for the stream `k`, in the order of arrival.
  pub accepted : ℕ → StreamStore → List Message → List ℕ
  accepted k s [] = []
  accepted k s (m ∷ ms) =
      let r = validate_stream_tag b s m.header m.payload m.received m.tag in
      let rest = accepted k r.0 ms in
      if m.header.stream_id == k && is_accepted r.1 then m.received ∷ rest else rest

  -- A message of another stream leaves the entry alone.
  validate-other :
      (k : ℕ) (s : StreamStore) (m : Message) {entry : StreamEntry}
      → get k s.streams ≡ some entry
      → (m.header.stream_id == k) ≡ false
      → get k (validate_stream_tag b s m.header m.payload m.received m.tag).0.streams ≡ some entry
  unfolding validate_stream_tag
  validate-other k s m known other = elim (Option-cases (get m.header.stream_id s.streams)) [
    | inl unknown ↦ ground arith
    | inr (found, e) ↦ ground (
      arith,
      get-insert m.header.stream_id k (record found { sequence_number = m.received }) s.streams,
    )
  ]

  -- One message moves the number of a stream only by an accepted message of that stream, and then up.
  pub validate-step :
      (k : ℕ) (s : StreamStore) (m : Message) (entry : StreamEntry)
      → get k s.streams ≡ some entry
      → let r = validate_stream_tag b s m.header m.payload m.received m.tag in
        ((m.header.stream_id == k && is_accepted r.1) ≡ true
          → (entry.sequence_number < m.received)
            × (get k r.0.streams ≡ some (record entry { sequence_number = m.received })))
        × ((m.header.stream_id == k && is_accepted r.1) ≡ false → get k r.0.streams ≡ some entry)
  unfolding validate_stream_tag
  validate-step k s m entry known = elim (Bool-cases (m.header.stream_id == k)) [
    | inl same ↦
        let at : get m.header.stream_id s.streams ≡ some entry =
          (let e : m.header.stream_id ≡ k = (==_iff m.header.stream_id k).0 same in rw e known) in
        let there : get k
              (insert m.header.stream_id (record entry { sequence_number = m.received }) s.streams)
            ≡ some (record entry { sequence_number = m.received }) =
          ground (
            arith,
            get-insert m.header.stream_id k (record entry { sequence_number = m.received })
                s.streams,
          ) in
        (λ h. ground arith, λ h. ground arith)
    | inr other ↦ (λ h. cc, λ h. validate-other k s m known other)
  ]

  -- The numbers that are accepted for a known stream increase strictly, from its last number on, whatever
  -- messages arrive: no message is accepted twice.
  pub accepted-Increasing :
      (k : ℕ) (s : StreamStore) (ms : List Message) (entry : StreamEntry)
      → get k s.streams ≡ some entry
      → Increasing entry.sequence_number (accepted k s ms)
  unfolding accepted
  accepted-Increasing k s [] entry known = tt
  accepted-Increasing k s (m ∷ ms) entry known =
      let r : StreamStore × Result StatusCode Bool =
        validate_stream_tag b s m.header m.payload m.received m.tag in
      let (taken, left) = validate-step k s m entry known in
      elim (Bool-cases (m.header.stream_id == k && is_accepted r.1)) [
        | inl yes_taken ↦ rw yes_taken (
          (taken yes_taken).0,
          accepted-Increasing k r.0 ms (record entry { sequence_number = m.received })
              (taken yes_taken).1,
        )
        | inr not_taken ↦ rw not_taken (accepted-Increasing k r.0 ms entry (left not_taken))
      ]
