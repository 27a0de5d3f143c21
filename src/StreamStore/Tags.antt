-- ===== src/StreamStore/Tags.antt =====
-- One tag: what a sender generates, a receiver accepts, and what a receiver accepts.
use tsn_fieldbus.Base.{
  nat_eq, ℕ, ◌<◌, ◌≤◌, ◌≡◌, ◌≢◌, ◌↔◌, refl, arith, List, [], length, none, some, true, false, ok,
  err, leb, u64_max, saturating_add, Bool-cases, Option-cases, inl, inr,
}
use tsn_fieldbus.Base.Bytes.{to_be}
use tsn_fieldbus.Base.Table.{get, insert, get-insert, get-insert_self}
use tsn_fieldbus.Proto.{err_stream_id_unknown}
use tsn_fieldbus.Security.Crypto.{Blake3, calculate_hmac, verify_hmac}
use tsn_fieldbus.Security.Crypto.Compare.{verify_hmac_iff}
use tsn_fieldbus.L2.Header.{L2Header}
use tsn_fieldbus.L2.Header
use tsn_fieldbus.StreamStore.{
  StreamEntry, StreamStore, serialize_l2_header, tag_parts, generate_stream_tag,
  validate_stream_tag,
}

-- The bytes that a tag covers are the header's bytes on the wire.
pub serialize_l2_header-write_to : (h : L2Header) → serialize_l2_header h ≡ Header.write_to h []
unfolding serialize_l2_header Header.write_to to_be
serialize_l2_header-write_to h = refl

module _ (b : Blake3) where
  -- A tag of a known stream is accepted exactly when its sequence number is larger than the last one
  -- and it is the tag of the message under the shared secret. Then the number becomes the last one;
  -- otherwise the store stays as it is.
  pub validate_stream_tag_known :
      (s : StreamStore) (h : L2Header) (payload : List ℕ) (received : ℕ) (tag : List ℕ)
      (entry : StreamEntry)
      → get h.stream_id s.streams ≡ some entry
      → length tag ≡ 8
      → (entry.sequence_number < received
          → calculate_hmac b s.shared_secret (tag_parts h payload received) ≡ tag
          → validate_stream_tag b s h payload received tag ≡ (
            record s {
              streams = insert h.stream_id (record entry { sequence_number = received }) s.streams;
            },
            ok true,
          ))
        × (¬ (
              (entry.sequence_number < received)
              × (calculate_hmac b s.shared_secret (tag_parts h payload received) ≡ tag))
            → validate_stream_tag b s h payload received tag ≡ (s, ok false))
  unfolding validate_stream_tag
  validate_stream_tag_known s h payload received tag entry known len = (
    λ fresh same.
        let good : verify_hmac b s.shared_secret (tag_parts h payload received) tag ≡ true =
          (verify_hmac_iff b s.shared_secret (tag_parts h payload received) tag len).1 same in
        ground arith,
    λ refused. elim (Bool-cases (leb received entry.sequence_number)) [
      | inl stale ↦ ground arith
      | inr fresh ↦
          elim (Bool-cases (verify_hmac b s.shared_secret (tag_parts h payload received) tag)) [
            | inl good ↦ absurd (
                refused (
                  ground arith,
                  (verify_hmac_iff b s.shared_secret (tag_parts h payload received) tag len).0 good,
                ))
            | inr bad ↦ ground arith
          ]
    ],
  )

  -- A tag of an unknown stream is an error.
  pub validate_stream_tag_unknown :
      (s : StreamStore) (h : L2Header) (payload : List ℕ) (received : ℕ) (tag : List ℕ)
      → get h.stream_id s.streams ≡ none
      → validate_stream_tag b s h payload received tag ≡ (s, err err_stream_id_unknown)
  unfolding validate_stream_tag
  validate_stream_tag_unknown s h payload received tag unknown =
      rw (unknown, validate_stream_tag) refl

  -- A known stream is tagged with its current sequence number, which then grows by one, up to the
  -- largest `u64`; no other stream changes.
  pub generate_stream_tag_known :
      (s : StreamStore) (h : L2Header) (payload : List ℕ) (entry : StreamEntry)
      → get h.stream_id s.streams ≡ some entry
      → ((generate_stream_tag b s h payload).1
          ≡ ok (
            entry.sequence_number,
            calculate_hmac b s.shared_secret (tag_parts h payload entry.sequence_number),
          ))
        × (get h.stream_id (generate_stream_tag b s h payload).0.streams
            ≡ some
                (record entry { sequence_number = saturating_add u64_max entry.sequence_number 1 }))
        × ((k : ℕ)
            → k ≢ h.stream_id
            → get k (generate_stream_tag b s h payload).0.streams ≡ get k s.streams)
        × ((generate_stream_tag b s h payload).0.shared_secret ≡ s.shared_secret)
  unfolding generate_stream_tag
  generate_stream_tag_known s h payload entry known = (
    ground arith,
    ground (
      arith,
      get-insert_self h.stream_id
          (record entry { sequence_number = saturating_add u64_max entry.sequence_number 1 })
          s.streams,
    ),
    λ k other. ground (
      arith,
      get-insert h.stream_id k
          (record entry { sequence_number = saturating_add u64_max entry.sequence_number 1 })
          s.streams,
    ),
    ground arith,
  )

  -- A tag of 8 bytes is accepted exactly when the stream is known, the sequence number is larger than the stream's
  -- last one, and the tag is the message's under the shared secret.
  pub validate_stream_tag_iff :
      (s : StreamStore) (h : L2Header) (payload : List ℕ) (received : ℕ) (tag : List ℕ)
      → length tag ≡ 8
      → ((validate_stream_tag b s h payload received tag).1 ≡ ok true) ↔ (
          (entry : StreamEntry) × (get h.stream_id s.streams ≡ some entry)
          × (entry.sequence_number < received)
          × (calculate_hmac b s.shared_secret (tag_parts h payload received) ≡ tag))
  unfolding validate_stream_tag
  validate_stream_tag_iff s h payload received tag len =
      let decides = verify_hmac_iff b s.shared_secret (tag_parts h payload received) tag len in
      (
        λ good. elim (Option-cases (get h.stream_id s.streams)) [
          | inl unknown ↦ ground arith
          | inr (entry, known) ↦ (entry, known, ground arith, ground arith)
        ],
        λ (entry, known, fresh, same). ground arith,
      )

  -- A number that is not above the last one is refused.
  pub validate_stream_tag_stale :
      (s : StreamStore) (h : L2Header) (payload : List ℕ) (received : ℕ) (tag : List ℕ)
      (entry : StreamEntry)
      → get h.stream_id s.streams ≡ some entry
      → received ≤ entry.sequence_number
      → validate_stream_tag b s h payload received tag ≡ (s, ok false)
  unfolding validate_stream_tag
  validate_stream_tag_stale s h payload received tag entry known stale = ground arith

  -- An accepted number becomes the last one.
  pub validate_stream_tag_advances :
      (s : StreamStore) (h : L2Header) (payload : List ℕ) (received : ℕ) (tag : List ℕ)
      → (validate_stream_tag b s h payload received tag).1 ≡ ok true
      → (entry : StreamEntry) × (entry.sequence_number ≡ received)
        × (get h.stream_id (validate_stream_tag b s h payload received tag).0.streams ≡ some entry)
  unfolding validate_stream_tag
  validate_stream_tag_advances s h payload received tag good =
      elim (Option-cases (get h.stream_id s.streams)) [
        | inl unknown ↦ ground arith
        | inr (entry, known) ↦ (
          record entry { sequence_number = received },
          refl,
          ground (
            arith,
            get-insert_self h.stream_id (record entry { sequence_number = received }) s.streams,
          ),
        )
      ]

  -- A message that was accepted is refused from then on, and changes the store no more.
  pub validate_stream_tag_again :
      (s : StreamStore) (h : L2Header) (payload : List ℕ) (received : ℕ) (tag : List ℕ)
      → (validate_stream_tag b s h payload received tag).1 ≡ ok true
      → let s' = (validate_stream_tag b s h payload received tag).0 in
        validate_stream_tag b s' h payload received tag ≡ (s', ok false)
  validate_stream_tag_again s h payload received tag good =
      let (entry, last, known) = validate_stream_tag_advances s h payload received tag good in
      validate_stream_tag_stale _ h payload received tag entry known (omega arith)
