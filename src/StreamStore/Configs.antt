-- ===== src/StreamStore/Configs.antt =====
-- Configuring streams.
use tsn_fieldbus.Base.{
  nat_eq, subst, ℕ, ◌≤◌, ◌≡◌, ◌≢◌, refl, sym, ◌∙◌, arith, List, [], ◌∷◌, All, none, some, true,
  false, ok, err, ==_iff, ap, Result-cases, inl, inr, u16_max,
}
use tsn_fieldbus.Base.Table.{Table, get, insert, contains_key, get-insert, get-insert_self}
use tsn_fieldbus.Proto.{StatusCode, StreamConfig, direction_try_from}
use tsn_fieldbus.StreamStore.{
  StreamEntry, StreamStore, reset, elem, stream_id_as_u16, initial_sequence_number, insert_stream,
  check_streams, insert_streams, add_stream_configs,
}

-- Every key of the table is among the numbers.
abbrev Covers : List ℕ → Table ℕ StreamEntry → Type 0
Covers seen t = (k : ℕ) → contains_key k t ≡ true → elem k seen ≡ true

-- A configuration that passes the check, and whose number is new, is inserted.
insert_stream_checked :
    (t : Table ℕ StreamEntry) (c : StreamConfig) (id n : ℕ)
    → stream_id_as_u16 c.stream_id ≡ ok id
    → contains_key id t ≡ false
    → initial_sequence_number c.direction ≡ ok n
    → insert_stream t c ≡ ok (insert id (record { stream_config = c; sequence_number = n }) t)
unfolding insert_stream
insert_stream_checked t c id n h1 h2 h3 = ground arith

-- `insert` adds no other key.
Covers-insert :
    (id : ℕ) (seen : List ℕ) (e : StreamEntry) (t : Table ℕ StreamEntry)
    → Covers seen t
    → Covers (id ∷ seen) (insert id e t)
unfolding elem contains_key
Covers-insert id seen e t covers k h = ground (arith, covers k, get-insert id k e t, ==_iff id k)

stream_id_as_u16-same : (i id : ℕ) → stream_id_as_u16 i ≡ ok id → id ≡ i
unfolding stream_id_as_u16
stream_id_as_u16-same i id h = ground arith

stream_id_as_u16-fits : (i id : ℕ) → stream_id_as_u16 i ≡ ok id → i ≤ u16_max
unfolding stream_id_as_u16
stream_id_as_u16-fits i id h = ground arith

initial_sequence_number-known :
    (d n : ℕ) → initial_sequence_number d ≡ ok n → direction_try_from d ≢ none
unfolding initial_sequence_number
initial_sequence_number-known d n h = ground arith

insert_stream_ok :
    (t : Table ℕ StreamEntry) (c : StreamConfig) (id n : ℕ) {t' : Table ℕ StreamEntry}
    → stream_id_as_u16 c.stream_id ≡ ok id
    → initial_sequence_number c.direction ≡ ok n
    → insert_stream t c ≡ ok t'
    → t' ≡ insert id (record { stream_config = c; sequence_number = n }) t
unfolding insert_stream
insert_stream_ok t c id n h1 h2 h3 = ground arith

insert_streams_cons :
    (t : Table ℕ StreamEntry) (c : StreamConfig) (cs : List StreamConfig) {t' : Table ℕ StreamEntry}
    → insert_stream t c ≡ ok t'
    → insert_streams t (c ∷ cs) ≡ insert_streams t' cs
unfolding insert_streams
insert_streams_cons t c cs h = rw (h, insert_streams) refl

Covers-nil : (k : ℕ) → contains_key {V = StreamEntry} k [] ≡ true → elem k [] ≡ true
unfolding contains_key get
Covers-nil k h = ground arith

-- What a passed check says of the first configuration.
check_streams_head :
    (seen : List ℕ) (c : StreamConfig) (cs : List StreamConfig)
    → check_streams seen (c ∷ cs) ≡ ok tt
    → (id : ℕ) × (n : ℕ) × (stream_id_as_u16 c.stream_id ≡ ok id)
      × (elem id seen ≡ false)
      × (initial_sequence_number c.direction ≡ ok n)
      × (check_streams (id ∷ seen) cs ≡ ok tt)
unfolding check_streams
check_streams_head seen c cs h = elim (Result-cases (stream_id_as_u16 c.stream_id)) [
  | inl (id, valid) ↦ elim (Result-cases (initial_sequence_number c.direction)) [
    | inl (n, directed) ↦ (id, n, valid, ground arith, directed, ground arith)
    | inr (e, bad) ↦ ground arith
  ]
  | inr (e, bad) ↦ ground arith
]

-- Configurations that can be taken together: the numbers fit 16 bits, none stands twice or among
-- `seen`, and each direction is one of the two.
abbrev pub AreNew : List ℕ → List StreamConfig → Type 0
AreNew seen [] = Unit {0}
AreNew seen (c ∷ cs) =
    (c.stream_id ≤ u16_max)
    × (elem c.stream_id seen ≡ false)
    × (direction_try_from c.direction ≢ none)
    × AreNew (c.stream_id ∷ seen) cs

AreNew-check_streams :
    (seen : List ℕ) (cs : List StreamConfig) → check_streams seen cs ≡ ok tt → AreNew seen cs
unfolding check_streams
AreNew-check_streams seen [] h = tt
AreNew-check_streams seen (c ∷ cs) h =
    let (id, n, valid, fresh, directed, rest) = check_streams_head seen c cs h in
    let same : id ≡ c.stream_id = stream_id_as_u16-same c.stream_id id valid in
    (
      stream_id_as_u16-fits c.stream_id id valid,
      subst (λ j. elem j seen ≡ false) same fresh,
      initial_sequence_number-known c.direction n directed,
      subst (λ j. AreNew (j ∷ seen) cs) same (AreNew-check_streams (id ∷ seen) cs rest),
    )

-- What was inserted under a number that the check has seen is not replaced.
insert_streams_keeps :
    (seen : List ℕ) (t : Table ℕ StreamEntry) (cs : List StreamConfig) (k : ℕ)
    → check_streams seen cs ≡ ok tt
    → elem k seen ≡ true
    → get k (insert_streams t cs).0 ≡ get k t
unfolding insert_streams elem
insert_streams_keeps seen t [] k h there = refl
insert_streams_keeps seen t (c ∷ cs) k h there =
    let (id, n, valid, fresh, directed, rest) = check_streams_head seen c cs h in
    let e : StreamEntry = record { stream_config = c; sequence_number = n } in
    let next : get k (insert_streams (insert id e t) cs).0 ≡ get k (insert id e t) =
      insert_streams_keeps (id ∷ seen) (insert id e t) cs k rest (ground arith) in
    elim (Result-cases (insert_stream t c)) [
      | inl (t', done) ↦
          let same : t' ≡ insert id e t = insert_stream_ok t c id n valid directed done in
          let kept : get k (insert id e t) ≡ get k t =
            ground (arith, get-insert id k e t, ==_iff id k) in
          let moved : insert_streams t (c ∷ cs) ≡ insert_streams t' cs =
            insert_streams_cons t c cs done in
          ap (λ r. get k r.0) moved ∙ ap (λ u. get k (insert_streams u cs).0) same ∙ next ∙ kept
      | inr (e', bad) ↦ ground arith
    ]

-- The table has the configuration, with the first number of its direction.
abbrev pub IsStored : Table ℕ StreamEntry → StreamConfig → Type 0
IsStored t c =
    (n : ℕ) × (initial_sequence_number c.direction ≡ ok n)
    × (get c.stream_id t ≡ some (record { stream_config = c; sequence_number = n }))

insert_streams_checked :
    (seen : List ℕ) (t : Table ℕ StreamEntry) (cs : List StreamConfig)
    → Covers seen t
    → check_streams seen cs ≡ ok tt
    → let r = insert_streams t cs in (r.1 ≡ ok tt) × All (IsStored r.0) cs
unfolding insert_streams elem
insert_streams_checked seen t [] covers h = (refl, tt)
insert_streams_checked seen t (c ∷ cs) covers h =
    let (id, n, valid, fresh, directed, rest) = check_streams_head seen c cs h in
    let e : StreamEntry = record { stream_config = c; sequence_number = n } in
    let done : insert_stream t c ≡ ok (insert id e t) =
      insert_stream_checked t c id n valid (ground (arith, covers id)) directed in
    let (good, stored) =
      insert_streams_checked (id ∷ seen) (insert id e t) cs (Covers-insert id seen e t covers)
        rest in
    let moved : insert_streams t (c ∷ cs) ≡ insert_streams (insert id e t) cs =
      insert_streams_cons t c cs done in
    let here : get id (insert_streams (insert id e t) cs).0 ≡ some e =
      insert_streams_keeps (id ∷ seen) (insert id e t) cs id rest (ground (arith, ==_iff id id))
      ∙ get-insert_self id e t in
    let same : id ≡ c.stream_id = stream_id_as_u16-same c.stream_id id valid in
    subst (λ r. (r.1 ≡ ok tt) × All (IsStored r.0) (c ∷ cs)) (sym moved)
      (
        good,
        (
          (
            n,
            directed,
            subst (λ j. get j (insert_streams (insert id e t) cs).0 ≡ some e) same here,
          ),
          stored,
        ),
      )

check_streams-AreNew :
    (seen : List ℕ) (cs : List StreamConfig) → AreNew seen cs → check_streams seen cs ≡ ok tt
unfolding check_streams stream_id_as_u16 initial_sequence_number
check_streams-AreNew seen [] h = refl
check_streams-AreNew seen (c ∷ cs) (fits, fresh, known, rest) =
    let later = check_streams-AreNew (c.stream_id ∷ seen) cs rest in ground arith

-- Configurations that can be taken together are all added to a store that is reset, each with the
-- first number of its direction, and each is then found under its number.
pub add_stream_configs_stores :
    (s : StreamStore) (cs : List StreamConfig)
    → AreNew [] cs
    → let r = add_stream_configs (reset s) cs in (r.1 ≡ ok tt) × All (IsStored r.0.streams) cs
unfolding add_stream_configs reset
add_stream_configs_stores s cs h =
    let checked : check_streams [] cs ≡ ok tt = check_streams-AreNew [] cs h in
    rw (checked, add_stream_configs)
      (insert_streams_checked [] [] cs (λ k c. Covers-nil k c) checked)

-- Configurations that cannot be taken together are refused, and the store stays as it was.
pub add_stream_configs_refuses :
    (s : StreamStore) (cs : List StreamConfig)
    → ¬ AreNew [] cs
    → (e : StatusCode) × (add_stream_configs s cs ≡ (s, err e))
unfolding add_stream_configs
add_stream_configs_refuses s cs h = elim (Result-cases (check_streams [] cs)) [
  | inl (done, passed) ↦ absurd (h (AreNew-check_streams [] cs passed))
  | inr (e, failed) ↦ (e, ground arith)
]
