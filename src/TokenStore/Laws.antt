-- ===== src/TokenStore/Laws.antt =====
-- Which tokens and keys are accepted.
use tsn_fieldbus.Base.{
  ℕ, ◌+◌, ◌<◌, ◌≡◌, ◌↔◌, arith, List, length, none, some, true, ltb, if◌then◌else◌, Bool-cases,
  Option-cases, inl, inr,
}
use tsn_fieldbus.Base.Keys.{bytes_eq, bytes_beq, bytes_beq_iff}
use tsn_fieldbus.Base.Table.{
  Table, get, IsUnique, get-insert, get-retain, insert-IsUnique, retain-IsUnique, remove-IsUnique,
}
use tsn_fieldbus.TokenStore.{
  from_bytes, TokenStore, is_shared_key_valid, prune_expired, insert_token, Crates, hash_token,
  generate_token, Readings, issue_token, validate_token,
}

-- A key is accepted exactly when it has 32 bytes and is the expected one.
pub is_shared_key_valid_iff :
    (s : TokenStore) (key : List ℕ)
    → (is_shared_key_valid s key ≡ true) ↔ ((length key ≡ 32) × (key ≡ s.expected_shared_key.bytes))
unfolding is_shared_key_valid from_bytes
is_shared_key_valid_iff s key = (
  λ h. ground (arith, bytes_beq_iff key s.expected_shared_key.bytes),
  λ h. ground (arith, bytes_beq_iff key s.expected_shared_key.bytes),
)

-- What is left under a key after the expired tokens are removed.
pub get-prune_expired :
    (t : Table (List ℕ) ℕ) (now : ℕ) (k : List ℕ)
    → IsUnique t
    → get k (prune_expired t now)
      ≡ elim (get k t) [ none ↦ none | some e ↦ if ltb now e then some e else none ]
unfolding prune_expired
get-prune_expired t now k u = get-retain (λ e. ltb now e) k t u

module _ (x : Crates) where
  pub issue_token-IsUnique :
      (s : TokenStore) (key : List ℕ) (ttl : ℕ) (r : Readings x)
      → IsUnique s.tokens
      → IsUnique (issue_token x s key ttl r).0.tokens
  unfolding issue_token insert_token prune_expired
  issue_token-IsUnique s key ttl r u = elim (Bool-cases (is_shared_key_valid s key)) [
    | inl valid ↦
        rw (valid, issue_token)
          (insert-IsUnique (hash_token x (generate_token x r.random r.timestamp))
            (r.issued_at + ttl) (prune_expired s.tokens r.inserted_at)
            (retain-IsUnique (λ e. ltb r.inserted_at e) s.tokens u))
    | inr invalid ↦ rw (invalid, issue_token) u
  ]

  -- In a store that has no hash twice, a token is accepted exactly when its hash is stored with a
  -- later expiry.
  pub validate_token_iff :
      (s : TokenStore) (token : List ℕ) (now : ℕ)
      → IsUnique s.tokens
      → ((validate_token x s token now).1 ≡ true)
        ↔ ((e : ℕ) × (get (hash_token x token) s.tokens ≡ some e) × (now < e))
  unfolding validate_token
  validate_token_iff s token now u =
      let pruned = get-prune_expired s.tokens now (hash_token x token) u in
      (
        λ good. elim (Option-cases (get (hash_token x token) s.tokens)) [
          | inl unknown ↦ ground arith
          | inr (e, known) ↦ (e, known, ground arith)
        ],
        λ (e, known, later). ground arith,
      )

  -- A validation removes what has expired and nothing else.
  pub get-validate_token :
      (s : TokenStore) (token : List ℕ) (now : ℕ) (k : List ℕ)
      → IsUnique s.tokens
      → get k (validate_token x s token now).0.tokens
        ≡ elim (get k s.tokens) [ none ↦ none | some e ↦ if ltb now e then some e else none ]
  unfolding validate_token
  get-validate_token s token now k u =
      let pruned = get-prune_expired s.tokens now k u in
      let here = get-prune_expired s.tokens now (hash_token x token) u in ground arith

  pub validate_token-IsUnique :
      (s : TokenStore) (token : List ℕ) (now : ℕ)
      → IsUnique s.tokens
      → IsUnique (validate_token x s token now).0.tokens
  unfolding validate_token prune_expired
  validate_token-IsUnique s token now u =
      let pruned = retain-IsUnique (λ e. ltb now e) s.tokens u in
      elim (Option-cases (get (hash_token x token) (prune_expired s.tokens now))) [
        | inl unknown ↦ rw (unknown, validate_token) pruned
        | inr (e, known) ↦ elim (Bool-cases (ltb now e)) [
          | inl later ↦ rw (known, validate_token, later) pruned
          | inr over ↦
              rw (known, validate_token, over)
                (remove-IsUnique (hash_token x token) (prune_expired s.tokens now) pruned)
        ]
      ]

  -- A token that is issued is stored with its expiry; the rest of the store is pruned.
  pub get-issue_token :
      (s : TokenStore) (key : List ℕ) (ttl : ℕ) (r : Readings x) (k : List ℕ)
      → IsUnique s.tokens
      → let made = hash_token x (generate_token x r.random r.timestamp) in
        get k (issue_token x s key ttl r).0.tokens ≡ (
          if is_shared_key_valid s key
          then (if bytes_beq made k then some (r.issued_at + ttl) else elim (get k s.tokens) [
            | none ↦ none
            | some e ↦ if ltb r.inserted_at e then some e else none
          ])
          else get k s.tokens)
  unfolding issue_token insert_token
  get-issue_token s key ttl r k u =
      let made : List ℕ = hash_token x (generate_token x r.random r.timestamp) in
      let placed = get-insert made k (r.issued_at + ttl) (prune_expired s.tokens r.inserted_at) in
      let pruned = get-prune_expired s.tokens r.inserted_at k u in ground arith
