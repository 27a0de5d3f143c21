-- ===== src/TokenStore/Issued.antt =====
-- Sequences of calls of the token store: an accepted token was issued to a holder of the key, and an
-- issued token is accepted until it expires.
use tsn_fieldbus.Base.{
  ap, subst, ℕ, ◌+◌, ◌<◌, ◌≡◌, ◌≢◌, ◌⊎◌, arith, List, [], ◌∷◌, some, true, Bool-cases, inl, inr,
  All,
}
use tsn_fieldbus.Base.Keys.{bytes_eq, bytes_beq, bytes_beq_iff}
use tsn_fieldbus.Base.Table.{get, IsUnique}
use tsn_fieldbus.TokenStore.{
  PreSharedKey, TokenStore, new, is_shared_key_valid, insert_token, Crates, hash_token,
  generate_token, Readings, issue_token, validate_token,
}
use tsn_fieldbus.TokenStore.Laws.{
  issue_token-IsUnique, validate_token-IsUnique, get-validate_token, get-issue_token,
  is_shared_key_valid_iff, validate_token_iff,
}

module _ (x : Crates) where
  -- A call of the service: a token is asked for with a key, or a token is presented at a time.
  pub data Call : Type 0 where
    issue : List ℕ → ℕ → Readings x → Call
    validate : List ℕ → ℕ → Call

  unfoldable pub call : TokenStore → Call → TokenStore
  call s (issue key ttl r) = (issue_token x s key ttl r).0
  call s (validate token now) = (validate_token x s token now).0

  unfoldable pub calls : TokenStore → List Call → TokenStore
  unfolding call
  calls s [] = s
  calls s (c ∷ cs) = calls (call s c) cs

  -- Among the calls, one with the expected key issued a token with this hash and expiry.
  abbrev pub WasIssued : List ℕ → List ℕ → ℕ → List Call → Type 0
  WasIssued expected k e [] = ⊥
  WasIssued expected k e (issue key ttl r ∷ cs) =
      ((key ≡ expected)
        × (hash_token x (generate_token x r.random r.timestamp) ≡ k)
        × (r.issued_at + ttl ≡ e))
      ⊎ WasIssued expected k e cs
  WasIssued expected k e (validate token now ∷ cs) = WasIssued expected k e cs

  -- A call that neither happens at or after the expiry nor stores a token with the same hash.
  abbrev pub Spares : List ℕ → ℕ → Call → Type 0
  Spares k e (issue key ttl r) =
      (r.inserted_at < e) × (hash_token x (generate_token x r.random r.timestamp) ≢ k)
  Spares k e (validate token now) = now < e

  call-IsUnique : (s : TokenStore) (c : Call) → IsUnique s.tokens → IsUnique (call s c).tokens
  unfolding call
  call-IsUnique s (issue key ttl r) u = issue_token-IsUnique x s key ttl r u
  call-IsUnique s (validate token now) u = validate_token-IsUnique x s token now u

  expected_key-call :
      (s : TokenStore) (c : Call) → (call s c).expected_shared_key ≡ s.expected_shared_key
  unfolding call issue_token validate_token insert_token
  expected_key-call s (issue key ttl r) = ground arith
  expected_key-call s (validate token now) = ground arith

  get-call :
      (s : TokenStore) (c : Call) (k : List ℕ) (e : ℕ)
      → IsUnique s.tokens
      → get k (call s c).tokens ≡ some e
      → (get k s.tokens ≡ some e) ⊎ WasIssued s.expected_shared_key.bytes k e (c ∷ [])
  unfolding call
  get-call s (issue key ttl r) k e u h =
      let stored = get-issue_token x s key ttl r k u in
      let made : List ℕ = hash_token x (generate_token x r.random r.timestamp) in
      elim (Bool-cases (is_shared_key_valid s key)) [
        | inl valid ↦ elim (Bool-cases (bytes_beq made k)) [
          | inl same ↦ inr (
              inl (
                ((is_shared_key_valid_iff s key).0 valid).1,
                (bytes_beq_iff made k).0 same,
                ground arith,
              ))
          | inr other ↦ inl (ground arith)
        ]
        | inr invalid ↦ inl (ground arith)
      ]
  get-call s (validate token now) k e u h =
      let stored = get-validate_token x s token now k u in inl (ground arith)

  WasIssued-cons :
      (expected k : List ℕ) (e : ℕ) (c : Call) (cs : List Call)
      → WasIssued expected k e (c ∷ []) ⊎ WasIssued expected k e cs
      → WasIssued expected k e (c ∷ cs)
  WasIssued-cons expected k e (issue key ttl r) cs (inl (inl here)) = inl here
  WasIssued-cons expected k e (issue key ttl r) cs (inl (inr none_left)) = elim none_left [ ]
  WasIssued-cons expected k e (validate token now) cs (inl none_left) = elim none_left [ ]
  WasIssued-cons expected k e (issue key ttl r) cs (inr later) = inr later
  WasIssued-cons expected k e (validate token now) cs (inr later) = later

  get-calls :
      (s : TokenStore) (cs : List Call) (k : List ℕ) (e : ℕ)
      → IsUnique s.tokens
      → get k (calls s cs).tokens ≡ some e
      → (get k s.tokens ≡ some e) ⊎ WasIssued s.expected_shared_key.bytes k e cs
  unfolding calls
  get-calls s [] k e u h = inl h
  get-calls s (c ∷ cs) k e u h =
      let kept : PreSharedKey.bytes (call s c).expected_shared_key ≡ s.expected_shared_key.bytes =
        ap PreSharedKey.bytes (expected_key-call s c) in
      elim (get-calls (call s c) cs k e (call-IsUnique s c u) h) [
        | inr later ↦ inr (
            WasIssued-cons s.expected_shared_key.bytes k e c cs
              (inr (subst (λ key. WasIssued key k e cs) kept later)))
        | inl before ↦ elim (get-call s c k e u before) [
          | inl known ↦ inl known
          | inr here ↦ inr (WasIssued-cons s.expected_shared_key.bytes k e c cs (inl here))
        ]
      ]

  calls-IsUnique :
      (s : TokenStore) (cs : List Call) → IsUnique s.tokens → IsUnique (calls s cs).tokens
  unfolding calls
  calls-IsUnique s [] u = u
  calls-IsUnique s (c ∷ cs) u = calls-IsUnique (call s c) cs (call-IsUnique s c u)

  -- Whatever is called on a new store, a token is accepted only if an earlier call, with the expected
  -- key, issued a token with the same hash that has not expired.
  pub accepted-WasIssued :
      (key : PreSharedKey) (cs : List Call) (token : List ℕ) (now : ℕ)
      → (validate_token x (calls (new key) cs) token now).1 ≡ true
      → (e : ℕ) × WasIssued key.bytes (hash_token x token) e cs × (now < e)
  unfolding new get
  accepted-WasIssued key cs token now h =
      let (e, known, later) =
        (validate_token_iff x (calls (new key) cs) token now (calls-IsUnique (new key) cs tt)).0
          h in
      elim (get-calls (new key) cs (hash_token x token) e tt known) [
        | inl before ↦ ground arith
        | inr issued ↦ (e, issued, later)
      ]

  get-Spares :
      (s : TokenStore) (cs : List Call) (k : List ℕ) (e : ℕ)
      → IsUnique s.tokens
      → All (Spares k e) cs
      → get k s.tokens ≡ some e
      → get k (calls s cs).tokens ≡ some e
  unfolding calls call
  get-Spares s [] k e u spared h = h
  get-Spares s (issue key ttl r ∷ cs) k e u ((early, other), spared) h =
      let stored = get-issue_token x s key ttl r k u in
      let made : List ℕ = hash_token x (generate_token x r.random r.timestamp) in
      get-Spares (issue_token x s key ttl r).0 cs k e (issue_token-IsUnique x s key ttl r u) spared
        (ground (arith, bytes_beq_iff made k))
  get-Spares s (validate token now ∷ cs) k e u (early, spared) h =
      let stored = get-validate_token x s token now k u in
      get-Spares (validate_token x s token now).0 cs k e (validate_token-IsUnique x s token now u)
        spared (ground arith)

  -- A token that a store with no hash twice issues for a valid key is accepted until its expiry,
  -- whatever calls come before, as long as they are made before the expiry and none of them issues a
  -- token with the same hash.
  pub issued-validate :
      (s : TokenStore) (key : List ℕ) (ttl : ℕ) (r : Readings x) (cs : List Call) (now : ℕ)
      → IsUnique s.tokens
      → is_shared_key_valid s key ≡ true
      → All (Spares (hash_token x (generate_token x r.random r.timestamp)) (r.issued_at + ttl)) cs
      → now < r.issued_at + ttl
      → (validate_token x
          (calls (issue_token x s key ttl r).0 cs)
          (generate_token x r.random r.timestamp)
          now).1
        ≡ true
  issued-validate s key ttl r cs now u valid spared early =
      let made : List ℕ = hash_token x (generate_token x r.random r.timestamp) in
      let s' : TokenStore = (issue_token x s key ttl r).0 in
      let u' : IsUnique s'.tokens = issue_token-IsUnique x s key ttl r u in
      let stored : get made s'.tokens ≡ some (r.issued_at + ttl) =
        ground (arith, get-issue_token x s key ttl r made u, bytes_beq_iff made made) in
      (validate_token_iff x (calls s' cs) (generate_token x r.random r.timestamp) now
          (calls-IsUnique s' cs u')).1
        (r.issued_at + ttl, get-Spares s' cs made (r.issued_at + ttl) u' spared stored, early)
