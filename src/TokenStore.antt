-- ===== src/TokenStore.antt =====
-- slave/src/token_store.rs. A token is its bytes; an `Instant`, a `Duration` and a time
-- since the epoch are numbers of nanoseconds; every reading of a clock and of the random generator is
-- an argument. The lock makes each call atomic, so the threads of a store are a sequence of calls.
pub mod Laws
pub mod Issued
use tsn_fieldbus.Base.{
  ℕ, zero, suc, ◌+◌, ◌/◌, ◌%◌, List, [], ◌∷◌, ◌++◌, length, Option, none, some, Bool, true, false,
  ◌==◌, ltb, not, if◌then◌else◌, Result, ok, err,
}
use tsn_fieldbus.Base.Keys.{bytes_eq, bytes_beq}
use tsn_fieldbus.Base.Table.{Table, get, insert, remove, retain}
use tsn_fieldbus.Proto.{StatusCode, err_auth_failed}

-- `struct PreSharedKey(pub [u8; 32])`
pub record PreSharedKey : Type 0 where
  pub bytes : List ℕ

unfoldable pub from_bytes : List ℕ → Option PreSharedKey
from_bytes bytes = if not (length bytes == 32) then none else some (record { bytes = bytes })

pub record TokenRecord : Type 0 where
  pub token_hash : List ℕ
  pub expires_at : ℕ

pub record TokenStore : Type 0 where
  pub expected_shared_key : PreSharedKey
  pub tokens : Table (List ℕ) ℕ

unfoldable pub new : PreSharedKey → TokenStore
new key = record { expected_shared_key = key; tokens = [] }

unfoldable pub is_shared_key_valid : TokenStore → List ℕ → Bool
unfolding from_bytes
is_shared_key_valid s shared_key = elim (from_bytes shared_key) [
  | some key ↦ bytes_beq key.bytes s.expected_shared_key.bytes
  | none ↦ false
]

unfoldable pub prune_expired : Table (List ℕ) ℕ → ℕ → Table (List ℕ) ℕ
prune_expired tokens now = retain (λ expires_at. ltb now expires_at) tokens

unfoldable pub insert_token : TokenStore → TokenRecord → ℕ → TokenStore
unfolding prune_expired
insert_token s token now = record s {
  tokens = insert token.token_hash token.expires_at (prune_expired s.tokens now);
}

-- A digit of `{:x}`.
abbrev hex_digit : ℕ → ℕ
hex_digit d = if ltb d 10 then 48 + d else 87 + d

-- The digits of `{:x}` in front of `acc`. A `u128` has at most 32 of them.
abbrev lower_hex_digits : ℕ → ℕ → List ℕ → List ℕ
lower_hex_digits zero n acc = acc
lower_hex_digits (suc fuel) n acc =
    let more = lower_hex_digits fuel (n / 16) (hex_digit (n % 16) ∷ acc) in
    if ltb n 16 then hex_digit n ∷ acc else more

unfoldable pub lower_hex : ℕ → List ℕ
lower_hex n = lower_hex_digits 32 n []

-- The crates that the store calls: `Sha256::new().update(..).finalize()` and
-- `URL_SAFE_NO_PAD.encode`.
pub record Crates : Type 0 where
  pub sha256 : List ℕ → List ℕ
  pub encode_url_safe : List ℕ → List ℕ

module _ (x : Crates) where
  unfoldable pub hash_token : List ℕ → List ℕ
  hash_token token = x.sha256 token

  -- `format!("{token}.{timestamp:x}")`
  unfoldable pub generate_token : List ℕ → ℕ → List ℕ
  unfolding lower_hex
  generate_token random timestamp = x.encode_url_safe random ++ (46 ∷ lower_hex timestamp)

  -- What the operating system supplies to a call of `issue_token`.
  pub record Readings : Type 0 where
    pub random : List ℕ
    pub timestamp : ℕ
    pub issued_at : ℕ
    pub inserted_at : ℕ

  unfoldable pub issue_token :
      TokenStore → List ℕ → ℕ → Readings → TokenStore × Result StatusCode (List ℕ)
  unfolding is_shared_key_valid insert_token hash_token generate_token
  issue_token s shared_key ttl r =
      if not (is_shared_key_valid s shared_key) then (s, err err_auth_failed) else (
        insert_token s
            (record {
              token_hash = hash_token (generate_token r.random r.timestamp);
              expires_at = r.issued_at + ttl;
            })
            r.inserted_at,
        ok (generate_token r.random r.timestamp),
      )

  unfoldable pub validate_token : TokenStore → List ℕ → ℕ → TokenStore × Bool
  unfolding hash_token prune_expired
  validate_token s token now =
      let tokens = prune_expired s.tokens now in
      elim (get (hash_token token) tokens) [
        | none ↦ (record s { tokens = tokens }, false)
        | some expires_at ↦
            if ltb now expires_at
            then (record s { tokens = tokens }, true)
            else (record s { tokens = remove (hash_token token) tokens }, false)
      ]
