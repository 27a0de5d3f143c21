-- ===== src/Examples/Tokens.antt =====
-- Examples on tokens.
use tsn_fieldbus.Base.{ℕ, ◌<◌, ◌≡◌, refl, arith, List, [], ◌∷◌, true}
use tsn_fieldbus.Base.Bytes.{to_be}
use tsn_fieldbus.Base.Keys.{bytes_eq}
use tsn_fieldbus.TokenStore.{
  PreSharedKey, TokenStore, new, is_shared_key_valid, from_bytes, Crates, hash_token,
  generate_token, lower_hex, Readings, issue_token, validate_token,
}
use tsn_fieldbus.TokenStore.Issued
use tsn_fieldbus.TokenStore.Issued.{calls, WasIssued, Spares, accepted-WasIssued, issued-validate}
use tsn_fieldbus.Examples.{secret}

-- A hash and an encoding that keep their input.
abbrev plain : Crates
plain = record { sha256 = λ bytes. bytes; encode_url_safe = λ bytes. bytes }

abbrev key : PreSharedKey
key = record { bytes = secret }

abbrev readings : Readings plain
readings = record { random = 7 ∷ 8 ∷ []; timestamp = 0x1f; issued_at = 1000; inserted_at = 1001 }

abbrev token : List ℕ
unfolding generate_token lower_hex
token = generate_token plain (7 ∷ 8 ∷ []) 0x1f

token_bytes : token ≡ 7 ∷ 8 ∷ 46 ∷ 49 ∷ 102 ∷ []
unfolding token
token_bytes = refl

abbrev served : List (Issued.Call plain)
served = Issued.issue secret 600 readings ∷ Issued.validate (1 ∷ []) 1200 ∷ []

is_valid : is_shared_key_valid (new key) secret ≡ true
unfolding is_shared_key_valid from_bytes to_be new
is_valid = refl

issued-validate_example :
    (validate_token plain
      (calls plain
        (issue_token plain (new key) secret 600 readings).0
        (Issued.validate (1 ∷ []) 1200 ∷ []))
      (generate_token plain readings.random readings.timestamp)
      1500).1
    ≡ true
unfolding new
issued-validate_example =
    issued-validate plain (new key) secret 600 readings (Issued.validate (1 ∷ []) 1200 ∷ []) 1500 tt
      is_valid (omega arith, tt) (omega arith)

accepted : (validate_token plain (calls plain (new key) served) token 1500).1 ≡ true
unfolding calls Issued.call token
accepted = issued-validate_example

accepted-WasIssued_example :
    (e : ℕ) × WasIssued plain secret (hash_token plain token) e served × (1500 < e)
accepted-WasIssued_example = accepted-WasIssued plain key served token 1500 accepted

abbrev stored : TokenStore
stored = record { expected_shared_key = key; tokens = (token, 1600) ∷ [] }
