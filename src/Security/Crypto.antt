-- ===== src/Security/Crypto.antt =====
-- common/src/security/crypto.rs. BLAKE3 is an external crate: a keyed hasher that absorbs bytes, and
-- whose digest has 32 bytes.
pub mod Compare
use tsn_fieldbus.Base.{ℕ, ◌≡◌, zero, suc, List, [], ◌∷◌, ◌++◌, length, take, Bool, ◌==◌, All}
use tsn_fieldbus.Base.Bytes.{IsByte, IsBytes}
use tsn_fieldbus.Security.Footer.{auth_tag_size}
use Prim.Native.Nat.{bit_or, bit_xor}

-- `blake3::Hasher`.
pub record Blake3 : Type 1 where
  pub Hasher : Type 0
  pub new_keyed : List ℕ → Hasher
  pub update : Hasher → List ℕ → Hasher
  pub finalize : Hasher → List ℕ
  pub finalize-IsBytes : (h : Hasher) → IsBytes 32 (finalize h)

module _ (b : Blake3) where
  open b use {Hasher, new_keyed, update, finalize}

  -- `for part in parts { hasher.update(part); }`
  update_all : Hasher → List (List ℕ) → Hasher
  update_all h [] = h
  update_all h (part ∷ parts) = update_all (update h part) parts

  pub calculate_hmac : List ℕ → List (List ℕ) → List ℕ
  calculate_hmac secret parts = take auth_tag_size (finalize (update_all (new_keyed secret) parts))

-- `diff |= left ^ right` over the zipped bytes.
unfoldable pub accumulate : ℕ → List ℕ → List ℕ → ℕ
accumulate diff [] _ = diff
accumulate diff (l ∷ ls) [] = diff
accumulate diff (l ∷ ls) (r ∷ rs) = accumulate (bit_or diff (bit_xor l r)) ls rs

module _ (b : Blake3) where
  pub verify_hmac : List ℕ → List (List ℕ) → List ℕ → Bool
  verify_hmac secret parts expected_tag =
      accumulate 0 (calculate_hmac b secret parts) expected_tag == 0
