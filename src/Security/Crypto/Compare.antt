-- ===== src/Security/Crypto/Compare.antt =====
-- The comparison that accumulates differences decides equality of tags.
use tsn_fieldbus.Base.{
  ℕ, zero, suc, ◌/◌, ◌%◌, ◌≤◌, max, ◌≡◌, refl, ap, ◌↔◌, arith, List, [], ◌∷◌, length, length-take,
  true, ==_iff, All-take,
}
use tsn_fieldbus.Base.Bytes.{IsByte, IsBytes}
use tsn_fieldbus.Security.Crypto.{Blake3, calculate_hmac, accumulate, verify_hmac, update_all}
use Prim.Native.Nat.{bit_or, bit_xor, digits, differ, bit_or-bitwise, bit_xor-bitwise}

differ-eq-zero : (x y : ℕ) → differ x y ≡ 0 → x ≡ y
differ-eq-zero zero y h = omega arith
differ-eq-zero (suc x) zero h = absurd (omega arith)
differ-eq-zero (suc x) (suc y) h = ap suc (differ-eq-zero x y h)

differ_self : (x : ℕ) → differ x x ≡ 0
differ_self zero = refl
differ_self (suc x) = differ_self x

xor_digits-eq-zero : (n a b : ℕ) → a ≤ n → digits (λ c. c) differ n a b ≡ 0 → a ≡ b
xor_digits-eq-zero zero zero b h e = omega arith
xor_digits-eq-zero zero (suc a) b h e = absurd (omega arith)
xor_digits-eq-zero (suc n) zero b h e = omega arith
xor_digits-eq-zero (suc n) (suc a) b h e =
    let high : suc a / 2 ≡ b / 2 =
      xor_digits-eq-zero n (suc a / 2) (b / 2) (omega arith) (omega arith) in
    let low : suc a % 2 ≡ b % 2 = differ-eq-zero (suc a % 2) (b % 2) (omega arith) in omega arith

xor_digits_self : (n a : ℕ) → a ≤ n → digits (λ c. c) differ n a a ≡ 0
xor_digits_self zero zero h = refl
xor_digits_self zero (suc a) h = absurd (omega arith)
xor_digits_self (suc n) zero h = refl
xor_digits_self (suc n) (suc a) h =
    omega (arith, xor_digits_self n (suc a / 2) (omega arith), differ_self (suc a % 2))

pub bit_xor-eq-zero : (a b : ℕ) → (bit_xor a b ≡ 0) ↔ (a ≡ b)
bit_xor-eq-zero a b = (
  λ e. xor_digits-eq-zero a a b (omega arith) (omega (arith, bit_xor-bitwise a b)),
  λ e. rw (← e) (omega (arith, bit_xor-bitwise a a, xor_digits_self a a (omega arith))),
)

or_digits-eq-zero : (n a b : ℕ) → a ≤ n → digits (λ c. c) max n a b ≡ 0 → (a ≡ 0) × (b ≡ 0)
or_digits-eq-zero zero zero b h e = (refl, e)
or_digits-eq-zero zero (suc a) b h e = absurd (omega arith)
or_digits-eq-zero (suc n) zero b h e = (refl, e)
or_digits-eq-zero (suc n) (suc a) b h e =
    omega (arith, or_digits-eq-zero n (suc a / 2) (b / 2) (omega arith) (omega arith))

pub bit_or-eq-zero : (a b : ℕ) → bit_or a b ≡ 0 → (a ≡ 0) × (b ≡ 0)
bit_or-eq-zero a b e = or_digits-eq-zero a a b (omega arith) (omega (arith, bit_or-bitwise a b))

accumulate-zero :
    (d : ℕ) (ls rs : List ℕ) → length ls ≡ length rs → accumulate d ls rs ≡ 0 → (d ≡ 0) × (ls ≡ rs)
unfolding accumulate
accumulate-zero d [] [] h e = (e, refl)
accumulate-zero d [] (r ∷ rs) h e = absurd (omega arith)
accumulate-zero d (l ∷ ls) [] h e = absurd (omega arith)
accumulate-zero d (l ∷ ls) (r ∷ rs) h e =
    let (both, rest) = accumulate-zero (bit_or d (bit_xor l r)) ls rs (omega arith) e in
    let (none_yet, same) = bit_or-eq-zero d (bit_xor l r) both in
    (none_yet, cc ((bit_xor-eq-zero l r).0 same))

accumulate_self : (ls : List ℕ) → accumulate 0 ls ls ≡ 0
unfolding accumulate
accumulate_self [] = refl
accumulate_self (l ∷ ls) = rw ((bit_xor-eq-zero l l).1 refl) (accumulate_self ls)

module _ (b : Blake3) where
  open b use {finalize, finalize-IsBytes, new_keyed}

  -- A tag has 8 bytes.
  pub calculate_hmac-IsBytes :
      (secret : List ℕ) (parts : List (List ℕ)) → IsBytes 8 (calculate_hmac b secret parts)
  unfolding calculate_hmac
  calculate_hmac-IsBytes secret parts =
      let (len, bytes) = finalize-IsBytes (update_all b (new_keyed secret) parts) in
      (
        omega (arith, length-take 8 (finalize (update_all b (new_keyed secret) parts))),
        All-take IsByte 8 _ bytes,
      )

  -- Verification accepts an 8 byte tag exactly when it is the tag that the secret gives the message.
  pub verify_hmac_iff :
      (secret : List ℕ) (parts : List (List ℕ)) (tag : List ℕ)
      → length tag ≡ 8
      → (verify_hmac b secret parts tag ≡ true) ↔ (calculate_hmac b secret parts ≡ tag)
  unfolding verify_hmac
  verify_hmac_iff secret parts tag h = (
    λ e.
        (accumulate-zero 0 (calculate_hmac b secret parts) tag
          (omega (arith, calculate_hmac-IsBytes secret parts)) ((==_iff _ 0).0 e)).1,
    λ e. rw (← e, accumulate_self (calculate_hmac b secret parts)) refl,
  )
