-- ===== src/SlaveHardware/Bits.antt =====
-- Single bits of a byte, as slave/src/hardware_mock.rs reads and writes them with masks.
use tsn_fieldbus.Base.{
  ℕ, zero, suc, ◌-◌, ◌^◌, ◌<◌, ◌≡◌, refl, sym, ltb, arith, Bool, true, false, not, ◌==◌, ◌&&◌,
  if◌then◌else◌,
}
use Prim.Native.Nat.{bit_and, bit_or}

-- `(byte & (1u8 << k)) != 0`
unfoldable pub test_bit : ℕ → ℕ → Bool
test_bit byte k = not (bit_and byte (2 ^ k) == 0)

-- `byte |= mask` for a set bit, `byte &= !mask` for another.
unfoldable pub write_bit : ℕ → Bool → ℕ → ℕ
write_bit k true byte = bit_or byte (2 ^ k)
write_bit k false byte = bit_and byte (255 - 2 ^ k)

-- A test of all positions of a byte, or of all bytes, is run.
every : (ℕ → Bool) → ℕ → Bool
every test zero = true
every test (suc last) = every test last && test last

every-at :
    (test : ℕ → Bool) (count position : ℕ)
    → position < count
    → every test count ≡ true
    → test position ≡ true
unfolding every
every-at test zero position below passed = absurd (omega arith)
every-at test (suc last) position below passed = ground (arith, every-at test last position)

abbrev same_bool : Bool → Bool → Bool
same_bool true b = b
same_bool false b = not b

abbrev written : Bool → ℕ → ℕ → ℕ → Bool
written v k j byte =
    same_bool (test_bit (write_bit k v byte) j) (if k == j then v else test_bit byte j)

table :
    every
      (λ k. every (λ j. every (λ byte. written true k j byte && written false k j byte) 256) 8)
      8
    ≡ true
unfolding every test_bit write_bit
table = refl

same_bool-eq : (a b : Bool) → same_bool a b ≡ true → a ≡ b
same_bool-eq true b h = sym h
same_bool-eq false true h = absurd (ground arith)
same_bool-eq false false h = refl

and_split : (a b : Bool) → (a && b) ≡ true → (a ≡ true) × (b ≡ true)
and_split true b h = (refl, h)
and_split false b h = absurd (ground arith)

-- Writing a bit of a byte sets this bit and keeps the others.
pub test_bit-write_bit :
    (k j byte : ℕ) (v : Bool)
    → k < 8
    → j < 8
    → byte < 256
    → test_bit (write_bit k v byte) j ≡ (if k == j then v else test_bit byte j)
test_bit-write_bit k j byte v hk hj hb = same_bool-eq _ _ (of v)
  where
    both : (written true k j byte ≡ true) × (written false k j byte ≡ true)
    both =
        and_split (written true k j byte) (written false k j byte)
          (every-at _ 256 byte hb (every-at _ 8 j hj (every-at _ 8 k hk table)))

    of : (v : Bool) → written v k j byte ≡ true
    of true = both.0
    of false = both.1

bytes_table :
    every
      (λ k. every (λ byte. ltb (write_bit k true byte) 256 && ltb (write_bit k false byte) 256) 256)
      8
    ≡ true
unfolding every write_bit
bytes_table = refl

-- A byte stays a byte.
pub write_bit-IsByte : (k byte : ℕ) (v : Bool) → k < 8 → byte < 256 → write_bit k v byte < 256
write_bit-IsByte k byte v hk hb = of v
  where
    both : (ltb (write_bit k true byte) 256 ≡ true) × (ltb (write_bit k false byte) 256 ≡ true)
    both = and_split _ _ (every-at _ 256 byte hb (every-at _ 8 k hk bytes_table))

    of : (v : Bool) → write_bit k v byte < 256
    of true = ground (arith, both)
    of false = ground (arith, both)

zero_table : every (λ k. not (test_bit 0 k)) 8 ≡ true
unfolding every test_bit
zero_table = refl

pub no_bit : (k : ℕ) → k < 8 → test_bit 0 k ≡ false
no_bit k h = ground (arith, every-at (λ k. not (test_bit 0 k)) 8 k h zero_table)
