-- ===== src/Base/Bytes.antt =====
-- Big-endian integers and readers over byte lists: `to_be_bytes`, `from_be_bytes`, and the
-- `byteorder` reads of a `Cursor`, which fail at the end of the input.
use tsn_fieldbus.Base.Lists.{length, take, drop, All, All-append, length-append}
use tsn_fieldbus.Base.Outcome.{Result, ok, err, ◌>>=◌}
use Prim.Native.Nat.{ℕ, zero, suc, ◌+◌, ◌*◌, ◌/◌, ◌%◌, ◌^◌, ◌≤◌, ◌<◌}
use mathlib.Core.Path.{◌≡◌, refl, ◌∙◌}
use mathlib.Core.List.{List, [], ◌∷◌, ◌++◌, append-nil, append_assoc}
use native.Mathlib.Omega.{arith}

abbrev pub IsByte : ℕ → Type 0
IsByte b = b < 256

-- `[u8; n]`
abbrev pub IsBytes : ℕ → List ℕ → Type 0
IsBytes n bs = (length bs ≡ n) × All IsByte bs

-- The `k` lowest bytes of a number, the highest first.
unfoldable pub to_be : ℕ → ℕ → List ℕ
to_be zero n = []
to_be (suc k) n = to_be k (n / 256) ++ (n % 256 ∷ [])

unfoldable pub from_be_acc : ℕ → List ℕ → ℕ
from_be_acc acc [] = acc
from_be_acc acc (b ∷ bs) = from_be_acc (acc * 256 + b) bs

unfoldable pub from_be : List ℕ → ℕ
unfolding from_be_acc
from_be bs = from_be_acc 0 bs

pub data IoError : Type 0 where
  unexpected_eof : IoError

abbrev pub Reader : Type 0 → Type 0
Reader A = List ℕ → Result IoError (A × List ℕ)

-- `read_exact` into a buffer of `n` bytes.
unfoldable pub read_exact : ℕ → Reader (List ℕ)
read_exact zero bs = ok ([], bs)
read_exact (suc n) [] = err unexpected_eof
read_exact (suc n) (b ∷ bs) = read_exact n bs >>= λ (v, rest). ok (b ∷ v, rest)

unfoldable pub read_u8 : Reader ℕ
read_u8 [] = err unexpected_eof
read_u8 (b ∷ bs) = ok (b, bs)

unfoldable pub read_u16 : Reader ℕ
unfolding read_exact
read_u16 bs = read_exact 2 bs >>= λ (v, rest). ok (from_be v, rest)

pub length-to_be : (k n : ℕ) → length (to_be k n) ≡ k
unfolding to_be
length-to_be zero n = refl
length-to_be (suc k) n =
    omega (arith, length-append (to_be k (n / 256)) (n % 256 ∷ []), length-to_be k (n / 256))

pub to_be-IsByte : (k n : ℕ) → All IsByte (to_be k n)
unfolding to_be
to_be-IsByte zero n = tt
to_be-IsByte (suc k) n =
    All-append IsByte (to_be k (n / 256)) (n % 256 ∷ []) (to_be-IsByte k (n / 256)) (omega arith)

pub to_be-IsBytes : (k n : ℕ) → IsBytes k (to_be k n)
to_be-IsBytes k n = (length-to_be k n, to_be-IsByte k n)

from_be_acc-snoc :
    (acc : ℕ) (bs : List ℕ) (b : ℕ)
    → from_be_acc acc (bs ++ (b ∷ [])) ≡ from_be_acc acc bs * 256 + b
unfolding from_be_acc
from_be_acc-snoc acc [] b = refl
from_be_acc-snoc acc (x ∷ bs) b = from_be_acc-snoc (acc * 256 + x) bs b

-- A number that fits `k` bytes is read back from them.
pub from_be-to_be : (k n : ℕ) → n < 256 ^ k → from_be (to_be k n) ≡ n
unfolding to_be from_be
from_be-to_be zero n h = omega arith
from_be-to_be (suc k) n h = omega (
  arith,
  from_be_acc-snoc 0 (to_be k (n / 256)) (n % 256),
  from_be-to_be k (n / 256) (omega arith),
)

to_be-from_be_acc :
    (bs : List ℕ) (acc j n : ℕ)
    → n ≡ j + length bs
    → All IsByte bs
    → to_be n (from_be_acc acc bs) ≡ to_be j acc ++ bs
unfolding to_be from_be_acc
to_be-from_be_acc [] acc j n e h = rw append-nil (let n≡j : n ≡ j = omega arith in rw n≡j)
to_be-from_be_acc (b ∷ bs) acc j n e h =
    to_be-from_be_acc bs (acc * 256 + b) (suc j) n (omega arith) h.1
    ∙ rw (quotient, remainder) (append_assoc (to_be j acc) (b ∷ []) bs)
  where
    quotient : (acc * 256 + b) / 256 ≡ acc
    quotient = omega arith

    remainder : (acc * 256 + b) % 256 ≡ b
    remainder = omega arith

-- `k` bytes are written back from the number that they stand for.
pub to_be-from_be : (k : ℕ) (bs : List ℕ) → IsBytes k bs → to_be k (from_be bs) ≡ bs
unfolding to_be from_be
to_be-from_be k bs (e, h) = to_be-from_be_acc bs 0 0 k (omega (arith, e)) h

-- A read of `n` bytes cuts the input, and fails when it is shorter.
pub read_exact_enough :
    (n : ℕ) (bs : List ℕ) → n ≤ length bs → read_exact n bs ≡ ok (take n bs, drop n bs)
unfolding read_exact
read_exact_enough zero bs h = refl
read_exact_enough (suc n) [] h = absurd (omega arith)
read_exact_enough (suc n) (b ∷ bs) h = rw (read_exact_enough n bs (omega arith))

pub read_exact_short : (n : ℕ) (bs : List ℕ) → length bs < n → read_exact n bs ≡ err unexpected_eof
unfolding read_exact
read_exact_short zero bs h = absurd (omega arith)
read_exact_short (suc n) [] h = refl
read_exact_short (suc n) (b ∷ bs) h = rw (read_exact_short n bs (omega arith))

pub read_exact-append :
    (n : ℕ) (v rest : List ℕ) → length v ≡ n → read_exact n (v ++ rest) ≡ ok (v, rest)
unfolding read_exact
read_exact-append zero [] rest h = refl
read_exact-append zero (b ∷ v) rest h = absurd (omega arith)
read_exact-append (suc n) [] rest h = absurd (omega arith)
read_exact-append (suc n) (b ∷ v) rest h = rw (read_exact-append n v rest (omega arith))

pub read_u16-to_be :
    (n : ℕ) (rest : List ℕ) → n < 256 ^ 2 → read_u16 (to_be 2 n ++ rest) ≡ ok (n, rest)
unfolding read_u16
read_u16-to_be n rest h =
    rw (read_exact-append 2 (to_be 2 n) rest (length-to_be 2 n)) (rw (from_be-to_be 2 n h))
