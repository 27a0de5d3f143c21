-- ===== src/SlaveHardware/Images.antt =====
-- Single bits of a process image, after writes of single bits and cuts.
use tsn_fieldbus.Base.{
  ℕ, zero, suc, ◌+◌, ◌-◌, ◌*◌, ◌/◌, ◌%◌, ◌≤◌, ◌<◌, ◌≡◌, refl, subst, ap, ◌∙◌, arith, List, [], ◌∷◌,
  length, get_or, All, Bool, true, false, Bool-cases, inl, inr, ltb, leb, ◌==◌, ◌&&◌, ◌||◌,
  if◌then◌else◌, ==_iff,
}
use tsn_fieldbus.Base.Bytes.{IsByte}
use tsn_fieldbus.SlaveHardware.{update_at, image_bit, zeros, write_bits, read_bits}
use tsn_fieldbus.SlaveHardware.Bits.{
  test_bit, write_bit, test_bit-write_bit, write_bit-IsByte, no_bit,
}

pub length-update_at : (xs : List ℕ) (i : ℕ) (f : ℕ → ℕ) → length (update_at xs i f) ≡ length xs
unfolding update_at
length-update_at [] i f = refl
length-update_at (x ∷ xs) zero f = refl
length-update_at (x ∷ xs) (suc i) f = ap suc (length-update_at xs i f)

get_or-update_at :
    (xs : List ℕ) (i j : ℕ) (f : ℕ → ℕ)
    → i < length xs
    → get_or (update_at xs i f) j 0 ≡ (if i == j then f (get_or xs i 0) else get_or xs j 0)
unfolding update_at
get_or-update_at [] i j f h = absurd (omega arith)
get_or-update_at (x ∷ xs) zero zero f h = refl
get_or-update_at (x ∷ xs) zero (suc j) f h = ground arith
get_or-update_at (x ∷ xs) (suc i) zero f h = ground arith
get_or-update_at (x ∷ xs) (suc i) (suc j) f h = ground (arith, get_or-update_at xs i j f)

get_or-IsByte : (xs : List ℕ) (i : ℕ) → All IsByte xs → get_or xs i 0 < 256
get_or-IsByte [] i h = omega arith
get_or-IsByte (x ∷ xs) zero h = h.0
get_or-IsByte (x ∷ xs) (suc i) h = get_or-IsByte xs i h.1

write_bit-All :
    (xs : List ℕ) (i k : ℕ) (v : Bool)
    → k < 8
    → All IsByte xs
    → All IsByte (update_at xs i (write_bit k v))
unfolding update_at
write_bit-All [] i k v hk h = tt
write_bit-All (x ∷ xs) zero k v hk h = (write_bit-IsByte k x v hk h.0, h.1)
write_bit-All (x ∷ xs) (suc i) k v hk h = (h.0, write_bit-All xs i k v hk h.1)

-- Writing a bit of an image sets this bit and keeps the others.
image_bit-write :
    (image : List ℕ) (n m : ℕ) (v : Bool)
    → All IsByte image
    → n < 8 * length image
    → image_bit (update_at image (n / 8) (write_bit (n % 8) v)) m
      ≡ (if n == m then v else image_bit image m)
unfolding image_bit
image_bit-write image n m v bytes h =
    let at : get_or (update_at image (n / 8) (write_bit (n % 8) v)) (m / 8) 0 ≡ (
        if n / 8 == m / 8
        then write_bit (n % 8) v (get_or image (n / 8) 0)
        else get_or image (m / 8) 0) =
      get_or-update_at image (n / 8) (m / 8) (write_bit (n % 8) v) (omega arith) in
    let bit : test_bit (write_bit (n % 8) v (get_or image (n / 8) 0)) (m % 8)
        ≡ (if n % 8 == m % 8 then v else test_bit (get_or image (n / 8) 0) (m % 8)) =
      test_bit-write_bit (n % 8) (m % 8) (get_or image (n / 8) 0) v (omega arith) (omega arith)
        (get_or-IsByte image (n / 8) bytes) in
    elim (Bool-cases (n / 8 == m / 8)) [
      | inr other ↦ rw (at, other) (ground arith)
      | inl same ↦
          let here : n / 8 ≡ m / 8 = (==_iff (n / 8) (m / 8)).0 same in
          rw (at, same, bit, here) (same_byte n m here)
    ]
  where
    same_byte :
        (n m : ℕ)
        → n / 8 ≡ m / 8
        → (if n % 8 == m % 8 then v else test_bit (get_or image (m / 8) 0) (m % 8))
          ≡ (if n == m then v else test_bit (get_or image (m / 8) 0) (m % 8))
    same_byte n m here = ground arith

-- Whether `m` is one of the `rest` numbers from `i` on.
abbrev pub within : ℕ → ℕ → ℕ → Bool
within i rest m = leb i m && ltb m (i + rest)

-- The loop of a write sets the bits of the field to those of the source, and keeps the others.
pub write_bits-field :
    (source : List ℕ) (start rest i : ℕ) (image : List ℕ)
    → All IsByte image
    → start + i + rest ≤ 8 * length image
    → let out = write_bits source start rest i image in
      (length out ≡ length image)
      × ((m : ℕ)
          → image_bit out m ≡ (
              if within (start + i) rest m
              then image_bit source (m - start)
              else image_bit image m))
unfolding write_bits
write_bits-field source start zero i image bytes h = (refl, λ m. ground arith)
write_bits-field source start (suc rest) i image bytes h =
    let n : ℕ = start + i in
    let v : Bool = image_bit source i in
    let image' : List ℕ = update_at image (n / 8) (write_bit (n % 8) v) in
    let same : length image' ≡ length image = length-update_at image (n / 8) _ in
    let (len, later) =
      write_bits-field source start rest (suc i) image'
        (write_bit-All image (n / 8) (n % 8) v (omega arith) bytes) (omega (arith, same)) in
    (
      len ∙ same,
      λ m. later m ∙ ground (arith, image_bit-write image n m v bytes (omega arith), at_start m),
    )
  where
    at_start : (m : ℕ) → start + i ≡ m → image_bit source (m - start) ≡ image_bit source i
    at_start m here = (let same : m - start ≡ i = omega arith in rw same)

-- The loop of a read sets the bits of the field that are set in the image, and keeps the others.
pub read_bits-field :
    (image : List ℕ) (start rest i : ℕ) (out : List ℕ)
    → All IsByte out
    → i + rest ≤ 8 * length out
    → let r = read_bits image start rest i out in
      (length r ≡ length out)
      × ((m : ℕ)
          → image_bit r m ≡ (image_bit out m || (within i rest m && image_bit image (start + m))))
unfolding read_bits
read_bits-field image start zero i out bytes h = (refl, λ m. ground arith)
read_bits-field image start (suc rest) i out bytes h =
    elim (Bool-cases (image_bit image (start + i))) [
      | inr clear ↦ rw clear (
          let (len, later) = read_bits-field image start rest (suc i) out bytes (omega arith) in
          (len, λ m. later m ∙ ground (arith, skipped m clear)))
      | inl set ↦ rw set (
          let out' : List ℕ = update_at out (i / 8) (write_bit (i % 8) true) in
          let same : length out' ≡ length out = length-update_at out (i / 8) _ in
          let (len, later) =
            read_bits-field image start rest (suc i) out'
              (write_bit-All out (i / 8) (i % 8) true (omega arith) bytes) (omega (arith, same)) in
          (
            len ∙ same,
            λ m.
                later m
                ∙ ground (arith, image_bit-write out i m true bytes (omega arith), skipped m set),
          ))
    ]
  where
    skipped :
        {v : Bool} (m : ℕ)
        → image_bit image (start + i) ≡ v
        → i ≡ m
        → image_bit image (start + m) ≡ v
    skipped {v} m at here = subst (λ j. image_bit image (start + j) ≡ v) here at

pub zeros-IsByte : (n : ℕ) → All IsByte (zeros n)
unfolding zeros
zeros-IsByte zero = tt
zeros-IsByte (suc n) = (omega arith, zeros-IsByte n)

pub length-zeros : (n : ℕ) → length (zeros n) ≡ n
unfolding zeros
length-zeros zero = refl
length-zeros (suc n) = ap suc (length-zeros n)

get_or-zeros : (n i : ℕ) → get_or (zeros n) i 0 ≡ 0
unfolding zeros
get_or-zeros zero i = refl
get_or-zeros (suc n) zero = refl
get_or-zeros (suc n) (suc i) = get_or-zeros n i

pub image_bit-zeros : (n m : ℕ) → image_bit (zeros n) m ≡ false
unfolding image_bit
image_bit-zeros n m = rw (get_or-zeros n (m / 8)) (no_bit (m % 8) (omega arith))
