-- ===== src/SlaveHardware/Cuts.antt =====
-- Single bits of a process image that is cut and put together from whole bytes.
use tsn_fieldbus.Base.{
  ℕ, zero, suc, ◌+◌, ◌-◌, ◌*◌, ◌/◌, ◌%◌, ◌≤◌, ◌<◌, ◌≡◌, refl, sym, ap, ◌∙◌, arith, List, [], ◌∷◌,
  ◌++◌, length, take, drop, get_or, length-take, true, false, if◌then◌else◌,
}
use native.Mathlib.Decide.{dec_lt}
use tsn_fieldbus.SlaveHardware.{image_bit}
use tsn_fieldbus.SlaveHardware.Images.{within}

get_or-drop : (n i : ℕ) (xs : List ℕ) → get_or (drop n xs) i 0 ≡ get_or xs (n + i) 0
get_or-drop zero i xs = ap (λ j. get_or xs j 0) (omega arith)
get_or-drop (suc n) i [] = refl
get_or-drop (suc n) i (x ∷ xs) =
    get_or-drop n i xs
    ∙ (let next : suc n + i ≡ suc (n + i) = omega arith in ap (λ j. get_or (x ∷ xs) j 0) (sym next))

get_or-take : (n i : ℕ) (xs : List ℕ) → i < n → get_or (take n xs) i 0 ≡ get_or xs i 0
get_or-take zero i xs h = absurd (omega arith)
get_or-take (suc n) i [] h = refl
get_or-take (suc n) zero (x ∷ xs) h = refl
get_or-take (suc n) (suc i) (x ∷ xs) h = get_or-take n i xs (omega arith)

get_or-append_left :
    (i : ℕ) (xs ys : List ℕ) → i < length xs → get_or (xs ++ ys) i 0 ≡ get_or xs i 0
get_or-append_left i [] ys h = absurd (omega arith)
get_or-append_left zero (x ∷ xs) ys h = refl
get_or-append_left (suc i) (x ∷ xs) ys h = get_or-append_left i xs ys (omega arith)

get_or-append_right :
    (i : ℕ) (xs ys : List ℕ) → length xs ≤ i → get_or (xs ++ ys) i 0 ≡ get_or ys (i - length xs) 0
get_or-append_right i [] ys h = ap (λ j. get_or ys j 0) (omega arith)
get_or-append_right zero (x ∷ xs) ys h = absurd (omega arith)
get_or-append_right (suc i) (x ∷ xs) ys h =
    get_or-append_right i xs ys (omega arith) ∙ ap (λ j. get_or ys j 0) (omega arith)

-- The bits of a cut of whole bytes.
pub image_bit-cut :
    (image : List ℕ) (offset span m : ℕ)
    → m < 8 * span
    → image_bit (take span (drop offset image)) m ≡ image_bit image (8 * offset + m)
unfolding image_bit
image_bit-cut image offset span m h =
    let byte : (8 * offset + m) / 8 ≡ offset + m / 8 = omega arith in
    let bit : (8 * offset + m) % 8 ≡ m % 8 = omega arith in
    rw (
      byte,
      bit,
      get_or-take span (m / 8) (drop offset image) (omega arith),
      get_or-drop offset (m / 8) image,
    )

-- The bits of an image of which whole bytes are replaced.
pub image_bit-replace :
    (image bytes : List ℕ) (offset m : ℕ)
    → offset + length bytes ≤ length image
    → image_bit (take offset image ++ (bytes ++ drop (offset + length bytes) image)) m ≡ (
        if within (8 * offset) (8 * length bytes) m
        then image_bit bytes (m - 8 * offset)
        else image_bit image m)
unfolding image_bit
image_bit-replace image bytes offset m h =
    let i : ℕ = m / 8 in
    let rest : List ℕ = drop (offset + length bytes) image in
    let front : length (take offset image) ≡ offset = omega (arith, length-take offset image) in
    elim (dec_lt i offset) [
      | yes before ↦
          let outside : within (8 * offset) (8 * length bytes) m ≡ false = ground arith in
          rw (
            outside,
            get_or-append_left i (take offset image) (bytes ++ rest) (omega (arith, front)),
            get_or-take offset i image before,
          )
      | no after ↦
          let skip : get_or (take offset image ++ (bytes ++ rest)) i 0
              ≡ get_or (bytes ++ rest) (i - offset) 0 =
            get_or-append_right i (take offset image) (bytes ++ rest) (omega (arith, front))
            ∙ rw front in
          elim (dec_lt (i - offset) (length bytes)) [
            | yes in_field ↦
                let inside : within (8 * offset) (8 * length bytes) m ≡ true = ground arith in
                let byte : (m - 8 * offset) / 8 ≡ i - offset = omega arith in
                let bit : (m - 8 * offset) % 8 ≡ m % 8 = omega arith in
                rw (inside, skip, get_or-append_left (i - offset) bytes rest in_field, byte, bit)
            | no behind ↦
                let outside : within (8 * offset) (8 * length bytes) m ≡ false = ground arith in
                let there : offset + length bytes + (i - offset - length bytes) ≡ i = omega arith in
                rw (
                  outside,
                  skip,
                  get_or-append_right (i - offset) bytes rest (omega arith),
                  get_or-drop (offset + length bytes) (i - offset - length bytes) image,
                  there,
                )
          ]
    ]
