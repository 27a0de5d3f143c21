-- ===== src/SlaveHardware/Fields.antt =====
-- What is read from and written to a field of a process image.
use tsn_fieldbus.Base.{
  ℕ, ◌+◌, ◌-◌, ◌*◌, ◌%◌, ◌≤◌, ◌<◌, ◌≡◌, ◌≢◌, max, not, refl, ap, ◌∙◌, arith, List, ◌++◌, length,
  take, drop, length-append, length-take, length-drop, All, false, Bool-cases, inl, inr, ltb, leb,
  ◌==◌, ◌||◌, if◌then◌else◌, ok, err, u32_max,
}
use tsn_fieldbus.Base.Bytes.{IsByte}
use tsn_fieldbus.Proto.{Position, err_invalid_len}
use tsn_fieldbus.L2.Cycle.{bit_len_to_byte_len}
use tsn_fieldbus.SlaveHardware.{
  DummyHardware, image_bit, span_byte_len, is_whole, zeros, read_bits, write_bits, read_outputs,
  write_inputs,
}
use tsn_fieldbus.SlaveHardware.Cuts.{image_bit-cut, image_bit-replace}
use tsn_fieldbus.SlaveHardware.Images.{
  within, write_bits-field, read_bits-field, zeros-IsByte, length-zeros, image_bit-zeros,
}

-- The first bit of a field.
abbrev pub first_bit : Position → ℕ
first_bit position = 8 * position.byte_offset + position.bit_offset

-- The field fits the image: its span is not empty beyond the end, and no `u32` is exceeded.
pub record Fits (image : List ℕ) (position : Position) : Type 0 where
  pub starts : position.byte_offset < length image
  pub ends : position.byte_offset + span_byte_len position ≤ length image
  pub small : position.bit_offset + position.bit_len ≤ u32_max

-- A field that fits the output image is read as just enough bytes for its length, whose bits are the
-- bits of the field.
pub read_outputs-bits :
    (h : DummyHardware) (position : Position)
    → Fits h.output_image position
    → (out : List ℕ) × (read_outputs h position ≡ ok out)
      × (length out ≡ bit_len_to_byte_len position.bit_len)
      × ((m : ℕ)
          → m < position.bit_len
          → image_bit out m ≡ image_bit h.output_image (first_bit position + m))
unfolding read_outputs span_byte_len is_whole bit_len_to_byte_len
read_outputs-bits h position fits =
    let image : List ℕ = h.output_image in
    let offset : ℕ = position.byte_offset in
    let span : ℕ = span_byte_len position in
    let accepted : (leb (length image) offset || ltb (length image) (offset + span)) ≡ false =
      ground (arith, fits.starts, fits.ends) in
    elim (Bool-cases (is_whole position)) [
      | inl whole ↦
          let starts : position.bit_offset ≡ 0 = ground arith in
          let full : position.bit_len % 8 ≡ 0 = ground arith in
          (
            take span (drop offset image),
            rw (accepted, whole) refl,
            omega (
              arith,
              length-take span (drop offset image),
              length-drop offset image,
              fits.ends,
              fits.small,
              starts,
              full,
            ),
            λ m inside.
                image_bit-cut image offset span m (omega (arith, fits.small, starts))
                ∙ ap (image_bit image) (omega (arith, starts)),
          )
      | inr parts ↦
          let n : ℕ = bit_len_to_byte_len position.bit_len in
          let (len, bits) =
            read_bits-field image (first_bit position) position.bit_len 0 (zeros n) (zeros-IsByte n)
              (omega (arith, length-zeros n)) in
          (
            read_bits image (first_bit position) position.bit_len 0 (zeros n),
            rw (accepted, parts) refl,
            len ∙ length-zeros n,
            λ m inside. bits m ∙ ground (arith, image_bit-zeros n m),
          )
    ]

-- A write of the right length to a field that fits the input image, which consists of bytes, sets the
-- bits of the field to those of the payload, and keeps all other bits and the length of the image.
pub write_inputs-bits :
    (h : DummyHardware) (bytes : List ℕ) (position : Position)
    → All IsByte h.input_image
    → Fits h.input_image position
    → length bytes ≡ bit_len_to_byte_len position.bit_len
    → (h' : DummyHardware) × (write_inputs h bytes position ≡ (h', ok tt))
      × (length h'.input_image ≡ length h.input_image)
      × ((m : ℕ)
          → image_bit h'.input_image m ≡ (
              if within (first_bit position) position.bit_len m
              then image_bit bytes (m - first_bit position)
              else image_bit h.input_image m))
unfolding write_inputs span_byte_len is_whole bit_len_to_byte_len
write_inputs-bits h bytes position clean fits sized =
    let image : List ℕ = h.input_image in
    let offset : ℕ = position.byte_offset in
    let span : ℕ = span_byte_len position in
    let accepted : (leb (length image) offset
          || ltb (length image) (offset + span)
          || not (bit_len_to_byte_len position.bit_len == length bytes))
        ≡ false =
      ground (arith, fits.starts, fits.ends, sized) in
    elim (Bool-cases (is_whole position)) [
      | inl whole ↦
          let starts : position.bit_offset ≡ 0 = ground arith in
          let full : position.bit_len % 8 ≡ 0 = ground arith in
          let covers : span ≡ length bytes = omega (arith, fits.small, starts, sized) in
          let exact : 8 * length bytes ≡ position.bit_len = omega (arith, full, sized) in
          let room : offset + length bytes ≤ length image = omega (arith, fits.ends, covers) in
          let first : first_bit position ≡ 8 * offset = omega (arith, starts) in
          (
            record h { input_image = take offset image ++ (bytes ++ drop (offset + span) image) },
            rw (accepted, whole) refl,
            omega (
              arith,
              length-append (take offset image) (bytes ++ drop (offset + span) image),
              length-append bytes (drop (offset + span) image),
              length-take offset image,
              length-drop (offset + span) image,
              room,
              covers,
            ),
            λ m.
                ap (λ j. image_bit (take offset image ++ (bytes ++ drop (offset + j) image)) m)
                  covers
                ∙ image_bit-replace image bytes offset m room
                ∙ rw (exact, first) refl,
          )
      | inr parts ↦
          let (len, bits) =
            write_bits-field bytes (first_bit position) position.bit_len 0 image clean
              (omega (arith, fits.ends, fits.small)) in
          (
            record h {
              input_image = write_bits bytes (first_bit position) position.bit_len 0 image;
            },
            rw (accepted, parts) refl,
            len,
            λ m. bits m ∙ ground arith,
          )
    ]

-- A field that does not begin inside the image, or that ends behind it, is refused for reading and for
-- writing, and so is a payload that is not as long as the field; nothing is written.
pub fields_refused :
    (h : DummyHardware) (bytes : List ℕ) (position : Position)
    → ((length h.output_image < position.byte_offset + max 1 (span_byte_len position))
        → read_outputs h position ≡ err err_invalid_len)
      × ((length h.input_image < position.byte_offset + max 1 (span_byte_len position))
          → write_inputs h bytes position ≡ (h, err err_invalid_len))
      × (length bytes ≢ bit_len_to_byte_len position.bit_len
          → write_inputs h bytes position ≡ (h, err err_invalid_len))
unfolding read_outputs write_inputs
fields_refused h bytes position = (λ out. ground arith, λ out. ground arith, λ out. ground arith)
