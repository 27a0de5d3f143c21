-- ===== src/Examples/Image.antt =====
-- Examples on the process image of the slave.
use tsn_fieldbus.Base.{ℕ, ◌+◌, ◌-◌, ◌<◌, ◌≡◌, refl, arith, List, [], ◌∷◌, length, ok, if◌then◌else◌}
use tsn_fieldbus.Proto.{Position}
use tsn_fieldbus.L2.Cycle.{bit_len_to_byte_len}
use tsn_fieldbus.SlaveHardware.{
  DummyHardware, image_bit, read_outputs, write_inputs, span_byte_len, new,
}
use tsn_fieldbus.SlaveHardware.Images.{within}
use tsn_fieldbus.SlaveHardware.Fields.{Fits, read_outputs-bits, write_inputs-bits}

-- A device with two bytes of each image.
abbrev device : DummyHardware
device = record new { input_image = 0x0f ∷ 0xf0 ∷ []; output_image = 0x12 ∷ 0x34 ∷ [] }

-- Nine bits across the border of two bytes.
abbrev field : Position
field = record { byte_offset = 0; bit_offset = 5; bit_len = 9 }

field-Fits : (image : List ℕ) → length image ≡ 2 → Fits image field
unfolding span_byte_len bit_len_to_byte_len
field-Fits image two = record { starts = omega arith; ends = omega arith; small = omega arith }

read_outputs-bits_example :
    (out : List ℕ) × (read_outputs device field ≡ ok out)
    × (length out ≡ bit_len_to_byte_len 9)
    × ((m : ℕ) → m < 9 → image_bit out m ≡ image_bit device.output_image (5 + m))
read_outputs-bits_example = read_outputs-bits device field (field-Fits device.output_image refl)

write_inputs-bits_example :
    (h' : DummyHardware) × (write_inputs device (0xff ∷ 1 ∷ []) field ≡ (h', ok tt))
    × (length h'.input_image ≡ 2)
    × ((m : ℕ)
        → image_bit h'.input_image m ≡ (
            if within 5 9 m
            then image_bit (0xff ∷ 1 ∷ []) (m - 5)
            else image_bit device.input_image m))
unfolding bit_len_to_byte_len
write_inputs-bits_example =
    write_inputs-bits device (0xff ∷ 1 ∷ []) field (omega arith, (omega arith, tt))
      (field-Fits device.input_image refl) refl
