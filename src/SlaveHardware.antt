-- ===== src/SlaveHardware.antt =====
-- slave/src/hardware_mock.rs: the hardware of the tests and the demonstration, with its process images.
-- The locks make each access one step; a poisoned lock, which no holder leaves behind, is left out.
pub mod Bits
pub mod Images
pub mod Cuts
pub mod Fields
pub mod Layout
use tsn_fieldbus.Base.{
  ℕ, zero, suc, ◌+◌, ◌-◌, ◌*◌, ◌/◌, ◌%◌, ◌^◌, List, [], ◌∷◌, ◌++◌, length, take, drop, get_or,
  Option, none, some, Bool, true, false, ltb, leb, ◌==◌, ◌&&◌, ◌||◌, not, if◌then◌else◌, Result, ok,
  err, saturating_add, u32_max,
}
use tsn_fieldbus.Base.Bytes.{from_be}
use tsn_fieldbus.Proto.{
  StatusCode, err_invalid_len, err_hardware_access, Position, DeviceInfo, ProcessVariable,
  ip_source_number, unspecified,
}
use tsn_fieldbus.L2.Cycle.{ProcessImageAccess, bit_len_to_byte_len}
use tsn_fieldbus.SlaveHardware.Bits.{test_bit, write_bit}

pub data DummyHardwareRole : Type 0 where
  tests temperature_sensor valve_controller : DummyHardwareRole

-- `interface_name` is the bytes of the name.
pub record DummyHardware : Type 0 where
  pub input_image : List ℕ
  pub output_image : List ℕ
  pub device_info : DeviceInfo
  pub role : DummyHardwareRole
  pub interface_name : Option (List ℕ)

-- What the three kinds of device have in common.
abbrev info : List ℕ → ℕ → ℕ → DeviceInfo
info mac_address device_id serial_number = record {
  mac_address = mac_address;
  ip_address = 0 ∷ 0 ∷ 0 ∷ 0 ∷ [];
  ip_source = ip_source_number unspecified;
  netmask = 255 ∷ 255 ∷ 255 ∷ 0 ∷ [];
  gateway = 0 ∷ 0 ∷ 0 ∷ 0 ∷ [];
  vendor_id = 42;
  device_id = device_id;
  serial_number = serial_number;
  firmware_version = 1;
  capabilities = 0;
}

unfoldable pub new : DummyHardware
new = record {
  input_image = 0 ∷ [];
  output_image = 0 ∷ 0 ∷ [];
  device_info = info (0xaa ∷ 0xbb ∷ 0xcc ∷ 0xdd ∷ 0xee ∷ 0xff ∷ []) 42 0x12345678;
  role = tests;
  interface_name = none;
}

unfoldable pub new_temperature_sensor : List ℕ → List ℕ → DummyHardware
new_temperature_sensor interface_name mac_address = record {
  input_image = [];
  output_image = 0 ∷ 0 ∷ [];
  device_info = info mac_address 1 0x10000001;
  role = temperature_sensor;
  interface_name = some interface_name;
}

unfoldable pub new_valve_controller : List ℕ → List ℕ → DummyHardware
new_valve_controller interface_name mac_address = record {
  input_image = 0 ∷ [];
  output_image = [];
  device_info = info mac_address 2 0x10000002;
  role = valve_controller;
  interface_name = some interface_name;
}

-- `image[i] = f(image[i])` where `i` is in range.
unfoldable pub update_at : List ℕ → ℕ → (ℕ → ℕ) → List ℕ
update_at [] i f = []
update_at (x ∷ xs) zero f = f x ∷ xs
update_at (x ∷ xs) (suc i) f = x ∷ update_at xs i f

-- An `i16` is its bit pattern; `none` is the panic on an image that is too short.
unfoldable pub simulate_sensor_change : DummyHardware → ℕ → Option DummyHardware
unfolding update_at
simulate_sensor_change h new_temp =
    if ltb (length h.output_image) 2
    then none
    else some (record h {
      output_image =
          update_at (update_at h.output_image 0 (λ _. new_temp / 2 ^ 8 % 2 ^ 8)) 1
            (λ _. new_temp % 2 ^ 8);
    })

unfoldable pub get_valve_status : DummyHardware → Option Bool
unfolding test_bit
get_valve_status h =
    if ltb (length h.input_image) 1 then none else some (test_bit (get_or h.input_image 0 0) 0)

unfoldable pub read_device_info : DummyHardware → Result StatusCode DeviceInfo
read_device_info h = ok h.device_info

unfoldable pub write_device_info :
    DummyHardware → DeviceInfo → DummyHardware × Result StatusCode (Unit {0})
write_device_info h device_info = (record h { device_info = device_info }, ok tt)

-- `configures` is whether `configure_interface_ipv4` succeeds, which runs a command of the system.
unfoldable pub apply_ip_config :
    (List ℕ → List ℕ → List ℕ → Bool)
    → DummyHardware
    → List ℕ
    → List ℕ
    → List ℕ
    → Result StatusCode (Unit {0})
apply_ip_config configures h ip netmask gateway = elim h.interface_name [
  | none ↦ ok tt
  | some interface_name ↦
      if configures interface_name ip netmask then ok tt else err err_hardware_access
]

unfoldable pub span_byte_len : Position → ℕ
unfolding bit_len_to_byte_len
span_byte_len position =
    bit_len_to_byte_len (saturating_add u32_max position.bit_offset position.bit_len)

-- The bit `n` of an image, the lowest of each byte first.
unfoldable pub image_bit : List ℕ → ℕ → Bool
unfolding test_bit
image_bit image n = test_bit (get_or image (n / 8) 0) (n % 8)

-- The field is whole bytes at the beginning of a byte.
unfoldable pub is_whole : Position → Bool
is_whole position = position.bit_offset == 0 && position.bit_len % 8 == 0

-- The loop of `read_outputs` over the last `rest` bits of the field, from bit `i` on.
unfoldable pub read_bits : List ℕ → ℕ → ℕ → ℕ → List ℕ → List ℕ
unfolding update_at write_bit image_bit
read_bits image start zero i out = out
read_bits image start (suc rest) i out =
    read_bits image start rest (suc i)
      (if image_bit image (start + i) then update_at out (i / 8) (write_bit (i % 8) true) else out)

-- `vec![0u8; n]`
unfoldable pub zeros : ℕ → List ℕ
zeros zero = []
zeros (suc n) = 0 ∷ zeros n

unfoldable pub read_outputs : DummyHardware → Position → Result StatusCode (List ℕ)
unfolding span_byte_len is_whole read_bits zeros
read_outputs h position =
    let offset = position.byte_offset in
    let span = span_byte_len position in
    if leb (length h.output_image) offset || ltb (length h.output_image) (offset + span)
    then err err_invalid_len
    else if is_whole position
    then ok (take span (drop offset h.output_image))
    else ok (
        read_bits h.output_image (8 * offset + position.bit_offset) position.bit_len 0
          (zeros (bit_len_to_byte_len position.bit_len)))

-- The loop of `write_inputs`.
unfoldable pub write_bits : List ℕ → ℕ → ℕ → ℕ → List ℕ → List ℕ
unfolding update_at write_bit image_bit
write_bits bytes start zero i image = image
write_bits bytes start (suc rest) i image =
    write_bits bytes start rest (suc i)
      (update_at image ((start + i) / 8) (write_bit ((start + i) % 8) (image_bit bytes i)))

unfoldable pub write_inputs :
    DummyHardware → List ℕ → Position → DummyHardware × Result StatusCode (Unit {0})
unfolding span_byte_len is_whole write_bits
write_inputs h bytes position =
    let offset = position.byte_offset in
    let span = span_byte_len position in
    let image = h.input_image in
    if leb (length image) offset
      || ltb (length image) (offset + span)
      || not (bit_len_to_byte_len position.bit_len == length bytes)
    then (h, err err_invalid_len)
    else if is_whole position
    then (
      record h { input_image = take offset image ++ (bytes ++ drop (offset + span) image) },
      ok tt,
    )
    else (
      record h {
        input_image = write_bits bytes (8 * offset + position.bit_offset) position.bit_len 0 image;
      },
      ok tt,
    )

-- The hardware as the handlers of cyclic data see it.
unfoldable pub process_image : ProcessImageAccess DummyHardware
unfolding read_outputs write_inputs
process_image = record { read_outputs = read_outputs; write_inputs = write_inputs }

-- The bits of an `i16` in the first two bytes, each zero if it is missing.
unfoldable pub read_temperature : DummyHardware → Result StatusCode ℕ
unfolding from_be
read_temperature h = ok (from_be (get_or h.output_image 0 0 ∷ get_or h.output_image 1 0 ∷ []))
