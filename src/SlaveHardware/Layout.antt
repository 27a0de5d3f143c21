-- ===== src/SlaveHardware/Layout.antt =====
-- The variables of the process image: `get_layout` of slave/src/hardware_mock.rs, with each name as its
-- bytes and `DataType` as its number.
use tsn_fieldbus.Base.{ℕ, ◌≡◌, refl, arith, List, [], ◌∷◌, Result, ok, err}
use tsn_fieldbus.Proto.{
  StatusCode, err_invalid_len, Position, ProcessVariable, Direction, input, output,
  direction_number,
}
use tsn_fieldbus.L2.Cycle.{bit_len_to_byte_len}
use tsn_fieldbus.SlaveHardware.{
  DummyHardware, DummyHardwareRole, tests, temperature_sensor, valve_controller, new,
  new_temperature_sensor, new_valve_controller, read_outputs, write_inputs, span_byte_len,
}
use tsn_fieldbus.SlaveHardware.Fields.{Fits}

abbrev variable : List ℕ → ℕ → Direction → ℕ → ℕ → ProcessVariable
variable name data_type direction byte_offset bit_len = record {
  name = name;
  data_type = data_type;
  direction = direction_number direction;
  byte_offset = byte_offset;
  bit_offset = 0;
  bit_len = bit_len;
}

-- Status_LED
abbrev status_led : List ℕ
status_led = 0x53 ∷ 0x74 ∷ 0x61 ∷ 0x74 ∷ 0x75 ∷ 0x73 ∷ 0x5f ∷ 0x4c ∷ 0x45 ∷ 0x44 ∷ []

-- Temperature
abbrev temperature : List ℕ
temperature = 0x54 ∷ 0x65 ∷ 0x6d ∷ 0x70 ∷ 0x65 ∷ 0x72 ∷ 0x61 ∷ 0x74 ∷ 0x75 ∷ 0x72 ∷ 0x65 ∷ []

-- ValveOpen
abbrev valve_open : List ℕ
valve_open = 0x56 ∷ 0x61 ∷ 0x6c ∷ 0x76 ∷ 0x65 ∷ 0x4f ∷ 0x70 ∷ 0x65 ∷ 0x6e ∷ []

layout : DummyHardwareRole → List ProcessVariable
layout tests = variable status_led 0 output 2 1 ∷ variable temperature 3 input 0 16 ∷ []
layout temperature_sensor = variable temperature 4 output 0 16 ∷ []
layout valve_controller = variable valve_open 0 input 0 1 ∷ []

get_layout : DummyHardware → Result StatusCode (List ProcessVariable)
unfolding layout
get_layout h = ok (layout h.role)

abbrev position_of : ProcessVariable → Position
position_of v = record {
  byte_offset = v.byte_offset;
  bit_offset = v.bit_offset;
  bit_len = v.bit_len;
}

-- The one variable of each of the two demonstration devices fits the image of its direction.
get_layout-Fits :
    (interface_name mac_address : List ℕ)
    → let sensor = new_temperature_sensor interface_name mac_address in
      let valve = new_valve_controller interface_name mac_address in
      ((v : ProcessVariable) × (get_layout sensor ≡ ok (v ∷ []))
        × (v.direction ≡ direction_number output)
        × Fits sensor.output_image (position_of v))
      × ((v : ProcessVariable) × (get_layout valve ≡ ok (v ∷ []))
          × (v.direction ≡ direction_number input)
          × Fits valve.input_image (position_of v))
unfolding get_layout new_temperature_sensor new_valve_controller span_byte_len bit_len_to_byte_len
get_layout-Fits interface_name mac_address = (
  (_, refl, refl, record { starts = omega arith; ends = omega arith; small = omega arith }),
  (_, refl, refl, record { starts = omega arith; ends = omega arith; small = omega arith }),
)

-- Both variables of the device for tests are refused: the output begins behind the output image, and the
-- input is longer than the input image.
get_layout_refused :
    (led measured : ProcessVariable) (bytes : List ℕ)
    → get_layout new ≡ ok (led ∷ measured ∷ [])
    → (led.direction ≡ direction_number output)
      × (read_outputs new (position_of led) ≡ err err_invalid_len)
      × (measured.direction ≡ direction_number input)
      × (write_inputs new bytes (position_of measured) ≡ (new, err err_invalid_len))
unfolding get_layout new read_outputs write_inputs span_byte_len bit_len_to_byte_len
get_layout_refused led measured bytes h = ground arith
