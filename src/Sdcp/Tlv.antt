-- ===== src/Sdcp/Tlv.antt =====
-- The type-length-value elements of SDCP messages, from common/src/discovery_types.rs.
pub mod Parse
pub mod Laws
pub mod RoundTrip
use tsn_fieldbus.Base.{ℕ, ◌%◌, List, [], ◌∷◌, ◌++◌, length, Result, ok, err, ◌>>=◌}
use tsn_fieldbus.Base.Bytes.{to_be, IoError, read_u8, read_exact}
use tsn_fieldbus.Proto.{StatusCode, status_code_number, IpSource, ip_source_number}

abbrev pub tlv_type_device_info : ℕ
tlv_type_device_info = 0x01

abbrev pub tlv_type_ip_config : ℕ
tlv_type_ip_config = 0x02

abbrev pub tlv_type_status_report : ℕ
tlv_type_status_report = 0x03

abbrev pub tlv_type_ip_report : ℕ
tlv_type_ip_report = 0x04

-- `t_type` and `length` are `u8`.
pub record Tlv : Type 0 where
  pub t_type : ℕ
  pub length : ℕ
  pub value : List ℕ

-- The length is cast to `u8`.
unfoldable pub new : ℕ → List ℕ → Tlv
new t_type value = record { t_type = t_type; length = length value % 256; value = value }

unfoldable pub device_info : ℕ → ℕ → ℕ → Tlv
unfolding new
device_info vendor_id device_id serial_number =
    new tlv_type_device_info (to_be 2 vendor_id ++ (to_be 2 device_id ++ to_be 4 serial_number))

unfoldable pub ip_config : List ℕ → List ℕ → List ℕ → Tlv
unfolding new
ip_config ip netmask gateway = new tlv_type_ip_config (ip ++ (netmask ++ gateway))

unfoldable pub status_report : StatusCode → Tlv
unfolding new
status_report status_code = new tlv_type_status_report (status_code_number status_code ∷ [])

unfoldable pub ip_report : List ℕ → List ℕ → List ℕ → IpSource → Tlv
unfolding new
ip_report ip netmask gateway ip_source =
    new tlv_type_ip_report (ip ++ (netmask ++ (gateway ++ (ip_source_number ip_source ∷ []))))

unfoldable pub write_to : Tlv → List ℕ → List ℕ
write_to t buf = buf ++ (t.t_type ∷ t.length ∷ t.value)

unfoldable pub read_from : List ℕ → Result IoError Tlv
read_from buf = do
  (t_type, r) ← read_u8 buf
  (len, r) ← read_u8 r
  (value, r) ← read_exact len r
  ok (record { t_type = t_type; length = len; value = value })
