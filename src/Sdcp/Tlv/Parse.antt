-- ===== src/Sdcp/Tlv/Parse.antt =====
-- The parsers of the TLV values, from common/src/discovery_types.rs. Each checks the length first, so
-- that every index and slice is in range.
use tsn_fieldbus.Base.{
  ℕ, List, [], ◌∷◌, length, get_or, take, drop, Option, none, some, ◌==◌, not, ◌||◌, Bool,
  if◌then◌else◌,
}
use tsn_fieldbus.Base.Bytes.{from_be}
use tsn_fieldbus.Proto.{StatusCode, status_code_try_from, IpSource, unspecified, ip_source_try_from}
use tsn_fieldbus.Sdcp.Tlv.{
  Tlv, tlv_type_device_info, tlv_type_ip_config, tlv_type_status_report, tlv_type_ip_report,
}

pub record DeviceInfo : Type 0 where
  pub vendor_id : ℕ
  pub device_id : ℕ
  pub serial_number : ℕ

-- The addresses are `[u8; 4]`.
pub record IpConfig : Type 0 where
  pub ip : List ℕ
  pub netmask : List ℕ
  pub gateway : List ℕ

pub record IpReport : Type 0 where
  pub ip : List ℕ
  pub netmask : List ℕ
  pub gateway : List ℕ
  pub ip_source : IpSource

-- `self.t_type != kind || self.value.len() != size`
abbrev mismatch : Tlv → ℕ → ℕ → Bool
mismatch t kind size = not (t.t_type == kind) || not (length t.value == size)

unfoldable pub parse_device_info : Tlv → Option DeviceInfo
parse_device_info t =
    if mismatch t tlv_type_device_info 8
    then none
    else some (record {
      vendor_id = from_be (at 0 ∷ at 1 ∷ []);
      device_id = from_be (at 2 ∷ at 3 ∷ []);
      serial_number = from_be (at 4 ∷ at 5 ∷ at 6 ∷ at 7 ∷ []);
    })
  where
    at : ℕ → ℕ
    at i = get_or t.value i 0

-- `value[i..j]`
abbrev slice : List ℕ → ℕ → ℕ → List ℕ
slice value i n = take n (drop i value)

unfoldable pub parse_ip_config : Tlv → Option IpConfig
parse_ip_config t =
    if mismatch t tlv_type_ip_config 12
    then none
    else some (record {
      ip = slice t.value 0 4;
      netmask = slice t.value 4 4;
      gateway = slice t.value 8 4;
    })

unfoldable pub parse_status_report : Tlv → Option StatusCode
parse_status_report t =
    if mismatch t tlv_type_status_report 1 then none else status_code_try_from (get_or t.value 0 0)

-- `unwrap_or_default`: an unknown source is read as unspecified.
abbrev ip_source_or_default : Option IpSource → IpSource
ip_source_or_default (some s) = s
ip_source_or_default none = unspecified

unfoldable pub parse_ip_report : Tlv → Option IpReport
parse_ip_report t =
    if mismatch t tlv_type_ip_report 13
    then none
    else some (record {
      ip = slice t.value 0 4;
      netmask = slice t.value 4 4;
      gateway = slice t.value 8 4;
      ip_source = ip_source_or_default (ip_source_try_from (get_or t.value 12 0));
    })
