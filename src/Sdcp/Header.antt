-- ===== src/Sdcp/Header.antt =====
-- The operation codes and the header of SDCP messages, from common/src/discovery_types.rs.
pub mod Laws
use tsn_fieldbus.Base.{ℕ, List, [], ◌∷◌, ◌++◌, Result, ok, err, ◌>>=◌, ◌==◌, if◌then◌else◌}
use tsn_fieldbus.Base.Bytes.{to_be, IoError, read_u8, read_u16}

abbrev pub sdcp_version : ℕ
sdcp_version = 0x01

abbrev pub sdcp_header_size : ℕ
sdcp_header_size = 5

abbrev pub sdcp_flags : ℕ
sdcp_flags = 0x00

abbrev pub ethertype_sdcp : ℕ
ethertype_sdcp = 0x88b5

pub data SdcpOpCode : Type 0 where
  discover_req discover_res set_ip_req set_ip_res get_ip_req get_ip_res : SdcpOpCode
  activate_dhcp_req activate_dhcp_res unknown_operation : SdcpOpCode

-- The cast `as u8`.
abbrev pub op_code_number : SdcpOpCode → ℕ
op_code_number discover_req = 0x01
op_code_number discover_res = 0x02
op_code_number set_ip_req = 0x03
op_code_number set_ip_res = 0x04
op_code_number get_ip_req = 0x05
op_code_number get_ip_res = 0x06
op_code_number activate_dhcp_req = 0x07
op_code_number activate_dhcp_res = 0x08
op_code_number unknown_operation = 0x09

-- `From<u8>`
unfoldable pub op_code_from : ℕ → SdcpOpCode
op_code_from val =
    if val == 0x01
    then discover_req
    else if val == 0x02
    then discover_res
    else if val == 0x03
    then set_ip_req
    else if val == 0x04
    then set_ip_res
    else if val == 0x05
    then get_ip_req
    else if val == 0x06
    then get_ip_res
    else if val == 0x07
    then activate_dhcp_req
    else if val == 0x08
    then activate_dhcp_res
    else unknown_operation

pub record SdcpHeader : Type 0 where
  pub version : ℕ
  pub op_code : SdcpOpCode
  pub transaction_id : ℕ
  pub flags : ℕ

unfoldable pub new : SdcpOpCode → ℕ → SdcpHeader
new op_code transaction_id = record {
  version = sdcp_version;
  op_code = op_code;
  transaction_id = transaction_id;
  flags = sdcp_flags;
}

-- Writing to a vector does not fail.
unfoldable pub write_to : SdcpHeader → List ℕ → List ℕ
write_to h buf =
    buf ++ (h.version ∷ op_code_number h.op_code ∷ (to_be 2 h.transaction_id ++ (h.flags ∷ [])))

unfoldable pub read_from : List ℕ → Result IoError SdcpHeader
read_from buf = do
  (version, r) ← read_u8 buf
  (code, r) ← read_u8 r
  (transaction_id, r) ← read_u16 r
  (flags, r) ← read_u8 r
  ok (record {
    version = version;
    op_code = op_code_from code;
    transaction_id = transaction_id;
    flags = flags;
  })
