-- ===== src/Sdcp/Payload.antt =====
-- A whole SDCP payload: header, TLV bytes and security footer, from common/src/discovery_types.rs.
pub mod Laws
use tsn_fieldbus.Base.{ℕ, List, length, drop, Result, ok, err, ◌>>=◌, ◌>>◌, fail_if, map_err, ltb}
use tsn_fieldbus.Proto.{StatusCode, err_invalid_len, err_frame_parsing}
use tsn_fieldbus.Security.Footer.{SecurityFooter, split_payload_and_footer}
use tsn_fieldbus.Security.Footer
use tsn_fieldbus.Sdcp.Header.{SdcpHeader, sdcp_header_size}
use tsn_fieldbus.Sdcp.Header

pub record ParsedSdcpPayload : Type 0 where
  pub header : SdcpHeader
  pub tlv_payload : List ℕ
  pub sequence_number : ℕ
  pub auth_tag : List ℕ

unfoldable pub parse_sdcp_payload : List ℕ → Result StatusCode ParsedSdcpPayload
parse_sdcp_payload payload = do
  (rest, footer) ← map_err (λ _. err_invalid_len) (split_payload_and_footer payload)
  fail_if (ltb (length rest) sdcp_header_size) err_invalid_len
  header ← map_err (λ _. err_frame_parsing) (Header.read_from rest)
  ok (record {
    header = header;
    tlv_payload = drop sdcp_header_size rest;
    sequence_number = footer.sequence_number;
    auth_tag = footer.auth_tag;
  })

unfoldable pub append_sdcp_footer : List ℕ → SecurityFooter → List ℕ
append_sdcp_footer payload footer = Footer.write_to footer payload
