-- ===== src/L2/Frame.antt =====
-- Building and parsing L2 frames, from common/src/l2_types.rs. The parser checks the length before each
-- index and slice, so that none is out of range.
pub mod Laws
use tsn_fieldbus.Base.{
  ℕ, ◌+◌, List, [], ◌∷◌, ◌++◌, length, get_or, take, drop, Result, ok, err, ◌>>=◌, ◌>>◌, fail_if,
  map_err, ltb, ◌==◌, not, if◌then◌else◌,
}
use tsn_fieldbus.Base.Bytes.{to_be, from_be}
use tsn_fieldbus.Proto.{StatusCode, err_invalid_len, err_invalid_ethertype, err_frame_parsing}
use tsn_fieldbus.Mac.{MacAddr, mac, octets}
use tsn_fieldbus.Security.Footer.{SecurityFooter, split_payload_and_footer}
use tsn_fieldbus.Security.Footer
use tsn_fieldbus.L2.Header.{L2Header, l2_header_size}
use tsn_fieldbus.L2.Header

abbrev pub ethertype_l2_protocol : ℕ
ethertype_l2_protocol = 0x88b6

abbrev pub vlan_ethertype : ℕ
vlan_ethertype = 0x8100

pub record ParsedL2Frame : Type 0 where
  pub destination : MacAddr
  pub source : MacAddr
  pub vlan_id_pcp : ℕ
  pub header : L2Header
  pub payload : List ℕ
  pub sequence_number : ℕ
  pub auth_tag : List ℕ

unfoldable pub build_l2_frame : MacAddr → MacAddr → ℕ → L2Header → List ℕ → SecurityFooter → List ℕ
build_l2_frame source destination vlan_id_pcp header payload security_footer =
    let frame = octets destination in
    let frame = frame ++ octets source in
    let frame = frame ++ to_be 2 vlan_ethertype in
    let frame = frame ++ to_be 2 vlan_id_pcp in
    let frame = frame ++ to_be 2 ethertype_l2_protocol in
    let frame = Header.write_to header frame in
    let frame = frame ++ payload in Footer.write_to security_footer frame

-- `frame[i]`
abbrev byte : List ℕ → ℕ → ℕ
byte frame i = get_or frame i 0

abbrev be16 : List ℕ → ℕ → ℕ
be16 frame i = from_be (byte frame i ∷ byte frame (i + 1) ∷ [])

-- The VLAN tag, and where the L2 header begins.
unfoldable pub l2_header_offset : List ℕ → Result StatusCode (ℕ × ℕ)
l2_header_offset frame =
    if be16 frame 12 == vlan_ethertype
    then (do
      fail_if (ltb (length frame) (18 + l2_header_size)) err_invalid_len
      fail_if (not (be16 frame 16 == ethertype_l2_protocol)) err_invalid_ethertype
      ok (be16 frame 14, 18))
    else if be16 frame 12 == ethertype_l2_protocol
    then ok (0, 14)
    else err err_invalid_ethertype

unfoldable pub parse_l2_frame : List ℕ → Result StatusCode ParsedL2Frame
parse_l2_frame frame = do
  fail_if (ltb (length frame) (14 + l2_header_size)) err_invalid_len
  let destination =
      mac (byte frame 0) (byte frame 1) (byte frame 2) (byte frame 3) (byte frame 4) (byte frame 5)
  let source =
      mac (byte frame 6) (byte frame 7) (byte frame 8) (byte frame 9) (byte frame 10)
        (byte frame 11)
  (vlan_id_pcp, offset) ← l2_header_offset frame
  header ←
      map_err (λ _. err_frame_parsing) (Header.read_from (take l2_header_size (drop offset frame)))
  (payload, footer) ← split_payload_and_footer (drop (offset + l2_header_size) frame)
  ok (record {
    destination = destination;
    source = source;
    vlan_id_pcp = vlan_id_pcp;
    header = header;
    payload = payload;
    sequence_number = footer.sequence_number;
    auth_tag = footer.auth_tag;
  })
