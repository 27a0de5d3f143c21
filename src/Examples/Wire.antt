-- ===== src/Examples/Wire.antt =====
-- Examples on what crosses the wire.
use tsn_fieldbus.Base.{ℕ, ◌≡◌, refl, arith, List, [], ◌∷◌, ◌++◌, ok}
use tsn_fieldbus.Security.Footer.{SecurityFooter}
use tsn_fieldbus.Security.Footer.Laws.{IsFooter}
use tsn_fieldbus.Sdcp.Header.{SdcpHeader, set_ip_req}
use tsn_fieldbus.Sdcp.Header
use tsn_fieldbus.Sdcp.Payload.{parse_sdcp_payload, append_sdcp_footer}
use tsn_fieldbus.Sdcp.Payload.Laws.{parse-append_sdcp_footer}
use tsn_fieldbus.L2.Header.Laws.{IsL2Header}
use tsn_fieldbus.L2.Frame.{build_l2_frame, parse_l2_frame}
use tsn_fieldbus.L2.Frame.Laws.{parse-build}
use tsn_fieldbus.Examples.{master_mac, slave_mac, l2_header}

abbrev footer : SecurityFooter
footer = record { sequence_number = 3; auth_tag = 1 ∷ 2 ∷ 3 ∷ 4 ∷ 5 ∷ 6 ∷ 7 ∷ 8 ∷ [] }

footer-IsFooter : IsFooter footer
footer-IsFooter = record { sequence_u64 = omega arith; tag_length = refl }

l2_header-IsL2Header : IsL2Header l2_header
l2_header-IsL2Header = record {
  version_u8 = omega arith;
  stream_u16 = omega arith;
  counter_u16 = omega arith;
  status_u8 = omega arith;
  flags_u8 = omega arith;
}

parse-build_example :
    parse_l2_frame (build_l2_frame slave_mac master_mac 0x6001 l2_header (9 ∷ 8 ∷ 7 ∷ []) footer)
    ≡ ok (record {
      destination = master_mac;
      source = slave_mac;
      vlan_id_pcp = 0x6001;
      header = l2_header;
      payload = 9 ∷ 8 ∷ 7 ∷ [];
      sequence_number = 3;
      auth_tag = footer.auth_tag;
    })
parse-build_example =
    parse-build slave_mac master_mac 0x6001 l2_header (9 ∷ 8 ∷ 7 ∷ []) footer (omega arith)
      l2_header-IsL2Header footer-IsFooter

abbrev header : SdcpHeader
header = record { version = 1; op_code = set_ip_req; transaction_id = 0x1234; flags = 0 }

parse-append_sdcp_footer_example :
    parse_sdcp_payload (append_sdcp_footer (Header.write_to header [] ++ (3 ∷ 1 ∷ 0 ∷ [])) footer)
    ≡ ok (record {
      header = header;
      tlv_payload = 3 ∷ 1 ∷ 0 ∷ [];
      sequence_number = 3;
      auth_tag = footer.auth_tag;
    })
parse-append_sdcp_footer_example =
    parse-append_sdcp_footer header (3 ∷ 1 ∷ 0 ∷ []) footer
      (record { version_u8 = omega arith; transaction_u16 = omega arith; flags_u8 = omega arith })
      footer-IsFooter

abbrev ip : List ℕ
ip = 10 ∷ 0 ∷ 0 ∷ 50 ∷ []

abbrev netmask : List ℕ
netmask = 255 ∷ 255 ∷ 255 ∷ 0 ∷ []

abbrev gateway : List ℕ
gateway = 10 ∷ 0 ∷ 0 ∷ 1 ∷ []
