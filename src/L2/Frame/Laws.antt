-- ===== src/L2/Frame/Laws.antt =====
-- What is built is parsed back, and which frames the parser refuses.
use tsn_fieldbus.Base.{
  ℕ, ◌<◌, ◌≤◌, ◌^◌, ◌≡◌, ◌≢◌, ◌∙◌, refl, ap, List, [], ◌∷◌, ◌++◌, length, length-append, take, drop,
  take-append, drop-append, length-drop, ok, err, arith,
}
use tsn_fieldbus.Base.Bytes.{to_be, from_be}
use tsn_fieldbus.Proto.{err_invalid_ethertype}
use tsn_fieldbus.Mac.{MacAddr, mac, octets}
use tsn_fieldbus.Security.Footer.{SecurityFooter, split_payload_and_footer}
use tsn_fieldbus.Security.Footer
use tsn_fieldbus.Security.Footer.Laws.{
  IsFooter, length-write_to as length-footer, split-write_to, split_short, split_enough, length-tag,
}
use tsn_fieldbus.L2.Header.{L2Header}
use tsn_fieldbus.L2.Header
use tsn_fieldbus.L2.Header.Laws.{IsL2Header, read_from-write_to, length-write_to}
use tsn_fieldbus.L2.Frame.{
  ParsedL2Frame, build_l2_frame, parse_l2_frame, l2_header_offset, ethertype_l2_protocol,
  vlan_ethertype,
}
use mathlib.Core.List.{append-nil}

-- The frame as the addresses and the tag, in front of header, payload and footer.
abbrev tagged : MacAddr → MacAddr → ℕ → List ℕ
tagged source destination vlan =
    octets destination ++ (octets source ++ (0x81 ∷ 0x00 ∷ (to_be 2 vlan ++ (0x88 ∷ 0xb6 ∷ []))))

build-tagged :
    (source destination : MacAddr) (vlan : ℕ) (h : L2Header) (payload : List ℕ) (f : SecurityFooter)
    → build_l2_frame source destination vlan h payload f
      ≡ tagged source destination vlan ++ (Header.write_to h [] ++ Footer.write_to f payload)
unfolding build_l2_frame Header.write_to Footer.write_to to_be
build-tagged (mac a b c d e f) (mac a' b' c' d' e' f') vlan h payload footer = refl

parse-tagged :
    (source destination : MacAddr) (vlan : ℕ) (h : L2Header) (payload : List ℕ) (f : SecurityFooter)
    → vlan < 256 ^ 2
    → IsL2Header h
    → IsFooter f
    → parse_l2_frame
        (tagged source destination vlan ++ (Header.write_to h [] ++ Footer.write_to f payload))
      ≡ ok (record {
        destination = destination;
        source = source;
        vlan_id_pcp = vlan;
        header = h;
        payload = payload;
        sequence_number = f.sequence_number;
        auth_tag = f.auth_tag;
      })
unfolding parse_l2_frame l2_header_offset to_be from_be
parse-tagged (mac a b c d e g) (mac a' b' c' d' e' g') vlan h payload f hv vh vf =
    let hdr : List ℕ = Header.write_to h [] in
    let rest : List ℕ = Footer.write_to f payload in
    ground (
      arith,
      length-append hdr rest,
      length-write_to h,
      length-footer f payload vf,
      take-append 7 hdr rest (length-write_to h),
      drop-append 7 hdr rest (length-write_to h),
      append-nil hdr,
      read_from-write_to h [] vh,
      split-write_to f payload vf,
    )

-- A frame that is built from parts that fit the wire is parsed back into them.
pub parse-build :
    (source destination : MacAddr) (vlan : ℕ) (h : L2Header) (payload : List ℕ) (f : SecurityFooter)
    → vlan < 256 ^ 2
    → IsL2Header h
    → IsFooter f
    → parse_l2_frame (build_l2_frame source destination vlan h payload f)
      ≡ ok (record {
        destination = destination;
        source = source;
        vlan_id_pcp = vlan;
        header = h;
        payload = payload;
        sequence_number = f.sequence_number;
        auth_tag = f.auth_tag;
      })
parse-build source destination vlan h payload f hv vh vf =
    ap parse_l2_frame (build-tagged source destination vlan h payload f)
    ∙ parse-tagged source destination vlan h payload f hv vh vf

-- A frame with neither the L2 nor the VLAN ether type is refused as such, if it is long enough for a
-- header.
pub parse_ethertype :
    (frame : List ℕ)
    → 21 ≤ length frame
    → from_be (take 2 (drop 12 frame)) ≢ ethertype_l2_protocol
    → from_be (take 2 (drop 12 frame)) ≢ vlan_ethertype
    → parse_l2_frame frame ≡ err err_invalid_ethertype
unfolding parse_l2_frame l2_header_offset
parse_ethertype (a ∷ b ∷ c ∷ d ∷ e ∷ f ∷ g ∷ h ∷ i ∷ j ∷ k ∷ l ∷ m ∷ n ∷ rest) hl h1 h2 =
    ground arith
parse_ethertype _ hl h1 h2 = absurd (omega arith)

-- Every frame that is accepted has room for an untagged header and a footer.
pub parse_long :
    (frame : List ℕ) (p : ParsedL2Frame) → parse_l2_frame frame ≡ ok p → 37 ≤ length frame
unfolding parse_l2_frame l2_header_offset
parse_long frame p h = ground (
  arith,
  split_short (drop 21 frame),
  length-drop 21 frame,
  split_short (drop 25 frame),
  length-drop 25 frame,
)

-- The tag of an accepted frame has 8 bytes.
pub parse-tag_length :
    (frame : List ℕ) (p : ParsedL2Frame) → parse_l2_frame frame ≡ ok p → length p.auth_tag ≡ 8
unfolding parse_l2_frame l2_header_offset
parse-tag_length frame p h = ground (
  arith,
  split_short (drop 21 frame),
  split_enough (drop 21 frame),
  length-tag (drop 21 frame),
  split_short (drop 25 frame),
  split_enough (drop 25 frame),
  length-tag (drop 25 frame),
)
