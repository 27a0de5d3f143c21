-- ===== src/Sdcp/Payload/Laws.antt =====
-- A payload that was put together from its parts is parsed into them, and a parse fails exactly on
-- payloads that are too short.
use tsn_fieldbus.Base.{
  ℕ, ◌-◌, ◌<◌, ◌≤◌, ◌≡◌, refl, List, [], ◌∷◌, ◌++◌, length, length-append, length-take, drop, take,
  drop-append, ok, err, arith,
}
use tsn_fieldbus.Base.Bytes.{from_be, to_be, length-to_be}
use tsn_fieldbus.Proto.{err_invalid_len}
use tsn_fieldbus.Security.Footer.{SecurityFooter}
use tsn_fieldbus.Security.Footer.Laws.{
  IsFooter, split-write_to, split_short, split_enough, length-tag,
}
use tsn_fieldbus.Sdcp.Header.{SdcpHeader}
use tsn_fieldbus.Sdcp.Header
use tsn_fieldbus.Sdcp.Header.Laws.{IsHeader, read_from-write_to, read_from_enough}
use tsn_fieldbus.Sdcp.Payload.{ParsedSdcpPayload, parse_sdcp_payload, append_sdcp_footer}

length-header : (h : SdcpHeader) → length (Header.write_to h []) ≡ 5
unfolding Header.write_to
length-header h = omega (
  arith,
  length-append (to_be 2 h.transaction_id) (h.flags ∷ []),
  length-to_be 2 h.transaction_id,
)

-- A header, TLV bytes and a footer that fit the wire are parsed back from the payload they make.
pub parse-append_sdcp_footer :
    (h : SdcpHeader) (tlv : List ℕ) (f : SecurityFooter)
    → IsHeader h
    → IsFooter f
    → parse_sdcp_payload (append_sdcp_footer (Header.write_to h [] ++ tlv) f)
      ≡ ok (record {
        header = h;
        tlv_payload = tlv;
        sequence_number = f.sequence_number;
        auth_tag = f.auth_tag;
      })
unfolding parse_sdcp_payload append_sdcp_footer
parse-append_sdcp_footer h tlv f vh vf = ground (
  arith,
  split-write_to f (Header.write_to h [] ++ tlv) vf,
  length-append (Header.write_to h []) tlv,
  length-header h,
  read_from-write_to h tlv vh,
  drop-append 5 (Header.write_to h []) tlv (length-header h),
)

-- A payload shorter than header and footer is refused.
pub parse_sdcp_payload_short :
    (payload : List ℕ) → length payload < 21 → parse_sdcp_payload payload ≡ err err_invalid_len
unfolding parse_sdcp_payload
parse_sdcp_payload_short payload h =
    ground
      (arith, split_short payload, split_enough payload, length-take (length payload - 16) payload)

-- Any other payload is parsed: its TLV bytes are those between the header and the footer.
pub parse_sdcp_payload_enough :
    (payload : List ℕ)
    → 21 ≤ length payload
    → (p : ParsedSdcpPayload) × (parse_sdcp_payload payload ≡ ok p)
      × (p.tlv_payload ≡ drop 5 (take (length payload - 16) payload))
unfolding parse_sdcp_payload
parse_sdcp_payload_enough payload h =
    let rest : List ℕ = take (length payload - 16) payload in
    let (header, e) =
      read_from_enough rest (omega (arith, length-take (length payload - 16) payload)) in
    (
      record {
        header = header;
        tlv_payload = drop 5 rest;
        sequence_number = from_be (take 8 (drop (length payload - 16) payload));
        auth_tag = take 8 (drop 8 (drop (length payload - 16) payload));
      },
      ground (arith, e, split_enough payload, length-take (length payload - 16) payload),
      refl,
    )

-- The tag of a payload that is parsed has 8 bytes.
pub parse_sdcp_payload-tag :
    (payload : List ℕ) (p : ParsedSdcpPayload)
    → parse_sdcp_payload payload ≡ ok p
    → length p.auth_tag ≡ 8
unfolding parse_sdcp_payload
parse_sdcp_payload-tag payload p h =
    ground (arith, split_short payload, split_enough payload, length-tag payload)
