-- ===== src/SlaveDiscovery/Frames.antt =====
-- The frames that the slave sends, and the packets that it refuses.
use tsn_fieldbus.Base.{
  ℕ, ◌^◌, ◌<◌, ◌≡◌, refl, ap, ◌∙◌, arith, List, [], ◌∷◌, ◌++◌, Option, none, some, false, not,
  Option-cases, inl, inr, if◌then◌else◌, ok,
}
use tsn_fieldbus.Base.Table.{get, contains_key}
use tsn_fieldbus.Mac.{MacAddr, mac_eq, mac_beq_iff}
use tsn_fieldbus.Security.Footer.{SecurityFooter}
use tsn_fieldbus.Security.Footer.Laws.{IsFooter}
use tsn_fieldbus.Security.Crypto.{Blake3, calculate_hmac}
use tsn_fieldbus.Security.Crypto.Compare.{calculate_hmac-IsBytes}
use tsn_fieldbus.Security.DiscoveryAuth.{
  DeviceSecurityContext, DiscoveryAuthHandler, default, tag_parts, has_device, add_new_device,
  create_auth_tag, validate_auth_tag,
}
use tsn_fieldbus.Security.DiscoveryAuth.Laws.{
  get-add_new_device, create_auth_tag_known, validate_auth_tag_refused,
}
use tsn_fieldbus.Sdcp.Header.{SdcpHeader, SdcpOpCode, ethertype_sdcp}
use tsn_fieldbus.Sdcp.Header
use tsn_fieldbus.Sdcp.Tlv.{Tlv}
use tsn_fieldbus.Sdcp.Tlv
use tsn_fieldbus.Sdcp.Payload.{parse_sdcp_payload, append_sdcp_footer}
use tsn_fieldbus.Sdcp.Payload.Laws.{parse-append_sdcp_footer}
use tsn_fieldbus.SlaveDiscovery.{
  Hardware, EthernetFrame, Slave, send_tagged, send_response, handle_packet,
}

-- The number that the next tag for the device carries.
abbrev pub next_number : DiscoveryAuthHandler → MacAddr → ℕ
next_number auth own = elim (get own auth.devices) [
  | none ↦ 1
  | some c ↦ c.transmitter_sequence_number
]

module _ (b : Blake3) (hw : Hardware) where
  -- A packet whose tag is refused is dropped: nothing is sent and nothing changes.
  pub handle_packet_refused :
      (s : Slave b hw) (h : SdcpHeader) (tlv : List ℕ) (n : ℕ) (tag : List ℕ) (source : MacAddr)
      → (validate_auth_tag b s.auth source h tlv n tag).1 ≡ false
      → handle_packet b hw s h tlv n tag source ≡ s
  unfolding handle_packet
  handle_packet_refused s h tlv n tag source bad =
      rw (bad, handle_packet)
        (ap (λ auth. record s { auth = auth })
          (validate_auth_tag_refused b s.auth source h tlv n tag bad))

  -- The handler that `send_response` tags with: the slave's own address has a context.
  abbrev pub own_auth : Slave b hw → DiscoveryAuthHandler
  own_auth s = if not (has_device s.auth s.mac) then add_new_device s.auth s.mac else s.auth

  own_auth-known :
      (s : Slave b hw)
      → (c : DeviceSecurityContext) × (get s.mac (own_auth s).devices ≡ some c)
        × (c.transmitter_sequence_number ≡ next_number s.auth s.mac)
        × ((own_auth s).shared_secret ≡ s.auth.shared_secret)
  unfolding has_device contains_key add_new_device
  own_auth-known s = elim (Option-cases (get s.mac s.auth.devices)) [
    | inl unknown ↦
        let added = get-add_new_device s.auth s.mac s.mac in
        (default, ground (arith, mac_beq_iff s.mac s.mac), ground arith, ground arith)
    | inr (c, known) ↦ (c, ground arith, ground arith, ground arith)
  ]

  abbrev response_frame : Slave b hw → MacAddr → List ℕ → List ℕ → ℕ → List ℕ → EthernetFrame
  response_frame s target header bytes n tag = record {
    destination = target;
    source = s.mac;
    ethertype = ethertype_sdcp;
    payload = append_sdcp_footer (header ++ bytes) (record { sequence_number = n; auth_tag = tag });
  }

  send_tagged-sent :
      (s : Slave b hw) (target : MacAddr) (header bytes : List ℕ) (n : ℕ) (tag : List ℕ)
      (r : DiscoveryAuthHandler × Option (ℕ × List ℕ))
      → r.1 ≡ some (n, tag)
      → (send_tagged b hw s target header bytes r).sent
        ≡ response_frame s target header bytes n tag ∷ s.sent
  unfolding send_tagged
  send_tagged-sent s target header bytes n tag (auth, none) h = ground arith
  send_tagged-sent s target header bytes n tag (auth, some (n', tag')) h = ground arith

  -- One frame is sent, to the target: its payload is parsed into the header, the bytes of the TLV,
  -- the slave's next number, and the tag of these under the shared secret.
  pub send_response_frame :
      (s : Slave b hw) (target : MacAddr) (op_code : SdcpOpCode) (tx : ℕ) (tlv : Tlv)
      → tx < 256 ^ 2
      → next_number s.auth s.mac < 256 ^ 8
      → let n = next_number s.auth s.mac in
        let header = Header.new op_code tx in
        let bytes = Tlv.write_to tlv [] in
        (f : EthernetFrame) × ((send_response b hw s target op_code tx tlv).sent ≡ f ∷ s.sent)
        × (f.destination ≡ target)
        × (f.source ≡ s.mac)
        × (f.ethertype ≡ ethertype_sdcp)
        × (parse_sdcp_payload f.payload
            ≡ ok (record {
              header = header;
              tlv_payload = bytes;
              sequence_number = n;
              auth_tag = calculate_hmac b s.auth.shared_secret (tag_parts header bytes n);
            }))
  unfolding send_response Header.new
  send_response_frame s target op_code tx tlv fits room =
      let (c, known, counts, secret) = own_auth-known s in
      let header : SdcpHeader = Header.new op_code tx in
      let bytes : List ℕ = Tlv.write_to tlv [] in
      let n : ℕ = next_number s.auth s.mac in
      let tag : List ℕ = calculate_hmac b s.auth.shared_secret (tag_parts header bytes n) in
      let (made, moved, kept) =
        create_auth_tag_known b (own_auth s) s.mac s.mac header bytes c known in
      let footer : SecurityFooter = record { sequence_number = n; auth_tag = tag } in
      let made' : (create_auth_tag b (own_auth s) s.mac header bytes).1 ≡ some (n, tag) =
        made
        ∙ ap (λ j. some (j, calculate_hmac b (own_auth s).shared_secret (tag_parts header bytes j)))
            counts
        ∙ ap (λ k. some (n, calculate_hmac b k (tag_parts header bytes n))) secret in
      let shaped : IsFooter footer = record {
        sequence_u64 = room;
        tag_length = (calculate_hmac-IsBytes b s.auth.shared_secret (tag_parts header bytes n)).0;
      } in
      (
        response_frame s target (Header.write_to header []) bytes n tag,
        send_tagged-sent s target (Header.write_to header []) bytes n tag
            (create_auth_tag b (own_auth s) s.mac header bytes) made',
        refl,
        refl,
        refl,
        parse-append_sdcp_footer header bytes footer
            (record { version_u8 = omega arith; transaction_u16 = fits; flags_u8 = omega arith })
            shaped,
      )
