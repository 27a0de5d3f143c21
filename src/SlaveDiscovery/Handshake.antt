-- ===== src/SlaveDiscovery/Handshake.antt =====
-- The first exchange between a master and a slave: the request of the one and the response of the other
-- are accepted at the other end.
use tsn_fieldbus.Base.{
  ℕ, ◌%◌, ◌^◌, ◌<◌, ◌≡◌, refl, sym, ap, ◌∙◌, arith, List, [], ◌∷◌, none, some, true, ok,
}
use tsn_fieldbus.Base.Table.{get}
use tsn_fieldbus.Mac.{MacAddr, mac_eq}
use tsn_fieldbus.Security.Crypto.{Blake3, calculate_hmac}
use tsn_fieldbus.Security.Crypto.Compare.{calculate_hmac-IsBytes}
use tsn_fieldbus.Security.DiscoveryAuth.{
  DeviceSecurityContext, DiscoveryAuthHandler, tag_parts, create_auth_tag, validate_auth_tag,
  validate_discovery_response,
}
use tsn_fieldbus.Security.DiscoveryAuth.Laws.{
  validate-create, validate_discovery_response_iff, get-validate_auth_tag_unknown,
  secret-validate_auth_tag,
}
use tsn_fieldbus.Sdcp.Header.{SdcpHeader, discover_req, discover_res, ethertype_sdcp}
use tsn_fieldbus.Sdcp.Header
use tsn_fieldbus.Sdcp.Tlv.{Tlv, device_info}
use tsn_fieldbus.Sdcp.Tlv
use tsn_fieldbus.Sdcp.Payload.{ParsedSdcpPayload, parse_sdcp_payload}
use tsn_fieldbus.SlaveDiscovery.{
  Hardware, EthernetFrame, Slave, default_device_info, unwrap_or, dispatch,
  handle_discovery_request, handle_packet,
}
use tsn_fieldbus.SlaveDiscovery.Frames.{next_number, send_response_frame}

module _ (b : Blake3) (hw : Hardware) where
  -- A packet whose tag is accepted is handled by its operation code.
  pub handle_packet_accepted :
      (s : Slave b hw) (h : SdcpHeader) (tlv : List ℕ) (n : ℕ) (tag : List ℕ) (source : MacAddr)
      → (validate_auth_tag b s.auth source h tlv n tag).1 ≡ true
      → handle_packet b hw s h tlv n tag source
        ≡ dispatch b hw h.op_code
            (record s { auth = (validate_auth_tag b s.auth source h tlv n tag).0 })
            h
            tlv
            source
  unfolding handle_packet
  handle_packet_accepted s h tlv n tag source good = rw (good, handle_packet) refl

  -- The information about the device that a discovery response carries.
  abbrev pub info_tlv : Slave b hw → Tlv
  info_tlv s =
      let info = unwrap_or (hw.read_device_info s.device) default_device_info in
      device_info (info.vendor_id % 2 ^ 16) (info.device_id % 2 ^ 16) info.serial_number

  -- A master that has a context for the address it asks tags a discovery request. A slave that has a
  -- context for the master, shares the secret and has not seen the number yet accepts it, and sends
  -- one frame to the master. If it is the slave's first, the frame is parsed into a response with the
  -- same transaction number and the device's information, and the master accepts its tag.
  pub discover-handshake :
      (master : DiscoveryAuthHandler) (s : Slave b hw) (to from : MacAddr) (tx : ℕ)
      (c d : DeviceSecurityContext)
      → get to master.devices ≡ some c
      → get from s.auth.devices ≡ some d
      → get s.mac s.auth.devices ≡ none
      → s.auth.shared_secret ≡ master.shared_secret
      → d.last_valid_received_sequence_number < c.transmitter_sequence_number
      → tx < 256 ^ 2
      → let n = c.transmitter_sequence_number in
        let request = Header.new discover_req tx in
        let tag = calculate_hmac b master.shared_secret (tag_parts request [] n) in
        (f : EthernetFrame) × (p : ParsedSdcpPayload) × ((create_auth_tag b master to request []).1
          ≡ some (n, tag))
        × ((handle_packet b hw s request [] n tag from).sent ≡ f ∷ s.sent)
        × (f.destination ≡ from)
        × (f.source ≡ s.mac)
        × (f.ethertype ≡ ethertype_sdcp)
        × (parse_sdcp_payload f.payload ≡ ok p)
        × (p.header ≡ Header.new discover_res tx)
        × (p.tlv_payload ≡ Tlv.write_to (info_tlv s) [])
        × (validate_discovery_response b master p.header p.tlv_payload p.sequence_number p.auth_tag
            ≡ true)
  unfolding Header.new dispatch handle_discovery_request
  discover-handshake master s to from tx c d sends receives fresh secret behind fits =
      let n : ℕ = c.transmitter_sequence_number in
      let request : SdcpHeader = Header.new discover_req tx in
      let tag : List ℕ = calculate_hmac b master.shared_secret (tag_parts request [] n) in
      let (made, good, grown, moved) =
        validate-create b master s.auth to from request [] c d sends receives secret behind in
      let v : DiscoveryAuthHandler = (validate_auth_tag b s.auth from request [] n tag).0 in
      let s' : Slave b hw = record s { auth = v } in
      let first : next_number v s.mac ≡ 1 =
        ground (arith, get-validate_auth_tag_unknown b s.auth from s.mac request [] n tag fresh) in
      let (f, sent, dest, src, kind, parsed) =
        send_response_frame b hw s' from discover_res tx (info_tlv s) fits (omega (arith, first)) in
      let header : SdcpHeader = Header.new discover_res tx in
      let bytes : List ℕ = Tlv.write_to (info_tlv s) [] in
      let reply : List ℕ =
        calculate_hmac b v.shared_secret (tag_parts header bytes (next_number v s.mac)) in
      let shared : v.shared_secret ≡ master.shared_secret =
        secret-validate_auth_tag b s.auth from request [] n tag ∙ secret in
      let accepted : validate_discovery_response b master header bytes (next_number v s.mac) reply
          ≡ true =
        (validate_discovery_response_iff b master header bytes (next_number v s.mac) reply
            (calculate_hmac-IsBytes b v.shared_secret
              (tag_parts header bytes (next_number v s.mac))).0).1
          (
            first,
            ap (λ k. calculate_hmac b k (tag_parts header bytes (next_number v s.mac)))
                (sym shared),
          ) in
      let handled : (handle_packet b hw s request [] n tag from).sent ≡ f ∷ s.sent =
        ap (λ r. r.sent) (handle_packet_accepted s request [] n tag from good) ∙ sent in
      (
        f,
        record {
          header = header;
          tlv_payload = bytes;
          sequence_number = next_number v s.mac;
          auth_tag = reply;
        },
        made,
        handled,
        dest,
        src,
        kind,
        parsed,
        refl,
        refl,
        accepted,
      )
