-- ===== src/MasterDiscovery/Found.antt =====
-- A discovery from end to end: the master's request, the slave's answer, and the device that the
-- master finds.
use tsn_fieldbus.Base.{
  ℕ, ◌%◌, ◌^◌, ◌<◌, ◌≡◌, ◌≢◌, refl, sym, ap, subst, ◌∙◌, arith, List, [], ◌∷◌, ◌++◌, none, some,
  true, false, not, ok, Option-cases, inl, inr, if◌then◌else◌, ok?, ◌==◌, ◌||◌,
}
use tsn_fieldbus.Base.Table.{get, contains_key}
use tsn_fieldbus.Proto.{DeviceInfo}
use tsn_fieldbus.Mac.{MacAddr, mac_beq, mac_beq_iff, mac_eq}
use tsn_fieldbus.Security.Footer.{SecurityFooter}
use tsn_fieldbus.Security.Crypto.{Blake3, calculate_hmac}
use tsn_fieldbus.Security.Crypto.Compare.{calculate_hmac-IsBytes}
use tsn_fieldbus.Security.DiscoveryAuth.{
  DeviceSecurityContext, DiscoveryAuthHandler, default, tag_parts, has_device, add_new_device,
  create_auth_tag, validate_discovery_response, set_last_valid_received_sequence_number,
}
use tsn_fieldbus.Security.DiscoveryAuth.Laws.{get-add_new_device, create_auth_tag_known}
use tsn_fieldbus.Sdcp.Header.{
  SdcpHeader, discover_req, discover_res, ethertype_sdcp, op_code_number,
}
use tsn_fieldbus.Sdcp.Header
use tsn_fieldbus.Base.Bytes.{to_be}
use mathlib.Core.List.{append-nil}
use tsn_fieldbus.Sdcp.Tlv.{Tlv, device_info, tlv_type_device_info}
use tsn_fieldbus.Sdcp.Tlv.Laws.{read_from-write_to_fits}
use tsn_fieldbus.Sdcp.Tlv.RoundTrip.{parse-device_info}
use tsn_fieldbus.Sdcp.Tlv
use tsn_fieldbus.Sdcp.Payload.{ParsedSdcpPayload, parse_sdcp_payload, append_sdcp_footer}
use tsn_fieldbus.Sdcp.Payload.Laws.{parse-append_sdcp_footer}
use tsn_fieldbus.SlaveDiscovery.{
  Hardware, EthernetFrame, Slave, handle_packet, unwrap_or, default_device_info,
}
use tsn_fieldbus.SlaveDiscovery.Frames.{next_number}
use tsn_fieldbus.SlaveDiscovery.Handshake.{discover-handshake}
use tsn_fieldbus.MasterDiscovery.{
  DiscoveryMaster, packet, new_device, broadcast_mac, build_request_frame, tagged_request,
  tlv_bytes,
}
use tsn_fieldbus.MasterDiscovery.Discover.{
  process_discover_frame, process_parsed, check_discovery, read_device, with_tlv, with_info,
}

-- The handler that the request is tagged with: the master's own address has a context.
abbrev own_handler : DiscoveryAuthHandler → MacAddr → DiscoveryAuthHandler
own_handler h own = if not (has_device h own) then add_new_device h own else h

own_handler-known :
    (h : DiscoveryAuthHandler) (own : MacAddr)
    → (c : DeviceSecurityContext) × (get own (own_handler h own).devices ≡ some c)
      × (c.transmitter_sequence_number ≡ next_number h own)
      × ((own_handler h own).shared_secret ≡ h.shared_secret)
      × ((k : MacAddr) → k ≢ own → get k (own_handler h own).devices ≡ get k h.devices)
unfolding has_device contains_key add_new_device
own_handler-known h own = elim (Option-cases (get own h.devices)) [
  | inl unknown ↦
      let added = get-add_new_device h own own in
      (
        default,
        ground (arith, mac_beq_iff own own),
        ground arith,
        ground arith,
        λ k other. ground (arith, get-add_new_device h own k, mac_beq_iff own k),
      )
  | inr (c, known) ↦ (c, ground arith, ground arith, ground arith, λ k other. ground arith)
]

module _ (b : Blake3) where
  -- A request is built, with the next number of the master and its tag.
  build_request_frame-built :
      (m : DiscoveryMaster) (own : MacAddr) (tx : ℕ)
      → m.interface_mac ≡ some own
      → let h = own_handler m.discovery_auth_handler own in
        let n = next_number m.discovery_auth_handler own in
        let header = Header.new discover_req tx in
        let tag = calculate_hmac b h.shared_secret (tag_parts header [] n) in
        build_request_frame b m broadcast_mac discover_req tx none ≡ (
          record m { discovery_auth_handler = (create_auth_tag b h own header []).0 },
          ok (record {
            destination = broadcast_mac;
            source = own;
            ethertype = ethertype_sdcp;
            payload =
                append_sdcp_footer
                  (Header.write_to header [] ++ [])
                  (record { sequence_number = n; auth_tag = tag });
          }),
        )
  unfolding build_request_frame tagged_request tlv_bytes
  build_request_frame-built m own tx here =
      let h : DiscoveryAuthHandler = own_handler m.discovery_auth_handler own in
      let header : SdcpHeader = Header.new discover_req tx in
      let (c, known, counts, _, _) = own_handler-known m.discovery_auth_handler own in
      let (made, _, _) = create_auth_tag_known b h own own header [] c known in
      rw (here, made, counts) refl

  same_secret :
      (h h' : DiscoveryAuthHandler) (p : ParsedSdcpPayload)
      → h'.shared_secret ≡ h.shared_secret
      → validate_discovery_response b h' p.header p.tlv_payload p.sequence_number p.auth_tag
        ≡ validate_discovery_response b h p.header p.tlv_payload p.sequence_number p.auth_tag
  unfolding validate_discovery_response
  same_secret h h' p same = rw same

  -- A first response of an unknown device is read.
  pub process-first_response :
      (h : DiscoveryAuthHandler) (f : EthernetFrame) (p : ParsedSdcpPayload) (tx : ℕ)
      → f.ethertype ≡ ethertype_sdcp
      → parse_sdcp_payload f.payload ≡ ok p
      → p.header ≡ Header.new discover_res tx
      → get f.source h.devices ≡ none
      → validate_discovery_response b h p.header p.tlv_payload p.sequence_number p.auth_tag ≡ true
      → (process_discover_frame b h tx (packet f)).1 ≡ read_device f.source p.tlv_payload
  unfolding process_discover_frame process_parsed check_discovery has_device contains_key Header.new
  process-first_response h f p tx kind parses header unknown good =
      let operation : p.header.op_code ≡ discover_res = ap (λ x. x.op_code) header in
      let transaction : p.header.transaction_id ≡ tx = ap (λ x. x.transaction_id) header in
      let checked : check_discovery b h f.source p ≡ (
        (set_last_valid_received_sequence_number (add_new_device h f.source) f.source
            p.sequence_number).0,
        true,
      ) =
        (let first : has_device h f.source ≡ false = ground arith in rw (first, good) refl) in
      let matching : (not (op_code_number p.header.op_code == op_code_number discover_res)
            || not (p.header.transaction_id == tx))
          ≡ false =
        ground (arith, ap op_code_number operation) in
      rw (kind, parses, matching, checked) refl

-- The device information of a response is read back.
pub read_device-device_info :
    (source : MacAddr) (v d s : ℕ)
    → v < 256 ^ 2
    → d < 256 ^ 2
    → s < 256 ^ 4
    → read_device source (Tlv.write_to (device_info v d s) [])
      ≡ some (record { mac_address = source; vendor_id = v; device_id = d; serial_number = s })
unfolding read_device with_tlv with_info new_device device_info to_be
read_device-device_info source v d s hv hd hs =
    let value : List ℕ = to_be 2 v ++ (to_be 2 d ++ to_be 4 s) in
    ap (λ r. with_tlv source (ok? r))
      (ap Tlv.read_from (sym (append-nil (Tlv.write_to (device_info v d s) [])))
        ∙ read_from-write_to_fits tlv_type_device_info value [] (omega arith))
    ∙ ap (with_info source) (parse-device_info v d s hv hd hs)

module _ (b : Blake3) (hw : Hardware) where
  -- A discovery request of a master whose interface has an address is taken by every slave that knows
  -- the master and the secret and has not seen the master's number yet. The one frame that such a slave
  -- sends, if it is its first and the master does not know it, makes the master find a device with the
  -- slave's address and the identification that its hardware reads. The two addresses differ, and the
  -- numbers fit their fields in the frame.
  pub discovery-finds :
      (m : DiscoveryMaster) (s : Slave b hw) (own : MacAddr) (tx : ℕ) (d : DeviceSecurityContext)
      → let n = next_number m.discovery_auth_handler own in
        let info = unwrap_or (hw.read_device_info s.device) default_device_info in
        m.interface_mac ≡ some own
        → get own s.auth.devices ≡ some d
        → get s.mac s.auth.devices ≡ none
        → get s.mac m.discovery_auth_handler.devices ≡ none
        → s.mac ≢ own
        → s.auth.shared_secret ≡ m.discovery_auth_handler.shared_secret
        → d.last_valid_received_sequence_number < n
        → n < 256 ^ 8
        → tx < 256 ^ 2
        → info.serial_number < 256 ^ 4
        → (m' : DiscoveryMaster) × (request : EthernetFrame) × (p : ParsedSdcpPayload)
          × (f : EthernetFrame) × (build_request_frame b m broadcast_mac discover_req tx none
              ≡ (m', ok request))
          × (parse_sdcp_payload request.payload ≡ ok p)
          × ((handle_packet b hw s p.header p.tlv_payload p.sequence_number p.auth_tag
                request.source).sent
              ≡ f ∷ s.sent)
          × ((process_discover_frame b m'.discovery_auth_handler tx (packet f)).1
              ≡ some (record {
                mac_address = s.mac;
                vendor_id = info.vendor_id % 2 ^ 16;
                device_id = info.device_id % 2 ^ 16;
                serial_number = info.serial_number;
              }))
  unfolding Header.new
  discovery-finds m s own tx d here known fresh new distinct secret behind room fits serial =
      let h : DiscoveryAuthHandler = own_handler m.discovery_auth_handler own in
      let n : ℕ = next_number m.discovery_auth_handler own in
      let header : SdcpHeader = Header.new discover_req tx in
      let (c, context, counts, kept, others) = own_handler-known m.discovery_auth_handler own in
      let tag : List ℕ = calculate_hmac b h.shared_secret (tag_parts header [] n) in
      let (f, q, _, sent, _, src, kind, parses, replied, bytes, good) =
        discover-handshake b hw h s own own tx c d context known fresh (secret ∙ sym kept)
          (omega (arith, counts)) fits in
      let g : DiscoveryAuthHandler = (create_auth_tag b h own header []).0 in
      let (_, moved, shared) = create_auth_tag_known b h own f.source header [] c context in
      let footer : SecurityFooter = record { sequence_number = n; auth_tag = tag } in
      let info : DeviceInfo = unwrap_or (hw.read_device_info s.device) default_device_info in
      let unknown : get f.source g.devices ≡ none =
        (let other : mac_beq own f.source ≡ false =
            ground (arith, mac_beq_iff own f.source, distinct, src) in
          moved ∙ rw other (rw src (others s.mac distinct ∙ new))) in
      (
        record m { discovery_auth_handler = g },
        _,
        record { header = header; tlv_payload = []; sequence_number = n; auth_tag = tag },
        f,
        build_request_frame-built b m own tx here,
        parse-append_sdcp_footer header [] footer
            (record { version_u8 = omega arith; transaction_u16 = fits; flags_u8 = omega arith })
            (record {
              sequence_u64 = room;
              tag_length = (calculate_hmac-IsBytes b h.shared_secret (tag_parts header [] n)).0;
            }),
        subst
            (λ j.
              (handle_packet b hw s header [] j
                (calculate_hmac b h.shared_secret (tag_parts header [] j)) own).sent
              ≡ f ∷ s.sent)
            counts sent,
        process-first_response b g f q tx kind parses replied unknown
              (same_secret b h g q shared ∙ good)
            ∙ ap (λ x. read_device x q.tlv_payload) src
            ∙ ap (read_device s.mac) bytes
            ∙ read_device-device_info s.mac (info.vendor_id % 2 ^ 16) (info.device_id % 2 ^ 16)
                info.serial_number (omega arith) (omega arith) serial,
      )
