-- ===== src/SlaveDiscovery/Answers.antt =====
-- What a packet can make the slave do, whoever sends it.
use tsn_fieldbus.Base.{
  subst, ◌&&◌, ℕ, ◌≡◌, ◌⊎◌, inl, inr, refl, sym, ap, arith, List, [], ◌∷◌, Option, none, some, Bool,
  true, false, ok, err, Result, Bool-cases,
}
use tsn_fieldbus.Proto.{
  StatusCode, DeviceInfo, pre_op, ip_source_try_from, no_error, err_hardware_access,
}
use tsn_fieldbus.StateMachine.{set_target_state}
use tsn_fieldbus.Mac.{MacAddr}
use tsn_fieldbus.Security.Crypto.{Blake3}
use tsn_fieldbus.Security.DiscoveryAuth.{DiscoveryAuthHandler, create_auth_tag, validate_auth_tag}
use tsn_fieldbus.Sdcp.Header.{
  SdcpHeader, SdcpOpCode, discover_req, discover_res, set_ip_req, set_ip_res, get_ip_req,
  get_ip_res, activate_dhcp_req, activate_dhcp_res, unknown_operation,
}
use tsn_fieldbus.Sdcp.Tlv.{Tlv, status_report, ip_report}
use tsn_fieldbus.Sdcp.Tlv
use tsn_fieldbus.Sdcp.Header
use tsn_fieldbus.Sdcp.Tlv.Parse.{IpConfig}
use tsn_fieldbus.SlaveDiscovery.{
  Hardware, EthernetFrame, Slave, send_tagged, send_response, send_status_response,
  handle_discovery_request, handle_get_ip_request, answer_get_ip, after_write, after_read,
  after_apply, apply_parsed, parsed_config, four_or, source_or_unspecified, handle_set_ip_request,
  dispatch, handle_packet,
}
use tsn_fieldbus.SlaveDiscovery.Frames.{handle_packet_refused, own_auth}
use tsn_fieldbus.SlaveDiscovery.Handshake.{handle_packet_accepted, info_tlv}

same_and : (x v : Bool) → v ≡ true → x ≡ (x && v)
same_and x v h = ground arith

module _ (b : Blake3) (hw : Hardware) where
  -- At most one frame is sent, from the slave to the target, and the state is as `state` says.
  pub record Answers (s s' : Slave b hw) (target : MacAddr) (moves : Bool) : Type 0 where
    pub sends :
        (s'.sent ≡ s.sent)
        ⊎ ((f : EthernetFrame) × (s'.sent ≡ f ∷ s.sent)
            × (f.destination ≡ target)
            × (f.source ≡ s.mac))
    pub state :
        (s'.manager ≡ s.manager)
        ⊎ ((moves ≡ true) × (s'.manager ≡ (set_target_state s.manager pre_op).0))

  manager-Answers :
      (s s' : Slave b hw) (target : MacAddr) → Answers s s' target false → s'.manager ≡ s.manager
  manager-Answers s s' target a = elim a.state [ inl same ↦ same | inr (moved, e) ↦ ground arith ]

  send_tagged-Answers :
      (s : Slave b hw) (target : MacAddr) (header bytes : List ℕ) (moves : Bool)
      (r : DiscoveryAuthHandler × Option (ℕ × List ℕ))
      → Answers s (send_tagged b hw s target header bytes r) target moves
  unfolding send_tagged
  send_tagged-Answers s target header bytes moves (auth, none) = record {
    sends = inl refl;
    state = inl refl;
  }
  send_tagged-Answers s target header bytes moves (auth, some (n, tag)) = record {
    sends = inr (_, refl, refl, refl);
    state = inl refl;
  }

  send_response-Answers :
      (s : Slave b hw) (target : MacAddr) (op : SdcpOpCode) (tx : ℕ) (tlv : Tlv) (moves : Bool)
      → Answers s (send_response b hw s target op tx tlv) target moves
  unfolding send_response
  send_response-Answers s target op tx tlv moves =
      send_tagged-Answers s target (Header.write_to (Header.new op tx) []) (Tlv.write_to tlv [])
        moves (create_auth_tag b (own_auth b hw s) s.mac (Header.new op tx) (Tlv.write_to tlv []))

  send_status_response-Answers :
      (s : Slave b hw) (target : MacAddr) (op : SdcpOpCode) (tx : ℕ) (code : StatusCode)
      (moves : Bool)
      → Answers s (send_status_response b hw s target op tx code) target moves
  unfolding send_status_response
  send_status_response-Answers s target op tx code moves =
      send_response-Answers s target op tx (status_report code) moves

  answer_get_ip-Answers :
      (s : Slave b hw) (h : SdcpHeader) (source : MacAddr) (r : Result StatusCode DeviceInfo)
      → Answers s (answer_get_ip b hw s h source r) source false
  unfolding answer_get_ip
  answer_get_ip-Answers s h source (err code) =
      send_status_response-Answers s source get_ip_res h.transaction_id code false
  answer_get_ip-Answers s h source (ok info) =
      send_response-Answers s source get_ip_res h.transaction_id
        (ip_report (four_or info.ip_address (0 ∷ 0 ∷ 0 ∷ 0 ∷ []))
          (four_or info.netmask (255 ∷ 255 ∷ 255 ∷ 0 ∷ []))
          (four_or info.gateway (0 ∷ 0 ∷ 0 ∷ 0 ∷ []))
          (source_or_unspecified (ip_source_try_from info.ip_source)))
        false

  after_write-Answers :
      (s : Slave b hw) (h : SdcpHeader) (source : MacAddr)
      (r : hw.Device × Result StatusCode (Unit {0}))
      → Answers s (after_write b hw s h source r) source true
  unfolding after_write
  after_write-Answers s h source (device, err code) =
      let a =
        send_status_response-Answers (record s { device = device }) source set_ip_res
          h.transaction_id code true in
      record { sends = a.sends; state = a.state }
  after_write-Answers s h source (device, ok done) =
      let a =
        send_status_response-Answers (record s { device = device }) source set_ip_res
          h.transaction_id no_error true in
      record {
        sends = a.sends;
        state = inr (
          refl,
          ap (λ m. (set_target_state m pre_op).0)
              (manager-Answers (record s { device = device }) _ source
                (send_status_response-Answers (record s { device = device }) source set_ip_res
                  h.transaction_id no_error false)),
        );
      }

  after_read-Answers :
      (s : Slave b hw) (h : SdcpHeader) (source : MacAddr) (config : IpConfig)
      (r : Result StatusCode DeviceInfo)
      → Answers s (after_read b hw s h source config r) source true
  unfolding after_read
  after_read-Answers s h source config (err code) =
      send_status_response-Answers s source set_ip_res h.transaction_id code true
  after_read-Answers s h source config (ok info) = after_write-Answers s h source (
      hw.write_device_info s.device (record info {
        ip_address = config.ip;
        netmask = config.netmask;
        gateway = config.gateway;
      }))

  after_apply-Answers :
      (s : Slave b hw) (h : SdcpHeader) (source : MacAddr) (config : IpConfig)
      (r : hw.Device × Result StatusCode (Unit {0}))
      → Answers s (after_apply b hw s h source config r) source true
  unfolding after_apply
  after_apply-Answers s h source config (device, err code) =
      let a =
        send_status_response-Answers (record s { device = device }) source set_ip_res
          h.transaction_id err_hardware_access true in
      record { sends = a.sends; state = a.state }
  after_apply-Answers s h source config (device, ok done) =
      let a =
        after_read-Answers (record s { device = device }) h source config
          (hw.read_device_info device) in
      record { sends = a.sends; state = a.state }

  apply_parsed-Answers :
      (s : Slave b hw) (h : SdcpHeader) (source : MacAddr) (o : Option IpConfig)
      → Answers s (apply_parsed b hw s h source o) source true
  unfolding apply_parsed
  apply_parsed-Answers s h source none = record { sends = inl refl; state = inl refl }
  apply_parsed-Answers s h source (some config) =
      after_apply-Answers s h source config
        (hw.apply_ip_config s.device config.ip config.netmask config.gateway)

  abbrev pub is_set_ip : SdcpOpCode → Bool
  is_set_ip set_ip_req = true
  is_set_ip _ = false

  ignored-Answers : (s : Slave b hw) (source : MacAddr) → Answers s s source false
  ignored-Answers s source = record { sends = inl refl; state = inl refl }

  dispatch-Answers :
      (op : SdcpOpCode) (s : Slave b hw) (h : SdcpHeader) (tlv : List ℕ) (source : MacAddr)
      → Answers s (dispatch b hw op s h tlv source) source (is_set_ip op)
  unfolding dispatch handle_discovery_request handle_get_ip_request handle_set_ip_request
  dispatch-Answers discover_req s h tlv source =
      send_response-Answers s source discover_res h.transaction_id (info_tlv b hw s) false
  dispatch-Answers set_ip_req s h tlv source =
      apply_parsed-Answers s h source (parsed_config b hw tlv)
  dispatch-Answers get_ip_req s h tlv source =
      answer_get_ip-Answers s h source (hw.read_device_info s.device)
  dispatch-Answers discover_res s h tlv source = ignored-Answers s source
  dispatch-Answers set_ip_res s h tlv source = ignored-Answers s source
  dispatch-Answers get_ip_res s h tlv source = ignored-Answers s source
  dispatch-Answers activate_dhcp_req s h tlv source = ignored-Answers s source
  dispatch-Answers activate_dhcp_res s h tlv source = ignored-Answers s source
  dispatch-Answers unknown_operation s h tlv source = ignored-Answers s source

  -- Whatever packet arrives, the slave sends at most one frame, from its own address and to the
  -- sender; and its state stays, or the packet is an accepted `SetIpReq` and the state is what a
  -- request for `PreOp` makes of it.
  pub handle_packet-Answers :
      (s : Slave b hw) (h : SdcpHeader) (tlv : List ℕ) (n : ℕ) (tag : List ℕ) (source : MacAddr)
      → Answers s
          (handle_packet b hw s h tlv n tag source)
          source
          (is_set_ip h.op_code && (validate_auth_tag b s.auth source h tlv n tag).1)
  handle_packet-Answers s h tlv n tag source =
      elim (Bool-cases (validate_auth_tag b s.auth source h tlv n tag).1) [
        | inl good ↦
            let a =
              dispatch-Answers h.op_code
                (record s { auth = (validate_auth_tag b s.auth source h tlv n tag).0 }) h tlv
                source in
            subst
              (λ r.
                Answers s r source
                  (is_set_ip h.op_code && (validate_auth_tag b s.auth source h tlv n tag).1))
              (sym (handle_packet_accepted b hw s h tlv n tag source good))
              (subst
                (Answers s
                  (dispatch b hw h.op_code
                    (record s { auth = (validate_auth_tag b s.auth source h tlv n tag).0 }) h tlv
                    source)
                  source)
                (same_and (is_set_ip h.op_code) _ good)
                (record { sends = a.sends; state = a.state }))
        | inr bad ↦
            subst
              (λ r.
                Answers s r source
                  (is_set_ip h.op_code && (validate_auth_tag b s.auth source h tlv n tag).1))
              (sym (handle_packet_refused b hw s h tlv n tag source bad))
              (record { sends = inl refl; state = inl refl })
      ]
