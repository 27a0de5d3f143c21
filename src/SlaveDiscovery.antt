-- ===== src/SlaveDiscovery.antt =====
-- slave/src/discovery.rs: the answers of a slave to SDCP requests. The hardware traits of
-- common/src/hardware_abstraction.rs and pnet's Ethernet packets are parameters; `sent` lists the
-- frames that were sent, the newest first (a failure to send is only logged).
pub mod Frames
pub mod Answers
pub mod Handshake
use tsn_fieldbus.Base.{
  ℕ, ◌%◌, ◌^◌, List, [], ◌∷◌, ◌++◌, length, Option, none, some, Bool, true, false, ◌==◌, not,
  if◌then◌else◌, Result, ok, err,
}
use tsn_fieldbus.Proto.{
  StatusCode, no_error, err_hardware_access, IpSource, unspecified, ip_source_number,
  ip_source_try_from, DeviceInfo, DeviceState, discovery_sync, pre_op, device_state_number,
}
use tsn_fieldbus.StateMachine.{DeviceStateManager, get_state, set_target_state}
use tsn_fieldbus.Mac.{MacAddr}
use tsn_fieldbus.Security.Footer.{SecurityFooter}
use tsn_fieldbus.Security.Crypto.{Blake3}
use tsn_fieldbus.Security.DiscoveryAuth.{
  DiscoveryAuthHandler, has_device, add_new_device, create_auth_tag, validate_auth_tag,
}
use tsn_fieldbus.Sdcp.Header.{
  SdcpHeader, SdcpOpCode, discover_req, discover_res, set_ip_req, set_ip_res, get_ip_req,
  get_ip_res, ethertype_sdcp,
}
use tsn_fieldbus.Sdcp.Header
use tsn_fieldbus.Sdcp.Tlv.{Tlv, device_info, status_report, ip_report}
use tsn_fieldbus.Sdcp.Tlv
use tsn_fieldbus.Sdcp.Tlv.Parse.{IpConfig, parse_ip_config}
use tsn_fieldbus.Sdcp.Payload.{ParsedSdcpPayload, parse_sdcp_payload, append_sdcp_footer}

-- A device behind `DeviceInfoAccess` and `NetworkInterfaceAccess`, which the manufacturer implements.
pub record Hardware : Type 1 where
  pub Device : Type 0
  pub read_device_info : Device → Result StatusCode DeviceInfo
  pub write_device_info : Device → DeviceInfo → Device × Result StatusCode (Unit {0})
  pub apply_ip_config : Device → List ℕ → List ℕ → List ℕ → Device × Result StatusCode (Unit {0})

-- What pnet reads from an Ethernet frame and writes into one.
pub record EthernetFrame : Type 0 where
  pub destination : MacAddr
  pub source : MacAddr
  pub ethertype : ℕ
  pub payload : List ℕ

unfoldable pub default_device_info : DeviceInfo
default_device_info = record {
  mac_address = 0 ∷ 0 ∷ 0 ∷ 0 ∷ 0 ∷ 0 ∷ [];
  ip_address = 0 ∷ 0 ∷ 0 ∷ 0 ∷ [];
  ip_source = ip_source_number unspecified;
  netmask = 255 ∷ 255 ∷ 255 ∷ 0 ∷ [];
  gateway = 0 ∷ 0 ∷ 0 ∷ 0 ∷ [];
  vendor_id = 0;
  device_id = 0;
  serial_number = 0;
  firmware_version = 0;
  capabilities = 0;
}

-- `unwrap_or` of a result.
abbrev pub unwrap_or {ℓ} : {A : Type ℓ} → Result StatusCode A → A → A
unwrap_or (ok a) d = a
unwrap_or (err e) d = d

-- `as_slice().try_into().unwrap_or(d)` into `[u8; 4]`.
abbrev pub four_or : List ℕ → List ℕ → List ℕ
four_or xs d = if length xs == 4 then xs else d

-- `IpSource::try_from(n).unwrap_or(IpSource::Unspecified)`
abbrev pub source_or_unspecified : Option IpSource → IpSource
source_or_unspecified (some s) = s
source_or_unspecified none = unspecified

module _ (b : Blake3) (hw : Hardware) where
  open hw use {Device, read_device_info, write_device_info, apply_ip_config}

  -- `mac` is the interface's address, without which the source stops with a panic.
  pub record Slave : Type 0 where
    pub mac : MacAddr
    pub manager : DeviceStateManager
    pub device : Device
    pub auth : DiscoveryAuthHandler
    pub sent : List EthernetFrame

  -- The footer and the frame of `send_response`, once the tag is there.
  send_tagged :
      Slave → MacAddr → List ℕ → List ℕ → DiscoveryAuthHandler × Option (ℕ × List ℕ) → Slave
  send_tagged s target header tlv_payload (auth, none) = record s { auth = auth }
  send_tagged s target header tlv_payload (auth, some (n, tag)) = record s {
    auth = auth;
    sent =
        record {
          destination = target;
          source = s.mac;
          ethertype = ethertype_sdcp;
          payload =
              append_sdcp_footer (header ++ tlv_payload)
                (record { sequence_number = n; auth_tag = tag });
        }
        ∷ s.sent;
  }

  -- The `expect` on the tag cannot fail: the context was added if it was missing.
  unfoldable pub send_response : Slave → MacAddr → SdcpOpCode → ℕ → Tlv → Slave
  unfolding send_tagged
  send_response s target op_code transaction_id tlv =
      let header = Header.new op_code transaction_id in
      let tlv_payload = Tlv.write_to tlv [] in
      let auth = if not (has_device s.auth s.mac) then add_new_device s.auth s.mac else s.auth in
      send_tagged s target (Header.write_to header []) tlv_payload
        (create_auth_tag b auth s.mac header tlv_payload)

  unfoldable pub send_status_response : Slave → MacAddr → SdcpOpCode → ℕ → StatusCode → Slave
  unfolding send_response
  send_status_response s target op_code transaction_id code =
      send_response s target op_code transaction_id (status_report code)

  unfoldable pub handle_discovery_request : Slave → SdcpHeader → MacAddr → Slave
  unfolding send_response
  handle_discovery_request s header source =
      let info = unwrap_or (read_device_info s.device) default_device_info in
      send_response s source discover_res header.transaction_id
        (device_info (info.vendor_id % 2 ^ 16) (info.device_id % 2 ^ 16) info.serial_number)

  -- The answer to what the hardware reads.
  answer_get_ip : Slave → SdcpHeader → MacAddr → Result StatusCode DeviceInfo → Slave
  unfolding send_response send_status_response
  answer_get_ip s header source (err code) =
      send_status_response s source get_ip_res header.transaction_id code
  answer_get_ip s header source (ok info) =
      send_response s source get_ip_res header.transaction_id (
        ip_report (four_or info.ip_address (0 ∷ 0 ∷ 0 ∷ 0 ∷ []))
          (four_or info.netmask (255 ∷ 255 ∷ 255 ∷ 0 ∷ []))
          (four_or info.gateway (0 ∷ 0 ∷ 0 ∷ 0 ∷ []))
          (source_or_unspecified (ip_source_try_from info.ip_source)))

  unfoldable pub handle_get_ip_request : Slave → SdcpHeader → MacAddr → Slave
  unfolding answer_get_ip
  handle_get_ip_request s header source = answer_get_ip s header source (read_device_info s.device)

  -- After the device information is written back: the answer, and the step to `PreOp`.
  after_write : Slave → SdcpHeader → MacAddr → Device × Result StatusCode (Unit {0}) → Slave
  unfolding send_status_response
  after_write s header source (device, err code) =
      send_status_response (record s { device = device }) source set_ip_res header.transaction_id
        code
  after_write s header source (device, ok done) =
      let answered =
        send_status_response (record s { device = device }) source set_ip_res header.transaction_id
          no_error in
      record answered { manager = (set_target_state answered.manager pre_op).0 }

  -- After the device information is read.
  after_read : Slave → SdcpHeader → MacAddr → IpConfig → Result StatusCode DeviceInfo → Slave
  unfolding send_status_response after_write
  after_read s header source config (err code) =
      send_status_response s source set_ip_res header.transaction_id code
  after_read s header source config (ok info) = after_write s header source (
      write_device_info s.device (record info {
        ip_address = config.ip;
        netmask = config.netmask;
        gateway = config.gateway;
      }))

  -- After the configuration is applied to the network interface.
  after_apply :
      Slave → SdcpHeader → MacAddr → IpConfig → Device × Result StatusCode (Unit {0}) → Slave
  unfolding send_status_response after_read
  after_apply s header source config (device, err code) =
      send_status_response (record s { device = device }) source set_ip_res header.transaction_id
        err_hardware_access
  after_apply s header source config (device, ok done) =
      after_read (record s { device = device }) header source config (read_device_info device)

  -- The configuration in the payload, if it is not empty and both parsers succeed.
  parsed_config : List ℕ → Option IpConfig
  parsed_config [] = none
  parsed_config (x ∷ xs) = elim (Tlv.read_from (x ∷ xs)) [
    | err _ ↦ none
    | ok tlv ↦ parse_ip_config tlv
  ]

  apply_parsed : Slave → SdcpHeader → MacAddr → Option IpConfig → Slave
  unfolding after_apply
  apply_parsed s header source none = s
  apply_parsed s header source (some config) =
      after_apply s header source config
        (apply_ip_config s.device config.ip config.netmask config.gateway)

  unfoldable pub handle_set_ip_request : Slave → SdcpHeader → List ℕ → MacAddr → Slave
  unfolding apply_parsed parsed_config
  handle_set_ip_request s header tlv_payload source =
      apply_parsed s header source (parsed_config tlv_payload)

  -- The `match` on the operation code.
  pub dispatch : SdcpOpCode → Slave → SdcpHeader → List ℕ → MacAddr → Slave
  unfolding handle_discovery_request handle_set_ip_request handle_get_ip_request
  dispatch discover_req s header tlv_payload source = handle_discovery_request s header source
  dispatch set_ip_req s header tlv_payload source =
      handle_set_ip_request s header tlv_payload source
  dispatch get_ip_req s header tlv_payload source = handle_get_ip_request s header source
  dispatch _ s header tlv_payload source = s

  unfoldable pub handle_packet : Slave → SdcpHeader → List ℕ → ℕ → List ℕ → MacAddr → Slave
  unfolding dispatch
  handle_packet s header tlv_payload sequence_number auth_tag source =
      let v = validate_auth_tag b s.auth source header tlv_payload sequence_number auth_tag in
      let s' = record s { auth = v.0 } in
      if not v.1 then s' else dispatch header.op_code s' header tlv_payload source

  -- One turn of the listener's loop on a frame; `none` ends the thread. `packet` is
  -- `EthernetPacket::new`.
  unfoldable pub listen : (List ℕ → Option EthernetFrame) → Slave → List ℕ → Option Slave
  unfolding handle_packet
  listen packet s bytes =
      if not (device_state_number (get_state s.manager) == device_state_number discovery_sync)
      then none
      else elim (packet bytes) [
        | none ↦ some s
        | some frame ↦
            if not (frame.ethertype == ethertype_sdcp)
            then some s
            else elim (parse_sdcp_payload frame.payload) [
              | err _ ↦ some s
              | ok p ↦
                  some (
                    handle_packet s p.header p.tlv_payload p.sequence_number p.auth_tag
                      frame.source)
            ]
      ]
