-- ===== src/MasterDiscovery.antt =====
-- master/src/discovery.rs: the master's side of SDCP. pnet's packets are those of `SlaveDiscovery`;
-- `sent` lists the frames that were handed to the transmitter, the newest first, and `delivers` says
-- whether the transmitter takes one. The clock and the receiver of a loop are a sequence of
-- observations, on which the loops run with fuel.
pub mod Wait
pub mod Unicast
pub mod Discover
pub mod Loops
pub mod Accepts
pub mod Found
pub mod Cache
use tsn_fieldbus.Base.{
  ℕ, zero, suc, ◌+◌, ◌%◌, ◌^◌, List, [], ◌∷◌, ◌++◌, Option, none, some, Bool, true, false, ◌==◌,
  ltb, not, ◌&&◌, if◌then◌else◌, Result, ok, err, ◌>>=◌, ok_or, ok?,
}
use tsn_fieldbus.Base.Table.{Table, insert, contains_key}
use tsn_fieldbus.Proto.{
  StatusCode, no_error, err_auth_failed, err_state_conflict, err_socket_channel, err_timeout,
  err_invalid_response, err_hardware_access, status_code_number, DeviceState, discovery_sync,
  device_state_number,
}
use tsn_fieldbus.StateMachine.{DeviceStateManager, get_state}
use tsn_fieldbus.Mac.{MacAddr, mac, mac_beq, mac_eq}
use tsn_fieldbus.Security.Footer.{SecurityFooter}
use tsn_fieldbus.Security.Crypto.{Blake3}
use tsn_fieldbus.Security.DiscoveryAuth.{
  DiscoveryAuthHandler, has_device, add_new_device, create_auth_tag, validate_auth_tag,
  validate_discovery_response, set_last_valid_received_sequence_number,
}
use tsn_fieldbus.Security.DiscoveryAuth
use tsn_fieldbus.Sdcp.Header.{
  SdcpHeader, SdcpOpCode, discover_req, discover_res, set_ip_req, set_ip_res, get_ip_req,
  get_ip_res, ethertype_sdcp, op_code_number,
}
use tsn_fieldbus.Sdcp.Header
use tsn_fieldbus.Sdcp.Tlv.{Tlv, ip_config}
use tsn_fieldbus.Sdcp.Tlv
use tsn_fieldbus.Sdcp.Tlv.Parse.{
  DeviceInfo, IpReport, parse_device_info, parse_ip_report, parse_status_report,
}
use tsn_fieldbus.Sdcp.Payload.{ParsedSdcpPayload, parse_sdcp_payload, append_sdcp_footer}
use tsn_fieldbus.SlaveDiscovery.{EthernetFrame}

abbrev pub broadcast_mac : MacAddr
broadcast_mac = mac 255 255 255 255 255 255

-- Durations are nanoseconds.
abbrev pub default_discovery_timeout : ℕ
default_discovery_timeout = 2_000_000_000

abbrev pub default_unicast_timeout : ℕ
default_unicast_timeout = 1_000_000_000

-- `DiscoveredDevice` (common/src/discovery_types.rs)
pub record DiscoveredDevice : Type 0 where
  pub mac_address : MacAddr
  pub vendor_id : ℕ
  pub device_id : ℕ
  pub serial_number : ℕ

unfoldable pub new_device : MacAddr → DeviceInfo → DiscoveredDevice
new_device mac_address info = record {
  mac_address = mac_address;
  vendor_id = info.vendor_id;
  device_id = info.device_id;
  serial_number = info.serial_number;
}

pub record DiscoveryMaster : Type 0 where
  pub interface_mac : Option MacAddr
  pub device_state_manager : DeviceStateManager
  pub discovered_devices : Table MacAddr DiscoveredDevice
  pub transaction_counter : ℕ
  pub discovery_auth_handler : DiscoveryAuthHandler
  pub sent : List EthernetFrame

-- What `new` returns when the interface has a channel.
unfoldable pub new : Option MacAddr → DeviceStateManager → List ℕ → DiscoveryMaster
unfolding add_new_device DiscoveryAuth.new
new interface_mac device_state_manager shared_secret = record {
  interface_mac = interface_mac;
  device_state_manager = device_state_manager;
  discovered_devices = [];
  transaction_counter = 1;
  discovery_auth_handler = add_new_device (DiscoveryAuth.new shared_secret) broadcast_mac;
  sent = [];
}

-- `fetch_add(1)`: the number before, and the counter after it.
unfoldable pub next_transaction_id : DiscoveryMaster → DiscoveryMaster × ℕ
next_transaction_id m =
    (record m { transaction_counter = (m.transaction_counter + 1) % 2 ^ 16 }, m.transaction_counter)

unfoldable pub clear_discovered_devices : DiscoveryMaster → DiscoveryMaster
clear_discovered_devices m = record m { discovered_devices = [] }

-- What a turn of a loop sees: the time since its start, and what the receiver returns. `malformed` is
-- a frame that is too short for an Ethernet header.
pub data Received : Type 0 where
  packet : EthernetFrame → Received
  malformed failed : Received

pub record Observation : Type 0 where
  pub elapsed : ℕ
  pub received : Received

unfoldable pub unwrap_or : Option ℕ → ℕ → ℕ
unwrap_or none d = d
unwrap_or (some v) d = v

unfoldable pub is_discovery_sync : DeviceStateManager → Bool
unfolding get_state
is_discovery_sync manager =
    device_state_number (get_state manager) == device_state_number discovery_sync

-- The payload of a request without a TLV is empty.
unfoldable pub tlv_bytes : Option Tlv → List ℕ
unfolding Tlv.write_to
tlv_bytes none = []
tlv_bytes (some tlv) = Tlv.write_to tlv []

module _ (b : Blake3) where
  -- The frame with its tag.
  unfoldable pub tagged_request :
      DiscoveryMaster
      → MacAddr
      → MacAddr
      → SdcpHeader
      → List ℕ
      → DiscoveryAuthHandler × Option (ℕ × List ℕ)
      → DiscoveryMaster × Result StatusCode EthernetFrame
  tagged_request m source destination header tlv_payload (auth, none) =
      (record m { discovery_auth_handler = auth }, err err_auth_failed)
  tagged_request m source destination header tlv_payload (auth, some (n, tag)) = (
    record m { discovery_auth_handler = auth },
    ok (record {
      destination = destination;
      source = source;
      ethertype = ethertype_sdcp;
      payload =
          append_sdcp_footer (Header.write_to header [] ++ tlv_payload)
            (record { sequence_number = n; auth_tag = tag });
    }),
  )

  -- The buffer is as long as the frame, so that `MutableEthernetPacket::new` and the writes succeed.
  unfoldable pub build_request_frame :
      DiscoveryMaster
      → MacAddr
      → SdcpOpCode
      → ℕ
      → Option Tlv
      → DiscoveryMaster × Result StatusCode EthernetFrame
  unfolding tagged_request tlv_bytes
  build_request_frame m destination op_code transaction_id payload_tlv = elim m.interface_mac [
    | none ↦ (m, err err_socket_channel)
    | some source_mac ↦
        let header = Header.new op_code transaction_id in
        let tlv_payload = tlv_bytes payload_tlv in
        let handler = m.discovery_auth_handler in
        let auth =
          if not (has_device handler source_mac)
          then add_new_device handler source_mac
          else handler in
        tagged_request m source_mac destination header tlv_payload
          (create_auth_tag b auth source_mac header tlv_payload)
  ]

  unfoldable pub send_frame :
      Bool → DiscoveryMaster → EthernetFrame → DiscoveryMaster × Result StatusCode (Unit {0})
  send_frame true m frame = (record m { sent = frame ∷ m.sent }, ok tt)
  send_frame false m frame = (m, err err_socket_channel)

  -- `build_request_frame` and `send_frame` with their `?`.
  unfoldable pub send_built :
      Bool
      → DiscoveryMaster × Result StatusCode EthernetFrame
      → DiscoveryMaster × Result StatusCode (Unit {0})
  unfolding send_frame
  send_built delivers (m, ok frame) = send_frame delivers m frame
  send_built delivers (m, err code) = (m, err code)
