-- ===== src/Examples/Discovery.antt =====
-- Examples on the discovery protocol.
use tsn_fieldbus.Base.{ℕ, ◌<◌, ◌≡◌, ◌↔◌, ◌&&◌, refl, List, [], ◌∷◌, some, true, false, ok}
use tsn_fieldbus.Base.Order.{Increasing}
use tsn_fieldbus.Base.Table.{get}
use tsn_fieldbus.Proto.{DeviceInfo, discovery_sync}
use tsn_fieldbus.Mac.{mac_eq}
use tsn_fieldbus.Security.Crypto.{calculate_hmac}
use tsn_fieldbus.Security.Crypto.Compare.{calculate_hmac-IsBytes}
use tsn_fieldbus.Security.DiscoveryAuth.{
  DeviceSecurityContext, DiscoveryAuthHandler, default, tag_parts, validate_auth_tag,
}
use tsn_fieldbus.Security.DiscoveryAuth.Laws.{validate_auth_tag_iff}
use tsn_fieldbus.Security.DiscoveryAuth.Replay
use tsn_fieldbus.Security.DiscoveryAuth.Replay.{accepted, accepted_calls-Increasing}
use tsn_fieldbus.Sdcp.Header.{SdcpHeader, discover_req, discover_res, set_ip_req, ethertype_sdcp}
use tsn_fieldbus.Sdcp.Header
use tsn_fieldbus.SlaveDiscovery.{Hardware, Slave, default_device_info, handle_packet}
use tsn_fieldbus.SlaveDiscovery.Frames.{handle_packet_refused}
use tsn_fieldbus.SlaveDiscovery.Answers.{Answers, is_set_ip, handle_packet-Answers}
use tsn_fieldbus.Examples.{toy, secret, master_mac, slave_mac, broadcast}

-- A device that stores its information and applies every address.
abbrev pub memory : Hardware
memory = record {
  Device = DeviceInfo;
  read_device_info = λ d. ok d;
  write_device_info = λ d info. (info, ok tt);
  apply_ip_config = λ d ip netmask gateway. (d, ok tt);
}

abbrev pub info : DeviceInfo
info = record default_device_info { vendor_id = 0x1234; device_id = 7; serial_number = 99 }

abbrev pub master : DiscoveryAuthHandler
master = record { shared_secret = secret; devices = (broadcast, default) ∷ [] }

abbrev pub at_slave : DiscoveryAuthHandler
at_slave = record { shared_secret = secret; devices = (master_mac, default) ∷ [] }

abbrev pub slave : Slave toy memory
slave = record {
  mac = slave_mac;
  manager = record { state = discovery_sync };
  device = info;
  auth = at_slave;
  sent = [];
}

abbrev request : SdcpHeader
unfolding Header.new
request = Header.new discover_req 77

abbrev request_tag : List ℕ
request_tag = calculate_hmac toy secret (tag_parts request [] 1)

abbrev history : List (Replay.Call)
history =
    Replay.validate master_mac request [] 1 request_tag
    ∷ Replay.create slave_mac request []
    ∷ Replay.validate master_mac request [] 1 request_tag
    ∷ Replay.add slave_mac
    ∷ []

accepted_calls-Increasing_example : Increasing 0 (accepted toy master_mac at_slave history)
unfolding get
accepted_calls-Increasing_example =
    accepted_calls-Increasing toy master_mac at_slave history default refl

handle_packet-Answers_example :
    Answers toy memory slave
      (handle_packet toy memory slave request [] 1 request_tag master_mac)
      master_mac
      (is_set_ip toy memory request.op_code
        && (validate_auth_tag toy at_slave master_mac request [] 1 request_tag).1)
handle_packet-Answers_example =
    handle_packet-Answers toy memory slave request [] 1 request_tag master_mac

stale : (validate_auth_tag toy at_slave slave_mac request [] 1 request_tag).1 ≡ false
unfolding validate_auth_tag get
stale = refl

handle_packet_refused_example :
    handle_packet toy memory slave request [] 1 request_tag slave_mac ≡ slave
handle_packet_refused_example =
    handle_packet_refused toy memory slave request [] 1 request_tag slave_mac stale

validate_auth_tag_iff_example :
    ((validate_auth_tag toy at_slave master_mac request [] 1 request_tag).1 ≡ true) ↔ (
      (c : DeviceSecurityContext) × (get master_mac at_slave.devices ≡ some c)
      × (c.last_valid_received_sequence_number < 1)
      × (calculate_hmac toy secret (tag_parts request [] 1) ≡ request_tag))
validate_auth_tag_iff_example =
    validate_auth_tag_iff toy at_slave master_mac request [] 1 request_tag
      (calculate_hmac-IsBytes toy secret (tag_parts request [] 1)).0
