-- ===== src/Examples/Listing.antt =====
-- An example of a whole discovery of the master, on which one device answers.
use tsn_fieldbus.Base.{
  nat_eq, ap, ◌∙◌, ℕ, zero, suc, ◌≡◌, ◌++◌, refl, arith, List, [], ◌∷◌, none, some, true, ok,
}
use tsn_fieldbus.Base.Table.{get, insert, contains_key}
use tsn_fieldbus.StateMachine.{get_state}
use tsn_fieldbus.Mac.{mac_eq}
use tsn_fieldbus.Security.Crypto.{calculate_hmac}
use tsn_fieldbus.Security.Crypto.Compare.{calculate_hmac-IsBytes}
use tsn_fieldbus.Security.DiscoveryAuth.{
  DiscoveryAuthHandler, tag_parts, validate_discovery_response, create_auth_tag, has_device,
  add_new_device,
}
use tsn_fieldbus.Security.DiscoveryAuth.Laws.{validate_discovery_response_iff}
use tsn_fieldbus.Sdcp.Header.{discover_res, discover_req, ethertype_sdcp}
use tsn_fieldbus.Sdcp.Header
use tsn_fieldbus.Sdcp.Tlv.{device_info}
use tsn_fieldbus.Sdcp.Tlv
use tsn_fieldbus.Sdcp.Payload.{ParsedSdcpPayload, append_sdcp_footer, parse_sdcp_payload}
use tsn_fieldbus.Sdcp.Payload.Laws.{parse-append_sdcp_footer}
use tsn_fieldbus.SlaveDiscovery.{EthernetFrame}
use tsn_fieldbus.MasterDiscovery.{
  DiscoveryMaster, DiscoveredDevice, Observation, packet, failed, send_built, send_frame,
  build_request_frame, tagged_request, tlv_bytes, broadcast_mac, next_transaction_id,
  is_discovery_sync,
}
use tsn_fieldbus.MasterDiscovery
use tsn_fieldbus.MasterDiscovery.Discover.{
  discover_devices, listen, found, discover_loop, discover_turn, add_discovered,
  process_discover_frame,
}
use tsn_fieldbus.MasterDiscovery.Found.{process-first_response, read_device-device_info}
use tsn_fieldbus.MasterDiscovery.Cache.{IsListed, discover_devices-IsListed}
use tsn_fieldbus.Examples.{toy, secret, master_mac, slave_mac}
use tsn_fieldbus.Examples.Finding.{master}

abbrev info : List ℕ
info = Tlv.write_to (device_info 1 2 3) []

abbrev read : ParsedSdcpPayload
read = record {
  header = Header.new discover_res 77;
  tlv_payload = info;
  sequence_number = 1;
  auth_tag = calculate_hmac toy secret (tag_parts (Header.new discover_res 77) info 1);
}

abbrev answer : EthernetFrame
answer = record {
  destination = master_mac;
  source = slave_mac;
  ethertype = ethertype_sdcp;
  payload =
      append_sdcp_footer (Header.write_to (Header.new discover_res 77) [] ++ info)
        (record { sequence_number = 1; auth_tag = read.auth_tag });
}

-- The answer comes in the first turn, and the time is over in the second.
abbrev seen : ℕ → Observation
seen zero = record { elapsed = 0; received = packet answer }
seen (suc n) = record { elapsed = 3_000_000_000; received = failed }

abbrev device : DiscoveredDevice
device = record { mac_address = slave_mac; vendor_id = 1; device_id = 2; serial_number = 3 }

parsed : parse_sdcp_payload answer.payload ≡ ok read
unfolding Header.new
parsed =
    parse-append_sdcp_footer (Header.new discover_res 77) info
      (record { sequence_number = 1; auth_tag = read.auth_tag })
      (record { version_u8 = omega arith; transaction_u16 = omega arith; flags_u8 = omega arith })
      (record {
        sequence_u64 = omega arith;
        tag_length = (calculate_hmac-IsBytes toy secret (tag_parts read.header info 1)).0;
      })

good :
    (h : DiscoveryAuthHandler)
    → h.shared_secret ≡ secret
    → validate_discovery_response toy h read.header info 1 read.auth_tag ≡ true
good h same =
    (validate_discovery_response_iff toy h read.header info 1 read.auth_tag
        (calculate_hmac-IsBytes toy secret (tag_parts read.header info 1)).0).1
      (refl, ap (λ k. calculate_hmac toy k (tag_parts read.header info 1)) same)

-- The master that has sent its request.
abbrev asking : DiscoveryMaster
asking =
    (send_built toy true
      (build_request_frame toy (next_transaction_id master).0 broadcast_mac discover_req 77 none)).0

heard :
    (process_discover_frame toy asking.discovery_auth_handler 77 (packet answer)).1 ≡ some device
unfolding get build_request_frame tagged_request tlv_bytes send_built send_frame next_transaction_id
    create_auth_tag has_device contains_key add_new_device insert
heard =
    process-first_response toy asking.discovery_auth_handler answer read 77 refl parsed refl refl
      (good asking.discovery_auth_handler refl)
    ∙ read_device-device_info slave_mac 1 2 3 (omega arith) (omega arith) (omega arith)

-- The master that has found the device.
abbrev knowing : DiscoveryMaster
knowing = record asking {
  discovered_devices = insert slave_mac device asking.discovered_devices;
  discovery_auth_handler =
      (process_discover_frame toy asking.discovery_auth_handler 77 (packet answer)).0;
}

ran : discover_devices toy 2 master none true seen ≡ some (knowing, ok (device ∷ []))
unfolding discover_devices listen found discover_loop discover_turn add_discovered is_discovery_sync
    get_state get build_request_frame tagged_request tlv_bytes send_built send_frame
    next_transaction_id create_auth_tag has_device contains_key add_new_device insert
    MasterDiscovery.unwrap_or
ran = rw heard refl

discover_devices-IsListed_example : IsListed [] knowing (device ∷ [])
discover_devices-IsListed_example =
    discover_devices-IsListed toy 2 master knowing none true seen (device ∷ []) ran
