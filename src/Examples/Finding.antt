-- ===== src/Examples/Finding.antt =====
-- Examples on the discovery operations of the master.
use tsn_fieldbus.Base.{
  ℕ, ◌*◌, ◌≤◌, ◌≡◌, ◌≢◌, ◌%◌, ◌^◌, refl, arith, List, [], ◌∷◌, none, some, true, ok, Result,
}
use tsn_fieldbus.Base.Table.{get}
use tsn_fieldbus.Proto.{discovery_sync, StatusCode}
use tsn_fieldbus.Mac.{MacAddr, mac_eq}
use tsn_fieldbus.Sdcp.Header.{discover_req}
use tsn_fieldbus.Sdcp.Tlv.Parse.{IpReport}
use tsn_fieldbus.Sdcp.Payload.{ParsedSdcpPayload, parse_sdcp_payload}
use tsn_fieldbus.SlaveDiscovery.{EthernetFrame, handle_packet}
use tsn_fieldbus.MasterDiscovery.{
  DiscoveryMaster, Observation, packet, failed, build_request_frame, broadcast_mac,
  DiscoveredDevice, default_discovery_timeout, default_unicast_timeout, is_discovery_sync,
}
use tsn_fieldbus.MasterDiscovery
use tsn_fieldbus.MasterDiscovery.Unicast.{get_ip_config, set_ip_config}
use tsn_fieldbus.MasterDiscovery.Discover.{discover_devices, process_discover_frame}
use tsn_fieldbus.MasterDiscovery.Found.{discovery-finds}
use tsn_fieldbus.MasterDiscovery.Loops.{operations-terminate}
use tsn_fieldbus.Examples.{toy, master_mac, slave_mac}
use tsn_fieldbus.Examples.Discovery.{memory, slave, master as handler}

-- The master of the examples of the slave.
abbrev pub master : DiscoveryMaster
master = record {
  interface_mac = some master_mac;
  device_state_manager = record { state = discovery_sync };
  discovered_devices = [];
  transaction_counter = 77;
  discovery_auth_handler = handler;
  sent = [];
}

distinct : slave_mac ≢ master_mac
distinct h = ground (arith, h)

discovery-finds_example :
    (m' : DiscoveryMaster) × (request : EthernetFrame) × (p : ParsedSdcpPayload)
    × (f : EthernetFrame) × (build_request_frame toy master broadcast_mac discover_req 77 none
        ≡ (m', ok request))
    × (parse_sdcp_payload request.payload ≡ ok p)
    × ((handle_packet toy memory slave p.header p.tlv_payload p.sequence_number p.auth_tag
          request.source).sent
        ≡ f ∷ [])
    × ((process_discover_frame toy m'.discovery_auth_handler 77 (packet f)).1
        ≡ some (record {
          mac_address = slave_mac;
          vendor_id = 0x1234 % 2 ^ 16;
          device_id = 7 % 2 ^ 16;
          serial_number = 99;
        }))
unfolding get
discovery-finds_example =
    discovery-finds toy memory master slave master_mac 77
      (record { transmitter_sequence_number = 1; last_valid_received_sequence_number = 0 }) refl
      refl refl refl distinct refl (omega arith) (omega arith) (omega arith) (omega arith)

-- A silent network, on a clock that ticks every half second.
abbrev silence : ℕ → Observation
silence n = record { elapsed = 500_000_000 * n; received = failed }

operations-terminate_example :
    (default_discovery_timeout ≤ (silence 4).elapsed
      → (r : DiscoveryMaster × Result StatusCode (List DiscoveredDevice)) × (discover_devices toy 5
            master none true silence
          ≡ some r))
    × ((target : MacAddr)
        → default_unicast_timeout ≤ (silence 4).elapsed
        → (r : DiscoveryMaster × Result StatusCode IpReport) × (get_ip_config toy 5 master target
              none true silence
            ≡ some r))
    × ((target : MacAddr) (ip netmask gateway : List ℕ)
        → default_unicast_timeout ≤ (silence 4).elapsed
        → (r : DiscoveryMaster × Result StatusCode (Unit {0})) × (set_ip_config toy 5 master target
              ip netmask gateway none true silence
            ≡ some r))
unfolding MasterDiscovery.unwrap_or
operations-terminate_example = operations-terminate toy 4 5 master none true silence (omega arith)
