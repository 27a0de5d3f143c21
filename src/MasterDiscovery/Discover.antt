-- ===== src/MasterDiscovery/Discover.antt =====
-- `discover_devices` and `process_discover_frame` of master/src/discovery.rs.
use tsn_fieldbus.Base.{
  ℕ, zero, suc, List, [], ◌∷◌, ◌++◌, Option, none, some, Bool, true, false, ◌==◌, ltb, not, ◌||◌,
  if◌then◌else◌, Result, ok, err, ok?,
}
use tsn_fieldbus.Base.Table.{insert, contains_key}
use tsn_fieldbus.Proto.{StatusCode, err_state_conflict}
use tsn_fieldbus.Mac.{MacAddr, mac_eq}
use tsn_fieldbus.Security.Crypto.{Blake3}
use tsn_fieldbus.Security.DiscoveryAuth.{
  DiscoveryAuthHandler, has_device, add_new_device, validate_auth_tag, validate_discovery_response,
  set_last_valid_received_sequence_number,
}
use tsn_fieldbus.Sdcp.Header.{discover_req, discover_res, ethertype_sdcp, op_code_number}
use tsn_fieldbus.Sdcp.Tlv.{Tlv, read_from}
use tsn_fieldbus.Sdcp.Tlv.Parse.{DeviceInfo, parse_device_info}
use tsn_fieldbus.Sdcp.Payload.{ParsedSdcpPayload, parse_sdcp_payload}
use tsn_fieldbus.MasterDiscovery.{
  DiscoveredDevice, DiscoveryMaster, Observation, Received, packet, new_device, next_transaction_id,
  is_discovery_sync, unwrap_or, default_discovery_timeout, broadcast_mac, build_request_frame,
  send_built,
}

-- The device that a payload describes: `Tlv::read_from(..).ok()?` and `parse_device_info()?`.
unfoldable pub with_info : MacAddr → Option DeviceInfo → Option DiscoveredDevice
with_info source none = none
with_info source (some info) = some (new_device source info)

unfoldable pub with_tlv : MacAddr → Option Tlv → Option DiscoveredDevice
unfolding with_info
with_tlv source none = none
with_tlv source (some tlv) = with_info source (parse_device_info tlv)

unfoldable pub read_device : MacAddr → List ℕ → Option DiscoveredDevice
unfolding with_tlv
read_device source tlv_payload = with_tlv source (ok? (read_from tlv_payload))

module _ (b : Blake3) where
  -- A known device's tag is checked against its last number, a new device's as a first response.
  unfoldable pub check_discovery :
      DiscoveryAuthHandler → MacAddr → ParsedSdcpPayload → DiscoveryAuthHandler × Bool
  check_discovery auth source p =
      if has_device auth source
      then validate_auth_tag b auth source p.header p.tlv_payload p.sequence_number p.auth_tag
      else if validate_discovery_response b auth p.header p.tlv_payload p.sequence_number p.auth_tag
      then (
        (set_last_valid_received_sequence_number (add_new_device auth source) source
            p.sequence_number).0,
        true,
      )
      else (auth, false)

  unfoldable pub process_parsed :
      DiscoveryAuthHandler
      → MacAddr
      → ℕ
      → Option ParsedSdcpPayload
      → DiscoveryAuthHandler × Option DiscoveredDevice
  unfolding check_discovery
  process_parsed auth source expected_transaction_id none = (auth, none)
  process_parsed auth source expected_transaction_id (some p) =
      if not (op_code_number p.header.op_code == op_code_number discover_res)
        || not (p.header.transaction_id == expected_transaction_id)
      then (auth, none)
      else (let checked = check_discovery auth source p in
          (checked.0, if not checked.1 then none else read_device source p.tlv_payload))

  unfoldable pub process_discover_frame :
      DiscoveryAuthHandler → ℕ → Received → DiscoveryAuthHandler × Option DiscoveredDevice
  unfolding process_parsed
  process_discover_frame auth expected_transaction_id (packet frame) =
      if not (frame.ethertype == ethertype_sdcp)
      then (auth, none)
      else process_parsed auth frame.source expected_transaction_id
          (ok? (parse_sdcp_payload frame.payload))
  process_discover_frame auth expected_transaction_id _ = (auth, none)

  -- A discovered device is cached, and listed if it was not.
  unfoldable pub add_discovered :
      DiscoveryMaster
      → List DiscoveredDevice
      → Option DiscoveredDevice
      → DiscoveryMaster × List DiscoveredDevice
  add_discovered m newly_discovered none = (m, newly_discovered)
  add_discovered m newly_discovered (some device) = (
    record m { discovered_devices = insert device.mac_address device m.discovered_devices },
    if not (contains_key device.mac_address m.discovered_devices)
        then newly_discovered ++ (device ∷ [])
        else newly_discovered,
  )

  -- One turn of the loop on what the receiver returns; without a frame it sleeps.
  unfoldable pub discover_turn :
      DiscoveryMaster
      → List DiscoveredDevice
      → ℕ
      → Received
      → DiscoveryMaster × List DiscoveredDevice
  unfolding process_discover_frame add_discovered
  discover_turn m newly_discovered transaction_id received =
      let processed = process_discover_frame m.discovery_auth_handler transaction_id received in
      add_discovered (record m { discovery_auth_handler = processed.0 }) newly_discovered
        processed.1

  -- The loop of `discover_devices`; `none` when the fuel runs out.
  unfoldable pub discover_loop :
      ℕ
      → DiscoveryMaster
      → List DiscoveredDevice
      → ℕ
      → ℕ
      → (ℕ → Observation)
      → Option (DiscoveryMaster × List DiscoveredDevice)
  unfolding discover_turn
  discover_loop zero m newly_discovered transaction_id timeout seen = none
  discover_loop (suc fuel) m newly_discovered transaction_id timeout seen =
      let next = discover_turn m newly_discovered transaction_id (seen 0).received in
      let rest = discover_loop fuel next.0 next.1 transaction_id timeout (λ n. seen (suc n)) in
      if ltb (seen 0).elapsed timeout then rest else some (m, newly_discovered)

  unfoldable pub found :
      Option (DiscoveryMaster × List DiscoveredDevice)
      → Option (DiscoveryMaster × Result StatusCode (List DiscoveredDevice))
  found none = none
  found (some (m, newly_discovered)) = some (m, ok newly_discovered)

  -- Listen for responses, if the request was sent.
  unfoldable pub listen :
      ℕ
      → ℕ
      → ℕ
      → (ℕ → Observation)
      → DiscoveryMaster × Result StatusCode (Unit {0})
      → Option (DiscoveryMaster × Result StatusCode (List DiscoveredDevice))
  unfolding found discover_loop
  listen fuel transaction_id timeout seen (m, err code) = some (m, err code)
  listen fuel transaction_id timeout seen (m, ok _) =
      found (discover_loop fuel m [] transaction_id timeout seen)

  unfoldable pub discover_devices :
      ℕ
      → DiscoveryMaster
      → Option ℕ
      → Bool
      → (ℕ → Observation)
      → Option (DiscoveryMaster × Result StatusCode (List DiscoveredDevice))
  unfolding listen is_discovery_sync next_transaction_id
  discover_devices fuel m timeout delivers seen =
      if not (is_discovery_sync m.device_state_manager)
      then some (m, err err_state_conflict)
      else (let t = next_transaction_id m in
          listen fuel t.1 (unwrap_or timeout default_discovery_timeout) seen
            (send_built b delivers (build_request_frame b t.0 broadcast_mac discover_req t.1 none)))
