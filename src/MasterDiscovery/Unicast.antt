-- ===== src/MasterDiscovery/Unicast.antt =====
-- The requests to one device of master/src/discovery.rs: `get_ip_config` and `set_ip_config`.
use tsn_fieldbus.Base.{
  ℕ, List, Option, none, some, Bool, ◌==◌, not, if◌then◌else◌, Result, ok, err, ◌>>=◌, ok_or, ok?,
}
use tsn_fieldbus.Proto.{
  StatusCode, no_error, err_state_conflict, err_invalid_response, err_hardware_access,
  status_code_number,
}
use tsn_fieldbus.Mac.{MacAddr}
use tsn_fieldbus.Security.Crypto.{Blake3}
use tsn_fieldbus.Sdcp.Header.{SdcpOpCode, set_ip_req, set_ip_res, get_ip_req, get_ip_res}
use tsn_fieldbus.Sdcp.Tlv.{Tlv, ip_config, read_from}
use tsn_fieldbus.Sdcp.Tlv.Parse.{IpReport, parse_ip_report, parse_status_report}
use tsn_fieldbus.MasterDiscovery.{
  DiscoveryMaster, Observation, next_transaction_id, is_discovery_sync, unwrap_or,
  default_unicast_timeout, build_request_frame, send_built,
}
use tsn_fieldbus.MasterDiscovery.Wait.{wait_for_response}

-- `and_then` on a TLV that may not parse.
and_then : {A : Type 0} → Option Tlv → (Tlv → Option A) → Option A
and_then none f = none
and_then (some tlv) f = f tlv

unfoldable pub parse_get_ip : List ℕ → Result StatusCode IpReport
unfolding and_then
parse_get_ip tlv_payload =
    ok_or (and_then (ok? (read_from tlv_payload)) parse_ip_report) err_invalid_response

-- What the status report of a response means.
status_result : Option StatusCode → Result StatusCode (Unit {0})
status_result none = err err_invalid_response
status_result (some status) =
    if status_code_number status == status_code_number no_error
    then ok tt
    else err err_hardware_access

unfoldable pub parse_set_ip : List ℕ → Result StatusCode (Unit {0})
unfolding and_then status_result
parse_set_ip tlv_payload =
    status_result (and_then (ok? (read_from tlv_payload)) parse_status_report)

-- `and_then` on what `wait_for_response` returns.
unfoldable pub finish :
    {A : Type 0}
    → (List ℕ → Result StatusCode A)
    → Option (DiscoveryMaster × Result StatusCode (List ℕ))
    → Option (DiscoveryMaster × Result StatusCode A)
finish parse none = none
finish parse (some (m, result)) = some (m, result >>= parse)

module _ (b : Blake3) where
  -- Wait for the response, if the request was sent.
  unfoldable pub await :
      {A : Type 0}
      → (List ℕ → Result StatusCode A)
      → ℕ
      → MacAddr
      → SdcpOpCode
      → ℕ
      → ℕ
      → (ℕ → Observation)
      → DiscoveryMaster × Result StatusCode (Unit {0})
      → Option (DiscoveryMaster × Result StatusCode A)
  unfolding finish
  await parse fuel target op_code transaction_id timeout seen (m, ok _) =
      finish parse (wait_for_response b fuel m target op_code transaction_id timeout seen)
  await parse fuel target op_code transaction_id timeout seen (m, err code) = some (m, err code)

  -- `delivers` is whether the transmitter takes the request; `none` when the fuel runs out.
  unfoldable pub get_ip_config :
      ℕ
      → DiscoveryMaster
      → MacAddr
      → Option ℕ
      → Bool
      → (ℕ → Observation)
      → Option (DiscoveryMaster × Result StatusCode IpReport)
  unfolding await is_discovery_sync next_transaction_id
  get_ip_config fuel m target_mac timeout delivers seen =
      if not (is_discovery_sync m.device_state_manager)
      then some (m, err err_state_conflict)
      else (let t = next_transaction_id m in
          await parse_get_ip fuel target_mac get_ip_res t.1
            (unwrap_or timeout default_unicast_timeout) seen
            (send_built b delivers (build_request_frame b t.0 target_mac get_ip_req t.1 none)))

  unfoldable pub set_ip_config :
      ℕ
      → DiscoveryMaster
      → MacAddr
      → List ℕ
      → List ℕ
      → List ℕ
      → Option ℕ
      → Bool
      → (ℕ → Observation)
      → Option (DiscoveryMaster × Result StatusCode (Unit {0}))
  unfolding await is_discovery_sync next_transaction_id
  set_ip_config fuel m target_mac ip netmask gateway timeout delivers seen =
      if not (is_discovery_sync m.device_state_manager)
      then some (m, err err_state_conflict)
      else (let t = next_transaction_id m in
          await parse_set_ip fuel target_mac set_ip_res t.1
            (unwrap_or timeout default_unicast_timeout) seen
            (send_built b delivers (
              build_request_frame b t.0 target_mac set_ip_req t.1
                (some (ip_config ip netmask gateway)))))
