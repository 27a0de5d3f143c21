-- ===== src/MasterDiscovery/Wait.antt =====
-- `wait_for_response` of master/src/discovery.rs.
use tsn_fieldbus.Base.{
  ℕ, zero, suc, List, Option, none, some, ◌==◌, ltb, not, ◌&&◌, if◌then◌else◌, Result, ok, err,
}
use tsn_fieldbus.Proto.{StatusCode, err_timeout}
use tsn_fieldbus.Mac.{MacAddr, mac_beq, mac_eq}
use tsn_fieldbus.Security.Crypto.{Blake3}
use tsn_fieldbus.Security.DiscoveryAuth.{
  DiscoveryAuthHandler, has_device, add_new_device, validate_auth_tag,
}
use tsn_fieldbus.Sdcp.Header.{SdcpOpCode, ethertype_sdcp, op_code_number}
use tsn_fieldbus.Sdcp.Payload.{ParsedSdcpPayload, parse_sdcp_payload}
use tsn_fieldbus.MasterDiscovery.{DiscoveryMaster, Observation, Received, packet}

module _ (b : Blake3) where
  -- A frame that could be the response, and its payload if it is.
  unfoldable pub check_parsed :
      DiscoveryAuthHandler
      → MacAddr
      → SdcpOpCode
      → ℕ
      → Result StatusCode ParsedSdcpPayload
      → DiscoveryAuthHandler × Option (List ℕ)
  check_parsed auth source op_code transaction_id (err code) = (auth, none)
  check_parsed auth source op_code transaction_id (ok p) =
      if op_code_number p.header.op_code == op_code_number op_code
        && p.header.transaction_id == transaction_id
      then (let v =
            validate_auth_tag b auth source p.header p.tlv_payload p.sequence_number p.auth_tag in
          (v.0, if v.1 then some p.tlv_payload else none))
      else (auth, none)

  unfoldable pub check_response :
      DiscoveryAuthHandler
      → MacAddr
      → SdcpOpCode
      → ℕ
      → Received
      → DiscoveryAuthHandler × Option (List ℕ)
  unfolding check_parsed
  check_response auth source op_code transaction_id (packet frame) =
      if not (frame.ethertype == ethertype_sdcp)
      then (auth, none)
      else if not (mac_beq frame.source source)
      then (auth, none)
      else check_parsed auth source op_code transaction_id (parse_sdcp_payload frame.payload)
  check_response auth source op_code transaction_id _ = (auth, none)

  -- The loop of `wait_for_response`; `none` when the fuel runs out.
  unfoldable pub wait_loop :
      ℕ
      → DiscoveryAuthHandler
      → MacAddr
      → SdcpOpCode
      → ℕ
      → ℕ
      → (ℕ → Observation)
      → Option (DiscoveryAuthHandler × Result StatusCode (List ℕ))
  unfolding check_response
  wait_loop zero auth source op_code transaction_id timeout seen = none
  wait_loop (suc fuel) auth source op_code transaction_id timeout seen =
      let answer = check_response auth source op_code transaction_id (seen 0).received in
      let rest =
        wait_loop fuel answer.0 source op_code transaction_id timeout (λ n. seen (suc n)) in
      if ltb (seen 0).elapsed timeout
      then elim answer.1 [ some tlv_payload ↦ some (answer.0, ok tlv_payload) | none ↦ rest ]
      else some (auth, err err_timeout)

  unfoldable pub wait_for_response :
      ℕ
      → DiscoveryMaster
      → MacAddr
      → SdcpOpCode
      → ℕ
      → ℕ
      → (ℕ → Observation)
      → Option (DiscoveryMaster × Result StatusCode (List ℕ))
  unfolding wait_loop
  wait_for_response fuel m source op_code transaction_id timeout seen =
      let handler = m.discovery_auth_handler in
      let auth =
        if not (has_device handler source) then add_new_device handler source else handler in
      elim (wait_loop fuel auth source op_code transaction_id timeout seen) [
        | none ↦ none
        | some (auth', result) ↦ some (record m { discovery_auth_handler = auth' }, result)
      ]
