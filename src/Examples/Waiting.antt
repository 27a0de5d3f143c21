-- ===== src/Examples/Waiting.antt =====
-- Examples on the loops of the master that wait for the answers of the devices.
use tsn_fieldbus.Base.{
  nat_eq, ap, if◌then◌else◌, ◌≤◌, ◌∙◌, ℕ, zero, suc, ◌<◌, ◌≡◌, refl, arith, [], ◌∷◌, none, some,
  true, ok,
}
use tsn_fieldbus.Base.Table.{get}
use tsn_fieldbus.Base.Bytes.{to_be}
use tsn_fieldbus.Mac.{mac_eq}
use tsn_fieldbus.Security.Crypto.{calculate_hmac}
use tsn_fieldbus.Security.DiscoveryAuth.{
  DiscoveryAuthHandler, tag_parts, validate_auth_tag, default,
}
use tsn_fieldbus.Sdcp.Header.{get_ip_res, ethertype_sdcp}
use tsn_fieldbus.Sdcp.Header
use tsn_fieldbus.Sdcp.Payload.{ParsedSdcpPayload, append_sdcp_footer, parse_sdcp_payload}
use tsn_fieldbus.Sdcp.Payload.Laws.{parse-append_sdcp_footer}
use tsn_fieldbus.Security.Crypto.Compare.{calculate_hmac-IsBytes}
use tsn_fieldbus.Security.DiscoveryAuth.Laws.{validate-create}
use tsn_fieldbus.SlaveDiscovery.{EthernetFrame}
use tsn_fieldbus.MasterDiscovery.{Observation, packet, failed}
use tsn_fieldbus.MasterDiscovery.Wait.{wait_loop, check_response, check_parsed}
use tsn_fieldbus.MasterDiscovery.Accepts.{IsResponse, wait_loop-authentic, wait_loop-answers}
use tsn_fieldbus.Examples.{toy, secret, master_mac, slave_mac}

abbrev auth : DiscoveryAuthHandler
auth = record { shared_secret = secret; devices = (slave_mac, default) ∷ [] }

abbrev answer : EthernetFrame
answer = record {
  destination = master_mac;
  source = slave_mac;
  ethertype = ethertype_sdcp;
  payload = append_sdcp_footer (Header.write_to (Header.new get_ip_res 77) []) (record {
    sequence_number = 1;
    auth_tag = calculate_hmac toy secret (tag_parts (Header.new get_ip_res 77) [] 1);
  });
}

-- The answer comes in the third turn.
abbrev seen : ℕ → Observation
seen zero = record { elapsed = 0; received = failed }
seen (suc zero) = record { elapsed = 10; received = failed }
seen _ = record { elapsed = 20; received = packet answer }

abbrev read : ParsedSdcpPayload
read = record {
  header = Header.new get_ip_res 77;
  tlv_payload = [];
  sequence_number = 1;
  auth_tag = calculate_hmac toy secret (tag_parts (Header.new get_ip_res 77) [] 1);
}

parsed : parse_sdcp_payload answer.payload ≡ ok read
unfolding Header.new Header.write_to to_be
parsed =
    parse-append_sdcp_footer (Header.new get_ip_res 77) []
      (record { sequence_number = 1; auth_tag = read.auth_tag })
      (record { version_u8 = omega arith; transaction_u16 = omega arith; flags_u8 = omega arith })
      (record {
        sequence_u64 = omega arith;
        tag_length =
            (calculate_hmac-IsBytes toy secret (tag_parts (Header.new get_ip_res 77) [] 1)).0;
      })

good : (validate_auth_tag toy auth slave_mac (Header.new get_ip_res 77) [] 1 read.auth_tag).1 ≡ true
unfolding get
good =
    (validate-create toy auth auth slave_mac slave_mac (Header.new get_ip_res 77) [] default default
      refl refl refl (omega arith)).1

heard : check_response toy auth slave_mac get_ip_res 77 (packet answer) ≡ (
  (validate_auth_tag toy auth slave_mac (Header.new get_ip_res 77) [] 1 read.auth_tag).0,
  some [],
)
unfolding check_response Header.new
heard = ap (check_parsed toy auth slave_mac get_ip_res 77) parsed ∙ checked
  where
    checked : check_parsed toy auth slave_mac get_ip_res 77 (ok read) ≡ (
      (validate_auth_tag toy auth slave_mac (Header.new get_ip_res 77) [] 1 read.auth_tag).0,
      some [],
    )
    checked =
        ap
          (λ fine. (
            (validate_auth_tag toy auth slave_mac (Header.new get_ip_res 77) [] 1 read.auth_tag).0,
            if fine then some [] else none,
          ))
          good

early : (j : ℕ) → j ≤ 2 → (seen j).elapsed < 1_000
early zero h = omega arith
early (suc zero) h = omega arith
early (suc (suc j)) h = omega arith

quiet :
    (j : ℕ)
    → j < 2
    → check_response toy auth slave_mac get_ip_res 77 (seen j).received ≡ (auth, none)
unfolding check_response
quiet zero h = refl
quiet (suc zero) h = refl
quiet (suc (suc j)) h = absurd (omega arith)

wait_loop-answers_example :
    wait_loop toy 4 auth slave_mac get_ip_res 77 1_000 seen
    ≡ some (
      (validate_auth_tag toy auth slave_mac (Header.new get_ip_res 77) [] 1 read.auth_tag).0,
      ok [],
    )
wait_loop-answers_example =
    wait_loop-answers toy auth slave_mac get_ip_res 77 2 4 1_000 seen _ [] (omega arith) early quiet
      heard

wait_loop-authentic_example :
    (k : ℕ) × (k < 4)
    × ((seen k).elapsed < 1_000)
    × IsResponse toy auth slave_mac get_ip_res 77 (seen k).received []
wait_loop-authentic_example =
    wait_loop-authentic toy auth slave_mac get_ip_res 77 4 1_000 seen
      (validate_auth_tag toy auth slave_mac (Header.new get_ip_res 77) [] 1 read.auth_tag).0 []
      (wait_loop-answers toy auth slave_mac get_ip_res 77 2 4 1_000 seen _ [] (omega arith) early
        quiet heard)
