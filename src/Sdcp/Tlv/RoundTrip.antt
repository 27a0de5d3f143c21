-- ===== src/Sdcp/Tlv/RoundTrip.antt =====
-- Each kind of TLV is parsed back into what it was built from, and by no other parser.
use tsn_fieldbus.Base.{ℕ, ◌<◌, ◌^◌, ◌≡◌, refl, List, [], ◌∷◌, length, some, arith}
use tsn_fieldbus.Base.Bytes.{to_be, from_be-to_be}
use tsn_fieldbus.Proto.{
  StatusCode, status_code_try_from-number, IpSource, ip_source_try_from-number,
}
use tsn_fieldbus.Sdcp.Tlv.{device_info, ip_config, status_report, ip_report}
use tsn_fieldbus.Sdcp.Tlv.Parse.{
  parse_device_info, parse_ip_config, parse_status_report, parse_ip_report,
}

-- Device information whose fields fit their words is parsed back.
pub parse-device_info :
    (v d s : ℕ)
    → v < 256 ^ 2
    → d < 256 ^ 2
    → s < 256 ^ 4
    → parse_device_info (device_info v d s)
      ≡ some (record { vendor_id = v; device_id = d; serial_number = s })
unfolding parse_device_info device_info to_be
parse-device_info v d s hv hd hs =
    cc (from_be-to_be 2 v hv, from_be-to_be 2 d hd, from_be-to_be 4 s hs)

-- An address configuration of three addresses of four bytes is parsed back.
pub parse-ip_config :
    (ip netmask gateway : List ℕ)
    → length ip ≡ 4
    → length netmask ≡ 4
    → length gateway ≡ 4
    → parse_ip_config (ip_config ip netmask gateway)
      ≡ some (record { ip = ip; netmask = netmask; gateway = gateway })
unfolding parse_ip_config ip_config
parse-ip_config (a ∷ b ∷ c ∷ d ∷ []) (e ∷ f ∷ g ∷ h ∷ []) (i ∷ j ∷ k ∷ l ∷ []) p q r = refl
parse-ip_config _ _ _ p q r = absurd (omega arith)

-- A report of three addresses of four bytes and their source is parsed back, for every source.
pub parse-ip_report :
    (ip netmask gateway : List ℕ) (source : IpSource)
    → length ip ≡ 4
    → length netmask ≡ 4
    → length gateway ≡ 4
    → parse_ip_report (ip_report ip netmask gateway source)
      ≡ some (record { ip = ip; netmask = netmask; gateway = gateway; ip_source = source })
unfolding parse_ip_report ip_report
parse-ip_report (a ∷ b ∷ c ∷ d ∷ []) (e ∷ f ∷ g ∷ h ∷ []) (i ∷ j ∷ k ∷ l ∷ []) source p q r =
    rw ip_source_try_from-number
parse-ip_report _ _ _ source p q r = absurd (omega arith)

-- A status report is parsed back, for every status code.
pub parse-status_report : (c : StatusCode) → parse_status_report (status_report c) ≡ some c
unfolding parse_status_report status_report
parse-status_report c = status_code_try_from-number c
