-- ===== src/MasterDiscovery/Accepts.antt =====
-- Which responses the requests of the master to one device accept.
use tsn_fieldbus.Base.{
  ℕ, zero, suc, ◌<◌, ◌≤◌, ◌≡◌, ◌⊎◌, inl, inr, refl, sym, subst, ap, ◌∙◌, arith, List, none, some,
  Bool, true, Bool-cases, ltb, ◌==◌, ◌&&◌, Result, ok, err, ==_iff,
}
use tsn_fieldbus.Base.Table.{get}
use tsn_fieldbus.Mac.{MacAddr, mac_beq, mac_beq_iff, mac_eq}
use tsn_fieldbus.Proto.{StatusCode}
use tsn_fieldbus.Security.Crypto.{Blake3, calculate_hmac}
use tsn_fieldbus.Security.DiscoveryAuth.{
  DiscoveryAuthHandler, DeviceSecurityContext, tag_parts, validate_auth_tag,
}
use tsn_fieldbus.Security.DiscoveryAuth.Laws.{validate_auth_tag_iff, validate_auth_tag_refused}
use tsn_fieldbus.Sdcp.Header.{SdcpOpCode, op_code_number, ethertype_sdcp}
use tsn_fieldbus.Sdcp.Payload.{ParsedSdcpPayload, parse_sdcp_payload}
use tsn_fieldbus.Sdcp.Payload.Laws.{parse_sdcp_payload-tag}
use tsn_fieldbus.SlaveDiscovery.{EthernetFrame}
use tsn_fieldbus.MasterDiscovery.{Observation, Received, packet, malformed, failed}
use tsn_fieldbus.MasterDiscovery.Wait.{check_parsed, check_response, wait_loop}

module _ (b : Blake3) (auth : DiscoveryAuthHandler) (source : MacAddr) (op_code : SdcpOpCode)
    (transaction_id : ℕ) where
  -- What was received is a packet of the device that carries the payload under the operation and the
  -- transaction number of the request, with the tag of the shared secret and a new number.
  pub record IsResponse (received : Received) (tlv_payload : List ℕ) : Type 0 where
    pub frame : EthernetFrame
    pub p : ParsedSdcpPayload
    pub context : DeviceSecurityContext
    pub arrives : received ≡ packet frame
    pub ethertype : frame.ethertype ≡ ethertype_sdcp
    pub from : frame.source ≡ source
    pub parses : parse_sdcp_payload frame.payload ≡ ok p
    pub operation : op_code_number p.header.op_code ≡ op_code_number op_code
    pub transaction : p.header.transaction_id ≡ transaction_id
    pub payload : p.tlv_payload ≡ tlv_payload
    pub known : get source auth.devices ≡ some context
    pub newer : context.last_valid_received_sequence_number < p.sequence_number
    pub tagged :
        calculate_hmac b auth.shared_secret (tag_parts p.header p.tlv_payload p.sequence_number)
        ≡ p.auth_tag

  -- A payload is accepted as the response only with its tag; else the contexts stay as they are.
  check_parsed_cases :
      (frame : EthernetFrame)
      → frame.ethertype ≡ ethertype_sdcp
      → frame.source ≡ source
      → (parsed : Result StatusCode ParsedSdcpPayload) → parse_sdcp_payload frame.payload ≡ parsed
      → (check_parsed b auth source op_code transaction_id parsed ≡ (auth, none))
        ⊎ ((tlv : List ℕ) × ((check_parsed b auth source op_code transaction_id parsed).1
              ≡ some tlv)
            × IsResponse (packet frame) tlv)
  unfolding check_parsed
  check_parsed_cases frame kind from (err code) parses = inl refl
  check_parsed_cases frame kind from (ok p) parses =
      let v : DiscoveryAuthHandler × Bool =
        validate_auth_tag b auth source p.header p.tlv_payload p.sequence_number p.auth_tag in
      elim (Bool-cases (
        op_code_number p.header.op_code == op_code_number op_code
        && p.header.transaction_id == transaction_id)) [
          | inr other ↦ inl (rw other refl)
          | inl matching ↦ elim (Bool-cases v.1) [
            | inr bad ↦ inl (
                rw
                  (
                    matching,
                    bad,
                    validate_auth_tag_refused b auth source p.header p.tlv_payload p.sequence_number
                        p.auth_tag bad,
                  )
                  refl)
            | inl good ↦
                let (context, known, newer, tagged) =
                  (validate_auth_tag_iff b auth source p.header p.tlv_payload p.sequence_number
                      p.auth_tag (parse_sdcp_payload-tag frame.payload p parses)).0
                    good in
                inr (
                  p.tlv_payload,
                  rw (matching, good) refl,
                  record {
                    frame = frame;
                    p = p;
                    context = context;
                    arrives = refl;
                    ethertype = kind;
                    from = from;
                    parses = parses;
                    operation = ground (arith, matching);
                    transaction = ground (arith, matching);
                    payload = refl;
                    known = known;
                    newer = newer;
                    tagged = tagged;
                  },
                )
          ]
        ]

  check_response_cases :
      (received : Received)
      → (check_response b auth source op_code transaction_id received ≡ (auth, none))
        ⊎ ((tlv : List ℕ) × ((check_response b auth source op_code transaction_id received).1
              ≡ some tlv)
            × IsResponse received tlv)
  unfolding check_response
  check_response_cases malformed = inl refl
  check_response_cases failed = inl refl
  check_response_cases (packet frame) = elim (Bool-cases (frame.ethertype == ethertype_sdcp)) [
    | inr other ↦ inl (rw other refl)
    | inl kind ↦ elim (Bool-cases (mac_beq frame.source source)) [
      | inr other ↦ inl (rw (kind, other) refl)
      | inl from ↦
          rw (kind, from)
            (check_parsed_cases frame ((==_iff frame.ethertype ethertype_sdcp).0 kind)
              ((mac_beq_iff frame.source source).0 from) (parse_sdcp_payload frame.payload) refl)
    ]
  ]

  wait_loop-skip :
      (fuel timeout : ℕ) (seen : ℕ → Observation)
      → ltb (seen 0).elapsed timeout ≡ true
      → check_response b auth source op_code transaction_id (seen 0).received ≡ (auth, none)
      → wait_loop b (suc fuel) auth source op_code transaction_id timeout seen
        ≡ wait_loop b fuel auth source op_code transaction_id timeout (λ n. seen (suc n))
  unfolding wait_loop
  wait_loop-skip fuel timeout seen early nothing =
      rw (early, nothing)
        (ap (λ v. wait_loop b fuel v.0 source op_code transaction_id timeout (λ n. seen (suc n)))
          nothing)

  -- A response that the loop returns came at some turn before the timeout, and is one of the device that
  -- was asked: under the operation and the transaction number of the request, with the tag of the shared
  -- secret and a number above the device's last one.
  pub wait_loop-authentic :
      (fuel timeout : ℕ) (seen : ℕ → Observation) (auth' : DiscoveryAuthHandler)
      (tlv_payload : List ℕ)
      → wait_loop b fuel auth source op_code transaction_id timeout seen
        ≡ some (auth', ok tlv_payload)
      → (k : ℕ) × (k < fuel)
        × ((seen k).elapsed < timeout)
        × IsResponse (seen k).received tlv_payload
  unfolding wait_loop
  wait_loop-authentic zero timeout seen auth' tlv_payload done = ground arith
  wait_loop-authentic (suc fuel) timeout seen auth' tlv_payload done =
      elim (Bool-cases (ltb (seen 0).elapsed timeout)) [
        | inr over ↦ ground arith
        | inl early ↦ elim (check_response_cases (seen 0).received) [
          | inr (tlv, answered, response) ↦
              let same : tlv ≡ tlv_payload = ground arith in
              (0, omega arith, ground arith, subst (IsResponse (seen 0).received) same response)
          | inl nothing ↦
              let rest : wait_loop b fuel auth source op_code transaction_id timeout
                    (λ n. seen (suc n))
                  ≡ some (auth', ok tlv_payload) =
                sym (wait_loop-skip fuel timeout seen early nothing) ∙ done in
              let (k, within, in_time, response) =
                wait_loop-authentic fuel timeout (λ n. seen (suc n)) auth' tlv_payload rest in
              (suc k, omega arith, in_time, response)
        ]
      ]

  -- A response that comes in time is returned, with the contexts that its check leaves, when no turn
  -- before it brings one; fuel for one turn more than the turns before is enough.
  pub wait_loop-answers :
      (k fuel timeout : ℕ) (seen : ℕ → Observation) (auth' : DiscoveryAuthHandler)
      (tlv_payload : List ℕ)
      → k < fuel
      → ((j : ℕ) → j ≤ k → (seen j).elapsed < timeout)
      → ((j : ℕ)
          → j < k
          → check_response b auth source op_code transaction_id (seen j).received ≡ (auth, none))
      → check_response b auth source op_code transaction_id (seen k).received
        ≡ (auth', some tlv_payload)
      → wait_loop b fuel auth source op_code transaction_id timeout seen
        ≡ some (auth', ok tlv_payload)
  unfolding wait_loop
  wait_loop-answers k zero timeout seen auth' tlv_payload room early quiet answered =
      absurd (omega arith)
  wait_loop-answers zero (suc fuel) timeout seen auth' tlv_payload room early quiet answered =
      let in_time : ltb (seen 0).elapsed timeout ≡ true = ground (arith, early 0 (omega arith)) in
      rw (in_time, answered) (ap (λ v. some (v.0, ok tlv_payload)) answered)
  wait_loop-answers (suc k) (suc fuel) timeout seen auth' tlv_payload room early quiet answered =
      let in_time : ltb (seen 0).elapsed timeout ≡ true = ground (arith, early 0 (omega arith)) in
      wait_loop-skip fuel timeout seen in_time (quiet 0 (omega arith))
      ∙ wait_loop-answers k fuel timeout (λ n. seen (suc n)) auth' tlv_payload (omega arith)
          (λ j h. early (suc j) (omega arith)) (λ j h. quiet (suc j) (omega arith)) answered
