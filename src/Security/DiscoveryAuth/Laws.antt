-- ===== src/Security/DiscoveryAuth/Laws.antt =====
-- One tag of the discovery protocol: which tags are accepted, and that what one end creates the other
-- end accepts.
use tsn_fieldbus.Base.{
  ℕ, ◌+◌, ◌≤◌, ◌<◌, ◌≡◌, ◌≢◌, ◌↔◌, refl, sym, ◌∙◌, arith, List, [], ◌∷◌, length, Option, none, some,
  Bool, true, false, leb, ◌==◌, u64_max, saturating_add, Bool-cases, Option-cases, inl, inr, ◌⊎◌,
  ◌&&◌, if◌then◌else◌,
}
use tsn_fieldbus.Base.Table.{get, get-insert}
use tsn_fieldbus.Mac.{MacAddr, mac_eq, mac_beq, mac_beq_iff}
use tsn_fieldbus.Sdcp.Header.{SdcpHeader}
use tsn_fieldbus.Sdcp.Header
use tsn_fieldbus.Security.Crypto.{Blake3, calculate_hmac}
use tsn_fieldbus.Security.Crypto.Compare.{verify_hmac_iff, calculate_hmac-IsBytes}
use tsn_fieldbus.Security.DiscoveryAuth.{
  DeviceSecurityContext, DiscoveryAuthHandler, default, add_new_device, serialize_header, tag_parts,
  create_auth_tag, validate_auth_tag, validate_discovery_response,
}

-- The bytes that a tag covers are the header's bytes on the wire.
pub serialize_header-write_to : (h : SdcpHeader) → serialize_header h ≡ Header.write_to h []
unfolding serialize_header Header.write_to tsn_fieldbus.Base.Bytes.to_be
serialize_header-write_to h = refl

-- `add_new_device` gives the device the first context if it has none, and changes no context that
-- there is: a device that is added again keeps its sequence numbers.
pub get-add_new_device :
    (s : DiscoveryAuthHandler) (added m : MacAddr)
    → get m (add_new_device s added).devices ≡ elim (get m s.devices) [
      | none ↦ if mac_beq added m then some default else none
      | some c ↦ some c
    ]
unfolding add_new_device
get-add_new_device s added m =
    ground (arith, mac_beq_iff added m, get-insert added m default s.devices)

module _ (b : Blake3) where
  -- A tag of 8 bytes is accepted exactly when the device is known, the sequence number is larger than the last
  -- one accepted from the device, and the tag is the message's under the shared secret.
  pub validate_auth_tag_iff :
      (s : DiscoveryAuthHandler) (m : MacAddr) (h : SdcpHeader) (payload : List ℕ) (received : ℕ)
      (tag : List ℕ)
      → length tag ≡ 8
      → ((validate_auth_tag b s m h payload received tag).1 ≡ true) ↔ (
          (c : DeviceSecurityContext) × (get m s.devices ≡ some c)
          × (c.last_valid_received_sequence_number < received)
          × (calculate_hmac b s.shared_secret (tag_parts h payload received) ≡ tag))
  unfolding validate_auth_tag
  validate_auth_tag_iff s m h payload received tag len =
      let decides = verify_hmac_iff b s.shared_secret (tag_parts h payload received) tag len in
      (
        λ good. elim (Option-cases (get m s.devices)) [
          | inl unknown ↦ ground arith
          | inr (c, known) ↦ (c, known, ground arith, ground arith)
        ],
        λ (c, known, fresh, same). ground arith,
      )

  pub validate_auth_tag_newer :
      (s : DiscoveryAuthHandler) (m : MacAddr) (h : SdcpHeader) (payload : List ℕ) (received : ℕ)
      (tag : List ℕ) (c : DeviceSecurityContext)
      → get m s.devices ≡ some c
      → (validate_auth_tag b s m h payload received tag).1 ≡ true
      → c.last_valid_received_sequence_number < received
  unfolding validate_auth_tag
  validate_auth_tag_newer s m h payload received tag c known good = ground arith

  -- A message that is refused changes nothing.
  pub validate_auth_tag_refused :
      (s : DiscoveryAuthHandler) (m : MacAddr) (h : SdcpHeader) (payload : List ℕ) (received : ℕ)
      (tag : List ℕ)
      → (validate_auth_tag b s m h payload received tag).1 ≡ false
      → (validate_auth_tag b s m h payload received tag).0 ≡ s
  unfolding validate_auth_tag
  validate_auth_tag_refused s m h payload received tag bad = ground arith

  pub secret-validate_auth_tag :
      (s : DiscoveryAuthHandler) (m : MacAddr) (h : SdcpHeader) (payload : List ℕ) (received : ℕ)
      (tag : List ℕ)
      → (validate_auth_tag b s m h payload received tag).0.shared_secret ≡ s.shared_secret
  unfolding validate_auth_tag
  secret-validate_auth_tag s m h payload received tag = ground arith

  -- What a validation does to the contexts: an accepted message sets the device's last number, and
  -- nothing else changes.
  pub get-validate_auth_tag :
      (s : DiscoveryAuthHandler) (m k : MacAddr) (h : SdcpHeader) (payload : List ℕ) (received : ℕ)
      (tag : List ℕ) (c : DeviceSecurityContext)
      → get k s.devices ≡ some c
      → let r = validate_auth_tag b s m h payload received tag in
        get k r.0.devices
        ≡ some (
            if mac_beq m k && r.1
            then record c { last_valid_received_sequence_number = received }
            else c)
  unfolding validate_auth_tag
  get-validate_auth_tag s m k h payload received tag c known =
      elim (Option-cases (get m s.devices)) [
        | inl unknown ↦ ground arith
        | inr (d, found) ↦ ground (
          arith,
          mac_beq_iff m k,
          get-insert m k (record d { last_valid_received_sequence_number = received }) s.devices,
        )
      ]

  -- A device without a context gets none.
  pub get-validate_auth_tag_unknown :
      (s : DiscoveryAuthHandler) (m k : MacAddr) (h : SdcpHeader) (payload : List ℕ) (received : ℕ)
      (tag : List ℕ)
      → get k s.devices ≡ none
      → get k (validate_auth_tag b s m h payload received tag).0.devices ≡ none
  unfolding validate_auth_tag
  get-validate_auth_tag_unknown s m k h payload received tag unknown =
      elim (Option-cases (get m s.devices)) [
        | inl unknown_too ↦ ground arith
        | inr (d, found) ↦ ground (
          arith,
          mac_beq_iff m k,
          get-insert m k (record d { last_valid_received_sequence_number = received }) s.devices,
        )
      ]

  -- A response that starts a session is accepted exactly when it has the number 1 and its 8 byte tag is the
  -- message's.
  pub validate_discovery_response_iff :
      (s : DiscoveryAuthHandler) (h : SdcpHeader) (payload : List ℕ) (received : ℕ) (tag : List ℕ)
      → length tag ≡ 8
      → (validate_discovery_response b s h payload received tag ≡ true)
        ↔ ((received ≡ 1) × (calculate_hmac b s.shared_secret (tag_parts h payload received) ≡ tag))
  unfolding validate_discovery_response
  validate_discovery_response_iff s h payload received tag len =
      let decides = verify_hmac_iff b s.shared_secret (tag_parts h payload received) tag len in
      (λ good. ground arith, λ (first, same). ground arith)

  -- The context that creating a tag leaves behind.
  abbrev pub sent : DeviceSecurityContext → DeviceSecurityContext
  sent c = record c {
    transmitter_sequence_number = saturating_add u64_max c.transmitter_sequence_number 1;
  }

  -- A tag for a known device carries the transmitter's number, which then grows by one up to the
  -- largest `u64`; no other context changes.
  pub create_auth_tag_known :
      (s : DiscoveryAuthHandler) (m k : MacAddr) (h : SdcpHeader) (payload : List ℕ)
      (c : DeviceSecurityContext)
      → get m s.devices ≡ some c
      → let r = create_auth_tag b s m h payload in
        let n = c.transmitter_sequence_number in
        (r.1 ≡ some (n, calculate_hmac b s.shared_secret (tag_parts h payload n)))
        × (get k r.0.devices ≡ (if mac_beq m k then some (sent c) else get k s.devices))
        × (r.0.shared_secret ≡ s.shared_secret)
  unfolding create_auth_tag
  create_auth_tag_known s m k h payload c known =
      (ground arith, ground (arith, get-insert m k (sent c) s.devices), ground arith)

  pub create_auth_tag_unknown :
      (s : DiscoveryAuthHandler) (m : MacAddr) (h : SdcpHeader) (payload : List ℕ)
      → get m s.devices ≡ none
      → create_auth_tag b s m h payload ≡ (s, none)
  unfolding create_auth_tag
  create_auth_tag_unknown s m h payload unknown = ground arith

  -- A message that one end tags, the other end accepts, if each knows the other, they share the
  -- secret, and the last number the receiver accepted is smaller than the sender's. Afterwards the
  -- sender's number is larger by one, up to the largest `u64`, and the receiver's last number is the
  -- one of the message.
  pub validate-create :
      (sender receiver : DiscoveryAuthHandler) (to from : MacAddr) (h : SdcpHeader)
      (payload : List ℕ) (c d : DeviceSecurityContext)
      → get to sender.devices ≡ some c
      → get from receiver.devices ≡ some d
      → receiver.shared_secret ≡ sender.shared_secret
      → d.last_valid_received_sequence_number < c.transmitter_sequence_number
      → let n = c.transmitter_sequence_number in
        let tag = calculate_hmac b sender.shared_secret (tag_parts h payload n) in
        let g = create_auth_tag b sender to h payload in
        let v = validate_auth_tag b receiver from h payload n tag in
        (g.1 ≡ some (n, tag))
        × (v.1 ≡ true)
        × (get to g.0.devices ≡ some (sent c))
        × (get from v.0.devices ≡ some (record d { last_valid_received_sequence_number = n }))
  validate-create sender receiver to from h payload c d sends receives secret behind =
      let n : ℕ = c.transmitter_sequence_number in
      let tag : List ℕ = calculate_hmac b sender.shared_secret (tag_parts h payload n) in
      let (made, grown, kept) = create_auth_tag_known sender to to h payload c sends in
      let same : calculate_hmac b receiver.shared_secret (tag_parts h payload n) ≡ tag =
        rw secret refl in
      let good : (validate_auth_tag b receiver from h payload n tag).1 ≡ true =
        (validate_auth_tag_iff receiver from h payload n tag
            (calculate_hmac-IsBytes b sender.shared_secret (tag_parts h payload n)).0).1
          (d, receives, behind, same) in
      let after = get-validate_auth_tag receiver from from h payload n tag d receives in
      (
        made,
        good,
        ground (arith, grown, mac_beq_iff to to),
        ground (arith, after, mac_beq_iff from from),
      )
