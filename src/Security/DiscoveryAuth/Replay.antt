-- ===== src/Security/DiscoveryAuth/Replay.antt =====
-- Sequences of calls of the discovery authentication: no message of a device is accepted twice, whatever
-- is added, sent and received in between.
use tsn_fieldbus.Base.{
  subst, ℕ, ◌<◌, ◌≡◌, refl, arith, List, [], ◌∷◌, Option, none, some, ◌&&◌, if◌then◌else◌,
  Bool-cases, Option-cases, inl, inr,
}
use tsn_fieldbus.Base.Order.{Increasing}
use tsn_fieldbus.Base.Table.{get}
use tsn_fieldbus.Mac.{MacAddr, mac_eq, mac_beq, mac_beq_iff}
use tsn_fieldbus.Sdcp.Header.{SdcpHeader}
use tsn_fieldbus.Security.Crypto.{Blake3}
use tsn_fieldbus.Security.DiscoveryAuth.{
  DeviceSecurityContext, DiscoveryAuthHandler, add_new_device, create_auth_tag, validate_auth_tag,
}
use tsn_fieldbus.Security.DiscoveryAuth.Laws.{
  sent, create_auth_tag_unknown, get-add_new_device, create_auth_tag_known, get-validate_auth_tag,
  validate_auth_tag_newer,
}

-- A call. `set_last_valid_received_sequence_number` is not among them: it may set a number back.
pub data Call : Type 0 where
  add : MacAddr → Call
  create : MacAddr → SdcpHeader → List ℕ → Call
  validate : MacAddr → SdcpHeader → List ℕ → ℕ → List ℕ → Call

-- From the last number to the next one, which is the number taken, if there is one.
abbrev Moved : Option ℕ → ℕ → ℕ → Type 0
Moved none last next = next ≡ last
Moved (some n) last next = (last < n) × (next ≡ n)

module _ (b : Blake3) where
  pub call : DiscoveryAuthHandler → Call → DiscoveryAuthHandler
  call s (add m) = add_new_device s m
  call s (create m h payload) = (create_auth_tag b s m h payload).0
  call s (validate m h payload n tag) = (validate_auth_tag b s m h payload n tag).0

  -- The number that a call accepts from the device, if it does.
  pub takes : MacAddr → DiscoveryAuthHandler → Call → Option ℕ
  takes k s (add m) = none
  takes k s (create m h payload) = none
  takes k s (validate m h payload n tag) =
      if mac_beq m k && (validate_auth_tag b s m h payload n tag).1 then some n else none

  -- The numbers accepted from the device, in the order of the calls.
  pub accepted : MacAddr → DiscoveryAuthHandler → List Call → List ℕ
  accepted k s [] = []
  accepted k s (c ∷ cs) =
      let rest = accepted k (call s c) cs in elim (takes k s c) [ none ↦ rest | some n ↦ n ∷ rest ]

  -- What a call does to the last number of a device.
  Moves : MacAddr → DiscoveryAuthHandler → Call → ℕ → Type 0
  Moves k s c last =
      (d : DeviceSecurityContext) × (get k (call s c).devices ≡ some d)
      × Moved (takes k s c) last d.last_valid_received_sequence_number

  call-Moves :
      (k : MacAddr) (s : DiscoveryAuthHandler) (c : Call) (d : DeviceSecurityContext)
      → get k s.devices ≡ some d
      → Moves k s c d.last_valid_received_sequence_number
  unfolding call takes Moves
  call-Moves k s (add m) d known = (d, ground (arith, get-add_new_device s m k), refl)
  call-Moves k s (create m h payload) d known = elim (Option-cases (get m s.devices)) [
    | inl unknown ↦ (d, ground (arith, create_auth_tag_unknown b s m h payload unknown), refl)
    | inr (e, found) ↦
        let (made, moved, kept) = create_auth_tag_known b s m k h payload e found in
        elim (Bool-cases (mac_beq m k)) [
          | inl same ↦ (sent b e, ground arith, ground (arith, mac_beq_iff m k))
          | inr other ↦ (d, ground arith, refl)
        ]
  ]
  call-Moves k s (validate m h payload n tag) d known =
      let after = get-validate_auth_tag b s m k h payload n tag d known in
      elim (Bool-cases (mac_beq m k && (validate_auth_tag b s m h payload n tag).1)) [
        | inl taken ↦
            let newer =
              validate_auth_tag_newer b s m h payload n tag d (ground (arith, mac_beq_iff m k))
                (ground arith) in
            (
              record d { last_valid_received_sequence_number = n },
              ground arith,
              rw taken (newer, refl),
            )
        | inr left ↦ (d, ground arith, rw left refl)
      ]

  accepted-step :
      (o : Option ℕ) (last : ℕ) (d : DeviceSecurityContext) (rest : List ℕ)
      → Moved o last d.last_valid_received_sequence_number
      → Increasing d.last_valid_received_sequence_number rest
      → Increasing last (elim o [ none ↦ rest | some n ↦ n ∷ rest ])
  accepted-step none last d rest same h = subst (λ n. Increasing n rest) same h
  accepted-step (some n) last d rest (newer, same) h =
      (newer, subst (λ j. Increasing j rest) same h)

  -- The numbers that are accepted from a known device increase strictly from its last number on, whatever
  -- devices are added, tags created and messages validated: no message is accepted twice.
  pub accepted_calls-Increasing :
      (k : MacAddr) (s : DiscoveryAuthHandler) (cs : List Call) (d : DeviceSecurityContext)
      → get k s.devices ≡ some d
      → Increasing d.last_valid_received_sequence_number (accepted k s cs)
  unfolding accepted Moves
  accepted_calls-Increasing k s [] d known = tt
  accepted_calls-Increasing k s (c ∷ cs) d known =
      let (d', known', moved) = call-Moves k s c d known in
      accepted-step (takes k s c) d.last_valid_received_sequence_number d'
        (accepted k (call s c) cs) moved (accepted_calls-Increasing k (call s c) cs d' known')
