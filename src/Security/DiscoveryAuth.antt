-- ===== src/Security/DiscoveryAuth.antt =====
-- common/src/security/discovery_auth.rs: a sequence number in each direction for every known device.
pub mod Laws
pub mod Replay
use tsn_fieldbus.Base.{
  ℕ, ◌+◌, ◌/◌, ◌%◌, ◌^◌, List, [], ◌∷◌, Option, none, some, Bool, true, false, ◌==◌, leb, not,
  if◌then◌else◌, saturating_add, u64_max,
}
use tsn_fieldbus.Base.Bytes.{to_be}
use tsn_fieldbus.Base.Table.{Table, get, insert, contains_key}
use tsn_fieldbus.Mac.{MacAddr, mac_eq}
use tsn_fieldbus.Sdcp.Header.{SdcpHeader, op_code_number}
use tsn_fieldbus.Security.Crypto.{Blake3, calculate_hmac, verify_hmac}

pub record DeviceSecurityContext : Type 0 where
  pub transmitter_sequence_number : ℕ
  pub last_valid_received_sequence_number : ℕ

abbrev pub default : DeviceSecurityContext
default = record { transmitter_sequence_number = 1; last_valid_received_sequence_number = 0 }

pub record DiscoveryAuthHandler : Type 0 where
  pub shared_secret : List ℕ
  pub devices : Table MacAddr DeviceSecurityContext

unfoldable pub new : List ℕ → DiscoveryAuthHandler
new shared_secret = record { shared_secret = shared_secret; devices = [] }

-- `devices.entry(device_mac).or_default()`
unfoldable pub add_new_device : DiscoveryAuthHandler → MacAddr → DiscoveryAuthHandler
add_new_device s device_mac = elim (get device_mac s.devices) [
  | none ↦ record s { devices = insert device_mac default s.devices }
  | some _ ↦ s
]

unfoldable pub has_device : DiscoveryAuthHandler → MacAddr → Bool
has_device s device_mac = contains_key device_mac s.devices

unfoldable pub set_last_valid_received_sequence_number :
    DiscoveryAuthHandler → MacAddr → ℕ → DiscoveryAuthHandler × Bool
set_last_valid_received_sequence_number s device_mac sequence_number =
    elim (get device_mac s.devices) [
      | none ↦ (s, false)
      | some context ↦ (
        record s {
          devices =
              insert device_mac
                (record context { last_valid_received_sequence_number = sequence_number })
                s.devices;
        },
        true,
      )
    ]

unfoldable pub serialize_header : SdcpHeader → List ℕ
serialize_header h =
    h.version
    ∷ op_code_number h.op_code
    ∷ h.transaction_id / 2 ^ 8 % 2 ^ 8
    ∷ h.transaction_id % 2 ^ 8
    ∷ h.flags
    ∷ []

-- The parts of the message that the tag covers.
abbrev pub tag_parts : SdcpHeader → List ℕ → ℕ → List (List ℕ)
tag_parts h payload sequence_number = serialize_header h ∷ payload ∷ to_be 8 sequence_number ∷ []

module _ (b : Blake3) where
  unfoldable pub create_auth_tag :
      DiscoveryAuthHandler
      → MacAddr
      → SdcpHeader
      → List ℕ
      → DiscoveryAuthHandler × Option (ℕ × List ℕ)
  create_auth_tag s device_mac h payload = elim (get device_mac s.devices) [
    | none ↦ (s, none)
    | some context ↦ (
      record s {
        devices =
            insert device_mac
              (record context {
                transmitter_sequence_number =
                    saturating_add u64_max context.transmitter_sequence_number 1;
              })
              s.devices;
      },
      some (
        context.transmitter_sequence_number,
        calculate_hmac b s.shared_secret (tag_parts h payload context.transmitter_sequence_number),
      ),
    )
  ]

  -- The part of `validate_auth_tag` after the context is found.
  validate_context :
      DiscoveryAuthHandler
      → MacAddr
      → SdcpHeader
      → List ℕ
      → ℕ
      → List ℕ
      → DeviceSecurityContext
      → DiscoveryAuthHandler × Bool
  validate_context s device_mac h payload received auth_tag context =
      if leb received context.last_valid_received_sequence_number
      then (s, false)
      else if verify_hmac b s.shared_secret (tag_parts h payload received) auth_tag
      then (
        record s {
          devices =
              insert device_mac (record context { last_valid_received_sequence_number = received })
                s.devices;
        },
        true,
      )
      else (s, false)

  unfoldable pub validate_auth_tag :
      DiscoveryAuthHandler
      → MacAddr
      → SdcpHeader
      → List ℕ
      → ℕ
      → List ℕ
      → DiscoveryAuthHandler × Bool
  unfolding validate_context
  validate_auth_tag s device_mac h payload received auth_tag = elim (get device_mac s.devices) [
    | none ↦ (s, false)
    | some context ↦ validate_context s device_mac h payload received auth_tag context
  ]

  unfoldable pub validate_discovery_response :
      DiscoveryAuthHandler → SdcpHeader → List ℕ → ℕ → List ℕ → Bool
  validate_discovery_response s h payload sequence_number auth_tag =
      if not (sequence_number == 1)
      then false
      else verify_hmac b s.shared_secret (tag_parts h payload sequence_number) auth_tag
