-- ===== src/Examples.antt =====
-- Concrete inputs of the examples. Each example applies a theorem to an input that meets its
-- conditions.
pub mod Streams
pub mod Discovery
pub mod Tokens
pub mod Wire
pub mod Device
pub mod Service
pub mod Cyclic
pub mod Handlers
pub mod Finding
pub mod Waiting
pub mod Listing
pub mod Image
use tsn_fieldbus.Base.{ℕ, ◌+◌, ◌*◌, ◌^◌, List, [], ◌∷◌, ◌++◌, Option, none, some, Result, ok, err}
use tsn_fieldbus.Base.Bytes.{to_be, to_be-IsBytes}
use tsn_fieldbus.Proto.{StatusCode, DeviceInfo, StreamConfig, Position}
use tsn_fieldbus.Mac.{MacAddr, mac}
use tsn_fieldbus.Security.Crypto.{Blake3}
use tsn_fieldbus.L2.Header.{L2Header}

-- A hasher that keeps what it absorbed, with a polynomial of the bytes as the digest.
abbrev checksum : ℕ → List ℕ → ℕ
checksum acc [] = acc
checksum acc (x ∷ xs) = checksum (acc * 257 + x + 1) xs

abbrev pub toy : Blake3
unfolding to_be
toy = record {
  Hasher = List ℕ;
  new_keyed = λ key. key;
  update = λ h part. h ++ part;
  finalize = λ h. to_be 32 (checksum 0 h * 2 ^ 192);
  finalize-IsBytes = λ h. to_be-IsBytes 32 (checksum 0 h * 2 ^ 192);
}

abbrev pub secret : List ℕ
unfolding to_be
secret = to_be 32 0x5a5b5c

abbrev pub master_mac : MacAddr
master_mac = mac 0xaa 0xbb 0xcc 0xdd 0xee 0x01

abbrev pub slave_mac : MacAddr
slave_mac = mac 0x02 0 0 0 0 0x10

abbrev pub broadcast : MacAddr
broadcast = mac 255 255 255 255 255 255

abbrev pub stream : StreamConfig
stream = record {
  stream_id = 5;
  destination_mac = 2 ∷ 0 ∷ 0 ∷ 0 ∷ 0 ∷ 1 ∷ [];
  vlan_id_pcp = 0x6001;
  cycle_time_nano = 1_000_000;
  direction = 1;
  stream_content = some (record { byte_offset = 0; bit_offset = 0; bit_len = 12 });
}

abbrev pub l2_header : L2Header
l2_header = record { version = 1; stream_id = 5; cycle_counter = 700; status = 0; flags = 0 }
