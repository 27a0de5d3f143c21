-- ===== src/L2/Header.antt =====
-- The header of L2 messages, from common/src/l2_types.rs.
pub mod Laws
use tsn_fieldbus.Base.{ℕ, List, [], ◌∷◌, ◌++◌, Result, ok, err, ◌>>=◌}
use tsn_fieldbus.Base.Bytes.{to_be, IoError, read_u8, read_u16}

abbrev pub l2_protocol_version : ℕ
l2_protocol_version = 0x01

abbrev pub l2_protocol_flags : ℕ
l2_protocol_flags = 0x00

abbrev pub l2_header_size : ℕ
l2_header_size = 7

pub record L2Header : Type 0 where
  pub version : ℕ
  pub stream_id : ℕ
  pub cycle_counter : ℕ
  pub status : ℕ
  pub flags : ℕ

unfoldable pub new : ℕ → ℕ → ℕ → L2Header
new stream_id cycle_counter status = record {
  version = l2_protocol_version;
  stream_id = stream_id;
  cycle_counter = cycle_counter;
  status = status;
  flags = l2_protocol_flags;
}

unfoldable pub write_to : L2Header → List ℕ → List ℕ
write_to h buf =
    buf
    ++ (h.version ∷ (to_be 2 h.stream_id ++ (to_be 2 h.cycle_counter ++ (h.status ∷ h.flags ∷ []))))

unfoldable pub read_from : List ℕ → Result IoError L2Header
read_from buf = do
  (version, r) ← read_u8 buf
  (stream_id, r) ← read_u16 r
  (cycle_counter, r) ← read_u16 r
  (status, r) ← read_u8 r
  (flags, r) ← read_u8 r
  ok (record {
    version = version;
    stream_id = stream_id;
    cycle_counter = cycle_counter;
    status = status;
    flags = flags;
  })
