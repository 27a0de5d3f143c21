-- ===== src/Sdcp/Header/Laws.antt =====
-- The header and its operation codes survive the wire.
use tsn_fieldbus.Base.{
  ℕ, ◌<◌, ◌≤◌, ◌^◌, ◌≡◌, ◌⊎◌, refl, List, [], ◌∷◌, ◌++◌, length, ok, err, arith,
}
use tsn_fieldbus.Base.Bytes.{read_u16-to_be, to_be, unexpected_eof, read_u8, read_u16, read_exact}
use mathlib.Core.List.{append_assoc}
use tsn_fieldbus.Sdcp.Header.{
  SdcpOpCode, discover_req, unknown_operation, op_code_number, op_code_from, SdcpHeader, write_to,
  read_from,
}

-- Every operation code is read back from its number.
pub op_code_from-number : (c : SdcpOpCode) → op_code_from (op_code_number c) ≡ c
unfolding op_code_from
op_code_from-number discover_req = refl
op_code_from-number _ = refl

-- A byte that is read as a known operation is the number of that operation.
pub op_code_number-from :
    (n : ℕ) → (op_code_number (op_code_from n) ≡ n) ⊎ (op_code_from n ≡ unknown_operation)
unfolding op_code_from
op_code_number-from n = ground arith

-- The fields fit their widths, as their Rust types say.
pub record IsHeader (h : SdcpHeader) : Type 0 where
  pub version_u8 : h.version < 256
  pub transaction_u16 : h.transaction_id < 256 ^ 2
  pub flags_u8 : h.flags < 256

-- A header whose fields fit is read back from its bytes, whatever follows them.
pub read_from-write_to :
    (h : SdcpHeader) (rest : List ℕ) → IsHeader h → read_from (write_to h [] ++ rest) ≡ ok h
unfolding read_from write_to read_u8
read_from-write_to h rest v = rw (append_assoc (to_be 2 h.transaction_id) (h.flags ∷ []) rest) (
    rw (read_u16-to_be h.transaction_id (h.flags ∷ rest) v.transaction_u16)
      (rw op_code_from-number))

-- A read needs five bytes and takes any five.
pub read_from_short : (buf : List ℕ) → length buf < 5 → read_from buf ≡ err unexpected_eof
unfolding read_from read_u8 read_u16 read_exact
read_from_short [] h = refl
read_from_short (a ∷ []) h = refl
read_from_short (a ∷ b ∷ []) h = refl
read_from_short (a ∷ b ∷ c ∷ []) h = refl
read_from_short (a ∷ b ∷ c ∷ d ∷ []) h = refl
read_from_short (a ∷ b ∷ c ∷ d ∷ e ∷ bs) h = absurd (omega arith)

pub read_from_enough : (buf : List ℕ) → 5 ≤ length buf → (h : SdcpHeader) × (read_from buf ≡ ok h)
unfolding read_from read_u8 read_u16 read_exact
read_from_enough (a ∷ b ∷ c ∷ d ∷ e ∷ bs) h = (_, refl)
read_from_enough _ h = absurd (omega arith)
