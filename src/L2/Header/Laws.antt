-- ===== src/L2/Header/Laws.antt =====
-- The L2 header survives the wire in both directions.
use tsn_fieldbus.Base.{ℕ, ◌<◌, ◌^◌, ◌≡◌, refl, List, [], ◌∷◌, ◌++◌, length, ok, arith, All}
use tsn_fieldbus.Base.Bytes.{
  IsByte, to_be, from_be-to_be, to_be-from_be, read_u8, read_u16, read_exact,
}
use tsn_fieldbus.L2.Header.{L2Header, write_to, read_from}

-- The fields fit their widths, as their Rust types say.
pub record IsL2Header (h : L2Header) : Type 0 where
  pub version_u8 : h.version < 256
  pub stream_u16 : h.stream_id < 256 ^ 2
  pub counter_u16 : h.cycle_counter < 256 ^ 2
  pub status_u8 : h.status < 256
  pub flags_u8 : h.flags < 256

pub length-write_to : (h : L2Header) → length (write_to h []) ≡ 7
unfolding write_to to_be
length-write_to h = refl

-- A header whose fields fit is read back from its bytes, whatever follows them.
pub read_from-write_to :
    (h : L2Header) (rest : List ℕ) → IsL2Header h → read_from (write_to h [] ++ rest) ≡ ok h
unfolding read_from write_to read_u8 read_u16 read_exact to_be
read_from-write_to h rest v =
    cc (from_be-to_be 2 h.stream_id v.stream_u16, from_be-to_be 2 h.cycle_counter v.counter_u16)

-- A header that was read is written back as the seven bytes that it was read from.
pub write_to-read_from :
    (a b c d e f g : ℕ) (rest : List ℕ) (h : L2Header)
    → All IsByte (a ∷ b ∷ c ∷ d ∷ e ∷ f ∷ g ∷ [])
    → read_from (a ∷ b ∷ c ∷ d ∷ e ∷ f ∷ g ∷ rest) ≡ ok h
    → write_to h [] ≡ a ∷ b ∷ c ∷ d ∷ e ∷ f ∷ g ∷ []
unfolding read_from write_to read_u8 read_u16 read_exact
write_to-read_from a b c d e f g rest h v r =
    ground (
      arith,
      to_be-from_be 2 (b ∷ c ∷ []) (omega arith),
      to_be-from_be 2 (d ∷ e ∷ []) (omega arith),
    )
