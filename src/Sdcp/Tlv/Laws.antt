-- ===== src/Sdcp/Tlv/Laws.antt =====
-- What a TLV is after the wire, for every length of its value.
use tsn_fieldbus.Base.{
  ℕ, zero, suc, ◌%◌, ◌≤◌, ◌<◌, ◌≡◌, ◌∙◌, sym, refl, ap, List, [], ◌∷◌, ◌++◌, length, length-append,
  take, ok, err, arith,
}
use tsn_fieldbus.Base.Bytes.{read_u8, read_exact_enough, read_exact_short, unexpected_eof}
use tsn_fieldbus.Sdcp.Tlv.{new, write_to, read_from}

-- A TLV read back from its bytes has the first `n % 256` bytes of a value of `n` bytes: a value of more
-- than 255 bytes is cut.
pub read_from-write_to :
    (t_type : ℕ) (value rest : List ℕ)
    → read_from (write_to (new t_type value) [] ++ rest)
      ≡ ok (record {
        t_type = t_type;
        length = length value % 256;
        value = take (length value % 256) (value ++ rest);
      })
unfolding read_from write_to new read_u8
read_from-write_to t_type value rest = rw (
    read_exact_enough (length value % 256) (value ++ rest)
      (omega (arith, length-append value rest)))

take-append_le : (xs ys : List ℕ) (n : ℕ) → length xs ≡ n → take n (xs ++ ys) ≡ xs
take-append_le [] ys zero h = refl
take-append_le [] ys (suc n) h = absurd (omega arith)
take-append_le (x ∷ xs) ys zero h = absurd (omega arith)
take-append_le (x ∷ xs) ys (suc n) h = ap (λ r. x ∷ r) (take-append_le xs ys n (omega arith))

-- A TLV whose value fits its length byte is read back unchanged, whatever follows it.
pub read_from-write_to_fits :
    (t_type : ℕ) (value rest : List ℕ)
    → length value < 256
    → read_from (write_to (new t_type value) [] ++ rest) ≡ ok (new t_type value)
unfolding new
read_from-write_to_fits t_type value rest h =
    let whole : length value % 256 ≡ length value = omega arith in
    read_from-write_to t_type value rest
    ∙ rw (take-append_le value rest (length value % 256) (sym whole))

-- A read succeeds exactly when the announced bytes are there; it takes those bytes and no more.
pub read_from_enough :
    (t_type len : ℕ) (bytes : List ℕ)
    → len ≤ length bytes
    → read_from (t_type ∷ len ∷ bytes)
      ≡ ok (record { t_type = t_type; length = len; value = take len bytes })
unfolding read_from read_u8
read_from_enough t_type len bytes h = rw (read_exact_enough len bytes h)

pub read_from_short :
    (t_type len : ℕ) (bytes : List ℕ)
    → length bytes < len
    → read_from (t_type ∷ len ∷ bytes) ≡ err unexpected_eof
unfolding read_from read_u8
read_from_short t_type len bytes h = rw (read_exact_short len bytes h)
