-- ===== src/Security/Footer/Laws.antt =====
-- The footer is read back from any payload that it was appended to, and every payload that is split
-- is the payload and the footer that the split returns.
use tsn_fieldbus.Base.{
  ℕ, zero, suc, [], ◌∷◌, ◌+◌, ◌-◌, ◌^◌, ◌<◌, ◌≤◌, ◌≡◌, ◌∙◌, refl, ap, List, ◌++◌, length,
  length-append, length-drop, length-take, take, drop, take-append, drop-append, ok, err, arith,
}
use tsn_fieldbus.Base.Bytes.{to_be, from_be, from_be-to_be, length-to_be}
use tsn_fieldbus.Proto.{err_invalid_len}
use tsn_fieldbus.Security.Footer.{
  SecurityFooter, write_to, split_payload_and_footer, auth_tag_size, security_footer_size,
}
use mathlib.Core.List.{append_assoc}

pub record IsFooter (f : SecurityFooter) : Type 0 where
  pub sequence_u64 : f.sequence_number < 256 ^ 8
  pub tag_length : length f.auth_tag ≡ 8

pub length-write_to :
    (f : SecurityFooter) (output : List ℕ)
    → IsFooter f
    → length (write_to f output) ≡ length output + security_footer_size
unfolding write_to
length-write_to f output v = omega (
  arith,
  length-append (output ++ to_be 8 f.sequence_number) f.auth_tag,
  length-append output (to_be 8 f.sequence_number),
  length-to_be 8 f.sequence_number,
  v.tag_length,
)

take_all : (n : ℕ) (xs : List ℕ) → length xs ≡ n → take n xs ≡ xs
take_all zero [] h = refl
take_all zero (x ∷ xs) h = absurd (omega arith)
take_all (suc n) [] h = refl
take_all (suc n) (x ∷ xs) h = ap (λ r. x ∷ r) (take_all n xs (omega arith))

-- What the split does on a payload with 16 bytes behind it.
split-append :
    (payload s tag : List ℕ)
    → length s ≡ 8
    → length tag ≡ 8
    → split_payload_and_footer (payload ++ (s ++ tag))
      ≡ ok (payload, record { sequence_number = from_be s; auth_tag = tag })
unfolding split_payload_and_footer
split-append payload s tag hs ht = ground (
  arith,
  length-append payload (s ++ tag),
  length-append s tag,
  take-append (length (payload ++ (s ++ tag)) - 16) payload (s ++ tag)
      (omega (arith, length-append payload (s ++ tag), length-append s tag)),
  drop-append (length (payload ++ (s ++ tag)) - 16) payload (s ++ tag)
      (omega (arith, length-append payload (s ++ tag), length-append s tag)),
  take-append 8 s tag hs,
  drop-append 8 s tag hs,
  take_all 8 tag ht,
)

-- A footer that fits the wire is split off the payload that it was written behind.
pub split-write_to :
    (f : SecurityFooter) (payload : List ℕ)
    → IsFooter f
    → split_payload_and_footer (write_to f payload) ≡ ok (payload, f)
unfolding write_to
split-write_to f payload v =
    ap split_payload_and_footer (append_assoc payload (to_be 8 f.sequence_number) f.auth_tag)
    ∙ split-append payload (to_be 8 f.sequence_number) f.auth_tag (length-to_be 8 _) v.tag_length
    ∙ rw (from_be-to_be 8 f.sequence_number v.sequence_u64)

-- An input that is shorter than a footer is refused.
pub split_short :
    (payload : List ℕ)
    → length payload < security_footer_size
    → split_payload_and_footer payload ≡ err err_invalid_len
unfolding split_payload_and_footer
split_short payload h = ground arith

pub split_enough :
    (payload : List ℕ)
    → security_footer_size ≤ length payload
    → split_payload_and_footer payload
      ≡ ok (
        take (length payload - 16) payload,
        record {
          sequence_number = from_be (take 8 (drop (length payload - 16) payload));
          auth_tag = take 8 (drop 8 (drop (length payload - 16) payload));
        },
      )
unfolding split_payload_and_footer
split_enough payload h = ground (arith, length-drop (length payload - 16) payload)

-- The tag that is split off has 8 bytes.
pub length-tag :
    (input : List ℕ)
    → security_footer_size ≤ length input
    → length (take 8 (drop 8 (drop (length input - 16) input))) ≡ auth_tag_size
length-tag input h = omega (
  arith,
  length-drop (length input - 16) input,
  length-drop 8 (drop (length input - 16) input),
  length-take 8 (drop 8 (drop (length input - 16) input)),
)
