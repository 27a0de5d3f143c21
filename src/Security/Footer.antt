-- ===== src/Security/Footer.antt =====
-- common/src/security/auth_footer.rs
pub mod Laws
use tsn_fieldbus.Base.{
  ℕ, ◌+◌, ◌-◌, List, ◌++◌, length, take, drop, Result, ok, err, ◌>>=◌, ◌>>◌, fail_if, ltb, ◌==◌,
  not,
}
use tsn_fieldbus.Base.Bytes.{to_be, from_be}
use tsn_fieldbus.Proto.{StatusCode, err_invalid_len}

abbrev pub auth_tag_size : ℕ
auth_tag_size = 8

abbrev pub security_footer_size : ℕ
security_footer_size = 16

-- `sequence_number` is a `u64` and `auth_tag` holds 8 bytes.
pub record SecurityFooter : Type 0 where
  pub sequence_number : ℕ
  pub auth_tag : List ℕ

-- The output is what was written so far.
unfoldable pub write_to : SecurityFooter → List ℕ → List ℕ
write_to f output = (output ++ to_be 8 f.sequence_number) ++ f.auth_tag

unfoldable pub read_from : List ℕ → Result StatusCode SecurityFooter
read_from input = do
  fail_if (not (length input == security_footer_size)) err_invalid_len
  ok (record {
    sequence_number = from_be (take 8 input);
    auth_tag = take auth_tag_size (drop 8 input);
  })

-- The payload in front of the footer, and the footer.
unfoldable pub split_payload_and_footer : List ℕ → Result StatusCode (List ℕ × SecurityFooter)
unfolding read_from
split_payload_and_footer payload = do
  fail_if (ltb (length payload) security_footer_size) err_invalid_len
  let footer_start = length payload - security_footer_size
  footer ← read_from (drop footer_start payload)
  ok (take footer_start payload, footer)
