-- ===== src/Queueing/Resp/RoundTrip.antt =====
-- `_write_command` and `_read_response` together.
use mathlib.Core.List.{append_assoc}
use document_agent_api.Common.{
  false, ap, ℕ, suc, ◌≡◌, refl, ◌∙◌, Text, Bytes, List, [], ◌∷◌, ◌++◌, ok, length, All, ◌==◌, arith,
}
use document_agent_api.Common.Utf8.{utf8_encode, IsScalar, decode-encode}
use document_agent_api.Queueing.Resp.{
  Replies, text, array, nil, cons, crlf, decimal, bulk_string, bulk_strings, write_command,
  read_line, read, read_many, read_by_prefix, read_response_from, read_response, Reader,
}
use document_agent_api.Queueing.Resp.Decimal.{
  decimal-Digits, int_of-decimal, read_line-Digits, without_crlf_lem, read_lem, Digits,
}

abbrev pub texts : List Text → Replies
texts [] = nil
texts (part ∷ parts) = cons (text part) (texts parts)

bulk_string-append :
    (part : Text) (rest : Bytes)
    → bulk_string part ++ rest
      ≡ b'$'
        ∷ (decimal (length (utf8_encode part)) ++ (crlf ++ (utf8_encode part ++ (crlf ++ rest))))
unfolding bulk_string
bulk_string-append part rest = simp append_assoc

write_command-append :
    (parts : List Text) (rest : Bytes)
    → write_command parts ++ rest
      ≡ b'*' ∷ (decimal (length parts) ++ (crlf ++ (bulk_strings parts ++ rest)))
unfolding write_command
write_command-append parts rest = simp append_assoc

read_two : (rest : Bytes) → (read 2 (crlf ++ rest)).1 ≡ rest
unfolding read
read_two [] = refl
read_two (c ∷ rest) = refl

module _ (replace : Bytes → Text) where
  read_body :
      (part : Text) (rest : Bytes)
      → All IsScalar part
      → (reader : Reader)
      → read_by_prefix replace reader b'$'
          (decimal (length (utf8_encode part)))
          (utf8_encode part ++ (crlf ++ rest))
        ≡ ok (text part, rest)
  unfolding read_by_prefix
  read_body part rest h reader = ground (
    arith,
    int_of-decimal (length (utf8_encode part)),
    read_lem (utf8_encode part) (crlf ++ rest),
    read_two rest,
    decode-encode part h,
  )

  -- A line of a prefix and digits.
  read_header :
      (fuel prefix : ℕ) (digits rest : Bytes)
      → Digits digits
      → (prefix == 10) ≡ false
      → read_response_from replace (suc fuel) (prefix ∷ (digits ++ (crlf ++ rest)))
        ≡ read_by_prefix replace (read_response_from replace fuel) prefix digits rest
  unfolding read_response_from read_line
  read_header fuel prefix digits rest h p =
      ground (arith, read_line-Digits digits rest h, without_crlf_lem digits)

  read_bulk_string :
      (fuel : ℕ) (part : Text) (rest : Bytes)
      → All IsScalar part
      → read_response_from replace (suc fuel) (bulk_string part ++ rest) ≡ ok (text part, rest)
  unfolding bulk_string
  read_bulk_string fuel part rest h =
      let encoded = utf8_encode part in
      ap (read_response_from replace (suc fuel)) (bulk_string-append part rest)
      ∙ read_header fuel b'$' (decimal (length encoded)) (encoded ++ (crlf ++ rest))
          (decimal-Digits _) refl
      ∙ read_body part rest h (read_response_from replace fuel)

  read_bulk_strings :
      (fuel : ℕ) (parts : List Text) (rest : Bytes)
      → All (All IsScalar) parts
      → read_many
          (read_response_from replace (suc fuel))
          (length parts)
          (bulk_strings parts ++ rest)
        ≡ ok (texts parts, rest)
  unfolding read_many bulk_strings
  read_bulk_strings fuel [] rest h = refl
  read_bulk_strings fuel (part ∷ parts) rest (h, hs) =
      rw (append_assoc (bulk_string part) (bulk_strings parts) rest) (
        ground (
          arith,
          read_bulk_string fuel part (bulk_strings parts ++ rest) h,
          read_bulk_strings fuel parts rest hs,
        ))

  read_items :
      (fuel : ℕ) (parts : List Text) (rest : Bytes)
      → All (All IsScalar) parts
      → read_by_prefix replace
          (read_response_from replace (suc fuel))
          b'*'
          (decimal (length parts))
          (bulk_strings parts ++ rest)
        ≡ ok (array (texts parts), rest)
  unfolding read_by_prefix
  read_items fuel parts rest h =
      ground (arith, int_of-decimal (length parts), read_bulk_strings fuel parts rest h)

  read-write_command_from :
      (fuel : ℕ) (parts : List Text) (rest : Bytes)
      → All (All IsScalar) parts
      → read_response_from replace (suc (suc fuel)) (write_command parts ++ rest)
        ≡ ok (array (texts parts), rest)
  read-write_command_from fuel parts rest h =
      ap (read_response_from replace (suc (suc fuel))) (write_command-append parts rest)
      ∙ read_header (suc fuel) b'*' (decimal (length parts)) (bulk_strings parts ++ rest)
          (decimal-Digits _) refl
      ∙ read_items fuel parts rest h

  -- Whatever texts without surrogates a command has, `_read_response` on the bytes that
  -- `_write_command` sent gives the list of them, and leaves what follows in the stream.
  pub read_response-write_command :
      (parts : List Text) (rest : Bytes)
      → All (All IsScalar) parts
      → read_response replace (write_command parts ++ rest) ≡ ok (array (texts parts), rest)
  unfolding read_response write_command
  read_response-write_command parts rest h =
      unfold bulk_strings in read-write_command_from _ parts rest h
