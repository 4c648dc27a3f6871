-- ===== src/Queueing/Resp.antt =====
-- The wire format of `RedisParseJobQueue`: `_write_command` and `_read_response`.
pub mod Decimal
pub mod RoundTrip
use document_agent_api.Common.{
  ℕ, zero, suc, ◌+◌, ◌-◌, ◌*◌, ◌/◌, ◌%◌, Text, Bytes, codes, text_eq, Bool, true, false, not, ◌&&◌,
  ◌||◌, Option, none, some, List, [], ◌∷◌, ◌++◌, Result, ok, err, Exn, runtime_error, value_error,
  length, ltb, leb, ◌==◌, if◌then◌else◌,
}
use document_agent_api.Common.Utf8.{utf8_encode, utf8_decode}

abbrev pub crlf : Bytes
crlf = 13 ∷ 10 ∷ []

-- The decimal digits of a number, on fuel; n + 1 is enough for n.
unfoldable pub decimal_from : ℕ → ℕ → Bytes
decimal_from zero n = []
decimal_from (suc fuel) n =
    let front = decimal_from fuel (n / 10) in
    if ltb n 10 then (48 + n) ∷ [] else front ++ (48 + n % 10) ∷ []

unfoldable pub decimal : ℕ → Bytes
unfolding decimal_from
decimal n = decimal_from (suc n) n

-- "$<length>\r\n<bytes>\r\n"
unfoldable pub bulk_string : Text → Bytes
bulk_string part =
    let encoded = utf8_encode part in
    b'$' ∷ (decimal (length encoded) ++ (crlf ++ (encoded ++ crlf)))

unfoldable pub bulk_strings : List Text → Bytes
bulk_strings [] = []
bulk_strings (part ∷ parts) = bulk_string part ++ bulk_strings parts

-- The bytes that `_write_command` sends.
unfoldable pub write_command : List Text → Bytes
unfolding bulk_strings
write_command parts = b'*' ∷ (decimal (length parts) ++ (crlf ++ bulk_strings parts))

-- An `int`.
pub data Number : Type 0 where
  plus minus : ℕ → Number

-- What `_read_response` returns.
mutual
  pub data Reply : Type 0 where
    nothing : Reply
    text : Text → Reply
    integer : Number → Reply
    array : Replies → Reply

  pub data Replies : Type 0 where
    nil : Replies
    cons : Reply → Replies → Replies

abbrev is_digit : ℕ → Bool
is_digit c = leb 48 c && leb c 57

-- The digits of `int(payload)`. White space round the number and underscores between its digits,
-- which `int` takes too, are refused: no server sends them.
unfoldable pub digits_from : ℕ → Bytes → Option ℕ
digits_from acc [] = some acc
digits_from acc (c ∷ s) =
    let rest = digits_from (acc * 10 + (c - 48)) s in if is_digit c then rest else none

unfoldable pub digits_of : Bytes → Option ℕ
unfolding digits_from
digits_of [] = none
digits_of (c ∷ s) = digits_from 0 (c ∷ s)

-- `int(payload)`
unfoldable pub int_of : Bytes → Option Number
unfolding digits_of
int_of [] = none
int_of (c ∷ s) =
    if c == b'-'
    then elim (digits_of s) [ none ↦ none | some n ↦ some (minus n) ]
    else if c == b'+'
    then elim (digits_of s) [ none ↦ none | some n ↦ some (plus n) ]
    else elim (digits_of (c ∷ s)) [ none ↦ none | some n ↦ some (plus n) ]

-- `stream.readline()`: the line with its newline, and the rest.
unfoldable pub read_line : Bytes → Bytes × Bytes
read_line [] = ([], [])
read_line (c ∷ s) =
    let (line, rest) = read_line s in if c == 10 then (c ∷ [], s) else (c ∷ line, rest)

-- `stream.read(n)`: fewer bytes where the stream ends.
unfoldable pub read : ℕ → Bytes → Bytes × Bytes
read zero s = ([], s)
read (suc n) [] = ([], [])
read (suc n) (c ∷ s) = let (front, rest) = read n s in (c ∷ front, rest)

-- `line[:-2]`
unfoldable pub without_crlf : Bytes → Bytes
without_crlf [] = []
without_crlf (c ∷ []) = []
without_crlf (c ∷ d ∷ []) = []
without_crlf (c ∷ d ∷ e ∷ s) = c ∷ without_crlf (d ∷ e ∷ s)

abbrev pub decoded : Bytes → Bytes → Result (Reply × Bytes)
decoded payload rest = elim (utf8_decode payload) [
  | none ↦ err (value_error (codes "invalid utf-8"))
  | some t ↦ ok (text t, rest)
]

abbrev pub invalid_int : Exn
invalid_int = value_error (codes "invalid literal for int()")

-- The reply to "$": -1 is nothing; any other negative number reads to the end of the stream.
unfoldable pub read_bulk : Bytes → Bytes → Result (Reply × Bytes)
unfolding read
read_bulk payload stream = elim (int_of payload) [
  | none ↦ err invalid_int
  | some (minus n) ↦
      if n == 1
      then ok (nothing, stream)
      else if n == 0
      then decoded [] (read 2 stream).1
      else decoded stream []
  | some (plus n) ↦ let (body, rest) = read n stream in decoded body (read 2 rest).1
]

abbrev pub Reader : Type 0
Reader = Bytes → Result (Reply × Bytes)

-- `[_read_response(stream) for _ in range(count)]`
unfoldable pub read_many : Reader → ℕ → Bytes → Result (Replies × Bytes)
read_many reader zero stream = ok (nil, stream)
read_many reader (suc n) stream = elim (reader stream) [
  | err e ↦ err e
  | ok (reply, rest) ↦ elim (read_many reader n rest) [
    | err e ↦ err e
    | ok (replies, rest') ↦ ok (cons reply replies, rest')
  ]
]

-- The reply to "*": -1 is nothing, any other negative number is an empty list.
unfoldable pub read_array : Reader → Bytes → Bytes → Result (Reply × Bytes)
unfolding read_many
read_array reader payload stream = elim (int_of payload) [
  | none ↦ err invalid_int
  | some (minus n) ↦ if n == 1 then ok (nothing, stream) else ok (array nil, stream)
  | some (plus n) ↦ elim (read_many reader n stream) [
    | err e ↦ err e
    | ok (replies, rest) ↦ ok (array replies, rest)
  ]
]

-- By the first byte of the line, for the line without it, and the stream behind it. `replace` is
-- `decode("utf-8", errors="replace")`.
unfoldable pub read_by_prefix :
    (Bytes → Text) → Reader → (prefix : ℕ) (payload stream : Bytes) → Result (Reply × Bytes)
unfolding read_bulk read_array
read_by_prefix replace reader prefix payload stream =
    if prefix == b'+'
    then decoded payload stream
    else if prefix == b'-'
    then err (runtime_error (replace payload))
    else if prefix == b':'
    then (elim (int_of payload) [ none ↦ err invalid_int | some n ↦ ok (integer n, stream) ])
    else if prefix == b'$'
    then read_bulk payload stream
    else if prefix == b'*'
    then read_array reader payload stream
    else err (runtime_error (codes "unsupported Redis RESP response"))

-- `_read_response`, on fuel: each reply takes a byte of the stream at least, so that more fuel than
-- the stream has bytes is enough.
unfoldable pub read_response_from : (Bytes → Text) → ℕ → Reader
unfolding read_by_prefix read_line without_crlf
read_response_from replace zero stream = err (runtime_error (codes "out of fuel"))
read_response_from replace (suc fuel) stream =
    let (line, rest) = read_line stream in
    elim line [
      | [] ↦ err (runtime_error (codes "connection closed while reading Redis response"))
      | prefix ∷ tail ↦
          read_by_prefix replace (read_response_from replace fuel) prefix (without_crlf tail) rest
    ]

unfoldable pub read_response : (Bytes → Text) → Reader
unfolding read_response_from
read_response replace stream = read_response_from replace (suc (length stream)) stream
