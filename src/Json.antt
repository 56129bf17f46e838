-- ===== src/Json.antt =====
-- The strict JSON of crates/omt-common/src/json.rs: strings and numbers here, whole documents in Json.Document.
-- The parser's position is the bytes that are left. Parameters: `is_utf8`, the standard library's check of
-- UTF-8, and `is_finite`, whether the double that a literal stands for is finite.
pub mod Document
pub mod Strings
pub mod Numbers
mod Tests
use rpi_omt_client.Prelude.{
  ℕ, zero, suc, ◌+◌, ◌-◌, ◌*◌, ◌/◌, ◌%◌, ◌^◌, Bool, true, false, not, ◌&&◌, ◌||◌, Option, none,
  some, List, [], ◌∷◌, ◌++◌, ltb, leb, ◌==◌, within, if◌then◌else◌, length, take, get_or, Bytes,
  codes, Result, ok, err, ℤ, pos, negsuc, strip_prefix,
}
use rpi_omt_client.Decimal.{is_ascii_digit, checked64}

pub data JsonError : Type 0 where
  invalid_utf8 trailing_characters too_large invalid_literal : JsonError
  truncated_escape invalid_escape unterminated_string control_character lone_surrogate : JsonError
  invalid_number number_too_long non_finite : JsonError
  unexpected_end unexpected_character too_deep expected_key duplicate_key expected_colon
        expected_comma :
      JsonError
  -- of the model: no rounds left
  out_of_rounds : JsonError

-- The double of a literal, or an infinity for an integer that is too long.
pub data Real : Type 0 where
  literal : Bytes → Real
  infinite : Bool → Real

pub record Number : Type 0 where
  pub integer : Bool
  pub negative : Bool
  pub magnitude : Option ℕ
  pub value : Real

unfoldable pub as_u64 : Number → Option ℕ
as_u64 n = if not n.integer then none else elim n.magnitude [
  | none ↦ none
  | some m ↦ if n.negative && not (m == 0) then none else some m
]

-- `0_i64.checked_sub_unsigned(m)`, and `i64::try_from(m)`
abbrev pub negated : ℕ → Option ℤ
negated zero = some (pos 0)
negated (suc m) = if ltb m (2 ^ 63) then some (negsuc m) else none

unfoldable pub as_i64 : Number → Option ℤ
as_i64 n = if not n.integer then none else elim n.magnitude [
  | none ↦ none
  | some m ↦ if n.negative then negated m else (if ltb m (2 ^ 63) then some (pos m) else none)
]

-- `char::to_digit(16)`
unfoldable pub digit_value : ℕ → Option ℕ
digit_value c =
    if is_ascii_digit c
    then some (c - b'0')
    else if within b'a' b'f' c
    then some (c - b'a' + 10)
    else if within b'A' b'F' c
    then some (c - b'A' + 10)
    else none

abbrev pub four_digits : Option ℕ → Option ℕ → Option ℕ → Option ℕ → Option ℕ
four_digits (some a) (some b) (some c) (some d) = some (((a * 16 + b) * 16 + c) * 16 + d)
four_digits _ _ _ _ = none

unfoldable pub hex4_value : Option ℕ → Bytes → Result JsonError (ℕ × Bytes)
hex4_value none rest = err invalid_escape
hex4_value (some v) rest = ok (v, rest)

unfoldable pub hex4 : Bytes → Result JsonError (ℕ × Bytes)
hex4 (a ∷ b ∷ c ∷ d ∷ rest) =
    hex4_value (four_digits (digit_value a) (digit_value b) (digit_value c) (digit_value d)) rest
hex4 _ = err truncated_escape

-- `char::encode_utf8`
unfoldable pub encode_utf8 : ℕ → Bytes
encode_utf8 cp =
    if ltb cp 0x80
    then cp ∷ []
    else if ltb cp 0x800
    then (0xc0 + cp / 64) ∷ (0x80 + cp % 64) ∷ []
    else if ltb cp 0x10000
    then (0xe0 + cp / 4096) ∷ (0x80 + cp / 64 % 64) ∷ (0x80 + cp % 64) ∷ []
    else (0xf0 + cp / 262144)
      ∷ (0x80 + cp / 4096 % 64)
      ∷ (0x80 + cp / 64 % 64)
      ∷ (0x80 + cp % 64)
      ∷ []

-- One round of the loop over a string: the text so far and the bytes that are left, or the end.
pub data Round : Type 0 where
  done : Bytes → Bytes → Round
  more : Bytes → Bytes → Round
  refused : JsonError → Round

unfoldable pub low_surrogate : Bytes → ℕ → Result JsonError (ℕ × Bytes) → Round
low_surrogate text cp (err e) = refused e
low_surrogate text cp (ok (low, rest)) =
    if within 0xdc00 0xdfff low
    then more (text ++ encode_utf8 (0x10000 + (cp - 0xd800) * 1024 + (low - 0xdc00))) rest
    else refused lone_surrogate

unfoldable pub high_surrogate : Bytes → ℕ → Option Bytes → Round
high_surrogate text cp none = refused lone_surrogate
high_surrogate text cp (some rest) = low_surrogate text cp (hex4 rest)

unfoldable pub unicode_escape : Bytes → Result JsonError (ℕ × Bytes) → Round
unicode_escape text (err e) = refused e
unicode_escape text (ok (cp, rest)) =
    if within 0xdc00 0xdfff cp
    then refused lone_surrogate
    else if within 0xd800 0xdbff cp
    then high_surrogate text cp (strip_prefix (codes "\\u") rest)
    else more (text ++ encode_utf8 cp) rest

abbrev pub simple_escape : ℕ → Option ℕ
simple_escape e =
    if (e == b'"') || ((e == b'\\') || (e == b'/'))
    then some e
    else if e == b'b'
    then some 0x08
    else if e == b'f'
    then some 0x0c
    else if e == b'n'
    then some 0x0a
    else if e == b'r'
    then some 0x0d
    else if e == b't'
    then some 0x09
    else none

unfoldable pub escape : Bytes → Bytes → Round
escape text [] = refused truncated_escape
escape text (e ∷ rest) =
    if e == b'u' then unicode_escape text (hex4 rest) else elim (simple_escape e) [
      | none ↦ refused invalid_escape
      | some c ↦ more (text ++ (c ∷ [])) rest
    ]

-- A run of plain bytes is as many rounds.
unfoldable pub string_round : Bytes → Bytes → Round
string_round text [] = refused unterminated_string
string_round text (c ∷ rest) =
    if c == b'"'
    then done text rest
    else if ltb c 0x20
    then refused control_character
    else if c == b'\\'
    then escape text rest
    else more (text ++ (c ∷ [])) rest

unfoldable pub after_round :
    (Bytes → Bytes → Result JsonError (Bytes × Bytes)) → Round → Result JsonError (Bytes × Bytes)
after_round loop (done text rest) = ok (text, rest)
after_round loop (more text rest) = loop text rest
after_round loop (refused e) = err e

unfoldable pub string_rounds : ℕ → Bytes → Bytes → Result JsonError (Bytes × Bytes)
string_rounds zero text rest = err out_of_rounds
string_rounds (suc rounds) text rest = after_round (string_rounds rounds) (string_round text rest)

-- A string's body, the opening quote consumed: a round takes a byte at least.
unfoldable pub string_body : Bytes → Result JsonError (Bytes × Bytes)
string_body rest = string_rounds (suc (length rest)) [] rest

-- `digits`: the run and what is left.
unfoldable pub digit_run : Bytes → Bytes × Bytes
digit_run [] = ([], [])
digit_run (c ∷ cs) =
    let (run, rest) = digit_run cs in if is_ascii_digit c then (c ∷ run, rest) else ([], c ∷ cs)

abbrev pub starts_digit : Bytes → Bool
starts_digit [] = false
starts_digit (c ∷ cs) = is_ascii_digit c

-- The digits before the point.
unfoldable pub integer_part : Bytes → Option (Bytes × Bytes)
integer_part [] = none
integer_part (c ∷ cs) =
    if c == b'0'
    then (if starts_digit cs then none else some (c ∷ [], cs))
    else if is_ascii_digit c
    then (let (run, rest) = digit_run cs in some (c ∷ run, rest))
    else none

-- A run that may not be empty: whether there was a part, and what is left.
abbrev pub some_digits : Bytes × Bytes → Option (Bool × Bytes)
some_digits ([], rest) = none
some_digits (d ∷ ds, rest) = some (true, rest)

unfoldable pub fraction_part : Bytes → Option (Bool × Bytes)
fraction_part [] = some (false, [])
fraction_part (c ∷ cs) = if c == b'.' then some_digits (digit_run cs) else some (false, c ∷ cs)

abbrev pub unsigned : Bytes → Bytes
unsigned [] = []
unsigned (c ∷ cs) = if (c == b'+') || (c == b'-') then cs else c ∷ cs

unfoldable pub exponent_part : Bytes → Option (Bool × Bytes)
exponent_part [] = some (false, [])
exponent_part (c ∷ cs) =
    if (c == b'e') || (c == b'E')
    then some_digits (digit_run (unsigned cs))
    else some (false, c ∷ cs)

-- The checked fold over the digits.
unfoldable pub magnitude_from : ℕ → Bytes → Option ℕ
magnitude_from m [] = some m
magnitude_from m (d ∷ ds) = elim (checked64 (m * 10)) [
  | none ↦ none
  | some tens ↦ elim (checked64 (tens + (d - b'0'))) [ none ↦ none | some v ↦ magnitude_from v ds ]
]

abbrev pub hex_digit : ℕ → ℕ
hex_digit n = get_or (codes "0123456789abcdef") n 0

-- What `write_string` writes for a byte.
unfoldable pub written : ℕ → Bytes
written b =
    if b == b'"'
    then codes "\\\""
    else if b == b'\\'
    then codes "\\\\"
    else if b == 0x08
    then codes "\\b"
    else if b == 0x0c
    then codes "\\f"
    else if b == 0x0a
    then codes "\\n"
    else if b == 0x0d
    then codes "\\r"
    else if b == 0x09
    then codes "\\t"
    else if ltb b 0x20
    then codes "\\u00" ++ (hex_digit (b / 16) ∷ hex_digit (b % 16) ∷ [])
    else b ∷ []

unfoldable pub escaped : Bytes → Bytes
escaped [] = []
escaped (b ∷ bs) = written b ++ escaped bs

unfoldable pub write_string : Bytes → Bytes → Bytes
write_string out s = out ++ (b'"' ∷ (escaped s ++ (b'"' ∷ [])))

module _ (is_finite : Bytes → Bool) where
  -- From the digits on: the literal and its parts.
  unfoldable pub finished : Bytes → Bool → Bool → Bytes → Bytes → Result JsonError (Number × Bytes)
  finished text negative integer digits rest =
      let magnitude = if integer then magnitude_from 0 digits else none in
      if leb 64 (length text)
      then (if integer
          then ok (
            record {
              integer = integer;
              negative = negative;
              magnitude = none;
              value = infinite negative;
            },
            rest,
          )
          else err number_too_long)
      else if not (is_finite text) && not integer
      then err non_finite
      else ok (
        record {
          integer = integer;
          negative = negative;
          magnitude = magnitude;
          value = literal text;
        },
        rest,
      )

  unfoldable pub after_integer :
      Bytes → Bool → Option (Bytes × Bytes) → Result JsonError (Number × Bytes)
  after_integer s negative none = err invalid_number
  after_integer s negative (some (digits, rest)) = elim (fraction_part rest) [
    | none ↦ err invalid_number
    | some (point, rest1) ↦ elim (exponent_part rest1) [
      | none ↦ err invalid_number
      | some (power, rest2) ↦
          finished (take (length s - length rest2) s) negative (not point && not power) digits rest2
    ]
  ]

  unfoldable pub number : Bytes → Result JsonError (Number × Bytes)
  number [] = err invalid_number
  number (c ∷ cs) =
      if c == b'-'
      then after_integer (c ∷ cs) true (integer_part cs)
      else after_integer (c ∷ cs) false (integer_part (c ∷ cs))
