-- ===== src/Json/Tests.antt =====
-- Tests of strings and numbers.
use rpi_omt_client.Prelude.{
  ◌≡◌, refl, ◌^◌, ◌∷◌, true, none, some, [], ◌++◌, codes, ok, err, negsuc, arith, if◌then◌else◌,
  ltb, strip_prefix,
}
use rpi_omt_client.Decimal.Strict.{value_from}
use rpi_omt_client.Json.{
  string_body, string_rounds, string_round, after_round, escape, unicode_escape, high_surrogate,
  low_surrogate, hex4, hex4_value, digit_value, encode_utf8, lone_surrogate, written, escaped,
  write_string, magnitude_from, number, after_integer, finished, integer_part, fraction_part,
  exponent_part, digit_run, as_u64, as_i64, literal, invalid_number,
}
use rpi_omt_client.Json.Strings.{string_body-escaped}
use rpi_omt_client.Json.Numbers.{magnitude_from-value_from}

reads_pair : string_body (codes "\\ud83d\\ude00\"") ≡ ok (0xf0 ∷ 0x9f ∷ 0x98 ∷ 0x80 ∷ [], [])
unfolding string_body string_rounds string_round after_round escape unicode_escape high_surrogate
    low_surrogate hex4 hex4_value digit_value encode_utf8 strip_prefix
reads_pair = refl

refuses_lone : string_body (codes "\\ud800\"") ≡ err lone_surrogate
unfolding string_body string_rounds string_round after_round escape unicode_escape high_surrogate
    low_surrogate hex4 hex4_value digit_value encode_utf8 strip_prefix
refuses_lone = refl

writes_escapes : write_string [] (b'a' ∷ 1 ∷ b'"' ∷ []) ≡ codes "\"a\\u0001\\\"\""
unfolding write_string escaped written
writes_escapes = refl

reads_minus :
    number (λ s. true) (codes "-12,")
    ≡ ok (
      record {
        integer = true;
        negative = true;
        magnitude = some 12;
        value = literal (codes "-12");
      },
      codes ",",
    )
unfolding number after_integer finished integer_part fraction_part exponent_part digit_run
    magnitude_from
reads_minus = refl

refuses_leading_zero : number (λ s. true) (codes "01") ≡ err invalid_number
unfolding number after_integer finished integer_part fraction_part exponent_part digit_run
    magnitude_from
refuses_leading_zero = refl

gives_minus :
    as_i64 (record { integer = true; negative = true; magnitude = some 12; value = literal [] })
    ≡ some (negsuc 11)
unfolding as_i64
gives_minus = refl

refuses_minus :
    as_u64 (record { integer = true; negative = true; magnitude = some 12; value = literal [] })
    ≡ none
unfolding as_u64
refuses_minus = refl

string_body-escaped_example :
    string_body (escaped (b'a' ∷ 1 ∷ b'"' ∷ []) ++ (b'"' ∷ codes ","))
    ≡ ok (b'a' ∷ 1 ∷ b'"' ∷ [], codes ",")
string_body-escaped_example = string_body-escaped (b'a' ∷ 1 ∷ b'"' ∷ []) (codes ",")

magnitude_from-value_from_example : magnitude_from 0 (codes "120") ≡ (
    if ltb (value_from 0 (codes "120")) (2 ^ 64) then some (value_from 0 (codes "120")) else none)
magnitude_from-value_from_example = magnitude_from-value_from (codes "120") 0 (omega arith)
