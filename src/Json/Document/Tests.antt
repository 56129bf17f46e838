-- ===== src/Json/Document/Tests.antt =====
-- Tests of whole documents.
use rpi_omt_client.Prelude.{
  ◌≡◌, ◌≢◌, refl, true, false, none, some, [], ◌∷◌, codes, Bytes, ok, err, strip_prefix, equal,
  has_byte,
}
use rpi_omt_client.Json.{
  duplicate_key, trailing_characters, expected_comma, too_large, out_of_rounds, string_body,
  string_rounds, string_round, after_round, escape, digit_run, integer_part, fraction_part,
  exponent_part, magnitude_from, number, after_integer, finished,
}
use rpi_omt_client.Json.Document.{
  Value, null, bool, str, array, object, no_items, item, no_members, member, get, get_member,
  all_keys, only_keys, as_str, charge, skip_spaces, literal_word, entered, separated, string,
  after_key, unseen_key, object_key, number_value, by_kind, value_at, after_item, after_member,
  array_at, object_at, value, whole, parse_with_budget, parse,
}
use rpi_omt_client.Json.Document.Rounds.{parse_ends}
use rpi_omt_client.Json.Document.Keys.{distinct, parse-distinct}

abbrev small : Bytes
small = codes "{\"a\":[true,null], \"b\":\"x\"}"

abbrev small_value : Value
small_value = object (
    member (codes "a") (array (item (bool true) (item null no_items)))
      (member (codes "b") (str (codes "x")) no_members))

reads_two_members : parse (λ s. true) (λ s. true) small ≡ ok small_value
unfolding string_body string_rounds string_round after_round escape digit_run integer_part
    fraction_part exponent_part magnitude_from number after_integer finished charge skip_spaces
    literal_word entered separated string after_key unseen_key object_key number_value by_kind
    value_at after_item after_member array_at object_at value whole parse_with_budget parse
    strip_prefix equal
reads_two_members = refl

refuses_twice : parse (λ s. true) (λ s. true) (codes "{\"a\":1,\"a\":1}") ≡ err duplicate_key
unfolding string_body string_rounds string_round after_round escape digit_run integer_part
    fraction_part exponent_part magnitude_from number after_integer finished charge skip_spaces
    literal_word entered separated string after_key unseen_key object_key number_value by_kind
    value_at after_item after_member array_at object_at value whole parse_with_budget parse
    strip_prefix equal
refuses_twice = refl

refuses_trailing : parse (λ s. true) (λ s. true) (codes "true false") ≡ err trailing_characters
unfolding string_body string_rounds string_round after_round escape digit_run integer_part
    fraction_part exponent_part magnitude_from number after_integer finished charge skip_spaces
    literal_word entered separated string after_key unseen_key object_key number_value by_kind
    value_at after_item after_member array_at object_at value whole parse_with_budget parse
    strip_prefix equal
refuses_trailing = refl

refuses_unseparated : parse (λ s. true) (λ s. true) (codes "[1 2]") ≡ err expected_comma
unfolding string_body string_rounds string_round after_round escape digit_run integer_part
    fraction_part exponent_part magnitude_from number after_integer finished charge skip_spaces
    literal_word entered separated string after_key unseen_key object_key number_value by_kind
    value_at after_item after_member array_at object_at value whole parse_with_budget parse
    strip_prefix equal
refuses_unseparated = refl

refuses_over_budget : parse_with_budget (λ s. true) (λ s. true) (codes "true") 79 ≡ err too_large
unfolding string_body string_rounds string_round after_round escape digit_run integer_part
    fraction_part exponent_part magnitude_from number after_integer finished charge skip_spaces
    literal_word entered separated string after_key unseen_key object_key number_value by_kind
    value_at after_item after_member array_at object_at value whole parse_with_budget parse
    strip_prefix equal
refuses_over_budget = refl

finds_b : get small_value (codes "b") ≡ some (str (codes "x"))
unfolding get_member equal
finds_b = refl

allows_both : only_keys small_value (codes "a" ∷ codes "b" ∷ []) ≡ true
unfolding all_keys equal
allows_both = refl

refuses_fewer : only_keys small_value (codes "a" ∷ []) ≡ false
unfolding all_keys equal
refuses_fewer = refl

refuses_nul : as_str (str (b'a' ∷ 0 ∷ [])) ≡ none
unfolding has_byte
refuses_nul = refl

parse-distinct_example : distinct small_value ≡ true
parse-distinct_example = parse-distinct (λ s. true) (λ s. true) small small_value reads_two_members

parse_ends_example : parse (λ s. true) (λ s. true) (codes "[[") ≢ err out_of_rounds
parse_ends_example = parse_ends (λ s. true) (λ s. true) (codes "[[")
