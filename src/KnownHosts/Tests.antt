-- ===== src/KnownHosts/Tests.antt =====
-- Tests of the known_hosts reader.
use rpi_omt_client.Prelude.{
  ◌≡◌, refl, true, false, not, ◌&&◌, none, some, ◌++◌, codes, Bytes, any, strip_prefix, equal,
  has_byte,
}
use rpi_omt_client.Decimal.{decimal}
use rpi_omt_client.Json.{encode_utf8}
use rpi_omt_client.Wire.{split_on, string}
use rpi_omt_client.Wire.Base64.{
  base64_decode, decode_from, symbol_round, after_symbol, symbol, with_value, b64_value, decoded,
}
use rpi_omt_client.KnownHosts.{
  known, unknown, revoked, glob, glob_rounds, move, moved, backtrack, only_stars, patterns_match,
  one_pattern, hosts_match, pieces, starts_with, lookup_name, lowered, split_blank, strip_return,
  line_of, revoked_line, keyed, after_lines, after_line, read_lines, parse, status, blob_type,
}
use rpi_omt_client.KnownHosts.Verdict.{
  reading, revokes_key, trusts_key, has_type, verdict, parse-verdict,
}
use rpi_omt_client.KnownHosts.Hosts.{excludes, includes, hosts_match-matches}

decodes_padded : base64_decode (codes "aGk=") false ≡ some (codes "hi")
unfolding base64_decode decode_from symbol_round after_symbol symbol with_value b64_value decoded
decodes_padded = refl

refuses_leftover_bits : base64_decode (codes "aGl=") false ≡ none
unfolding base64_decode decode_from symbol_round after_symbol symbol with_value b64_value decoded
refuses_leftover_bits = refl

goes_back : glob (codes "aabac") (codes "*A?A?") ≡ true
unfolding glob glob_rounds move moved backtrack only_stars
goes_back = refl

-- A star of the text takes a star of the pattern for itself.
misses_star : glob (codes "*a") (codes "*") ≡ false
unfolding glob glob_rounds move moved backtrack only_stars
misses_star = refl

-- A line with two bytes of a key, and the key.
abbrev trusted : Bytes
trusted = codes "pi.local,!x* ssh-rsa aGk="

reads_known :
    parse (λ s n. none) (λ s. s) trusted (codes "Pi.Local") 22 (codes "hi") none ≡ (known, none)
unfolding base64_decode decode_from symbol_round after_symbol symbol with_value b64_value decoded
    glob glob_rounds move moved backtrack only_stars patterns_match one_pattern hosts_match
    lookup_name lowered encode_utf8 split_blank strip_return line_of revoked_line keyed after_lines
    after_line read_lines parse status blob_type string split_on strip_prefix equal
reads_known = refl

reads_unknown :
    parse (λ s n. none) (λ s. s) trusted (codes "other") 22 (codes "hi") none ≡ (unknown, none)
unfolding base64_decode decode_from symbol_round after_symbol symbol with_value b64_value decoded
    glob glob_rounds move moved backtrack only_stars patterns_match one_pattern hosts_match
    lookup_name lowered encode_utf8 split_blank strip_return line_of revoked_line keyed after_lines
    after_line read_lines parse status blob_type string split_on strip_prefix equal
reads_unknown = refl

reads_revoked :
    parse
      (λ s n. none)
      (λ s. s)
      (trusted ++ codes "\n@revoked z k aGk=\r\n")
      (codes "pi.local")
      22
      (codes "hi")
      none
    ≡ (revoked, none)
unfolding base64_decode decode_from symbol_round after_symbol symbol with_value b64_value decoded
    glob glob_rounds move moved backtrack only_stars patterns_match one_pattern hosts_match
    lookup_name lowered encode_utf8 split_blank strip_return line_of revoked_line keyed after_lines
    after_line read_lines parse status blob_type string split_on strip_prefix equal
reads_revoked = refl

names_port : lookup_name (codes "Pi") 2222 ≡ codes "[pi]:2222"
unfolding lookup_name lowered encode_utf8 decimal
names_port = refl

plain_bar : starts_with b'|' (codes "*.local,!pi*") ≡ false
plain_bar = refl

plain_name : has_byte b'*' (codes "a.local") ≡ false
unfolding has_byte
plain_name = refl

hosts_match-matches_example : hosts_match (λ s n. none) (codes "*.local,!pi*") (codes "a.local") ≡ (
    not (any (excludes (codes "a.local")) (pieces (split_on b',' (codes "*.local,!pi*"))))
    && any (includes (codes "a.local")) (pieces (split_on b',' (codes "*.local,!pi*"))))
hosts_match-matches_example =
    hosts_match-matches (λ s n. none) (codes "*.local,!pi*") (codes "a.local") plain_bar plain_name

-- A file that trusts a key and then revokes it.
abbrev distrusted : Bytes
distrusted = trusted ++ codes "\n@revoked z k aGk=\r\n"

parse-verdict_example :
    (parse (λ s n. none) (λ s. s) distrusted (codes "pi.local") 22 (codes "hi") none).0
    ≡ verdict
        (any (λ l. revokes_key (codes "hi") (reading l)) (pieces (split_on 0x0a distrusted)))
        (any
          (λ l.
            trusts_key (λ s n. none) (lookup_name (codes "pi.local") 22) (codes "hi") (reading l))
          (pieces (split_on 0x0a distrusted)))
        (any
          (λ l. has_type (λ s n. none) (lookup_name (codes "pi.local") 22) (codes "hi") (reading l))
          (pieces (split_on 0x0a distrusted)))
parse-verdict_example =
    parse-verdict (λ s n. none) (λ s. s) distrusted (codes "pi.local") 22 (codes "hi") none
