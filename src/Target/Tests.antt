-- ===== src/Target/Tests.antt =====
-- Runs of the target grammar of crates/omt-protocol/src/lib.rs, and its theorems at concrete inputs.
use rpi_omt_client.Prelude.{
  ℕ, ◌≡◌, refl, Bool, true, false, Option, none, some, [], ◌∷◌, Bytes, codes, ok, strip_prefix,
  split_once_two, rsplit_once, has_byte, any, ◌==◌,
}
use rpi_omt_client.Decimal.{parse_u64}
use rpi_omt_client.Target.{
  DirectTarget, Ipv4Addr, Ipv6Addr, parse_direct_target, with_authority, with_port, plain_host,
  bracketed_host, authority, plain_authority, bracketed_authority, valid_dns, is_undiallable_ipv4,
  is_undiallable_ipv6, is_forbidden_name_char, forbidden_name_ranges, is_valid_source_name,
  is_valid_source_name_bytes, refuse,
}
use rpi_omt_client.Target.Dialable.{IsDialable, parse_direct_target-IsDialable}
use rpi_omt_client.Target.Names.{in_range, is_forbidden_name_char-any}

-- Address parsers that know one literal each.
abbrev knows_any_address : Bytes → Option Ipv4Addr
knows_any_address host = elim host [
  | [] ↦ none
  | c ∷ rest ↦ elim (c == b'0') [
    | true ↦ some (record { octet_a = 0; octet_b = 0; octet_c = 0; octet_d = 0 })
    | false ↦ none
  ]
]

abbrev knows_no_address : Bytes → Option Ipv6Addr
knows_no_address host = none

abbrev knows_loopback : Bytes → Option Ipv6Addr
knows_loopback host = some (record { segment = 0; segments = 0 ∷ 0 ∷ 0 ∷ 0 ∷ 0 ∷ 0 ∷ 1 ∷ [] })

abbrev studio : DirectTarget
studio = record { host = codes "studio.local"; port = 6400 }

accepts_a_name :
    parse_direct_target knows_any_address knows_no_address (codes "omt://studio.local:6400")
    ≡ ok studio
unfolding parse_direct_target with_authority with_port plain_host authority plain_authority
    strip_prefix rsplit_once has_byte parse_u64 valid_dns
accepts_a_name = refl

accepts_brackets :
    parse_direct_target knows_any_address knows_loopback (codes "omt://[::1]:6400")
    ≡ ok (record { host = codes "::1"; port = 6400 })
unfolding parse_direct_target with_authority with_port bracketed_host authority bracketed_authority
    strip_prefix split_once_two has_byte parse_u64 is_undiallable_ipv6
accepts_brackets = refl

refuses_the_unspecified :
    parse_direct_target knows_any_address knows_no_address (codes "omt://0.0.0.0:6400")
    ≡ refuse "OMT target host"
unfolding parse_direct_target with_authority with_port plain_host authority plain_authority
    strip_prefix rsplit_once has_byte parse_u64 is_undiallable_ipv4
refuses_the_unspecified = refl

refuses_port_zero :
    parse_direct_target knows_any_address knows_no_address (codes "omt://studio:0")
    ≡ refuse "OMT target port"
unfolding parse_direct_target with_authority with_port authority plain_authority strip_prefix
    rsplit_once has_byte parse_u64
refuses_port_zero = refl

parse_direct_target-IsDialable_example : IsDialable knows_any_address knows_no_address studio
parse_direct_target-IsDialable_example =
    parse_direct_target-IsDialable knows_any_address knows_no_address
      (codes "omt://studio.local:6400") studio accepts_a_name

is_forbidden_name_char-any_example :
    is_forbidden_name_char 0xad ≡ any (in_range 0xad) forbidden_name_ranges
is_forbidden_name_char-any_example = is_forbidden_name_char-any 0xad

abbrev always_normal : Bytes → ℕ → Bool
always_normal value limit = true

abbrev blank : ℕ → Bool
blank c = c == 32

-- A text in ASCII.
abbrev ascii : Bytes → Option Bytes
ascii value = some value

accepts_a_source :
    is_valid_source_name_bytes always_normal blank ascii (codes "HOST (Camera 1)") ≡ true
unfolding is_valid_source_name_bytes is_valid_source_name is_forbidden_name_char
accepts_a_source = refl

refuses_white_space : is_valid_source_name_bytes always_normal blank ascii (codes "Camera ") ≡ false
unfolding is_valid_source_name_bytes is_valid_source_name is_forbidden_name_char
refuses_white_space = refl
