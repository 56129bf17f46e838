-- ===== src/Target.antt =====
-- What a receiver may be pointed at, crates/omt-protocol/src/lib.rs: direct targets `omt://host:port`
-- and source names. A text is its bytes, or its characters where the code asks for these.
-- Parameters: the address parsers of the standard library, its white space, the normal form NFC of
-- crates/omt-common/src/nfc.rs, whose tables are generated, and the characters of a text in UTF-8.
pub mod Dialable
pub mod Names
mod Tests
use rpi_omt_client.Prelude.{
  ℕ, zero, suc, ◌+◌, ◌-◌, ◌*◌, ◌/◌, bit_and, Bool, true, false, not, ◌&&◌, ◌||◌, Option, none, some,
  List, [], ◌∷◌, String, ltb, leb, ◌==◌, within, if◌then◌else◌, length, any, all, take, drop, Bytes,
  codes, Result, ok, err, strip_prefix, split_once_two, rsplit_once, has_byte,
}
use rpi_omt_client.Decimal.{is_ascii_digit, parse_u64}
use rpi_omt_client.Wire.{split_on}
use rpi_omt_client.Protocol.{ProtoError, invalid}
use rpi_omt_client.Protocol

abbrev pub source_name_max_bytes : ℕ
source_name_max_bytes = 63

abbrev pub target_max_bytes : ℕ
target_max_bytes = 512

abbrev pub host_max_bytes : ℕ
host_max_bytes = 256

pub record DirectTarget : Type 0 where
  pub host : Bytes
  pub port : ℕ

abbrev pub is_alphanumeric : ℕ → Bool
is_alphanumeric c = is_ascii_digit c || (within b'A' b'Z' c || within b'a' b'z' c)

abbrev pub last_is : ℕ → Bytes → Bool
last_is b [] = false
last_is b (c ∷ []) = c == b
last_is b (c ∷ d ∷ rest) = last_is b (d ∷ rest)

abbrev pub first_is : ℕ → Bytes → Bool
first_is b [] = false
first_is b (c ∷ rest) = c == b

pub valid_label : Bytes → Bool
valid_label label =
    ltb 0 (length label)
    && (leb (length label) 63
        && (not (first_is b'-' label)
            && (not (last_is b'-' label) && all (λ c. is_alphanumeric c || (c == b'-')) label)))

unfoldable pub valid_dns : Bytes → Bool
unfolding valid_label split_on
valid_dns host =
    if (length host == 0) || ltb 253 (length host)
    then false
    else let (label, labels) = split_on b'.' host in valid_label label && all valid_label labels

-- `std::net`: four octets, and eight segments of 16 bits.
pub record Ipv4Addr : Type 0 where
  pub octet_a : ℕ
  pub octet_b : ℕ
  pub octet_c : ℕ
  pub octet_d : ℕ

pub is_undiallable_ipv4 : Ipv4Addr → Bool
is_undiallable_ipv4 a =
    ((a.octet_a == 0) && ((a.octet_b == 0) && ((a.octet_c == 0) && (a.octet_d == 0))))
    || (within 224 239 a.octet_a
        || ((a.octet_a == 255)
            && ((a.octet_b == 255) && ((a.octet_c == 255) && (a.octet_d == 255)))))

pub record Ipv6Addr : Type 0 where
  pub segment : ℕ
  pub segments : List ℕ

pub is_undiallable_ipv6 : Ipv6Addr → Bool
is_undiallable_ipv6 a =
    ((a.segment == 0) && all (λ s. s == 0) a.segments)
    || ((bit_and a.segment 0xff00 == 0xff00) || (bit_and a.segment 0xffc0 == 0xfe80))

abbrev pub refuse : {A : Type 0} → String → Result ProtoError A
refuse detail = Protocol.fail invalid detail

abbrev pub is_unsafe : ℕ → Bool
is_unsafe b =
    ((b == b'/') || ((b == b'?') || ((b == b'#') || (b == b'@')))) || (leb b 31 || (b == 127))

-- Host, port, and whether the host stood in brackets.
pub record Authority : Type 0 where
  pub name : Bytes
  pub port_text : Bytes
  pub bracketed : Bool

unfoldable pub bracketed_authority : Option (Bytes × Bytes) → Result ProtoError Authority
bracketed_authority none = refuse "IPv6 target"
bracketed_authority (some (host, port)) =
    if has_byte b':' port
    then refuse "IPv6 target"
    else ok (record { name = host; port_text = port; bracketed = true })

unfoldable pub plain_authority : Option (Bytes × Bytes) → Result ProtoError Authority
plain_authority none = refuse "OMT target port"
plain_authority (some (host, port)) =
    if has_byte b':' host
    then refuse "IPv6 brackets"
    else ok (record { name = host; port_text = port; bracketed = false })

unfoldable pub authority : Bytes → Result ProtoError Authority
authority auth = elim (strip_prefix (codes "[") auth) [
  | some rest ↦ bracketed_authority (split_once_two b']' b':' rest)
  | none ↦ plain_authority (rsplit_once b':' auth)
]

abbrev pub target : Bytes → ℕ → Result ProtoError DirectTarget
target host port =
    if leb host_max_bytes (length host)
    then refuse "OMT target host"
    else ok (record { host = host; port = port })

module _ (parse_ipv4 : Bytes → Option Ipv4Addr) (parse_ipv6 : Bytes → Option Ipv6Addr) where
  pub bracketed_host : Bytes → ℕ → Result ProtoError DirectTarget
  bracketed_host host port = elim (parse_ipv6 host) [
    | none ↦ refuse "IPv6 target"
    | some a ↦
        if not (has_byte b'%' host) && not (is_undiallable_ipv6 a)
        then target host port
        else refuse "IPv6 target"
  ]

  pub plain_host : Bytes → ℕ → Result ProtoError DirectTarget
  plain_host host port =
      if (length host == 0) || leb host_max_bytes (length host)
      then refuse "OMT target host"
      else elim (parse_ipv4 host) [
        | none ↦ if valid_dns host then target host port else refuse "OMT target host"
        | some a ↦ if is_undiallable_ipv4 a then refuse "OMT target host" else target host port
      ]

  pub with_port : Authority → Option ℕ → Result ProtoError DirectTarget
  with_port a none = refuse "OMT target port"
  with_port a (some port) =
      if port == 0
      then refuse "OMT target port"
      else if a.bracketed
      then bracketed_host a.name port
      else plain_host a.name port

  pub with_authority : Result ProtoError Authority → Result ProtoError DirectTarget
  with_authority (err e) = err e
  with_authority (ok a) = with_port a (parse_u64 a.port_text 65535)

  pub parse_direct_target : Bytes → Result ProtoError DirectTarget
  parse_direct_target value =
      if ltb target_max_bytes (length value)
      then refuse "OMT direct target"
      else elim (strip_prefix (codes "omt://") value) [
        | none ↦ refuse "OMT direct target"
        | some auth ↦
            if any is_unsafe auth
            then refuse "OMT direct target"
            else with_authority (authority auth)
      ]

-- Cc, Cf, Cs, Zl and Zp, as sorted, inclusive ranges.
abbrev pub forbidden_name_ranges : List (ℕ × ℕ)
forbidden_name_ranges =
    (0x0, 0x1f)
    ∷ (0x7f, 0x9f)
    ∷ (0xad, 0xad)
    ∷ (0x600, 0x605)
    ∷ (0x61c, 0x61c)
    ∷ (0x6dd, 0x6dd)
    ∷ (0x70f, 0x70f)
    ∷ (0x890, 0x891)
    ∷ (0x8e2, 0x8e2)
    ∷ (0x180e, 0x180e)
    ∷ (0x200b, 0x200f)
    ∷ (0x2028, 0x202e)
    ∷ (0x2060, 0x2064)
    ∷ (0x2066, 0x206f)
    ∷ (0xd800, 0xdfff)
    ∷ (0xfeff, 0xfeff)
    ∷ (0xfff9, 0xfffb)
    ∷ (0x110bd, 0x110bd)
    ∷ (0x110cd, 0x110cd)
    ∷ (0x13430, 0x1343f)
    ∷ (0x1bca0, 0x1bca3)
    ∷ (0x1d173, 0x1d17a)
    ∷ (0xe0001, 0xe0001)
    ∷ (0xe0020, 0xe007f)
    ∷ []

-- `binary_search_by` of a slice: the range in the middle decides which half is searched on. A size
-- below 32 is halved five times at most.
pub at_middle : (List (ℕ × ℕ) → ℕ → Bool) → List (ℕ × ℕ) → List (ℕ × ℕ) → ℕ → Bool
at_middle search left [] cp = false
at_middle search left ((low, high) ∷ right) cp =
    if ltb high cp then search right cp else if ltb cp low then search left cp else true

pub search_ranges : ℕ → List (ℕ × ℕ) → ℕ → Bool
search_ranges zero ranges cp = false
search_ranges (suc rounds) ranges cp =
    let half = length ranges / 2 in
    at_middle (search_ranges rounds) (take half ranges) (drop half ranges) cp

unfoldable pub is_forbidden_name_char : ℕ → Bool
unfolding search_ranges at_middle
is_forbidden_name_char cp = search_ranges 5 forbidden_name_ranges cp

module _ (is_normalized : Bytes → ℕ → Bool) (is_whitespace : ℕ → Bool)
    (chars : Bytes → Option Bytes) where
  abbrev pub last_or : Bytes → ℕ → ℕ
  last_or [] d = d
  last_or (c ∷ cs) d = last_or cs c

  -- On a text and its characters, with their ends not white space.
  pub is_valid_source_name : Bytes → Bytes → Bool
  is_valid_source_name value characters =
      if (length value == 0) || ltb source_name_max_bytes (length value)
      then false
      else if not (is_normalized value source_name_max_bytes)
      then false
      else if any is_forbidden_name_char characters
      then false
      else elim characters [
        | [] ↦ true
        | c ∷ cs ↦ not (is_whitespace c) && not (is_whitespace (last_or cs c))
      ]

  pub is_valid_source_name_bytes : Bytes → Bool
  is_valid_source_name_bytes value = elim (chars value) [
    | none ↦ false
    | some characters ↦ is_valid_source_name value characters
  ]
