-- ===== src/Wire/Base64.antt =====
-- base64 of crates/omt-deploy/src/ssh/wire.rs.
use rpi_omt_client.Prelude.{
  ℕ, ◌+◌, ◌-◌, ◌*◌, ◌/◌, ◌%◌, ◌^◌, Bool, ◌&&◌, ◌||◌, Option, none, some, [], ◌∷◌, ◌++◌, ltb, leb,
  ◌==◌, within, if◌then◌else◌, Bytes,
}

unfoldable pub b64_value : ℕ → Option ℕ
b64_value c =
    if within b'A' b'Z' c
    then some (c - b'A')
    else if within b'a' b'z' c
    then some (c - b'a' + 26)
    else if within b'0' b'9' c
    then some (c - b'0' + 52)
    else if c == b'+'
    then some 62
    else if c == b'/'
    then some 63
    else none

-- The bits that are kept until they make a byte, and what was seen of the text.
pub record Base64 : Type 0 where
  pub out : Bytes
  pub acc : ℕ
  pub bits : ℕ
  pub pad : ℕ
  pub symbols : ℕ

abbrev pub start : Base64
start = record { out = []; acc = 0; bits = 0; pad = 0; symbols = 0 }

-- `acc << 6 | v` with `v` below 64, and the whole byte taken off; shifts and masks are divisions.
unfoldable pub with_value : Base64 → ℕ → Base64
with_value b v =
    let acc = b.acc * 64 + v in
    let bits = b.bits + 6 in
    if leb 8 bits
    then record b {
      out = b.out ++ ((acc / 2 ^ (bits - 8) % 256) ∷ []);
      acc = acc % 2 ^ (bits - 8);
      bits = bits - 8;
      symbols = b.symbols + 1;
    }
    else record b { acc = acc; bits = bits; symbols = b.symbols + 1 }

abbrev pub padded : Base64 → Base64
padded b = record b { pad = b.pad + 1; symbols = b.symbols + 1 }

unfoldable pub symbol : Base64 → Option ℕ → Option Base64
symbol b none = none
symbol b (some v) = if ltb 0 b.pad then none else some (with_value b v)

abbrev pub is_skipped : Bool → ℕ → Bool
is_skipped skip_space c =
    skip_space && ((c == 0x20) || ((c == 0x09) || ((c == 0x0d) || (c == 0x0a))))

unfoldable pub decoded : Base64 → Option Bytes
decoded b = if leb b.pad 2 && ((b.symbols % 4 == 0) && (b.acc == 0)) then some b.out else none

-- One round of the loop: what it keeps, or nothing for a byte that is refused.
unfoldable pub symbol_round : Bool → Base64 → ℕ → Option Base64
symbol_round skip_space b c =
    if is_skipped skip_space c
    then some b
    else if c == b'='
    then some (padded b)
    else symbol b (b64_value c)

unfoldable pub after_symbol : (Base64 → Option Bytes) → Option Base64 → Option Bytes
after_symbol loop none = none
after_symbol loop (some b) = loop b

unfoldable pub decode_from : Bool → Bytes → Base64 → Option Bytes
decode_from skip_space [] b = decoded b
decode_from skip_space (c ∷ cs) b =
    after_symbol (decode_from skip_space cs) (symbol_round skip_space b c)

unfoldable pub base64_decode : Bytes → Bool → Option Bytes
base64_decode text skip_space = decode_from skip_space text start
