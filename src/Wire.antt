-- ===== src/Wire.antt =====
-- The SSH data types of crates/omt-deploy/src/ssh/wire.rs (RFC 4251 section 5). The big numbers
-- `put_bn` and `bn` go through OpenSSL and are left out.
pub mod RoundTrip
pub mod Base64
mod Tests
use rpi_omt_client.Prelude.{
  ℕ, ◌+◌, ◌-◌, ◌*◌, ◌/◌, ◌%◌, ◌^◌, bit_and, Bool, true, false, not, ◌&&◌, ◌||◌, Option, none, some,
  List, [], ◌∷◌, ◌++◌, ltb, leb, ◌==◌, if◌then◌else◌, length, take, any, equal, Bytes, be32_bytes,
}
use rpi_omt_client.Cursor.{Read, pure, ◌>>=◌, take_bytes, u8, be32_read, be64_read}

-- `u32::try_from(n).unwrap_or(u32::MAX)`
abbrev pub saturate32 : ℕ → ℕ
saturate32 n = if ltb n (2 ^ 32) then n else 2 ^ 32 - 1

pub put_u8 : Bytes → ℕ → Bytes
put_u8 out v = out ++ (v ∷ [])

pub put_bool : Bytes → Bool → Bytes
put_bool out v = out ++ ((if v then 1 else 0) ∷ [])

unfoldable pub put_u32 : Bytes → ℕ → Bytes
put_u32 out v = out ++ be32_bytes v

pub put_u64 : Bytes → ℕ → Bytes
put_u64 out v = out ++ (be32_bytes (v / 2 ^ 32) ++ be32_bytes (v % 2 ^ 32))

unfoldable pub put_string : Bytes → Bytes → Bytes
unfolding put_u32
put_string out bytes = put_u32 out (saturate32 (length bytes)) ++ bytes

-- From the first byte that is not zero on.
pub trim_zeros : Bytes → Bytes
trim_zeros [] = []
trim_zeros (b ∷ bs) = let rest = trim_zeros bs in if b == 0 then rest else b ∷ bs

-- `first().is_some_and(|&b| b & 0x80 != 0)`
pub top_bit_set : Bytes → Bool
top_bit_set [] = false
top_bit_set (b ∷ bs) = not (bit_and b 0x80 == 0)

put_magnitude : Bytes → Bytes → Bytes
unfolding put_u32 top_bit_set
put_magnitude out be =
    if top_bit_set be
    then put_u32 out (saturate32 (length be + 1)) ++ (0 ∷ be)
    else put_u32 out (saturate32 (length be)) ++ be

pub put_mpint : Bytes → Bytes → Bytes
put_mpint out be = put_magnitude out (trim_zeros be)

pub boolean : Read Bool
boolean = u8 >>= λ v. pure (not (v == 0))

unfoldable pub string : Read Bytes
string = be32_read >>= λ len. take_bytes len

pub mpint : Read Bytes
mpint = string >>= λ raw. if top_bit_set raw then (λ rest. (none, rest)) else pure (trim_zeros raw)

-- `split(|&b| b == b',')`: always one piece at least.
unfoldable pub split_on : ℕ → Bytes → Bytes × List Bytes
split_on sep [] = ([], [])
split_on sep (b ∷ bs) =
    let (first, others) = split_on sep bs in
    if b == sep then ([], first ∷ others) else (b ∷ first, others)

pub namelist_has : Bytes → Bytes → Bool
unfolding split_on equal
namelist_has names name =
    let (first, others) = split_on b',' names in
    equal first name || any (λ entry. equal entry name) others

pub first_name : Bytes → Bytes
unfolding split_on
first_name names = (split_on b',' names).0

-- `haystack.windows(n.len()).any(|w| w == n)`, for a needle no longer than the haystack.
windows_any : Bytes → Bytes → Bool
windows_any [] n = false
windows_any (b ∷ bs) n = equal (take (length n) (b ∷ bs)) n || windows_any bs n

pub contains_bytes : Bytes → Bytes → Bool
unfolding windows_any equal
contains_bytes haystack n =
    not (length n == 0) && (leb (length n) (length haystack) && windows_any haystack n)
