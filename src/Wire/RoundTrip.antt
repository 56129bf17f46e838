-- ===== src/Wire/RoundTrip.antt =====
-- What the writers put, the readers take back, with whatever follows left on the cursor.
use rpi_omt_client.Prelude.{
  ℕ, ◌+◌, ◌≤◌, ◌<◌, ◌^◌, ◌≡◌, refl, false, some, [], ◌∷◌, ◌++◌, arith, length, length-append,
  take_append, drop_append, Bytes, be32-be32_bytes, Bool-cases, inl, inr, if◌then◌else◌,
}
use native.Mathlib.Numerals.{add-one}
use rpi_omt_client.Cursor.{take_bytes, be32_read, be64_read}
use rpi_omt_client.Wire.{
  put_u32, put_u64, put_string, put_mpint, trim_zeros, top_bit_set, put_magnitude, string, mpint,
}

-- A number below 2^64 that is written as a u64 is read back by the cursor, and what follows it is
-- left on the cursor.
pub be64_read-put_u64 :
    (v : ℕ) (rest : Bytes) → v < 2 ^ 64 → be64_read (put_u64 [] v ++ rest) ≡ (some v, rest)
unfolding put_u64 be64_read
be64_read-put_u64 v rest h = ground arith

take_bytes_append : (xs rest : Bytes) → take_bytes (length xs) (xs ++ rest) ≡ (some xs, rest)
unfolding take_bytes
take_bytes_append xs rest =
    ground (arith, length-append xs rest, take_append xs rest, drop_append xs rest)

be32_read-put_u32 :
    (v : ℕ) (rest : Bytes) → v < 2 ^ 32 → be32_read (put_u32 [] v ++ rest) ≡ (some v, rest)
unfolding put_u32 be32_read
be32_read-put_u32 v rest h = ground (arith, be32-be32_bytes v h)

-- A string of fewer than 2^32 bytes that is written is read back, and what follows it is left on the
-- cursor.
pub string-put_string :
    (bytes rest : Bytes)
    → length bytes < 2 ^ 32
    → string (put_string [] bytes ++ rest) ≡ (some bytes, rest)
unfolding string put_string put_u32 be32_read
string-put_string bytes rest h =
    ground (arith, be32-be32_bytes (length bytes) h, take_bytes_append bytes rest)

pub trim_zeros-length : (be : Bytes) → length (trim_zeros be) ≤ length be
unfolding trim_zeros
trim_zeros-length [] = omega arith
trim_zeros-length (b ∷ bs) = ground (arith, trim_zeros-length bs)

trim_zeros_idem : (be : Bytes) → trim_zeros (trim_zeros be) ≡ trim_zeros be
unfolding trim_zeros
trim_zeros_idem [] = refl
trim_zeros_idem (b ∷ bs) = ground (arith, trim_zeros_idem bs)

-- What `put_mpint` sends as a string: a zero byte keeps the number from reading as negative.
padded : Bytes → Bytes
padded be = if top_bit_set be then 0 ∷ be else be

put_magnitude-padded : (be : Bytes) → put_magnitude [] be ≡ put_string [] (padded be)
unfolding put_magnitude put_string padded put_u32
put_magnitude-padded be = elim (Bool-cases (top_bit_set be)) [
  | inl high ↦ rw high (rw add-one)
  | inr low ↦ rw low
]

length-padded : (be : Bytes) → length (padded be) ≤ length be + 1
unfolding padded
length-padded be = ground arith

top_bit_set-padded : (be : Bytes) → top_bit_set (padded be) ≡ false
unfolding padded top_bit_set
top_bit_set-padded [] = refl
top_bit_set-padded (b ∷ bs) = ground arith

trim_zeros-padded : (be : Bytes) → trim_zeros (padded (trim_zeros be)) ≡ trim_zeros be
unfolding padded
trim_zeros-padded be = elim (Bool-cases (top_bit_set (trim_zeros be))) [
  | inl high ↦ rw high (unfold trim_zeros in trim_zeros_idem be)
  | inr low ↦ rw low (trim_zeros_idem be)
]

-- A magnitude of fewer than 2^32 - 1 bytes, with leading zeros or without, that is written as an
-- mpint is read back without its leading zeros, and what follows it is left on the cursor.
pub mpint-put_mpint :
    (be rest : Bytes)
    → length be + 1 < 2 ^ 32
    → mpint (put_mpint [] be ++ rest) ≡ (some (trim_zeros be), rest)
unfolding mpint put_mpint
mpint-put_mpint be rest h =
    let bytes = padded (trim_zeros be) in
    let fits : length bytes < 2 ^ 32 =
      omega (arith, length-padded (trim_zeros be), trim_zeros-length be) in
    rw (put_magnitude-padded (trim_zeros be)) (
      rw (string-put_string bytes rest fits)
        (rw (top_bit_set-padded (trim_zeros be)) (rw (trim_zeros-padded be))))
