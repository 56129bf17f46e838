-- ===== src/VmxBits.antt =====
-- The bit reader of crates/omt-vmx/src/bits.rs. No operation leaves its counter of bits below zero, so it is a
-- natural number. Parameter: `grows`, whether the store of a stream could be made that large.
pub mod Words
pub mod Reading
pub mod Counted
pub mod Loop
mod Tests
use rpi_omt_client.Prelude.{
  ℕ, zero, suc, ◌+◌, ◌-◌, ◌*◌, ◌/◌, ◌%◌, ◌^◌, min, Bool, true, false, not, ◌&&◌, ◌||◌, Option, none,
  some, [], ◌∷◌, ◌++◌, ltb, leb, ◌==◌, if◌then◌else◌, length, take, drop, replicate, Bytes, ℤ, pos,
  negsuc,
}

abbrev pub padding : ℕ
padding = 64

-- The field `length` of the source is `loaded`.
pub record Stream : Type 0 where
  pub buffer : Bytes
  pub loaded : ℕ
  pub capacity : ℕ

abbrev pub new : ℕ → Stream
new capacity = record { buffer = replicate padding 0xff; loaded = padding; capacity = capacity }

unfoldable pub load : (ℕ → Bool) → Stream → Bytes → Stream × Bool
load grows s bytes =
    let needed = length bytes + padding in
    if ltb s.capacity (length bytes)
    then (s, false)
    else if ltb (length s.buffer) needed && not (grows needed)
    then (s, false)
    else (
      record s {
        buffer = bytes ++ (replicate padding 0xff ++ drop needed s.buffer);
        loaded = needed;
      },
      true,
    )

pub record Reader : Type 0 where
  pub buf : Bytes
  pub position : ℕ
  pub bits_left : ℕ
  pub window : ℕ
  pub corrupt : Bool

abbrev pub be_value : ℕ → Bytes → ℕ
be_value acc [] = acc
be_value acc (b ∷ bs) = be_value (acc * 256 + b) bs

-- Eight bytes at the position, or a damaged stream.
unfoldable pub window_at : Reader → ℕ → Reader
window_at r position =
    if leb 8 (length (drop position r.buf))
    then record r { position = position; window = be_value 0 (take 8 (drop position r.buf)) }
    else record r { position = position; window = 2 ^ 64 - 1; corrupt = true }

unfoldable pub reader : Stream → Reader
reader s =
    window_at
      (record {
        buf = take s.loaded s.buffer;
        position = 0;
        bits_left = 64;
        window = 0;
        corrupt = false;
      })
      0

abbrev pub shl64 : ℕ → ℕ → ℕ
shl64 v n = if leb 64 n then 0 else v * 2 ^ n % 2 ^ 64

-- The zeros above the highest bit that is set, among `n` bits.
unfoldable pub zeros_above : ℕ → ℕ → ℕ
zeros_above zero v = 0
zeros_above (suc n) v = if leb (2 ^ n) v then 0 else suc (zeros_above n v)

abbrev pub clz64 : ℕ → ℕ
clz64 v = zeros_above 64 v

unfoldable pub flush : Reader → Reader
flush r = if r.bits_left == 0 then window_at (record r { bits_left = 64 }) (r.position + 8) else r

-- `(64 - bits_left) >> 3` bytes further on.
unfoldable pub reload : Reader → Reader
reload r =
    let advance = (64 - r.bits_left) / 8 in
    if ltb r.bits_left 32
    then window_at (record r { bits_left = r.bits_left + advance * 8 }) (r.position + advance)
    else r

abbrev pub damaged : Reader → Reader
damaged r = record r { corrupt = true }

-- A count below zero wraps the counter, which is then taken for zero where it is negative.
unfoldable pub take_bits : Reader → ℤ → ℕ × Reader
take_bits r (negsuc m) =
    let left = (r.bits_left + suc m) % 2 ^ 32 in
    (0, record r { bits_left = (if ltb left (2 ^ 31) then left else 0); corrupt = true })
take_bits r (pos n) =
    if ltb r.bits_left n
    then (0, record r { bits_left = 0; corrupt = true })
    else if ltb 64 n
    then (0, record r { bits_left = r.bits_left - n; corrupt = true })
    else (
      (if leb 64 (r.bits_left - n) then 0 else r.window / 2 ^ (r.bits_left - n)) % 2 ^ n,
      record r { bits_left = r.bits_left - n },
    )

unfoldable pub bit : Reader → ℕ × Reader
bit r = let (v, r') = take_bits r (pos 1) in (v, flush r')

unfoldable pub leading_zeros : Reader → ℕ × Reader
leading_zeros r =
    if (r.bits_left == 0) || ltb 64 r.bits_left
    then (0, damaged r)
    else (clz64 (shl64 r.window (64 - r.bits_left)), r)

unfoldable pub zeros_bare : Reader → ℕ × Reader
zeros_bare r =
    let (count, r') = leading_zeros r in
    if ltb r'.bits_left count
    then (0, damaged r')
    else (count, record r' { bits_left = r'.bits_left - count })

-- What is read behind an exhausted window.
unfoldable pub zeros_behind : ℕ → Reader → ℕ × Reader
zeros_behind count r =
    let extra = clz64 r.window in
    if ltb r.bits_left extra
    then (0, damaged r)
    else (count + extra, record r { bits_left = r.bits_left - extra })

unfoldable pub zeros : Reader → ℕ × Reader
zeros r =
    let (count, r') = leading_zeros r in
    if leb r'.bits_left count
    then zeros_behind r'.bits_left (flush (record r' { bits_left = 0 }))
    else (count, record r' { bits_left = r'.bits_left - count })

-- The loop of `bits`, on rounds: a round takes one bit at least. The bits that are taken stand below those
-- that are shifted, so their union is a sum.
unfoldable pub bits_step : (ℕ → ℕ → Reader → ℕ × Reader) → ℕ → ℕ → ℕ → ℕ × Reader → ℕ × Reader
bits_step loop remaining value count (v, r) =
    loop (remaining - count) ((if value == 0 then 0 else shl64 value count) + v) (flush r)

unfoldable pub bits_rounds : ℕ → ℕ → ℕ → Reader → ℕ × Reader
bits_rounds zero remaining value r = (value, r)
bits_rounds (suc rounds) remaining value r =
    let count = min remaining r.bits_left in
    let rest = bits_step (bits_rounds rounds) remaining value count (take_bits r (pos count)) in
    if remaining == 0 then (value, r) else if count == 0 then (value, damaged r) else rest

unfoldable pub bits : Reader → ℤ → ℕ × Reader
bits r (negsuc m) = (0, damaged r)
bits r (pos n) = bits_rounds n n 0 r

unfoldable pub align : Reader → Reader
align r = flush (if ltb r.bits_left 64 then (bits r (pos (r.bits_left % 8))).1 else r)
