-- ===== src/Buf.antt =====
-- `BoundedBuf` of crates/omt-common/src/buf.rs: a growable byte buffer with a hard ceiling.
-- The allocator is no code of the repository: `allocate len additional` stands for
-- `Vec::try_reserve_exact`, and answers with the new capacity or fails.
pub mod Bounds
pub mod Appends
mod Tests
use rpi_omt_client.Prelude.{
  ℕ, zero, suc, ◌+◌, ◌-◌, ◌*◌, ◌/◌, ◌%◌, ◌^◌, min, max, Bool, true, false, not, Option, none, some,
  List, [], ◌∷◌, ◌++◌, ltb, leb, if◌then◌else◌, length, drop, get_or, Bytes, codes,
}

abbrev pub usize_max : ℕ
usize_max = 2 ^ 64 - 1

pub record BoundedBuf : Type 0 where
  pub contents : Bytes
  pub capacity : ℕ
  pub limit : ℕ
  pub failed : Bool

abbrev pub new : ℕ → BoundedBuf
new limit = record { contents = []; capacity = 0; limit = limit; failed = false }

abbrev pub fail : BoundedBuf → BoundedBuf
fail b = record b { failed = true }

-- `usize::checked_add`, `usize::checked_mul` and `usize::saturating_mul`
abbrev pub checked : ℕ → Option ℕ
checked n = if leb n usize_max then some n else none

abbrev pub saturating_mul : ℕ → ℕ → ℕ
saturating_mul a b = min (a * b) usize_max

-- `while cap < need { cap = cap.saturating_mul(2); }`, from 64 at least: 58 rounds reach any usize.
pub double_until : ℕ → ℕ → ℕ → ℕ
double_until zero cap need = cap
double_until (suc rounds) cap need =
    let rest = double_until rounds (saturating_mul cap 2) need in if ltb cap need then rest else cap

abbrev pub growth_rounds : ℕ
growth_rounds = 58

pub new_capacity : BoundedBuf → ℕ → ℕ
new_capacity b need = min (double_until growth_rounds (max b.capacity 64) need) b.limit

-- the `filter` on the checked sum
pub needed : BoundedBuf → ℕ → Option ℕ
needed b extra = elim (checked (length b.contents + extra)) [
  | none ↦ none
  | some n ↦ if leb n b.limit then some n else none
]

abbrev pub hex_digits : Bytes
hex_digits = codes "0123456789abcdef"

abbrev pub hex_pair : ℕ → Bytes
hex_pair b = get_or hex_digits (b / 16) 0 ∷ get_or hex_digits (b % 16) 0 ∷ []

-- the free function `hex`
pub hex_text : Bytes → Bytes
hex_text [] = []
hex_text (b ∷ bs) = hex_pair b ++ hex_text bs

module _ (allocate : ℕ → ℕ → Option ℕ) where
  pub reserve_to : BoundedBuf → ℕ → BoundedBuf × Bool
  reserve_to b need =
      if leb need b.capacity
      then (b, true)
      else elim (allocate (length b.contents) (new_capacity b need - length b.contents)) [
        | none ↦ (fail b, false)
        | some capacity ↦ (record b { capacity = capacity }, true)
      ]

  pub reserve : BoundedBuf → ℕ → BoundedBuf × Bool
  unfolding needed reserve_to
  reserve b extra =
      if b.failed
      then (b, false)
      else elim (needed b extra) [ none ↦ (fail b, false) | some need ↦ reserve_to b need ]

  pub append : BoundedBuf → Bytes → BoundedBuf
  append b bytes =
      let (b', room) = reserve b (length bytes) in
      if room then record b' { contents = b'.contents ++ bytes } else b'

  abbrev pub push : BoundedBuf → ℕ → BoundedBuf
  push b byte = append b (byte ∷ [])

  pub hex : BoundedBuf → Bytes → BoundedBuf
  hex b bytes = elim (checked (length bytes * 2)) [
    | none ↦ fail b
    | some width ↦
        let (b', room) = reserve b width in
        if room then record b' { contents = b'.contents ++ hex_text bytes } else b'
  ]

pub clear : BoundedBuf → BoundedBuf
clear b = record b { contents = []; failed = false }

pub consume : BoundedBuf → ℕ → BoundedBuf
unfolding clear
consume b n =
    if leb (length b.contents) n then clear b else record b { contents = drop n b.contents }

pub into_vec : BoundedBuf → Option Bytes
into_vec b = if b.failed then none else some b.contents
