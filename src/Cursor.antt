-- ===== src/Cursor.antt =====
-- `Cursor` of crates/omt-common/src/buf.rs: a read-only view whose reads check what remains.
-- A reader answers with its value and the bytes that the cursor is then left at; a read that does
-- not fit leaves the cursor where it was.
use rpi_omt_client.Prelude.{
  ℕ, ◌+◌, ◌*◌, ◌^◌, Option, none, some, [], ◌∷◌, leb, if◌then◌else◌, length, take, drop, Bytes,
  be32,
}

abbrev pub Read {ℓ} : Type ℓ → Type ℓ
Read A = Bytes → Option A × Bytes

abbrev pub pure {ℓ} : {A : Type ℓ} → A → Read A
pure a rest = (some a, rest)

abbrev continue {ℓ} : {A B : Type ℓ} → Option A → (A → Read B) → Read B
continue none f rest = (none, rest)
continue (some a) f rest = f a rest

infixl 5 ◌>>=◌
abbrev pub ◌>>=◌ {ℓ} : {A B : Type ℓ} → Read A → (A → Read B) → Read B
◌>>=◌ m f rest = let (a, left) = m rest in continue a f left

unfoldable pub take_bytes : ℕ → Read Bytes
take_bytes n rest = if leb n (length rest) then (some (take n rest), drop n rest) else (none, rest)

unfoldable pub skip : ℕ → Read (Unit {0})
unfolding take_bytes
skip n = take_bytes n >>= λ _. pure tt

unfoldable pub u8 : Read ℕ
u8 [] = (none, [])
u8 (b ∷ tail) = (some b, tail)

unfoldable pub be32_read : Read ℕ
be32_read (a ∷ b ∷ c ∷ d ∷ tail) = (some (be32 a b c d), tail)
be32_read rest = (none, rest)

unfoldable pub be64_read : Read ℕ
be64_read (a ∷ b ∷ c ∷ d ∷ e ∷ f ∷ g ∷ h ∷ tail) =
    (some (be32 a b c d * 2 ^ 32 + be32 e f g h), tail)
be64_read rest = (none, rest)
