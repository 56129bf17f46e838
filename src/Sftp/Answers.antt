-- ===== src/Sftp/Answers.antt =====
-- The id in an answer of the server, which is a number of 32 bits.
use rpi_omt_client.Prelude.{
  ℕ, ◌^◌, ◌<◌, ◌≡◌, Option, none, some, List, [], ◌∷◌, arith, ◌==◌, Bytes, AreBytes, be32, be32-lt,
  ok, Bool-cases, inl, inr, subst,
}
use rpi_omt_client.Cursor.{u8, be32_read}
use rpi_omt_client.Wire.{string}
use rpi_omt_client.Sftp.{
  UploadTurn, sftp_status, answered, status_ok, with_kind, with_id, with_code, with_message,
}

-- An answer that the transport brings is of bytes.
abbrev pub IsOfBytes : Option Bytes → Type 0
IsOfBytes none = Unit {0}
IsOfBytes (some packet) = AreBytes packet

with_message-id :
    (got code id : ℕ) (o : Option Bytes × Bytes) → with_message got code o ≡ ok id → got ≡ id
unfolding with_message
with_message-id got code id (none, rest) h = cc
with_message-id got code id (some message, rest) h = ground (arith, h, Bool-cases (code == 0))

with_code-id : (got id : ℕ) (o : Option ℕ × Bytes) → with_code got o ≡ ok id → got ≡ id
unfolding with_code
with_code-id got id (none, rest) h = cc
with_code-id got id (some code, rest) h = with_message-id got code id (string rest) h

with_id-lt :
    (id : ℕ) (rest : Bytes) → AreBytes rest → with_id none (be32_read rest) ≡ ok id → id < 2 ^ 32
unfolding with_id be32_read
with_id-lt id [] b h = cc
with_id-lt id (w ∷ []) b h = cc
with_id-lt id (w ∷ x ∷ []) b h = cc
with_id-lt id (w ∷ x ∷ y ∷ []) b h = cc
with_id-lt id (w ∷ x ∷ y ∷ z ∷ tail) b h =
    let same = with_code-id (be32 w x y z) id _ h in
    subst (λ n. n < 2 ^ 32) same (be32-lt w x y z b.0 b.1.0 b.1.1.0 b.1.1.1.0)

with_kind-lt :
    (id : ℕ) (packet : Bytes) → AreBytes packet → status_ok none packet ≡ ok id → id < 2 ^ 32
unfolding status_ok with_kind u8
with_kind-lt id [] b h = cc
with_kind-lt id (kind ∷ rest) b h = elim (Bool-cases (kind == sftp_status)) [
  | inl e ↦ with_id-lt id rest b.1 (rw e at h)
  | inr e ↦ let h' = rw e at h in cc
]

pub answered-lt :
    (id : ℕ) (answer : Option Bytes) → IsOfBytes answer → answered answer ≡ ok id → id < 2 ^ 32
unfolding answered
answered-lt id none b h = cc
answered-lt id (some packet) b h = with_kind-lt id packet b h

-- All the answers of an upload's turns are of bytes.
abbrev pub AreOfBytes : List UploadTurn → Type 0
AreOfBytes [] = Unit {0}
AreOfBytes (t ∷ ts) = IsOfBytes t.answer × AreOfBytes ts
