-- ===== src/Sftp/Writes.antt =====
-- The writes of a file, their ids, and the part of the turns that they took.
use rpi_omt_client.Prelude.{ℕ, ◌+◌, Option, some, List, [], ◌∷◌, length, Bytes, Result, ok}
use rpi_omt_client.Sftp.{UploadTurn, UploadError, write_packet, next_of, answered}

-- Some of a list, in its order.
pub data IsPart {ℓ} {A : Type ℓ} : List A → List A → Type ℓ where
  no_more : IsPart [] []
  kept : {a : A} {xs ys : List A} → IsPart xs ys → IsPart (a ∷ xs) (a ∷ ys)
  passed : {a : A} {xs ys : List A} → IsPart xs ys → IsPart xs (a ∷ ys)

pub IsPart-nil {ℓ} : {A : Type ℓ} (ys : List A) → IsPart [] ys
IsPart-nil [] = no_more
IsPart-nil (y ∷ ys) = passed (IsPart-nil ys)

abbrev pub chunks_of : List UploadTurn → List (Option Bytes)
chunks_of [] = []
chunks_of (t ∷ ts) = t.chunk ∷ chunks_of ts

abbrev pub answers_of : List UploadTurn → List (Result UploadError ℕ)
answers_of [] = []
answers_of (t ∷ ts) = answered t.answer ∷ answers_of ts

abbrev pub some_of : List Bytes → List (Option Bytes)
some_of [] = []
some_of (c ∷ cs) = some c ∷ some_of cs

abbrev pub ok_of : List ℕ → List (Result UploadError ℕ)
ok_of [] = []
ok_of (id ∷ ids) = ok id ∷ ok_of ids

-- The write packets of a file that is cut into chunks, from an id and an offset on.
abbrev pub writes : Bytes → ℕ → ℕ → List Bytes → List Bytes
writes handle id offset [] = []
writes handle id offset (c ∷ cs) =
    write_packet handle id offset c ∷ writes handle (next_of id) (offset + length c) cs

-- The ids of these writes.
abbrev pub write_ids : ℕ → List Bytes → List ℕ
write_ids id [] = []
write_ids id (c ∷ cs) = id ∷ write_ids (next_of id) cs
