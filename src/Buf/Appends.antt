-- ===== src/Buf/Appends.antt =====
-- A document is built by appends and checked once: the refinement behind `BoundedBuf::failed`.
use rpi_omt_client.Prelude.{
  ℕ, ◌+◌, ◌-◌, ◌≤◌, ◌≡◌, leb, refl, ◌∙◌, sym, true, false, Option, none, some, List, [], ◌∷◌, ◌++◌,
  append_assoc, append-nil, arith, if◌then◌else◌, length, length-append, Bytes, Bool-cases, inl,
  inr,
}
use native.Mathlib.Nat.{zero-add}
use rpi_omt_client.Buf.{
  BoundedBuf, append, reserve, reserve_to, needed, new, new_capacity, usize_max, into_vec,
}
use rpi_omt_client.Buf.Bounds.{reserve_to-keeps, reserve-keeps, reserve-refused}

-- The writer of a document: a chunk at a time, no check in between.
unfoldable pub append_all : (ℕ → ℕ → Option ℕ) → BoundedBuf → List Bytes → BoundedBuf
append_all allocate b [] = b
append_all allocate b (c ∷ cs) = append_all allocate (append allocate b c) cs

abbrev pub concat : List Bytes → Bytes
concat [] = []
concat (c ∷ cs) = c ++ concat cs

-- An allocator that never runs out.
abbrev pub IsGenerous : (ℕ → ℕ → Option ℕ) → Type 0
IsGenerous allocate = (len additional : ℕ) → (got : ℕ) × (allocate len additional ≡ some got)

module _ (allocate : ℕ → ℕ → Option ℕ) where
  append_failed : (b : BoundedBuf) (c : Bytes) → b.failed ≡ true → append allocate b c ≡ b
  unfolding append reserve
  append_failed b c h = ground arith

  append_ok :
      (b : BoundedBuf) (c : Bytes)
      → (append allocate b c).failed ≡ false
      → (append allocate b c).contents ≡ b.contents ++ c
  unfolding append
  append_ok b c h = elim (Bool-cases (reserve allocate b (length c)).1) [
    | inl room ↦ ground (arith, room, reserve-keeps allocate b (length c))
    | inr refused ↦ ground (arith, refused, reserve-refused allocate b (length c) refused)
  ]

  append_all-failed :
      (b : BoundedBuf) (cs : List Bytes) → b.failed ≡ true → append_all allocate b cs ≡ b
  unfolding append_all
  append_all-failed b [] h = refl
  append_all-failed b (c ∷ cs) h = rw (append_failed b c h) (append_all-failed b cs h)

  -- Whatever the allocator does, if a buffer has not failed after appending any chunks, it holds
  -- what it held before and every chunk, in order.
  pub append_all_holds :
      (b : BoundedBuf) (cs : List Bytes)
      → (append_all allocate b cs).failed ≡ false
      → (append_all allocate b cs).contents ≡ b.contents ++ concat cs
  unfolding append_all
  append_all_holds b [] h = sym (append-nil b.contents)
  append_all_holds b (c ∷ cs) h = elim (Bool-cases (append allocate b c).failed) [
    | inl failed ↦ cc (h, failed, append_all-failed (append allocate b c) cs failed)
    | inr fine ↦
        append_all_holds (append allocate b c) cs h
        ∙ rw (append_ok b c fine) (append_assoc b.contents c (concat cs))
  ]

module _ (allocate : ℕ → ℕ → Option ℕ) (generous : IsGenerous allocate) where
  reserve_to_generous :
      (b : BoundedBuf) (need : ℕ)
      → ((reserve_to allocate b need).1 ≡ true) × ((reserve_to allocate b need).0.failed ≡ b.failed)
  unfolding reserve_to
  reserve_to_generous b need =
      let asked = new_capacity b need - length b.contents in
      let (got, granted) = generous (length b.contents) asked in ground (arith, granted)

  append_generous :
      (b : BoundedBuf) (c : Bytes)
      → b.failed ≡ false
      → b.limit ≤ usize_max
      → ((append allocate b c).failed
          ≡ (if leb (length b.contents + length c) b.limit then false else true))
        × ((append allocate b c).contents
            ≡ (if leb (length b.contents + length c) b.limit then b.contents ++ c else b.contents))
        × ((append allocate b c).limit ≡ b.limit)
  unfolding append reserve needed
  append_generous b c h fits = ground (
    arith,
    reserve_to_generous b (length b.contents + length c),
    reserve_to-keeps allocate b (length b.contents + length c),
  )

  -- An open buffer ends with all the chunks, or failed, by the total length alone.
  append_all_generous :
      (b : BoundedBuf) (cs : List Bytes)
      → b.failed ≡ false
      → b.limit ≤ usize_max
      → length b.contents ≤ b.limit
      → into_vec (append_all allocate b cs) ≡ (
          if leb (length b.contents + length (concat cs)) b.limit
          then some (b.contents ++ concat cs)
          else none)
  unfolding append_all into_vec
  append_all_generous b [] h fits room = rw append-nil (ground arith)
  append_all_generous b (c ∷ cs) h fits room =
      elim (Bool-cases (leb (length b.contents + length c) b.limit)) [
        | inl more ↦ ground (
          arith,
          more,
          append_generous b c h fits,
          append_all_generous (append allocate b c) cs,
          length-append b.contents c,
          length-append c (concat cs),
          append_assoc b.contents c (concat cs),
        )
        | inr full ↦ ground (
          arith,
          full,
          append_generous b c h fits,
          append_all-failed allocate (append allocate b c) cs,
          length-append c (concat cs),
        )
      ]

  -- When the allocator never refuses and the limit is a usize, a document built from nothing by any
  -- chunks is returned whole if its length is within the limit, and refused if it is not.
  pub into_vec-append_all :
      (limit : ℕ) (cs : List Bytes)
      → limit ≤ usize_max
      → into_vec (append_all allocate (new limit) cs)
        ≡ (if leb (length (concat cs)) limit then some (concat cs) else none)
  into_vec-append_all limit cs fits =
      append_all_generous (new limit) cs refl fits (omega arith) ∙ simp zero-add
