-- ===== src/Http/Window.antt =====
-- The bytes behind a head say nothing about it.
use rpi_omt_client.Prelude.{
  ℕ, suc, ◌+◌, ◌-◌, ◌≤◌, min, ◌<◌, ◌≡◌, ◌≢◌, refl, sym, ap, ◌∙◌, ◌⊎◌, Bool, true, false, Option,
  none, some, [], ◌∷◌, ◌++◌, arith, leb, leb→le, not_leb→lt, if◌then◌else◌, length, length-append,
  take, take-append_le, take-append_ge, take_all, length-take, Bytes, Bool-cases, Option-cases, inl,
  inr,
}
use rpi_omt_client.Http.{
  incomplete, after_byte, is_blank_line, find_end, with_end, parse_head, max_header_bytes,
}

found :
    (b : Bool) (o : Option ℕ) (e : ℕ)
    → (if b then some 0 else after_byte o) ≡ some e
    → ((b ≡ true) × (e ≡ 0)) ⊎ ((b ≡ false) × (n : ℕ) × (o ≡ some n) × (e ≡ suc n))
found true o e h = inl (refl, ground (arith, h))
found false (some n) e h = inr (refl, n, refl, ground (arith, h))
found false none e h = cc

-- The blank line that is found stands within the text.
find_end-le : (s : Bytes) (e : ℕ) → find_end s ≡ some e → e + 4 ≤ length s
unfolding find_end
find_end-le [] e h = cc
find_end-le (a ∷ []) e h = cc
find_end-le (a ∷ b ∷ []) e h = cc
find_end-le (a ∷ b ∷ c ∷ []) e h = cc
find_end-le (a ∷ b ∷ c ∷ d ∷ rest) e h =
    elim (found (is_blank_line a b c d) (find_end (b ∷ c ∷ d ∷ rest)) e h) [
      | inl (x, y) ↦ omega (arith, y)
      | inr (x, n, o, y) ↦ omega (arith, y, find_end-le (b ∷ c ∷ d ∷ rest) n o)
    ]

find_end-append : (s more : Bytes) (e : ℕ) → find_end s ≡ some e → find_end (s ++ more) ≡ some e
unfolding find_end
find_end-append [] more e h = cc
find_end-append (a ∷ []) more e h = cc
find_end-append (a ∷ b ∷ []) more e h = cc
find_end-append (a ∷ b ∷ c ∷ []) more e h = cc
find_end-append (a ∷ b ∷ c ∷ d ∷ rest) more e h =
    elim (found (is_blank_line a b c d) (find_end (b ∷ c ∷ d ∷ rest)) e h) [
      | inl (x, y) ↦ rw x (ap some (sym y))
      | inr (x, n, o, y) ↦ rw (x, find_end-append (b ∷ c ∷ d ∷ rest) more n o) (ap some (sym y))
    ]

with_end-append :
    (bytes more : Bytes) (o : Option ℕ)
    → ((e : ℕ) → o ≡ some e → e + 4 ≤ length bytes)
    → with_end bytes o ≢ incomplete
    → with_end (bytes ++ more) o ≡ with_end bytes o
unfolding with_end
with_end-append bytes more none h k = elim (Bool-cases (leb max_header_bytes (length bytes))) [
  | inl e ↦ ground (arith, e, length-append bytes more)
  | inr e ↦ absurd (k (rw e refl))
]
with_end-append bytes more (some e) h k =
    rw (take-append_le e bytes more (omega (arith, h e refl))) refl

undecided : (bytes : Bytes) → length bytes < max_header_bytes → with_end bytes none ≡ incomplete
unfolding with_end
undecided bytes few = ground (arith, few)

pub find_end_of_window :
    (bytes : Bytes) (e : ℕ)
    → find_end (take max_header_bytes bytes) ≡ some e
    → e + 4 ≤ min max_header_bytes (length bytes)
find_end_of_window bytes e h =
    omega (arith, find_end-le (take max_header_bytes bytes) e h, length-take max_header_bytes bytes)

module _ (bytes more : Bytes) where
  find_end-window :
      length bytes < max_header_bytes
      → with_end bytes (find_end bytes) ≢ incomplete
      → find_end (take max_header_bytes (bytes ++ more)) ≡ find_end bytes
  find_end-window few k =
      rw (take-append_ge max_header_bytes bytes more (omega (arith, few)))
        (elim (Option-cases (find_end bytes)) [
          | inl e ↦ absurd (k (rw e (undecided bytes few)))
          | inr (n, e) ↦
              find_end-append bytes (take (max_header_bytes - length bytes) more) n e ∙ sym e
        ])

  parse_head-small :
      length bytes < max_header_bytes → parse_head bytes ≡ with_end bytes (find_end bytes)
  unfolding parse_head
  parse_head-small few =
      ap (λ w. with_end bytes (find_end w)) (take_all bytes max_header_bytes (omega (arith, few)))

  append-small :
      length bytes < max_header_bytes
      → with_end bytes (find_end bytes) ≢ incomplete
      → parse_head (bytes ++ more) ≡ with_end bytes (find_end bytes)
  unfolding parse_head
  append-small few k =
      ap (with_end (bytes ++ more)) (find_end-window few k)
      ∙ with_end-append bytes more (find_end bytes) (find_end-le bytes) k

  -- Once the bytes that have arrived decide on a head, accepted or refused, the bytes that arrive
  -- behind them leave that decision as it is.
  pub parse_head-append :
      parse_head bytes ≢ incomplete → parse_head (bytes ++ more) ≡ parse_head bytes
  unfolding parse_head
  parse_head-append k = elim (Bool-cases (leb max_header_bytes (length bytes))) [
    | inl e ↦
        rw (take-append_le max_header_bytes bytes more (leb→le max_header_bytes (length bytes) e)) (
          with_end-append bytes more (find_end (take max_header_bytes bytes))
            (λ n p. omega (arith, find_end_of_window bytes n p)) k)
    | inr e ↦
        let few = not_leb→lt max_header_bytes (length bytes) e in
        append-small few (λ p. k (parse_head-small few ∙ p)) ∙ sym (parse_head-small few)
  ]
