-- ===== src/VmxBits/Counted.antt =====
-- How `bits` takes the bits of the stream over the ends of its windows.
use rpi_omt_client.Prelude.{
  ℕ, zero, suc, ◌+◌, ◌-◌, ◌^◌, ◌≤◌, ◌<◌, ◌≡◌, ◌⊎◌, inl, inr, refl, sym, ap, ◌∙◌, min, true, List,
  ◌++◌, arith, leb, ◌==◌, ==_iff, if◌then◌else◌, length, length-drop, take, drop, pos, Bool-cases,
  drop_append,
}
use rpi_omt_client.VmxBits.{Reader, window_at, flush, take_bits, shl64, bits_step, bits_rounds}
use rpi_omt_client.VmxBits.Words.{
  bits_of, value_from, value_from-append, pow-suc, drop-drop, take-add,
}
use rpi_omt_client.VmxBits.Reading.{ahead, unread, IsReading, word, length-word, bits_of-ahead}

-- A window that is read to its end is followed by the next eight bytes, or the stream is damaged.
pub flush-unread :
    (r : Reader)
    → IsReading r
    → ((flush r).corrupt ≡ true) ⊎ (IsReading (flush r) × (unread (flush r) ≡ unread r))
unfolding flush window_at
flush-unread r v = elim (Bool-cases (r.bits_left == 0)) [
  | inr e ↦ rw e (inr (v, refl))
  | inl e ↦ rw e (elim (Bool-cases (leb 8 (length (drop (r.position + 8) r.buf)))) [
    | inr d ↦ rw d (inl refl)
    | inl d ↦ rw d (
        inr (
          record {
            bytes = v.bytes;
            full = ground (arith, d);
            window_is = refl;
            bounded = omega arith;
          },
          ap bits_of (sym (drop-drop 8 r.position r.buf))
              ∙ (sym (drop_append (word r v) (bits_of (drop 8 (ahead r))))
                  ∙ (ap (λ (j : ℕ). drop j (word r v ++ bits_of (drop 8 (ahead r))))
                        (omega (arith, length-word r v, (==_iff r.bits_left 0).0 e))
                      ∙ ap (drop (64 - r.bits_left)) (sym (bits_of-ahead r v)))),
        ))
  ])
]

pub pow_pos : (n : ℕ) → 0 < 2 ^ n
pow_pos zero = omega arith
pow_pos (suc n) = omega (arith, pow-suc n, pow_pos n)

-- A stream that is damaged stays so.
flush_corrupt : (r : Reader) → r.corrupt ≡ true → (flush r).corrupt ≡ true
unfolding flush window_at
flush_corrupt r h = ground (arith, h)

take_bits_corrupt : (r : Reader) (n : ℕ) → r.corrupt ≡ true → (take_bits r (pos n)).1.corrupt ≡ true
unfolding take_bits
take_bits_corrupt r n h = ground (arith, h)

pub bits_rounds_corrupt :
    (rounds n value : ℕ) (r : Reader)
    → r.corrupt ≡ true
    → (bits_rounds rounds n value r).1.corrupt ≡ true
unfolding bits_rounds bits_step
bits_rounds_corrupt zero n value r h = h
bits_rounds_corrupt (suc rounds) n value r h =
    let o = take_bits r (pos (min n r.bits_left)) in
    ground (
      arith,
      h,
      bits_rounds_corrupt rounds (n - min n r.bits_left)
          ((if value == 0 then 0 else shl64 value (min n r.bits_left)) + o.0) (flush o.1)
          (flush_corrupt o.1 (take_bits_corrupt r (min n r.bits_left) h)),
    )

-- What a read of `n` bits behind a value answers: the next bits and what is left, or a damaged stream.
abbrev pub ReadsBits : ℕ → ℕ → Reader → ℕ × Reader → Type 0
ReadsBits n value r (a, s) =
    (s.corrupt ≡ true)
    ⊎ ((a ≡ value_from value (take n (unread r)))
        × (n ≤ length (unread r))
        × IsReading s
        × (unread s ≡ drop n (unread r)))

pub ReadsBits-after :
    (n c value value' : ℕ) (r r' : Reader) (o : ℕ × Reader)
    → c ≤ n
    → c ≤ length (unread r)
    → value' ≡ value_from value (take c (unread r))
    → unread r' ≡ drop c (unread r)
    → ReadsBits (n - c) value' r' o
    → ReadsBits n value r o
ReadsBits-after n c value value' r r' o h k e u (inl x) = inl x
ReadsBits-after n c value value' r r' o h k e u (inr (a, b, v, w)) =
    let whole : c + (n - c) ≡ n = omega arith in
    inr (
      a
          ∙ (ap (λ (xs : List ℕ). value_from value' (take (n - c) xs)) u
              ∙ (ap (λ (j : ℕ). value_from j (take (n - c) (drop c (unread r)))) e
                  ∙ (sym (
                        value_from-append value (take c (unread r))
                          (take (n - c) (drop c (unread r))))
                      ∙ (ap (value_from value) (sym (take-add (n - c) c (unread r)))
                          ∙ ap (λ (j : ℕ). value_from value (take j (unread r))) whole)))),
      omega (arith, ap length u, length-drop c (unread r)),
      v,
      w
          ∙ (ap (drop (n - c)) u
              ∙ (drop-drop (n - c) c (unread r) ∙ ap (λ (j : ℕ). drop j (unread r)) whole)),
    )
