-- ===== src/VmxBits/Reading.antt =====
-- The reader against the bits of its stream.
use rpi_omt_client.Prelude.{
  ℕ, ◌-◌, ◌/◌, ◌%◌, ◌^◌, ◌≤◌, ◌≡◌, inl, inr, refl, sym, ap, subst, ◌∙◌, false, List, ◌++◌, arith,
  ltb, leb, if◌then◌else◌, length, length-append, length-take, length-drop, take-append-drop,
  take-append_le, take, drop, Bytes, AreBytes, pos, Bool-cases,
}
use rpi_omt_client.VmxBits.{Reader, be_value, take_bits}
use rpi_omt_client.VmxBits.Words.{
  AreBits, bits_of, value_from, AreBits-bits_of, value_from-bits_of, length-bits_of, middle_bits,
  drop-append_le, drop-drop, AreBits-take, AreBits-drop, AreBytes-take, AreBytes-drop,
  bits_of-append,
}

-- The bytes from the window on, and the bits that are not read.
abbrev pub ahead : Reader → Bytes
ahead r = drop r.position r.buf

abbrev pub unread : Reader → List ℕ
unread r = drop (64 - r.bits_left) (bits_of (ahead r))

-- A reader whose window holds the eight bytes at its position.
pub record IsReading (r : Reader) : Type 0 where
  pub bytes : AreBytes r.buf
  pub full : 8 ≤ length (ahead r)
  pub window_is : r.window ≡ be_value 0 (take 8 (ahead r))
  pub bounded : r.bits_left ≤ 64

nothing : (xs : List ℕ) → 0 % 2 ^ 0 ≡ value_from 0 (take 0 xs)
unfolding value_from
nothing xs = refl

not_less : (a b : ℕ) → b ≤ a → ltb a b ≡ false
not_less a b h = ground arith

module _ (r : Reader) (v : IsReading r) where
  -- The bits of the window, and those behind it.
  abbrev pub word : List ℕ
  word = bits_of (take 8 (ahead r))

  pub length-word : length word ≡ 64
  length-word = omega (arith, length-bits_of (take 8 (ahead r)), length-take 8 (ahead r), v.full)

  pub bits_of-ahead : bits_of (ahead r) ≡ word ++ bits_of (drop 8 (ahead r))
  bits_of-ahead =
      ap bits_of (sym (take-append-drop 8 (ahead r)))
      ∙ bits_of-append (take 8 (ahead r)) (drop 8 (ahead r))

  unread-word : unread r ≡ drop (64 - r.bits_left) word ++ bits_of (drop 8 (ahead r))
  unread-word =
      ap (drop (64 - r.bits_left)) bits_of-ahead
      ∙ drop-append_le (64 - r.bits_left) word (bits_of (drop 8 (ahead r)))
          (omega (arith, length-word))

  pub AreBits-word : AreBits word
  AreBits-word =
      AreBits-bits_of (take 8 (ahead r))
        (AreBytes-take 8 (ahead r) (AreBytes-drop r.position r.buf v.bytes))

  window-word : r.window ≡ value_from 0 word
  window-word =
      v.window_is
      ∙ sym (
          value_from-bits_of 0 (take 8 (ahead r))
            (AreBytes-take 8 (ahead r) (AreBytes-drop r.position r.buf v.bytes)))

  pub length-unread : r.bits_left ≤ length (unread r)
  length-unread = omega (
    arith,
    ap length unread-word,
    length-append (drop (64 - r.bits_left) word) (bits_of (drop 8 (ahead r))),
    length-drop (64 - r.bits_left) word,
    length-word,
    v.bounded,
  )

  module _ (n : ℕ) (fits : n ≤ r.bits_left) where
    pub take-unread : take n (unread r) ≡ take n (drop (64 - r.bits_left) word)
    take-unread =
        ap (take n) unread-word
        ∙ take-append_le n (drop (64 - r.bits_left) word) (bits_of (drop 8 (ahead r)))
            (omega (arith, length-drop (64 - r.bits_left) word, length-word, v.bounded))

    cut :
        word
        ≡ take (64 - r.bits_left) word
          ++ (take n (drop (64 - r.bits_left) word) ++ drop n (drop (64 - r.bits_left) word))
    cut =
        sym (take-append-drop (64 - r.bits_left) word)
        ∙ ap (λ zs. take (64 - r.bits_left) word ++ zs)
            (sym (take-append-drop n (drop (64 - r.bits_left) word)))

    length_left : length (drop n (drop (64 - r.bits_left) word)) ≡ r.bits_left - n
    length_left = omega (
      arith,
      length-drop n (drop (64 - r.bits_left) word),
      length-drop (64 - r.bits_left) word,
      length-word,
      v.bounded,
    )

    pub length_taken : length (take n (drop (64 - r.bits_left) word)) ≡ n
    length_taken = omega (
      arith,
      length-take n (drop (64 - r.bits_left) word),
      length-drop (64 - r.bits_left) word,
      length-word,
      v.bounded,
    )

    shifted : r.window / 2 ^ (r.bits_left - n) % 2 ^ n ≡ value_from 0 (take n (unread r))
    shifted =
        ap (λ (w : ℕ). w / 2 ^ (r.bits_left - n) % 2 ^ n) (window-word ∙ ap (value_from 0) cut)
        ∙ (ap
              (λ (j : ℕ).
                value_from 0 (
                  take (64 - r.bits_left) word
                  ++ (take n (drop (64 - r.bits_left) word)
                      ++ drop n (drop (64 - r.bits_left) word)))
                / 2 ^ j
                % 2 ^ n)
              (sym length_left)
            ∙ (ap
                  (λ (j : ℕ).
                    value_from 0 (
                      take (64 - r.bits_left) word
                      ++ (take n (drop (64 - r.bits_left) word)
                          ++ drop n (drop (64 - r.bits_left) word)))
                    / 2 ^ length (drop n (drop (64 - r.bits_left) word))
                    % 2 ^ j)
                  (sym length_taken)
                ∙ (middle_bits (take (64 - r.bits_left) word)
                      (take n (drop (64 - r.bits_left) word))
                      (drop n (drop (64 - r.bits_left) word))
                      (AreBits-take n (drop (64 - r.bits_left) word)
                        (AreBits-drop (64 - r.bits_left) word AreBits-word))
                      (AreBits-drop n (drop (64 - r.bits_left) word)
                        (AreBits-drop (64 - r.bits_left) word AreBits-word))
                    ∙ ap (value_from 0) (sym take-unread))))

    -- The value that is taken, which is nothing at a full counter.
    taken_value :
        (if leb 64 (r.bits_left - n) then 0 else r.window / 2 ^ (r.bits_left - n)) % 2 ^ n
        ≡ value_from 0 (take n (unread r))
    taken_value = elim (Bool-cases (leb 64 (r.bits_left - n))) [
      | inl e ↦
          let z : n ≡ 0 = ground (arith, e, v.bounded, fits) in rw e (rw z (nothing (unread r)))
      | inr e ↦ rw e shifted
    ]

    pub after_take : Reader
    after_take = record r { bits_left = r.bits_left - n }

    pub take_bits_lem : take_bits r (pos n) ≡ (value_from 0 (take n (unread r)), after_take)
    unfolding take_bits after_take
    take_bits_lem =
        rw (not_less r.bits_left n fits, not_less 64 n (omega (arith, v.bounded)))
          (ap (λ (j : ℕ). (j, record r { bits_left = r.bits_left - n })) taken_value)

    pub after_take-IsReading : IsReading after_take
    unfolding after_take
    after_take-IsReading = record {
      bytes = v.bytes;
      full = v.full;
      window_is = v.window_is;
      bounded = omega (arith, v.bounded);
    }

    pub unread-after_take : unread after_take ≡ drop n (unread r)
    unfolding after_take
    unread-after_take =
        ap (λ (j : ℕ). drop j (bits_of (ahead r))) (omega (arith, v.bounded))
        ∙ sym (drop-drop n (64 - r.bits_left) (bits_of (ahead r)))

    pub AreBits-take-unread : AreBits (take n (unread r))
    AreBits-take-unread = subst AreBits (sym take-unread) (
        AreBits-take n (drop (64 - r.bits_left) word)
          (AreBits-drop (64 - r.bits_left) word AreBits-word))

    pub length_next : length (take n (unread r)) ≡ n
    length_next = ap length take-unread ∙ length_taken
