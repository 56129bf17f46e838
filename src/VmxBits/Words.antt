-- ===== src/VmxBits/Words.antt =====
-- Bytes as bits, the highest first, and bits as numbers.
use native.Mathlib.Nat.{
  zero-add, suc-add, mul-add-div_right, mul-add-mod_self_right, mod-eq_of_lt, div-eq_of_lt,
}
use rpi_omt_client.Prelude.{
  ℕ, zero, suc, ◌+◌, ◌*◌, ◌/◌, ◌%◌, ◌^◌, ◌≤◌, ◌<◌, ◌≡◌, refl, sym, ap, ◌∙◌, List, [], ◌∷◌, ◌++◌,
  arith, length, take, drop, Bytes, AreBytes, append_assoc,
}
use rpi_omt_client.VmxBits.{be_value}

-- A byte as its bits, the highest first, and bytes as theirs.
abbrev pub byte_bits : ℕ → List ℕ
byte_bits b =
    (b / 128)
    ∷ (b / 64 % 2)
    ∷ (b / 32 % 2)
    ∷ (b / 16 % 2)
    ∷ (b / 8 % 2)
    ∷ (b / 4 % 2)
    ∷ (b / 2 % 2)
    ∷ (b % 2)
    ∷ []

unfoldable pub bits_of : Bytes → List ℕ
bits_of [] = []
bits_of (b ∷ bs) = byte_bits b ++ bits_of bs

-- The number that bits make behind others.
unfoldable pub value_from : ℕ → List ℕ → ℕ
value_from acc [] = acc
value_from acc (x ∷ xs) = value_from (acc * 2 + x) xs

abbrev pub AreBits : List ℕ → Type 0
AreBits [] = Unit {0}
AreBits (x ∷ xs) = (x < 2) × AreBits xs

pub value_from-append :
    (acc : ℕ) (xs ys : List ℕ) → value_from acc (xs ++ ys) ≡ value_from (value_from acc xs) ys
unfolding value_from
value_from-append acc [] ys = refl
value_from-append acc (x ∷ xs) ys = value_from-append (acc * 2 + x) xs ys

pub pow-suc : (n : ℕ) → 2 ^ suc n ≡ 2 * 2 ^ n
pow-suc n = omega arith

pub value_from-pow :
    (acc : ℕ) (xs : List ℕ) → value_from acc xs ≡ acc * 2 ^ length xs + value_from 0 xs
unfolding value_from
value_from-pow acc [] = omega arith
value_from-pow acc (x ∷ xs) =
    value_from-pow (acc * 2 + x) xs
    ∙ grind (arith, pow-suc (length xs), value_from-pow (0 * 2 + x) xs)

pub value_from-lt : (xs : List ℕ) → AreBits xs → value_from 0 xs < 2 ^ length xs
unfolding value_from
value_from-lt [] h = omega arith
value_from-lt (x ∷ xs) h =
    grind (arith, pow-suc (length xs), value_from-pow (0 * 2 + x) xs, value_from-lt xs h.1)

AreBits-append : (xs ys : List ℕ) → AreBits xs → AreBits ys → AreBits (xs ++ ys)
AreBits-append [] ys h k = k
AreBits-append (x ∷ xs) ys h k = (h.0, AreBits-append xs ys h.1 k)

pub AreBits-bits_of : (bs : Bytes) → AreBytes bs → AreBits (bits_of bs)
unfolding bits_of
AreBits-bits_of [] h = tt
AreBits-bits_of (b ∷ bs) h =
    AreBits-append (byte_bits b) (bits_of bs) (omega arith) (AreBits-bits_of bs h.1)

pub value_from-bits_of :
    (acc : ℕ) (bs : Bytes) → AreBytes bs → value_from acc (bits_of bs) ≡ be_value acc bs
unfolding value_from bits_of
value_from-bits_of acc [] h = refl
value_from-bits_of acc (b ∷ bs) h =
    let e : ((((((((acc * 2 + b / 128) * 2 + b / 64 % 2) * 2 + b / 32 % 2) * 2 + b / 16 % 2) * 2
                      + b / 8 % 2)
                    * 2
                  + b / 4 % 2)
                * 2
              + b / 2 % 2)
            * 2
          + b % 2)
        ≡ acc * 256 + b =
      omega arith in
    rw e (value_from-bits_of (acc * 256 + b) bs h.1)

pub length-bits_of : (bs : Bytes) → length (bits_of bs) ≡ 8 * length bs
unfolding bits_of
length-bits_of [] = omega arith
length-bits_of (b ∷ bs) = omega (arith, length-bits_of bs)

-- The bits in the middle of a word, by a shift and a mask.
pub middle_bits :
    (xs ys zs : List ℕ)
    → AreBits ys
    → AreBits zs
    → value_from 0 (xs ++ (ys ++ zs)) / 2 ^ length zs % 2 ^ length ys ≡ value_from 0 ys
middle_bits xs ys zs hy hz =
    rw
      (
        value_from-append 0 xs (ys ++ zs),
        value_from-append (value_from 0 xs) ys zs,
        value_from-pow (value_from (value_from 0 xs) ys) zs,
        mul-add-div_right {m = 2 ^ length zs} (omega (arith, value_from-lt zs hz))
            (value_from (value_from 0 xs) ys) (value_from 0 zs),
        div-eq_of_lt (value_from-lt zs hz),
        value_from-pow (value_from 0 xs) ys,
      )
      (ap (λ (n : ℕ). n % 2 ^ length ys) (omega arith)
        ∙ (mul-add-mod_self_right (value_from 0 xs) (2 ^ length ys) (value_from 0 ys)
            ∙ mod-eq_of_lt (value_from-lt ys hy)))

-- Cuts of lists.
module _ {ℓ} {A : Type ℓ} where
  pub drop-append_le :
      (k : ℕ) (xs ys : List A) → k ≤ length xs → drop k (xs ++ ys) ≡ drop k xs ++ ys
  drop-append_le zero xs ys h = refl
  drop-append_le (suc k) [] ys h = absurd (omega arith)
  drop-append_le (suc k) (x ∷ xs) ys h = drop-append_le k xs ys (omega arith)

  pub drop-drop : (n k : ℕ) (xs : List A) → drop n (drop k xs) ≡ drop (k + n) xs
  drop-drop n zero xs = rw zero-add refl
  drop-drop zero (suc k) [] = rw suc-add refl
  drop-drop (suc n) (suc k) [] = rw suc-add refl
  drop-drop n (suc k) (x ∷ xs) = drop-drop n k xs ∙ ap (λ j. drop j (x ∷ xs)) (sym (suc-add k n))

  pub take-add : (n k : ℕ) (xs : List A) → take (k + n) xs ≡ take k xs ++ take n (drop k xs)
  take-add n zero xs = rw zero-add refl
  take-add zero (suc k) [] = rw suc-add refl
  take-add (suc n) (suc k) [] = rw suc-add refl
  take-add n (suc k) (x ∷ xs) = rw suc-add (ap (λ zs. x ∷ zs) (take-add n k xs))

pub AreBits-take : (n : ℕ) (xs : List ℕ) → AreBits xs → AreBits (take n xs)
AreBits-take zero xs h = tt
AreBits-take (suc n) [] h = tt
AreBits-take (suc n) (x ∷ xs) h = (h.0, AreBits-take n xs h.1)

pub AreBits-drop : (n : ℕ) (xs : List ℕ) → AreBits xs → AreBits (drop n xs)
AreBits-drop zero xs h = h
AreBits-drop (suc n) [] h = tt
AreBits-drop (suc n) (x ∷ xs) h = AreBits-drop n xs h.1

pub AreBytes-take : (n : ℕ) (xs : Bytes) → AreBytes xs → AreBytes (take n xs)
AreBytes-take zero xs h = tt
AreBytes-take (suc n) [] h = tt
AreBytes-take (suc n) (x ∷ xs) h = (h.0, AreBytes-take n xs h.1)

pub AreBytes-drop : (n : ℕ) (xs : Bytes) → AreBytes xs → AreBytes (drop n xs)
AreBytes-drop zero xs h = h
AreBytes-drop (suc n) [] h = tt
AreBytes-drop (suc n) (x ∷ xs) h = AreBytes-drop n xs h.1

pub bits_of-append : (xs ys : Bytes) → bits_of (xs ++ ys) ≡ bits_of xs ++ bits_of ys
unfolding bits_of
bits_of-append [] ys = refl
bits_of-append (x ∷ xs) ys =
    ap (λ zs. byte_bits x ++ zs) (bits_of-append xs ys)
    ∙ sym (append_assoc (byte_bits x) (bits_of xs) (bits_of ys))

pub pow-add : (a b : ℕ) → 2 ^ (a + b) ≡ 2 ^ a * 2 ^ b
pow-add zero b = rw zero-add (omega arith)
pow-add (suc a) b = rw suc-add (grind (arith, pow-suc (a + b), pow-suc a, pow-add a b))
