-- ===== src/Json/Strings.antt =====
-- Strings: the loop ends, and what is written is read back.
use rpi_omt_client.Prelude.{
  ℕ, zero, suc, ◌/◌, ◌%◌, ◌≤◌, ◌<◌, ◌≡◌, ◌≢◌, refl, ap, ◌∙◌, Bool, true, false, Option, none, some,
  [], ◌∷◌, ◌++◌, arith, ltb, ◌==◌, within, length, length-append, append_assoc, append-nil, Bytes,
  codes, Result, ok, err, strip_prefix, Bool-cases, inl, inr, holds_below, holds_at,
}
use rpi_omt_client.Json.{
  JsonError, out_of_rounds, invalid_escape, Round, done, more, refused, digit_value, four_digits,
  hex4, hex4_value, after_round, encode_utf8, low_surrogate, high_surrogate, unicode_escape,
  simple_escape, escape, string_round, string_rounds, string_body, hex_digit, written, escaped,
}

-- A round that goes on has taken a byte, and a refusal is one of the source's.
abbrev Shrinks : ℕ → Round → Type 0
Shrinks n (done t r) = length r < n
Shrinks n (more t r) = length r < n
Shrinks n (refused e) = e ≢ out_of_rounds

abbrev Reads : ℕ → Result JsonError (ℕ × Bytes) → Type 0
Reads n (ok (v, r)) = length r < n
Reads n (err e) = e ≢ out_of_rounds

hex4_value-Reads :
    (o : Option ℕ) (rest : Bytes) → Reads (suc (suc (suc (suc (length rest))))) (hex4_value o rest)
unfolding hex4_value
hex4_value-Reads none rest = λ e. cc
hex4_value-Reads (some v) rest = omega arith

hex4-Reads : (s : Bytes) → Reads (length s) (hex4 s)
unfolding hex4
hex4-Reads [] = λ e. cc
hex4-Reads (a ∷ []) = λ e. cc
hex4-Reads (a ∷ b ∷ []) = λ e. cc
hex4-Reads (a ∷ b ∷ c ∷ []) = λ e. cc
hex4-Reads (a ∷ b ∷ c ∷ d ∷ rest) =
    hex4_value-Reads (four_digits (digit_value a) (digit_value b) (digit_value c) (digit_value d))
      rest

low_surrogate-Shrinks :
    (n : ℕ) (text : Bytes) (cp : ℕ) (r : Result JsonError (ℕ × Bytes))
    → Reads n r
    → Shrinks n (low_surrogate text cp r)
unfolding low_surrogate
low_surrogate-Shrinks n text cp (err e) h = h
low_surrogate-Shrinks n text cp (ok (low, rest)) h = elim (Bool-cases (within 0xdc00 0xdfff low)) [
  | inl e ↦ rw e h
  | inr e ↦ rw e (λ p. cc)
]

strip_u-lt : (s rest : Bytes) → strip_prefix (codes "\\u") s ≡ some rest → length rest < length s
unfolding strip_prefix
strip_u-lt [] rest h = cc
strip_u-lt (a ∷ []) rest h = ground arith
strip_u-lt (a ∷ b ∷ s) rest h = ground arith

Reads-lt : (m n : ℕ) (r : Result JsonError (ℕ × Bytes)) → m ≤ n → Reads m r → Reads n r
Reads-lt m n (ok (v, r)) h v' = omega arith
Reads-lt m n (err e) h v = v

high_surrogate-Shrinks :
    (n : ℕ) (text : Bytes) (cp : ℕ) (o : Option Bytes)
    → ((rest : Bytes) → o ≡ some rest → length rest ≤ n)
    → Shrinks n (high_surrogate text cp o)
unfolding high_surrogate
high_surrogate-Shrinks n text cp none h = λ e. cc
high_surrogate-Shrinks n text cp (some rest) h =
    low_surrogate-Shrinks n text cp (hex4 rest)
      (Reads-lt (length rest) n (hex4 rest) (h rest refl) (hex4-Reads rest))

unicode_escape-Shrinks :
    (n : ℕ) (text : Bytes) (r : Result JsonError (ℕ × Bytes))
    → Reads n r
    → Shrinks n (unicode_escape text r)
unfolding unicode_escape
unicode_escape-Shrinks n text (err e) h = h
unicode_escape-Shrinks n text (ok (cp, rest)) h = elim (Bool-cases (within 0xdc00 0xdfff cp)) [
  | inl low ↦ rw low (λ e. cc)
  | inr e ↦ rw e (elim (Bool-cases (within 0xd800 0xdbff cp)) [
    | inl high ↦ rw high (
        high_surrogate-Shrinks n text cp (strip_prefix (codes "\\u") rest)
          (λ r p. omega (arith, h, strip_u-lt rest r p)))
    | inr plain ↦ rw plain h
  ])
]

escape-Shrinks : (text s : Bytes) → Shrinks (suc (length s)) (escape text s)
unfolding escape
escape-Shrinks text [] = λ e. cc
escape-Shrinks text (e ∷ rest) = elim (Bool-cases (e == b'u')) [
  | inl u ↦ rw u (
      unicode_escape-Shrinks (suc (suc (length rest))) text (hex4 rest) (
        Reads-lt (length rest) (suc (suc (length rest))) (hex4 rest) (omega arith)
          (hex4-Reads rest)))
  | inr other ↦
      rw other
        (elim (simple_escape e)
          as (λ o.
            Shrinks (suc (suc (length rest)))
              (elim o [ none ↦ refused invalid_escape | some c ↦ more (text ++ (c ∷ [])) rest ])) [
                | none ↦ λ p. cc
                | some c ↦ omega arith
              ])
]

string_round-Shrinks : (text s : Bytes) → Shrinks (length s) (string_round text s)
unfolding string_round
string_round-Shrinks text [] = λ e. cc
string_round-Shrinks text (c ∷ rest) = elim (Bool-cases (c == b'"')) [
  | inl quote ↦ rw quote (omega arith)
  | inr e ↦ rw e (elim (Bool-cases (ltb c 0x20)) [
    | inl control ↦ rw control (λ p. cc)
    | inr e' ↦ rw e' (elim (Bool-cases (c == b'\\')) [
      | inl slash ↦ rw slash (escape-Shrinks text rest)
      | inr plain ↦ rw plain (omega arith)
    ])
  ])
]

abbrev Parsed : Type 0
Parsed = Result JsonError (Bytes × Bytes)

err_injective : (e f : JsonError) → ◌≡◌ {A = Parsed} (err e) (err f) → e ≡ f
err_injective e f h = cc

ok-ne-err : (a : Bytes × Bytes) (e : JsonError) → ◌≢◌ {A = Parsed} (ok a) (err e)
ok-ne-err a e h = cc

-- The text that is left is no longer than this, and a refusal is one of the source's.
abbrev pub Leaves : {A : Type 0} → ℕ → Result JsonError (A × Bytes) → Type 0
Leaves n (ok (a, r)) = length r ≤ n
Leaves n (err e) = e ≢ out_of_rounds

after_round-Leaves :
    (loop : Bytes → Bytes → Parsed) (n : ℕ) (r : Round)
    → Shrinks n r
    → ((t s : Bytes) → length s < n → Leaves n (loop t s))
    → Leaves n (after_round loop r)
unfolding after_round
after_round-Leaves loop n (done t s) v h = omega arith
after_round-Leaves loop n (more t s) v h = h t s v
after_round-Leaves loop n (refused e) v h = v

Leaves-le :
    {A : Type 0} (m n : ℕ) (r : Result JsonError (A × Bytes)) → m ≤ n → Leaves m r → Leaves n r
Leaves-le m n (ok (a, r)) h v = omega arith
Leaves-le m n (err e) h v = v

string_rounds-Leaves :
    (rounds : ℕ) (text s : Bytes)
    → length s < rounds
    → Leaves (length s) (string_rounds rounds text s)
unfolding string_rounds
string_rounds-Leaves zero text s h = absurd (omega arith)
string_rounds-Leaves (suc rounds) text s h =
    after_round-Leaves (string_rounds rounds) (length s) (string_round text s)
      (string_round-Shrinks text s)
      (λ t r v.
        Leaves-le (length r) (length s) (string_rounds rounds t r) (omega arith)
          (string_rounds-Leaves rounds t r (omega arith)))

pub string_body-Leaves : (s : Bytes) → Leaves (length s) (string_body s)
unfolding string_body
string_body-Leaves s = string_rounds-Leaves (suc (length s)) [] s (omega arith)

Leaves-ne : (n : ℕ) (r : Parsed) → Leaves n r → r ≢ err out_of_rounds
Leaves-ne n (ok a) v = ok-ne-err a out_of_rounds
Leaves-ne n (err e) v = λ p. v (err_injective e out_of_rounds p)

-- The loop over a string ends, with a text or an error of the source, within one round for each byte
-- and one more.
pub string_body_ends : (s : Bytes) → string_body s ≢ err out_of_rounds
string_body_ends s = Leaves-ne (length s) (string_body s) (string_body-Leaves s)

-- The two digits of a control character.
is_value : Option ℕ → ℕ → Bool
is_value none n = false
is_value (some m) n = m == n

is_value-eq : (o : Option ℕ) (n : ℕ) → is_value o n ≡ true → o ≡ some n
unfolding is_value
is_value-eq none n h = cc
is_value-eq (some m) n h = ground arith

hex_table : holds_below (λ n. is_value (digit_value (hex_digit n)) n) 16 ≡ true
unfolding holds_below is_value digit_value
hex_table = refl

digit_value-hex_digit : (n : ℕ) → n < 16 → digit_value (hex_digit n) ≡ some n
digit_value-hex_digit n h =
    is_value-eq _ n (holds_at (λ k. is_value (digit_value (hex_digit k)) k) 16 n hex_table h)

digit_zero : digit_value b'0' ≡ some 0
unfolding digit_value
digit_zero = refl

four-control :
    (b : ℕ)
    → b < 0x20
    → four_digits
        (digit_value b'0')
        (digit_value b'0')
        (digit_value (hex_digit (b / 16)))
        (digit_value (hex_digit (b % 16)))
      ≡ some b
four-control b h =
    rw
      (
        digit_zero,
        digit_value-hex_digit (b / 16) (omega arith),
        digit_value-hex_digit (b % 16) (omega arith),
      )
      (ap some (omega arith))

hex4-control :
    (b : ℕ) (tail : Bytes)
    → b < 0x20
    → hex4 (b'0' ∷ b'0' ∷ hex_digit (b / 16) ∷ hex_digit (b % 16) ∷ tail) ≡ ok (b, tail)
unfolding hex4 hex4_value
hex4-control b tail h = ap (λ o. hex4_value o tail) (four-control b h)

string_round-written :
    (text tail : Bytes) (b : ℕ)
    → string_round text (written b ++ tail) ≡ more (text ++ (b ∷ [])) tail
unfolding string_round written escape unicode_escape encode_utf8
string_round-written text tail b = ground (arith, hex4-control b tail)

quote_ends :
    (rounds : ℕ) (text rest : Bytes)
    → string_rounds (suc rounds) text (b'"' ∷ rest) ≡ ok (text, rest)
unfolding string_rounds string_round after_round
quote_ends rounds text rest = refl

-- The loop over what is written, from any text.
string_rounds-escaped :
    (rounds : ℕ) (text s rest : Bytes)
    → length s < rounds
    → string_rounds rounds text (escaped s ++ (b'"' ∷ rest)) ≡ ok (text ++ s, rest)
unfolding string_rounds escaped after_round
string_rounds-escaped zero text s rest h = absurd (omega arith)
string_rounds-escaped (suc rounds) text [] rest h = rw append-nil (quote_ends rounds text rest)
string_rounds-escaped (suc rounds) text (b ∷ bs) rest h =
    rw
      (
        append_assoc (written b) (escaped bs) (b'"' ∷ rest),
        string_round-written text (escaped bs ++ (b'"' ∷ rest)) b,
      )
      (string_rounds-escaped rounds (text ++ (b ∷ [])) bs rest (omega arith)
        ∙ ap (λ t. ok (t, rest)) (append_assoc text (b ∷ []) bs))

length-written : (b : ℕ) → 1 ≤ length (written b)
unfolding written
length-written b = ground arith

length-escaped : (s : Bytes) → length s ≤ length (escaped s)
unfolding escaped
length-escaped [] = omega arith
length-escaped (b ∷ bs) =
    omega (arith, length-escaped bs, length-written b, length-append (written b) (escaped bs))

-- Any text that is written with its escapes and a closing quote is read back as that text, with what
-- follows the quote left.
pub string_body-escaped : (s rest : Bytes) → string_body (escaped s ++ (b'"' ∷ rest)) ≡ ok (s, rest)
unfolding string_body
string_body-escaped s rest =
    string_rounds-escaped (suc (length (escaped s ++ (b'"' ∷ rest)))) [] s rest
      (omega (arith, length-escaped s, length-append (escaped s) (b'"' ∷ rest)))
