-- ===== src/Json/Document/Leaves.antt =====
-- What the readers of numbers, strings and keys leave of the text.
use rpi_omt_client.Prelude.{
  ℕ, suc, ◌+◌, ◌*◌, ◌/◌, ◌≤◌, ◌≢◌, subst, Option-cases, Bool, true, false, not, ◌&&◌, ◌||◌, Option,
  none, some, List, [], ◌∷◌, arith, any, equal, length, Bytes, Result, ok, err, ltb, leb, ◌==◌,
  if◌then◌else◌, Bool-cases, inl, inr,
}
use rpi_omt_client.Decimal.{is_ascii_digit}
use rpi_omt_client.Json.{
  JsonError, out_of_rounds, number, digit_run, starts_digit, integer_part, some_digits,
  fraction_part, unsigned, exponent_part, after_integer, finished, string_body,
}
use rpi_omt_client.Json.Strings.{Leaves, string_body-Leaves}
use rpi_omt_client.Json.Document.{
  Parser, ◌>>=◌, charge, string, after_key, unseen_key, object_key, skip_spaces,
}

-- The same for what a reader leaves of a parser.
abbrev pub LeavesAt : {A : Type 0} → ℕ → Result JsonError (A × Parser) → Type 0
LeavesAt n (ok (a, p)) = length p.rest ≤ n
LeavesAt n (err e) = e ≢ out_of_rounds

abbrev pub Keeps : ℕ → Result JsonError Parser → Type 0
Keeps n (ok p) = length p.rest ≤ n
Keeps n (err e) = e ≢ out_of_rounds

pub Keeps-bind :
    {B : Type 0} (m n : ℕ) (r : Result JsonError Parser)
    (f : Parser → Result JsonError (B × Parser))
    → Keeps m r
    → ((p : Parser) → length p.rest ≤ m → LeavesAt n (f p))
    → LeavesAt n (r >>= f)
Keeps-bind m n (ok p) f h k = k p h
Keeps-bind m n (err e) f h k = h

pub Leaves-bind :
    {A B : Type 0} (m n : ℕ) (r : Result JsonError (A × Bytes))
    (f : A × Bytes → Result JsonError (B × Parser))
    → Leaves m r
    → ((a : A × Bytes) → length a.1 ≤ m → LeavesAt n (f a))
    → LeavesAt n (r >>= f)
Leaves-bind m n (ok a) f h k = k a h
Leaves-bind m n (err e) f h k = h

pub LeavesAt-bind :
    {A B : Type 0} (m n : ℕ) (r : Result JsonError (A × Parser))
    (f : A × Parser → Result JsonError (B × Parser))
    → LeavesAt m r
    → ((a : A × Parser) → length a.1.rest ≤ m → LeavesAt n (f a))
    → LeavesAt n (r >>= f)
LeavesAt-bind m n (ok a) f h k = k a h
LeavesAt-bind m n (err e) f h k = h

pub LeavesAt-if :
    {A : Type 0} (n : ℕ) (b : Bool) (x y : Result JsonError (A × Parser))
    → LeavesAt n x
    → LeavesAt n y
    → LeavesAt n (if b then x else y)
LeavesAt-if n true x y hx hy = hx
LeavesAt-if n false x y hx hy = hy

pub skip_spaces-le : (s : Bytes) → length (skip_spaces s) ≤ length s
unfolding skip_spaces
skip_spaces-le [] = omega arith
skip_spaces-le (c ∷ cs) = ground (arith, skip_spaces-le cs)

pub charge-Keeps : (p : Parser) (n : ℕ) → Keeps (length p.rest) (charge p n)
unfolding charge
charge-Keeps p n = elim (Bool-cases (ltb p.budget ((n + 15) / 16 * 16))) [
  | inl e ↦ rw e (λ h. cc)
  | inr e ↦ rw e (omega arith)
]

-- Numbers.
digit_run-le : (s : Bytes) → length (digit_run s).1 ≤ length s
unfolding digit_run
digit_run-le [] = omega arith
digit_run-le (c ∷ cs) = ground (arith, digit_run-le cs)

unsigned-le : (s : Bytes) → length (unsigned s) ≤ length s
unsigned-le [] = omega arith
unsigned-le (c ∷ cs) = ground arith

abbrev Rest : {A : Type 0} → ℕ → Option (A × Bytes) → Type 0
Rest n none = Unit {0}
Rest n (some (a, r)) = length r ≤ n

some_digits-Rest : (n : ℕ) (r : Bytes × Bytes) → length r.1 ≤ n → Rest n (some_digits r)
some_digits-Rest n ([], rest) h = tt
some_digits-Rest n (d ∷ ds, rest) h = h

integer_part-Rest : (s : Bytes) → Rest (length s) (integer_part s)
unfolding integer_part
integer_part-Rest [] = tt
integer_part-Rest (c ∷ cs) = elim (Bool-cases (c == b'0')) [
  | inl e ↦
      rw e (elim (Bool-cases (starts_digit cs)) [ inl d ↦ rw d tt | inr d ↦ rw d (omega arith) ])
  | inr e ↦ rw e (elim (Bool-cases (is_ascii_digit c)) [
    | inl d ↦ rw d (omega (arith, digit_run-le cs))
    | inr d ↦ rw d tt
  ])
]

fraction_part-Rest : (s : Bytes) → Rest (length s) (fraction_part s)
unfolding fraction_part
fraction_part-Rest [] = omega arith
fraction_part-Rest (c ∷ cs) = elim (Bool-cases (c == b'.')) [
  | inl e ↦
      rw e (some_digits-Rest (suc (length cs)) (digit_run cs) (omega (arith, digit_run-le cs)))
  | inr e ↦ rw e (omega arith)
]

exponent_part-Rest : (s : Bytes) → Rest (length s) (exponent_part s)
unfolding exponent_part
exponent_part-Rest [] = omega arith
exponent_part-Rest (c ∷ cs) = elim (Bool-cases ((c == b'e') || (c == b'E'))) [
  | inl e ↦ rw e (
      some_digits-Rest (suc (length cs)) (digit_run (unsigned cs))
        (omega (arith, digit_run-le (unsigned cs), unsigned-le cs)))
  | inr e ↦ rw e (omega arith)
]

module _ (is_utf8 : Bytes → Bool) (is_finite : Bytes → Bool) where
  finished-Leaves :
      (text : Bytes) (negative integer : Bool) (digits rest : Bytes)
      → Leaves (length rest) (finished is_finite text negative integer digits rest)
  unfolding finished
  finished-Leaves text negative integer digits rest = elim (Bool-cases (leb 64 (length text))) [
    | inl e ↦
        rw e (elim (Bool-cases integer) [ inl i ↦ rw i (omega arith) | inr i ↦ rw i (λ h. cc) ])
    | inr e ↦ rw e (elim (Bool-cases (not (is_finite text) && not integer)) [
      | inl i ↦ rw i (λ h. cc)
      | inr i ↦ rw i (omega arith)
    ])
  ]

  Leaves-le :
      {A : Type 0} (m n : ℕ) (r : Result JsonError (A × Bytes)) → m ≤ n → Leaves m r → Leaves n r
  Leaves-le m n (ok (a, r)) h v = omega arith
  Leaves-le m n (err e) h v = v

  after_integer-Leaves :
      (n : ℕ) (s : Bytes) (negative : Bool) (o : Option (Bytes × Bytes))
      → Rest n o
      → Leaves n (after_integer is_finite s negative o)
  unfolding after_integer
  after_integer-Leaves n s negative none h = λ e. cc
  after_integer-Leaves n s negative (some (digits, rest)) h =
      elim (Option-cases (fraction_part rest)) [
        | inl e ↦ rw (e, after_integer) (λ p. cc)
        | inr (x, e) ↦
            let hx : Rest (length rest) (some x) =
              subst (Rest (length rest)) e (fraction_part-Rest rest) in
            rw (e, after_integer)
              (elim (Option-cases (exponent_part x.1)) [
                | inl d ↦ rw (d, after_integer) (λ p. cc)
                | inr (y, d) ↦
                    let hy : Rest (length x.1) (some y) =
                      subst (Rest (length x.1)) d (exponent_part-Rest x.1) in
                    rw (d, after_integer)
                      (Leaves-le (length y.1) n _ (omega arith)
                        (finished-Leaves _ negative _ digits y.1))
              ])
      ]

  pub number-Leaves : (s : Bytes) → Leaves (length s) (number is_finite s)
  unfolding number
  number-Leaves [] = λ e. cc
  number-Leaves (c ∷ cs) = elim (Bool-cases (c == b'-')) [
    | inl e ↦ rw e (
        Leaves-le (length cs) (suc (length cs)) _ (omega arith)
          (after_integer-Leaves (length cs) (c ∷ cs) true (integer_part cs) (integer_part-Rest cs)))
    | inr e ↦ rw e (
        after_integer-Leaves (suc (length cs)) (c ∷ cs) false (integer_part (c ∷ cs))
          (integer_part-Rest (c ∷ cs)))
  ]

  pub string-LeavesAt :
      (n : ℕ) (p : Parser) (s : Bytes) → length s ≤ n → LeavesAt n (string is_utf8 is_finite p s)
  unfolding string
  string-LeavesAt n p s h =
      Leaves-bind (length s) n (string_body s) _ (string_body-Leaves s) (λ r v.
        Keeps-bind (length r.1) n (charge (record p { rest = r.1 }) (length r.0 + 1)) _
          (charge-Keeps (record p { rest = r.1 }) (length r.0 + 1))
          (λ q k. LeavesAt-if n (is_utf8 r.0) _ _ (omega arith) (λ e. cc)))

  after_key-LeavesAt :
      (n : ℕ) (seen : List Bytes) (key : Bytes) (p : Parser) (s : Bytes)
      → length s ≤ n
      → LeavesAt n (after_key is_utf8 is_finite seen key p s)
  unfolding after_key
  after_key-LeavesAt n seen key p [] h = λ e. cc
  after_key-LeavesAt n seen key p (c ∷ cs) h = LeavesAt-if n (c == b':') _ _ (omega arith) (λ e. cc)

  pub object_key-LeavesAt :
      (n : ℕ) (seen : List Bytes) (p : Parser) (s : Bytes)
      → length s ≤ n
      → LeavesAt n (object_key is_utf8 is_finite seen p s)
  unfolding object_key unseen_key
  object_key-LeavesAt n seen p [] h = λ e. cc
  object_key-LeavesAt n seen p (c ∷ cs) h =
      LeavesAt-if n (c == b'"') _ _
        (LeavesAt-bind n n (string is_utf8 is_finite p cs) _ (string-LeavesAt n p cs (omega arith))
          (λ r v.
            LeavesAt-if n (any (λ k. equal k r.0) seen) _ _ (λ e. cc)
              (after_key-LeavesAt n seen r.0 r.1 (skip_spaces r.1.rest)
                (omega (arith, skip_spaces-le r.1.rest)))))
        (λ e. cc)
