-- ===== src/Http/RequestLine.antt =====
-- Where the parts of a request line stand in the bytes that have arrived.
use rpi_omt_client.Prelude.{
  ℕ, ◌≡◌, refl, ap, ◌∙◌, Bool, false, Option, none, some, [], ◌∷◌, ◌++◌, arith, ◌==◌, ==_iff, any,
  split_once, before, append_assoc, Bytes, Bool-cases, inl, inr, sym,
}
use rpi_omt_client.Wire.{split_on}

-- The start of a text is the text, or ends before a byte.
abbrev pub Ends : ℕ → Bytes → Type 0
Ends sep [] = Unit {0}
Ends sep (c ∷ cs) = c ≡ sep

-- The first piece of a text that is split, and what stands behind it.
pub record IsFirst (sep : ℕ) (s first : Bytes) : Type 0 where
  pub rest : Bytes
  pub joins : s ≡ first ++ rest
  pub ends : Ends sep rest
  pub lacks : any (λ c. c == sep) first ≡ false

pub split_on-IsFirst : (sep : ℕ) (s : Bytes) → IsFirst sep s ((split_on sep s).0)
unfolding split_on
split_on-IsFirst sep [] = record { rest = []; joins = refl; ends = tt; lacks = refl }
split_on-IsFirst sep (c ∷ cs) = elim (Bool-cases (c == sep)) [
  | inl e ↦ rw e (record { rest = c ∷ cs; joins = refl; ends = (==_iff c sep).0 e; lacks = refl })
  | inr e ↦
      let later = split_on-IsFirst sep cs in
      rw e (record {
        rest = later.rest;
        joins = ap (◌∷◌ c) later.joins;
        ends = later.ends;
        lacks = rw e later.lacks;
      })
]

-- A text that is split once is the two parts with the separator between them.
abbrev pub Splits : ℕ → Bytes → Option (Bytes × Bytes) → Type 0
Splits sep s none = Unit {0}
Splits sep s (some (a, b)) = s ≡ a ++ (sep ∷ b)

before-Splits :
    (sep c : ℕ) (cs : Bytes) (o : Option (Bytes × Bytes))
    → Splits sep cs o
    → Splits sep (c ∷ cs) (before c o)
before-Splits sep c cs none h = tt
before-Splits sep c cs (some (a, b)) h = ap (◌∷◌ c) h

pub split_once-Splits : (sep : ℕ) (s : Bytes) → Splits sep s (split_once sep s)
unfolding split_once
split_once-Splits sep [] = tt
split_once-Splits sep (c ∷ cs) = elim (Bool-cases (c == sep)) [
  | inl e ↦ rw e (ap (λ b. b ∷ cs) ((==_iff c sep).0 e))
  | inr e ↦ rw e (before-Splits sep c cs (split_once sep cs) (split_once-Splits sep cs))
]

module _ (p : ℕ → Bool) where
  pub any-append_left : (xs ys : Bytes) → any p (xs ++ ys) ≡ false → any p xs ≡ false
  any-append_left [] ys h = refl
  any-append_left (x ∷ xs) ys h = ground (arith, Bool-cases (p x), h, any-append_left xs ys)

  pub any-append_right : (xs ys : Bytes) → any p (xs ++ ys) ≡ false → any p ys ≡ false
  any-append_right [] ys h = h
  any-append_right (x ∷ xs) ys h = any-append_right xs ys (ground (arith, Bool-cases (p x), h))

-- Behind the method and a space, the bytes hold the line and more.
abbrev pub HasLine : Bytes → Bytes → Bytes → Type 0
HasLine bytes method line = (after : Bytes) × (bytes ≡ method ++ (b' ' ∷ (line ++ after)))

-- A line cut at its space holds the target, and the bytes hold it between two spaces.
abbrev pub HasTarget : Bytes → Bytes → Option (Bytes × Bytes) → Type 0
HasTarget bytes method none = Unit {0}
HasTarget bytes method (some (target, rest)) = HasLine bytes method (target ++ (b' ' ∷ []))

pub target_of_line :
    (bytes method line : Bytes) (o : Option (Bytes × Bytes))
    → HasLine bytes method line
    → Splits b' ' line o
    → HasTarget bytes method o
target_of_line bytes method line none h e = tt
target_of_line bytes method line (some (target, rest)) (after, h) e = (
  rest ++ after,
  h
      ∙ ap (λ l. method ++ (b' ' ∷ (l ++ after))) e
      ∙ ap (λ l. method ++ (b' ' ∷ l))
          (append_assoc target (b' ' ∷ rest) after
            ∙ sym (append_assoc target (b' ' ∷ []) (rest ++ after))),
)

pub line_of_pieces :
    (bytes method rest line : Bytes)
    → HasLine bytes method rest
    → IsFirst 0x0d rest line
    → HasLine bytes method line
line_of_pieces bytes method rest line (after, h) v = (
  v.rest ++ after,
  h
      ∙ ap (λ l. method ++ (b' ' ∷ (l ++ after))) v.joins
      ∙ ap (λ l. method ++ (b' ' ∷ l)) (append_assoc line v.rest after),
)
