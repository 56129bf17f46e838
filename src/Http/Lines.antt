-- ===== src/Http/Lines.antt =====
-- Every line of the header fields keeps what they have in common.
use rpi_omt_client.Prelude.{
  ℕ, ◌-◌, ◌^◌, ◌<◌, ◌≡◌, refl, true, false, not, ◌&&◌, Option, none, some, List, [], ◌∷◌, ◌++◌,
  arith, ◌==◌, length, length-append, any, all, equal_ignore_case, split_once, Bytes, codes, Result,
  ok, err, Bool-cases, inl, inr,
}
use rpi_omt_client.Decimal.{parse_u64}
use rpi_omt_client.Decimal.Strict.{parse_u64-le}
use rpi_omt_client.Wire.{split_on}
use rpi_omt_client.Http.{
  is_tchar, is_control, Fields, no_fields, pieces, with_length, by_name, named_field, split_field,
  starts_folded, field, after_return, then_fields, next_line, fields, no_more_fields, max_headers,
  trim_ows,
}
use rpi_omt_client.Http.Kept.{
  is_length, IsKept, Keeps, no_fields-IsKept, AreFields-append, AreFields-again, other_name,
  any-append, with_tokens-IsKept,
}

module _ (f : Fields) (name value : Bytes) (v : IsKept f) where
  abbrev with_header : Fields
  with_header = record f { headers = f.headers ++ ((name, value) ∷ []) }

  module _ (some_name : 0 < length name) (token : all is_tchar name ≡ true)
      (plain : any is_control value ≡ false) (few : length f.headers < max_headers) where
    with_length-Keeps :
        (o : Option ℕ)
        → parse_u64 value (2 ^ 32 - 1) ≡ o
        → equal_ignore_case name (codes "content-length") ≡ true
        → Keeps (with_length with_header o)
    unfolding with_length
    with_length-Keeps none p e = tt
    with_length-Keeps (some n) p e =
        elim (Bool-cases (f.have_length && not (n == f.content_length))) [
          | inl x ↦ rw x tt
          | inr x ↦ rw x (record {
            count = omega (arith, few, length-append f.headers ((name, value) ∷ []));
            seen = ground (arith, any-append is_length f.headers (name, value), e);
            unset = refl;
            all_fields =
                AreFields-append true n f.headers name value
                  (AreFields-again f.have_length f.content_length n f.headers x v.all_fields)
                  (record {
                    named = some_name;
                    token = token;
                    plain = plain;
                    not_encoded =
                        other_name name (codes "content-length") (codes "transfer-encoding") e
                          (omega arith);
                    length_is = rw e (refl, p);
                  });
            limit = omega (arith, parse_u64-le value (2 ^ 32 - 1) n (omega arith) p);
          })
        ]

    with_header-IsKept :
        equal_ignore_case name (codes "content-length") ≡ false
        → equal_ignore_case name (codes "transfer-encoding") ≡ false
        → IsKept with_header
    with_header-IsKept e d = record {
      count = omega (arith, few, length-append f.headers ((name, value) ∷ []));
      seen = ground (arith, any-append is_length f.headers (name, value), v.seen, e);
      unset = v.unset;
      all_fields =
          AreFields-append f.have_length f.content_length f.headers name value v.all_fields
            (record {
              named = some_name;
              token = token;
              plain = plain;
              not_encoded = d;
              length_is = rw e tt;
            });
      limit = v.limit;
    }

    by_name-Keeps : Keeps (by_name with_header name value)
    unfolding by_name
    by_name-Keeps = elim (Bool-cases (equal_ignore_case name (codes "content-length"))) [
      | inl e ↦ rw e (with_length-Keeps (parse_u64 value (2 ^ 32 - 1)) refl e)
      | inr e ↦ rw e (elim (Bool-cases (equal_ignore_case name (codes "transfer-encoding"))) [
        | inl d ↦ rw d tt
        | inr d ↦ rw d (elim (Bool-cases (equal_ignore_case name (codes "connection"))) [
          | inl c ↦ rw c (
              with_tokens-IsKept with_header (pieces (split_on b',' value))
                (with_header-IsKept e d))
          | inr c ↦ rw c (with_header-IsKept e d)
        ])
      ])
    ]

  named_field-Keeps : 0 < length name → Keeps (named_field f name value)
  unfolding named_field
  named_field-Keeps some_name = elim (Bool-cases (all is_tchar name)) [
    | inr e ↦ rw e tt
    | inl e ↦ rw e (elim (Bool-cases (any is_control value)) [
      | inl d ↦ rw d tt
      | inr d ↦ rw d (elim (Bool-cases (length f.headers == max_headers)) [
        | inl c ↦ rw c tt
        | inr c ↦ rw c (by_name-Keeps some_name e d (ground (arith, c, v.count)))
      ])
    ])
  ]

split_field-Keeps : (f : Fields) (o : Option (Bytes × Bytes)) → IsKept f → Keeps (split_field f o)
unfolding split_field
split_field-Keeps f none v = tt
split_field-Keeps f (some (name, rest)) v = elim (Bool-cases (length name == 0)) [
  | inl e ↦ rw e tt
  | inr e ↦ rw e (named_field-Keeps f name (trim_ows rest) v (ground (arith, e)))
]

field-Keeps : (f : Fields) (line : Bytes) → IsKept f → Keeps (field f line)
unfolding field
field-Keeps f line v = elim (Bool-cases (starts_folded line)) [
  | inl e ↦ rw e tt
  | inr e ↦ rw e (split_field-Keeps f (split_once b':' line) v)
]

then_fields-Keeps :
    (next : Fields → Result ℕ Fields) (r : Result ℕ Fields)
    → Keeps r
    → ((f : Fields) → IsKept f → Keeps (next f))
    → Keeps (then_fields next r)
unfolding then_fields
then_fields-Keeps next (err status) v n = tt
then_fields-Keeps next (ok f) v n = n f v

next_line-Keeps :
    (loop : Bytes → Result ℕ Fields) (o : Option Bytes)
    → ((line : Bytes) → Keeps (loop line))
    → Keeps (next_line loop o)
unfolding next_line
next_line-Keeps loop none n = tt
next_line-Keeps loop (some line) n = n line

fields-Keeps : (f : Fields) (line : Bytes) (ps : List Bytes) → IsKept f → Keeps (fields f line ps)
unfolding fields
fields-Keeps f line [] v = elim (Bool-cases (length line == 0)) [
  | inl e ↦ rw e v
  | inr e ↦ rw e (field-Keeps f line v)
]
fields-Keeps f line (piece ∷ ps) v =
    next_line-Keeps (λ next. then_fields (λ g. fields g next ps) (field f line))
      (after_return piece)
      (λ next.
        then_fields-Keeps (λ g. fields g next ps) (field f line) (field-Keeps f line v)
          (λ g w. fields-Keeps g next ps w))

pub no_more_fields-Keeps : (ps : List Bytes) → Keeps (no_more_fields no_fields ps)
no_more_fields-Keeps [] = no_fields-IsKept
no_more_fields-Keeps (piece ∷ ps) =
    next_line-Keeps (λ next. fields no_fields next ps) (after_return piece)
      (λ next. fields-Keeps no_fields next ps no_fields-IsKept)
