-- ===== src/Http/Kept.antt =====
-- What the header fields that are kept have in common.
use rpi_omt_client.Prelude.{
  ℕ, ◌-◌, ◌^◌, ◌≤◌, ◌<◌, ◌≡◌, refl, Bool, true, false, not, ◌&&◌, ◌||◌, some, List, [], ◌∷◌, ◌++◌,
  arith, ◌==◌, length, any, all, equal_ignore_case, Bytes, codes, Result, ok, err, Bool-cases,
}
use rpi_omt_client.Decimal.{parse_u64}
use rpi_omt_client.Http.{
  Header, is_tchar, is_control, Fields, no_fields, with_token, with_tokens, max_headers, trim_ows,
}

-- A length that a header names is the one that is kept.
abbrev pub NamesLength : Bool → Bool → ℕ → Bytes → Type 0
NamesLength true have n value = (have ≡ true) × (parse_u64 value (2 ^ 32 - 1) ≡ some n)
NamesLength false have n value = Unit {0}

-- One header: its name is a token, its value has no control character, it chooses no transfer encoding, and it
-- names no other length.
pub record IsField (have : Bool) (n : ℕ) (name value : Bytes) : Type 0 where
  pub named : 0 < length name
  pub token : all is_tchar name ≡ true
  pub plain : any is_control value ≡ false
  pub not_encoded : equal_ignore_case name (codes "transfer-encoding") ≡ false
  pub length_is : NamesLength (equal_ignore_case name (codes "content-length")) have n value

abbrev pub AreFields : Bool → ℕ → List Header → Type 0
AreFields have n [] = Unit {0}
AreFields have n ((name, value) ∷ hs) = IsField have n name value × AreFields have n hs

-- A header that names the body's length.
abbrev pub is_length : Header → Bool
is_length (name, value) = equal_ignore_case name (codes "content-length")

pub record IsKept (f : Fields) : Type 0 where
  pub count : length f.headers ≤ max_headers
  pub seen : any is_length f.headers ≡ f.have_length
  pub unset : (f.have_length || (f.content_length == 0)) ≡ true
  pub all_fields : AreFields f.have_length f.content_length f.headers
  pub limit : f.content_length < 2 ^ 32

pub no_fields-IsKept : IsKept no_fields
no_fields-IsKept = record {
  count = omega (arith);
  seen = refl;
  unset = refl;
  all_fields = tt;
  limit = omega (arith);
}

pub any-append {ℓ} :
    {A : Type ℓ} (p : A → Bool) (xs : List A) (a : A) → any p (xs ++ (a ∷ [])) ≡ (any p xs || p a)
any-append p [] a = ground (arith, Bool-cases (p a))
any-append p (x ∷ xs) a = ground (arith, any-append p xs a, Bool-cases (p x))

abbrev pub Keeps : Result ℕ Fields → Type 0
Keeps (ok f) = IsKept f
Keeps (err status) = Unit {0}

pub AreFields-append :
    (have : Bool) (n : ℕ) (hs : List Header) (name value : Bytes)
    → AreFields have n hs
    → IsField have n name value
    → AreFields have n (hs ++ ((name, value) ∷ []))
AreFields-append have n [] name value h k = (k, tt)
AreFields-append have n ((m, v) ∷ hs) name value h k =
    (h.0, AreFields-append have n hs name value h.1 k)

-- A length that is named for the first time, or once more.
NamesLength-again :
    (b have : Bool) (n m : ℕ) (value : Bytes)
    → (have && not (m == n)) ≡ false
    → NamesLength b have n value
    → NamesLength b true m value
NamesLength-again true have n m value e h = ground (arith, e, h)
NamesLength-again false have n m value e h = tt

pub AreFields-again :
    (have : Bool) (n m : ℕ) (hs : List Header)
    → (have && not (m == n)) ≡ false
    → AreFields have n hs
    → AreFields true m hs
AreFields-again have n m [] e h = tt
AreFields-again have n m ((name, value) ∷ hs) e h = (
  record {
    named = h.0.named;
    token = h.0.token;
    plain = h.0.plain;
    not_encoded = h.0.not_encoded;
    length_is =
        NamesLength-again (equal_ignore_case name (codes "content-length")) have n m value e
          h.0.length_is;
  },
  AreFields-again have n m hs e h.1,
)

equal_ignore_case-length : (a b : Bytes) → equal_ignore_case a b ≡ true → length a ≡ length b
unfolding equal_ignore_case
equal_ignore_case-length [] [] h = refl
equal_ignore_case-length [] (b ∷ bs) h = cc
equal_ignore_case-length (a ∷ xs) [] h = cc
equal_ignore_case-length (a ∷ xs) (b ∷ bs) h = ground (arith, equal_ignore_case-length xs bs)

-- Names of two lengths are not both the name.
pub other_name :
    (name a b : Bytes)
    → equal_ignore_case name a ≡ true
    → length a < length b
    → equal_ignore_case name b ≡ false
other_name name a b h k = ground (
  arith,
  equal_ignore_case-length name a h,
  equal_ignore_case-length name b,
  Bool-cases (equal_ignore_case name b),
)

with_token-IsKept : (f : Fields) (t : Bytes) → IsKept f → IsKept (with_token f t)
unfolding with_token
with_token-IsKept f t v = record {
  count = v.count;
  seen = v.seen;
  unset = v.unset;
  all_fields = v.all_fields;
  limit = v.limit;
}

pub with_tokens-IsKept : (f : Fields) (ts : List Bytes) → IsKept f → IsKept (with_tokens f ts)
unfolding with_tokens
with_tokens-IsKept f [] v = v
with_tokens-IsKept f (t ∷ ts) v =
    with_tokens-IsKept (with_token f (trim_ows t)) ts (with_token-IsKept f (trim_ows t) v)
