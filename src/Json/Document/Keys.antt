-- ===== src/Json/Document/Keys.antt =====
-- No object of a parsed document has a key twice.
use rpi_omt_client.Prelude.{
  ℕ, zero, suc, ◌≡◌, refl, Bool, true, false, not, ap, subst, ◌*◌, ◌+◌, length, ◌&&◌, Option, none,
  some, List, [], ◌∷◌, arith, any, equal, Bytes, codes, Result, ok, err, ◌==◌, if◌then◌else◌,
  Bool-cases, inl, inr,
}
use rpi_omt_client.Json.{JsonError, number}
use rpi_omt_client.Json.Document.{
  Value, Items, Members, null, bool, num, str, array, object, no_items, item, no_members, member,
  Parser, ◌>>=◌, charge, literal_word, Kind, nulls, trues, falses, strings, arrays, objects,
  numbers, others, kind_of, entered, After, goes_on, closed, broken, string, after_key, unseen_key,
  object_key, number_value, by_kind, value_at, after_item, after_member, array_at, object_at, value,
  items_of, members_of, items, members, parse_with_budget, parse, whole, node_cost, slot_cost,
  skip_spaces,
}

-- Whether every object in a value has each key once; `seen` are the keys that stand before.
unfoldable mutual
  pub distinct : Value → Bool
  distinct null = true
  distinct (bool b) = true
  distinct (num n) = true
  distinct (str s) = true
  distinct (array xs) = distinct_items xs
  distinct (object ms) = distinct_members [] ms

  pub distinct_items : Items → Bool
  distinct_items no_items = true
  distinct_items (item v xs) = distinct v && distinct_items xs

  pub distinct_members : List Bytes → Members → Bool
  distinct_members seen no_members = true
  distinct_members seen (member k v ms) =
      not (any (λ j. equal j k) seen) && (distinct v && distinct_members (k ∷ seen) ms)

-- The test holds for what a reader returns, if it returns.
abbrev Ensures : {A : Type 0} → (A → Bool) → Result JsonError (A × Parser) → Type 0
Ensures test (ok (a, p)) = test a ≡ true
Ensures test (err e) = Unit {0}

Ensures-bind :
    {A B : Type 0} (test : B → Bool) (m : Result JsonError A)
    (f : A → Result JsonError (B × Parser))
    → ((a : A) → m ≡ ok a → Ensures test (f a))
    → Ensures test (m >>= f)
Ensures-bind test (ok a) f h = h a refl
Ensures-bind test (err e) f h = tt

Ensures-if :
    {A : Type 0} (test : A → Bool) (b : Bool) (x y : Result JsonError (A × Parser))
    → Ensures test x
    → Ensures test y
    → Ensures test (if b then x else y)
Ensures-if test true x y hx hy = hx
Ensures-if test false x y hx hy = hy

Ensures-then :
    {A B : Type 0} (test : A → Bool) (test' : B → Bool) (r : Result JsonError (A × Parser))
    (f : A × Parser → Result JsonError (B × Parser))
    → ((a : A × Parser) → test a.0 ≡ true → Ensures test' (f a))
    → Ensures test r
    → Ensures test' (r >>= f)
Ensures-then test test' (ok a) f h v = h a v
Ensures-then test test' (err e) f h v = tt

-- What a reader of one kind gives to one of another.
Ensures-map :
    {A B : Type 0} (test : A → Bool) (test' : B → Bool) (r : Result JsonError (A × Parser))
    (g : A → B)
    → ((a : A) → test a ≡ true → test' (g a) ≡ true)
    → Ensures test r
    → Ensures test' (r >>= λ x. ok (g x.0, x.1))
Ensures-map test test' (ok (a, p)) g h v = h a v
Ensures-map test test' (err e) g h v = tt

abbrev EnsuresValue : Result JsonError Value → Type 0
EnsuresValue (ok v) = distinct v ≡ true
EnsuresValue (err e) = Unit {0}

whole-distinct : (v : Value) (s : Bytes) → distinct v ≡ true → EnsuresValue (whole v s)
unfolding whole
whole-distinct v [] h = h
whole-distinct v (c ∷ cs) h = tt

EnsuresValue-after :
    (r : Result JsonError (Value × Parser))
    → Ensures distinct r
    → EnsuresValue (r >>= λ a. whole a.0 (skip_spaces a.1.rest))
EnsuresValue-after (ok a) h = whole-distinct a.0 (skip_spaces a.1.rest) h
EnsuresValue-after (err e) h = tt

module _ (is_utf8 : Bytes → Bool) (is_finite : Bytes → Bool) where
  literal_word-distinct :
      (word : Bytes) (v : Value) (p : Parser) (o : Option Bytes)
      → distinct v ≡ true
      → Ensures distinct (literal_word word v p o)
  unfolding literal_word
  literal_word-distinct word v p none h = tt
  literal_word-distinct word v p (some rest) h = h

  by_kind-distinct :
      (arr obj : Parser → Result JsonError (Value × Parser)) (k : Kind) (p : Parser) (c : ℕ)
      (cs : Bytes)
      → ((q : Parser) → Ensures distinct (arr q))
      → ((q : Parser) → Ensures distinct (obj q))
      → Ensures distinct (by_kind is_utf8 is_finite arr obj k p c cs)
  unfolding by_kind distinct number_value
  by_kind-distinct arr obj nulls p c cs ha ho = literal_word-distinct (codes "null") null p _ refl
  by_kind-distinct arr obj trues p c cs ha ho =
      literal_word-distinct (codes "true") (bool true) p _ refl
  by_kind-distinct arr obj falses p c cs ha ho =
      literal_word-distinct (codes "false") (bool false) p _ refl
  by_kind-distinct arr obj strings p c cs ha ho =
      Ensures-bind distinct (string is_utf8 is_finite p cs) (λ r. ok (str r.0, r.1)) (λ r e. refl)
  by_kind-distinct arr obj arrays p c cs ha ho =
      Ensures-bind distinct (entered p cs) arr (λ q e. ha q)
  by_kind-distinct arr obj objects p c cs ha ho =
      Ensures-bind distinct (entered p cs) obj (λ q e. ho q)
  by_kind-distinct arr obj numbers p c cs ha ho =
      Ensures-bind distinct (number is_finite (c ∷ cs)) (λ r. ok (num r.0, record p { rest = r.1 }))
        (λ r e. refl)
  by_kind-distinct arr obj others p c cs ha ho = tt

  value_at-distinct :
      (arr obj : Parser → Result JsonError (Value × Parser)) (p : Parser) (s : Bytes)
      → ((q : Parser) → Ensures distinct (arr q))
      → ((q : Parser) → Ensures distinct (obj q))
      → Ensures distinct (value_at is_utf8 is_finite arr obj p s)
  unfolding value_at
  value_at-distinct arr obj p [] ha ho = tt
  value_at-distinct arr obj p (c ∷ cs) ha ho =
      Ensures-bind distinct (charge (record p { rest = c ∷ cs }) node_cost)
        (λ p1. by_kind is_utf8 is_finite arr obj (kind_of c) p1 c cs)
        (λ p1 e. by_kind-distinct arr obj (kind_of c) p1 c cs ha ho)

  array_at-distinct :
      (read : Parser → Result JsonError (Items × Parser)) (p : Parser) (s : Bytes)
      → ((q : Parser) → Ensures distinct_items (read q))
      → Ensures distinct (array_at is_utf8 is_finite read p s)
  unfolding array_at distinct
  array_at-distinct read p [] h =
      Ensures-map distinct_items distinct (read p) array (λ a v. v) (h p)
  array_at-distinct read p (c ∷ cs) h = elim (Bool-cases (c == b']')) [
    | inl e ↦ rw e refl
    | inr e ↦ rw e (Ensures-map distinct_items distinct (read p) array (λ a v. v) (h p))
  ]

  object_at-distinct :
      (read : Parser → Result JsonError (Members × Parser)) (p : Parser) (s : Bytes)
      → ((q : Parser) → Ensures (distinct_members []) (read q))
      → Ensures distinct (object_at is_utf8 is_finite read p s)
  unfolding object_at distinct
  object_at-distinct read p [] h =
      Ensures-map (distinct_members []) distinct (read p) object (λ a v. v) (h p)
  object_at-distinct read p (c ∷ cs) h = elim (Bool-cases (c == b'}')) [
    | inl e ↦ rw e refl
    | inr e ↦ rw e (Ensures-map (distinct_members []) distinct (read p) object (λ a v. v) (h p))
  ]

  after_item-distinct :
      (read : Parser → Result JsonError (Items × Parser)) (v : Value) (a : After)
      → distinct v ≡ true
      → ((q : Parser) → Ensures distinct_items (read q))
      → Ensures distinct_items (after_item is_utf8 is_finite read v a)
  unfolding after_item distinct
  after_item-distinct read v (goes_on p) hv h =
      Ensures-map distinct_items distinct_items (read p) (item v) (λ a e. ground (arith, hv, e))
        (h p)
  after_item-distinct read v (closed p) hv h = ground (arith, hv)
  after_item-distinct read v (broken e) hv h = tt

  after_member-distinct :
      (seen : List Bytes) (read : Parser → Result JsonError (Members × Parser)) (k : Bytes)
      (v : Value) (a : After)
      → any (λ j. equal j k) seen ≡ false
      → distinct v ≡ true
      → ((q : Parser) → Ensures (distinct_members (k ∷ seen)) (read q))
      → Ensures (distinct_members seen) (after_member is_utf8 is_finite read k v a)
  unfolding after_member distinct
  after_member-distinct seen read k v (goes_on p) new hv h =
      Ensures-map (distinct_members (k ∷ seen)) (distinct_members seen) (read p) (member k v)
        (λ a e. ground (arith, new, hv, e)) (h p)
  after_member-distinct seen read k v (closed p) new hv h = ground (arith, new, hv)
  after_member-distinct seen read k v (broken e) new hv h = tt

  after_key-new :
      (test : Bytes → Bool) (seen : List Bytes) (key : Bytes) (p : Parser) (s : Bytes)
      → test key ≡ true
      → Ensures test (after_key is_utf8 is_finite seen key p s)
  unfolding after_key
  after_key-new test seen key p [] h = tt
  after_key-new test seen key p (c ∷ cs) h = Ensures-if test (c == b':') _ _ h tt

  unseen_key-new :
      (seen : List Bytes) (key : Bytes) (p : Parser)
      → Ensures (λ k. not (any (λ j. equal j k) seen)) (unseen_key is_utf8 is_finite seen key p)
  unfolding unseen_key
  unseen_key-new seen key p = elim (Bool-cases (any (λ k. equal k key) seen)) [
    | inl e ↦ rw e tt
    | inr e ↦ rw e (after_key-new (λ k. not (any (λ j. equal j k) seen)) seen key p _ (ap not e))
  ]

  object_key-new :
      (seen : List Bytes) (p : Parser) (s : Bytes)
      → Ensures (λ k. not (any (λ j. equal j k) seen)) (object_key is_utf8 is_finite seen p s)
  unfolding object_key
  object_key-new seen p [] = tt
  object_key-new seen p (c ∷ cs) =
      Ensures-if (λ k. not (any (λ j. equal j k) seen)) (c == b'"') _ _
        (Ensures-bind (λ k. not (any (λ j. equal j k) seen)) (string is_utf8 is_finite p cs) _
          (λ r e. unseen_key-new seen r.0 r.1))
        tt

  mutual
    unfolding value

    value-distinct : (n : ℕ) (p : Parser) → Ensures distinct (value is_utf8 is_finite n p)
    value-distinct zero p = tt
    value-distinct (suc n) p =
        value_at-distinct (items_of is_utf8 is_finite n) (members_of is_utf8 is_finite n) p _
          (items_of-distinct n) (members_of-distinct n)

    items_of-distinct : (n : ℕ) (p : Parser) → Ensures distinct (items_of is_utf8 is_finite n p)
    items_of-distinct zero p = tt
    items_of-distinct (suc n) p =
        array_at-distinct (items is_utf8 is_finite n) p p.rest (items-distinct n)

    members_of-distinct : (n : ℕ) (p : Parser) → Ensures distinct (members_of is_utf8 is_finite n p)
    members_of-distinct zero p = tt
    members_of-distinct (suc n) p =
        object_at-distinct (members is_utf8 is_finite n []) p p.rest (members-distinct n [])

    items-distinct : (n : ℕ) (p : Parser) → Ensures distinct_items (items is_utf8 is_finite n p)
    items-distinct zero p = tt
    items-distinct (suc n) p = Ensures-bind distinct_items (charge p slot_cost) _ (λ p1 e.
        Ensures-then distinct distinct_items (value is_utf8 is_finite n p1) _
          (λ r hv. after_item-distinct (items is_utf8 is_finite n) r.0 _ hv (items-distinct n))
          (value-distinct n p1))

    members-distinct :
        (n : ℕ) (seen : List Bytes) (p : Parser)
        → Ensures (distinct_members seen) (members is_utf8 is_finite n seen p)
    members-distinct zero seen p = tt
    members-distinct (suc n) seen p =
        Ensures-bind (distinct_members seen) (charge p (slot_cost * 3)) _ (λ p1 e.
          Ensures-then (λ k. not (any (λ j. equal j k) seen)) (distinct_members seen)
            (object_key is_utf8 is_finite seen p1 (skip_spaces p1.rest)) _
            (λ k new.
              Ensures-then distinct (distinct_members seen) (value is_utf8 is_finite n k.1) _
                (λ r hv.
                  after_member-distinct seen (members is_utf8 is_finite n (k.0 ∷ seen)) k.0 r.0 _
                    (ground (arith, new)) hv (members-distinct n (k.0 ∷ seen)))
                (value-distinct n k.1))
            (object_key-new seen p1 (skip_spaces p1.rest)))

  parse_with_budget-distinct :
      (text : Bytes) (budget : ℕ) → EnsuresValue (parse_with_budget is_utf8 is_finite text budget)
  unfolding parse_with_budget
  parse_with_budget-distinct text budget = elim (Bool-cases (is_utf8 text)) [
    | inl e ↦ rw e (EnsuresValue-after _ (value-distinct (3 * length text + 3) _))
    | inr e ↦ rw e tt
  ]

  -- In whatever document is parsed, no object at any depth has a key twice.
  pub parse-distinct :
      (text : Bytes) (v : Value) → parse is_utf8 is_finite text ≡ ok v → distinct v ≡ true
  unfolding parse
  parse-distinct text v h =
      subst EnsuresValue h (parse_with_budget-distinct text (length text * 64 + 65536))
