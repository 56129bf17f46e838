-- ===== src/Json/Document/Rounds.antt =====
-- The rounds of a document suffice: each reader ends, with no more text left than it was given.
use rpi_omt_client.Prelude.{
  ℕ, zero, suc, ◌+◌, ◌-◌, ◌*◌, ◌≤◌, ◌≢◌, refl, subst, Bool, List, [], ◌∷◌, arith, length, Bytes,
  Result, ok, err, Bool-cases, inl, inr,
}
use rpi_omt_client.Json.{JsonError, out_of_rounds}
use rpi_omt_client.Json.Document.{
  Value, Parser, ◌>>=◌, charge, object_key, value, items_of, members_of, items, members,
  parse_with_budget, parse, whole, slot_cost, skip_spaces,
}
use rpi_omt_client.Json.Document.Leaves.{
  LeavesAt, Keeps-bind, LeavesAt-bind, skip_spaces-le, charge-Keeps, object_key-LeavesAt,
}
use rpi_omt_client.Json.Document.Elements.{
  LeavesAt-le, separated-LeavesAfter, value_at-LeavesAt, array_at-LeavesAt, object_at-LeavesAt,
  after_item-LeavesAt, after_member-LeavesAt,
}

module _ (is_utf8 : Bytes → Bool) (is_finite : Bytes → Bool) where
  -- With as many rounds for what is left each reader ends.
  mutual
    unfolding value

    value-LeavesAt :
        (n l : ℕ) (p : Parser)
        → length p.rest ≤ l
        → 3 * l + 1 ≤ n
        → LeavesAt l (value is_utf8 is_finite n p)
    value-LeavesAt zero l p h k = absurd (omega arith)
    value-LeavesAt (suc n) l p h k =
        value_at-LeavesAt is_utf8 is_finite l (items_of is_utf8 is_finite n)
          (members_of is_utf8 is_finite n) p (skip_spaces p.rest)
          (omega (arith, skip_spaces-le p.rest))
          (λ m q less v. items_of-LeavesAt n m q v (omega arith))
          (λ m q less v. members_of-LeavesAt n m q v (omega arith))

    items_of-LeavesAt :
        (n l : ℕ) (p : Parser)
        → length p.rest ≤ l
        → 3 * l + 3 ≤ n
        → LeavesAt l (items_of is_utf8 is_finite n p)
    items_of-LeavesAt zero l p h k = absurd (omega arith)
    items_of-LeavesAt (suc n) l p h k =
        array_at-LeavesAt is_utf8 is_finite l (items is_utf8 is_finite n) p p.rest h
          (items-LeavesAt n l p h (omega arith))

    members_of-LeavesAt :
        (n l : ℕ) (p : Parser)
        → length p.rest ≤ l
        → 3 * l + 3 ≤ n
        → LeavesAt l (members_of is_utf8 is_finite n p)
    members_of-LeavesAt zero l p h k = absurd (omega arith)
    members_of-LeavesAt (suc n) l p h k =
        object_at-LeavesAt is_utf8 is_finite l (members is_utf8 is_finite n []) p p.rest h
          (members-LeavesAt n l [] p h (omega arith))

    items-LeavesAt :
        (n l : ℕ) (p : Parser)
        → length p.rest ≤ l
        → 3 * l + 2 ≤ n
        → LeavesAt l (items is_utf8 is_finite n p)
    items-LeavesAt zero l p h k = absurd (omega arith)
    items-LeavesAt (suc n) l p h k =
        Keeps-bind (length p.rest) l (charge p slot_cost) _ (charge-Keeps p slot_cost) (λ p1 v.
          LeavesAt-bind l l (value is_utf8 is_finite n p1) _
            (value-LeavesAt n l p1 (omega arith) (omega arith))
            (λ r w.
              after_item-LeavesAt is_utf8 is_finite l (items is_utf8 is_finite n) r.0 _
                (separated-LeavesAfter b']' l r.1 (skip_spaces r.1.rest)
                  (omega (arith, skip_spaces-le r.1.rest)))
                (λ q less.
                  LeavesAt-le (l - 1) l _ (omega arith)
                    (items-LeavesAt n (l - 1) q (omega arith) (omega arith)))))

    members-LeavesAt :
        (n l : ℕ) (seen : List Bytes) (p : Parser)
        → length p.rest ≤ l
        → 3 * l + 2 ≤ n
        → LeavesAt l (members is_utf8 is_finite n seen p)
    members-LeavesAt zero l seen p h k = absurd (omega arith)
    members-LeavesAt (suc n) l seen p h k =
        Keeps-bind (length p.rest) l (charge p (slot_cost * 3)) _ (charge-Keeps p (slot_cost * 3))
          (λ p1 v.
            LeavesAt-bind l l (object_key is_utf8 is_finite seen p1 (skip_spaces p1.rest)) _
              (object_key-LeavesAt is_utf8 is_finite l seen p1 (skip_spaces p1.rest)
                (omega (arith, skip_spaces-le p1.rest)))
              (λ key u.
                LeavesAt-bind l l (value is_utf8 is_finite n key.1) _
                  (value-LeavesAt n l key.1 u (omega arith))
                  (λ r w.
                    after_member-LeavesAt is_utf8 is_finite l
                      (members is_utf8 is_finite n (key.0 ∷ seen)) key.0 r.0 _
                      (separated-LeavesAfter b'}' l r.1 (skip_spaces r.1.rest)
                        (omega (arith, skip_spaces-le r.1.rest)))
                      (λ q less. LeavesAt-le (l - 1) l _ (omega arith) (
                        members-LeavesAt n (l - 1) (key.0 ∷ seen) q (omega arith) (omega arith))))))

  abbrev HasEnded : Result JsonError Value → Type 0
  HasEnded (ok v) = Unit {0}
  HasEnded (err e) = e ≢ out_of_rounds

  whole-HasEnded : (v : Value) (s : Bytes) → HasEnded (whole v s)
  unfolding whole
  whole-HasEnded v [] = tt
  whole-HasEnded v (c ∷ cs) = λ e. cc

  LeavesAt-HasEnded :
      (n : ℕ) (r : Result JsonError (Value × Parser))
      → LeavesAt n r
      → HasEnded (r >>= λ a. whole a.0 (skip_spaces a.1.rest))
  LeavesAt-HasEnded n (ok a) h = whole-HasEnded a.0 (skip_spaces a.1.rest)
  LeavesAt-HasEnded n (err e) h = h

  parse_with_budget-HasEnded :
      (text : Bytes) (budget : ℕ) → HasEnded (parse_with_budget is_utf8 is_finite text budget)
  unfolding parse_with_budget
  parse_with_budget-HasEnded text budget = elim (Bool-cases (is_utf8 text)) [
    | inl e ↦ rw e (
        LeavesAt-HasEnded (length text) _
          (value-LeavesAt (3 * length text + 3) (length text) _ (omega arith) (omega arith)))
    | inr e ↦ rw e (λ h. cc)
  ]

  -- The parse of any document ends within the rounds it is given, with a value or an error of the
  -- source.
  pub parse_ends : (text : Bytes) → parse is_utf8 is_finite text ≢ err out_of_rounds
  unfolding parse
  parse_ends text h =
      subst HasEnded h (parse_with_budget-HasEnded text (length text * 64 + 65536)) refl
