-- ===== src/Json/Document/Elements.antt =====
-- What the readers of values, elements and members leave of the text, from what their parts leave.
use rpi_omt_client.Prelude.{
  ℕ, suc, ◌≤◌, ◌<◌, ◌≡◌, ◌≢◌, Option-cases, Bool, true, false, some, [], ◌∷◌, arith, length, Bytes,
  codes, Result, ok, err, leb, ◌==◌, strip_prefix, Bool-cases, inl, inr,
}
use rpi_omt_client.Json.{JsonError, out_of_rounds, number}
use rpi_omt_client.Json.Document.{
  Value, Items, Members, null, bool, num, str, Parser, charge, literal_word, Kind, nulls, trues,
  falses, strings, arrays, objects, numbers, others, kind_of, entered, After, goes_on, closed,
  broken, separated, string, number_value, by_kind, value_at, after_item, after_member, array_at,
  object_at, node_cost,
}
use rpi_omt_client.Json.Document.Leaves.{
  LeavesAt, Keeps, Keeps-bind, Leaves-bind, LeavesAt-bind, LeavesAt-if, skip_spaces-le,
  charge-Keeps, number-Leaves, string-LeavesAt,
}

pub LeavesAt-le :
    {A : Type 0} (m n : ℕ) (r : Result JsonError (A × Parser)) → m ≤ n → LeavesAt m r → LeavesAt n r
LeavesAt-le m n (ok (a, p)) h v = omega arith
LeavesAt-le m n (err e) h v = v

entered-Keeps : (p : Parser) (s : Bytes) → Keeps (length s) (entered p s)
unfolding entered
entered-Keeps p s = elim (Bool-cases (leb 128 p.depth)) [
  | inl e ↦ rw e (λ h. cc)
  | inr e ↦ rw e (skip_spaces-le s)
]

strip_prefix-le : (w s rest : Bytes) → strip_prefix w s ≡ some rest → length rest ≤ length s
unfolding strip_prefix
strip_prefix-le [] s rest h = ground arith
strip_prefix-le (a ∷ w) [] rest h = cc
strip_prefix-le (a ∷ w) (c ∷ s) rest h = ground (arith, strip_prefix-le w s rest)

literal_word-LeavesAt :
    (w : Bytes) (v : Value) (p : Parser) (s : Bytes)
    → LeavesAt (length s) (literal_word w v p (strip_prefix w s))
unfolding literal_word
literal_word-LeavesAt w v p s = elim (Option-cases (strip_prefix w s)) [
  | inl e ↦ rw e (λ h. cc)
  | inr (rest, e) ↦ rw e (strip_prefix-le w s rest e)
]

-- What follows an element leaves less, if another one follows.
abbrev pub LeavesAfter : ℕ → After → Type 0
LeavesAfter n (goes_on p) = length p.rest < n
LeavesAfter n (closed p) = length p.rest ≤ n
LeavesAfter n (broken e) = e ≢ out_of_rounds

pub separated-LeavesAfter :
    (close n : ℕ) (p : Parser) (s : Bytes) → length s ≤ n → LeavesAfter n (separated close p s)
unfolding separated
separated-LeavesAfter close n p [] h = λ e. cc
separated-LeavesAfter close n p (c ∷ cs) h = elim (Bool-cases (c == b',')) [
  | inl e ↦ rw e (omega arith)
  | inr e ↦
      rw e (elim (Bool-cases (c == close)) [ inl d ↦ rw d (omega arith) | inr d ↦ rw d (λ h. cc) ])
]

module _ (is_utf8 : Bytes → Bool) (is_finite : Bytes → Bool) where
  by_kind-LeavesAt :
      (arr obj : Parser → Result JsonError (Value × Parser)) (k : Kind) (p : Parser) (c : ℕ)
      (cs : Bytes)
      → ((q : Parser) → length q.rest ≤ length cs → LeavesAt (length cs) (arr q))
      → ((q : Parser) → length q.rest ≤ length cs → LeavesAt (length cs) (obj q))
      → LeavesAt (suc (length cs)) (by_kind is_utf8 is_finite arr obj k p c cs)
  unfolding by_kind number_value
  by_kind-LeavesAt arr obj nulls p c cs ha ho = literal_word-LeavesAt (codes "null") null p (c ∷ cs)
  by_kind-LeavesAt arr obj trues p c cs ha ho =
      literal_word-LeavesAt (codes "true") (bool true) p (c ∷ cs)
  by_kind-LeavesAt arr obj falses p c cs ha ho =
      literal_word-LeavesAt (codes "false") (bool false) p (c ∷ cs)
  by_kind-LeavesAt arr obj strings p c cs ha ho =
      LeavesAt-bind (length cs) (suc (length cs)) (string is_utf8 is_finite p cs)
        (λ r. ok (str r.0, r.1)) (string-LeavesAt is_utf8 is_finite (length cs) p cs (omega arith))
        (λ r v. omega arith)
  by_kind-LeavesAt arr obj arrays p c cs ha ho =
      Keeps-bind (length cs) (suc (length cs)) (entered p cs) arr (entered-Keeps p cs)
        (λ q v. LeavesAt-le (length cs) (suc (length cs)) (arr q) (omega arith) (ha q v))
  by_kind-LeavesAt arr obj objects p c cs ha ho =
      Keeps-bind (length cs) (suc (length cs)) (entered p cs) obj (entered-Keeps p cs)
        (λ q v. LeavesAt-le (length cs) (suc (length cs)) (obj q) (omega arith) (ho q v))
  by_kind-LeavesAt arr obj numbers p c cs ha ho =
      Leaves-bind (suc (length cs)) (suc (length cs)) (number is_finite (c ∷ cs))
        (λ r. ok (num r.0, record p { rest = r.1 })) (number-Leaves is_utf8 is_finite (c ∷ cs))
        (λ r v. v)
  by_kind-LeavesAt arr obj others p c cs ha ho = λ e. cc

  pub value_at-LeavesAt :
      (n : ℕ) (arr obj : Parser → Result JsonError (Value × Parser)) (p : Parser) (s : Bytes)
      → length s ≤ n
      → ((m : ℕ) (q : Parser) → suc m ≤ n → length q.rest ≤ m → LeavesAt m (arr q))
      → ((m : ℕ) (q : Parser) → suc m ≤ n → length q.rest ≤ m → LeavesAt m (obj q))
      → LeavesAt n (value_at is_utf8 is_finite arr obj p s)
  unfolding value_at
  value_at-LeavesAt n arr obj p [] h ha ho = λ e. cc
  value_at-LeavesAt n arr obj p (c ∷ cs) h ha ho =
      Keeps-bind (suc (length cs)) n (charge (record p { rest = c ∷ cs }) node_cost)
        (λ p1. by_kind is_utf8 is_finite arr obj (kind_of c) p1 c cs)
        (charge-Keeps (record p { rest = c ∷ cs }) node_cost)
        (λ p1 v. LeavesAt-le (suc (length cs)) n _ h (
          by_kind-LeavesAt arr obj (kind_of c) p1 c cs (λ q. ha (length cs) q h)
            (λ q. ho (length cs) q h)))

  pub array_at-LeavesAt :
      (n : ℕ) (read : Parser → Result JsonError (Items × Parser)) (p : Parser) (s : Bytes)
      → length s ≤ n
      → LeavesAt n (read p)
      → LeavesAt n (array_at is_utf8 is_finite read p s)
  unfolding array_at
  array_at-LeavesAt n read p [] h k = LeavesAt-bind n n (read p) _ k (λ r v. v)
  array_at-LeavesAt n read p (c ∷ cs) h k =
      LeavesAt-if n (c == b']') _ _ (omega arith) (LeavesAt-bind n n (read p) _ k (λ r v. v))

  pub object_at-LeavesAt :
      (n : ℕ) (read : Parser → Result JsonError (Members × Parser)) (p : Parser) (s : Bytes)
      → length s ≤ n
      → LeavesAt n (read p)
      → LeavesAt n (object_at is_utf8 is_finite read p s)
  unfolding object_at
  object_at-LeavesAt n read p [] h k = LeavesAt-bind n n (read p) _ k (λ r v. v)
  object_at-LeavesAt n read p (c ∷ cs) h k =
      LeavesAt-if n (c == b'}') _ _ (omega arith) (LeavesAt-bind n n (read p) _ k (λ r v. v))

  pub after_item-LeavesAt :
      (n : ℕ) (read : Parser → Result JsonError (Items × Parser)) (v : Value) (a : After)
      → LeavesAfter n a
      → ((q : Parser) → length q.rest < n → LeavesAt n (read q))
      → LeavesAt n (after_item is_utf8 is_finite read v a)
  unfolding after_item
  after_item-LeavesAt n read v (goes_on p) h k = LeavesAt-bind n n (read p) _ (k p h) (λ r w. w)
  after_item-LeavesAt n read v (closed p) h k = h
  after_item-LeavesAt n read v (broken e) h k = h

  pub after_member-LeavesAt :
      (n : ℕ) (read : Parser → Result JsonError (Members × Parser)) (key : Bytes) (v : Value)
      (a : After)
      → LeavesAfter n a
      → ((q : Parser) → length q.rest < n → LeavesAt n (read q))
      → LeavesAt n (after_member is_utf8 is_finite read key v a)
  unfolding after_member
  after_member-LeavesAt n read key v (goes_on p) h k =
      LeavesAt-bind n n (read p) _ (k p h) (λ r w. w)
  after_member-LeavesAt n read key v (closed p) h k = h
  after_member-LeavesAt n read key v (broken e) h k = h
