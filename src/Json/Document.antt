-- ===== src/Json/Document.antt =====
-- Whole documents: values, arrays and objects, with their depth and their budget.
use rpi_omt_client.Prelude.{
  ℕ, zero, suc, ◌+◌, ◌-◌, ◌*◌, ◌/◌, Bool, true, false, not, ◌&&◌, ◌||◌, Option, none, some, List,
  [], ◌∷◌, ltb, leb, ◌==◌, if◌then◌else◌, length, any, all, equal, has_byte, Bytes, codes, Result,
  ok, err, strip_prefix,
}
use rpi_omt_client.Decimal.{is_ascii_digit}
use rpi_omt_client.Json.{
  JsonError, invalid_utf8, trailing_characters, too_large, invalid_literal, unexpected_end,
  unexpected_character, too_deep, expected_key, duplicate_key, expected_colon, expected_comma,
  out_of_rounds, Number, number, string_body,
}
pub mod Keys
pub mod Leaves
pub mod Elements
pub mod Rounds
mod Tests

abbrev pub max_depth : ℕ
max_depth = 128

abbrev pub node_cost : ℕ
node_cost = 80

abbrev pub slot_cost : ℕ
slot_cost = 8

mutual
  pub data Value : Type 0 where
    null : Value
    bool : Bool → Value
    num : Number → Value
    str : Bytes → Value
    array : Items → Value
    object : Members → Value

  pub data Items : Type 0 where
    no_items : Items
    item : Value → Items → Items

  pub data Members : Type 0 where
    no_members : Members
    member : Bytes → Value → Members → Members

-- `Value::get` on the members of an object, and `only_keys`.
unfoldable pub get_member : Bytes → Members → Option Value
get_member key no_members = none
get_member key (member k v ms) = if equal k key then some v else get_member key ms

abbrev pub get : Value → Bytes → Option Value
get (object ms) key = get_member key ms
get _ key = none

unfoldable pub all_keys : (Bytes → Bool) → Members → Bool
all_keys test no_members = true
all_keys test (member k v ms) = test k && all_keys test ms

abbrev pub only_keys : Value → List Bytes → Bool
only_keys (object ms) allowed = all_keys (λ k. any (equal k) allowed) ms
only_keys _ allowed = false

-- A string with no embedded NUL.
abbrev pub as_str : Value → Option Bytes
as_str (str s) = if has_byte 0 s then none else some s
as_str _ = none

pub record Parser : Type 0 where
  pub rest : Bytes
  pub depth : ℕ
  pub budget : ℕ

infixl 5 ◌>>=◌
abbrev pub ◌>>=◌ :
    {A B : Type 0} → Result JsonError A → (A → Result JsonError B) → Result JsonError B
ok a >>= f = f a
err e >>= f = err e

unfoldable pub charge : Parser → ℕ → Result JsonError Parser
charge p bytes =
    let rounded = (bytes + 15) / 16 * 16 in
    if ltb p.budget rounded then err too_large else ok (record p { budget = p.budget - rounded })

abbrev pub is_space : ℕ → Bool
is_space c = (c == 0x20) || ((c == 0x09) || ((c == 0x0a) || (c == 0x0d)))

unfoldable pub skip_spaces : Bytes → Bytes
skip_spaces [] = []
skip_spaces (c ∷ cs) = if is_space c then skip_spaces cs else c ∷ cs

abbrev pub skip_ws : Parser → Parser
skip_ws p = record p { rest = skip_spaces p.rest }

-- `literal`, at a byte that the caller has seen.
unfoldable pub literal_word :
    Bytes → Value → Parser → Option Bytes → Result JsonError (Value × Parser)
literal_word word v p none = err invalid_literal
literal_word word v p (some rest) = ok (v, record p { rest = rest })

-- What a value's first byte says.
pub data Kind : Type 0 where
  nulls trues falses strings arrays objects numbers others : Kind

abbrev pub kind_of : ℕ → Kind
kind_of c =
    if c == b'n'
    then nulls
    else if c == b't'
    then trues
    else if c == b'f'
    then falses
    else if c == b'"'
    then strings
    else if c == b'['
    then arrays
    else if c == b'{'
    then objects
    else if (c == b'-') || is_ascii_digit c
    then numbers
    else others

-- A step into a container, past its opening byte.
unfoldable pub entered : Parser → Bytes → Result JsonError Parser
entered p after =
    if leb max_depth p.depth
    then err too_deep
    else ok (record p { rest = skip_spaces after; depth = p.depth + 1 })

abbrev pub left_open : Parser → Bytes → Parser
left_open p rest = record p { rest = rest; depth = p.depth - 1 }

-- What follows an element: another one, the end of the container, or an error.
pub data After : Type 0 where
  goes_on : Parser → After
  closed : Parser → After
  broken : JsonError → After

unfoldable pub separated : ℕ → Parser → Bytes → After
separated close p [] = broken unexpected_end
separated close p (c ∷ cs) =
    if c == b','
    then goes_on (record p { rest = cs })
    else if c == close
    then closed (left_open p cs)
    else broken expected_comma

-- What is left after a document and its spaces.
unfoldable pub whole : Value → Bytes → Result JsonError Value
whole v [] = ok v
whole v (c ∷ cs) = err trailing_characters

module _ (is_utf8 : Bytes → Bool) (is_finite : Bytes → Bool) where
  -- `string`, with the charge for its text and the check of its bytes.
  unfoldable pub string : Parser → Bytes → Result JsonError (Bytes × Parser)
  string p after = string_body after >>= λ r.
      charge (record p { rest = r.1 }) (length r.0 + 1) >>= λ p'.
      if is_utf8 r.0 then ok (r.0, p') else err invalid_utf8

  -- The key of a member and its colon; `seen` are the keys that are there.
  unfoldable pub after_key : List Bytes → Bytes → Parser → Bytes → Result JsonError (Bytes × Parser)
  after_key seen key p [] = err expected_colon
  after_key seen key p (c ∷ cs) =
      if c == b':' then ok (key, record p { rest = cs }) else err expected_colon

  unfoldable pub unseen_key : List Bytes → Bytes → Parser → Result JsonError (Bytes × Parser)
  unseen_key seen key p =
      if any (λ k. equal k key) seen
      then err duplicate_key
      else after_key seen key p (skip_spaces p.rest)

  unfoldable pub object_key : List Bytes → Parser → Bytes → Result JsonError (Bytes × Parser)
  object_key seen p [] = err expected_key
  object_key seen p (c ∷ cs) =
      if c == b'"' then string p cs >>= (λ r. unseen_key seen r.0 r.1) else err expected_key

  unfoldable pub number_value : Parser → Bytes → Result JsonError (Value × Parser)
  number_value p s = number is_finite s >>= λ r. ok (num r.0, record p { rest = r.1 })

  -- A value by its first byte; `arr` and `obj` read what a container holds.
  unfoldable pub by_kind :
      (arr obj : Parser → Result JsonError (Value × Parser))
      → Kind
      → Parser
      → ℕ
      → Bytes
      → Result JsonError (Value × Parser)
  by_kind arr obj nulls p c cs =
      literal_word (codes "null") null p (strip_prefix (codes "null") (c ∷ cs))
  by_kind arr obj trues p c cs =
      literal_word (codes "true") (bool true) p (strip_prefix (codes "true") (c ∷ cs))
  by_kind arr obj falses p c cs =
      literal_word (codes "false") (bool false) p (strip_prefix (codes "false") (c ∷ cs))
  by_kind arr obj strings p c cs = string p cs >>= λ r. ok (str r.0, r.1)
  by_kind arr obj arrays p c cs = entered p cs >>= arr
  by_kind arr obj objects p c cs = entered p cs >>= obj
  by_kind arr obj numbers p c cs = number_value p (c ∷ cs)
  by_kind arr obj others p c cs = err unexpected_character

  unfoldable pub value_at :
      (arr obj : Parser → Result JsonError (Value × Parser))
      → Parser
      → Bytes
      → Result JsonError (Value × Parser)
  value_at arr obj p [] = err unexpected_end
  value_at arr obj p (c ∷ cs) =
      charge (record p { rest = c ∷ cs }) node_cost >>= λ p1. by_kind arr obj (kind_of c) p1 c cs

  -- An element and what follows it.
  unfoldable pub after_item :
      (Parser → Result JsonError (Items × Parser))
      → Value
      → After
      → Result JsonError (Items × Parser)
  after_item items v (goes_on p) = items p >>= λ r. ok (item v r.0, r.1)
  after_item items v (closed p) = ok (item v no_items, p)
  after_item items v (broken e) = err e

  unfoldable pub after_member :
      (Parser → Result JsonError (Members × Parser))
      → Bytes
      → Value
      → After
      → Result JsonError (Members × Parser)
  after_member members k v (goes_on p) = members p >>= λ r. ok (member k v r.0, r.1)
  after_member members k v (closed p) = ok (member k v no_members, p)
  after_member members k v (broken e) = err e

  -- A container, after the test for an empty one.
  unfoldable pub array_at :
      (Parser → Result JsonError (Items × Parser))
      → Parser
      → Bytes
      → Result JsonError (Value × Parser)
  array_at items p [] = items p >>= λ r. ok (array r.0, r.1)
  array_at items p (c ∷ cs) =
      if c == b']'
      then ok (array no_items, left_open p cs)
      else items p >>= (λ r. ok (array r.0, r.1))

  unfoldable pub object_at :
      (Parser → Result JsonError (Members × Parser))
      → Parser
      → Bytes
      → Result JsonError (Value × Parser)
  object_at members p [] = members p >>= λ r. ok (object r.0, r.1)
  object_at members p (c ∷ cs) =
      if c == b'}'
      then ok (object no_members, left_open p cs)
      else members p >>= (λ r. ok (object r.0, r.1))

  -- A value, with rounds for what it holds.
  unfoldable mutual
    pub value : ℕ → Parser → Result JsonError (Value × Parser)
    value zero p = err out_of_rounds
    value (suc n) p = value_at (items_of n) (members_of n) p (skip_spaces p.rest)

    pub items_of : ℕ → Parser → Result JsonError (Value × Parser)
    items_of zero p = err out_of_rounds
    items_of (suc n) p = array_at (items n) p p.rest

    pub members_of : ℕ → Parser → Result JsonError (Value × Parser)
    members_of zero p = err out_of_rounds
    members_of (suc n) p = object_at (members n []) p p.rest

    pub items : ℕ → Parser → Result JsonError (Items × Parser)
    items zero p = err out_of_rounds
    items (suc n) p = charge p slot_cost >>= λ p1.
        value n p1 >>= λ r. after_item (items n) r.0 (separated b']' r.1 (skip_spaces r.1.rest))

    pub members : ℕ → List Bytes → Parser → Result JsonError (Members × Parser)
    members zero seen p = err out_of_rounds
    members (suc n) seen p = charge p (slot_cost * 3) >>= λ p1.
        object_key seen p1 (skip_spaces p1.rest) >>= λ k. value n k.1 >>= λ r.
        after_member (members n (k.0 ∷ seen)) k.0 r.0 (separated b'}' r.1 (skip_spaces r.1.rest))

  unfoldable pub parse_with_budget : Bytes → ℕ → Result JsonError Value
  parse_with_budget text budget =
      if not (is_utf8 text)
      then err invalid_utf8
      else value (3 * length text + 3) (record { rest = text; depth = 0; budget = budget }) >>= λ r.
          whole r.0 (skip_spaces r.1.rest)

  unfoldable pub parse : Bytes → Result JsonError Value
  parse text = parse_with_budget text (length text * 64 + 65536)
