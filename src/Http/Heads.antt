-- ===== src/Http/Heads.antt =====
-- What a head that is accepted promises to the handler behind it.
use rpi_omt_client.Prelude.{
  ℕ, ◌+◌, ◌^◌, ◌≤◌, ◌<◌, ◌≡◌, refl, ap, ◌∙◌, subst, Bool, true, false, not, ◌||◌, Option, none,
  some, List, [], ◌∷◌, ◌++◌, arith, ltb, leb, ◌==◌, length, take, drop, take-append-drop,
  append_assoc, any, all, split_once, Bytes, Result, ok, err, Bool-cases, inl, inr,
}
use rpi_omt_client.Wire.{split_on}
use rpi_omt_client.Http.{
  Head, Parse, incomplete, complete, refuse, is_tchar, Fields, no_fields, after_return,
  no_more_fields, max_headers, method_max, path_max, version, before_query, starts_with_slash,
  is_outside, finished, with_version, with_target, with_line, with_line_end, with_method, with_end,
  parse_head, find_end, max_header_bytes,
}
use rpi_omt_client.Http.RequestLine.{
  Ends, split_on-IsFirst, split_once-Splits, Splits, any-append_left, any-append_right, HasLine,
  HasTarget, target_of_line, line_of_pieces,
}
use rpi_omt_client.Http.Kept.{AreFields, is_length, Keeps}
use rpi_omt_client.Http.Lines.{no_more_fields-Keeps}
use rpi_omt_client.Http.Window.{find_end_of_window}

-- The path in a request line: behind the method and a space stands the target, which is the path up to the
-- first question mark and the query from there on, and behind it a space.
pub record IsTarget (bytes method path : Bytes) : Type 0 where
  pub query : Bytes
  pub found : HasLine bytes method ((path ++ query) ++ (b' ' ∷ []))
  pub query_starts : Ends b'?' query
  pub query_plain : any is_outside query ≡ false
  pub path_whole : any (λ c. c == b'?') path ≡ false

-- The head that a handler is given, of these bytes.
pub record IsSafe (bytes : Bytes) (h : Head) : Type 0 where
  pub target : IsTarget bytes h.method h.path
  pub method_len : (0 < length h.method) × (length h.method ≤ method_max)
  pub method_token : all is_tchar h.method ≡ true
  pub head_size : h.head_len ≤ max_header_bytes
  pub path_len : length h.path ≤ path_max
  pub path_slash : starts_with_slash h.path ≡ true
  pub path_plain : any is_outside h.path ≡ false
  pub header_count : length h.headers ≤ max_headers
  pub length_limit : h.content_length < 2 ^ 32
  pub no_length : (any is_length h.headers || (h.content_length == 0)) ≡ true
  pub header_fields : AreFields (any is_length h.headers) h.content_length h.headers

abbrev IsSound : Bytes → Parse → Type 0
IsSound bytes incomplete = Unit {0}
IsSound bytes (refuse status) = Unit {0}
IsSound bytes (complete h) = IsSafe bytes h

before_query-slash :
    (s : Bytes)
    → starts_with_slash s ≡ true
    → starts_with_slash (before_query (split_on b'?' s)) ≡ true
unfolding split_on
before_query-slash [] h = h
before_query-slash (c ∷ cs) h = elim (Bool-cases (c == b'?')) [
  | inl e ↦ ground (arith, e, h)
  | inr e ↦ rw e h
]

module _ (bytes method : Bytes) (m : 0 < length method) (n : length method ≤ method_max)
    (t : all is_tchar method ≡ true) (head_len : ℕ) (w : head_len ≤ max_header_bytes) where
  module _ (path : Bytes) (p : length path ≤ path_max) (s : starts_with_slash path ≡ true)
      (o : any is_outside path ≡ false) (l : IsTarget bytes method path) where
    finished-IsSound :
        (http11 : Bool) (r : Result ℕ Fields)
        → Keeps r
        → IsSound bytes (finished method path head_len http11 r)
    unfolding finished
    finished-IsSound http11 (err status) v = tt
    finished-IsSound http11 (ok f) v = record {
      target = l;
      method_len = (m, n);
      method_token = t;
      head_size = w;
      path_len = p;
      path_slash = s;
      path_plain = o;
      header_count = v.count;
      length_limit = v.limit;
      no_length = rw v.seen v.unset;
      header_fields = rw v.seen v.all_fields;
    }

    with_version-IsSound :
        (others : List Bytes) (v : Option Bool)
        → IsSound bytes (with_version method path head_len others v)
    unfolding with_version
    with_version-IsSound others none = tt
    with_version-IsSound others (some http11) =
        finished-IsSound http11 (no_more_fields no_fields others) (no_more_fields-Keeps others)

  plain_target :
      (target : Bytes)
      → HasLine bytes method (target ++ (b' ' ∷ []))
      → any is_outside target ≡ false
      → (any is_outside (before_query (split_on b'?' target)) ≡ false)
        × IsTarget bytes method (before_query (split_on b'?' target))
  plain_target target h e =
      let v = split_on-IsFirst b'?' target in
      let path = before_query (split_on b'?' target) in
      let plain : any is_outside (path ++ v.rest) ≡ false = rw v.joins at e in
      (
        any-append_left is_outside path v.rest plain,
        record {
          query = v.rest;
          found = (h.0, h.1 ∙ ap (λ t. method ++ (b' ' ∷ ((t ++ (b' ' ∷ [])) ++ h.0))) v.joins);
          query_starts = v.ends;
          query_plain = any-append_right is_outside path v.rest plain;
          path_whole = v.lacks;
        },
      )

  with_target-IsSound :
      (others : List Bytes) (o : Option (Bytes × Bytes))
      → HasTarget bytes method o
      → IsSound bytes (with_target method head_len others o)
  unfolding with_target
  with_target-IsSound others none h = tt
  with_target-IsSound others (some (target, rest)) h =
      elim (Bool-cases (not (starts_with_slash target) || any is_outside target)) [
        | inl e ↦ rw e tt
        | inr e ↦
            rw e (elim (Bool-cases (ltb path_max (length (before_query (split_on b'?' target))))) [
              | inl d ↦ rw d tt
              | inr d ↦ rw d (
                  let r =
                    plain_target target h (ground (arith, e, Bool-cases (any is_outside target))) in
                  with_version-IsSound (before_query (split_on b'?' target)) (ground (arith, d))
                    (before_query-slash target
                      (ground (arith, e, Bool-cases (starts_with_slash target))))
                    r.0 r.1 others (version rest))
            ])
      ]

  with_first_line-IsSound :
      (line : Bytes) (others : List Bytes)
      → HasLine bytes method line
      → IsSound bytes (with_target method head_len others (split_once b' ' line))
  with_first_line-IsSound line others h =
      with_target-IsSound others (split_once b' ' line)
        (target_of_line bytes method line _ h (split_once-Splits b' ' line))

  with_line_end-IsSound :
      (line : Bytes) (others : List Bytes) (o : Option Bytes)
      → HasLine bytes method line
      → IsSound bytes (with_line_end method head_len line others o)
  unfolding with_line_end
  with_line_end-IsSound line others none h = tt
  with_line_end-IsSound line others (some next) h = with_first_line-IsSound line others h

  with_line-IsSound :
      (l : Bytes × List Bytes)
      → HasLine bytes method l.0
      → IsSound bytes (with_line method head_len l)
  unfolding with_line
  with_line-IsSound (line, []) h = with_first_line-IsSound line [] h
  with_line-IsSound (line, piece ∷ ps) h =
      with_line_end-IsSound line (piece ∷ ps) (after_return piece) h

-- The method that is cut from the start of the bytes.
abbrev HasMethod : Bytes → Option (Bytes × Bytes) → Type 0
HasMethod bytes none = Unit {0}
HasMethod bytes (some (method, rest)) = HasLine bytes method rest

method_of_start :
    (start behind : Bytes) (o : Option (Bytes × Bytes))
    → Splits b' ' start o
    → HasMethod (start ++ behind) o
method_of_start start behind none h = tt
method_of_start start behind (some (method, rest)) h =
    (behind, ap (λ s. s ++ behind) h ∙ append_assoc method (b' ' ∷ rest) behind)

with_method-IsSound :
    (bytes : Bytes) (head_len : ℕ)
    → head_len ≤ max_header_bytes
    → (o : Option (Bytes × Bytes)) → HasMethod bytes o
    → IsSound bytes (with_method head_len o)
unfolding with_method
with_method-IsSound bytes head_len w none h = tt
with_method-IsSound bytes head_len w (some (method, rest)) h =
    elim (Bool-cases
      ((length method == 0) || (ltb method_max (length method) || not (all is_tchar method)))) [
        | inl e ↦ rw e tt
        | inr e ↦ rw e (
            with_line-IsSound bytes method (ground (arith, e)) (ground (arith, e))
              (ground (arith, e, Bool-cases (all is_tchar method))) head_len w (split_on 0x0d rest)
              (line_of_pieces bytes method rest _ h (split_on-IsFirst 0x0d rest)))
      ]

with_end-IsSound :
    (bytes : Bytes) (o : Option ℕ)
    → ((e : ℕ) → o ≡ some e → e + 4 ≤ max_header_bytes)
    → IsSound bytes (with_end bytes o)
unfolding with_end
with_end-IsSound bytes none w = elim (Bool-cases (leb max_header_bytes (length bytes))) [
  | inl e ↦ rw e tt
  | inr e ↦ rw e tt
]
with_end-IsSound bytes (some end) w =
    let start = split_once b' ' (take end bytes) in
    with_method-IsSound bytes (end + 4) (w end refl) start (
      subst (λ all_bytes. HasMethod all_bytes start) (take-append-drop end bytes)
        (method_of_start (take end bytes) (drop end bytes) start
          (split_once-Splits b' ' (take end bytes))))

-- A head that is accepted has a method of 1 to 15 token bytes, which the bytes start with; behind it
-- and a space stands the target, up to the next space, which is the path and, from the first
-- question mark on, the query. The path has no question mark, starts with a slash and has at most 2047
-- bytes; it and the query are of printable bytes. The size is within the window and there are at most
-- 64 headers;
-- each header has a name of token bytes, a value with no control character but the tab and chooses
-- no transfer encoding; each Content-Length header is a number below 2 ^ 32 that is the length of
-- the body, so two of them agree, and without one the length is zero.
pub parse_head-IsSafe : (bytes : Bytes) (h : Head) → parse_head bytes ≡ complete h → IsSafe bytes h
unfolding parse_head
parse_head-IsSafe bytes h e = subst (IsSound bytes) e (
    with_end-IsSound bytes (find_end (take max_header_bytes bytes))
      (λ n p. omega (arith, find_end_of_window bytes n p)))
