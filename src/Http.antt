-- ===== src/Http.antt =====
-- The head of an HTTP request, crates/omt-web/src/http.rs. An index into the text is the part of the text from
-- there on, and a byte range is the bytes in it.
mod Kept
mod Lines
mod Heads
mod RequestLine
mod Window
mod Tests
use rpi_omt_client.Prelude.{
  ℕ, zero, suc, ◌+◌, ◌-◌, ◌*◌, ◌^◌, min, Bool, true, false, not, ◌&&◌, ◌||◌, Option, none, some,
  List, [], ◌∷◌, ◌++◌, ltb, leb, ◌==◌, within, if◌then◌else◌, length, take, drop, any, all, equal,
  equal_ignore_case, split_once, Bytes, codes, Result, ok, err,
}
use rpi_omt_client.Decimal.{is_ascii_digit, parse_u64}
use rpi_omt_client.Wire.{split_on}

abbrev pub max_header_bytes : ℕ
max_header_bytes = 16 * 1024

abbrev pub max_headers : ℕ
max_headers = 64

abbrev pub method_max : ℕ
method_max = 15

abbrev pub path_max : ℕ
path_max = 2047

-- A header's name and its value.
abbrev pub Header : Type 0
Header = Bytes × Bytes

pub record Head : Type 0 where
  pub method : Bytes
  pub path : Bytes
  pub headers : List Header
  pub head_len : ℕ
  pub content_length : ℕ
  pub keep_alive : Bool

pub data Parse : Type 0 where
  incomplete : Parse
  complete : Head → Parse
  refuse : ℕ → Parse

abbrev is_alphanumeric : ℕ → Bool
is_alphanumeric c = is_ascii_digit c || (within b'A' b'Z' c || within b'a' b'z' c)

unfoldable pub is_tchar : ℕ → Bool
is_tchar c = is_alphanumeric c || any (λ t. t == c) (codes "!#$%&'*+-.^_`|~")

abbrev pub is_ows : ℕ → Bool
is_ows c = (c == b' ') || (c == 0x09)

unfoldable pub trim_start : Bytes → Bytes
trim_start [] = []
trim_start (c ∷ cs) = if is_ows c then trim_start cs else c ∷ cs

unfoldable pub trim_end : Bytes → Bytes
trim_end [] = []
trim_end (c ∷ cs) =
    let rest = trim_end cs in if is_ows c && (length rest == 0) then [] else c ∷ rest

unfoldable pub trim_ows : Bytes → Bytes
trim_ows s = trim_end (trim_start s)

-- `windows(4).position(|w| w == b"\r\n\r\n")`
abbrev pub after_byte : Option ℕ → Option ℕ
after_byte none = none
after_byte (some n) = some (suc n)

abbrev pub is_blank_line : ℕ → ℕ → ℕ → ℕ → Bool
is_blank_line a b c d = (a == 0x0d) && ((b == 0x0a) && ((c == 0x0d) && (d == 0x0a)))

unfoldable pub find_end : Bytes → Option ℕ
find_end (a ∷ b ∷ c ∷ d ∷ rest) =
    let further = after_byte (find_end (b ∷ c ∷ d ∷ rest)) in
    if is_blank_line a b c d then some 0 else further
find_end _ = none

-- What the header fields have said so far.
pub record Fields : Type 0 where
  pub headers : List Header
  pub have_length : Bool
  pub content_length : ℕ
  pub close : Bool
  pub keep : Bool

abbrev pub no_fields : Fields
no_fields = record {
  headers = [];
  have_length = false;
  content_length = 0;
  close = false;
  keep = false;
}

-- A comma-separated token list.
unfoldable pub with_token : Fields → Bytes → Fields
with_token f token = record f {
  close = f.close || equal_ignore_case token (codes "close");
  keep = f.keep || equal_ignore_case token (codes "keep-alive");
}

unfoldable pub with_tokens : Fields → List Bytes → Fields
with_tokens f [] = f
with_tokens f (t ∷ ts) = with_tokens (with_token f (trim_ows t)) ts

abbrev pub pieces : Bytes × List Bytes → List Bytes
pieces (first, others) = first ∷ others

unfoldable pub with_length : Fields → Option ℕ → Result ℕ Fields
with_length f none = err 400
with_length f (some n) =
    if f.have_length && not (n == f.content_length)
    then err 400
    else ok (record f { content_length = n; have_length = true })

-- A field that is kept, by its name.
unfoldable pub by_name : Fields → Bytes → Bytes → Result ℕ Fields
by_name f name value =
    if equal_ignore_case name (codes "content-length")
    then with_length f (parse_u64 value (2 ^ 32 - 1))
    else if equal_ignore_case name (codes "transfer-encoding")
    then err 411
    else if equal_ignore_case name (codes "connection")
    then ok (with_tokens f (pieces (split_on b',' value)))
    else ok f

abbrev pub is_control : ℕ → Bool
is_control c = (ltb c 0x20 && not (c == 0x09)) || (c == 0x7f)

unfoldable pub named_field : Fields → Bytes → Bytes → Result ℕ Fields
named_field f name value =
    if not (all is_tchar name)
    then err 400
    else if any is_control value
    then err 400
    else if length f.headers == max_headers
    then err 431
    else by_name (record f { headers = f.headers ++ ((name, value) ∷ []) }) name value

unfoldable pub split_field : Fields → Option (Bytes × Bytes) → Result ℕ Fields
split_field f none = err 400
split_field f (some (name, rest)) =
    if length name == 0 then err 400 else named_field f name (trim_ows rest)

abbrev pub starts_folded : Bytes → Bool
starts_folded [] = false
starts_folded (c ∷ cs) = is_ows c

unfoldable pub field : Fields → Bytes → Result ℕ Fields
field f line = if starts_folded line then err 400 else split_field f (split_once b':' line)

-- The byte behind a carriage return.
abbrev pub after_return : Bytes → Option Bytes
after_return [] = none
after_return (c ∷ cs) = if c == 0x0a then some cs else none

unfoldable pub then_fields : (Fields → Result ℕ Fields) → Result ℕ Fields → Result ℕ Fields
then_fields next (err status) = err status
then_fields next (ok f) = next f

unfoldable pub next_line : (Bytes → Result ℕ Fields) → Option Bytes → Result ℕ Fields
next_line loop none = err 400
next_line loop (some line) = loop line

-- The loop over the fields: the rest of the block as its pieces between carriage returns, the first of them
-- behind its line feed.
unfoldable pub fields : Fields → Bytes → List Bytes → Result ℕ Fields
fields f line [] = if length line == 0 then ok f else field f line
fields f line (piece ∷ ps) =
    next_line (λ next. then_fields (λ g. fields g next ps) (field f line)) (after_return piece)

abbrev pub no_more_fields : Fields → List Bytes → Result ℕ Fields
no_more_fields f [] = ok f
no_more_fields f (piece ∷ ps) = next_line (λ next. fields f next ps) (after_return piece)

-- `HTTP/1.1`, `HTTP/1.0`, or another version.
unfoldable pub version : Bytes → Option Bool
version s =
    if equal s (codes "HTTP/1.1")
    then some true
    else if equal s (codes "HTTP/1.0")
    then some false
    else none

abbrev pub before_query : Bytes × List Bytes → Bytes
before_query (path, others) = path

abbrev pub starts_with_slash : Bytes → Bool
starts_with_slash [] = false
starts_with_slash (c ∷ cs) = c == b'/'

abbrev pub is_outside : ℕ → Bool
is_outside c = leb c 0x20 || leb 0x7f c

unfoldable pub finished : Bytes → Bytes → ℕ → Bool → Result ℕ Fields → Parse
finished method path head_len http11 (err status) = refuse status
finished method path head_len http11 (ok f) = complete (record {
  method = method;
  path = path;
  headers = f.headers;
  head_len = head_len;
  content_length = f.content_length;
  keep_alive = not f.close && (http11 || f.keep);
})

unfoldable pub with_version : Bytes → Bytes → ℕ → List Bytes → Option Bool → Parse
with_version method path head_len others none = refuse 505
with_version method path head_len others (some http11) =
    finished method path head_len http11 (no_more_fields no_fields others)

-- The target, and what stands behind it on the request line.
unfoldable pub with_target : Bytes → ℕ → List Bytes → Option (Bytes × Bytes) → Parse
with_target method head_len others none = refuse 400
with_target method head_len others (some (target, rest)) =
    let path = before_query (split_on b'?' target) in
    if not (starts_with_slash target) || any is_outside target
    then refuse 400
    else if ltb path_max (length path)
    then refuse 414
    else with_version method path head_len others (version rest)

-- The end of the request line is looked at before the line is: `next` is what stands behind it.
unfoldable pub with_line_end : Bytes → ℕ → Bytes → List Bytes → Option Bytes → Parse
with_line_end method head_len line others none = refuse 400
with_line_end method head_len line others (some next) =
    with_target method head_len others (split_once b' ' line)

unfoldable pub with_line : Bytes → ℕ → Bytes × List Bytes → Parse
with_line method head_len (line, []) = with_target method head_len [] (split_once b' ' line)
with_line method head_len (line, piece ∷ ps) =
    with_line_end method head_len line (piece ∷ ps) (after_return piece)

unfoldable pub with_method : ℕ → Option (Bytes × Bytes) → Parse
with_method head_len none = refuse 400
with_method head_len (some (method, rest)) =
    if (length method == 0) || (ltb method_max (length method) || not (all is_tchar method))
    then refuse 400
    else with_line method head_len (split_on 0x0d rest)

unfoldable pub with_end : Bytes → Option ℕ → Parse
with_end bytes none = if leb max_header_bytes (length bytes) then refuse 431 else incomplete
with_end bytes (some end) = with_method (end + 4) (split_once b' ' (take end bytes))

unfoldable pub parse_head : Bytes → Parse
parse_head bytes = with_end bytes (find_end (take max_header_bytes bytes))

-- `Request::header`
unfoldable pub header : List Header → Bytes → Option Bytes
header [] name = none
header ((n, v) ∷ hs) name = if equal_ignore_case n name then some v else header hs name

-- The body of `Request::new`
abbrev pub body : Head → Bytes → Bytes
body h bytes =
    let end = min (h.head_len + h.content_length) (length bytes) in
    let start = min h.head_len end in take (end - start) (drop start bytes)

pub record Response : Type 0 where
  pub lines : Bytes
  pub failed : Bool

abbrev pub has_break : Bytes → Bool
has_break s = any (λ c. (c == 0x0d) || (c == 0x0a)) s

unfoldable pub add_header : Response → Bytes → Bytes → Response
add_header r name value =
    if any (λ c. (c == 0x0d) || ((c == 0x0a) || (c == b':'))) name || has_break value
    then record r { failed = true }
    else record r { lines = r.lines ++ (name ++ (codes ": " ++ (value ++ (0x0d ∷ 0x0a ∷ [])))) }
