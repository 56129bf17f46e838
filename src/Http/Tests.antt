-- ===== src/Http/Tests.antt =====
-- Heads that were read, and the theorems on them.
use rpi_omt_client.Prelude.{
  ◌≡◌, ◌≢◌, refl, true, false, some, [], ◌∷◌, ◌++◌, equal, equal_ignore_case, split_once, length,
  Bytes, codes, ok,
}
use rpi_omt_client.Decimal.{parse_u64}
use rpi_omt_client.Wire.{split_on}
use rpi_omt_client.Http.{
  Head, incomplete, complete, refuse, is_tchar, trim_start, trim_end, trim_ows, find_end,
  with_token, with_tokens, with_length, by_name, named_field, split_field, field, then_fields,
  next_line, fields, version, finished, with_version, with_target, with_line, with_line_end,
  with_method, with_end, parse_head, header, body, add_header,
}
use rpi_omt_client.Http.Heads.{IsSafe, parse_head-IsSafe}
use rpi_omt_client.Http.Window.{parse_head-append}

abbrev posted : Bytes
posted =
    codes "POST /api?x=1 HTTP/1.1\r\nHost: pi\r\ncontent-LENGTH: 2 \r\nConnection: a, close\r\n\r\n"

abbrev posted_head : Head
posted_head = record {
  method = codes "POST";
  path = codes "/api";
  headers =
      (codes "Host", codes "pi")
      ∷ (codes "content-LENGTH", codes "2")
      ∷ (codes "Connection", codes "a, close")
      ∷ [];
  head_len = length posted;
  content_length = 2;
  keep_alive = false;
}

posted_is_read : parse_head posted ≡ complete posted_head
unfolding parse_head find_end with_end with_method with_line with_line_end with_target with_version
    finished version fields next_line then_fields field split_field named_field by_name with_length
    with_tokens with_token trim_ows trim_start trim_end is_tchar split_on split_once equal
    equal_ignore_case parse_u64
posted_is_read = refl

two_lengths_differ :
    parse_head (codes "GET / HTTP/1.1\r\nContent-Length: 2\r\nContent-Length: 3\r\n\r\n")
    ≡ refuse 400
unfolding parse_head find_end with_end with_method with_line with_line_end with_target with_version
    finished version fields next_line then_fields field split_field named_field by_name with_length
    with_tokens with_token trim_ows trim_start trim_end is_tchar split_on split_once equal
    equal_ignore_case parse_u64
two_lengths_differ = refl

two_lengths_agree :
    by_name
      (record { headers = []; have_length = true; content_length = 2; close = false; keep = false })
      (codes "content-length")
      (codes "02")
    ≡ ok (record {
      headers = [];
      have_length = true;
      content_length = 2;
      close = false;
      keep = false;
    })
unfolding by_name with_length equal_ignore_case parse_u64
two_lengths_agree = refl

encoded_body_refused :
    parse_head (codes "GET / HTTP/1.1\r\nTransfer-Encoding: chunked\r\n\r\n") ≡ refuse 411
unfolding parse_head find_end with_end with_method with_line with_line_end with_target with_version
    finished version fields next_line then_fields field split_field named_field by_name with_length
    with_tokens with_token trim_ows trim_start trim_end is_tchar split_on split_once equal
    equal_ignore_case parse_u64
encoded_body_refused = refl

folded_line_refused : parse_head (codes "GET / HTTP/1.1\r\nA: b\r\n c\r\n\r\n") ≡ refuse 400
unfolding parse_head find_end with_end with_method with_line with_line_end with_target with_version
    finished version fields next_line then_fields field split_field named_field by_name with_length
    with_tokens with_token trim_ows trim_start trim_end is_tchar split_on split_once equal
    equal_ignore_case parse_u64
folded_line_refused = refl

other_version_refused : parse_head (codes "GET / HTTP/2\r\n\r\n") ≡ refuse 505
unfolding parse_head find_end with_end with_method with_line with_line_end with_target with_version
    finished version fields next_line then_fields field split_field named_field by_name with_length
    with_tokens with_token trim_ows trim_start trim_end is_tchar split_on split_once equal
    equal_ignore_case parse_u64
other_version_refused = refl

bare_return_refused : parse_head (codes "GET / HTTP/1.1\r\r\n\r\n") ≡ refuse 400
unfolding parse_head find_end with_end with_method with_line with_line_end with_target with_version
    finished version fields next_line then_fields field split_field named_field by_name with_length
    with_tokens with_token trim_ows trim_start trim_end is_tchar split_on split_once equal
    equal_ignore_case parse_u64
bare_return_refused = refl

half_a_head : parse_head (codes "GET / HTTP/1.1\r\n") ≡ incomplete
unfolding parse_head find_end with_end with_method with_line with_line_end with_target with_version
    finished version fields next_line then_fields field split_field named_field by_name with_length
    with_tokens with_token trim_ows trim_start trim_end is_tchar split_on split_once equal
    equal_ignore_case parse_u64
half_a_head = refl

header_is_found : header (posted_head.headers) (codes "connection") ≡ some (codes "a, close")
unfolding header equal_ignore_case
header_is_found = refl

body_is_cut : body posted_head (posted ++ codes "hi!") ≡ codes "hi"
body_is_cut = refl

line_break_refused :
    (add_header (record { lines = []; failed = false }) (codes "A") (codes "b\r\nC: d")).failed
    ≡ true
unfolding add_header
line_break_refused = refl

parse_head-IsSafe_example : IsSafe posted posted_head
parse_head-IsSafe_example = parse_head-IsSafe posted posted_head posted_is_read

unfinished : parse_head posted ≢ incomplete
unfinished p = cc (p, posted_is_read)

parse_head-append_example : parse_head (posted ++ codes "hi!") ≡ parse_head posted
parse_head-append_example = parse_head-append posted (codes "hi!") unfinished
