-- ===== src/Auth/Tests.antt =====
-- Runs of the sessions of crates/omt-web/src/auth.rs, and the theorems about them at concrete inputs.
use rpi_omt_client.Prelude.{
  ◌≤◌, ◌<◌, ◌≡◌, refl, Bool, true, false, Option, none, some, List, [], ◌∷◌, arith, length, Bytes,
  codes, equal, ◌==◌,
}
use rpi_omt_client.Auth.{
  Record, Auth, logged_in, refused, authenticate, with_fresh, stays, save_login, write_registry,
  sort_by_key, insert_sorted, filter, put_fresh, evict, is_current, revoke, remove_at, position,
  swap_remove, csrf_token, verify_csrf, maximum_sessions,
}
use rpi_omt_client.Auth.Registry.{count}
use rpi_omt_client.Auth.Access.{authenticate-is_current, revoke-is_current, length-with_fresh}

-- A digest that keeps the text, one password, and a disk that takes everything.
abbrev plain_digest : Bytes → Option Bytes
plain_digest text = some text

abbrev is_open_sesame : Bytes → Bool
is_open_sesame password = length password == 6

abbrev roomy : List Record → Bool
roomy rs = true

abbrev operator : Auth
operator = record { session_lifetime_s = 100; password_digest = codes "d" }

-- A session that ended at second 5, and one of an older password.
abbrev old_sessions : List Record
old_sessions =
    record { key = codes "a"; expires_at = 5; password_digest = codes "d" }
    ∷ record { key = codes "b"; expires_at = 50; password_digest = codes "c" }
    ∷ []

abbrev new_sessions : List Record
new_sessions = record { key = codes "n"; expires_at = 110; password_digest = codes "d" } ∷ []

logs_in :
    authenticate plain_digest is_open_sesame roomy operator old_sessions
      (codes "sesame")
      none
      10
      (some (codes "n"))
    ≡ (new_sessions, logged_in (codes "n"))
unfolding authenticate with_fresh save_login write_registry sort_by_key insert_sorted filter
    put_fresh evict equal
logs_in = refl

refuses_a_password :
    authenticate plain_digest is_open_sesame roomy operator old_sessions
      (codes "guess")
      none
      10
      (some (codes "n"))
    ≡ (old_sessions, refused)
unfolding authenticate
refuses_a_password = refl

nothing_stays :
    length (filter (stays plain_digest is_open_sesame roomy operator 10 none) old_sessions)
    < maximum_sessions
unfolding filter equal
nothing_stays = omega arith

authenticate-is_current_example :
    is_current plain_digest is_open_sesame roomy operator new_sessions 10 (codes "n") ≡ true
authenticate-is_current_example =
    authenticate-is_current plain_digest is_open_sesame roomy operator old_sessions new_sessions
      (codes "sesame") (codes "n") none 10 (omega arith) (omega arith) nothing_stays logs_in

logs_out : revoke plain_digest is_open_sesame roomy new_sessions (codes "n") ≡ ([], none)
unfolding revoke remove_at position swap_remove write_registry sort_by_key equal
logs_out = refl

at_most_one : (digest : Bytes) → count (λ r. equal r.key digest) new_sessions ≤ 1
unfolding count
at_most_one digest = ground arith

revoke-is_current_example :
    is_current plain_digest is_open_sesame roomy operator [] 10 (codes "n") ≡ false
revoke-is_current_example =
    revoke-is_current plain_digest is_open_sesame roomy operator new_sessions [] (codes "n") 10
      at_most_one logs_out

length-with_fresh_example :
    length (with_fresh plain_digest is_open_sesame roomy operator old_sessions 10 none (codes "n"))
    ≤ maximum_sessions
length-with_fresh_example =
    length-with_fresh plain_digest is_open_sesame roomy operator old_sessions 10 none (codes "n")

checks_a_token :
    verify_csrf plain_digest is_open_sesame roomy (codes "tv") (codes "n") (codes "csrf") ≡ false
unfolding verify_csrf csrf_token equal
checks_a_token = refl
