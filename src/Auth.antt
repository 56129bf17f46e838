-- ===== src/Auth.antt =====
-- The sessions of the web interface, crates/omt-web/src/auth.rs: who is logged in, and who is let in.
-- `List Record` stands for the registry file: what `read_registry` gives of it, and what `write_registry`
-- sorts and replaces it by. Parameters: `keyed_hex`, an HMAC under the secret; `verify`, the test of a
-- password against the stored one; `replaces`, whether the file of these records is within its limit
-- and could be written. The clock and the random session are arguments.
pub mod Registry
pub mod Access
mod Tests
use rpi_omt_client.Prelude.{
  ℕ, zero, suc, ◌+◌, ◌-◌, ◌*◌, ◌^◌, min, Bool, true, false, not, ◌&&◌, ◌||◌, Option, none, some,
  List, [], ◌∷◌, ◌++◌, ltb, leb, ◌==◌, within, if◌then◌else◌, length, any, equal, Bytes, codes,
  has_byte,
}

abbrev pub minimum_password_bytes : ℕ
minimum_password_bytes = 12

abbrev pub maximum_password_bytes : ℕ
maximum_password_bytes = 128

abbrev pub session_id_hex : ℕ
session_id_hex = 64

abbrev pub maximum_sessions : ℕ
maximum_sessions = 64

pub record Record : Type 0 where
  pub key : Bytes
  pub expires_at : ℕ
  pub password_digest : Bytes

pub record Auth : Type 0 where
  pub session_lifetime_s : ℕ
  pub password_digest : Bytes

-- The order of byte strings, and of pairs with a number in front.
unfoldable pub less : Bytes → Bytes → Bool
less xs [] = false
less [] (y ∷ ys) = true
less (x ∷ xs) (y ∷ ys) = ltb x y || ((x == y) && less xs ys)

abbrev pub expires_before : Record → Record → Bool
expires_before a b =
    ltb a.expires_at b.expires_at || ((a.expires_at == b.expires_at) && less a.key b.key)

-- `sort_by` on the key, stable.
unfoldable pub insert_sorted : Record → List Record → List Record
insert_sorted r [] = r ∷ []
insert_sorted r (x ∷ xs) = if less x.key r.key then x ∷ insert_sorted r xs else r ∷ x ∷ xs

unfoldable pub sort_by_key : List Record → List Record
sort_by_key [] = []
sort_by_key (r ∷ rs) = insert_sorted r (sort_by_key rs)

-- `Vec::swap_remove`: the last element takes the place.
abbrev pub last_of : Record → List Record → Record
last_of r [] = r
last_of r (x ∷ xs) = last_of x xs

abbrev pub but_last : Record → List Record → List Record
but_last r [] = []
but_last r (x ∷ xs) = r ∷ but_last x xs

unfoldable pub swap_remove : ℕ → List Record → List Record
swap_remove i [] = []
swap_remove zero (r ∷ []) = []
swap_remove zero (r ∷ x ∷ xs) = last_of x xs ∷ but_last x xs
swap_remove (suc i) (r ∷ xs) = r ∷ swap_remove i xs

unfoldable pub filter : (Record → Bool) → List Record → List Record
filter keep [] = []
filter keep (r ∷ rs) = if keep r then r ∷ filter keep rs else filter keep rs

-- `position`, from an index on.
unfoldable pub position : (Record → Bool) → List Record → Option ℕ
position test [] = none
position test (r ∷ rs) =
    if test r then some 0 else elim (position test rs) [ none ↦ none | some i ↦ some (suc i) ]

-- `records[i] = fresh` at the last record with the key, or `push`.
unfoldable pub put_fresh : Record → List Record → List Record
put_fresh fresh [] = fresh ∷ []
put_fresh fresh (r ∷ rs) =
    if equal r.key fresh.key && not (any (λ x. equal x.key fresh.key) rs)
    then fresh ∷ rs
    else r ∷ put_fresh fresh rs

-- `min_by`: the first of the least, with its index; `at` is the index of the next record.
unfoldable pub oldest_from : ℕ → Record → ℕ → List Record → ℕ
oldest_from best r at [] = best
oldest_from best r at (x ∷ xs) =
    oldest_from (if expires_before x r then at else best) (if expires_before x r then x else r)
      (at + 1) xs

unfoldable pub oldest : List Record → ℕ
oldest [] = 0
oldest (r ∷ rs) = oldest_from 0 r 1 rs

-- `while records.len() > MAXIMUM_SESSIONS`: a round for each record is enough.
unfoldable pub evict : ℕ → List Record → List Record
evict zero rs = rs
evict (suc rounds) rs =
    let rest = evict rounds (swap_remove (oldest rs) rs) in
    if ltb maximum_sessions (length rs) then rest else rs

pub data AuthError : Type 0 where
  no_randomness no_session_key not_written : AuthError

-- `Ok(None)`, `Ok(Some(id))` and `Err`.
pub data Login : Type 0 where
  refused : Login
  logged_in : Bytes → Login
  failed : AuthError → Login

abbrev pub saturating_add : ℕ → ℕ → ℕ
saturating_add a b = min (a + b) (2 ^ 64 - 1)

module _ (keyed_hex : Bytes → Option Bytes) (verify : Bytes → Bool)
    (replaces : List Record → Bool) where
  -- `write_registry`: the records in the order of their keys, if the file can be written.
  pub write_registry : List Record → Option (List Record)
  write_registry rs = let sorted = sort_by_key rs in if replaces sorted then some sorted else none

  abbrev pub is_digest : Option Bytes → Record → Bool
  is_digest none r = false
  is_digest (some d) r = equal d r.key

  abbrev pub previous_digest : Option Bytes → Option Bytes
  previous_digest none = none
  previous_digest (some p) = keyed_hex p

  -- The records that stay at a login.
  abbrev pub stays : Auth → ℕ → Option Bytes → Record → Bool
  stays a now previous r =
      ltb now r.expires_at
      && (equal r.password_digest a.password_digest && not (is_digest (previous_digest previous) r))

  abbrev pub fresh_record : Auth → ℕ → Bytes → Record
  fresh_record a now key = record {
    key = key;
    expires_at = saturating_add now a.session_lifetime_s;
    password_digest = a.password_digest;
  }

  pub with_fresh : Auth → List Record → ℕ → Option Bytes → Bytes → List Record
  with_fresh a disk now previous key =
      let records = put_fresh (fresh_record a now key) (filter (stays a now previous) disk) in
      evict (length records) records

  pub save_login : List Record → List Record → Bytes → List Record × Login
  save_login disk records session = elim (write_registry records) [
    | none ↦ (disk, failed not_written)
    | some written ↦ (written, logged_in session)
  ]

  -- `now` is the clock, `random` the fresh session if there is randomness.
  pub authenticate :
      Auth → List Record → Bytes → Option Bytes → ℕ → Option Bytes → List Record × Login
  authenticate a disk password previous now random =
      if not (verify password) then (disk, refused) else elim random [
        | none ↦ (disk, failed no_randomness)
        | some session ↦ elim (keyed_hex session) [
          | none ↦ (disk, failed no_session_key)
          | some key ↦ save_login disk (with_fresh a disk now previous key) session
        ]
      ]

  abbrev pub is_live : Auth → ℕ → Bytes → Record → Bool
  is_live a now digest r =
      equal r.key digest && (ltb now r.expires_at && equal r.password_digest a.password_digest)

  pub is_current : Auth → List Record → ℕ → Bytes → Bool
  is_current a disk now session = elim (keyed_hex session) [
    | none ↦ false
    | some digest ↦ any (is_live a now digest) disk
  ]

  pub remove_at : List Record → Option ℕ → List Record × Option AuthError
  remove_at disk none = (disk, none)
  remove_at disk (some i) = elim (write_registry (swap_remove i disk)) [
    | none ↦ (disk, some not_written)
    | some written ↦ (written, none)
  ]

  pub revoke : List Record → Bytes → List Record × Option AuthError
  revoke disk session = elim (keyed_hex session) [
    | none ↦ (disk, some no_session_key)
    | some digest ↦ remove_at disk (position (λ r. equal r.key digest) disk)
  ]

  pub csrf_token : Bytes → Bytes → Option Bytes
  csrf_token scope nonce =
      let message = codes "csrf" ++ (0 ∷ (scope ++ (0 ∷ nonce))) in
      if ltb 4096 (length message) then none else keyed_hex message

  -- The comparison in constant time is one of bytes.
  pub verify_csrf : Bytes → Bytes → Bytes → Bool
  verify_csrf scope nonce token = elim (csrf_token scope nonce) [
    | none ↦ false
    | some e ↦ equal e token
  ]
