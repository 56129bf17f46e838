-- ===== src/KnownHosts.antt =====
-- The OpenSSH known_hosts reader of crates/omt-deploy/src/ssh/known_hosts.rs. Parameters: `hmac`, OpenSSL's
-- HMAC-SHA1 of a salt and a name, and `lossy`, the standard library's lossy reading of UTF-8.
-- An index into a text is the part of the text from there on.
mod Globs
mod Hosts
mod Verdict
mod Tests
use rpi_omt_client.Prelude.{
  ℕ, zero, suc, ◌+◌, ◌-◌, ◌*◌, Bool, true, false, not, ◌&&◌, ◌||◌, Option, none, some, List, [],
  ◌∷◌, ◌++◌, map, ltb, leb, ◌==◌, within, lower, eq_ignore_ascii_case, if◌then◌else◌, length, take,
  equal, strip_prefix, split_once, Bytes, codes, Result, ok, err,
}
use rpi_omt_client.Decimal.{decimal}
use rpi_omt_client.Json.{encode_utf8}
use rpi_omt_client.Wire.{split_on, string}
use rpi_omt_client.Wire.Base64.{base64_decode}

pub data HostStatus : Type 0 where
  known unknown changed revoked : HostStatus

-- What the pattern says at a byte of the text.
pub data Move : Type 0 where
  literal : Bytes → Move
  starred : Bytes → Move
  stuck : Move

unfoldable pub move : ℕ → Bytes → Move
move x [] = stuck
move x (c ∷ p) =
    if (c == b'?') || eq_ignore_ascii_case c x
    then literal p
    else if c == b'*'
    then starred p
    else stuck

-- After the text: only stars may be left.
unfoldable pub only_stars : Bytes → Bool
only_stars [] = true
only_stars (c ∷ p) = (c == b'*') && only_stars p

-- The last star's rest of the pattern, and the text from `mark` on.
abbrev pub Star : Type 0
Star = Option (Bytes × Bytes)

unfoldable pub backtrack : (Bytes → Bytes → Star → Bool) → Star → Bool
backtrack loop none = false
backtrack loop (some (q, [])) = false
backtrack loop (some (q, y ∷ t)) = loop t q (some (q, t))

unfoldable pub moved : (Bytes → Bytes → Star → Bool) → ℕ → Bytes → Star → Move → Bool
moved loop x s star (literal p) = loop s p star
moved loop x s star (starred p) = loop (x ∷ s) p (some (p, x ∷ s))
moved loop x s star stuck = backtrack loop star

-- The loop, on rounds.
unfoldable pub glob_rounds : ℕ → Bytes → Bytes → Star → Bool
glob_rounds zero s p star = false
glob_rounds (suc n) [] p star = only_stars p
glob_rounds (suc n) (x ∷ s) p star = moved (glob_rounds n) x s star (move x p)

abbrev pub glob_count : Bytes → Bytes → ℕ
glob_count s p = (length p + 1) * ((length s + 1) * (length p + 1)) + 1

unfoldable pub glob : Bytes → Bytes → Bool
glob s p = glob_rounds (glob_count s p) s p none

-- A pattern of a host list, and whether it is negated.
abbrev pub pattern_of : Bytes → Option Bytes → Bool × Bytes
pattern_of whole none = (false, whole)
pattern_of whole (some p) = (true, p)

-- The loop over the patterns; `positive` is what it has found.
unfoldable pub one_pattern : (Bool → Bool) → Bytes → Bool → Bool × Bytes → Bool
one_pattern loop name positive (negated, pat) =
    if length pat == 0
    then loop positive
    else if glob name pat
    then (if negated then false else loop true)
    else loop positive

unfoldable pub patterns_match : List Bytes → Bytes → Bool → Bool
patterns_match [] name positive = positive
patterns_match (w ∷ ws) name positive =
    one_pattern (patterns_match ws name) name positive (pattern_of w (strip_prefix (codes "!") w))

abbrev pub starts_with : ℕ → Bytes → Bool
starts_with c [] = false
starts_with c (b ∷ bs) = b == c

abbrev pub pieces : Bytes × List Bytes → List Bytes
pieces (first, others) = first ∷ others

-- `host.chars().take(255)`, lowered, with a port that is not 22; a host is its characters.
unfoldable pub lowered : List ℕ → Bytes
lowered [] = []
lowered (c ∷ cs) = encode_utf8 (lower c) ++ lowered cs

unfoldable pub lookup_name : List ℕ → ℕ → Bytes
lookup_name host port =
    let name = lowered (take 255 host) in
    if port == 22 then name else b'[' ∷ (name ++ (b']' ∷ b':' ∷ decimal port))

-- The key type a blob declares, or an empty slice.
abbrev pub or_empty : Option Bytes → Bytes
or_empty none = []
or_empty (some s) = s

unfoldable pub blob_type : Bytes → Bytes
blob_type blob = or_empty (string blob).0

-- The fields of a line: the runs of what is neither a space nor a tab.
abbrev pub extend : ℕ → List Bytes → List Bytes
extend c [] = (c ∷ []) ∷ []
extend c (w ∷ ws) = (c ∷ w) ∷ ws

abbrev pub is_blank : ℕ → Bool
is_blank c = (c == b' ') || (c == 0x09)

abbrev pub non_empty : List Bytes → List Bytes
non_empty [] = []
non_empty ([] ∷ ws) = non_empty ws
non_empty ((c ∷ cs) ∷ ws) = (c ∷ cs) ∷ non_empty ws

unfoldable pub split_blank : Bytes → List Bytes
split_blank [] = [] ∷ []
split_blank (c ∷ cs) = let rest = split_blank cs in if is_blank c then [] ∷ rest else extend c rest

-- `strip_suffix(b"\r")`
unfoldable pub strip_return : Bytes → Bytes
strip_return [] = []
strip_return (c ∷ []) = if c == 0x0d then [] else c ∷ []
strip_return (c ∷ d ∷ cs) = c ∷ strip_return (d ∷ cs)

-- What a line says.
pub data Line : Type 0 where
  skipped : Line
  revokes : Bytes → Line
  trusts : Bytes → Bytes → Line

abbrev pub with_key : (Bytes → Line) → Option Bytes → Line
with_key line none = skipped
with_key line (some key) = line key

-- The fields behind the host names: a key type and the key.
unfoldable pub keyed : (Bytes → Line) → List Bytes → Line
keyed line (kind ∷ text ∷ fs) = with_key line (base64_decode text false)
keyed line _ = skipped

unfoldable pub revoked_line : List Bytes → Line
revoked_line [] = skipped
revoked_line (hosts ∷ fs) = keyed revokes fs

unfoldable pub line_of : List Bytes → Line
line_of [] = skipped
line_of (f ∷ fs) =
    if starts_with b'#' f
    then skipped
    else if starts_with b'@' f
    then (if equal f (codes "@revoked") then revoked_line fs else skipped)
    else keyed (trusts f) fs

-- What the lines have said so far.
pub record Found : Type 0 where
  pub is_known : Bool
  pub is_revoked : Bool
  pub same_type : Bool
  pub types : Option Bytes

unfoldable pub status : Found → HostStatus
status f =
    if f.is_revoked
    then revoked
    else if f.is_known
    then known
    else if f.same_type
    then changed
    else unknown

module _ (hmac : Bytes → Bytes → Option Bytes) where
  abbrev pub same_hash : Option Bytes → Bytes → Bool
  same_hash none hash = false
  same_hash (some mac) hash = equal mac hash

  unfoldable pub salted : Bytes → Option Bytes → Option Bytes → Bool
  salted name (some salt) (some hash) =
      if not (length salt == 20) || not (length hash == 20)
      then false
      else same_hash (hmac salt name) hash
  salted name _ _ = false

  unfoldable pub hashed_rest : Bytes → Option (Bytes × Bytes) → Bool
  hashed_rest name none = false
  hashed_rest name (some (salt, hash)) =
      salted name (base64_decode salt false) (base64_decode hash false)

  unfoldable pub hashed_match : Option Bytes → Bytes → Bool
  hashed_match none name = false
  hashed_match (some rest) name = hashed_rest name (split_once b'|' rest)

  unfoldable pub hosts_match : Bytes → Bytes → Bool
  hosts_match field name =
      if starts_with b'|' field
      then hashed_match (strip_prefix (codes "|1|") field) name
      else patterns_match (pieces (split_on b',' field)) name false

abbrev pub listed : (Bytes → Bytes) → Option Bytes → Bytes → Option Bytes
listed lossy none kind = none
listed lossy (some ts) kind =
    if length kind == 0
    then some ts
    else some (ts ++ ((if length ts == 0 then [] else b',' ∷ []) ++ lossy kind))

-- `!key_blob.is_empty() && line_key == key_blob`
abbrev pub is_offered : Bytes → Bytes → Bool
is_offered key_blob key = not (length key_blob == 0) && equal key key_blob

module _ (hmac : Bytes → Bytes → Option Bytes) (lossy : Bytes → Bytes) where
  unfoldable pub after_line : Bytes → Bytes → Found → Line → Found
  after_line name key_blob f skipped = f
  after_line name key_blob f (revokes key) = record f {
    is_revoked = f.is_revoked || is_offered key_blob key;
  }
  after_line name key_blob f (trusts hosts key) =
      let offered = blob_type key_blob in
      if hosts_match hmac hosts name
      then record f {
        is_known = f.is_known || is_offered key_blob key;
        same_type = f.same_type || (not (length offered == 0) && equal (blob_type key) offered);
        types = listed lossy f.types (blob_type key);
      }
      else f

  unfoldable pub after_lines : Bytes → Bytes → Found → List Bytes → Found
  after_lines name key_blob f [] = f
  after_lines name key_blob f (l ∷ ls) =
      after_lines name key_blob
        (after_line name key_blob f (line_of (non_empty (split_blank (strip_return l))))) ls

  unfoldable pub read_lines : Bytes → List ℕ → ℕ → Bytes → Option Bytes → Found
  read_lines text host port key_blob types =
      after_lines (lookup_name host port) key_blob
        (record { is_known = false; is_revoked = false; same_type = false; types = types })
        (pieces (split_on 0x0a text))

  unfoldable pub parse : Bytes → List ℕ → ℕ → Bytes → Option Bytes → HostStatus × Option Bytes
  parse text host port key_blob types =
      let found = read_lines text host port key_blob types in (status found, found.types)
