-- ===== src/KnownHosts/Hosts.antt =====
-- Which names a list of host patterns takes.
use rpi_omt_client.Prelude.{
  ◌≡◌, ◌∙◌, Bool, false, not, ◌&&◌, ◌||◌, Option, List, [], ◌∷◌, arith, ◌==◌, if◌then◌else◌, length,
  any, has_byte, strip_prefix, Bytes, codes,
}
use rpi_omt_client.Wire.{split_on}
use rpi_omt_client.KnownHosts.{
  pattern_of, one_pattern, patterns_match, starts_with, pieces, hosts_match,
}
use rpi_omt_client.KnownHosts.Globs.{matches, glob-matches}

-- A pattern behind `!` that matches the name.
abbrev pub excludes : Bytes → Bytes → Bool
excludes name [] = false
excludes name (c ∷ p) = (c == b'!') && (not (length p == 0) && matches p name)

-- A pattern with no `!` that matches the name.
abbrev pub includes : Bytes → Bytes → Bool
includes name [] = false
includes name (c ∷ p) = not (c == b'!') && matches (c ∷ p) name

one_pattern_lem :
    (loop : Bool → Bool) (name w : Bytes) (positive : Bool)
    → has_byte b'*' name ≡ false
    → one_pattern loop name positive (pattern_of w (strip_prefix (codes "!") w))
      ≡ (if excludes name w then false else loop (positive || includes name w))
unfolding one_pattern strip_prefix
one_pattern_lem loop name [] positive h = ground arith
one_pattern_lem loop name (c ∷ p) positive h =
    ground (arith, glob-matches name p h, glob-matches name (c ∷ p) h)

patterns_match_lem :
    (ws : List Bytes) (name : Bytes) (positive : Bool)
    → has_byte b'*' name ≡ false
    → patterns_match ws name positive
      ≡ (not (any (excludes name) ws) && (positive || any (includes name) ws))
unfolding patterns_match
patterns_match_lem [] name positive h = ground arith
patterns_match_lem (w ∷ ws) name positive h =
    one_pattern_lem (patterns_match ws name) name w positive h
    ∙ ground (arith, patterns_match_lem ws name (positive || includes name w) h)

module _ (hmac : Bytes → Bytes → Option Bytes) where
  -- For a host field that is not hashed and a name with no star in it, the field takes the name
  -- exactly when one of its patterns with no exclamation mark matches the name and none behind an
  -- exclamation mark does; the loop with its steps back answers as the meaning of stars and question
  -- marks does, case aside.
  pub hosts_match-matches :
      (field name : Bytes)
      → starts_with b'|' field ≡ false
      → has_byte b'*' name ≡ false
      → hosts_match hmac field name ≡ (
          not (any (excludes name) (pieces (split_on b',' field)))
          && any (includes name) (pieces (split_on b',' field)))
  unfolding hosts_match
  hosts_match-matches field name plain h =
      rw plain (patterns_match_lem (pieces (split_on b',' field)) name false h)
