-- ===== src/Wire/Tests.antt =====
-- Runs of crates/omt-deploy/src/ssh/wire.rs, and the theorems about it at concrete inputs.
use rpi_omt_client.Prelude.{◌≡◌, refl, true, false, none, some, [], ◌∷◌, ◌++◌, arith, codes}
use rpi_omt_client.Cursor.{be32_read, take_bytes}
use rpi_omt_client.Wire.{
  put_mpint, string, mpint, namelist_has, first_name, contains_bytes, trim_zeros, top_bit_set,
}
use rpi_omt_client.Wire.RoundTrip.{mpint-put_mpint}

lists :
    (namelist_has (codes "aes,none,zlib") (codes "none") ≡ true)
    × (namelist_has (codes "aes,none") (codes "non") ≡ false)
    × (first_name (codes "aes,none") ≡ codes "aes")
    × (contains_bytes (codes "Password: ") (codes "word:") ≡ true)
    × (contains_bytes (codes "Pass") (codes "") ≡ false)
unfolding namelist_has first_name contains_bytes
lists = (refl, refl, refl, refl, refl)

-- A set top bit would read as a negative number, which `mpint` refuses.
negative_mpint : mpint (0 ∷ 0 ∷ 0 ∷ 1 ∷ 0x80 ∷ []) ≡ (none, [])
unfolding mpint string be32_read take_bytes top_bit_set
negative_mpint = refl

mpint-put_mpint_example :
    mpint (put_mpint [] (0 ∷ 0x80 ∷ 1 ∷ []) ++ codes "!")
    ≡ (some (trim_zeros (0 ∷ 0x80 ∷ 1 ∷ [])), codes "!")
mpint-put_mpint_example = mpint-put_mpint (0 ∷ 0x80 ∷ 1 ∷ []) (codes "!") (omega arith)
