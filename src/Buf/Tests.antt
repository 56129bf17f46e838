-- ===== src/Buf/Tests.antt =====
-- Runs of crates/omt-common/src/buf.rs, and the theorems about it at concrete inputs.
use rpi_omt_client.Prelude.{
  ℕ, ◌+◌, ◌≡◌, refl, true, Option, some, List, [], ◌∷◌, false, arith, Bytes, codes,
}
use rpi_omt_client.Buf.{
  needed, reserve_to, reserve, append, hex, clear, consume, into_vec, new, new_capacity,
  double_until, hex_text,
}
use rpi_omt_client.Buf.Bounds.{Grants, IsBounded, append-IsBounded}
use rpi_omt_client.Buf.Appends.{append_all, IsGenerous, into_vec-append_all}

-- An allocator that gives exactly what is asked.
abbrev exact : ℕ → ℕ → Option ℕ
exact len additional = some (len + additional)

exact-Grants : Grants exact
exact-Grants len additional got h = ground arith

exact-IsGenerous : IsGenerous exact
exact-IsGenerous len additional = (len + additional, refl)

-- The unit test of the source: an append past the limit leaves the contents, and the mark stays.
appends_stop :
    append_all exact (new 4) (codes "abc" ∷ codes "de" ∷ codes "x" ∷ [])
    ≡ record { contents = codes "abc"; capacity = 4; limit = 4; failed = true }
unfolding append_all append reserve needed reserve_to new_capacity double_until
appends_stop = refl

hex_then_consume :
    consume (hex exact (clear (new 4)) (0xab ∷ 0x01 ∷ [])) 2
    ≡ record { contents = codes "01"; capacity = 4; limit = 4; failed = false }
unfolding hex clear consume reserve needed reserve_to new_capacity double_until hex_text
hex_then_consume = refl

append-IsBounded_example : IsBounded (append exact (new 4) (codes "abc"))
append-IsBounded_example = append-IsBounded exact exact-Grants (new 4) (codes "abc") (omega arith)

abbrev fitting : List Bytes
fitting = codes "ab" ∷ codes "" ∷ codes "c" ∷ []

fitting_fine : (append_all exact (new 4) fitting).failed ≡ false
unfolding append_all append reserve needed reserve_to new_capacity double_until
fitting_fine = refl

into_vec-append_all_example : into_vec (append_all exact (new 4) fitting) ≡ some (codes "abc")
into_vec-append_all_example = into_vec-append_all exact exact-IsGenerous 4 fitting (omega arith)
