-- ===== src/Channel/Buffers.antt =====
-- The buffer writes of a partly read frame.
use rpi_omt_client.Prelude.{
  ℕ, ◌+◌, ◌-◌, ◌≤◌, ◌≡◌, ap, ◌∙◌, sym, ◌++◌, List, arith, length, length-append, length-take,
  length-drop, length-replicate, replicate, append_assoc, take, drop, take_append, Bytes,
}
use rpi_omt_client.Channel.{overwrite, grown}

module _ {ℓ} {A : Type ℓ} where
  take_of_append : (xs ys : List A) (n : ℕ) → n ≡ length xs → take n (xs ++ ys) ≡ xs
  take_of_append xs ys n e = rw e (take_append xs ys)

-- What was written so far grows by the chunk.
pub take-overwrite :
    (at : ℕ) (chunk xs : Bytes)
    → at ≤ length xs
    → take (at + length chunk) (overwrite at chunk xs) ≡ take at xs ++ chunk
unfolding overwrite
take-overwrite at chunk xs h =
    let e : at + length chunk ≡ length (take at xs ++ chunk) =
      omega (arith, length-append (take at xs) chunk, length-take at xs) in
    ap (take (at + length chunk))
      (sym (append_assoc (take at xs) chunk (drop (at + length chunk) xs)))
    ∙ take_of_append (take at xs ++ chunk) (drop (at + length chunk) xs) (at + length chunk) e

pub length-overwrite :
    (at : ℕ) (chunk xs : Bytes)
    → at + length chunk ≤ length xs
    → length (overwrite at chunk xs) ≡ length xs
unfolding overwrite
length-overwrite at chunk xs h = omega (
  arith,
  length-append (take at xs) (chunk ++ drop (at + length chunk) xs),
  length-append chunk (drop (at + length chunk) xs),
  length-take at xs,
  length-drop (at + length chunk) xs,
)

pub length-grown : (xs : Bytes) (n : ℕ) → length xs ≤ n → length (grown xs n) ≡ n
length-grown xs n h = omega (
  arith,
  length-append xs (replicate (n - length xs) 0),
  length-replicate {A = ℕ} (n - length xs) 0,
)
