-- ===== src/VmxBits/Tests.antt =====
-- Runs of the bit reader, and the theorem about it at a concrete input.
use rpi_omt_client.Prelude.{◌≡◌, refl, true, false, [], ◌∷◌, arith, Bytes, pos}
use rpi_omt_client.VmxBits.{
  Reader, new, load, reader, window_at, take_bits, bit, flush, reload, bits, bits_rounds, bits_step,
  leading_zeros, zeros, zeros_bare, zeros_behind, zeros_above, align,
}
use rpi_omt_client.VmxBits.Reading.{IsReading}
use rpi_omt_client.VmxBits.Counted.{ReadsBits}
use rpi_omt_client.VmxBits.Loop.{bits-ReadsBits}

abbrev loaded_with : Bytes → Reader
loaded_with bytes = reader ((load (λ n. true) (new 64) bytes).0)

reads_four : (bits (loaded_with (0xb2 ∷ 0 ∷ [])) (pos 4)).0 ≡ 11
unfolding bits bits_rounds bits_step take_bits flush window_at reader load
reads_four = refl

counts_zeros : (zeros (loaded_with (0x04 ∷ []))).0 ≡ 5
unfolding zeros zeros_behind leading_zeros zeros_above flush window_at reader load
counts_zeros = refl

reads_a_bit : (bit (zeros_bare (loaded_with (0x04 ∷ []))).1).0 ≡ 1
unfolding bit take_bits zeros_bare leading_zeros zeros_above flush window_at reader load
reads_a_bit = refl

aligns : (align (bit (loaded_with (0x04 ∷ []))).1).bits_left ≡ 56
unfolding align bits bits_rounds bits_step bit take_bits flush window_at reader load
aligns = refl

reloads : (reload (bits (loaded_with (0x04 ∷ [])) (pos 40)).1).position ≡ 5
unfolding reload bits bits_rounds bits_step take_bits flush window_at reader load
reloads = refl

refuses_large : (load (λ n. true) (new 1) (1 ∷ 2 ∷ [])).1 ≡ false
unfolding load
refuses_large = refl

-- Nine bytes, the first of which is half read.
abbrev half_read : Reader
half_read = record {
  buf = 0xb2 ∷ 1 ∷ 0 ∷ 0 ∷ 0 ∷ 0 ∷ 0 ∷ 0 ∷ 7 ∷ [];
  position = 0;
  bits_left = 60;
  window = 0xb201000000000000;
  corrupt = false;
}

half_read-IsReading : IsReading half_read
half_read-IsReading = record {
  bytes = omega arith;
  full = omega arith;
  window_is = refl;
  bounded = omega arith;
}

bits-ReadsBits_example : ReadsBits 12 0 half_read (bits half_read (pos 12))
bits-ReadsBits_example = bits-ReadsBits half_read 12 (omega arith) half_read-IsReading
