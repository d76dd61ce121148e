-- ===== src/BitMask/Examples.antt =====
-- Runs of the searches, and the theorems at concrete arrays.
use opx_common_utils.Prelude.{some, ℕ, ◌-◌, ◌*◌, ◌≤◌, ◌≡◌, refl, arith, ◌==◌, ltb, if◌then◌else◌}
use opx_common_utils.Prelude.Int.{ℤ, pos, negsuc}
use opx_common_utils.BitMask.{
  Bytes, IsBytes, array_test, bytes_for_bits, find_first_bit, find_last_bit, find_first_bit8,
  find_last_bit8,
}
use opx_common_utils.BitMask.First.{FirstSet, find_first_bit-FirstSet}
use opx_common_utils.BitMask.Last.{LastSet, find_last_bit-LastSet, find_last_bit_past_start}
use opx_common_utils.BitMask.Bounds.{find_bit_reads}

-- bits 3 and 14
abbrev sample : Bytes
sample i = if i == 0 then 0x08 else if i == 1 then 0x40 else 0

sample-IsBytes : IsBytes sample
sample-IsBytes i = ground arith

first_runs :
    (find_first_bit sample 16 0 ≡ pos 3)
    × (find_first_bit sample 16 4 ≡ pos 14)
    × (find_first_bit sample 16 15 ≡ negsuc 0)
unfolding find_first_bit find_first_bit8
first_runs = (refl, refl, refl)

last_runs : (find_last_bit sample 16 0 ≡ some (pos 14)) × (find_last_bit sample 16 8 ≡ some (pos 3))
unfolding find_last_bit find_last_bit8
last_runs = (refl, refl)

find_first_bit-FirstSet_example :
    FirstSet sample 4 (bytes_for_bits 16 * 8) (find_first_bit sample 16 4)
find_first_bit-FirstSet_example =
    find_first_bit-FirstSet sample 16 4 sample-IsBytes (omega arith) (omega arith)

find_last_bit-LastSet_example :
    (r : ℤ) × (find_last_bit sample 16 8 ≡ some r) × LastSet sample (bytes_for_bits (16 - 8) * 8) r
find_last_bit-LastSet_example =
    find_last_bit-LastSet sample 16 8 sample-IsBytes (omega arith) (omega arith)

-- Four bits of the array are asked for, and bit 14 of the byte is found.
find_last_bit_past_start_example :
    (r : ℕ) × (find_last_bit sample 12 0 ≡ some (pos r)) × (12 - 0 ≤ r)
unfolding bytes_for_bits array_test
find_last_bit_past_start_example =
    find_last_bit_past_start sample 12 0 14 sample-IsBytes (omega arith) (omega arith) (omega arith)
      (omega arith) refl

abbrev dirty : Bytes
dirty i = if ltb i 2 then sample i else 0xff

find_bit_reads_example :
    (find_first_bit sample 16 4 ≡ find_first_bit dirty 16 4)
    × ((r : ℤ) × (find_last_bit sample 16 4 ≡ some r) × (find_last_bit dirty 16 4 ≡ some r))
unfolding bytes_for_bits
find_bit_reads_example = find_bit_reads sample dirty 16 4 (omega arith) (λ i h. ground arith)
