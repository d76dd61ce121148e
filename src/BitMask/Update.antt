-- ===== src/BitMask/Update.antt =====
-- Set, clear, complement and creation, as the bits that a later test reads.
use opx_common_utils.Prelude.{
  ℕ, zero, suc, ◌+◌, ◌-◌, ◌*◌, ◌/◌, ◌%◌, ◌^◌, ◌≤◌, ◌<◌, ◌≡◌, true, false, not, ap, ◌∙◌, arith, ◌==◌,
  if◌then◌else◌, bit_and, bit_or, ltb, leb, ◌&&◌, Option, some,
}
use mathlib.Core.Option
use native.Mathlib.Nat.{one-le-pow, mod-eq_of_lt}
use opx_common_utils.Bits.{
  bit, bit-le-one, bit-bit_or, bit-bit_and, bit-pow, bit-complement, bit-zero,
}
use opx_common_utils.Bits.Fields.{and_pow, bit-mod}
use opx_common_utils.BitMask.{
  Bytes, IsBytes, store, bit_to_byte_len, bytes_for_bits, fill, create_array_with_pattern,
  create_array, create_array_clear_bits, complement_loop, complement_bitmaparray, array_set,
  array_clr, array_test,
}

test_digit : (x d k : ℕ) → x ≡ d * 2 ^ k → d ≤ 1 → (not (x == 0)) ≡ (d == 1)
test_digit x zero k e h = ground arith
test_digit x (suc zero) k e h = ground (arith, one-le-pow k 2)
test_digit x (suc (suc d)) k e h = absurd (omega arith)

-- A test reads the digit of its byte.
pub array_test-bit : (a : Bytes) (i : ℕ) → array_test a i ≡ (bit (a (i / 8)) (i % 8) == 1)
unfolding array_test
array_test-bit a i =
    test_digit _ (bit (a (i / 8)) (i % 8)) (i % 8) (and_pow (i % 8) (a (i / 8))) (bit-le-one _ _)

-- The same with the place of the byte given.
pub test_clear :
    (a : Bytes) (ix i : ℕ) → i / 8 ≡ ix → bit (a ix) (i % 8) ≡ 0 → array_test a i ≡ false
test_clear a ix i e h = rw (array_test-bit a i, e, h)

pub test_set : (a : Bytes) (ix i : ℕ) → i / 8 ≡ ix → bit (a ix) (i % 8) ≡ 1 → array_test a i ≡ true
test_set a ix i e h = rw (array_test-bit a i, e, h)

-- The digits of a byte after `|= 1 << k` and after `&= ~(uint8_t)(1 << k)`.
bit-set8 : (x k i : ℕ) → i < 8 → bit (bit_or x (2 ^ k) % 256) i ≡ (if k == i then 1 else bit x i)
bit-set8 x k i h =
    ground
      (arith, bit-mod 8 (bit_or x (2 ^ k)) i h, bit-bit_or x (2 ^ k) i, bit-pow k i, bit-le-one x i)

bit-clr8 :
    (x k i : ℕ)
    → i < 8
    → bit (bit_and x (2 ^ 32 - 1 - 2 ^ k % 256) % 256) i ≡ (if k == i then 0 else bit x i)
bit-clr8 x k i h = ground (
  arith,
  bit-mod 8 (bit_and x (2 ^ 32 - 1 - 2 ^ k % 256)) i h,
  bit-bit_and x (2 ^ 32 - 1 - 2 ^ k % 256) i,
  bit-complement 32 (2 ^ k % 256) i (omega arith) (omega arith),
  bit-mod 8 (2 ^ k) i h,
  bit-pow k i,
  bit-le-one x i,
)

-- After `STD_BIT_ARRAY_SET` of bit `i` the test of `j` gives 1 for `i` and what it gave before for any
-- other bit.
pub array_test-array_set :
    (a : Bytes) (i j : ℕ) → array_test (array_set a i) j ≡ (if i == j then true else array_test a j)
unfolding array_set
array_test-array_set a i j = ground (
  arith,
  array_test-bit (array_set a i) j,
  array_test-bit a j,
  bit-set8 (a (i / 8)) (i % 8) (j % 8) (omega arith),
)

-- After `STD_BIT_ARRAY_CLR` of bit `i` the test of `j` gives 0 for `i` and what it gave before for any
-- other bit.
pub array_test-array_clr :
    (a : Bytes) (i j : ℕ)
    → array_test (array_clr a i) j ≡ (if i == j then false else array_test a j)
unfolding array_clr
array_test-array_clr a i j = ground (
  arith,
  array_test-bit (array_clr a i) j,
  array_test-bit a j,
  bit-clr8 (a (i / 8)) (i % 8) (j % 8) (omega arith),
)

-- The loop inverts the bytes `[ix, ix + n)`.
complement_loop_lem :
    (n ix : ℕ) (a : Bytes) (i : ℕ)
    → complement_loop n ix a i ≡ (if leb ix i && ltb i (ix + n) then 255 - a i else a i)
unfolding complement_loop
complement_loop_lem zero ix a i = ground arith
complement_loop_lem (suc n) ix a i =
    ground (arith, complement_loop_lem n (ix + 1) (store a ix (255 - a ix)) i)

-- `std_complement_bitmaparray` inverts every bit of the bytes that `mx` bits need, and leaves the
-- bytes behind them.
pub array_test-complement :
    (a : Bytes) (mx j : ℕ)
    → IsBytes a
    → array_test (complement_bitmaparray a mx) j
      ≡ (if ltb (j / 8) (bit_to_byte_len mx) then not (array_test a j) else array_test a j)
unfolding complement_bitmaparray
array_test-complement a mx j bytes = ground (
  arith,
  array_test-bit (complement_bitmaparray a mx) j,
  array_test-bit a j,
  complement_loop_lem (bit_to_byte_len mx) 0 a (j / 8),
  bit-complement 8 (a (j / 8)) (j % 8) (bytes (j / 8)) (omega arith),
  bit-le-one (a (j / 8)) (j % 8),
)

-- The bits of a filled block are those of the pattern.
array_test-fill :
    (p : Bytes) (pattern n j : ℕ)
    → j / 8 < n
    → array_test (fill p pattern n) j ≡ (bit pattern (j % 8) == 1)
unfolding fill
array_test-fill p pattern n j h = ground (arith, array_test-bit (fill p pattern n) j)

bit-ff : (i : ℕ) → i < 8 → bit 0xff i ≡ 1
bit-ff i h = omega (arith, bit-complement 8 0 i, bit-zero i)

-- Where `malloc` gives a block for the bytes of `len` bits, `len` below 2 ^ 32, the block of
-- `std_bitmap_create_array` tests 1 at each of these bits, and that of
-- `std_bitmap_create_array_clear_bits` tests 0.
pub create_array_bits :
    (malloc : ℕ → Option Bytes) (len j : ℕ) (p : Bytes)
    → len < 2 ^ 32
    → malloc (bytes_for_bits len) ≡ some p
    → j < len
    → (Option.map (λ a. array_test a j) (create_array malloc len) ≡ some true)
      × (Option.map (λ a. array_test a j) (create_array_clear_bits malloc len) ≡ some false)
unfolding create_array create_array_clear_bits bytes_for_bits
create_array_bits malloc len j p small given inside =
    let n = bytes_for_bits len in
    let same : bit_to_byte_len len ≡ n = ground (arith, mod-eq_of_lt small) in
    let room : j / 8 < n = ground arith in
    let block : malloc (bit_to_byte_len len) ≡ some p = rw same given in
    let ones : create_array malloc len ≡ some (fill p 0xff (bit_to_byte_len len)) =
      rw (block, create_array_with_pattern) in
    let zeros : create_array_clear_bits malloc len ≡ some (fill p 0 (bit_to_byte_len len)) =
      rw (block, create_array_with_pattern) in
    rw (ones, zeros, same)
      (
        ap some (array_test-fill p 0xff n j room ∙ ground (arith, bit-ff (j % 8) (omega arith))),
        ap some (array_test-fill p 0 n j room ∙ ground (arith, bit-zero (j % 8))),
      )
