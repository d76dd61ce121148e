-- ===== src/Bits.antt =====
-- Words as sequences of binary digits: the digit of a number at a place, and `&`, `|` and `^`
-- digit by digit at every width. The C operators of the library are translated to these.
pub mod Digits
mod Place
unfoldable pub use Place.{bit}
pub mod Fields
pub mod Below
pub mod Words
use Digits.{halve_and, halve_or, halve_xor, differ-le-one}
use opx_common_utils.Prelude.{
  ℕ, zero, suc, ◌+◌, ◌-◌, ◌*◌, ◌/◌, ◌%◌, ◌^◌, ◌≤◌, ◌<◌, min, max, bit_and, bit_or, bit_xor, ◌≡◌,
  refl, ap, ◌∙◌, arith, ◌==◌, if◌then◌else◌,
}
use Prim.Native.Nat.{differ}
use native.Mathlib.Nat.{pow-suc, one-le-pow}

pub bit-le-one : (x i : ℕ) → bit x i ≤ 1
unfolding bit
bit-le-one x zero = omega arith
bit-le-one x (suc i) = bit-le-one (x / 2) i

pub bit-bit_and : (a b i : ℕ) → bit (bit_and a b) i ≡ min (bit a i) (bit b i)
unfolding bit
bit-bit_and a b zero = omega (arith, halve_and a b)
bit-bit_and a b (suc i) =
    let half : bit_and a b / 2 ≡ bit_and (a / 2) (b / 2) = omega (arith, halve_and a b) in
    rw half (bit-bit_and (a / 2) (b / 2) i)

pub bit-bit_or : (a b i : ℕ) → bit (bit_or a b) i ≡ max (bit a i) (bit b i)
unfolding bit
bit-bit_or a b zero = omega (arith, halve_or a b)
bit-bit_or a b (suc i) =
    let half : bit_or a b / 2 ≡ bit_or (a / 2) (b / 2) = omega (arith, halve_or a b) in
    rw half (bit-bit_or (a / 2) (b / 2) i)

pub bit-bit_xor : (a b i : ℕ) → bit (bit_xor a b) i ≡ differ (bit a i) (bit b i)
unfolding bit
bit-bit_xor a b zero =
    omega (arith, halve_xor a b, differ-le-one (a % 2) (b % 2) (omega arith) (omega arith))
bit-bit_xor a b (suc i) =
    let half : bit_xor a b / 2 ≡ bit_xor (a / 2) (b / 2) =
      omega (arith, halve_xor a b, differ-le-one (a % 2) (b % 2) (omega arith) (omega arith)) in
    rw half (bit-bit_xor (a / 2) (b / 2) i)

pub bit-zero : (i : ℕ) → bit 0 i ≡ 0
unfolding bit
bit-zero zero = refl
bit-zero (suc i) = bit-zero i

-- A power of two has one digit that is set.
pub bit-pow : (k i : ℕ) → bit (2 ^ k) i ≡ (if k == i then 1 else 0)
unfolding bit
bit-pow zero zero = refl
bit-pow zero (suc i) = bit-zero i ∙ ground arith
bit-pow (suc k) zero = ground (arith, pow-suc 2 k)
bit-pow (suc k) (suc i) =
    let half : 2 ^ suc k / 2 ≡ 2 ^ k = omega (arith, pow-suc 2 k) in
    rw half (bit-pow k i ∙ ground arith)

-- The number with all digits below place `w` set, less `x`, has every digit of `x` inverted.
pub bit-complement : (w x i : ℕ) → x < 2 ^ w → i < w → bit (2 ^ w - 1 - x) i ≡ 1 - bit x i
unfolding bit
bit-complement zero x i hx hi = elim hi [ ]
bit-complement (suc w) x zero hx hi = omega (arith, pow-suc 2 w, one-le-pow w 2)
bit-complement (suc w) x (suc i) hx hi =
    let half : (2 ^ suc w - 1 - x) / 2 ≡ 2 ^ w - 1 - x / 2 =
      omega (arith, pow-suc 2 w, one-le-pow w 2, hx) in
    rw half (bit-complement w (x / 2) i (omega (arith, pow-suc 2 w)) (omega arith))

-- A number is zero exactly when all its digits are.
pub zero_of_bits : (w x : ℕ) → x < 2 ^ w → ((i : ℕ) → i < w → bit x i ≡ 0) → x ≡ 0
unfolding bit
zero_of_bits zero x hx h = omega arith
zero_of_bits (suc w) x hx h =
    let low = h 0 (omega arith) in
    let high : x / 2 ≡ 0 =
      zero_of_bits w (x / 2) (omega (arith, pow-suc 2 w)) (λ i hi. h (suc i) (omega arith)) in
    omega arith

-- Two numbers below `2 ^ w` with the same digits are equal.
pub eq_of_bits : (w x y : ℕ) → x < 2 ^ w → y < 2 ^ w → ((i : ℕ) → i < w → bit x i ≡ bit y i) → x ≡ y
unfolding bit
eq_of_bits zero x y hx hy h = omega arith
eq_of_bits (suc w) x y hx hy h =
    let low = h 0 (omega arith) in
    let high : x / 2 ≡ y / 2 =
      eq_of_bits w (x / 2) (y / 2) (omega (arith, pow-suc 2 w)) (omega (arith, pow-suc 2 w))
        (λ i hi. h (suc i) (omega arith)) in
    omega arith
