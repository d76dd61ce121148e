-- ===== src/Bits/Fields.antt =====
-- `|` of disjoint fields and `&` with a low mask, as arithmetic, at every width.
use native.Mathlib.Nat.{
  pow-suc, pow-succ', div-div-eq-div-mul, one-le-pow, add-mul-mod_self_left, mod-eq_of_lt, mod-lt,
  div-add-mod,
}
use Prim.Native.Nat.{bit_and-bitwise}
use opx_common_utils.Prelude.{
  ℕ, zero, suc, ◌+◌, ◌-◌, ◌*◌, ◌/◌, ◌%◌, ◌^◌, ◌≤◌, ◌<◌, bit_and, bit_or, ◌≡◌, refl, ap, arith,
  ◌≡⟨◌⟩◌, ◌∎,
}
use opx_common_utils.Bits.Place.{bit}
use opx_common_utils.Bits.Digits.{halve_and, halve_or}

and_zero_fuel : (n a : ℕ) → a ≤ n → bit_and a 0 ≡ 0
and_zero_fuel n zero h = refl
and_zero_fuel zero (suc a) h = absurd (omega arith)
and_zero_fuel (suc n) (suc a) h =
    omega (arith, halve_and (suc a) 0, and_zero_fuel n (suc a / 2) (omega arith))

or_zero_fuel : (n a : ℕ) → a ≤ n → bit_or a 0 ≡ a
or_zero_fuel n zero h = refl
or_zero_fuel zero (suc a) h = absurd (omega arith)
or_zero_fuel (suc n) (suc a) h =
    omega (arith, halve_or (suc a) 0, or_zero_fuel n (suc a / 2) (omega arith))

-- The remainder by the next power, from the half.
mod_pow-suc : (k a : ℕ) → a % 2 ^ suc k ≡ a / 2 % 2 ^ k * 2 + a % 2
mod_pow-suc k a =
    let p = one-le-pow k 2 (omega arith) in
    let below = mod-lt (a / 2) {m = 2 ^ k} p in
    let whole : a ≡ a / 2 % 2 ^ k * 2 + a % 2 + 2 ^ suc k * (a / 2 / 2 ^ k) =
      omega
        (arith, div-add-mod (a / 2) (2 ^ k), ap (λ (t : ℕ). t * (a / 2 / 2 ^ k)) (pow-suc 2 k)) in
    let fits : a / 2 % 2 ^ k * 2 + a % 2 < 2 ^ suc k = omega (arith, pow-suc 2 k) in
    let r = a / 2 % 2 ^ k * 2 + a % 2 in
    a % 2 ^ suc k
    ≡⟨ ap (λ t. t % 2 ^ suc k) whole ⟩ (r + 2 ^ suc k * (a / 2 / 2 ^ k)) % 2 ^ suc k
    ≡⟨ add-mul-mod_self_left r (2 ^ suc k) (a / 2 / 2 ^ k) ⟩ r % 2 ^ suc k
    ≡⟨ mod-eq_of_lt fits ⟩ r ∎

-- A mask of `k` low digits takes the remainder by `2 ^ k`.
pub and_low_mask : (k a : ℕ) → bit_and a (2 ^ k - 1) ≡ a % 2 ^ k
and_low_mask zero a = omega (arith, and_zero_fuel a a (omega arith))
and_low_mask (suc k) a =
    let half : (2 ^ suc k - 1) / 2 ≡ 2 ^ k - 1 = omega (arith, pow-suc 2 k, one-le-pow k 2) in
    let odd : (2 ^ suc k - 1) % 2 ≡ 1 = omega (arith, pow-suc 2 k, one-le-pow k 2) in
    let step = halve_and a (2 ^ suc k - 1) in
    let inner : bit_and (a / 2) ((2 ^ suc k - 1) / 2) ≡ a / 2 % 2 ^ k =
      rw half (and_low_mask k (a / 2)) in
    omega (arith, mod_pow-suc k a)

-- `|` of a field above place `k` and one below it is their sum.
pub or_fields : (k q r : ℕ) → r < 2 ^ k → bit_or (q * 2 ^ k) r ≡ q * 2 ^ k + r
or_fields zero q r h = ground (arith, or_zero_fuel q q (omega arith))
or_fields (suc k) q r h =
    let split : q * 2 ^ suc k ≡ 2 * (q * 2 ^ k) =
      omega (arith, ap (λ (t : ℕ). q * t) (pow-suc 2 k)) in
    let half : q * 2 ^ suc k / 2 ≡ q * 2 ^ k = omega arith in
    let inner : bit_or (q * 2 ^ suc k / 2) (r / 2) ≡ q * 2 ^ k + r / 2 =
      rw half (or_fields k q (r / 2) (omega (arith, pow-suc 2 k))) in
    omega (arith, halve_or (q * 2 ^ suc k) r)

-- `&` with a power of two keeps the digit at that place.
pub and_pow : (k a : ℕ) → bit_and a (2 ^ k) ≡ bit a k * 2 ^ k
unfolding bit
and_pow zero a = omega (arith, halve_and a 1, and_zero_fuel (a / 2) (a / 2) (omega arith))
and_pow (suc k) a =
    let half : 2 ^ suc k / 2 ≡ 2 ^ k = omega (arith, pow-suc 2 k) in
    let inner : bit_and (a / 2) (2 ^ suc k / 2) ≡ bit (a / 2) k * 2 ^ k =
      rw half (and_pow k (a / 2)) in
    omega
      (arith, halve_and a (2 ^ suc k), pow-suc 2 k, ap (λ (t : ℕ). bit (a / 2) k * t) (pow-suc 2 k))

-- The remainder by `2 ^ w` keeps the digits below place `w`.
pub bit-mod : (w a i : ℕ) → i < w → bit (a % 2 ^ w) i ≡ bit a i
unfolding bit
bit-mod zero a i h = elim h [ ]
bit-mod (suc w) a zero h = omega (arith, mod_pow-suc w a)
bit-mod (suc w) a (suc i) h =
    let half : a % 2 ^ suc w / 2 ≡ a / 2 % 2 ^ w = omega (arith, mod_pow-suc w a) in
    rw half (bit-mod w (a / 2) i (omega arith))

-- `&` with a mask that is shifted left works on the digits from place `k` on.
pub and_shifted_mask : (k x m : ℕ) → bit_and x (m * 2 ^ k) ≡ bit_and (x / 2 ^ k) m * 2 ^ k
and_shifted_mask zero x m =
    let x1 : x / 1 ≡ x = omega arith in
    let m1 : m * 1 ≡ m = omega arith in rw (x1, m1) (omega arith)
and_shifted_mask (suc k) x m =
    let twice : m * 2 ^ suc k ≡ 2 * (m * 2 ^ k) =
      omega (arith, ap (λ (t : ℕ). m * t) (pow-suc 2 k)) in
    let half : m * 2 ^ suc k / 2 ≡ m * 2 ^ k = omega arith in
    let deep : x / 2 / 2 ^ k ≡ x / 2 ^ suc k =
      rw (pow-succ' 2 k) (div-div-eq-div-mul x 2 (2 ^ k)) in
    let inner : bit_and (x / 2) (m * 2 ^ suc k / 2) ≡ bit_and (x / 2 ^ suc k) m * 2 ^ k =
      rw (half, ← deep) (and_shifted_mask k (x / 2) m) in
    omega (
      arith,
      halve_and x (m * 2 ^ suc k),
      ap (λ (t : ℕ). bit_and (x / 2 ^ suc k) m * t) (pow-suc 2 k),
    )

and-le_fuel : (n a b : ℕ) → a ≤ n → bit_and a b ≤ b
and-le_fuel n zero b h = omega (arith, bit_and-bitwise 0 b)
and-le_fuel zero (suc a) b h = absurd (omega arith)
and-le_fuel (suc n) (suc a) b h =
    omega (arith, halve_and (suc a) b, and-le_fuel n (suc a / 2) (b / 2) (omega arith))

-- `&` is at most its second operand.
pub bit_and-le : (a b : ℕ) → bit_and a b ≤ b
bit_and-le a b = and-le_fuel a a b (omega arith)
