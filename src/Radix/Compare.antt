-- ===== src/Radix/Compare.antt =====
-- `rdx_compare_address` as a comparison of the first bits of two keys.
use opx_common_utils.Prelude.{
  ℕ, zero, suc, ◌+◌, ◌-◌, ◌*◌, ◌/◌, ◌%◌, ◌^◌, ◌≤◌, ◌<◌, ◌≡◌, ◌↔◌, ◌⊎◌, inl, inr, refl, ap, ap₂, sym,
  subst, ◌∙◌, Bool, true, false, not, ◌&&◌, arith, ltb, ◌==◌, min, bit_and, bit_or, bit_xor,
  if◌then◌else◌, Bool-cases,
}
use Prim.Native.Nat.{differ}
use opx_common_utils.Prelude.Int.{ℤ, pos, eq_ℤ}
use opx_common_utils.Bits.{
  bit, bit-le-one, bit-bit_and, bit-bit_xor, bit-zero, eq_of_bits, zero_of_bits,
}
use native.Mathlib.Nat.{one-le-pow}
use opx_common_utils.Bits.Fields.{bit_and-le, and_pow}
use opx_common_utils.Bits.Below.{all_below, all_below_at}
use opx_common_utils.Bits.Words.{shr}
use opx_common_utils.BitMask.{Bytes, IsBytes}
use opx_common_utils.Ip.{memcmp}
use opx_common_utils.Ip.Compare.{memcmp-zero_iff, AgreeOn}
use opx_common_utils.Radix.{rn_byte, rn_bit, bit_test, compare_address}

-- Bit `i` of a key, the most significant bit of each byte first.
abbrev pub key_bit : Bytes → ℕ → ℕ
key_bit a i = bit (a (i / 8)) (7 - i % 8)

-- The keys have the same first `n` bits.
abbrev pub Agree : Bytes → Bytes → ℕ → Type 0
Agree a b n = (i : ℕ) → i < n → key_bit a i ≡ key_bit b i

-- The mask of `rdx_compare_address` at a bit number.
abbrev mask : ℕ → ℕ
mask r = 255 - bit_or (shr 0x80 r) (shr 0x80 r - 1)

-- Its digits: those of the first `r` bits.
mask_check : ℕ → ℕ → Bool
mask_check r j = bit (mask r) (7 - j) == (if ltb j r then 1 else 0)

mask_table : all_below 8 (λ r. all_below 8 (mask_check r)) ≡ true
unfolding mask_check bit all_below
mask_table = refl

bit-mask : (r j : ℕ) → r < 8 → j < 8 → bit (mask r) (7 - j) ≡ (if ltb j r then 1 else 0)
unfolding mask_check
bit-mask r j hr hj =
    let row = all_below_at 8 (λ r. all_below 8 (mask_check r)) r mask_table hr in
    ground (arith, all_below_at 8 (mask_check r) j row hj)

digit_iff : (d e m : ℕ) → d ≤ 1 → e ≤ 1 → m ≡ 1 → (min (differ d e) m ≡ 0) ↔ (d ≡ e)
digit_iff zero zero m hd he hm = (λ _. refl, λ _. omega arith)
digit_iff zero (suc zero) m hd he hm = (λ h. omega (arith, h, hm), λ h. omega (arith, h))
digit_iff (suc zero) zero m hd he hm = (λ h. omega (arith, h, hm), λ h. omega (arith, h))
digit_iff (suc zero) (suc zero) m hd he hm = (λ _. refl, λ _. omega arith)
digit_iff d (suc (suc e)) m hd he hm = absurd (omega arith)
digit_iff (suc (suc d)) e m hd he hm = absurd (omega arith)

digit_off : (d m : ℕ) → m ≡ 0 → min d m ≡ 0
digit_off d m hm = omega arith

-- The masked bytes agree exactly if their first `r` bits do.
masked_iff :
    (x y r : ℕ)
    → r < 8
    → (bit_and (bit_xor x y) (mask r) ≡ 0) ↔ ((j : ℕ) → j < r → bit x (7 - j) ≡ bit y (7 - j))
masked_iff x y r h = (forth, back)
  where
    at :
        (j : ℕ)
        → j < 8
        → bit (bit_and (bit_xor x y) (mask r)) (7 - j)
          ≡ min (differ (bit x (7 - j)) (bit y (7 - j))) (if ltb j r then 1 else 0)
    at j k =
        bit-bit_and (bit_xor x y) (mask r) (7 - j)
        ∙ ap₂ min (bit-bit_xor x y (7 - j)) (bit-mask r j h k)

    forth : bit_and (bit_xor x y) (mask r) ≡ 0 → (j : ℕ) → j < r → bit x (7 - j) ≡ bit y (7 - j)
    forth z j k =
        let on : (if ltb j r then 1 else 0) ≡ 1 = ground arith in
        (digit_iff _ _ _ (bit-le-one x (7 - j)) (bit-le-one y (7 - j)) on).0
          (sym (at j (omega arith)) ∙ ap (λ w. bit w (7 - j)) z ∙ bit-zero (7 - j))

    digit :
        ((j : ℕ) → j < r → bit x (7 - j) ≡ bit y (7 - j))
        → (j : ℕ) → j < 8
        → min (differ (bit x (7 - j)) (bit y (7 - j))) (if ltb j r then 1 else 0) ≡ 0
    digit same j k = elim (Bool-cases (ltb j r)) [
      | inl t ↦
          let on : (if ltb j r then 1 else 0) ≡ 1 = rw t refl in
          (digit_iff _ _ _ (bit-le-one x (7 - j)) (bit-le-one y (7 - j)) on).1
            (same j (ground arith))
      | inr f ↦
          let off : (if ltb j r then 1 else 0) ≡ 0 = rw f refl in
          digit_off (differ (bit x (7 - j)) (bit y (7 - j))) (if ltb j r then 1 else 0) off
    ]

    back : ((j : ℕ) → j < r → bit x (7 - j) ≡ bit y (7 - j)) → bit_and (bit_xor x y) (mask r) ≡ 0
    back same =
        zero_of_bits 8 (bit_and (bit_xor x y) (mask r))
          (omega (arith, bit_and-le (bit_xor x y) (mask r)))
          (λ i k.
            let e : 7 - (7 - i) ≡ i = omega arith in
            subst (λ q. bit (bit_and (bit_xor x y) (mask r)) q ≡ 0) e
              (at (7 - i) (omega arith) ∙ digit same (7 - i) (omega arith)))

byte_of_bits :
    (x y : ℕ) → x < 256 → y < 256 → ((j : ℕ) → j < 8 → bit x (7 - j) ≡ bit y (7 - j)) → x ≡ y
byte_of_bits x y hx hy same = eq_of_bits 8 x y hx hy (λ i k.
    let e : 7 - (7 - i) ≡ i = omega arith in
    subst (λ q. bit x q ≡ bit y q) e (same (7 - i) (omega arith)))

-- What the two tests of `rdx_compare_address` amount to.
tests_iff :
    (w q : ℕ) (m : ℤ)
    → ((if not (w == 0) then true else not (q == 0) && not (eq_ℤ m (pos 0))) ≡ false)
      ↔ ((w ≡ 0) × ((q ≡ 0) ⊎ (m ≡ pos 0)))
tests_iff w q m = ground arith

-- A bit of a key, by its byte and its place in it.
pub key_bit-at : (a : Bytes) (q j : ℕ) → j < 8 → key_bit a (8 * q + j) ≡ bit (a q) (7 - j)
key_bit-at a q j h =
    let byte : (8 * q + j) / 8 ≡ q = omega arith in
    let place : (8 * q + j) % 8 ≡ j = omega arith in ap₂ (λ x y. bit (a x) (7 - y)) byte place

Agree-of_parts :
    (a b : Bytes) (n : ℕ)
    → ((j : ℕ) → j < n % 8 → bit (a (n / 8)) (7 - j) ≡ bit (b (n / 8)) (7 - j))
    → (n / 8 ≡ 0) ⊎ AgreeOn a b 0 (n / 8)
    → Agree a b n
Agree-of_parts a b n last bytes i k = elim (Bool-cases (i / 8 == n / 8)) [
  | inl t ↦
      let e : n / 8 ≡ i / 8 = ground arith in
      subst (λ q. bit (a q) (7 - i % 8) ≡ bit (b q) (7 - i % 8)) e (last (i % 8) (ground arith))
  | inr f ↦
      let l : i / 8 < n / 8 = ground arith in
      elim bytes [
        | inl z ↦ absurd (omega arith)
        | inr all ↦ ap (λ x. bit x (7 - i % 8)) (all (i / 8) (omega arith) l)
      ]
]

-- `rdx_compare_address` at a bit number `n` gives 0 exactly for keys that have the same first `n` bits.
pub compare_address-Agree :
    (a b : Bytes) (n : ℕ)
    → IsBytes a
    → IsBytes b
    → (compare_address a b (rn_byte n) (rn_bit n) ≡ false) ↔ Agree a b n
unfolding compare_address
compare_address-Agree a b n ba bb =
    let both =
      tests_iff (bit_and (bit_xor (a (n / 8)) (b (n / 8))) (mask (n % 8))) (n / 8)
        (memcmp a b (n / 8) 0) in
    let last = masked_iff (a (n / 8)) (b (n / 8)) (n % 8) (omega arith) in
    let bytes = memcmp-zero_iff a b (n / 8) in
    (
      λ h.
          Agree-of_parts a b n (last.0 (both.0 h).0)
            (elim (both.0 h).1 [ inl z ↦ inl z | inr m ↦ inr (bytes.0 m) ]),
      λ same.
          let at = λ (q j : ℕ) (k : j < 8) (l : 8 * q + j < n).
            sym (key_bit-at a q j k) ∙ same (8 * q + j) l ∙ key_bit-at b q j k in
          both.1 (
            last.1 (λ j k. at (n / 8) j (omega arith) (omega arith)),
            inr (
                bytes.1 (λ i _ k.
                  byte_of_bits (a i) (b i) (ba i) (bb i) (λ j kj. at i j kj (omega arith)))),
          ),
    )

digit_test : (d p : ℕ) → d ≤ 1 → 0 < p → not (d * p == 0) ≡ (d == 1)
digit_test zero p h k = ground arith
digit_test (suc zero) p h k = ground arith
digit_test (suc (suc d)) p h k = absurd (omega arith)

rn_bit-pow : (r : ℕ) → r < 8 → shr 0x80 r ≡ 2 ^ (7 - r)
rn_bit-pow zero h = refl
rn_bit-pow (suc zero) h = refl
rn_bit-pow (suc (suc zero)) h = refl
rn_bit-pow (suc (suc (suc zero))) h = refl
rn_bit-pow (suc (suc (suc (suc zero)))) h = refl
rn_bit-pow (suc (suc (suc (suc (suc zero))))) h = refl
rn_bit-pow (suc (suc (suc (suc (suc (suc zero)))))) h = refl
rn_bit-pow (suc (suc (suc (suc (suc (suc (suc zero))))))) h = refl
rn_bit-pow (suc (suc (suc (suc (suc (suc (suc (suc r)))))))) h = absurd (omega arith)

-- The test of a branch looks at the key's bit with the node's bit number.
pub bit_test-key_bit :
    (a : Bytes) (n : ℕ) → bit_test (a (rn_byte n)) (rn_bit n) ≡ (key_bit a n == 1)
bit_test-key_bit a n =
    let k = 7 - n % 8 in
    let p : rn_bit n ≡ 2 ^ k = rn_bit-pow (n % 8) (omega arith) in
    let e : bit_and (a (n / 8)) (2 ^ k) ≡ bit (a (n / 8)) k * 2 ^ k = and_pow k (a (n / 8)) in
    let step : bit_test (a (n / 8)) (rn_bit n) ≡ not (bit (a (n / 8)) k * 2 ^ k == 0) =
      ap (λ b. bit_test (a (n / 8)) b) p ∙ ap (λ w. not (w == 0)) e in
    step
    ∙ digit_test (bit (a (n / 8)) k) (2 ^ k) (bit-le-one (a (n / 8)) k)
        (omega (arith, one-le-pow k 2))
