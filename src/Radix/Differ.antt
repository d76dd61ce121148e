-- ===== src/Radix/Differ.antt =====
-- The loop of `std_radix_insert` of src/std_radix.c that compares two keys: where their first
-- difference is.
use opx_common_utils.Prelude.{
  ◌||◌, ℕ, zero, suc, ◌+◌, ◌-◌, ◌*◌, ◌/◌, ◌%◌, ◌^◌, ◌≤◌, ◌<◌, ◌≡◌, ◌≢◌, ◌⊎◌, inl, inr, refl, ap,
  ap₂, sym, ◌∙◌, Bool, true, false, ◌&&◌, arith, ltb, ◌==◌, bit_xor, get_or, some, Bool-cases,
}
use Prim.Native.Nat.{differ}
use opx_common_utils.Bits.{bit, bit-le-one, bit-bit_xor, bit-zero, eq_of_bits}
use opx_common_utils.Bits.Digits.{halve_xor, differ-le-one}
use opx_common_utils.Bits.Below.{all_below, all_below_at}
use opx_common_utils.Bits.Words.{shr}
use opx_common_utils.BitMask.{Bytes, IsBytes}
use opx_common_utils.Radix.Compare.{key_bit, key_bit-at, Agree}
use opx_common_utils.Radix.First.{first_bit_set}
use opx_common_utils.Radix.Insert.{differ_loop}

-- The entry of the table for a byte.
abbrev first_of : ℕ → ℕ
first_of x = get_or first_bit_set x 0

first_check : ℕ → Bool
first_check x =
    x == 0
    || (ltb (first_of x) 8
        && bit x (7 - first_of x) == 1
        && all_below (first_of x) (λ j. bit x (7 - j) == 0))

first_table : all_below 256 first_check ≡ true
unfolding first_check bit all_below first_bit_set
first_table = refl

-- It is the place of the highest digit.
first_of_lem :
    (x : ℕ)
    → x < 256
    → x ≢ 0
    → (first_of x < 8)
      × (bit x (7 - first_of x) ≡ 1)
      × ((j : ℕ) → j < first_of x → bit x (7 - j) ≡ 0)
unfolding first_check
first_of_lem x h n =
    let row = all_below_at 256 first_check x first_table h in
    (
      ground (arith, row, n),
      ground (arith, row, n),
      λ j k.
          let below : all_below (first_of x) (λ j. bit x (7 - j) == 0) ≡ true =
            ground (arith, row, n) in
          let at = all_below_at (first_of x) (λ i. bit x (7 - i) == 0) j below k in
          ground (arith, at),
    )

differ_iff : (d e : ℕ) → d ≤ 1 → e ≤ 1 → (differ d e ≡ 0 → d ≡ e) × (differ d e ≡ 1 → d ≢ e)
differ_iff zero zero hd he = (λ _. refl, λ h. absurd (omega (arith, h)))
differ_iff zero (suc zero) hd he = (λ h. absurd (omega (arith, h)), λ _ z. omega (arith, z))
differ_iff (suc zero) zero hd he = (λ h. absurd (omega (arith, h)), λ _ z. omega (arith, z))
differ_iff (suc zero) (suc zero) hd he = (λ _. refl, λ h. absurd (omega (arith, h)))
differ_iff d (suc (suc e)) hd he = absurd (omega arith)
differ_iff (suc (suc d)) e hd he = absurd (omega arith)

xor-lt : (k a b : ℕ) → a < 2 ^ k → b < 2 ^ k → bit_xor a b < 2 ^ k
xor-lt zero a b ha hb =
    let ea : a ≡ 0 = omega (arith, ha) in
    let eb : b ≡ 0 = omega (arith, hb) in
    let e : bit_xor a b ≡ 0 = ap₂ bit_xor ea eb in omega (arith, e)
xor-lt (suc k) a b ha hb =
    let half = xor-lt k (a / 2) (b / 2) (omega (arith, ha)) (omega (arith, hb)) in
    omega (arith, half, halve_xor a b, differ-le-one (a % 2) (b % 2) (omega arith) (omega arith))

-- The first difference of two bytes that are not the same.
first_difference :
    (x y : ℕ)
    → x ≢ y
    → x < 256
    → y < 256
    → (first_of (bit_xor x y) < 8)
      × ((j : ℕ) → j < first_of (bit_xor x y) → bit x (7 - j) ≡ bit y (7 - j))
      × (bit x (7 - first_of (bit_xor x y)) ≢ bit y (7 - first_of (bit_xor x y)))
first_difference x y n hx hy =
    let both = λ (i : ℕ). differ_iff (bit x i) (bit y i) (bit-le-one x i) (bit-le-one y i) in
    let (small, one, zeros) = first_of_lem (bit_xor x y) (xor-lt 8 x y hx hy) (λ z. n (
      eq_of_bits 8 x y hx hy
        (λ i k. (both i).0 (sym (bit-bit_xor x y i) ∙ ap (λ w. bit w i) z ∙ bit-zero i)))) in
    (
      small,
      λ j k. (both (7 - j)).0 (sym (bit-bit_xor x y (7 - j)) ∙ zeros j k),
      (both (7 - first_of (bit_xor x y))).1
          (sym (bit-bit_xor x y (7 - first_of (bit_xor x y))) ∙ one),
    )

module _ (a b : Bytes) (ba : IsBytes a) (bb : IsBytes b) (n : ℕ) where
  -- The keys have the same first `d` bits, and `d` is behind the `n` bits to look at or they differ there.
  abbrev pub First : ℕ → Type 0
  First d = Agree a b d × ((n ≤ d) ⊎ (key_bit a d ≢ key_bit b d))

  more : (k : ℕ) → Agree a b (8 * k) → a k ≡ b k → Agree a b (8 * (k + 1))
  more k same e i h = elim (Bool-cases (ltb i (8 * k))) [
    | inl t ↦ same i (ground arith)
    | inr f ↦
        let q : i / 8 ≡ k = ground (arith, h) in
        ap (λ x. bit x (7 - i % 8)) (ap a q ∙ e ∙ ap b (sym q))
  ]

  byte : (k : ℕ) → shr (8 * k) 3 ≡ k
  byte k = omega arith

  loop-same :
      (fuel k : ℕ)
      → 8 * k < n
      → n < 2 ^ 16 - 8
      → a k ≡ b k
      → differ_loop (suc fuel) a b n (8 * k) ≡ differ_loop fuel a b n (8 * (k + 1))
  unfolding differ_loop
  loop-same fuel k go small e =
      let in_range : ltb (8 * k) n ≡ true = ground (arith, go) in
      let eq : (a k == b k) ≡ true = ground (arith, e) in
      let next : (8 * k + 8) % 2 ^ 16 ≡ 8 * (k + 1) = omega (arith, small, go) in
      rw (in_range, byte k, eq, next) refl

  loop-differs :
      (fuel k : ℕ)
      → 8 * k < n
      → n < 2 ^ 16 - 8
      → a k ≢ b k
      → (p : ℕ) × (differ_loop (suc fuel) a b n (8 * k) ≡ some (8 * k + p))
        × (p < 8)
        × ((j : ℕ) → j < p → bit (a k) (7 - j) ≡ bit (b k) (7 - j))
        × (bit (a k) (7 - p) ≢ bit (b k) (7 - p))
  unfolding differ_loop
  loop-differs fuel k go small e =
      let (less, before, at) = first_difference (a k) (b k) e (ba k) (bb k) in
      let p = first_of (bit_xor (a k) (b k)) in
      let in_range : ltb (8 * k) n ≡ true = ground (arith, go) in
      let ne : (a k == b k) ≡ false = ground (arith, e) in
      let next : (8 * k + p) % 2 ^ 16 ≡ 8 * k + p = omega (arith, small, less, go) in
      (p, rw (in_range, byte k, ne) (ap some next), less, before, at)

  loop-stop : (fuel k : ℕ) → n ≤ 8 * k → differ_loop (suc fuel) a b n (8 * k) ≡ some (8 * k)
  unfolding differ_loop
  loop-stop fuel k stop = let out : ltb (8 * k) n ≡ false = ground (arith, stop) in rw out refl

  within :
      (k p : ℕ)
      → p < 8
      → Agree a b (8 * k)
      → ((j : ℕ) → j < p → bit (a k) (7 - j) ≡ bit (b k) (7 - j))
      → Agree a b (8 * k + p)
  within k p less same before i h = elim (Bool-cases (ltb i (8 * k))) [
    | inl t ↦ same i (ground arith)
    | inr f ↦
        let q : i ≡ 8 * k + (i - 8 * k) = ground arith in
        let j : i - 8 * k < p = ground (arith, h) in
        ap (key_bit a) q
        ∙ key_bit-at a k (i - 8 * k) (omega (arith, j, less))
        ∙ before (i - 8 * k) j
        ∙ sym (key_bit-at b k (i - 8 * k) (omega (arith, j, less)))
        ∙ sym (ap (key_bit b) q)
  ]

  differ-First :
      (fuel k : ℕ)
      → n + 8 ≤ 8 * k + 8 * fuel
      → 8 * k < n + 8
      → n < 2 ^ 16 - 8
      → Agree a b (8 * k)
      → (d : ℕ) × (differ_loop fuel a b n (8 * k) ≡ some d) × First d
  differ-First zero k enough near small same = absurd (omega (arith, enough, near))
  differ-First (suc fuel) k enough near small same = elim (Bool-cases (ltb (8 * k) n)) [
    | inr stop ↦ (8 * k, loop-stop fuel k (ground arith), (same, inl (ground arith)))
    | inl go ↦ elim (Bool-cases (a k == b k)) [
      | inl eq ↦
          let (d, run, first) =
            differ-First fuel (k + 1) (omega (arith, enough)) (ground (arith, go)) small
              (more k same (ground arith)) in
          (d, loop-same fuel k (ground arith) small (ground arith) ∙ run, first)
      | inr ne ↦
          let (p, run, less, before, at) =
            loop-differs fuel k (ground arith) small (ground arith) in
          (
            8 * k + p,
            run,
            (
              within k p less same before,
              inr (λ z. at (sym (key_bit-at a k p less) ∙ z ∙ key_bit-at b k p less)),
            ),
          )
    ]
  ]

-- The loop of insertion over two keys ends, on fuel of more than the bits to look at, of which there are
-- less than 65528. The keys have the same bits up to its result, and where that is one of the bits to
-- look at, the keys differ there.
pub differ_loop-First :
    (a b : Bytes)
    → (n : ℕ) → IsBytes a
    → IsBytes b
    → n < 2 ^ 16 - 8
    → (d : ℕ) × (differ_loop (n + 1) a b n 0 ≡ some d)
      × Agree a b d
      × ((n ≤ d) ⊎ (key_bit a d ≢ key_bit b d))
differ_loop-First a b n ba bb small =
    let (d, run, (same, at)) =
      differ-First a b ba bb n (n + 1) 0 (omega arith) (omega arith) small
        (λ i h. absurd (omega (arith, h))) in
    (d, run, same, at)
