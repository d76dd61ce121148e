-- ===== src/BitMask/First.antt =====
-- `std_find_first_bit` finds the first bit at or behind `from` in the bytes of the array.
use opx_common_utils.Prelude.{
  ℕ, zero, suc, ◌+◌, ◌-◌, ◌*◌, ◌/◌, ◌%◌, ◌^◌, ◌≤◌, ◌<◌, ◌≡◌, refl, subst, inl, inr, true, false,
  arith, ◌==◌, ltb, leb, if◌then◌else◌, Bool-cases,
}
use opx_common_utils.Prelude.Int.{ℤ, pos, negsuc, to_int, to_int-pos}
use opx_common_utils.BitMask.{
  Bytes, IsBytes, array_test, bytes_for_bits, find_first_bit8, first_loop, find_first_bit,
}
use opx_common_utils.BitMask.Byte.{First8, First8-skip, missing, found, first_bit8_lem}
use opx_common_utils.BitMask.Update.{test_clear, test_set}

-- The first bit of `[lo, hi)` that is set, as an `int`, or -1.
pub data FirstSet (a : Bytes) (lo hi : ℕ) (r : ℤ) : Type 0 where
  absent : r ≡ negsuc 0 → ((j : ℕ) → lo ≤ j → j < hi → array_test a j ≡ false) → FirstSet a lo hi r
  present :
      (i : ℕ)
      → r ≡ pos i
      → lo ≤ i
      → i < hi
      → array_test a i ≡ true
      → ((j : ℕ) → lo ≤ j → j < i → array_test a j ≡ false)
      → FirstSet a lo hi r

-- Clear bits in front of a range do not change the first that is set.
FirstSet-extend :
    {a : Bytes} {lo hi : ℕ} {r : ℤ} (mid : ℕ)
    → lo ≤ mid
    → mid ≤ hi
    → ((j : ℕ) → lo ≤ j → j < mid → array_test a j ≡ false)
    → FirstSet a mid hi r
    → FirstSet a lo hi r
FirstSet-extend mid p q before (absent e none) = absent e (λ j l h. elim (Bool-cases (ltb j mid)) [
  | inl t ↦ before j l (ground arith)
  | inr t ↦ none j (ground arith) h
])
FirstSet-extend mid p q before (present i e l h set none) =
    present i e (omega arith) h set (λ j lj hj. elim (Bool-cases (ltb j mid)) [
      | inl t ↦ before j lj (ground arith)
      | inr t ↦ none j (ground arith) hj
    ])

module _ (a : Bytes) (hi : ℕ) (fits : hi ≤ 2 ^ 31) where
  -- A look-up in the byte `ix` from its bit `k` on, and what is found behind that byte.
  byte_step :
      (lo ix k p : ℕ) (rest : ℤ)
      → lo ≡ ix * 8 + k
      → k < 8
      → (ix + 1) * 8 ≤ hi
      → First8 (a ix) k p
      → FirstSet a ((ix + 1) * 8) hi rest
      → FirstSet a lo hi (if p == 0 then rest else to_int (p - 1 + ix * 8))
  byte_step lo ix k p rest at hk h8 (missing e clear) behind =
      let r : (if p == 0 then rest else to_int (p - 1 + ix * 8)) ≡ rest = ground arith in
      rw r (
        FirstSet-extend ((ix + 1) * 8) (omega arith) h8
          (λ j l h. test_clear a ix j (omega arith) (clear (j % 8) (omega arith) (omega arith)))
          behind)
  byte_step lo ix k p rest at hk h8 (found q e kq q8 one clear) behind =
      let r : (if p == 0 then rest else to_int (p - 1 + ix * 8)) ≡ pos (q + ix * 8) =
        ground (arith, to_int-pos (q + ix * 8)) in
      let place : (q + ix * 8) % 8 ≡ q = omega arith in
      present (q + ix * 8) r (omega arith) (omega arith)
        (test_set a ix (q + ix * 8) (omega arith) (rw place one))
        (λ j l h. test_clear a ix j (omega arith) (clear (j % 8) (omega arith) (omega arith)))

  module _ (bytes : IsBytes a) where
    loop-FirstSet : (n ix : ℕ) → (ix + n) * 8 ≡ hi → FirstSet a (ix * 8) hi (first_loop a n ix)
    unfolding first_loop
    loop-FirstSet zero ix e = absent refl (λ j l h. absurd (omega arith))
    loop-FirstSet (suc n) ix e =
        let look = first_bit8_lem (a ix) 0 (bytes ix) (omega arith) in
        rw (First8-skip (a ix) _ (bytes ix) look) (
          byte_step (ix * 8) ix 0 (find_first_bit8 (a ix) 0) (first_loop a n (ix + 1)) (omega arith)
            (omega arith) (omega arith) look (loop-FirstSet n (ix + 1) (omega arith)))

-- For an array of fewer than 2 ^ 31 - 7 bits and a start inside it, `std_find_first_bit` returns the
-- first position from `from` on, in the array's bytes, that `STD_BIT_ARRAY_TEST` finds set, and -1 if
-- it finds none of them set. The last byte counts as a whole, its bits at or behind `len` included.
pub find_first_bit-FirstSet :
    (a : Bytes) (len from : ℕ)
    → IsBytes a
    → len + 7 < 2 ^ 31
    → from < len
    → FirstSet a from (bytes_for_bits len * 8) (find_first_bit a len from)
unfolding find_first_bit bytes_for_bits
find_first_bit-FirstSet a len from bytes small inside =
    let hi = bytes_for_bits len * 8 in
    let mx = len / 8 + (if len % 8 == 0 then 0 else 1) in
    let same : hi ≡ mx * 8 = ground arith in
    let fits : hi ≤ 2 ^ 31 = ground arith in
    let room : from / 8 < mx = ground arith in
    let outside : leb len from ≡ false = ground arith in
    rw outside (elim (Bool-cases (from % 8 == 0)) [
      | inl z ↦ rw z (
          subst (λ s. FirstSet a s hi (first_loop a (mx - from / 8) (from / 8))) (ground arith)
            (loop-FirstSet a hi fits bytes (mx - from / 8) (from / 8) (ground arith)))
      | inr nz ↦ rw nz (
          byte_step a hi fits from (from / 8) (from % 8) _
            (first_loop a (mx - (from / 8 + 1)) (from / 8 + 1)) (ground arith) (omega arith)
            (omega arith) (first_bit8_lem (a (from / 8)) (from % 8) (bytes _) (omega arith))
            (loop-FirstSet a hi fits bytes (mx - (from / 8 + 1)) (from / 8 + 1) (omega arith)))
    ])
