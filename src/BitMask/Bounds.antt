-- ===== src/BitMask/Bounds.antt =====
-- The searches read no byte behind the bytes of the array.
use opx_common_utils.Prelude.{
  ℕ, zero, suc, ◌+◌, ◌-◌, ◌/◌, ◌%◌, ◌<◌, ◌≡◌, refl, arith, ◌==◌, leb, if◌then◌else◌, Bool-cases,
  inl, inr, some, ap, sym, ◌∙◌, ◌^◌,
}
use opx_common_utils.BitMask.{Bytes, bytes_for_bits, first_loop, find_first_bit, find_last_bit}
use opx_common_utils.BitMask.Last.{last_in, find_in, find_last_bit-find_in}
use opx_common_utils.Prelude.Int.{ℤ}

module _ (a b : Bytes) where
  first_loop_reads :
      (n ix : ℕ) → ((i : ℕ) → i < ix + n → a i ≡ b i) → first_loop a n ix ≡ first_loop b n ix
  unfolding first_loop
  first_loop_reads zero ix h = refl
  first_loop_reads (suc n) ix h =
      rw (h ix (omega arith), first_loop_reads n (ix + 1) (λ i l. h i (omega arith)))

  last_in_reads : (n : ℕ) → ((i : ℕ) → i < n → a i ≡ b i) → last_in a n ≡ last_in b n
  last_in_reads zero h = refl
  last_in_reads (suc n) h = rw (h n (omega arith), last_in_reads n (λ i l. h i (omega arith)))

  find_in_reads :
      (len from : ℕ)
      → ((i : ℕ) → i < bytes_for_bits len → a i ≡ b i)
      → find_in a len from ≡ find_in b len from
  unfolding bytes_for_bits
  find_in_reads len from h = elim (Bool-cases (leb len from)) [
    | inl out ↦ rw out refl
    | inr inside ↦
        let n = len - from in
        let nx = n / 8 + (if n % 8 == 0 then 0 else 1) in
        rw
          (
            inside,
            h (nx - 1) (ground arith),
            last_in_reads nx (λ i l. h i (ground arith)),
            last_in_reads (nx - 1) (λ i l. h i (ground arith)),
          )
          refl
  ]

  -- For fewer than 2^31 - 7 bits, two memories that agree on the bytes that `len` bits need give the same
  -- result of `std_find_first_bit` and of `std_find_last_bit`, and the latter has one, for every start:
  -- nothing outside of these bytes is read.
  pub find_bit_reads :
      (len from : ℕ)
      → len + 7 < 2 ^ 31
      → ((i : ℕ) → i < bytes_for_bits len → a i ≡ b i)
      → (find_first_bit a len from ≡ find_first_bit b len from)
        × ((r : ℤ) × (find_last_bit a len from ≡ some r) × (find_last_bit b len from ≡ some r))
  unfolding find_first_bit bytes_for_bits
  find_bit_reads len from small h = (
    elim (Bool-cases (leb len from)) [
      | inl out ↦ rw out refl
      | inr inside ↦
          let mx = len / 8 + (if len % 8 == 0 then 0 else 1) in
          rw
            (
              inside,
              h (from / 8) (ground arith),
              first_loop_reads (mx - from / 8) (from / 8) (λ i l. h i (ground arith)),
              first_loop_reads (mx - (from / 8 + 1)) (from / 8 + 1) (λ i l. h i (ground arith)),
            )
            refl
    ],
    (
      find_in a len from,
      find_last_bit-find_in a len from small,
      find_last_bit-find_in b len from small ∙ ap some (sym (find_in_reads len from h)),
    ),
  )
