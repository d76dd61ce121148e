-- ===== src/BitMask/Last.antt =====
-- What `std_find_last_bit` finds. Its mask keeps all bits of the byte that it starts in, so that it
-- searches whole bytes.
use opx_common_utils.Prelude.{
  Bool, some, ap, ◌∙◌, ℕ, zero, suc, ◌+◌, ◌-◌, ◌*◌, ◌/◌, ◌%◌, ◌^◌, ◌≤◌, ◌<◌, ◌≡◌, refl, true, false,
  arith, ◌==◌, ltb, leb, if◌then◌else◌, Bool-cases, inl, inr,
}
use opx_common_utils.Prelude.Int.{ℤ, pos, negsuc, to_int, to_int-pos}
use opx_common_utils.BitMask.{
  Bytes, IsBytes, array_test, bytes_for_bits, find_last_bit8, last_loop, find_last_bit,
}
use opx_common_utils.BitMask.Byte.{Last8, Last8-skip, missing, found, last_bit8_lem}
use opx_common_utils.BitMask.Update.{test_clear, test_set}

-- The search without the bounds of an `int`.
abbrev pub last_in : Bytes → ℕ → ℤ
last_in a zero = negsuc 0
last_in a (suc mx) =
    let rest = last_in a mx in
    if a mx == 0 then rest else to_int (find_last_bit8 (a mx) 0 - 1 + mx * 8)

abbrev pub find_in : Bytes → ℕ → ℕ → ℤ
find_in a len from =
    if leb len from
    then negsuc 0
    else (let n = len - from in
        let mx = n / 8 + (if n % 8 == 0 then 0 else 1) in
        let bit = n % 8 in
        let pos = find_last_bit8 (a (mx - 1)) bit in
        if mx == 0
        then negsuc 0
        else if bit == 0
        then last_in a mx
        else if pos == 0
        then last_in a (mx - 1)
        else to_int (pos - 1 + (mx - 1) * 8))

last_loop-last_in : (a : Bytes) (n : ℕ) → n * 8 ≤ 2 ^ 31 → last_loop a n ≡ some (last_in a n)
unfolding last_loop
last_loop-last_in a zero h = refl
last_loop-last_in a (suc mx) h =
    let fine : ltb (mx * 8) (2 ^ 31) ≡ true = ground (arith, h) in
    let rest = last_loop-last_in a mx (omega (arith, h)) in
    elim (Bool-cases (a mx == 0)) [ inl z ↦ rw (z) rest | inr z ↦ rw (z, fine) refl ]

branches :
    (b c d : Bool) (w x y z : ℤ)
    → (if b then some w else if c then some x else if d then some y else some z)
      ≡ some (if b then w else if c then x else if d then y else z)
branches true c d w x y z = refl
branches false true d w x y z = refl
branches false false true w x y z = refl
branches false false false w x y z = refl

-- For fewer than 2^31 - 7 bits the two are the same.
pub find_last_bit-find_in :
    (a : Bytes) (len from : ℕ)
    → len + 7 < 2 ^ 31
    → find_last_bit a len from ≡ some (find_in a len from)
unfolding find_last_bit
find_last_bit-find_in a len from small = elim (Bool-cases (leb len from)) [
  | inl out ↦ rw out refl
  | inr inside ↦
      let n = len - from in
      let mx = n / 8 + (if n % 8 == 0 then 0 else 1) in
      let low : mx * 8 ≤ 2 ^ 31 = ground (arith, small) in
      let whole : mx % 2 ^ 32 ≡ mx = omega (arith, low) in
      let positive : leb (2 ^ 31) mx ≡ false = ground (arith, low) in
      let fine : ltb ((mx - 1) * 8) (2 ^ 31) ≡ true = ground (arith, low) in
      let all = last_loop-last_in a mx low in
      let less = last_loop-last_in a (mx - 1) (omega (arith, low)) in
      rw (inside, whole, positive, fine, all, less)
        (branches (mx == 0) (n % 8 == 0) (find_last_bit8 (a (mx - 1)) (n % 8) == 0) (negsuc 0)
          (last_in a mx) (last_in a (mx - 1))
          (to_int (find_last_bit8 (a (mx - 1)) (n % 8) - 1 + (mx - 1) * 8)))
]

-- The last bit below `hi` that is set, or -1.
pub data LastSet (a : Bytes) (hi : ℕ) (r : ℤ) : Type 0 where
  absent : r ≡ negsuc 0 → ((j : ℕ) → j < hi → array_test a j ≡ false) → LastSet a hi r
  present :
      (i : ℕ)
      → r ≡ pos i
      → i < hi
      → array_test a i ≡ true
      → ((j : ℕ) → i < j → j < hi → array_test a j ≡ false)
      → LastSet a hi r

LastSet-extend :
    {a : Bytes} {hi : ℕ} {r : ℤ} (mid : ℕ)
    → mid ≤ hi
    → ((j : ℕ) → mid ≤ j → j < hi → array_test a j ≡ false)
    → LastSet a mid r
    → LastSet a hi r
LastSet-extend mid q behind (absent e none) = absent e (λ j h. elim (Bool-cases (ltb j mid)) [
  | inl t ↦ none j (ground arith)
  | inr t ↦ behind j (ground arith) h
])
LastSet-extend mid q behind (present i e h set none) = present i e (omega arith) set (λ j lj hj.
    elim (Bool-cases (ltb j mid)) [
      | inl t ↦ none j lj (ground arith)
      | inr t ↦ behind j (ground arith) hj
    ])

module _ (a : Bytes) where
  byte_step :
      (ix p : ℕ) (rest : ℤ)
      → (ix + 1) * 8 ≤ 2 ^ 31
      → Last8 (a ix) p
      → LastSet a (ix * 8) rest
      → LastSet a ((ix + 1) * 8) (if p == 0 then rest else to_int (p - 1 + ix * 8))
  byte_step ix p rest fits (missing e clear) before =
      let r : (if p == 0 then rest else to_int (p - 1 + ix * 8)) ≡ rest = ground arith in
      rw r (
        LastSet-extend (ix * 8) (omega arith)
          (λ j l h. test_clear a ix j (omega arith) (clear (j % 8) (omega arith) (omega arith)))
          before)
  byte_step ix p rest fits (found q e q8 one clear) before =
      let r : (if p == 0 then rest else to_int (p - 1 + ix * 8)) ≡ pos (q + ix * 8) =
        ground (arith, to_int-pos (q + ix * 8)) in
      let place : (q + ix * 8) % 8 ≡ q = omega arith in
      present (q + ix * 8) r (omega arith) (test_set a ix (q + ix * 8) (omega arith) (rw place one))
        (λ j l h. test_clear a ix j (omega arith) (clear (j % 8) (omega arith) (omega arith)))

  module _ (bytes : IsBytes a) where
    loop-LastSet : (n : ℕ) → n * 8 ≤ 2 ^ 31 → LastSet a (n * 8) (last_in a n)
    loop-LastSet zero fits = absent refl (λ j h. absurd (omega arith))
    loop-LastSet (suc mx) fits =
        let look = last_bit8_lem (a mx) 0 (bytes mx) (omega arith) in
        let top : suc mx * 8 ≡ (mx + 1) * 8 = omega arith in
        rw (Last8-skip (a mx) _ (bytes mx) look, top)
          (byte_step mx (find_last_bit8 (a mx) 0) (last_in a mx) (omega arith) look
            (loop-LastSet mx (omega arith)))

find_in-LastSet :
    (a : Bytes) (len from : ℕ)
    → IsBytes a
    → len + 7 < 2 ^ 31
    → from < len
    → LastSet a (bytes_for_bits (len - from) * 8) (find_in a len from)
unfolding bytes_for_bits
find_in-LastSet a len from bytes small inside =
    let n = len - from in
    let outside : leb len from ≡ false = ground arith in
    let some_byte : (n / 8 + (if n % 8 == 0 then 0 else 1) == 0) ≡ false = ground arith in
    rw (outside, some_byte)
      (elim (Bool-cases (n % 8 == 0)) [
        | inl z ↦
            let all : (0 + n / 8) * 8 ≡ n / 8 * 8 = omega arith in
            let rounds : n / 8 + 0 ≡ n / 8 = omega arith in
            rw (z, all, rounds) (loop-LastSet a bytes (n / 8) (omega arith))
        | inr nz ↦
            let all : (1 + n / 8) * 8 ≡ (n / 8 + 1) * 8 = omega arith in
            let top : n / 8 + 1 - 1 ≡ n / 8 = omega arith in
            rw (nz, all, top)
              (byte_step a (n / 8) _ (last_in a (n / 8)) (omega arith)
                (last_bit8_lem (a (n / 8)) (n % 8) (bytes _) (omega arith))
                (loop-LastSet a bytes (n / 8) (omega arith)))
      ])

-- For an array of fewer than 2^31 - 7 bits and a start inside it, `std_find_last_bit` has a result: the
-- last position, from the front, that tests set in the bytes that the first `len - from` bits of the
-- array need, those bytes taken whole, and -1 if no bit of these bytes is set. So `from` counts from the
-- end of the array.
pub find_last_bit-LastSet :
    (a : Bytes) (len from : ℕ)
    → IsBytes a
    → len + 7 < 2 ^ 31
    → from < len
    → (r : ℤ) × (find_last_bit a len from ≡ some r) × LastSet a (bytes_for_bits (len - from) * 8) r
find_last_bit-LastSet a len from bytes small inside = (
  find_in a len from,
  find_last_bit-find_in a len from small,
  find_in-LastSet a len from bytes small inside,
)

-- `from` is not honoured inside a byte: for an array of fewer than 2^31 - 7 bits and a start inside it, if
-- the byte in which the search starts has a bit set at or behind the position `len - from`, then the
-- result is such a position.
pub find_last_bit_past_start :
    (a : Bytes) (len from i : ℕ)
    → IsBytes a
    → len + 7 < 2 ^ 31
    → from < len
    → len - from ≤ i
    → i < bytes_for_bits (len - from) * 8
    → array_test a i ≡ true
    → (r : ℕ) × (find_last_bit a len from ≡ some (pos r)) × (len - from ≤ r)
find_last_bit_past_start a len from i bytes small inside behind below set =
    let (v, run, last) = find_last_bit-LastSet a len from bytes small inside in
    let (r, e, h) = pick last in (r, run ∙ ap some e, h)
  where
    pick :
        {v : ℤ}
        → LastSet a (bytes_for_bits (len - from) * 8) v
        → (r : ℕ) × (v ≡ pos r) × (len - from ≤ r)
    pick (absent e clear) = absurd (ground (arith, clear i below))
    pick (present r e h one clear) = (r, e, ground (arith, λ (t : r < i). clear i t below))
