-- ===== src/BitMask/Byte.antt =====
-- What the table look-ups return, for every byte: both tables are run at all their arguments.
use opx_common_utils.Prelude.{
  ℕ, zero, suc, ◌-◌, ◌≤◌, ◌<◌, ◌≡◌, refl, Bool, false, true, ◌&&◌, ◌||◌, arith, ◌==◌, ltb, leb,
  if◌then◌else◌,
}
use opx_common_utils.Bits.{bit, bit-zero, zero_of_bits}
use opx_common_utils.Bits.Below.{all_below, all_below_at}
use opx_common_utils.BitMask.{find_first_bit8, find_last_bit8}

-- The digits of `b` in `[lo, hi)` are clear.
clear_check : ℕ → ℕ → ℕ → Bool
unfolding all_below bit
clear_check b lo hi = all_below hi (λ j. ltb j lo || bit b j == 0)

abbrev pub IsClear : ℕ → ℕ → ℕ → Type 0
IsClear b lo hi = (j : ℕ) → lo ≤ j → j < hi → bit b j ≡ 0

IsClear-of_check : (b lo hi : ℕ) → clear_check b lo hi ≡ true → IsClear b lo hi
unfolding clear_check
IsClear-of_check b lo hi h j p q =
    ground (arith, all_below_at hi (λ i. ltb i lo || bit b i == 0) j h q)

first_check : ℕ → ℕ → Bool
unfolding clear_check find_first_bit8
first_check b k =
    let p = find_first_bit8 b k in
    if p == 0
    then clear_check b k 8
    else leb k (p - 1) && ltb (p - 1) 8 && bit b (p - 1) == 1 && clear_check b k (p - 1)

first_table : all_below 256 (λ b. all_below 8 (first_check b)) ≡ true
unfolding first_check
first_table = refl

last_check : ℕ → ℕ → Bool
unfolding clear_check find_last_bit8
last_check b k =
    let p = find_last_bit8 b k in
    if p == 0 then clear_check b 0 8 else ltb (p - 1) 8 && bit b (p - 1) == 1 && clear_check b p 8

last_table : all_below 256 (λ b. all_below 8 (last_check b)) ≡ true
unfolding last_check
last_table = refl

-- The place behind a table's entry, and what the entry 0 says.
pub data First8 (b k p : ℕ) : Type 0 where
  missing : p ≡ 0 → IsClear b k 8 → First8 b k p
  found : (q : ℕ) → p ≡ suc q → k ≤ q → q < 8 → bit b q ≡ 1 → IsClear b k q → First8 b k p

pub data Last8 (b p : ℕ) : Type 0 where
  missing : p ≡ 0 → IsClear b 0 8 → Last8 b p
  found : (q : ℕ) → p ≡ suc q → q < 8 → bit b q ≡ 1 → IsClear b (suc q) 8 → Last8 b p

First8-of_check :
    (b k p : ℕ)
    → (if p == 0
        then clear_check b k 8
        else leb k (p - 1) && ltb (p - 1) 8 && bit b (p - 1) == 1 && clear_check b k (p - 1))
      ≡ true
    → First8 b k p
First8-of_check b k zero h = missing refl (IsClear-of_check b k 8 h)
First8-of_check b k (suc q) h =
    found q refl (ground arith) (ground arith) (ground arith)
      (IsClear-of_check b k q (ground arith))

Last8-of_check :
    (b p : ℕ)
    → (if p == 0
        then clear_check b 0 8
        else ltb (p - 1) 8 && bit b (p - 1) == 1 && clear_check b p 8)
      ≡ true
    → Last8 b p
Last8-of_check b zero h = missing refl (IsClear-of_check b 0 8 h)
Last8-of_check b (suc q) h =
    found q refl (ground arith) (ground arith) (IsClear-of_check b (suc q) 8 (ground arith))

pub first_bit8_lem : (b k : ℕ) → b < 256 → k < 8 → First8 b k (find_first_bit8 b k)
unfolding first_check
first_bit8_lem b k hb hk = First8-of_check b k _ (
    all_below_at 8 (first_check b) k
      (all_below_at 256 (λ c. all_below 8 (first_check c)) b first_table hb) hk)

-- The mask of `std_find_last_bit8` keeps the whole byte, whatever `k` is.
pub last_bit8_lem : (b k : ℕ) → b < 256 → k < 8 → Last8 b (find_last_bit8 b k)
unfolding last_check
last_bit8_lem b k hb hk = Last8-of_check b _ (
    all_below_at 8 (last_check b) k
      (all_below_at 256 (λ c. all_below 8 (last_check c)) b last_table hb) hk)

set_ne_zero : (b q : ℕ) → bit b q ≡ 1 → (b == 0) ≡ false
set_ne_zero zero q h = let z = bit-zero q in absurd (omega arith)
set_ne_zero (suc b) q h = ground arith

-- A byte is skipped exactly when the look-up in it finds nothing.
pub First8-skip : (b p : ℕ) → b < 256 → First8 b 0 p → (b == 0) ≡ (p == 0)
First8-skip b p hb (missing e clear) =
    rw (e, zero_of_bits 8 b hb (λ i hi. clear i (omega arith) hi)) refl
First8-skip b p hb (found q e kq q8 one clear) = rw (e, set_ne_zero b q one) (ground arith)

pub Last8-skip : (b p : ℕ) → b < 256 → Last8 b p → (b == 0) ≡ (p == 0)
Last8-skip b p hb (missing e clear) =
    rw (e, zero_of_bits 8 b hb (λ i hi. clear i (omega arith) hi)) refl
Last8-skip b p hb (found q e q8 one clear) = rw (e, set_ne_zero b q one) (ground arith)
