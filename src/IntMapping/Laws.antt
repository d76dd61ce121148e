-- ===== src/IntMapping/Laws.antt =====
-- What `std_int_translate` returns.
use opx_common_utils.Prelude.{
  ℕ, zero, suc, ◌+◌, ◌≤◌, ◌<◌, ◌≡◌, ◌≢◌, refl, true, false, arith, inl, inr, Bool-cases, ◌==◌,
}
use opx_common_utils.Prelude.Int.{ℤ, pos, negsuc, eq_ℤ}
use opx_common_utils.IntMapping.{translate_loop, int_translate}

-- The answer is the returned column of the first row in `[lo, hi)` whose column `field` holds the
-- number `field` itself, and -1 if no row does.
pub data Translated (rows : ℕ → ℕ → ℤ) (field returned : ℕ) (lo hi : ℕ) (r : ℤ) : Type 0 where
  absent :
      r ≡ negsuc 0
      → ((i : ℕ) → lo ≤ i → i < hi → rows i field ≢ pos field)
      → Translated rows field returned lo hi r
  present :
      (i : ℕ)
      → r ≡ rows i returned
      → lo ≤ i
      → i < hi
      → rows i field ≡ pos field
      → ((j : ℕ) → lo ≤ j → j < i → rows j field ≢ pos field)
      → Translated rows field returned lo hi r

eq_ℤ-self : (a : ℤ) → eq_ℤ a a ≡ true
eq_ℤ-self a = ground arith

eq_of_eq_ℤ : (a b : ℤ) → eq_ℤ a b ≡ true → a ≡ b
eq_of_eq_ℤ a b h = ground arith

ne_of_eq_ℤ : (a b : ℤ) → eq_ℤ a b ≡ false → a ≢ b
ne_of_eq_ℤ a b h e = ground arith

module _ (rows : ℕ → ℕ → ℤ) (field returned : ℕ) where
  extend :
      {lo hi : ℕ} {r : ℤ}
      → rows lo field ≢ pos field
      → Translated rows field returned (lo + 1) hi r
      → Translated rows field returned lo hi r
  extend {lo} miss (absent e none) = absent e (λ i l h. elim (Bool-cases (lo == i)) [
    | inl t ↦ let same : lo ≡ i = ground arith in rw (← same) miss
    | inr t ↦ none i (ground arith) h
  ])
  extend {lo} miss (present i e l h hit none) = present i e (omega arith) h hit (λ j lj hj.
      elim (Bool-cases (lo == j)) [
        | inl t ↦ let same : lo ≡ j = ground arith in rw (← same) miss
        | inr t ↦ none j (ground arith) hj
      ])

  loop-Translated :
      (n ix hi : ℕ)
      → ix + n ≡ hi
      → Translated rows field returned ix hi (translate_loop field returned rows n ix)
  unfolding translate_loop
  loop-Translated zero ix hi e = absent refl (λ i l h. absurd (omega arith))
  loop-Translated (suc n) ix hi e = elim (Bool-cases (eq_ℤ (rows ix field) (pos field))) [
    | inl hit ↦ rw hit (
        present ix refl (omega arith) (omega arith) (eq_of_eq_ℤ _ _ hit)
          (λ j l h. absurd (omega arith)))
    | inr miss ↦
        rw miss (extend (ne_of_eq_ℤ _ _ miss) (loop-Translated n (ix + 1) hi (omega arith)))
  ]

-- `std_int_translate` compares the column with the column's own number and not with `from`: it
-- returns the first row whose column `field` holds the number `field`, or -1, whatever `from` is.
pub int_translate-Translated :
    (from : ℤ) (field returned : ℕ) (rows : ℕ → ℕ → ℤ) (len : ℕ)
    → Translated rows field returned 0 len (int_translate from field returned rows len)
unfolding int_translate
int_translate-Translated from field returned rows len =
    loop-Translated rows field returned len 0 len (omega arith)
