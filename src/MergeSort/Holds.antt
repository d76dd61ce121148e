-- ===== src/MergeSort/Holds.antt =====
-- A run of elements that is copied into an array.
use opx_common_utils.Prelude.{
  ℕ, suc, ◌+◌, ◌≤◌, ◌<◌, ◌≡◌, ◌≢◌, ◌⊎◌, inl, refl, ap, ap₂, ◌∙◌, true, false, List, ◌∷◌, ◌++◌,
  arith, if◌then◌else◌, ◌==◌,
}
use opx_common_utils.MergeSort.{Copy}
use opx_common_utils.MergeSort.Slice.{slice, slice-congr, slice-append}

-- Element `j` of the source becomes element `i` of the destination.
abbrev pub copy_element {ℓ} : {A : Type ℓ} → Copy A
copy_element dst i src j k = if k == i then src j else dst k

module _ {ℓ} {A : Type ℓ} where
  -- `b` has the elements `xs` from `lo` on, and outside of them those of `a`.
  pub record Holds (a b : ℕ → A) (lo n : ℕ) (xs : List A) : Type ℓ where
    pub holds : slice b lo n ≡ xs
    pub outside : (k : ℕ) → (k < lo) ⊎ (lo + n ≤ k) → b k ≡ a k

  pub copy_hit : (dst : ℕ → A) (i : ℕ) (src : ℕ → A) (j : ℕ) → copy_element dst i src j i ≡ src j
  copy_hit dst i src j = let e : (i == i) ≡ true = ground arith in rw e refl

  pub copy_miss :
      (dst : ℕ → A) (i : ℕ) (src : ℕ → A) (j k : ℕ) → k ≢ i → copy_element dst i src j k ≡ dst k
  copy_miss dst i src j k h = let e : (k == i) ≡ false = ground arith in rw e refl

  -- One element more in front.
  pub Holds-cons :
      {a b : ℕ → A} (src : ℕ → A) {lo n m : ℕ} (j : ℕ) {xs : List A}
      → n + 1 ≡ m
      → Holds (copy_element a lo src j) b (lo + 1) n xs
      → Holds a b lo m (src j ∷ xs)
  Holds-cons {a} {b} src {lo} {n} {m} j {xs} e h = record {
    holds =
        ap (slice b lo) {x = m} {y = suc n} (omega arith)
        ∙ ap₂ (◌∷◌) (h.outside lo (inl (omega arith)) ∙ copy_hit a lo src j) (h.holds);
    outside = λ k out.
        h.outside k (omega arith) ∙ copy_miss a lo src j k (λ same. omega (arith, same, out));
  }

  pub Holds-list :
      {a b : ℕ → A} {lo n : ℕ} {xs ys : List A} → xs ≡ ys → Holds a b lo n xs → Holds a b lo n ys
  Holds-list e h = record { holds = h.holds ∙ e; outside = h.outside }

  -- Two runs of elements, one behind the other.
  pub Holds-append :
      (a b c : ℕ → A) (lo n m : ℕ) (xs ys : List A)
      → Holds a b lo n xs
      → Holds b c (lo + n) m ys
      → Holds a c lo (n + m) (xs ++ ys)
  Holds-append a b c lo n m xs ys h k =
      let front = slice-congr c b lo n (λ i l r. k.outside i (inl (omega arith))) in
      record {
        holds = slice-append c lo n m ∙ ap₂ (◌++◌) (front ∙ h.holds) (k.holds);
        outside = λ i out. k.outside i (omega (arith, out)) ∙ h.outside i (omega (arith, out));
      }
