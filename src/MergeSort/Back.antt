-- ===== src/MergeSort/Back.antt =====
-- The copy back at the end of a merge, and the whole merge.
use opx_common_utils.Prelude.{
  ℕ, zero, suc, ◌+◌, ◌-◌, ◌≤◌, ◌<◌, ◌≡◌, ◌⊎◌, inl, inr, refl, sym, subst, ◌∙◌, List, arith, ◌==◌,
  Bool-cases,
}
use opx_common_utils.Prelude.Int.{ℤ}
use opx_common_utils.MergeSort.{Arrays, at_most, copy_back, merge_arrays}
use opx_common_utils.MergeSort.Slice.{slice, slice-congr, Merged}
use opx_common_utils.MergeSort.Holds.{copy_element, Holds, copy_hit, copy_miss}
use opx_common_utils.MergeSort.Merge.{loops_lem}

module _ {ℓ} {A : Type ℓ} (cmp_func : A → A → ℤ) where
  copy_back_outside :
      (n : ℕ) (array tmp : ℕ → A) (right k : ℕ)
      → n ≤ right + 1
      → (right < k) ⊎ (k + n ≤ right)
      → copy_back cmp_func copy_element n array tmp right k ≡ array k
  unfolding copy_back
  copy_back_outside zero array tmp right k b h = refl
  copy_back_outside (suc n) array tmp right k b h =
      copy_back_outside n (copy_element array right tmp right) tmp (right - 1) k (omega arith)
        (omega (arith, h))
      ∙ copy_miss array right tmp right k (λ e. omega (arith, e, h))

  copy_back_inside :
      (n : ℕ) (array tmp : ℕ → A) (right k : ℕ)
      → n ≤ right + 1
      → k ≤ right
      → right < k + n
      → copy_back cmp_func copy_element n array tmp right k ≡ tmp k
  unfolding copy_back
  copy_back_inside zero array tmp right k b l h = absurd (omega arith)
  copy_back_inside (suc n) array tmp right k b l h =
      let array1 = copy_element array right tmp right in
      elim (Bool-cases (k == right)) [
        | inl t ↦
            let e : k ≡ right = ground arith in
            copy_back_outside n array1 tmp (right - 1) k (omega arith) (omega (arith, e, b))
            ∙ subst (λ q. copy_element array right tmp right q ≡ tmp q) (sym e)
                (copy_hit array right tmp right)
        | inr f ↦
            let e : k < right = ground arith in
            copy_back_inside n array1 tmp (right - 1) k (omega arith) (omega arith) (omega arith)
      ]

  -- A merge leaves a merge of the two sorted parts in their place.
  pub merge_arrays_lem :
      (a : Arrays A) (left nl mid nr right : ℕ)
      → left + nl ≡ mid
      → mid + nr ≡ right + 1
      → 0 < nl
      → 0 < nr
      → (zs : List A) × Merged
          (at_most cmp_func)
          (slice (a.array) left nl)
          (slice (a.array) mid nr)
          zs
        × Holds
            (a.array)
            (Arrays.array (merge_arrays cmp_func copy_element a left mid right))
            left
            (nl + nr)
            zs
  unfolding merge_arrays
  merge_arrays_lem a left nl mid nr right el er pl pr =
      let n = right - left + 1 in
      let (zs, merged, held) =
        loops_lem cmp_func (a.array) n n (mid - 1) right left nl mid nr left (a.tmp_array)
          (omega arith) er (omega arith) (omega arith) in
      let inside = slice-congr _ _ left (nl + nr) (λ k l h.
        copy_back_inside n (a.array) _ right k (omega arith) (omega arith) (omega arith)) in
      (
        zs,
        merged,
        record {
          holds = inside ∙ held.holds;
          outside =
              λ k out. copy_back_outside n (a.array) _ right k (omega arith) (omega (arith, out));
        },
      )
