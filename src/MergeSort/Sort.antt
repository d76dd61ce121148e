-- ===== src/MergeSort/Sort.antt =====
-- The recursion of the merge sort, and what the sort promises.
use mathlib.Core.List.{Perm}
use mathlib.Core.List.Perm
use opx_common_utils.Prelude.{
  ℕ, zero, suc, ◌+◌, ◌-◌, ◌/◌, ◌^◌, ◌≤◌, ◌<◌, ◌≡◌, ◌⊎◌, inl, inr, refl, ap, ap₂, sym, subst, ◌∙◌,
  Bool, true, false, some, ◌++◌, arith, leb, ltb,
}
use opx_common_utils.Prelude.Int.{ℤ}
use opx_common_utils.MergeSort.{Copy, Arrays, at_most, merge_arrays, divide_n_sort, merge_sort}
use opx_common_utils.MergeSort.Slice.{
  slice, slice-congr, slice-append, IsSorted, IsOrder, IsSorted-Merged, Perm-Merged, filter,
  filter-append, filter-Merged, same_as,
}
use opx_common_utils.MergeSort.Holds.{copy_element}
use opx_common_utils.MergeSort.Back.{merge_arrays_lem}

-- `b` is `a` with the `n` elements from `lo` on in order: sorted, a rearrangement in which elements that
-- the order does not tell apart stand as they stood, and nothing else changed.
pub record Sorts {ℓ} {A : Type ℓ} (le : A → A → Bool) (a b : ℕ → A) (lo n : ℕ) : Type ℓ where
  pub sorted : IsSorted le (slice b lo n)
  pub perm : Perm (slice a lo n) (slice b lo n)
  pub stable : (k : A) → filter (same_as le k) (slice b lo n) ≡ filter (same_as le k) (slice a lo n)
  pub outside : (k : ℕ) → (k < lo) ⊎ (lo + n ≤ k) → b k ≡ a k

module _ {ℓ} {A : Type ℓ} (cmp_func : A → A → ℤ) (order : IsOrder (at_most cmp_func)) where
  -- Two sorted parts, one behind the other, and their merge.
  Sorts-merge :
      (a b : ℕ → A) (d : Arrays A) (left nl mid nr right : ℕ)
      → left + nl ≡ mid
      → mid + nr ≡ right + 1
      → 0 < nl
      → 0 < nr
      → Sorts (at_most cmp_func) a b left nl
      → Sorts (at_most cmp_func) b (d.array) mid nr
      → Sorts
          (at_most cmp_func)
          a
          (Arrays.array (merge_arrays cmp_func copy_element d left mid right))
          left
          (nl + nr)
  Sorts-merge a b d left nl mid nr right el er pl pr s1 s2 =
      let le = at_most cmp_func in
      let (zs, merged, held) = merge_arrays_lem cmp_func d left nl mid nr right el er pl pr in
      let front : slice (d.array) left nl ≡ slice b left nl =
        slice-congr (d.array) b left nl (λ k l h. s2.outside k (inl (omega arith))) in
      let back : slice b mid nr ≡ slice a mid nr =
        slice-congr b a mid nr (λ k l h. s1.outside k (inr (omega arith))) in
      let whole : slice a left (nl + nr) ≡ slice a left nl ++ slice a mid nr =
        slice-append a left nl nr ∙ ap (λ q. slice a left nl ++ slice a q nr) el in
      let sorted1 = subst (IsSorted le) (sym front) (s1.sorted) in
      let perm1 : Perm (slice a left nl) (slice (d.array) left nl) =
        subst (Perm (slice a left nl)) (sym front) (s1.perm) in
      let perm2 : Perm (slice a mid nr) (slice (d.array) mid nr) =
        subst (λ l. Perm l (slice (d.array) mid nr)) back (s2.perm) in
      record {
        sorted =
            subst (IsSorted le) (sym held.holds) (IsSorted-Merged order merged sorted1 (s2.sorted));
        perm = subst (Perm (slice a left (nl + nr))) (sym held.holds) (
            subst (λ l. Perm l zs) (sym whole)
              (Perm.trans (Perm.append perm1 perm2) (Perm-Merged merged)));
        stable = λ k.
            ap (filter (same_as le k)) (held.holds)
            ∙ filter-Merged order k merged sorted1 (s2.sorted)
            ∙ ap₂ (◌++◌) (ap (filter (same_as le k)) front ∙ s1.stable k)
                (s2.stable k ∙ ap (filter (same_as le k)) back)
            ∙ sym (filter-append (same_as le k) (slice a left nl) (slice a mid nr))
            ∙ ap (filter (same_as le k)) (sym whole);
        outside = λ k out.
            held.outside k out
            ∙ s2.outside k (omega (arith, out))
            ∙ s1.outside k (omega (arith, out));
      }

  -- One element is in order.
  Sorts-one : (a : ℕ → A) (lo : ℕ) → Sorts (at_most cmp_func) a a lo 1
  Sorts-one a lo = record {
    sorted = (tt, tt);
    perm = Perm.refl (slice a lo 1);
    stable = λ k. refl;
    outside = λ k out. refl;
  }

  divide_n_sort-Sorts :
      (fuel : ℕ) (a : Arrays A) (left n right : ℕ)
      → left + suc n ≡ right + 1
      → n < fuel
      → right + right ≤ 2 ^ 31
      → (b : Arrays A) × (divide_n_sort cmp_func copy_element fuel a left right ≡ some b)
        × Sorts (at_most cmp_func) (a.array) (b.array) left (suc n)
  unfolding divide_n_sort
  divide_n_sort-Sorts zero a left n right e f h = absurd (omega arith)
  divide_n_sort-Sorts (suc fuel) a left zero right e f h =
      let stop : ltb left right ≡ false = ground arith in
      (a, rw stop refl, Sorts-one (a.array) left)
  divide_n_sort-Sorts (suc fuel) a left (suc n) right e f h =
      let more : ltb left right ≡ true = ground arith in
      let fits : leb (2 ^ 31) (right + left) ≡ false = ground arith in
      let mid = (right + left) / 2 in
      let (b, run1, s1) =
        divide_n_sort-Sorts fuel a left (mid - left) mid (omega arith) (omega arith)
          (omega arith) in
      let (c, run2, s2) =
        divide_n_sort-Sorts fuel b (mid + 1) (right - (mid + 1)) right (omega arith) (omega arith)
          (omega arith) in
      let merged =
        Sorts-merge (a.array) (b.array) c left (suc (mid - left)) (mid + 1)
          (suc (right - (mid + 1))) right (omega arith) (omega arith) (omega arith) (omega arith) s1
          s2 in
      (
        merge_arrays cmp_func copy_element c left (mid + 1) right,
        rw (more, fits, run1, run2) refl,
        subst
            (Sorts (at_most cmp_func) (a.array)
              (Arrays.array (merge_arrays cmp_func copy_element c left (mid + 1) right)) left)
            (omega arith) merged,
      )

-- With a comparison that is a total preorder and a copy callback that copies one element,
-- `std_merge_sort` on 1 to 2^30 elements returns with the array in order: sorted, a rearrangement of
-- what it was that keeps the order of elements that compare as equal, and unchanged behind its last
-- element. No more levels of recursion are needed than there are elements.
pub merge_sort-Sorts {ℓ} :
    {A : Type ℓ} (cmp_func : A → A → ℤ) (copy_func : Copy A) (fuel : ℕ) (array : ℕ → A)
    (num_elements : ℕ) (tmp : ℕ → A)
    → IsOrder (at_most cmp_func)
    → copy_func ≡ copy_element
    → 0 < num_elements
    → num_elements ≤ 2 ^ 30
    → num_elements ≤ fuel
    → (b : Arrays A) × (merge_sort cmp_func copy_func fuel array num_elements tmp ≡ some b)
      × Sorts (at_most cmp_func) array (b.array) 0 num_elements
unfolding merge_sort
merge_sort-Sorts cmp_func copy_func fuel array num_elements tmp order copies p l f =
    let (b, run, sorts) =
      divide_n_sort-Sorts cmp_func order fuel (record { array = array; tmp_array = tmp }) 0
        (num_elements - 1) (num_elements - 1) (omega arith) (omega arith) (omega arith) in
    (
      b,
      ap
            (λ copy.
              divide_n_sort cmp_func copy fuel (record { array = array; tmp_array = tmp }) 0
                (num_elements - 1))
            copies
          ∙ run,
      subst (Sorts (at_most cmp_func) array (b.array) 0) (omega arith) sorts,
    )
