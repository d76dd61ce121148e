-- ===== src/MergeSort/Examples.antt =====
-- A run of the merge sort, and its theorem at a concrete array.
use opx_common_utils.Prelude.{ℕ, ◌≡◌, refl, Option, none, some, List, [], ◌∷◌, arith, get_or, leb}
use opx_common_utils.Prelude.Int.{ℤ, sub_ℕ}
use opx_common_utils.MergeSort.{
  Arrays, at_most, copy_left, copy_mid, both_loop, left_loop, mid_loop, copy_back, merge_arrays,
  divide_n_sort, merge_sort,
}
use opx_common_utils.MergeSort.Slice.{IsOrder, slice}
use opx_common_utils.MergeSort.Holds.{copy_element}
use opx_common_utils.MergeSort.Sort.{Sorts, merge_sort-Sorts}

abbrev numbers : ℕ → ℕ
numbers i = get_or (5 ∷ 1 ∷ 4 ∷ 1 ∷ 3 ∷ []) i 0

abbrev zeros : ℕ → ℕ
zeros i = 0

-- The numbers in order.
abbrev ascending : ℕ → ℕ → ℤ
ascending a b = sub_ℕ a b

at_most_iff : (x y : ℕ) → at_most ascending x y ≡ leb x y
at_most_iff x y = ground arith

ascending-IsOrder : IsOrder (at_most ascending)
ascending-IsOrder = record {
  total = λ x y. ground (arith, at_most_iff x y, at_most_iff y x);
  transitive = λ x y z h k. ground (arith, at_most_iff x y, at_most_iff y z, at_most_iff x z);
}

-- The elements of the array of a result.
abbrev sorted_numbers : Option (Arrays ℕ) → List ℕ
sorted_numbers none = []
sorted_numbers (some b) = slice (b.array) 0 5

merge_sort_runs :
    sorted_numbers (merge_sort ascending copy_element 5 numbers 5 zeros) ≡ 1 ∷ 1 ∷ 3 ∷ 4 ∷ 5 ∷ []
unfolding merge_sort divide_n_sort merge_arrays copy_back mid_loop left_loop both_loop copy_mid
    copy_left
merge_sort_runs = refl

merge_sort-Sorts_example :
    (b : Arrays ℕ) × (merge_sort ascending copy_element 5 numbers 5 zeros ≡ some b)
    × Sorts (at_most ascending) numbers (b.array) 0 5
merge_sort-Sorts_example =
    merge_sort-Sorts ascending copy_element 5 numbers 5 zeros ascending-IsOrder refl (omega arith)
      (omega arith) (omega arith)
