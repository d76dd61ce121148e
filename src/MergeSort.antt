-- ===== src/MergeSort.antt =====
-- src/std_mergesort.c: the merge sort of an array through a comparison and a copy callback. An array
-- is its elements by index; the caller's `cmp_func` and `copy_func`, with their context, are
-- parameters. An index is an `int`: the sum of two that overflows is no result here, as C gives it no
-- value.
pub mod Slice
pub mod Holds
pub mod Merge
pub mod Back
pub mod Sort
mod Examples
use opx_common_utils.Prelude.{
  ℕ, zero, suc, ◌+◌, ◌-◌, ◌/◌, ◌^◌, Bool, not, ◌&&◌, Option, none, some, leb, ltb, if◌then◌else◌,
}
use opx_common_utils.Prelude.Int.{ℤ, pos, ltb_ℤ}

-- `copy_func` takes the destination and an index in it, and the source and an index in that.
abbrev pub Copy {ℓ} : Type ℓ → Type ℓ
Copy A = (ℕ → A) → ℕ → (ℕ → A) → ℕ → (ℕ → A)

-- `cmp_func (a, b) <= 0`
abbrev pub at_most {ℓ} : {A : Type ℓ} → (A → A → ℤ) → A → A → Bool
at_most cmp_func a b = not (ltb_ℤ (pos 0) (cmp_func a b))

-- The variables that the loops of a merge change.
pub record Cursor {ℓ} (A : Type ℓ) : Type ℓ where
  pub left : ℕ
  pub mid : ℕ
  pub curr_pos : ℕ
  pub tmp_array : ℕ → A

-- The two arrays of a sort.
pub record Arrays {ℓ} (A : Type ℓ) : Type ℓ where
  pub array : ℕ → A
  pub tmp_array : ℕ → A

module _ {ℓ} {A : Type ℓ} (cmp_func : A → A → ℤ) (copy_func : Copy A) where
  unfoldable pub copy_left : (ℕ → A) → Cursor A → Cursor A
  copy_left array c = record {
    left = c.left + 1;
    mid = c.mid;
    curr_pos = c.curr_pos + 1;
    tmp_array = copy_func (c.tmp_array) (c.curr_pos) array (c.left);
  }

  unfoldable pub copy_mid : (ℕ → A) → Cursor A → Cursor A
  copy_mid array c = record {
    left = c.left;
    mid = c.mid + 1;
    curr_pos = c.curr_pos + 1;
    tmp_array = copy_func (c.tmp_array) (c.curr_pos) array (c.mid);
  }

  -- The first loop of a merge: the smaller one of the two next elements, the left one of two equal
  -- ones, while both parts have elements. No loop has more rounds than there are elements.
  unfoldable pub both_loop : ℕ → (ℕ → A) → (left_end right : ℕ) → Cursor A → Cursor A
  unfolding copy_left copy_mid
  both_loop zero array left_end right c = c
  both_loop (suc fuel) array left_end right c =
      let from_left = both_loop fuel array left_end right (copy_left array c) in
      let from_mid = both_loop fuel array left_end right (copy_mid array c) in
      if leb (c.left) left_end && leb (c.mid) right
      then (if at_most cmp_func (array (c.left)) (array (c.mid)) then from_left else from_mid)
      else c

  -- The second loop: the rest of the left part.
  unfoldable pub left_loop : ℕ → (ℕ → A) → (left_end : ℕ) → Cursor A → Cursor A
  unfolding copy_left
  left_loop zero array left_end c = c
  left_loop (suc fuel) array left_end c =
      let rest = left_loop fuel array left_end (copy_left array c) in
      if leb (c.left) left_end then rest else c

  -- The third loop: the rest of the right part.
  unfoldable pub mid_loop : ℕ → (ℕ → A) → (right : ℕ) → Cursor A → Cursor A
  unfolding copy_mid
  mid_loop zero array right c = c
  mid_loop (suc fuel) array right c =
      let rest = mid_loop fuel array right (copy_mid array c) in
      if leb (c.mid) right then rest else c

  -- The last loop: `n` elements from the work array back, from `right` down.
  unfoldable pub copy_back : ℕ → (ℕ → A) → (ℕ → A) → (right : ℕ) → (ℕ → A)
  copy_back zero array tmp right = array
  copy_back (suc n) array tmp right = copy_back n (copy_func array right tmp right) tmp (right - 1)

  -- `std_merge_sort_merge_arrays`
  unfoldable pub merge_arrays : Arrays A → (left mid right : ℕ) → Arrays A
  merge_arrays a left mid right =
      let left_end = mid - 1 in
      let num_elements = right - left + 1 in
      let c0 : Cursor A = record {
        left = left;
        mid = mid;
        curr_pos = left;
        tmp_array = a.tmp_array;
      } in
      let c1 = both_loop num_elements (a.array) left_end right c0 in
      let c2 = left_loop num_elements (a.array) left_end c1 in
      let c3 = mid_loop num_elements (a.array) right c2 in
      record {
        array = copy_back num_elements (a.array) (c3.tmp_array) right;
        tmp_array = c3.tmp_array;
      }

  -- `std_merge_sort_divide_n_sort` on fuel, one for each level of the recursion.
  unfoldable pub divide_n_sort : ℕ → Arrays A → (left right : ℕ) → Option (Arrays A)
  divide_n_sort zero a left right = none
  divide_n_sort (suc fuel) a left right =
      let mid = (right + left) / 2 in
      let sorted : Option (Arrays A) = elim (divide_n_sort fuel a left mid) [
        | none ↦ none
        | some b ↦ elim (divide_n_sort fuel b (mid + 1) right) [
          | none ↦ none
          | some c ↦ some (merge_arrays c left (mid + 1) right)
        ]
      ] in
      if ltb left right then (if leb (2 ^ 31) (right + left) then none else sorted) else some a

  -- `std_merge_sort`; with no elements the last index is -1, and nothing is sorted.
  unfoldable pub merge_sort : ℕ → (ℕ → A) → (num_elements : ℕ) → (ℕ → A) → Option (Arrays A)
  unfolding divide_n_sort
  merge_sort fuel array num_elements tmp =
      divide_n_sort fuel (record { array = array; tmp_array = tmp }) 0 (num_elements - 1)
