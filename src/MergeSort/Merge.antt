-- ===== src/MergeSort/Merge.antt =====
-- The loops of a merge, with a copy callback that copies: the work array gets the merge of the two
-- parts, and the array gets it back.
use mathlib.Core.List.{append-nil}
use opx_common_utils.Prelude.{
  ℕ, zero, suc, ◌+◌, ◌≤◌, ◌≡◌, inl, inr, refl, ap, ap₂, sym, subst, ◌∙◌, true, false, List, ◌∷◌,
  ◌++◌, arith, leb, Bool-cases,
}
use opx_common_utils.Prelude.Int.{ℤ}
use opx_common_utils.MergeSort.{
  Cursor, at_most, copy_left, copy_mid, both_loop, left_loop, mid_loop,
}
use opx_common_utils.MergeSort.Slice.{slice, Merged, left_rest, mid_rest, take_left, take_mid}
use opx_common_utils.MergeSort.Holds.{copy_element, Holds, Holds-cons, Holds-list, Holds-append}

module _ {ℓ} {A : Type ℓ} (cmp_func : A → A → ℤ) (array : ℕ → A) where
  -- The second loop on the `n` elements that are left of the left part.
  left_loop_lem :
      (fuel left_end left l n mid curr c : ℕ) (tmp : ℕ → A)
      → left + n ≡ left_end + 1
      → left + n ≡ l
      → curr + n ≡ c
      → n ≤ fuel
      → (t : ℕ → A) × (left_loop cmp_func copy_element fuel array left_end
            (record { left = left; mid = mid; curr_pos = curr; tmp_array = tmp })
          ≡ record { left = l; mid = mid; curr_pos = c; tmp_array = t })
        × Holds tmp t curr n (slice array left n)
  unfolding left_loop copy_left
  left_loop_lem zero left_end left l zero mid curr c tmp e el ec h = (
    tmp,
    ap₂ (λ x y. record { left = x; mid = mid; curr_pos = y; tmp_array = tmp }) (omega arith)
        (omega arith),
    record { holds = refl; outside = λ k out. refl },
  )
  left_loop_lem zero left_end left l (suc n) mid curr c tmp e el ec h = absurd (omega arith)
  left_loop_lem (suc fuel) left_end left l zero mid curr c tmp e el ec h =
      let stop : leb left left_end ≡ false = ground arith in
      let same : Path (Cursor A)
          (record { left = left; mid = mid; curr_pos = curr; tmp_array = tmp })
          (record { left = l; mid = mid; curr_pos = c; tmp_array = tmp }) =
        ap₂ (λ x y. record { left = x; mid = mid; curr_pos = y; tmp_array = tmp }) (omega arith)
          (omega arith) in
      (tmp, rw stop same, record { holds = refl; outside = λ k out. refl })
  left_loop_lem (suc fuel) left_end left l (suc n) mid curr c tmp e el ec h =
      let more : leb left left_end ≡ true = ground arith in
      let tmp1 = copy_element tmp curr array left in
      let (t, run, holds) =
        left_loop_lem fuel left_end (left + 1) l n mid (curr + 1) c tmp1 (omega arith) (omega arith)
          (omega arith) (omega arith) in
      (t, rw more run, Holds-cons array left (omega arith) holds)

  -- The third loop on the `n` elements that are left of the right part.
  mid_loop_lem :
      (fuel right left mid m n curr c : ℕ) (tmp : ℕ → A)
      → mid + n ≡ right + 1
      → mid + n ≡ m
      → curr + n ≡ c
      → n ≤ fuel
      → (t : ℕ → A) × (mid_loop cmp_func copy_element fuel array right
            (record { left = left; mid = mid; curr_pos = curr; tmp_array = tmp })
          ≡ record { left = left; mid = m; curr_pos = c; tmp_array = t })
        × Holds tmp t curr n (slice array mid n)
  unfolding mid_loop copy_mid
  mid_loop_lem zero right left mid m zero curr c tmp e el ec h = (
    tmp,
    ap₂ (λ x y. record { left = left; mid = x; curr_pos = y; tmp_array = tmp }) (omega arith)
        (omega arith),
    record { holds = refl; outside = λ k out. refl },
  )
  mid_loop_lem zero right left mid m (suc n) curr c tmp e el ec h = absurd (omega arith)
  mid_loop_lem (suc fuel) right left mid m zero curr c tmp e el ec h =
      let stop : leb mid right ≡ false = ground arith in
      let same : Path (Cursor A)
          (record { left = left; mid = mid; curr_pos = curr; tmp_array = tmp })
          (record { left = left; mid = m; curr_pos = c; tmp_array = tmp }) =
        ap₂ (λ x y. record { left = left; mid = x; curr_pos = y; tmp_array = tmp }) (omega arith)
          (omega arith) in
      (tmp, rw stop same, record { holds = refl; outside = λ k out. refl })
  mid_loop_lem (suc fuel) right left mid m (suc n) curr c tmp e el ec h =
      let more : leb mid right ≡ true = ground arith in
      let tmp1 = copy_element tmp curr array mid in
      let (t, run, holds) =
        mid_loop_lem fuel right left (mid + 1) m n (curr + 1) c tmp1 (omega arith) (omega arith)
          (omega arith) (omega arith) in
      (t, rw more run, Holds-cons array mid (omega arith) holds)

  -- The second and the third loop.
  abbrev rests : ℕ → (left_end right : ℕ) → Cursor A → Cursor A
  rests fuel left_end right c =
      mid_loop cmp_func copy_element fuel array right
        (left_loop cmp_func copy_element fuel array left_end c)

  rests_lem :
      (fuel left_end right left nl mid nr curr : ℕ) (tmp : ℕ → A)
      → left + nl ≡ left_end + 1
      → mid + nr ≡ right + 1
      → nl + nr ≤ fuel
      → Holds tmp
          (Cursor.tmp_array (
            rests fuel left_end right
              (record { left = left; mid = mid; curr_pos = curr; tmp_array = tmp })))
          curr
          (nl + nr)
          (slice array left nl ++ slice array mid nr)
  rests_lem fuel left_end right left nl mid nr curr tmp el er h =
      let (t, run, holds) =
        left_loop_lem fuel left_end left (left + nl) nl mid curr (curr + nl) tmp el refl refl
          (omega arith) in
      let (u, run2, holds2) =
        mid_loop_lem fuel right (left + nl) mid (mid + nr) nr (curr + nl) (curr + nl + nr) t er refl
          refl (omega arith) in
      let end = ap (mid_loop cmp_func copy_element fuel array right) run ∙ run2 in
      subst
        (λ c.
          Holds tmp (Cursor.tmp_array c) curr (nl + nr) (slice array left nl ++ slice array mid nr))
        (sym end) (Holds-append tmp t u curr nl nr _ _ holds holds2)

  -- The three loops: the work array holds a merge of what is left of the two parts.
  pub loops_lem :
      (fuel f left_end right left nl mid nr curr : ℕ) (tmp : ℕ → A)
      → left + nl ≡ left_end + 1
      → mid + nr ≡ right + 1
      → nl + nr ≤ fuel
      → nl + nr ≤ f
      → (zs : List A) × Merged (at_most cmp_func) (slice array left nl) (slice array mid nr) zs
        × Holds tmp
            (Cursor.tmp_array (
              rests fuel left_end right (
                both_loop cmp_func copy_element f array left_end right
                  (record { left = left; mid = mid; curr_pos = curr; tmp_array = tmp }))))
            curr
            (nl + nr)
            zs
  unfolding both_loop copy_left copy_mid
  loops_lem fuel zero left_end right left zero mid nr curr tmp el er hf h = (
    slice array mid nr,
    mid_rest (slice array mid nr),
    rests_lem fuel left_end right left zero mid nr curr tmp el er hf,
  )
  loops_lem fuel zero left_end right left (suc nl) mid nr curr tmp el er hf h = absurd (omega arith)
  loops_lem fuel (suc f) left_end right left zero mid nr curr tmp el er hf h =
      let stop : leb left left_end ≡ false = ground arith in
      (
        slice array mid nr,
        mid_rest (slice array mid nr),
        rw stop (rests_lem fuel left_end right left zero mid nr curr tmp el er hf),
      )
  loops_lem fuel (suc f) left_end right left (suc nl) mid zero curr tmp el er hf h =
      let stop : leb mid right ≡ false = ground arith in
      let more : leb left left_end ≡ true = ground arith in
      let xs = slice array left (suc nl) in
      (
        xs,
        left_rest xs,
        rw (stop, more)
            (Holds-list (append-nil xs)
              (rests_lem fuel left_end right left (suc nl) mid zero curr tmp el er hf)),
      )
  loops_lem fuel (suc f) left_end right left (suc nl) mid (suc nr) curr tmp el er hf h =
      let m1 : leb left left_end ≡ true = ground arith in
      let m2 : leb mid right ≡ true = ground arith in
      elim (Bool-cases (at_most cmp_func (array left) (array mid))) [
        | inl t ↦
            let tmp1 = copy_element tmp curr array left in
            let (zs, merged, holds) =
              loops_lem fuel f left_end right (left + 1) nl mid (suc nr) (curr + 1) tmp1
                (omega arith) er (omega arith) (omega arith) in
            (
              array left ∷ zs,
              take_left t merged,
              rw (m1, m2, t) (Holds-cons array left (omega arith) holds),
            )
        | inr t ↦
            let tmp1 = copy_element tmp curr array mid in
            let (zs, merged, holds) =
              loops_lem fuel f left_end right left (suc nl) (mid + 1) nr (curr + 1) tmp1 el
                (omega arith) (omega arith) (omega arith) in
            (
              array mid ∷ zs,
              take_mid t merged,
              rw (m1, m2, t) (Holds-cons array mid (omega arith) holds),
            )
      ]
