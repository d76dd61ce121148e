-- ===== src/LinkedList/Sorted.antt =====
-- `std_dll_insert`: an ordered insertion into the sequence of the items.
use mathlib.Core.List.{append_assoc}
use opx_common_utils.Prelude.{
  ℕ, zero, suc, ◌≤◌, ◌<◌, ◌≡◌, refl, sym, subst, ap, ◌∙◌, Bool, true, false, none, some, List, [],
  ◌∷◌, ◌++◌, arith, ◌==◌, if◌then◌else◌, length, Bool-cases, inl, inr,
}
use opx_common_utils.LinkedList.{
  Ptr, null, Store, Head, Compare, key_less, insert_walk, insert_by, insert, insertatback,
  insertatfront,
}
use opx_common_utils.LinkedList.Chain.{IsDll}
use opx_common_utils.LinkedList.Splice.{IsFresh, next_of_item, IsDll-behind, item-ne-tail}
use opx_common_utils.LinkedList.Insert.{insertatfront-cons, insertatback-append, insertafter-middle}
use opx_common_utils.LinkedList.Query.{getfirst-getlast_lem}

-- `new` in front of the first item that it is less than, and behind all others.
abbrev pub insert_item : (Ptr → Ptr → Bool) → Ptr → List Ptr → List Ptr
insert_item less new [] = new ∷ []
insert_item less new (x ∷ xs) = if less new x then new ∷ x ∷ xs else x ∷ insert_item less new xs

-- No item is less than the one in front of it.
abbrev pub IsSorted : (Ptr → Ptr → Bool) → List Ptr → Type 0
IsSorted less [] = Unit
IsSorted less (x ∷ []) = Unit
IsSorted less (x ∷ y ∷ xs) = (less y x ≡ false) × IsSorted less (y ∷ xs)

module _ {hd : Head} {st : Store} {new : Ptr} (compare : Compare) where
  insert_walk_lem :
      (fuel : ℕ) (pre : List Ptr) (w : Ptr) (post : List Ptr)
      → length post < fuel
      → IsDll hd st (pre ++ w ∷ post)
      → IsFresh hd (pre ++ w ∷ post) new
      → (st' : Store) × (insert_walk fuel hd compare new w st ≡ some st')
        × IsDll hd st' (pre ++ w ∷ insert_item (key_less hd compare) new post)
  unfolding insert_walk
  insert_walk_lem zero pre w post h is fresh = absurd (omega arith)
  insert_walk_lem (suc fuel) pre w [] h is fresh =
      let b = next_of_item pre w [] is in
      let stop : (st.next w == hd.tail) ≡ true = ground arith in
      rw stop (insertafter-middle pre w [] is fresh)
  insert_walk_lem (suc fuel) pre w (y ∷ post) h is fresh =
      let b = next_of_item pre w (y ∷ post) is in
      let behind = IsDll-behind pre w (y ∷ post) is in
      let ne : (y == hd.tail) ≡ false =
        ground (arith, item-ne-tail (pre ++ w ∷ []) y post behind) in
      let e = append_assoc pre (w ∷ []) (y ∷ post) in
      let regroup = append_assoc pre (w ∷ []) (y ∷ insert_item (key_less hd compare) new post) in
      rw (b, ne)
        (elim (Bool-cases (key_less hd compare new y)) [
          | inl lt ↦ rw lt (insertafter-middle pre w (y ∷ post) is fresh)
          | inr ge ↦
              let (st', done, is') =
                insert_walk_lem fuel (pre ++ w ∷ []) y post (omega arith) behind
                  (subst (λ l. IsFresh hd l new) (sym e) fresh) in
              rw ge (st', done, subst (IsDll hd st') regroup is')
        ])

  -- The whole of `std_dll_insert` on a list with a comparison.
  insert_lem :
      (fuel : ℕ) (xs : List Ptr)
      → length xs ≤ fuel
      → IsDll hd st xs
      → IsFresh hd xs new
      → (st' : Store) × (insert_by (some compare) fuel hd new st ≡ some st')
        × IsDll hd st' (insert_item (key_less hd compare) new xs)
  unfolding insert_by
  insert_lem fuel [] h is fresh =
      let none_first = (getfirst-getlast_lem [] is).0 in
      rw (none_first) (insertatfront hd new st, refl, insertatfront-cons [] is fresh)
  insert_lem fuel (x ∷ xs) h is fresh =
      let first_item = (getfirst-getlast_lem (x ∷ xs) is).0 in
      let first_next : st.next hd.head ≡ x = is.chain.0 in
      let given : (x == null) ≡ false = ground (arith, is.no_null) in
      rw (first_item, first_next, given)
        (elim (Bool-cases (key_less hd compare new x)) [
          | inl lt ↦ rw lt (insertatfront hd new st, refl, insertatfront-cons (x ∷ xs) is fresh)
          | inr ge ↦ rw ge (insert_walk_lem fuel [] x xs (omega arith) is fresh)
        ])

-- Without a comparison `std_dll_insert` puts a fresh node behind the items.
pub insert_unsorted :
    {hd : Head} {st : Store} {new : Ptr} (fuel : ℕ) (xs : List Ptr)
    → hd.compare ≡ none
    → IsDll hd st xs
    → IsFresh hd xs new
    → (st' : Store) × (insert fuel hd new st ≡ some st') × IsDll hd st' (xs ++ new ∷ [])
unfolding insert insert_by
insert_unsorted {hd} {st} {new} fuel xs unsorted is fresh = (
  insertatback hd new st,
  ap (λ c. insert_by c fuel hd new st) unsorted,
  insertatback-append xs is fresh,
)

module _ (less : Ptr → Ptr → Bool) (asym : (a b : Ptr) → less a b ≡ true → less b a ≡ false) where
  IsSorted-behind :
      (x new : Ptr) (xs : List Ptr)
      → less new x ≡ false
      → IsSorted less (x ∷ xs)
      → IsSorted less (x ∷ insert_item less new xs)
  IsSorted-behind x new [] ge s = (ge, tt)
  IsSorted-behind x new (y ∷ xs) ge s = elim (Bool-cases (less new y)) [
    | inl lt ↦ rw lt (ge, (asym new y lt, s.1))
    | inr ge' ↦ rw ge' (s.0, IsSorted-behind y new xs ge' s.1)
  ]

  insert_item-IsSorted :
      (new : Ptr) (xs : List Ptr) → IsSorted less xs → IsSorted less (insert_item less new xs)
  insert_item-IsSorted new [] s = tt
  insert_item-IsSorted new (x ∷ xs) s = elim (Bool-cases (less new x)) [
    | inl lt ↦ rw lt (asym new x lt, s)
    | inr ge ↦ rw ge (IsSorted-behind x new xs ge s)
  ]

-- With a comparison by which no two items are each less than the other, and with fuel for the items,
-- `std_dll_insert` of a fresh node into a sorted list ends, puts the node in front of the first item
-- that it is less than, and leaves the list sorted.
pub insert-IsSorted :
    {hd : Head} {st : Store} {new : Ptr} (compare : Compare) (fuel : ℕ) (xs : List Ptr)
    → hd.compare ≡ some compare
    → ((a b : Ptr) → key_less hd compare a b ≡ true → key_less hd compare b a ≡ false)
    → length xs ≤ fuel
    → IsDll hd st xs
    → IsFresh hd xs new
    → IsSorted (key_less hd compare) xs
    → (st' : Store) × (insert fuel hd new st ≡ some st')
      × IsDll hd st' (insert_item (key_less hd compare) new xs)
      × IsSorted (key_less hd compare) (insert_item (key_less hd compare) new xs)
unfolding insert
insert-IsSorted {hd} {st} {new} compare fuel xs given asym enough is fresh sorted =
    let (st', done, is') = insert_lem compare fuel xs enough is fresh in
    (
      st',
      ap (λ c. insert_by c fuel hd new st) given ∙ done,
      is',
      insert_item-IsSorted (key_less hd compare) asym new xs sorted,
    )
