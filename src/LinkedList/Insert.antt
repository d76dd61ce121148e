-- ===== src/LinkedList/Insert.antt =====
-- The insertions, as operations on the sequence of the items.
use mathlib.Core.Path.{subst₂}
use mathlib.Core.List.{append_assoc, append-nil}
use opx_common_utils.Prelude.{
  ◌≡◌, ◌≢◌, refl, sym, subst, false, some, List, [], ◌∷◌, ◌++◌, arith, ◌==◌,
}
use opx_common_utils.LinkedList.{
  Ptr, null, Store, Head, init, insertatfront, insertatback, insertafter, insertbefore,
}
use opx_common_utils.LinkedList.Chain.{IsDll, Spliced}
use opx_common_utils.LinkedList.Splice.{
  IsFresh, last_of-append, member_not_null, next_at, next_of_item, IsDll-behind, back_at, ne_before,
  ne_after, IsDll-Spliced,
}

module _ (hd : Head) (new : Ptr) (st : Store) where
  insertatfront-Spliced :
      new ≢ hd.head
      → new ≢ st.next hd.head
      → Spliced st (insertatfront hd new st) hd.head new (st.next hd.head)
  unfolding insertatfront
  insertatfront-Spliced h k = ground arith

  insertatback-Spliced :
      new ≢ st.back hd.tail
      → new ≢ hd.tail
      → Spliced st (insertatback hd new st) (st.back hd.tail) new hd.tail
  unfolding insertatback
  insertatback-Spliced h k = ground arith

  insertafter-Spliced :
      (after : Ptr)
      → after ≢ null
      → new ≢ after
      → new ≢ st.next after
      → (st' : Store) × (insertafter hd after new st ≡ some st')
        × Spliced st st' after new (st.next after)
  unfolding insertafter
  insertafter-Spliced after nn h k =
      let given : (after == null) ≡ false = ground arith in rw given (_, refl, ground arith)

  insertbefore-Spliced :
      (before : Ptr)
      → before ≢ null
      → new ≢ st.back before
      → new ≢ before
      → (st' : Store) × (insertbefore hd before new st ≡ some st')
        × Spliced st st' (st.back before) new before
  unfolding insertbefore
  insertbefore-Spliced before nn h k =
      let given : (before == null) ≡ false = ground arith in rw given (_, refl, ground arith)

-- `std_dll_init` makes an empty list of a head whose two end nodes are different.
pub init-IsDll :
    (hd : Head) (st : Store) → hd.head ≢ hd.tail → IsDll (init hd st).0 (init hd st).1 []
unfolding init
init-IsDll hd st apart = record {
  chain = (ground arith, ground arith, tt);
  distinct = (ground arith, (refl, tt));
  no_null = refl;
}

module _ {hd : Head} {st : Store} {new : Ptr} where
  -- `std_dll_insertatfront` of a fresh node puts it in front of the items.
  pub insertatfront-cons :
      (xs : List Ptr)
      → IsDll hd st xs
      → IsFresh hd xs new
      → IsDll hd (insertatfront hd new st) (new ∷ xs)
  insertatfront-cons xs is fresh =
      let b = next_at [] xs is in
      IsDll-Spliced [] xs is fresh (
        subst (Spliced st (insertatfront hd new st) hd.head new) b (
          insertatfront-Spliced hd new st (ne_before [] xs is fresh)
            (rw b (ne_after [] xs is fresh))))

  -- `std_dll_insertatback` of a fresh node puts it behind the items.
  pub insertatback-append :
      (xs : List Ptr)
      → IsDll hd st xs
      → IsFresh hd xs new
      → IsDll hd (insertatback hd new st) (xs ++ new ∷ [])
  insertatback-append xs is fresh =
      let e = append-nil xs in
      let is' : IsDll hd st (xs ++ []) = subst (IsDll hd st) (sym e) is in
      let fresh' : IsFresh hd (xs ++ []) new = subst (λ l. IsFresh hd l new) (sym e) fresh in
      let a = back_at xs [] is' in
      IsDll-Spliced xs [] is' fresh' (
        subst (λ t. Spliced st (insertatback hd new st) t new hd.tail) a
          (insertatback-Spliced hd new st (rw a (ne_before xs [] is' fresh'))
            (ne_after xs [] is' fresh')))

  -- `std_dll_insertafter` of a fresh node passes its assertion, and puts the node behind the item
  -- that is named.
  pub insertafter-middle :
      (pre : List Ptr) (a : Ptr) (post : List Ptr)
      → IsDll hd st (pre ++ a ∷ post)
      → IsFresh hd (pre ++ a ∷ post) new
      → (st' : Store) × (insertafter hd a new st ≡ some st') × IsDll hd st' (pre ++ a ∷ new ∷ post)
  insertafter-middle pre a post is fresh =
      let e = append_assoc pre (a ∷ []) post in
      let is' = IsDll-behind pre a post is in
      let fresh' : IsFresh hd ((pre ++ a ∷ []) ++ post) new =
        subst (λ l. IsFresh hd l new) (sym e) fresh in
      let l = last_of-append hd.head pre a in
      let b = next_of_item pre a post is in
      let (st', done, s) =
        insertafter-Spliced hd new st a (member_not_null pre a post is)
          (rw l at (ne_before (pre ++ a ∷ []) post is' fresh'))
          (rw b (ne_after (pre ++ a ∷ []) post is' fresh')) in
      (
        st',
        done,
        subst (IsDll hd st') (append_assoc pre (a ∷ []) (new ∷ post)) (
            IsDll-Spliced (pre ++ a ∷ []) post is' fresh'
              (subst₂ (λ x y. Spliced st st' x new y) (sym l) b s)),
      )

  -- `std_dll_insertbefore` of a fresh node passes its assertion, and puts the node in front of the
  -- item that is named.
  pub insertbefore-middle :
      (pre : List Ptr) (b : Ptr) (post : List Ptr)
      → IsDll hd st (pre ++ b ∷ post)
      → IsFresh hd (pre ++ b ∷ post) new
      → (st' : Store) × (insertbefore hd b new st ≡ some st') × IsDll hd st' (pre ++ new ∷ b ∷ post)
  insertbefore-middle pre b post is fresh =
      let a = back_at pre (b ∷ post) is in
      let (st', done, s) =
        insertbefore-Spliced hd new st b (member_not_null pre b post is)
          (rw a (ne_before pre (b ∷ post) is fresh)) (ne_after pre (b ∷ post) is fresh) in
      (st', done, IsDll-Spliced pre (b ∷ post) is fresh (subst (λ t. Spliced st st' t new b) a s))
