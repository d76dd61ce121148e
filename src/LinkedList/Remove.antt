-- ===== src/LinkedList/Remove.antt =====
-- Removal, as an operation on the sequence of the items.
use mathlib.Core.Path.{subst₂}
use mathlib.Core.List.{append_assoc}
use opx_common_utils.Prelude.{◌≡◌, ◌≢◌, sym, subst, false, List, [], ◌∷◌, ◌++◌, arith}
use opx_common_utils.LinkedList.{Ptr, null, Store, Head, is_linked, remove}
use opx_common_utils.LinkedList.Chain.{
  has, Distinct, Follows, IsDll, last_of, ne_of_has, Unlinked, Follows-Unlinked, has_middle,
  Distinct-remove,
}
use opx_common_utils.LinkedList.Splice.{
  first_of, before_inside, after_inside, next_of_item, back_at, chain_at, Distinct-at,
}

module _ (hd : Head) (item : Ptr) (st : Store) where
  remove-Unlinked :
      item ≢ st.back item
      → item ≢ st.next item
      → Unlinked st (remove hd item st) (st.back item) item (st.next item)
  unfolding remove
  remove-Unlinked h k = ground arith

unlinked : (hd : Head) (item : Ptr) (st : Store) → is_linked item (remove hd item st) ≡ false
unfolding is_linked remove
unlinked hd item st = ground arith

module _ {hd : Head} {st : Store} where
  -- `std_dll_remove` of an item takes it out of the list, and leaves the item itself unlinked.
  pub remove-middle :
      (pre : List Ptr) (item : Ptr) (post : List Ptr)
      → IsDll hd st (pre ++ item ∷ post)
      → IsDll hd (remove hd item st) (pre ++ post) × (is_linked item (remove hd item st) ≡ false)
  remove-middle pre item post is = (
    record {
      chain =
          subst (Follows (remove hd item st) hd.head) (sym (append_assoc pre post (hd.tail ∷ [])))
            (at post s (chain_at pre (item ∷ post) is) (Distinct-at pre (item ∷ post) is));
      distinct =
          subst (λ l. Distinct (hd.head ∷ l)) (sym (append_assoc pre post (hd.tail ∷ []))) apart.0;
      no_null = ground (arith, has_middle null item pre post, is.no_null);
    },
    unlinked hd item st,
  )
    where
      apart :
          Distinct (hd.head ∷ pre ++ (post ++ hd.tail ∷ []))
          × (has item (hd.head ∷ pre ++ (post ++ hd.tail ∷ [])) ≡ false)
      apart =
          Distinct-remove item (hd.head ∷ pre) (post ++ hd.tail ∷ [])
            (Distinct-at pre (item ∷ post) is)

      a : st.back item ≡ last_of hd.head pre
      a = back_at pre (item ∷ post) is

      b : st.next item ≡ first_of post hd.tail
      b = next_of_item pre item post is

      s : Unlinked st (remove hd item st) (last_of hd.head pre) item (first_of post hd.tail)
      s =
          subst₂ (λ x y. Unlinked st (remove hd item st) x item y) a b
            (remove-Unlinked hd item st
              (rw a (
                ne_of_has item _ (hd.head ∷ pre ++ (post ++ hd.tail ∷ [])) apart.1
                  (before_inside hd.head pre (post ++ hd.tail ∷ []))))
              (rw b (
                ne_of_has item _ (hd.head ∷ pre ++ (post ++ hd.tail ∷ [])) apart.1
                  (after_inside hd.head pre post hd.tail))))

      at :
          (l : List Ptr)
          → Unlinked st (remove hd item st) (last_of hd.head pre) item (first_of l hd.tail)
          → Follows st hd.head (pre ++ (item ∷ l ++ hd.tail ∷ []))
          → Distinct (hd.head ∷ pre ++ (item ∷ l ++ hd.tail ∷ []))
          → Follows (remove hd item st) hd.head (pre ++ (l ++ hd.tail ∷ []))
      at [] u f d = Follows-Unlinked hd.head pre item hd.tail [] u d f
      at (y ∷ l) u f d = Follows-Unlinked hd.head pre item y (l ++ hd.tail ∷ []) u d f
