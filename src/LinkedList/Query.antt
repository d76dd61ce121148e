-- ===== src/LinkedList/Query.antt =====
-- The four queries, as ends and neighbours in the sequence of the items.
use mathlib.Core.List.{append-nil}
use opx_common_utils.Prelude.{◌≡◌, sym, subst, false, List, [], ◌∷◌, ◌++◌, arith}
use opx_common_utils.LinkedList.{Ptr, null, Store, Head, getfirst, getlast, getnext, getprev}
use opx_common_utils.LinkedList.Chain.{
  has, IsDll, last_of, has-append, has-last_of, ne_of_has, has_middle,
}
use opx_common_utils.LinkedList.Splice.{first_of, next_at, next_of_item, tail_outside, back_at}

module _ (hd : Head) (st : Store) where
  -- Behind the place between `pre` and `post` stands an item, or the end node `tail`.
  next_or_null :
      (a : Ptr) (post : List Ptr)
      → has hd.tail post ≡ false
      → st.next a ≡ first_of post hd.tail
      → getnext hd a st ≡ first_of post null
  unfolding getnext
  next_or_null a [] out e = ground arith
  next_or_null a (y ∷ post) out e = ground arith

  back_or_null :
      (b : Ptr) (pre : List Ptr)
      → has hd.head pre ≡ false
      → st.back b ≡ last_of hd.head pre
      → getprev hd b st ≡ last_of null pre
  unfolding getprev
  back_or_null b [] out e = ground arith
  back_or_null b (x ∷ pre) out e =
      let ne = ne_of_has hd.head (last_of x pre) (x ∷ pre) out (has-last_of x pre) in ground arith

module _ {hd : Head} {st : Store} where
  -- `std_dll_getfirst` and `std_dll_getlast` return the first and the last item, and null for a list
  -- with no item.
  pub getfirst-getlast_lem :
      (xs : List Ptr)
      → IsDll hd st xs
      → (getfirst hd st ≡ first_of xs null) × (getlast hd st ≡ last_of null xs)
  unfolding getfirst getlast getnext getprev
  getfirst-getlast_lem xs is =
      let e = append-nil xs in
      let is' : IsDll hd st (xs ++ []) = subst (IsDll hd st) (sym e) is in
      (
        next_or_null hd st hd.head xs (tail_outside hd.head hd.tail xs is.distinct)
            (next_at [] xs is),
        back_or_null hd st hd.tail xs
            (ground (arith, is.distinct.0, has-append hd.head xs (hd.tail ∷ [])))
            (back_at xs [] is'),
      )

  -- At an item of a list `std_dll_getnext` and `std_dll_getprev` return the items behind it and in
  -- front of it, and null where there is none.
  pub getnext-getprev_lem :
      (pre : List Ptr) (a : Ptr) (post : List Ptr)
      → IsDll hd st (pre ++ a ∷ post)
      → (getnext hd a st ≡ first_of post null) × (getprev hd a st ≡ last_of null pre)
  getnext-getprev_lem pre a post is =
      let xs : List Ptr = pre ++ a ∷ post in
      let b = next_of_item pre a post is in
      let out = tail_outside hd.head hd.tail xs is.distinct in
      (
        next_or_null hd st a post
            (ground (arith, has_middle hd.tail a pre post, has-append hd.tail pre post)) b,
        back_or_null hd st a pre
            (ground (
              arith,
              is.distinct.0,
              has-append hd.head xs (hd.tail ∷ []),
              has_middle hd.head a pre post,
              has-append hd.head pre post,
            ))
            (back_at pre (a ∷ post) is),
      )
