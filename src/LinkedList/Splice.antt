-- ===== src/LinkedList/Splice.antt =====
-- A place in a list, its two neighbours, and a node that is linked in between them.
use mathlib.Core.List.{append_assoc}
use opx_common_utils.Prelude.{
  ◌≡◌, ◌≢◌, refl, sym, subst, ◌∙◌, true, false, List, [], ◌∷◌, ◌++◌, arith,
}
use opx_common_utils.LinkedList.{Ptr, null, Store, Head}
use opx_common_utils.LinkedList.Chain.{
  has, Distinct, Follows, IsDll, last_of, ne_of_has, has-append, has-last_of, back_of_Follows,
  next_of_Follows, Spliced, Follows-Spliced, has_middle, Distinct-insert,
}

-- An address that is none of the list's nodes.
pub record IsFresh (hd : Head) (xs : List Ptr) (new : Ptr) : Type 0 where
  pub outside : has new (hd.head ∷ xs ++ hd.tail ∷ []) ≡ false
  pub not_null : new ≢ null

abbrev pub first_of : List Ptr → Ptr → Ptr
first_of [] q = q
first_of (x ∷ xs) q = x

has-first_of : (xs : List Ptr) (q : Ptr) → has (first_of xs q) (xs ++ q ∷ []) ≡ true
has-first_of [] q = ground arith
has-first_of (x ∷ xs) q = ground arith

-- The neighbours of a place are nodes of the list.
pub before_inside : (p : Ptr) (pre rest : List Ptr) → has (last_of p pre) (p ∷ pre ++ rest) ≡ true
before_inside p pre rest =
    has-append (last_of p pre) (p ∷ pre) rest ∙ ground (arith, has-last_of p pre)

pub after_inside :
    (p : Ptr) (pre post : List Ptr) (q : Ptr)
    → has (first_of post q) (p ∷ pre ++ (post ++ q ∷ [])) ≡ true
after_inside p pre post q =
    has-append (first_of post q) (p ∷ pre) (post ++ q ∷ []) ∙ ground (arith, has-first_of post q)

pub last_of-append : (p : Ptr) (pre : List Ptr) (a : Ptr) → last_of p (pre ++ a ∷ []) ≡ a
last_of-append p [] a = refl
last_of-append p (x ∷ pre) a = last_of-append x pre a

pub member_not_null :
    {hd : Head} {st : Store} (pre : List Ptr) (a : Ptr) (post : List Ptr)
    → IsDll hd st (pre ++ a ∷ post)
    → a ≢ null
member_not_null pre a post is e = ground (arith, has_middle null a pre post, is.no_null)

pub tail_outside : (p q : Ptr) (xs : List Ptr) → Distinct (p ∷ xs ++ q ∷ []) → has q xs ≡ false
tail_outside p q [] d = refl
tail_outside p q (x ∷ xs) d = ground (arith, tail_outside x q xs d.1, has-append x xs (q ∷ []))

module _ {hd : Head} {st : Store} (pre post : List Ptr) (is : IsDll hd st (pre ++ post)) where
  -- The nodes, grouped round the place between `pre` and `post`.
  pub chain_at : Follows st hd.head (pre ++ (post ++ hd.tail ∷ []))
  chain_at = subst (Follows st hd.head) (append_assoc pre post (hd.tail ∷ [])) is.chain

  pub Distinct-at : Distinct (hd.head ∷ pre ++ (post ++ hd.tail ∷ []))
  Distinct-at =
      subst (λ l. Distinct (hd.head ∷ l)) (append_assoc pre post (hd.tail ∷ [])) is.distinct

  pub next_at : st.next (last_of hd.head pre) ≡ first_of post hd.tail
  next_at = at post chain_at
    where
      at :
          (l : List Ptr)
          → Follows st hd.head (pre ++ (l ++ hd.tail ∷ []))
          → st.next (last_of hd.head pre) ≡ first_of l hd.tail
      at [] f = next_of_Follows st hd.head pre hd.tail [] f
      at (y ∷ l) f = next_of_Follows st hd.head pre y (l ++ hd.tail ∷ []) f

  pub back_at : st.back (first_of post hd.tail) ≡ last_of hd.head pre
  back_at = at post chain_at
    where
      at :
          (l : List Ptr)
          → Follows st hd.head (pre ++ (l ++ hd.tail ∷ []))
          → st.back (first_of l hd.tail) ≡ last_of hd.head pre
      at [] f = back_of_Follows st hd.head pre hd.tail [] f
      at (y ∷ l) f = back_of_Follows st hd.head pre y (l ++ hd.tail ∷ []) f

  module _ {new : Ptr} (fresh : IsFresh hd (pre ++ post) new) where
    fresh_at : has new (hd.head ∷ pre ++ (post ++ hd.tail ∷ [])) ≡ false
    fresh_at =
        subst (λ l. has new (hd.head ∷ l) ≡ false) (append_assoc pre post (hd.tail ∷ []))
          fresh.outside

    pub ne_before : new ≢ last_of hd.head pre
    ne_before =
        ne_of_has new _ (hd.head ∷ pre ++ (post ++ hd.tail ∷ [])) fresh_at
          (before_inside hd.head pre (post ++ hd.tail ∷ []))

    pub ne_after : new ≢ first_of post hd.tail
    ne_after =
        ne_of_has new _ (hd.head ∷ pre ++ (post ++ hd.tail ∷ [])) fresh_at
          (after_inside hd.head pre post hd.tail)

    -- A node that is linked in between `pre` and `post` stands there in the sequence.
    pub IsDll-Spliced :
        {st' : Store}
        → Spliced st st' (last_of hd.head pre) new (first_of post hd.tail)
        → IsDll hd st' (pre ++ new ∷ post)
    IsDll-Spliced {st'} s = record {
      chain =
          subst (Follows st' hd.head) (sym (append_assoc pre (new ∷ post) (hd.tail ∷ [])))
            (at post s chain_at Distinct-at fresh_at);
      distinct =
          subst (λ l. Distinct (hd.head ∷ l)) (sym (append_assoc pre (new ∷ post) (hd.tail ∷ [])))
            (Distinct-insert new (hd.head ∷ pre) (post ++ hd.tail ∷ []) fresh_at Distinct-at);
      no_null = has_middle null new pre post ∙ ground (arith, is.no_null, fresh.not_null);
    }
      where
        at :
            (l : List Ptr)
            → Spliced st st' (last_of hd.head pre) new (first_of l hd.tail)
            → Follows st hd.head (pre ++ (l ++ hd.tail ∷ []))
            → Distinct (hd.head ∷ pre ++ (l ++ hd.tail ∷ []))
            → has new (hd.head ∷ pre ++ (l ++ hd.tail ∷ [])) ≡ false
            → Follows st' hd.head (pre ++ (new ∷ l ++ hd.tail ∷ []))
        at [] s f d h = Follows-Spliced hd.head pre new hd.tail [] s d h f
        at (y ∷ l) s f d h = Follows-Spliced hd.head pre new y (l ++ hd.tail ∷ []) s d h f

module _ {hd : Head} {st : Store} (pre : List Ptr) (a : Ptr) (post : List Ptr) where
  -- A list seen with the place right behind its item `a`.
  pub IsDll-behind : IsDll hd st (pre ++ a ∷ post) → IsDll hd st ((pre ++ a ∷ []) ++ post)
  IsDll-behind = subst (IsDll hd st) (sym (append_assoc pre (a ∷ []) post))

  pub next_of_item : IsDll hd st (pre ++ a ∷ post) → st.next a ≡ first_of post hd.tail
  next_of_item is =
      rw (last_of-append hd.head pre a) at (next_at (pre ++ a ∷ []) post (IsDll-behind is))

  pub item-ne-tail : IsDll hd st (pre ++ a ∷ post) → a ≢ hd.tail
  item-ne-tail is e = ground (
    arith,
    tail_outside hd.head hd.tail (pre ++ a ∷ post) is.distinct,
    has_middle hd.tail a pre post,
  )
