-- ===== src/RbTree/Lookup.antt =====
-- `_std_rbtree_getexact` after `_std_rbtree_insert`.
use mathlib.Core.Option.{some-injective}
use opx_common_utils.Prelude.{
  ℕ, suc, ◌+◌, ◌≤◌, ◌<◌, ◌≡◌, ◌≢◌, ◌⊎◌, inl, inr, refl, sym, subst, ap, ◌∙◌, arith, length,
  length-append, List, [], ◌∷◌, some,
}
use opx_common_utils.RbTree.{Ptr, null, Table, Compare, black, getexact}
use opx_common_utils.RbTree.Exact.{Absent, getexact-Ordered}
use opx_common_utils.RbTree.Holds.{Holds}
use opx_common_utils.RbTree.Insert.{insert_node}
use opx_common_utils.RbTree.Inserted.{Inserted, insert_node-Inserted}
use opx_common_utils.RbTree.Shape.{Tree, leaf, node, Ranks, Ordered, inorder, size}
use opx_common_utils.RbTree.Sorted.{InOrder, InOrder-append, insert-IsIn, length-insert}
use opx_common_utils.Tree.{IsIn, here, there, Side-IsIn, at_left, at_node, at_right}

-- A tree whose nodes are in order between two ranks is ordered between them.
InOrder-Ordered :
    (rank : Ptr → ℕ) (t : Table) (lo hi : ℕ) (tree : Tree)
    → InOrder (λ q. rank (t.rbt_data q)) (inorder tree)
    → ((m : Ptr) → IsIn m (inorder tree) → (lo ≤ rank (t.rbt_data m)) × (rank (t.rbt_data m) ≤ hi))
    → Ordered rank t lo hi tree
InOrder-Ordered rank t lo hi leaf o within = tt
InOrder-Ordered rank t lo hi (node l q r) o within =
    let key = λ (m : Ptr). rank (t.rbt_data m) in
    let (ol, before, (behind, or)) = InOrder-append key (inorder l) (inorder r) q o in
    let at = within q (Side-IsIn q l q r (at_node refl)) in
    (
      at.0,
      at.1,
      InOrder-Ordered rank t lo (key q) l ol
          (λ m i. ((within m (Side-IsIn m l q r (at_left i))).0, before m i)),
      InOrder-Ordered rank t (key q) hi r or
          (λ m i. (behind m i, (within m (Side-IsIn m l q r (at_right i))).1)),
    )

abbrev highest : (Ptr → ℕ) → List Ptr → ℕ
highest key [] = 0
highest key (x ∷ xs) = key x + highest key xs

highest_lem : (key : Ptr → ℕ) (m : Ptr) (xs : List Ptr) → IsIn m xs → key m ≤ highest key xs
highest_lem key m _ (here xs) = omega arith
highest_lem key m _ (there x xs i) = let h = highest_lem key m xs i in omega (arith, h)

length-inorder : (tree : Tree) → length (inorder tree) ≡ size tree
length-inorder leaf = refl
length-inorder (node l q r) =
    let both = length-append (inorder l) (q ∷ inorder r) in
    let on_left = length-inorder l in
    let on_right = length-inorder r in omega (arith, both, on_left, on_right)

there_is_one :
    (rank : Ptr → ℕ) (t : Table) (k : ℕ) (z : Ptr) (xs : List Ptr)
    → IsIn z xs
    → rank (t.rbt_data z) ≡ k
    → Absent rank t k xs
    → ⊥
there_is_one rank t k z _ (here xs) e (n, a) = n e
there_is_one rank t k z _ (there x xs i) e (n, a) = there_is_one rank t k z xs i e a

-- Under the conditions of an insertion, and with fuel for one node more, `_std_rbtree_getexact` of a key,
-- not NULL, with the rank of the node that `_std_rbtree_insert` has put into the tree finds a node with
-- that rank.
pub insert_node-getexact :
    (compare : Compare) (rank : Ptr → ℕ) (fuel : ℕ) (t t' : Table) (z key : Ptr) (tree : Tree)
    → Ranks compare rank
    → Holds t tree
    → InOrder (λ q. rank (t.rbt_data q)) (inorder tree)
    → (t.rbt_color t.rbtt_root ≡ black) ⊎ (t.rbtt_root ≡ t.nil)
    → z ≢ t.nil
    → z ≢ null
    → (IsIn z (inorder tree) → ⊥)
    → suc (size tree) < fuel
    → insert_node compare fuel t z ≡ some t'
    → key ≢ null
    → rank key ≡ rank (t.rbt_data z)
    → (x : Ptr) × (getexact compare fuel t' key ≡ some x)
      × (x ≢ null)
      × (rank (t'.rbt_data x) ≡ rank key)
insert_node-getexact compare rank fuel t t' z key tree ranks holds sorted dark zn z0 new h run nk
      same =
    let (t1, run1, inserted) =
      insert_node-Inserted compare rank fuel t z tree ranks holds sorted dark zn z0 new
        (omega (arith, h)) in
    let done =
      subst (λ s. Inserted (λ q. rank (t.rbt_data q)) t s z (inorder tree))
        (some-injective t1 t' (sym run1 ∙ run)) inserted in
    let nodes = inorder done.shape in
    let keys = λ (q : Ptr). rank (t'.rbt_data q) in
    let ordered = subst (λ f. InOrder (λ q. rank (f q)) nodes) (sym done.data_kept) done.sorted in
    let many : size done.shape ≡ suc (size tree) =
      sym (length-inorder done.shape)
      ∙ ap length done.order
      ∙ length-insert (λ q. rank (t.rbt_data q)) z (inorder tree)
      ∙ ap suc (length-inorder tree) in
    let z_in : IsIn z nodes =
      subst (λ s. IsIn z s) (sym done.order)
        (insert-IsIn (λ q. rank (t.rbt_data q)) z (inorder tree)) in
    let (x, found, which) =
      getexact-Ordered rank compare fuel t' key 0 (highest keys nodes) done.shape ranks nk
        done.holds.is
        (InOrder-Ordered rank t' 0 (highest keys nodes) done.shape ordered
          (λ m i. (omega arith, highest_lem keys m nodes i)))
        (omega (arith, h, many)) in
    elim which [
      | inl (gone, absent) ↦ absurd (
          there_is_one rank t' (rank key) z nodes z_in
            (ap (λ f. rank (f z)) done.data_kept ∙ sym same) absent)
      | inr (i, e, there_is) ↦ (x, found, there_is, e)
    ]
