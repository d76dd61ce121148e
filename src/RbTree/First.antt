-- ===== src/RbTree/First.antt =====
-- `_std_rbtree_getfirst` on a tree.
use opx_common_utils.Prelude.{
  ℕ, zero, suc, ◌≤◌, ◌≡◌, ◌≢◌, refl, ap, ◌∙◌, true, false, some, List, [], ◌∷◌, ◌++◌, arith, ◌==◌,
}
use opx_common_utils.RbTree.{Ptr, null, Table, leftmost, getfirst}
use opx_common_utils.RbTree.Shape.{Tree, leaf, node, IsTree, inorder, size}

-- The first of the nodes, or NULL.
abbrev pub first_or_null : List Ptr → Ptr
first_or_null [] = null
first_or_null (x ∷ xs) = x

first-append :
    (xs : List Ptr) (q : Ptr) (ys zs : List Ptr)
    → first_or_null (xs ++ q ∷ ys) ≡ first_or_null ((xs ++ q ∷ ys) ++ zs)
first-append [] q ys zs = refl
first-append (x ∷ xs) q ys zs = refl

pub leftmost_lem :
    (fuel : ℕ) (t : Table) (par p : Ptr) (l : Tree) (q : Ptr) (r : Tree)
    → IsTree t par p (node l q r)
    → size (node l q r) ≤ fuel
    → (leftmost fuel t p ≡ some (first_or_null (inorder (node l q r))))
      × (first_or_null (inorder (node l q r)) ≢ t.nil)
unfolding leftmost
leftmost_lem zero t par p l q r is h = absurd (omega arith)
leftmost_lem (suc fuel) t par p leaf q r (e, nq, nn, pq, il, ir) h =
    let end : (t.rbt_left p == t.nil) ≡ true = ground (arith, ap (t.rbt_left) e) in
    (rw end (ap some e), nq)
leftmost_lem (suc fuel) t par p (node l1 q1 r1) q r (e, nq, nn, pq, il, ir) h =
    let (run, some_node) = leftmost_lem fuel t q (t.rbt_left q) l1 q1 r1 il (omega arith) in
    let more : (t.rbt_left p == t.nil) ≡ false = ground (arith, ap (t.rbt_left) e, il.0, il.1) in
    (
      rw more (
          ap (λ x. leftmost fuel t (t.rbt_left x)) e
          ∙ run
          ∙ ap some (first-append (inorder l1) q1 (inorder r1) (q ∷ inorder r))),
      λ z. some_node (first-append (inorder l1) q1 (inorder r1) (q ∷ inorder r) ∙ z),
    )

-- With a round for each node, `_std_rbtree_getfirst` returns the first node of the tree in order, and
-- NULL for a tree with no node.
pub getfirst-IsTree :
    (fuel : ℕ) (t : Table) (tree : Tree)
    → IsTree t (t.nil) (t.rbtt_root) tree
    → size tree ≤ fuel
    → getfirst fuel t ≡ some (first_or_null (inorder tree))
unfolding getfirst
getfirst-IsTree fuel t leaf is h =
    let end : (t.rbtt_root == t.nil) ≡ true = ground arith in rw end (rw end refl)
getfirst-IsTree fuel t (node l q r) is h =
    let (run, some_node) = leftmost_lem fuel t (t.nil) (t.rbtt_root) l q r is h in
    let more : (t.rbtt_root == t.nil) ≡ false = ground (arith, is.0, is.1) in
    let there : (first_or_null (inorder (node l q r)) == t.nil) ≡ false = ground arith in
    rw (more, run, there) refl
