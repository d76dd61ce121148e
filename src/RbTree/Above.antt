-- ===== src/RbTree/Above.antt =====
-- The way from a node of a tree up to its root, and the nodes next to a node.
use opx_common_utils.Prelude.{
  ℕ, suc, ◌<◌, ◌≡◌, ◌≢◌, ◌⊎◌, inl, inr, refl, sym, subst, ap, ◌∙◌, arith, Bool-cases, ◌==◌,
}
use opx_common_utils.RbTree.{Ptr, Table}
use opx_common_utils.RbTree.Shape.{Tree, leaf, node, IsTree, inorder, size}
use opx_common_utils.RbTree.Turn.{IsTree-place}
use opx_common_utils.Tree.{
  IsIn, at_left, at_node, at_right, IsIn-Side, Side-IsIn, NoDup, NoDup-Parts,
}

-- `n` parents above the node is the root.
pub data Above (up : Ptr → Ptr) (root : Ptr) : ℕ → Ptr → Type 0 where
  at_root : Above up root 0 root
  below : (n : ℕ) (x : Ptr) → Above up root n (up x) → Above up root (suc n) x

Above-further :
    (up : Ptr → Ptr) (root child : Ptr) (n : ℕ) (x : Ptr)
    → Above up child n x
    → up child ≡ root
    → Above up root (suc n) x
Above-further up root child _ _ at_root e =
    below 0 child (subst (λ z. Above up root 0 z) (sym e) at_root)
Above-further up root child _ _ (below n x a) e =
    below (suc n) x (Above-further up root child n (up x) a e)

parent-top :
    (t : Table) (par p m : Ptr) (tree : Tree)
    → IsTree t par p tree
    → IsIn m (inorder tree)
    → t.rbt_parent p ≡ par
parent-top t par p m leaf is i = elim i [ ]
parent-top t par p m (node l q r) is i = ap t.rbt_parent is.0 ∙ is.3

-- Each node of a tree has fewer parents in it than the tree has nodes.
pub IsIn-Above :
    (t : Table) (par p x : Ptr) (tree : Tree)
    → IsTree t par p tree
    → IsIn x (inorder tree)
    → (n : ℕ) × Above t.rbt_parent p n x × (n < size tree)
IsIn-Above t par p x leaf is i = elim i [ ]
IsIn-Above t par p x (node l q r) (e, n, n0, pq, il, ir) i =
    subst (λ z. (n : ℕ) × Above t.rbt_parent z n x × (n < size (node l q r))) (sym e)
      (elim (IsIn-Side x l q r i) [
        | at_left j ↦
            let (n, a, h) = IsIn-Above t q (t.rbt_left q) x l il j in
            (
              suc n,
              Above-further t.rbt_parent q (t.rbt_left q) n x a
                  (parent-top t q (t.rbt_left q) x l il j),
              omega (arith, h),
            )
        | at_node s ↦ (0, subst (λ z. Above t.rbt_parent q 0 z) (sym s) at_root, omega arith)
        | at_right j ↦
            let (n, a, h) = IsIn-Above t q (t.rbt_right q) x r ir j in
            (
              suc n,
              Above-further t.rbt_parent q (t.rbt_right q) n x a
                  (parent-top t q (t.rbt_right q) x r ir j),
              omega (arith, h),
            )
      ])

-- A node that is not the root has a parent, of which it is a child.
pub parent-IsIn :
    (t : Table) (par p x : Ptr) (tree : Tree)
    → IsTree t par p tree
    → IsIn x (inorder tree)
    → x ≢ p
    → IsIn (t.rbt_parent x) (inorder tree)
      × ((x ≡ t.rbt_left (t.rbt_parent x)) ⊎ (x ≡ t.rbt_right (t.rbt_parent x)))
parent-IsIn t par p x leaf is i np = elim i [ ]
parent-IsIn t par p x (node l q r) (e, n, n0, pq, il, ir) i np = elim (IsIn-Side x l q r i) [
  | at_left j ↦ elim (Bool-cases (x == t.rbt_left q)) [
    | inl s ↦
        let top : x ≡ t.rbt_left q = ground arith in
        let up : t.rbt_parent x ≡ q =
          ap t.rbt_parent top ∙ parent-top t q (t.rbt_left q) x l il j in
        (Side-IsIn (t.rbt_parent x) l q r (at_node up), inl (top ∙ sym (ap t.rbt_left up)))
    | inr f ↦
        let (k, child) = parent-IsIn t q (t.rbt_left q) x l il j (ground arith) in
        (Side-IsIn (t.rbt_parent x) l q r (at_left k), child)
  ]
  | at_node s ↦ absurd (np (s ∙ sym e))
  | at_right j ↦ elim (Bool-cases (x == t.rbt_right q)) [
    | inl s ↦
        let top : x ≡ t.rbt_right q = ground arith in
        let up : t.rbt_parent x ≡ q =
          ap t.rbt_parent top ∙ parent-top t q (t.rbt_right q) x r ir j in
        (Side-IsIn (t.rbt_parent x) l q r (at_node up), inr (top ∙ sym (ap t.rbt_right up)))
    | inr f ↦
        let (k, child) = parent-IsIn t q (t.rbt_right q) x r ir j (ground arith) in
        (Side-IsIn (t.rbt_parent x) l q r (at_right k), child)
  ]
]

-- The left child of a node is neither the node, nor its parent, nor its right child.
pub record LeftChild (t : Table) (m : Ptr) : Type 0 where
  pub not_self : t.rbt_left m ≢ m
  pub not_right : t.rbt_left m ≢ t.rbt_right m
  pub not_parent : t.rbt_left m ≢ t.rbt_parent m

pub IsIn-LeftChild :
    (t : Table) (par p m : Ptr) (tree : Tree)
    → IsTree t par p tree
    → NoDup (inorder tree)
    → (IsIn par (inorder tree) → ⊥)
    → IsIn m (inorder tree)
    → t.rbt_left m ≢ t.nil
    → LeftChild t m
IsIn-LeftChild t par p m leaf is d out i n = elim i [ ]
IsIn-LeftChild t par p m (node l q r) (e, nq, n0, pq, il, ir) d out i n =
    let parts = NoDup-Parts l q r d in
    elim (IsIn-Side m l q r i) [
      | at_left j ↦
          IsIn-LeftChild t q (t.rbt_left q) m l il parts.in_left (λ k. parts.not_left q k refl) j n
      | at_right j ↦
          IsIn-LeftChild t q (t.rbt_right q) m r ir parts.in_right (λ k. parts.not_right q k refl) j
            n
      | at_node s ↦
          let child : IsIn (t.rbt_left q) (inorder l) =
            elim (IsTree-place t q (t.rbt_left q) l il) [
              | inl z ↦ absurd (n (ap t.rbt_left s ∙ z))
              | inr k ↦ k
            ] in
          subst (λ z. LeftChild t z) (sym s)
            (record {
              not_self = parts.not_left (t.rbt_left q) child;
              not_right = elim (IsTree-place t q (t.rbt_right q) r ir) [
                | inl z ↦ λ y. n (ap t.rbt_left s ∙ y ∙ z)
                | inr k ↦ λ y.
                    parts.apart (t.rbt_left q) child (subst (λ w. IsIn w (inorder r)) (sym y) k)
              ];
              not_parent = λ y. out (
                  subst (λ w. IsIn w (inorder (node l q r))) (y ∙ pq)
                    (Side-IsIn (t.rbt_left q) l q r (at_left child)));
            })
    ]
