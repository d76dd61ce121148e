-- ===== src/RbTree/Turn.antt =====
-- What the links of a rotation to the left make of the tree that the nodes hold: the node goes below its
-- right child, and all else stays as it is.
use opx_common_utils.Prelude.{◌≡◌, ◌≢◌, ◌⊎◌, inl, inr, refl, sym, subst, ap, ◌∙◌}
use opx_common_utils.RbTree.{Ptr, null, Table}
use opx_common_utils.RbTree.Shape.{Tree, leaf, node, IsTree, inorder}
use opx_common_utils.Tree.{
  IsIn, at_left, at_node, at_right, IsIn-Side, Side-IsIn, NoDup, NoDup-Parts,
}

-- `x` goes below its right child `y`.
pub data Rotated (x y : Ptr) : Tree → Tree → Type 0 where
  turn : (a b c : Tree) → Rotated x y (node a x (node b y c)) (node (node a x b) y c)
  turn_left :
      (l l' : Tree) (q : Ptr) (r : Tree) → Rotated x y l l' → Rotated x y (node l q r) (node l' q r)
  turn_right :
      (l : Tree) (q : Ptr) (r r' : Tree) → Rotated x y r r' → Rotated x y (node l q r) (node l q r')

pub record Same (t t' : Table) (m : Ptr) : Type 0 where
  pub left : t'.rbt_left m ≡ t.rbt_left m
  pub right : t'.rbt_right m ≡ t.rbt_right m
  pub parent : t'.rbt_parent m ≡ t.rbt_parent m

-- A tree all of whose nodes have the links that they had.
pub IsTree-frame :
    (t t' : Table) (par p : Ptr) (tree : Tree)
    → t'.nil ≡ t.nil
    → ((m : Ptr) → IsIn m (inorder tree) → Same t t' m)
    → IsTree t par p tree
    → IsTree t' par p tree
IsTree-frame t t' par p leaf en same is = is ∙ sym en
IsTree-frame t t' par p (node l q r) en same (e, n, n0, pq, il, ir) =
    let at = same q (Side-IsIn q l q r (at_node refl)) in
    (
      e,
      (λ z. n (z ∙ en)),
      n0,
      at.parent ∙ pq,
      subst (λ z. IsTree t' q z l) (sym at.left)
          (IsTree-frame t t' q (t.rbt_left q) l en (λ m i. same m (Side-IsIn m l q r (at_left i)))
            il),
      subst (λ z. IsTree t' q z r) (sym at.right)
          (IsTree-frame t t' q (t.rbt_right q) r en (λ m i. same m (Side-IsIn m l q r (at_right i)))
            ir),
    )

-- A tree that has got another parent.
pub IsTree-reroot :
    (t t' : Table) (par par' p : Ptr) (tree : Tree)
    → t'.nil ≡ t.nil
    → NoDup (inorder tree)
    → ((m : Ptr) → IsIn m (inorder tree) → t'.rbt_left m ≡ t.rbt_left m)
    → ((m : Ptr) → IsIn m (inorder tree) → t'.rbt_right m ≡ t.rbt_right m)
    → ((m : Ptr) → IsIn m (inorder tree) → m ≢ p → t'.rbt_parent m ≡ t.rbt_parent m)
    → (p ≢ t.nil → t'.rbt_parent p ≡ par')
    → IsTree t par p tree
    → IsTree t' par' p tree
IsTree-reroot t t' par par' p leaf en d lefts rights parents top is = is ∙ sym en
IsTree-reroot t t' par par' p (node l q r) en d lefts rights parents top (e, n, n0, pq, il, ir) =
    let parts = NoDup-Parts l q r d in
    let on_left = λ (m : Ptr) (i : IsIn m (inorder l)). Side-IsIn m l q r (at_left i) in
    let on_right = λ (m : Ptr) (i : IsIn m (inorder r)). Side-IsIn m l q r (at_right i) in
    let at = Side-IsIn q l q r (at_node refl) in
    (
      e,
      (λ z. n (z ∙ en)),
      n0,
      ap t'.rbt_parent (sym e) ∙ top (λ z. n (sym e ∙ z)),
      subst (λ z. IsTree t' q z l) (sym (lefts q at))
          (IsTree-frame t t' q (t.rbt_left q) l en
            (λ m i. record {
              left = lefts m (on_left m i);
              right = rights m (on_left m i);
              parent = parents m (on_left m i) (λ z. parts.not_left m i (z ∙ e));
            })
            il),
      subst (λ z. IsTree t' q z r) (sym (rights q at))
          (IsTree-frame t t' q (t.rbt_right q) r en
            (λ m i. record {
              left = lefts m (on_right m i);
              right = rights m (on_right m i);
              parent = parents m (on_right m i) (λ z. parts.not_right m i (z ∙ e));
            })
            ir),
    )

pub IsIn-not_nil :
    (t : Table) (par p m : Ptr) (tree : Tree)
    → IsTree t par p tree
    → IsIn m (inorder tree)
    → m ≢ t.nil
IsIn-not_nil t par p m leaf is i = elim i [ ]
IsIn-not_nil t par p m (node l q r) (e, n, n0, pq, il, ir) i = elim (IsIn-Side m l q r i) [
  | at_left j ↦ IsIn-not_nil t q (t.rbt_left q) m l il j
  | at_node same ↦ λ z. n (sym same ∙ z)
  | at_right j ↦ IsIn-not_nil t q (t.rbt_right q) m r ir j
]

pub IsTree-place :
    (t : Table) (par p : Ptr) (tree : Tree)
    → IsTree t par p tree
    → (p ≡ t.nil) ⊎ IsIn p (inorder tree)
IsTree-place t par p leaf is = inl is
IsTree-place t par p (node l q r) is = inr (Side-IsIn p l q r (at_node is.0))

-- A tree with a node in it is not `NIL`.
pub no_root :
    (t : Table) (par p m : Ptr) (tree : Tree)
    → IsTree t par p tree
    → IsIn m (inorder tree)
    → p ≢ t.nil
no_root t par p m leaf is i = elim i [ ]
no_root t par p m (node l q r) is i = λ e. is.1 (sym is.0 ∙ e)

pub IsIn-not_null :
    (t : Table) (par p m : Ptr) (tree : Tree)
    → IsTree t par p tree
    → IsIn m (inorder tree)
    → m ≢ null
IsIn-not_null t par p m leaf is i = elim i [ ]
IsIn-not_null t par p m (node l q r) (e, n, n0, pq, il, ir) i = elim (IsIn-Side m l q r i) [
  | at_left j ↦ IsIn-not_null t q (t.rbt_left q) m l il j
  | at_node same ↦ λ z. n0 (sym same ∙ z)
  | at_right j ↦ IsIn-not_null t q (t.rbt_right q) m r ir j
]
