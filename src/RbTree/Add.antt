-- ===== src/RbTree/Add.antt =====
-- The new leaf of `_std_rbtree_insert` of std_rbtree.c, on the tree alone.
use opx_common_utils.Prelude.{
  suc, ◌+◌, ◌≡◌, ◌⊎◌, inl, inr, refl, sym, subst, ◌∙◌, arith, Bool, true, false, if◌then◌else◌,
  Bool-cases, [],
}
use opx_common_utils.RbTree.{Ptr}
use opx_common_utils.RbTree.Shape.{Tree, leaf, node, inorder, size}
use opx_common_utils.Tree.{
  IsIn, here, IsIn-head, at_left, at_node, at_right, IsIn-Side, Side-IsIn, NoDup, NoDup-Parts,
  Parts-NoDup,
}

-- The new node `z`, where `less q` says that it is less than `q`: the tree with it, and its parent.
abbrev pub add : (Ptr → Bool) → Ptr → Tree → Tree
add less z leaf = node leaf z leaf
add less z (node l q r) = if less q then node (add less z l) q r else node l q (add less z r)

abbrev pub place : (Ptr → Bool) → Ptr → Tree → Ptr
place less par leaf = par
place less par (node l q r) = if less q then place less q l else place less q r

pub add_below :
    (less : Ptr → Bool) (z q : Ptr) (l r : Tree)
    → less q ≡ true
    → add less z (node l q r) ≡ node (add less z l) q r
add_below less z q l r e = rw e refl

pub add_above :
    (less : Ptr → Bool) (z q : Ptr) (l r : Tree)
    → less q ≡ false
    → add less z (node l q r) ≡ node l q (add less z r)
add_above less z q l r e = rw e refl

-- What holds of both trees that `add` may give holds of the tree that it gives.
pub add-cases {ℓ} :
    (P : Tree → Type ℓ) (less : Ptr → Bool) (z q : Ptr) (l r : Tree)
    → P (node (add less z l) q r)
    → P (node l q (add less z r))
    → P (add less z (node l q r))
add-cases P less z q l r a b = elim (Bool-cases (less q)) [
  | inl e ↦ subst P (sym (add_below less z q l r e)) a
  | inr e ↦ subst P (sym (add_above less z q l r e)) b
]

pub IsIn-add :
    (less : Ptr → Bool) (z m : Ptr) (tree : Tree)
    → IsIn m (inorder (add less z tree))
    → (m ≡ z) ⊎ IsIn m (inorder tree)
IsIn-add less z m leaf i = elim (IsIn-head i) [ inl e ↦ inl e | inr j ↦ inr j ]
IsIn-add less z m (node l q r) i =
    add-cases (λ s. IsIn m (inorder s) → (m ≡ z) ⊎ IsIn m (inorder (node l q r))) less z q l r
      (λ i. elim (IsIn-Side m (add less z l) q r i) [
        | at_left j ↦ elim (IsIn-add less z m l j) [
          | inl e ↦ inl e
          | inr k ↦ inr (Side-IsIn m l q r (at_left k))
        ]
        | at_node e ↦ inr (Side-IsIn m l q r (at_node e))
        | at_right j ↦ inr (Side-IsIn m l q r (at_right j))
      ])
      (λ i. elim (IsIn-Side m l q (add less z r) i) [
        | at_left j ↦ inr (Side-IsIn m l q r (at_left j))
        | at_node e ↦ inr (Side-IsIn m l q r (at_node e))
        | at_right j ↦ elim (IsIn-add less z m r j) [
          | inl e ↦ inl e
          | inr k ↦ inr (Side-IsIn m l q r (at_right k))
        ]
      ])
      i

pub add-IsIn : (less : Ptr → Bool) (z : Ptr) (tree : Tree) → IsIn z (inorder (add less z tree))
add-IsIn less z leaf = here []
add-IsIn less z (node l q r) =
    add-cases (λ s. IsIn z (inorder s)) less z q l r
      (Side-IsIn z (add less z l) q r (at_left (add-IsIn less z l)))
      (Side-IsIn z l q (add less z r) (at_right (add-IsIn less z r)))

pub size-add :
    (less : Ptr → Bool) (z : Ptr) (tree : Tree) → size (add less z tree) ≡ suc (size tree)
size-add less z leaf = refl
size-add less z (node l q r) =
    let on_left = size-add less z l in
    let on_right = size-add less z r in
    add-cases (λ s. size s ≡ suc (suc (size l + size r))) less z q l r (omega (arith, on_left))
      (omega (arith, on_right))

pub NoDup-add :
    (less : Ptr → Bool) (z : Ptr) (tree : Tree)
    → NoDup (inorder tree)
    → (IsIn z (inorder tree) → ⊥)
    → NoDup (inorder (add less z tree))
NoDup-add less z leaf d new = ((λ i. elim i [ ]), tt)
NoDup-add less z (node l q r) d new =
    let parts = NoDup-Parts l q r d in
    let not_l = λ (i : IsIn z (inorder l)). new (Side-IsIn z l q r (at_left i)) in
    let not_r = λ (i : IsIn z (inorder r)). new (Side-IsIn z l q r (at_right i)) in
    let not_q = λ (e : z ≡ q). new (Side-IsIn z l q r (at_node e)) in
    add-cases (λ s. NoDup (inorder s)) less z q l r
      (Parts-NoDup (add less z l) q r (record {
        in_left = NoDup-add less z l parts.in_left not_l;
        in_right = parts.in_right;
        not_left = λ m i. elim (IsIn-add less z m l i) [
          | inl e ↦ λ s. not_q (sym e ∙ s)
          | inr k ↦ parts.not_left m k
        ];
        not_right = parts.not_right;
        apart = λ m i j. elim (IsIn-add less z m l i) [
          | inl e ↦ not_r (subst (λ k. IsIn k (inorder r)) e j)
          | inr k ↦ parts.apart m k j
        ];
      }))
      (Parts-NoDup l q (add less z r) (record {
        in_left = parts.in_left;
        in_right = NoDup-add less z r parts.in_right not_r;
        not_left = parts.not_left;
        not_right = λ m i. elim (IsIn-add less z m r i) [
          | inl e ↦ λ s. not_q (sym e ∙ s)
          | inr k ↦ parts.not_right m k
        ];
        apart = λ m i j. elim (IsIn-add less z m r j) [
          | inl e ↦ not_l (subst (λ k. IsIn k (inorder l)) e i)
          | inr k ↦ parts.apart m i k
        ];
      }))

-- The parent of the new leaf is a node of the tree, or the one above it.
pub place-IsIn :
    (less : Ptr → Bool) (par : Ptr) (tree : Tree)
    → (place less par tree ≡ par) ⊎ IsIn (place less par tree) (inorder tree)
place-IsIn less par leaf = inl refl
place-IsIn less par (node l q r) = elim (Bool-cases (less q)) [
  | inl e ↦ inr (
      subst (λ y. IsIn y (inorder (node l q r))) (sym (rw e refl))
        (elim (place-IsIn less q l) [
          | inl s ↦ Side-IsIn (place less q l) l q r (at_node s)
          | inr i ↦ Side-IsIn (place less q l) l q r (at_left i)
        ]))
  | inr e ↦ inr (
      subst (λ y. IsIn y (inorder (node l q r))) (sym (rw e refl))
        (elim (place-IsIn less q r) [
          | inl s ↦ Side-IsIn (place less q r) l q r (at_node s)
          | inr i ↦ Side-IsIn (place less q r) l q r (at_right i)
        ]))
]
