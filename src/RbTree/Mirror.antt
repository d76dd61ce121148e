-- ===== src/RbTree/Mirror.antt =====
-- The mirror image of a table and of a tree: what a rotation to the right does is what one to the left
-- does in the mirror.
use mathlib.Core.List.{append_assoc, append-nil}
use opx_common_utils.Prelude.{◌≡◌, refl, sym, subst, ap, ap₂, ◌∙◌, List, [], ◌∷◌, ◌++◌}
use opx_common_utils.RbTree.{Ptr, Table}
use opx_common_utils.RbTree.Shape.{Tree, leaf, node, IsTree, inorder}
use opx_common_utils.Tree.{
  IsIn, at_left, at_node, at_right, IsIn-Side, Side-IsIn, NoDup, NoDup-Parts, Parts-NoDup,
}

abbrev pub mirror : Table → Table
mirror t = record t { rbt_left = t.rbt_right; rbt_right = t.rbt_left }

abbrev pub flip : Tree → Tree
flip leaf = leaf
flip (node l q r) = node (flip r) q (flip l)

pub flip-flip : (tree : Tree) → flip (flip tree) ≡ tree
flip-flip leaf = refl
flip-flip (node l q r) = ap₂ (λ a b. node a q b) (flip-flip l) (flip-flip r)

pub IsTree-flip :
    (t : Table) (par p : Ptr) (tree : Tree)
    → IsTree t par p tree
    → IsTree (mirror t) par p (flip tree)
IsTree-flip t par p leaf is = is
IsTree-flip t par p (node l q r) (e, n, n0, pq, il, ir) =
    (e, n, n0, pq, IsTree-flip t q (t.rbt_right q) r ir, IsTree-flip t q (t.rbt_left q) l il)

pub IsTree-unflip :
    (t : Table) (par p : Ptr) (tree : Tree)
    → IsTree (mirror t) par p tree
    → IsTree t par p (flip tree)
IsTree-unflip t par p tree is = IsTree-flip (mirror t) par p tree is

pub IsIn-flip : (m : Ptr) (tree : Tree) → IsIn m (inorder tree) → IsIn m (inorder (flip tree))
IsIn-flip m leaf i = i
IsIn-flip m (node l q r) i = Side-IsIn m (flip r) q (flip l) (elim (IsIn-Side m l q r i) [
  | at_left j ↦ at_right (IsIn-flip m l j)
  | at_node e ↦ at_node e
  | at_right j ↦ at_left (IsIn-flip m r j)
])

pub NoDup-flip : (tree : Tree) → NoDup (inorder tree) → NoDup (inorder (flip tree))
NoDup-flip leaf d = tt
NoDup-flip (node l q r) d =
    let parts = NoDup-Parts l q r d in
    let back = λ (m : Ptr) (s : Tree) (i : IsIn m (inorder (flip s))).
      subst (λ z. IsIn m (inorder z)) (flip-flip s) (IsIn-flip m (flip s) i) in
    Parts-NoDup (flip r) q (flip l) (record {
      in_left = NoDup-flip r parts.in_right;
      in_right = NoDup-flip l parts.in_left;
      not_left = λ m i. parts.not_right m (back m r i);
      not_right = λ m i. parts.not_left m (back m l i);
      apart = λ m i j. parts.apart m (back m l j) (back m r i);
    })

abbrev backwards : List Ptr → List Ptr
backwards [] = []
backwards (x ∷ xs) = backwards xs ++ x ∷ []

backwards-append : (xs ys : List Ptr) → backwards (xs ++ ys) ≡ backwards ys ++ backwards xs
backwards-append [] ys = sym (append-nil (backwards ys))
backwards-append (x ∷ xs) ys =
    ap (λ z. z ++ x ∷ []) (backwards-append xs ys)
    ∙ append_assoc (backwards ys) (backwards xs) (x ∷ [])

inorder-flip : (tree : Tree) → inorder (flip tree) ≡ backwards (inorder tree)
inorder-flip leaf = refl
inorder-flip (node l q r) =
    ap₂ (λ a b. a ++ q ∷ b) (inorder-flip r) (inorder-flip l)
    ∙ sym (append_assoc (backwards (inorder r)) (q ∷ []) (backwards (inorder l)))
    ∙ sym (backwards-append (inorder l) (q ∷ inorder r))

-- Two trees with the same nodes in order have them in the mirror too.
pub flip-inorder :
    (tree tree' : Tree) → inorder tree' ≡ inorder (flip tree) → inorder (flip tree') ≡ inorder tree
flip-inorder tree tree' same =
    inorder-flip tree'
    ∙ ap backwards same
    ∙ sym (inorder-flip (flip tree))
    ∙ ap inorder (flip-flip tree)
