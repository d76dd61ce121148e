-- ===== src/RbTree/Holds.antt =====
-- The rotations of src/std_rbtree.c on a table: the tree that it holds, and the nodes in order.
use mathlib.Core.List.{append_assoc}
use opx_common_utils.Prelude.{
  ◌≡◌, ◌≢◌, inl, inr, refl, sym, subst, ap, ◌∙◌, arith, true, false, ◌==◌, Bool-cases, ◌∷◌, ◌++◌,
}
use opx_common_utils.RbTree.{Ptr, Table, rotateleft, rotateright}
use opx_common_utils.RbTree.Shape.{Tree, leaf, node, IsTree, inorder}
use opx_common_utils.RbTree.Rotate.{Moved, rotateleft-Moved, rotateright-Moved}
use opx_common_utils.RbTree.Mirror.{
  mirror, flip, flip-flip, IsTree-flip, IsTree-unflip, IsIn-flip, NoDup-flip,
}
use opx_common_utils.RbTree.Turn.{Rotated, turn, turn_left, turn_right, IsIn-not_nil, IsTree-place}
use opx_common_utils.RbTree.Turned.{IsTree-Turned}
use opx_common_utils.Tree.{
  IsIn, at_left, at_node, at_right, IsIn-Side, Side-IsIn, NoDup, NoDup-Parts,
}

-- From the root on, the table holds the tree, and no node is in it twice.
pub record Holds (t : Table) (tree : Tree) : Type 0 where
  pub is : IsTree t t.nil t.rbtt_root tree
  pub once : NoDup (inorder tree)

Rotated-inorder :
    {x y : Ptr} (tree tree' : Tree) → Rotated x y tree tree' → inorder tree' ≡ inorder tree
Rotated-inorder {x} {y} _ _ (turn a b c) = append_assoc (inorder a) (x ∷ inorder b) (y ∷ inorder c)
Rotated-inorder _ _ (turn_left l l' q r rot) =
    ap (λ z. z ++ q ∷ inorder r) (Rotated-inorder l l' rot)
Rotated-inorder _ _ (turn_right l q r r' rot) =
    ap (λ z. inorder l ++ q ∷ z) (Rotated-inorder r r' rot)

Rotated-flip :
    {x y : Ptr} (tree tree' : Tree)
    → Rotated x y tree tree'
    → inorder (flip tree') ≡ inorder (flip tree)
Rotated-flip {x} {y} _ _ (turn a b c) =
    sym (append_assoc (inorder (flip c)) (y ∷ inorder (flip b)) (x ∷ inorder (flip a)))
Rotated-flip _ _ (turn_left l l' q r rot) =
    ap (λ z. inorder (flip r) ++ q ∷ z) (Rotated-flip l l' rot)
Rotated-flip _ _ (turn_right l q r r' rot) =
    ap (λ z. z ++ q ∷ inorder (flip l)) (Rotated-flip r r' rot)

-- A node of the tree that has a right child can be rotated.
rotates :
    (t : Table) (par p x : Ptr) (tree : Tree)
    → IsTree t par p tree
    → IsIn x (inorder tree)
    → t.rbt_right x ≢ t.nil
    → (tree' : Tree) × Rotated x (t.rbt_right x) tree tree'
rotates t par p x leaf is i n = elim i [ ]
rotates t par p x (node l q r) (e, nq, n0, pq, il, ir) i n = elim (IsIn-Side x l q r i) [
  | at_left j ↦
      let (l', rot) = rotates t q (t.rbt_left q) x l il j n in (node l' q r, turn_left l l' q r rot)
  | at_node same ↦ here_at r same ir
  | at_right j ↦
      let (r', rot) = rotates t q (t.rbt_right q) x r ir j n in
      (node l q r', turn_right l q r r' rot)
]
  where
    here_at :
        (r : Tree)
        → x ≡ q
        → IsTree t q (t.rbt_right q) r
        → (tree' : Tree) × Rotated x (t.rbt_right x) (node l q r) tree'
    here_at leaf same ir = absurd (n (ap t.rbt_right same ∙ ir))
    here_at (node b y c) same ir =
        subst (λ k. (tree' : Tree) × Rotated x (t.rbt_right x) (node l k (node b y c)) tree') same
          (subst (λ k. (tree' : Tree) × Rotated x k (node l x (node b y c)) tree')
            (sym (ap t.rbt_right same ∙ ir.0)) (node (node l x b) y c, turn l b c))

pub record Around (t : Table) (x y : Ptr) : Type 0 where
  pub xy : x ≢ y
  pub xb : x ≢ t.rbt_left y
  pub yb : y ≢ t.rbt_left y
  pub gx : t.rbt_parent x ≢ x
  pub gy : t.rbt_parent x ≢ y

-- The nodes around the rotation are different ones.
Rotated-Around :
    (t : Table) (x y par p : Ptr) (tree tree' : Tree)
    → Rotated x y tree tree'
    → IsTree t par p tree
    → NoDup (inorder tree)
    → (IsIn par (inorder tree) → ⊥)
    → Around t x y
Rotated-Around t x y par p _ _ (turn a b c) (e, n, n0, px, ia, (ey, ny, ny0, py, ib, ic)) d out =
    let parts = NoDup-Parts a x (node b y c) d in
    let inner = NoDup-Parts b y c parts.in_right in
    let y_in = Side-IsIn y b y c (at_node refl) in
    let b_in =
      λ (i : IsIn (t.rbt_left y) (inorder b)). Side-IsIn (t.rbt_left y) b y c (at_left i) in
    record {
      xy = λ z. parts.not_right y y_in (sym z);
      xb = elim (IsTree-place t y (t.rbt_left y) b ib) [
        | inl s ↦ λ z. n (z ∙ s)
        | inr i ↦ λ z. parts.not_right (t.rbt_left y) (b_in i) (sym z)
      ];
      yb = elim (IsTree-place t y (t.rbt_left y) b ib) [
        | inl s ↦ λ z. ny (z ∙ s)
        | inr i ↦ λ z. inner.not_left (t.rbt_left y) i (sym z)
      ];
      gx = λ z. out (Side-IsIn par a x (node b y c) (at_node (sym px ∙ z)));
      gy = λ z. out (
          subst (λ k. IsIn k (inorder (node a x (node b y c)))) (sym (sym px ∙ z))
            (Side-IsIn y a x (node b y c) (at_right y_in)));
    }
Rotated-Around t x y par p _ _ (turn_left l l' q r rot) (e, n, n0, pq, il, ir) d out =
    let parts = NoDup-Parts l q r d in
    Rotated-Around t x y q (t.rbt_left q) l l' rot il parts.in_left (λ i. parts.not_left q i refl)
Rotated-Around t x y par p _ _ (turn_right l q r r' rot) (e, n, n0, pq, il, ir) d out =
    let parts = NoDup-Parts l q r d in
    Rotated-Around t x y q (t.rbt_right q) r r' rot ir parts.in_right
      (λ i. parts.not_right q i refl)

Moved-Holds :
    (t t' : Table) (x y : Ptr) (tree tree' : Tree)
    → Rotated x y tree tree'
    → Holds t tree
    → Moved t t' x y (t.rbt_left y) (t.rbt_parent x)
    → Holds t' tree'
Moved-Holds t t' x y tree tree' rot holds moved =
    let out = λ (i : IsIn t.nil (inorder tree)).
      IsIn-not_nil t t.nil t.rbtt_root t.nil tree holds.is i refl in
    let turned =
      IsTree-Turned t t' x y (t.rbt_left y) (t.rbt_parent x) moved refl refl t.nil t.rbtt_root tree
        tree' rot holds.is holds.once out in
    let root : t'.rbtt_root ≡ turned.now = elim (Bool-cases (x == t.rbtt_root)) [
      | inl s ↦
          let at : x ≡ t.rbtt_root = ground arith in
          let top : (t.rbt_parent x == t.nil) ≡ true =
            ap (λ z. z == t.nil) (turned.above at) ∙ ground arith in
          moved.root ∙ rw top (sym (turned.replaced at))
      | inr f ↦
          let at : x ≢ t.rbtt_root = ground arith in
          let not_top : t.rbt_parent x ≢ t.nil =
            IsIn-not_nil t t.nil t.rbtt_root (t.rbt_parent x) tree holds.is (turned.g_below at) in
          let below : (t.rbt_parent x == t.nil) ≡ false = ground arith in
          moved.root ∙ rw below (sym (turned.kept at))
    ] in
    record {
      is =
          subst (λ z. IsTree t' z t'.rbtt_root tree') (sym moved.same_nil)
            (subst (λ z. IsTree t' t.nil z tree') (sym root) turned.is);
      once = subst NoDup (sym (Rotated-inorder tree tree' rot)) holds.once;
    }

-- `std_rbtree_rotateleft` of a node, with a right child, anywhere in the tree that a table holds leaves a
-- table that holds a tree, with the same nodes in the same order. The node, its child, the left subtree of
-- that one and the parent have the links of the rotation, all else has those that it had, and the nodes
-- and the subtree that move are different ones.
pub rotateleft-Holds :
    (t : Table) (x : Ptr) (tree : Tree)
    → Holds t tree
    → IsIn x (inorder tree)
    → t.rbt_right x ≢ t.nil
    → (tree' : Tree) × Holds (rotateleft x t) tree'
      × (inorder tree' ≡ inorder tree)
      × Moved t (rotateleft x t) x (t.rbt_right x) (t.rbt_left (t.rbt_right x)) (t.rbt_parent x)
      × Around t x (t.rbt_right x)
rotateleft-Holds t x tree holds i n =
    let out = λ (j : IsIn t.nil (inorder tree)).
      IsIn-not_nil t t.nil t.rbtt_root t.nil tree holds.is j refl in
    let (tree', rot) = rotates t t.nil t.rbtt_root x tree holds.is i n in
    let ne =
      Rotated-Around t x (t.rbt_right x) t.nil t.rbtt_root tree tree' rot holds.is holds.once out in
    let moved =
      rotateleft-Moved t x (t.rbt_right x) (t.rbt_left (t.rbt_right x)) (t.rbt_parent x) refl refl
        refl ne.xy ne.xb ne.yb ne.gx ne.gy in
    (
      tree',
      Moved-Holds t (rotateleft x t) x (t.rbt_right x) tree tree' rot holds moved,
      Rotated-inorder tree tree' rot,
      moved,
      ne,
    )

-- `std_rbtree_rotateright`, of a node that has a left child
pub rotateright-Holds :
    (t : Table) (x : Ptr) (tree : Tree)
    → Holds t tree
    → IsIn x (inorder tree)
    → t.rbt_left x ≢ t.nil
    → (tree' : Tree) × Holds (rotateright x t) tree'
      × (inorder tree' ≡ inorder tree)
      × Moved
          (mirror t)
          (mirror (rotateright x t))
          x
          (t.rbt_left x)
          (t.rbt_right (t.rbt_left x))
          (t.rbt_parent x)
      × Around (mirror t) x (t.rbt_left x)
rotateright-Holds t x tree holds i n =
    let m = mirror t in
    let is = IsTree-flip t t.nil t.rbtt_root tree holds.is in
    let once = NoDup-flip tree holds.once in
    let out = λ (j : IsIn t.nil (inorder (flip tree))).
      IsIn-not_nil m t.nil t.rbtt_root t.nil (flip tree) is j refl in
    let (tree', rot) = rotates m t.nil t.rbtt_root x (flip tree) is (IsIn-flip x tree i) n in
    let ne =
      Rotated-Around m x (t.rbt_left x) t.nil t.rbtt_root (flip tree) tree' rot is once out in
    let moved =
      rotateright-Moved t x (t.rbt_left x) (t.rbt_right (t.rbt_left x)) (t.rbt_parent x) refl refl
        refl ne.xy ne.xb ne.yb ne.gx ne.gy in
    let after =
      Moved-Holds m (mirror (rotateright x t)) x (t.rbt_left x) (flip tree) tree' rot
        (record { is = is; once = once }) moved in
    (
      flip tree',
      record {
        is =
            IsTree-unflip (rotateright x t) (rotateright x t).nil (rotateright x t).rbtt_root tree'
              after.is;
        once = NoDup-flip tree' after.once;
      },
      Rotated-flip (flip tree) tree' rot ∙ ap inorder (flip-flip tree),
      moved,
      ne,
    )
