-- ===== src/RbTree/Turned.antt =====
-- A rotation of `std_rbtree_rotateleft` or, in the mirror, of `std_rbtree_rotateright`, somewhere in a tree.
use opx_common_utils.Prelude.{
  ◌≡◌, ◌≢◌, ◌⊎◌, inl, inr, refl, sym, subst, ap, ◌∙◌, arith, ◌==◌, Bool-cases,
}
use opx_common_utils.RbTree.{Ptr, Table}
use opx_common_utils.RbTree.Shape.{Tree, node, IsTree, inorder}
use opx_common_utils.RbTree.Rotate.{Moved}
use opx_common_utils.RbTree.Links.{
  Moved-Same, left_links, right_links, same_parent, same_left, same_right, left_of_y, right_of_x,
  parent_of_x, parent_of_y, parent_of_b,
}
use opx_common_utils.RbTree.Turn.{
  Rotated, turn, turn_left, turn_right, IsTree-frame, IsTree-reroot, IsIn-not_nil, IsTree-place,
}
use opx_common_utils.Tree.{IsIn, at_left, at_node, at_right, Side-IsIn, NoDup, NoDup-Parts}

module _ (t t' : Table) (x y b g : Ptr) (moved : Moved t t' x y b g) where
  -- Where the pointer into the tree is now, and where the nodes around the rotation are.
  pub record Turned (par p : Ptr) (tree tree' : Tree) : Type 0 where
    pub now : Ptr
    pub is : IsTree t' par now tree'
    pub kept : x ≢ p → now ≡ p
    pub replaced : x ≡ p → now ≡ y
    pub x_in : IsIn x (inorder tree)
    pub y_in : IsIn y (inorder tree)
    pub b_in : (b ≡ t.nil) ⊎ IsIn b (inorder tree)
    pub above : x ≡ p → g ≡ par
    pub g_below : x ≢ p → IsIn g (inorder tree)

  module _ (eb : b ≡ t.rbt_left y) (eg : g ≡ t.rbt_parent x) where
    -- The rotation at the root of the tree.
    Turned-here :
        (par p : Ptr) (a b0 c : Tree)
        → IsTree t par p (node a x (node b0 y c))
        → NoDup (inorder (node a x (node b0 y c)))
        → (IsIn par (inorder (node a x (node b0 y c))) → ⊥)
        → Turned par p (node a x (node b0 y c)) (node (node a x b0) y c)
    Turned-here par p a b0 c (e, n, n0, pq, ia, (ey, ny, ny0, pqy, ib, ic)) d out =
        let parts = NoDup-Parts a x (node b0 y c) d in
        let inner = NoDup-Parts b0 y c parts.in_right in
        let x_in = Side-IsIn x a x (node b0 y c) (at_node refl) in
        let y_right = Side-IsIn y b0 y c (at_node refl) in
        let on_right = λ (m : Ptr) (i : IsIn m (inorder (node b0 y c))).
          Side-IsIn m a x (node b0 y c) (at_right i) in
        let in_b = λ (m : Ptr) (i : IsIn m (inorder b0)). Side-IsIn m b0 y c (at_left i) in
        let in_c = λ (m : Ptr) (i : IsIn m (inorder c)). Side-IsIn m b0 y c (at_right i) in
        let gp : g ≡ par = eg ∙ pq in
        let not_g = λ (m : Ptr) (i : IsIn m (inorder (node a x (node b0 y c)))) (z : m ≡ g).
          out (subst (λ k. IsIn k (inorder (node a x (node b0 y c)))) (z ∙ gp) i) in
        let xy : x ≢ y = λ z. parts.not_right y y_right (sym z) in
        let b_place : (b ≡ t.nil) ⊎ IsIn b (inorder b0) =
          elim (IsTree-place t y (t.rbt_left y) b0 ib) [
            | inl s ↦ inl (eb ∙ s)
            | inr i ↦ inr (subst (λ k. IsIn k (inorder b0)) (sym eb) i)
          ] in
        let a_same = λ (m : Ptr) (i : IsIn m (inorder a)).
          Moved-Same t t' x y b g moved m (parts.not_left m i)
            (λ z. parts.apart m i (subst (λ k. IsIn k (inorder (node b0 y c))) (sym z) y_right))
            (not_g m (Side-IsIn m a x (node b0 y c) (at_left i)))
            (elim b_place [
              | inl s ↦ λ z. IsIn-not_nil t x (t.rbt_left x) m a ia i (z ∙ s)
              | inr j ↦ λ z.
                  parts.apart m i (subst (λ k. IsIn k (inorder (node b0 y c))) (sym z) (in_b b j))
            ]) in
        let c_same = λ (m : Ptr) (i : IsIn m (inorder c)).
          Moved-Same t t' x y b g moved m (parts.not_right m (in_c m i)) (inner.not_right m i)
            (not_g m (on_right m (in_c m i)))
            (elim b_place [
              | inl s ↦ λ z. IsIn-not_nil t y (t.rbt_right y) m c ic i (z ∙ s)
              | inr j ↦ λ z. inner.apart m (subst (λ k. IsIn k (inorder b0)) (sym z) j) i
            ]) in
        let b_tree : IsTree t' x b b0 =
          subst (λ z. IsTree t' x z b0) (sym eb)
            (IsTree-reroot t t' y x (t.rbt_left y) b0 moved.same_nil inner.in_left
              (λ m i.
                same_left t t' x y b g moved m (inner.not_left m i)
                  (not_g m (on_right m (in_b m i))))
              (λ m i.
                same_right t t' x y b g moved m (parts.not_right m (in_b m i))
                  (not_g m (on_right m (in_b m i))))
              (λ m i nb.
                same_parent t t' x y b g moved m (parts.not_right m (in_b m i)) (inner.not_left m i)
                  (λ z. nb (z ∙ eb)))
              (λ there. elim b_place [
                | inl s ↦ absurd (there (sym eb ∙ s))
                | inr i ↦
                    ap t'.rbt_parent (sym eb)
                    ∙ parent_of_b t t' x y b g moved (parts.not_right b (in_b b i))
                        (inner.not_left b i) (λ z. there (sym eb ∙ z))
              ])
              ib) in
        record {
          now = y;
          is = (
            refl,
            (λ z. ny (z ∙ moved.same_nil)),
            ny0,
            parent_of_y t t' x y b g moved xy ∙ gp,
            (
              left_of_y t t' x y b g moved,
              (λ z. n (z ∙ moved.same_nil)),
              n0,
              parent_of_x t t' x y b g moved,
              subst (λ z. IsTree t' x z a) (sym (same_left t t' x y b g moved x xy (not_g x x_in)))
                  (IsTree-frame t t' x (t.rbt_left x) a moved.same_nil a_same ia),
              subst (λ z. IsTree t' x z b0) (sym (right_of_x t t' x y b g moved)) b_tree,
            ),
            subst (λ z. IsTree t' y z c)
                (sym (
                  same_right t t' x y b g moved y (λ z. xy (sym z)) (not_g y (on_right y y_right))))
                (IsTree-frame t t' y (t.rbt_right y) c moved.same_nil c_same ic),
          );
          kept = λ z. absurd (z (sym e));
          replaced = λ z. refl;
          x_in = x_in;
          y_in = on_right y y_right;
          b_in = elim b_place [ inl s ↦ inl s | inr i ↦ inr (on_right b (in_b b i)) ];
          above = λ z. gp;
          g_below = λ z. absurd (z (sym e));
        }

    pub IsTree-Turned :
        (par p : Ptr) (tree tree' : Tree)
        → Rotated x y tree tree'
        → IsTree t par p tree
        → NoDup (inorder tree)
        → (IsIn par (inorder tree) → ⊥)
        → Turned par p tree tree'
    IsTree-Turned par p _ _ (turn a b0 c) is d out = Turned-here par p a b0 c is d out
    IsTree-Turned par p _ _ (turn_left l l' q r rot) (e, n, n0, pq, il, ir) d out =
        let parts = NoDup-Parts l q r d in
        let on_left = λ (m : Ptr) (i : IsIn m (inorder l)). Side-IsIn m l q r (at_left i) in
        let ih =
          IsTree-Turned q (t.rbt_left q) l l' rot il parts.in_left (λ i. parts.not_left q i refl) in
        let not_left =
          λ (m : Ptr) (i : IsIn m (inorder l)) (z : q ≡ m). parts.not_left m i (sym z) in
        let other = λ (m w : Ptr) (j : IsIn w (inorder l)) (i : IsIn m (inorder r)) (z : m ≡ w).
          parts.apart m (subst (λ k. IsIn k (inorder l)) (sym z) j) i in
        let (left_now, right_now) =
          left_links t t' x y b g moved q (t.rbt_left q) ih.now refl (not_left x ih.x_in)
            (not_left y ih.y_in) n ih.above (λ z. not_left g (ih.g_below z)) ih.kept ih.replaced in
        let not_b : q ≢ b = elim ih.b_in [ inl s ↦ λ z. n (z ∙ s) | inr i ↦ not_left b i ] in
        record {
          now = q;
          is = (
            refl,
            (λ z. n (z ∙ moved.same_nil)),
            n0,
            same_parent t t' x y b g moved q (not_left x ih.x_in) (not_left y ih.y_in) not_b ∙ pq,
            subst (λ z. IsTree t' q z l') (sym left_now) ih.is,
            subst (λ z. IsTree t' q z r) (sym right_now)
                (IsTree-frame t t' q (t.rbt_right q) r moved.same_nil
                  (λ m i.
                    Moved-Same t t' x y b g moved m (other m x ih.x_in i) (other m y ih.y_in i)
                      (elim (Bool-cases (x == t.rbt_left q)) [
                        | inl s ↦ λ z. parts.not_right m i (z ∙ ih.above (ground arith))
                        | inr f ↦ other m g (ih.g_below (ground arith)) i
                      ])
                      (elim ih.b_in [
                        | inl s ↦ λ z. IsIn-not_nil t q (t.rbt_right q) m r ir i (z ∙ s)
                        | inr j ↦ other m b j i
                      ]))
                  ir),
          );
          kept = λ z. sym e;
          replaced = λ z. absurd (not_left x ih.x_in (sym e ∙ sym z));
          x_in = on_left x ih.x_in;
          y_in = on_left y ih.y_in;
          b_in = elim ih.b_in [ inl s ↦ inl s | inr i ↦ inr (on_left b i) ];
          above = λ z. absurd (not_left x ih.x_in (sym e ∙ sym z));
          g_below = λ z. elim (Bool-cases (x == t.rbt_left q)) [
            | inl s ↦ Side-IsIn g l q r (at_node (ih.above (ground arith)))
            | inr f ↦ on_left g (ih.g_below (ground arith))
          ];
        }
    IsTree-Turned par p _ _ (turn_right l q r r' rot) (e, n, n0, pq, il, ir) d out =
        let parts = NoDup-Parts l q r d in
        let on_right = λ (m : Ptr) (i : IsIn m (inorder r)). Side-IsIn m l q r (at_right i) in
        let ih =
          IsTree-Turned q (t.rbt_right q) r r' rot ir parts.in_right
            (λ i. parts.not_right q i refl) in
        let not_right =
          λ (m : Ptr) (i : IsIn m (inorder r)) (z : q ≡ m). parts.not_right m i (sym z) in
        let other = λ (m w : Ptr) (j : IsIn w (inorder r)) (i : IsIn m (inorder l)) (z : m ≡ w).
          parts.apart m i (subst (λ k. IsIn k (inorder r)) (sym z) j) in
        let apart_left : x ≢ t.rbt_left q = elim (IsTree-place t q (t.rbt_left q) l il) [
          | inl s ↦ λ z. IsIn-not_nil t q (t.rbt_right q) x r ir ih.x_in (z ∙ s)
          | inr i ↦ λ z. other (t.rbt_left q) x ih.x_in i (sym z)
        ] in
        let (right_now, left_now) =
          right_links t t' x y b g moved q (t.rbt_right q) ih.now refl (not_right x ih.x_in)
            (not_right y ih.y_in) n apart_left ih.above (λ z. not_right g (ih.g_below z)) ih.kept
            ih.replaced in
        let not_b : q ≢ b = elim ih.b_in [ inl s ↦ λ z. n (z ∙ s) | inr i ↦ not_right b i ] in
        record {
          now = q;
          is = (
            refl,
            (λ z. n (z ∙ moved.same_nil)),
            n0,
            same_parent t t' x y b g moved q (not_right x ih.x_in) (not_right y ih.y_in) not_b ∙ pq,
            subst (λ z. IsTree t' q z l) (sym left_now)
                (IsTree-frame t t' q (t.rbt_left q) l moved.same_nil
                  (λ m i.
                    Moved-Same t t' x y b g moved m (other m x ih.x_in i) (other m y ih.y_in i)
                      (elim (Bool-cases (x == t.rbt_right q)) [
                        | inl s ↦ λ z. parts.not_left m i (z ∙ ih.above (ground arith))
                        | inr f ↦ other m g (ih.g_below (ground arith)) i
                      ])
                      (elim ih.b_in [
                        | inl s ↦ λ z. IsIn-not_nil t q (t.rbt_left q) m l il i (z ∙ s)
                        | inr j ↦ other m b j i
                      ]))
                  il),
            subst (λ z. IsTree t' q z r') (sym right_now) ih.is,
          );
          kept = λ z. sym e;
          replaced = λ z. absurd (not_right x ih.x_in (sym e ∙ sym z));
          x_in = on_right x ih.x_in;
          y_in = on_right y ih.y_in;
          b_in = elim ih.b_in [ inl s ↦ inl s | inr i ↦ inr (on_right b i) ];
          above = λ z. absurd (not_right x ih.x_in (sym e ∙ sym z));
          g_below = λ z. elim (Bool-cases (x == t.rbt_right q)) [
            | inl s ↦ Side-IsIn g l q r (at_node (ih.above (ground arith)))
            | inr f ↦ on_right g (ih.g_below (ground arith))
          ];
        }
