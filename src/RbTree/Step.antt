-- ===== src/RbTree/Step.antt =====
-- A round of the loop of `std_rbtree_balanceoninsert`: it recolours and goes up, or it rotates, after which
-- the parent is black.
use opx_common_utils.Prelude.{
  ◌≡◌, ◌≢◌, ◌⊎◌, inl, inr, refl, sym, subst, ap, ◌∙◌, arith, true, false, ◌==◌, Bool-cases,
}
use opx_common_utils.RbTree.{Ptr, Table, Color, red, black, set_color, rotateleft, rotateright}
use opx_common_utils.RbTree.Above.{parent-IsIn, IsIn-LeftChild}
use opx_common_utils.RbTree.Branches.{
  grand, painted, uncle_red, recolored, left_uncle, left_inner, left_outer, balance_right-mirror,
}
use opx_common_utils.RbTree.Insert.{balance_left, balance_step}
use opx_common_utils.RbTree.Shape.{Tree, inorder}
use opx_common_utils.RbTree.Rotate.{
  Kept, Kept-trans, rotateleft-Kept, rotateright-Kept, color-rotateright,
}
use opx_common_utils.RbTree.Mirror.{
  mirror, flip, flip-flip, IsTree-flip, IsIn-flip, NoDup-flip, flip-inorder,
}
use opx_common_utils.RbTree.Holds.{Holds, rotateleft-Holds, rotateright-Holds}
use opx_common_utils.RbTree.Links.{same_parent, left_of_y, parent_of_x, parent_of_y}
use opx_common_utils.RbTree.Turn.{IsTree-frame, IsIn-not_nil}
use opx_common_utils.Tree.{IsIn}

pub Kept-refl : (t : Table) → Kept t t
Kept-refl t = record { data_kept = refl; same_nil = refl; inodes = refl; inserts = refl }

-- A colour is no link.
pub set_color-Holds :
    (t : Table) (q : Ptr) (c : Color) (tree : Tree) → Holds t tree → Holds (set_color q c t) tree
set_color-Holds t q c tree holds = record {
  is =
      IsTree-frame t (set_color q c t) t.nil t.rbtt_root tree refl
        (λ m i. record { left = refl; right = refl; parent = refl }) holds.is;
  once = holds.once;
}

pub data Stepped (t : Table) (tree : Tree) (x : Ptr) (s : Ptr × Table) : Type 0 where
  climbs :
      s.0 ≡ grand x t
      → s.1.rbt_parent ≡ t.rbt_parent
      → s.1.rbtt_root ≡ t.rbtt_root
      → Holds s.1 tree
      → (s.1.rbt_color t.rbtt_root ≡ black) ⊎ (s.0 ≡ t.rbtt_root)
      → Kept t s.1
      → Stepped t tree x s
  ends :
      (tree' : Tree)
      → Holds s.1 tree'
      → inorder tree' ≡ inorder tree
      → s.1.rbt_color (s.1.rbt_parent s.0) ≡ black
      → Kept t s.1
      → Stepped t tree x s

root_not_in : (t : Table) (tree : Tree) → Holds t tree → IsIn t.nil (inorder tree) → ⊥
root_not_in t tree holds i = IsIn-not_nil t t.nil t.rbtt_root t.nil tree holds.is i refl

-- The last rotation, at the grandparent of a left child of a left child.
last_turn :
    (t : Table) (tree : Tree) (z : Ptr)
    → Holds t tree
    → IsIn z (inorder tree)
    → IsIn (t.rbt_parent z) (inorder tree)
    → IsIn (grand z t) (inorder tree)
    → z ≡ t.rbt_left (t.rbt_parent z)
    → t.rbt_parent z ≡ t.rbt_left (grand z t)
    → (tree' : Tree) × Holds (rotateright (grand z t) (painted z t)) tree'
      × (inorder tree' ≡ inorder tree)
      × ((rotateright (grand z t) (painted z t)).rbt_color
            ((rotateright (grand z t) (painted z t)).rbt_parent z)
          ≡ black)
last_turn t tree z holds iz ip ig ez ep =
    let w = painted z t in
    let g = grand z t in
    let p = t.rbt_parent z in
    let nil_of =
      λ (m : Ptr) (i : IsIn m (inorder tree)). IsIn-not_nil t t.nil t.rbtt_root m tree holds.is i in
    let wh =
      set_color-Holds (set_color p black t) g red tree (set_color-Holds t p black tree holds) in
    let (tree', after, same, moved, ne) =
      rotateright-Holds w g tree wh ig (λ e. nil_of p ip (ep ∙ e)) in
    let at_p =
      IsIn-LeftChild t t.nil t.rbtt_root p tree holds.is holds.once (root_not_in t tree holds) ip
        (λ e. nil_of z iz (ez ∙ e)) in
    let up : (rotateright g w).rbt_parent z ≡ p =
      same_parent (mirror w) (mirror (rotateright g w)) g (t.rbt_left g)
        (t.rbt_right (t.rbt_left g)) (t.rbt_parent g) moved z (λ e. at_p.not_parent (sym ez ∙ e))
        (λ e. at_p.not_self (sym ez ∙ e ∙ sym ep))
        (λ e. at_p.not_right (sym ez ∙ e ∙ ap t.rbt_right (sym ep))) in
    let pg : p ≢ g = λ e. ne.xy (sym e ∙ ep) in
    let not_g : (p == g) ≡ false = ground arith in
    let self : (p == p) ≡ true = ground arith in
    (
      tree',
      after,
      same,
      ap (λ f. f ((rotateright g w).rbt_parent z)) (color-rotateright w g)
          ∙ ap w.rbt_color up
          ∙ rw (not_g, self) refl,
    )

module _ (t : Table) (x : Ptr) (tree : Tree) (holds : Holds t tree) (ix : IsIn x (inorder tree))
    (ip : IsIn (t.rbt_parent x) (inorder tree)) (ig : IsIn (grand x t) (inorder tree))
    (ep : t.rbt_parent x ≡ t.rbt_left (grand x t)) where
  climb_up :
      t.rbt_color t.rbtt_root ≡ black
      → Stepped t tree x (grand x t, recolored x (t.rbt_right (grand x t)) t)
  climb_up cr =
      let p = t.rbt_parent x in
      let g = grand x t in
      let y = t.rbt_right g in
      let root = t.rbtt_root in
      climbs refl refl refl
        (set_color-Holds (set_color y black (set_color p black t)) g red tree (
          set_color-Holds (set_color p black t) y black tree
            (set_color-Holds t p black tree holds)))
        (elim (Bool-cases (root == g)) [
          | inl top ↦ inr (ground arith)
          | inr under ↦ elim (Bool-cases (root == y)) [
            | inl at_y ↦ inl (rw (under, at_y) refl)
            | inr no_y ↦ elim (Bool-cases (root == p)) [
              | inl at_p ↦ inl (rw (under, no_y, at_p) refl)
              | inr no_p ↦ inl (rw (under, no_y, no_p) cr)
            ]
          ]
        ])
        (record { data_kept = refl; same_nil = refl; inodes = refl; inserts = refl })

  turn_outer :
      x ≡ t.rbt_left (t.rbt_parent x) → Stepped t tree x (x, rotateright (grand x t) (painted x t))
  turn_outer ex =
      let (tree', after, same, dark) = last_turn t tree x holds ix ip ig ex ep in
      ends tree' after same dark (
        Kept-trans t (painted x t) (rotateright (grand x t) (painted x t))
          (record { data_kept = refl; same_nil = refl; inodes = refl; inserts = refl })
          (rotateright-Kept (painted x t) (grand x t)))

  turn_inner :
      x ≡ t.rbt_right (t.rbt_parent x)
      → Stepped t tree x (
        t.rbt_parent x,
        rotateright
            (grand (t.rbt_parent x) (rotateleft (t.rbt_parent x) t))
            (painted (t.rbt_parent x) (rotateleft (t.rbt_parent x) t)),
      )
  turn_inner ex =
      let p = t.rbt_parent x in
      let g = grand x t in
      let u = rotateleft p t in
      let xn = IsIn-not_nil t t.nil t.rbtt_root x tree holds.is ix in
      let gn = IsIn-not_nil t t.nil t.rbtt_root g tree holds.is ig in
      let (tree1, mid, same1, moved, ne) = rotateleft-Holds t p tree holds ip (λ e. xn (ex ∙ e)) in
      let y = t.rbt_right p in
      let b = t.rbt_left y in
      let upp : u.rbt_parent p ≡ x = parent_of_x t u p y b g moved ∙ sym ex in
      let upx : u.rbt_parent x ≡ g = ap u.rbt_parent ex ∙ parent_of_y t u p y b g moved ne.xy in
      let top : grand p u ≡ g = ap u.rbt_parent upp ∙ upx in
      let left_x : u.rbt_left x ≡ p = ap u.rbt_left ex ∙ left_of_y t u p y b g moved in
      let not_y : (g == y) ≡ false = ground (arith, ne.gy) in
      let self : (g == g) ≡ true = ground arith in
      let there : (g == t.nil) ≡ false = ground arith in
      let is_left : (p == t.rbt_left g) ≡ true = ground arith in
      let left_g : u.rbt_left g ≡ x = moved.left g ∙ rw (not_y, self, there, is_left) (sym ex) in
      let in1 = λ (m : Ptr) (i : IsIn m (inorder tree)). subst (λ z. IsIn m z) (sym same1) i in
      let (tree', after, same, dark) =
        last_turn u tree1 p mid (in1 p ip)
          (subst (λ z. IsIn z (inorder tree1)) (sym upp) (in1 x ix))
          (subst (λ z. IsIn z (inorder tree1)) (sym top) (in1 g ig))
          (sym (ap u.rbt_left upp ∙ left_x)) (upp ∙ sym (ap u.rbt_left top ∙ left_g)) in
      ends tree' after (same ∙ same1) dark (
        Kept-trans t u (rotateright (grand p u) (painted p u)) (rotateleft-Kept t p) (
          Kept-trans u (painted p u) (rotateright (grand p u) (painted p u))
            (record { data_kept = refl; same_nil = refl; inodes = refl; inserts = refl })
            (rotateright-Kept (painted p u) (grand p u))))

  -- A round where the parent is a left child.
  pub left_step :
      (x ≡ t.rbt_left (t.rbt_parent x)) ⊎ (x ≡ t.rbt_right (t.rbt_parent x))
      → t.rbt_color t.rbtt_root ≡ black
      → Stepped t tree x (balance_left x t)
  left_step child cr = elim (Bool-cases (uncle_red t (t.rbt_right (grand x t)))) [
    | inl uncle ↦ subst (λ s. Stepped t tree x s) (sym (left_uncle t x uncle)) (climb_up cr)
    | inr uncle ↦ elim (Bool-cases (x == t.rbt_right (t.rbt_parent x))) [
      | inl inner ↦
          subst (λ s. Stepped t tree x s) (sym (left_inner t x uncle inner))
            (turn_inner (ground arith))
      | inr outer ↦
          subst (λ s. Stepped t tree x s) (sym (left_outer t x uncle outer))
            (turn_outer (elim child [ inl e ↦ e | inr e ↦ absurd (ground arith) ]))
    ]
  ]

mirror-Holds : (t : Table) (tree : Tree) → Holds t tree → Holds (mirror t) (flip tree)
mirror-Holds t tree holds = record {
  is = IsTree-flip t t.nil t.rbtt_root tree holds.is;
  once = NoDup-flip tree holds.once;
}

-- A round in the mirror is a round.
mirror-Stepped :
    (t : Table) (tree : Tree) (x : Ptr) (s : Ptr × Table)
    → Stepped (mirror t) (flip tree) x s
    → Stepped t tree x (s.0, mirror s.1)
mirror-Stepped t tree x s (climbs at up root holds dark kept) =
    climbs at up root
      (subst (λ z. Holds (mirror s.1) z) (flip-flip tree) (mirror-Holds s.1 (flip tree) holds)) dark
      (record {
        data_kept = kept.data_kept;
        same_nil = kept.same_nil;
        inodes = kept.inodes;
        inserts = kept.inserts;
      })
mirror-Stepped t tree x s (ends tree' holds same dark kept) =
    ends (flip tree') (mirror-Holds s.1 tree' holds) (flip-inorder tree tree' same) dark (record {
      data_kept = kept.data_kept;
      same_nil = kept.same_nil;
      inodes = kept.inodes;
      inserts = kept.inserts;
    })

-- A round of the loop, at a node that is neither the root nor a child of it, where the root is black.
pub balance_step-Stepped :
    (t : Table) (x : Ptr) (tree : Tree)
    → Holds t tree
    → IsIn x (inorder tree)
    → x ≢ t.rbtt_root
    → t.rbt_parent x ≢ t.rbtt_root
    → t.rbt_color t.rbtt_root ≡ black
    → Stepped t tree x (balance_step x t)
unfolding balance_step
balance_step-Stepped t x tree holds ix xr pr cr =
    let p = t.rbt_parent x in
    let (ip, child) = parent-IsIn t t.nil t.rbtt_root x tree holds.is ix xr in
    let (ig, side) = parent-IsIn t t.nil t.rbtt_root p tree holds.is ip pr in
    let onto = λ (m : Ptr) (i : IsIn m (inorder tree)). IsIn-flip m tree i in
    elim (Bool-cases (p == t.rbt_left (t.rbt_parent p))) [
      | inl left ↦
          subst (λ s. Stepped t tree x s) (sym (rw left refl))
            (left_step t x tree holds ix ip ig (ground arith) child cr)
      | inr right ↦
          let at_right : p ≡ t.rbt_right (t.rbt_parent p) = elim side [
            | inl e ↦ absurd (ground arith)
            | inr e ↦ e
          ] in
          subst (λ s. Stepped t tree x s) (sym (rw right (balance_right-mirror t x)))
            (mirror-Stepped t tree x (balance_left x (mirror t)) (
              left_step (mirror t) x (flip tree) (mirror-Holds t tree holds) (onto x ix) (onto p ip)
                (onto (t.rbt_parent p) ig) at_right (elim child [ inl e ↦ inr e | inr e ↦ inl e ])
                cr))
    ]
