-- ===== src/RbTree/Branches.antt =====
-- The branches of a round of `std_rbtree_balanceoninsert`.
use opx_common_utils.Prelude.{
  ◌≡◌, inl, inr, refl, sym, ap, ◌∙◌, Bool, true, false, not, ◌&&◌, ◌==◌, Bool-cases,
}
use opx_common_utils.RbTree.{Ptr, Table, red, black, is_red, set_color, rotateleft, rotateright}
use opx_common_utils.RbTree.Insert.{balance_left, balance_right}
use opx_common_utils.RbTree.Rotate.{rotateright-mirror}
use opx_common_utils.RbTree.Mirror.{mirror}

-- The grandparent of `x`, and the colours before the last rotation.
abbrev pub grand : Ptr → Table → Ptr
grand x t = t.rbt_parent (t.rbt_parent x)

abbrev pub painted : Ptr → Table → Table
painted x t = set_color (grand x t) red (set_color (t.rbt_parent x) black t)

abbrev pub uncle_red : Table → Ptr → Bool
uncle_red t y = not (y == t.nil) && is_red (t.rbt_color y)

abbrev pub recolored : Ptr → Ptr → Table → Table
recolored x y t = set_color (grand x t) red (set_color y black (set_color (t.rbt_parent x) black t))

-- The three branches for a parent on the left, and for one on the right.
pub left_uncle :
    (t : Table) (x : Ptr)
    → uncle_red t (t.rbt_right (grand x t)) ≡ true
    → balance_left x t ≡ (grand x t, recolored x (t.rbt_right (grand x t)) t)
unfolding balance_left
left_uncle t x uncle = rw uncle refl

pub left_inner :
    (t : Table) (x : Ptr)
    → uncle_red t (t.rbt_right (grand x t)) ≡ false
    → (x == t.rbt_right (t.rbt_parent x)) ≡ true
    → balance_left x t ≡ (
      t.rbt_parent x,
      rotateright
          (grand (t.rbt_parent x) (rotateleft (t.rbt_parent x) t))
          (painted (t.rbt_parent x) (rotateleft (t.rbt_parent x) t)),
    )
unfolding balance_left
left_inner t x uncle inner = rw (uncle, inner) refl

pub left_outer :
    (t : Table) (x : Ptr)
    → uncle_red t (t.rbt_right (grand x t)) ≡ false
    → (x == t.rbt_right (t.rbt_parent x)) ≡ false
    → balance_left x t ≡ (x, rotateright (grand x t) (painted x t))
unfolding balance_left
left_outer t x uncle outer = rw (uncle, outer) refl

right_uncle :
    (t : Table) (x : Ptr)
    → uncle_red t (t.rbt_left (grand x t)) ≡ true
    → balance_right x t ≡ (grand x t, recolored x (t.rbt_left (grand x t)) t)
unfolding balance_right
right_uncle t x uncle = rw uncle refl

right_inner :
    (t : Table) (x : Ptr)
    → uncle_red t (t.rbt_left (grand x t)) ≡ false
    → (x == t.rbt_left (t.rbt_parent x)) ≡ true
    → balance_right x t ≡ (
      t.rbt_parent x,
      rotateleft
          (grand (t.rbt_parent x) (rotateright (t.rbt_parent x) t))
          (painted (t.rbt_parent x) (rotateright (t.rbt_parent x) t)),
    )
unfolding balance_right
right_inner t x uncle inner = rw (uncle, inner) refl

right_outer :
    (t : Table) (x : Ptr)
    → uncle_red t (t.rbt_left (grand x t)) ≡ false
    → (x == t.rbt_left (t.rbt_parent x)) ≡ false
    → balance_right x t ≡ (x, rotateleft (grand x t) (painted x t))
unfolding balance_right
right_outer t x uncle outer = rw (uncle, outer) refl

-- The branch for a parent on the right is the one for a parent on the left, in the mirror.
pub balance_right-mirror :
    (t : Table) (x : Ptr)
    → balance_right x t ≡ ((balance_left x (mirror t)).0, mirror (balance_left x (mirror t)).1)
balance_right-mirror t x =
    let p = t.rbt_parent x in
    let last = λ (q : Ptr) (v : Table). ap mirror (rotateright-mirror v q) in
    elim (Bool-cases (uncle_red t (t.rbt_left (grand x t)))) [
      | inl uncle ↦
          right_uncle t x uncle ∙ sym (ap (λ s. (s.0, mirror s.1)) (left_uncle (mirror t) x uncle))
      | inr uncle ↦ elim (Bool-cases (x == t.rbt_left p)) [
        | inl inner ↦
            let v = rotateleft p (mirror t) in
            right_inner t x uncle inner
            ∙ ap (λ u. (p, rotateleft (grand p u) (painted p u))) (rotateright-mirror t p)
            ∙ sym (
                ap (λ s. (s.0, mirror s.1)) (left_inner (mirror t) x uncle inner)
                ∙ ap (λ u. (p, u)) (last (grand p v) (painted p v)))
        | inr inner ↦
            right_outer t x uncle inner
            ∙ sym (
                ap (λ s. (s.0, mirror s.1)) (left_outer (mirror t) x uncle inner)
                ∙ ap (λ u. (x, u)) (last (grand x t) (painted x (mirror t))))
      ]
    ]
