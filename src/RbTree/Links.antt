-- ===== src/RbTree/Links.antt =====
-- The links of a node that a rotation of std_rbtree.c does not move, and of one above it.
use opx_common_utils.Prelude.{
  ◌≡◌, ◌≢◌, inl, inr, refl, sym, ap, ◌∙◌, arith, true, false, ◌==◌, Bool-cases,
}
use opx_common_utils.RbTree.{Ptr, Table}
use opx_common_utils.RbTree.Rotate.{Moved}
use opx_common_utils.RbTree.Turn.{Same}

module _ (t t' : Table) (x y b g : Ptr) (moved : Moved t t' x y b g) where
  -- A node that is none of those that the rotation moves.
  pub Moved-Same : (m : Ptr) → m ≢ x → m ≢ y → m ≢ g → m ≢ b → Same t t' m
  Moved-Same m nx ny ng nb =
      let fx : (m == x) ≡ false = ground arith in
      let fy : (m == y) ≡ false = ground arith in
      let fg : (m == g) ≡ false = ground arith in
      let fb : (m == b) ≡ false = ground arith in
      record {
        left = rw (moved.left m, fy, fg) refl;
        right = rw (moved.right m, fx, fg) refl;
        parent = rw (moved.parent m, fx, fy, fb) refl;
      }

  -- The links of a node above the rotation: on the left of it, and on the right of it.
  pub left_links :
      (q p now : Ptr)
      → p ≡ t.rbt_left q
      → q ≢ x
      → q ≢ y
      → q ≢ t.nil
      → (x ≡ p → g ≡ q)
      → (x ≢ p → q ≢ g)
      → (x ≢ p → now ≡ p)
      → (x ≡ p → now ≡ y)
      → (t'.rbt_left q ≡ now) × (t'.rbt_right q ≡ t.rbt_right q)
  left_links q p now ep qx qy qn hit miss kept replaced =
      let fx : (q == x) ≡ false = ground arith in
      let fy : (q == y) ≡ false = ground arith in
      let fn : (q == t.nil) ≡ false = ground arith in
      elim (Bool-cases (x == p)) [
        | inl same ↦
            let xp : x ≡ p = ground arith in
            let gq = hit xp in
            let left_child : (x == t.rbt_left q) ≡ true = ap (λ z. x == z) (sym ep) ∙ same in
            let self : (q == q) ≡ true = ground arith in
            (
              moved.left q ∙ rw (gq, fy, self, fn, left_child) (sym (replaced xp)),
              moved.right q ∙ rw (gq, fx, self, fn, left_child) refl,
            )
        | inr differs ↦
            let xp : x ≢ p = ground arith in
            let gq = miss xp in
            let fg : (q == g) ≡ false = ground arith in
            (moved.left q ∙ rw (fy, fg) (sym ep ∙ sym (kept xp)), moved.right q ∙ rw (fx, fg) refl)
      ]

  pub right_links :
      (q p now : Ptr)
      → p ≡ t.rbt_right q
      → q ≢ x
      → q ≢ y
      → q ≢ t.nil
      → x ≢ t.rbt_left q
      → (x ≡ p → g ≡ q)
      → (x ≢ p → q ≢ g)
      → (x ≢ p → now ≡ p)
      → (x ≡ p → now ≡ y)
      → (t'.rbt_right q ≡ now) × (t'.rbt_left q ≡ t.rbt_left q)
  right_links q p now ep qx qy qn other hit miss kept replaced =
      let fx : (q == x) ≡ false = ground arith in
      let fy : (q == y) ≡ false = ground arith in
      let fn : (q == t.nil) ≡ false = ground arith in
      elim (Bool-cases (x == p)) [
        | inl same ↦
            let xp : x ≡ p = ground arith in
            let gq = hit xp in
            let left_child : (x == t.rbt_left q) ≡ false = ground arith in
            let self : (q == q) ≡ true = ground arith in
            (
              moved.right q ∙ rw (gq, fx, self, fn, left_child) (sym (replaced xp)),
              moved.left q ∙ rw (gq, fy, self, fn, left_child) refl,
            )
        | inr differs ↦
            let xp : x ≢ p = ground arith in
            let gq = miss xp in
            let fg : (q == g) ≡ false = ground arith in
            (moved.right q ∙ rw (fx, fg) (sym ep ∙ sym (kept xp)), moved.left q ∙ rw (fy, fg) refl)
      ]

  -- The parent of a node that is not moved.
  pub same_parent : (q : Ptr) → q ≢ x → q ≢ y → q ≢ b → t'.rbt_parent q ≡ t.rbt_parent q
  same_parent q qx qy qb =
      let fx : (q == x) ≡ false = ground arith in
      let fy : (q == y) ≡ false = ground arith in
      let fb : (q == b) ≡ false = ground arith in moved.parent q ∙ rw (fx, fy, fb) refl

  pub same_left : (q : Ptr) → q ≢ y → q ≢ g → t'.rbt_left q ≡ t.rbt_left q
  same_left q qy qg =
      let fy : (q == y) ≡ false = ground arith in
      let fg : (q == g) ≡ false = ground arith in moved.left q ∙ rw (fy, fg) refl

  pub same_right : (q : Ptr) → q ≢ x → q ≢ g → t'.rbt_right q ≡ t.rbt_right q
  same_right q qx qg =
      let fx : (q == x) ≡ false = ground arith in
      let fg : (q == g) ≡ false = ground arith in moved.right q ∙ rw (fx, fg) refl

  -- The links of the nodes that change places.
  pub left_of_y : t'.rbt_left y ≡ x
  left_of_y = let self : (y == y) ≡ true = ground arith in moved.left y ∙ rw self refl

  pub right_of_x : t'.rbt_right x ≡ b
  right_of_x = let self : (x == x) ≡ true = ground arith in moved.right x ∙ rw self refl

  pub parent_of_x : t'.rbt_parent x ≡ y
  parent_of_x = let self : (x == x) ≡ true = ground arith in moved.parent x ∙ rw self refl

  pub parent_of_y : x ≢ y → t'.rbt_parent y ≡ g
  parent_of_y xy =
      let self : (y == y) ≡ true = ground arith in
      let other : (y == x) ≡ false = ground arith in moved.parent y ∙ rw (other, self) refl

  pub parent_of_b : b ≢ x → b ≢ y → b ≢ t.nil → t'.rbt_parent b ≡ x
  parent_of_b bx by bn =
      let self : (b == b) ≡ true = ground arith in
      let not_x : (b == x) ≡ false = ground arith in
      let not_y : (b == y) ≡ false = ground arith in
      let there : (b == t.nil) ≡ false = ground arith in
      moved.parent b ∙ rw (not_x, not_y, self, there) refl
