-- ===== src/RbTree/Rotate.antt =====
-- What a rotation to the left does to the links, and to the tree that they hold.
use opx_common_utils.Prelude.{◌≡◌, ◌≢◌, ◌∙◌, arith, not, ◌&&◌, ◌==◌, if◌then◌else◌}
use opx_common_utils.RbTree.{Ptr, Table, rotateleft, rotateright}
use opx_common_utils.RbTree.Mirror.{mirror}

-- The links of `t'`, as against those of `t`, around a node `x` with the right child `y`, its left
-- subtree at `b`, and the parent `g` of `x`.
pub record Moved (t t' : Table) (x y b g : Ptr) : Type 0 where
  pub same_nil : t'.nil ≡ t.nil
  pub root : t'.rbtt_root ≡ (if g == t.nil then y else t.rbtt_root)
  pub left :
      (m : Ptr)
      → t'.rbt_left m ≡ (
          if m == y
          then x
          else if m == g && not (g == t.nil) && x == t.rbt_left g
          then y
          else t.rbt_left m)
  pub right :
      (m : Ptr)
      → t'.rbt_right m ≡ (
          if m == x
          then b
          else if m == g && not (g == t.nil) && not (x == t.rbt_left g)
          then y
          else t.rbt_right m)
  pub parent :
      (m : Ptr)
      → t'.rbt_parent m ≡ (
          if m == x
          then y
          else if m == y
          then g
          else if m == b && not (b == t.nil)
          then x
          else t.rbt_parent m)

pub rotateleft-Moved :
    (t : Table) (x y b g : Ptr)
    → y ≡ t.rbt_right x
    → b ≡ t.rbt_left y
    → g ≡ t.rbt_parent x
    → x ≢ y
    → x ≢ b
    → y ≢ b
    → g ≢ x
    → g ≢ y
    → Moved t (rotateleft x t) x y b g
unfolding rotateleft
rotateleft-Moved t x y b g ey eb eg xy xb yb gx gy = record {
  same_nil = ground arith;
  root = ground arith;
  left = λ m. ground arith;
  right = λ m. ground arith;
  parent = λ m. ground arith;
}

-- A rotation to the right, in the mirror.
pub rotateright-Moved :
    (t : Table) (x y b g : Ptr)
    → y ≡ t.rbt_left x
    → b ≡ t.rbt_right y
    → g ≡ t.rbt_parent x
    → x ≢ y
    → x ≢ b
    → y ≢ b
    → g ≢ x
    → g ≢ y
    → Moved (mirror t) (mirror (rotateright x t)) x y b g
unfolding rotateright
rotateright-Moved t x y b g ey eb eg xy xb yb gx gy = record {
  same_nil = ground arith;
  root = ground arith;
  left = λ m. ground arith;
  right = λ m. ground arith;
  parent = λ m. ground arith;
}

-- All but the links and the colours.
pub record Kept (t t' : Table) : Type 0 where
  pub data_kept : t'.rbt_data ≡ t.rbt_data
  pub same_nil : t'.nil ≡ t.nil
  pub inodes : t'.rbtt_numinodes ≡ t.rbtt_numinodes
  pub inserts : t'.rbtt_numinserts ≡ t.rbtt_numinserts

pub rotateleft-Kept : (t : Table) (x : Ptr) → Kept t (rotateleft x t)
unfolding rotateleft
rotateleft-Kept t x = record {
  data_kept = ground arith;
  same_nil = ground arith;
  inodes = ground arith;
  inserts = ground arith;
}

pub color-rotateleft : (t : Table) (x : Ptr) → (rotateleft x t).rbt_color ≡ t.rbt_color
unfolding rotateleft
color-rotateleft t x = ground arith

pub rotateright-Kept : (t : Table) (x : Ptr) → Kept t (rotateright x t)
unfolding rotateright
rotateright-Kept t x = record {
  data_kept = ground arith;
  same_nil = ground arith;
  inodes = ground arith;
  inserts = ground arith;
}

pub color-rotateright : (t : Table) (x : Ptr) → (rotateright x t).rbt_color ≡ t.rbt_color
unfolding rotateright
color-rotateright t x = ground arith

pub Kept-trans : (t u v : Table) → Kept t u → Kept u v → Kept t v
Kept-trans t u v a b = record {
  data_kept = b.data_kept ∙ a.data_kept;
  same_nil = b.same_nil ∙ a.same_nil;
  inodes = b.inodes ∙ a.inodes;
  inserts = b.inserts ∙ a.inserts;
}

pub rotateright-mirror : (t : Table) (x : Ptr) → rotateright x t ≡ mirror (rotateleft x (mirror t))
unfolding rotateleft rotateright
rotateright-mirror t x = ground arith
