-- ===== src/RbTree.antt =====
-- src/std_rbtree.c: the nodes of a red-black tree, the rotations, and searches in it. A node is an address, its
-- fields are functions from addresses, and `NIL` is the address of the node inside of the table. The
-- comparison is the caller's. The tree is in its debug mode, in which the handle is asserted to be one.
pub mod Shape
pub mod First
pub mod Exact
pub mod Next
pub mod Mirror
pub mod Rotate
pub mod Turn
pub mod Links
pub mod Turned
pub mod Holds
pub mod Above
pub mod Branches
pub mod Step
pub mod Balance
pub mod Add
pub mod Attach
pub mod Sorted
pub mod Inserted
pub mod Lookup
pub mod Nearest
pub mod Remove
pub mod Data
pub mod Stored
pub mod Ceiling
pub mod ExactOrNext
pub mod Insert
mod Examples
mod InsertExamples
mod RemoveExamples
use opx_common_utils.Prelude.{
  ℕ, zero, suc, Bool, true, false, ◌&&◌, not, Option, none, some, ◌==◌, if◌then◌else◌,
}
use opx_common_utils.Prelude.Int.{ℤ, pos, ltb_ℤ, eq_ℤ}

abbrev pub Ptr : Type 0
Ptr = ℕ

abbrev pub null : Ptr
null = 0

-- `rbtt_compare`, of the data of two nodes
abbrev pub Compare : Type 0
Compare = Ptr → Ptr → ℤ

pub data Color : Type 0 where
  red black : Color

-- `std_rbtree_node` at every address, and the fields of `std_rbtree_table` that change.
pub record Table : Type 0 where
  pub rbt_left : Ptr → Ptr
  pub rbt_right : Ptr → Ptr
  pub rbt_parent : Ptr → Ptr
  pub rbt_color : Ptr → Color
  pub rbt_data : Ptr → Ptr
  pub rbtt_root : Ptr
  pub rbtt_numinodes : ℕ
  pub rbtt_numinserts : ℕ
  pub rbtt_numremoved : ℕ
  pub rbtt_nummallocs : ℕ
  pub rbtt_numfrees : ℕ
  pub nil : Ptr

abbrev pub set_at {ℓ} : {A : Type ℓ} → (Ptr → A) → Ptr → A → Ptr → A
set_at f p v q = if q == p then v else f q

abbrev pub set_left : Ptr → Ptr → Table → Table
set_left p q t = record t { rbt_left = set_at t.rbt_left p q }

abbrev pub set_right : Ptr → Ptr → Table → Table
set_right p q t = record t { rbt_right = set_at t.rbt_right p q }

abbrev pub set_parent : Ptr → Ptr → Table → Table
set_parent p q t = record t { rbt_parent = set_at t.rbt_parent p q }

abbrev pub set_color : Ptr → Color → Table → Table
set_color p c t = record t { rbt_color = set_at t.rbt_color p c }

abbrev pub is_red : Color → Bool
is_red red = true
is_red black = false

-- `RBT_IS_LESS`, `RBT_IS_EQUAL`
abbrev pub is_less : Compare → Ptr → Ptr → Bool
is_less compare d1 d2 = ltb_ℤ (compare d1 d2) (pos 0)

abbrev pub is_equal : Compare → Ptr → Ptr → Bool
is_equal compare d1 d2 = eq_ℤ (compare d1 d2) (pos 0)

-- `std_rbtree_rotateleft`, `std_rbtree_rotateright`
unfoldable pub rotateleft : Ptr → Table → Table
rotateleft x t0 =
    let y = t0.rbt_right x in
    let t1 = set_right x (t0.rbt_left y) t0 in
    let t2 = if t1.rbt_left y == t1.nil then t1 else set_parent (t1.rbt_left y) x t1 in
    let t3 = set_parent y (t2.rbt_parent x) t2 in
    let p = t3.rbt_parent x in
    let t4 =
      if p == t3.nil
      then record t3 { rbtt_root = y }
      else if x == t3.rbt_left p
      then set_left p y t3
      else set_right p y t3 in
    let t5 = set_left y x t4 in set_parent x y t5

unfoldable pub rotateright : Ptr → Table → Table
rotateright x t0 =
    let y = t0.rbt_left x in
    let t1 = set_left x (t0.rbt_right y) t0 in
    let t2 = if t1.rbt_right y == t1.nil then t1 else set_parent (t1.rbt_right y) x t1 in
    let t3 = set_parent y (t2.rbt_parent x) t2 in
    let p = t3.rbt_parent x in
    let t4 =
      if p == t3.nil
      then record t3 { rbtt_root = y }
      else if x == t3.rbt_right p
      then set_right p y t3
      else set_left p y t3 in
    let t5 = set_right y x t4 in set_parent x y t5

-- The loop to the leftmost node below `x`, on fuel.
unfoldable pub leftmost : ℕ → Table → Ptr → Option Ptr
leftmost zero t x = none
leftmost (suc fuel) t x =
    let rest = leftmost fuel t (t.rbt_left x) in if t.rbt_left x == t.nil then some x else rest

-- A result that is `NIL` is returned as NULL.
abbrev pub or_null : Table → Option Ptr → Option Ptr
or_null t none = none
or_null t (some x) = some (if x == t.nil then null else x)

-- `_std_rbtree_getfirst`
unfoldable pub getfirst : ℕ → Table → Option Ptr
unfolding leftmost
getfirst fuel t =
    or_null t (if t.rbtt_root == t.nil then some t.rbtt_root else leftmost fuel t t.rbtt_root)

-- `std_rbtree_getfirst`, which gives the data of a node that is not NULL
abbrev pub data_of : Table → Option Ptr → Option Ptr
data_of t none = none
data_of t (some x) = some (if x == null then null else t.rbt_data x)

unfoldable pub getfirst_data : ℕ → Table → Option Ptr
unfolding getfirst
getfirst_data fuel t = data_of t (getfirst fuel t)

-- The loop of `_std_rbtree_getexact`, on fuel.
unfoldable pub exact_loop : Compare → ℕ → Table → Ptr → Ptr → Option Ptr
exact_loop compare zero t key x = none
exact_loop compare (suc fuel) t key x =
    let to_left = exact_loop compare fuel t key (t.rbt_left x) in
    let to_right = exact_loop compare fuel t key (t.rbt_right x) in
    if x == t.nil
    then some x
    else if is_equal compare key (t.rbt_data x)
    then some x
    else if is_less compare key (t.rbt_data x)
    then to_left
    else to_right

-- `_std_rbtree_getexact`, `std_rbtree_getexact`
unfoldable pub getexact : Compare → ℕ → Table → Ptr → Option Ptr
unfolding exact_loop
getexact compare fuel t key =
    if key == null then none else or_null t (exact_loop compare fuel t key t.rbtt_root)

unfoldable pub getexact_data : Compare → ℕ → Table → Ptr → Option Ptr
unfolding getexact
getexact_data compare fuel t key = data_of t (getexact compare fuel t key)

-- The loop of `_std_rbtree_getnext` that goes up while it comes from the right, on fuel.
unfoldable pub climb : ℕ → Table → Ptr → Ptr → Option Ptr
climb zero t x y = none
climb (suc fuel) t x y =
    let further = climb fuel t y (t.rbt_parent y) in
    if not (y == t.nil) && x == t.rbt_right y then further else some y

-- `_std_rbtree_getnext`
unfoldable pub getnext : ℕ → Table → Ptr → Option Ptr
unfolding climb leftmost
getnext fuel t x =
    if x == null
    then some null
    else or_null t (
        if t.rbt_right x == t.nil
        then climb fuel t x (t.rbt_parent x)
        else leftmost fuel t (t.rbt_right x))
