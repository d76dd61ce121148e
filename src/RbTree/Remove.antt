-- ===== src/RbTree/Remove.antt =====
-- `std_rbtree_remove` of src/std_rbtree.c: the node that is taken out of its place, the rotations and
-- colours that balance the tree, and the node that takes the place of the removed one.
use opx_common_utils.Prelude.{
  ℕ, zero, suc, ◌+◌, ◌-◌, ◌%◌, ◌^◌, Bool, true, false, not, ◌&&◌, ◌||◌, Option, none, some, ◌==◌,
  if◌then◌else◌,
}
use opx_common_utils.RbTree.{
  Ptr, null, Table, red, black, is_red, set_left, set_right, set_parent, set_color, rotateleft,
  rotateright, getnext,
}

-- The body of the loop of `std_rbtree_balanceonremove` where `x` is a left child: the node and the table
-- for the next round, and whether the loop goes on.
unfoldable pub sibling_right : Ptr → Table → Bool × Ptr × Table
unfolding rotateleft rotateright
sibling_right x t0 =
    let p = t0.rbt_parent x in
    let w0 = t0.rbt_right p in
    let t1 =
      if is_red (t0.rbt_color w0)
      then rotateleft p (set_color p red (set_color w0 black t0))
      else t0 in
    let w1 = if is_red (t0.rbt_color w0) then t1.rbt_right (t1.rbt_parent x) else w0 in
    let inner = is_red (t1.rbt_color (t1.rbt_left w1)) in
    let outer = is_red (t1.rbt_color (t1.rbt_right w1)) in
    let t2 =
      if outer
      then t1
      else rotateright w1 (set_color w1 red (set_color (t1.rbt_left w1) black t1)) in
    let w2 = if outer then w1 else t2.rbt_right (t2.rbt_parent x) in
    let p2 = t2.rbt_parent x in
    let t3 = set_color p2 black (set_color w2 (t2.rbt_color p2) t2) in
    let t4 = rotateleft p2 (set_color (t3.rbt_right w2) black t3) in
    if w1 == t1.nil
    then (false, x, t1)
    else if not inner && not outer
    then (true, t1.rbt_parent x, set_color w1 red t1)
    else (true, t4.rbtt_root, t4)

-- The mirror image, where `x` is a right child.
unfoldable pub sibling_left : Ptr → Table → Bool × Ptr × Table
unfolding rotateleft rotateright
sibling_left x t0 =
    let p = t0.rbt_parent x in
    let w0 = t0.rbt_left p in
    let t1 =
      if is_red (t0.rbt_color w0)
      then rotateright p (set_color p red (set_color w0 black t0))
      else t0 in
    let w1 = if is_red (t0.rbt_color w0) then t1.rbt_left (t1.rbt_parent x) else w0 in
    let inner = is_red (t1.rbt_color (t1.rbt_right w1)) in
    let outer = is_red (t1.rbt_color (t1.rbt_left w1)) in
    let t2 =
      if outer
      then t1
      else rotateleft w1 (set_color w1 red (set_color (t1.rbt_right w1) black t1)) in
    let w2 = if outer then w1 else t2.rbt_left (t2.rbt_parent x) in
    let p2 = t2.rbt_parent x in
    let t3 = set_color p2 black (set_color w2 (t2.rbt_color p2) t2) in
    let t4 = rotateright p2 (set_color (t3.rbt_left w2) black t3) in
    if w1 == t1.nil
    then (false, x, t1)
    else if not inner && not outer
    then (true, t1.rbt_parent x, set_color w1 red t1)
    else (true, t4.rbtt_root, t4)

-- `std_rbtree_balanceonremove`, on fuel
unfoldable pub balanceonremove : ℕ → Ptr → Table → Option Table
unfolding sibling_right sibling_left
balanceonremove zero x t = none
balanceonremove (suc fuel) x t =
    let s = if x == t.rbt_left (t.rbt_parent x) then sibling_right x t else sibling_left x t in
    let further = balanceonremove fuel s.1 s.2 in
    if x == t.rbtt_root || is_red (t.rbt_color x)
    then some (set_color x black t)
    else if s.0
    then further
    else some (set_color s.1 black s.2)

-- `y` is taken out of the parent chain, and its only child `x` comes to its place.
unfoldable pub splice : (y x : Ptr) → Table → Table
splice y x t0 =
    let t1 = set_parent x (t0.rbt_parent y) t0 in
    let p = t1.rbt_parent y in
    if p == t1.nil
    then record t1 { rbtt_root = x }
    else if y == t1.rbt_left p
    then set_left p x t1
    else set_right p x t1

-- `y` takes the place of `z`.
unfoldable pub replace : (y z : Ptr) → Table → Table
replace y z t0 =
    let t1 = if t0.rbtt_root == z then record t0 { rbtt_root = y } else t0 in
    let t2 = set_parent y (t1.rbt_parent z) t1 in
    let t3 = set_left y (t2.rbt_left z) t2 in
    let t4 = set_right y (t3.rbt_right z) t3 in
    let t5 = set_color y (t4.rbt_color z) t4 in
    let p = t5.rbt_parent y in
    let t6 =
      if p == t5.nil
      then t5
      else if t5.rbt_left p == z
      then set_left p y t5
      else set_right p y t5 in
    let t7 = if t6.rbt_left y == t6.nil then t6 else set_parent (t6.rbt_left y) y t6 in
    if t7.rbt_right y == t7.nil then t7 else set_parent (t7.rbt_right y) y t7

-- The node that is taken out for `z`: `z`, or the next one where `z` has two children.
unfoldable pub removed_node : ℕ → Table → Ptr → Option Ptr
unfolding getnext
removed_node fuel t z =
    if t.rbt_left z == t.nil || t.rbt_right z == t.nil then some z else getnext fuel t z

-- `_std_rbtree_remove`: NULL is asserted not to be given, and a next node that is not there is read; both
-- give no result.
unfoldable pub remove_node : ℕ → Table → Ptr → Option Table
unfolding removed_node splice balanceonremove replace
remove_node fuel t z = elim (removed_node fuel t z) [
  | none ↦ none
  | some y ↦
      let x = if t.rbt_left y == t.nil then t.rbt_right y else t.rbt_left y in
      let t1 = splice y x t in
      let balanced = if is_red (t1.rbt_color y) then some t1 else balanceonremove fuel x t1 in
      if z == null || y == null then none else elim balanced [
        | none ↦ none
        | some t2 ↦
            let t3 = if y == z then t2 else replace y z t2 in
            let t4 = set_left z t3.nil (set_right z t3.nil (set_parent z t3.nil t3)) in
            some (record t4 {
              rbtt_numremoved = (t4.rbtt_numremoved + 1) % 2 ^ 64;
              rbtt_numinodes = (t4.rbtt_numinodes + 2 ^ 64 - 1) % 2 ^ 64;
            })
      ]
]
