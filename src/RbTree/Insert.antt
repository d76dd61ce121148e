-- ===== src/RbTree/Insert.antt =====
-- `std_rbtree_insert` of src/std_rbtree.c: the way down, the new node, and the rotations and colours that
-- balance the tree.
use opx_common_utils.Prelude.{
  ℕ, zero, suc, ◌+◌, ◌%◌, ◌^◌, not, ◌&&◌, Option, none, some, ◌==◌, if◌then◌else◌,
}
use opx_common_utils.RbTree.{
  Ptr, null, Table, Compare, red, black, is_red, is_less, set_left, set_right, set_parent,
  set_color, rotateleft, rotateright,
}

-- The body of the loop of `std_rbtree_balanceoninsert` where the parent of `x` is a left child: the
-- node and the table for the next round.
unfoldable pub balance_left : Ptr → Table → Ptr × Table
unfolding rotateleft rotateright
balance_left x t =
    let p = t.rbt_parent x in
    let g = t.rbt_parent p in
    let y = t.rbt_right g in
    let uncle_red = set_color g red (set_color y black (set_color p black t)) in
    let x1 = if x == t.rbt_right p then p else x in
    let t1 = if x == t.rbt_right p then rotateleft p t else t in
    let p1 = t1.rbt_parent x1 in
    let g1 = t1.rbt_parent p1 in
    if not (y == t.nil) && is_red (t.rbt_color y)
    then (g, uncle_red)
    else (x1, rotateright g1 (set_color g1 red (set_color p1 black t1)))

-- The mirror image, where the parent is a right child.
unfoldable pub balance_right : Ptr → Table → Ptr × Table
unfolding rotateleft rotateright
balance_right x t =
    let p = t.rbt_parent x in
    let g = t.rbt_parent p in
    let y = t.rbt_left g in
    let uncle_red = set_color g red (set_color y black (set_color p black t)) in
    let x1 = if x == t.rbt_left p then p else x in
    let t1 = if x == t.rbt_left p then rotateright p t else t in
    let p1 = t1.rbt_parent x1 in
    let g1 = t1.rbt_parent p1 in
    if not (y == t.nil) && is_red (t.rbt_color y)
    then (g, uncle_red)
    else (x1, rotateleft g1 (set_color g1 red (set_color p1 black t1)))

unfoldable pub balance_step : Ptr → Table → Ptr × Table
unfolding balance_left balance_right
balance_step x t =
    let p = t.rbt_parent x in
    if p == t.rbt_left (t.rbt_parent p) then balance_left x t else balance_right x t

-- The loop, on fuel, and the root that is black after it.
unfoldable pub balance_loop : ℕ → Ptr → Table → Option Table
unfolding balance_step
balance_loop zero x t = none
balance_loop (suc fuel) x t =
    let s = balance_step x t in
    let further = balance_loop fuel s.0 s.1 in
    if not (x == t.rbtt_root) && is_red (t.rbt_color (t.rbt_parent x))
    then further
    else some (set_color t.rbtt_root black t)

-- `std_rbtree_balanceoninsert`
unfoldable pub balanceoninsert : ℕ → Ptr → Table → Option Table
unfolding balance_loop
balanceoninsert fuel x t = balance_loop fuel x (set_color x red t)

-- The way down of `_std_rbtree_insert`: the node to which the new one is attached, on fuel.
unfoldable pub insert_place : Compare → ℕ → Table → (z y x : Ptr) → Option Ptr
insert_place compare zero t z y x = none
insert_place compare (suc fuel) t z y x =
    let to_left = insert_place compare fuel t z x (t.rbt_left x) in
    let to_right = insert_place compare fuel t z x (t.rbt_right x) in
    if x == t.nil
    then some y
    else if is_less compare (t.rbt_data z) (t.rbt_data x)
    then to_left
    else to_right

-- The new node below `y`.
unfoldable pub attach : Compare → (z y : Ptr) → Table → Table
attach compare z y t0 =
    let t1 = set_parent z y t0 in
    let t2 = set_left z t0.nil (set_right z t0.nil t1) in
    if y == t2.nil
    then record t2 { rbtt_root = z }
    else if is_less compare (t2.rbt_data z) (t2.rbt_data y)
    then set_left y z t2
    else set_right y z t2

-- `_std_rbtree_insert`, where NULL is asserted not to be given
unfoldable pub insert_node : Compare → ℕ → Table → Ptr → Option Table
unfolding insert_place attach balanceoninsert
insert_node compare fuel t z =
    if z == null then none else elim (insert_place compare fuel t z t.nil t.rbtt_root) [
      | none ↦ none
      | some y ↦ elim (balanceoninsert fuel z (attach compare z y t)) [
        | none ↦ none
        | some b ↦ some (record b {
          rbtt_numinserts = (b.rbtt_numinserts + 1) % 2 ^ 64;
          rbtt_numinodes = (b.rbtt_numinodes + 1) % 2 ^ 64;
        })
      ]
    ]
