-- ===== src/RbTree/Data.antt =====
-- `std_rbtree_insert` and `std_rbtree_remove` of src/std_rbtree.c, by the data. What the caller's allocation
-- gives is a parameter, and to free a node changes no field of the table but the count.
use opx_common_utils.Prelude.{ℕ, ◌+◌, ◌%◌, ◌^◌, Option, none, some, ◌==◌, if◌then◌else◌}
use opx_common_utils.ErrorCode.{err_from_errno}
use opx_common_utils.ErrorCode.Ids.{com_sub, fail}
use opx_common_utils.RbTree.{Ptr, null, Table, Compare, set_at, getexact}
use opx_common_utils.RbTree.Insert.{insert_node}
use opx_common_utils.RbTree.Remove.{remove_node}

-- `std_rbtree_insert`: the error code, and the table; `z` is what the allocation gives.
unfoldable pub insert_data : Compare → ℕ → (errno : ℕ) → Table → (z item : Ptr) → Option (ℕ × Table)
insert_data compare fuel errno t z item =
    let t1 = record t {
      rbtt_nummallocs = (t.rbtt_nummallocs + 1) % 2 ^ 64;
      rbt_data = set_at t.rbt_data z item;
    } in
    if item == null
    then none
    else if z == null
    then some (err_from_errno errno com_sub fail, t)
    else elim (insert_node compare fuel t1 z) [ none ↦ none | some t2 ↦ some (0, t2) ]

-- `std_rbtree_remove`: the data of the node, or NULL, and the table
unfoldable pub remove_data : Compare → ℕ → Table → Ptr → Option (Ptr × Table)
remove_data compare fuel t key = elim (getexact compare fuel t key) [
  | none ↦ none
  | some x ↦
      let removed = remove_node fuel t x in
      if x == null then some (null, t) else elim removed [
        | none ↦ none
        | some t2 ↦
            some (t2.rbt_data x, record t2 { rbtt_numfrees = (t2.rbtt_numfrees + 1) % 2 ^ 64 })
      ]
]
