-- ===== src/RbTree/Nearest.antt =====
-- src/std_rbtree.c: the look ups of a key or of the one next to it, and what stands on them and on the
-- insertion of a node.
use opx_common_utils.Prelude.{ℕ, zero, suc, not, ◌&&◌, Option, none, some, ◌==◌, if◌then◌else◌}
use opx_common_utils.RbTree.{
  Ptr, null, Table, Compare, is_less, is_equal, climb, or_null, data_of, getexact, getnext,
}

-- The loop of `_std_rbtree_getexactornext`, on fuel, and with `up` as the fuel of the loop inside it.
unfoldable pub next_loop : Compare → (fuel up : ℕ) → Table → Ptr → Ptr → Option Ptr
unfolding climb
next_loop compare zero up t key x = none
next_loop compare (suc fuel) up t key x =
    let to_left = next_loop compare fuel up t key (t.rbt_left x) in
    let to_right = next_loop compare fuel up t key (t.rbt_right x) in
    if x == t.nil
    then some x
    else if is_equal compare key (t.rbt_data x)
    then some x
    else if is_less compare key (t.rbt_data x)
    then (if t.rbt_left x == t.nil then some x else to_left)
    else if t.rbt_right x == t.nil
    then climb up t x (t.rbt_parent x)
    else to_right

-- `_std_rbtree_getexactornext`, `std_rbtree_getexactornext`
unfoldable pub getexactornext : Compare → ℕ → Table → Ptr → Option Ptr
unfolding next_loop
getexactornext compare fuel t key =
    if key == null then none else or_null t (next_loop compare fuel fuel t key t.rbtt_root)

unfoldable pub getexactornext_data : Compare → ℕ → Table → Ptr → Option Ptr
unfolding getexactornext
getexactornext_data compare fuel t key = data_of t (getexactornext compare fuel t key)

-- The loop of `_std_rbtree_getexactorprev` that goes up while it comes from the left, on fuel.
unfoldable pub climb_left : ℕ → Table → Ptr → Ptr → Option Ptr
climb_left zero t x y = none
climb_left (suc fuel) t x y =
    let further = climb_left fuel t y (t.rbt_parent y) in
    if not (y == t.nil) && x == t.rbt_left y then further else some y

-- The loop of `_std_rbtree_getexactorprev`
unfoldable pub prev_loop : Compare → (fuel up : ℕ) → Table → Ptr → Ptr → Option Ptr
unfolding climb_left
prev_loop compare zero up t key x = none
prev_loop compare (suc fuel) up t key x =
    let to_left = prev_loop compare fuel up t key (t.rbt_left x) in
    let to_right = prev_loop compare fuel up t key (t.rbt_right x) in
    if x == t.nil
    then some x
    else if is_equal compare key (t.rbt_data x)
    then some x
    else if is_less compare key (t.rbt_data x)
    then (if t.rbt_left x == t.nil then climb_left up t x (t.rbt_parent x) else to_left)
    else if t.rbt_right x == t.nil
    then some x
    else to_right

-- `_std_rbtree_getexactorprev`, `std_rbtree_getexactorprev`
unfoldable pub getexactorprev : Compare → ℕ → Table → Ptr → Option Ptr
unfolding prev_loop
getexactorprev compare fuel t key =
    if key == null then none else or_null t (prev_loop compare fuel fuel t key t.rbtt_root)

unfoldable pub getexactorprev_data : Compare → ℕ → Table → Ptr → Option Ptr
unfolding getexactorprev
getexactorprev_data compare fuel t key = data_of t (getexactorprev compare fuel t key)

-- `std_rbtree_getnext`
unfoldable pub getnext_data : Compare → ℕ → Table → Ptr → Option Ptr
unfolding getexact getnext getexactornext
getnext_data compare fuel t key =
    if key == null then some null else elim (getexact compare fuel t key) [
      | none ↦ none
      | some x ↦
          data_of t (if x == null then getexactornext compare fuel t key else getnext fuel t x)
    ]
