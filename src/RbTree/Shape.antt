-- ===== src/RbTree/Shape.antt =====
-- The tree that the nodes below a pointer hold, and its nodes in their order.
use opx_common_utils.Prelude.{ℕ, ◌≤◌, ◌≡◌, ◌≢◌, ltb, ◌==◌}
pub use opx_common_utils.Tree.{Tree, leaf, node, inorder, size}
use opx_common_utils.RbTree.{Ptr, null, Table, Compare, is_less, is_equal}

-- The nodes below `p`, whose parent is `par`, are the tree: each has its children, its parent, and an
-- address that is neither `NIL` nor NULL.
abbrev pub IsTree : Table → Ptr → Ptr → Tree → Type 0
IsTree t par p leaf = p ≡ t.nil
IsTree t par p (node l q r) =
    (p ≡ q)
    × (q ≢ t.nil)
    × (q ≢ null)
    × (t.rbt_parent q ≡ par)
    × IsTree t q (t.rbt_left q) l
    × IsTree t q (t.rbt_right q) r

-- What the caller's comparison has to be: the order of a rank that each data has.
pub record Ranks (compare : Compare) (rank : Ptr → ℕ) : Type 0 where
  pub less : (a b : Ptr) → is_less compare a b ≡ ltb (rank a) (rank b)
  pub equal : (a b : Ptr) → is_equal compare a b ≡ (rank a == rank b)

-- Every node has a rank from `lo` to `hi`, those on the left at most the node's, those on the right at
-- least.
abbrev pub Ordered : (Ptr → ℕ) → Table → ℕ → ℕ → Tree → Type 0
Ordered rank t lo hi leaf = Unit
Ordered rank t lo hi (node l q r) =
    (lo ≤ rank (t.rbt_data q))
    × (rank (t.rbt_data q) ≤ hi)
    × Ordered rank t lo (rank (t.rbt_data q)) l
    × Ordered rank t (rank (t.rbt_data q)) hi r
