-- ===== src/RbTree/RemoveExamples.antt =====
-- Removals from red-black trees of std_rbtree.c, and insertion and removal by the data.
use opx_common_utils.Prelude.{List, [], ◌∷◌, inr, ◌+◌, ◌≡◌, refl, Option, some, none, arith}
use opx_common_utils.Prelude.Int.{sub_ℕ}
use opx_common_utils.RbTree.{
  Ptr, Table, Compare, black, rotateleft, rotateright, getexact, getexact_data, exact_loop, climb,
  leftmost, getnext,
}
use opx_common_utils.RbTree.Data.{insert_data, remove_data}
use opx_common_utils.RbTree.Insert.{
  insert_node, insert_place, attach, balanceoninsert, balance_loop, balance_step, balance_left,
  balance_right,
}
use opx_common_utils.RbTree.Remove.{
  sibling_right, sibling_left, balanceonremove, splice, replace, removed_node, remove_node,
}
use opx_common_utils.RbTree.Shape.{leaf}
use opx_common_utils.RbTree.Stored.{insert_data-getexact_data}

-- No nodes.
abbrev empty : Table
empty = record {
  rbt_left = λ p. 0;
  rbt_right = λ p. 0;
  rbt_parent = λ p. 0;
  rbt_color = λ p. black;
  rbt_data = λ p. 0;
  rbtt_root = 100;
  rbtt_numinodes = 0;
  rbtt_numinserts = 0;
  rbtt_numremoved = 0;
  rbtt_nummallocs = 0;
  rbtt_numfrees = 0;
  nil = 100;
}

abbrev numbers : Compare
numbers a b = sub_ℕ a b

-- The data is twice the address of the node that is allocated for it.
abbrev insert_all : List Ptr → Table → Option Table
unfolding insert_data
insert_all [] t = some t
insert_all (z ∷ zs) t = elim (insert_data numbers 9 5 t z (z + z)) [
  | none ↦ none
  | some s ↦ insert_all zs s.1
]

abbrev links : Option Table → Ptr → List Ptr
links none p = []
links (some t) p =
    t.rbtt_root ∷ t.rbt_left p ∷ t.rbt_right p ∷ t.rbt_parent p ∷ t.rbtt_numinodes ∷ []

abbrev removed : List Ptr → Ptr → Option Table
unfolding remove_data
removed zs key = elim (insert_all zs empty) [
  | none ↦ none
  | some t ↦ elim (remove_data numbers 9 t key) [ none ↦ none | some s ↦ some s.1 ]
]

-- A leaf, a node with two children, the root, and data that is not there.
remove_runs :
    (links (removed (1 ∷ 2 ∷ 3 ∷ 4 ∷ 5 ∷ []) 10) 4 ≡ 2 ∷ 3 ∷ 100 ∷ 2 ∷ 4 ∷ [])
    × (links (removed (1 ∷ 2 ∷ 3 ∷ 4 ∷ 5 ∷ []) 8) 5 ≡ 2 ∷ 3 ∷ 100 ∷ 2 ∷ 4 ∷ [])
    × (links (removed (1 ∷ 2 ∷ 3 ∷ 4 ∷ []) 2) 3 ≡ 3 ∷ 2 ∷ 4 ∷ 100 ∷ 3 ∷ [])
    × (links (removed (1 ∷ 2 ∷ 3 ∷ []) 4) 3 ≡ 3 ∷ 1 ∷ 100 ∷ 100 ∷ 2 ∷ [])
    × (links (removed (1 ∷ 2 ∷ 3 ∷ []) 5) 2 ≡ 2 ∷ 1 ∷ 3 ∷ 100 ∷ 3 ∷ [])
unfolding insert_data remove_data getexact exact_loop insert_node insert_place attach
    balanceoninsert balance_loop balance_step balance_left balance_right rotateleft rotateright
    remove_node removed_node getnext climb leftmost splice replace balanceonremove sibling_right
    sibling_left
remove_runs = (refl, refl, refl, refl, refl)

insert_data-getexact_data_example :
    (t' : Table) × (found : Ptr) × (insert_data numbers 3 5 empty 7 14 ≡ some (0, t'))
    × (getexact_data numbers 3 t' 14 ≡ some found)
    × (found ≡ 14)
insert_data-getexact_data_example =
    insert_data-getexact_data numbers (λ a. a) 3 5 empty 7 14 leaf
      (record { less = λ a b. ground arith; equal = λ a b. ground arith })
      (record { is = refl; once = tt }) tt (inr refl) (λ e. omega (arith, e))
      (λ e. omega (arith, e)) (λ i. elim i [ ]) (omega arith) (λ e. omega (arith, e))
