-- ===== src/RbTree/InsertExamples.antt =====
-- Insertions into red-black trees of std_rbtree.c, and the theorems at one of them.
use opx_common_utils.Prelude.{
  List, [], ◌∷◌, inl, inr, ◌+◌, ◌≡◌, ◌≢◌, ◌⊎◌, refl, Option, some, none, arith, ◌==◌, if◌then◌else◌,
}
use opx_common_utils.Prelude.Int.{sub_ℕ}
use opx_common_utils.RbTree.{
  Ptr, null, Table, Compare, red, black, rotateleft, rotateright, getexact, climb, leftmost,
  getnext, exact_loop,
}
use opx_common_utils.RbTree.Holds.{Holds, Around, rotateleft-Holds}
use opx_common_utils.RbTree.Insert.{
  insert_node, insert_place, attach, balanceoninsert, balance_loop, balance_step, balance_left,
  balance_right,
}
use opx_common_utils.RbTree.Inserted.{Inserted, insert_node-Inserted}
use opx_common_utils.RbTree.Ceiling.{Ceiling, AllBelow}
use opx_common_utils.RbTree.ExactOrNext.{getexactornext-Ceiling}
use opx_common_utils.RbTree.Nearest.{
  next_loop, getexactornext, getexactornext_data, climb_left, prev_loop, getexactorprev,
  getexactorprev_data, getnext_data,
}
use opx_common_utils.RbTree.Rotate.{Moved}
use opx_common_utils.RbTree.Shape.{Tree, leaf, node, inorder, Ranks}
use opx_common_utils.RbTree.Sorted.{InOrder}
use opx_common_utils.Tree.{IsIn, here, there, IsIn-head}

-- No nodes; the data of a node is twice its address.
abbrev empty : Table
empty = record {
  rbt_left = λ p. 0;
  rbt_right = λ p. 0;
  rbt_parent = λ p. 0;
  rbt_color = λ p. black;
  rbt_data = λ p. p + p;
  rbtt_root = 100;
  rbtt_numinodes = 0;
  rbtt_numinserts = 0;
  rbtt_numremoved = 0;
  rbtt_nummallocs = 0;
  rbtt_numfrees = 0;
  nil = 100;
}

abbrev numbers : Compare
numbers a b = sub_ℕ a b

abbrev insert_all : List Ptr → Table → Option Table
unfolding insert_node
insert_all [] t = some t
insert_all (z ∷ zs) t = elim (insert_node numbers 9 t z) [
  | none ↦ none
  | some t' ↦ insert_all zs t'
]

abbrev links : Option Table → Ptr → List Ptr
links none p = []
links (some t) p =
    t.rbtt_root ∷ t.rbt_left p ∷ t.rbt_right p ∷ t.rbt_parent p ∷ t.rbtt_numinodes ∷ []

-- Rotations to the left, to the right, and both, and a new colour on the way up.
insert_runs :
    (links (insert_all (1 ∷ 2 ∷ 3 ∷ []) empty) 2 ≡ 2 ∷ 1 ∷ 3 ∷ 100 ∷ 3 ∷ [])
    × (links (insert_all (3 ∷ 2 ∷ 1 ∷ []) empty) 2 ≡ 2 ∷ 1 ∷ 3 ∷ 100 ∷ 3 ∷ [])
    × (links (insert_all (3 ∷ 1 ∷ 2 ∷ []) empty) 2 ≡ 2 ∷ 1 ∷ 3 ∷ 100 ∷ 3 ∷ [])
    × (links (insert_all (1 ∷ 2 ∷ 3 ∷ 4 ∷ 5 ∷ []) empty) 4 ≡ 2 ∷ 3 ∷ 5 ∷ 2 ∷ 5 ∷ [])
unfolding insert_node insert_place attach balanceoninsert balance_loop balance_step balance_left
    balance_right rotateleft rotateright
insert_runs = (refl, refl, refl, refl)

-- The node 2 with the red children 1 and 3.
abbrev three : Table
three = record empty {
  rbt_left = λ p. if p == 2 then 1 else 100;
  rbt_right = λ p. if p == 2 then 3 else 100;
  rbt_parent = λ p. if p == 2 then 100 else 2;
  rbt_color = λ p. if p == 2 then black else red;
  rbtt_root = 2;
  rbtt_numinodes = 3;
  rbtt_numinserts = 3;
}

abbrev shape : Tree
shape = node (node leaf 1 leaf) 2 (node leaf 3 leaf)

numbers-Ranks : Ranks numbers (λ a. a)
numbers-Ranks = record { less = λ a b. ground arith; equal = λ a b. ground arith }

not_in : (m : Ptr) → m ≢ 1 → m ≢ 2 → m ≢ 3 → IsIn m (1 ∷ 2 ∷ 3 ∷ []) → ⊥
not_in m n1 n2 n3 i = elim (IsIn-head i) [
  | inl e ↦ n1 e
  | inr j ↦ elim (IsIn-head j) [
    | inl e ↦ n2 e
    | inr k ↦ elim (IsIn-head k) [ inl e ↦ n3 e | inr l ↦ elim l [ ] ]
  ]
]

three-Holds : Holds three shape
three-Holds = record {
  is = (
    refl,
    (λ e. omega (arith, e)),
    (λ e. omega (arith, e)),
    refl,
    (refl, (λ e. omega (arith, e)), (λ e. omega (arith, e)), refl, refl, refl),
    (refl, (λ e. omega (arith, e)), (λ e. omega (arith, e)), refl, refl, refl),
  );
  once = (
    (λ i. elim (IsIn-head i) [
      | inl e ↦ omega (arith, e)
      | inr j ↦ elim (IsIn-head j) [ inl e ↦ omega (arith, e) | inr k ↦ elim k [ ] ]
    ]),
    (
      (λ i. elim (IsIn-head i) [ inl e ↦ omega (arith, e) | inr j ↦ elim j [ ] ]),
      ((λ i. elim i [ ]), tt),
    ),
  );
}

three-InOrder : InOrder (λ q. three.rbt_data q) (inorder shape)
three-InOrder = (
  (λ m i. elim (IsIn-head i) [
    | inl e ↦ omega (arith, e)
    | inr j ↦ elim (IsIn-head j) [ inl e ↦ omega (arith, e) | inr k ↦ elim k [ ] ]
  ]),
  (
    (λ m i. elim (IsIn-head i) [ inl e ↦ omega (arith, e) | inr j ↦ elim j [ ] ]),
    ((λ m i. elim i [ ]), tt),
  ),
)

five_new : IsIn 5 (inorder shape) → ⊥
five_new = not_in 5 (λ e. omega (arith, e)) (λ e. omega (arith, e)) (λ e. omega (arith, e))

insert_node-Inserted_example :
    (t' : Table) × (insert_node numbers 9 three 5 ≡ some t')
    × Inserted (λ q. three.rbt_data q) three t' 5 (inorder shape)
insert_node-Inserted_example =
    insert_node-Inserted numbers (λ a. a) 9 three 5 shape numbers-Ranks three-Holds three-InOrder
      (inl refl) (λ e. omega (arith, e)) (λ e. omega (arith, e)) five_new (omega arith)

rotateleft-Holds_example :
    (tree' : Tree) × Holds (rotateleft 2 three) tree'
    × (inorder tree' ≡ inorder shape)
    × Moved three (rotateleft 2 three) 2 3 100 100
    × Around three 2 3
rotateleft-Holds_example =
    rotateleft-Holds three 2 shape three-Holds (there 1 (2 ∷ 3 ∷ []) (here (3 ∷ [])))
      (λ e. omega (arith, e))

nearest_runs :
    (getexactornext_data numbers 4 three 3 ≡ some 4)
    × (getexactornext_data numbers 4 three 4 ≡ some 4)
    × (getexactornext_data numbers 4 three 7 ≡ some null)
    × (getexactorprev_data numbers 4 three 5 ≡ some 4)
    × (getexactorprev_data numbers 4 three 1 ≡ some null)
    × (getnext_data numbers 4 three 4 ≡ some 6)
    × (getnext_data numbers 4 three 3 ≡ some 4)
unfolding getexactornext_data getexactornext next_loop getexactorprev_data getexactorprev prev_loop
    climb_left climb leftmost getnext getnext_data getexact exact_loop
nearest_runs = (refl, refl, refl, refl, refl, refl, refl)

getexactornext-Ceiling_example :
    (x : Ptr) × (getexactornext numbers 4 three 3 ≡ some x)
    × (((x ≢ null) × Ceiling (λ q. three.rbt_data q) 3 (inorder shape) x)
        ⊎ ((x ≡ null) × AllBelow (λ q. three.rbt_data q) 3 (inorder shape)))
getexactornext-Ceiling_example =
    getexactornext-Ceiling (λ a. a) numbers 4 three 3 shape numbers-Ranks three-Holds three-InOrder
      (λ e. omega (arith, e)) (omega arith)
