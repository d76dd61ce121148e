-- ===== src/RbTree/Examples.antt =====
-- Searches and rotations in a tree of three nodes, and the theorems at it.
use opx_common_utils.Prelude.{
  List, [], ◌∷◌, ◌++◌, inl, inr, ◌+◌, ◌≡◌, ◌≢◌, ◌⊎◌, refl, some, arith, ◌==◌, if◌then◌else◌,
}
use opx_common_utils.Prelude.Int.{sub_ℕ}
use opx_common_utils.RbTree.{
  Ptr, null, Table, Compare, red, black, leftmost, getfirst, getfirst_data, exact_loop, getexact,
  getexact_data, climb, getnext, rotateleft, rotateright,
}
use opx_common_utils.RbTree.Shape.{Tree, leaf, node, IsTree, inorder, Ranks, Ordered}
use opx_common_utils.RbTree.First.{first_or_null, getfirst-IsTree}
use opx_common_utils.RbTree.Exact.{IsIn, Absent, getexact-Ordered}
use opx_common_utils.RbTree.Next.{Apart, IsIn-head, at_root, in_left, getnext-Before}

-- The node 2 with the children 1 and 3; the data of a node is twice its address.
abbrev three : Table
three = record {
  rbt_left = λ p. if p == 2 then 1 else 100;
  rbt_right = λ p. if p == 2 then 3 else 100;
  rbt_parent = λ p. if p == 2 then 100 else 2;
  rbt_color = λ p. if p == 2 then black else red;
  rbt_data = λ p. p + p;
  rbtt_root = 2;
  rbtt_numinodes = 3;
  rbtt_numinserts = 3;
  rbtt_numremoved = 0;
  rbtt_nummallocs = 3;
  rbtt_numfrees = 0;
  nil = 100;
}

abbrev shape : Tree
shape = node (node leaf 1 leaf) 2 (node leaf 3 leaf)

abbrev numbers : Compare
numbers a b = sub_ℕ a b

numbers-Ranks : Ranks numbers (λ a. a)
numbers-Ranks = record { less = λ a b. ground arith; equal = λ a b. ground arith }

three-IsTree : IsTree three 100 2 shape
three-IsTree = (
  refl,
  (λ e. omega (arith, e)),
  (λ e. omega (arith, e)),
  refl,
  (refl, (λ e. omega (arith, e)), (λ e. omega (arith, e)), refl, refl, refl),
  (refl, (λ e. omega (arith, e)), (λ e. omega (arith, e)), refl, refl, refl),
)

three-Ordered : Ordered (λ a. a) three 0 9 shape
three-Ordered = (
  omega arith,
  omega arith,
  (omega arith, omega arith, tt, tt),
  (omega arith, omega arith, tt, tt),
)

three_runs :
    (getfirst_data 3 three ≡ some 2)
    × (getexact_data numbers 4 three 6 ≡ some 6)
    × (getexact_data numbers 4 three 5 ≡ some null)
unfolding getfirst_data getfirst leftmost getexact_data getexact exact_loop
three_runs = (refl, refl, refl)

-- A rotation to the left at the root, and one to the right that undoes it.
rotate_runs :
    let t = rotateleft 2 three in
    (t.rbtt_root ≡ 3)
    × (t.rbt_left 3 ≡ 2)
    × (t.rbt_left 2 ≡ 1)
    × (t.rbt_right 2 ≡ 100)
    × (t.rbt_parent 2 ≡ 3)
    × (Table.rbtt_root (rotateright 3 t) ≡ 2)
    × (Table.rbt_right (rotateright 3 t) 2 ≡ 3)
unfolding rotateleft rotateright
rotate_runs = (refl, refl, refl, refl, refl, refl, refl)

getfirst-IsTree_example : getfirst 3 three ≡ some (first_or_null (inorder shape))
getfirst-IsTree_example = getfirst-IsTree 3 three shape three-IsTree (omega arith)

getexact-Ordered_example :
    (x : Ptr) × (getexact numbers 4 three 6 ≡ some x)
    × (((x ≡ null) × Absent (λ a. a) three 6 (inorder shape))
        ⊎ (IsIn x (inorder shape) × (three.rbt_data x ≡ 6) × (x ≢ null)))
getexact-Ordered_example =
    getexact-Ordered (λ a. a) numbers 4 three 6 0 9 shape numbers-Ranks (λ e. omega (arith, e))
      three-IsTree three-Ordered (omega arith)

next_runs :
    (getnext 4 three 1 ≡ some 2) × (getnext 4 three 2 ≡ some 3) × (getnext 4 three 3 ≡ some null)
unfolding getnext climb leftmost
next_runs = (refl, refl, refl)

three-Apart : Apart three shape
three-Apart = (
  (λ i. elim (IsIn-head i) [ inl e ↦ omega (arith, e) | inr j ↦ elim j [ ] ]),
  ((λ i. elim i [ ]), tt, tt),
  ((λ i. elim i [ ]), tt, tt),
)

getnext-Before_example :
    (getnext 4 three 1 ≡ some 2) × ((xs : List Ptr) × (inorder shape ≡ xs ++ 1 ∷ 2 ∷ 3 ∷ []))
getnext-Before_example =
    getnext-Before 4 three 1 shape (2 ∷ 3 ∷ []) three-IsTree three-Apart
      (in_left (node leaf 1 leaf) (node leaf 3 leaf) 2 [] (at_root leaf leaf)) (omega arith)
