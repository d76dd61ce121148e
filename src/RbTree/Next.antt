-- ===== src/RbTree/Next.antt =====
-- `_std_rbtree_getnext` on a tree.
use mathlib.Core.List.{append_assoc}
use opx_common_utils.Prelude.{
  ℕ, zero, suc, ◌+◌, ◌≤◌, ◌<◌, ◌≡◌, ◌≢◌, inl, inr, refl, ap, ap₂, sym, subst, ◌∙◌, Bool, true,
  false, Option, some, List, [], ◌∷◌, ◌++◌, arith, ◌==◌, if◌then◌else◌, not, ◌&&◌,
}
pub use opx_common_utils.Tree.{IsIn-cases, IsIn-head}
use opx_common_utils.RbTree.{Ptr, null, Table, leftmost, climb, getnext, or_null}
use opx_common_utils.RbTree.Shape.{Tree, leaf, node, IsTree, inorder, size}
use opx_common_utils.RbTree.First.{first_or_null, leftmost_lem}
use opx_common_utils.RbTree.Exact.{IsIn, here, there, IsIn-right}

-- The left child of a node is none of the nodes on the node's right.
abbrev pub Apart : Table → Tree → Type 0
Apart t leaf = Unit
Apart t (node l q r) = (IsIn (t.rbt_left q) (inorder r) → ⊥) × Apart t l × Apart t r

-- `x` is a node of the tree, and `ys` are the nodes behind it in order.
pub data Before (x : Ptr) : Tree → List Ptr → Type 0 where
  at_root : (l r : Tree) → Before x (node l x r) (inorder r)
  in_left :
      (l r : Tree) (q : Ptr) (ys : List Ptr)
      → Before x l ys
      → Before x (node l q r) (ys ++ q ∷ inorder r)
  in_right : (l r : Tree) (q : Ptr) (ys : List Ptr) → Before x r ys → Before x (node l q r) ys

-- The nodes in order are some, `x`, and those behind it.
Before-inorder :
    {x : Ptr} (tree : Tree) (ys : List Ptr)
    → Before x tree ys
    → (xs : List Ptr) × (inorder tree ≡ xs ++ x ∷ ys)
Before-inorder _ _ (at_root l r) = (inorder l, refl)
Before-inorder {x} _ _ (in_left l r q ys b) =
    let (xs, e) = Before-inorder l ys b in
    (xs, ap (λ zs. zs ++ q ∷ inorder r) e ∙ append_assoc xs (x ∷ ys) (q ∷ inorder r))
Before-inorder {x} _ _ (in_right l r q ys b) =
    let (xs, e) = Before-inorder r ys b in
    (
      inorder l ++ q ∷ xs,
      ap (λ zs. inorder l ++ q ∷ zs) e ∙ sym (append_assoc (inorder l) (q ∷ xs) (x ∷ ys)),
    )

and_false : (b : Bool) → (b && false) ≡ false
and_false true = refl
and_false false = refl

abbrev first_or : Ptr → List Ptr → Ptr
first_or d [] = d
first_or d (x ∷ xs) = x

first_or-middle :
    (d : Ptr) (xs : List Ptr) (q : Ptr) (ys : List Ptr) → first_or d (xs ++ q ∷ ys) ≡ first_or q xs
first_or-middle d [] q ys = refl
first_or-middle d (x ∷ xs) q ys = refl

first_or_null-middle :
    (d : Ptr) (xs : List Ptr) (q : Ptr) (ys : List Ptr)
    → first_or_null (xs ++ q ∷ ys) ≡ first_or d (xs ++ q ∷ ys)
first_or_null-middle d [] q ys = refl
first_or_null-middle d (x ∷ xs) q ys = refl

-- The node that the two loops find.
abbrev next_node : ℕ → Table → Ptr → Option Ptr
next_node fuel t x =
    if t.rbt_right x == t.nil
    then climb fuel t x (t.rbt_parent x)
    else leftmost fuel t (t.rbt_right x)

left-ne-right :
    (t : Table) (q q1 : Ptr) (l1 r1 r : Tree)
    → IsTree t q (t.rbt_left q) (node l1 q1 r1)
    → IsTree t q (t.rbt_right q) r
    → (IsIn (t.rbt_left q) (inorder r) → ⊥)
    → t.rbt_left q ≢ t.rbt_right q
left-ne-right t q q1 l1 r1 leaf (e, n, n0, pq, il, ir1) ir apart same = n (sym e ∙ same ∙ ir)
left-ne-right t q q1 l1 r1 (node l2 q2 r2) is ir apart same = apart (
    subst (λ z. IsIn z (inorder (node l2 q2 r2))) (sym (same ∙ ir.0))
      (IsIn-right (inorder l2) (q2 ∷ inorder r2) (here (inorder r2))))

-- Going up from a right child goes on at its parent.
climb-right :
    (t : Table) (q : Ptr) (d : ℕ) (end : Ptr) (f : ℕ)
    → q ≢ t.nil
    → ((g : ℕ) → d ≤ g → climb g t q (t.rbt_parent q) ≡ some end)
    → d + 1 ≤ f
    → climb f t (t.rbt_right q) q ≡ some end
unfolding climb
climb-right t q d end zero nq up k = absurd (omega arith)
climb-right t q d end (suc g) nq up k =
    let inside : (q == t.nil) ≡ false = ground arith in
    let self : (t.rbt_right q == t.rbt_right q) ≡ true = ground arith in
    rw (inside, self) (up g (omega arith))

-- Going up from a left child stops at its parent.
climb-left : (t : Table) (z q : Ptr) (f : ℕ) → z ≢ t.rbt_right q → 1 ≤ f → climb f t z q ≡ some q
unfolding climb
climb-left t z q zero n k = absurd (omega arith)
climb-left t z q (suc g) n k =
    let other : (z == t.rbt_right q) ≡ false = ground arith in
    rw (other, and_false (not (q == t.nil))) refl

climb-top : (t : Table) (p : Ptr) (f : ℕ) → 1 ≤ f → climb f t p (t.nil) ≡ some (t.nil)
unfolding climb
climb-top t p zero k = absurd (omega arith)
climb-top t p (suc g) k = let top : (t.nil == t.nil) ≡ true = ground arith in rw top refl

-- Where going up from the subtree ends at `end`, the node behind `x` is the first one behind it in the
-- subtree, and `end` where there is none.
next_node_lem :
    (t : Table) (fuel : ℕ) (x : Ptr) (d : ℕ) (par p end : Ptr) (tree : Tree) (ys : List Ptr)
    → Before x tree ys
    → IsTree t par p tree
    → Apart t tree
    → ((f : ℕ) → d ≤ f → climb f t p par ≡ some end)
    → d + size tree ≤ fuel
    → next_node fuel t x ≡ some (first_or end ys)
next_node_lem t fuel x d par p end _ _ (at_root l leaf) (e, nq, nn, pq, il, ir) a up h =
    let none_right : (t.rbt_right x == t.nil) ≡ true = ground arith in
    rw none_right (ap₂ (climb fuel t) (sym e) pq ∙ up fuel (omega arith))
next_node_lem t fuel x d par p end _ _ (at_root l (node l1 q1 r1)) (e, nq, nn, pq, il, ir) a up h =
    let some_right : (t.rbt_right x == t.nil) ≡ false = ground (arith, ir.0, ir.1) in
    let (run, inside) = leftmost_lem fuel t x (t.rbt_right x) l1 q1 r1 ir (omega arith) in
    rw some_right (run ∙ ap some (first_or_null-middle end (inorder l1) q1 (inorder r1)))
next_node_lem t fuel x d par p end _ _ (in_right l r q ys b) (e, nq, nn, pq, il, ir) (a, al, ar) up
      h =
    let up_here = λ (g : ℕ) (k : d ≤ g). ap₂ (climb g t) (sym e) pq ∙ up g k in
    next_node_lem t fuel x (d + 1) q (t.rbt_right q) end r ys b ir ar
      (λ f k. climb-right t q d end f nq up_here k) (omega arith)
next_node_lem t fuel x d par p end _ _ (in_left leaf r q ys b) is a up h = elim b [ ]
next_node_lem t fuel x d par p end _ _ (in_left (node l1 q1 r1) r q ys b) (e, nq, nn, pq, il, ir)
      (a, al, ar) up h =
    let differs = left-ne-right t q q1 l1 r1 r il ir a in
    next_node_lem t fuel x 1 q (t.rbt_left q) q (node l1 q1 r1) ys b il al
      (λ f k. climb-left t (t.rbt_left q) q f differs k) (omega arith)
    ∙ ap some (sym (first_or-middle end ys q (inorder r)))

-- A node of a tree is neither `NIL` nor NULL.
IsIn-IsTree :
    (t : Table) (par p x : Ptr) (tree : Tree)
    → IsTree t par p tree
    → IsIn x (inorder tree)
    → (x ≢ t.nil) × (x ≢ null)
IsIn-IsTree t par p x leaf is i = elim i [ ]
IsIn-IsTree t par p x (node l q r) (e, nq, nn, pq, il, ir) i =
    elim (IsIn-cases x (inorder l) (q ∷ inorder r) i) [
      | inl a ↦ IsIn-IsTree t q (t.rbt_left q) x l il a
      | inr b ↦ elim (IsIn-head b) [
        | inl same ↦ ((λ z. nq (sym same ∙ z)), (λ z. nn (sym same ∙ z)))
        | inr c ↦ IsIn-IsTree t q (t.rbt_right q) x r ir c
      ]
    ]

-- `NIL` for no node is what is returned as NULL.
or_null-first_or :
    (t : Table) (ys : List Ptr)
    → ((y : Ptr) → IsIn y ys → y ≢ t.nil)
    → or_null t (some (first_or (t.nil) ys)) ≡ some (first_or_null ys)
or_null-first_or t [] h = let end : (t.nil == t.nil) ≡ true = ground arith in rw end refl
or_null-first_or t (y ∷ ys) h =
    let n = h y (here ys) in let inside : (y == t.nil) ≡ false = ground arith in rw inside refl

-- In a tree whose nodes are not shared between the two sides of a node, with a round for each node and
-- one more, `_std_rbtree_getnext` of a node returns the first node behind it in order, or NULL at the
-- last node.
pub getnext-Before :
    (fuel : ℕ) (t : Table) (x : Ptr) (tree : Tree) (ys : List Ptr)
    → IsTree t (t.nil) (t.rbtt_root) tree
    → Apart t tree
    → Before x tree ys
    → size tree < fuel
    → (getnext fuel t x ≡ some (first_or_null ys))
      × ((xs : List Ptr) × (inorder tree ≡ xs ++ x ∷ ys))
unfolding getnext
getnext-Before fuel t x tree ys is apart b h =
    let (xs, e) = Before-inorder tree ys b in
    let proper = λ (y : Ptr) (i : IsIn y (x ∷ ys)).
      IsIn-IsTree t (t.nil) (t.rbtt_root) y tree is
        (subst (IsIn y) (sym e) (IsIn-right xs (x ∷ ys) i)) in
    let nx = (proper x (here ys)).1 in
    let given : (x == null) ≡ false = ground arith in
    let run =
      next_node_lem t fuel x 1 (t.nil) (t.rbtt_root) (t.nil) tree ys b is apart
        (climb-top t (t.rbtt_root)) (omega arith) in
    (
      rw given (ap (or_null t) run ∙ or_null-first_or t ys (λ y i. (proper y (there x ys i)).0)),
      (xs, e),
    )
