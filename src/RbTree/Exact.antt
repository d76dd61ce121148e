-- ===== src/RbTree/Exact.antt =====
-- `_std_rbtree_getexact` on an ordered tree.
use opx_common_utils.Prelude.{
  ℕ, zero, suc, ◌<◌, ◌≡◌, ◌≢◌, ◌⊎◌, inl, inr, refl, ap, sym, subst, ◌∙◌, true, false, some, List,
  [], ◌∷◌, ◌++◌, arith, ◌==◌, ltb, Bool-cases,
}
pub use opx_common_utils.Tree.{IsIn, here, there, IsIn-left, IsIn-right}
use opx_common_utils.RbTree.{Ptr, null, Table, Compare, exact_loop, getexact}
use opx_common_utils.RbTree.Shape.{Tree, leaf, node, IsTree, inorder, size, Ranks, Ordered}

-- No node has the rank.
abbrev pub Absent : (Ptr → ℕ) → Table → ℕ → List Ptr → Type 0
Absent rank t k [] = Unit
Absent rank t k (x ∷ xs) = (rank (t.rbt_data x) ≢ k) × Absent rank t k xs

module _ (rank : Ptr → ℕ) (t : Table) where
  Absent-append :
      (k : ℕ) (xs ys : List Ptr)
      → Absent rank t k xs
      → Absent rank t k ys
      → Absent rank t k (xs ++ ys)
  Absent-append k [] ys a b = b
  Absent-append k (x ∷ xs) ys (n, a) b = (n, Absent-append k xs ys a b)

  -- A rank outside of the bounds of a tree is in none of its nodes.
  Absent-outside :
      (lo hi k : ℕ) (tree : Tree)
      → Ordered rank t lo hi tree
      → (k < lo) ⊎ (hi < k)
      → Absent rank t k (inorder tree)
  Absent-outside lo hi k leaf o h = tt
  Absent-outside lo hi k (node l q r) (a, b, ol, or) h =
      let m = rank (t.rbt_data q) in
      Absent-append k (inorder l) (q ∷ inorder r)
        (Absent-outside lo m k l ol (omega (arith, h, a, b)))
        ((λ e. omega (arith, e, h, a, b)), Absent-outside m hi k r or (omega (arith, h, a, b)))

  module _ (compare : Compare) (ranks : Ranks compare rank) (key : Ptr) where
    -- What the loop stops at: `NIL` where no node has the rank of the key, and a node that has it.
    abbrev Looked : List Ptr → Ptr → Type 0
    Looked xs x =
        ((x ≡ t.nil) × Absent rank t (rank key) xs)
        ⊎ (IsIn x xs × (rank (t.rbt_data x) ≡ rank key) × (x ≢ t.nil) × (x ≢ null))

    exact_loop-Looked :
        (fuel : ℕ) (par p : Ptr) (lo hi : ℕ) (tree : Tree)
        → IsTree t par p tree
        → Ordered rank t lo hi tree
        → size tree < fuel
        → (x : Ptr) × (exact_loop compare fuel t key p ≡ some x) × Looked (inorder tree) x
    unfolding exact_loop
    exact_loop-Looked zero par p lo hi tree is o h = absurd (omega arith)
    exact_loop-Looked (suc fuel) par p lo hi leaf is o h =
        let end : (p == t.nil) ≡ true = ground arith in (p, rw end refl, inl (is, tt))
    exact_loop-Looked (suc fuel) par p lo hi (node l q r) (e, nq, nn, pq, il, ir) (a, b, ol, or) h =
        let m = rank (t.rbt_data q) in
        let same : rank (t.rbt_data p) ≡ m = ap (λ x. rank (t.rbt_data x)) e in
        let inside : (p == t.nil) ≡ false = ground arith in
        let equal = ranks.equal key (t.rbt_data p) in
        let less = ranks.less key (t.rbt_data p) in
        elim (Bool-cases (rank key == rank (t.rbt_data p))) [
          | inl hit ↦ (
            p,
            rw (inside, equal, hit) refl,
            inr (
              subst (λ x. IsIn x (inorder (node l q r))) (sym e)
                  (IsIn-right (inorder l) (q ∷ inorder r) (here (inorder r))),
              ground arith,
              (λ z. nq (sym e ∙ z)),
              (λ z. nn (sym e ∙ z)),
            ),
          )
          | inr miss ↦ elim (Bool-cases (ltb (rank key) (rank (t.rbt_data p)))) [
            | inl low ↦
                let (x, run, looked) =
                  exact_loop-Looked fuel q (t.rbt_left q) lo m l il ol (omega arith) in
                let next = ap (λ y. exact_loop compare fuel t key (t.rbt_left y)) e in
                (
                  x,
                  rw (inside, equal, miss, less, low) (next ∙ run),
                  elim looked [
                    | inl (z, absent) ↦ inl (
                      z,
                      Absent-append (rank key) (inorder l) (q ∷ inorder r) absent (
                        (λ y. ground arith),
                        Absent-outside m hi (rank key) r or (inl (ground arith)),
                      ),
                    )
                    | inr (i, k, n, n0) ↦ inr (IsIn-left (inorder l) (q ∷ inorder r) i, k, n, n0)
                  ],
                )
            | inr high ↦
                let (x, run, looked) =
                  exact_loop-Looked fuel q (t.rbt_right q) m hi r ir or (omega arith) in
                let next = ap (λ y. exact_loop compare fuel t key (t.rbt_right y)) e in
                (
                  x,
                  rw (inside, equal, miss, less, high) (next ∙ run),
                  elim looked [
                    | inl (z, absent) ↦ inl (
                      z,
                      Absent-append (rank key) (inorder l) (q ∷ inorder r)
                          (Absent-outside lo m (rank key) l ol (inr (ground arith)))
                          ((λ y. ground arith), absent),
                    )
                    | inr (i, k, n, n0) ↦
                        inr
                          (IsIn-right (inorder l) (q ∷ inorder r) (there q (inorder r) i), k, n, n0)
                  ],
                )
          ]
        ]

-- In an ordered tree, under a comparison that is the order of a rank, with fuel for more rounds than
-- there are nodes, and for a key that is not NULL, `_std_rbtree_getexact` returns a node of the tree
-- with the rank of the key, and NULL where no node has that rank.
pub getexact-Ordered :
    (rank : Ptr → ℕ) (compare : Compare) (fuel : ℕ) (t : Table) (key lo hi : ℕ) (tree : Tree)
    → Ranks compare rank
    → key ≢ null
    → IsTree t (t.nil) (t.rbtt_root) tree
    → Ordered rank t lo hi tree
    → size tree < fuel
    → (x : Ptr) × (getexact compare fuel t key ≡ some x)
      × (((x ≡ null) × Absent rank t (rank key) (inorder tree))
          ⊎ (IsIn x (inorder tree) × (rank (t.rbt_data x) ≡ rank key) × (x ≢ null)))
unfolding getexact
getexact-Ordered rank compare fuel t key lo hi tree ranks nk is o h =
    let (x, run, looked) =
      exact_loop-Looked rank t compare ranks key fuel (t.nil) (t.rbtt_root) lo hi tree is o h in
    let given : (key == null) ≡ false = ground arith in
    elim looked [
      | inl (z, absent) ↦
          let none_there : (x == t.nil) ≡ true = ground arith in
          (null, rw (given, run, none_there) refl, inl (refl, absent))
      | inr (i, k, n, n0) ↦
          let there_is : (x == t.nil) ≡ false = ground arith in
          (x, rw (given, run, there_is) refl, inr (i, k, n0))
    ]
