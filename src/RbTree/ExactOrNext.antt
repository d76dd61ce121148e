-- ===== src/RbTree/ExactOrNext.antt =====
-- `_std_rbtree_getexactornext` on a tree in the order of the ranks.
use opx_common_utils.Prelude.{
  ℕ, zero, suc, ◌+◌, ◌≤◌, ◌<◌, ◌≡◌, ◌≢◌, ◌⊎◌, inl, inr, refl, sym, subst, ap, ◌∙◌, arith, true,
  false, ◌==◌, Bool-cases, some,
}
use opx_common_utils.RbTree.{Ptr, null, Table, Compare, is_less, is_equal, climb}
use opx_common_utils.RbTree.Ceiling.{
  Ceiling, AllBelow, Ceiling-left, Ceiling-root, Below-right, Ceiling-right,
}
use opx_common_utils.RbTree.Holds.{Holds}
use opx_common_utils.RbTree.Nearest.{next_loop, getexactornext}
use opx_common_utils.RbTree.Shape.{Tree, leaf, node, IsTree, Ranks, inorder, size}
use opx_common_utils.RbTree.Sorted.{InOrder, InOrder-append}
use opx_common_utils.RbTree.Turn.{IsTree-place, IsIn-not_nil, IsIn-not_null, no_root}
use opx_common_utils.Tree.{
  IsIn, at_left, at_node, at_right, IsIn-Side, Side-IsIn, NoDup, Parts, NoDup-Parts,
}

module _ (rank : Ptr → ℕ) (t : Table) (compare : Compare) (ranks : Ranks compare rank)
    (k : Ptr) where
  -- The key of a node.
  abbrev at : Ptr → ℕ
  at q = rank (t.rbt_data q)

  climb_stops : (g : ℕ) (x y : Ptr) → 0 < g → x ≢ t.rbt_right y → climb g t x y ≡ some y
  unfolding climb
  climb_stops zero x y h n = absurd (omega (arith, h))
  climb_stops (suc g) x y h n = elim (Bool-cases (y == t.nil)) [
    | inl e ↦ rw e refl
    | inr e ↦ let other : (x == t.rbt_right y) ≡ false = ground arith in rw (e, other) refl
  ]

  climb_top : (g : ℕ) (x : Ptr) → 0 < g → climb g t x t.nil ≡ some t.nil
  unfolding climb
  climb_top zero x h = absurd (omega (arith, h))
  climb_top (suc g) x h = let self : (t.nil == t.nil) ≡ true = ground arith in rw self refl

  climb_on :
      (g : ℕ) (q : Ptr)
      → q ≢ t.nil
      → climb (suc g) t (t.rbt_right q) q ≡ climb g t q (t.rbt_parent q)
  unfolding climb
  climb_on g q n =
      let there : (q == t.nil) ≡ false = ground arith in
      let self : (t.rbt_right q == t.rbt_right q) ≡ true = ground arith in rw (there, self) refl

  climbs_on :
      (d : ℕ) (par p above q : Ptr)
      → p ≡ q
      → q ≢ t.nil
      → t.rbt_parent q ≡ par
      → ((g : ℕ) → d ≤ g → climb g t p par ≡ some above)
      → (g : ℕ) → suc d ≤ g
      → climb g t (t.rbt_right q) q ≡ some above
  climbs_on d par p above q e n pq climbs zero h = absurd (omega (arith, h))
  climbs_on d par p above q e n pq climbs (suc g) h =
      climb_on g q n
      ∙ ap (λ z. climb g t q z) pq
      ∙ ap (λ z. climb g t z par) (sym e)
      ∙ climbs g (omega (arith, h))

  sides :
      (l : Tree) (q : Ptr) (r : Tree)
      → IsTree t q (t.rbt_left q) l
      → IsTree t q (t.rbt_right q) r
      → Parts l q r
      → t.rbt_left q ≢ t.nil
      → t.rbt_left q ≢ t.rbt_right q
  sides l q r il ir parts n s = elim (IsTree-place t q (t.rbt_left q) l il) [
    | inl e ↦ n e
    | inr i ↦ elim (IsTree-place t q (t.rbt_right q) r ir) [
      | inl e ↦ n (s ∙ e)
      | inr j ↦ parts.apart (t.rbt_left q) i (subst (λ z. IsIn z (inorder r)) (sym s) j)
    ]
  ]

  next_loop-Ceiling :
      (fuel up d : ℕ) (par p above : Ptr) (tree : Tree)
      → IsTree t par p tree
      → p ≢ t.nil
      → NoDup (inorder tree)
      → InOrder at (inorder tree)
      → ((g : ℕ) → d ≤ g → climb g t p par ≡ some above)
      → size tree < fuel
      → d + size tree ≤ up
      → (x : Ptr) × (next_loop compare fuel up t k p ≡ some x)
        × (Ceiling at (rank k) (inorder tree) x
            ⊎ ((x ≡ above) × AllBelow at (rank k) (inorder tree)))
  unfolding next_loop
  next_loop-Ceiling zero up d par p above tree is np dup o climbs h hu = absurd (omega (arith, h))
  next_loop-Ceiling (suc fuel) up d par p above leaf is np dup o climbs h hu = absurd (np is)
  next_loop-Ceiling (suc fuel) up d par p above (node l q r) (e, n, n0, pq, il, ir) np dup o climbs
        h hu =
      let parts = NoDup-Parts l q r dup in
      let (ol, before, (behind, or)) = InOrder-append at (inorder l) (inorder r) q o in
      let there : (q == t.nil) ≡ false = ground arith in
      let here = Side-IsIn q l q r (at_node refl) in
      let start = ap (λ z. next_loop compare (suc fuel) up t k z) e in
      elim (Bool-cases (is_equal compare k (t.rbt_data q))) [
        | inl same ↦
            let eq : rank k ≡ at q =
              let t1 = sym (ranks.equal k (t.rbt_data q)) ∙ same in ground arith in
            (
              q,
              start ∙ rw (there, same) refl,
              inl (record {
                inside = here;
                at_least = omega (arith, eq);
                least = λ m i le. omega (arith, eq, le);
              }),
            )
        | inr differs ↦
            let ne : rank k ≢ at q =
              let t1 = sym (ranks.equal k (t.rbt_data q)) ∙ differs in ground arith in
            elim (Bool-cases (is_less compare k (t.rbt_data q))) [
              | inl less ↦
                  let lt : rank k < at q =
                    let t1 = sym (ranks.less k (t.rbt_data q)) ∙ less in ground arith in
                  elim (Bool-cases (t.rbt_left q == t.nil)) [
                    | inl none_left ↦ (
                      q,
                      start ∙ rw (there, differs, less, none_left) refl,
                      inl (record {
                        inside = here;
                        at_least = omega (arith, lt);
                        least = λ m i le. elim (IsIn-Side m l q r i) [
                          | at_left j ↦ absurd (no_root t q (t.rbt_left q) m l il j (ground arith))
                          | at_node s ↦ subst (λ z. at q ≤ at z) (sym s) (omega arith)
                          | at_right j ↦ behind m j
                        ];
                      }),
                    )
                    | inr child ↦
                        let cn : t.rbt_left q ≢ t.nil = ground arith in
                        let (x, run, found) =
                          next_loop-Ceiling fuel up 1 q (t.rbt_left q) q l il cn parts.in_left ol
                            (λ g hg.
                              climb_stops g (t.rbt_left q) q (omega (arith, hg))
                                (sides l q r il ir parts cn))
                            (omega (arith, h)) (omega (arith, hu)) in
                        (
                          x,
                          start ∙ rw (there, differs, less, child) run,
                          inl (elim found [
                            | inl c ↦ Ceiling-left at (rank k) l q r x lt before behind c
                            | inr (s, low) ↦
                                subst (λ z. Ceiling at (rank k) (inorder (node l q r)) z) (sym s)
                                  (Ceiling-root at (rank k) l q r lt behind low)
                          ]),
                        )
                  ]
              | inr more ↦
                  let gt : at q < rank k =
                    let t1 = sym (ranks.less k (t.rbt_data q)) ∙ more in ground (arith, ne) in
                  elim (Bool-cases (t.rbt_right q == t.nil)) [
                    | inl none_right ↦ (
                      above,
                      start
                          ∙ rw (there, differs, more, none_right)
                              (ap (λ z. climb up t q z) pq
                                ∙ ap (λ z. climb up t z par) (sym e)
                                ∙ climbs up (omega (arith, hu))),
                      inr (
                        refl,
                        λ m i. elim (IsIn-Side m l q r i) [
                          | at_left j ↦ let le = before m j in omega (arith, le, gt)
                          | at_node s ↦ subst (λ z. at z < rank k) (sym s) gt
                          | at_right j ↦
                              absurd (no_root t q (t.rbt_right q) m r ir j (ground arith))
                        ],
                      ),
                    )
                    | inr child ↦
                        let (x, run, found) =
                          next_loop-Ceiling fuel up (suc d) q (t.rbt_right q) above r ir
                            (ground arith) parts.in_right or
                            (climbs_on d par p above q e n pq climbs) (omega (arith, h))
                            (omega (arith, hu)) in
                        (
                          x,
                          start ∙ rw (there, differs, more, child) run,
                          elim found [
                            | inl c ↦ inl (Ceiling-right at (rank k) l q r x gt before c)
                            | inr (s, low) ↦ inr (s, Below-right at (rank k) l q r gt before low)
                          ],
                        )
                  ]
            ]
      ]

next_loop_nil :
    (compare : Compare) (fuel up : ℕ) (t : Table) (k x : Ptr)
    → (x == t.nil) ≡ true
    → 0 < fuel
    → next_loop compare fuel up t k x ≡ some x
unfolding next_loop
next_loop_nil compare zero up t k x e h = absurd (omega (arith, h))
next_loop_nil compare (suc fuel) up t k x e h = rw e refl

-- In a tree in the order of a rank, under a comparison that is this order, with fuel for more rounds than
-- there are nodes, and for a key that is not NULL, `_std_rbtree_getexactornext` returns a node with the
-- least rank that is at least that of the key, and NULL where all nodes have a lower rank.
pub getexactornext-Ceiling :
    (rank : Ptr → ℕ) (compare : Compare) (fuel : ℕ) (t : Table) (k : Ptr) (tree : Tree)
    → Ranks compare rank
    → Holds t tree
    → InOrder (λ q. rank (t.rbt_data q)) (inorder tree)
    → k ≢ null
    → size tree < fuel
    → (x : Ptr) × (getexactornext compare fuel t k ≡ some x)
      × (((x ≢ null) × Ceiling (λ q. rank (t.rbt_data q)) (rank k) (inorder tree) x)
          ⊎ ((x ≡ null) × AllBelow (λ q. rank (t.rbt_data q)) (rank k) (inorder tree)))
unfolding getexactornext
getexactornext-Ceiling rank compare fuel t k tree ranks holds o nk h =
    let given : (k == null) ≡ false = ground arith in
    elim (Bool-cases (t.rbtt_root == t.nil)) [
      | inl bare ↦ (
        null,
        rw (given, next_loop_nil compare fuel fuel t k t.rbtt_root bare (omega (arith, h)), bare)
            refl,
        inr (refl, λ m i. absurd (no_root t t.nil t.rbtt_root m tree holds.is i (ground arith))),
      )
      | inr root ↦
          let (x, run, found) =
            next_loop-Ceiling rank t compare ranks k fuel fuel 1 t.nil t.rbtt_root t.nil tree
              holds.is (ground arith) holds.once o
              (λ g hg. climb_top rank t compare ranks k g t.rbtt_root (omega (arith, hg))) h
              (omega (arith, h)) in
          elim found [
            | inl c ↦
                let xn = IsIn-not_nil t t.nil t.rbtt_root x tree holds.is c.inside in
                let there : (x == t.nil) ≡ false = ground arith in
                (
                  x,
                  rw (given, run, there) refl,
                  inl (IsIn-not_null t t.nil t.rbtt_root x tree holds.is c.inside, c),
                )
            | inr (gone, low) ↦
                let nil_x : (x == t.nil) ≡ true = ground arith in
                (null, rw (given, run, nil_x) refl, inr (refl, low))
          ]
    ]
