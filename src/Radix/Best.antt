-- ===== src/Radix/Best.antt =====
-- `std_radix_getbest`: the longest of the prefixes in the tree that match an address.
use opx_common_utils.Prelude.{
  ℕ, zero, suc, ◌+◌, ◌≤◌, ◌<◌, ◌≡◌, ◌≢◌, ◌⊎◌, inl, inr, refl, sym, subst, ap, ◌∙◌, arith, true,
  false, ◌==◌, if◌then◌else◌, some, List,
}
use opx_common_utils.BitMask.{Bytes, IsBytes}
use opx_common_utils.Tree.{
  Tree, leaf, node, inorder, size, IsIn, at_left, at_node, at_right, IsIn-Side, Side-IsIn,
}
use opx_common_utils.Radix.{
  Ptr, null, Table, descend, backtrack, best_node, converted, refused, is_deleted, getbest,
}
use opx_common_utils.Radix.Shape.{
  IsTrie, Branches, KeysAreBytes, Matches, bit-above, other_side, Passed, stops, goes_on,
  backtrack-Passed, IsIn-IsTrie, no_nodes,
}
use opx_common_utils.Radix.Descend.{long, no_right, no_left, to_right, to_left, descend-Went}

module _ (t : Table) (a : Bytes) (bitlen : ℕ) where
  -- No node of these matches.
  abbrev pub NoMatch : List Ptr → Type 0
  NoMatch nodes = (m : Ptr) → IsIn m nodes → Matches t a bitlen m → ⊥

  -- `x` is the node of these with the longest prefix that matches.
  pub record Longest (nodes : List Ptr) (x : Ptr) : Type 0 where
    pub inside : IsIn x nodes
    pub matching : Matches t a bitlen x
    pub longest : (m : Ptr) → IsIn m nodes → Matches t a bitlen m → t.rtn_bit m ≤ t.rtn_bit x

  -- Either that, or none matches and `x` is what is found above.
  abbrev Found : List Ptr → (above x : Ptr) → Type 0
  Found nodes above x = Longest nodes x ⊎ (NoMatch nodes × (x ≡ above))

  -- What the way up from `q` finds.
  abbrev Chosen : (q above x : Ptr) → Type 0
  Chosen q above x = (Matches t a bitlen q × (x ≡ q)) ⊎ ((Matches t a bitlen q → ⊥) × (x ≡ above))

  module _ (bytes : KeysAreBytes t) (ba : IsBytes a) where
    way_up :
        (d : ℕ) (q above : Ptr)
        → Passed t a bitlen bytes ba q
        → ((f : ℕ) → d ≤ f → backtrack f t a bitlen (t.rtn_parent q) ≡ some above)
        → (x : Ptr) × ((f : ℕ) → d + 1 ≤ f → backtrack f t a bitlen q ≡ some x) × Chosen q above x
    way_up d q above (stops m run) up = (q, at, inl (m, refl))
      where
        at : (f : ℕ) → d + 1 ≤ f → backtrack f t a bitlen q ≡ some q
        at zero k = absurd (omega arith)
        at (suc f) k = run f
    way_up d q above (goes_on n run) up = (above, at, inr (n, refl))
      where
        at : (f : ℕ) → d + 1 ≤ f → backtrack f t a bitlen q ≡ some above
        at zero k = absurd (omega arith)
        at (suc f) k = run f ∙ up f (omega arith)

  -- Where nothing below `q` matches, what is found is what the way up from `q` finds.
  Chosen-Found :
      (l : Tree) (q : Ptr) (r : Tree) (above x : Ptr)
      → NoMatch (inorder l)
      → NoMatch (inorder r)
      → Chosen q above x
      → Found (inorder (node l q r)) above x
  Chosen-Found l q r above x nl nr (inl (m, e)) = inl (
      subst (Longest (inorder (node l q r))) (sym e) (record {
        inside = Side-IsIn q l q r (at_node refl);
        matching = m;
        longest = λ n i mn. elim (IsIn-Side n l q r i) [
          | at_left y ↦ absurd (nl n y mn)
          | at_node y ↦ omega (arith, ap (t.rtn_bit) y)
          | at_right y ↦ absurd (nr n y mn)
        ];
      }))
  Chosen-Found l q r above x nl nr (inr (misses, e)) = inr (
    (λ n i mn. elim (IsIn-Side n l q r i) [
      | at_left y ↦ nl n y mn
      | at_node y ↦ misses (subst (Matches t a bitlen) y mn)
      | at_right y ↦ nr n y mn
    ]),
    e,
  )

  -- What is found below on the one side, where nothing on the other side matches, is found below `q`.
  Found-side :
      (l : Tree) (q : Ptr) (r : Tree) (above x y : Ptr) (sub : Tree)
      → Branches t (t.rtn_bit q + 1) sub
      → ((m : Ptr) → IsIn m (inorder sub) → IsIn m (inorder (node l q r)))
      → ((m : Ptr)
          → IsIn m (inorder (node l q r))
          → Matches t a bitlen m
          → (m ≡ q) ⊎ IsIn m (inorder sub))
      → Chosen q above y
      → Found (inorder sub) y x
      → Found (inorder (node l q r)) above x
  Found-side l q r above x y sub b below rest c (inl best) = inl (record {
    inside = below x best.inside;
    matching = best.matching;
    longest = λ m i mm. elim (rest m i mm) [
      | inl e ↦ omega (arith, ap (t.rtn_bit) e, bit-above t (t.rtn_bit q + 1) sub x b best.inside)
      | inr j ↦ best.longest m j mm
    ];
  })
  Found-side l q r above x y sub b below rest (inl (m, e)) (inr (miss, ex)) = inl (
      subst (Longest (inorder (node l q r))) (sym (ex ∙ e)) (record {
        inside = Side-IsIn q l q r (at_node refl);
        matching = m;
        longest = λ n i mn. elim (rest n i mn) [
          | inl same ↦ omega (arith, ap (t.rtn_bit) same)
          | inr j ↦ absurd (miss n j mn)
        ];
      }))
  Found-side l q r above x y sub b below rest (inr (misses, e)) (inr (miss, ex)) = inr (
    (λ n i mn. elim (rest n i mn) [
      | inl same ↦ misses (subst (Matches t a bitlen) same mn)
      | inr j ↦ miss n j mn
    ]),
    ex ∙ e,
  )

  too_long :
      (q : Ptr) (sub : Tree)
      → bitlen ≤ t.rtn_bit q
      → Branches t (t.rtn_bit q + 1) sub
      → NoMatch (inorder sub)
  too_long q sub fits b m i mm = omega (arith, bit-above t (t.rtn_bit q + 1) sub m b i, mm.1)

  backtrack-null : (g : ℕ) → 1 ≤ g → backtrack g t a bitlen null ≡ some null
  unfolding backtrack
  backtrack-null zero k = absurd (omega arith)
  backtrack-null (suc g) k = refl

  module _ (bytes : KeysAreBytes t) (ba : IsBytes a) where
    -- Down from `p`, and then up again.
    search-Found :
        (fuel f : ℕ) (tree : Tree) (d : ℕ) (par p lo above : Ptr)
        → IsTrie t par p tree
        → p ≢ null
        → Branches t lo tree
        → ((g : ℕ) → d ≤ g → backtrack g t a bitlen par ≡ some above)
        → size tree ≤ f
        → d + size tree ≤ fuel
        → (low x : Ptr) × (descend f t a bitlen p ≡ some low)
          × (backtrack fuel t a bitlen low ≡ some x)
          × Found (inorder tree) above x
    search-Found fuel f leaf d par p lo above is np b up hf h = absurd (np is)
    search-Found fuel zero (node l q r) d par p lo above is np b up hf h = absurd (omega arith)
    search-Found fuel (suc f) (node l q r) d par p lo above (e, nq, pq, tb, il, ir) np
          (lq, kl, kr, bl, br) up hf h =
        let up_here = λ (g : ℕ) (k : d ≤ g). ap (backtrack g t a bitlen) pq ∙ up g k in
        let (y, turn, chosen) =
          way_up bytes ba d q above (backtrack-Passed t a bitlen bytes ba q nq tb) up_here in
        let here = ap (descend (suc f) t a bitlen) e in
        elim (descend-Went t a bitlen q nq tb) [
          | long fits run ↦ (
            q,
            y,
            here ∙ run f,
            turn fuel (omega arith),
            Chosen-Found l q r above y (too_long q l fits bl) (too_long q r fits br) chosen,
          )
          | no_right one end run ↦ (
            q,
            y,
            here ∙ run f,
            turn fuel (omega arith),
            Chosen-Found l q r above y
                (other_side t a bitlen (t.rtn_bit q) 0 l bl kl (λ z. omega (arith, z, one)))
                (λ m i mm. no_nodes t q (t.rtn_right q) r ir end m i) chosen,
          )
          | no_left other end run ↦ (
            q,
            y,
            here ∙ run f,
            turn fuel (omega arith),
            Chosen-Found l q r above y (λ m i mm. no_nodes t q (t.rtn_left q) l il end m i)
                (other_side t a bitlen (t.rtn_bit q) 1 r br kr other) chosen,
          )
          | to_right one child shorter run ↦
              let (low, x, down, back, found) =
                search-Found fuel f r (d + 1) q (t.rtn_right q) (t.rtn_bit q + 1) y ir child br turn
                  (omega arith) (omega arith) in
              let none_left =
                other_side t a bitlen (t.rtn_bit q) 0 l bl kl (λ z. omega (arith, z, one)) in
              (
                low,
                x,
                here ∙ run f ∙ down,
                back,
                Found-side l q r above x y r br (λ m i. Side-IsIn m l q r (at_right i))
                    (λ m i mm. elim (IsIn-Side m l q r i) [
                      | at_left j ↦ absurd (none_left m j mm)
                      | at_node same ↦ inl same
                      | at_right j ↦ inr j
                    ])
                    chosen found,
              )
          | to_left other child shorter run ↦
              let (low, x, down, back, found) =
                search-Found fuel f l (d + 1) q (t.rtn_left q) (t.rtn_bit q + 1) y il child bl turn
                  (omega arith) (omega arith) in
              let none_right = other_side t a bitlen (t.rtn_bit q) 1 r br kr other in
              (
                low,
                x,
                here ∙ run f ∙ down,
                back,
                Found-side l q r above x y l bl (λ m i. Side-IsIn m l q r (at_left i))
                    (λ m i mm. elim (IsIn-Side m l q r i) [
                      | at_left j ↦ inr j
                      | at_node same ↦ inl same
                      | at_right j ↦ absurd (none_right m j mm)
                    ])
                    chosen found,
              )
        ]

  -- Down from the root, and up again to a match or to NULL.
  best_node-Found :
      (fuel : ℕ) (tree : Tree)
      → KeysAreBytes t
      → IsBytes a
      → IsTrie t null t.rtt_root tree
      → t.rtt_root ≢ null
      → Branches t 0 tree
      → size tree < fuel
      → (x : Ptr) × (best_node fuel t a bitlen ≡ some x) × Found (inorder tree) null x
  unfolding best_node
  best_node-Found fuel tree bytes ba is nr b h =
      let (low, x, down, back, found) =
        search-Found bytes ba fuel fuel tree 1 null t.rtt_root 0 null is nr b backtrack-null
          (omega arith) (omega arith) in
      (x, rw (best_node, down) back, found)

-- For keys and an address that are bytes, in a tree that the keys' bits order, with fuel for more
-- rounds than there are nodes, `std_radix_getbest` of an address of a length that it accepts returns
-- the head of the node with the longest prefix that matches the address, or NULL if that node is marked
-- as deleted, and NULL where no prefix matches.
pub getbest-Longest :
    (fuel : ℕ) (t : Table) (addr : Bytes) (bitlen : ℕ) (tree : Tree)
    → KeysAreBytes t
    → IsBytes (converted t addr)
    → IsTrie t null t.rtt_root tree
    → Branches t 0 tree
    → size tree < fuel
    → refused t bitlen ≡ false
    → ((x : Ptr) × Longest t (converted t addr) bitlen (inorder tree) x
        × (getbest fuel t (some addr) bitlen ≡ some (if is_deleted t x then null else t.rtn_rth x)))
      ⊎ (NoMatch t (converted t addr) bitlen (inorder tree)
          × (getbest fuel t (some addr) bitlen ≡ some null))
unfolding getbest
getbest-Longest fuel t addr bitlen leaf bytes ba is b h ok =
    let empty : (t.rtt_root == null) ≡ true = ground arith in
    inr ((λ m i mm. elim i [ ]), rw (ok, empty) refl)
getbest-Longest fuel t addr bitlen (node l q r) bytes ba is b h ok =
    let nr : t.rtt_root ≢ null = λ z. is.1 (sym is.0 ∙ z) in
    let full : (t.rtt_root == null) ≡ false = ground arith in
    let (x, run, found) =
      best_node-Found t (converted t addr) bitlen fuel (node l q r) bytes ba is nr b h in
    elim found [
      | inl best ↦
          let there : (x == null) ≡ false =
            ground (arith, IsIn-IsTrie t null t.rtt_root x (node l q r) is best.inside) in
          inl (x, best, rw (ok, full, run, there) refl)
      | inr (miss, e) ↦
          let gone : (x == null) ≡ true = ground arith in inr (miss, rw (ok, full, run, gone) refl)
    ]
