-- ===== src/Radix/InsertExamples.antt =====
-- Insertions into the tree of three prefixes, and the theorems at them.
use opx_common_utils.Prelude.{
  ℕ, ◌+◌, ◌-◌, ◌/◌, ◌%◌, ◌<◌, ◌≤◌, ◌≡◌, ◌≢◌, ◌⊎◌, inl, inr, refl, sym, subst, true, none, some,
  List, [], ◌∷◌, arith, Option, ap, ◌∙◌,
}
use opx_common_utils.Ip.{memcmp}
use opx_common_utils.Bits.{bit}
use opx_common_utils.Tree.{leaf, node, inorder, IsIn, IsIn-head, NoDup}
use opx_common_utils.Radix.{Ptr, Table}
use opx_common_utils.Radix.Compare.{key_bit, Agree}
use opx_common_utils.Radix.Fork.{IsIn-Of, other, self, side}
use opx_common_utils.Radix.Good.{key, Good, Shared}
use opx_common_utils.Radix.First.{first_bit_set}
use opx_common_utils.Radix.Insert.{
  prepare, cleared, down_to_head, differ_loop, up_to_bit, join, below, hang, over, split, insert_at,
  first_entry, insert_head, insert,
}
use opx_common_utils.Radix.Differ.{differ_loop-First}
use opx_common_utils.Radix.Heads.{own_key}
use opx_common_utils.Radix.Whole.{Offered, Called, insert-Called}
use opx_common_utils.Radix.Examples.{
  bytes, routes, shape, routes-IsTrie, routes-KeysAreBytes, one_key,
}

-- Below node 2 the keys start with 10.
two_keys : Shared routes 8 (node leaf 2 (node leaf 3 leaf))
two_keys m m' i j h h' k lt = first m k i lt ∙ sym (first m' k j lt)
  where
    first :
        (m k : ℕ)
        → IsIn m (inorder (node leaf 2 (node leaf 3 leaf)))
        → k < 8
        → key_bit (key routes m) k ≡ bit 10 (7 - k % 8)
    first m k i lt =
        let byte : k / 8 ≡ 0 = omega (arith, lt) in
        elim (IsIn-Of true m leaf 2 (node leaf 3 leaf) i) [
          | other z ↦ elim z [ ]
          | self e ↦
              subst (λ z. key_bit (key routes z) k ≡ bit 10 (7 - k % 8)) (sym e)
                (ap (λ z. bit (key routes 2 z) (7 - k % 8)) byte)
          | side z ↦ elim (IsIn-Of true m leaf 3 leaf z) [
            | other w ↦ elim w [ ]
            | self e ↦
                subst (λ z. key_bit (key routes z) k ≡ bit 10 (7 - k % 8)) (sym e)
                  (ap (λ z. bit (key routes 3 z) (7 - k % 8)) byte)
            | side w ↦ elim w [ ]
          ]
        ]

one-Shared : Shared routes 16 (node leaf 3 leaf)
one-Shared m m' i j h h' k lt = elim (IsIn-head i) [
  | inl e ↦ elim (IsIn-head j) [
    | inl e' ↦ ap (λ z. key_bit (key routes z) k) (e ∙ sym e')
    | inr w ↦ elim w [ ]
  ]
  | inr w ↦ elim w [ ]
]

routes-Good : Good routes 0 shape
unfolding bit
routes-Good = (
  omega arith,
  (λ m i h. elim (IsIn-head i) [
    | inl s ↦ subst (λ z. bit (routes.rdx_rth_addr (z + 10) 0) 7 ≡ 0) (sym s) refl
    | inr j ↦ one_key 0 0 3 refl m j h
  ]),
  (λ m i h. elim i [ ]),
  (λ m m' i j h h' k lt. absurd (omega (arith, lt))),
  (λ e. absurd (omega (arith, e))),
  (
    omega arith,
    (λ m i h. elim i [ ]),
    one_key 8 1 3 refl,
    two_keys,
    (λ e. absurd (omega (arith, e))),
    tt,
    (
      omega arith,
      (λ m i h. elim i [ ]),
      (λ m i h. elim i [ ]),
      one-Shared,
      (λ e. absurd (omega (arith, e))),
      tt,
      tt,
    ),
  ),
  tt,
)

not_in : (m : ℕ) → 3 < m → IsIn m (inorder shape) → ⊥
not_in m h i = elim (IsIn-head i) [
  | inl e ↦ omega (arith, h, e)
  | inr j ↦ elim (IsIn-head j) [
    | inl e ↦ omega (arith, h, e)
    | inr k ↦ elim (IsIn-head k) [ inl e ↦ omega (arith, h, e) | inr w ↦ elim w [ ] ]
  ]
]

shape-NoDup : NoDup (inorder shape)
shape-NoDup = (
  (λ i. elim (IsIn-head i) [
    | inl e ↦ omega (arith, e)
    | inr j ↦ elim (IsIn-head j) [ inl e ↦ omega (arith, e) | inr w ↦ elim w [ ] ]
  ]),
  (
    (λ i. elim (IsIn-head i) [ inl e ↦ omega (arith, e) | inr w ↦ elim w [ ] ]),
    ((λ i. elim i [ ]), tt),
  ),
)

abbrev offered : Table
offered = record routes { rth_addr = λ h. some (bytes []) }

head_out : (m : ℕ) → IsIn m (inorder shape) → m + 10 ≢ 20
head_out m i e = not_in m (omega (arith, e)) i

-- The head 20 brings the key 0.0.0.0 at an address of its own.
routes-Offered : Offered offered 20 8 true 4 5 shape (bytes [])
routes-Offered = record {
  keyed = own_key (bytes []) refl refl;
  is = (routes-IsTrie, routes-Good, shape-NoDup);
  bytes = routes-KeysAreBytes;
  key_IsBytes = routes-KeysAreBytes 20;
  rth_out = head_out;
  short = omega arith;
  live = λ m i. refl;
  rth_real = λ e. omega (arith, e);
  add_real = λ e. omega (arith, e);
  new_real = λ e. omega (arith, e);
  two = λ e. omega (arith, e);
  add_out = not_in 4 (omega arith);
  new_out = not_in 5 (omega arith);
}

insert-Called_example :
    Called offered 20 8 true 4 5 shape (bytes []) routes-Offered (insert 5 offered 20 8 true 4 5)
insert-Called_example =
    insert-Called 5 offered 20 8 true 4 5 shape (bytes []) routes-Offered (omega arith)

differ_loop-First_example :
    (d : ℕ) × (differ_loop 9 (key routes 2) (key routes 9) 8 0 ≡ some d)
    × Agree (key routes 2) (key routes 9) d
    × ((8 ≤ d) ⊎ (key_bit (key routes 2) d ≢ key_bit (key routes 9) d))
differ_loop-First_example =
    differ_loop-First (key routes 2) (key routes 9) 8 (routes-KeysAreBytes 12)
      (routes-KeysAreBytes 19) (omega arith)

-- The first difference of 10.0.0.0 and 0.0.0.0 is the bit 4.
differ_runs : differ_loop 9 (key routes 2) (key routes 9) 8 0 ≡ some 4
unfolding differ_loop first_bit_set
differ_runs = refl

-- The result, the root, the links of the nodes 1, 5 and 2, and the number of the entries.
abbrev links : Option (Ptr × Table) → List ℕ
links none = []
links (some (rth, t)) =
    rth
    ∷ t.rtt_root
    ∷ t.rtn_left 1
    ∷ t.rtn_left 5
    ∷ t.rtn_right 5
    ∷ t.rtn_bit 5
    ∷ t.rtn_parent 2
    ∷ t.rtt_routes
    ∷ []

-- 0/8 comes below the new node 5 at the bit 4, beside 10/8; 0/0 is there already; and 10/8 without a node
-- for the branch fails.
insert_runs :
    (links (insert 5 offered 20 8 true 4 5) ≡ 20 ∷ 1 ∷ 5 ∷ 4 ∷ 2 ∷ 4 ∷ 5 ∷ 4 ∷ [])
    × (links (insert_head 5 routes 20 0 4 5) ≡ 11 ∷ 1 ∷ 2 ∷ 0 ∷ 0 ∷ 16 ∷ 1 ∷ 3 ∷ [])
    × (links (insert_head 5 routes 20 8 4 0) ≡ 0 ∷ 1 ∷ 2 ∷ 0 ∷ 0 ∷ 16 ∷ 1 ∷ 3 ∷ [])
unfolding insert prepare cleared insert_head down_to_head differ_loop up_to_bit join below hang over
    split insert_at first_entry first_bit_set memcmp
insert_runs = (refl, refl, refl)
