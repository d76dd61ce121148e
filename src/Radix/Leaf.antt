-- ===== src/Radix/Leaf.antt =====
-- The new node of an insertion of std_radix.c below a node without a child on the side of the key.
use opx_common_utils.Prelude.{
  ℕ, ◌+◌, ◌≤◌, ◌<◌, ◌≡◌, ◌≢◌, inl, inr, refl, sym, ap, ◌∙◌, arith, Bool, true, not, subst,
}
use opx_common_utils.Tree.{Tree, leaf, node, inorder, IsIn, NoDup}
use opx_common_utils.Radix.{Ptr, null, Table, rn_bit}
use opx_common_utils.Radix.Compare.{key_bit}
use opx_common_utils.Radix.Shape.{IsTrie, KeysHave}
use opx_common_utils.Radix.Fork.{
  fork, child, digit, other, self, side, IsIn-Of, Of-IsIn, IsTrie-Links, Links-IsTrie, NoDup-Apart,
  Apart-NoDup,
}
use opx_common_utils.Radix.Good.{
  key, Shared, Good, Good-Node, Node-Good, SameEntry, KeysHave-frame, Good-frame,
}
use opx_common_utils.Radix.Grown.{
  Same, IsTrie-frame, Same-Entry, fork-Grows, Fits, Entry, fresh, old, Grown, new-key, Entry-Shared,
}
-- `x` has another parent, `n`.
use opx_common_utils.Radix.Way.{turn, digit-turn}

abbrev pub one : Ptr → Tree
one add = node leaf add leaf

pub one-node : (m add : Ptr) → IsIn m (inorder (one add)) → m ≡ add
one-node m add i = elim (IsIn-Of true m leaf add leaf i) [
  | other j ↦ elim j [ ]
  | self e ↦ e
  | side j ↦ elim j [ ]
]

pub one-NoDup : (add : Ptr) → NoDup (inorder (one add))
one-NoDup add = Apart-NoDup true leaf add leaf (record {
  in_other = tt;
  in_side = tt;
  not_other = λ m i. elim i [ ];
  not_side = λ m i. elim i [ ];
  apart = λ m i. elim i [ ];
})

-- `add` is a leaf with the entry.
pub record Leaf (t' : Table) (rth : Ptr) (bitlen : ℕ) (add par : Ptr) : Type 0 where
  pub real : add ≢ null
  pub left : t'.rtn_left add ≡ null
  pub right : t'.rtn_right add ≡ null
  pub up : t'.rtn_parent add ≡ par
  pub bit : t'.rtn_bit add ≡ bitlen
  pub tbit : t'.rtn_tbit add ≡ rn_bit bitlen
  pub head : t'.rtn_rth add ≡ rth
  pub rth_real : rth ≢ null

pub Leaf-IsTrie :
    (t' : Table) (rth : Ptr) (bitlen : ℕ) (add par : Ptr)
    → Leaf t' rth bitlen add par
    → IsTrie t' par add (one add)
Leaf-IsTrie t' rth bitlen add par k =
    (refl, k.real, k.up, k.tbit ∙ sym (ap rn_bit k.bit), k.left, k.right)

pub Leaf-Good :
    (t' : Table) (rth : Ptr) (bitlen : ℕ) (add par lo : ℕ)
    → Leaf t' rth bitlen add par
    → lo ≤ bitlen
    → Good t' lo (one add)
Leaf-Good t' rth bitlen add par lo k h = (
  subst (λ z. lo ≤ z) (sym k.bit) h,
  (λ m i. elim i [ ]),
  (λ m i. elim i [ ]),
  (λ m m' i j hm hm' n lt.
      ap (λ z. key_bit (key t' z) n) (one-node m add i ∙ sym (one-node m' add j))),
  (λ z. absurd (k.rth_real (sym k.head ∙ z))),
  tt,
  tt,
)

module _ (t t' : Table) (rth : Ptr) (bitlen : ℕ) (add new : Ptr) (d : ℕ) (f : Ptr)
    (fits : Fits t t' rth d f) where
  -- `add` is the child of `x` on the side `v`.
  pub record Below (above x : Ptr) (v : Bool) (c : Tree) : Type 0 where
    pub f_in : IsIn f (inorder (fork v c x leaf))
    pub is : IsTrie t above x (fork v c x leaf)
    pub dup : NoDup (inorder (fork v c x leaf))
    pub out : IsIn add (inorder (fork v c x leaf)) → ⊥
    pub at_d : t.rtn_bit x ≡ d
    pub more : d < bitlen
    pub turns : v ≡ turn (t.rdx_rth_addr rth) d
    pub leaf_add : Leaf t' rth bitlen add x
    pub down : child t' v x ≡ add
    pub aside : child t' (not v) x ≡ child t (not v) x
    pub parent : t'.rtn_parent x ≡ t.rtn_parent x
    pub bit : t'.rtn_bit x ≡ t.rtn_bit x
    pub tbit : t'.rtn_tbit x ≡ t.rtn_tbit x
    pub head : t'.rtn_rth x ≡ t.rtn_rth x
    pub same : (m : Ptr) → IsIn m (inorder c) → Same t t' m

  pub Below-Grown :
      (above x : Ptr) (v : Bool) (c : Tree)
      → Below above x v c
      → Grown t t' rth bitlen add new d above x x (fork v c x leaf) (fork v c x (one add))
  Below-Grown above x v c k =
      let links = IsTrie-Links t above x v c x leaf k.is in
      let parts = NoDup-Apart v c x leaf k.dup in
      let own : SameEntry t t' x = record { bit = k.bit; head = k.head } in
      let entry_c = λ (m : Ptr) (i : IsIn m (inorder c)). Same-Entry t t' m (k.same m i) in
      let fresh_add : (m : Ptr) → m ≡ add → (t'.rtn_rth m ≡ rth) × (t'.rtn_bit m ≡ bitlen) =
        λ m e. (ap t'.rtn_rth e ∙ k.leaf_add.head, ap t'.rtn_bit e ∙ k.leaf_add.bit) in
      let out_x : x ≢ add = λ e. k.out (Of-IsIn v add c x leaf (self (sym e))) in
      let all : (m : Ptr)
          → IsIn m (inorder (fork v c x (one add)))
          → t'.rtn_rth m ≢ null
          → Entry t t' rth bitlen add new m (fork v c x leaf) =
        λ m i h. elim (IsIn-Of v m c x (one add) i) [
          | other j ↦ old (Of-IsIn v m c x leaf (other j)) (entry_c m j)
          | self e ↦ old (Of-IsIn v m c x leaf (self e)) (subst (λ z. SameEntry t t' z) (sym e) own)
          | side j ↦ let (e, b) = fresh_add m (one-node m add j) in fresh e b
        ] in
      record {
        is = Links-IsTrie t' above x v c x (one add) (record {
          here = refl;
          real = links.real;
          up = k.parent ∙ links.up;
          tbit = k.tbit ∙ links.tbit ∙ sym (ap rn_bit k.bit);
          aside =
              subst (λ z. IsTrie t' x z c) (sym k.aside)
                (IsTrie-frame t t' x (child t (not v) x) c k.same links.aside);
          down =
              subst (λ z. IsTrie t' x z (one add)) (sym k.down)
                (Leaf-IsTrie t' rth bitlen add x k.leaf_add);
        });
        good = λ lo low g.
            let at = Good-Node t lo v c x leaf g in
            Node-Good t' lo v c x (one add) (record {
              low = subst (λ z. lo ≤ z) (sym k.bit) at.low;
              aside =
                  subst (λ z. KeysHave t' z (digit (not v)) c) (sym k.bit)
                    (KeysHave-frame t t' fits.keys (t.rtn_bit x) (digit (not v)) c entry_c
                      at.aside);
              beside =
                  subst (λ z. KeysHave t' z (digit v) (one add)) (sym (k.bit ∙ k.at_d))
                    (λ m i hm.
                      ap (λ z. key_bit z d)
                        (new-key t t' rth bitlen add new d f fits m
                          (fresh_add m (one-node m add i)).0)
                      ∙ sym (ap digit k.turns ∙ digit-turn (t.rdx_rth_addr rth) d));
              shared =
                  subst (λ z. Shared t' z (fork v c x (one add))) (sym k.bit)
                    (Entry-Shared t t' rth bitlen add new d f fits (t.rtn_bit x) (fork v c x leaf)
                      (fork v c x (one add)) (let e = k.at_d in omega (arith, e)) k.f_in at.shared
                      all);
              full = λ z. absurd (at.full (sym k.head ∙ z)).1;
              good_other =
                  subst (λ z. Good t' (z + 1) c) (sym k.bit)
                    (Good-frame t t' fits.keys (t.rtn_bit x + 1) c entry_c at.good_other);
              good_side =
                  Leaf-Good t' rth bitlen add x (t'.rtn_bit x + 1) k.leaf_add
                    (let e = k.bit ∙ k.at_d in let m = k.more in omega (arith, e, m));
            });
        once = Apart-NoDup v c x (one add) (record {
          in_other = parts.in_other;
          in_side = one-NoDup add;
          not_other = parts.not_other;
          not_side = λ m i e. out_x (sym e ∙ one-node m add i);
          apart = λ m i j. k.out (
              Of-IsIn v add c x leaf
                (other (subst (λ z. IsIn z (inorder c)) (one-node m add j) i)));
        });
        nodes = λ m i. elim (IsIn-Of v m c x (one add) i) [
          | other j ↦ inl (Of-IsIn v m c x leaf (other j))
          | self e ↦ inl (Of-IsIn v m c x leaf (self e))
          | side j ↦ inr (inl (one-node m add j))
        ];
        full = fork-Grows v c x (one add);
        entries = all;
        kept = λ m i h. elim (IsIn-Of v m c x leaf i) [
          | other j ↦ (Of-IsIn v m c x (one add) (other j), entry_c m j)
          | self e ↦ (Of-IsIn v m c x (one add) (self e), subst (λ z. SameEntry t t' z) (sym e) own)
          | side j ↦ elim j [ ]
        ];
        at = add;
        at_in = Of-IsIn v add c x (one add) (side (Of-IsIn true add leaf add leaf (self refl)));
        at_entry = (k.leaf_add.head, k.leaf_add.bit);
      }
