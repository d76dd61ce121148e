-- ===== src/Radix/Entries.antt =====
-- What is in a radix tree of src/std_radix.c, and the tree of the first insertion.
use opx_common_utils.Prelude.{
  ℕ, ◌≡◌, ◌≢◌, ◌⊎◌, ◌↔◌, inl, inr, refl, sym, ap, ◌∙◌, arith, true, false, ◌==◌, some,
}
use opx_common_utils.Tree.{Tree, leaf, inorder, IsIn, NoDup}
use opx_common_utils.Radix.{Ptr, null, Table, rn_bit}
use opx_common_utils.Radix.Compare.{Agree}
use opx_common_utils.Radix.Shape.{IsTrie}
use opx_common_utils.Radix.Insert.{up, new_node, head_node, first_entry, insert_head}
use opx_common_utils.Radix.Good.{key, Good}
use opx_common_utils.Radix.Grown.{fresh, old, Grown}
use opx_common_utils.Radix.Leaf.{one, one-node, one-NoDup, Leaf, Leaf-IsTrie, Leaf-Good}
use opx_common_utils.Radix.Steps.{set_at-on}
use opx_common_utils.Radix.Fork.{self, Of-IsIn}

-- The table holds the tree, whose entries are where look ups expect them.
abbrev pub IsRadix : Table → Tree → Type 0
IsRadix t tree = IsTrie t null t.rtt_root tree × Good t 0 tree × NoDup (inorder tree)

-- The head `h` is in the tree with a prefix of `b` bits.
abbrev pub Has : Table → Tree → (h : Ptr) → (b : ℕ) → Type 0
Has t tree h b = (m : Ptr) × IsIn m (inorder tree) × (t.rtn_rth m ≡ h) × (t.rtn_bit m ≡ b)

-- The entries are the old ones and the new one.
pub record Inserted (t t' : Table) (rth : Ptr) (bitlen : ℕ) (tree tree' : Tree) : Type 0 where
  pub is : IsRadix t' tree'
  pub keys : t'.rdx_rth_addr ≡ t.rdx_rth_addr
  pub entries :
      (h : Ptr) (b : ℕ)
      → h ≢ null
      → Has t' tree' h b ↔ (((h ≡ rth) × (b ≡ bitlen)) ⊎ Has t tree h b)

-- An entry with the same prefix is there and is the result, or the tree has the new one.
abbrev pub Ends : ℕ → Table → (rth : Ptr) → (bitlen : ℕ) → (add new : Ptr) → Tree → Type 0
Ends fuel t rth bitlen add new tree =
    ((m : Ptr) × IsIn m (inorder tree)
      × (t.rtn_rth m ≢ null)
      × (t.rtn_bit m ≡ bitlen)
      × Agree (t.rdx_rth_addr rth) (key t m) bitlen
      × (insert_head fuel t rth bitlen add new ≡ some (t.rtn_rth m, t)))
    ⊎ ((t' : Table) × (tree' : Tree) × (insert_head fuel t rth bitlen add new ≡ some (rth, t'))
        × Inserted t t' rth bitlen tree tree')

abbrev pub started : Table → (rth : Ptr) → (bitlen : ℕ) → (add : Ptr) → Table
started t rth bitlen add =
    let t1 = head_node add rth bitlen t in
    record t1 { rtt_root = add; rtt_routes = up t1.rtt_routes }

pub first_entry-started :
    (t : Table) (rth : Ptr) (bitlen : ℕ) (add : Ptr)
    → add ≢ null
    → first_entry t rth bitlen add ≡ (rth, started t rth bitlen add)
unfolding first_entry
first_entry-started t rth bitlen add n =
    let real : (add == null) ≡ false = ground (arith, n) in rw real refl

-- The tree of one entry.
pub started-Inserted :
    (t : Table) (rth : Ptr) (bitlen : ℕ) (add : Ptr)
    → add ≢ null
    → rth ≢ null
    → Inserted t (started t rth bitlen add) rth bitlen leaf (one add)
started-Inserted t rth bitlen add n n' =
    let t' = started t rth bitlen add in
    let k : Leaf t' rth bitlen add null = record {
      real = n;
      left = set_at-on t.rtn_left add null;
      right = set_at-on t.rtn_right add null;
      up = set_at-on t.rtn_parent add null;
      bit = set_at-on t.rtn_bit add bitlen;
      tbit = set_at-on t.rtn_tbit add (rn_bit bitlen);
      head = set_at-on (new_node add bitlen t).rtn_rth add rth;
      rth_real = n';
    } in
    record {
      is = (
        Leaf-IsTrie t' rth bitlen add null k,
        Leaf-Good t' rth bitlen add null 0 k (omega arith),
        one-NoDup add,
      );
      keys = refl;
      entries = λ h b real. (
        (λ (m, i, e, e').
            let at = one-node m add i in
            inl (sym e ∙ ap t'.rtn_rth at ∙ k.head, sym e' ∙ ap t'.rtn_bit at ∙ k.bit)),
        (λ w. elim w [
          | inl (e, e') ↦
              (add, Of-IsIn true add leaf add leaf (self refl), k.head ∙ sym e, k.bit ∙ sym e')
          | inr (m, i, e, e') ↦ elim i [ ]
        ]),
      );
    }

module _ (t t' : Table) (rth : Ptr) (bitlen : ℕ) (add new d par p now : Ptr) (tree tree' : Tree)
    (g : Grown t t' rth bitlen add new d par p now tree tree') where
  pub Grown-Has :
      (h : Ptr) (b : ℕ)
      → h ≢ null
      → Has t' tree' h b ↔ (((h ≡ rth) × (b ≡ bitlen)) ⊎ Has t tree h b)
  Grown-Has h b n = (forth, back)
    where
      forth : Has t' tree' h b → ((h ≡ rth) × (b ≡ bitlen)) ⊎ Has t tree h b
      forth (m, i, e, e') = elim (g.entries m i (λ z. n (sym e ∙ z))) [
        | fresh z w ↦ inl (sym e ∙ z, sym e' ∙ w)
        | old j k ↦ inr (m, j, sym k.head ∙ e, sym k.bit ∙ e')
      ]

      back : ((h ≡ rth) × (b ≡ bitlen)) ⊎ Has t tree h b → Has t' tree' h b
      back (inl (e, e')) = (g.at, g.at_in, g.at_entry.0 ∙ sym e, g.at_entry.1 ∙ sym e')
      back (inr (m, i, e, e')) =
          let (j, k) = g.kept m i (λ z. n (sym e ∙ z)) in (m, j, k.head ∙ e, k.bit ∙ e')
