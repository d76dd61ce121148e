-- ===== src/Radix/Joined.antt =====
-- A node of std_radix.c that was there without an entry and gets the one that is inserted.
use opx_common_utils.Prelude.{
  ℕ, ◌+◌, ◌≤◌, ◌≡◌, ◌≢◌, inl, inr, sym, ap, ◌∙◌, arith, true, ◌==◌, subst, Bool-cases,
}
use opx_common_utils.Tree.{Tree, leaf, node, inorder, IsIn, NoDup}
use opx_common_utils.Radix.{Ptr, null, Table, rn_bit}
use opx_common_utils.Radix.Shape.{IsTrie, KeysHave}
use opx_common_utils.Radix.Fork.{
  other, self, side, Of-IsIn, IsTrie-Links, Links-IsTrie, NoDup-Apart,
}
use opx_common_utils.Radix.Good.{Shared, Good, Good-Node, Node-Good, KeysHave-frame, Good-frame}
use opx_common_utils.Radix.Grown.{
  Same, IsTrie-frame, Same-Entry, Fits, Entry, fresh, old, Grown, Entry-Shared,
}

-- `x` has another parent, `n`.

module _ (t t' : Table) (rth : Ptr) (bitlen : ℕ) (add new : Ptr) (d : ℕ) (f : Ptr)
    (fits : Fits t t' rth d f) where
  pub record Joined (above x : Ptr) (s : Tree) : Type 0 where
    pub f_in : IsIn f (inorder s)
    pub is : IsTrie t above x s
    pub dup : NoDup (inorder s)
    pub at_d : t.rtn_bit x ≡ d
    pub at_end : d ≡ bitlen
    pub bare : t.rtn_rth x ≡ null
    pub real : rth ≢ null
    pub left : t'.rtn_left x ≡ t.rtn_left x
    pub right : t'.rtn_right x ≡ t.rtn_right x
    pub parent : t'.rtn_parent x ≡ t.rtn_parent x
    pub bit : t'.rtn_bit x ≡ t.rtn_bit x
    pub tbit : t'.rtn_tbit x ≡ t.rtn_tbit x
    pub head : t'.rtn_rth x ≡ rth
    pub same : (m : Ptr) → IsIn m (inorder s) → m ≢ x → Same t t' m

  pub Joined-Grown :
      (above x : Ptr) (s : Tree) → Joined above x s → Grown t t' rth bitlen add new d above x x s s
  Joined-Grown above x leaf k = elim (k.f_in) [ ]
  Joined-Grown above x (node l q r) k =
      let links = IsTrie-Links t above x true l q r k.is in
      let parts = NoDup-Apart true l q r k.dup in
      let qx = sym links.here in
      let at_l = λ (m : Ptr) (i : IsIn m (inorder l)).
        k.same m (Of-IsIn true m l q r (other i)) (λ e. parts.not_other m i (e ∙ links.here)) in
      let at_r = λ (m : Ptr) (i : IsIn m (inorder r)).
        k.same m (Of-IsIn true m l q r (side i)) (λ e. parts.not_side m i (e ∙ links.here)) in
      let entry_l = λ (m : Ptr) (i : IsIn m (inorder l)). Same-Entry t t' m (at_l m i) in
      let entry_r = λ (m : Ptr) (i : IsIn m (inorder r)). Same-Entry t t' m (at_r m i) in
      let bit_q : t'.rtn_bit q ≡ t.rtn_bit q =
        subst (λ z. t'.rtn_bit z ≡ t.rtn_bit z) links.here k.bit in
      let d_q : t.rtn_bit q ≡ d = ap t.rtn_bit qx ∙ k.at_d in
      let all : (m : Ptr)
          → IsIn m (inorder (node l q r))
          → t'.rtn_rth m ≢ null
          → Entry t t' rth bitlen add new m (node l q r) =
        λ m i h. elim (Bool-cases (m == x)) [
          | inl e ↦
              let mx : m ≡ x = ground arith in
              fresh (ap t'.rtn_rth mx ∙ k.head) (ap t'.rtn_bit mx ∙ k.bit ∙ k.at_d ∙ k.at_end)
          | inr e ↦ old i (Same-Entry t t' m (k.same m i (ground arith)))
        ] in
      record {
        is = Links-IsTrie t' above x true l q r (record {
          here = links.here;
          real = links.real;
          up = subst (λ z. t'.rtn_parent z ≡ t.rtn_parent z) links.here k.parent ∙ links.up;
          tbit =
              subst (λ z. t'.rtn_tbit z ≡ t.rtn_tbit z) links.here k.tbit
              ∙ links.tbit
              ∙ sym (ap rn_bit bit_q);
          aside =
              subst (λ z. IsTrie t' q z l)
                (sym (subst (λ z. t'.rtn_left z ≡ t.rtn_left z) links.here k.left))
                (IsTrie-frame t t' q (t.rtn_left q) l at_l links.aside);
          down =
              subst (λ z. IsTrie t' q z r)
                (sym (subst (λ z. t'.rtn_right z ≡ t.rtn_right z) links.here k.right))
                (IsTrie-frame t t' q (t.rtn_right q) r at_r links.down);
        });
        good = λ lo low g.
            let at = Good-Node t lo true l q r g in
            Node-Good t' lo true l q r (record {
              low = subst (λ z. lo ≤ z) (sym bit_q) at.low;
              aside =
                  subst (λ z. KeysHave t' z 0 l) (sym bit_q)
                    (KeysHave-frame t t' fits.keys (t.rtn_bit q) 0 l entry_l at.aside);
              beside =
                  subst (λ z. KeysHave t' z 1 r) (sym bit_q)
                    (KeysHave-frame t t' fits.keys (t.rtn_bit q) 1 r entry_r at.beside);
              shared =
                  subst (λ z. Shared t' z (node l q r)) (sym bit_q)
                    (Entry-Shared t t' rth bitlen add new d f fits (t.rtn_bit q) (node l q r)
                      (node l q r) (omega (arith, d_q)) k.f_in at.shared all);
              full = λ z. absurd (k.real (sym (ap t'.rtn_rth qx ∙ k.head) ∙ z));
              good_other =
                  subst (λ z. Good t' (z + 1) l) (sym bit_q)
                    (Good-frame t t' fits.keys (t.rtn_bit q + 1) l entry_l at.good_other);
              good_side =
                  subst (λ z. Good t' (z + 1) r) (sym bit_q)
                    (Good-frame t t' fits.keys (t.rtn_bit q + 1) r entry_r at.good_side);
            });
        once = k.dup;
        nodes = λ m i. inl i;
        full = tt;
        entries = all;
        kept = λ m i h. (i, Same-Entry t t' m (k.same m i (λ e. h (ap t.rtn_rth e ∙ k.bare))));
        at = x;
        at_in = Of-IsIn true x l q r (self links.here);
        at_entry = (k.head, k.bit ∙ k.at_d ∙ k.at_end);
      }
