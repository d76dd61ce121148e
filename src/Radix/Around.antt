-- ===== src/Radix/Around.antt =====
-- The tree around a subtree of a radix tree that an insertion of std_radix.c changes.
use opx_common_utils.Prelude.{
  ℕ, ◌+◌, ◌≤◌, ◌<◌, ◌≡◌, ◌≢◌, ◌⊎◌, inl, inr, refl, sym, ap, ◌∙◌, arith, Bool, not, subst,
}
use opx_common_utils.Tree.{Tree, inorder, IsIn, NoDup}
use opx_common_utils.Radix.{Ptr, null, Table, rn_bit}
use opx_common_utils.Radix.Compare.{key_bit}
use opx_common_utils.Radix.Shape.{IsTrie, KeysHave, no_nodes}
use opx_common_utils.Radix.Fork.{
  fork, child, digit, other, self, side, IsIn-Of, Of-IsIn, Links, IsTrie-Links, Links-IsTrie, Apart,
  NoDup-Apart, Apart-NoDup,
}
use opx_common_utils.Radix.Good.{
  Shared, Good, Good-Node, Node-Good, SameEntry, key-same, KeysHave-frame, Good-frame,
}
use opx_common_utils.Radix.Way.{turn, digit-turn}
use opx_common_utils.Radix.Spot.{Spot, here, inside, Spot-IsIn}
use opx_common_utils.Radix.Grown.{
  Same, child-Same, IsTrie-frame, IsTrie-place, top_unique, Same-Entry, fork-Grows, Fits, Entry,
  fresh, old, Grown, new-key, Entry-Shared,
}

module _ (t t' : Table) (rth : Ptr) (bitlen : ℕ) (add new : Ptr) (d : ℕ) (f : Ptr)
    (fits : Fits t t' rth d f) where
  -- One node more above a subtree that has changed.
  around :
      (par p : Ptr) (v : Bool) (c : Tree) (q now : Ptr) (r r' : Tree)
      → (ih : Grown t t' rth bitlen add new d q (child t v q) now r r')
      → IsTrie t par p (fork v c q r)
      → NoDup (inorder (fork v c q r))
      → t.rtn_bit q < d
      → v ≡ turn (t.rdx_rth_addr rth) (t.rtn_bit q)
      → IsIn f (inorder r)
      → child t' v q ≡ now
      → child t' (not v) q ≡ child t (not v) q
      → (t'.rtn_parent q ≡ t.rtn_parent q)
        × (t'.rtn_bit q ≡ t.rtn_bit q)
        × (t'.rtn_tbit q ≡ t.rtn_tbit q)
        × (t'.rtn_rth q ≡ t.rtn_rth q)
      → ((m : Ptr) → IsIn m (inorder c) → Same t t' m)
      → (IsIn add (inorder (fork v c q r)) → ⊥)
      → (IsIn new (inorder (fork v c q r)) → ⊥)
      → Grown t t' rth bitlen add new d par p q (fork v c q r) (fork v c q r')
  around par p v c q now r r' ih is dup early turns fr lnk lnk' (same_p, same_b, same_t, same_h) fc
        na nn =
      let links = IsTrie-Links t par p v c q r is in
      let parts = NoDup-Apart v c q r dup in
      let at_c = λ (m : Ptr) (i : IsIn m (inorder c)). Of-IsIn v m c q r (other i) in
      let at_r = λ (m : Ptr) (i : IsIn m (inorder r)). Of-IsIn v m c q r (side i) in
      let at_q = Of-IsIn v q c q r (self refl) in
      let own : SameEntry t t' q = record { bit = same_b; head = same_h } in
      let same_c = λ (m : Ptr) (i : IsIn m (inorder c)). Same-Entry t t' m (fc m i) in
      let all : (m : Ptr)
          → IsIn m (inorder (fork v c q r'))
          → t'.rtn_rth m ≢ null
          → Entry t t' rth bitlen add new m (fork v c q r) =
        λ m i h. elim (IsIn-Of v m c q r' i) [
          | other j ↦ old (at_c m j) (same_c m j)
          | self e ↦ old (Of-IsIn v m c q r (self e)) (subst (λ z. SameEntry t t' z) (sym e) own)
          | side j ↦ elim (ih.entries m j h) [ fresh e b ↦ fresh e b | old k b ↦ old (at_r m k) b ]
        ] in
      record {
        is = Links-IsTrie t' par q v c q r' (record {
          here = refl;
          real = links.real;
          up = same_p ∙ links.up;
          tbit = same_t ∙ links.tbit ∙ sym (ap rn_bit same_b);
          aside =
              subst (λ z. IsTrie t' q z c) (sym lnk')
                (IsTrie-frame t t' q (child t (not v) q) c fc links.aside);
          down = subst (λ z. IsTrie t' q z r') (sym lnk) ih.is;
        });
        good = λ lo h g.
            let at = Good-Node t lo v c q r g in
            Node-Good t' lo v c q r' (record {
              low = subst (λ z. lo ≤ z) (sym same_b) at.low;
              aside =
                  subst (λ z. KeysHave t' z (digit (not v)) c) (sym same_b)
                    (KeysHave-frame t t' fits.keys (t.rtn_bit q) (digit (not v)) c same_c at.aside);
              beside =
                  subst (λ z. KeysHave t' z (digit v) r') (sym same_b)
                    (λ m i hm. elim (ih.entries m i hm) [
                      | fresh e b ↦
                          ap (λ z. key_bit z (t.rtn_bit q))
                            (new-key t t' rth bitlen add new d f fits m e)
                          ∙ sym (ap digit turns ∙ digit-turn (t.rdx_rth_addr rth) (t.rtn_bit q))
                      | old j b ↦
                          ap (λ z. key_bit z (t.rtn_bit q)) (key-same t t' fits.keys m b)
                          ∙ at.beside m j (λ z. hm (b.head ∙ z))
                    ]);
              shared =
                  subst (λ z. Shared t' z (fork v c q r')) (sym same_b)
                    (Entry-Shared t t' rth bitlen add new d f fits (t.rtn_bit q) (fork v c q r)
                      (fork v c q r') (omega (arith, early)) (at_r f fr) at.shared all);
              full = λ z. ((at.full (sym same_h ∙ z)).0, ih.full);
              good_other =
                  subst (λ z. Good t' (z + 1) c) (sym same_b)
                    (Good-frame t t' fits.keys (t.rtn_bit q + 1) c same_c at.good_other);
              good_side =
                  subst (λ z. Good t' (z + 1) r') (sym same_b)
                    (ih.good (t.rtn_bit q + 1) (omega (arith, early)) at.good_side);
            });
        once = Apart-NoDup v c q r' (record {
          in_other = parts.in_other;
          in_side = ih.once;
          not_other = parts.not_other;
          not_side = λ m i. elim (ih.nodes m i) [
            | inl j ↦ parts.not_side m j
            | inr (inl e) ↦ λ z. na (Of-IsIn v add c q r (self (sym e ∙ z)))
            | inr (inr e) ↦ λ z. nn (Of-IsIn v new c q r (self (sym e ∙ z)))
          ];
          apart = λ m i j. elim (ih.nodes m j) [
            | inl k ↦ parts.apart m i k
            | inr (inl e) ↦ na (at_c add (subst (λ z. IsIn z (inorder c)) e i))
            | inr (inr e) ↦ nn (at_c new (subst (λ z. IsIn z (inorder c)) e i))
          ];
        });
        nodes = λ m i. elim (IsIn-Of v m c q r' i) [
          | other j ↦ inl (at_c m j)
          | self e ↦ inl (Of-IsIn v m c q r (self e))
          | side j ↦ elim (ih.nodes m j) [ inl k ↦ inl (at_r m k) | inr e ↦ inr e ]
        ];
        full = fork-Grows v c q r';
        entries = all;
        kept = λ m i h. elim (IsIn-Of v m c q r i) [
          | other j ↦ (Of-IsIn v m c q r' (other j), same_c m j)
          | self e ↦ (Of-IsIn v m c q r' (self e), subst (λ z. SameEntry t t' z) (sym e) own)
          | side j ↦ let (k, b) = ih.kept m j h in (Of-IsIn v m c q r' (side k), b)
        ];
        at = ih.at;
        at_in = Of-IsIn v ih.at c q r' (side ih.at_in);
        at_entry = ih.at_entry;
      }

  module _ (above x top : Ptr) (s s' : Tree)
      (local : Grown t t' rth bitlen add new d above x top s s') (f_in : IsIn f (inorder s))
      (frame : (m : Ptr) → (IsIn m (inorder s) → ⊥) → m ≢ above → m ≢ add → m ≢ new → Same t t' m)
      (linked : (v : Bool)
        → above ≢ null
        → child t v above ≡ x
        → child t (not v) above ≢ x
        → (child t' v above ≡ top) × (child t' (not v) above ≡ child t (not v) above))
      (above_same : (above ≢ null)
        → (t'.rtn_parent above ≡ t.rtn_parent above)
          × (t'.rtn_bit above ≡ t.rtn_bit above)
          × (t'.rtn_tbit above ≡ t.rtn_tbit above)
          × (t'.rtn_rth above ≡ t.rtn_rth above)) where
    not_beside :
        (v : Bool) (c : Tree) (q : Ptr) (r : Tree) {par p : Ptr}
        → Links t par p v c q r
        → Apart c q r
        → child t v q ≡ x
        → IsIn f (inorder r)
        → child t (not v) q ≢ x
    not_beside v c q r links parts px f_r e = elim (IsTrie-place t q (child t v q) r links.down) [
      | inl z ↦ no_nodes t q (child t v q) r links.down z f f_r
      | inr i ↦ elim (IsTrie-place t q (child t (not v) q) c links.aside) [
        | inl z ↦ no_nodes t q (child t v q) r links.down (px ∙ sym e ∙ z) f f_r
        | inr j ↦ parts.apart (child t (not v) q) j (subst (λ z. IsIn z (inorder r)) (px ∙ sym e) i)
      ]
    ]

    -- Only the place of the subtree tells where the tree is, if the subtree is all of it.
    pub Spot-Grown :
        (par p : Ptr) (tree : Tree)
        → Spot t (t.rdx_rth_addr rth) d above s par tree
        → IsTrie t par p tree
        → NoDup (inorder tree)
        → (IsIn par (inorder tree) → ⊥)
        → (IsIn add (inorder tree) → ⊥)
        → (IsIn new (inorder tree) → ⊥)
        → IsTrie t above x s
        → (tree' : Tree) × (now : Ptr) × (g : Grown t t' rth bitlen add new d par p now tree tree')
          × (((above ≡ par) × (now ≡ top) × (p ≡ x)) ⊎ (IsIn above (inorder tree) × (now ≡ p)))
    Spot-Grown par p _ here is dup out na nn xs = (
      s',
      top,
      record {
        is = local.is;
        good = local.good;
        once = local.once;
        nodes = local.nodes;
        full = local.full;
        entries = local.entries;
        kept = local.kept;
        at = local.at;
        at_in = local.at_in;
        at_entry = local.at_entry;
      },
      inl (refl, refl, top_unique t par above p x s is xs f f_in),
    )
    Spot-Grown par p _ (inside _ v c q r early turns spot) is dup out na nn xs =
        let links = IsTrie-Links t par p v c q r is in
        let parts = NoDup-Apart v c q r dup in
        let at_c = λ (m : Ptr) (i : IsIn m (inorder c)). Of-IsIn v m c q r (other i) in
        let at_r = λ (m : Ptr) (i : IsIn m (inorder r)). Of-IsIn v m c q r (side i) in
        let s_in = λ (m : Ptr) (i : IsIn m (inorder s)).
          Spot-IsIn t (t.rdx_rth_addr rth) d above s q r m spot i in
        let (r', now, ih, place) =
          Spot-Grown q (child t v q) r spot links.down parts.in_side (λ i. parts.not_side q i refl)
            (λ i. na (at_r add i)) (λ i. nn (at_r new i)) xs in
        let c_above : (m : Ptr) → IsIn m (inorder c) → m ≡ above → ⊥ = λ m i e. elim place [
          | inl (ab, nw, px) ↦ parts.not_other m i (e ∙ ab)
          | inr (ai, nw) ↦ parts.apart m i (subst (λ z. IsIn z (inorder r)) (sym e) ai)
        ] in
        let fc = λ (m : Ptr) (i : IsIn m (inorder c)).
          frame m (λ j. parts.apart m i (s_in m j)) (λ e. c_above m i e)
            (λ e. na (at_c add (subst (λ z. IsIn z (inorder c)) e i)))
            (λ e. nn (at_c new (subst (λ z. IsIn z (inorder c)) e i))) in
        let f_r = s_in f f_in in
        let step =
          λ (lnk : child t' v q ≡ now) (lnk' : child t' (not v) q ≡ child t (not v) q)
              (own : (t'.rtn_parent q ≡ t.rtn_parent q)
                × (t'.rtn_bit q ≡ t.rtn_bit q)
                × (t'.rtn_tbit q ≡ t.rtn_tbit q)
                × (t'.rtn_rth q ≡ t.rtn_rth q)).
            around par p v c q now r r' ih is dup early turns f_r lnk lnk' own fc na nn in
        elim place [
          | inl (ab, nw, px) ↦
              let other_x : child t (not v) q ≢ x = not_beside v c q r links parts px f_r in
              let (lnk, lnk') =
                linked v (λ z. links.real (sym ab ∙ z)) (ap (child t v) ab ∙ px)
                  (λ z. other_x (sym (ap (child t (not v)) ab) ∙ z)) in
              let own = above_same (λ z. links.real (sym ab ∙ z)) in
              (
                fork v c q r',
                q,
                step (ap (child t' v) (sym ab) ∙ lnk ∙ sym nw)
                    (ap (child t' (not v)) (sym ab) ∙ lnk' ∙ ap (child t (not v)) ab)
                    (subst
                      (λ z.
                        (t'.rtn_parent z ≡ t.rtn_parent z)
                        × (t'.rtn_bit z ≡ t.rtn_bit z)
                        × (t'.rtn_tbit z ≡ t.rtn_tbit z)
                        × (t'.rtn_rth z ≡ t.rtn_rth z))
                      ab own),
                inr (Of-IsIn v above c q r (self ab), sym links.here),
              )
          | inr (ai, nw) ↦
              let own =
                frame q (λ j. parts.not_side q (s_in q j) refl)
                  (λ e. parts.not_side above ai (sym e))
                  (λ e. na (Of-IsIn v add c q r (self (sym e))))
                  (λ e. nn (Of-IsIn v new c q r (self (sym e)))) in
              (
                fork v c q r',
                q,
                step (child-Same t t' q v own ∙ sym nw) (child-Same t t' q (not v) own)
                    (own.parent, own.bit, own.tbit, own.head),
                inr (at_r above ai, sym links.here),
              )
        ]
