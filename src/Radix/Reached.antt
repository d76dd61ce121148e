-- ===== src/Radix/Reached.antt =====
-- The place that `std_radix_insert` of std_radix.c reaches in the tree, and what it does there.
use opx_common_utils.Prelude.{
  ℕ, ◌+◌, ◌<◌, ◌≡◌, ◌≢◌, ◌⊎◌, inl, inr, refl, sym, ap, ◌∙◌, arith, Bool, true, false, not, ◌==◌,
  subst, Bool-cases, some,
}
use opx_common_utils.BitMask.{Bytes}
use opx_common_utils.Tree.{Tree, leaf, node, inorder, IsIn, NoDup}
use opx_common_utils.Radix.{Ptr, null, Table, is_deleted}
use opx_common_utils.Radix.Compare.{Agree}
use opx_common_utils.Radix.Shape.{IsTrie}
use opx_common_utils.Radix.Insert.{insert_at}
use opx_common_utils.Radix.Fork.{
  child, other, self, side, IsIn-Of, Of-IsIn, Links, IsTrie-Links, Apart, NoDup-Apart,
}
use opx_common_utils.Radix.Good.{key, Good, Good-Node, Good-low}
use opx_common_utils.Radix.Spot.{Spot, here, inside, Spot-IsIn}
use opx_common_utils.Radix.Grown.{IsTrie-place, top_unique}
use opx_common_utils.Radix.Atop.{Good-raise, Good-Shared}
use opx_common_utils.Radix.Hung.{Linked}
use opx_common_utils.Radix.Local.{Site, Settled, x_in, join-old, insert_at-join, join-Settled}
use opx_common_utils.Radix.Under.{below-Settled}
use opx_common_utils.Radix.Over.{over-Settled}
use opx_common_utils.Radix.Split.{split-Settled}

pub real-IsIn :
    (t : Table) (par p : Ptr) (tree : Tree) → IsTrie t par p tree → IsIn null (inorder tree) → ⊥
real-IsIn t par p leaf is i = elim i [ ]
real-IsIn t par p (node l q r) is i =
    let links = IsTrie-Links t par p true l q r is in
    elim (IsIn-Of true null l q r i) [
      | other j ↦ real-IsIn t q (t.rtn_left q) l links.aside j
      | self e ↦ links.real (sym e)
      | side j ↦ real-IsIn t q (t.rtn_right q) r links.down j
    ]

-- A subtree at a place in the tree, and how its top is linked.
pub record Reached (t : Table) (above x : Ptr) (s : Tree) (par p : Ptr) (tree : Tree) : Type 0 where
  pub lo : ℕ
  pub good : Good t lo s
  pub dup : NoDup (inorder s)
  pub above_out : IsIn above (inorder s) → ⊥
  pub link : ((above ≡ par) × (x ≡ p)) ⊎ (IsIn above (inorder tree) × Linked t above x)

only_side :
    (t : Table) (par p x : Ptr) (v : Bool) (c : Tree) (q : Ptr) (r : Tree)
    → Links t par p v c q r
    → Apart c q r
    → IsIn x (inorder r)
    → child t (not v) q ≢ x
only_side t par p x v c q r links parts i e =
    elim (IsTrie-place t q (child t (not v) q) c links.aside) [
      | inl z ↦
          real-IsIn t q (child t v q) r links.down (subst (λ w. IsIn w (inorder r)) (sym e ∙ z) i)
      | inr j ↦ parts.apart x (subst (λ w. IsIn w (inorder c)) e j) i
    ]

pub Spot-Reached :
    (t : Table) (a : Bytes) (d : ℕ) (above x : Ptr) (s : Tree) (f lo par p : Ptr) (tree : Tree)
    → Spot t a d above s par tree
    → IsTrie t par p tree
    → Good t lo tree
    → NoDup (inorder tree)
    → (IsIn par (inorder tree) → ⊥)
    → IsTrie t above x s
    → IsIn f (inorder s)
    → IsIn x (inorder s)
    → Reached t above x s par p tree
Spot-Reached t a d above x s f lo par p _ here is g dup out xs fi xi = record {
  lo = lo;
  good = g;
  dup = dup;
  above_out = out;
  link = inl (refl, top_unique t above par x p s xs is f fi);
}
Spot-Reached t a d above x s f lo par p _ (inside _ v c q r h e spot) is g dup out xs fi xi =
    let links = IsTrie-Links t par p v c q r is in
    let parts = NoDup-Apart v c q r dup in
    let ih =
      Spot-Reached t a d above x s f (t.rtn_bit q + 1) q (child t v q) r spot links.down
        (Good-Node t lo v c q r g).good_side parts.in_side (λ i. parts.not_side q i refl) xs fi
        xi in
    record {
      lo = ih.lo;
      good = ih.good;
      dup = ih.dup;
      above_out = ih.above_out;
      link = inr (elim ih.link [
        | inl (ab, px) ↦ (
          Of-IsIn v above c q r (self ab),
          subst (λ z. Linked t z x) (sym ab)
              (
                v,
                sym px,
                only_side t par p x v c q r links parts (Spot-IsIn t a d above s q r x spot xi),
              ),
        )
        | inr (i, l) ↦ (Of-IsIn v above c q r (side i), l)
      ]);
    }

-- The three ends of an insertion: the prefix is there, or the tree has the new entry.
pub insert_at-Settled :
    (t : Table) (rth : Ptr) (bitlen : ℕ) (add new : Ptr) (d : ℕ) (f above x : Ptr) (s : Tree)
    → Site t rth bitlen add new d f above x s
    → is_deleted t x ≡ false
    → ((insert_at t rth bitlen (key t f) d x add new ≡ some (t.rtn_rth x, t))
        × (t.rtn_rth x ≢ null)
        × (t.rtn_bit x ≡ bitlen)
        × Agree (t.rdx_rth_addr rth) (key t x) bitlen)
      ⊎ ((t' : Table) × (insert_at t rth bitlen (key t f) d x add new ≡ some (rth, t'))
          × Settled t t' rth bitlen add new d f above x s)
insert_at-Settled t rth bitlen add new d f above x s k live =
    let behind = k.behind in
    let within = k.within in
    elim (Bool-cases (d == bitlen)) [
      | inl e ↦
          let at_end : d ≡ bitlen = ground arith in
          elim (Bool-cases (t.rtn_bit x == bitlen)) [
            | inl e' ↦
                let there_is : t.rtn_bit x ≡ bitlen = ground arith in
                elim (Bool-cases (t.rtn_rth x == null)) [
                  | inl b ↦
                      let bare : t.rtn_rth x ≡ null = ground arith in
                      inr (join-Settled t rth bitlen add new d f above x s k at_end there_is bare)
                  | inr b ↦
                      let head : t.rtn_rth x ≢ null = ground arith in
                      let xi = x_in t rth bitlen add new d f above x s k in
                      inl (
                        insert_at-join t rth bitlen (key t f) d x add new at_end there_is
                            ∙ ap some (join-old t x rth head live),
                        head,
                        there_is,
                        λ i lt.
                            k.agree i (omega (arith, lt, at_end))
                            ∙ Good-Shared t above x k.lo d s k.is k.good behind f x k.f_in xi
                                k.f_head head i (omega (arith, lt, at_end)),
                      )
                ]
            | inr e' ↦
                let less : d < t.rtn_bit x = ground (arith, behind, at_end) in
                inr (over-Settled t rth bitlen add new d f above x s k at_end less)
          ]
      | inr e ↦
          let early : d < bitlen = ground (arith, within) in
          elim (Bool-cases (t.rtn_bit x == d)) [
            | inl e' ↦
                let at_d : t.rtn_bit x ≡ d = ground arith in
                inr (below-Settled t rth bitlen add new d f above x s k early at_d)
            | inr e' ↦
                let less : d < t.rtn_bit x = ground (arith, behind) in
                let raised = Good-raise t above x k.lo (t.rtn_bit x) s k.is k.good (omega arith) in
                let low = Good-low t (t.rtn_bit x) s f raised k.f_in in
                inr (
                  split-Settled t rth bitlen add new d f above x s k early less
                    (omega (arith, less, low)))
          ]
    ]
