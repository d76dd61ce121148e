-- ===== src/Radix/Grown.antt =====
-- A subtree of a radix tree of std_radix.c that an insertion changes, and the tree around it.
use opx_common_utils.Prelude.{
  ℕ, ◌≤◌, ◌≡◌, ◌≢◌, ◌⊎◌, inl, inr, refl, sym, ap, ◌∙◌, arith, Bool, true, false, subst,
}
use opx_common_utils.Tree.{Tree, leaf, node, inorder, IsIn, NoDup}
use opx_common_utils.Radix.{Ptr, null, Table, rn_bit}
use opx_common_utils.Radix.Compare.{key_bit, Agree}
use opx_common_utils.Radix.Shape.{IsTrie}
use opx_common_utils.Radix.Fork.{fork, child, other, self, side, Of-IsIn}
use opx_common_utils.Radix.Good.{key, Shared, Grows, Good, SameEntry, key-same}

pub record Same (t t' : Table) (m : Ptr) : Type 0 where
  pub left : t'.rtn_left m ≡ t.rtn_left m
  pub right : t'.rtn_right m ≡ t.rtn_right m
  pub parent : t'.rtn_parent m ≡ t.rtn_parent m
  pub bit : t'.rtn_bit m ≡ t.rtn_bit m
  pub tbit : t'.rtn_tbit m ≡ t.rtn_tbit m
  pub head : t'.rtn_rth m ≡ t.rtn_rth m

pub child-Same : (t t' : Table) (m : Ptr) (v : Bool) → Same t t' m → child t' v m ≡ child t v m
child-Same t t' m true s = s.right
child-Same t t' m false s = s.left

pub IsTrie-frame :
    (t t' : Table) (par p : Ptr) (tree : Tree)
    → ((m : Ptr) → IsIn m (inorder tree) → Same t t' m)
    → IsTrie t par p tree
    → IsTrie t' par p tree
IsTrie-frame t t' par p leaf same is = is
IsTrie-frame t t' par p (node l q r) same (e, n, pq, tb, il, ir) =
    let at = same q (Of-IsIn true q l q r (self refl)) in
    (
      e,
      n,
      at.parent ∙ pq,
      at.tbit ∙ tb ∙ sym (ap rn_bit at.bit),
      subst (λ z. IsTrie t' q z l) (sym at.left)
          (IsTrie-frame t t' q (t.rtn_left q) l (λ m i. same m (Of-IsIn true m l q r (other i)))
            il),
      subst (λ z. IsTrie t' q z r) (sym at.right)
          (IsTrie-frame t t' q (t.rtn_right q) r (λ m i. same m (Of-IsIn true m l q r (side i)))
            ir),
    )

pub IsTrie-place :
    (t : Table) (par p : Ptr) (tree : Tree)
    → IsTrie t par p tree
    → (p ≡ null) ⊎ IsIn p (inorder tree)
IsTrie-place t par p leaf is = inl is
IsTrie-place t par p (node l q r) is = inr (Of-IsIn true p l q r (self is.0))

pub top_unique :
    (t : Table) (par par' p p' : Ptr) (tree : Tree)
    → IsTrie t par p tree
    → IsTrie t par' p' tree
    → (m : Ptr) → IsIn m (inorder tree)
    → p ≡ p'
top_unique t par par' p p' leaf is is' m i = elim i [ ]
top_unique t par par' p p' (node l q r) is is' m i = is.0 ∙ sym is'.0

pub Same-Entry : (t t' : Table) (m : Ptr) → Same t t' m → SameEntry t t' m
Same-Entry t t' m s = record { bit = s.bit; head = s.head }

pub fork-Grows : (v : Bool) (c : Tree) (q : Ptr) (s : Tree) → Grows (fork v c q s)
fork-Grows true c q s = tt
fork-Grows false c q s = tt

-- The key of `rth` has the first `d` bits of the entry at `f`.
pub record Fits (t t' : Table) (rth : Ptr) (d : ℕ) (f : Ptr) : Type 0 where
  pub keys : t'.rdx_rth_addr ≡ t.rdx_rth_addr
  pub f_head : t.rtn_rth f ≢ null
  pub agree : Agree (t.rdx_rth_addr rth) (key t f) d

-- The entry `rth` of `bitlen` bits comes to the tree, with new nodes `add` and `new`.
module _ (t t' : Table) (rth : Ptr) (bitlen : ℕ) (add new : Ptr) where
  -- A node of the tree now has an entry and a bit that it had, or it has the new entry.
  pub data Entry (m : Ptr) (tree : Tree) : Type 0 where
    fresh : t'.rtn_rth m ≡ rth → t'.rtn_bit m ≡ bitlen → Entry m tree
    old : IsIn m (inorder tree) → SameEntry t t' m → Entry m tree

  pub record Grown (d : ℕ) (par p now : Ptr) (tree tree' : Tree) : Type 0 where
    pub is : IsTrie t' par now tree'
    pub good : (lo : ℕ) → lo ≤ d → Good t lo tree → Good t' lo tree'
    pub once : NoDup (inorder tree')
    pub nodes : (m : Ptr) → IsIn m (inorder tree') → IsIn m (inorder tree) ⊎ ((m ≡ add) ⊎ (m ≡ new))
    pub full : Grows tree'
    pub entries : (m : Ptr) → IsIn m (inorder tree') → t'.rtn_rth m ≢ null → Entry m tree
    pub kept :
        (m : Ptr)
        → IsIn m (inorder tree)
        → t.rtn_rth m ≢ null
        → IsIn m (inorder tree') × SameEntry t t' m
    pub at : Ptr
    pub at_in : IsIn at (inorder tree')
    pub at_entry : (t'.rtn_rth at ≡ rth) × (t'.rtn_bit at ≡ bitlen)

  module _ (d : ℕ) (f : Ptr) (fits : Fits t t' rth d f) where
    -- The new key has the first `n` bits of the fits.keys that share them with the entry at `f`.
    agrees :
        (n : ℕ) (tree : Tree) (m : Ptr)
        → n ≤ d
        → Shared t n tree
        → IsIn f (inorder tree)
        → IsIn m (inorder tree)
        → t.rtn_rth m ≢ null
        → Agree (t.rdx_rth_addr rth) (key t m) n
    agrees n tree m h sh i j hm k lt =
        fits.agree k (omega (arith, lt, h)) ∙ sh f m i j fits.f_head hm k lt

    pub new-key : (m : Ptr) → t'.rtn_rth m ≡ rth → key t' m ≡ t.rdx_rth_addr rth
    new-key m e = ap (λ k. k (t'.rtn_rth m)) fits.keys ∙ ap t.rdx_rth_addr e

    -- Keys of entries that are there share what those of the tree did.
    pub Entry-Shared :
        (n : ℕ) (tree tree' : Tree)
        → n ≤ d
        → IsIn f (inorder tree)
        → Shared t n tree
        → ((m : Ptr) → IsIn m (inorder tree') → t'.rtn_rth m ≢ null → Entry m tree)
        → Shared t' n tree'
    Entry-Shared n tree tree' h fi sh entries m m' i j hm hm' k lt =
        pair (entries m i hm) (entries m' j hm')
      where
        pair : Entry m tree → Entry m' tree → key_bit (key t' m) k ≡ key_bit (key t' m') k
        pair (fresh e b) (fresh e' b') = ap (λ z. key_bit z k) (new-key m e ∙ sym (new-key m' e'))
        pair (fresh e b) (old j' b') =
            ap (λ z. key_bit z k) (new-key m e)
            ∙ agrees n tree m' h sh fi j' (λ z. hm' (b'.head ∙ z)) k lt
            ∙ sym (ap (λ z. key_bit z k) (key-same t t' fits.keys m' b'))
        pair (old i' b) (fresh e' b') =
            ap (λ z. key_bit z k) (key-same t t' fits.keys m b)
            ∙ sym (agrees n tree m h sh fi i' (λ z. hm (b.head ∙ z)) k lt)
            ∙ sym (ap (λ z. key_bit z k) (new-key m' e'))
        pair (old i' b) (old j' b') =
            ap (λ z. key_bit z k) (key-same t t' fits.keys m b)
            ∙ sh m m' i' j' (λ z. hm (b.head ∙ z)) (λ z. hm' (b'.head ∙ z)) k lt
            ∙ sym (ap (λ z. key_bit z k) (key-same t t' fits.keys m' b'))
