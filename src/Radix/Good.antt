-- ===== src/Radix/Good.antt =====
-- What insertion into a radix tree of std_radix.c keeps: the branches, keys that agree as far as the node
-- that they are below, and two children at each node without an entry.
use opx_common_utils.Prelude.{
  ℕ, ◌+◌, ◌≤◌, ◌≡◌, ◌≢◌, refl, sym, ap, ◌∙◌, arith, Bool, true, false, not, subst,
}
use opx_common_utils.BitMask.{Bytes}
use opx_common_utils.Tree.{Tree, leaf, node, inorder, IsIn}
use opx_common_utils.Radix.{Ptr, null, Table}
use opx_common_utils.Radix.Compare.{key_bit, Agree}
use opx_common_utils.Radix.Shape.{KeysHave, Branches}
use opx_common_utils.Radix.Fork.{fork, digit, other, self, side, IsIn-Of, Of-IsIn}

abbrev pub key : Table → Ptr → Bytes
key t m = t.rdx_rth_addr (t.rtn_rth m)

-- The keys in the tree have the same first `n` bits.
abbrev pub Shared : Table → ℕ → Tree → Type 0
Shared t n tree =
    (m m' : Ptr)
    → IsIn m (inorder tree)
    → IsIn m' (inorder tree)
    → t.rtn_rth m ≢ null
    → t.rtn_rth m' ≢ null
    → Agree (key t m) (key t m') n

abbrev pub Grows : Tree → Type 0
Grows leaf = ⊥
Grows (node l q r) = Unit

abbrev pub Good : Table → (lo : ℕ) → Tree → Type 0
Good t lo leaf = Unit
Good t lo (node l q r) =
    (lo ≤ t.rtn_bit q)
    × KeysHave t (t.rtn_bit q) 0 l
    × KeysHave t (t.rtn_bit q) 1 r
    × Shared t (t.rtn_bit q) (node l q r)
    × (t.rtn_rth q ≡ null → Grows l × Grows r)
    × Good t (t.rtn_bit q + 1) l
    × Good t (t.rtn_bit q + 1) r

pub Good-Branches : (t : Table) (lo : ℕ) (tree : Tree) → Good t lo tree → Branches t lo tree
Good-Branches t lo leaf g = tt
Good-Branches t lo (node l q r) (a, kl, kr, sh, full, gl, gr) =
    (a, kl, kr, Good-Branches t (t.rtn_bit q + 1) l gl, Good-Branches t (t.rtn_bit q + 1) r gr)

-- The same with the side `v` of the node singled out.
pub record Node (t : Table) (lo : ℕ) (v : Bool) (c : Tree) (q : Ptr) (s : Tree) : Type 0 where
  pub low : lo ≤ t.rtn_bit q
  pub aside : KeysHave t (t.rtn_bit q) (digit (not v)) c
  pub beside : KeysHave t (t.rtn_bit q) (digit v) s
  pub shared : Shared t (t.rtn_bit q) (fork v c q s)
  pub full : t.rtn_rth q ≡ null → Grows c × Grows s
  pub good_other : Good t (t.rtn_bit q + 1) c
  pub good_side : Good t (t.rtn_bit q + 1) s

pub Good-Node :
    (t : Table) (lo : ℕ) (v : Bool) (c : Tree) (q : Ptr) (s : Tree)
    → Good t lo (fork v c q s)
    → Node t lo v c q s
Good-Node t lo true c q s (a, kl, kr, sh, full, gl, gr) = record {
  low = a;
  aside = kl;
  beside = kr;
  shared = sh;
  full = full;
  good_other = gl;
  good_side = gr;
}
Good-Node t lo false c q s (a, kl, kr, sh, full, gl, gr) = record {
  low = a;
  aside = kr;
  beside = kl;
  shared = sh;
  full = λ e. ((full e).1, (full e).0);
  good_other = gr;
  good_side = gl;
}

pub Node-Good :
    (t : Table) (lo : ℕ) (v : Bool) (c : Tree) (q : Ptr) (s : Tree)
    → Node t lo v c q s
    → Good t lo (fork v c q s)
Node-Good t lo true c q s n =
    (n.low, n.aside, n.beside, n.shared, n.full, n.good_other, n.good_side)
Node-Good t lo false c q s n = (
  n.low,
  n.beside,
  n.aside,
  n.shared,
  (λ e. ((n.full e).1, (n.full e).0)),
  n.good_side,
  n.good_other,
)

-- The bit numbers of a tree are all at least `lo`.
pub Good-low :
    (t : Table) (lo : ℕ) (tree : Tree) (m : Ptr)
    → Good t lo tree
    → IsIn m (inorder tree)
    → lo ≤ t.rtn_bit m
Good-low t lo leaf m g i = elim i [ ]
Good-low t lo (node l q r) m (a, kl, kr, sh, full, gl, gr) i = elim (IsIn-Of true m l q r i) [
  | other j ↦ let h = Good-low t (t.rtn_bit q + 1) l m gl j in omega (arith, a, h)
  | self e ↦ subst (λ z. lo ≤ t.rtn_bit z) (sym e) a
  | side j ↦ let h = Good-low t (t.rtn_bit q + 1) r m gr j in omega (arith, a, h)
]

-- What the entries, the bits and the keys of a tree are is all that this depends on.
pub record SameEntry (t t' : Table) (m : Ptr) : Type 0 where
  pub bit : t'.rtn_bit m ≡ t.rtn_bit m
  pub head : t'.rtn_rth m ≡ t.rtn_rth m

module _ (t t' : Table) (keys : t'.rdx_rth_addr ≡ t.rdx_rth_addr) where
  pub key-same : (m : Ptr) → SameEntry t t' m → key t' m ≡ key t m
  key-same m e = ap (λ f. f (t'.rtn_rth m)) keys ∙ ap t.rdx_rth_addr e.head

  pub KeysHave-frame :
      (n v : ℕ) (tree : Tree)
      → ((m : Ptr) → IsIn m (inorder tree) → SameEntry t t' m)
      → KeysHave t n v tree
      → KeysHave t' n v tree
  KeysHave-frame n v tree same have m i h =
      let e = same m i in ap (λ k. key_bit k n) (key-same m e) ∙ have m i (λ z. h (e.head ∙ z))

  pub Shared-frame :
      (n : ℕ) (tree : Tree)
      → ((m : Ptr) → IsIn m (inorder tree) → SameEntry t t' m)
      → Shared t n tree
      → Shared t' n tree
  Shared-frame n tree same shared m m' i j h h' k lt =
      let e = same m i in
      let e' = same m' j in
      ap (λ z. key_bit z k) (key-same m e)
      ∙ shared m m' i j (λ z. h (e.head ∙ z)) (λ z. h' (e'.head ∙ z)) k lt
      ∙ sym (ap (λ z. key_bit z k) (key-same m' e'))

  pub Good-frame :
      (lo : ℕ) (tree : Tree)
      → ((m : Ptr) → IsIn m (inorder tree) → SameEntry t t' m)
      → Good t lo tree
      → Good t' lo tree
  Good-frame lo leaf same g = tt
  Good-frame lo (node l q r) same (a, kl, kr, sh, full, gl, gr) =
      let on_left = λ (m : Ptr) (i : IsIn m (inorder l)). same m (Of-IsIn true m l q r (other i)) in
      let on_right = λ (m : Ptr) (i : IsIn m (inorder r)). same m (Of-IsIn true m l q r (side i)) in
      let at = same q (Of-IsIn true q l q r (self refl)) in
      let move = λ (n : ℕ) (s : Tree) (g : Good t' (t.rtn_bit q + n) s).
        subst (λ z. Good t' (z + n) s) (sym at.bit) g in
      (
        subst (λ z. lo ≤ z) (sym at.bit) a,
        subst (λ z. KeysHave t' z 0 l) (sym at.bit) (KeysHave-frame (t.rtn_bit q) 0 l on_left kl),
        subst (λ z. KeysHave t' z 1 r) (sym at.bit) (KeysHave-frame (t.rtn_bit q) 1 r on_right kr),
        subst (λ z. Shared t' z (node l q r)) (sym at.bit)
            (Shared-frame (t.rtn_bit q) (node l q r) same sh),
        (λ z. full (sym at.head ∙ z)),
        move 1 l (Good-frame (t.rtn_bit q + 1) l on_left gl),
        move 1 r (Good-frame (t.rtn_bit q + 1) r on_right gr),
      )
