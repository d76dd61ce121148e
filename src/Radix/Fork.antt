-- ===== src/Radix/Fork.antt =====
-- A node of a radix tree with one side singled out: a lemma on both sides is one on the side `v`.
use opx_common_utils.Prelude.{ℕ, suc, ◌+◌, ◌≡◌, ◌≢◌, refl, arith, Bool, true, false, not}
use opx_common_utils.Tree.{
  Tree, node, inorder, size, IsIn, at_left, at_node, at_right, IsIn-Side, Side-IsIn, NoDup,
  NoDup-Parts, Parts-NoDup,
}
use opx_common_utils.Radix.{Ptr, null, Table, rn_bit}
use opx_common_utils.Radix.Shape.{IsTrie}

-- `s` is on the side `v` of `q`, and `c` on the other one.
abbrev pub fork : Bool → Tree → Ptr → Tree → Tree
fork true c q s = node c q s
fork false c q s = node s q c

abbrev pub child : Table → Bool → Ptr → Ptr
child t true q = t.rtn_right q
child t false q = t.rtn_left q

abbrev pub digit : Bool → ℕ
digit true = 1
digit false = 0

-- Where a node of the tree is.
pub data Of (m : Ptr) (c : Tree) (q : Ptr) (s : Tree) : Type 0 where
  other : IsIn m (inorder c) → Of m c q s
  self : m ≡ q → Of m c q s
  side : IsIn m (inorder s) → Of m c q s

pub IsIn-Of :
    (v : Bool) (m : Ptr) (c : Tree) (q : Ptr) (s : Tree)
    → IsIn m (inorder (fork v c q s))
    → Of m c q s
IsIn-Of true m c q s i = elim (IsIn-Side m c q s i) [
  | at_left j ↦ other j
  | at_node e ↦ self e
  | at_right j ↦ side j
]
IsIn-Of false m c q s i = elim (IsIn-Side m s q c i) [
  | at_left j ↦ side j
  | at_node e ↦ self e
  | at_right j ↦ other j
]

pub Of-IsIn :
    (v : Bool) (m : Ptr) (c : Tree) (q : Ptr) (s : Tree)
    → Of m c q s
    → IsIn m (inorder (fork v c q s))
Of-IsIn true m c q s (other j) = Side-IsIn m c q s (at_left j)
Of-IsIn true m c q s (self e) = Side-IsIn m c q s (at_node e)
Of-IsIn true m c q s (side j) = Side-IsIn m c q s (at_right j)
Of-IsIn false m c q s (other j) = Side-IsIn m s q c (at_right j)
Of-IsIn false m c q s (self e) = Side-IsIn m s q c (at_node e)
Of-IsIn false m c q s (side j) = Side-IsIn m s q c (at_left j)

pub size-fork :
    (v : Bool) (c : Tree) (q : Ptr) (s : Tree) → size (fork v c q s) ≡ suc (size c + size s)
size-fork true c q s = refl
size-fork false c q s = omega arith

-- The links of a node and what is below it.
pub record Links (t : Table) (par p : Ptr) (v : Bool) (c : Tree) (q : Ptr) (s : Tree) : Type 0 where
  pub here : p ≡ q
  pub real : q ≢ null
  pub up : t.rtn_parent q ≡ par
  pub tbit : t.rtn_tbit q ≡ rn_bit (t.rtn_bit q)
  pub aside : IsTrie t q (child t (not v) q) c
  pub down : IsTrie t q (child t v q) s

pub IsTrie-Links :
    (t : Table) (par p : Ptr) (v : Bool) (c : Tree) (q : Ptr) (s : Tree)
    → IsTrie t par p (fork v c q s)
    → Links t par p v c q s
IsTrie-Links t par p true c q s (e, n, pq, tb, il, ir) = record {
  here = e;
  real = n;
  up = pq;
  tbit = tb;
  aside = il;
  down = ir;
}
IsTrie-Links t par p false c q s (e, n, pq, tb, il, ir) = record {
  here = e;
  real = n;
  up = pq;
  tbit = tb;
  aside = ir;
  down = il;
}

pub Links-IsTrie :
    (t : Table) (par p : Ptr) (v : Bool) (c : Tree) (q : Ptr) (s : Tree)
    → Links t par p v c q s
    → IsTrie t par p (fork v c q s)
Links-IsTrie t par p true c q s k = (k.here, k.real, k.up, k.tbit, k.aside, k.down)
Links-IsTrie t par p false c q s k = (k.here, k.real, k.up, k.tbit, k.down, k.aside)

-- The nodes of a tree without a node twice.
pub record Apart (c : Tree) (q : Ptr) (s : Tree) : Type 0 where
  pub in_other : NoDup (inorder c)
  pub in_side : NoDup (inorder s)
  pub not_other : (m : Ptr) → IsIn m (inorder c) → m ≢ q
  pub not_side : (m : Ptr) → IsIn m (inorder s) → m ≢ q
  pub apart : (m : Ptr) → IsIn m (inorder c) → IsIn m (inorder s) → ⊥

pub NoDup-Apart :
    (v : Bool) (c : Tree) (q : Ptr) (s : Tree) → NoDup (inorder (fork v c q s)) → Apart c q s
NoDup-Apart true c q s d =
    let k = NoDup-Parts c q s d in
    record {
      in_other = k.in_left;
      in_side = k.in_right;
      not_other = k.not_left;
      not_side = k.not_right;
      apart = k.apart;
    }
NoDup-Apart false c q s d =
    let k = NoDup-Parts s q c d in
    record {
      in_other = k.in_right;
      in_side = k.in_left;
      not_other = k.not_right;
      not_side = k.not_left;
      apart = λ m i j. k.apart m j i;
    }

pub Apart-NoDup :
    (v : Bool) (c : Tree) (q : Ptr) (s : Tree) → Apart c q s → NoDup (inorder (fork v c q s))
Apart-NoDup true c q s k = Parts-NoDup c q s (record {
  in_left = k.in_other;
  in_right = k.in_side;
  not_left = k.not_other;
  not_right = k.not_side;
  apart = k.apart;
})
Apart-NoDup false c q s k = Parts-NoDup s q c (record {
  in_left = k.in_side;
  in_right = k.in_other;
  not_left = k.not_side;
  not_right = k.not_other;
  apart = λ m i j. k.apart m j i;
})
