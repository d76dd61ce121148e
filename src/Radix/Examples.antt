-- ===== src/Radix/Examples.antt =====
-- Look ups in a tree of three prefixes, and the theorems at it.
use opx_common_utils.Prelude.{
  ℕ, ◌+◌, ◌-◌, ◌/◌, ◌%◌, ◌≡◌, ◌⊎◌, inl, inr, refl, sym, subst, true, none, some, List, [], ◌∷◌,
  arith, ◌==◌, get_or, if◌then◌else◌, false,
}
use opx_common_utils.Prelude.Int.{pos}
use opx_common_utils.BitMask.{Bytes, IsBytes}
use opx_common_utils.Bits.{bit}
use opx_common_utils.Tree.{Tree, leaf, node, inorder, IsIn, IsIn-head}
use opx_common_utils.Radix.{
  Ptr, null, Table, compare_address, descend, backtrack, best_node, is_deleted, getbest,
  getbestandprev, getnextbest, exact_head, getexact,
}
use opx_common_utils.Ip.{memcmp}
use opx_common_utils.Radix.Shape.{IsTrie, KeysHave, Branches, KeysAreBytes}
use opx_common_utils.Radix.Best.{Longest, NoMatch, getbest-Longest}
use opx_common_utils.Radix.Version.{parent_head, getparent, setversion, nodeisleaf}
use opx_common_utils.Radix.Upward.{Upward, top, up, setversion-Marked}

abbrev pub bytes : List ℕ → Bytes
bytes xs i = get_or xs i 0

-- 0/0 at the node 1, 10/8 at the node 2 and 10.128/16 at the node 3; the head of a node is at ten more.
abbrev pub routes : Table
routes = record {
  rtn_left = λ p. if p == 1 then 2 else 0;
  rtn_right = λ p. if p == 2 then 3 else 0;
  rtn_parent = λ p. if p == 3 then 2 else if p == 2 then 1 else 0;
  rtn_bit = λ p. if p == 1 then 0 else if p == 2 then 8 else 16;
  rtn_tbit = λ p. 128;
  rtn_flags = λ p. 0;
  rtn_lock = λ p. 0;
  rtn_version = λ p. 0;
  rtn_rth = λ p. p + 10;
  rth_rtn = λ h. h - 10;
  rdx_rth_addr =
      λ h. if h == 12 then bytes (10 ∷ []) else if h == 13 then bytes (10 ∷ 128 ∷ []) else bytes [];
  rth_addr = λ h. none;
  rth_keyed = λ h. true;
  rth_magic = λ h. false;
  rth_version = λ h. 0;
  rdcl_flags = λ h. 0;
  rdcl_cl = record { next = λ p. 0; back = λ p. 0 };
  rtt_root = 1;
  rtt_version = 0;
  rtt_inodes = 3;
  rtt_routes = 3;
  rtt_ninserts = 3;
  rtt_nremoves = 0;
  rtt_nmalloc = 3;
  rtt_nfree = 0;
  rtt_nusrfrees = 0;
  rtt_nwraps = 0;
  rtt_maxaddrlen = 32;
  rtt_debug = true;
  rtt_convert = none;
  rtt_rmfree = false;
  rtt_radicalused = false;
  rtt_carused = false;
  rtt_radicalinuse = pos 0;
  rtt_clhead = record { dll_magic = 0; head = 90; tail = 91; offset = 0; len = 0; compare = none };
}

abbrev pub shape : Tree
shape = node (node leaf 2 (node leaf 3 leaf)) 1 leaf

abbrev inside : Bytes
inside = bytes (10 ∷ 129 ∷ 1 ∷ 1 ∷ [])

abbrev host : Bytes
host = bytes (10 ∷ 128 ∷ 7 ∷ 1 ∷ [])

-- 10.128.7.1 has the longest prefix 10.128/16, 10.129.1.1 has 10/8, and 11.0.0.0 has 0/0.
best_runs :
    (getbest 5 routes (some host) 32 ≡ some 13)
    × (getbest 5 routes (some inside) 32 ≡ some 12)
    × (getbest 5 routes (some (bytes (11 ∷ []))) 32 ≡ some 11)
    × (getbestandprev 5 routes (some host) 32 ≡ some (13, some 12))
    × (getnextbest 5 routes (some inside) 32 ≡ some 11)
    × (getexact 5 routes (some host) 16 ≡ some 13)
    × (getexact 5 routes (some host) 17 ≡ some 0)
unfolding getbest getbestandprev getnextbest best_node descend backtrack getexact exact_head
    compare_address memcmp
best_runs = (refl, refl, refl, refl, refl, refl, refl)

pub routes-IsTrie : IsTrie routes 0 1 shape
routes-IsTrie = (
  refl,
  (λ e. omega (arith, e)),
  refl,
  refl,
  (
    refl,
    (λ e. omega (arith, e)),
    refl,
    refl,
    refl,
    (refl, (λ e. omega (arith, e)), refl, refl, refl, refl),
  ),
  refl,
)

-- Of a tree with one node or two, the keys by node.
pub one_key :
    (n v p : ℕ)
    → bit (routes.rdx_rth_addr (p + 10) (n / 8)) (7 - n % 8) ≡ v
    → KeysHave routes n v (node leaf p leaf)
one_key n v p e m i h = elim (IsIn-head i) [
  | inl s ↦ subst (λ z. bit (routes.rdx_rth_addr (z + 10) (n / 8)) (7 - n % 8) ≡ v) (sym s) e
  | inr j ↦ elim j [ ]
]

routes-Branches : Branches routes 0 shape
unfolding bit
routes-Branches = (
  omega arith,
  (λ m i h. elim (IsIn-head i) [
    | inl s ↦ subst (λ z. bit (routes.rdx_rth_addr (z + 10) 0) 7 ≡ 0) (sym s) refl
    | inr j ↦ one_key 0 0 3 refl m j h
  ]),
  (λ m i h. elim i [ ]),
  (
    omega arith,
    (λ m i h. elim i [ ]),
    one_key 8 1 3 refl,
    tt,
    (omega arith, (λ m i h. elim i [ ]), (λ m i h. elim i [ ]), tt, tt),
  ),
  tt,
)

pub routes-KeysAreBytes : KeysAreBytes routes
routes-KeysAreBytes h i = ground arith

pub host-IsBytes : IsBytes host
host-IsBytes i = ground arith

getbest-Longest_example :
    ((x : Ptr) × Longest routes host 32 (inorder shape) x
      × (getbest 5 routes (some host) 32
          ≡ some (if is_deleted routes x then null else routes.rtn_rth x)))
    ⊎ (NoMatch routes host 32 (inorder shape) × (getbest 5 routes (some host) 32 ≡ some null))
getbest-Longest_example =
    getbest-Longest 5 routes host 32 shape routes-KeysAreBytes host-IsBytes routes-IsTrie
      routes-Branches (omega arith) refl

version_runs :
    (nodeisleaf routes 13 ≡ pos 1)
    × (nodeisleaf routes 12 ≡ pos 0)
    × (getparent 3 routes 13 ≡ some 12)
    × (getparent 3 routes 11 ≡ some null)
unfolding nodeisleaf getparent parent_head
version_runs = (refl, refl, refl, refl)

above_three : Upward routes 2 (2 ∷ 1 ∷ [])
above_three = up 2 (1 ∷ []) (λ e. omega (arith, e)) (up 1 [] (λ e. omega (arith, e)) top)

setversion-Marked_example :
    (t' : Table) × (setversion 4 routes 13 ≡ some (1, t'))
    × (t'.rtt_version ≡ 1)
    × ((m : Ptr) → t'.rth_version m ≡ (if m == 13 then 1 else 0))
    × ((m : Ptr) → IsIn m (3 ∷ 2 ∷ 1 ∷ []) → t'.rtn_version m ≡ 1)
    × ((m : Ptr) → (IsIn m (3 ∷ 2 ∷ 1 ∷ []) → ⊥) → t'.rtn_version m ≡ 0)
    × (t'.rtt_nwraps ≡ 0)
setversion-Marked_example =
    setversion-Marked 4 routes 13 (3 ∷ 2 ∷ 1 ∷ []) (λ e. omega (arith, e)) (λ e. omega (arith, e))
      (up 3 (2 ∷ 1 ∷ []) (λ e. omega (arith, e)) above_three) (omega arith)
