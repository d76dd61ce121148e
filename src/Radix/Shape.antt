-- ===== src/Radix/Shape.antt =====
-- The tree that the nodes of a radix tree hold, and what orders it.
use opx_common_utils.Prelude.{
  ℕ, suc, ◌+◌, ◌≤◌, ◌≡◌, ◌≢◌, ◌↔◌, inl, inr, refl, sym, ap, ◌∙◌, arith, some, Bool, true, false,
  not, ltb, ◌==◌, Bool-cases,
}
use mathlib.Core.Bool.{true≢false}
use opx_common_utils.BitMask.{Bytes, IsBytes}
use opx_common_utils.Tree.{Tree, leaf, node, inorder, IsIn, at_left, at_node, at_right, IsIn-Side}
use opx_common_utils.Radix.{Ptr, null, Table, rn_bit, rn_byte, compare_address, matches, backtrack}
use opx_common_utils.Radix.Compare.{key_bit, Agree, compare_address-Agree}

-- The nodes below `p`, whose parent is `par`, are the tree.
abbrev pub IsTrie : Table → Ptr → Ptr → Tree → Type 0
IsTrie t par p leaf = p ≡ null
IsTrie t par p (node l q r) =
    (p ≡ q)
    × (q ≢ null)
    × (t.rtn_parent q ≡ par)
    × (t.rtn_tbit q ≡ rn_bit (t.rtn_bit q))
    × IsTrie t q (t.rtn_left q) l
    × IsTrie t q (t.rtn_right q) r

-- The keys of the heads in the tree have `v` as bit `n`.
abbrev pub KeysHave : Table → (n v : ℕ) → Tree → Type 0
KeysHave t n v tree =
    (m : Ptr)
    → IsIn m (inorder tree)
    → t.rtn_rth m ≢ null
    → key_bit (t.rdx_rth_addr (t.rtn_rth m)) n ≡ v

-- Bit numbers grow from the root down, and the keys below a node are on the left or on the right by
-- their bit with the node's number.
abbrev pub Branches : Table → (lo : ℕ) → Tree → Type 0
Branches t lo leaf = Unit
Branches t lo (node l q r) =
    (lo ≤ t.rtn_bit q)
    × KeysHave t (t.rtn_bit q) 0 l
    × KeysHave t (t.rtn_bit q) 1 r
    × Branches t (t.rtn_bit q + 1) l
    × Branches t (t.rtn_bit q + 1) r

-- The keys of all heads are bytes.
abbrev pub KeysAreBytes : Table → Type 0
KeysAreBytes t = (h : Ptr) → IsBytes (t.rdx_rth_addr h)

-- The prefix at a node is one of the first `bitlen` bits of the address.
abbrev pub Matches : Table → Bytes → (bitlen : ℕ) → Ptr → Type 0
Matches t a bitlen m =
    (t.rtn_rth m ≢ null)
    × (t.rtn_bit m ≤ bitlen)
    × Agree a (t.rdx_rth_addr (t.rtn_rth m)) (t.rtn_bit m)

pub bit-above :
    (t : Table) (lo : ℕ) (tree : Tree) (m : Ptr)
    → Branches t lo tree
    → IsIn m (inorder tree)
    → lo ≤ t.rtn_bit m
bit-above t lo leaf m b i = elim i [ ]
bit-above t lo (node l q r) m (a, kl, kr, bl, br) i = elim (IsIn-Side m l q r i) [
  | at_left x ↦ omega (arith, bit-above t (t.rtn_bit q + 1) l m bl x)
  | at_node e ↦ omega (arith, ap (t.rtn_bit) e)
  | at_right x ↦ omega (arith, bit-above t (t.rtn_bit q + 1) r m br x)
]

-- A node of a tree is not NULL.
pub IsIn-IsTrie :
    (t : Table) (par p x : Ptr) (tree : Tree)
    → IsTrie t par p tree
    → IsIn x (inorder tree)
    → x ≢ null
IsIn-IsTrie t par p x leaf is i = elim i [ ]
IsIn-IsTrie t par p x (node l q r) (e, nq, pq, tb, il, ir) i = elim (IsIn-Side x l q r i) [
  | at_left j ↦ IsIn-IsTrie t q (t.rtn_left q) x l il j
  | at_node same ↦ λ z. nq (sym same ∙ z)
  | at_right j ↦ IsIn-IsTrie t q (t.rtn_right q) x r ir j
]

-- NULL is the tree with no node.
pub no_nodes :
    (t : Table) (par p : Ptr) (tree : Tree)
    → IsTrie t par p tree
    → p ≡ null
    → (m : Ptr) → IsIn m (inorder tree)
    → ⊥
no_nodes t par p leaf is e m i = elim i [ ]
no_nodes t par p (node l x r) is e m i = is.1 (sym is.0 ∙ e)

-- A key that has another bit `n` than all keys of a tree below bit `n` matches nothing in it.
pub other_side :
    (t : Table) (a : Bytes) (bitlen n v : ℕ) (tree : Tree)
    → Branches t (n + 1) tree
    → KeysHave t n v tree
    → key_bit a n ≢ v
    → (m : Ptr) → IsIn m (inorder tree)
    → Matches t a bitlen m
    → ⊥
other_side t a bitlen n v tree b keys differs m i (h, fits, same) =
    differs (same n (omega (arith, bit-above t (n + 1) tree m b i)) ∙ keys m i h)

module _ (t : Table) (a : Bytes) (bitlen : ℕ) (bytes : KeysAreBytes t) (ba : IsBytes a) where
  pub matches_iff :
      (q : Ptr)
      → t.rtn_tbit q ≡ rn_bit (t.rtn_bit q)
      → (matches t a q ≡ true) ↔ Agree a (t.rdx_rth_addr (t.rtn_rth q)) (t.rtn_bit q)
  matches_iff q e =
      let key = t.rdx_rth_addr (t.rtn_rth q) in
      let same = compare_address-Agree a key (t.rtn_bit q) ba (bytes (t.rtn_rth q)) in
      let at = ap (λ b. not (compare_address a key (rn_byte (t.rtn_bit q)) b)) e in
      (λ m. same.0 (not_true _ (sym at ∙ m)), λ agree. at ∙ ap not (same.1 agree))
    where
      not_true : (b : Bool) → not b ≡ true → b ≡ false
      not_true true h = sym h
      not_true false h = refl

  -- A node in the way up is where the way ends, if it matches, and is passed otherwise.
  pub data Passed (q : Ptr) : Type 0 where
    stops : Matches t a bitlen q → ((f : ℕ) → backtrack (suc f) t a bitlen q ≡ some q) → Passed q
    goes_on :
        (Matches t a bitlen q → ⊥)
        → ((f : ℕ) → backtrack (suc f) t a bitlen q ≡ backtrack f t a bitlen (t.rtn_parent q))
        → Passed q

  pub backtrack-Passed : (q : Ptr) → q ≢ null → t.rtn_tbit q ≡ rn_bit (t.rtn_bit q) → Passed q
  unfolding backtrack
  backtrack-Passed q nq e =
      let there : (q == null) ≡ false = ground arith in
      elim (Bool-cases (ltb bitlen (t.rtn_bit q))) [
        | inl long ↦ goes_on (λ m. ground (arith, m.1)) (λ f. rw (there, long) refl)
        | inr fits ↦ elim (Bool-cases (t.rtn_rth q == null)) [
          | inl bare ↦ goes_on (λ m. m.0 (ground arith)) (λ f. rw (there, fits, bare) refl)
          | inr head ↦ elim (Bool-cases (matches t a q)) [
            | inl hit ↦
                stops ((λ z. ground arith), ground arith, (matches_iff q e).0 hit)
                  (λ f. rw (there, fits, head, hit) refl)
            | inr miss ↦
                goes_on (λ m. true≢false (sym ((matches_iff q e).1 m.2) ∙ miss))
                  (λ f. rw (there, fits, head, miss) refl)
          ]
        ]
      ]
