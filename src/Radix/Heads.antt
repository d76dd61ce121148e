-- ===== src/Radix/Heads.antt =====
-- What `std_radix_insert` of src/std_radix.c does to a table before it looks at the tree: it prepares the
-- key of the head and clears the head's fields, and no node changes.
use opx_common_utils.Prelude.{
  ℕ, ◌+◌, ◌≡◌, ◌≢◌, inl, inr, refl, sym, ap, ◌∙◌, Bool, true, false, ◌||◌, Bool-cases, some, none,
  ltb, if◌then◌else◌,
}
use opx_common_utils.Prelude.Int.{pos}
use opx_common_utils.BitMask.{Bytes}
use opx_common_utils.Ip.{memcmp}
use opx_common_utils.LinkedList.{Store}
use opx_common_utils.Tree.{Tree, leaf, node, inorder, IsIn}
use opx_common_utils.Radix.{Ptr, Table}
use opx_common_utils.Radix.Compare.{key_bit}
use opx_common_utils.Radix.Shape.{IsTrie}
use opx_common_utils.Radix.Insert.{set_at, key_bytes, set_key, prepare, cleared}
use opx_common_utils.Radix.Fork.{other, side, Of-IsIn}
use opx_common_utils.Radix.Good.{key, Good}
use opx_common_utils.Radix.Steps.{set_at-off, set_at-on}

-- The fields of a table that belong to the heads, with the change list and the number of insertions.
pub record Heads : Type 0 where
  pub rdx_rth_addr : Ptr → Bytes
  pub rth_keyed : Ptr → Bool
  pub rth_magic : Ptr → Bool
  pub rth_rtn : Ptr → Ptr
  pub rth_version : Ptr → ℕ
  pub rdcl_flags : Ptr → ℕ
  pub rdcl_cl : Store
  pub rtt_ninserts : ℕ

abbrev pub heads_of : Table → Heads
heads_of t = record {
  rdx_rth_addr = t.rdx_rth_addr;
  rth_keyed = t.rth_keyed;
  rth_magic = t.rth_magic;
  rth_rtn = t.rth_rtn;
  rth_version = t.rth_version;
  rdcl_flags = t.rdcl_flags;
  rdcl_cl = t.rdcl_cl;
  rtt_ninserts = t.rtt_ninserts;
}

abbrev pub with_heads : Table → Heads → Table
with_heads t h = record t {
  rdx_rth_addr = h.rdx_rth_addr;
  rth_keyed = h.rth_keyed;
  rth_magic = h.rth_magic;
  rth_rtn = h.rth_rtn;
  rth_version = h.rth_version;
  rdcl_flags = h.rdcl_flags;
  rdcl_cl = h.rdcl_cl;
  rtt_ninserts = h.rtt_ninserts;
}

-- The head has the key; the keys of the others, all nodes and the settings of the table are the same.
pub record Readied (t t' : Table) (rth : Ptr) (k : Bytes) : Type 0 where
  pub rest : t' ≡ with_heads t (heads_of t')
  pub own : t'.rdx_rth_addr rth ≡ k
  pub others : (h : Ptr) → h ≢ rth → t'.rdx_rth_addr h ≡ t.rdx_rth_addr h

pub IsTrie-with_heads :
    (t : Table) (h : Heads) (par p : Ptr) (tree : Tree)
    → IsTrie t par p tree
    → IsTrie (with_heads t h) par p tree
IsTrie-with_heads t h par p leaf is = is
IsTrie-with_heads t h par p (node l q r) (e, n, up, tb, il, ir) = (
  e,
  n,
  up,
  tb,
  IsTrie-with_heads t h q (t.rtn_left q) l il,
  IsTrie-with_heads t h q (t.rtn_right q) r ir,
)

pub Good-with_heads :
    (t : Table) (h : Heads) (lo : ℕ) (tree : Tree)
    → ((m : Ptr) → IsIn m (inorder tree) → key (with_heads t h) m ≡ key t m)
    → Good t lo tree
    → Good (with_heads t h) lo tree
Good-with_heads t h lo leaf same g = tt
Good-with_heads t h lo (node l q r) same (a, kl, kr, sh, full, gl, gr) =
    let on_left = λ (m : Ptr) (i : IsIn m (inorder l)). same m (Of-IsIn true m l q r (other i)) in
    let on_right = λ (m : Ptr) (i : IsIn m (inorder r)). same m (Of-IsIn true m l q r (side i)) in
    (
      a,
      (λ m i n. ap (λ z. key_bit z (t.rtn_bit q)) (on_left m i) ∙ kl m i n),
      (λ m i n. ap (λ z. key_bit z (t.rtn_bit q)) (on_right m i) ∙ kr m i n),
      (λ m m' i j n n' k lt.
          ap (λ z. key_bit z k) (same m i)
          ∙ sh m m' i j n n' k lt
          ∙ sym (ap (λ z. key_bit z k) (same m' j))),
      full,
      Good-with_heads t h (t.rtn_bit q + 1) l on_left gl,
      Good-with_heads t h (t.rtn_bit q + 1) r on_right gr,
    )

-- The key that a head has when it is inserted: its address; or the converted address in a new buffer, of
-- which the bytes behind the key are what they were; or the key of before, which has to be the same.
pub data Keyed (t : Table) (rth : Ptr) (buffer : Bool) : Bytes → Type 0 where
  own_key : (a : Bytes) → t.rtt_convert ≡ none → t.rth_addr rth ≡ some a → Keyed t rth buffer a
  new_key :
      (f : Bytes → Bytes) (a : Bytes)
      → t.rtt_convert ≡ some f
      → t.rth_addr rth ≡ some a
      → t.rth_keyed rth ≡ false
      → buffer ≡ true
      → Keyed t rth buffer (λ i. if ltb i (key_bytes t) then f a i else t.rdx_rth_addr rth i)
  same_key :
      (f : Bytes → Bytes) (a : Bytes)
      → t.rtt_convert ≡ some f
      → t.rth_addr rth ≡ some a
      → t.rth_keyed rth ≡ true
      → t.rth_magic rth ≡ true
      → memcmp (t.rdx_rth_addr rth) (f a) (key_bytes t) 0 ≡ pos 0
      → Keyed t rth buffer (t.rdx_rth_addr rth)

pub prepare-Readied :
    (t : Table) (rth : Ptr) (buffer : Bool) (k : Bytes)
    → Keyed t rth buffer k
    → (t' : Table) × (prepare t rth buffer ≡ some (some t'))
      × Readied t t' rth k
      × (t'.rtt_ninserts ≡ t.rtt_ninserts)
unfolding prepare
prepare-Readied t rth buffer k (own_key a c e) = (
  record t { rdx_rth_addr = set_at t.rdx_rth_addr rth a; rth_keyed = set_at t.rth_keyed rth true },
  rw (c, e) refl,
  record {
    rest = refl;
    own = set_at-on t.rdx_rth_addr rth a;
    others = λ h n. set_at-off t.rdx_rth_addr rth a h n;
  },
  refl,
)
prepare-Readied t rth buffer k (new_key f a c e bare full) = (
  set_key rth (f a) t,
  rw (c, e, bare, full) refl,
  record {
    rest = refl;
    own =
        set_at-on t.rdx_rth_addr rth
          (λ i. if ltb i (key_bytes t) then f a i else t.rdx_rth_addr rth i);
    others = λ h n.
        set_at-off t.rdx_rth_addr rth
          (λ i. if ltb i (key_bytes t) then f a i else t.rdx_rth_addr rth i) h n;
  },
  refl,
)
prepare-Readied t rth buffer k (same_key f a c e there_is magic same) = (
  t,
  rw (c, e, there_is, magic, same) refl,
  record { rest = refl; own = refl; others = λ h n. refl },
  refl,
)

cleared-with_heads :
    (t : Table) (rth : Ptr)
    → (cleared rth t ≡ with_heads t (heads_of (cleared rth t)))
      × ((cleared rth t).rdx_rth_addr ≡ t.rdx_rth_addr)
      × ((cleared rth t).rtt_ninserts ≡ t.rtt_ninserts)
unfolding cleared
cleared-with_heads t rth = elim (Bool-cases (t.rtt_radicalused || t.rtt_carused)) [
  | inl y ↦ rw y (refl, refl, refl)
  | inr n ↦ rw n (refl, refl, refl)
]

pub Readied-cleared :
    (t t' : Table) (rth : Ptr) (k : Bytes)
    → Readied t t' rth k
    → Readied t (cleared rth t') rth k × ((cleared rth t').rtt_ninserts ≡ t'.rtt_ninserts)
Readied-cleared t t' rth k r =
    let (rest, keys, count) = cleared-with_heads t' rth in
    (
      record {
        rest = rest ∙ ap (λ z. with_heads z (heads_of (cleared rth t'))) r.rest;
        own = ap (λ g. g rth) keys ∙ r.own;
        others = λ h n. ap (λ g. g h) keys ∙ r.others h n;
      },
      count,
    )
