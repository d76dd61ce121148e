-- ===== src/Radix/Atop.antt =====
-- A node of std_radix.c that an insertion puts above a subtree of a radix tree.
use opx_common_utils.Prelude.{
  ℕ, ◌+◌, ◌≤◌, ◌<◌, ◌≡◌, ◌≢◌, ◌⊎◌, inl, inr, refl, sym, ap, ◌∙◌, arith, Bool, true, not, ◌==◌,
  subst, Bool-cases,
}
use opx_common_utils.Tree.{Tree, leaf, node, inorder, IsIn, NoDup}
use opx_common_utils.Radix.{Ptr, null, Table, rn_bit}
use opx_common_utils.Radix.Compare.{key_bit}
use opx_common_utils.Radix.Shape.{IsTrie, KeysHave}
use opx_common_utils.Radix.Fork.{
  fork, child, digit, other, self, side, IsIn-Of, Of-IsIn, IsTrie-Links, Links-IsTrie, Apart,
  NoDup-Apart, Apart-NoDup,
}
use opx_common_utils.Radix.Good.{
  key, Shared, Grows, Good, Good-Node, Node-Good, SameEntry, key-same, Good-frame,
}
use opx_common_utils.Radix.Grown.{
  Same, IsTrie-frame, Same-Entry, fork-Grows, Fits, Entry, fresh, old, Grown, Entry-Shared,
}

-- `x` has another parent, `n`.
pub record Moved (t t' : Table) (x n : Ptr) : Type 0 where
  pub left : t'.rtn_left x ≡ t.rtn_left x
  pub right : t'.rtn_right x ≡ t.rtn_right x
  pub bit : t'.rtn_bit x ≡ t.rtn_bit x
  pub tbit : t'.rtn_tbit x ≡ t.rtn_tbit x
  pub head : t'.rtn_rth x ≡ t.rtn_rth x
  pub up : t'.rtn_parent x ≡ n

IsTrie-Moved :
    (t t' : Table) (par x n : Ptr) (s : Tree)
    → IsTrie t par x s
    → NoDup (inorder s)
    → Moved t t' x n
    → ((m : Ptr) → IsIn m (inorder s) → m ≢ x → Same t t' m)
    → IsTrie t' n x s
IsTrie-Moved t t' par x n leaf is dup moved same = is
IsTrie-Moved t t' par x n (node l q r) is dup moved same =
    let links = IsTrie-Links t par x true l q r is in
    let parts = NoDup-Apart true l q r dup in
    let at : Moved t t' q n = subst (λ z. Moved t t' z n) links.here moved in
    let at_l = λ (m : Ptr) (i : IsIn m (inorder l)).
      same m (Of-IsIn true m l q r (other i)) (λ e. parts.not_other m i (e ∙ links.here)) in
    let at_r = λ (m : Ptr) (i : IsIn m (inorder r)).
      same m (Of-IsIn true m l q r (side i)) (λ e. parts.not_side m i (e ∙ links.here)) in
    Links-IsTrie t' n x true l q r (record {
      here = links.here;
      real = links.real;
      up = at.up;
      tbit = at.tbit ∙ links.tbit ∙ sym (ap rn_bit at.bit);
      aside =
          subst (λ z. IsTrie t' q z l) (sym at.left)
            (IsTrie-frame t t' q (t.rtn_left q) l at_l links.aside);
      down =
          subst (λ z. IsTrie t' q z r) (sym at.right)
            (IsTrie-frame t t' q (t.rtn_right q) r at_r links.down);
    })

pub Good-raise :
    (t : Table) (par x : Ptr) (lo lo' : ℕ) (s : Tree)
    → IsTrie t par x s
    → Good t lo s
    → lo' ≤ t.rtn_bit x
    → Good t lo' s
Good-raise t par x lo lo' leaf is g h = tt
Good-raise t par x lo lo' (node l q r) is (a, kl, kr, sh, full, gl, gr) h =
    (subst (λ z. lo' ≤ t.rtn_bit z) is.0 h, kl, kr, sh, full, gl, gr)

-- All keys of a subtree have the bits before its top.
pub Good-Shared :
    (t : Table) (par x : Ptr) (lo d : ℕ) (s : Tree)
    → IsTrie t par x s
    → Good t lo s
    → d ≤ t.rtn_bit x
    → Shared t d s
Good-Shared t par x lo d leaf is g h m m' i j hm hm' k lt = elim i [ ]
Good-Shared t par x lo d (node l q r) is g h m m' i j hm hm' k lt =
    let at = ap t.rtn_bit is.0 in
    (Good-Node t lo true l q r g).shared m m' i j hm hm' k (omega (arith, lt, h, at))

pub IsIn-Grows : (m : Ptr) (s : Tree) → IsIn m (inorder s) → Grows s
IsIn-Grows m leaf i = elim i [ ]
IsIn-Grows m (node l q r) i = tt

module _ (t t' : Table) (rth : Ptr) (bitlen : ℕ) (add new : Ptr) (d : ℕ) (f : Ptr)
    (fits : Fits t t' rth d f) where
  -- `n` at the bit `d` is above `s` on its side `v`, and `c` on the other.
  pub record Atop (above x n : Ptr) (v : Bool) (c s : Tree) : Type 0 where
    pub f_in : IsIn f (inorder s)
    pub is : IsTrie t above x s
    pub dup : NoDup (inorder s)
    pub lower : d < t.rtn_bit x
    pub real : n ≢ null
    pub once : Apart c n s
    pub c_nodes : (m : Ptr) → IsIn m (inorder c) → (m ≡ add) ⊎ (m ≡ new)
    pub n_node : (n ≡ add) ⊎ (n ≡ new)
    pub up : t'.rtn_parent n ≡ above
    pub bit : t'.rtn_bit n ≡ d
    pub tbit : t'.rtn_tbit n ≡ rn_bit d
    pub down : child t' v n ≡ x
    pub aside : IsTrie t' n (child t' (not v) n) c
    pub moved : Moved t t' x n
    pub same : (m : Ptr) → IsIn m (inorder s) → m ≢ x → Same t t' m
    pub his : key_bit (key t f) d ≡ digit v
    pub c_keys : KeysHave t' d (digit (not v)) c
    pub c_good : Good t' (d + 1) c
    pub full : t'.rtn_rth n ≡ null → Grows c
    pub c_new :
        (m : Ptr)
        → IsIn m (inorder c)
        → t'.rtn_rth m ≢ null
        → (t'.rtn_rth m ≡ rth) × (t'.rtn_bit m ≡ bitlen)
    pub n_new : t'.rtn_rth n ≢ null → (t'.rtn_rth n ≡ rth) × (t'.rtn_bit n ≡ bitlen)
    pub at : Ptr
    pub at_in : IsIn at (inorder (fork v c n s))
    pub at_new : (t'.rtn_rth at ≡ rth) × (t'.rtn_bit at ≡ bitlen)

  pub Atop-Grown :
      (above x n : Ptr) (v : Bool) (c s : Tree)
      → Atop above x n v c s
      → Grown t t' rth bitlen add new d above x n s (fork v c n s)
  Atop-Grown above x n v c s k =
      let entry_x : SameEntry t t' x = record { bit = k.moved.bit; head = k.moved.head } in
      let same_s : (m : Ptr) → IsIn m (inorder s) → SameEntry t t' m = λ m i.
        elim (Bool-cases (m == x)) [
          | inl e ↦ let mx : x ≡ m = ground arith in subst (λ z. SameEntry t t' z) mx entry_x
          | inr e ↦ Same-Entry t t' m (k.same m i (ground arith))
        ] in
      let all : (m : Ptr)
          → IsIn m (inorder (fork v c n s))
          → t'.rtn_rth m ≢ null
          → Entry t t' rth bitlen add new m s =
        λ m i h. elim (IsIn-Of v m c n s i) [
          | other j ↦ let (e, b) = k.c_new m j h in fresh e b
          | self z ↦
              let (e, b) = k.n_new (λ w. h (ap t'.rtn_rth z ∙ w)) in
              fresh (ap t'.rtn_rth z ∙ e) (ap t'.rtn_bit z ∙ b)
          | side j ↦ old j (same_s m j)
        ] in
      record {
        is = Links-IsTrie t' above n v c n s (record {
          here = refl;
          real = k.real;
          up = k.up;
          tbit = k.tbit ∙ sym (ap rn_bit k.bit);
          aside = k.aside;
          down =
              subst (λ z. IsTrie t' n z s) (sym k.down)
                (IsTrie-Moved t t' above x n s k.is k.dup k.moved k.same);
        });
        good = λ lo low g.
            let shared =
              Good-Shared t above x lo d s k.is g (let h = k.lower in omega (arith, h)) in
            Node-Good t' lo v c n s (record {
              low = subst (λ z. lo ≤ z) (sym k.bit) low;
              aside = subst (λ z. KeysHave t' z (digit (not v)) c) (sym k.bit) k.c_keys;
              beside =
                  subst (λ z. KeysHave t' z (digit v) s) (sym k.bit)
                    (λ m i hm.
                      let e = same_s m i in
                      ap (λ z. key_bit z d) (key-same t t' fits.keys m e)
                      ∙ Good-Shared t above x lo (d + 1) s k.is g
                          (let h = k.lower in omega (arith, h)) m f i k.f_in (λ z. hm (e.head ∙ z))
                          fits.f_head d (omega arith)
                      ∙ k.his);
              shared =
                  subst (λ z. Shared t' z (fork v c n s)) (sym k.bit)
                    (Entry-Shared t t' rth bitlen add new d f fits d s (fork v c n s) (omega arith)
                      k.f_in shared all);
              full = λ z. (k.full z, IsIn-Grows f s k.f_in);
              good_other = subst (λ z. Good t' (z + 1) c) (sym k.bit) k.c_good;
              good_side =
                  subst (λ z. Good t' (z + 1) s) (sym k.bit)
                    (Good-frame t t' fits.keys (d + 1) s same_s (
                      Good-raise t above x lo (d + 1) s k.is g
                        (let h = k.lower in omega (arith, h))));
            });
        once = Apart-NoDup v c n s k.once;
        nodes = λ m i. elim (IsIn-Of v m c n s i) [
          | other j ↦ inr (k.c_nodes m j)
          | self e ↦ inr (elim k.n_node [ inl z ↦ inl (e ∙ z) | inr z ↦ inr (e ∙ z) ])
          | side j ↦ inl j
        ];
        full = fork-Grows v c n s;
        entries = all;
        kept = λ m i h. (Of-IsIn v m c n s (side i), same_s m i);
        at = k.at;
        at_in = k.at_in;
        at_entry = k.at_new;
      }
