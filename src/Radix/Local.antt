-- ===== src/Radix/Local.antt =====
-- What an insertion of std_radix.c finds at the place of the first difference, and what it leaves there.
use opx_common_utils.Prelude.{
  ℕ, ◌≤◌, ◌<◌, ◌≡◌, ◌≢◌, inl, inr, refl, sym, ap, ◌∙◌, arith, Bool, true, false, not, ◌==◌, subst,
  Bool-cases, some, bit_and,
}
use opx_common_utils.BitMask.{Bytes}
use opx_common_utils.Tree.{Tree, inorder, IsIn, NoDup}
use opx_common_utils.Radix.{Ptr, null, Table, is_deleted}
use opx_common_utils.Radix.Compare.{key_bit, Agree}
use opx_common_utils.Radix.Shape.{IsTrie}
use opx_common_utils.Radix.Insert.{set_at, up, join, insert_at}
use opx_common_utils.Radix.Fork.{child}
use opx_common_utils.Radix.Good.{key, Good}
use opx_common_utils.Radix.Way.{Way, top-low, Way-Grows}
use opx_common_utils.Radix.Grown.{Same, child-Same, IsTrie-place, Fits, Grown}
use opx_common_utils.Radix.Joined.{Joined-Grown}
use opx_common_utils.Radix.Steps.{set_at-off, set_at-on}
use opx_common_utils.Radix.Hung.{Linked}

-- The place `s`, with the top `x` below `above`, of the bit `d`; the loop down ended at `f`.
pub record Site (t : Table) (rth : Ptr) (bitlen : ℕ) (add new : Ptr) (d : ℕ) (f above x : Ptr)
    (s : Tree) : Type 0 where
  pub lo : ℕ
  pub is : IsTrie t above x s
  pub good : Good t lo s
  pub dup : NoDup (inorder s)
  pub way : Way t (t.rdx_rth_addr rth) bitlen f s
  pub f_in : IsIn f (inorder s)
  pub f_head : t.rtn_rth f ≢ null
  pub behind : d ≤ t.rtn_bit x
  pub within : d ≤ bitlen
  pub agree : Agree (t.rdx_rth_addr rth) (key t f) d
  pub differs : d < bitlen → d < t.rtn_bit f → key_bit (t.rdx_rth_addr rth) d ≢ key_bit (key t f) d
  pub rth_real : rth ≢ null
  pub add_real : add ≢ null
  pub new_real : new ≢ null
  pub two : add ≢ new
  pub add_out : IsIn add (inorder s) → ⊥
  pub new_out : IsIn new (inorder s) → ⊥
  pub add_above : add ≢ above
  pub new_above : new ≢ above
  pub above_out : IsIn above (inorder s) → ⊥
  pub link : above ≢ null → Linked t above x
  pub root : above ≡ null → t.rtt_root ≡ x

-- The subtree has the entry, and nothing else in the table changes that look ups read.
pub record Settled (t t' : Table) (rth : Ptr) (bitlen : ℕ) (add new : Ptr) (d : ℕ) (f above x : Ptr)
    (s : Tree) : Type 0 where
  pub fits : Fits t t' rth d f
  pub top : Ptr
  pub s' : Tree
  pub grown : Grown t t' rth bitlen add new d above x top s s'
  pub frame : (m : Ptr) → (IsIn m (inorder s) → ⊥) → m ≢ above → m ≢ add → m ≢ new → Same t t' m
  pub linked :
      (v : Bool)
      → above ≢ null
      → child t v above ≡ x
      → child t (not v) above ≢ x
      → (child t' v above ≡ top) × (child t' (not v) above ≡ child t (not v) above)
  pub above_same :
      above ≢ null
      → (t'.rtn_parent above ≡ t.rtn_parent above)
        × (t'.rtn_bit above ≡ t.rtn_bit above)
        × (t'.rtn_tbit above ≡ t.rtn_tbit above)
        × (t'.rtn_rth above ≡ t.rtn_rth above)
  pub root_new : above ≡ null → t'.rtt_root ≡ top
  pub root_old : above ≢ null → t'.rtt_root ≡ t.rtt_root

abbrev joined : Ptr → Ptr → Table → Table
joined x rth t = record t {
  rtn_rth = set_at t.rtn_rth x rth;
  rth_rtn = set_at t.rth_rtn rth x;
  rtn_flags = set_at t.rtn_flags x (bit_and (t.rtn_flags x) 253);
  rtt_routes = up t.rtt_routes;
}

join-joined : (t : Table) (x rth : Ptr) → t.rtn_rth x ≡ null → join x rth t ≡ (rth, joined x rth t)
unfolding join
join-joined t x rth e =
    let bare : (t.rtn_rth x == null) ≡ true = ground (arith, e) in
    elim (Bool-cases (is_deleted t x)) [ inl y ↦ rw (bare, y) refl | inr n ↦ rw (bare, n) refl ]

pub join-old :
    (t : Table) (x rth : Ptr)
    → t.rtn_rth x ≢ null
    → is_deleted t x ≡ false
    → join x rth t ≡ (t.rtn_rth x, t)
unfolding join
join-old t x rth n e =
    let head : (t.rtn_rth x == null) ≡ false = ground (arith, n) in rw (head, e) refl

pub insert_at-join :
    (t : Table) (rth : Ptr) (bitlen : ℕ) (his : Bytes) (d : ℕ) (x add new : Ptr)
    → d ≡ bitlen
    → t.rtn_bit x ≡ bitlen
    → insert_at t rth bitlen his d x add new ≡ some (join x rth t)
unfolding insert_at
insert_at-join t rth bitlen his d x add new e e' =
    let at_end : (d == bitlen) ≡ true = ground (arith, e) in
    let there_is : (t.rtn_bit x == bitlen) ≡ true = ground (arith, e') in rw (at_end, there_is) refl

module _ (t : Table) (rth : Ptr) (bitlen : ℕ) (add new : Ptr) (d : ℕ) (f above x : Ptr) (s : Tree)
    (k : Site t rth bitlen add new d f above x s) where
  pub x_in : IsIn x (inorder s)
  x_in = elim (IsTrie-place t above x s k.is) [
    | inl e ↦ absurd (
        (top-low t k.lo above x s k.is k.good (Way-Grows t (t.rdx_rth_addr rth) bitlen f s k.way)).2
          e)
    | inr i ↦ i
  ]

  -- A node that is there without an entry gets it.
  pub join-Settled :
      d ≡ bitlen
      → t.rtn_bit x ≡ bitlen
      → t.rtn_rth x ≡ null
      → (t' : Table) × (insert_at t rth bitlen (key t f) d x add new ≡ some (rth, t'))
        × Settled t t' rth bitlen add new d f above x s
  join-Settled e e' bare =
      let t' = joined x rth t in
      let same : (m : Ptr) → m ≢ x → Same t t' m = λ m n. record {
        left = refl;
        right = refl;
        parent = refl;
        bit = refl;
        tbit = refl;
        head = set_at-off t.rtn_rth x rth m n;
      } in
      let out_above : above ≢ x = λ z. k.above_out (subst (λ w. IsIn w (inorder s)) (sym z) x_in) in
      let fits : Fits t t' rth d f = record { keys = refl; f_head = k.f_head; agree = k.agree } in
      (
        t',
        insert_at-join t rth bitlen (key t f) d x add new e e' ∙ ap some (join-joined t x rth bare),
        record {
          fits = fits;
          top = x;
          s' = s;
          grown = Joined-Grown t t' rth bitlen add new d f fits above x s (record {
            f_in = k.f_in;
            is = k.is;
            dup = k.dup;
            at_d = e' ∙ sym e;
            at_end = e;
            bare = bare;
            real = k.rth_real;
            left = refl;
            right = refl;
            parent = refl;
            bit = refl;
            tbit = refl;
            head = set_at-on t.rtn_rth x rth;
            same = λ m i n. same m n;
          });
          frame = λ m out n na nn. same m (λ z. out (subst (λ w. IsIn w (inorder s)) (sym z) x_in));
          linked = λ v n on off. (
            child-Same t t' above v (same above out_above) ∙ on,
            child-Same t t' above (not v) (same above out_above),
          );
          above_same = λ n. (refl, refl, refl, (same above out_above).head);
          root_new = λ z. k.root z;
          root_old = λ z. refl;
        },
      )
