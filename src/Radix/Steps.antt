-- ===== src/Radix/Steps.antt =====
-- What the steps of `std_radix_insert` of std_radix.c do to the links of the nodes.
use opx_common_utils.Prelude.{
  ◌≡◌, ◌≢◌, refl, sym, ap, ◌∙◌, arith, Bool, true, false, not, ◌==◌, some,
}
use opx_common_utils.BitMask.{Bytes}
use opx_common_utils.Radix.{Ptr, null, Table, rn_bit, rn_byte, bit_test}
use opx_common_utils.Radix.Compare.{bit_test-key_bit}
use opx_common_utils.Radix.Insert.{set_at, up, below, hang, over, split}
use opx_common_utils.Radix.Fork.{child}
use opx_common_utils.Radix.Way.{turn}

pub set_at-off {ℓ} :
    {A : Type ℓ} (f : Ptr → A) (p : Ptr) (v : A) (m : Ptr) → m ≢ p → set_at f p v m ≡ f m
set_at-off f p v m n = let off : (m == p) ≡ false = ground (arith, n) in rw off refl

pub set_at-on {ℓ} : {A : Type ℓ} (f : Ptr → A) (p : Ptr) (v : A) → set_at f p v p ≡ v
set_at-on f p v = let on : (p == p) ≡ true = ground arith in rw on refl

-- Only the child of `p` on the side `v` is another one.
pub record SetChild (t t' : Table) (v : Bool) (p q : Ptr) : Type 0 where
  pub parent : t'.rtn_parent ≡ t.rtn_parent
  pub bit : t'.rtn_bit ≡ t.rtn_bit
  pub tbit : t'.rtn_tbit ≡ t.rtn_tbit
  pub head : t'.rtn_rth ≡ t.rtn_rth
  pub keys : t'.rdx_rth_addr ≡ t.rdx_rth_addr
  pub root : t'.rtt_root ≡ t.rtt_root
  pub on : child t' v p ≡ q
  pub off : (m : Ptr) → child t' (not v) m ≡ child t (not v) m
  pub elsewhere : (m : Ptr) (w : Bool) → m ≢ p → child t' w m ≡ child t w m

abbrev pub set_child : Bool → Ptr → Ptr → Table → Table
set_child true p q t = record t { rtn_right = set_at t.rtn_right p q }
set_child false p q t = record t { rtn_left = set_at t.rtn_left p q }

pub set_child-SetChild : (v : Bool) (p q : Ptr) (t : Table) → SetChild t (set_child v p q t) v p q
set_child-SetChild true p q t = record {
  parent = refl;
  bit = refl;
  tbit = refl;
  head = refl;
  keys = refl;
  root = refl;
  on = set_at-on t.rtn_right p q;
  off = λ m. refl;
  elsewhere = λ m w n. elim w as (λ w. child (set_child true p q t) w m ≡ child t w m) [
    | true ↦ set_at-off t.rtn_right p q m n
    | false ↦ refl
  ];
}
set_child-SetChild false p q t = record {
  parent = refl;
  bit = refl;
  tbit = refl;
  head = refl;
  keys = refl;
  root = refl;
  on = set_at-on t.rtn_left p q;
  off = λ m. refl;
  elsewhere = λ m w n. elim w as (λ w. child (set_child false p q t) w m ≡ child t w m) [
    | true ↦ refl
    | false ↦ set_at-off t.rtn_left p q m n
  ];
}

-- The test of the bit of a node gives the side of the key.
side_of :
    (t : Table) (a : Bytes) (m : Ptr) (v : Bool)
    → t.rtn_tbit m ≡ rn_bit (t.rtn_bit m)
    → v ≡ turn a (t.rtn_bit m)
    → bit_test (a (rn_byte (t.rtn_bit m))) (t.rtn_tbit m) ≡ v
side_of t a m v tb e =
    ap (λ b. bit_test (a (rn_byte (t.rtn_bit m))) b) tb ∙ bit_test-key_bit a (t.rtn_bit m) ∙ sym e

-- `below` where the child is missing.
pub below-set_child :
    (t : Table) (x add : Ptr) (a : Bytes) (v : Bool)
    → t.rtn_tbit x ≡ rn_bit (t.rtn_bit x)
    → v ≡ turn a (t.rtn_bit x)
    → child t v x ≡ null
    → below x add a t
      ≡ some (
          set_child v x add
            (record t { rtn_parent = set_at t.rtn_parent add x; rtt_routes = up t.rtt_routes }))
unfolding below
below-set_child t x add a true tb e bare =
    let bare_child : (t.rtn_right x == null) ≡ true = ground (arith, bare) in
    rw (side_of t a x true tb e, bare_child) refl
below-set_child t x add a false tb e bare =
    let bare_child : (t.rtn_left x == null) ≡ true = ground (arith, bare) in
    rw (side_of t a x false tb e, bare_child) refl

pub over-set_child :
    (t : Table) (x add : Ptr) (his : Bytes) (v : Bool)
    → t.rtn_tbit add ≡ rn_bit (t.rtn_bit add)
    → v ≡ turn his (t.rtn_bit add)
    → over x add his t ≡ set_child v add x t
unfolding over
over-set_child t x add his true tb e = rw (side_of t his add true tb e) refl
over-set_child t x add his false tb e = rw (side_of t his add false tb e) refl

pub split-set_child :
    (t : Table) (x add new : Ptr) (a : Bytes) (v : Bool)
    → t.rtn_tbit new ≡ rn_bit (t.rtn_bit new)
    → v ≡ turn a (t.rtn_bit new)
    → split x add new a t
      ≡ set_child
          (not v)
          new
          x
          (set_child v new add (record t { rtn_parent = set_at t.rtn_parent add new }))
unfolding split
split-set_child t x add new a true tb e = rw (side_of t a new true tb e) refl
split-set_child t x add new a false tb e = rw (side_of t a new false tb e) refl

abbrev pub rehung : (prev x top : Ptr) → Table → Table
rehung prev x top t = record t {
  rtn_parent = set_at (set_at t.rtn_parent x top) top prev;
  rtn_version = set_at t.rtn_version top (t.rtn_version x);
  rtt_routes = up t.rtt_routes;
}

pub hang-root :
    (t : Table) (x top : Ptr)
    → hang null x top t ≡ some (record (rehung null x top t) { rtt_root = top })
unfolding hang
hang-root t x top = refl

pub hang-set_child :
    (t : Table) (prev x top : Ptr) (v : Bool)
    → prev ≢ null
    → child t v prev ≡ x
    → child t (not v) prev ≢ x
    → hang prev x top t ≡ some (set_child v prev top (rehung prev x top t))
unfolding hang
hang-set_child t prev x top true n on off =
    let real : (prev == null) ≡ false = ground (arith, n) in
    let on_right : (t.rtn_right prev == x) ≡ true = ground (arith, on) in rw (real, on_right) refl
hang-set_child t prev x top false n on off =
    let real : (prev == null) ≡ false = ground (arith, n) in
    let not_right : (t.rtn_right prev == x) ≡ false = ground (arith, off) in
    let on_left : (t.rtn_left prev == x) ≡ true = ground (arith, on) in
    rw (real, not_right, on_left) refl
