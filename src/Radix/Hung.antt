-- ===== src/Radix/Hung.antt =====
-- `hang` of the insertion into a radix tree of std_radix.c: a node comes to the place of another.
use opx_common_utils.Prelude.{
  ◌≡◌, ◌≢◌, inl, inr, refl, sym, ap, ◌∙◌, arith, Bool, true, false, not, ◌==◌, subst, Bool-cases,
  some,
}
use opx_common_utils.Radix.{Ptr, null, Table}
use opx_common_utils.Radix.Insert.{set_at, hang}
use opx_common_utils.Radix.Fork.{child}
use opx_common_utils.Radix.Steps.{
  set_at-off, set_at-on, set_child, set_child-SetChild, rehung, hang-root, hang-set_child,
}

-- `x` is the child of `above` on one side only.
abbrev pub Linked : Table → (above x : Ptr) → Type 0
Linked t above x = (v : Bool) × (child t v above ≡ x) × (child t (not v) above ≢ x)

pub record Hung (t t' : Table) (prev x top : Ptr) : Type 0 where
  pub bit : t'.rtn_bit ≡ t.rtn_bit
  pub tbit : t'.rtn_tbit ≡ t.rtn_tbit
  pub head : t'.rtn_rth ≡ t.rtn_rth
  pub keys : t'.rdx_rth_addr ≡ t.rdx_rth_addr
  pub parent_top : t'.rtn_parent top ≡ prev
  pub parent_x : x ≢ top → t'.rtn_parent x ≡ top
  pub parents : (m : Ptr) → m ≢ x → m ≢ top → t'.rtn_parent m ≡ t.rtn_parent m
  pub sides : (m : Ptr) (w : Bool) → m ≢ prev → child t' w m ≡ child t w m
  pub linked :
      (v : Bool)
      → prev ≢ null
      → child t v prev ≡ x
      → child t (not v) prev ≢ x
      → (child t' v prev ≡ top) × (child t' (not v) prev ≡ child t (not v) prev)
  pub root_new : prev ≡ null → t'.rtt_root ≡ top
  pub root_old : prev ≢ null → t'.rtt_root ≡ t.rtt_root

one_side :
    (t : Table) (prev x : Ptr) (v w : Bool)
    → child t v prev ≡ x
    → child t (not v) prev ≢ x
    → child t w prev ≡ x
    → w ≡ v
one_side t prev x true true a b c = refl
one_side t prev x false false a b c = refl
one_side t prev x true false a b c = absurd (b c)
one_side t prev x false true a b c = absurd (b c)

rehung-parents :
    (t : Table) (prev x top m : Ptr)
    → m ≢ x
    → m ≢ top
    → (rehung prev x top t).rtn_parent m ≡ t.rtn_parent m
rehung-parents t prev x top m n n' =
    set_at-off (set_at t.rtn_parent x top) top prev m n' ∙ set_at-off t.rtn_parent x top m n

rehung-parent_x :
    (t : Table) (prev x top : Ptr) → x ≢ top → (rehung prev x top t).rtn_parent x ≡ top
rehung-parent_x t prev x top n =
    set_at-off (set_at t.rtn_parent x top) top prev x n ∙ set_at-on t.rtn_parent x top

hang-Hung_root :
    (t : Table) (x top : Ptr) → Hung t (record (rehung null x top t) { rtt_root = top }) null x top
hang-Hung_root t x top = record {
  bit = refl;
  tbit = refl;
  head = refl;
  keys = refl;
  parent_top = set_at-on (set_at t.rtn_parent x top) top null;
  parent_x = rehung-parent_x t null x top;
  parents = rehung-parents t null x top;
  sides = λ m w n.
      elim w as (λ w. child (record (rehung null x top t) { rtt_root = top }) w m ≡ child t w m) [
        | true ↦ refl
        | false ↦ refl
      ];
  linked = λ v n. absurd (n refl);
  root_new = λ e. refl;
  root_old = λ n. absurd (n refl);
}

rehung-child :
    (t : Table) (prev x top m : Ptr) (w : Bool) → child (rehung prev x top t) w m ≡ child t w m
rehung-child t prev x top m true = refl
rehung-child t prev x top m false = refl

hang-Hung-set_child :
    (t : Table) (prev x top : Ptr) (v : Bool)
    → prev ≢ null
    → child t v prev ≡ x
    → child t (not v) prev ≢ x
    → Hung t (set_child v prev top (rehung prev x top t)) prev x top
hang-Hung-set_child t prev x top v n on off =
    let t0 = rehung prev x top t in
    let k = set_child-SetChild v prev top t0 in
    record {
      bit = k.bit;
      tbit = k.tbit;
      head = k.head;
      keys = k.keys;
      parent_top = ap (λ g. g top) k.parent ∙ set_at-on (set_at t.rtn_parent x top) top prev;
      parent_x = λ e. ap (λ g. g x) k.parent ∙ rehung-parent_x t prev x top e;
      parents = λ m e e'. ap (λ g. g m) k.parent ∙ rehung-parents t prev x top m e e';
      sides = λ m w e. k.elsewhere m w e ∙ rehung-child t prev x top m w;
      linked = λ w real on_w off_w.
          let same = one_side t prev x v w on off on_w in
          (
            ap (λ z. child (set_child v prev top t0) z prev) same ∙ k.on,
            ap (λ z. child (set_child v prev top t0) (not z) prev) same
                ∙ k.off prev
                ∙ rehung-child t prev x top prev (not v)
                ∙ sym (ap (λ z. child t (not z) prev) same),
          );
      root_new = λ e. absurd (n e);
      root_old = λ e. k.root;
    }

pub hang-Hung :
    (t : Table) (prev x top : Ptr)
    → (prev ≢ null → Linked t prev x)
    → (t' : Table) × (hang prev x top t ≡ some t') × Hung t t' prev x top
hang-Hung t prev x top link = elim (Bool-cases (prev == null)) [
  | inl e ↦
      let at : null ≡ prev = ground arith in
      subst (λ p. (t' : Table) × (hang p x top t ≡ some t') × Hung t t' p x top) at
        (record (rehung null x top t) { rtt_root = top }, hang-root t x top, hang-Hung_root t x top)
  | inr e ↦
      let real : prev ≢ null = ground arith in
      let (v, on, off) = link real in
      (
        set_child v prev top (rehung prev x top t),
        hang-set_child t prev x top v real on off,
        hang-Hung-set_child t prev x top v real on off,
      )
]
