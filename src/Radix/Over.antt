-- ===== src/Radix/Over.antt =====
-- An insertion of std_radix.c that puts a node above another one, and the case in which this is the node
-- with the new entry.
use opx_common_utils.Prelude.{
  ℕ, ◌<◌, ◌≡◌, ◌≢◌, ◌⊎◌, inl, inr, refl, sym, ap, ◌∙◌, arith, Bool, true, false, not, ◌==◌, subst,
  some,
}
use opx_common_utils.BitMask.{Bytes}
use opx_common_utils.Tree.{Tree, leaf, inorder, IsIn}
use opx_common_utils.Radix.{Ptr, null, Table, rn_bit}
use opx_common_utils.Radix.Insert.{new_node, head_node, over, hang, done, insert_at}
use opx_common_utils.Radix.Fork.{fork, child, self, Of-IsIn}
use opx_common_utils.Radix.Good.{key}
use opx_common_utils.Radix.Way.{turn, digit-turn, top-low, Way-Grows}
use opx_common_utils.Radix.Grown.{Same, child-Same, Fits, Grown}
use opx_common_utils.Radix.Atop.{Moved, Atop-Grown}
use opx_common_utils.Radix.Steps.{set_at-on, set_child, set_child-SetChild, over-set_child}
use opx_common_utils.Radix.Hung.{Linked, Hung, hang-Hung}
use opx_common_utils.Radix.Local.{Site, Settled, x_in}
use opx_common_utils.Radix.Under.{head_node-Same, Same-trans, SetChild-Same}

Hung-Same :
    (t t' : Table) (prev x top m : Ptr)
    → Hung t t' prev x top
    → m ≢ prev
    → m ≢ x
    → m ≢ top
    → Same t t' m
Hung-Same t t' prev x top m h a b c = record {
  left = h.sides m false a;
  right = h.sides m true a;
  parent = h.parents m b c;
  bit = ap (λ g. g m) h.bit;
  tbit = ap (λ g. g m) h.tbit;
  head = ap (λ g. g m) h.head;
}

module _ (t : Table) (rth : Ptr) (bitlen : ℕ) (add new : Ptr) (d : ℕ) (f above x : Ptr) (s : Tree)
    (k : Site t rth bitlen add new d f above x s) where
  pub x_add : x ≢ add
  x_add e =
      k.add_out (subst (λ z. IsIn z (inorder s)) e (x_in t rth bitlen add new d f above x s k))

  pub x_new : x ≢ new
  x_new e =
      k.new_out (subst (λ z. IsIn z (inorder s)) e (x_in t rth bitlen add new d f above x s k))

  pub x_above : x ≢ above
  x_above e =
      k.above_out (subst (λ z. IsIn z (inorder s)) e (x_in t rth bitlen add new d f above x s k))

  pub x_parent : t.rtn_parent x ≡ above
  x_parent =
      (top-low t k.lo above x s k.is k.good (Way-Grows t (t.rdx_rth_addr rth) bitlen f s k.way)).1

  -- `t0` is the table with the new nodes before `n` comes to the place of `x`.
  module _ (t0 : Table) (n : Ptr) (n_new : (n ≡ add) ⊎ (n ≡ new))
      (keys : t0.rdx_rth_addr ≡ t.rdx_rth_addr) (roots : t0.rtt_root ≡ t.rtt_root)
      (off : (m : Ptr) → m ≢ add → m ≢ new → Same t t0 m) where
    at_above : Same t t0 above
    at_above = off above (λ e. k.add_above (sym e)) (λ e. k.new_above (sym e))

    pub not_n : (m : Ptr) → m ≢ add → m ≢ new → m ≢ n
    not_n m a b e = elim n_new [ inl z ↦ a (e ∙ z) | inr z ↦ b (e ∙ z) ]

    pub Linked-Same : above ≢ null → Linked t0 above x
    Linked-Same r =
        let (v, on, not_on) = k.link r in
        (
          v,
          child-Same t t0 above v at_above ∙ on,
          λ z. not_on (sym (child-Same t t0 above (not v) at_above) ∙ z),
        )

    module _ (t' : Table) (h : Hung t0 t' above x n) where
      pub Same-Hung : (m : Ptr) → m ≢ above → m ≢ x → m ≢ add → m ≢ new → Same t t' m
      Same-Hung m a b c e =
          Same-trans t t0 t' m (off m c e) (Hung-Same t0 t' above x n m h a b (not_n m c e))

      pub Moved-Hung : Moved t t' x n
      Moved-Hung =
          let at_x = off x x_add x_new in
          record {
            left = h.sides x false x_above ∙ at_x.left;
            right = h.sides x true x_above ∙ at_x.right;
            bit = ap (λ g. g x) h.bit ∙ at_x.bit;
            tbit = ap (λ g. g x) h.tbit ∙ at_x.tbit;
            head = ap (λ g. g x) h.head ∙ at_x.head;
            up = h.parent_x (not_n x x_add x_new);
          }

      pub Fits-Hung : Fits t t' rth d f
      Fits-Hung = record { keys = h.keys ∙ keys; f_head = k.f_head; agree = k.agree }

      pub Hung-Settled :
          (s' : Tree)
          → Grown t t' rth bitlen add new d above x n s s'
          → Settled t t' rth bitlen add new d f above x s
      Hung-Settled s' grown =
          let own : above ≢ n = not_n above (λ e. k.add_above (sym e)) (λ e. k.new_above (sym e)) in
          record {
            fits = Fits-Hung;
            top = n;
            s' = s';
            grown = grown;
            frame = λ m out a b c.
                Same-Hung m a
                  (λ e. out (
                    subst (λ z. IsIn z (inorder s)) (sym e)
                      (x_in t rth bitlen add new d f above x s k)))
                  b c;
            linked = λ v r on not_on.
                let (top, beside) =
                  h.linked v r (child-Same t t0 above v at_above ∙ on)
                    (λ z. not_on (sym (child-Same t t0 above (not v) at_above) ∙ z)) in
                (top, beside ∙ child-Same t t0 above (not v) at_above);
            above_same = λ r. (
              h.parents above (λ e. x_above (sym e)) own ∙ at_above.parent,
              ap (λ g. g above) h.bit ∙ at_above.bit,
              ap (λ g. g above) h.tbit ∙ at_above.tbit,
              ap (λ g. g above) h.head ∙ at_above.head,
            );
            root_new = h.root_new;
            root_old = λ r. h.root_old r ∙ roots;
          }

insert_at-over :
    (t : Table) (rth : Ptr) (bitlen : ℕ) (his : Bytes) (d : ℕ) (x add new : Ptr)
    → d ≡ bitlen
    → t.rtn_bit x ≢ bitlen
    → (head_node add rth bitlen t).rtn_bit x ≢ d
    → add ≢ null
    → insert_at t rth bitlen his d x add new
      ≡ done rth (hang (t.rtn_parent x) x add (over x add his (head_node add rth bitlen t)))
unfolding insert_at
insert_at-over t rth bitlen his d x add new at_end n n' real =
    let e : (d == bitlen) ≡ true = ground (arith, at_end) in
    let not_there : (t.rtn_bit x == bitlen) ≡ false = ground (arith, n) in
    let there_is : (add == null) ≡ false = ground (arith, real) in
    let at : ((head_node add rth bitlen t).rtn_bit x == d) ≡ false = ground (arith, n') in
    rw (e, not_there, there_is, at) refl

child-null : (t : Table) (n rth : Ptr) (b : ℕ) (v : Bool) → child (head_node n rth b t) v n ≡ null
child-null t n rth b true = set_at-on t.rtn_right n null
child-null t n rth b false = set_at-on t.rtn_left n null

module _ (t : Table) (rth : Ptr) (bitlen : ℕ) (add new : Ptr) (d : ℕ) (f above x : Ptr) (s : Tree)
    (k : Site t rth bitlen add new d f above x s) where
  -- The new entry is above all that have its bits.
  pub over-Settled :
      d ≡ bitlen
      → d < t.rtn_bit x
      → (t' : Table) × (insert_at t rth bitlen (key t f) d x add new ≡ some (rth, t'))
        × Settled t t' rth bitlen add new d f above x s
  over-Settled at_end less =
      let t1 = head_node add rth bitlen t in
      let v = turn (key t f) d in
      let t0 = set_child v add x t1 in
      let sc = set_child-SetChild v add x t1 in
      let xa = x_add t rth bitlen add new d f above x s k in
      let off : (m : Ptr) → m ≢ add → m ≢ new → Same t t0 m = λ m a b.
        Same-trans t t1 t0 m (head_node-Same t add rth bitlen m a)
          (SetChild-Same t1 t0 v add x m sc a) in
      let n_new : (add ≡ add) ⊎ (add ≡ new) = inl refl in
      let link =
        Linked-Same t rth bitlen add new d f above x s k t0 add n_new sc.keys sc.root off in
      let (t', run, h) = hang-Hung t0 above x add link in
      let moved =
        Moved-Hung t rth bitlen add new d f above x s k t0 add n_new sc.keys sc.root off t' h in
      let same =
        Same-Hung t rth bitlen add new d f above x s k t0 add n_new sc.keys sc.root off t' h in
      let fits =
        Fits-Hung t rth bitlen add new d f above x s k t0 add n_new sc.keys sc.root off t' h in
      let bit1 : t1.rtn_bit add ≡ bitlen = set_at-on t.rtn_bit add bitlen in
      let tbit1 : t1.rtn_tbit add ≡ rn_bit bitlen = set_at-on t.rtn_tbit add (rn_bit bitlen) in
      let head : t'.rtn_rth add ≡ rth =
        ap (λ g. g add) h.head
        ∙ ap (λ g. g add) sc.head
        ∙ set_at-on (new_node add bitlen t).rtn_rth add rth in
      let bit : t'.rtn_bit add ≡ bitlen = ap (λ g. g add) h.bit ∙ ap (λ g. g add) sc.bit ∙ bit1 in
      let x_same = (head_node-Same t add rth bitlen x xa).bit in
      (
        t',
        insert_at-over t rth bitlen (key t f) d x add new at_end
              (λ e. omega (arith, e, less, at_end)) (λ e. omega (arith, e, less, x_same)) k.add_real
            ∙ ap (λ z. done rth (hang (t.rtn_parent x) x add z))
                (over-set_child t1 x add (key t f) v (tbit1 ∙ sym (ap rn_bit bit1))
                  (ap (turn (key t f)) (at_end ∙ sym bit1)))
            ∙ ap (λ z. done rth (hang z x add t0)) (x_parent t rth bitlen add new d f above x s k)
            ∙ ap (done rth) run,
        Hung-Settled t rth bitlen add new d f above x s k t0 add n_new sc.keys sc.root off t' h
            (fork v leaf add s)
            (Atop-Grown t t' rth bitlen add new d f fits above x add v leaf s (record {
              f_in = k.f_in;
              is = k.is;
              dup = k.dup;
              lower = less;
              real = k.add_real;
              once = record {
                in_other = tt;
                in_side = k.dup;
                not_other = λ m i. elim i [ ];
                not_side = λ m i e. k.add_out (subst (λ z. IsIn z (inorder s)) e i);
                apart = λ m i. elim i [ ];
              };
              c_nodes = λ m i. elim i [ ];
              n_node = n_new;
              up = h.parent_top;
              bit = bit ∙ sym at_end;
              tbit =
                  ap (λ g. g add) h.tbit ∙ ap (λ g. g add) sc.tbit ∙ tbit1 ∙ ap rn_bit (sym at_end);
              down = h.sides add v k.add_above ∙ sc.on;
              aside =
                  h.sides add (not v) k.add_above
                  ∙ sc.off add
                  ∙ child-null t add rth bitlen (not v);
              moved = moved;
              same = λ m i n.
                  same m (λ e. k.above_out (subst (λ z. IsIn z (inorder s)) e i)) n
                    (λ e. k.add_out (subst (λ z. IsIn z (inorder s)) e i))
                    (λ e. k.new_out (subst (λ z. IsIn z (inorder s)) e i));
              his = sym (digit-turn (key t f) d);
              c_keys = λ m i. elim i [ ];
              c_good = tt;
              full = λ z. k.rth_real (sym head ∙ z);
              c_new = λ m i. elim i [ ];
              n_new = λ z. (head, bit);
              at = add;
              at_in = Of-IsIn v add leaf add s (self refl);
              at_new = (head, bit);
            })),
      )
