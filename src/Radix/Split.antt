-- ===== src/Radix/Split.antt =====
-- An insertion of std_radix.c that splits: a new node without an entry is above the new entry and the old
-- ones.
use opx_common_utils.Prelude.{
  ℕ, ◌+◌, ◌<◌, ◌≡◌, ◌≢◌, ◌⊎◌, inl, inr, ◌-◌, ◌/◌, ◌%◌, refl, sym, ap, ◌∙◌, arith, Bool, true, false,
  not, ◌==◌, subst, Bool-cases, some,
}
use opx_common_utils.BitMask.{Bytes}
use opx_common_utils.Tree.{Tree, leaf, inorder, IsIn}
use opx_common_utils.Radix.{Ptr, null, Table, rn_bit}
use opx_common_utils.Radix.Compare.{key_bit}
use opx_common_utils.Radix.Shape.{IsTrie}
use opx_common_utils.Radix.Insert.{set_at, new_node, head_node, split, hang, done, insert_at}
use opx_common_utils.Radix.Fork.{fork, child, digit, other, self, Of-IsIn}
use opx_common_utils.Radix.Good.{key}
use opx_common_utils.Radix.Way.{turn, digit-turn}
use opx_common_utils.Radix.Grown.{Same}
use opx_common_utils.Radix.Atop.{Atop-Grown}
use opx_common_utils.Radix.Steps.{
  set_at-off, set_at-on, set_child, set_child-SetChild, split-set_child,
}
use opx_common_utils.Radix.Hung.{hang-Hung}
use opx_common_utils.Radix.Local.{Site, Settled}
use opx_common_utils.Radix.Under.{new_node-Same, head_node-Same, Same-trans, SetChild-Same}
use opx_common_utils.Bits.{bit-le-one}
use opx_common_utils.Radix.Leaf.{one, one-node, one-NoDup, Leaf, Leaf-IsTrie, Leaf-Good}
use opx_common_utils.Radix.Grown.{new-key}
use opx_common_utils.Radix.Over.{
  x_add, x_parent, Linked-Same, Same-Hung, Moved-Hung, Fits-Hung, Hung-Settled,
}

insert_at-split :
    (t : Table) (rth : Ptr) (bitlen : ℕ) (his : Bytes) (d : ℕ) (x add new : Ptr)
    → d < bitlen
    → (head_node add rth bitlen t).rtn_bit x ≢ d
    → add ≢ null
    → new ≢ null
    → insert_at t rth bitlen his d x add new
      ≡ done rth (
          hang
            (t.rtn_parent x)
            x
            new
            (split x add new (t.rdx_rth_addr rth) (new_node new d (head_node add rth bitlen t))))
unfolding insert_at
insert_at-split t rth bitlen his d x add new less n real real' =
    let e : (d == bitlen) ≡ false = ground (arith, less) in
    let there_is : (add == null) ≡ false = ground (arith, real) in
    let there_is_new : (new == null) ≡ false = ground (arith, real') in
    let at : ((head_node add rth bitlen t).rtn_bit x == d) ≡ false = ground (arith, n) in
    rw (e, there_is, at, there_is_new) refl

not-not : (v : Bool) → not (not v) ≡ v
not-not true = refl
not-not false = refl

-- A key that differs at a bit is on the other side.
other_side :
    (a b : Bytes) (d : ℕ) → key_bit a d ≢ key_bit b d → key_bit b d ≡ digit (not (turn a d))
other_side a b d n =
    let low = bit-le-one (a (d / 8)) (7 - d % 8) in
    let low' = bit-le-one (b (d / 8)) (7 - d % 8) in
    elim (Bool-cases (turn a d)) [
      | inl e ↦
          let one_a : key_bit a d ≡ 1 = ground arith in
          omega (arith, low', n, one_a) ∙ sym (ap (λ z. digit (not z)) e)
      | inr e ↦
          let not_one : key_bit a d ≢ 1 = ground arith in
          omega (arith, low, low', n, not_one) ∙ sym (ap (λ z. digit (not z)) e)
    ]

module _ (t : Table) (rth : Ptr) (bitlen : ℕ) (add new : Ptr) (d : ℕ) (f above x : Ptr) (s : Tree)
    (k : Site t rth bitlen add new d f above x s) where
  -- The two keys part: a node without an entry is above both.
  pub split-Settled :
      d < bitlen
      → d < t.rtn_bit x
      → d < t.rtn_bit f
      → (t' : Table) × (insert_at t rth bitlen (key t f) d x add new ≡ some (rth, t'))
        × Settled t t' rth bitlen add new d f above x s
  split-Settled early less less_f =
      let a = t.rdx_rth_addr rth in
      let v = turn a d in
      let t1 = head_node add rth bitlen t in
      let t2 = new_node new d t1 in
      let t3 = record t2 { rtn_parent = set_at t2.rtn_parent add new } in
      let t4 = set_child v new add t3 in
      let t0 = set_child (not v) new x t4 in
      let sc = set_child-SetChild v new add t3 in
      let sc' = set_child-SetChild (not v) new x t4 in
      let xa = x_add t rth bitlen add new d f above x s k in
      let same2 : (m : Ptr) → m ≢ new → Same t1 t3 m → Same t1 t0 m = λ m b q.
        Same-trans t1 t3 t0 m q (
          Same-trans t3 t4 t0 m (SetChild-Same t3 t4 v new add m sc b)
            (SetChild-Same t4 t0 (not v) new x m sc' b)) in
      let off : (m : Ptr) → m ≢ add → m ≢ new → Same t t0 m = λ m na nn.
        let q = new_node-Same t1 new d m nn in
        Same-trans t t1 t0 m (head_node-Same t add rth bitlen m na) (
          same2 m nn (record {
            left = q.left;
            right = q.right;
            parent = set_at-off t2.rtn_parent add new m na ∙ q.parent;
            bit = q.bit;
            tbit = q.tbit;
            head = q.head;
          })) in
      let n_new : (new ≡ add) ⊎ (new ≡ new) = inr refl in
      let keys : t0.rdx_rth_addr ≡ t.rdx_rth_addr = sc'.keys ∙ sc.keys in
      let roots : t0.rtt_root ≡ t.rtt_root = sc'.root ∙ sc.root in
      let link = Linked-Same t rth bitlen add new d f above x s k t0 new n_new keys roots off in
      let (t', run, h) = hang-Hung t0 above x new link in
      let moved =
        Moved-Hung t rth bitlen add new d f above x s k t0 new n_new keys roots off t' h in
      let same = Same-Hung t rth bitlen add new d f above x s k t0 new n_new keys roots off t' h in
      let fits = Fits-Hung t rth bitlen add new d f above x s k t0 new n_new keys roots off t' h in
      let bit2 : t2.rtn_bit new ≡ d = set_at-on t1.rtn_bit new d in
      let tbit2 : t2.rtn_tbit new ≡ rn_bit d = set_at-on t1.rtn_tbit new (rn_bit d) in
      let bits : t0.rtn_bit ≡ t2.rtn_bit = sc'.bit ∙ sc.bit in
      let tbits : t0.rtn_tbit ≡ t2.rtn_tbit = sc'.tbit ∙ sc.tbit in
      let heads : t0.rtn_rth ≡ t2.rtn_rth = sc'.head ∙ sc.head in
      let bare : t'.rtn_rth new ≡ null =
        ap (λ g. g new) h.head ∙ ap (λ g. g new) heads ∙ set_at-on t1.rtn_rth new null in
      let new_add : new ≢ add = λ e. k.two (sym e) in
      let at_add = new_node-Same t1 new d add k.two in
      let childs = λ (w : Bool).
        h.sides add w k.add_above ∙ sc'.elsewhere add w k.two ∙ sc.elsewhere add w k.two in
      let leaf_add : Leaf t' rth bitlen add new = record {
        real = k.add_real;
        left = childs false ∙ at_add.left ∙ set_at-on t.rtn_left add null;
        right = childs true ∙ at_add.right ∙ set_at-on t.rtn_right add null;
        up =
            h.parents add (λ e. xa (sym e)) k.two
            ∙ ap (λ g. g add) (sc'.parent ∙ sc.parent)
            ∙ set_at-on t2.rtn_parent add new;
        bit = ap (λ g. g add) (h.bit ∙ bits) ∙ at_add.bit ∙ set_at-on t.rtn_bit add bitlen;
        tbit =
            ap (λ g. g add) (h.tbit ∙ tbits)
            ∙ at_add.tbit
            ∙ set_at-on t.rtn_tbit add (rn_bit bitlen);
        head =
            ap (λ g. g add) (h.head ∙ heads)
            ∙ at_add.head
            ∙ set_at-on (new_node add bitlen t).rtn_rth add rth;
        rth_real = k.rth_real;
      } in
      let x_same = (head_node-Same t add rth bitlen x xa).bit in
      let at_s : (m p : Ptr) → (IsIn p (inorder s) → ⊥) → IsIn m (inorder s) → m ≢ p =
        λ m p out i e. out (subst (λ z. IsIn z (inorder s)) e i) in
      let aside : child t' (not (not v)) new ≡ add =
        ap (λ z. child t' z new) (not-not v)
        ∙ h.sides new v k.new_above
        ∙ ap (λ z. child t0 z new) (sym (not-not v))
        ∙ sc'.off new
        ∙ ap (λ z. child t4 z new) (not-not v)
        ∙ sc.on in
      (
        t',
        insert_at-split t rth bitlen (key t f) d x add new early
              (λ e. omega (arith, e, less, x_same)) k.add_real k.new_real
            ∙ ap (λ z. done rth (hang (t.rtn_parent x) x new z))
                (split-set_child t2 x add new a v (tbit2 ∙ sym (ap rn_bit bit2))
                  (ap (turn a) (sym bit2)))
            ∙ ap (λ z. done rth (hang z x new t0)) (x_parent t rth bitlen add new d f above x s k)
            ∙ ap (done rth) run,
        Hung-Settled t rth bitlen add new d f above x s k t0 new n_new keys roots off t' h
            (fork (not v) (one add) new s)
            (Atop-Grown t t' rth bitlen add new d f fits above x new (not v) (one add) s (record {
              f_in = k.f_in;
              is = k.is;
              dup = k.dup;
              lower = less;
              real = k.new_real;
              once = record {
                in_other = one-NoDup add;
                in_side = k.dup;
                not_other = λ m i e. k.two (sym (one-node m add i) ∙ e);
                not_side = λ m i. at_s m new k.new_out i;
                apart = λ m i j. at_s m add k.add_out j (one-node m add i);
              };
              c_nodes = λ m i. inl (one-node m add i);
              n_node = n_new;
              up = h.parent_top;
              bit = ap (λ g. g new) (h.bit ∙ bits) ∙ bit2;
              tbit = ap (λ g. g new) (h.tbit ∙ tbits) ∙ tbit2;
              down = h.sides new (not v) k.new_above ∙ sc'.on;
              aside =
                  subst (λ z. IsTrie t' new z (one add)) (sym aside)
                    (Leaf-IsTrie t' rth bitlen add new leaf_add);
              moved = moved;
              same = λ m i n.
                  same m (at_s m above k.above_out i) n (at_s m add k.add_out i)
                    (at_s m new k.new_out i);
              his = other_side a (key t f) d (k.differs early less_f);
              c_keys = λ m i hm.
                  ap (λ z. key_bit z d)
                    (new-key t t' rth bitlen add new d f fits m
                      (ap t'.rtn_rth (one-node m add i) ∙ leaf_add.head))
                  ∙ sym (digit-turn a d)
                  ∙ ap digit (sym (not-not v));
              c_good = Leaf-Good t' rth bitlen add new (d + 1) leaf_add (omega (arith, early));
              full = λ z. tt;
              c_new = λ m i hm. (
                ap t'.rtn_rth (one-node m add i) ∙ leaf_add.head,
                ap t'.rtn_bit (one-node m add i) ∙ leaf_add.bit,
              );
              n_new = λ n. absurd (n bare);
              at = add;
              at_in =
                  Of-IsIn (not v) add (one add) new s
                    (other (Of-IsIn true add leaf add leaf (self refl)));
              at_new = (leaf_add.head, leaf_add.bit);
            })),
      )
