-- ===== src/Radix/Under.antt =====
-- An insertion of std_radix.c that ends below a node: the new node becomes its child.
use opx_common_utils.Prelude.{
  ℕ, ◌+◌, ◌<◌, ◌≡◌, ◌≢◌, refl, sym, ap, ◌∙◌, arith, Bool, true, false, not, ◌==◌, subst, some, ltb,
}
use opx_common_utils.BitMask.{Bytes}
use opx_common_utils.Tree.{Tree, leaf, inorder, IsIn}
use opx_common_utils.Radix.{Ptr, null, Table, rn_bit}
use opx_common_utils.Radix.Compare.{key_bit}
use opx_common_utils.Radix.Shape.{IsTrie}
use opx_common_utils.Radix.Insert.{set_at, up, new_node, head_node, below, done, insert_at}
use opx_common_utils.Radix.Fork.{fork, digit, other, Of-IsIn, IsTrie-Links, NoDup-Apart}
use opx_common_utils.Radix.Good.{key, Good, Good-Node, Good-low}
use opx_common_utils.Radix.Way.{turn, digit-turn, Way, long, ends, goes, Way-IsIn}
use opx_common_utils.Radix.Grown.{Same, child-Same, Fits}
use opx_common_utils.Radix.Leaf.{one, Below-Grown}
use opx_common_utils.Radix.Steps.{
  set_at-off, set_at-on, set_child, SetChild, set_child-SetChild, below-set_child,
}
use opx_common_utils.Radix.Local.{Site, Settled, x_in}

pub new_node-Same : (t : Table) (n : Ptr) (b : ℕ) (m : Ptr) → m ≢ n → Same t (new_node n b t) m
new_node-Same t n b m e = record {
  left = set_at-off t.rtn_left n null m e;
  right = set_at-off t.rtn_right n null m e;
  parent = set_at-off t.rtn_parent n null m e;
  bit = set_at-off t.rtn_bit n b m e;
  tbit = set_at-off t.rtn_tbit n (rn_bit b) m e;
  head = set_at-off t.rtn_rth n null m e;
}

pub head_node-Same :
    (t : Table) (n rth : Ptr) (b : ℕ) (m : Ptr) → m ≢ n → Same t (head_node n rth b t) m
head_node-Same t n rth b m e =
    let k = new_node-Same t n b m e in
    record {
      left = k.left;
      right = k.right;
      parent = k.parent;
      bit = k.bit;
      tbit = k.tbit;
      head = set_at-off (new_node n b t).rtn_rth n rth m e ∙ k.head;
    }

pub Same-trans : (t t' t'' : Table) (m : Ptr) → Same t t' m → Same t' t'' m → Same t t'' m
Same-trans t t' t'' m k k' = record {
  left = k'.left ∙ k.left;
  right = k'.right ∙ k.right;
  parent = k'.parent ∙ k.parent;
  bit = k'.bit ∙ k.bit;
  tbit = k'.tbit ∙ k.tbit;
  head = k'.head ∙ k.head;
}

pub SetChild-Same :
    (t t' : Table) (v : Bool) (p q m : Ptr) → SetChild t t' v p q → m ≢ p → Same t t' m
SetChild-Same t t' v p q m k e = record {
  left = k.elsewhere m false e;
  right = k.elsewhere m true e;
  parent = ap (λ g. g m) k.parent;
  bit = ap (λ g. g m) k.bit;
  tbit = ap (λ g. g m) k.tbit;
  head = ap (λ g. g m) k.head;
}

insert_at-below :
    (t : Table) (rth : Ptr) (bitlen : ℕ) (his : Bytes) (d : ℕ) (x add new : Ptr)
    → d < bitlen
    → add ≢ null
    → (head_node add rth bitlen t).rtn_bit x ≡ d
    → insert_at t rth bitlen his d x add new
      ≡ done rth (below x add (t.rdx_rth_addr rth) (head_node add rth bitlen t))
unfolding insert_at
insert_at-below t rth bitlen his d x add new less real e =
    let before : (d == bitlen) ≡ false = ground (arith, less) in
    let there_is : (add == null) ≡ false = ground (arith, real) in
    let at : ((head_node add rth bitlen t).rtn_bit x == d) ≡ true = ground (arith, e) in
    let in_range : ltb d bitlen ≡ true = ground (arith, less) in
    rw (before, there_is, at, in_range) refl

-- The way ends where the child is missing.
Way-ends :
    (t : Table) (a : Bytes) (bitlen d lo : ℕ) (f above x : Ptr) (s : Tree)
    → Way t a bitlen f s
    → IsTrie t above x s
    → Good t lo s
    → t.rtn_bit x ≡ d
    → d < bitlen
    → t.rtn_rth f ≢ null
    → (d < t.rtn_bit f → key_bit a d ≢ key_bit (key t f) d)
    → (v : Bool) × (c : Tree) × (s ≡ fork v c x leaf) × (v ≡ turn a d)
Way-ends t a bitlen d lo f above x _ (long l r h n) is g e less fh differs =
    let at = ap t.rtn_bit is.0 in absurd (omega (arith, h, at, e, less))
Way-ends t a bitlen d lo f above x _ (ends v c turns) is g e less fh differs =
    let links = IsTrie-Links t above x v c f leaf is in
    (
      v,
      c,
      ap (λ z. fork v c z leaf) (sym links.here),
      turns ∙ ap (turn a) (sym (ap t.rtn_bit links.here) ∙ e),
    )
Way-ends t a bitlen d lo f above x _ (goes v c q r turns more w) is g e less fh differs =
    let links = IsTrie-Links t above x v c q r is in
    let at = Good-Node t lo v c q r g in
    let f_in = Way-IsIn t a bitlen f r w in
    let low = Good-low t (t.rtn_bit q + 1) r f at.good_side f_in in
    let dq : t.rtn_bit q ≡ d = sym (ap t.rtn_bit links.here) ∙ e in
    absurd (
      differs (omega (arith, low, dq)) (
        subst (λ z. key_bit a z ≡ key_bit (key t f) z) dq
          (sym (digit-turn a (t.rtn_bit q)) ∙ ap digit (sym turns) ∙ sym (at.beside f f_in fh))))

module _ (t : Table) (rth : Ptr) (bitlen : ℕ) (add new : Ptr) (d : ℕ) (f above x : Ptr) where
  below-fork :
      (v : Bool) (c : Tree)
      → Site t rth bitlen add new d f above x (fork v c x leaf)
      → v ≡ turn (t.rdx_rth_addr rth) d
      → d < bitlen
      → t.rtn_bit x ≡ d
      → (t' : Table) × (insert_at t rth bitlen (key t f) d x add new ≡ some (rth, t'))
        × Settled t t' rth bitlen add new d f above x (fork v c x leaf)
  below-fork v c k turns less at_d =
      let t1 = head_node add rth bitlen t in
      let t2 = record t1 {
        rtn_parent = set_at t1.rtn_parent add x;
        rtt_routes = up t1.rtt_routes;
      } in
      let t' = set_child v x add t2 in
      let sc = set_child-SetChild v x add t2 in
      let links = IsTrie-Links t above x v c x leaf k.is in
      let parts = NoDup-Apart v c x leaf k.dup in
      let xi = x_in t rth bitlen add new d f above x (fork v c x leaf) k in
      let xa : x ≢ add = λ e. k.add_out (subst (λ z. IsIn z (inorder (fork v c x leaf))) e xi) in
      let out_above : above ≢ x =
        λ e. k.above_out (subst (λ z. IsIn z (inorder (fork v c x leaf))) (sym e) xi) in
      let same1 = λ (m : Ptr) (e : m ≢ add). head_node-Same t add rth bitlen m e in
      let same2 : (m : Ptr) → m ≢ add → Same t t2 m = λ m e.
        let k1 = same1 m e in
        record {
          left = k1.left;
          right = k1.right;
          parent = set_at-off t1.rtn_parent add x m e ∙ k1.parent;
          bit = k1.bit;
          tbit = k1.tbit;
          head = k1.head;
        } in
      let same : (m : Ptr) → m ≢ add → m ≢ x → Same t t' m =
        λ m e e'. Same-trans t t2 t' m (same2 m e) (SetChild-Same t2 t' v x add m sc e') in
      let at_x = same2 x xa in
      let at_add = SetChild-Same t2 t' v x add add sc (λ e. xa (sym e)) in
      let fits : Fits t t' rth d f = record {
        keys = sc.keys;
        f_head = k.f_head;
        agree = k.agree;
      } in
      let bit1 : t1.rtn_bit x ≡ d = (same1 x xa).bit ∙ at_d in
      let run =
        below-set_child t1 x add (t.rdx_rth_addr rth) v
          ((same1 x xa).tbit ∙ links.tbit ∙ sym (ap rn_bit (same1 x xa).bit))
          (turns ∙ ap (turn (t.rdx_rth_addr rth)) (sym bit1))
          (child-Same t t1 x v (same1 x xa) ∙ links.down) in
      (
        t',
        insert_at-below t rth bitlen (key t f) d x add new less k.add_real bit1 ∙ ap (done rth) run,
        record {
          fits = fits;
          top = x;
          s' = fork v c x (one add);
          grown = Below-Grown t t' rth bitlen add new d f fits above x v c (record {
            f_in = k.f_in;
            is = k.is;
            dup = k.dup;
            out = k.add_out;
            at_d = at_d;
            more = less;
            turns = turns;
            leaf_add = record {
              real = k.add_real;
              left = at_add.left ∙ set_at-on t.rtn_left add null;
              right = at_add.right ∙ set_at-on t.rtn_right add null;
              up = at_add.parent ∙ set_at-on t1.rtn_parent add x;
              bit = at_add.bit ∙ set_at-on t.rtn_bit add bitlen;
              tbit = at_add.tbit ∙ set_at-on t.rtn_tbit add (rn_bit bitlen);
              head = at_add.head ∙ set_at-on (new_node add bitlen t).rtn_rth add rth;
              rth_real = k.rth_real;
            };
            down = sc.on;
            aside = sc.off x ∙ child-Same t t2 x (not v) at_x;
            parent = ap (λ g. g x) sc.parent ∙ at_x.parent;
            bit = ap (λ g. g x) sc.bit ∙ at_x.bit;
            tbit = ap (λ g. g x) sc.tbit ∙ at_x.tbit;
            head = ap (λ g. g x) sc.head ∙ at_x.head;
            same = λ m i.
                same m
                  (λ e.
                    k.add_out
                      (Of-IsIn v add c x leaf (other (subst (λ z. IsIn z (inorder c)) e i))))
                  (parts.not_other m i);
          });
          frame = λ m out n na nn.
              same m na (λ e. out (subst (λ z. IsIn z (inorder (fork v c x leaf))) (sym e) xi));
          linked = λ w n on off.
              let at = same above (λ e. k.add_above (sym e)) out_above in
              (child-Same t t' above w at ∙ on, child-Same t t' above (not w) at);
          above_same = λ n.
              let at = same above (λ e. k.add_above (sym e)) out_above in
              (at.parent, at.bit, at.tbit, at.head);
          root_new = λ e. sc.root ∙ k.root e;
          root_old = λ e. sc.root;
        },
      )

  pub below-Settled :
      (s : Tree)
      → Site t rth bitlen add new d f above x s
      → d < bitlen
      → t.rtn_bit x ≡ d
      → (t' : Table) × (insert_at t rth bitlen (key t f) d x add new ≡ some (rth, t'))
        × Settled t t' rth bitlen add new d f above x s
  below-Settled s k less at_d =
      let (v, c, e, turns) =
        Way-ends t (t.rdx_rth_addr rth) bitlen d k.lo f above x s k.way k.is k.good at_d less
          k.f_head (k.differs less) in
      let (t', run, done_s) =
        below-fork v c (subst (λ z. Site t rth bitlen add new d f above x z) e k) turns less at_d in
      (t', run, subst (λ z. Settled t t' rth bitlen add new d f above x z) (sym e) done_s)
