-- ===== src/Radix/Inserted.antt =====
-- `std_radix_insert` of src/std_radix.c from the root: the tree that it leaves.
use opx_common_utils.Prelude.{
  ℕ, ◌+◌, ◌-◌, ◌^◌, ◌≤◌, ◌<◌, ◌≡◌, ◌≢◌, inl, inr, refl, sym, ap, ◌∙◌, arith, true, false, ◌==◌,
  subst, Bool-cases, some, ltb, ◌||◌, min,
}
use opx_common_utils.Tree.{Tree, inorder, size, IsIn, NoDup}
use opx_common_utils.Radix.{Ptr, null, Table, is_deleted}
use opx_common_utils.Radix.Compare.{key_bit, Agree}
use opx_common_utils.Radix.Shape.{IsTrie, KeysAreBytes, no_nodes}
use opx_common_utils.Radix.Insert.{
  up, down_to_head, differ_loop, up_to_bit, insert_at, first_entry, insert_head,
}
use opx_common_utils.Radix.Good.{key, Good}
use opx_common_utils.Radix.Way.{
  Way, down_to_head-Way, Way-IsIn, Way-head, top-low, null-leaf, real-Grows,
}
use opx_common_utils.Radix.Spot.{Placed, Way-Placed, up_to_bit-Placed, Spot-IsIn}
use opx_common_utils.Radix.Differ.{differ_loop-First}
use opx_common_utils.Radix.Grown.{IsTrie-place}
use opx_common_utils.Radix.Around.{Spot-Grown}
use opx_common_utils.Radix.Leaf.{one}
use opx_common_utils.Radix.Local.{Site, Settled}
use opx_common_utils.Radix.Reached.{Reached, Spot-Reached, real-IsIn, insert_at-Settled}
use opx_common_utils.Radix.Entries.{
  IsRadix, Inserted, Ends, started, first_entry-started, started-Inserted, Grown-Has,
}

module _ (t : Table) (rth : Ptr) (bitlen : ℕ) (add new : Ptr) where
  root-first :
      (fuel : ℕ)
      → t.rtt_root ≡ null
      → insert_head fuel t rth bitlen add new ≡ some (first_entry t rth bitlen add)
  unfolding insert_head
  root-first fuel e = let empty : (t.rtt_root == null) ≡ true = ground (arith, e) in rw empty refl

  -- The run of the three loops and what follows them.
  loops-insert_at :
      (fuel : ℕ) (f d x : Ptr)
      → t.rtt_root ≢ null
      → down_to_head fuel t (t.rdx_rth_addr rth) bitlen t.rtt_root ≡ some f
      → t.rtn_rth f ≢ null
      → differ_loop
          (min (t.rtn_bit f) bitlen + 1)
          (t.rdx_rth_addr rth)
          (key t f)
          (min (t.rtn_bit f) bitlen)
          0
        ≡ some d
      → up_to_bit fuel t (min d (min (t.rtn_bit f) bitlen)) f ≡ some x
      → insert_head fuel t rth bitlen add new
        ≡ insert_at t rth bitlen (key t f) (min d (min (t.rtn_bit f) bitlen)) x add new
  unfolding insert_head
  loops-insert_at fuel f d x real down head differ up =
      let there_is : (t.rtt_root == null) ≡ false = ground (arith, real) in
      let has_head : (t.rtn_rth f == null) ≡ false = ground (arith, head) in
      rw (there_is, down, has_head, differ, up) refl

-- What an insertion needs: two new nodes and a head that are there, and a tree without a marked node.
pub record Ready (t : Table) (rth : Ptr) (bitlen : ℕ) (add new : Ptr) (tree : Tree) : Type 0 where
  pub is : IsRadix t tree
  pub bytes : KeysAreBytes t
  pub short : bitlen < 2 ^ 16 - 8
  pub live : (m : Ptr) → IsIn m (inorder tree) → is_deleted t m ≡ false
  pub rth_real : rth ≢ null
  pub add_real : add ≢ null
  pub new_real : new ≢ null
  pub two : add ≢ new
  pub add_out : IsIn add (inorder tree) → ⊥
  pub new_out : IsIn new (inorder tree) → ⊥

module _ (t : Table) (rth : Ptr) (bitlen : ℕ) (add new : Ptr) (tree : Tree)
    (k : Ready t rth bitlen add new tree) where
  trie : IsTrie t null t.rtt_root tree
  trie = k.is.0

  good : Good t 0 tree
  good = k.is.1

  dup : NoDup (inorder tree)
  dup = k.is.2

  -- The place that the loops reach, as `insert_at` finds it.
  Placed-Site :
      (f d : Ptr)
      → Way t (t.rdx_rth_addr rth) bitlen f tree
      → d ≤ t.rtn_bit f
      → d ≤ bitlen
      → Agree (t.rdx_rth_addr rth) (key t f) d
      → (d < bitlen → d < t.rtn_bit f → key_bit (t.rdx_rth_addr rth) d ≢ key_bit (key t f) d)
      → (p : Placed t (t.rdx_rth_addr rth) bitlen d f null tree)
      → Reached t p.above p.x p.s null t.rtt_root tree
      → Site t rth bitlen add new d f p.above p.x p.s
  Placed-Site f d way low within agree differs p r =
      let a = t.rdx_rth_addr rth in
      let in_tree =
        λ (m : Ptr) (i : IsIn m (inorder p.s)). Spot-IsIn t a d p.above p.s null tree m p.spot i in
      let apart : (m : Ptr) → m ≢ null → (IsIn m (inorder tree) → ⊥) → m ≢ p.above = λ m real out e.
        elim r.link [
          | inl (z, w) ↦ real (e ∙ z)
          | inr (i, l) ↦ out (subst (λ w. IsIn w (inorder tree)) (sym e) i)
        ] in
      record {
        lo = r.lo;
        is = p.is;
        good = r.good;
        dup = r.dup;
        way = p.way;
        f_in = Way-IsIn t a bitlen f p.s p.way;
        f_head = Way-head t a bitlen f 0 tree way good;
        behind = p.behind;
        within = within;
        agree = agree;
        differs = differs;
        rth_real = k.rth_real;
        add_real = k.add_real;
        new_real = k.new_real;
        two = k.two;
        add_out = λ i. k.add_out (in_tree add i);
        new_out = λ i. k.new_out (in_tree new i);
        add_above = apart add k.add_real k.add_out;
        new_above = apart new k.new_real k.new_out;
        above_out = r.above_out;
        link = λ n. elim r.link [ inl (z, w) ↦ absurd (n z) | inr (i, l) ↦ l ];
        root = λ e. elim r.link [
          | inl (z, w) ↦ sym w
          | inr (i, l) ↦
              absurd
                (real-IsIn t null t.rtt_root tree trie (subst (λ w. IsIn w (inorder tree)) e i))
        ];
      }

  -- The whole tree after the change at the place.
  Settled-Inserted :
      (f d : Ptr) (p : Placed t (t.rdx_rth_addr rth) bitlen d f null tree) (t' : Table)
      → IsIn f (inorder p.s)
      → Settled t t' rth bitlen add new d f p.above p.x p.s
      → (tree' : Tree) × Inserted t t' rth bitlen tree tree'
  Settled-Inserted f d p t' fi z =
      let (tree', now, g, place) =
        Spot-Grown t t' rth bitlen add new d f z.fits p.above p.x z.top p.s z.s' z.grown fi z.frame
          z.linked z.above_same null t.rtt_root tree p.spot trie dup
          (real-IsIn t null t.rtt_root tree trie) k.add_out k.new_out p.is in
      let root : now ≡ t'.rtt_root = elim place [
        | inl (ab, nw, px) ↦ nw ∙ sym (z.root_new ab)
        | inr (i, nw) ↦
            nw
            ∙ sym (
                z.root_old (λ e.
                  real-IsIn t null t.rtt_root tree trie (subst (λ w. IsIn w (inorder tree)) e i)))
      ] in
      (
        tree',
        record {
          is = (subst (λ w. IsTrie t' null w tree') root g.is, g.good 0 (omega arith) good, g.once);
          keys = z.fits.keys;
          entries = Grown-Has t t' rth bitlen add new d null t.rtt_root now tree tree' g;
        },
      )

  insert_head-Ends_tree :
      (fuel : ℕ) → size tree < fuel → t.rtt_root ≢ null → Ends fuel t rth bitlen add new tree
  insert_head-Ends_tree fuel enough real =
      let a = t.rdx_rth_addr rth in
      let full = real-Grows t null t.rtt_root tree trie real in
      let (f, down, way) = down_to_head-Way t a bitlen fuel null t.rtt_root tree trie full enough in
      let n = min (t.rtn_bit f) bitlen in
      let f_head = Way-head t a bitlen f 0 tree way good in
      let short = k.short in
      let (d0, differ, same, at) =
        differ_loop-First a (key t f) n (k.bytes rth) (k.bytes (t.rtn_rth f))
          (omega (arith, short)) in
      let d = min d0 n in
      let agree : Agree a (key t f) d = λ i lt. same i (omega (arith, lt)) in
      let differs : d < bitlen → d < t.rtn_bit f → key_bit a d ≢ key_bit (key t f) d = λ lt lt'.
        elim at [
          | inl h ↦ absurd (omega (arith, h, lt, lt'))
          | inr ne ↦
              let e : d0 ≡ d = omega (arith, lt, lt') in
              subst (λ z. key_bit a z ≢ key_bit (key t f) z) e ne
        ] in
      let (low, parent, there_is) = top-low t 0 null t.rtt_root tree trie good full in
      let before : (t.rtn_parent t.rtt_root == null || ltb (t.rtn_bit (t.rtn_parent t.rtt_root)) d)
          ≡ true =
        (let at_top : (t.rtn_parent t.rtt_root == null) ≡ true = ground (arith, parent) in
          rw at_top refl) in
      let p = Way-Placed t a bitlen d f 0 null t.rtt_root tree way trie good (omega arith) before in
      let fi = Way-IsIn t a bitlen f p.s p.way in
      let xi : IsIn p.x (inorder p.s) = elim (IsTrie-place t p.above p.x p.s p.is) [
        | inl e ↦ absurd (no_nodes t p.above p.x p.s p.is e f fi)
        | inr i ↦ i
      ] in
      let r =
        Spot-Reached t a d p.above p.x p.s f 0 null t.rtt_root tree p.spot trie good dup
          (real-IsIn t null t.rtt_root tree trie) p.is fi xi in
      let up = up_to_bit-Placed t a bitlen d f r.lo fuel null tree p r.good enough in
      let run = loops-insert_at t rth bitlen add new fuel f d0 p.x real down f_head differ up in
      let site = Placed-Site f d way (omega arith) (omega arith) agree differs p r in
      let x_tree = Spot-IsIn t a d p.above p.s null tree p.x p.spot xi in
      elim (insert_at-Settled t rth bitlen add new d f p.above p.x p.s site (k.live p.x x_tree)) [
        | inl (end, head, bit, same_key) ↦ inl (p.x, x_tree, head, bit, same_key, run ∙ end)
        | inr (t', end, z) ↦
            let (tree', done_tree) = Settled-Inserted f d p t' fi z in
            inr (t', tree', run ∙ end, done_tree)
      ]

-- Insertion of a head that has its key, of fewer than 65528 bits, into a well-formed tree without a
-- marked node, with two new nodes and with more fuel than the tree has nodes, ends. Its result is the
-- head of the same prefix where there is one, and the table is as it was; otherwise it is the inserted
-- head, and the table holds a well-formed tree whose entries are the old ones and the new one.
pub insert_head-Ends :
    (fuel : ℕ) (t : Table) (rth : Ptr) (bitlen : ℕ) (add new : Ptr) (tree : Tree)
    → Ready t rth bitlen add new tree
    → size tree < fuel
    → Ends fuel t rth bitlen add new tree
insert_head-Ends fuel t rth bitlen add new tree k enough = elim (Bool-cases (t.rtt_root == null)) [
  | inl e ↦
      let empty : t.rtt_root ≡ null = ground arith in
      let bare = null-leaf t null t.rtt_root tree k.is.0 empty in
      inr (
        started t rth bitlen add,
        one add,
        root-first t rth bitlen add new fuel empty
            ∙ ap some (first_entry-started t rth bitlen add k.add_real),
        subst (λ z. Inserted t (started t rth bitlen add) rth bitlen z (one add)) (sym bare)
            (started-Inserted t rth bitlen add k.add_real k.rth_real),
      )
  | inr e ↦ insert_head-Ends_tree t rth bitlen add new tree k fuel enough (ground arith)
]
