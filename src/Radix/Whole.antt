-- ===== src/Radix/Whole.antt =====
-- `std_radix_insert` of src/std_radix.c as a whole: the head, the check of the length and the tree.
use opx_common_utils.Prelude.{
  ℕ, ◌-◌, ◌^◌, ◌<◌, ◌≡◌, ◌≢◌, ◌⊎◌, ◌↔◌, inl, inr, refl, sym, ap, ◌∙◌, arith, Bool, true, false,
  ◌==◌, ◌&&◌, subst, Bool-cases, Option, some, ltb, if◌then◌else◌,
}
use opx_common_utils.BitMask.{Bytes, IsBytes}
use opx_common_utils.Tree.{Tree, inorder, size, IsIn}
use opx_common_utils.Radix.{Ptr, null, Table, is_deleted}
use opx_common_utils.Radix.Compare.{key_bit, Agree}
use opx_common_utils.Radix.Shape.{KeysAreBytes}
use opx_common_utils.Radix.Insert.{up, prepare, cleared, insert_head, insert}
use opx_common_utils.Radix.Good.{key}
use opx_common_utils.Radix.Entries.{IsRadix, Has}
use opx_common_utils.Radix.Inserted.{Ready, insert_head-Ends}
use opx_common_utils.Radix.Heads.{
  heads_of, with_heads, Readied, IsTrie-with_heads, Good-with_heads, Keyed, prepare-Readied,
  Readied-cleared,
}

-- A head with its key `k`, that is not in the tree, is offered to a well-formed tree without a marked
-- node, with two new nodes.
pub record Offered (t : Table) (rth : Ptr) (bitlen : ℕ) (buffer : Bool) (add new : Ptr)
    (tree : Tree) (k : Bytes) : Type 0 where
  pub keyed : Keyed t rth buffer k
  pub is : IsRadix t tree
  pub bytes : KeysAreBytes t
  pub key_IsBytes : IsBytes k
  pub rth_out : (m : Ptr) → IsIn m (inorder tree) → t.rtn_rth m ≢ rth
  pub short : bitlen < 2 ^ 16 - 8
  pub live : (m : Ptr) → IsIn m (inorder tree) → is_deleted t m ≡ false
  pub rth_real : rth ≢ null
  pub add_real : add ≢ null
  pub new_real : new ≢ null
  pub two : add ≢ new
  pub add_out : IsIn add (inorder tree) → ⊥
  pub new_out : IsIn new (inorder tree) → ⊥

-- The tree after the insertion, the key of the head and those of the others.
pub record Entered (t t' : Table) (rth : Ptr) (k : Bytes) (bitlen : ℕ) (tree tree' : Tree)
    : Type 0 where
  pub is : IsRadix t' tree'
  pub own : t'.rdx_rth_addr rth ≡ k
  pub others : (h : Ptr) → h ≢ rth → t'.rdx_rth_addr h ≡ t.rdx_rth_addr h
  pub entries :
      (h : Ptr) (b : ℕ)
      → h ≢ null
      → Has t' tree' h b ↔ (((h ≡ rth) × (b ≡ bitlen)) ⊎ Has t tree h b)

insert-insert_head :
    (fuel : ℕ) (t t1 : Table) (rth : Ptr) (bitlen : ℕ) (buffer : Bool) (add new : Ptr)
    → prepare t rth buffer ≡ some (some t1)
    → insert fuel t rth bitlen buffer add new ≡ (
        let t2 = if t1.rtt_debug then cleared rth t1 else t1 in
        if t1.rtt_debug && ltb t1.rtt_maxaddrlen bitlen
        then some (null, t2)
        else insert_head fuel (record t2 { rtt_ninserts = up t2.rtt_ninserts }) rth bitlen add new)
unfolding insert
insert-insert_head fuel t t1 rth bitlen buffer add new run = rw (insert, run) refl

abbrev count_to : ℕ → Table → Table
count_to n t = record t { rtt_ninserts = n }

module _ (t : Table) (rth : Ptr) (bitlen : ℕ) (buffer : Bool) (add new : Ptr) (tree : Tree)
    (k : Bytes) (o : Offered t rth bitlen buffer add new tree k) where
  key-Readied :
      (t' : Table)
      → Readied t t' rth k
      → (m : Ptr) → IsIn m (inorder tree)
      → key (with_heads t (heads_of t')) m ≡ key t m
  key-Readied t' r m i = r.others (t.rtn_rth m) (o.rth_out m i)

  Readied-Ready : (t' : Table) → Readied t t' rth k → Ready t' rth bitlen add new tree
  Readied-Ready t' r =
      let back = sym r.rest in
      record {
        is =
            subst (λ z. IsRadix z tree) back
              (
                IsTrie-with_heads t (heads_of t') null t.rtt_root tree o.is.0,
                Good-with_heads t (heads_of t') 0 tree (key-Readied t' r) o.is.1,
                o.is.2,
              );
        bytes = λ h. elim (Bool-cases (h == rth)) [
          | inl e ↦
              let at : rth ≡ h = ground arith in
              subst (λ z. IsBytes (t'.rdx_rth_addr z)) at (subst IsBytes (sym r.own) o.key_IsBytes)
          | inr n ↦
              let apart : h ≢ rth = ground arith in
              subst IsBytes (sym (r.others h apart)) (o.bytes h)
        ];
        short = o.short;
        live = λ m i. subst (λ z. is_deleted z m ≡ false) back (o.live m i);
        rth_real = o.rth_real;
        add_real = o.add_real;
        new_real = o.new_real;
        two = o.two;
        add_out = o.add_out;
        new_out = o.new_out;
      }

  -- What the whole call gives where `insert_head` runs on the table `t'`.
  abbrev pub Added : Option (Ptr × Table) → Type 0
  Added result =
      ((m : Ptr) × (t' : Table) × IsIn m (inorder tree)
        × (t.rtn_rth m ≢ null)
        × (t.rtn_bit m ≡ bitlen)
        × Agree k (key t m) bitlen
        × (result ≡ some (t.rtn_rth m, t'))
        × Readied t t' rth k
        × (t'.rtt_ninserts ≡ up t.rtt_ninserts))
      ⊎ ((t' : Table) × (tree' : Tree) × (result ≡ some (rth, t'))
          × Entered t t' rth k bitlen tree tree')

  head-same :
      (t' : Table)
      → Readied t t' rth k
      → (m : Ptr) → (t'.rtn_rth m ≡ t.rtn_rth m) × (t'.rtn_bit m ≡ t.rtn_bit m)
  head-same t' r m = (ap (λ z. z.rtn_rth m) r.rest, ap (λ z. z.rtn_bit m) r.rest)

  Has-Readied :
      (t' : Table) → Readied t t' rth k → (h : Ptr) (b : ℕ) → Has t' tree h b ↔ Has t tree h b
  Has-Readied t' r h b = (
    (λ (m, i, e, e'). (m, i, sym (head-same t' r m).0 ∙ e, sym (head-same t' r m).1 ∙ e')),
    (λ (m, i, e, e'). (m, i, (head-same t' r m).0 ∙ e, (head-same t' r m).1 ∙ e')),
  )

  Ends-Added :
      (fuel : ℕ) (t2 : Table)
      → Readied t t2 rth k
      → t2.rtt_ninserts ≡ up t.rtt_ninserts
      → size tree < fuel
      → Added (insert_head fuel t2 rth bitlen add new)
  Ends-Added fuel t2 r count enough =
      elim (insert_head-Ends fuel t2 rth bitlen add new tree (Readied-Ready t2 r) enough) [
        | inl (m, i, head, bit, agree, run) ↦
            let (e, e') = head-same t2 r m in
            inl (
              m,
              t2,
              i,
              (λ z. head (e ∙ z)),
              sym e' ∙ bit,
              (λ j lt.
                  ap (λ z. key_bit z j) (sym r.own)
                  ∙ agree j lt
                  ∙ ap (λ z. key_bit z j) (ap t2.rdx_rth_addr e ∙ key-Readied t2 r m i)),
              run ∙ ap (λ z. some (z, t2)) e,
              r,
              count,
            )
        | inr (t', tree', run, ins) ↦ inr (
          t',
          tree',
          run,
          record {
            is = ins.is;
            own = ap (λ g. g rth) ins.keys ∙ r.own;
            others = λ h n. ap (λ g. g h) ins.keys ∙ r.others h n;
            entries = λ h b n.
                let (forth, back) = ins.entries h b n in
                let (there_is, here_is) = Has-Readied t2 r h b in
                (
                  (λ x. elim (forth x) [ inl e ↦ inl e | inr y ↦ inr (there_is y) ]),
                  (λ x. elim x [ inl e ↦ back (inl e) | inr y ↦ back (inr (here_is y)) ]),
                );
          },
        )
      ]

  counted_up :
      (t2 : Table)
      → Readied t t2 rth k
      → Readied t (record t2 { rtt_ninserts = up t2.rtt_ninserts }) rth k
  counted_up t2 r = record {
    rest = ap (count_to (up t2.rtt_ninserts)) r.rest;
    own = r.own;
    others = r.others;
  }

  -- The call of the debug mode refuses a key that is too long.
  abbrev pub Called : Option (Ptr × Table) → Type 0
  Called result =
      ((t.rtt_debug ≡ true)
        × (t.rtt_maxaddrlen < bitlen)
        × ((t' : Table) × (result ≡ some (null, t'))
            × Readied t t' rth k
            × (t'.rtt_ninserts ≡ t.rtt_ninserts)))
      ⊎ (((t.rtt_debug && ltb t.rtt_maxaddrlen bitlen) ≡ false) × Added result)

  starts :
      (b : Bool) (t1 : Table)
      → Readied t t1 rth k
      → t1.rtt_ninserts ≡ t.rtt_ninserts
      → Readied t (if b then cleared rth t1 else t1) rth k
        × ((if b then cleared rth t1 else t1).rtt_ninserts ≡ t.rtt_ninserts)
  starts true t1 r count = let (r2, count2) = Readied-cleared t t1 rth k r in (r2, count2 ∙ count)
  starts false t1 r count = (r, count)

-- For a head that is not in the tree and has an address (one that needs no conversion, or one to convert
-- into the empty buffer for the key, or the address of the key that it has), for fewer than 65528 bits
-- and for two new nodes: with more fuel than the tree has nodes, `std_radix_insert` into a well-formed
-- tree without a marked node ends. In debug mode it returns NULL for a length above that of the table.
-- Otherwise it returns the head of the same prefix where there is one; or it returns the inserted head,
-- and the table holds a well-formed tree whose entries are the old ones and the new one. In the first two
-- cases nothing changes but the fields of heads, the change list and the number of insertions, of which
-- the first counts none and the second one, and no other head gets another key; nor does one in the third.
pub insert-Called :
    (fuel : ℕ) (t : Table) (rth : Ptr) (bitlen : ℕ) (buffer : Bool) (add new : Ptr) (tree : Tree)
    (k : Bytes)
    → (o : Offered t rth bitlen buffer add new tree k) → size tree < fuel
    → Called t rth bitlen buffer add new tree k o (insert fuel t rth bitlen buffer add new)
insert-Called fuel t rth bitlen buffer add new tree k o enough =
    let (t1, ready, r1, count1) = prepare-Readied t rth buffer k o.keyed in
    let t2 = if t1.rtt_debug then cleared rth t1 else t1 in
    let (r2, count2) = starts t rth bitlen buffer add new tree k o t1.rtt_debug t1 r1 count1 in
    let t3 = count_to (up t2.rtt_ninserts) t2 in
    let run = insert-insert_head fuel t t1 rth bitlen buffer add new ready in
    let test : (t1.rtt_debug && ltb t1.rtt_maxaddrlen bitlen)
        ≡ (t.rtt_debug && ltb t.rtt_maxaddrlen bitlen) =
      ap (λ z. z.rtt_debug && ltb z.rtt_maxaddrlen bitlen) r1.rest in
    let either =
      λ (b : Bool). if b then some (null, t2) else insert_head fuel t3 rth bitlen add new in
    elim (Bool-cases (t.rtt_debug && ltb t.rtt_maxaddrlen bitlen)) [
      | inl y ↦ inl (ground arith, ground arith, (t2, run ∙ ap either (test ∙ y), r2, count2))
      | inr n ↦ inr (
        n,
        subst (Added t rth bitlen buffer add new tree k o) (sym (run ∙ ap either (test ∙ n))) (
            Ends-Added t rth bitlen buffer add new tree k o fuel t3
              (counted_up t rth bitlen buffer add new tree k o t2 r2) (ap up count2) enough),
      )
    ]
