-- ===== src/RbTree/Attach.antt =====
-- The way down of `_std_rbtree_insert` and the new node below its end: the new node as a leaf of the tree.
use opx_common_utils.Prelude.{
  ℕ, zero, suc, ◌<◌, ◌≡◌, ◌≢◌, ◌⊎◌, inl, inr, refl, sym, subst, ap, ◌∙◌, arith, Bool, true, false,
  not, ◌&&◌, ◌==◌, if◌then◌else◌, Bool-cases, some,
}
use opx_common_utils.RbTree.{Ptr, null, Table, Compare, is_less}
use opx_common_utils.RbTree.Add.{add, place, place-IsIn, add_below, add_above, NoDup-add}
use opx_common_utils.RbTree.Holds.{Holds}
use opx_common_utils.RbTree.Insert.{insert_place, attach}
use opx_common_utils.RbTree.Shape.{Tree, leaf, node, IsTree, inorder, size}
use opx_common_utils.RbTree.Turn.{Same, IsTree-frame, IsIn-not_nil}
use opx_common_utils.Tree.{IsIn, at_left, at_node, at_right, Side-IsIn, NoDup, NoDup-Parts}

pub insert_place-place :
    (compare : Compare) (fuel : ℕ) (t : Table) (z par p : Ptr) (tree : Tree)
    → IsTree t par p tree
    → size tree < fuel
    → insert_place compare fuel t z par p
      ≡ some (place (λ q. is_less compare (t.rbt_data z) (t.rbt_data q)) par tree)
unfolding insert_place
insert_place-place compare zero t z par p tree is h = absurd (omega (arith, h))
insert_place-place compare (suc fuel) t z par p leaf is h =
    let gone : (p == t.nil) ≡ true = ground arith in rw gone refl
insert_place-place compare (suc fuel) t z par p (node l q r) (e, n, n0, pq, il, ir) h =
    let there : (q == t.nil) ≡ false = ground arith in
    ap (λ x. insert_place compare (suc fuel) t z par x) e
    ∙ elim (Bool-cases (is_less compare (t.rbt_data z) (t.rbt_data q))) [
      | inl less ↦
          rw (there, less)
            (insert_place-place compare fuel t z q (t.rbt_left q) l il (omega (arith, h)))
      | inr more ↦
          rw (there, more)
            (insert_place-place compare fuel t z q (t.rbt_right q) r ir (omega (arith, h)))
    ]

-- The links after `attach`.
pub record Attached (less : Ptr → Bool) (t t' : Table) (z y : Ptr) : Type 0 where
  pub same_nil : t'.nil ≡ t.nil
  pub root : t'.rbtt_root ≡ (if y == t.nil then z else t.rbtt_root)
  pub left :
      (m : Ptr)
      → t'.rbt_left m ≡ (
          if m == y && not (y == t.nil) && less y
          then z
          else if m == z
          then t.nil
          else t.rbt_left m)
  pub right :
      (m : Ptr)
      → t'.rbt_right m ≡ (
          if m == y && not (y == t.nil) && not (less y)
          then z
          else if m == z
          then t.nil
          else t.rbt_right m)
  pub parent : (m : Ptr) → t'.rbt_parent m ≡ (if m == z then y else t.rbt_parent m)
  pub color : t'.rbt_color ≡ t.rbt_color
  pub data_kept : t'.rbt_data ≡ t.rbt_data
  pub inodes : t'.rbtt_numinodes ≡ t.rbtt_numinodes
  pub inserts : t'.rbtt_numinserts ≡ t.rbtt_numinserts

pub attach-Attached :
    (compare : Compare) (t : Table) (z y : Ptr)
    → Attached (λ q. is_less compare (t.rbt_data z) (t.rbt_data q)) t (attach compare z y t) z y
unfolding attach
attach-Attached compare t z y = record {
  same_nil = ground arith;
  root = ground arith;
  left = λ m. ground arith;
  right = λ m. ground arith;
  parent = λ m. ground arith;
  color = ground arith;
  data_kept = ground arith;
  inodes = ground arith;
  inserts = ground arith;
}

module _ (less : Ptr → Bool) (t t' : Table) (z y : Ptr) (attached : Attached less t t' z y) where
  untouched : (m : Ptr) → m ≢ z → m ≢ y → Same t t' m
  untouched m nz ny =
      let fz : (m == z) ≡ false = ground arith in
      let fy : (m == y) ≡ false = ground arith in
      record {
        left = attached.left m ∙ rw (fy, fz) refl;
        right = attached.right m ∙ rw (fy, fz) refl;
        parent = attached.parent m ∙ rw fz refl;
      }

  -- Where the new leaf is below `p`.
  pub record Grown (par p : Ptr) (tree : Tree) : Type 0 where
    pub now : Ptr
    pub is : IsTree t' par now (add less z tree)
    pub at : ((y ≡ par) × (now ≡ z) × (p ≡ t.nil)) ⊎ (IsIn y (inorder tree) × (now ≡ p))

  pub IsTree-Grown :
      (par p : Ptr) (tree : Tree)
      → z ≢ t.nil
      → z ≢ null
      → y ≡ place less par tree
      → IsTree t par p tree
      → NoDup (inorder tree)
      → (IsIn z (inorder tree) → ⊥)
      → z ≢ y
      → Grown par p tree
  IsTree-Grown par p leaf zn z0 ey is d new zy =
      let self : (z == z) ≡ true = ground arith in
      let other : (z == y) ≡ false = ground arith in
      record {
        now = z;
        is = (
          refl,
          (λ e. zn (e ∙ attached.same_nil)),
          z0,
          attached.parent z ∙ rw self ey,
          attached.left z ∙ rw (other, self) (sym attached.same_nil),
          attached.right z ∙ rw (other, self) (sym attached.same_nil),
        );
        at = inl (ey, refl, is);
      }
  IsTree-Grown par p (node l q r) zn z0 ey (e, n, n0, pq, il, ir) d new zy =
      let parts = NoDup-Parts l q r d in
      let qz : q ≢ z = λ s. new (Side-IsIn z l q r (at_node (sym s))) in
      let fz : (q == z) ≡ false = ground arith in
      let there : (q == t.nil) ≡ false = ground arith in
      let self : (q == q) ≡ true = ground arith in
      let up : t'.rbt_parent q ≡ t.rbt_parent q = attached.parent q ∙ rw fz refl in
      elim (Bool-cases (less q)) [
        | inl below ↦
            let ih =
              IsTree-Grown q (t.rbt_left q) l zn z0 (ey ∙ rw below refl) il parts.in_left
                (λ i. new (Side-IsIn z l q r (at_left i))) zy in
            let links : (t'.rbt_left q ≡ ih.now) × (t'.rbt_right q ≡ t.rbt_right q) = elim ih.at [
              | inl (yq, nz, gone) ↦ (
                attached.left q ∙ rw (yq, self, there, below) (sym nz),
                attached.right q ∙ rw (yq, self, there, below, fz) refl,
              )
              | inr (iy, np) ↦
                  let fy : (q == y) ≡ false = ground (arith, parts.not_left y iy) in
                  (attached.left q ∙ rw (fy, fz) (sym np), attached.right q ∙ rw (fy, fz) refl)
            ] in
            let framed =
              IsTree-frame t t' q (t.rbt_right q) r attached.same_nil
                (λ m i.
                  untouched m
                    (λ s. new (
                      subst (λ k. IsIn k (inorder (node l q r))) s
                        (Side-IsIn m l q r (at_right i))))
                    (elim ih.at [
                      | inl (yq, nz, gone) ↦ λ s. parts.not_right m i (s ∙ yq)
                      | inr (iy, np) ↦ λ s. parts.apart y iy (subst (λ k. IsIn k (inorder r)) s i)
                    ]))
                ir in
            record {
              now = q;
              is =
                  subst (λ s. IsTree t' par q s) (sym (add_below less z q l r below))
                    (
                      refl,
                      (λ s. n (s ∙ attached.same_nil)),
                      n0,
                      up ∙ pq,
                      subst (λ s. IsTree t' q s (add less z l)) (sym links.0) ih.is,
                      subst (λ s. IsTree t' q s r) (sym links.1) framed,
                    );
              at = inr (elim ih.at [
                | inl (yq, nz, gone) ↦ (Side-IsIn y l q r (at_node yq), sym e)
                | inr (iy, np) ↦ (Side-IsIn y l q r (at_left iy), sym e)
              ]);
            }
        | inr above ↦
            let ih =
              IsTree-Grown q (t.rbt_right q) r zn z0 (ey ∙ rw above refl) ir parts.in_right
                (λ i. new (Side-IsIn z l q r (at_right i))) zy in
            let links : (t'.rbt_right q ≡ ih.now) × (t'.rbt_left q ≡ t.rbt_left q) = elim ih.at [
              | inl (yq, nz, gone) ↦ (
                attached.right q ∙ rw (yq, self, there, above) (sym nz),
                attached.left q ∙ rw (yq, self, there, above, fz) refl,
              )
              | inr (iy, np) ↦
                  let fy : (q == y) ≡ false = ground (arith, parts.not_right y iy) in
                  (attached.right q ∙ rw (fy, fz) (sym np), attached.left q ∙ rw (fy, fz) refl)
            ] in
            let framed =
              IsTree-frame t t' q (t.rbt_left q) l attached.same_nil
                (λ m i.
                  untouched m
                    (λ s. new (
                      subst (λ k. IsIn k (inorder (node l q r))) s (Side-IsIn m l q r (at_left i))))
                    (elim ih.at [
                      | inl (yq, nz, gone) ↦ λ s. parts.not_left m i (s ∙ yq)
                      | inr (iy, np) ↦
                          λ s. parts.apart m i (subst (λ k. IsIn k (inorder r)) (sym s) iy)
                    ]))
                il in
            record {
              now = q;
              is =
                  subst (λ s. IsTree t' par q s) (sym (add_above less z q l r above))
                    (
                      refl,
                      (λ s. n (s ∙ attached.same_nil)),
                      n0,
                      up ∙ pq,
                      subst (λ s. IsTree t' q s l) (sym links.1) framed,
                      subst (λ s. IsTree t' q s (add less z r)) (sym links.0) ih.is,
                    );
              at = inr (elim ih.at [
                | inl (yq, nz, gone) ↦ (Side-IsIn y l q r (at_node yq), sym e)
                | inr (iy, np) ↦ (Side-IsIn y l q r (at_right iy), sym e)
              ]);
            }
      ]

-- The table holds the tree with the new leaf.
pub attach-Holds :
    (less : Ptr → Bool) (t t' : Table) (z : Ptr) (tree : Tree)
    → Attached less t t' z (place less t.nil tree)
    → Holds t tree
    → z ≢ t.nil
    → z ≢ null
    → (IsIn z (inorder tree) → ⊥)
    → Holds t' (add less z tree)
attach-Holds less t t' z tree attached holds zn z0 new =
    let y = place less t.nil tree in
    let apart : z ≢ y = elim (place-IsIn less t.nil tree) [
      | inl e ↦ λ s. zn (s ∙ e)
      | inr i ↦ λ s. new (subst (λ k. IsIn k (inorder tree)) (sym s) i)
    ] in
    let grown =
      IsTree-Grown less t t' z y attached t.nil t.rbtt_root tree zn z0 refl holds.is holds.once new
        apart in
    let root : t'.rbtt_root ≡ grown.now = elim grown.at [
      | inl (yn, nz, gone) ↦
          let top : (y == t.nil) ≡ true = ground arith in attached.root ∙ rw top (sym nz)
      | inr (iy, np) ↦
          let yn = IsIn-not_nil t t.nil t.rbtt_root y tree holds.is iy in
          let top : (y == t.nil) ≡ false = ground arith in attached.root ∙ rw top (sym np)
    ] in
    record {
      is =
          subst (λ k. IsTree t' k t'.rbtt_root (add less z tree)) (sym attached.same_nil)
            (subst (λ k. IsTree t' t.nil k (add less z tree)) (sym root) grown.is);
      once = NoDup-add less z tree holds.once new;
    }
