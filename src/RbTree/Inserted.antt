-- ===== src/RbTree/Inserted.antt =====
-- `_std_rbtree_insert` on a tree in the order of the caller's comparison.
use opx_common_utils.Prelude.{
  Bool, ℕ, ◌+◌, ◌%◌, ◌^◌, ◌<◌, ◌≡◌, ◌≢◌, ◌⊎◌, inl, inr, refl, sym, subst, ap, ◌∙◌, arith, true,
  false, ◌==◌, if◌then◌else◌, Bool-cases, List, some,
}
use opx_common_utils.RbTree.{Ptr, null, Table, Compare, red, black, is_less, set_color}
use opx_common_utils.RbTree.Above.{IsIn-Above}
use opx_common_utils.RbTree.Add.{add, place, place-IsIn, add-IsIn, size-add}
use opx_common_utils.RbTree.Attach.{insert_place-place, Attached, attach-Attached, attach-Holds}
use opx_common_utils.RbTree.Balance.{balance_loop-Balanced}
use opx_common_utils.RbTree.Holds.{Holds}
use opx_common_utils.RbTree.Insert.{insert_node, insert_place, attach, balanceoninsert}
use opx_common_utils.RbTree.Shape.{Tree, Ranks, inorder, size}
use opx_common_utils.RbTree.Sorted.{InOrder, insert_item, inorder-add, insert-InOrder}
use opx_common_utils.RbTree.Step.{Kept-refl, set_color-Holds}
use opx_common_utils.RbTree.Turn.{IsTree-frame, IsIn-not_nil, no_root}
use opx_common_utils.Tree.{IsIn}

-- What an insertion of `z` leaves: a tree with `z` at its place among the nodes, a black root, the data as
-- they were, and one node more in the counts of 64 bits.
pub record Inserted (key : Ptr → ℕ) (t t' : Table) (z : Ptr) (nodes : List Ptr) : Type 0 where
  pub shape : Tree
  pub holds : Holds t' shape
  pub order : inorder shape ≡ insert_item key z nodes
  pub sorted : InOrder key (inorder shape)
  pub black_root : t'.rbt_color t'.rbtt_root ≡ black
  pub data_kept : t'.rbt_data ≡ t.rbt_data
  pub same_nil : t'.nil ≡ t.nil
  pub inodes : t'.rbtt_numinodes ≡ (t.rbtt_numinodes + 1) % 2 ^ 64
  pub inserts : t'.rbtt_numinserts ≡ (t.rbtt_numinserts + 1) % 2 ^ 64

abbrev counted : Table → Table
counted t = record t {
  rbtt_numinserts = (t.rbtt_numinserts + 1) % 2 ^ 64;
  rbtt_numinodes = (t.rbtt_numinodes + 1) % 2 ^ 64;
}

counted-Holds : (t : Table) (tree : Tree) → Holds t tree → Holds (counted t) tree
counted-Holds t tree holds = record {
  is =
      IsTree-frame t (counted t) t.nil t.rbtt_root tree refl
        (λ m i. record { left = refl; right = refl; parent = refl }) holds.is;
  once = holds.once;
}

insert_node-runs :
    (compare : Compare) (fuel : ℕ) (t : Table) (z y : Ptr) (b : Table)
    → z ≢ null
    → insert_place compare fuel t z t.nil t.rbtt_root ≡ some y
    → balanceoninsert fuel z (attach compare z y t) ≡ some b
    → insert_node compare fuel t z ≡ some (counted b)
unfolding insert_node
insert_node-runs compare fuel t z y b z0 found balanced =
    let given : (z == null) ≡ false = ground arith in rw (insert_node, given, found, balanced) refl

-- The root is black after the new leaf, or it is the new leaf.
dark_root :
    (less : Ptr → Bool) (t u : Table) (z : Ptr) (tree : Tree)
    → Attached less t u z (place less t.nil tree)
    → Holds t tree
    → (t.rbt_color t.rbtt_root ≡ black) ⊎ (t.rbtt_root ≡ t.nil)
    → ((set_color z red u).rbt_color u.rbtt_root ≡ black) ⊎ (z ≡ u.rbtt_root)
dark_root less t u z tree attached holds dark =
    let y = place less t.nil tree in
    let below : IsIn y (inorder tree) → (if y == t.nil then z else t.rbtt_root) ≡ t.rbtt_root = λ i.
      let there = IsIn-not_nil t t.nil t.rbtt_root y tree holds.is i in
      let apart : (y == t.nil) ≡ false = ground arith in rw apart refl in
    elim (Bool-cases (u.rbtt_root == z)) [
      | inl at_z ↦ inr (ground arith)
      | inr other ↦ elim (place-IsIn less t.nil tree) [
        | inl e ↦
            let top : (y == t.nil) ≡ true = ground arith in inr (sym (attached.root ∙ rw top refl))
        | inr i ↦ inl (
            rw other (
              ap (λ f. f u.rbtt_root) attached.color
              ∙ ap t.rbt_color (attached.root ∙ below i)
              ∙ elim dark [
                | inl d ↦ d
                | inr e ↦ absurd (no_root t t.nil t.rbtt_root y tree holds.is i e)
              ]))
      ]
    ]

-- With a comparison that is the order of a rank of the data, with fuel for more rounds than there are
-- nodes, `_std_rbtree_insert` of a new node, neither NULL nor `NIL`, into a tree whose nodes are in that
-- order, and whose root, where there is one, is black, ends. It leaves a tree with the new node behind
-- those of at most its rank and in front of the others, in order again, with a black root, the data as
-- they were, and one node more in the counts.
pub insert_node-Inserted :
    (compare : Compare) (rank : Ptr → ℕ) (fuel : ℕ) (t : Table) (z : Ptr) (tree : Tree)
    → Ranks compare rank
    → Holds t tree
    → InOrder (λ q. rank (t.rbt_data q)) (inorder tree)
    → (t.rbt_color t.rbtt_root ≡ black) ⊎ (t.rbtt_root ≡ t.nil)
    → z ≢ t.nil
    → z ≢ null
    → (IsIn z (inorder tree) → ⊥)
    → size tree < fuel
    → (t' : Table) × (insert_node compare fuel t z ≡ some t')
      × Inserted (λ q. rank (t.rbt_data q)) t t' z (inorder tree)
unfolding balanceoninsert
insert_node-Inserted compare rank fuel t z tree ranks holds sorted dark zn z0 new h =
    let less = λ (q : Ptr). is_less compare (t.rbt_data z) (t.rbt_data q) in
    let key = λ (q : Ptr). rank (t.rbt_data q) in
    let y = place less t.nil tree in
    let u = attach compare z y t in
    let v = set_color z red u in
    let attached = attach-Attached compare t z y in
    let grown = attach-Holds less t u z tree attached holds zn z0 new in
    let painted = set_color-Holds u z red (add less z tree) grown in
    let z_in = add-IsIn less z tree in
    let (n, up, near) = IsIn-Above v v.nil v.rbtt_root z (add less z tree) painted.is z_in in
    let more = size-add less z tree in
    let root_dark = dark_root less t u z tree attached holds dark in
    let balanced =
      balance_loop-Balanced fuel n v v z (add less z tree) painted (Kept-refl v) z_in up root_dark
        (omega (arith, h, near, more)) in
    let order : inorder balanced.shape ≡ insert_item key z (inorder tree) =
      balanced.same
      ∙ inorder-add key less z tree (λ q. ranks.less (t.rbt_data z) (t.rbt_data q)) sorted in
    let run = insert_place-place compare fuel t z t.nil t.rbtt_root tree holds.is h in
    (
      counted balanced.after,
      insert_node-runs compare fuel t z y balanced.after z0 run balanced.returns,
      record {
        shape = balanced.shape;
        holds = counted-Holds balanced.after balanced.shape balanced.holds;
        order = order;
        sorted =
            subst (λ s. InOrder key s) (sym order) (insert-InOrder key z (inorder tree) sorted);
        black_root = balanced.black_root;
        data_kept = balanced.kept.data_kept ∙ attached.data_kept;
        same_nil = balanced.kept.same_nil ∙ attached.same_nil;
        inodes = ap (λ k. (k + 1) % 2 ^ 64) (balanced.kept.inodes ∙ attached.inodes);
        inserts = ap (λ k. (k + 1) % 2 ^ 64) (balanced.kept.inserts ∙ attached.inserts);
      },
    )
