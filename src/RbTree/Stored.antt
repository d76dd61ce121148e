-- ===== src/RbTree/Stored.antt =====
-- `std_rbtree_getexact` after `std_rbtree_insert`.
use opx_common_utils.Prelude.{
  ℕ, suc, ◌+◌, ◌%◌, ◌^◌, ◌<◌, ◌≡◌, ◌≢◌, ◌⊎◌, refl, sym, subst, ap, ◌∙◌, arith, true, false, ◌==◌,
  List, [], ◌∷◌, some,
}
use opx_common_utils.RbTree.{
  Ptr, null, Table, Compare, black, set_at, data_of, getexact, getexact_data,
}
use opx_common_utils.RbTree.Data.{insert_data}
use opx_common_utils.RbTree.Holds.{Holds}
use opx_common_utils.RbTree.Insert.{insert_node}
use opx_common_utils.RbTree.Inserted.{insert_node-Inserted}
use opx_common_utils.RbTree.Lookup.{insert_node-getexact}
use opx_common_utils.RbTree.Shape.{Tree, Ranks, inorder, size}
use opx_common_utils.RbTree.Sorted.{InOrder}
use opx_common_utils.RbTree.Turn.{IsTree-frame}
use opx_common_utils.Tree.{IsIn, here, there}

InOrder-same :
    (key key' : Ptr → ℕ) (xs : List Ptr)
    → ((m : Ptr) → IsIn m xs → key' m ≡ key m)
    → InOrder key xs
    → InOrder key' xs
InOrder-same key key' [] same o = tt
InOrder-same key key' (x ∷ xs) same (first, o) = (
  (λ m i.
      let at_x = same x (here xs) in
      let at_m = same m (there x xs i) in let le = first m i in omega (arith, at_x, at_m, le)),
  InOrder-same key key' xs (λ m i. same m (there x xs i)) o,
)

-- The table with a new node's data.
abbrev stored : Table → Ptr → Ptr → Table
stored t z item = record t {
  rbtt_nummallocs = (t.rbtt_nummallocs + 1) % 2 ^ 64;
  rbt_data = set_at t.rbt_data z item;
}

stored-Holds :
    (t : Table) (z item : Ptr) (tree : Tree) → Holds t tree → Holds (stored t z item) tree
stored-Holds t z item tree holds = record {
  is =
      IsTree-frame t (stored t z item) t.nil t.rbtt_root tree refl
        (λ m i. record { left = refl; right = refl; parent = refl }) holds.is;
  once = holds.once;
}

insert_data-runs :
    (compare : Compare) (fuel errno : ℕ) (t t' : Table) (z item : Ptr)
    → item ≢ null
    → z ≢ null
    → insert_node compare fuel (stored t z item) z ≡ some t'
    → insert_data compare fuel errno t z item ≡ some (0, t')
unfolding insert_data
insert_data-runs compare fuel errno t t' z item ni z0 run =
    let given : (item == null) ≡ false = ground arith in
    let allocated : (z == null) ≡ false = ground arith in rw (given, allocated, run) refl

getexact_data-runs :
    (compare : Compare) (fuel : ℕ) (t : Table) (key x : Ptr)
    → getexact compare fuel t key ≡ some x
    → x ≢ null
    → getexact_data compare fuel t key ≡ some (t.rbt_data x)
unfolding getexact_data
getexact_data-runs compare fuel t key x hit xn =
    ap (data_of t) hit ∙ (let there_is : (x == null) ≡ false = ground arith in rw there_is refl)

-- Under the conditions of an insertion, where the allocation gives a new node, and with fuel for one node
-- more, `std_rbtree_insert` of data that is not NULL returns 0, and `std_rbtree_getexact` of this data then
-- returns data of the same rank.
pub insert_data-getexact_data :
    (compare : Compare) (rank : Ptr → ℕ) (fuel errno : ℕ) (t : Table) (z item : Ptr) (tree : Tree)
    → Ranks compare rank
    → Holds t tree
    → InOrder (λ q. rank (t.rbt_data q)) (inorder tree)
    → (t.rbt_color t.rbtt_root ≡ black) ⊎ (t.rbtt_root ≡ t.nil)
    → z ≢ t.nil
    → z ≢ null
    → (IsIn z (inorder tree) → ⊥)
    → suc (size tree) < fuel
    → item ≢ null
    → (t' : Table) × (found : Ptr) × (insert_data compare fuel errno t z item ≡ some (0, t'))
      × (getexact_data compare fuel t' item ≡ some found)
      × (rank found ≡ rank item)
insert_data-getexact_data compare rank fuel errno t z item tree ranks holds sorted dark zn z0 new h
      ni =
    let u = stored t z item in
    let held = stored-Holds t z item tree holds in
    let self : (z == z) ≡ true = ground arith in
    let own : u.rbt_data z ≡ item = rw self refl in
    let order : InOrder (λ q. rank (u.rbt_data q)) (inorder tree) =
      InOrder-same (λ q. rank (t.rbt_data q)) (λ q. rank (u.rbt_data q)) (inorder tree)
        (λ m i. other m (λ e. new (subst (λ k. IsIn k (inorder tree)) e i))) sorted in
    let (t', run, inserted) =
      insert_node-Inserted compare rank fuel u z tree ranks held order dark zn z0 new
        (omega (arith, h)) in
    let (x, hit, xn, same) =
      insert_node-getexact compare rank fuel u t' z item tree ranks held order dark zn z0 new h run
        ni (ap rank (sym own)) in
    (
      t',
      t'.rbt_data x,
      insert_data-runs compare fuel errno t t' z item ni z0 run,
      getexact_data-runs compare fuel t' item x hit xn,
      same,
    )
  where
    other : (m : Ptr) → m ≢ z → rank (set_at t.rbt_data z item m) ≡ rank (t.rbt_data m)
    other m n = let differs : (m == z) ≡ false = ground arith in rw differs refl
