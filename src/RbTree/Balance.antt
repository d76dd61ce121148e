-- ===== src/RbTree/Balance.antt =====
-- The loop of `std_rbtree_balanceoninsert`: it ends, with the same nodes in the same order.
use opx_common_utils.Prelude.{
  ℕ, zero, suc, ◌<◌, ◌≡◌, ◌≢◌, ◌⊎◌, inl, inr, refl, sym, subst, ap, ◌∙◌, arith, Bool, true, false,
  not, ◌&&◌, ◌==◌, Bool-cases, Option, some,
}
use mathlib.Core.Bool.{true≢false}
use opx_common_utils.RbTree.{Ptr, Table, Color, black, is_red, set_color}
use opx_common_utils.RbTree.Above.{Above, at_root, below, parent-IsIn}
use opx_common_utils.RbTree.Insert.{balance_step, balance_loop}
use opx_common_utils.RbTree.Shape.{Tree, inorder}
use opx_common_utils.RbTree.Rotate.{Kept, Kept-trans}
use opx_common_utils.RbTree.Holds.{Holds}
use opx_common_utils.RbTree.Step.{set_color-Holds, climbs, ends, balance_step-Stepped}
use opx_common_utils.Tree.{IsIn}

-- The table that the loop leaves holds a tree of the same nodes in the same order, with a black root.
pub record Balanced (t : Table) (tree : Tree) (run : Option Table) : Type 0 where
  pub after : Table
  pub shape : Tree
  pub returns : run ≡ some after
  pub holds : Holds after shape
  pub same : inorder shape ≡ inorder tree
  pub black_root : after.rbt_color after.rbtt_root ≡ black
  pub kept : Kept t after

loop_stops :
    (fuel : ℕ) (t t0 : Table) (x : Ptr) (tree tree0 : Tree)
    → Holds t tree
    → inorder tree ≡ inorder tree0
    → Kept t0 t
    → (not (x == t.rbtt_root) && is_red (t.rbt_color (t.rbt_parent x))) ≡ false
    → 0 < fuel
    → Balanced t0 tree0 (balance_loop fuel x t)
unfolding balance_loop
loop_stops zero t t0 x tree tree0 holds same kept stop h = absurd (omega (arith, h))
loop_stops (suc fuel) t t0 x tree tree0 holds same kept stop h =
    let self : (t.rbtt_root == t.rbtt_root) ≡ true = ground arith in
    record {
      after = set_color t.rbtt_root black t;
      shape = tree;
      returns = rw stop refl;
      holds = set_color-Holds t t.rbtt_root black tree holds;
      same = same;
      black_root = rw self refl;
      kept = record {
        data_kept = kept.data_kept;
        same_nil = kept.same_nil;
        inodes = kept.inodes;
        inserts = kept.inserts;
      };
    }

dark_stops : (b : Bool) (c : Color) → c ≡ black → (b && is_red c) ≡ false
dark_stops b c e = ap (λ k. b && is_red k) e ∙ and_false b
  where
    and_false : (b : Bool) → (b && false) ≡ false
    and_false true = refl
    and_false false = refl

Above-up :
    (up : Ptr → Ptr) (root : Ptr) (n : ℕ) (x : Ptr)
    → Above up root n x
    → x ≢ root
    → (k : ℕ) × (n ≡ suc k) × Above up root k (up x)
Above-up up root _ _ at_root nr = absurd (nr refl)
Above-up up root _ _ (below n x a) nr = (n, refl, a)

-- With fuel for the parents above the node and one round more, the loop ends.
pub balance_loop-Balanced :
    (fuel n : ℕ) (t t0 : Table) (x : Ptr) (tree : Tree)
    → Holds t tree
    → Kept t0 t
    → IsIn x (inorder tree)
    → Above t.rbt_parent t.rbtt_root n x
    → (t.rbt_color t.rbtt_root ≡ black) ⊎ (x ≡ t.rbtt_root)
    → n < fuel
    → Balanced t0 tree (balance_loop fuel x t)
unfolding balance_loop
balance_loop-Balanced zero n t t0 x tree holds kept ix up dark h = absurd (omega (arith, h))
balance_loop-Balanced (suc fuel) n t t0 x tree holds kept ix up dark h =
    let root = t.rbtt_root in
    let p = t.rbt_parent x in
    elim (Bool-cases (not (x == root) && is_red (t.rbt_color p))) [
      | inr stop ↦ loop_stops (suc fuel) t t0 x tree tree holds refl kept stop (omega arith)
      | inl goes ↦
          let xr : x ≢ root = λ e. ground (arith, goes) in
          let cr : t.rbt_color root ≡ black = elim dark [ inl d ↦ d | inr e ↦ absurd (xr e) ] in
          let pr : p ≢ root = λ e.
            true≢false
              (sym goes ∙ dark_stops (not (x == root)) (t.rbt_color p) (ap t.rbt_color e ∙ cr)) in
          let (n1, e1, up1) = Above-up t.rbt_parent root n x up xr in
          let (n2, e2, up2) = Above-up t.rbt_parent root n1 p up1 pr in
          let s = balance_step x t in
          let ip = (parent-IsIn t t.nil root x tree holds.is ix xr).0 in
          let ig = (parent-IsIn t t.nil root p tree holds.is ip pr).0 in
          let further : Balanced t0 tree (balance_loop fuel s.0 s.1) =
            elim (balance_step-Stepped t x tree holds ix xr pr cr) [
              | climbs at parents top mid dark1 kept1 ↦
                  balance_loop-Balanced fuel n2 s.1 t0 s.0 tree mid (Kept-trans t0 t s.1 kept kept1)
                    (subst (λ z. IsIn z (inorder tree)) (sym at) ig)
                    (subst (λ f. Above f s.1.rbtt_root n2 s.0) (sym parents)
                      (subst (λ z. Above t.rbt_parent z n2 s.0) (sym top)
                        (subst (λ z. Above t.rbt_parent root n2 z) (sym at) up2)))
                    (elim dark1 [
                      | inl d ↦ inl (ap s.1.rbt_color top ∙ d)
                      | inr e ↦ inr (e ∙ sym top)
                    ])
                    (omega (arith, h, e1, e2))
              | ends tree' mid same dark1 kept1 ↦
                  loop_stops fuel s.1 t0 s.0 tree' tree mid same (Kept-trans t0 t s.1 kept kept1)
                    (dark_stops (not (s.0 == s.1.rbtt_root)) (s.1.rbt_color (s.1.rbt_parent s.0))
                      dark1)
                    (omega (arith, h, e1, e2))
            ] in
          subst (λ z. Balanced t0 tree z) (sym (rw goes refl)) further
    ]
