-- ===== src/RbTree/Ceiling.antt =====
-- The first node of at least a rank in an ordered tree of std_rbtree.c.
use opx_common_utils.Prelude.{ℕ, ◌≤◌, ◌<◌, refl, sym, subst, ap, arith, List}
use opx_common_utils.RbTree.{Ptr}
use opx_common_utils.RbTree.Shape.{Tree, node, inorder}
use opx_common_utils.Tree.{IsIn, at_left, at_node, at_right, IsIn-Side, Side-IsIn}

-- `x` has at least the rank `k`, and no node of the list that has it too is before `x` in rank.
pub record Ceiling (key : Ptr → ℕ) (k : ℕ) (nodes : List Ptr) (x : Ptr) : Type 0 where
  pub inside : IsIn x nodes
  pub at_least : k ≤ key x
  pub least : (m : Ptr) → IsIn m nodes → k ≤ key m → key x ≤ key m

abbrev pub AllBelow : (Ptr → ℕ) → ℕ → List Ptr → Type 0
AllBelow key k nodes = (m : Ptr) → IsIn m nodes → key m < k

module _ (key : Ptr → ℕ) (k : ℕ) (l : Tree) (q : Ptr) (r : Tree) where
  -- What a part of the tree gives for all of it.
  pub Ceiling-left :
      (x : Ptr)
      → k < key q
      → ((m : Ptr) → IsIn m (inorder l) → key m ≤ key q)
      → ((m : Ptr) → IsIn m (inorder r) → key q ≤ key m)
      → Ceiling key k (inorder l) x
      → Ceiling key k (inorder (node l q r)) x
  Ceiling-left x lt before behind c =
      let top = before x c.inside in
      record {
        inside = Side-IsIn x l q r (at_left c.inside);
        at_least = c.at_least;
        least = λ m i le. elim (IsIn-Side m l q r i) [
          | at_left j ↦ c.least m j le
          | at_node s ↦ subst (λ z. key x ≤ key z) (sym s) top
          | at_right j ↦ let next = behind m j in omega (arith, top, next)
        ];
      }

  pub Ceiling-root :
      k < key q
      → ((m : Ptr) → IsIn m (inorder r) → key q ≤ key m)
      → AllBelow key k (inorder l)
      → Ceiling key k (inorder (node l q r)) q
  Ceiling-root lt behind low = record {
    inside = Side-IsIn q l q r (at_node refl);
    at_least = omega (arith, lt);
    least = λ m i le. elim (IsIn-Side m l q r i) [
      | at_left j ↦ let small = low m j in absurd (omega (arith, small, le))
      | at_node s ↦ subst (λ z. key q ≤ key z) (sym s) (omega arith)
      | at_right j ↦ behind m j
    ];
  }

  pub Below-right :
      key q < k
      → ((m : Ptr) → IsIn m (inorder l) → key m ≤ key q)
      → AllBelow key k (inorder r)
      → AllBelow key k (inorder (node l q r))
  Below-right gt before low m i = elim (IsIn-Side m l q r i) [
    | at_left j ↦ let le = before m j in omega (arith, le, gt)
    | at_node s ↦ subst (λ z. key z < k) (sym s) gt
    | at_right j ↦ low m j
  ]

  pub Ceiling-right :
      (x : Ptr)
      → key q < k
      → ((m : Ptr) → IsIn m (inorder l) → key m ≤ key q)
      → Ceiling key k (inorder r) x
      → Ceiling key k (inorder (node l q r)) x
  Ceiling-right x gt before c = record {
    inside = Side-IsIn x l q r (at_right c.inside);
    at_least = c.at_least;
    least = λ m i le. elim (IsIn-Side m l q r i) [
      | at_left j ↦ let small = before m j in absurd (omega (arith, small, gt, le))
      | at_node s ↦ absurd (let same = ap key s in omega (arith, same, gt, le))
      | at_right j ↦ c.least m j le
    ];
  }
