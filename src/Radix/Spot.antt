-- ===== src/Radix/Spot.antt =====
-- The place in a radix tree of std_radix.c at which an insertion changes it: the first node on the way of
-- the key that is at the bit `d` or behind it.
use opx_common_utils.Prelude.{
  ℕ, suc, ◌+◌, ◌-◌, ◌≤◌, ◌<◌, ◌≡◌, inl, inr, sym, ap, ◌∙◌, arith, Bool, true, ◌==◌, subst, ltb,
  ◌||◌, Bool-cases, some,
}
use opx_common_utils.BitMask.{Bytes}
use opx_common_utils.Tree.{Tree, leaf, node, inorder, size, IsIn}
use opx_common_utils.Radix.{Ptr, null, Table}
use opx_common_utils.Radix.Shape.{IsTrie}
use opx_common_utils.Radix.Insert.{up_to_bit}
use opx_common_utils.Radix.Fork.{fork, child, side, Of-IsIn, size-fork, IsTrie-Links}
use opx_common_utils.Radix.Good.{Good, Good-Node}
use opx_common_utils.Radix.Way.{turn, Way, long, ends, goes, up-Way, up-stop, top-low, Way-Grows}

-- `s` is the subtree at that place, and `above` the parent of its top.
pub data Spot (t : Table) (a : Bytes) (d : ℕ) (above : Ptr) (s : Tree) : Ptr → Tree → Type 0 where
  here : Spot t a d above s above s
  inside :
      (par : Ptr) (v : Bool) (c : Tree) (q : Ptr) (r : Tree)
      → t.rtn_bit q < d
      → v ≡ turn a (t.rtn_bit q)
      → Spot t a d above s q r
      → Spot t a d above s par (fork v c q r)

pub Spot-IsIn :
    (t : Table) (a : Bytes) (d : ℕ) (above : Ptr) (s : Tree) (par : Ptr) (tree : Tree) (m : Ptr)
    → Spot t a d above s par tree
    → IsIn m (inorder s)
    → IsIn m (inorder tree)
Spot-IsIn t a d above s par _ m here i = i
Spot-IsIn t a d above s _ _ m (inside par v c q r h e spot) i =
    Of-IsIn v m c q r (side (Spot-IsIn t a d above s q r m spot i))

module _ (t : Table) (a : Bytes) (bitlen d : ℕ) (f : Ptr) where
  -- The place of the bit `d`, and the loop up that ends there.
  pub record Placed (par : Ptr) (tree : Tree) : Type 0 where
    pub above : Ptr
    pub x : Ptr
    pub s : Tree
    pub spot : Spot t a d above s par tree
    pub is : IsTrie t above x s
    pub way : Way t a bitlen f s
    pub behind : d ≤ t.rtn_bit x
    pub size_le : size s ≤ size tree
    pub before : (t.rtn_parent x == null || ltb (t.rtn_bit (t.rtn_parent x)) d) ≡ true

  stays :
      (par p : Ptr) (tree : Tree)
      → IsTrie t par p tree
      → Way t a bitlen f tree
      → d ≤ t.rtn_bit p
      → (t.rtn_parent p == null || ltb (t.rtn_bit (t.rtn_parent p)) d) ≡ true
      → Placed par tree
  stays par p tree is way h b = record {
    above = par;
    x = p;
    s = tree;
    spot = here;
    is = is;
    way = way;
    behind = h;
    size_le = omega arith;
    before = b;
  }

  pub Way-Placed :
      (lo : ℕ) (par p : Ptr) (tree : Tree)
      → Way t a bitlen f tree
      → IsTrie t par p tree
      → Good t lo tree
      → d ≤ t.rtn_bit f
      → (t.rtn_parent p == null || ltb (t.rtn_bit (t.rtn_parent p)) d) ≡ true
      → Placed par tree
  Way-Placed lo par p _ (long l r hb n) is g h b =
      stays par p (node l f r) is (long l r hb n) (subst (λ z. d ≤ t.rtn_bit z) (sym is.0) h) b
  Way-Placed lo par p _ (ends v c e) is g h b =
      let links = IsTrie-Links t par p v c f leaf is in
      stays par p (fork v c f leaf) is (ends v c e)
        (subst (λ z. d ≤ t.rtn_bit z) (sym links.here) h) b
  Way-Placed lo par p _ (goes v c q s e more w) is g h b =
      let links = IsTrie-Links t par p v c q s is in
      let at = Good-Node t lo v c q s g in
      elim (Bool-cases (ltb (t.rtn_bit q) d)) [
        | inl early ↦
            let (low, parent, there_is) =
              top-low t (t.rtn_bit q + 1) q (child t v q) s links.down at.good_side
                (Way-Grows t a bitlen f s w) in
            let at_q : (t.rtn_parent (child t v q) == null
                  || ltb (t.rtn_bit (t.rtn_parent (child t v q))) d)
                ≡ true =
              ap (λ z. z == null || ltb (t.rtn_bit z) d) parent ∙ ground (arith, early) in
            let rest =
              Way-Placed (t.rtn_bit q + 1) q (child t v q) s w links.down at.good_side h at_q in
            let sizes = size-fork v c q s in
            let small = rest.size_le in
            record {
              above = rest.above;
              x = rest.x;
              s = rest.s;
              spot = inside par v c q s (ground arith) e rest.spot;
              is = rest.is;
              way = rest.way;
              behind = rest.behind;
              size_le = omega (arith, small, sizes);
              before = rest.before;
            }
        | inr late ↦
            let from_d : d ≤ t.rtn_bit q = ground arith in
            stays par p (fork v c q s) is (goes v c q s e more w)
              (subst (λ z. d ≤ t.rtn_bit z) (sym links.here) from_d) b
      ]

  -- The loop up from the end of the way comes to this place.
  pub up_to_bit-Placed :
      (lo fuel par : ℕ) (tree : Tree)
      → (place : Placed par tree) → Good t lo place.s
      → size tree < fuel
      → up_to_bit fuel t d f ≡ some place.x
  up_to_bit-Placed lo fuel par tree place g h =
      let (k, less, climb) =
        up-Way t d a bitlen f lo place.above place.x place.s place.way place.is g place.behind in
      let small = place.size_le in
      let rest = fuel - k - 1 in
      let shift : fuel ≡ k + suc rest = omega (arith, less, small, h) in
      ap (λ z. up_to_bit z t d f) shift ∙ climb (suc rest) ∙ up-stop t d rest place.x place.before
