-- ===== src/Radix/Way.antt =====
-- The loop down of `std_radix_insert` of std_radix.c, and the loop up from where it ends.
use opx_common_utils.Prelude.{
  ℕ, zero, suc, ◌+◌, ◌-◌, ◌/◌, ◌%◌, ◌≤◌, ◌<◌, ◌≡◌, ◌≢◌, ◌⊎◌, inl, inr, refl, sym, ap, ◌∙◌, arith,
  Bool, true, false, ◌==◌, subst, ltb, ◌||◌, Bool-cases, some, if◌then◌else◌,
}
use opx_common_utils.BitMask.{Bytes}
use opx_common_utils.Bits.{bit-le-one}
use opx_common_utils.Tree.{Tree, leaf, node, inorder, size, IsIn}
use opx_common_utils.Radix.{Ptr, null, Table, rn_bit, rn_byte, bit_test}
use opx_common_utils.Radix.Compare.{key_bit, bit_test-key_bit}
use opx_common_utils.Radix.Shape.{IsTrie}
use opx_common_utils.Radix.Insert.{down_to_head, up_to_bit}
use opx_common_utils.Radix.Fork.{fork, child, digit, self, side, Of-IsIn, size-fork, IsTrie-Links}
use opx_common_utils.Radix.Good.{Grows, Good, Good-Node}

-- The side of a key at a bit.
abbrev pub turn : Bytes → ℕ → Bool
turn a n = key_bit a n == 1

pub digit-turn : (a : Bytes) (n : ℕ) → digit (turn a n) ≡ key_bit a n
digit-turn a n =
    let low = bit-le-one (a (n / 8)) (7 - n % 8) in
    elim (Bool-cases (turn a n)) [
      | inl e ↦ ap digit e ∙ ground arith
      | inr e ↦ ap digit e ∙ ground (arith, low)
    ]

-- The way of the key down to `f`.
pub data Way (t : Table) (a : Bytes) (bitlen : ℕ) (f : Ptr) : Tree → Type 0 where
  long : (l r : Tree) → bitlen ≤ t.rtn_bit f → t.rtn_rth f ≢ null → Way t a bitlen f (node l f r)
  ends : (v : Bool) (c : Tree) → v ≡ turn a (t.rtn_bit f) → Way t a bitlen f (fork v c f leaf)
  goes :
      (v : Bool) (c : Tree) (q : Ptr) (s : Tree)
      → v ≡ turn a (t.rtn_bit q)
      → (t.rtn_bit q < bitlen) ⊎ (t.rtn_rth q ≡ null)
      → Way t a bitlen f s
      → Way t a bitlen f (fork v c q s)

split_node :
    (v : Bool) (l : Tree) (q : Ptr) (r : Tree)
    → (c : Tree) × (s : Tree) × (node l q r ≡ fork v c q s)
split_node true l q r = (l, r, refl)
split_node false l q r = (r, l, refl)

pub null-leaf :
    (t : Table) (par p : Ptr) (tree : Tree) → IsTrie t par p tree → p ≡ null → tree ≡ leaf
null-leaf t par p leaf is e = refl
null-leaf t par p (node l q r) is e = absurd (is.1 (sym is.0 ∙ e))

pub real-Grows :
    (t : Table) (par p : Ptr) (tree : Tree) → IsTrie t par p tree → p ≢ null → Grows tree
real-Grows t par p leaf is n = n is
real-Grows t par p (node l q r) is n = tt

-- The top of a tree that is there.
pub top-low :
    (t : Table) (lo : ℕ) (par p : Ptr) (tree : Tree)
    → IsTrie t par p tree
    → Good t lo tree
    → Grows tree
    → (lo ≤ t.rtn_bit p) × (t.rtn_parent p ≡ par) × (p ≢ null)
top-low t lo par p leaf is g full = absurd full
top-low t lo par p (node l q r) is g full = (
  subst (λ z. lo ≤ t.rtn_bit z) (sym is.0) g.0,
  ap t.rtn_parent is.0 ∙ is.2,
  λ z. is.1 (sym is.0 ∙ z),
)

module _ (t : Table) (a : Bytes) (bitlen : ℕ) where
  down-step :
      (f : ℕ) (q : Ptr) (v : Bool)
      → v ≡ turn a (t.rtn_bit q)
      → t.rtn_tbit q ≡ rn_bit (t.rtn_bit q)
      → (ltb (t.rtn_bit q) bitlen || t.rtn_rth q == null) ≡ true
      → down_to_head (suc f) t a bitlen q
        ≡ (if child t v q == null then some q else down_to_head f t a bitlen (child t v q))
  unfolding down_to_head
  down-step f q true e tb go =
      let test : bit_test (a (rn_byte (t.rtn_bit q))) (t.rtn_tbit q) ≡ true =
        ap (λ b. bit_test (a (rn_byte (t.rtn_bit q))) b) tb
        ∙ bit_test-key_bit a (t.rtn_bit q)
        ∙ sym e in
      rw (go, test) refl
  down-step f q false e tb go =
      let test : bit_test (a (rn_byte (t.rtn_bit q))) (t.rtn_tbit q) ≡ false =
        ap (λ b. bit_test (a (rn_byte (t.rtn_bit q))) b) tb
        ∙ bit_test-key_bit a (t.rtn_bit q)
        ∙ sym e in
      rw (go, test) refl

  down-stop :
      (f : ℕ) (q : Ptr)
      → (ltb (t.rtn_bit q) bitlen || t.rtn_rth q == null) ≡ false
      → down_to_head (suc f) t a bitlen q ≡ some q
  unfolding down_to_head
  down-stop f q stop = rw stop refl

  -- With fuel for the nodes, the loop down ends.
  pub down_to_head-Way :
      (fuel : ℕ) (par p : Ptr) (tree : Tree)
      → IsTrie t par p tree
      → Grows tree
      → size tree < fuel
      → (f : Ptr) × (down_to_head fuel t a bitlen p ≡ some f) × Way t a bitlen f tree
  down_to_head-Way zero par p tree is g h = absurd (omega (arith, h))
  down_to_head-Way (suc fuel) par p leaf is g h = absurd g
  down_to_head-Way (suc fuel) par p (node l q r) is g h =
      let start = ap (λ z. down_to_head (suc fuel) t a bitlen z) is.0 in
      elim (Bool-cases (ltb (t.rtn_bit q) bitlen || t.rtn_rth q == null)) [
        | inr stop ↦ (q, start ∙ down-stop fuel q stop, long l r (ground arith) (ground arith))
        | inl go ↦
            let v = turn a (t.rtn_bit q) in
            let (c, s, e) = split_node v l q r in
            let links = IsTrie-Links t par p v c q s (subst (IsTrie t par p) e is) in
            let step = down-step fuel q v refl links.tbit go in
            let less : size s < fuel =
              (let sizes = ap size e ∙ size-fork v c q s in omega (arith, h, sizes)) in
            elim (Bool-cases (child t v q == null)) [
              | inl bare ↦
                  let none_there = null-leaf t q (child t v q) s links.down (ground arith) in
                  (
                    q,
                    start ∙ step ∙ rw bare refl,
                    subst (λ z. Way t a bitlen q z) (sym e)
                        (subst (λ z. Way t a bitlen q (fork v c q z)) (sym none_there)
                          (ends v c refl)),
                  )
              | inr below ↦
                  let (f, run, way) =
                    down_to_head-Way fuel q (child t v q) s links.down
                      (real-Grows t q (child t v q) s links.down (ground arith)) less in
                  (
                    f,
                    start ∙ step ∙ rw below run,
                    subst (λ z. Way t a bitlen f z) (sym e) (goes v c q s refl (ground arith) way),
                  )
            ]
      ]

  pub Way-IsIn : (f : Ptr) (tree : Tree) → Way t a bitlen f tree → IsIn f (inorder tree)
  Way-IsIn f _ (long l r h n) = Of-IsIn true f l f r (self refl)
  Way-IsIn f _ (ends v c e) = Of-IsIn v f c f leaf (self refl)
  Way-IsIn f _ (goes v c q s e b w) = Of-IsIn v f c q s (side (Way-IsIn f s w))

  pub Way-Grows : (f : Ptr) (tree : Tree) → Way t a bitlen f tree → Grows tree
  Way-Grows f _ (long l r h n) = tt
  Way-Grows f _ (ends true c e) = tt
  Way-Grows f _ (ends false c e) = tt
  Way-Grows f _ (goes true c q s e b w) = tt
  Way-Grows f _ (goes false c q s e b w) = tt

  -- It ends at an entry.
  pub Way-head :
      (f : Ptr) (lo : ℕ) (tree : Tree) → Way t a bitlen f tree → Good t lo tree → t.rtn_rth f ≢ null
  Way-head f lo _ (long l r h n) g = n
  Way-head f lo _ (ends v c e) g = λ z. ((Good-Node t lo v c f leaf g).full z).1
  Way-head f lo _ (goes v c q s e b w) g =
      Way-head f (t.rtn_bit q + 1) s w (Good-Node t lo v c q s g).good_side

module _ (t : Table) (d : ℕ) where
  pub up-stop :
      (g : ℕ) (q : Ptr)
      → (t.rtn_parent q == null || ltb (t.rtn_bit (t.rtn_parent q)) d) ≡ true
      → up_to_bit (suc g) t d q ≡ some q
  unfolding up_to_bit
  up-stop g q e = rw e refl

  up-on :
      (g : ℕ) (q : Ptr)
      → (t.rtn_parent q == null || ltb (t.rtn_bit (t.rtn_parent q)) d) ≡ false
      → up_to_bit (suc g) t d q ≡ up_to_bit g t d (t.rtn_parent q)
  unfolding up_to_bit
  up-on g q e = rw e refl

  not_yet :
      (x q : Ptr)
      → t.rtn_parent x ≡ q
      → q ≢ null
      → d ≤ t.rtn_bit q
      → (t.rtn_parent x == null || ltb (t.rtn_bit (t.rtn_parent x)) d) ≡ false
  not_yet x q e n low =
      ap (λ z. z == null || ltb (t.rtn_bit z) d) e
      ∙ (let there_is : (q == null) ≡ false = ground arith in
          let late : ltb (t.rtn_bit q) d ≡ false = ground arith in rw (there_is, late) refl)

  zero_plus : (j : ℕ) (f : Ptr) → up_to_bit (0 + j) t d f ≡ up_to_bit j t d f
  zero_plus j f = let e : 0 + j ≡ j = omega arith in ap (λ z. up_to_bit z t d f) e

  -- From the end of the way to the top of a tree whose nodes are all at `d` or behind it.
  pub up-Way :
      (a : Bytes) (bitlen : ℕ) (f : Ptr) (lo : ℕ) (par p : Ptr) (tree : Tree)
      → Way t a bitlen f tree
      → IsTrie t par p tree
      → Good t lo tree
      → d ≤ t.rtn_bit p
      → (k : ℕ) × (k < size tree) × ((g : ℕ) → up_to_bit (k + g) t d f ≡ up_to_bit g t d p)
  up-Way a bitlen f lo par p _ (long l r h n) is g low =
      (0, omega arith, λ j. zero_plus j f ∙ ap (λ z. up_to_bit j t d z) (sym is.0))
  up-Way a bitlen f lo par p _ (ends v c e) is g low =
      let links = IsTrie-Links t par p v c f leaf is in
      let sizes = size-fork v c f leaf in
      (0, omega (arith, sizes), λ j. zero_plus j f ∙ ap (λ z. up_to_bit j t d z) (sym links.here))
  up-Way a bitlen f lo par p _ (goes v c q s e b w) is g low =
      let links = IsTrie-Links t par p v c q s is in
      let at = Good-Node t lo v c q s g in
      let (below, parent, there_is) =
        top-low t (t.rtn_bit q + 1) q (child t v q) s links.down at.good_side
          (Way-Grows t a bitlen f s w) in
      let on_q = ap t.rtn_bit links.here in
      let (k, less, climb) =
        up-Way a bitlen f (t.rtn_bit q + 1) q (child t v q) s w links.down at.good_side
          (omega (arith, low, on_q, below)) in
      let sizes = size-fork v c q s in
      (
        k + 1,
        omega (arith, less, sizes),
        λ j.
            let shift : k + 1 + j ≡ k + suc j = omega arith in
            ap (λ z. up_to_bit z t d f) shift
            ∙ climb (suc j)
            ∙ up-on j (child t v q)
                (not_yet (child t v q) q parent links.real (omega (arith, low, on_q)))
            ∙ ap (λ z. up_to_bit j t d z) (parent ∙ sym links.here),
      )
