-- ===== src/RbTree/Sorted.antt =====
-- The nodes of a red-black tree of std_rbtree.c in the order of their ranks, and a new one among them.
use opx_common_utils.Prelude.{
  length, suc, ℕ, ◌≤◌, ◌≡◌, ◌⊎◌, inl, inr, refl, sym, subst, ap, ◌∙◌, arith, Bool, true, false, ltb,
  if◌then◌else◌, Bool-cases, List, [], ◌∷◌, ◌++◌,
}
use opx_common_utils.RbTree.{Ptr}
use opx_common_utils.RbTree.Add.{add, add_below, add_above}
use opx_common_utils.RbTree.Shape.{Tree, leaf, node, inorder}
use opx_common_utils.Tree.{IsIn, here, there, IsIn-head, IsIn-left, IsIn-right}

-- Each node has at most the rank of those behind it.
abbrev pub InOrder : (Ptr → ℕ) → List Ptr → Type 0
InOrder key [] = Unit
InOrder key (x ∷ xs) = ((m : Ptr) → IsIn m xs → key x ≤ key m) × InOrder key xs

-- A new node goes in front of the first one of a greater rank.
abbrev pub insert_item : (Ptr → ℕ) → Ptr → List Ptr → List Ptr
insert_item key z [] = z ∷ []
insert_item key z (x ∷ xs) = if ltb (key z) (key x) then z ∷ x ∷ xs else x ∷ insert_item key z xs

pub InOrder-append :
    (key : Ptr → ℕ) (xs ys : List Ptr) (q : Ptr)
    → InOrder key (xs ++ q ∷ ys)
    → InOrder key xs × ((m : Ptr) → IsIn m xs → key m ≤ key q) × InOrder key (q ∷ ys)
InOrder-append key [] ys q o = (tt, (λ m i. elim i [ ]), o)
InOrder-append key (x ∷ xs) ys q (first, o) =
    let (ox, before, oy) = InOrder-append key xs ys q o in
    (
      ((λ m i. first m (IsIn-left xs (q ∷ ys) i)), ox),
      (λ m i. elim (IsIn-head i) [
        | inl e ↦ subst (λ k. key k ≤ key q) (sym e) (first q (IsIn-right xs (q ∷ ys) (here ys)))
        | inr j ↦ before m j
      ]),
      oy,
    )

insert-before :
    (key : Ptr → ℕ) (z q : Ptr) (xs ys : List Ptr)
    → ltb (key z) (key q) ≡ true
    → insert_item key z (xs ++ q ∷ ys) ≡ insert_item key z xs ++ q ∷ ys
insert-before key z q [] ys less = rw less refl
insert-before key z q (x ∷ xs) ys less = elim (Bool-cases (ltb (key z) (key x))) [
  | inl e ↦ rw e refl
  | inr e ↦ rw e (ap (λ s. x ∷ s) (insert-before key z q xs ys less))
]

insert-behind :
    (key : Ptr → ℕ) (z q : Ptr) (xs ys : List Ptr)
    → ltb (key z) (key q) ≡ false
    → ((m : Ptr) → IsIn m xs → key m ≤ key q)
    → insert_item key z (xs ++ q ∷ ys) ≡ xs ++ q ∷ insert_item key z ys
insert-behind key z q [] ys more before = rw more refl
insert-behind key z q (x ∷ xs) ys more before =
    let small = before x (here xs) in
    let not_less : ltb (key z) (key x) ≡ false = ground (arith, small, more) in
    rw not_less
      (ap (λ s. x ∷ s) (insert-behind key z q xs ys more (λ m i. before m (there x xs i))))

-- The new leaf is where the new node belongs.
pub inorder-add :
    (key : Ptr → ℕ) (less : Ptr → Bool) (z : Ptr) (tree : Tree)
    → ((q : Ptr) → less q ≡ ltb (key z) (key q))
    → InOrder key (inorder tree)
    → inorder (add less z tree) ≡ insert_item key z (inorder tree)
inorder-add key less z leaf same o = refl
inorder-add key less z (node l q r) same o =
    let (ol, before, (behind, or)) = InOrder-append key (inorder l) (inorder r) q o in
    elim (Bool-cases (less q)) [
      | inl e ↦
          ap inorder (add_below less z q l r e)
          ∙ ap (λ s. s ++ q ∷ inorder r) (inorder-add key less z l same ol)
          ∙ sym (insert-before key z q (inorder l) (inorder r) (sym (same q) ∙ e))
      | inr e ↦
          ap inorder (add_above less z q l r e)
          ∙ ap (λ s. inorder l ++ q ∷ s) (inorder-add key less z r same or)
          ∙ sym (insert-behind key z q (inorder l) (inorder r) (sym (same q) ∙ e) before)
    ]

insert_first :
    (key : Ptr → ℕ) (z x : Ptr) (xs : List Ptr)
    → ltb (key z) (key x) ≡ true
    → insert_item key z (x ∷ xs) ≡ z ∷ x ∷ xs
insert_first key z x xs e = rw e refl

insert_later :
    (key : Ptr → ℕ) (z x : Ptr) (xs : List Ptr)
    → ltb (key z) (key x) ≡ false
    → insert_item key z (x ∷ xs) ≡ x ∷ insert_item key z xs
insert_later key z x xs e = rw e refl

IsIn-insert :
    (key : Ptr → ℕ) (z m : Ptr) (xs : List Ptr)
    → IsIn m (insert_item key z xs)
    → (m ≡ z) ⊎ IsIn m xs
IsIn-insert key z m [] i = elim (IsIn-head i) [ inl e ↦ inl e | inr j ↦ inr j ]
IsIn-insert key z m (x ∷ xs) i = elim (Bool-cases (ltb (key z) (key x))) [
  | inl e ↦ IsIn-head (subst (λ s. IsIn m s) (insert_first key z x xs e) i)
  | inr e ↦ elim (IsIn-head (subst (λ s. IsIn m s) (insert_later key z x xs e) i)) [
    | inl s ↦ inr (subst (λ k. IsIn k (x ∷ xs)) (sym s) (here xs))
    | inr j ↦ elim (IsIn-insert key z m xs j) [ inl s ↦ inl s | inr k ↦ inr (there x xs k) ]
  ]
]

-- A list in order stays in order.
pub insert-InOrder :
    (key : Ptr → ℕ) (z : Ptr) (xs : List Ptr) → InOrder key xs → InOrder key (insert_item key z xs)
insert-InOrder key z [] o = ((λ m i. elim i [ ]), tt)
insert-InOrder key z (x ∷ xs) (first, o) = elim (Bool-cases (ltb (key z) (key x))) [
  | inl e ↦
      let small : key z ≤ key x = ground arith in
      subst (λ s. InOrder key s) (sym (insert_first key z x xs e))
        (
          (λ m i. elim (IsIn-head i) [
            | inl s ↦ subst (λ k. key z ≤ key k) (sym s) small
            | inr j ↦ let later = first m j in omega (arith, small, later)
          ]),
          (first, o),
        )
  | inr e ↦
      let small : key x ≤ key z = ground arith in
      subst (λ s. InOrder key s) (sym (insert_later key z x xs e))
        (
          (λ m i. elim (IsIn-insert key z m xs i) [
            | inl s ↦ subst (λ k. key x ≤ key k) (sym s) small
            | inr j ↦ first m j
          ]),
          insert-InOrder key z xs o,
        )
]

pub insert-IsIn : (key : Ptr → ℕ) (z : Ptr) (xs : List Ptr) → IsIn z (insert_item key z xs)
insert-IsIn key z [] = here []
insert-IsIn key z (x ∷ xs) = elim (Bool-cases (ltb (key z) (key x))) [
  | inl e ↦ subst (λ s. IsIn z s) (sym (insert_first key z x xs e)) (here (x ∷ xs))
  | inr e ↦
      subst (λ s. IsIn z s) (sym (insert_later key z x xs e))
        (there x (insert_item key z xs) (insert-IsIn key z xs))
]

pub length-insert :
    (key : Ptr → ℕ) (z : Ptr) (xs : List Ptr) → length (insert_item key z xs) ≡ suc (length xs)
length-insert key z [] = refl
length-insert key z (x ∷ xs) = elim (Bool-cases (ltb (key z) (key x))) [
  | inl e ↦ ap length (insert_first key z x xs e)
  | inr e ↦ ap length (insert_later key z x xs e) ∙ ap suc (length-insert key z xs)
]
