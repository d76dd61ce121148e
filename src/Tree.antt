-- ===== src/Tree.antt =====
-- The shape of a binary tree of nodes that a store links, and its nodes in order: shared by the
-- red-black tree and the radix tree.
use opx_common_utils.Prelude.{
  ℕ, suc, ◌+◌, ◌≡◌, ◌≢◌, ◌⊎◌, inl, inr, refl, sym, subst, List, [], ◌∷◌, ◌++◌,
}

pub data Tree : Type 0 where
  leaf : Tree
  node : Tree → ℕ → Tree → Tree

abbrev pub inorder : Tree → List ℕ
inorder leaf = []
inorder (node l q r) = inorder l ++ q ∷ inorder r

abbrev pub size : Tree → ℕ
size leaf = 0
size (node l q r) = suc (size l + size r)

pub data IsIn (p : ℕ) : List ℕ → Type 0 where
  here : (xs : List ℕ) → IsIn p (p ∷ xs)
  there : (x : ℕ) (xs : List ℕ) → IsIn p xs → IsIn p (x ∷ xs)

pub IsIn-left : {p : ℕ} (xs ys : List ℕ) → IsIn p xs → IsIn p (xs ++ ys)
IsIn-left _ ys (here xs) = here (xs ++ ys)
IsIn-left _ ys (there x xs i) = there x (xs ++ ys) (IsIn-left xs ys i)

pub IsIn-right : {p : ℕ} (xs ys : List ℕ) → IsIn p ys → IsIn p (xs ++ ys)
IsIn-right [] ys i = i
IsIn-right (x ∷ xs) ys i = there x (xs ++ ys) (IsIn-right xs ys i)

pub IsIn-cases : (p : ℕ) (xs ys : List ℕ) → IsIn p (xs ++ ys) → IsIn p xs ⊎ IsIn p ys
IsIn-cases p [] ys i = inr i
IsIn-cases p (x ∷ xs) ys (here _) = inl (here xs)
IsIn-cases p (x ∷ xs) ys (there _ _ i) = elim (IsIn-cases p xs ys i) [
  | inl a ↦ inl (there x xs a)
  | inr b ↦ inr b
]

pub IsIn-head : {p x : ℕ} {xs : List ℕ} → IsIn p (x ∷ xs) → (p ≡ x) ⊎ IsIn p xs
IsIn-head (here _) = inl refl
IsIn-head (there _ _ i) = inr i

-- Where a node of a tree is.
pub data Side (x : ℕ) (l : Tree) (q : ℕ) (r : Tree) : Type 0 where
  at_left : IsIn x (inorder l) → Side x l q r
  at_node : x ≡ q → Side x l q r
  at_right : IsIn x (inorder r) → Side x l q r

pub IsIn-Side : (x : ℕ) (l : Tree) (q : ℕ) (r : Tree) → IsIn x (inorder (node l q r)) → Side x l q r
IsIn-Side x l q r i = elim (IsIn-cases x (inorder l) (q ∷ inorder r) i) [
  | inl a ↦ at_left a
  | inr b ↦ elim (IsIn-head b) [ inl e ↦ at_node e | inr c ↦ at_right c ]
]

pub Side-IsIn : (x : ℕ) (l : Tree) (q : ℕ) (r : Tree) → Side x l q r → IsIn x (inorder (node l q r))
Side-IsIn x l q r (at_left a) = IsIn-left (inorder l) (q ∷ inorder r) a
Side-IsIn x l q r (at_node e) =
    subst (λ z. IsIn z (inorder (node l q r))) (sym e)
      (IsIn-right (inorder l) (q ∷ inorder r) (here (inorder r)))
Side-IsIn x l q r (at_right c) = IsIn-right (inorder l) (q ∷ inorder r) (there q (inorder r) c)

-- No node twice.
abbrev pub NoDup : List ℕ → Type 0
NoDup [] = Unit
NoDup (x ∷ xs) = (IsIn x xs → ⊥) × NoDup xs

pub NoDup-append :
    (xs ys : List ℕ)
    → NoDup (xs ++ ys)
    → NoDup xs × NoDup ys × ((m : ℕ) → IsIn m xs → IsIn m ys → ⊥)
NoDup-append [] ys d = (tt, d, λ m i j. elim i [ ])
NoDup-append (x ∷ xs) ys (first, d) =
    let (dx, dy, apart) = NoDup-append xs ys d in
    (
      (λ i. first (IsIn-left xs ys i), dx),
      dy,
      λ m i j. elim (IsIn-head i) [
        | inl e ↦ first (IsIn-right xs ys (subst (λ z. IsIn z ys) e j))
        | inr k ↦ apart m k j
      ],
    )

-- What a tree without a node twice is at its root.
pub record Parts (l : Tree) (q : ℕ) (r : Tree) : Type 0 where
  pub in_left : NoDup (inorder l)
  pub in_right : NoDup (inorder r)
  pub not_left : (m : ℕ) → IsIn m (inorder l) → m ≢ q
  pub not_right : (m : ℕ) → IsIn m (inorder r) → m ≢ q
  pub apart : (m : ℕ) → IsIn m (inorder l) → IsIn m (inorder r) → ⊥

pub NoDup-Parts : (l : Tree) (q : ℕ) (r : Tree) → NoDup (inorder (node l q r)) → Parts l q r
NoDup-Parts l q r d =
    let (dl, (first, dr), apart) = NoDup-append (inorder l) (q ∷ inorder r) d in
    record {
      in_left = dl;
      in_right = dr;
      not_left =
          λ m i e. apart m i (subst (λ z. IsIn z (q ∷ inorder r)) (sym e) (here (inorder r)));
      not_right = λ m i e. first (subst (λ z. IsIn z (inorder r)) e i);
      apart = λ m i j. apart m i (there q (inorder r) j);
    }

pub append-NoDup :
    (xs ys : List ℕ)
    → NoDup xs
    → NoDup ys
    → ((m : ℕ) → IsIn m xs → IsIn m ys → ⊥)
    → NoDup (xs ++ ys)
append-NoDup [] ys dx dy apart = dy
append-NoDup (x ∷ xs) ys (first, dx) dy apart = (
  λ i. elim (IsIn-cases x xs ys i) [ inl a ↦ first a | inr b ↦ apart x (here xs) b ],
  append-NoDup xs ys dx dy (λ m i j. apart m (there x xs i) j),
)

pub Parts-NoDup : (l : Tree) (q : ℕ) (r : Tree) → Parts l q r → NoDup (inorder (node l q r))
Parts-NoDup l q r parts =
    append-NoDup (inorder l) (q ∷ inorder r) parts.in_left
      ((λ i. parts.not_right q i refl), parts.in_right)
      (λ m i j. elim (IsIn-head j) [ inl e ↦ parts.not_left m i e | inr k ↦ parts.apart m i k ])
