-- ===== src/MergeSort/Slice.antt =====
-- Slices of an array as lists, and what a merge of two lists is.
use mathlib.Core.List.{Perm, perm_middle, append-nil}
use mathlib.Core.List.Perm
use mathlib.Core.Bool.{true≢false}
use opx_common_utils.Prelude.{
  ℕ, zero, suc, ◌+◌, ◌≤◌, ◌<◌, ◌≡◌, ◌⊎◌, inl, inr, refl, ap, ap₂, sym, subst, ◌∙◌, Bool, true,
  false, ◌&&◌, List, [], ◌∷◌, ◌++◌, arith, if◌then◌else◌, Bool-cases,
}

module _ {ℓ} {A : Type ℓ} where
  -- The `n` elements from `lo` on.
  abbrev pub slice : (ℕ → A) → ℕ → ℕ → List A
  slice a lo zero = []
  slice a lo (suc n) = a lo ∷ slice a (lo + 1) n

  pub slice-congr :
      (a b : ℕ → A) (lo n : ℕ)
      → ((k : ℕ) → lo ≤ k → k < lo + n → a k ≡ b k)
      → slice a lo n ≡ slice b lo n
  slice-congr a b lo zero h = refl
  slice-congr a b lo (suc n) h =
      ap₂ (◌∷◌) (h lo (omega arith) (omega arith))
        (slice-congr a b (lo + 1) n (λ k l r. h k (omega arith) (omega arith)))

  pub slice-append :
      (a : ℕ → A) (lo m n : ℕ) → slice a lo (m + n) ≡ slice a lo m ++ slice a (lo + m) n
  slice-append a lo zero n = ap₂ (slice a) (omega arith) (omega arith)
  slice-append a lo (suc m) n =
      let tail : slice a (lo + 1) (m + n) ≡ slice a (lo + 1) m ++ slice a (lo + suc m) n =
        slice-append a (lo + 1) m n ∙ ap (λ q. slice a (lo + 1) m ++ slice a q n) (omega arith) in
      let count : suc m + n ≡ suc (m + n) = omega arith in
      ap (slice a lo) count ∙ ap (λ t. a lo ∷ t) tail

  abbrev pub filter : (A → Bool) → List A → List A
  filter p [] = []
  filter p (x ∷ xs) = if p x then x ∷ filter p xs else filter p xs

  pub filter-append :
      (p : A → Bool) (xs ys : List A) → filter p (xs ++ ys) ≡ filter p xs ++ filter p ys
  filter-append p [] ys = refl
  filter-append p (x ∷ xs) ys = elim (Bool-cases (p x)) [
    | inl t ↦ rw t (ap (λ zs. x ∷ zs) (filter-append p xs ys))
    | inr f ↦ rw f (filter-append p xs ys)
  ]

module _ {ℓ} {A : Type ℓ} (le : A → A → Bool) where
  -- `x` is at most each element.
  abbrev pub Above : A → List A → Type 0
  Above x [] = Unit
  Above x (y ∷ ys) = (le x y ≡ true) × Above x ys

  abbrev pub IsSorted : List A → Type 0
  IsSorted [] = Unit
  IsSorted (x ∷ xs) = Above x xs × IsSorted xs

  -- The elements that the order does not tell from `k`.
  abbrev pub same_as : A → A → Bool
  same_as k x = le k x && le x k

  -- `zs` is what taking the smaller head, the first of two equal ones, makes of `xs` and `ys`.
  pub data Merged : List A → List A → List A → Type ℓ where
    left_rest : (xs : List A) → Merged xs [] xs
    mid_rest : (ys : List A) → Merged [] ys ys
    take_left :
        {x y : A} {xs ys zs : List A}
        → le x y ≡ true
        → Merged xs (y ∷ ys) zs
        → Merged (x ∷ xs) (y ∷ ys) (x ∷ zs)
    take_mid :
        {x y : A} {xs ys zs : List A}
        → le x y ≡ false
        → Merged (x ∷ xs) ys zs
        → Merged (x ∷ xs) (y ∷ ys) (y ∷ zs)

-- What `cmp_func` has to be: a total preorder.
pub record IsOrder {ℓ} {A : Type ℓ} (le : A → A → Bool) : Type ℓ where
  pub total : (x y : A) → (le x y ≡ true) ⊎ (le y x ≡ true)
  pub transitive : (x y z : A) → le x y ≡ true → le y z ≡ true → le x z ≡ true

module _ {ℓ} {A : Type ℓ} {le : A → A → Bool} (order : IsOrder le) where
  Above-trans : (x y : A) (ys : List A) → le x y ≡ true → Above le y ys → Above le x ys
  Above-trans x y [] h a = tt
  Above-trans x y (z ∷ zs) h (t, a) = (order.transitive x y z h t, Above-trans x y zs h a)

  -- Of two elements one is at most the other.
  flip : (x y : A) → le x y ≡ false → le y x ≡ true
  flip x y h = elim (order.total x y) [ inl t ↦ absurd (true≢false (sym t ∙ h)) | inr t ↦ t ]

  Above-Merged :
      (a : A) {xs ys zs : List A}
      → Merged le xs ys zs
      → Above le a xs
      → Above le a ys
      → Above le a zs
  Above-Merged a (left_rest xs) p q = p
  Above-Merged a (mid_rest ys) p q = q
  Above-Merged a (take_left h m) (t, p) q = (t, Above-Merged a m p q)
  Above-Merged a (take_mid h m) p (t, q) = (t, Above-Merged a m p q)

  pub IsSorted-Merged :
      {xs ys zs : List A} → Merged le xs ys zs → IsSorted le xs → IsSorted le ys → IsSorted le zs
  IsSorted-Merged (left_rest xs) p q = p
  IsSorted-Merged (mid_rest ys) p q = q
  IsSorted-Merged (take_left {x} {y} {xs} {ys} h m) (a, p) (b, q) =
      (Above-Merged x m a (h, Above-trans x y ys h b), IsSorted-Merged m p (b, q))
  IsSorted-Merged (take_mid {x} {y} {xs} {ys} h m) (a, p) (b, q) = (
    Above-Merged y m (flip x y h, Above-trans y x xs (flip x y h) a) b,
    IsSorted-Merged m (a, p) q,
  )

  -- No element is like `k` above one that is more than an element like `k`.
  none_like :
      (k x : A) (xs : List A) → Above le x xs → le x k ≡ false → filter (same_as le k) xs ≡ []
  none_like k x [] a h = refl
  none_like k x (w ∷ ws) (t, a) h =
      let more : le w k ≡ false = elim (Bool-cases (le w k)) [
        | inl w_k ↦ absurd (true≢false (sym (order.transitive x w k t w_k) ∙ h))
        | inr f ↦ f
      ] in
      let out : same_as le k w ≡ false = rw more (and_false (le k w)) in
      rw out (none_like k x ws a h)
    where
      and_false : (b : Bool) → (b && false) ≡ false
      and_false true = refl
      and_false false = refl

module _ {ℓ} {A : Type ℓ} {le : A → A → Bool} (order : IsOrder le) where
  and_parts : (a b : Bool) → (a && b) ≡ true → (a ≡ true) × (b ≡ true)
  and_parts true true h = (refl, refl)
  and_parts true false h = absurd (true≢false (sym h))
  and_parts false b h = absurd (true≢false (sym h))

  -- What is like `k` on the left stands in front of an element like `k` on the right.
  none_left :
      (k x y : A) (xs : List A)
      → Above le x xs
      → le x y ≡ false
      → same_as le k y ≡ true
      → filter (same_as le k) (x ∷ xs) ≡ []
  none_left k x y xs a h like =
      let (k_y, y_k) = and_parts (le k y) (le y k) like in
      let more : le x k ≡ false = elim (Bool-cases (le x k)) [
        | inl x_k ↦ absurd (true≢false (sym (order.transitive x k y x_k k_y) ∙ h))
        | inr f ↦ f
      ] in
      let out : same_as le k x ≡ false = elim (Bool-cases (same_as le k x)) [
        | inl t ↦ absurd (true≢false (sym ((and_parts (le k x) (le x k) t).1) ∙ more))
        | inr f ↦ f
      ] in
      rw out (none_like order k x xs a more)

  pub filter-Merged :
      (k : A) {xs ys zs : List A}
      → Merged le xs ys zs
      → IsSorted le xs
      → IsSorted le ys
      → filter (same_as le k) zs ≡ filter (same_as le k) xs ++ filter (same_as le k) ys
  filter-Merged k (left_rest xs) p q = sym (append-nil (filter (same_as le k) xs))
  filter-Merged k (mid_rest ys) p q = refl
  filter-Merged k (take_left {x} {y} {xs} {ys} h m) (a, p) q =
      let rest = filter-Merged k m p q in
      elim (Bool-cases (same_as le k x)) [ inl t ↦ rw t (ap (λ l. x ∷ l) rest) | inr f ↦ rw f rest ]
  filter-Merged k (take_mid {x} {y} {xs} {ys} {zs} h m) p (b, q) =
      let rest = filter-Merged k m p q in
      elim (Bool-cases (same_as le k y)) [
        | inl t ↦
            let none = none_left k x y xs (p.0) h t in
            let only : filter (same_as le k) zs ≡ filter (same_as le k) ys =
              rest ∙ ap (λ l. l ++ filter (same_as le k) ys) none in
            let left : filter (same_as le k) (y ∷ zs) ≡ y ∷ filter (same_as le k) zs = rw t refl in
            let right : filter (same_as le k) (y ∷ ys) ≡ y ∷ filter (same_as le k) ys = rw t refl in
            left ∙ ap (λ l. y ∷ l) only ∙ sym (ap₂ (◌++◌) none right)
        | inr f ↦ rw f rest
      ]

pub Perm-Merged {ℓ} :
    {A : Type ℓ} {le : A → A → Bool} {xs ys zs : List A} → Merged le xs ys zs → Perm (xs ++ ys) zs
Perm-Merged (left_rest xs) = subst (λ l. Perm l xs) (sym (append-nil xs)) (Perm.refl xs)
Perm-Merged (mid_rest ys) = Perm.refl ys
Perm-Merged (take_left {x} h m) = Perm.cons x (Perm-Merged m)
Perm-Merged (take_mid {x} {y} {xs} {ys} h m) =
    Perm.trans (perm_middle (x ∷ xs) ys) (Perm.cons y (Perm-Merged m))
