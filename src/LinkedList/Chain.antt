-- ===== src/LinkedList/Chain.antt =====
-- What a store holds: the nodes of a list in order, and how linking one in or out changes it.
use opx_common_utils.Prelude.{
  ◌≡◌, ◌≢◌, refl, sym, ap, ◌∙◌, Bool, true, false, ◌||◌, List, [], ◌∷◌, ◌++◌, arith, ◌==◌,
}
use opx_common_utils.LinkedList.{Ptr, null, Store, Head}

abbrev pub has : Ptr → List Ptr → Bool
has a [] = false
has a (x ∷ xs) = (a == x) || has a xs

abbrev pub Distinct : List Ptr → Type 0
Distinct [] = Unit
Distinct (x ∷ xs) = (has x xs ≡ false) × Distinct xs

-- From `p` on the nodes of the list follow one another in both directions.
abbrev pub Follows : Store → Ptr → List Ptr → Type 0
Follows st p [] = Unit
Follows st p (x ∷ xs) = (st.next p ≡ x) × (st.back x ≡ p) × Follows st x xs

-- The items of a list lie between the end nodes, and no address is met twice; none is null.
pub record IsDll (hd : Head) (st : Store) (xs : List Ptr) : Type 0 where
  pub chain : Follows st hd.head (xs ++ hd.tail ∷ [])
  pub distinct : Distinct (hd.head ∷ xs ++ hd.tail ∷ [])
  pub no_null : has null xs ≡ false

abbrev pub last_of : Ptr → List Ptr → Ptr
last_of p [] = p
last_of p (x ∷ xs) = last_of x xs

pub has-append : (a : Ptr) (xs ys : List Ptr) → has a (xs ++ ys) ≡ (has a xs || has a ys)
has-append a [] ys = refl
has-append a (x ∷ xs) ys = ground (arith, has-append a xs ys)

pub has-last_of : (p : Ptr) (xs : List Ptr) → has (last_of p xs) (p ∷ xs) ≡ true
has-last_of p [] = ground arith
has-last_of p (x ∷ xs) = ground (arith, has-last_of x xs)

-- Two members are different if one of them is.
pub ne_of_has : (a b : Ptr) (xs : List Ptr) → has a xs ≡ false → has b xs ≡ true → a ≢ b
ne_of_has a b xs h k e = ground (arith, ap (λ t. has t xs) e)

pub Follows-frame :
    {st st' : Store} (p : Ptr) (xs : List Ptr)
    → ((r : Ptr) → has r (p ∷ xs) ≡ true → st'.next r ≡ st.next r)
    → ((r : Ptr) → has r xs ≡ true → st'.back r ≡ st.back r)
    → Follows st p xs
    → Follows st' p xs
Follows-frame p [] n b f = tt
Follows-frame p (x ∷ xs) n b (e, e', f) = (
  n p (ground arith) ∙ e,
  b x (ground arith) ∙ e',
  Follows-frame x xs (λ r h. n r (ground arith)) (λ r h. b r (ground arith)) f,
)

-- The last node before `b` is the one that `b` points back to.
pub back_of_Follows :
    (st : Store) (p : Ptr) (pre : List Ptr) (b : Ptr) (post : List Ptr)
    → Follows st p (pre ++ b ∷ post)
    → st.back b ≡ last_of p pre
back_of_Follows st p [] b post (e, e', f) = e'
back_of_Follows st p (x ∷ pre) b post (e, e', f) = back_of_Follows st x pre b post f

pub next_of_Follows :
    (st : Store) (p : Ptr) (pre : List Ptr) (b : Ptr) (post : List Ptr)
    → Follows st p (pre ++ b ∷ post)
    → st.next (last_of p pre) ≡ b
next_of_Follows st p [] b post (e, e', f) = e
next_of_Follows st p (x ∷ pre) b post (e, e', f) = next_of_Follows st x pre b post f

-- `st'` is `st` with `new` linked in between `a` and `b`.
pub record Spliced (st st' : Store) (a new b : Ptr) : Type 0 where
  pub next_a : st'.next a ≡ new
  pub next_new : st'.next new ≡ b
  pub back_new : st'.back new ≡ a
  pub back_b : st'.back b ≡ new
  pub next_same : (r : Ptr) → r ≢ a → r ≢ new → st'.next r ≡ st.next r
  pub back_same : (r : Ptr) → r ≢ b → r ≢ new → st'.back r ≡ st.back r

pub Follows-Spliced :
    {st st' : Store} (p : Ptr) (pre : List Ptr) (new b : Ptr) (post : List Ptr)
    → Spliced st st' (last_of p pre) new b
    → Distinct (p ∷ pre ++ b ∷ post)
    → has new (p ∷ pre ++ b ∷ post) ≡ false
    → Follows st p (pre ++ b ∷ post)
    → Follows st' p (pre ++ new ∷ b ∷ post)
Follows-Spliced p [] new b post s d fresh (e, e', f) = (
  s.next_a,
  s.back_new,
  (
    s.next_new,
    s.back_b,
    Follows-frame b post
        (λ r h.
          s.next_same r (λ t. ne_of_has p r (b ∷ post) d.0 h (sym t))
            (λ t. ne_of_has new r (b ∷ post) (ground arith) h (sym t)))
        (λ r h.
          s.back_same r (λ t. ne_of_has b r post d.1.0 h (sym t))
            (λ t. ne_of_has new r post (ground arith) h (sym t)))
        f,
  ),
)
Follows-Spliced p (x ∷ pre) new b post s d fresh (e, e', f) =
    let a : Ptr = last_of x pre in
    let inside : has a (x ∷ pre ++ b ∷ post) ≡ true =
      has-append a (x ∷ pre) (b ∷ post) ∙ ground (arith, has-last_of x pre) in
    let b_inside : has b (pre ++ b ∷ post) ≡ true = has-append b pre (b ∷ post) ∙ ground arith in
    (
      s.next_same p (ne_of_has p a (x ∷ pre ++ b ∷ post) d.0 inside) (λ t. ground arith) ∙ e,
      s.back_same x (ne_of_has x b (pre ++ b ∷ post) d.1.0 b_inside) (λ t. ground arith) ∙ e',
      Follows-Spliced x pre new b post s d.1 (ground arith) f,
    )

-- `st'` is `st` with the node between `a` and `b` linked out.
pub record Unlinked (st st' : Store) (a item b : Ptr) : Type 0 where
  pub next_a : st'.next a ≡ b
  pub back_b : st'.back b ≡ a
  pub next_same : (r : Ptr) → r ≢ a → r ≢ item → st'.next r ≡ st.next r
  pub back_same : (r : Ptr) → r ≢ b → r ≢ item → st'.back r ≡ st.back r

pub Follows-Unlinked :
    {st st' : Store} (p : Ptr) (pre : List Ptr) (item b : Ptr) (post : List Ptr)
    → Unlinked st st' (last_of p pre) item b
    → Distinct (p ∷ pre ++ item ∷ b ∷ post)
    → Follows st p (pre ++ item ∷ b ∷ post)
    → Follows st' p (pre ++ b ∷ post)
Follows-Unlinked p [] item b post s d (e, e', (g, g', f)) = (
  s.next_a,
  s.back_b,
  Follows-frame b post
      (λ r h.
        s.next_same r (λ t. ne_of_has p r (b ∷ post) (ground arith) h (sym t))
          (λ t. ne_of_has item r (b ∷ post) d.1.0 h (sym t)))
      (λ r h.
        s.back_same r (λ t. ne_of_has b r post d.1.1.0 h (sym t))
          (λ t. ne_of_has item r post (ground arith) h (sym t)))
      f,
)
Follows-Unlinked p (x ∷ pre) item b post s d (e, e', f) =
    let rest : List Ptr = item ∷ b ∷ post in
    let a : Ptr = last_of x pre in
    let inside : has a (x ∷ pre ++ rest) ≡ true =
      has-append a (x ∷ pre) rest ∙ ground (arith, has-last_of x pre) in
    let b_inside : has b (pre ++ rest) ≡ true = has-append b pre rest ∙ ground arith in
    let i_inside : has item (pre ++ rest) ≡ true = has-append item pre rest ∙ ground arith in
    (
      s.next_same p (ne_of_has p a (x ∷ pre ++ rest) d.0 inside)
            (ne_of_has p item (x ∷ pre ++ rest) d.0 (ground arith))
          ∙ e,
      s.back_same x (ne_of_has x b (pre ++ rest) d.1.0 b_inside)
            (ne_of_has x item (pre ++ rest) d.1.0 i_inside)
          ∙ e',
      Follows-Unlinked x pre item b post s d.1 f,
    )

-- Members of a list with one more in the middle, and of one with one less.
pub has_middle :
    (r a : Ptr) (pre post : List Ptr) → has r (pre ++ a ∷ post) ≡ ((r == a) || has r (pre ++ post))
has_middle r a [] post = refl
has_middle r a (x ∷ pre) post = ground (arith, has_middle r a pre post)

pub Distinct-insert :
    (a : Ptr) (pre post : List Ptr)
    → has a (pre ++ post) ≡ false
    → Distinct (pre ++ post)
    → Distinct (pre ++ a ∷ post)
Distinct-insert a [] post fresh d = (fresh, d)
Distinct-insert a (x ∷ pre) post fresh d =
    (has_middle x a pre post ∙ ground arith, Distinct-insert a pre post (ground arith) d.1)

pub Distinct-remove :
    (a : Ptr) (pre post : List Ptr)
    → Distinct (pre ++ a ∷ post)
    → Distinct (pre ++ post) × (has a (pre ++ post) ≡ false)
Distinct-remove a [] post d = (d.1, d.0)
Distinct-remove a (x ∷ pre) post d =
    let rest = Distinct-remove a pre post d.1 in
    ((ground (arith, has_middle x a pre post), rest.0), ground (arith, has_middle x a pre post))
