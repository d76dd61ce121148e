-- ===== src/Radical/Real.antt =====
-- The heads of the change list of src/std_radical.c, without the markers of the walks.
use opx_common_utils.Prelude.{
  ℕ, zero, suc, ◌<◌, ◌≡◌, inl, inr, refl, sym, ap, ◌∙◌, arith, true, false, ◌==◌, Bool-cases, some,
  List, [], ◌∷◌, ◌++◌, length, length-append, subst, if◌then◌else◌,
}
use mathlib.Core.List.{append_assoc}
use opx_common_utils.LinkedList.{is_linked}
use opx_common_utils.LinkedList.Chain.{IsDll, has_middle}
use opx_common_utils.LinkedList.Splice.{first_of}
use opx_common_utils.LinkedList.Query.{getfirst-getlast_lem, getnext-getprev_lem}
use opx_common_utils.Radix.{Ptr, null, Table}
use opx_common_utils.Radical.{
  is_dummy, next_head, skip_dummies, getfirst, getnext, version_loop, nextversion,
}

-- The first head that is not a marker.
unfoldable pub first_real : Table → List Ptr → Ptr
first_real t [] = null
first_real t (x ∷ xs) = if is_dummy t x then first_real t xs else x

-- The change list of the table.
abbrev pub IsList : Table → List Ptr → Type 0
IsList t xs = IsDll t.rtt_clhead t.rdcl_cl xs

pub next_of :
    (t : Table) (pre : List Ptr) (a : Ptr) (post : List Ptr)
    → IsList t (pre ++ a ∷ post)
    → next_head t a ≡ first_of post null
next_of t pre a post is = (getnext-getprev_lem pre a post is).0

-- What is left of the list is a list at a place behind.
pub shift :
    (t : Table) (pre : List Ptr) (a : Ptr) (post : List Ptr)
    → IsList t (pre ++ a ∷ post)
    → IsList t ((pre ++ a ∷ []) ++ post)
shift t pre a post is = subst (IsList t) (sym (append_assoc pre (a ∷ []) post)) is

pub real_item :
    (t : Table) (pre : List Ptr) (a : Ptr) (post : List Ptr)
    → IsList t (pre ++ a ∷ post)
    → (a == null) ≡ false
real_item t pre a post is = ground (arith, has_middle null a pre post, is.no_null)

pub skip_dummies-first_real :
    (fuel : ℕ) (t : Table) (pre xs : List Ptr)
    → IsList t (pre ++ xs)
    → length xs < fuel
    → skip_dummies fuel t (first_of xs null) ≡ some (first_real t xs)
unfolding skip_dummies first_real
skip_dummies-first_real zero t pre xs is h = absurd (omega (arith, h))
skip_dummies-first_real (suc fuel) t pre [] is h = refl
skip_dummies-first_real (suc fuel) t pre (x ∷ xs) is h =
    let rest =
      skip_dummies-first_real fuel t (pre ++ x ∷ []) xs (shift t pre x xs is) (omega (arith, h)) in
    let further : skip_dummies fuel t (next_head t x) ≡ some (first_real t xs) =
      ap (skip_dummies fuel t) (next_of t pre x xs is) ∙ rest in
    elim (Bool-cases (is_dummy t x)) [
      | inl y ↦ rw (real_item t pre x xs is, y) further
      | inr n ↦ rw (real_item t pre x xs is, n) refl
    ]

getnext-first_real :
    (fuel : ℕ) (t : Table) (pre : List Ptr) (a : Ptr) (post : List Ptr)
    → IsList t (pre ++ a ∷ post)
    → length (pre ++ a ∷ post) < fuel
    → getnext fuel t a ≡ some (first_real t post)
unfolding getnext
getnext-first_real fuel t pre a post is h =
    let sizes = length-append pre (a ∷ post) in
    ap (skip_dummies fuel t) (next_of t pre a post is)
    ∙ skip_dummies-first_real fuel t (pre ++ a ∷ []) post (shift t pre a post is)
        (omega (arith, h, sizes))

-- `std_radical_getfirst` returns the first head of the change list that is not a marker, and
-- `std_radical_getnext` the first one behind any head or marker of the list, NULL where there is none, as
-- in an empty list; both with more fuel than the list has heads.
pub getfirst-getnext_lem :
    (fuel : ℕ) (t : Table) (xs : List Ptr)
    → IsList t xs
    → length xs < fuel
    → (getfirst fuel t ≡ some (first_real t xs))
      × ((pre : List Ptr) (a : Ptr) (post : List Ptr)
          → xs ≡ pre ++ a ∷ post
          → getnext fuel t a ≡ some (first_real t post))
unfolding getfirst
getfirst-getnext_lem fuel t xs is h = (
  ap (skip_dummies fuel t) (getfirst-getlast_lem xs is).0
      ∙ skip_dummies-first_real fuel t [] xs is h,
  λ pre a post e.
      getnext-first_real fuel t pre a post (subst (IsList t) e is)
        (subst (λ l. length l < fuel) e h),
)

-- The version of a head, and 0 of none.
abbrev pub version_of : Table → Ptr → ℕ
version_of t h = if h == null then 0 else t.rth_version h

version_loop-first_real :
    (fuel : ℕ) (t : Table) (pre : List Ptr) (x : Ptr) (xs : List Ptr)
    → IsList t (pre ++ x ∷ xs)
    → length xs < fuel
    → version_loop fuel t x ≡ some (version_of t (first_real t (x ∷ xs)))
unfolding version_loop first_real
version_loop-first_real zero t pre x xs is h = absurd (omega (arith, h))
version_loop-first_real (suc fuel) t pre x [] is h = elim (Bool-cases (is_dummy t x)) [
  | inr n ↦ rw (n, real_item t pre x [] is) refl
  | inl y ↦
      let last : (next_head t x == null) ≡ true =
        (let e = next_of t pre x [] is in ground (arith, e)) in
      rw (y, last) refl
]
version_loop-first_real (suc fuel) t pre x (z ∷ zs) is h =
    let next = next_of t pre x (z ∷ zs) is in
    let is' = shift t pre x (z ∷ zs) is in
    let more : (next_head t x == null) ≡ false =
      ap (λ w. w == null) next ∙ real_item t (pre ++ x ∷ []) z zs is' in
    let rest = version_loop-first_real fuel t (pre ++ x ∷ []) z zs is' (omega (arith, h)) in
    elim (Bool-cases (is_dummy t x)) [
      | inr n ↦ rw (n, real_item t pre x (z ∷ zs) is) refl
      | inl y ↦ rw (y, more) (ap (version_loop fuel t) next ∙ rest)
    ]

-- `std_radical_nextversion` of a marker in the change list is the version of the head that
-- `std_radical_getnext` returns, and 0 where that is NULL, with more fuel than the list has heads.
pub nextversion-getnext :
    (fuel : ℕ) (t : Table) (pre : List Ptr) (a : Ptr) (post : List Ptr)
    → IsList t (pre ++ a ∷ post)
    → length (pre ++ a ∷ post) < fuel
    → is_dummy t a ≡ true
    → is_linked a t.rdcl_cl ≡ true
    → (h : Ptr) × (getnext fuel t a ≡ some h) × (nextversion fuel t a ≡ some (version_of t h))
unfolding nextversion first_real
nextversion-getnext fuel t pre a post is h y l =
    let sizes = length-append pre (a ∷ post) in
    let run = version_loop-first_real fuel t pre a post is (omega (arith, h, sizes)) in
    let end : version_of t (first_real t (a ∷ post)) ≡ version_of t (first_real t post) =
      rw y refl in
    (first_real t post, getnext-first_real fuel t pre a post is h, rw (y, l) (run ∙ ap some end))
