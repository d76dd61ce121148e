-- ===== src/Radix/Upward.antt =====
-- The way from a node of the radix tree of std_radix.c up to the root: the entry above an entry, and the
-- version on the way.
use opx_common_utils.Prelude.{
  ℕ, zero, suc, ◌+◌, ◌%◌, ◌^◌, ◌<◌, ◌≡◌, ◌≢◌, ◌⊎◌, inl, inr, refl, sym, subst, ap, ◌∙◌, arith, true,
  false, ◌==◌, if◌then◌else◌, Bool-cases, List, [], ◌∷◌, some, length,
}
use opx_common_utils.Radix.{Ptr, null, Table}
use opx_common_utils.Radix.Version.{
  parent_head, getparent, getlessspecific, mark_version, setversion,
}
use opx_common_utils.Tree.{IsIn, here, there, IsIn-head}

-- The nodes from `p` on upwards, as far as NULL.
pub data Upward (t : Table) : Ptr → List Ptr → Type 0 where
  top : Upward t null []
  up : (p : Ptr) (ps : List Ptr) → p ≢ null → Upward t (t.rtn_parent p) ps → Upward t p (p ∷ ps)

-- The head of the first of the nodes that has one, or NULL.
abbrev pub first_head : Table → List Ptr → Ptr
first_head t [] = null
first_head t (p ∷ ps) = if t.rtn_rth p == null then first_head t ps else t.rtn_rth p

parent_head-Upward :
    (fuel : ℕ) (t : Table) (p : Ptr) (ps : List Ptr)
    → Upward t p ps
    → length ps < fuel
    → parent_head fuel t p ≡ some (first_head t ps)
unfolding parent_head
parent_head-Upward zero t p ps w h = absurd (omega (arith, h))
parent_head-Upward (suc fuel) t _ _ top h = refl
parent_head-Upward (suc fuel) t _ _ (up p ps n w) h =
    let there_is : (p == null) ≡ false = ground arith in
    let rest = parent_head-Upward fuel t (t.rtn_parent p) ps w (omega (arith, h)) in
    elim (Bool-cases (t.rtn_rth p == null)) [
      | inl bare ↦ rw (there_is, bare) rest
      | inr head ↦ rw (there_is, head) refl
    ]

-- For an entry with a node, and fuel for more rounds than there are nodes above it, both
-- `std_radix_getparent` and `std_radix_getlessspecific` return the entry of the first node above that has
-- one, or NULL.
pub getparent-getlessspecific_lem :
    (fuel : ℕ) (t : Table) (rth : Ptr) (ps : List Ptr)
    → rth ≢ null
    → t.rth_rtn rth ≢ null
    → Upward t (t.rtn_parent (t.rth_rtn rth)) ps
    → length ps < fuel
    → (getparent fuel t rth ≡ some (first_head t ps))
      × (getlessspecific fuel t rth ≡ some (first_head t ps))
unfolding getparent getlessspecific
getparent-getlessspecific_lem fuel t rth ps n nn w h =
    let head : (rth == null) ≡ false = ground arith in
    let node : (t.rth_rtn rth == null) ≡ false = ground arith in
    let run = parent_head-Upward fuel t (t.rtn_parent (t.rth_rtn rth)) ps w h in
    (rw (head, node) run, rw (head, node) run)

-- The nodes with the version, and those with the one that they had.
pub record Marked (ver : ℕ) (t t' : Table) (ps : List Ptr) : Type 0 where
  pub on_way : (m : Ptr) → IsIn m ps → t'.rtn_version m ≡ ver
  pub off_way : (m : Ptr) → (IsIn m ps → ⊥) → t'.rtn_version m ≡ t.rtn_version m
  pub heads : t'.rth_version ≡ t.rth_version
  pub version : t'.rtt_version ≡ t.rtt_version
  pub wraps : t'.rtt_nwraps ≡ t.rtt_nwraps

Upward-same :
    (t t' : Table) (p : Ptr) (ps : List Ptr)
    → t'.rtn_parent ≡ t.rtn_parent
    → Upward t p ps
    → Upward t' p ps
Upward-same t t' _ _ e top = top
Upward-same t t' _ _ e (up p ps n w) =
    up p ps n (
      subst (λ z. Upward t' z ps) (ap (λ f. f p) (sym e))
        (Upward-same t t' (t.rtn_parent p) ps e w))

differs : (m p : Ptr) → m ≢ p → (m == p) ≡ false
differs m p n = ground arith

IsIn-or_not : (m : Ptr) (ps : List Ptr) → IsIn m ps ⊎ (IsIn m ps → ⊥)
IsIn-or_not m [] = inr (λ i. elim i [ ])
IsIn-or_not m (p ∷ ps) = elim (IsIn-or_not m ps) [
  | inl i ↦ inl (there p ps i)
  | inr out ↦ elim (Bool-cases (m == p)) [
    | inl e ↦ inl (subst (λ k. IsIn k (p ∷ ps)) (same m p e) (here ps))
    | inr e ↦ inr (λ i. elim (IsIn-head i) [ inl s ↦ ground arith | inr j ↦ out j ])
  ]
]
  where
    same : (m p : Ptr) → (m == p) ≡ true → p ≡ m
    same m p e = ground arith

mark_version-Marked :
    (fuel ver : ℕ) (p : Ptr) (ps : List Ptr) (t : Table)
    → Upward t p ps
    → length ps < fuel
    → (t' : Table) × (mark_version fuel ver p t ≡ some t') × Marked ver t t' ps
unfolding mark_version
mark_version-Marked zero ver p ps t w h = absurd (omega (arith, h))
mark_version-Marked (suc fuel) ver _ _ t top h = (
  t,
  refl,
  record {
    on_way = λ m i. elim i [ ];
    off_way = λ m i. refl;
    heads = refl;
    version = refl;
    wraps = refl;
  },
)
mark_version-Marked (suc fuel) ver _ _ t (up p ps n w) h =
    let there_is : (p == null) ≡ false = ground arith in
    let self : (p == p) ≡ true = ground arith in
    let u = record t { rtn_version = λ q. if q == p then ver else t.rtn_version q } in
    let (t', run, marked) =
      mark_version-Marked fuel ver (t.rtn_parent p) ps u
        (Upward-same t u (t.rtn_parent p) ps refl w) (omega (arith, h)) in
    (
      t',
      rw there_is run,
      record {
        on_way = λ m i. elim (IsIn-or_not m ps) [
          | inl j ↦ marked.on_way m j
          | inr out ↦
              let at : (m == p) ≡ true = elim (IsIn-head i) [
                | inl e ↦ ground arith
                | inr j ↦ absurd (out j)
              ] in
              marked.off_way m out ∙ rw at refl
        ];
        off_way = λ m i.
            let other : (m == p) ≡ false =
              differs m p (λ e. i (subst (λ k. IsIn m (k ∷ ps)) e (here ps))) in
            marked.off_way m (λ j. i (there p ps j)) ∙ rw other refl;
        heads = marked.heads;
        version = marked.version;
        wraps = marked.wraps;
      },
    )

-- For an entry with a node, and fuel for more rounds than there are nodes from its node up to the root,
-- `std_radix_setversion` returns the version of the table plus one, in 64 bits. This is the version of the
-- table, of the entry and of the nodes on the way then, the other entries and nodes keep theirs, and the
-- wraps of the table count one more where the version has come to 0.
pub setversion-Marked :
    (fuel : ℕ) (t : Table) (rth : Ptr) (ps : List Ptr)
    → rth ≢ null
    → t.rth_rtn rth ≢ null
    → Upward t (t.rth_rtn rth) ps
    → length ps < fuel
    → (t' : Table) × (setversion fuel t rth ≡ some ((t.rtt_version + 1) % 2 ^ 64, t'))
      × (t'.rtt_version ≡ (t.rtt_version + 1) % 2 ^ 64)
      × ((m : Ptr)
          → t'.rth_version m ≡ (if m == rth then (t.rtt_version + 1) % 2 ^ 64 else t.rth_version m))
      × ((m : Ptr) → IsIn m ps → t'.rtn_version m ≡ (t.rtt_version + 1) % 2 ^ 64)
      × ((m : Ptr) → (IsIn m ps → ⊥) → t'.rtn_version m ≡ t.rtn_version m)
      × (t'.rtt_nwraps ≡ (
          if (t.rtt_version + 1) % 2 ^ 64 == 0 then (t.rtt_nwraps + 1) % 2 ^ 64 else t.rtt_nwraps))
unfolding setversion
setversion-Marked fuel t rth ps n nn w h =
    let ver = (t.rtt_version + 1) % 2 ^ 64 in
    let t1 = record t {
      rtt_version = ver;
      rth_version = λ p. if p == rth then ver else t.rth_version p;
    } in
    let head : (rth == null) ≡ false = differs rth null n in
    let node : (t.rth_rtn rth == null) ≡ false = differs (t.rth_rtn rth) null nn in
    let (t2, run, marked) =
      mark_version-Marked fuel ver (t.rth_rtn rth) ps t1
        (Upward-same t t1 (t.rth_rtn rth) ps refl w) h in
    let last = λ (p : Ptr). ap (λ f. f p) marked.heads in
    elim (Bool-cases (ver == 0)) [
      | inl wrap ↦ (
        record t2 { rtt_nwraps = (t2.rtt_nwraps + 1) % 2 ^ 64 },
        rw (head, node, run, wrap) refl,
        marked.version,
        last,
        marked.on_way,
        marked.off_way,
        rw wrap (ap (λ k. (k + 1) % 2 ^ 64) marked.wraps),
      )
      | inr plain ↦ (
        t2,
        rw (head, node, run, plain) refl,
        marked.version,
        last,
        marked.on_way,
        marked.off_way,
        rw plain marked.wraps,
      )
    ]
