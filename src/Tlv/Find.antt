-- ===== src/Tlv/Find.antt =====
-- `std_tlv_find_next` and `std_tlv_efind` on a sequence of TLVs.
use opx_common_utils.Prelude.{
  ℕ, zero, suc, ◌+◌, ◌-◌, ◌^◌, ◌≤◌, ◌<◌, ◌≡◌, ◌≢◌, inl, inr, refl, ap, ap₂, sym, subst, ◌∙◌, true,
  false, List, [], ◌∷◌, none, some, arith, ◌==◌, leb, ltb, if◌then◌else◌, length, Bool-cases,
}
use mathlib.Core.Option.{none-ne-some, some-injective}
use opx_common_utils.BitMask.{Bytes}
use opx_common_utils.Tlv.{
  Ptr, null, tlv_data, tlv_len, tlv_tag, tlv_total_len, tlv_valid, tlv_next, tlv_find_next,
}
use opx_common_utils.Tlv.Layout.{Entry, size, Layout}

-- One round at a TLV that fits the space left.
pub find_next-here :
    (fuel : ℕ) (mem : Bytes) (p dlen tag : ℕ)
    → p ≢ 0
    → dlen ≢ 0
    → tlv_total_len mem p ≤ dlen
    → tlv_tag mem p ≡ tag
    → tlv_find_next (suc fuel) mem p dlen tag ≡ some (p, dlen)
unfolding tlv_find_next tlv_valid tlv_next
find_next-here fuel mem p dlen tag np nd fits same =
    let a : (p == 0) ≡ false = ground arith in
    let b : (dlen == 0) ≡ false = ground arith in
    let c : leb (tlv_total_len mem p) dlen ≡ true = ground arith in
    let d : (tlv_tag mem p == tag) ≡ true = ground arith in rw (a, b, c, d)

pub find_next-step :
    (fuel : ℕ) (mem : Bytes) (p dlen tag : ℕ)
    → p ≢ 0
    → dlen ≢ 0
    → tlv_total_len mem p ≤ dlen
    → tlv_tag mem p ≢ tag
    → tlv_find_next (suc fuel) mem p dlen tag
      ≡ tlv_find_next fuel mem (p + tlv_total_len mem p) (dlen - tlv_total_len mem p) tag
unfolding tlv_find_next tlv_valid tlv_next
find_next-step fuel mem p dlen tag np nd fits same =
    let a : (p == 0) ≡ false = ground arith in
    let b : (dlen == 0) ≡ false = ground arith in
    let c : leb (tlv_total_len mem p) dlen ≡ true = ground arith in
    let d : (tlv_tag mem p == tag) ≡ false = ground arith in
    let e : ltb dlen (tlv_total_len mem p) ≡ false = ground arith in
    let f : (p + tlv_total_len mem p == 0) ≡ false = ground arith in rw (a, b, c, d, e, f)

pub find_next-stop :
    (fuel : ℕ) (mem : Bytes) (p dlen tag : ℕ)
    → tlv_valid mem p dlen ≡ false
    → tlv_find_next (suc fuel) mem p dlen tag ≡ some (null, dlen)
unfolding tlv_find_next
find_next-stop fuel mem p dlen tag h = rw h

-- The first entry with the tag, where it stands, and the space from there on.
unfoldable pub first_entry : Ptr → List Entry → ℕ → Ptr × ℕ
first_entry p [] tag = (null, 0)
first_entry p (e ∷ es) tag =
    if e.tag == tag then (p, size (e ∷ es)) else first_entry (p + (e.len + 16)) es tag

-- On a buffer, not NULL, that holds a sequence of TLVs, with more rounds than TLVs, `std_tlv_find_next` returns
-- the first TLV with the tag and the length of the buffer from there on, or NULL and the length 0
-- where no TLV has the tag.
pub find_next-first_entry :
    (fuel : ℕ) (mem : Bytes) (p : ℕ) (es : List Entry) (tag : ℕ)
    → p ≢ 0
    → Layout mem p es
    → length es < fuel
    → tlv_find_next fuel mem p (size es) tag ≡ some (first_entry p es tag)
unfolding Layout first_entry tlv_total_len tlv_valid
find_next-first_entry zero mem p es tag np l h = absurd (omega arith)
find_next-first_entry (suc fuel) mem p [] tag np l h =
    find_next-stop fuel mem p 0 tag (ground arith)
find_next-first_entry (suc fuel) mem p (e ∷ es) tag np (t, n, b, l) h =
    let total : tlv_total_len mem p ≡ e.len + 16 = omega (arith, n, b) in
    let rest =
      find_next-first_entry fuel mem (p + (e.len + 16)) es tag (λ z. np (omega arith)) l
        (omega arith) in
    elim (Bool-cases (e.tag == tag)) [
      | inl same ↦
          find_next-here fuel mem p (size (e ∷ es)) tag np (λ z. omega arith) (omega arith)
            (ground arith)
          ∙ rw same
      | inr other ↦
          find_next-step fuel mem p (size (e ∷ es)) tag np (λ z. omega arith) (omega arith)
            (ground arith)
          ∙ ap₂ (λ q n. tlv_find_next fuel mem q n tag) (omega arith) (omega arith)
          ∙ rest
          ∙ rw other
    ]

-- On any memory, if no address has a total length of 0 (a length field of 2^64 - 16), `std_tlv_find_next` ends within as many
-- rounds as the buffer has bytes, and one more.
pub find_next-ends :
    (fuel : ℕ) (mem : Bytes) (p dlen tag : ℕ)
    → ((a : ℕ) → tlv_total_len mem a ≢ 0)
    → dlen < fuel
    → (q : Ptr) × (left : ℕ) × (tlv_find_next fuel mem p dlen tag ≡ some (q, left))
unfolding tlv_total_len tlv_valid
find_next-ends zero mem p dlen tag ok h = absurd (omega arith)
find_next-ends (suc fuel) mem p dlen tag ok h =
    let positive : 0 < tlv_total_len mem p = omega (arith, ok p) in
    elim (Bool-cases (tlv_valid mem p dlen)) [
      | inr invalid ↦ (null, dlen, find_next-stop fuel mem p dlen tag invalid)
      | inl valid ↦
          let np : p ≢ 0 = ground arith in
          let nd : dlen ≢ 0 = ground arith in
          let fits : tlv_total_len mem p ≤ dlen = ground arith in
          elim (Bool-cases (tlv_tag mem p == tag)) [
            | inl same ↦ (p, dlen, find_next-here fuel mem p dlen tag np nd fits (ground arith))
            | inr other ↦
                let n = tlv_total_len mem p in
                let (q, left, e) =
                  find_next-ends fuel mem (p + n) (dlen - n) tag ok (omega arith) in
                (q, left, find_next-step fuel mem p dlen tag np nd fits (ground arith) ∙ e)
          ]
    ]

-- A TLV, not at NULL, in a buffer that is not empty, with another tag and a length field of 2^64 - 16, keeps
-- `std_tlv_find_next` at its own address: no number of rounds is enough.
pub find_next-endless :
    (fuel : ℕ) (mem : Bytes) (p dlen tag : ℕ)
    → p ≢ 0
    → dlen ≢ 0
    → tlv_len mem p ≡ 2 ^ 64 - 16
    → tlv_tag mem p ≢ tag
    → tlv_find_next fuel mem p dlen tag ≡ none
unfolding tlv_total_len tlv_find_next
find_next-endless zero mem p dlen tag np nd n t = refl
find_next-endless (suc fuel) mem p dlen tag np nd n t =
    let total : tlv_total_len mem p ≡ 0 = omega arith in
    find_next-step fuel mem p dlen tag np nd (omega arith) t
    ∙ ap₂ (λ q m. tlv_find_next fuel mem q m tag) (omega arith) (omega arith)
    ∙ find_next-endless fuel mem p dlen tag np nd n t

find_next-fits :
    (fuel : ℕ) (mem : Bytes) (p dlen tag q left : ℕ)
    → tlv_find_next fuel mem p dlen tag ≡ some (q, left)
    → q ≢ null
    → (tlv_tag mem q ≡ tag) × (tlv_total_len mem q ≤ left) × (p ≤ q) × (q + left ≡ p + dlen)
unfolding tlv_valid tlv_find_next
find_next-fits zero mem p dlen tag q left h nq = absurd (none-ne-some (q, left) h)
find_next-fits (suc fuel) mem p dlen tag q left h nq = elim (Bool-cases (tlv_valid mem p dlen)) [
  | inr invalid ↦
      let e = some-injective _ _ (sym (find_next-stop fuel mem p dlen tag invalid) ∙ h) in
      absurd (nq (sym (ap (λ x. x.0) e)))
  | inl valid ↦
      let np : p ≢ 0 = ground arith in
      let nd : dlen ≢ 0 = ground arith in
      let fits : tlv_total_len mem p ≤ dlen = ground arith in
      elim (Bool-cases (tlv_tag mem p == tag)) [
        | inl same ↦
            let here = find_next-here fuel mem p dlen tag np nd fits (ground arith) in
            let e = some-injective _ _ (sym here ∙ h) in
            let eq : p ≡ q = ap (λ x. x.0) e in
            let el : dlen ≡ left = ap (λ x. x.1) e in
            (
              subst (λ a. tlv_tag mem a ≡ tag) eq (ground arith),
              subst (λ a. tlv_total_len mem a ≤ left) eq (omega arith),
              omega arith,
              omega arith,
            )
        | inr other ↦
            let n = tlv_total_len mem p in
            let step = find_next-step fuel mem p dlen tag np nd fits (ground arith) in
            let (a, b, c, d) =
              find_next-fits fuel mem (p + n) (dlen - n) tag q left (sym step ∙ h) nq in
            (a, b, omega arith, omega arith)
      ]
]

-- On any memory, where `std_tlv_find_next` returns a TLV, and not NULL, whose length with the header is
-- below 2^64, the TLV has the tag, its header and its content are inside of the buffer, and the length
-- that is left ends where the buffer ends.
pub find_next-inside :
    (fuel : ℕ) (mem : Bytes) (p dlen tag q left : ℕ)
    → tlv_find_next fuel mem p dlen tag ≡ some (q, left)
    → q ≢ null
    → tlv_len mem q + 16 < 2 ^ 64
    → (tlv_tag mem q ≡ tag)
      × (p ≤ q)
      × (tlv_data q + tlv_len mem q ≤ p + dlen)
      × (q + left ≡ p + dlen)
unfolding tlv_total_len tlv_data
find_next-inside fuel mem p dlen tag q left h nq short =
    let (same, fits, from, end) = find_next-fits fuel mem p dlen tag q left h nq in
    (same, from, omega (arith, fits, short, end), end)
