-- ===== src/Tlv/Nested.antt =====
-- `std_tlv_efind`: the search that enters the content of the TLVs it finds.
use opx_common_utils.Prelude.{
  ℕ, ◌+◌, ◌≤◌, ◌<◌, ◌≡◌, ◌≢◌, inl, inr, ap, sym, subst, ◌∙◌, false, List, [], ◌∷◌, some, arith,
  ◌==◌, length, Bool-cases,
}
use opx_common_utils.BitMask.{Bytes}
use opx_common_utils.Tlv.{Ptr, null, tlv_len, tlv_data, tlv_efind_loop, tlv_efind}
use opx_common_utils.Tlv.Layout.{Entry, size, Layout}
use opx_common_utils.Tlv.Find.{first_entry, find_next-first_entry}

-- The path of tags from a buffer leads to the TLV at `q`, with `left` bytes from there on: each buffer
-- on the way is a sequence of TLVs, and the first one with the next tag is entered.
pub data Reaches (mem : Bytes) : Ptr → ℕ → List ℕ → Ptr → ℕ → Type 0 where
  found :
      (p : Ptr) (es : List Entry) (tag : ℕ) (q : Ptr) (left : ℕ)
      → p ≢ 0
      → Layout mem p es
      → first_entry p es tag ≡ (q, left)
      → q ≢ 0
      → Reaches mem p (size es) (tag ∷ []) q left
  enter :
      (p : Ptr) (es : List Entry) (tag : ℕ) (q : Ptr) (left : ℕ) (tag2 : ℕ) (tags : List ℕ)
      (r : Ptr) (end : ℕ)
      → p ≢ 0
      → Layout mem p es
      → first_entry p es tag ≡ (q, left)
      → q ≢ 0
      → Reaches mem (tlv_data q) (tlv_len mem q) (tag2 ∷ tags) r end
      → Reaches mem p (size es) (tag ∷ tag2 ∷ tags) r end

length-size : (es : List Entry) → length es ≤ size es
length-size [] = omega arith
length-size (e ∷ es) = omega (arith, length-size es)

-- The content of the entry that is found is smaller than the sequence.
first_entry-smaller :
    (mem : Bytes) (p : ℕ) (es : List Entry) (tag q left : ℕ)
    → Layout mem p es
    → first_entry p es tag ≡ (q, left)
    → q ≢ 0
    → tlv_len mem q < size es
unfolding Layout first_entry
first_entry-smaller mem p [] tag q left l e nq = absurd (nq (sym (ap (λ x. x.0) e)))
first_entry-smaller mem p (e ∷ es) tag q left (t, n, b, l) h nq = elim (Bool-cases (e.tag == tag)) [
  | inl same ↦
      let run : first_entry p (e ∷ es) tag ≡ (p, size (e ∷ es)) = rw (first_entry, same) in
      let eq : p ≡ q = ap (λ x. x.0) (sym run ∙ h) in
      subst (λ a. tlv_len mem a < size (e ∷ es)) eq (omega (arith, n))
  | inr other ↦
      let run : first_entry p (e ∷ es) tag ≡ first_entry (p + (e.len + 16)) es tag =
        rw (first_entry, other) in
      let smaller = first_entry-smaller mem (p + (e.len + 16)) es tag q left l (sym run ∙ h) nq in
      omega arith
]

efind_loop-Reaches :
    (fuel : ℕ) (mem : Bytes) (p dlen : ℕ) (tags : List ℕ) (q left : ℕ)
    → Reaches mem p dlen tags q left
    → dlen < fuel
    → (tlv_efind_loop fuel mem p dlen tags ≡ some (q, left)) × (q ≢ 0)
unfolding tlv_efind_loop
efind_loop-Reaches fuel mem _ _ _ _ _ (found p es tag q left np l e nq) h =
    let f =
      find_next-first_entry fuel mem p es tag np l (omega (arith, length-size es)) ∙ ap some e in
    let b : (q == 0) ≡ false = ground arith in (rw (tlv_efind_loop, f, b), nq)
efind_loop-Reaches fuel mem _ _ _ _ _ (enter p es tag q left tag2 tags r end np l e nq deeper) h =
    let f =
      find_next-first_entry fuel mem p es tag np l (omega (arith, length-size es)) ∙ ap some e in
    let b : (q == 0) ≡ false = ground arith in
    let small = first_entry-smaller mem p es tag q left l e nq in
    let (run, nr) =
      efind_loop-Reaches fuel mem (tlv_data q) (tlv_len mem q) (tag2 ∷ tags) r end deeper
        (omega arith) in
    (rw (tlv_efind_loop, f, b, run), nr)

-- Where each buffer on the way is a sequence of TLVs and the path of tags leads to a TLV,
-- `std_tlv_efind` returns that TLV and the length from it to the end of the innermost buffer, within
-- as many rounds for each tag as the outermost buffer has bytes, and one more.
pub efind-Reaches :
    (fuel : ℕ) (mem : Bytes) (p dlen : ℕ) (tags : List ℕ) (q left : ℕ)
    → Reaches mem p dlen tags q left
    → dlen < fuel
    → tlv_efind fuel mem p dlen tags ≡ some (q, left)
unfolding tlv_efind
efind-Reaches fuel mem p dlen tags q left reaches h =
    let (run, nq) = efind_loop-Reaches fuel mem p dlen tags q left reaches h in
    let b : (q == 0) ≡ false = ground arith in rw (tlv_efind, run, b)

-- Where the buffer is a sequence of TLVs and none has the first tag, `std_tlv_efind` returns NULL and
-- leaves the length as it was.
pub efind-missing :
    (fuel : ℕ) (mem : Bytes) (p : ℕ) (es : List Entry) (tag : ℕ) (tags : List ℕ)
    → p ≢ 0
    → Layout mem p es
    → size es < fuel
    → first_entry p es tag ≡ (null, 0)
    → tlv_efind fuel mem p (size es) (tag ∷ tags) ≡ some (null, size es)
unfolding tlv_efind tlv_efind_loop
efind-missing fuel mem p es tag tags np l h e =
    let f =
      find_next-first_entry fuel mem p es tag np l (omega (arith, length-size es)) ∙ ap some e in
    rw (tlv_efind, tlv_efind_loop, f)
