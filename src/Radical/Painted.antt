-- ===== src/Radical/Painted.antt =====
-- `std_radical_procverwrap` of src/std_radical.c: the versions from 1 on.
use opx_common_utils.Prelude.{
  ℕ, zero, suc, ◌+◌, ◌%◌, ◌^◌, ◌<◌, ◌≡◌, ◌≢◌, refl, sym, ap, ◌∙◌, arith, false, not, ◌==◌, some,
  List, [], ◌∷◌, ◌++◌, length, subst, if◌then◌else◌, bit_and,
}
use mathlib.Core.Bool.{true≢false}
use mathlib.Core.List.{append_assoc}
use opx_common_utils.LinkedList.Chain.{has, has-append}
use opx_common_utils.LinkedList.Splice.{first_of}
use opx_common_utils.LinkedList.Query.{getfirst-getlast_lem}
use opx_common_utils.Radix.{Ptr, null, Table}
use opx_common_utils.Radix.Steps.{set_at-on, set_at-off}
use opx_common_utils.Radical.{set_version, paint_loop, procverwrap}
use opx_common_utils.Radical.Real.{IsList, shift, next_of, real_item}
use opx_common_utils.Radical.Append.{IsFresh-taken}

-- The version behind a head: one more, but at a marker.
abbrev pub counted : (flags : Ptr → ℕ) → Ptr → ℕ → ℕ
counted flags h v = if not (bit_and (flags h) 2 == 0) then v else (v + 1) % 2 ^ 64

-- The version behind the heads of a list.
abbrev pub total : (flags : Ptr → ℕ) → List Ptr → ℕ → ℕ
total flags [] v = v
total flags (x ∷ xs) v = total flags xs (counted flags x v)

-- The heads have the versions in order.
abbrev pub Numbered : (flags versions : Ptr → ℕ) → List Ptr → ℕ → Type 0
Numbered flags versions [] v = Unit
Numbered flags versions (x ∷ xs) v =
    (versions x ≡ counted flags x v) × Numbered flags versions xs (counted flags x v)

-- An item of a list is not in the rest of it.
not_behind :
    (t : Table) (pre : List Ptr) (x : Ptr) (xs : List Ptr)
    → IsList t (pre ++ x ∷ xs)
    → has x xs ≡ false
not_behind t pre x xs is =
    let hd = t.rtt_clhead in
    let out = (IsFresh-taken t pre x xs is).outside in
    let at_tail = has-append x (pre ++ xs) (hd.tail ∷ []) in
    let at_xs = has-append x pre xs in ground (arith, out, at_tail, at_xs)

paint_loop-Numbered :
    (fuel v : ℕ) (t : Table) (pre xs : List Ptr)
    → IsList t (pre ++ xs)
    → length xs < fuel
    → (t' : Table) × (paint_loop fuel (first_of xs null) v t ≡ some (total t.rdcl_flags xs v, t'))
      × Numbered t.rdcl_flags t'.rth_version xs v
      × IsList t' (pre ++ xs)
      × ((m : Ptr) → has m xs ≡ false → t'.rth_version m ≡ t.rth_version m)
unfolding paint_loop
paint_loop-Numbered zero v t pre xs is h = absurd (omega (arith, h))
paint_loop-Numbered (suc fuel) v t pre [] is h = (t, refl, tt, is, λ m n. refl)
paint_loop-Numbered (suc fuel) v t pre (x ∷ xs) is h =
    let w = counted t.rdcl_flags x v in
    let t1 = set_version x w t in
    let whole = append_assoc pre (x ∷ []) xs in
    let (t', run, numbers, is', same) =
      paint_loop-Numbered fuel w t1 (pre ++ x ∷ []) xs (shift t pre x xs is) (omega (arith, h)) in
    (
      t',
      rw (real_item t pre x xs is) (ap (λ z. paint_loop fuel z w t1) (next_of t pre x xs is) ∙ run),
      (same x (not_behind t pre x xs is) ∙ set_at-on t.rth_version x w, numbers),
      subst (λ l. IsList t' l) whole is',
      λ m n.
          let apart : m ≢ x = λ e. true≢false (sym (ground (arith, e)) ∙ n) in
          same m (ground arith) ∙ set_at-off t.rth_version x w m apart,
    )

-- `std_radical_procverwrap` numbers the heads of the change list from 1 on in order, modulo 2^64, and
-- gives a marker the number of the last head in front of it. Its result is the last number; the list
-- stays as it was, and a head that is not in it keeps its version. The fuel is more than the heads.
pub procverwrap-Numbered :
    (fuel : ℕ) (t : Table) (xs : List Ptr)
    → IsList t xs
    → length xs < fuel
    → (t' : Table) × (procverwrap fuel t ≡ some (total t.rdcl_flags xs 0, t'))
      × Numbered t.rdcl_flags t'.rth_version xs 0
      × IsList t' xs
      × ((m : Ptr) → has m xs ≡ false → t'.rth_version m ≡ t.rth_version m)
unfolding procverwrap
procverwrap-Numbered fuel t xs is h =
    let (t', run, numbers, is', same) = paint_loop-Numbered fuel 0 t [] xs is h in
    (t', ap (λ z. paint_loop fuel z 0 t) (getfirst-getlast_lem xs is).0 ∙ run, numbers, is', same)
