-- ===== src/Radical/Append.antt =====
-- `std_radical_appendtochangelist` of src/std_radical.c.
use opx_common_utils.Prelude.{
  ◌+◌, ◌≡◌, ◌≢◌, refl, sym, ◌∙◌, arith, Bool, true, false, ◌==◌, some, List, [], ◌∷◌, ◌++◌, bit_and,
  bit_or, ◌%◌, ◌^◌, if◌then◌else◌, subst,
}
use mathlib.Core.Bool.{true≢false}
use mathlib.Core.List.{append_assoc}
use opx_common_utils.LinkedList.{Store, is_linked, remove, insertatback}
use opx_common_utils.LinkedList.Chain.{has, Distinct, Distinct-remove, has_middle}
use opx_common_utils.LinkedList.Splice.{IsFresh}
use opx_common_utils.LinkedList.Insert.{insertatback-append}
use opx_common_utils.LinkedList.Remove.{remove-middle}
use opx_common_utils.Radix.{Ptr, null, Table}
use opx_common_utils.Radix.Steps.{set_at-on, set_at-off}
use opx_common_utils.Radical.{set_at, appendtochangelist}
use opx_common_utils.Radical.Real.{IsList}

-- An item that is taken out of a list is fresh for it.
pub IsFresh-taken :
    (t : Table) (pre : List Ptr) (h : Ptr) (post : List Ptr)
    → IsList t (pre ++ h ∷ post)
    → IsFresh t.rtt_clhead (pre ++ post) h
IsFresh-taken t pre h post is =
    let hd = t.rtt_clhead in
    let whole =
      subst (λ l. Distinct (hd.head ∷ l)) (append_assoc pre (h ∷ post) (hd.tail ∷ []))
        is.distinct in
    let alone = (Distinct-remove h (hd.head ∷ pre) (post ++ hd.tail ∷ []) whole).1 in
    record {
      outside =
          subst (λ l. has h (hd.head ∷ l) ≡ false) (sym (append_assoc pre post (hd.tail ∷ [])))
            alone;
      not_null = λ e. true≢false (sym (ground (arith, has_middle null h pre post, e)) ∙ is.no_null);
    }

-- The change list without the head `h`, which is in it, as its flag says, or is not.
pub data Unplaced (t : Table) (h : Ptr) : List Ptr → Type 0 where
  listed :
      (pre post : List Ptr)
      → IsList t (pre ++ h ∷ post)
      → (bit_and (t.rdcl_flags h) 1 == 0) ≡ false
      → is_linked h t.rdcl_cl ≡ true
      → Unplaced t h (pre ++ post)
  unlisted :
      (xs : List Ptr)
      → IsList t xs
      → IsFresh t.rtt_clhead xs h
      → (bit_and (t.rdcl_flags h) 1 == 0) ≡ true
      → Unplaced t h xs

-- The store of the list with the head at its end.
abbrev last_list : Table → Ptr → Bool → Store
last_list t h b =
    insertatback t.rtt_clhead h (if b then remove t.rtt_clhead h t.rdcl_cl else t.rdcl_cl)

abbrev appended : Table → Ptr → Bool → Table
appended t h b =
    let version = (t.rtt_version + 1) % 2 ^ 64 in
    record t {
      rdcl_cl = last_list t h b;
      rdcl_flags = set_at t.rdcl_flags h (bit_or (t.rdcl_flags h) 1);
      rtt_version = version;
      rth_version = set_at t.rth_version h version;
      rtt_nwraps = if version == 0 then (t.rtt_nwraps + 1) % 2 ^ 64 else t.rtt_nwraps;
    }

others :
    (t : Table) (h : Ptr) (b : Bool) (m : Ptr)
    → m ≢ h
    → ((appended t h b).rth_version m ≡ t.rth_version m)
      × ((appended t h b).rdcl_flags m ≡ t.rdcl_flags m)
others t h b m n = (
  set_at-off t.rth_version h ((t.rtt_version + 1) % 2 ^ 64) m n,
  set_at-off t.rdcl_flags h (bit_or (t.rdcl_flags h) 1) m n,
)

-- A head that has its node comes to the end of the change list, whether it was in it or not, with the
-- next version of the table, which the table and the head then have; no other head gets another version
-- or other flags.
pub appendtochangelist-last :
    (t : Table) (h : Ptr) (xs : List Ptr)
    → Unplaced t h xs
    → t.rth_rtn h ≢ null
    → (t' : Table) × (appendtochangelist t h ≡ some ((t.rtt_version + 1) % 2 ^ 64, t'))
      × IsList t' (xs ++ h ∷ [])
      × (t'.rtt_version ≡ (t.rtt_version + 1) % 2 ^ 64)
      × (t'.rth_version h ≡ t'.rtt_version)
      × ((m : Ptr)
          → m ≢ h
          → (t'.rth_version m ≡ t.rth_version m) × (t'.rdcl_flags m ≡ t.rdcl_flags m))
unfolding appendtochangelist
appendtochangelist-last t h _ (listed pre post is flag linked) real =
    let has_node : (t.rth_rtn h == null) ≡ false = ground (arith, real) in
    let (out, gone) = remove-middle pre h post is in
    (
      appended t h true,
      rw (flag, linked, has_node) refl,
      insertatback-append (pre ++ post) out (IsFresh-taken t pre h post is),
      refl,
      set_at-on t.rth_version h ((t.rtt_version + 1) % 2 ^ 64),
      λ m n. others t h true m n,
    )
appendtochangelist-last t h xs (unlisted _ is fresh flag) real =
    let has_node : (t.rth_rtn h == null) ≡ false = ground (arith, real) in
    (
      appended t h false,
      rw (flag, has_node) refl,
      insertatback-append xs is fresh,
      refl,
      set_at-on t.rth_version h ((t.rtt_version + 1) % 2 ^ 64),
      λ m n. others t h false m n,
    )
