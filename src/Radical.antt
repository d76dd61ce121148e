-- ===== src/Radical.antt =====
-- src/std_radical.c and inc/opx/std_radical.h: the change list of a radix tree, and the walks along it. A
-- walker is a head that is marked as a dummy. The change list is the list of `rtt_clhead`, and a head and
-- its `rdcl_cl` have the same address in it. An `assert` that fails gives no result.
pub mod Walk
pub mod Real
pub mod Append
pub mod Visits
pub mod Painted
mod Examples
use opx_common_utils.Prelude.{
  ℕ, zero, suc, ◌+◌, ◌-◌, ◌%◌, ◌^◌, Bool, true, false, not, ◌&&◌, ◌||◌, Option, none, some, ◌==◌,
  ltb, bit_and, bit_or, if◌then◌else◌,
}
use opx_common_utils.Prelude.Int.{ℤ, pos, negsuc, ltb_ℤ, eq_ℤ, ◌-ℤ◌}
use opx_common_utils.LinkedList.{
  Store, Head, is_linked, insertatfront, insertatback, insertafter, insertbefore, remove,
}
use opx_common_utils.LinkedList
use opx_common_utils.Radix.{Ptr, null, Table}

abbrev pub set_at {ℓ} : {A : Type ℓ} → (Ptr → A) → Ptr → A → Ptr → A
set_at f p v q = if q == p then v else f q

-- `RDCL_ISDUMMY`
abbrev pub is_dummy : Table → Ptr → Bool
is_dummy t h = not (bit_and (t.rdcl_flags h) 2 == 0)

-- `RDCL_SETDUMMY`
abbrev pub set_dummy : Ptr → Table → Table
set_dummy h t = record t { rdcl_flags = set_at t.rdcl_flags h (bit_or (t.rdcl_flags h) 2) }

-- `RDCL_CLRDUMMY`
abbrev pub clear_dummy : Ptr → Table → Table
clear_dummy h t = record t {
  rdcl_flags = set_at t.rdcl_flags h (bit_and (t.rdcl_flags h) (2 ^ 32 - 1 - 2));
}

abbrev pub next_head : Table → Ptr → Ptr
next_head t h = LinkedList.getnext t.rtt_clhead h t.rdcl_cl

abbrev pub set_version : Ptr → ℕ → Table → Table
set_version h v t = record t { rth_version = set_at t.rth_version h v }

abbrev pub set_list : Store → Table → Table
set_list cl t = record t { rdcl_cl = cl }

-- `rtt_radicalinuse`, an `int`, one up
abbrev pub in_use_up : Table → Option Table
in_use_up t =
    if eq_ℤ t.rtt_radicalinuse (pos (2 ^ 31 - 1))
    then none
    else some (record t { rtt_radicalinuse = t.rtt_radicalinuse -ℤ negsuc 0 })

-- The loop of `std_radical_procverwrap`, on fuel; a version has 64 bits.
unfoldable pub paint_loop : ℕ → (rth : Ptr) → (version : ℕ) → Table → Option (ℕ × Table)
paint_loop zero rth version t = none
paint_loop (suc fuel) rth version t =
    let v = if is_dummy t rth then version else (version + 1) % 2 ^ 64 in
    let t1 = set_version rth v t in
    let further = paint_loop fuel (next_head t1 rth) v t1 in
    if rth == null then some (version, t) else further

-- `std_radical_procverwrap`
unfoldable pub procverwrap : ℕ → Table → Option (ℕ × Table)
unfolding paint_loop
procverwrap fuel t = paint_loop fuel (LinkedList.getfirst t.rtt_clhead t.rdcl_cl) 0 t

-- `std_radical_walkconstructor`
unfoldable pub walkconstructor : Table → (dummy : Ptr) → Option Table
unfolding is_linked insertatfront remove
walkconstructor t dummy =
    let cl =
      if is_dummy t dummy && is_linked dummy t.rdcl_cl
      then remove t.rtt_clhead dummy t.rdcl_cl
      else t.rdcl_cl in
    let t1 = set_dummy dummy (set_list cl t) in
    if dummy == null
    then none
    else in_use_up
        (set_version dummy 0 (set_list (insertatfront t1.rtt_clhead dummy t1.rdcl_cl) t1))

-- `std_radical_walkconstructorafter`
unfoldable pub walkconstructorafter : Table → (after dummy : Ptr) → Option Table
unfolding is_linked insertafter remove
walkconstructorafter t after dummy =
    let cl = if is_linked dummy t.rdcl_cl then remove t.rtt_clhead dummy t.rdcl_cl else t.rdcl_cl in
    let t1 = set_dummy dummy (set_list cl t) in
    if dummy == null || after == null || not (is_dummy t after) || not (is_linked after t.rdcl_cl)
    then none
    else elim (insertafter t1.rtt_clhead after dummy t1.rdcl_cl) [
      | none ↦ none
      | some cl1 ↦ in_use_up (set_version dummy (t1.rth_version after) (set_list cl1 t1))
    ]

-- `std_radical_walkdestructor`
unfoldable pub walkdestructor : Table → (dummy : Ptr) → Option Table
unfolding is_linked remove
walkdestructor t dummy =
    let t1 = clear_dummy dummy t in
    let cl =
      if is_linked dummy t1.rdcl_cl then remove t1.rtt_clhead dummy t1.rdcl_cl else t1.rdcl_cl in
    if dummy == null || eq_ℤ t.rtt_radicalinuse (negsuc (2 ^ 31 - 1))
    then none
    else some (record t1 { rdcl_cl = cl; rtt_radicalinuse = t1.rtt_radicalinuse -ℤ pos 1 })

-- `std_radical_appendtochangelist`: the version, and the table
unfoldable pub appendtochangelist : Table → (rth : Ptr) → Option (ℕ × Table)
unfolding is_linked insertatback remove
appendtochangelist t rth =
    let listed = not (bit_and (t.rdcl_flags rth) 1 == 0) in
    let cl = if listed then remove t.rtt_clhead rth t.rdcl_cl else t.rdcl_cl in
    let version = (t.rtt_version + 1) % 2 ^ 64 in
    if t.rth_rtn rth == null || listed && not (is_linked rth t.rdcl_cl)
    then none
    else some (
      version,
      record t {
        rdcl_cl = insertatback t.rtt_clhead rth cl;
        rdcl_flags = set_at t.rdcl_flags rth (bit_or (t.rdcl_flags rth) 1);
        rtt_version = version;
        rth_version = set_at t.rth_version rth version;
        rtt_nwraps = if version == 0 then (t.rtt_nwraps + 1) % 2 ^ 64 else t.rtt_nwraps;
      },
    )

-- The loops of `std_radical_getfirst` and `std_radical_getnext`, on fuel.
unfoldable pub skip_dummies : ℕ → Table → (rth : Ptr) → Option Ptr
skip_dummies zero t rth = none
skip_dummies (suc fuel) t rth =
    let further = skip_dummies fuel t (next_head t rth) in
    if rth == null then some null else if is_dummy t rth then further else some rth

-- `std_radical_getfirst`
unfoldable pub getfirst : ℕ → Table → Option Ptr
unfolding skip_dummies
getfirst fuel t = skip_dummies fuel t (LinkedList.getfirst t.rtt_clhead t.rdcl_cl)

-- `std_radical_getnext`
unfoldable pub getnext : ℕ → Table → (rth : Ptr) → Option Ptr
unfolding skip_dummies
getnext fuel t rth = skip_dummies fuel t (next_head t rth)

-- The loop of `std_radical_nextversion`, on fuel.
unfoldable pub version_loop : ℕ → Table → (rth : Ptr) → Option ℕ
version_loop zero t rth = none
version_loop (suc fuel) t rth =
    let further = version_loop fuel t (next_head t rth) in
    if is_dummy t rth
    then (if next_head t rth == null then some 0 else further)
    else some (t.rth_version rth)

-- `std_radical_nextversion`
unfoldable pub nextversion : ℕ → Table → (dummy : Ptr) → Option ℕ
unfolding is_linked version_loop
nextversion fuel t dummy =
    if is_dummy t dummy && is_linked dummy t.rdcl_cl then version_loop fuel t dummy else none
