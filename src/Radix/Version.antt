-- ===== src/Radix/Version.antt =====
-- src/std_radix.c: what the radix tree does from the node of a head, and the versions of the heads and
-- of the nodes above them.
use opx_common_utils.Prelude.{
  ℕ, zero, suc, ◌+◌, ◌%◌, ◌^◌, ◌&&◌, ◌||◌, Option, none, some, ◌==◌, if◌then◌else◌,
}
use opx_common_utils.Prelude.Int.{ℤ, pos, negsuc}
use opx_common_utils.Radix.{Ptr, null, Table}

-- `std_radix_nodeisleaf`
unfoldable pub nodeisleaf : Table → Ptr → ℤ
nodeisleaf t rth =
    let rtn = t.rth_rtn rth in
    if rth == null
    then negsuc 0
    else if t.rtn_left rtn == null && t.rtn_right rtn == null
    then pos 1
    else pos 0

-- The loop of `std_radix_getparent` and of `std_radix_getlessspecific`, on fuel.
unfoldable pub parent_head : ℕ → Table → Ptr → Option Ptr
parent_head zero t rtn = none
parent_head (suc fuel) t rtn =
    let further = parent_head fuel t (t.rtn_parent rtn) in
    if rtn == null
    then some null
    else if t.rtn_rth rtn == null
    then further
    else some (t.rtn_rth rtn)

-- `std_radix_getparent`, `std_radix_getlessspecific`: a head that is NULL, or that has no node, is read or
-- asserted, and gives no result.
unfoldable pub getparent : ℕ → Table → Ptr → Option Ptr
unfolding parent_head
getparent fuel t rth =
    if rth == null || t.rth_rtn rth == null
    then none
    else parent_head fuel t (t.rtn_parent (t.rth_rtn rth))

unfoldable pub getlessspecific : ℕ → Table → Ptr → Option Ptr
unfolding parent_head
getlessspecific fuel t rth =
    if rth == null || t.rth_rtn rth == null
    then none
    else parent_head fuel t (t.rtn_parent (t.rth_rtn rth))

-- The loop of `std_radix_setversion` up to the root, on fuel.
unfoldable pub mark_version : ℕ → ℕ → Ptr → Table → Option Table
mark_version zero ver rtn t = none
mark_version (suc fuel) ver rtn t =
    let marked = record t { rtn_version = λ p. if p == rtn then ver else t.rtn_version p } in
    let further = mark_version fuel ver (t.rtn_parent rtn) marked in
    if rtn == null then some t else further

-- `std_radix_setversion`: the version of 64 bits, and the table
unfoldable pub setversion : ℕ → Table → Ptr → Option (ℕ × Table)
unfolding mark_version
setversion fuel t rth =
    let ver = (t.rtt_version + 1) % 2 ^ 64 in
    let t1 = record t {
      rtt_version = ver;
      rth_version = λ p. if p == rth then ver else t.rth_version p;
    } in
    if rth == null || t.rth_rtn rth == null
    then none
    else elim (mark_version fuel ver (t.rth_rtn rth) t1) [
      | none ↦ none
      | some t2 ↦
          some
            (ver, if ver == 0 then record t2 { rtt_nwraps = (t2.rtt_nwraps + 1) % 2 ^ 64 } else t2)
    ]
