-- ===== src/Radical/Walk.antt =====
-- `std_radical_walkchangelist` of src/std_radical.c. The callback has a state of the caller, and the table,
-- which it may change; its variable arguments belong to that state. `cnt` only sets a counter that is
-- counted down and never read, and has no part in the model.
use opx_common_utils.Prelude.{
  ℕ, zero, suc, ◌-◌, ◌^◌, not, ◌||◌, Option, none, some, ◌==◌, ltb, if◌then◌else◌,
}
use opx_common_utils.Prelude.Int.{ℤ, pos, negsuc, ltb_ℤ, eq_ℤ, ◌-ℤ◌}
use opx_common_utils.LinkedList.{is_linked, insertatback, insertafter, insertbefore, remove}
use opx_common_utils.Radix.{Ptr, null, Table}
use opx_common_utils.Radical.{is_dummy, next_head, set_version, set_list}

abbrev pub WalkFn {ℓ} : Type ℓ → Type ℓ
WalkFn A = Ptr → A → Table → ℤ × A × Table

-- `*cbretval`, the state of the caller and the table after a walk
abbrev pub Walked {ℓ} : Type ℓ → Type ℓ
Walked A = Option (ℤ × A × Table)

-- The marker in front of the head.
abbrev pub mark_before {ℓ} : {A : Type ℓ} → (rth dummy : Ptr) → ℤ → A → Table → Walked A
mark_before rth dummy ret a t = elim (insertbefore t.rtt_clhead rth dummy t.rdcl_cl) [
  | none ↦ none
  | some cl ↦ some (ret, a, set_list cl t)
]

-- A walk that comes to the end of the list.
abbrev pub walk_end {ℓ} : {A : Type ℓ} → (dummy : Ptr) → ℤ → A → Table → Walked A
walk_end dummy ret a t =
    let t1 = set_version dummy t.rtt_version t in
    some (ret, a, set_list (insertatback t1.rtt_clhead dummy t1.rdcl_cl) t1)

-- A callback that asks for a stop: below 0, the marker goes in front of the head again.
abbrev pub walk_stop {ℓ} : {A : Type ℓ} → (rth dummy : Ptr) → ℤ → A → Table → Walked A
walk_stop rth dummy ret a t =
    if ltb_ℤ ret (pos 0)
    then (if is_linked rth t.rdcl_cl
        then mark_before rth dummy ret a (set_list (remove t.rtt_clhead dummy t.rdcl_cl) t)
        else none)
    else some (ret, a, t)

-- The callback at a head, with the marker behind it.
abbrev pub call_at {ℓ} : {A : Type ℓ} → WalkFn A → (rth dummy : Ptr) → A → Table → Walked A
call_at walk_fn rth dummy a t = elim (insertafter t.rtt_clhead rth dummy t.rdcl_cl) [
  | none ↦ none
  | some cl ↦
      let (ret, a1, t1) = walk_fn rth a (set_list cl t) in
      some (ret, a1, if ltb_ℤ ret (pos 0) then t1 else set_version dummy (t.rth_version rth) t1)
]

-- The loop, on fuel. `maxnodes` is an `int`, which starts at -1 for no limit.
unfoldable pub walk_loop {ℓ} :
    {A : Type ℓ}
    → ℕ
    → WalkFn A
    → (max_ver : ℕ) → (dummy : Ptr) → (maxnodes : ℤ) → (rth : Ptr) → ℤ
    → A
    → Table
    → Walked A
unfolding is_linked insertafter insertbefore insertatback remove
walk_loop zero walk_fn max_ver dummy maxnodes rth ret a t = none
walk_loop (suc fuel) walk_fn max_ver dummy maxnodes rth ret a t =
    let skip = walk_loop fuel walk_fn max_ver dummy maxnodes (next_head t rth) ret a t in
    if rth == null
    then walk_end dummy ret a t
    else if is_dummy t rth
    then skip
    else if ltb max_ver (t.rth_version rth)
    then mark_before rth dummy ret a (set_version dummy max_ver t)
    else elim (call_at walk_fn rth dummy a t) [
      | none ↦ none
      | some (ret1, a1, t1) ↦
          let left = maxnodes -ℤ pos 1 in
          let t2 = set_list (remove t1.rtt_clhead dummy t1.rdcl_cl) t1 in
          let further = walk_loop fuel walk_fn max_ver dummy left (next_head t1 dummy) ret1 a1 t2 in
          if not (eq_ℤ ret1 (pos 0))
          then walk_stop rth dummy ret1 a1 t1
          else if eq_ℤ maxnodes (negsuc (2 ^ 31 - 1))
          then none
          else if eq_ℤ left (pos 0)
          then some (ret1, a1, t1)
          else further
    ]

-- `std_radical_walkchangelist`
unfoldable pub walkchangelist {ℓ} :
    {A : Type ℓ}
    → ℕ
    → Table
    → (dummy : Ptr) → WalkFn A
    → (maxnodes : ℤ) → (max_ver : ℕ) → A
    → Walked A
unfolding walk_loop is_linked remove
walkchangelist fuel t dummy walk_fn maxnodes max_ver a =
    let most = if eq_ℤ maxnodes (pos 0) then negsuc 0 else maxnodes in
    let t1 = set_list (remove t.rtt_clhead dummy t.rdcl_cl) t in
    let walked = walk_loop fuel walk_fn max_ver dummy most (next_head t dummy) (pos 0) a t1 in
    if dummy == null || not (is_dummy t dummy) || not (is_linked dummy t.rdcl_cl)
    then none
    else walked
