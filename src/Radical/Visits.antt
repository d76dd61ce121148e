-- ===== src/Radical/Visits.antt =====
-- A whole walk along the change list of src/std_radical.c: which heads it visits, and where it leaves the
-- marker.
use opx_common_utils.Prelude.{
  ℕ, ◌≤◌, ◌≡◌, ◌≢◌, Option, some, none, List, [], ◌∷◌, ◌++◌, if◌then◌else◌,
}
use opx_common_utils.Prelude.Int.{pos, negsuc}
use opx_common_utils.LinkedList.{Store, Head, set_next, set_back}
use opx_common_utils.LinkedList.Splice.{first_of}
use opx_common_utils.Radix.{Ptr, null, Table}
use opx_common_utils.Radical.{is_dummy, set_version, set_list}
use opx_common_utils.Radical.Walk.{WalkFn, walk_loop}
use opx_common_utils.Radical.Real.{IsList}

-- A callback that only changes the state of the caller, and goes on.
abbrev pub quiet {ℓ} : {A : Type ℓ} → (Ptr → A → A) → WalkFn A
quiet step h a t = (pos 0, step h a, t)

-- The state of the caller after all heads of the list that are not markers, in order.
unfoldable pub visit {ℓ} : {A : Type ℓ} → Table → (Ptr → A → A) → List Ptr → A → A
visit t step [] a = a
visit t step (x ∷ xs) a = visit t step xs (if is_dummy t x then a else step x a)

-- No head of the list has a version above `max_ver`.
abbrev pub UpTo : Table → (max_ver : ℕ) → List Ptr → Type 0
UpTo t max_ver [] = Unit
UpTo t max_ver (x ∷ xs) = (t.rth_version x ≤ max_ver) × UpTo t max_ver xs

-- Only the links of the list and the version of the marker may differ.
pub record Keeps (t t' : Table) (dummy : Ptr) : Type 0 where
  pub flags : t'.rdcl_flags ≡ t.rdcl_flags
  pub list : t'.rtt_clhead ≡ t.rtt_clhead
  pub table : t'.rtt_version ≡ t.rtt_version
  pub versions : (m : Ptr) → m ≢ dummy → t'.rth_version m ≡ t.rth_version m
  pub rest : t' ≡ record t { rdcl_cl = t'.rdcl_cl; rth_version = t'.rth_version }

-- The list after `std_dll_insertafter` of the marker.
abbrev after : Head → (x dummy : Ptr) → Store → Store
after hd x dummy st =
    let st1 = set_next dummy (st.next x) st in
    let st2 = set_back dummy x st1 in set_next x dummy (set_back (st2.next x) dummy st2)

inside : Store → Option Store → Store
inside st none = st
inside st (some st') = st'

module _ {ℓ} {A : Type ℓ} (step : Ptr → A → A) (max_ver : ℕ) (dummy : Ptr) where
  abbrev called : Table → (x : Ptr) → Table
  called t x =
      set_version dummy (t.rth_version x) (set_list (after t.rtt_clhead x dummy t.rdcl_cl) t)

  -- The rest of a walk, from any place of the list.
  Rest : ℕ → ℕ → A → Table → Table → (pre xs : List Ptr) → Type ℓ
  Rest fuel k a t0 t pre xs =
      (t' : Table) × (walk_loop fuel (quiet step) max_ver dummy (negsuc k) (first_of xs null)
          (pos 0) a t
        ≡ some (pos 0, visit t0 step xs a, t'))
      × IsList t' (pre ++ xs ++ dummy ∷ [])
      × (t'.rth_version dummy ≡ t0.rtt_version)
      × Keeps t0 t' dummy
