-- ===== src/Radical/Examples.antt =====
-- A change list of two heads and two markers, and walks along it.
use opx_common_utils.Prelude.{
  ℕ, ◌+◌, ◌-◌, ◌%◌, ◌^◌, ◌≡◌, ◌≢◌, refl, true, none, some, Option, List, [], ◌∷◌, ◌++◌, arith, ◌==◌,
  if◌then◌else◌, false,
}
use opx_common_utils.Prelude.Int.{ℤ, pos, negsuc, ◌-ℤ◌}
use opx_common_utils.LinkedList
use opx_common_utils.LinkedList.{
  is_linked, remove, insertatfront, insertatback, insertafter, insertbefore,
}
use opx_common_utils.Radix.{Ptr, Table}
use opx_common_utils.Radix.Examples.{routes}
use opx_common_utils.Radical.{
  paint_loop, procverwrap, walkconstructor, walkconstructorafter, walkdestructor,
  appendtochangelist, getfirst, getnext, nextversion,
}
use opx_common_utils.Radical.Walk.{WalkFn, walk_loop, walkchangelist}
use opx_common_utils.Radical.Real.{
  IsList, first_real, getfirst-getnext_lem, version_of, nextversion-getnext,
}
use opx_common_utils.Radical.Append.{listed, appendtochangelist-last}
use opx_common_utils.LinkedList.Chain.{has}
use opx_common_utils.Radical.Painted.{total, Numbered, procverwrap-Numbered}

-- 11, the marker 12, 13 and the marker 14, between the end nodes 90 and 91.
abbrev changes : Table
changes = record routes {
  rdcl_flags = λ h. if h == 12 then 2 else if h == 14 then 2 else 1;
  rth_version = λ h. if h == 11 then 3 else if h == 13 then 5 else 0;
  rtt_version = 6;
  rdcl_cl = record {
    next = λ p. if p == 90 then 11 else if p == 14 then 91 else if p == 91 then 0 else p + 1;
    back = λ p. if p == 91 then 14 else if p == 11 then 90 else if p == 90 then 0 else p - 1;
  };
}

changes-IsList : IsList changes (11 ∷ 12 ∷ 13 ∷ 14 ∷ [])
changes-IsList = record {
  chain = (refl, refl, (refl, refl, (refl, refl, (refl, refl, (refl, refl, tt)))));
  distinct = (refl, (refl, (refl, (refl, (refl, (refl, tt))))));
  no_null = refl;
}

linked_items : (is_linked 12 changes.rdcl_cl ≡ true) × (is_linked 11 changes.rdcl_cl ≡ true)
unfolding is_linked
linked_items = (refl, refl)

getfirst-getnext_lem_example :
    (getfirst 5 changes ≡ some (first_real changes (11 ∷ 12 ∷ 13 ∷ 14 ∷ [])))
    × ((pre : List Ptr) (a : Ptr) (post : List Ptr)
        → (11 ∷ 12 ∷ 13 ∷ 14 ∷ []) ≡ pre ++ a ∷ post
        → getnext 5 changes a ≡ some (first_real changes post))
getfirst-getnext_lem_example =
    getfirst-getnext_lem 5 changes (11 ∷ 12 ∷ 13 ∷ 14 ∷ []) changes-IsList (omega arith)

nextversion-getnext_example :
    (h : Ptr) × (getnext 5 changes 12 ≡ some h)
    × (nextversion 5 changes 12 ≡ some (version_of changes h))
nextversion-getnext_example =
    nextversion-getnext 5 changes (11 ∷ []) 12 (13 ∷ 14 ∷ []) changes-IsList (omega arith) refl
      linked_items.0

appendtochangelist-last_example :
    (t' : Table) × (appendtochangelist changes 11 ≡ some ((6 + 1) % 2 ^ 64, t'))
    × IsList t' (12 ∷ 13 ∷ 14 ∷ 11 ∷ [])
    × (t'.rtt_version ≡ (6 + 1) % 2 ^ 64)
    × (t'.rth_version 11 ≡ t'.rtt_version)
    × ((m : Ptr)
        → m ≢ 11
        → (t'.rth_version m ≡ changes.rth_version m) × (t'.rdcl_flags m ≡ changes.rdcl_flags m))
appendtochangelist-last_example =
    appendtochangelist-last changes 11 (12 ∷ 13 ∷ 14 ∷ [])
      (listed [] (12 ∷ 13 ∷ 14 ∷ []) changes-IsList refl linked_items.1) (λ e. omega (arith, e))

procverwrap-Numbered_example :
    (t' : Table) × (procverwrap 5 changes
      ≡ some (total changes.rdcl_flags (11 ∷ 12 ∷ 13 ∷ 14 ∷ []) 0, t'))
    × Numbered changes.rdcl_flags t'.rth_version (11 ∷ 12 ∷ 13 ∷ 14 ∷ []) 0
    × IsList t' (11 ∷ 12 ∷ 13 ∷ 14 ∷ [])
    × ((m : Ptr)
        → has m (11 ∷ 12 ∷ 13 ∷ 14 ∷ []) ≡ false
        → t'.rth_version m ≡ changes.rth_version m)
procverwrap-Numbered_example =
    procverwrap-Numbered 5 changes (11 ∷ 12 ∷ 13 ∷ 14 ∷ []) changes-IsList (omega arith)

-- What a walk has visited, and what is behind 11 then.
abbrev seen : Option (ℤ × List Ptr × Table) → List Ptr
seen none = []
seen (some (ret, hs, t)) = t.rdcl_cl.next 11 ∷ t.rth_version 12 ∷ hs

-- A callback that logs the head, and returns `ret`.
abbrev log : ℤ → WalkFn (List Ptr)
log ret h hs t = (ret, h ∷ hs, t)

-- A walk that is stopped at 13 below 0 comes back in front of it, and one up to version 4 does not call.
walk_runs :
    (seen (walkchangelist 4 changes 12 (log (negsuc 0)) (pos 0) 9 []) ≡ 12 ∷ 0 ∷ 13 ∷ [])
    × (seen (walkchangelist 4 changes 12 (log (pos 1)) (pos 0) 9 []) ≡ 13 ∷ 5 ∷ 13 ∷ [])
    × (seen (walkchangelist 4 changes 12 (log (pos 0)) (pos 0) 4 []) ≡ 12 ∷ 4 ∷ [])
    × (seen (walkchangelist 4 changes 12 (log (pos 0)) (pos 1) 9 []) ≡ 13 ∷ 5 ∷ 13 ∷ [])
unfolding walkchangelist walk_loop is_linked remove insertatback insertafter insertbefore
    LinkedList.getnext ◌-ℤ◌
walk_runs = (refl, refl, refl, refl)

-- The fields of the marker 12 and of 13, and the counter.
abbrev marks : Option Table → List ℕ
marks none = []
marks (some t) = t.rdcl_cl.next 90 ∷ t.rdcl_cl.next 13 ∷ t.rdcl_flags 12 ∷ t.rth_version 12 ∷ []

abbrev painted : Option (ℕ × Table) → List ℕ
painted none = []
painted (some (v, t)) =
    v ∷ t.rth_version 11 ∷ t.rth_version 12 ∷ t.rth_version 13 ∷ t.rth_version 14 ∷ []

walker_runs :
    (marks (walkconstructor changes 12) ≡ 12 ∷ 14 ∷ 2 ∷ 0 ∷ [])
    × (marks (walkconstructorafter changes 14 12) ≡ 11 ∷ 14 ∷ 2 ∷ 0 ∷ [])
    × (marks (walkconstructorafter changes 11 12) ≡ [])
    × (marks (walkdestructor changes 12) ≡ 11 ∷ 14 ∷ 0 ∷ 0 ∷ [])
    × (painted (procverwrap 5 changes) ≡ 2 ∷ 1 ∷ 1 ∷ 2 ∷ 2 ∷ [])
unfolding walkconstructor walkconstructorafter walkdestructor procverwrap paint_loop is_linked
    remove insertatfront insertafter LinkedList.getnext LinkedList.getfirst ◌-ℤ◌
walker_runs = (refl, refl, refl, refl, refl)
