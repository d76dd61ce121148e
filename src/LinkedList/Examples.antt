-- ===== src/LinkedList/Examples.antt =====
-- A list of three nodes, built by the operations, and the theorems at it.
use opx_common_utils.Prelude.{
  ◌≡◌, refl, true, false, none, some, [], ◌∷◌, arith, ◌==◌, ltb, if◌then◌else◌,
}
use opx_common_utils.Prelude.Int.{pos, negsuc}
use opx_common_utils.LinkedList.{
  Ptr, Store, Head, Compare, key_less, is_linked, init, insertafter, remove, insert,
}
use opx_common_utils.LinkedList.Chain.{IsDll}
use opx_common_utils.LinkedList.Splice.{IsFresh}
use opx_common_utils.LinkedList.Insert.{init-IsDll, insertafter-middle}
use opx_common_utils.LinkedList.Remove.{remove-middle}
use opx_common_utils.LinkedList.Sorted.{insert_item, IsSorted, insert-IsSorted}

abbrev blank : Store
blank = record { next = λ p. 0; back = λ p. 0 }

-- the end nodes at 100 and 200
abbrev plain : Head
plain = record { dll_magic = 0; head = 100; tail = 200; offset = 0; len = 0; compare = none }

empty : IsDll (init plain blank).0 (init plain blank).1 []
empty = init-IsDll plain blank (omega arith)

abbrev hd : Head
hd = record { dll_magic = 0xf10d_1f10; head = 100; tail = 200; offset = 0; len = 0; compare = none }

-- the list 2, 4
abbrev two : Store
two = record {
  next = λ p. if p == 100 then 2 else if p == 2 then 4 else if p == 4 then 200 else 0;
  back = λ p. if p == 200 then 4 else if p == 4 then 2 else if p == 2 then 100 else 0;
}

two-IsDll : IsDll hd two (2 ∷ 4 ∷ [])
two-IsDll = record {
  chain = (refl, refl, (refl, refl, (refl, refl, tt)));
  distinct = (refl, (refl, (refl, (refl, tt))));
  no_null = refl;
}

seven-IsFresh : IsFresh hd (2 ∷ 4 ∷ []) 7
seven-IsFresh = record { outside = refl; not_null = omega arith }

insertafter-middle_example :
    (st' : Store) × (insertafter hd 2 7 two ≡ some st') × IsDll hd st' (2 ∷ 7 ∷ 4 ∷ [])
insertafter-middle_example = insertafter-middle [] 2 (4 ∷ []) two-IsDll seven-IsFresh

remove-middle_example :
    IsDll hd (remove hd 2 two) (4 ∷ []) × (is_linked 2 (remove hd 2 two) ≡ false)
remove-middle_example = remove-middle [] 2 (4 ∷ []) two-IsDll

-- the key of the node at `p` is `p`
abbrev by_address : Compare
by_address p q len = if ltb p q then negsuc 0 else if p == q then pos 0 else pos 1

abbrev sorted_hd : Head
sorted_hd = record {
  dll_magic = 0;
  head = 100;
  tail = 200;
  offset = 0;
  len = 4;
  compare = some by_address;
}

by_address_asym :
    (a b : Ptr)
    → key_less sorted_hd by_address a b ≡ true
    → key_less sorted_hd by_address b a ≡ false
by_address_asym a b h = ground arith

sorted-IsDll : IsDll sorted_hd two (2 ∷ 4 ∷ [])
sorted-IsDll = record { chain = two-IsDll.chain; distinct = two-IsDll.distinct; no_null = refl }

insert-IsSorted_example :
    (st' : Store) × (insert 2 sorted_hd 3 two ≡ some st')
    × IsDll sorted_hd st' (insert_item (key_less sorted_hd by_address) 3 (2 ∷ 4 ∷ []))
    × IsSorted
        (key_less sorted_hd by_address)
        (insert_item (key_less sorted_hd by_address) 3 (2 ∷ 4 ∷ []))
insert-IsSorted_example =
    insert-IsSorted by_address 2 (2 ∷ 4 ∷ []) refl by_address_asym (omega arith) sorted-IsDll
      (record { outside = refl; not_null = omega arith }) (refl, tt)

-- The same node as the operations leave it.
sorted_run : insert_item (key_less sorted_hd by_address) 3 (2 ∷ 4 ∷ []) ≡ 2 ∷ 3 ∷ 4 ∷ []
sorted_run = refl
