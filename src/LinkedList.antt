-- ===== src/LinkedList.antt =====
-- src/std_llist.c and inc/opx/std_llist.h: doubly linked lists that are threaded through the caller's
-- nodes. The store has the two fields of the node at every address; the two end nodes of a list are
-- the fields `head` and `tail` of its `std_dll_head`.
pub mod Chain
pub mod Splice
pub mod Insert
pub mod Remove
pub mod Query
pub mod Sorted
mod Examples
use opx_common_utils.Prelude.{
  ℕ, zero, suc, ◌+◌, ◌≡◌, Bool, true, false, not, ◌&&◌, ◌||◌, Option, none, some, ◌==◌, ltb,
  if◌then◌else◌,
}
use opx_common_utils.Prelude.Int.{ℤ, pos, negsuc, ltb_ℤ}

abbrev pub Ptr : Type 0
Ptr = ℕ

abbrev pub null : Ptr
null = 0

-- `dll_next` and `dll_back`
pub record Store : Type 0 where
  pub next : Ptr → Ptr
  pub back : Ptr → Ptr

abbrev pub Compare : Type 0
Compare = Ptr → Ptr → ℕ → ℤ

-- `std_dll_head`, with the addresses of its end nodes
pub record Head : Type 0 where
  pub dll_magic : ℕ
  pub head : Ptr
  pub tail : Ptr
  pub offset : ℕ
  pub len : ℕ
  pub compare : Option Compare

abbrev pub set_at : (Ptr → Ptr) → Ptr → Ptr → Ptr → Ptr
set_at f p q r = if r == p then q else f r

abbrev pub set_next : Ptr → Ptr → Store → Store
set_next p q st = record st { next = set_at st.next p q }

abbrev pub set_back : Ptr → Ptr → Store → Store
set_back p q st = record st { back = set_at st.back p q }

abbrev dll_magic : ℕ
dll_magic = 0xf10d_1f10

-- `std_dll_init`
unfoldable pub init : Head → Store → Head × Store
init hd st =
    let st = set_back hd.head null (set_next hd.head hd.tail st) in
    let st = set_next hd.tail null (set_back hd.tail hd.head st) in
    (record hd { dll_magic = dll_magic; compare = none; len = 0; offset = 0 }, st)

-- `std_dll_init_sort`
unfoldable pub init_sort : Head → Compare → ℕ → ℕ → Store → Head × Store
unfolding init
init_sort hd compare offset len st =
    let (hd, st) = init hd st in
    (record hd { compare = some compare; offset = offset; len = len }, st)

-- `std_dll_islinked`
unfoldable pub is_linked : Ptr → Store → Bool
is_linked item st = not (st.next item == null) && not (st.back item == null)

unfoldable pub getfirst : Head → Store → Ptr
getfirst hd st = if st.next hd.head == hd.tail then null else st.next hd.head

unfoldable pub getlast : Head → Store → Ptr
getlast hd st = if st.back hd.tail == hd.head then null else st.back hd.tail

unfoldable pub getnext : Head → Ptr → Store → Ptr
getnext hd after st = if st.next after == hd.tail then null else st.next after

unfoldable pub getprev : Head → Ptr → Store → Ptr
getprev hd before st = if st.back before == hd.head then null else st.back before

unfoldable pub insertatfront : Head → Ptr → Store → Store
insertatfront hd new st =
    let st = set_next new (st.next hd.head) st in
    let st = set_back new hd.head st in
    let st = set_back (st.next hd.head) new st in set_next hd.head new st

unfoldable pub insertatback : Head → Ptr → Store → Store
insertatback hd new st =
    let st = set_next new hd.tail st in
    let st = set_back new (st.back hd.tail) st in
    let st = set_next (st.back hd.tail) new st in set_back hd.tail new st

-- A failed `assert` gives no store.
unfoldable pub insertafter : Head → Ptr → Ptr → Store → Option Store
insertafter hd after new st =
    let st1 = set_next new (st.next after) st in
    let st2 = set_back new after st1 in
    let st3 = set_back (st2.next after) new st2 in
    if after == null then none else some (set_next after new st3)

unfoldable pub insertbefore : Head → Ptr → Ptr → Store → Option Store
insertbefore hd before new st =
    let st1 = set_next new before st in
    let st2 = set_back new (st1.back before) st1 in
    let st3 = set_next (st2.back before) new st2 in
    if before == null then none else some (set_back before new st3)

unfoldable pub remove : Head → Ptr → Store → Store
remove hd item st =
    let front = st.back item in
    let back = st.next item in
    let st = set_next front back st in
    let st = set_back back front st in let st = set_back item null st in set_next item null st

-- whether the key of `new` is less than that of `node`
abbrev pub key_less : Head → Compare → Ptr → Ptr → Bool
key_less hd compare new node = ltb_ℤ (compare (new + hd.offset) (node + hd.offset) hd.len) (pos 0)

-- The loop of `std_dll_insert`, on fuel.
unfoldable pub insert_walk : ℕ → Head → Compare → Ptr → Ptr → Store → Option Store
insert_walk zero hd compare new walk st = none
insert_walk (suc fuel) hd compare new walk st =
    let further = insert_walk fuel hd compare new (st.next walk) st in
    if st.next walk == hd.tail || key_less hd compare new (st.next walk)
    then insertafter hd walk new st
    else further

-- The body of `std_dll_insert`, with the comparison of the head.
unfoldable pub insert_by : Option Compare → ℕ → Head → Ptr → Store → Option Store
insert_by none fuel hd new st = some (insertatback hd new st)
insert_by (some compare) fuel hd new st =
    if getfirst hd st == null || key_less hd compare new (st.next hd.head)
    then some (insertatfront hd new st)
    else insert_walk fuel hd compare new (st.next hd.head) st

unfoldable pub insert : ℕ → Head → Ptr → Store → Option Store
insert fuel hd new st = insert_by hd.compare fuel hd new st
