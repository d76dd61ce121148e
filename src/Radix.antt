-- ===== src/Radix.antt =====
-- src/std_radix.c: the nodes of a radix tree and the look ups in it. A node and a head are addresses,
-- with NULL for none, and their fields are functions from addresses. A key is its bytes; the
-- conversion of a key is the caller's, and its result stands for the buffer `temp` of the table, which
-- each look up fills before it reads it.
pub mod Compare
pub mod Shape
pub mod Descend
pub mod Best
pub mod Exact
pub mod Version
pub mod Insert
pub mod Fork
pub mod Good
pub mod Way
pub mod Spot
pub mod Grown
pub mod First
pub mod Differ
pub mod Atop
pub mod Steps
pub mod Under
pub mod Over
pub mod Split
pub mod Reached
pub mod Entries
pub mod Inserted
pub mod Heads
pub mod Whole
mod InsertExamples
pub mod Hung
pub mod Local
pub mod Joined
pub mod Leaf
pub mod Around
pub mod Upward
pub mod Examples
use opx_common_utils.Prelude.{
  ℕ, zero, suc, ◌+◌, ◌-◌, ◌*◌, ◌/◌, ◌%◌, ◌^◌, Bool, true, false, ◌&&◌, ◌||◌, not, Option, none,
  some, List, [], ◌∷◌, ◌==◌, ltb, leb, bit_and, bit_or, bit_xor, if◌then◌else◌,
}
use opx_common_utils.Prelude.Int.{ℤ, pos, negsuc, eq_ℤ}
use opx_common_utils.BitMask.{Bytes}
use opx_common_utils.Ip.{memcmp}
use opx_common_utils.LinkedList.{Store, Head}
use opx_common_utils.Bits.Words.{shr}

abbrev pub Ptr : Type 0
Ptr = ℕ

abbrev pub null : Ptr
null = 0

-- `rt_node`, `std_rt_head` with the fields of a radical head, and `std_rt_table`. That `rdx_rth_addr` is
-- not NULL is `rth_keyed`, and that `magic` is `RT_RTH_ADDR_MAGIC` is `rth_magic`. The links `rdcl_cl` of
-- the change list are at the address of their head.
pub record Table : Type 0 where
  pub rtn_left : Ptr → Ptr
  pub rtn_right : Ptr → Ptr
  pub rtn_parent : Ptr → Ptr
  pub rtn_bit : Ptr → ℕ
  pub rtn_tbit : Ptr → ℕ
  pub rtn_flags : Ptr → ℕ
  pub rtn_lock : Ptr → ℕ
  pub rtn_version : Ptr → ℕ
  pub rtn_rth : Ptr → Ptr
  pub rth_rtn : Ptr → Ptr
  pub rdx_rth_addr : Ptr → Bytes
  pub rth_addr : Ptr → Option Bytes
  pub rth_keyed : Ptr → Bool
  pub rth_magic : Ptr → Bool
  pub rth_version : Ptr → ℕ
  pub rdcl_flags : Ptr → ℕ
  pub rdcl_cl : Store
  pub rtt_root : Ptr
  pub rtt_version : ℕ
  pub rtt_inodes : ℕ
  pub rtt_routes : ℕ
  pub rtt_ninserts : ℕ
  pub rtt_nremoves : ℕ
  pub rtt_nmalloc : ℕ
  pub rtt_nfree : ℕ
  pub rtt_nusrfrees : ℕ
  pub rtt_nwraps : ℕ
  pub rtt_maxaddrlen : ℕ
  pub rtt_debug : Bool
  pub rtt_convert : Option (Bytes → Bytes)
  pub rtt_rmfree : Bool
  pub rtt_radicalused : Bool
  pub rtt_carused : Bool
  pub rtt_radicalinuse : ℤ
  pub rtt_clhead : Head

-- `RNBYTE`, `RNBIT`, `BIT_TEST`
abbrev pub rn_byte : ℕ → ℕ
rn_byte x = shr x 3

abbrev pub rn_bit : ℕ → ℕ
rn_bit x = shr 0x80 (x % 8)

abbrev pub bit_test : ℕ → ℕ → Bool
bit_test f b = not (bit_and f b == 0)

-- `RDX_TEST_BIT(flags, RDX_RN_DELE_BIT)`
abbrev pub is_deleted : Table → Ptr → Bool
is_deleted t rtn = bit_test (t.rtn_flags rtn) 2

-- `rdx_compare_address`, with `true` for 1
unfoldable pub compare_address : Bytes → Bytes → (tbyte tbit : ℕ) → Bool
compare_address ap1 ap2 tbyte tbit =
    let mask = 255 - bit_or tbit (tbit - 1) in
    if bit_test (bit_xor (ap1 tbyte) (ap2 tbyte)) mask
    then true
    else not (tbyte == 0) && not (eq_ℤ (memcmp ap1 ap2 tbyte 0) (pos 0))

-- `rtt_convert`, where the table has one
abbrev pub converted : Table → Bytes → Bytes
converted t addr = elim t.rtt_convert [ none ↦ addr | some f ↦ f addr ]

-- The loop down to a node whose bit number is the same as ours or larger, on fuel.
unfoldable pub descend : ℕ → Table → Bytes → (bitlen : ℕ) → Ptr → Option Ptr
descend zero t ap bitlen rtn = none
descend (suc fuel) t ap bitlen rtn =
    let to_right = descend fuel t ap bitlen (t.rtn_right rtn) in
    let to_left = descend fuel t ap bitlen (t.rtn_left rtn) in
    if not (rtn == null) && ltb (t.rtn_bit rtn) bitlen
    then (if bit_test (ap (rn_byte (t.rtn_bit rtn))) (t.rtn_tbit rtn)
        then (if t.rtn_right rtn == null then some rtn else to_right)
        else if t.rtn_left rtn == null
        then some rtn
        else to_left)
    else some rtn

-- Whether the key of the node's head is the address, as far as the node's bit number.
abbrev pub matches : Table → Bytes → Ptr → Bool
matches t addr rtn = not (
    compare_address addr (t.rdx_rth_addr (t.rtn_rth rtn)) (rn_byte (t.rtn_bit rtn))
      (t.rtn_tbit rtn))

-- The loop towards the root to the first node that matches, on fuel.
unfoldable pub backtrack : ℕ → Table → Bytes → (bitlen : ℕ) → Ptr → Option Ptr
backtrack zero t addr bitlen rtn = none
backtrack (suc fuel) t addr bitlen rtn =
    let further = backtrack fuel t addr bitlen (t.rtn_parent rtn) in
    if rtn == null
    then some null
    else if ltb bitlen (t.rtn_bit rtn)
    then further
    else if t.rtn_rth rtn == null
    then further
    else if matches t addr rtn
    then some rtn
    else further

-- The two loops of a look up for the best match, from the root.
unfoldable pub best_node : ℕ → Table → Bytes → (bitlen : ℕ) → Option Ptr
unfolding descend backtrack
best_node fuel t addr bitlen = elim (descend fuel t addr bitlen t.rtt_root) [
  | none ↦ none
  | some rtn ↦ backtrack fuel t addr bitlen rtn
]

-- The head of a node that is there and not marked as deleted.
abbrev pub live_head : Table → Ptr → Ptr
live_head t rtn = if rtn == null then null else if is_deleted t rtn then null else t.rtn_rth rtn

-- The checks that the look ups for the best match have in common.
abbrev pub refused : Table → (bitlen : ℕ) → Bool
refused t bitlen = t.rtt_debug && ltb t.rtt_maxaddrlen bitlen

-- `std_radix_getbest`
unfoldable pub getbest : ℕ → Table → Option Bytes → (bitlen : ℕ) → Option Ptr
unfolding best_node
getbest fuel t none bitlen = some null
getbest fuel t (some addr) bitlen =
    if refused t bitlen || t.rtt_root == null
    then some null
    else elim (best_node fuel t (converted t addr) bitlen) [
      | none ↦ none
      | some rtn ↦ some (live_head t rtn)
    ]

-- `std_radix_getbestandprev`: the best match, and what is written to `lessbest`, if anything.
unfoldable pub getbestandprev : ℕ → Table → Option Bytes → (bitlen : ℕ) → Option (Ptr × Option Ptr)
unfolding best_node backtrack
getbestandprev fuel t none bitlen = some (null, none)
getbestandprev fuel t (some addr) bitlen =
    if refused t bitlen || t.rtt_root == null
    then some (null, none)
    else elim (best_node fuel t (converted t addr) bitlen) [
      | none ↦ none
      | some rtn ↦
          if live_head t rtn == null
          then some (null, some null)
          else elim (backtrack fuel t (converted t addr) bitlen (t.rtn_parent rtn)) [
            | none ↦ none
            | some prev ↦ some (t.rtn_rth rtn, some (live_head t prev))
          ]
    ]

-- `std_radix_getnextbest`
unfoldable pub getnextbest : ℕ → Table → Option Bytes → (bitlen : ℕ) → Option Ptr
unfolding best_node backtrack
getnextbest fuel t none bitlen = some null
getnextbest fuel t (some addr) bitlen =
    if refused t bitlen || t.rtt_root == null
    then some null
    else elim (best_node fuel t (converted t addr) bitlen) [
      | none ↦ none
      | some rtn ↦
          if live_head t rtn == null
          then some null
          else elim (backtrack fuel t (converted t addr) bitlen (t.rtn_parent rtn)) [
            | none ↦ none
            | some prev ↦ some (live_head t prev)
          ]
    ]

-- The checks of `std_radix_getexact` on the node that it came down to.
unfoldable pub exact_head : Table → Bytes → (bitlen : ℕ) → Ptr → Ptr
exact_head t ap bitlen rtn =
    if rtn == null
    then null
    else if not (t.rtn_bit rtn == bitlen)
    then null
    else if t.rtn_rth rtn == null
    then null
    else if not (matches t ap rtn)
    then null
    else if is_deleted t rtn
    then null
    else t.rtn_rth rtn

-- `std_radix_getexact`: the address is checked and converted in debug mode only; otherwise a NULL
-- address is read, which gives no result, as soon as a byte of it is needed.
unfoldable pub getexact : ℕ → Table → Option Bytes → (bitlen : ℕ) → Option Ptr
unfolding descend exact_head
getexact fuel t none bitlen =
    if t.rtt_debug || t.rtt_root == null
    then some null
    else if ltb bitlen (t.rtn_bit t.rtt_root)
    then some null
    else if t.rtn_bit t.rtt_root == bitlen && t.rtn_rth t.rtt_root == null
    then some null
    else none
getexact fuel t (some addr) bitlen =
    let ap = if t.rtt_debug then converted t addr else addr in
    if refused t bitlen || t.rtt_root == null
    then some null
    else elim (descend fuel t ap bitlen t.rtt_root) [
      | none ↦ none
      | some rtn ↦ some (exact_head t ap bitlen rtn)
    ]
