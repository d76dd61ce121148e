-- ===== src/Radix/Insert.antt =====
-- `std_radix_insert` of src/std_radix.c. What the caller's allocation gives for the two nodes that it may
-- ask for, and whether the buffer of a key is allocated, are parameters; what is freed is not used again.
use opx_common_utils.Prelude.{
  ℕ, zero, suc, ◌+◌, ◌-◌, ◌/◌, ◌%◌, ◌^◌, Bool, true, false, ◌&&◌, ◌||◌, not, Option, none, some,
  ◌==◌, ltb, min, bit_and, bit_xor, get_or, if◌then◌else◌,
}
use opx_common_utils.Prelude.Int.{pos, eq_ℤ}
use opx_common_utils.BitMask.{Bytes}
use opx_common_utils.Ip.{memcmp}
use opx_common_utils.LinkedList.{set_next, set_back}
use opx_common_utils.Bits.Words.{shr}
use opx_common_utils.Radix.First.{first_bit_set}
use opx_common_utils.Radix.{Ptr, null, Table, rn_byte, rn_bit, bit_test, is_deleted}

abbrev pub set_at {ℓ} : {A : Type ℓ} → (Ptr → A) → Ptr → A → Ptr → A
set_at f p v q = if q == p then v else f q

-- `n + 1` of an `u_long`
abbrev pub up : ℕ → ℕ
up n = (n + 1) % 2 ^ 64

-- The bytes of a key.
abbrev pub key_bytes : Table → ℕ
key_bytes t = (t.rtt_maxaddrlen + 7) / 8

abbrev pub set_key : Ptr → Bytes → Table → Table
set_key rth temp t = record t {
  rdx_rth_addr =
      set_at t.rdx_rth_addr rth (λ i. if ltb i (key_bytes t) then temp i else t.rdx_rth_addr rth i);
  rth_keyed = set_at t.rth_keyed rth true;
  rth_magic = set_at t.rth_magic rth true;
}

-- The key of the head: none where an assertion fails, and none inside where the buffer is not allocated.
unfoldable pub prepare : Table → Ptr → (buffer : Bool) → Option (Option Table)
unfolding memcmp
prepare t rth buffer = elim t.rtt_convert [
  | none ↦ elim (t.rth_addr rth) [
    | none ↦ none
    | some a ↦ some (
        some (record t {
          rdx_rth_addr = set_at t.rdx_rth_addr rth a;
          rth_keyed = set_at t.rth_keyed rth true;
        }))
  ]
  | some f ↦ elim (t.rth_addr rth) [
    | none ↦ none
    | some a ↦
        if not (t.rth_keyed rth)
        then some (if buffer then some (set_key rth (f a) t) else none)
        else if t.rth_magic rth
        then (if eq_ℤ (memcmp (t.rdx_rth_addr rth) (f a) (key_bytes t) 0) (pos 0)
            then some (some t)
            else none)
        else none
  ]
]

-- The fields that the debug mode clears.
unfoldable pub cleared : Ptr → Table → Table
cleared rth t =
    let t1 = record t {
      rth_rtn = set_at t.rth_rtn rth null;
      rth_version = set_at t.rth_version rth 0;
    } in
    if t.rtt_radicalused || t.rtt_carused
    then record t1 {
      rdcl_flags = set_at t1.rdcl_flags rth 0;
      rdcl_cl = set_back rth null (set_next rth null t1.rdcl_cl);
    }
    else t1

-- `memset` of a node and `RN_SETBIT`
abbrev pub new_node : Ptr → (bitlen : ℕ) → Table → Table
new_node n bitlen t = record t {
  rtn_left = set_at t.rtn_left n null;
  rtn_right = set_at t.rtn_right n null;
  rtn_parent = set_at t.rtn_parent n null;
  rtn_bit = set_at t.rtn_bit n bitlen;
  rtn_tbit = set_at t.rtn_tbit n (rn_bit bitlen);
  rtn_flags = set_at t.rtn_flags n 0;
  rtn_lock = set_at t.rtn_lock n 0;
  rtn_version = set_at t.rtn_version n 0;
  rtn_rth = set_at t.rtn_rth n null;
  rtt_inodes = up t.rtt_inodes;
  rtt_nmalloc = up t.rtt_nmalloc;
}

-- The new node with its head.
abbrev pub head_node : Ptr → Ptr → (bitlen : ℕ) → Table → Table
head_node n rth bitlen t =
    let t1 = new_node n bitlen t in
    record t1 { rtn_rth = set_at t1.rtn_rth n rth; rth_rtn = set_at t1.rth_rtn rth n }

-- The loop down to a node with a head, on fuel.
unfoldable pub down_to_head : ℕ → Table → Bytes → (bitlen : ℕ) → Ptr → Option Ptr
down_to_head zero t addr bitlen rtn = none
down_to_head (suc fuel) t addr bitlen rtn =
    let to_right = down_to_head fuel t addr bitlen (t.rtn_right rtn) in
    let to_left = down_to_head fuel t addr bitlen (t.rtn_left rtn) in
    if ltb (t.rtn_bit rtn) bitlen || t.rtn_rth rtn == null
    then (if bit_test (addr (rn_byte (t.rtn_bit rtn))) (t.rtn_tbit rtn)
        then (if t.rtn_right rtn == null then some rtn else to_right)
        else if t.rtn_left rtn == null
        then some rtn
        else to_left)
    else some rtn

-- The loop that compares the keys by bytes, on fuel; `dbit` has 16 bits.
unfoldable pub differ_loop : ℕ → (addr his_addr : Bytes) → (bits2chk dbit : ℕ) → Option ℕ
unfolding first_bit_set
differ_loop zero addr his_addr bits2chk dbit = none
differ_loop (suc fuel) addr his_addr bits2chk dbit =
    let further = differ_loop fuel addr his_addr bits2chk ((dbit + 8) % 2 ^ 16) in
    let i = shr dbit 3 in
    if not (ltb dbit bits2chk)
    then some dbit
    else if addr i == his_addr i
    then further
    else some ((dbit + get_or first_bit_set (bit_xor (addr i) (his_addr i)) 0) % 2 ^ 16)

-- The loop up while the parent's bit is not before `dbit`, on fuel.
unfoldable pub up_to_bit : ℕ → Table → (dbit : ℕ) → Ptr → Option Ptr
up_to_bit zero t dbit rtn = none
up_to_bit (suc fuel) t dbit rtn =
    let further = up_to_bit fuel t dbit (t.rtn_parent rtn) in
    if t.rtn_parent rtn == null || ltb (t.rtn_bit (t.rtn_parent rtn)) dbit
    then some rtn
    else further

-- The head comes to a node that is there.
unfoldable pub join : Ptr → Ptr → Table → Ptr × Table
join rtn rth t =
    let old = t.rtn_rth rtn in
    let t1 = if old == null then t else record t {
      rth_keyed = set_at t.rth_keyed old false;
      rtt_nusrfrees = if t.rtt_rmfree then up t.rtt_nusrfrees else t.rtt_nusrfrees;
    } in
    if not (is_deleted t rtn) && not (old == null) then (old, t) else (
      rth,
      record t1 {
        rtn_rth = set_at t1.rtn_rth rtn rth;
        rth_rtn = set_at t1.rth_rtn rth rtn;
        rtn_flags = set_at t1.rtn_flags rtn (bit_and (t1.rtn_flags rtn) 253);
        rtt_routes = up t1.rtt_routes;
      },
    )

-- The new node as a child of `rtn`.
unfoldable pub below : Ptr → Ptr → Bytes → Table → Option Table
below rtn add addr t =
    let t1 = record t { rtn_parent = set_at t.rtn_parent add rtn; rtt_routes = up t.rtt_routes } in
    if bit_test (addr (rn_byte (t.rtn_bit rtn))) (t.rtn_tbit rtn)
    then (if t1.rtn_right rtn == null
        then some (record t1 { rtn_right = set_at t1.rtn_right rtn add })
        else none)
    else if t1.rtn_left rtn == null
    then some (record t1 { rtn_left = set_at t1.rtn_left rtn add })
    else none

-- `top` comes to the place of `rtn`, below `prev` or as the root.
unfoldable pub hang : (prev rtn top : Ptr) → Table → Option Table
hang prev rtn top t =
    let t1 = record t {
      rtn_parent = set_at (set_at t.rtn_parent rtn top) top prev;
      rtn_version = set_at t.rtn_version top (t.rtn_version rtn);
      rtt_routes = up t.rtt_routes;
    } in
    if prev == null
    then some (record t1 { rtt_root = top })
    else if t1.rtn_right prev == rtn
    then some (record t1 { rtn_right = set_at t1.rtn_right prev top })
    else if t1.rtn_left prev == rtn
    then some (record t1 { rtn_left = set_at t1.rtn_left prev top })
    else none

-- One of the two nodes above the other: `rtn` below `add` on the side of its own key.
unfoldable pub over : (rtn add : Ptr) → Bytes → Table → Table
over rtn add his_addr t =
    if bit_test (his_addr (rn_byte (t.rtn_bit add))) (t.rtn_tbit add)
    then record t { rtn_right = set_at t.rtn_right add rtn }
    else record t { rtn_left = set_at t.rtn_left add rtn }

-- The split: `add` on the side of the new key, `rtn` on the other.
unfoldable pub split : (rtn add new : Ptr) → Bytes → Table → Table
split rtn add new addr t0 =
    let t = record t0 { rtn_parent = set_at t0.rtn_parent add new } in
    if bit_test (addr (rn_byte (t.rtn_bit new))) (t.rtn_tbit new)
    then record t { rtn_right = set_at t.rtn_right new add; rtn_left = set_at t.rtn_left new rtn }
    else record t { rtn_left = set_at t.rtn_left new add; rtn_right = set_at t.rtn_right new rtn }

abbrev pub done : Ptr → Option Table → Option (Ptr × Table)
done rth none = none
done rth (some t) = some (rth, t)

-- What follows the loops: `rtn` is the node that they found, `dbit` the bit of the difference.
unfoldable pub insert_at :
    Table
    → (rth : Ptr) → (bitlen : ℕ) → (his_addr : Bytes) → (dbit : ℕ) → (rtn add new : Ptr)
    → Option (Ptr × Table)
unfolding join below hang over split
insert_at t rth bitlen his_addr dbit rtn add new =
    let addr = t.rdx_rth_addr rth in
    let prev = t.rtn_parent rtn in
    let t1 = head_node add rth bitlen t in
    let t2 = new_node new dbit t1 in
    if dbit == bitlen && t.rtn_bit rtn == bitlen
    then some (join rtn rth t)
    else if add == null
    then some (null, t)
    else if t1.rtn_bit rtn == dbit
    then (if ltb dbit bitlen then done rth (below rtn add addr t1) else none)
    else if dbit == bitlen
    then done rth (hang prev rtn add (over rtn add his_addr t1))
    else if new == null
    then some (
      null,
      record t1 { rtt_nfree = up t1.rtt_nfree; rtt_inodes = (t1.rtt_inodes + 2 ^ 64 - 1) % 2 ^ 64 },
    )
    else done rth (hang prev rtn new (split rtn add new addr t2))

-- The new entry where there is none yet.
unfoldable pub first_entry : Table → (rth : Ptr) → (bitlen : ℕ) → (add : Ptr) → Ptr × Table
first_entry t rth bitlen add =
    let t1 = head_node add rth bitlen t in
    if add == null
    then (null, t)
    else (rth, record t1 { rtt_root = add; rtt_routes = up t1.rtt_routes })

-- `std_radix_insert` of a head that has its key
unfoldable pub insert_head :
    ℕ → Table → (rth : Ptr) → (bitlen : ℕ) → (add new : Ptr) → Option (Ptr × Table)
unfolding down_to_head differ_loop up_to_bit insert_at first_entry
insert_head fuel t rth bitlen add new =
    let addr = t.rdx_rth_addr rth in
    if t.rtt_root == null
    then some (first_entry t rth bitlen add)
    else elim (down_to_head fuel t addr bitlen t.rtt_root) [
      | none ↦ none
      | some f ↦
          let bits2chk = min (t.rtn_bit f) bitlen in
          let his_addr = t.rdx_rth_addr (t.rtn_rth f) in
          if t.rtn_rth f == null
          then none
          else elim (differ_loop (bits2chk + 1) addr his_addr bits2chk 0) [
            | none ↦ none
            | some d ↦ elim (up_to_bit fuel t (min d bits2chk) f) [
              | none ↦ none
              | some rtn ↦ insert_at t rth bitlen his_addr (min d bits2chk) rtn add new
            ]
          ]
    ]

-- `std_radix_insert`
unfoldable pub insert :
    ℕ
    → Table
    → (rth : Ptr) → (bitlen : ℕ) → (buffer : Bool) → (add new : Ptr) → Option (Ptr × Table)
unfolding prepare cleared insert_head
insert fuel t rth bitlen buffer add new = elim (prepare t rth buffer) [
  | none ↦ none
  | some none ↦ some (null, t)
  | some (some t1) ↦
      let t2 = if t1.rtt_debug then cleared rth t1 else t1 in
      if t1.rtt_debug && ltb t1.rtt_maxaddrlen bitlen
      then some (null, t2)
      else insert_head fuel (record t2 { rtt_ninserts = up t2.rtt_ninserts }) rth bitlen add new
]
