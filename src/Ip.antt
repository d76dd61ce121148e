-- ===== src/Ip.antt =====
-- src/std_ip_utils.c and the macros of inc/opx/std_ip_utils.h on a little-endian host. A buffer is the
-- memory from its pointer on; the union of an address is its sixteen bytes.
pub mod Prefix4
pub mod Prefix6
pub mod Compare
pub mod Class
mod Examples
use mathlib.Core.Option
use opx_common_utils.Prelude.{
  ℕ, zero, suc, ◌+◌, ◌-◌, ◌*◌, ◌/◌, ◌%◌, ◌^◌, ◌<◌, bit_and, ◌≡◌, Bool, true, false, not, ◌&&◌, List,
  [], ◌∷◌, Option, none, some, ◌==◌, ltb, leb, if◌then◌else◌, get_or,
}
use opx_common_utils.Prelude.Int.{ℤ, pos, negsuc, to_int, signed32, eq_ℤ}
use opx_common_utils.Bits.Words.{not32, shl32}
use opx_common_utils.BitMask.{Bytes, store}
use opx_common_utils.ErrorCode.{err_mk, err_ok, std_err}
use opx_common_utils.ErrorCode.Ids.{route, fail}

-- `memset(p, v, n)` and `memcpy(p, q, n)`
unfoldable pub memset : Bytes → ℕ → ℕ → ℕ → Bytes
memset m p v n i = if leb p i && ltb i (p + n) then v else m i

-- the byte of a word at address `i` of its little-endian representation
unfoldable pub le_byte : ℕ → ℕ → ℕ
le_byte x i = x / 256 ^ i % 256

unfoldable pub htonl : ℕ → ℕ
unfolding le_byte
htonl x = le_byte x 0 * 2 ^ 24 + le_byte x 1 * 2 ^ 16 + le_byte x 2 * 2 ^ 8 + le_byte x 3

-- `std_ip_v4_prefix_len_to_mask`. `1 << n` is an `int`: 1 << 31 is -2^31, and to take 1 from it overflows.
unfoldable pub v4_prefix_len_to_mask : ℕ → Option ℕ
v4_prefix_len_to_mask prefix_len =
    let shifted = shl32 1 (8 * 4 - prefix_len) in
    if ltb (8 * 4) prefix_len
    then some 0
    else if prefix_len == 0
    then some (not32 0xffff_ffff)
    else if shifted == 2 ^ 31
    then none
    else some (not32 (shifted - 1))

abbrev mask_val : List ℕ
mask_val = 0x00 ∷ 0x80 ∷ 0xc0 ∷ 0xe0 ∷ 0xf0 ∷ 0xf8 ∷ 0xfc ∷ 0xfe ∷ []

-- `std_ip_v6_prefix_len_to_mask`; no memory stands for a null pointer. `size_t` has 64 bits, and the
-- length is an `unsigned int`.
unfoldable pub v6_prefix_len_to_mask : Option Bytes → ℕ → ℕ → Option Bytes
unfolding memset
v6_prefix_len_to_mask none mask_len prefix_len = none
v6_prefix_len_to_mask (some m) mask_len prefix_len32 =
    let prefix_len = prefix_len32 % 2 ^ 32 in
    let nbytes = prefix_len / 8 in
    let filled = memset m 0 0xff nbytes in
    let left = (mask_len + 2 ^ 64 - nbytes) % 2 ^ 64 in
    let partial = store filled nbytes (get_or mask_val (prefix_len % 8) 0) in
    if prefix_len == 0
    then some m
    else if left == 0
    then some filled
    else some (memset partial (nbytes + 1) 0 (left - 1))

-- the table that both conversions back to a length hold
unfoldable pub bit_pos : List ℕ
bit_pos =
    0 ∷ 0 ∷ 0 ∷ 0 ∷ 0 ∷ 0 ∷ 0 ∷ 0 ∷ 0 ∷ 0 ∷ 0 ∷ 0 ∷ 0 ∷ 0 ∷ 0 ∷ 0 ∷ 0 ∷ 0 ∷ 0 ∷ 0 ∷ 0 ∷ 0 ∷ 0 ∷ 0
    ∷ 0 ∷ 0 ∷ 0 ∷ 0 ∷ 0 ∷ 0 ∷ 0 ∷ 0 ∷ 0 ∷ 0 ∷ 0 ∷ 0 ∷ 0 ∷ 0 ∷ 0 ∷ 0 ∷ 0 ∷ 0 ∷ 0 ∷ 0 ∷ 0 ∷ 0 ∷ 0 ∷ 0
    ∷ 0 ∷ 0 ∷ 0 ∷ 0 ∷ 0 ∷ 0 ∷ 0 ∷ 0 ∷ 0 ∷ 0 ∷ 0 ∷ 0 ∷ 0 ∷ 0 ∷ 0 ∷ 0 ∷ 0 ∷ 0 ∷ 0 ∷ 0 ∷ 0 ∷ 0 ∷ 0 ∷ 0
    ∷ 0 ∷ 0 ∷ 0 ∷ 0 ∷ 0 ∷ 0 ∷ 0 ∷ 0 ∷ 0 ∷ 0 ∷ 0 ∷ 0 ∷ 0 ∷ 0 ∷ 0 ∷ 0 ∷ 0 ∷ 0 ∷ 0 ∷ 0 ∷ 0 ∷ 0 ∷ 0 ∷ 0
    ∷ 0 ∷ 0 ∷ 0 ∷ 0 ∷ 0 ∷ 0 ∷ 0 ∷ 0 ∷ 0 ∷ 0 ∷ 0 ∷ 0 ∷ 0 ∷ 0 ∷ 0 ∷ 0 ∷ 0 ∷ 0 ∷ 0 ∷ 0 ∷ 0 ∷ 0 ∷ 0 ∷ 0
    ∷ 0 ∷ 0 ∷ 0 ∷ 0 ∷ 0 ∷ 0 ∷ 0 ∷ 0 ∷ 1 ∷ 0 ∷ 0 ∷ 0 ∷ 0 ∷ 0 ∷ 0 ∷ 0 ∷ 0 ∷ 0 ∷ 0 ∷ 0 ∷ 0 ∷ 0 ∷ 0 ∷ 0
    ∷ 0 ∷ 0 ∷ 0 ∷ 0 ∷ 0 ∷ 0 ∷ 0 ∷ 0 ∷ 0 ∷ 0 ∷ 0 ∷ 0 ∷ 0 ∷ 0 ∷ 0 ∷ 0 ∷ 0 ∷ 0 ∷ 0 ∷ 0 ∷ 0 ∷ 0 ∷ 0 ∷ 0
    ∷ 0 ∷ 0 ∷ 0 ∷ 0 ∷ 0 ∷ 0 ∷ 0 ∷ 0 ∷ 0 ∷ 0 ∷ 0 ∷ 0 ∷ 0 ∷ 0 ∷ 0 ∷ 0 ∷ 0 ∷ 0 ∷ 0 ∷ 0 ∷ 0 ∷ 0 ∷ 0 ∷ 0
    ∷ 2 ∷ 0 ∷ 0 ∷ 0 ∷ 0 ∷ 0 ∷ 0 ∷ 0 ∷ 0 ∷ 0 ∷ 0 ∷ 0 ∷ 0 ∷ 0 ∷ 0 ∷ 0 ∷ 0 ∷ 0 ∷ 0 ∷ 0 ∷ 0 ∷ 0 ∷ 0 ∷ 0
    ∷ 0 ∷ 0 ∷ 0 ∷ 0 ∷ 0 ∷ 0 ∷ 0 ∷ 0 ∷ 3 ∷ 0 ∷ 0 ∷ 0 ∷ 0 ∷ 0 ∷ 0 ∷ 0 ∷ 0 ∷ 0 ∷ 0 ∷ 0 ∷ 0 ∷ 0 ∷ 0 ∷ 0
    ∷ 4 ∷ 0 ∷ 0 ∷ 0 ∷ 0 ∷ 0 ∷ 0 ∷ 0 ∷ 5 ∷ 0 ∷ 0 ∷ 0 ∷ 6 ∷ 0 ∷ 7 ∷ 8 ∷ []

-- `for (ix = 0; ix < n; ++ix) prefix_len += bit_pos[mask_ptr[ix]];`, by the rounds left; the sum is an
-- `int`, and gives no result where it overflows
unfoldable pub prefix_len_loop : Bytes → ℕ → ℕ → ℕ → Option ℤ
unfolding bit_pos
prefix_len_loop m zero ix prefix_len = some (pos prefix_len)
prefix_len_loop m (suc n) ix prefix_len =
    let sum = prefix_len + get_or bit_pos (m ix) 0 in
    let rest = prefix_len_loop m n (ix + 1) sum in if ltb sum (2 ^ 31) then rest else none

unfoldable pub v4_mask_to_prefix_len : ℕ → Option ℤ
unfolding le_byte htonl prefix_len_loop
v4_mask_to_prefix_len in_mask =
    let swapped = htonl in_mask in
    if swapped == 0 then some (pos 0) else prefix_len_loop (le_byte swapped) 4 0 0

unfoldable pub v6_mask_to_prefix_len : Option Bytes → ℕ → Option ℤ
unfolding prefix_len_loop
v6_mask_to_prefix_len none addr_len = some (pos 0)
v6_mask_to_prefix_len (some m) addr_len = prefix_len_loop m addr_len 0 0

-- `hal_ip_addr_t`
pub record IpAddr : Type 0 where
  pub af_index : ℕ
  pub u : Bytes

abbrev pub inet4_family : ℕ
inet4_family = 2

abbrev pub inet6_family : ℕ
inet6_family = 10

abbrev pub inet4_len : ℕ
inet4_len = 4

abbrev pub inet6_len : ℕ
inet6_len = 16

-- `u.v4_addr`, and the bytes that a store to it leaves
unfoldable pub v4_addr : IpAddr → ℕ
v4_addr ip = ip.u 0 + ip.u 1 * 2 ^ 8 + ip.u 2 * 2 ^ 16 + ip.u 3 * 2 ^ 24

unfoldable pub set_v4_addr : Bytes → ℕ → Bytes
unfolding le_byte
set_v4_addr u x i = if ltb i 4 then le_byte x i else u i

abbrev is_afindex_v4 : ℕ → Bool
is_afindex_v4 af_index = af_index == inet4_family

abbrev pub afindex_to_addr_len : ℕ → ℕ
afindex_to_addr_len af_index = if af_index == inet4_family then inet4_len else inet6_len

-- `std_ip_get_mask_from_prefix_len`: the code, and the mask where the pointer is not null; no result
-- where the conversion has none
unfoldable pub get_mask_from_prefix_len : ℕ → ℕ → Option IpAddr → Option (ℕ × Option IpAddr)
unfolding v4_prefix_len_to_mask v6_prefix_len_to_mask set_v4_addr err_mk
get_mask_from_prefix_len af_index prefix_len none = some (std_err route fail 0, none)
get_mask_from_prefix_len af_index prefix_len (some ip) =
    let zeros : Bytes = λ i. if ltb i inet6_len then 0 else ip.u i in
    let bytes =
      if is_afindex_v4 af_index
      then Option.map (set_v4_addr zeros) (v4_prefix_len_to_mask prefix_len)
      else v6_prefix_len_to_mask (some zeros) inet6_len prefix_len in
    Option.map (λ b. (err_ok, some (record { af_index = af_index; u = b }))) bytes

-- `memcmp(p, q, n)`: the sign of the first difference, as -1, 0 or 1, by the rounds left
unfoldable pub memcmp : Bytes → Bytes → ℕ → ℕ → ℤ
memcmp a b zero ix = pos 0
memcmp a b (suc n) ix =
    let rest = memcmp a b n (ix + 1) in
    if ltb (a ix) (b ix) then negsuc 0 else if ltb (b ix) (a ix) then pos 1 else rest

-- `std_ip_cmp_ip_addr`; the difference of the families is an `unsigned int` taken as an `int`
unfoldable pub cmp_ip_addr : IpAddr → IpAddr → ℤ
unfolding memcmp
cmp_ip_addr ip1 ip2 =
    if ip1.af_index == ip2.af_index
    then memcmp ip1.u ip2.u (afindex_to_addr_len ip1.af_index) 0
    else to_int (ip1.af_index + 2 ^ 32 - ip2.af_index)

unfoldable pub is_v4_addr_loopback : IpAddr → Bool
unfolding v4_addr
is_v4_addr_loopback ip = v4_addr ip == 0x7f00_0001

abbrev v6_loopback_addr : Bytes
v6_loopback_addr i = if i == 15 then 1 else 0

unfoldable pub is_v6_addr_loopback : IpAddr → Bool
unfolding memcmp
is_v6_addr_loopback ip = eq_ℤ (memcmp ip.u v6_loopback_addr inet6_len 0) (pos 0)

unfoldable pub is_v6_addr_zero : IpAddr → Bool
unfolding memcmp
is_v6_addr_zero ip = eq_ℤ (memcmp ip.u (λ _. 0) inet6_len 0) (pos 0)

-- `STD_IP_IS_ADDR_ZERO`, `STD_IP_IS_ADDR_LOOP_BACK`, `STD_IP_IS_ADDR_LINK_LOCAL`
unfoldable pub is_addr_zero : IpAddr → Bool
unfolding v4_addr is_v6_addr_zero
is_addr_zero ip = if ip.af_index == inet4_family then v4_addr ip == 0 else is_v6_addr_zero ip

unfoldable pub is_addr_loop_back : IpAddr → Bool
unfolding is_v4_addr_loopback is_v6_addr_loopback
is_addr_loop_back ip =
    if ip.af_index == inet4_family then is_v4_addr_loopback ip else is_v6_addr_loopback ip

unfoldable pub is_addr_link_local : IpAddr → Bool
is_addr_link_local ip =
    if ip.af_index == inet6_family
    then bit_and (ip.u 0) 0xff == 0xfe && bit_and (ip.u 1) 0xc0 == 0x80
    else false

-- `std_is_ip_v4_linklocal_addr`
unfoldable pub is_ip_v4_linklocal_addr : IpAddr → Bool
unfolding v4_addr htonl
is_ip_v4_linklocal_addr ip =
    ip.af_index == inet4_family
    && bit_and (htonl (v4_addr ip)) (0xff * 2 ^ 24) == 0xa9 * 2 ^ 24
    && bit_and (htonl (v4_addr ip)) (0xff * 2 ^ 16) == 0xfe * 2 ^ 16

-- `std_ip_from_inet` and `std_ip_from_inet6`
unfoldable pub ip_from_inet : IpAddr → ℕ → IpAddr
unfolding set_v4_addr
ip_from_inet ip s_addr = record {
  af_index = inet4_family;
  u = set_v4_addr (λ i. if ltb i inet6_len then 0 else ip.u i) s_addr;
}

unfoldable pub ip_from_inet6 : IpAddr → Bytes → IpAddr
ip_from_inet6 ip addr = record {
  af_index = inet6_family;
  u = λ i. if ltb i inet6_len then addr i else ip.u i;
}
