-- ===== src/Ip/Examples.antt =====
-- Runs of the conversions, and the theorems at concrete addresses.
use opx_common_utils.Prelude.{
  ℕ, none, ◌≡◌, ◌≢◌, ◌⊎◌, ◌↔◌, refl, true, false, some, arith, ◌==◌, if◌then◌else◌,
}
use opx_common_utils.Prelude.Int.{negsuc, pos, sub_ℕ}
use opx_common_utils.BitMask.{Bytes, IsBytes}
use opx_common_utils.Ip.{
  IpAddr, afindex_to_addr_len, v4_prefix_len_to_mask, v4_mask_to_prefix_len, v6_prefix_len_to_mask,
  v6_mask_to_prefix_len, cmp_ip_addr, is_v4_addr_loopback, ip_from_inet, htonl,
}
use opx_common_utils.Ip.Prefix4.{v4_mask_roundtrip}
use opx_common_utils.Ip.Prefix6.{v6_mask_roundtrip}
use opx_common_utils.Ip.Compare.{Compared, cmp_ip_addr-Compared}
use opx_common_utils.Ip.Class.{is_v4_addr_loopback_iff}

-- 169.254.0.7 and 169.254.1.2
abbrev local : IpAddr
local = record {
  af_index = 2;
  u = λ i. if i == 0 then 169 else if i == 1 then 254 else if i == 3 then 7 else 0;
}

abbrev other : IpAddr
other = record {
  af_index = 2;
  u = λ i.
      if i == 0 then 169 else if i == 1 then 254 else if i == 2 then 1 else if i == 3 then 2 else 0;
}

local-IsBytes : IsBytes local.u
local-IsBytes i = ground arith

abbrev blank : Bytes
blank i = 0xaa

-- For a length of 1 the subtraction overflows.
prefix_runs :
    (v4_prefix_len_to_mask 24 ≡ some 0xffff_ff00)
    × (v4_prefix_len_to_mask 1 ≡ none)
    × (v4_mask_to_prefix_len 0xfff0_0000 ≡ some (pos 12))
unfolding v4_prefix_len_to_mask v4_mask_to_prefix_len
prefix_runs = (refl, refl, refl)

-- 127.0.0.1 as `inet_addr` returns it
loopback_run : is_v4_addr_loopback (ip_from_inet local (htonl 0x7f00_0001)) ≡ false
unfolding is_v4_addr_loopback ip_from_inet htonl
loopback_run = refl

v4_mask_roundtrip_example :
    (mask : ℕ) × (v4_prefix_len_to_mask 19 ≡ some mask)
    × (v4_mask_to_prefix_len mask ≡ some (pos 19))
v4_mask_roundtrip_example = v4_mask_roundtrip 19 (omega arith) (λ e. omega (arith, e))

v6_mask_roundtrip_example :
    v6_mask_to_prefix_len (v6_prefix_len_to_mask (some blank) 16 61) 16 ≡ some (pos 61)
v6_mask_roundtrip_example =
    v6_mask_roundtrip blank 16 61 (omega arith) (omega arith) (omega arith) (omega arith)

cmp_ip_addr-Compared_example :
    ((local.af_index ≡ other.af_index)
      × Compared local.u other.u 0 (afindex_to_addr_len 2) (cmp_ip_addr local other))
    ⊎ ((local.af_index ≢ other.af_index) × (cmp_ip_addr local other ≡ sub_ℕ 2 2))
cmp_ip_addr-Compared_example = cmp_ip_addr-Compared local other (omega arith) (omega arith)

cmp_runs : cmp_ip_addr local other ≡ negsuc 0
unfolding cmp_ip_addr
cmp_runs = refl

is_v4_addr_loopback_iff_example :
    (is_v4_addr_loopback local ≡ true)
    ↔ ((local.u 0 ≡ 1) × (local.u 1 ≡ 0) × (local.u 2 ≡ 0) × (local.u 3 ≡ 127))
is_v4_addr_loopback_iff_example = is_v4_addr_loopback_iff local local-IsBytes
