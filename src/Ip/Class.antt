-- ===== src/Ip/Class.antt =====
-- The address classes, as tests of the bytes in network order.
use opx_common_utils.Prelude.{ℕ, ◌+◌, ◌*◌, ◌/◌, ◌^◌, ◌≡◌, ◌↔◌, true, arith, bit_and}
use opx_common_utils.Bits.Fields.{and_low_mask, and_shifted_mask}
use opx_common_utils.BitMask.{IsBytes}
use opx_common_utils.Ip.{
  IpAddr, inet4_family, htonl, v4_addr, is_v4_addr_loopback, is_ip_v4_linklocal_addr,
}

-- Four bytes in memory order, as a big-endian number.
htonl-v4_addr :
    (ip : IpAddr)
    → IsBytes ip.u
    → htonl (v4_addr ip) ≡ ip.u 0 * 2 ^ 24 + ip.u 1 * 2 ^ 16 + ip.u 2 * 2 ^ 8 + ip.u 3
unfolding htonl v4_addr
htonl-v4_addr ip bytes = omega (arith, bytes 0, bytes 1, bytes 2, bytes 3)

-- `std_ip_is_v4_addr_loopback` accepts exactly the address whose bytes in network order are 1.0.0.127.
pub is_v4_addr_loopback_iff :
    (ip : IpAddr)
    → IsBytes ip.u
    → (is_v4_addr_loopback ip ≡ true)
      ↔ ((ip.u 0 ≡ 1) × (ip.u 1 ≡ 0) × (ip.u 2 ≡ 0) × (ip.u 3 ≡ 127))
unfolding is_v4_addr_loopback
is_v4_addr_loopback_iff ip bytes =
    (λ h. ground (arith, bytes 0, bytes 1, bytes 2, bytes 3), λ h. ground arith)

-- `std_is_ip_v4_linklocal_addr` accepts exactly the IPv4 addresses that begin, in network order, with
-- the bytes 169 and 254.
pub is_ip_v4_linklocal_addr_iff :
    (ip : IpAddr)
    → IsBytes ip.u
    → (is_ip_v4_linklocal_addr ip ≡ true)
      ↔ ((ip.af_index ≡ inet4_family) × (ip.u 0 ≡ 169) × (ip.u 1 ≡ 254))
unfolding is_ip_v4_linklocal_addr
is_ip_v4_linklocal_addr_iff ip bytes =
    let v : ℕ = htonl (v4_addr ip) in
    let top : bit_and v (255 * 2 ^ 24) ≡ ip.u 0 * 2 ^ 24 = omega (
      arith,
      htonl-v4_addr ip bytes,
      and_shifted_mask 24 v 255,
      and_low_mask 8 (v / 2 ^ 24),
      bytes 0,
      bytes 1,
      bytes 2,
      bytes 3,
    ) in
    let next : bit_and v (255 * 2 ^ 16) ≡ ip.u 1 * 2 ^ 16 = omega (
      arith,
      htonl-v4_addr ip bytes,
      and_shifted_mask 16 v 255,
      and_low_mask 8 (v / 2 ^ 16),
      bytes 0,
      bytes 1,
      bytes 2,
      bytes 3,
    ) in
    (λ h. ground arith, λ h. ground arith)
