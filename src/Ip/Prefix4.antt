-- ===== src/Ip/Prefix4.antt =====
-- IPv4 prefix lengths and masks: both conversions are run at every length.
use opx_common_utils.Prelude.{
  ℕ, ◌≤◌, ◌≡◌, ◌≢◌, refl, sym, ap, Bool, true, false, Option, none, some, arith, ◌==◌,
}
use mathlib.Core.Bool.{true≢false}
use opx_common_utils.Prelude.Int.{ℤ, pos, negsuc, eq_ℤ}
use opx_common_utils.Bits.Below.{all_below, all_below_at}
use opx_common_utils.Ip.{v4_prefix_len_to_mask, v4_mask_to_prefix_len}

roundtrip_check : ℕ → Bool
roundtrip_check p = elim (v4_prefix_len_to_mask p) [
  | none ↦ p == 1
  | some mask ↦ elim (v4_mask_to_prefix_len mask) [ none ↦ false | some r ↦ eq_ℤ r (pos p) ]
]

roundtrip_table : all_below 33 roundtrip_check ≡ true
unfolding all_below roundtrip_check v4_prefix_len_to_mask v4_mask_to_prefix_len
roundtrip_table = refl

pos_of_eq : (r : ℤ) (p : ℕ) → eq_ℤ r (pos p) ≡ true → r ≡ pos p
pos_of_eq (pos n) p e = ap pos (ground (arith, e))
pos_of_eq (negsuc n) p e = absurd (ground (arith, e))

roundtrip_at :
    (p : ℕ)
    → roundtrip_check p ≡ true
    → p ≢ 1
    → (mask : ℕ) × (v4_prefix_len_to_mask p ≡ some mask)
      × (v4_mask_to_prefix_len mask ≡ some (pos p))
unfolding roundtrip_check
roundtrip_at p h n = masks (v4_prefix_len_to_mask p) h
  where
    lengths :
        (r : Option ℤ) → elim r [ none ↦ false | some r ↦ eq_ℤ r (pos p) ] ≡ true → r ≡ some (pos p)
    lengths none h = absurd (true≢false (sym h))
    lengths (some r) h = ap some (pos_of_eq r p h)

    masks :
        (m : Option ℕ)
        → elim m [
          | none ↦ p == 1
          | some mask ↦ elim (v4_mask_to_prefix_len mask) [ none ↦ false | some r ↦ eq_ℤ r (pos p) ]
        ]
          ≡ true
        → (mask : ℕ) × (m ≡ some mask) × (v4_mask_to_prefix_len mask ≡ some (pos p))
    masks none h = absurd (n (ground (arith, h)))
    masks (some mask) h = (mask, refl, lengths (v4_mask_to_prefix_len mask) h)

-- For a prefix length of at most 32, but for 1, at which the code overflows, the mask that
-- `std_ip_v4_prefix_len_to_mask` makes is turned back into this length by
-- `std_ip_v4_mask_to_prefix_len`.
pub v4_mask_roundtrip :
    (p : ℕ)
    → p ≤ 32
    → p ≢ 1
    → (mask : ℕ) × (v4_prefix_len_to_mask p ≡ some mask)
      × (v4_mask_to_prefix_len mask ≡ some (pos p))
v4_mask_roundtrip p h n =
    roundtrip_at p (all_below_at 33 roundtrip_check p roundtrip_table (omega arith)) n
