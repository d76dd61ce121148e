-- ===== src/Ip/Prefix6.antt =====
-- IPv6 prefix lengths and masks, for masks of any number of bytes.
use opx_common_utils.Prelude.{
  ℕ, zero, suc, ◌+◌, ◌-◌, ◌*◌, ◌/◌, ◌%◌, ◌^◌, ◌≤◌, ◌<◌, ◌≡◌, ◌≢◌, refl, ap, fun_ext, true, false,
  some, arith, ◌==◌, ==_iff, ltb, if◌then◌else◌, get_or, min, Bool-cases, inl, inr,
}
use opx_common_utils.Prelude.Int.{pos}
use opx_common_utils.Bits.Below.{all_below, all_below_at}
use opx_common_utils.BitMask.{Bytes, store}
use opx_common_utils.Ip.{
  memset, mask_val, v6_prefix_len_to_mask, bit_pos, prefix_len_loop, v6_mask_to_prefix_len,
}

-- Byte `i` of the mask of `p` bits.
abbrev pub mask_byte : ℕ → ℕ → ℕ
mask_byte p i = if ltb i (p / 8) then 0xff else if i == p / 8 then get_or mask_val (p % 8) 0 else 0

-- The memory after the conversion: the mask in `len` bytes, and what was there behind them.
pub masked : Bytes → ℕ → ℕ → Bytes
masked m len p i = if ltb i len then mask_byte p i else m i

masked_inside : (m : Bytes) (len p i : ℕ) → i < len → masked m len p i ≡ mask_byte p i
unfolding masked
masked_inside m len p i h = let t : ltb i len ≡ true = ground arith in rw t

masked_outside : (m : Bytes) (len p i : ℕ) → len ≤ i → masked m len p i ≡ m i
unfolding masked
masked_outside m len p i h = let t : ltb i len ≡ false = ground arith in rw t

module _ (m : Bytes) (len d v i : ℕ) where
  filled_byte :
      d ≡ len
      → memset m 0 0xff d i
        ≡ (if ltb i len then (if ltb i d then 0xff else if i == d then v else 0) else m i)
  unfolding memset
  filled_byte e = ground arith

  cleared_byte :
      d < len
      → memset (store (memset m 0 0xff d) d v) (d + 1) 0 (len - d - 1) i
        ≡ (if ltb i len then (if ltb i d then 0xff else if i == d then v else 0) else m i)
  unfolding memset
  cleared_byte e = ground arith

pub v6_prefix_len_to_mask-masked :
    (m : Bytes) (len p : ℕ)
    → p ≢ 0
    → p ≤ 8 * len
    → len < 2 ^ 32
    → p < 2 ^ 32
    → v6_prefix_len_to_mask (some m) len p ≡ some (masked m len p)
unfolding v6_prefix_len_to_mask masked
v6_prefix_len_to_mask-masked m len p nz fits small low =
    let whole : p % 2 ^ 32 ≡ p = omega arith in
    let nonzero : (p == 0) ≡ false = ground arith in
    let left : (len + 2 ^ 64 - p / 8) % 2 ^ 64 ≡ len - p / 8 = omega arith in
    rw (whole, nonzero, left)
      (elim (Bool-cases (len - p / 8 == 0)) [
        | inl full ↦
            let e : p / 8 ≡ len = ground arith in
            rw full
              (ap some (fun_ext (λ i. filled_byte m len (p / 8) (get_or mask_val (p % 8) 0) i e)))
        | inr more ↦
            let lt : p / 8 < len = ground arith in
            rw more
              (ap some (fun_ext (λ i. cleared_byte m len (p / 8) (get_or mask_val (p % 8) 0) i lt)))
      ])

-- What one byte of the mask adds to the length.
partial_table : all_below 8 (λ k. get_or bit_pos (get_or mask_val k 0) 0 == k) ≡ true
unfolding all_below bit_pos
partial_table = refl

count : ℕ → ℕ
count b = get_or bit_pos b 0

count_values : (count 0xff ≡ 8) × (count 0 ≡ 0)
unfolding count bit_pos
count_values = (refl, refl)

count_partial : (k : ℕ) → k < 8 → count (get_or mask_val k 0) ≡ k
unfolding count
count_partial k h = (==_iff _ k).0 (all_below_at 8 _ k partial_table h)

count-mask_byte : (p i : ℕ) → count (mask_byte p i) + min p (8 * i) ≡ min p (8 * (i + 1))
count-mask_byte p i = elim (Bool-cases (ltb i (p / 8))) [
  | inl full ↦ rw full (let c = count_values.0 in ground arith)
  | inr f ↦ rw f (elim (Bool-cases (i == p / 8)) [
    | inl t ↦ rw t (let c = count_partial (p % 8) (omega arith) in ground arith)
    | inr n ↦ rw n (let c = count_values.1 in ground arith)
  ])
]

min_up : (p a b : ℕ) → a ≤ b → min p a ≤ min p b
min_up p a b h = omega arith

loop_count :
    (m : Bytes) (len p n ix acc r : ℕ)
    → ix + n ≤ len
    → r + min p (8 * ix) ≡ acc + min p (8 * (ix + n))
    → r < 2 ^ 31
    → prefix_len_loop (masked m len p) n ix acc ≡ some (pos r)
unfolding prefix_len_loop count
loop_count m len p zero ix acc r h e low =
    let end : min p (8 * (ix + 0)) ≡ min p (8 * ix) = ap (λ z. min p (8 * z)) (omega arith) in
    ap (λ z. some (pos z)) (omega (arith, e, end))
loop_count m len p (suc n) ix acc r h e low =
    let here : count (masked m len p ix) ≡ count (mask_byte p ix) =
      ap count (masked_inside m len p ix (omega arith)) in
    let c = count-mask_byte p ix in
    let end : min p (8 * (ix + suc n)) ≡ min p (8 * (ix + 1 + n)) =
      ap (λ z. min p (8 * z)) (omega arith) in
    let up = min_up p (8 * (ix + 1)) (8 * (ix + 1 + n)) (omega arith) in
    let fine : ltb (acc + count (masked m len p ix)) (2 ^ 31) ≡ true =
      ground (arith, e, end, here, c, up, low) in
    rw fine (
      loop_count m len p n (ix + 1) (acc + count (masked m len p ix)) r (omega arith)
        (omega (arith, e, end, here, c)) low)

-- For a prefix length from 1 to the number of the mask's bits, below 2^31, `std_ip_v6_prefix_len_to_mask`
-- writes a mask that `std_ip_v6_mask_to_prefix_len` turns back into this length.
pub v6_mask_roundtrip :
    (m : Bytes) (len p : ℕ)
    → p ≢ 0
    → p ≤ 8 * len
    → len < 2 ^ 32
    → p < 2 ^ 31
    → v6_mask_to_prefix_len (v6_prefix_len_to_mask (some m) len p) len ≡ some (pos p)
unfolding v6_mask_to_prefix_len
v6_mask_roundtrip m len p nz fits small low =
    rw (v6_prefix_len_to_mask-masked m len p nz fits small (omega arith))
      (loop_count m len p len 0 0 p (omega arith) (omega arith) low)
