-- ===== src/Ip/Compare.antt =====
-- The order of `std_ip_cmp_ip_addr`.
use mathlib.Core.Bool.{true≢false}
use opx_common_utils.Prelude.{
  ℕ, zero, suc, ◌+◌, ◌-◌, ◌%◌, ◌^◌, ◌≤◌, ◌<◌, ◌≡◌, ◌≢◌, ◌↔◌, refl, true, arith, ◌==◌, ltb,
  Bool-cases, inl, inr, ◌⊎◌, sym, ◌∙◌,
}
use opx_common_utils.Prelude.Int.{ℤ, pos, negsuc, sub_ℕ, to_int}
use opx_common_utils.BitMask.{Bytes}
use opx_common_utils.Ip.{IpAddr, memcmp, afindex_to_addr_len, cmp_ip_addr}

abbrev pub AgreeOn : Bytes → Bytes → ℕ → ℕ → Type 0
AgreeOn a b lo hi = (i : ℕ) → lo ≤ i → i < hi → a i ≡ b i

-- The sign of the first difference in `[lo, hi)`.
pub data Compared (a b : Bytes) (lo hi : ℕ) (r : ℤ) : Type 0 where
  same : r ≡ pos 0 → AgreeOn a b lo hi → Compared a b lo hi r
  less :
      (i : ℕ) → r ≡ negsuc 0 → lo ≤ i → i < hi → a i < b i → AgreeOn a b lo i → Compared a b lo hi r
  greater :
      (i : ℕ) → r ≡ pos 1 → lo ≤ i → i < hi → b i < a i → AgreeOn a b lo i → Compared a b lo hi r

AgreeOn-extend :
    {a b : Bytes} (lo hi : ℕ) → a lo ≡ b lo → AgreeOn a b (lo + 1) hi → AgreeOn a b lo hi
AgreeOn-extend lo hi e rest i l h = elim (Bool-cases (lo == i)) [
  | inl t ↦ let at : lo ≡ i = ground arith in rw (← at) e
  | inr t ↦ rest i (ground arith) h
]

module _ {a b : Bytes} where
  extend :
      {hi : ℕ} {r : ℤ} (lo : ℕ) → a lo ≡ b lo → Compared a b (lo + 1) hi r → Compared a b lo hi r
  extend lo e (same v all) = same v (AgreeOn-extend lo _ e all)
  extend lo e (less i v l h d all) = less i v (omega arith) h d (AgreeOn-extend lo i e all)
  extend lo e (greater i v l h d all) = greater i v (omega arith) h d (AgreeOn-extend lo i e all)

module _ (a b : Bytes) where
  memcmp-Compared : (n lo hi : ℕ) → lo + n ≡ hi → Compared a b lo hi (memcmp a b n lo)
  unfolding memcmp
  memcmp-Compared zero lo hi e = same refl (λ i l h. absurd (omega arith))
  memcmp-Compared (suc n) lo hi e = elim (Bool-cases (ltb (a lo) (b lo))) [
    | inl lt ↦
        rw lt
          (less lo refl (omega arith) (omega arith) (ground arith) (λ i l h. absurd (omega arith)))
    | inr ge ↦ rw ge (elim (Bool-cases (ltb (b lo) (a lo))) [
      | inl gt ↦ rw gt (
          greater lo refl (omega arith) (omega arith) (ground arith)
            (λ i l h. absurd (omega arith)))
      | inr le ↦ rw le (extend lo (ground arith) (memcmp-Compared n (lo + 1) hi (omega arith)))
    ])
  ]

same_family :
    (ip1 ip2 : IpAddr)
    → ip1.af_index ≡ ip2.af_index
    → Compared ip1.u ip2.u 0 (afindex_to_addr_len ip1.af_index) (cmp_ip_addr ip1 ip2)
unfolding cmp_ip_addr
same_family ip1 ip2 e =
    let t : (ip1.af_index == ip2.af_index) ≡ true = ground arith in
    rw t (
      memcmp-Compared ip1.u ip2.u (afindex_to_addr_len ip1.af_index) 0
        (afindex_to_addr_len ip1.af_index) (omega arith))

to_int-sub_ℕ : (a b : ℕ) → a < 2 ^ 31 → b < 2 ^ 31 → to_int (a + 2 ^ 32 - b) ≡ sub_ℕ a b
to_int-sub_ℕ a b ha hb = ground arith

-- For two addresses whose families are below 2^31: the result of `std_ip_cmp_ip_addr` is, for one
-- family, the sign of the first difference of the address bytes, negative where the first address is
-- the lower one; for different families it is the difference of the first and the second family.
pub cmp_ip_addr-Compared :
    (ip1 ip2 : IpAddr)
    → ip1.af_index < 2 ^ 31
    → ip2.af_index < 2 ^ 31
    → ((ip1.af_index ≡ ip2.af_index)
        × Compared ip1.u ip2.u 0 (afindex_to_addr_len ip1.af_index) (cmp_ip_addr ip1 ip2))
      ⊎ ((ip1.af_index ≢ ip2.af_index) × (cmp_ip_addr ip1 ip2 ≡ sub_ℕ ip1.af_index ip2.af_index))
unfolding cmp_ip_addr
cmp_ip_addr-Compared ip1 ip2 h1 h2 = elim (Bool-cases (ip1.af_index == ip2.af_index)) [
  | inl t ↦ let e : ip1.af_index ≡ ip2.af_index = ground arith in inl (e, same_family ip1 ip2 e)
  | inr f ↦ inr (
    (λ e. true≢false (sym (ground (arith, e)) ∙ f)),
    rw f (to_int-sub_ℕ ip1.af_index ip2.af_index h1 h2),
  )
]

zero_of_Compared :
    {a b : Bytes} {hi : ℕ} {r : ℤ} → Compared a b 0 hi r → (r ≡ pos 0) ↔ AgreeOn a b 0 hi
zero_of_Compared (same v all) = (λ _. all, λ _. v)
zero_of_Compared (less i v l h d all) = (λ e. cc, λ agree. absurd (omega (arith, agree i l h)))
zero_of_Compared (greater i v l h d all) =
    (λ e. ground arith, λ agree. absurd (omega (arith, agree i l h)))

-- `memcmp` gives 0 exactly for equal bytes.
pub memcmp-zero_iff : (a b : Bytes) (n : ℕ) → (memcmp a b n 0 ≡ pos 0) ↔ AgreeOn a b 0 n
memcmp-zero_iff a b n = zero_of_Compared (memcmp-Compared a b n 0 n (omega arith))

to_int_nonzero : (n : ℕ) → n % 2 ^ 32 ≢ 0 → to_int n ≢ pos 0
to_int_nonzero n h e = ground arith

-- For families below 2 ^ 32 the comparison gives 0 exactly for two addresses of one family whose
-- address bytes agree.
pub cmp_ip_addr-zero_iff :
    (ip1 ip2 : IpAddr)
    → ip1.af_index < 2 ^ 32
    → ip2.af_index < 2 ^ 32
    → (cmp_ip_addr ip1 ip2 ≡ pos 0)
      ↔ ((ip1.af_index ≡ ip2.af_index) × AgreeOn ip1.u ip2.u 0 (afindex_to_addr_len ip1.af_index))
unfolding cmp_ip_addr
cmp_ip_addr-zero_iff ip1 ip2 h1 h2 = elim (Bool-cases (ip1.af_index == ip2.af_index)) [
  | inl t ↦
      let e : ip1.af_index ≡ ip2.af_index = ground arith in
      let z = zero_of_Compared (same_family ip1 ip2 e) in (λ r. (e, z.0 r), λ both. z.1 both.1)
  | inr f ↦
      let ne : ip1.af_index ≢ ip2.af_index = ground arith in
      let nz = to_int_nonzero (ip1.af_index + 2 ^ 32 - ip2.af_index) (omega arith) in
      (λ r. absurd (nz (rw f at r)), λ both. absurd (ne both.0))
]
