-- ===== src/Tlv/Words.antt =====
-- Little-endian words in memory.
use native.Mathlib.Nat.{pow-suc}
use opx_common_utils.Prelude.{
  ℕ, zero, suc, ◌+◌, ◌*◌, ◌/◌, ◌%◌, ◌^◌, ◌≤◌, ◌<◌, ◌≡◌, ◌⊎◌, inl, inr, refl, subst, ◌∙◌, false,
  arith, ◌==◌,
}
use opx_common_utils.BitMask.{Bytes, store}

unfoldable pub read_le : Bytes → ℕ → ℕ → ℕ
read_le mem p zero = 0
read_le mem p (suc n) = mem p + 256 * read_le mem (p + 1) n

unfoldable pub write_le : Bytes → ℕ → ℕ → ℕ → Bytes
write_le mem p zero v = mem
write_le mem p (suc n) v = write_le (store mem p (v % 256)) (p + 1) n (v / 256)

pub write_le_outside :
    (mem : Bytes) (p n v a : ℕ) → (a < p) ⊎ (p + n ≤ a) → write_le mem p n v a ≡ mem a
unfolding write_le
write_le_outside mem p zero v a h = refl
write_le_outside mem p (suc n) v a h =
    let differs : (a == p) ≡ false = ground arith in
    write_le_outside (store mem p (v % 256)) (p + 1) n (v / 256) a (outside_step h) ∙ ground arith
  where
    outside_step : (a < p) ⊎ (p + suc n ≤ a) → (a < p + 1) ⊎ (p + 1 + n ≤ a)
    outside_step (inl l) = inl (omega arith)
    outside_step (inr r) = inr (omega arith)

-- A read depends on its bytes only.
pub read_le-congr :
    (m m' : Bytes) (p n : ℕ)
    → ((a : ℕ) → p ≤ a → a < p + n → m a ≡ m' a)
    → read_le m p n ≡ read_le m' p n
unfolding read_le
read_le-congr m m' p zero h = refl
read_le-congr m m' p (suc n) h = omega (
  arith,
  h p (omega arith) (omega arith),
  read_le-congr m m' (p + 1) n (λ a l k. h a (omega arith) (omega arith)),
)

-- A word that fits its bytes reads back.
pub read_le-write_le :
    (mem : Bytes) (p n v : ℕ) → v < 256 ^ n → read_le (write_le mem p n v) p n ≡ v
unfolding read_le write_le
read_le-write_le mem p zero v h = omega arith
read_le-write_le mem p (suc n) v h =
    let m' = store mem p (v % 256) in
    let low : write_le m' (p + 1) n (v / 256) p ≡ v % 256 =
      write_le_outside m' (p + 1) n (v / 256) p (inl (omega arith)) ∙ ground arith in
    let high = read_le-write_le m' (p + 1) n (v / 256) (omega (arith, pow-suc 256 n)) in omega arith

-- Equal bytes at two places read as the same word.
pub read_le-shift :
    (m m' : Bytes) (p q n : ℕ)
    → ((i : ℕ) → i < n → m (p + i) ≡ m' (q + i))
    → read_le m p n ≡ read_le m' q n
unfolding read_le
read_le-shift m m' p q zero h = refl
read_le-shift m m' p q (suc n) h =
    let first = h 0 (omega arith) in
    let here : m p ≡ m' q =
      subst (λ a. m a ≡ m' q) (omega arith) (subst (λ a. m (p + 0) ≡ m' a) (omega arith) first) in
    omega
      (arith, here, read_le-shift m m' (p + 1) (q + 1) n (λ i l. next i (h (suc i) (omega arith))))
  where
    next : (i : ℕ) → m (p + suc i) ≡ m' (q + suc i) → m (p + 1 + i) ≡ m' (q + 1 + i)
    next i e =
        let l : p + suc i ≡ p + 1 + i = omega arith in
        let r : q + suc i ≡ q + 1 + i = omega arith in
        subst (λ a. m a ≡ m' (q + 1 + i)) l (subst (λ a. m (p + suc i) ≡ m' a) r e)
