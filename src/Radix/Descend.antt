-- ===== src/Radix/Descend.antt =====
-- The way down of a look up.
use opx_common_utils.Prelude.{
  ℕ, suc, ◌≤◌, ◌<◌, ◌≡◌, ◌≢◌, inl, inr, refl, ap, ◌∙◌, arith, false, ltb, ◌==◌, Bool-cases, some,
}
use opx_common_utils.BitMask.{Bytes}
use opx_common_utils.Radix.{Ptr, null, Table, rn_bit, rn_byte, bit_test, descend}
use opx_common_utils.Radix.Compare.{key_bit, bit_test-key_bit}

module _ (t : Table) (a : Bytes) (bitlen : ℕ) where
  -- What the loop does at a node, and why.
  pub data Went (q : Ptr) : Type 0 where
    long : bitlen ≤ t.rtn_bit q → ((f : ℕ) → descend (suc f) t a bitlen q ≡ some q) → Went q
    no_right :
        key_bit a (t.rtn_bit q) ≡ 1
        → t.rtn_right q ≡ null
        → ((f : ℕ) → descend (suc f) t a bitlen q ≡ some q)
        → Went q
    no_left :
        key_bit a (t.rtn_bit q) ≢ 1
        → t.rtn_left q ≡ null
        → ((f : ℕ) → descend (suc f) t a bitlen q ≡ some q)
        → Went q
    to_right :
        key_bit a (t.rtn_bit q) ≡ 1
        → t.rtn_right q ≢ null
        → t.rtn_bit q < bitlen
        → ((f : ℕ) → descend (suc f) t a bitlen q ≡ descend f t a bitlen (t.rtn_right q))
        → Went q
    to_left :
        key_bit a (t.rtn_bit q) ≢ 1
        → t.rtn_left q ≢ null
        → t.rtn_bit q < bitlen
        → ((f : ℕ) → descend (suc f) t a bitlen q ≡ descend f t a bitlen (t.rtn_left q))
        → Went q

  pub descend-Went : (q : Ptr) → q ≢ null → t.rtn_tbit q ≡ rn_bit (t.rtn_bit q) → Went q
  unfolding descend
  descend-Went q nq e =
      let there : (q == null) ≡ false = ground arith in
      let test : bit_test (a (rn_byte (t.rtn_bit q))) (t.rtn_tbit q)
          ≡ (key_bit a (t.rtn_bit q) == 1) =
        ap (λ b. bit_test (a (rn_byte (t.rtn_bit q))) b) e ∙ bit_test-key_bit a (t.rtn_bit q) in
      elim (Bool-cases (ltb (t.rtn_bit q) bitlen)) [
        | inr stop ↦ long (ground arith) (λ f. rw (there, stop) refl)
        | inl go ↦ elim (Bool-cases (key_bit a (t.rtn_bit q) == 1)) [
          | inl one ↦ elim (Bool-cases (t.rtn_right q == null)) [
            | inl end ↦
                no_right (ground arith) (ground arith) (λ f. rw (there, go, test, one, end) refl)
            | inr child ↦
                to_right (ground arith) (ground arith) (ground arith)
                  (λ f. rw (there, go, test, one, child) refl)
          ]
          | inr other ↦ elim (Bool-cases (t.rtn_left q == null)) [
            | inl end ↦
                no_left (ground arith) (ground arith) (λ f. rw (there, go, test, other, end) refl)
            | inr child ↦
                to_left (ground arith) (ground arith) (ground arith)
                  (λ f. rw (there, go, test, other, child) refl)
          ]
        ]
      ]
