-- ===== src/ErrorCode/Layout.antt =====
-- The pattern of an error code as a number: the flag and the three fields side by side.
use opx_common_utils.Prelude.{ℕ, ◌+◌, ◌*◌, ◌%◌, ◌^◌, bit_and, bit_or, ◌≡◌, arith}
use opx_common_utils.Bits.Fields.{and_low_mask, or_fields}
use opx_common_utils.ErrorCode.{err_mk, err_rm_flag}

-- The flag, the subsystem modulo 64, the generic code modulo 1024 and the private part modulo 32768
-- stand in four disjoint ranges of bits.
pub err_mk_layout :
    (sub errid priv : ℕ)
    → err_mk sub errid priv ≡ 2 ^ 31 + sub % 64 * 2 ^ 25 + errid % 1024 * 2 ^ 15 + priv % 2 ^ 15
unfolding err_mk
err_mk_layout sub errid priv =
    let s : bit_and sub 63 ≡ sub % 64 = and_low_mask 6 sub in
    let e : bit_and errid 1023 ≡ errid % 1024 = and_low_mask 10 errid in
    let p : bit_and priv 32767 ≡ priv % 32768 = and_low_mask 15 priv in
    let sub6 : ℕ = sub % 64 in
    let id10 : ℕ = errid % 1024 in
    let one : bit_or 2147483648 (sub6 * 33554432) ≡ 2147483648 + sub6 * 33554432 =
      or_fields 31 1 (sub6 * 33554432) (omega arith) in
    let two : bit_or ((64 + sub6) * 33554432) (id10 * 32768)
        ≡ (64 + sub6) * 33554432 + id10 * 32768 =
      or_fields 25 (64 + sub6) (id10 * 32768) (omega arith) in
    let high : ℕ = (64 + sub6) * 1024 + id10 in
    let three : bit_or (high * 32768) (priv % 32768) ≡ high * 32768 + priv % 32768 =
      or_fields 15 high (priv % 32768) (omega arith) in
    let a : sub6 * 33554432 % 4294967296 ≡ sub6 * 33554432 = omega arith in
    let b : id10 * 32768 % 4294967296 ≡ id10 * 32768 = omega arith in
    let c : priv % 32768 * 1 % 4294967296 ≡ priv % 32768 = omega arith in
    let d : 2147483648 + sub6 * 33554432 ≡ (64 + sub6) * 33554432 = omega arith in
    let f : (64 + sub6) * 33554432 + id10 * 32768 ≡ high * 32768 = omega arith in
    rw (s, e, p, a, b, c, one, d, two, f, three) (omega arith)

-- Removing the flag leaves the bits below it.
pub err_rm_flag_lem : (x : ℕ) → err_rm_flag x ≡ x % 2 ^ 31
unfolding err_rm_flag
err_rm_flag_lem x = and_low_mask 31 x
