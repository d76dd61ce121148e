-- ===== src/ErrorCode/Examples.antt =====
-- The theorems at concrete codes.
use opx_common_utils.Prelude.{◌%◌, ◌^◌, ◌+◌, ◌*◌, ◌≡◌, refl, true, arith}
use opx_common_utils.Prelude.Int.{signed32, pos, ◌<ℤ◌}
use opx_common_utils.ErrorCode.{err_mk, std_err, is_err, err_ext_sub, err_ext_errid, err_ext_priv}
use opx_common_utils.ErrorCode.Ids.{
  route, param, fefd, null_sub, nomem, subsystem_value, kind_value,
}
use opx_common_utils.ErrorCode.Layout.{err_mk_layout}
use opx_common_utils.ErrorCode.Fields.{
  err_mk-injective, is_err-err_mk, std_err_roundtrip, std_err_fefd,
}

err_mk_runs : err_mk 9 3 5 ≡ 0x9201_8005
unfolding err_mk
err_mk_runs = refl

err_mk_layout_example : err_mk 9 3 5 ≡ 2 ^ 31 + 9 % 64 * 2 ^ 25 + 3 % 1024 * 2 ^ 15 + 5 % 2 ^ 15
err_mk_layout_example = err_mk_layout 9 3 5

err_mk-injective_example : (9 % 64 ≡ 73 % 64) × (3 % 1024 ≡ 1027 % 1024) × (5 % 2 ^ 15 ≡ 5 % 2 ^ 15)
unfolding err_mk
err_mk-injective_example = err_mk-injective 9 3 5 73 1027 5 refl

is_err-err_mk_example : (is_err (err_mk 9 3 5) ≡ true) × (signed32 (err_mk 9 3 5) <ℤ pos 0)
is_err-err_mk_example = is_err-err_mk 9 3 5

std_err_roundtrip_example :
    (err_ext_sub (std_err route param 5) ≡ subsystem_value route)
    × (err_ext_errid (std_err route param 5) ≡ kind_value param)
    × (err_ext_priv (std_err route param 5) ≡ 5)
std_err_roundtrip_example = std_err_roundtrip route param 5 (ground arith) (omega arith)

std_err_fefd_example :
    (std_err fefd nomem 12 ≡ std_err null_sub nomem 12)
    × (err_ext_sub (std_err fefd nomem 12) ≡ subsystem_value null_sub)
std_err_fefd_example = std_err_fefd nomem 12
