-- ===== src/ErrorCode/Fields.antt =====
-- The three parts of an error code read back.
use opx_common_utils.Prelude.{ℕ, ◌/◌, ◌%◌, ◌^◌, ◌<◌, ◌≡◌, ◌≢◌, refl, true, arith, ◌∙◌}
use opx_common_utils.Prelude.Int.{signed32, pos, ◌<ℤ◌}
use opx_common_utils.Bits.Fields.{and_low_mask}
use opx_common_utils.ErrorCode.{
  err_mk, std_err, is_err, err_rm_flag, err_ext_sub, err_ext_errid, err_ext_priv,
}
use opx_common_utils.ErrorCode.Ids.{
  ErrorSubsystem, ErrorKind, fefd, null_sub, fail, subsystem_value, kind_value,
}
use opx_common_utils.ErrorCode.Layout.{err_mk_layout, err_rm_flag_lem}

-- Each part of a code that `STD_ERR_MK` makes reads back, reduced to the width of its field.
pub err_ext-err_mk :
    (sub errid priv : ℕ)
    → (err_ext_sub (err_mk sub errid priv) ≡ sub % 64)
      × (err_ext_errid (err_mk sub errid priv) ≡ errid % 1024)
      × (err_ext_priv (err_mk sub errid priv) ≡ priv % 2 ^ 15)
unfolding err_ext_sub err_ext_errid err_ext_priv
err_ext-err_mk sub errid priv =
    let x : ℕ = err_mk sub errid priv in
    let layout = err_mk_layout sub errid priv in
    let low = err_rm_flag_lem x in
    (
      and_low_mask 6 (err_rm_flag x / 2 ^ 25) ∙ omega arith,
      and_low_mask 10 (err_rm_flag x / 2 ^ 15) ∙ omega arith,
      and_low_mask 15 (err_rm_flag x / 1) ∙ omega arith,
    )

-- Two codes are equal only if their three parts agree in the widths of the fields.
pub err_mk-injective :
    (s e p s' e' p' : ℕ)
    → err_mk s e p ≡ err_mk s' e' p'
    → (s % 64 ≡ s' % 64) × (e % 1024 ≡ e' % 1024) × (p % 2 ^ 15 ≡ p' % 2 ^ 15)
err_mk-injective s e p s' e' p' h = omega (arith, err_mk_layout s e p, err_mk_layout s' e' p')

-- Every code that `STD_ERR_MK` makes counts as an error, and is a negative `int`.
pub is_err-err_mk :
    (s e p : ℕ) → (is_err (err_mk s e p) ≡ true) × (signed32 (err_mk s e p) <ℤ pos 0)
unfolding is_err
is_err-err_mk s e p = ground (arith, err_mk_layout s e p)

value-lt : (s : ErrorSubsystem) → s ≢ fefd → subsystem_value s < 64
unfolding subsystem_value
value-lt fefd h = absurd (h refl)
value-lt _ h = omega arith

kind-lt : (k : ErrorKind) → kind_value k < 1024
unfolding kind_value
kind-lt fail = omega arith
kind-lt _ = omega arith

-- For every subsystem but FEFD, every generic code and every private value below 32768, the parts of
-- the code that `STD_ERR` makes are the numbers given to it.
pub std_err_roundtrip :
    (sub : ErrorSubsystem) (errid : ErrorKind) (priv : ℕ)
    → sub ≢ fefd
    → priv < 2 ^ 15
    → (err_ext_sub (std_err sub errid priv) ≡ subsystem_value sub)
      × (err_ext_errid (std_err sub errid priv) ≡ kind_value errid)
      × (err_ext_priv (std_err sub errid priv) ≡ priv)
unfolding std_err
std_err_roundtrip sub errid priv other small = omega (
  arith,
  value-lt sub other,
  kind-lt errid,
  err_ext-err_mk (subsystem_value sub) (kind_value errid) priv,
)

-- FEFD is 64 and the field has six bits: its codes are those of the subsystem NULL.
pub std_err_fefd :
    (errid : ErrorKind) (priv : ℕ)
    → (std_err fefd errid priv ≡ std_err null_sub errid priv)
      × (err_ext_sub (std_err fefd errid priv) ≡ subsystem_value null_sub)
unfolding std_err subsystem_value
std_err_fefd errid priv = omega (
  arith,
  err_mk_layout 64 (kind_value errid) priv,
  err_mk_layout 0 (kind_value errid) priv,
  err_ext-err_mk 64 (kind_value errid) priv,
)
