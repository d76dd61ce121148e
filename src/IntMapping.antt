-- ===== src/IntMapping.antt =====
-- src/std_int_mapping_util.c: a table of rows of `int`, `rows ix` the row at `array_map[ix]`.
pub mod Laws
mod Examples
use opx_common_utils.Prelude.{
  ℕ, zero, suc, ◌+◌, ◌<◌, ◌≡◌, refl, Bool, false, true, arith, if◌then◌else◌,
}
use opx_common_utils.Prelude.Int.{ℤ, pos, negsuc, eq_ℤ}

-- The loop, by the rounds left.
unfoldable pub translate_loop : (field returned_field : ℕ) → (ℕ → ℕ → ℤ) → ℕ → ℕ → ℤ
translate_loop field returned_field rows zero ix = negsuc 0
translate_loop field returned_field rows (suc n) ix =
    let rest = translate_loop field returned_field rows n (ix + 1) in
    if eq_ℤ (rows ix field) (pos field) then rows ix returned_field else rest

unfoldable pub int_translate : (from : ℤ) → (field returned_field : ℕ) → (ℕ → ℕ → ℤ) → ℕ → ℤ
unfolding translate_loop
int_translate from field returned_field rows len = translate_loop field returned_field rows len 0
