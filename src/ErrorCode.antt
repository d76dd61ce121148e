-- ===== src/ErrorCode.antt =====
-- inc/opx/std_error_codes.h: a `t_std_error` is an `int`, held here as its 32-bit pattern.
pub mod Ids
pub mod Layout
pub mod Fields
mod Examples
use opx_common_utils.Prelude.{
  ℕ, ◌-◌, ◌*◌, ◌/◌, ◌%◌, ◌^◌, bit_and, bit_or, Bool, not, ◌==◌, if◌then◌else◌,
}
use opx_common_utils.Bits.Words.{not32, shl32, shr}
use opx_common_utils.ErrorCode.Ids.{ErrorSubsystem, ErrorKind, subsystem_value, kind_value}

-- `STD_BIT_MASK_MAKE` and `STD_BIT_MASK` of inc/opx/std_bit_masks.h, at `unsigned int`
unfoldable pub bit_mask_make : ℕ → ℕ
bit_mask_make bits = not32 (bit_and (shl32 (not32 0) bits) (not32 0))

unfoldable pub bit_mask : ℕ → ℕ → ℕ
unfolding bit_mask_make
bit_mask bits bit_offset = shl32 (bit_mask_make bits) bit_offset

abbrev flag_pos : ℕ
flag_pos = 31

abbrev sub_pos : ℕ
sub_pos = 25

abbrev errid_pos : ℕ
errid_pos = 15

abbrev priv_pos : ℕ
priv_pos = 0

-- `STD_MK_ERR_FLAG`
unfoldable pub mk_err_flag : ℕ
mk_err_flag = shl32 1 flag_pos

unfoldable pub mk_err_sub_mask : ℕ
unfolding bit_mask
mk_err_sub_mask = bit_mask (flag_pos - sub_pos) 0

unfoldable pub mk_err_errid_mask : ℕ
unfolding bit_mask
mk_err_errid_mask = bit_mask (sub_pos - errid_pos) 0

unfoldable pub mk_err_priv_mask : ℕ
unfolding bit_mask
mk_err_priv_mask = bit_mask (errid_pos - priv_pos) 0

abbrev pub err_ok : ℕ
err_ok = 0

-- `STD_IS_ERR`
unfoldable pub is_err : ℕ → Bool
is_err x = not (x == err_ok)

-- `STD_ERR_MK`
unfoldable pub err_mk : ℕ → ℕ → ℕ → ℕ
unfolding mk_err_sub_mask mk_err_errid_mask mk_err_priv_mask
err_mk sub errid priv =
    bit_or
      (bit_or (bit_or (shl32 1 flag_pos) (shl32 (bit_and sub mk_err_sub_mask) sub_pos))
        (shl32 (bit_and errid mk_err_errid_mask) errid_pos))
      (shl32 (bit_and priv mk_err_priv_mask) priv_pos)

-- `STD_ERR`
unfoldable pub std_err : ErrorSubsystem → ErrorKind → ℕ → ℕ
unfolding err_mk subsystem_value kind_value
std_err sub errid priv = err_mk (subsystem_value sub) (kind_value errid) priv

-- `STD_ERR_RM_FLAG`
unfoldable pub err_rm_flag : ℕ → ℕ
unfolding mk_err_flag
err_rm_flag x = bit_and x (not32 mk_err_flag)

-- `STD_ERR_EXT_SUB`, `STD_ERR_EXT_ERRID`, `STD_ERR_EXT_PRIV`
unfoldable pub err_ext_sub : ℕ → ℕ
unfolding err_rm_flag mk_err_sub_mask
err_ext_sub x = bit_and (shr (err_rm_flag x) sub_pos) mk_err_sub_mask

unfoldable pub err_ext_errid : ℕ → ℕ
unfolding err_rm_flag mk_err_errid_mask
err_ext_errid x = bit_and (shr (err_rm_flag x) errid_pos) mk_err_errid_mask

unfoldable pub err_ext_priv : ℕ → ℕ
unfolding err_rm_flag mk_err_priv_mask
err_ext_priv x = bit_and (shr (err_rm_flag x) priv_pos) mk_err_priv_mask

-- `errno` is the caller's
unfoldable pub err_from_errno : (errno : ℕ) → ErrorSubsystem → ErrorKind → ℕ
unfolding err_mk subsystem_value kind_value
err_from_errno errno sub clas = err_mk (subsystem_value sub) (kind_value clas) errno

unfoldable pub err_ok_if_true : Bool → ℕ → ℕ
err_ok_if_true test_condition if_condition_false =
    if test_condition then err_ok else if_condition_false
