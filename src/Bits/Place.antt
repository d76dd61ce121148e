-- ===== src/Bits/Place.antt =====
-- The digits of a number.
use opx_common_utils.Prelude.{ℕ, zero, suc, ◌/◌, ◌%◌}

-- The binary digit of `x` at place `i`, counted from the least significant.
unfoldable pub bit : ℕ → ℕ → ℕ
bit x zero = x % 2
bit x (suc i) = bit (x / 2) i
