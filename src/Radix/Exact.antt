-- ===== src/Radix/Exact.antt =====
-- `std_radix_getexact`: the head of the prefix that is the address at the length.
use opx_common_utils.Prelude.{ℕ, ◌≡◌, List}
use opx_common_utils.BitMask.{Bytes}
use opx_common_utils.Tree.{Tree, IsIn}
use opx_common_utils.Radix.{Ptr, Table}
use opx_common_utils.Radix.Shape.{Matches}

module _ (t : Table) (a : Bytes) (bitlen : ℕ) where
  -- The node of these with the prefix that is the address at the length.
  pub record Exactly (nodes : List Ptr) (x : Ptr) : Type 0 where
    pub inside : IsIn x nodes
    pub matching : Matches t a bitlen x
    pub whole : t.rtn_bit x ≡ bitlen
