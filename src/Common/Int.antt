-- ===== src/Common/Int.antt =====
-- Signed machine integers, as far as the program compares them with a range.
use Prim.Native.Nat.{ℕ, ◌-◌}
use mathlib.Core.Bool.{Bool, true, false, ◌||◌}
use cluster_api_hypervisor.Common.Tests.{ltb, eqb}

-- `negsuc n` is -(n + 1).
pub data ℤ : Type 0 where
  pos : ℕ → ℤ
  negsuc : ℕ → ℤ

-- `n <= 0 || n > 65535`
unfoldable pub out_of_port_range : ℤ → Bool
out_of_port_range (pos n) = eqb n 0 || ltb 65535 n
out_of_port_range (negsuc n) = true

-- uint32(n) of a non-negative int32
unfoldable pub to_ℕ : ℤ → ℕ
to_ℕ (pos n) = n
to_ℕ (negsuc n) = 4294967295 - n

-- `m < n`
unfoldable pub ltb_ℤ : ℤ → ℤ → Bool
ltb_ℤ (pos m) (pos n) = ltb m n
ltb_ℤ (pos m) (negsuc n) = false
ltb_ℤ (negsuc m) (pos n) = true
ltb_ℤ (negsuc m) (negsuc n) = ltb n m
