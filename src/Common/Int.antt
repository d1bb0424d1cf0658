-- ===== src/Common/Int.antt =====
-- Signed integers over the native numbers: a C `int64_t` by the integer that it stands for.
use Prim.Native.Nat.{ℕ, suc, ◌-◌, ◌%◌, ◌^◌}
use mathlib.Core.List.{◌∷◌}
use bspd.Common.Text.{Bytes, decimal}

-- `negsuc n` is -(n + 1).
pub data ℤ : Type 0 where
  pos : ℕ → ℤ
  negsuc : ℕ → ℤ

-- `%lld`
unfoldable pub decimal_ℤ : ℤ → Bytes
unfolding decimal
decimal_ℤ (pos n) = decimal n
decimal_ℤ (negsuc n) = b'-' ∷ decimal (suc n)

-- The conversion to an unsigned type of `w` bits keeps the value modulo 2 ^ w.
unfoldable pub to_unsigned : ℕ → ℤ → ℕ
to_unsigned w (pos n) = n % 2 ^ w
to_unsigned w (negsuc n) = 2 ^ w - 1 - n % 2 ^ w
