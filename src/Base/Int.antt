-- ===== src/Base/Int.antt =====
-- Go's signed integers, as the program uses them: a sign test and the verb %d. The sizes and ports
-- of the program take part in no arithmetic, so no range is needed.
use Prim.Native.Nat.{ℕ, zero, suc}
use Prim.Native.String.{String, ◌++◌ as ◌<>◌}
use mathlib.Core.Bool.{Bool, true, false}
use vm_to_quadlet.Base.Decimal.{decimal}

-- `negsuc n` is -(n + 1).
pub data ℤ : Type 0 where
  pos : ℕ → ℤ
  negsuc : ℕ → ℤ

abbrev pub is_positive : ℤ → Bool
is_positive (pos zero) = false
is_positive (pos (suc n)) = true
is_positive (negsuc n) = false

unfoldable pub show : ℤ → String
unfolding decimal
show (pos n) = decimal n
show (negsuc n) = "-" <> decimal (suc n)
