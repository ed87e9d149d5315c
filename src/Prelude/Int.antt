-- ===== src/Prelude/Int.antt =====
-- Signed integers over the native numbers, and their two's complement in a given number of values.
use Prim.Native.Nat.{ℕ, suc, ◌-◌, ◌%◌, ◌/◌, ◌<◌}
use rusftp.Prelude.Tests.{ltb, if◌then◌else◌}

-- `negsuc n` is -(n + 1).
pub data ℤ : Type 0 where
  pos negsuc : ℕ → ℤ

-- The bit pattern of an integer, among `values` patterns, and the integer of a pattern.
unfoldable pub to_bits : ℕ → ℤ → ℕ
to_bits values (pos n) = n % values
to_bits values (negsuc n) = values - suc (n % values)

unfoldable pub of_bits : ℕ → ℕ → ℤ
of_bits values bits = if ltb bits (values / 2) then pos bits else negsuc (values - suc bits)

-- The integers of the type with as many values.
abbrev pub IsSigned : ℕ → ℤ → Type 0
IsSigned values (pos n) = n < values / 2
IsSigned values (negsuc n) = n < values / 2
