-- ===== src/Prelude/Words.antt =====
-- Machine words as native numbers: the ranges of the C types, and single-bit tests.
use Prim.Native.Nat.{ℕ, ◌^◌, bit_and}
use mathlib.Core.Bool.{Bool, not}
use cs360v_cs380_projects.Prelude.Tests.{◌==◌}

abbrev pub u16_mod : ℕ
u16_mod = 2 ^ 16

abbrev pub u32_mod : ℕ
u32_mod = 2 ^ 32

abbrev pub u64_mod : ℕ
u64_mod = 2 ^ 64

-- `(word & bit) != 0`
abbrev pub has_bit : ℕ → ℕ → Bool
has_bit word bit = not (bit_and word bit == 0)
