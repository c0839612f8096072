-- ===== src/Prelude/Bits.antt =====
-- Single bits of a word, and the tests that the driver makes with `&`.
use Prim.Native.Nat.{ℕ, ◌^◌, bit_and}
use mathlib.Core.Bool.{Bool, not}
use lima_backport_sprd7730se.Prelude.Tests.{◌==◌}

-- BIT(n)
abbrev pub bit : ℕ → ℕ
bit n = 2 ^ n

-- A C condition `a & m`.
abbrev pub has_bits : ℕ → ℕ → Bool
has_bits a m = not (bit_and a m == 0)
