-- ===== src/Prelude/Int.antt =====
-- C's `int` as an integer, with the operations that the program makes.
use Prim.Native.Nat.{ℕ, zero, suc, ◌-◌, ◌%◌, ◌^◌}
use mathlib.Core.Bool.{Bool, true, false}
use oddjob_gpupdate.Prelude.Tests.{ltb, leb, ◌==◌, if◌then◌else◌}

-- `negsuc n` is -(n + 1).
pub data ℤ : Type 0 where
  pos : ℕ → ℤ
  negsuc : ℕ → ℤ

-- `i > n`
abbrev pub above : ℤ → ℕ → Bool
above (pos i) n = ltb n i
above (negsuc i) n = false

-- `n == i`
abbrev pub equals : ℕ → ℤ → Bool
equals n (pos i) = n == i
equals n (negsuc i) = false

-- `i < j`
abbrev pub ltz : ℤ → ℤ → Bool
ltz (pos i) (pos j) = ltb i j
ltz (pos i) (negsuc j) = false
ltz (negsuc i) (pos j) = true
ltz (negsuc i) (negsuc j) = ltb j i

-- -n
abbrev pub neg : ℕ → ℤ
neg zero = pos 0
neg (suc n) = negsuc n

-- a - b, as an integer
abbrev pub sub_ℕ : ℕ → ℕ → ℤ
sub_ℕ a b = if leb b a then pos (a - b) else negsuc (b - a - 1)

-- A bit pattern as an `int`, and the conversion of a wider integer to it.
abbrev pub of_bits : ℕ → ℤ
of_bits r = if ltb r (2 ^ 31) then pos r else negsuc (2 ^ 32 - r - 1)

abbrev pub to_int : ℤ → ℤ
to_int (pos n) = of_bits (n % 2 ^ 32)
to_int (negsuc n) = of_bits (2 ^ 32 - 1 - n % 2 ^ 32)
