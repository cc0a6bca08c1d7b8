-- ===== src/Prelude/Int.antt =====
-- Signed integers over the native numbers, and the range of a 32-bit `int`, which is the type of
-- every count of events (`stdair::Count_T`).
use Prim.Native.Nat.{ℕ, suc, ◌+◌, ◌-◌, ◌<◌, ◌%◌, ◌^◌}
use mathlib.Core.Path.{◌≡◌}
use mathlib.Core.Bool.{Bool, true}
use native.Mathlib.Omega.{arith}
use sevmgr.Prelude.Tests.{ltb, leb, if◌then◌else◌}

-- `negsuc n` is -(n + 1).
pub data ℤ : Type 0 where
  pos : ℕ → ℤ
  negsuc : ℕ → ℤ

abbrev pub pos_part : ℤ → ℕ
pos_part (pos n) = n
pos_part (negsuc n) = 0

abbrev pub neg_part : ℤ → ℕ
neg_part (pos n) = 0
neg_part (negsuc n) = suc n

abbrev pub sub_ℕ : ℕ → ℕ → ℤ
sub_ℕ a b = if leb b a then pos (a - b) else negsuc (b - a - 1)

infixl 65 ◌+ℤ◌ ◌-ℤ◌
unfoldable pub ◌+ℤ◌ : ℤ → ℤ → ℤ
a +ℤ b = sub_ℕ (pos_part a + pos_part b) (neg_part a + neg_part b)

unfoldable pub ◌-ℤ◌ : ℤ → ℤ → ℤ
a -ℤ b = sub_ℕ (pos_part a + neg_part b) (neg_part a + pos_part b)

-- Through these `omega` works with the operations shut, at any depth.
pub +ℤ_parts :
    (a b : ℤ)
    → pos_part (a +ℤ b) + neg_part a + neg_part b ≡ neg_part (a +ℤ b) + pos_part a + pos_part b
unfolding ◌+ℤ◌
+ℤ_parts a b = ground arith

pub -ℤ_parts :
    (a b : ℤ)
    → pos_part (a -ℤ b) + neg_part a + pos_part b ≡ neg_part (a -ℤ b) + pos_part a + neg_part b
unfolding ◌-ℤ◌
-ℤ_parts a b = ground arith

pub eq_of_parts : (a b : ℤ) → pos_part a + neg_part b ≡ pos_part b + neg_part a → a ≡ b
eq_of_parts a b h = ground arith

pub ruleset int_laws = (arith, +ℤ_parts, -ℤ_parts, eq_of_parts)

-- Is the integer one of the values -2147483648 … 2147483647 of an `int`?
unfoldable pub fits_int : ℤ → Bool
fits_int (pos n) = ltb n 2147483648
fits_int (negsuc n) = ltb n 2147483648

-- An `int` that leaves its range is undefined behaviour, so each addition of the code is tested.
abbrev pub IsInt : ℤ → Type 0
IsInt a = fits_int a ≡ true

-- A size of the standard library as an `int`: its lowest 32 bits, in two's complement.
unfoldable pub int_of_size : ℕ → ℤ
int_of_size n =
    let low = n % 2 ^ 32 in if ltb low 2147483648 then pos low else negsuc (2 ^ 32 - 1 - low)

-- It is the size itself in the range of an `int`.
pub int_of_size_small : (n : ℕ) → n < 2147483648 → int_of_size n ≡ pos n
unfolding int_of_size
int_of_size_small n h = ground arith

-- A counter that is not at the end of the range.
pub count_up :
    (n : ℕ) → n + 1 < 2147483648 → IsInt (pos n +ℤ pos 1) × (pos n +ℤ pos 1 ≡ pos (n + 1))
unfolding fits_int ◌+ℤ◌
count_up n h = (ground arith, ground arith)
