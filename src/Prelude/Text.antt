-- ===== src/Prelude/Text.antt =====
-- Texts as the bytes of a `std::string`, and the numbers that a stream prints.
use Prim.Native.Nat.{ℕ, zero, suc, ◌+◌, ◌/◌, ◌%◌}
use Prim.Native.Char.{code}
use Prim.Native.String.{String}
use mathlib.Core.List.{List, [], ◌∷◌}
use sevmgr.Prelude.Tests.{ltb, if◌then◌else◌}
use sevmgr.Prelude.Int.{ℤ, pos, negsuc}

-- The code points of a literal, which are its bytes when it is ASCII.
abbrev pub codes : String → List ℕ
codes String.[] = []
codes (String.◌∷◌ c s) = code c ∷ codes s

-- `std::endl`.
abbrev pub new_line : List ℕ
new_line = 10 ∷ []

-- The decimal digits of a number in front of a text; the fuel is one more than the number.
decimal_loop : ℕ → ℕ → List ℕ → List ℕ
decimal_loop zero n text = text
decimal_loop (suc fuel) n text =
    let rest = decimal_loop fuel (n / 10) ((b'0' + n % 10) ∷ text) in
    if ltb n 10 then (b'0' + n) ∷ text else rest

unfoldable pub print_number : ℕ → List ℕ
unfolding decimal_loop
print_number n = decimal_loop (suc n) n []

unfoldable pub print_count : ℤ → List ℕ
unfolding print_number
print_count (pos n) = print_number n
print_count (negsuc n) = b'-' ∷ print_number (suc n)
