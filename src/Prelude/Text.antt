-- ===== src/Prelude/Text.antt =====
-- Texts that `format!` builds.
use Prim.Native.String.{String, ◌++◌}
use Prim.Native.Nat.{ℕ, zero, suc, ◌/◌, ◌%◌}
use kuasar.Prelude.Tests.{ltb, eqb, if◌then◌else◌}

unfoldable pub append : String → String → String
append a b = a ++ b

abbrev digit : ℕ → String
digit n =
    if eqb n 0
    then "0"
    else if eqb n 1
    then "1"
    else if eqb n 2
    then "2"
    else if eqb n 3
    then "3"
    else if eqb n 4
    then "4"
    else if eqb n 5
    then "5"
    else if eqb n 6
    then "6"
    else if eqb n 7
    then "7"
    else if eqb n 8
    then "8"
    else "9"

abbrev digits : ℕ → ℕ → String
digits zero n = ""
digits (suc fuel) n =
    let rest = digits fuel (n / 10) in if ltb n 10 then digit n else append rest (digit (n % 10))

-- The decimal digits of a `u32`, of which there are at most ten.
unfoldable pub show_u32 : ℕ → String
show_u32 n = digits 10 n

abbrev octal_digits : ℕ → ℕ → String
octal_digits zero n = ""
octal_digits (suc fuel) n =
    let rest = octal_digits fuel (n / 8) in if ltb n 8 then digit n else append rest (digit (n % 8))

-- The octal digits of a file mode, of which there are three.
unfoldable pub show_octal : ℕ → String
show_octal n = octal_digits 3 n
