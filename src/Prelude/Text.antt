-- ===== src/Prelude/Text.antt =====
-- Texts: equality, concatenation (for f-strings), and `str` of a natural number.
use Prim.Native.Nat.{ℕ, zero, suc, ◌/◌, ◌%◌}
use Prim.Native.String.{String}
use saas_billing_entitlement.Prelude.Tests.{ltb, ◌==◌, if◌then◌else◌}
pub use Prim.Native.String.{◌++◌ as ◌⧺◌}
pub use text.Mathlib.Text.{◌==◌ as str_eq, starts_with}
pub use text.Mathlib.TextEquality.{eq_iff}
pub use text.Mathlib.TextPositions.{eq_refl}

digit : ℕ → String
digit d =
    if d == 0
    then "0"
    else if d == 1
    then "1"
    else if d == 2
    then "2"
    else if d == 3
    then "3"
    else if d == 4
    then "4"
    else if d == 5
    then "5"
    else if d == 6
    then "6"
    else if d == 7
    then "7"
    else if d == 8
    then "8"
    else "9"

-- Enough fuel is one more than the number, since it falls by a factor of ten in each round.
decimal : ℕ → ℕ → String
unfolding digit
decimal zero n = ""
decimal (suc fuel) n =
    let rest = decimal fuel (n / 10) ⧺ digit (n % 10) in if ltb n 10 then digit n else rest

-- `str(n)`
unfoldable pub str_ℕ : ℕ → String
unfolding decimal
str_ℕ n = decimal (suc n) n
