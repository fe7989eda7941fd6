-- ===== src/Common/Decimal.antt =====
-- `fmt`'s %d and %v of a natural number, and %q of a name.
use Prim.Native.Nat.{ℕ, zero, suc, ◌/◌, ◌%◌}
use Prim.Native.String.{String, ◌++◌ as ◌<>◌}
use mathlib.Core.Path.{◌≡◌, refl}
use registration_operator.Common.Equality.{if◌then◌else◌, leb}

digit : ℕ → String
digit zero = "0"
digit (suc zero) = "1"
digit (suc (suc zero)) = "2"
digit (suc (suc (suc zero))) = "3"
digit (suc (suc (suc (suc zero)))) = "4"
digit (suc (suc (suc (suc (suc zero))))) = "5"
digit (suc (suc (suc (suc (suc (suc zero)))))) = "6"
digit (suc (suc (suc (suc (suc (suc (suc zero))))))) = "7"
digit (suc (suc (suc (suc (suc (suc (suc (suc zero)))))))) = "8"
digit _ = "9"

-- A number has fewer digits than the fuel `n + 1` that `decimal` gives.
decimal_on : ℕ → ℕ → String → String
unfolding digit
decimal_on zero n acc = acc
decimal_on (suc f) n acc =
    let more = decimal_on f (n / 10) (digit (n % 10) <> acc) in
    if leb n 9 then digit n <> acc else more

unfoldable pub decimal : ℕ → String
unfolding decimal_on
decimal n = decimal_on (suc n) n ""

-- `%q` of a text without a character that it would escape, as the names of objects are.
abbrev pub quoted : String → String
quoted s = "\"" <> (s <> "\"")

decimal_test : decimal 9070 ≡ "9070"
unfolding decimal
decimal_test = refl
