-- ===== src/Prelude/Text.antt =====
-- What the code uses of Rust's text: the decimal digits of a number, and `str::contains`.
use Prim.Native.String.{String, ◌++◌ as ◌<>◌}
use Prim.Native.Char.{code}
use Prim.Native.Nat.{ℕ, zero, suc, ◌/◌, ◌%◌}
use mathlib.Core.Bool.{Bool, true, false, ◌&&◌, ◌||◌}
use mathlib.Core.List.{[], ◌∷◌}
use rust_pta.Prelude.Tests.{◌==◌, if◌then◌else◌}
use rust_pta.Prelude.Lists.{get_or}

unfoldable pub digit : ℕ → String
digit n = get_or ("0" ∷ "1" ∷ "2" ∷ "3" ∷ "4" ∷ "5" ∷ "6" ∷ "7" ∷ "8" ∷ "9" ∷ []) n ""

-- The decimal digits of a number, `rounds` at most, before `rest`.
unfoldable pub decimal_from : ℕ → ℕ → String → String
unfolding digit
decimal_from zero n rest = rest
decimal_from (suc rounds) n rest =
    let more = decimal_from rounds (n / 10) (digit (n % 10) <> rest) in
    if n / 10 == 0 then digit (n % 10) <> rest else more

-- `{}` of a `usize`, which has 20 digits at most.
unfoldable pub decimal : ℕ → String
unfolding decimal_from
decimal n = decimal_from 20 n ""

unfoldable pub starts_with : String → String → Bool
starts_with text String.[] = true
starts_with String.[] (String.◌∷◌ c pattern) = false
starts_with (String.◌∷◌ d text) (String.◌∷◌ c pattern) =
    (code d == code c) && starts_with text pattern

-- `text.contains(pattern)`
unfoldable pub contains_text : String → String → Bool
unfolding starts_with
contains_text String.[] pattern = starts_with String.[] pattern
contains_text (String.◌∷◌ c text) pattern =
    starts_with (String.◌∷◌ c text) pattern || contains_text text pattern
