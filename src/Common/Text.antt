-- ===== src/Common/Text.antt =====
-- Texts: Go's `%d` and the search for a byte.
use Prim.Native.Char.{code}
use Prim.Native.String
use Prim.Native.String.{String}
use mathlib.Core.Path.{◌≡◌, refl, ap}
use mathlib.Core.Bool.{Bool, true, false, ◌||◌}
use native.Mathlib.Omega.{arith}
use text.Mathlib.TextLemmas.{cons-append, nil-append}
use engine_api_workflow.Common.Tests.{ltb, ◌==◌, if◌then◌else◌}
use Prim.Native.Nat.{ℕ, zero, suc, ◌/◌, ◌%◌}

infixr 65 ◌&◌
abbrev pub ◌&◌ : String → String → String
s & t = String.◌++◌ s t

digit : ℕ → String
digit zero = "0"
digit (suc zero) = "1"
digit (suc (suc zero)) = "2"
digit (suc (suc (suc zero))) = "3"
digit (suc (suc (suc (suc zero)))) = "4"
digit (suc (suc (suc (suc (suc zero))))) = "5"
digit (suc (suc (suc (suc (suc (suc zero)))))) = "6"
digit (suc (suc (suc (suc (suc (suc (suc zero))))))) = "7"
digit (suc (suc (suc (suc (suc (suc (suc (suc zero)))))))) = "8"
digit _ = "9"

-- On fuel: a number has no more digits than its value plus one.
decimal_from : ℕ → ℕ → String
decimal_from zero n = ""
decimal_from (suc fuel) n =
    let front = decimal_from fuel (n / 10) in if ltb n 10 then digit n else front & digit (n % 10)

unfoldable pub decimal : ℕ → String
unfolding decimal_from digit
decimal n = decimal_from (suc n) n

-- Whether a text has an underscore.
unfoldable pub has_underscore : String → Bool
has_underscore String.[] = false
has_underscore (String.◌∷◌ c s) = code c == b'_' || has_underscore s

pub has_underscore-append_right :
    (s t : String) → has_underscore t ≡ true → has_underscore (s & t) ≡ true
unfolding has_underscore
has_underscore-append_right String.[] t h = rw (nil-append t) h
has_underscore-append_right (String.◌∷◌ c s) t h =
    ground (arith, has_underscore-append_right s t h, cons-append c s t)

pub has_underscore-underscore : (s : String) → has_underscore ("_" & s) ≡ true
unfolding has_underscore
has_underscore-underscore s = ap has_underscore (cons-append "_" "" s)

decimal_small : decimal 1203 ≡ "1203"
unfolding decimal
decimal_small = refl
