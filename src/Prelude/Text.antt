-- ===== src/Prelude/Text.antt =====
-- `str` of a number, and `f"{a}:{b}:{n}"`.
use Prim.Native.Nat.{ℕ, zero, suc, ◌/◌, ◌%◌}
use Prim.Native.String.{String, ◌++◌, count}
use mathlib.Core.Path.{◌≡◌, refl, ap}
use text.Mathlib.TextLemmas.{nil-append, cons-append, length-cons}
use mathlib.Core.Bool.{true, false}
use lehen.Prelude.Tests.{ltb, eqb, if◌then◌else◌}

digit : ℕ → String
digit n =
    if eqb n 0
    then "0"
    else if eqb n 1
    then "1"
    else if eqb n 2
    then "2"
    else if eqb n 3
    then "3"
    else if eqb n 4
    then "4"
    else if eqb n 5
    then "5"
    else if eqb n 6
    then "6"
    else if eqb n 7
    then "7"
    else if eqb n 8
    then "8"
    else "9"

-- The fuel is the number's successor: each round leaves at most a tenth of it.
decimal_on : ℕ → ℕ → String
decimal_on zero n = ""
decimal_on (suc fuel) n = elim (ltb n 10) [
  | true ↦ digit n
  | false ↦ decimal_on fuel (n / 10) ++ digit (n % 10)
]

unfoldable pub decimal : ℕ → String
unfolding digit decimal_on
decimal n = decimal_on (suc n) n

-- s[:n]
unfoldable pub cut : ℕ → String → String
cut zero s = ""
cut (suc n) String.[] = ""
cut (suc n) (String.◌∷◌ c s) = String.◌∷◌ c (cut n s)

-- s[n:]
unfoldable pub skip : ℕ → String → String
skip zero s = s
skip (suc n) String.[] = ""
skip (suc n) (String.◌∷◌ c s) = skip n s

pub cut-append : (s t : String) → cut (count s) (s ++ t) ≡ s
unfolding cut
cut-append String.[] t = refl
cut-append (String.◌∷◌ c s) t = rw (cons-append, length-cons) (ap (String.◌∷◌ c) (cut-append s t))

pub skip-append : (s t : String) → skip (count s) (s ++ t) ≡ t
unfolding skip
skip-append String.[] t = nil-append t
skip-append (String.◌∷◌ c s) t = rw (cons-append, length-cons) (skip-append s t)

-- Two names and a number, with colons between.
unfoldable pub colon_joined : String → String → ℕ → String
colon_joined a b n = a ++ ":" ++ b ++ ":" ++ decimal n
