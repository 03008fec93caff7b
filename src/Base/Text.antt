-- ===== src/Base/Text.antt =====
-- Text: `String.trim` and decimal numerals as the services use them.
use Prim.Native.Nat.{ℕ, zero, suc, ◌/◌, ◌%◌, ◌+◌}
use Prim.Native.Char.{Char, code}
use Prim.Native.Nat.{ℕ, zero, suc, ◌+◌, ◌-◌, ◌*◌, ◌/◌, ◌%◌}
use Prim.Native.String.{String, ◌++◌}
use mathlib.Core.Path.{◌≡◌, refl}
use mathlib.Core.Bool.{Bool, true, false, ◌&&◌, ◌||◌}
use mathlib.Core.List.{List, [], ◌∷◌}
use text.Mathlib.Text.{◌==◌ as str_eq}
use church_management.Base.Tests.{ltb, leb, ◌==◌, if◌then◌else◌}

-- White space and line ends of the language.
abbrev pub is_space : Char → Bool
is_space c =
    (leb 9 (code c) && leb (code c) 13)
    || code c == 32
    || code c == 0xa0
    || code c == 0x1680
    || (leb 0x2000 (code c) && leb (code c) 0x200a)
    || code c == 0x2028
    || code c == 0x2029
    || code c == 0x202f
    || code c == 0x205f
    || code c == 0x3000
    || code c == 0xfeff

abbrev pub is_empty : String → Bool
is_empty String.[] = true
is_empty (String.◌∷◌ c s) = false

trim_start : String → String
trim_start String.[] = String.[]
trim_start (String.◌∷◌ c s) = let rest = trim_start s in if is_space c then rest else String.◌∷◌ c s

trim_end : String → String
trim_end String.[] = String.[]
trim_end (String.◌∷◌ c s) =
    let rest = trim_end s in if is_space c && is_empty rest then String.[] else String.◌∷◌ c rest

unfoldable pub trim : String → String
unfolding trim_start trim_end
trim s = trim_end (trim_start s)

-- `ids.includes(x)` for permission codes.
abbrev pub includes_text : List String → String → Bool
includes_text [] x = false
includes_text (y ∷ ys) x = str_eq y x || includes_text ys x

abbrev digit : ℕ → String
digit d =
    if d == 0
    then "0"
    else if d == 1
    then "1"
    else if d == 2
    then "2"
    else if d == 3
    then "3"
    else if d == 4
    then "4"
    else if d == 5
    then "5"
    else if d == 6
    then "6"
    else if d == 7
    then "7"
    else if d == 8
    then "8"
    else "9"

-- The decimal digits of a number in front of a text; the fuel exceeds the number of digits.
digits : ℕ → ℕ → String → String
digits zero n out = out
digits (suc fuel) n out =
    let longer = digit (n % 10) ++ out in
    let rest = digits fuel (n / 10) longer in if ltb n 10 then longer else rest

-- `String(n)` of a number that is not negative.
unfoldable pub decimal : ℕ → String
unfolding digits
decimal n = digits (suc n) n ""

decimal_tests : (decimal 0 ≡ "0") × (decimal 1905 ≡ "1905")
unfolding decimal
decimal_tests = (refl, refl)

-- `Number(s.slice(0, n))` of a text that begins with n digits.
unfoldable pub leading_number : ℕ → ℕ → String → ℕ
leading_number zero acc s = acc
leading_number (suc n) acc String.[] = acc
leading_number (suc n) acc (String.◌∷◌ c s) = leading_number n (acc * 10 + (code c - 48)) s

abbrev text_length : String → ℕ
text_length String.[] = 0
text_length (String.◌∷◌ c s) = suc (text_length s)

abbrev zeros : ℕ → String → String
zeros zero s = s
zeros (suc n) s = "0" ++ zeros n s

-- `s.padStart(n, '0')`
abbrev pub pad_start : ℕ → String → String
pad_start n s = zeros (n - text_length s) s
