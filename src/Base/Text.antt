-- ===== src/Base/Text.antt =====
-- Python's text methods that the sources call: strip, lower, split and the printing of numbers.
-- `lower` is exact for comparisons with ASCII and Russian words: beside A to Z and the Russian
-- capitals, only U+212A has one of their letters alone for its lower case.
use Prim.Native.Nat.{ℕ, zero, suc, ◌+◌, ◌-◌, ◌*◌, ◌/◌, ◌%◌}
use Prim.Native.Char.{Char, code}
use Prim.Native.String.{String, [], ◌∷◌, ◌++◌, char_at}
use mathlib.Core.Bool.{Bool, true, false, ◌&&◌, ◌||◌}
use mathlib.Core.List.{List}
use mathlib.Core.List as L
use mathlib.Core.Option.{Option, none, some}
use text.Mathlib.Text.{◌==◌ as str_eq}
use second_capture.Base.Tests.{ltb, leb, ◌==◌, if◌then◌else◌}

-- The characters of `str.isspace`.
is_space_code : ℕ → Bool
is_space_code n =
    (leb 9 n && leb n 13)
    || (leb 28 n && leb n 32)
    || (n == 0x85)
    || (n == 0xa0)
    || (n == 0x1680)
    || (leb 0x2000 n && leb n 0x200a)
    || (n == 0x2028)
    || (n == 0x2029)
    || (n == 0x202f)
    || (n == 0x205f)
    || (n == 0x3000)

unfoldable pub is_space : Char → Bool
unfolding is_space_code
is_space c = is_space_code (code c)

unfoldable pub is_empty : String → Bool
is_empty [] = true
is_empty (_ ∷ _) = false

-- `x or d` on an optional text.
unfoldable pub text_or : String → Option String → String
text_or d none = d
text_or d (some s) = if is_empty s then d else s

unfoldable pub lstrip : String → String
unfolding is_space
lstrip [] = []
lstrip (c ∷ s) = let rest = lstrip s in if is_space c then rest else c ∷ s

unfoldable pub rstrip : String → String
unfolding is_space is_empty
rstrip [] = []
rstrip (c ∷ s) = let r = rstrip s in if is_empty r && is_space c then [] else c ∷ r

unfoldable pub strip : String → String
unfolding lstrip rstrip
strip s = rstrip (lstrip s)

unfoldable pub lower_char : Char → Char
lower_char c =
    let n = code c in
    if leb 65 n && leb n 90
    then char_at "abcdefghijklmnopqrstuvwxyz" (n - 65)
    else if leb 0x410 n && leb n 0x42f
    then char_at "абвгдежзийклмнопрстуфхцчшщъыьэюя" ((n - 0x410) * 2)
    else if n == 0x401
    then "ё"
    else if n == 0x212a
    then "k"
    else c

unfoldable pub lower : String → String
unfolding lower_char
lower [] = []
lower (c ∷ s) = lower_char c ∷ lower s

-- `(x or "").strip().lower()`.
unfoldable pub norm : String → String
unfolding strip lower
norm s = lower (strip s)

-- The pieces between characters that satisfy `sep`.
pieces : (Char → Bool) → String → String → List String
pieces sep acc [] = L.◌∷◌ acc L.[]
pieces sep acc (c ∷ s) =
    if sep c then L.◌∷◌ acc (pieces sep [] s) else pieces sep (acc ++ (c ∷ [])) s

unfoldable pub split : (Char → Bool) → String → List String
unfolding pieces
split sep s = pieces sep [] s

unfoldable pub is_comma : Char → Bool
is_comma c = code c == b','

unfoldable pub contains : String → List String → Bool
contains k L.[] = false
contains k (L.◌∷◌ x xs) = str_eq x k || contains k xs

-- `bool(a & b)` on two sets.
unfoldable pub meets : List String → List String → Bool
unfolding contains
meets L.[] b = false
meets (L.◌∷◌ x xs) b = contains x b || meets xs b

-- `s[:n]`.
unfoldable pub truncate : ℕ → String → String
truncate zero s = []
truncate (suc n) [] = []
truncate (suc n) (c ∷ s) = c ∷ truncate n s

-- The decimal digits of a number; `suc n` rounds are more than its digits.
show_fuel : ℕ → ℕ → String → String
show_fuel zero n acc = acc
show_fuel (suc f) n acc =
    let digit = char_at "0123456789" (n % 10) ∷ acc in
    let rest = show_fuel f (n / 10) digit in if ltb n 10 then digit else rest

unfoldable pub show_nat : ℕ → String
unfolding show_fuel
show_nat n = show_fuel (suc n) n []

digits_value : String → ℕ → Option ℕ
digits_value [] n = some n
digits_value (c ∷ s) n =
    if leb b'0' (code c) && leb (code c) b'9'
    then digits_value s (n * 10 + (code c - b'0'))
    else none

-- `int(s)` for a text of ASCII digits; `none` for a text that `str.isdigit` refuses.
unfoldable pub read_nat : String → Option ℕ
unfolding digits_value
read_nat [] = none
read_nat (c ∷ s) = digits_value (c ∷ s) 0
