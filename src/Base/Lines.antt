-- ===== src/Base/Lines.antt =====
-- Python's text methods on lines, words and parts of a text: splitlines, split without an
-- argument, join, `in`, and the character at the end.
use Prim.Native.Nat.{ℕ, zero, suc}
use Prim.Native.Char.{Char, code}
use Prim.Native.String.{String, [], ◌∷◌, ◌++◌}
use mathlib.Core.Bool.{Bool, false, ◌&&◌, ◌||◌}
use mathlib.Core.List.{List, filter}
use mathlib.Core.List as L
use mathlib.Core.Option.{Option, none, some}
use text.Mathlib.Text.{starts_with}
use second_capture.Base.Tests.{leb, ◌==◌, if◌then◌else◌}
use second_capture.Base.Text.{is_space, is_empty, strip}

-- `len(s)`, in characters.
unfoldable pub size : String → ℕ
size [] = 0
size (c ∷ s) = suc (size s)

-- `sep.join(parts)`.
unfoldable pub join : String → List String → String
join sep L.[] = []
join sep (L.◌∷◌ x L.[]) = x
join sep (L.◌∷◌ x (L.◌∷◌ y ys)) = x ++ (sep ++ join sep (L.◌∷◌ y ys))

-- The boundaries of `str.splitlines`, of which a carriage return with a line feed is one.
is_break_code : ℕ → Bool
is_break_code n =
    (leb 10 n && leb n 13)
    || (leb 28 n && leb n 30)
    || (n == 0x85)
    || (n == 0x2028)
    || (n == 0x2029)

-- The first piece with one character more.
push : Char → List String → List String
push c L.[] = L.◌∷◌ (c ∷ []) L.[]
push c (L.◌∷◌ x xs) = L.◌∷◌ (c ∷ x) xs

starts_with_lf : String → Bool
starts_with_lf [] = false
starts_with_lf (c ∷ s) = code c == 10

-- The pieces between the breaks, the last of them empty where the text ends with a break.
break_pieces : String → List String
unfolding is_break_code push starts_with_lf
break_pieces [] = L.◌∷◌ [] L.[]
break_pieces (c ∷ s) =
    let rest = break_pieces s in
    if is_break_code (code c)
    then if (code c == 13) && starts_with_lf s then rest else L.◌∷◌ [] rest
    else push c rest

drop_last_empty : List String → List String
drop_last_empty L.[] = L.[]
drop_last_empty (L.◌∷◌ x L.[]) = if is_empty x then L.[] else L.◌∷◌ x L.[]
drop_last_empty (L.◌∷◌ x (L.◌∷◌ y ys)) = L.◌∷◌ x (drop_last_empty (L.◌∷◌ y ys))

unfoldable pub splitlines : String → List String
unfolding break_pieces drop_last_empty
splitlines s = drop_last_empty (break_pieces s)

-- The texts that are not empty, or hold more than spaces.
unfoldable pub filled_texts : List String → List String
filled_texts L.[] = L.[]
filled_texts (L.◌∷◌ x xs) = let rest = filled_texts xs in if is_empty x then rest else L.◌∷◌ x rest

-- `[line.strip() for line in lines if line.strip()]`.
unfoldable pub stripped_texts : List String → List String
unfolding strip
stripped_texts L.[] = L.[]
stripped_texts (L.◌∷◌ x xs) =
    let rest = stripped_texts xs in let t = strip x in if is_empty t then rest else L.◌∷◌ t rest

space_pieces : String → List String
unfolding push is_space
space_pieces [] = L.◌∷◌ [] L.[]
space_pieces (c ∷ s) =
    let rest = space_pieces s in if is_space c then L.◌∷◌ [] rest else push c rest

-- `s.split()`.
unfoldable pub words : String → List String
unfolding space_pieces filled_texts
words s = filled_texts (space_pieces s)

-- `part in s`.
unfoldable pub has_part : String → String → Bool
has_part part [] = is_empty part
has_part part (c ∷ s) = let rest = has_part part s in starts_with (c ∷ s) part || rest

unfoldable pub has_any_part : List String → String → Bool
unfolding has_part
has_any_part L.[] s = false
has_any_part (L.◌∷◌ x xs) s = let rest = has_any_part xs s in has_part x s || rest

-- `s.count(c)` for one character.
unfoldable pub count_char : ℕ → String → ℕ
count_char k [] = 0
count_char k (c ∷ s) = let rest = count_char k s in if code c == k then suc rest else rest

-- `s[-1]`, none for the empty text.
unfoldable pub last_char : String → Option Char
last_char [] = none
last_char (c ∷ []) = some c
last_char (c ∷ (d ∷ s)) = last_char (d ∷ s)

-- `s[-1] in ".!?"` for a text that is not empty.
unfoldable pub ends_a_sentence : String → Bool
unfolding last_char
ends_a_sentence s = elim (last_char s) [
  | none ↦ false
  | some c ↦ (code c == b'.') || (code c == b'!') || (code c == b'?')
]

-- `s[n:]`.
unfoldable pub drop : ℕ → String → String
drop zero s = s
drop (suc n) [] = []
drop (suc n) (c ∷ s) = drop n s
