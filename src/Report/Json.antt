-- ===== src/Report/Json.antt =====
-- JSON values as Python reads them, and the conversions of the report's code: `str(value or "")`,
-- lists of texts, scores and confidences.
use second_capture.Base.{
  ℕ, zero, suc, max, min, String, str_eq, Bool, true, false, Option, none, some, List, [], ◌∷◌,
  if◌then◌else◌,
}
use second_capture.Base.Text.{is_empty, strip, truncate}
use second_capture.Config.{ℤ, pos, negsuc}

mutual
  pub data Json (N : Type 0) : Type 0 where
    null : Json N
    boolean : Bool → Json N
    number : N → Json N
    text : String → Json N
    array : Items N → Json N
    object : Fields N → Json N

  pub data Items (N : Type 0) : Type 0 where
    nil : Items N
    cons : Json N → Items N → Items N

  pub data Fields (N : Type 0) : Type 0 where
    no_fields : Fields N
    with_field : String → Json N → Fields N → Fields N

-- Python's numbers: those of JSON, with `bool` and `str`, and the floats, with `float` of a number
-- and of a text, `none` where it raises, `int(round(x))`, `none` where it raises, `<`, and the
-- literals, given in hundredths. `str` of a list or a dictionary is a parameter too.
pub record Floats : Type 1 where
  pub N : Type 0
  pub F : Type 0
  pub is_zero : N → Bool
  pub show : N → String
  pub show_array : Items N → String
  pub show_object : Fields N → String
  pub float : N → F
  pub parse : String → Option F
  pub round : F → Option ℤ
  pub less : F → F → Bool
  pub hundredths : ℕ → F

module _ {N : Type 0} where
  -- `d.get(key)`.
  unfoldable pub get : String → Fields N → Option (Json N)
  get key no_fields = none
  get key (with_field k v rest) = let later = get key rest in if str_eq k key then some v else later

  unfoldable pub items_list : Items N → List (Json N)
  items_list nil = []
  items_list (cons x xs) = x ∷ items_list xs

  -- `d.get(key)` where it is a dictionary, else the empty one.
  unfoldable pub get_object : String → Fields N → Fields N
  unfolding get
  get_object key d = elim (get key d) [ some (object o) ↦ o | _ ↦ no_fields ]

module _ (f : Floats) where
  -- `str(value or "")`.
  unfoldable pub str_or_empty : Option (Json f.N) → String
  str_or_empty none = ""
  str_or_empty (some null) = ""
  str_or_empty (some (boolean b)) = if b then "True" else ""
  str_or_empty (some (number n)) = if f.is_zero n then "" else f.show n
  str_or_empty (some (text s)) = s
  str_or_empty (some (array nil)) = ""
  str_or_empty (some (array (cons x xs))) = f.show_array (cons x xs)
  str_or_empty (some (object no_fields)) = ""
  str_or_empty (some (object (with_field k v rest))) = f.show_object (with_field k v rest)

  abbrev pub stripped_field : String → Fields f.N → String
  stripped_field key d = strip (str_or_empty (get key d))

  -- The loop of `_to_str_list`; the first argument is what `limit` leaves.
  unfoldable pub take_texts : ℕ → List (Json f.N) → List String
  take_texts zero xs = []
  take_texts (suc n) [] = []
  take_texts (suc n) (x ∷ xs) =
      let t = strip (str_or_empty (some x)) in
      elim (is_empty t) [ true ↦ take_texts (suc n) xs | false ↦ truncate 280 t ∷ take_texts n xs ]

  -- `_to_str_list`; the limits of the source are positive.
  unfoldable pub to_str_list : ℕ → Option (Json f.N) → List String
  to_str_list limit none = []
  to_str_list limit (some v) = elim v [
    | array xs ↦ take_texts limit (items_list xs)
    | text s ↦ take_texts limit (text s ∷ [])
    | _ ↦ []
  ]

  -- `float(value)`, none where it raises.
  unfoldable pub to_float : Option (Json f.N) → Option f.F
  to_float none = none
  to_float (some null) = none
  to_float (some (boolean b)) = some (f.hundredths (if b then 100 else 0))
  to_float (some (number n)) = some (f.float n)
  to_float (some (text s)) = f.parse s
  to_float (some (array xs)) = none
  to_float (some (object o)) = none

  -- `max(1, min(5, raw))`.
  abbrev clamp : ℤ → ℕ
  clamp (pos n) = max 1 (min 5 n)
  clamp (negsuc n) = 1

  unfoldable pub clamp_score : Option (Json f.N) → ℕ → ℕ
  clamp_score value default = elim (to_float value) [
    | none ↦ clamp (pos default)
    | some x ↦ elim (f.round x) [ none ↦ clamp (pos default) | some z ↦ clamp z ]
  ]

  -- `min(1.0, raw)`, then `max(0.0, raw)`, which keep their first argument unless the second is
  -- less, or greater.
  unfoldable pub clamp_unit : f.F → f.F
  clamp_unit raw =
      let m = if f.less raw (f.hundredths 100) then raw else f.hundredths 100 in
      if f.less (f.hundredths 0) m then m else f.hundredths 0

  unfoldable pub clamp_confidence : Option (Json f.N) → f.F → f.F
  clamp_confidence value default = elim (to_float value) [
    | none ↦ clamp_unit default
    | some raw ↦ clamp_unit raw
  ]
