-- ===== src/Base/Dict.antt =====
-- Python dictionaries with text keys, as association lists.
use second_capture.Base.{
  String, str_eq, eq_iff, eq_refl, ◌≡◌, refl, Option, none, some, List, [], ◌∷◌, arith,
  if◌then◌else◌,
}

module _ {V : Type 0} where
  -- `d[key] = x`, which keeps the place of a key that is there.
  unfoldable pub insert : String → V → List (String × V) → List (String × V)
  insert key x [] = (key, x) ∷ []
  insert key x ((a, y) ∷ d) =
      let rest = insert key x d in if str_eq a key then (key, x) ∷ d else (a, y) ∷ rest

  -- `d.pop(key, None)`.
  unfoldable pub remove : String → List (String × V) → List (String × V)
  remove key [] = []
  remove key ((a, y) ∷ d) = let rest = remove key d in if str_eq a key then rest else (a, y) ∷ rest

  -- `d.get(key)`.
  unfoldable pub lookup : String → List (String × V) → Option V
  lookup key [] = none
  lookup key ((a, y) ∷ d) = let rest = lookup key d in if str_eq a key then some y else rest

  pub lookup-remove :
      (key j : String) (d : List (String × V))
      → lookup j (remove key d) ≡ (if str_eq key j then none else lookup j d)
  unfolding lookup remove
  lookup-remove key j [] = ground arith
  lookup-remove key j ((a, y) ∷ d) =
      ground (arith, lookup-remove key j d, eq_iff a key, eq_iff a j, eq_iff key j)

  pub lookup-insert :
      (key j : String) (x : V) (d : List (String × V))
      → lookup j (insert key x d) ≡ (if str_eq key j then some x else lookup j d)
  unfolding insert lookup
  lookup-insert key j x [] = refl
  lookup-insert key j x ((a, y) ∷ d) =
      ground (arith, lookup-insert key j x d, eq_iff a j, eq_iff a key, eq_iff key j)

  pub lookup-insert_self :
      (key : String) (x : V) (d : List (String × V)) → lookup key (insert key x d) ≡ some x
  lookup-insert_self key x d = simp (eq_refl, lookup-insert)
