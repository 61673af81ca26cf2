-- ===== src/WordErrors/Edits.antt =====
-- What the distance is to count: the fewest edits that turn one list of words into another.
use second_capture.Base.{
  ℕ, suc, ◌+◌, ◌≡◌, ◌∙◌, ◌≤◌, ◌⊎◌, inl, inr, refl, subst, ap, String, str_eq, eq_iff, eq_refl,
  Bool-cases, List, [], ◌∷◌, ◌++◌, length, arith,
}
use second_capture.WordErrors.{min3, cost}

-- A way to turn a list of words into another, with its number of edits.
pub data Edits : List String → List String → ℕ → Type 0 where
  done : Edits [] [] 0
  keep : (w : String) {xs ys : List String} {n : ℕ} → Edits xs ys n → Edits (w ∷ xs) (w ∷ ys) n
  replace :
      (v w : String) {xs ys : List String} {n : ℕ} → Edits xs ys n → Edits (v ∷ xs) (w ∷ ys) (suc n)
  delete : (v : String) {xs ys : List String} {n : ℕ} → Edits xs ys n → Edits (v ∷ xs) ys (suc n)
  insert : (w : String) {xs ys : List String} {n : ℕ} → Edits xs ys n → Edits xs (w ∷ ys) (suc n)

-- The distance by its recursive equations.
unfoldable pub distance : List String → List String → ℕ
distance [] ys = length ys
distance (x ∷ xs) [] = suc (length xs)
distance (x ∷ xs) (y ∷ ys) =
    min3 (distance xs (y ∷ ys) + 1) (distance (x ∷ xs) ys + 1) (distance xs ys + cost x y)

pub nil_right : (xs : List String) → distance xs [] ≡ length xs
unfolding distance
nil_right [] = refl
nil_right (x ∷ xs) = refl

after_delete : (x : String) (xs ys : List String) → distance (x ∷ xs) ys ≤ distance xs ys + 1
unfolding distance
after_delete x xs [] = omega (arith, nil_right xs)
after_delete x xs (y ∷ ys) = ground arith

after_insert : (y : String) (xs ys : List String) → distance xs (y ∷ ys) ≤ distance xs ys + 1
unfolding distance
after_insert y [] ys = omega arith
after_insert y (x ∷ xs) ys = ground arith

after_replace :
    (x y : String) (xs ys : List String) → distance (x ∷ xs) (y ∷ ys) ≤ distance xs ys + cost x y
unfolding distance
after_replace x y xs ys = ground arith

cost_same : (x : String) → cost x x ≡ 0
cost_same x = ground (arith, eq_refl x)

cost_small : (x y : String) → cost x y ≤ 1
cost_small x y = ground arith

-- No way has fewer edits than the distance.
pub distance-le : {xs ys : List String} {n : ℕ} → Edits xs ys n → distance xs ys ≤ n
unfolding distance
distance-le done = omega arith
distance-le (keep w {xs} {ys} {n} s) =
    omega (arith, distance-le s, after_replace w w xs ys, cost_same w)
distance-le (replace v w {xs} {ys} {n} s) =
    omega (arith, distance-le s, after_replace v w xs ys, cost_small v w)
distance-le (delete v {xs} {ys} {n} s) = omega (arith, distance-le s, after_delete v xs ys)
distance-le (insert w {xs} {ys} {n} s) = omega (arith, distance-le s, after_insert w xs ys)

min3-cases : (a b c : ℕ) → (min3 a b c ≡ a) ⊎ ((min3 a b c ≡ b) ⊎ (min3 a b c ≡ c))
min3-cases a b c = ground arith

-- Some way has as many edits as the distance.
pub fewest : (xs ys : List String) → Edits xs ys (distance xs ys)
unfolding distance
fewest [] [] = done
fewest [] (y ∷ ys) = insert y (fewest [] ys)
fewest (x ∷ xs) [] = subst (λ n. Edits (x ∷ xs) [] (suc n)) (nil_right xs) (delete x (fewest xs []))
fewest (x ∷ xs) (y ∷ ys) =
    let shorter : Edits xs (y ∷ ys) (distance xs (y ∷ ys)) = fewest xs (y ∷ ys) in
    let longer : Edits (x ∷ xs) ys (distance (x ∷ xs) ys) = fewest (x ∷ xs) ys in
    let both : Edits xs ys (distance xs ys) = fewest xs ys in
    elim (min3-cases (distance xs (y ∷ ys) + 1) (distance (x ∷ xs) ys + 1)
      (distance xs ys + cost x y)) [
        | inl e ↦ subst (Edits (x ∷ xs) (y ∷ ys)) (omega (arith, e)) (delete x shorter)
        | inr (inl e) ↦ subst (Edits (x ∷ xs) (y ∷ ys)) (omega (arith, e)) (insert y longer)
        | inr (inr e) ↦ elim (Bool-cases (str_eq x y)) [
          | inl same ↦
              subst (λ w. Edits (x ∷ xs) (w ∷ ys) (distance (x ∷ xs) (y ∷ ys)))
                ((eq_iff x y).0 same)
                (subst (Edits (x ∷ xs) (x ∷ ys)) (ground (arith, e)) (keep x both))
          | inr other ↦ subst (Edits (x ∷ xs) (y ∷ ys)) (ground (arith, e)) (replace x y both)
        ]
      ]

-- The words of the first list in reverse order before those of the second.
abbrev pub rev_onto : List String → List String → List String
rev_onto [] acc = acc
rev_onto (x ∷ xs) acc = rev_onto xs (x ∷ acc)

more : (n m : ℕ) → n + suc m ≡ suc n + m
more n m = omega arith

-- The same edits turn the reversed lists into each other.
pub Edits-rev_onto :
    {xs ys : List String} {n : ℕ} (us vs : List String) (m : ℕ)
    → Edits xs ys n
    → Edits us vs m
    → Edits (rev_onto xs us) (rev_onto ys vs) (n + m)
Edits-rev_onto us vs m done t = subst (Edits us vs) (omega arith) t
Edits-rev_onto us vs m (keep w s) t = Edits-rev_onto (w ∷ us) (w ∷ vs) m s (keep w t)
Edits-rev_onto us vs m (replace v w {xs} {ys} {n} s) t =
    subst (Edits _ _) (more n m) (Edits-rev_onto (v ∷ us) (w ∷ vs) (suc m) s (replace v w t))
Edits-rev_onto us vs m (delete v {xs} {ys} {n} s) t =
    subst (Edits _ _) (more n m) (Edits-rev_onto (v ∷ us) vs (suc m) s (delete v t))
Edits-rev_onto us vs m (insert w {xs} {ys} {n} s) t =
    subst (Edits _ _) (more n m) (Edits-rev_onto us (w ∷ vs) (suc m) s (insert w t))

append_nil : (xs : List String) → xs ++ [] ≡ xs
append_nil [] = refl
append_nil (x ∷ xs) = ap (λ t. x ∷ t) (append_nil xs)

rev_rev : (xs us vs : List String) → rev_onto (rev_onto xs us) vs ≡ rev_onto us (xs ++ vs)
rev_rev [] us vs = refl
rev_rev (x ∷ xs) us vs = rev_rev xs (x ∷ us) vs

pub rev_twice : (xs : List String) → rev_onto (rev_onto xs []) [] ≡ xs
rev_twice xs = rev_rev xs [] [] ∙ append_nil xs

pub length-rev_onto : (xs us : List String) → length (rev_onto xs us) ≡ length xs + length us
length-rev_onto [] us = omega arith
length-rev_onto (x ∷ xs) us = omega (arith, length-rev_onto xs (x ∷ us))
