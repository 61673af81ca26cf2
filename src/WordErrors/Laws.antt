-- ===== src/WordErrors/Laws.antt =====
-- The distance that the table computes, and the edits.
use second_capture.Base.{
  ℕ, suc, ◌↔◌, ◌+◌, ◌≡◌, ◌∙◌, ◌≤◌, refl, ap, subst, String, List, [], ◌∷◌, length, arith,
}
use second_capture.WordErrors.{
  count_from, fill_row, rows, last, levenshtein_distance, word_error_rate,
}
use second_capture.WordErrors.Edits.{
  Edits, keep, replace, delete, insert, distance, nil_right, distance-le, fewest, rev_onto,
  Edits-rev_onto, rev_twice, length-rev_onto, done,
}

-- The row of the words `rp`, read backwards, behind the words `hp` of the other list.
unfoldable row_rest : List String → List String → List String → List ℕ
row_rest rp hp [] = []
row_rest rp hp (h ∷ hs) = distance rp (h ∷ hp) ∷ row_rest rp (h ∷ hp) hs

fill_row_lem :
    (r : String) (rp hp hs : List String)
    → fill_row r (distance (r ∷ rp) hp) hs (distance rp hp ∷ row_rest rp hp hs)
      ≡ row_rest (r ∷ rp) hp hs
unfolding fill_row row_rest distance
fill_row_lem r rp hp [] = refl
fill_row_lem r rp hp (h ∷ hs) =
    ap (λ t. distance (r ∷ rp) (h ∷ hp) ∷ t) (fill_row_lem r rp (h ∷ hp) hs)

count_from_lem :
    (hp hs : List String) → count_from (suc (length hp)) (length hs) ≡ row_rest [] hp hs
unfolding count_from row_rest distance
count_from_lem hp [] = refl
count_from_lem hp (h ∷ hs) = ap (λ t. suc (length hp) ∷ t) (count_from_lem (h ∷ hp) hs)

rows_lem :
    (rp rs hyp : List String)
    → rows (suc (length rp)) rs hyp (distance rp [] ∷ row_rest rp [] hyp)
      ≡ (distance (rev_onto rs rp) [] ∷ row_rest (rev_onto rs rp) [] hyp)
unfolding rows distance
rows_lem rp [] hyp = refl
rows_lem rp (r ∷ rs) hyp =
    ap (λ t. rows (suc (suc (length rp))) rs hyp (suc (length rp) ∷ t)) (fill_row_lem r rp [] hyp)
    ∙ rows_lem (r ∷ rp) rs hyp

last_lem :
    (rp hp hs : List String)
    → last (distance rp hp ∷ row_rest rp hp hs) ≡ distance rp (rev_onto hs hp)
unfolding last row_rest
last_lem rp hp [] = refl
last_lem rp hp (h ∷ hs) = last_lem rp (h ∷ hp) hs

levenshtein_distance_lem :
    (ref hyp : List String)
    → levenshtein_distance ref hyp ≡ distance (rev_onto ref []) (rev_onto hyp [])
unfolding levenshtein_distance distance count_from
levenshtein_distance_lem [] hyp = omega (arith, length-rev_onto hyp [])
levenshtein_distance_lem (r ∷ rs) [] =
    omega (arith, length-rev_onto (r ∷ rs) [], nil_right (rev_onto (r ∷ rs) []))
levenshtein_distance_lem (r ∷ rs) (h ∷ hs) =
    ap (λ t. last (rows 1 (r ∷ rs) (h ∷ hs) (0 ∷ t))) (count_from_lem [] (h ∷ hs))
    ∙ ap last (rows_lem [] (r ∷ rs) (h ∷ hs))
    ∙ last_lem (rev_onto rs (r ∷ [])) [] (h ∷ hs)

-- The number that the table gives is the least number of words to keep out, put in or replace
-- that turns the reference into the hypothesis: some way has that many edits, and none has fewer.
pub levenshtein_distance_least :
    (ref hyp : List String)
    → Edits ref hyp (levenshtein_distance ref hyp)
      × ((n : ℕ) → Edits ref hyp n → levenshtein_distance ref hyp ≤ n)
levenshtein_distance_least ref hyp =
    let d = distance (rev_onto ref []) (rev_onto hyp []) in
    let way : Edits (rev_onto ref []) (rev_onto hyp []) d =
      fewest (rev_onto ref []) (rev_onto hyp []) in
    let turned : Edits (rev_onto (rev_onto ref []) []) (rev_onto (rev_onto hyp []) []) (d + 0) =
      Edits-rev_onto [] [] 0 way done in
    (
      subst (λ xs. Edits xs hyp (levenshtein_distance ref hyp)) (rev_twice ref)
          (subst (λ ys. Edits (rev_onto (rev_onto ref []) []) ys (levenshtein_distance ref hyp))
            (rev_twice hyp)
            (subst (Edits _ _) (omega (arith, levenshtein_distance_lem ref hyp)) turned)),
      λ n s.
          omega
            (arith, levenshtein_distance_lem ref hyp, distance-le (Edits-rev_onto [] [] 0 s done)),
    )

no_edits : {xs ys : List String} {n : ℕ} → Edits xs ys n → n ≡ 0 → xs ≡ ys
no_edits done z = refl
no_edits (keep w s) z = ap (λ t. w ∷ t) (no_edits s z)
no_edits (replace v w {xs} {ys} {n} s) z = absurd (omega (arith, z))
no_edits (delete v {xs} {ys} {n} s) z = absurd (omega (arith, z))
no_edits (insert w {xs} {ys} {n} s) z = absurd (omega (arith, z))

all_kept : (xs : List String) → Edits xs xs 0
all_kept [] = done
all_kept (x ∷ xs) = keep x (all_kept xs)

distance_zero : (ref hyp : List String) → (levenshtein_distance ref hyp ≡ 0) ↔ (ref ≡ hyp)
distance_zero ref hyp = (
  (λ z. no_edits (levenshtein_distance_least ref hyp).0 z),
  (λ same. omega (
    arith,
    (levenshtein_distance_least ref hyp).1 0 (subst (λ ys. Edits ref ys 0) same (all_kept ref)),
  )),
)

-- The rate is zero exactly if the two texts have the same words, and its denominator is never
-- zero.
word_error_rate_zero :
    (ref hyp : List String)
    → (((word_error_rate ref hyp).errors ≡ 0) ↔ (ref ≡ hyp)) × (1 ≤ (word_error_rate ref hyp).words)
unfolding word_error_rate
word_error_rate_zero [] [] = ground arith
word_error_rate_zero [] (h ∷ hs) = ground arith
word_error_rate_zero (r ∷ rs) hyp = (distance_zero (r ∷ rs) hyp, omega arith)
