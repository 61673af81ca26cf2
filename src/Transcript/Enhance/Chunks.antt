-- ===== src/Transcript/Enhance/Chunks.antt =====
-- The chunks that are given to the language model (`_split_text_for_llm`).
use package.text.Mathlib.TextLemmas.{append_assoc, nil-append, cons-append}
use second_capture.Base.{
  ℕ, ◌+◌, ◌≡◌, ◌≤◌, ◌∙◌, ap, sym, subst, refl, ◌⊎◌, inl, inr, String, ◌<>◌, true, false, Bool-cases,
  ltb, List, [], ◌∷◌, ◌++◌, All, arith,
}
use second_capture.Base.Lines.{size, join, splitlines}
use second_capture.Base.Sizes.{size-append}
use second_capture.Config.{ℤ}
use second_capture.Transcript.Speakers.Explained.{AnyOf}
use second_capture.Transcript.Enhance.{
  lines_with_text, chunk_limit, split_lines, split_text_for_llm,
}

newline_size : (t : String) → size ("\n" <> t) ≡ size t + 1
unfolding size
newline_size t = rw (cons-append "\n" "" t, nil-append t) (omega arith)

join-append :
    (c : String) (cs : List String) (d : String) (ds : List String)
    → join "\n" ((c ∷ cs) ++ (d ∷ ds)) ≡ join "\n" (c ∷ cs) <> ("\n" <> join "\n" (d ∷ ds))
unfolding join
join-append c [] d ds = refl
join-append c (x ∷ xs) d ds =
    ap (λ t. c <> ("\n" <> t)) (join-append x xs d ds)
    ∙ ap (λ t. c <> t) (sym (append_assoc "\n" (join "\n" (x ∷ xs)) ("\n" <> join "\n" (d ∷ ds))))
    ∙ sym (append_assoc c ("\n" <> join "\n" (x ∷ xs)) ("\n" <> join "\n" (d ∷ ds)))

join_one : (c : String) → join "\n" (c ∷ []) ≡ c
unfolding join
join_one c = refl

snoc-append :
    {A : Type 0} (xs : List A) (y : A) (zs : List A) → (xs ++ (y ∷ [])) ++ zs ≡ xs ++ (y ∷ zs)
snoc-append [] y zs = refl
snoc-append (x ∷ xs) y zs = ap (λ l. x ∷ l) (snoc-append xs y zs)

append-nil : {A : Type 0} (xs : List A) → xs ++ [] ≡ xs
append-nil [] = refl
append-nil (x ∷ xs) = ap (λ l. x ∷ l) (append-nil xs)

-- A chunk within the limit, or of one line alone.
abbrev pub Fits : ℕ → List String → String → Type 0
Fits limit lines chunk = (size chunk ≤ limit) ⊎ AnyOf (λ l. l ≡ chunk) lines

module _ (limit : ℕ) where
  -- One step of the loop that starts a chunk, and one that goes on with it.
  starts_chunk :
      (line : String) (rest : List String) (c : String) (cs : List String) (n : ℕ)
      → ltb limit (n + (size line + 1)) ≡ true
      → split_lines limit (line ∷ rest) (c ∷ cs) n
        ≡ join "\n" (c ∷ cs) ∷ split_lines limit rest (line ∷ []) (size line)
  unfolding split_lines
  starts_chunk line rest c cs n h = ground arith

  goes_on :
      (line : String) (rest : List String) (c : String) (cs : List String) (n : ℕ)
      → ltb limit (n + (size line + 1)) ≡ false
      → split_lines limit (line ∷ rest) (c ∷ cs) n
        ≡ split_lines limit rest ((c ∷ cs) ++ (line ∷ [])) (n + (size line + 1))
  unfolding split_lines
  goes_on line rest c cs n h = ground arith

  first_line :
      (line : String) (rest : List String) (n : ℕ)
      → split_lines limit (line ∷ rest) [] n ≡ split_lines limit rest (line ∷ []) (n + size line)
  unfolding split_lines
  first_line line rest n = refl

  -- The chunks of a loop that has lines at hand: they are some, and joined they are the lines.
  abbrev Holds : List String → List String → List String → Type 0
  Holds chunks current rest =
      (d : String) × (ds : List String) × (chunks ≡ d ∷ ds)
      × (join "\n" chunks ≡ join "\n" (current ++ rest))

  split_lines-Holds :
      (rest : List String) (c : String) (cs : List String) (n : ℕ)
      → Holds (split_lines limit rest (c ∷ cs) n) (c ∷ cs) rest
  split_lines-Holds [] c cs n =
      unfold split_lines in
      (
        join "\n" (c ∷ cs),
        [],
        refl,
        join_one (join "\n" (c ∷ cs)) ∙ ap (λ l. join "\n" (c ∷ l)) (sym (append-nil cs)),
      )
  split_lines-Holds (line ∷ rest) c cs n = elim (Bool-cases (ltb limit (n + (size line + 1)))) [
    | inr room ↦
        let next = split_lines-Holds rest c (cs ++ (line ∷ [])) (n + (size line + 1)) in
        subst (λ chunks. Holds chunks (c ∷ cs) (line ∷ rest)) (sym (goes_on line rest c cs n room))
          (next.0, next.1, next.2, next.3 ∙ ap (λ l. join "\n" (c ∷ l)) (snoc-append cs line rest))
    | inl full ↦
        let (d, ds, e, same) = split_lines-Holds rest line [] (size line) in
        let one : String = join "\n" (c ∷ cs) in
        subst (λ chunks. Holds chunks (c ∷ cs) (line ∷ rest))
          (sym (starts_chunk line rest c cs n full))
          (
            one,
            split_lines limit rest (line ∷ []) (size line),
            refl,
            ap (λ l. join "\n" (one ∷ l)) e
                ∙ join-append one [] d ds
                ∙ ap (λ t. t <> ("\n" <> join "\n" (d ∷ ds))) (join_one one)
                ∙ ap (λ t. one <> ("\n" <> t)) (ap (join "\n") (sym e) ∙ same)
                ∙ sym (join-append c cs line rest),
          )
  ]

  -- The lines at hand, joined, have the length that is counted, and fit, or are one line.
  abbrev Counted : List String → List String → ℕ → Type 0
  Counted lines [] n = n ≡ 0
  Counted lines (c ∷ cs) n = (n ≡ size (join "\n" (c ∷ cs))) × Fits limit lines (join "\n" (c ∷ cs))

  counted_more :
      (c : String) (cs : List String) (line : String) (n : ℕ)
      → n ≡ size (join "\n" (c ∷ cs))
      → n + (size line + 1) ≡ size (join "\n" ((c ∷ cs) ++ (line ∷ [])))
  counted_more c cs line n h =
      rw
        (
          join-append c cs line [],
          join_one line,
          size-append (join "\n" (c ∷ cs)) ("\n" <> line),
          newline_size line,
        )
        (omega arith)

  below : (n : ℕ) → ltb limit n ≡ false → n ≤ limit
  below n h = ground arith

  split_lines-Fits :
      (lines rest : List String) (current : List String) (n : ℕ)
      → Counted lines current n
      → All (λ l. AnyOf (λ x. x ≡ l) lines) rest
      → All (Fits limit lines) (split_lines limit rest current n)
  split_lines-Fits lines [] [] n h there = unfold split_lines in tt
  split_lines-Fits lines [] (c ∷ cs) n h there = unfold split_lines in (h.1, tt)
  split_lines-Fits lines (line ∷ rest) [] n h (own, there) =
      let counted : n + size line ≡ size (join "\n" (line ∷ [])) =
        rw (join_one line) (omega (arith, h)) in
      subst (All (Fits limit lines)) (sym (first_line line rest n)) (
        split_lines-Fits lines rest (line ∷ []) (n + size line)
          (counted, subst (Fits limit lines) (sym (join_one line)) (inr own)) there)
  split_lines-Fits lines (line ∷ rest) (c ∷ cs) n h (own, there) =
      elim (Bool-cases (ltb limit (n + (size line + 1)))) [
        | inr room ↦
            let m = n + (size line + 1) in
            let counted = counted_more c cs line n h.0 in
            let fits : Fits limit lines (join "\n" ((c ∷ cs) ++ (line ∷ []))) =
              inl (omega (arith, counted, below m room)) in
            subst (All (Fits limit lines)) (sym (goes_on line rest c cs n room))
              (split_lines-Fits lines rest ((c ∷ cs) ++ (line ∷ [])) m (counted, fits) there)
        | inl full ↦ subst (All (Fits limit lines)) (sym (starts_chunk line rest c cs n full)) (
          h.1,
          split_lines-Fits lines rest (line ∷ []) (size line)
              (
                ap size (sym (join_one line)),
                subst (Fits limit lines) (sym (join_one line)) (inr own),
              )
              there,
        )
      ]

  all_lines : (lines : List String) → join "\n" (split_lines limit lines [] 0) ≡ join "\n" lines
  all_lines [] = unfold split_lines in refl
  all_lines (line ∷ rest) =
      ap (join "\n") (first_line line rest 0) ∙ (split_lines-Holds rest line [] (0 + size line)).3

All-weaken :
    (x : String) (l m : List String)
    → All (λ y. AnyOf (λ z. z ≡ y) l) m
    → All (λ y. AnyOf (λ z. z ≡ y) (x ∷ l)) m
All-weaken x l [] h = tt
All-weaken x l (y ∷ m) (h, rest) = (inr h, All-weaken x l m rest)

each_in : (l : List String) → All (λ y. AnyOf (λ z. z ≡ y) l) l
each_in [] = tt
each_in (x ∷ l) = (inl refl, All-weaken x l l (each_in l))

-- The chunks hold, in order, every line that has more than spaces, and nothing else; each has at
-- most the configured number of characters, or is one line that has more.
pub split_text_for_llm_keeps :
    (max_chars : ℤ) (s : String)
    → let lines = lines_with_text (splitlines s) in
      (join "\n" (split_text_for_llm max_chars s) ≡ join "\n" lines)
      × All (Fits (chunk_limit max_chars) lines) (split_text_for_llm max_chars s)
unfolding split_text_for_llm
split_text_for_llm_keeps max_chars s =
    let lines = lines_with_text (splitlines s) in
    (
      all_lines (chunk_limit max_chars) lines,
      split_lines-Fits (chunk_limit max_chars) lines lines [] 0 refl (each_in lines),
    )
