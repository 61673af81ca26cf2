-- ===== src/Transcript/Structured/Laws.antt =====
-- The answers of `build_structured_rows`.
use second_capture.Base.{
  ℕ, suc, ◌≡◌, ◌≤◌, ◌↔◌, ◌⊎◌, inl, inr, refl, ap, sym, subst, ◌∙◌, String, Bool, true, false,
  Bool-cases, none, some, Option-cases, List, [], ◌∷◌, length, arith,
}
use second_capture.Base.Errors.{Exc, Outcome, ok, err, Outcome-cases}
use second_capture.Transcript.Structured.{
  split_transcript_units, Row, fallback_row, fallback_from, build_fallback_rows, insufficient_rows,
  total_chars, transcript_insufficient_reason, Rows, made, given, Structured, Model, answered_rows,
  sufficient_rows, build_structured_rows,
}

-- The rows are numbered in a row, from `first` on.
abbrev pub AreNumbered : ℕ → List Row → Type 0
AreNumbered first [] = Unit
AreNumbered first (r ∷ rs) = (r.segment_seq ≡ some first) × AreNumbered (suc first) rs

abbrev pub is_nil : {A : Type 0} → List A → Bool
is_nil [] = true
is_nil (x ∷ xs) = false

module _ (meeting_id source timestamp : String) where
  fallback-AreNumbered :
      (topic : String) (first : ℕ) (lines : List String)
      → AreNumbered first (fallback_from meeting_id source timestamp topic first lines)
        × (length (fallback_from meeting_id source timestamp topic first lines) ≡ length lines)
  unfolding fallback_from fallback_row
  fallback-AreNumbered topic first [] = (tt, refl)
  fallback-AreNumbered topic first (l ∷ ls) =
      let (numbered, same) = fallback-AreNumbered topic (suc first) ls in
      ((refl, numbered), ap suc same)

-- The transcript has enough text for its rows: two units, of 48 characters together.
abbrev pub IsEnough : String → Type 0
IsEnough transcript =
    (2 ≤ length (split_transcript_units transcript))
    × (48 ≤ total_chars (split_transcript_units transcript))

reason_iff :
    (transcript : String) → (transcript_insufficient_reason transcript ≡ none) ↔ IsEnough transcript
unfolding transcript_insufficient_reason
reason_iff transcript = ground arith

module _ (R : Type 0) where
  -- The language model is switched on and there, and its answer has these rows.
  abbrev pub Gives : Model R → List R → Type 0
  Gives model rs = (model.llm_enabled ≡ true) × (model.orchestrator ≡ ok (some (ok rs)))

  -- The rows that the model gave, of which there is one at least; or, where it gave none, one row
  -- for each unit of the transcript, numbered from 1 on.
  abbrev pub AreRows : Model R → String → Rows R → Type 0
  AreRows model transcript (given rs) = (is_nil rs ≡ false) × Gives model rs
  AreRows model transcript (made rows) =
      ((rs : List R) → Gives model rs → rs ≡ [])
      × AreNumbered 1 rows
      × (length rows ≡ length (split_transcript_units transcript))

  -- One row for each unit.
  abbrev AreMade : String → List Row → Type 0
  AreMade transcript rows =
      AreNumbered 1 rows × (length rows ≡ length (split_transcript_units transcript))

  made_rows :
      (meeting_id source timestamp transcript summary : String)
      → AreMade transcript (build_fallback_rows meeting_id source timestamp transcript summary)
  unfolding build_fallback_rows
  made_rows meeting_id source timestamp transcript summary =
      fallback-AreNumbered meeting_id source timestamp _ 1 (split_transcript_units transcript)

  answered_lem :
      (model : Model R) (transcript : String) (answer : Outcome (List R)) (fallback : List Row)
      → model.llm_enabled ≡ true
      → model.orchestrator ≡ ok (some answer)
      → AreMade transcript fallback
      → AreRows model transcript (answered_rows answer fallback)
  unfolding answered_rows
  answered_lem model transcript (err x) fallback on e h = (λ rs g. absurd (cc (g.1, e)), h.0, h.1)
  answered_lem model transcript (ok []) fallback on e h = (λ rs g. cc (g.1, e), h.0, h.1)
  answered_lem model transcript (ok (r ∷ rs)) fallback on e h = (refl, (on, e))

  sufficient_lem :
      (transcript : String) (model : Model R) (fallback : List Row)
      → AreMade transcript fallback
      → AreRows model transcript (sufficient_rows model fallback)
  sufficient_lem transcript model fallback h = elim (Bool-cases model.llm_enabled) [
    | inr off ↦
        subst (AreRows model transcript) (sym (off_lem off))
          (λ rs g. absurd (cc (g.0, off)), h.0, h.1)
    | inl enabled ↦ elim (Outcome-cases model.orchestrator) [
      | inr (x, e) ↦
          subst (AreRows model transcript) (sym (raised_lem enabled x e))
            (λ rs g. absurd (cc (g.1, e)), h.0, h.1)
      | inl (o, e) ↦ elim (Option-cases o) [
        | inl f ↦
            subst (AreRows model transcript) (sym (missing_lem enabled (e ∙ ap ok f)))
              (λ rs g. absurd (cc (g.1, e, f)), h.0, h.1)
        | inr (answer, f) ↦
            subst (AreRows model transcript) (sym (answer_lem enabled answer (e ∙ ap ok f)))
              (answered_lem model transcript answer fallback enabled (e ∙ ap ok f) h)
      ]
    ]
  ]
    where
      rows : Rows R
      rows = sufficient_rows model fallback

      off_lem : model.llm_enabled ≡ false → rows ≡ made fallback
      off_lem a = unfold sufficient_rows in rw a refl

      raised_lem :
          model.llm_enabled ≡ true → (x : Exc) → model.orchestrator ≡ err x → rows ≡ made fallback
      raised_lem a x e = unfold sufficient_rows in rw (a, e) refl

      missing_lem : model.llm_enabled ≡ true → model.orchestrator ≡ ok none → rows ≡ made fallback
      missing_lem a e = unfold sufficient_rows in rw (a, e) refl

      answer_lem :
          model.llm_enabled ≡ true
          → (answer : Outcome (List R)) → model.orchestrator ≡ ok (some answer)
          → rows ≡ answered_rows answer fallback
      answer_lem a answer e = unfold sufficient_rows in rw (a, e) refl

  enough_lem :
      (model : Model R) (meeting_id source timestamp transcript summary : String)
      → transcript_insufficient_reason transcript ≡ none
      → build_structured_rows model meeting_id source timestamp transcript summary ≡ record {
        status = "ok";
        message = "";
        rows =
            sufficient_rows model
              (build_fallback_rows meeting_id source timestamp transcript summary);
      }
  unfolding build_structured_rows
  enough_lem model meeting_id source timestamp transcript summary e = ground arith

  too_little_lem :
      (model : Model R) (meeting_id source timestamp transcript summary reason : String)
      → transcript_insufficient_reason transcript ≡ some reason
      → build_structured_rows model meeting_id source timestamp transcript summary ≡ record {
        status = "insufficient_data";
        message = reason;
        rows = made (insufficient_rows meeting_id source timestamp reason);
      }
  unfolding build_structured_rows
  too_little_lem model meeting_id source timestamp transcript summary reason e = ground arith

  -- A transcript is answered with rows, or as insufficient with one row that gives the reason.
  abbrev pub IsAnswered :
      Model R → (meeting_id source timestamp transcript : String) → Structured R → Type 0
  IsAnswered model meeting_id source timestamp transcript out =
      ((out.status ≡ "ok") × IsEnough transcript × AreRows model transcript out.rows)
      ⊎ ((out.status ≡ "insufficient_data")
          × (¬ (IsEnough transcript))
          × (out.rows ≡ made (insufficient_rows meeting_id source timestamp out.message)))

  too_little :
      (transcript reason : String)
      → transcript_insufficient_reason transcript ≡ some reason
      → ¬ (IsEnough transcript)
  too_little transcript reason e enough = cc (e, (reason_iff transcript).1 enough)

  -- Whatever the language model does, a transcript is answered as insufficient exactly if it has
  -- fewer than two units or fewer than 48 characters in them, with one row that gives the reason;
  -- else with the model's rows where it gave any, or with one row for each unit, numbered from 1.
  pub build_structured_rows-IsAnswered :
      (model : Model R) (meeting_id source timestamp transcript summary : String)
      → IsAnswered model meeting_id source timestamp transcript
          (build_structured_rows model meeting_id source timestamp transcript summary)
  build_structured_rows-IsAnswered model meeting_id source timestamp transcript summary =
      elim (Option-cases (transcript_insufficient_reason transcript)) [
        | inl e ↦
            subst (IsAnswered model meeting_id source timestamp transcript)
              (sym (enough_lem model meeting_id source timestamp transcript summary e))
              (inl (
                refl,
                (reason_iff transcript).0 e,
                sufficient_lem transcript model
                    (build_fallback_rows meeting_id source timestamp transcript summary)
                    (made_rows meeting_id source timestamp transcript summary),
              ))
        | inr (reason, e) ↦
            subst (IsAnswered model meeting_id source timestamp transcript)
              (sym (too_little_lem model meeting_id source timestamp transcript summary reason e))
              (inr (refl, too_little transcript reason e, refl))
      ]
