-- ===== src/Report/Build/Laws.antt =====
-- What every report decides, and what a transcript of low quality decides.
use second_capture.Base.{
  ◌≡◌, ◌≤◌, inl, inr, refl, sym, subst, String, true, false, Bool-cases, Option, none, some,
  Option-cases, List, [], ◌∷◌, arith,
}
use second_capture.Base.Text.{contains, strip}
use second_capture.Base.Errors.{Exc, Outcome, ok, err, Outcome-cases}
use second_capture.Report.Json.{
  Json, null, boolean, number, text, array, object, Fields, Floats, get_object, stripped_field,
}
use second_capture.Report.Quality.{
  Stats, transcript_stats, Quality, quality_label, is_low, is_comparable,
}
use second_capture.Report.Build.{
  decision_statuses, decision_from_recommendation, Report, default_report, status_of,
  normalize_llm_report, Model, unavailable_report, report_from, build_report,
}

abbrev IsKnown : String → Type 0
IsKnown status = contains status decision_statuses ≡ true

known :
    IsKnown "yes"
    × IsKnown "lean_yes"
    × IsKnown "lean_no"
    × IsKnown "no"
    × IsKnown "insufficient_data"
unfolding contains
known = (refl, refl, refl, refl, refl)

recommended :
    (recommendation : String) (quality : Quality)
    → IsKnown (decision_from_recommendation recommendation quality)
unfolding decision_from_recommendation
recommended recommendation quality = ground (arith, known)

module _ (f : Floats) where
  -- The status of a report is one of the known ones, none is decided on a transcript of low
  -- quality, and such a transcript, or one of fewer than 4 turns, is not comparable.
  abbrev pub IsDecided : String → Report f → Type 0
  IsDecided transcript r =
      (contains r.status decision_statuses ≡ true)
      × (r.quality ≡ quality_label (transcript_stats transcript))
      × (is_low r.quality ≡ true → r.status ≡ "insufficient_data")
      × (r.comparable ≡ true → (is_low r.quality ≡ false) × (4 ≤ r.stats.speaker_turns))

  low_recommended :
      (recommendation : String) (quality : Quality)
      → is_low quality ≡ true
      → decision_from_recommendation recommendation quality ≡ "insufficient_data"
  unfolding decision_from_recommendation
  low_recommended recommendation quality h = ground arith

  status_lem :
      (raw_decision : Fields f.N) (recommendation : String) (quality : Quality)
      → (contains (status_of f raw_decision recommendation quality) decision_statuses ≡ true)
        × (is_low quality ≡ true
            → status_of f raw_decision recommendation quality ≡ "insufficient_data")
  unfolding status_of
  status_lem raw_decision recommendation quality =
      (ground (arith, recommended recommendation quality, known), λ weak. ground arith)

  comparable_lem :
      (s : Stats)
      → is_comparable s ≡ true
      → (is_low (quality_label s) ≡ false) × (4 ≤ s.speaker_turns)
  unfolding is_comparable
  comparable_lem s h = ground arith

  default-IsDecided :
      (transcript : String) (context : Fields f.N) (summary : String) (bullets : List String)
      (recommendation : String)
      → IsDecided transcript (default_report f transcript context summary bullets recommendation)
  unfolding default_report
  default-IsDecided transcript context summary bullets recommendation =
      let s = transcript_stats transcript in
      (
        recommended recommendation (quality_label s),
        refl,
        low_recommended recommendation (quality_label s),
        comparable_lem s,
      )

  llm-IsDecided :
      (answer : Fields f.N) (transcript : String) (context : Fields f.N)
      → IsDecided transcript (normalize_llm_report f answer transcript context)
  unfolding normalize_llm_report
  llm-IsDecided answer transcript context =
      let s = transcript_stats transcript in
      let (known, weak) =
        status_lem (get_object "decision" answer) (stripped_field f "recommendation" answer)
          (quality_label s) in
      (known, refl, weak, comparable_lem s)

  report_from-IsDecided :
      (answer : Outcome (Json f.N)) (transcript : String) (context : Fields f.N)
      → IsDecided transcript (report_from f answer transcript context)
  unfolding report_from
  report_from-IsDecided (err x) transcript context =
      default-IsDecided transcript context "LLM unavailable; basic report"
        ("Pipeline OK" ∷ "LLM unavailable" ∷ []) "insufficient_data"
  report_from-IsDecided (ok (object o)) transcript context = llm-IsDecided o transcript context
  report_from-IsDecided (ok null) transcript context =
      default-IsDecided transcript context "LLM returned invalid data; basic report"
        ("Pipeline OK" ∷ "Invalid LLM response" ∷ []) "insufficient_data"
  report_from-IsDecided (ok (boolean b)) transcript context =
      default-IsDecided transcript context "LLM returned invalid data; basic report"
        ("Pipeline OK" ∷ "Invalid LLM response" ∷ []) "insufficient_data"
  report_from-IsDecided (ok (number n)) transcript context =
      default-IsDecided transcript context "LLM returned invalid data; basic report"
        ("Pipeline OK" ∷ "Invalid LLM response" ∷ []) "insufficient_data"
  report_from-IsDecided (ok (text s)) transcript context =
      default-IsDecided transcript context "LLM returned invalid data; basic report"
        ("Pipeline OK" ∷ "Invalid LLM response" ∷ []) "insufficient_data"
  report_from-IsDecided (ok (array xs)) transcript context =
      default-IsDecided transcript context "LLM returned invalid data; basic report"
        ("Pipeline OK" ∷ "Invalid LLM response" ∷ []) "insufficient_data"

  -- Whatever the language model does and answers, every report has one of the known statuses; the
  -- status is `insufficient_data` where the transcript is of low quality, and a report is comparable
  -- only where it is not, and at least 4 turns were counted.
  pub build_report-IsDecided :
      (model : Model f) (transcript : String) (context : Fields f.N)
      → IsDecided (strip transcript) (build_report f model transcript context)
  unfolding build_report
  build_report-IsDecided model transcript context = elim (Bool-cases model.llm_enabled) [
    | inr off ↦ subst Goal (sym (off_lem off)) (
        default-IsDecided t context "LLM disabled; basic report"
          ("Pipeline OK" ∷ "LLM enrichment disabled" ∷ []) "insufficient_data")
    | inl enabled ↦ elim (Outcome-cases model.orchestrator) [
      | inr (x, e) ↦ subst Goal (sym (raised_lem enabled x e)) unavailable
      | inl (o, e) ↦ elim (Option-cases o) [
        | inl missing ↦ subst Goal (sym (missing_lem enabled o e missing)) unavailable
        | inr (complete_json, found) ↦
            subst Goal (sym (answer_lem enabled o e complete_json found))
              (report_from-IsDecided (complete_json t) t context)
      ]
    ]
  ]
    where
      t : String
      t = strip transcript

      Goal : Report f → Type 0
      Goal r = IsDecided t r

      unavailable : IsDecided t (unavailable_report f t context)
      unavailable =
          default-IsDecided t context "LLM unavailable; basic report"
            ("Pipeline OK" ∷ "LLM unavailable" ∷ []) "insufficient_data"

      off_lem :
          model.llm_enabled ≡ false
          → build_report f model transcript context
            ≡ default_report f t context "LLM disabled; basic report"
                ("Pipeline OK" ∷ "LLM enrichment disabled" ∷ [])
                "insufficient_data"
      off_lem e = rw e refl

      raised_lem :
          model.llm_enabled ≡ true
          → (x : Exc) → model.orchestrator ≡ err x
          → build_report f model transcript context ≡ unavailable_report f t context
      raised_lem a x e = rw (a, e) refl

      missing_lem :
          model.llm_enabled ≡ true
          → (o : Option (String → Outcome (Json f.N))) → model.orchestrator ≡ ok o
          → o ≡ none
          → build_report f model transcript context ≡ unavailable_report f t context
      missing_lem a o e g = rw (a, e, g) refl

      answer_lem :
          model.llm_enabled ≡ true
          → (o : Option (String → Outcome (Json f.N))) → model.orchestrator ≡ ok o
          → (c : String → Outcome (Json f.N)) → o ≡ some c
          → build_report f model transcript context ≡ report_from f (c t) t context
      answer_lem a o e c g = rw (a, e, g) refl
