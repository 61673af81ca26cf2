-- ===== src/Report/Scores/Overall.antt =====
-- The overall score beside the scores of the card.
use second_capture.Base.{
  ℕ, ◌+◌, ◌*◌, ◌≡◌, ◌≤◌, refl, sym, subst, max, min, Option, List, [], ◌∷◌, All, arith,
}
use second_capture.Base.Dict.{lookup, insert}
use second_capture.Report.Json.{Json, Fields, Floats}
use second_capture.Report.Quality.{Level, junior, middle, senior, normalized_level}
use second_capture.Report.Scores.{
  rubric_dimensions, weights_of, ScoreItem, normalize_scorecard, scores_by_dim, weighted_sum,
  weighted_overall_score,
}
use second_capture.Report.Scores.Normalized.{IsCard, normalize_scorecard-IsCard}

-- The weighted sum of four scores, in the order of the rubric.
abbrev pub weigh : Level → ℕ → ℕ → ℕ → ℕ → ℕ
weigh junior a b c d = a * 25 + (b * 30 + (c * 25 + d * 20))
weigh middle a b c d = a * 30 + (b * 30 + (c * 20 + d * 20))
weigh senior a b c d = a * 35 + (b * 25 + (c * 15 + d * 25))

weigh_least :
    (level : Level) (lo a b c d : ℕ)
    → lo ≤ a
    → lo ≤ b
    → lo ≤ c
    → lo ≤ d
    → lo * 100 ≤ weigh level a b c d
weigh_least junior lo a b c d ha hb hc hd = omega arith
weigh_least middle lo a b c d ha hb hc hd = omega arith
weigh_least senior lo a b c d ha hb hc hd = omega arith

weigh_greatest :
    (level : Level) (hi a b c d : ℕ)
    → a ≤ hi
    → b ≤ hi
    → c ≤ hi
    → d ≤ hi
    → weigh level a b c d ≤ hi * 100
weigh_greatest junior hi a b c d ha hb hc hd = omega arith
weigh_greatest middle hi a b c d ha hb hc hd = omega arith
weigh_greatest senior hi a b c d ha hb hc hd = omega arith

abbrev clamped : ℕ → ℕ
clamped n = max 1 (min 5 n)

clamped_same : (n : ℕ) → 1 ≤ n → n ≤ 5 → clamped n ≡ n
clamped_same n lo hi = omega arith

module _ (f : Floats) where
  sum_lem :
      (level : Level) (a b c d : ℕ)
      → weighted_sum f rubric_dimensions (weights_of level) (
          ("technical_depth", a)
          ∷ ("problem_solving", b)
          ∷ ("communication", c)
          ∷ ("ownership", d)
          ∷ [])
        ≡ weigh level a b c d
  unfolding weighted_sum weights_of lookup
  sum_lem junior a b c d = omega arith
  sum_lem middle a b c d = omega arith
  sum_lem senior a b c d = omega arith

  table_lem :
      (a b c d : ScoreItem f.F)
      → a.dimension ≡ "technical_depth"
      → b.dimension ≡ "problem_solving"
      → c.dimension ≡ "communication"
      → d.dimension ≡ "ownership"
      → scores_by_dim f (a ∷ b ∷ c ∷ d ∷ []) []
        ≡ ("technical_depth", clamped a.score)
          ∷ ("problem_solving", clamped b.score)
          ∷ ("communication", clamped c.score)
          ∷ ("ownership", clamped d.score)
          ∷ []
  unfolding scores_by_dim insert
  table_lem a b c d ea eb ec ed = rw (ea, eb, ec, ed) refl

  -- Between `lo` and `hi`.
  abbrev pub Within : ℕ → ℕ → ScoreItem f.F → Type 0
  Within lo hi item = (lo ≤ item.score) × (item.score ≤ hi)

  overall_lem :
      (a b c d : ScoreItem f.F) (context : Fields f.N)
      → IsCard f rubric_dimensions (a ∷ b ∷ c ∷ d ∷ [])
      → weighted_overall_score f (a ∷ b ∷ c ∷ d ∷ []) context
        ≡ max 100 (min 500 (weigh (normalized_level f context) a.score b.score c.score d.score))
  unfolding weighted_overall_score
  overall_lem a b c d context (ha, (hb, (hc, (hd, _)))) =
      rw
        (
          table_lem a b c d ha.0 hb.0 hc.0 hd.0,
          sum_lem (normalized_level f context) (clamped a.score) (clamped b.score) (clamped c.score)
              (clamped d.score),
          clamped_same a.score ha.1.0 ha.1.1,
          clamped_same b.score hb.1.0 hb.1.1,
          clamped_same c.score hc.1.0 hc.1.1,
          clamped_same d.score hd.1.0 hd.1.1,
        )
        refl

  in_bounds :
      (lo hi score n : ℕ)
      → 1 ≤ score
      → score ≤ 5
      → lo ≤ score
      → score ≤ hi
      → lo * 100 ≤ n
      → n ≤ hi * 100
      → (lo * 100 ≤ max 100 (min 500 n)) × (max 100 (min 500 n) ≤ hi * 100)
  in_bounds lo hi score n a b c d e g = (omega arith, omega arith)

  card_between :
      (card : List (ScoreItem f.F)) (context : Fields f.N) (lo hi : ℕ)
      → IsCard f rubric_dimensions card
      → All (Within lo hi) card
      → (lo * 100 ≤ weighted_overall_score f card context)
        × (weighted_overall_score f card context ≤ hi * 100)
  card_between [] context lo hi h w = absurd h
  card_between (a ∷ []) context lo hi h w = absurd h.1
  card_between (a ∷ b ∷ []) context lo hi h w = absurd h.1.1
  card_between (a ∷ b ∷ c ∷ []) context lo hi h w = absurd h.1.1.1
  card_between (a ∷ b ∷ c ∷ d ∷ (e ∷ rest)) context lo hi h w = absurd h.1.1.1.1
  card_between (a ∷ b ∷ c ∷ d ∷ []) context lo hi h (wa, (wb, (wc, (wd, _)))) =
      let level = normalized_level f context in
      subst (λ n. (lo * 100 ≤ n) × (n ≤ hi * 100)) (sym (overall_lem a b c d context h))
        (in_bounds lo hi a.score (weigh level a.score b.score c.score d.score) h.0.1.0 h.0.1.1 wa.0
          wa.1 (weigh_least level lo a.score b.score c.score d.score wa.0 wb.0 wc.0 wd.0)
          (weigh_greatest level hi a.score b.score c.score d.score wa.1 wb.1 wc.1 wd.1))

  -- Whatever the model answers and whatever the level is, the overall score lies between the least
  -- and the greatest score of the card, in hundredths.
  pub overall_score_between :
      (value : Option (Json f.N)) (context : Fields f.N) (lo hi : ℕ)
      → All (Within lo hi) (normalize_scorecard f value)
      → (lo * 100 ≤ weighted_overall_score f (normalize_scorecard f value) context)
        × (weighted_overall_score f (normalize_scorecard f value) context ≤ hi * 100)
  overall_score_between value context lo hi w =
      card_between (normalize_scorecard f value) context lo hi (normalize_scorecard-IsCard f value)
        w
