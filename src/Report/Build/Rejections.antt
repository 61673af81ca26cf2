-- ===== src/Report/Build/Rejections.antt =====
-- A recommendation that says "no hire" (`_decision_from_recommendation`).
use package.text.Mathlib.Text.{starts_with}
use package.text.Mathlib.TextEquality.{starts_with_iff}
use package.text.Mathlib.TextLemmas.{nil-append, cons-append, append_assoc}
use Prim.Native.Char.{Char}
use second_capture.Base.{
  ◌≡◌, inl, inr, sym, subst, String, ◌<>◌, true, false, [], ◌∷◌, ◌⊎◌, refl, arith,
}
use second_capture.Base.Text.{is_empty, norm}
use second_capture.Base.Lines.{has_part, has_any_part}
use second_capture.Report.Quality.{Quality, is_low}
use second_capture.Report.Build.{decision_from_recommendation}

later_part :
    (part : String) (c : Char) (s : String)
    → has_part part s ≡ true
    → has_part part (String.◌∷◌ c s) ≡ true
unfolding has_part
later_part part c s h = ground arith

part_at_once :
    (part : String) (c : Char) (s : String)
    → starts_with (String.◌∷◌ c s) part ≡ true
    → has_part part (String.◌∷◌ c s) ≡ true
unfolding has_part
part_at_once part c s h = ground arith

part_of_append : (part u v : String) → has_part part v ≡ true → has_part part (u <> v) ≡ true
part_of_append part String.[] v h = subst (λ t. has_part part t ≡ true) (sym (nil-append v)) h
part_of_append part (String.◌∷◌ c u) v h =
    subst (λ t. has_part part t ≡ true) (sym (cons-append c u v))
      (later_part part c (u <> v) (part_of_append part u v h))

hire_at_once : (s : String) → starts_with s "hire" ≡ true → has_part "hire" s ≡ true
hire_at_once String.[] h = absurd (cc h)
hire_at_once (String.◌∷◌ c s) h = part_at_once "hire" c s h

hire_in_no_hire : (u : String) → has_part "hire" ("no hire" <> u) ≡ true
hire_in_no_hire u =
    subst (λ t. has_part "hire" t ≡ true) (sym (append_assoc "no " "hire" u))
      (part_of_append "hire" "no " ("hire" <> u)
        (hire_at_once ("hire" <> u) ((starts_with_iff ("hire" <> u) "hire").1 (u, refl))))

split_part :
    (c : Char) (s part : String)
    → has_part part (String.◌∷◌ c s) ≡ true
    → (starts_with (String.◌∷◌ c s) part ≡ true) ⊎ (has_part part s ≡ true)
unfolding has_part
split_part c s part h = ground arith

says_hire : (s : String) → has_part "no hire" s ≡ true → has_part "hire" s ≡ true
says_hire String.[] h = unfold has_part is_empty in absurd (cc h)
says_hire (String.◌∷◌ c s) h = elim (split_part c s "no hire" h) [
  | inl now ↦
      let (u, e) = (starts_with_iff (String.◌∷◌ c s) "no hire").0 now in
      subst (λ t. has_part "hire" t ≡ true) e (hire_in_no_hire u)
  | inr later ↦ later_part "hire" c s (says_hire s later)
]

any_part : (a b d s : String) → has_part b s ≡ true → has_any_part (a ∷ b ∷ d ∷ []) s ≡ true
unfolding has_any_part
any_part a b d s h = ground arith

-- A recommendation that says "no hire", in any case of its letters, on a transcript that is not of
-- low quality, becomes the decision "yes".
pub no_hire_is_yes :
    (recommendation : String) (quality : Quality)
    → has_part "no hire" (norm recommendation) ≡ true
    → is_low quality ≡ false
    → decision_from_recommendation recommendation quality ≡ "yes"
unfolding decision_from_recommendation
no_hire_is_yes recommendation quality h strong =
    rw
      (
        strong,
        any_part "strong yes" "hire" "нанять" (norm recommendation)
            (says_hire (norm recommendation) h),
      )
      refl
