-- ===== src/Tests/Jobs.antt =====
-- The theorems on the reconciliation job and on the word error rate at concrete inputs.
use second_capture.Base.{ℕ, ◌≡◌, ◌≤◌, refl, String, Bool, true, none, some, List, [], ◌∷◌}
use second_capture.Base.Errors.{Exc, ok, err, Op}
use second_capture.Config.{pos, at_least}
use second_capture.SberJazz.Store.{W}
use second_capture.SberJazz.Sessions.{ReconcileResult, reconcile_sberjazz_sessions}
use second_capture.SberJazz.Job.{chosen, maybe_auto_reset_circuit_breaker, run}
use second_capture.SberJazz.Job.Laws.{run_ends}
use second_capture.WordErrors.{rows, fill_row, count_from, last, levenshtein_distance}
use second_capture.WordErrors.Edits.{Edits}
use second_capture.WordErrors.Laws.{levenshtein_distance_least}
use second_capture.Tests.Memory.{env, world}

abbrev tripped : W env
tripped = record (world []) {
  breaker = some (record {
    state = "open";
    consecutive_failures = 2;
    opened_at = none;
    last_error = none;
    updated_at = "0";
  });
}

abbrev no_ingest : String → ℕ → String → String → Op (W env) Bool
no_ingest m n content key w = (ok true, w)

abbrev as_given : List String → List String
as_given ids = ids

abbrev one_token : String → String
one_token m = m

run_ends_example :
    let u = (maybe_auto_reset_circuit_breaker env tripped).1 in
    let reconciled =
      reconcile_sberjazz_sessions env as_given one_token
        (pos (at_least 1 (chosen env no_ingest as_given one_token none)))
        u in
    ((r : ReconcileResult)
      → reconciled.0 ≡ ok r
      → (run env no_ingest as_given one_token none tripped).0 ≡ ok (some r))
    × ((x : Exc)
        → reconciled.0 ≡ err x
        → (run env no_ingest as_given one_token none tripped).0 ≡ err x)
run_ends_example = run_ends env no_ingest as_given one_token none tripped refl

levenshtein_distance_least_example :
    Edits
      ("good" ∷ "day" ∷ [])
      ("good" ∷ "old" ∷ "days" ∷ [])
      (levenshtein_distance ("good" ∷ "day" ∷ []) ("good" ∷ "old" ∷ "days" ∷ []))
    × ((n : ℕ)
        → Edits ("good" ∷ "day" ∷ []) ("good" ∷ "old" ∷ "days" ∷ []) n
        → levenshtein_distance ("good" ∷ "day" ∷ []) ("good" ∷ "old" ∷ "days" ∷ []) ≤ n)
levenshtein_distance_least_example =
    levenshtein_distance_least ("good" ∷ "day" ∷ []) ("good" ∷ "old" ∷ "days" ∷ [])

abbrev day : List String
day = "day" ∷ []

abbrev days : List String
days = "days" ∷ []

-- One word put in, and one replaced.
two_edits : levenshtein_distance ("good" ∷ "day" ∷ []) ("good" ∷ "old" ∷ "days" ∷ []) ≡ 2
unfolding levenshtein_distance rows fill_row count_from last
two_edits = refl
