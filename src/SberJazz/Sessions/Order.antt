-- ===== src/SberJazz/Sessions/Order.antt =====
-- The order of the listing.
use second_capture.Base.{
  ℕ, zero, suc, ◌≡◌, ◌≤◌, inl, inr, sym, subst, String, List, [], ◌∷◌, length, take, All, leb,
  Bool-cases, arith,
}
use second_capture.Base.Errors.{Outcome, ok, Outcome-cases}
use second_capture.Config.{ℤ, at_least}
use second_capture.SberJazz.World.{SessionState, Env}
use second_capture.SberJazz.Store.{W}
use second_capture.SberJazz.Sessions.{
  meeting_ids, states_of, time_of, place_state, newest_first, list_sberjazz_sessions, sorted_states,
}

length-take : {A : Type 0} (n : ℕ) (xs : List A) → length (take n xs) ≤ n
length-take zero xs = omega arith
length-take (suc n) [] = omega arith
length-take (suc n) (x ∷ xs) = omega (arith, length-take n xs)

All-take : {A : Type 0} (P : A → Type 0) (n : ℕ) (xs : List A) → All P xs → All P (take n xs)
All-take P zero xs h = tt
All-take P (suc n) [] h = tt
All-take P (suc n) (x ∷ xs) h = (h.0, All-take P n xs h.1)

module _ (e : Env) (arrange : List String → List String) (uuid : String → String) where
  abbrev time : ℕ → SessionState → ℕ
  time now s = time_of e arrange uuid now s

  -- No state is newer than one before it.
  abbrev pub IsNewestFirst : ℕ → List SessionState → Type 0
  IsNewestFirst now [] = Unit
  IsNewestFirst now (s ∷ rest) =
      All (λ t. time_of e arrange uuid now t ≤ time_of e arrange uuid now s) rest
      × IsNewestFirst now rest

  abbrev NoNewer : ℕ → ℕ → SessionState → Type 0
  NoNewer now bound t = time_of e arrange uuid now t ≤ bound

  NoNewer-mono :
      (now a b : ℕ) (xs : List SessionState)
      → a ≤ b
      → All (NoNewer now a) xs
      → All (NoNewer now b) xs
  NoNewer-mono now a b [] le h = tt
  NoNewer-mono now a b (x ∷ xs) le h = (omega (arith, h.0), NoNewer-mono now a b xs le h.1)

  All-place_state :
      (P : SessionState → Type 0) (now : ℕ) (s : SessionState) (xs : List SessionState)
      → P s
      → All P xs
      → All P (place_state e arrange uuid now s xs)
  unfolding place_state
  All-place_state P now s [] p h = (p, tt)
  All-place_state P now s (t ∷ rest) p h = elim (Bool-cases (leb (time now t) (time now s))) [
    | inl later ↦ rw later (p, h)
    | inr earlier ↦ rw earlier (h.0, All-place_state P now s rest p h.1)
  ]

  place_state-IsNewestFirst :
      (now : ℕ) (s : SessionState) (xs : List SessionState)
      → IsNewestFirst now xs
      → IsNewestFirst now (place_state e arrange uuid now s xs)
  unfolding place_state
  place_state-IsNewestFirst now s [] h = (tt, tt)
  place_state-IsNewestFirst now s (t ∷ rest) h = elim (Bool-cases (leb (time now t) (time now s))) [
    | inl later ↦
        rw later
          ((ground arith, NoNewer-mono now (time now t) (time now s) rest (ground arith) h.0), h)
    | inr earlier ↦ rw earlier (
      All-place_state (NoNewer now (time now t)) now s rest (ground arith) h.0,
      place_state-IsNewestFirst now s rest h.1,
    )
  ]

  newest_first-IsNewestFirst :
      (now : ℕ) (xs : List SessionState) → IsNewestFirst now (newest_first e arrange uuid now xs)
  unfolding newest_first
  newest_first-IsNewestFirst now [] = tt
  newest_first-IsNewestFirst now (s ∷ rest) =
      place_state-IsNewestFirst now s (newest_first e arrange uuid now rest)
        (newest_first-IsNewestFirst now rest)

  take-IsNewestFirst :
      (now n : ℕ) (xs : List SessionState) → IsNewestFirst now xs → IsNewestFirst now (take n xs)
  take-IsNewestFirst now zero xs h = tt
  take-IsNewestFirst now (suc n) [] h = tt
  take-IsNewestFirst now (suc n) (x ∷ xs) h =
      (All-take (NoNewer now (time now x)) n xs h.0, take-IsNewestFirst now n xs h.1)

  -- A listing that returns gives at most the limit, which counts as one if it is less, and no
  -- session in it was changed later than one before it.
  pub list_sberjazz_sessions-IsNewestFirst :
      (limit : ℤ) (w : W e) (states : List SessionState)
      → (list_sberjazz_sessions e arrange uuid limit w).0 ≡ ok states
      → (length states ≤ at_least 1 limit)
        × IsNewestFirst (list_sberjazz_sessions e arrange uuid limit w).1.clock states
  unfolding list_sberjazz_sessions sorted_states
  list_sberjazz_sessions-IsNewestFirst limit w states h =
      elim (Outcome-cases (states_of e arrange uuid ids v).0) [
        | inl (xs, found) ↦
            let sorted = take n (newest_first e arrange uuid u.clock xs) in
            let out : list_sberjazz_sessions e arrange uuid limit w ≡ (ok sorted, u) =
              ground arith in
            let same : sorted ≡ states = cc (out, h) in
            subst
              (λ (r : Outcome (List SessionState) × W e).
                (length states ≤ n) × IsNewestFirst r.1.clock states)
              (sym out)
              (subst (λ ys. (length ys ≤ n) × IsNewestFirst u.clock ys) same
                (
                  length-take n _,
                  take-IsNewestFirst u.clock n _ (newest_first-IsNewestFirst u.clock xs),
                ))
        | inr (x, failed) ↦ absurd (ground arith)
      ]
    where
      n : ℕ
      n = at_least 1 limit

      ids : List String
      ids = (meeting_ids e arrange uuid w).0

      v : W e
      v = (meeting_ids e arrange uuid w).1

      u : W e
      u = (states_of e arrange uuid ids v).1
