-- ===== src/Transcript/Speakers/Answers.antt =====
-- The answer of a speaker, or of another for them, and the other ends of a turn.
use second_capture.Base.{
  ℕ, ◌≡◌, ◌≤◌, ◌⊎◌, inl, inr, refl, sym, subst, String, ◌<>◌, Bool, true, false, not, ◌&&◌, ◌||◌,
  leb, Option, none, some, is_some, Option-cases, Bool-cases, List, ◌∷◌, arith, if◌then◌else◌,
}
use second_capture.Transcript.Speakers.{
  Patterns, Segment, Turn, filled, filled_pending, text_of, answered_names, answered, decision_of,
}
use second_capture.Transcript.Speakers.Explained.{
  AnyOf, some-inj, Introduces, Calls, Known, Explained,
}
use second_capture.Transcript.Speakers.Steps.{Good, filled_lem}

module _ (p : Patterns) (window : ℕ) (s : Segment) (before : List Segment) where
  -- What holds of the turn when the loop goes on.
  abbrev pub Ends : Turn → Type 0
  Ends t = Known p window (s ∷ before) t.names × Explained p window before s (decision_of p s.seq t)

  now_or_before :
      (name : String) (until : ℕ) (B : Type 0)
      → AnyOf (Calls p window name until) before ⊎ (Calls p window name until s × B)
      → AnyOf (Calls p window name until) (s ∷ before)
  now_or_before name until B (inl b) = inr b
  now_or_before name until B (inr (c, _)) = inl c

  pub Good-Ends : (t : Turn) → Good p window s before t → Ends t
  Good-Ends t g = (
    (g.0, λ name until e. now_or_before name until (is_some t.speaker ≡ true) (g.1 name until e)),
    (refl, λ sp e. inl (g.2 sp e), g.3, λ name e. absurd (cc (e, g.4))),
  )

  cleared :
      (t : Turn) → Good p window s before t → Known p window (s ∷ before) (answered_names p t.names)
  cleared t g = (g.0, λ name until e. absurd (cc e))

  abbrev standing_in : String → Turn → Turn
  standing_in name t = record t {
    names = answered_names p t.names;
    speaker = some ("proxy_for_" <> name);
    proxy_for = some name;
  }

  proxy-Ends :
      (t : Turn) (name : String) (until : ℕ)
      → Good p window s before t
      → AnyOf (Calls p window name until) (s ∷ before)
      → Ends (standing_in name t)
  proxy-Ends t name until g c = (
    cleared t g,
    (
      refl,
      λ sp e. inr (inl (name, until, c, sym (some-inj ("proxy_for_" <> name) sp e))),
      g.3,
      λ n e.
          (until, subst (λ x. AnyOf (Calls p window x until) (s ∷ before)) (some-inj name n e) c),
    ),
  )

  abbrev passed : Bool → String → Turn → Turn
  passed gone name t = record t {
    names = answered_names p t.names;
    speaker = elim (filled t.names.host_name) [ none ↦ t.speaker | some host ↦ some host ];
    proxy_for = if gone then some name else none;
  }

  back_to_host :
      (t : Turn) (sp : String) (o : Option String)
      → Good p window s before t
      → filled t.names.host_name ≡ o
      → elim o [ none ↦ t.speaker | some host ↦ some host ] ≡ some sp
      → AnyOf (Introduces p window sp) (s ∷ before)
  back_to_host t sp none g e f = g.2 sp f
  back_to_host t sp (some host) g e f =
      subst (λ x. AnyOf (Introduces p window x) (s ∷ before)) (some-inj host sp f)
        (g.0 host (filled_lem p window s before t.names.host_name host e))

  gone_name :
      (gone : Bool) (name n : String) → (if gone then some name else none) ≡ some n → name ≡ n
  gone_name true name n e = some-inj name n e
  gone_name false name n e = absurd (cc e)

  passed-Ends :
      (gone : Bool) (t : Turn) (name : String) (until : ℕ)
      → Good p window s before t
      → AnyOf (Calls p window name until) (s ∷ before)
      → Ends (passed gone name t)
  passed-Ends gone t name until g c = (
    cleared t g,
    (
      refl,
      λ sp e. inl (back_to_host t sp (filled t.names.host_name) g refl e),
      g.3,
      λ n e. (
        until,
        subst (λ x. AnyOf (Calls p window x until) (s ∷ before)) (gone_name gone name n e) c,
      ),
    ),
  )

  abbrev answering : String → Turn → Turn
  answering name t = record t { names = answered_names p t.names; speaker = some name }

  answer-Ends :
      (t : Turn) (name : String) (until : ℕ)
      → Good p window s before t
      → AnyOf (Calls p window name until) before
      → s.seq ≤ until
      → Ends (answering name t)
  answer-Ends t name until g c in_time = (
    cleared t g,
    (
      refl,
      λ sp e. inr (
          inr (
            until,
            subst (λ x. AnyOf (Calls p window x until) before) (some-inj name sp e) c,
            in_time,
          )),
      g.3,
      λ n e. absurd (cc (e, g.4)),
    ),
  )

  pending_lem :
      (o : Option (String × ℕ)) (name : String) (until : ℕ)
      → filled_pending o ≡ some (name, until)
      → o ≡ some (name, until)
  pending_lem none name until e = absurd (cc e)
  pending_lem (some (a, m)) name until e = ground arith

  -- The four ways in which a turn ends.
  answered_cases :
      (t : Turn)
      → (answered p s.seq (text_of s) t ≡ t)
        ⊎ ((name : String) × (until : ℕ) × (t.names.pending ≡ some (name, until))
            × ((answered p s.seq (text_of s) t ≡ standing_in name t)
                ⊎ ((answered p s.seq (text_of s) t ≡ passed (p.absent (text_of s)) name t)
                    ⊎ ((answered p s.seq (text_of s) t ≡ answering name t)
                        × (s.seq ≤ until)
                        × (is_some t.speaker ≡ false)))))
  unfolding answered
  answered_cases t = elim (Option-cases (filled_pending t.names.pending)) [
    | inl e ↦ inl (ground arith)
    | inr ((name, until), e) ↦
        let f = pending_lem t.names.pending name until e in
        elim (Bool-cases (p.proxy (text_of s))) [
          | inl x ↦ inr (name, until, f, inl (ground arith))
          | inr x ↦ elim (Bool-cases (p.absent (text_of s) || p.skip (text_of s))) [
            | inl y ↦ inr (name, until, f, inr (inl (ground arith)))
            | inr y ↦ elim (Bool-cases (leb s.seq until && not (is_some t.speaker))) [
              | inl z ↦ inr (name, until, f, inr (inr (ground arith, ground arith, ground arith)))
              | inr z ↦ inl (ground arith)
            ]
          ]
        ]
  ]

  earlier :
      (t : Turn) (name : String) (until : ℕ)
      → is_some t.speaker ≡ false
      → AnyOf (Calls p window name until) before
        ⊎ (Calls p window name until s × (is_some t.speaker ≡ true))
      → AnyOf (Calls p window name until) before
  earlier t name until silent (inl b) = b
  earlier t name until silent (inr (c, spoken)) = absurd (cc (silent, spoken))

  pub answered-Ends : (t : Turn) → Good p window s before t → Ends (answered p s.seq (text_of s) t)
  answered-Ends t g = elim (answered_cases t) [
    | inl e ↦ subst Ends (sym e) (Good-Ends t g)
    | inr (name, until, f, inl e) ↦ subst Ends (sym e) (
        proxy-Ends t name until g
          (now_or_before name until (is_some t.speaker ≡ true) (g.1 name until f)))
    | inr (name, until, f, inr (inl e)) ↦ subst Ends (sym e) (
        passed-Ends (p.absent (text_of s)) t name until g
          (now_or_before name until (is_some t.speaker ≡ true) (g.1 name until f)))
    | inr (name, until, f, inr (inr (e, in_time, silent))) ↦
        subst Ends (sym e)
          (answer-Ends t name until g (earlier t name until silent (g.1 name until f)) in_time)
  ]
