-- ===== src/Transcript/Speakers/Steps.antt =====
-- The steps that precede an answer: introductions, hosts and calls.
use second_capture.Base.{
  ℕ, ◌+◌, ◌≡◌, ◌⊎◌, inl, inr, refl, sym, subst, String, str_eq, true, false, Option, none, some,
  is_some, Option-cases, Bool-cases, List, ◌∷◌, arith,
}
use second_capture.Transcript.Speakers.{
  Patterns, Segment, Names, Turn, filled, text_of, start, introduced, hosted, called,
}
use second_capture.Transcript.Speakers.Explained.{
  AnyOf, some-inj, pair-inj, Introduces, Calls, Known,
}

module _ (p : Patterns) (window : ℕ) (s : Segment) (before : List Segment) where
  -- What holds between the steps that precede an answer.
  abbrev pub Good : Turn → Type 0
  Good t =
      ((h : String) → t.names.host_name ≡ some h → AnyOf (Introduces p window h) (s ∷ before))
      × ((name : String) (until : ℕ)
          → t.names.pending ≡ some (name, until)
          → AnyOf (Calls p window name until) before
            ⊎ (Calls p window name until s × (is_some t.speaker ≡ true)))
      × ((sp : String) → t.speaker ≡ some sp → AnyOf (Introduces p window sp) (s ∷ before))
      × ((name : String) → t.addressed_to ≡ some name → (until : ℕ) × Calls p window name until s)
      × (t.proxy_for ≡ none)

  pub start-Good : (names : Names) → Known p window before names → Good (start names)
  start-Good names k = (
    λ h e. inr (k.0 h e),
    λ name until e. inl (k.1 name until e),
    λ sp e. absurd (cc e),
    λ name e. absurd (cc e),
    refl,
  )

  with_speaker :
      (t : Turn) (sp : String)
      → Good t
      → AnyOf (Introduces p window sp) (s ∷ before)
      → Good (record t { speaker = some sp })
  with_speaker t sp g i = (
    g.0,
    λ name until e. elim (g.1 name until e) [ inl b ↦ inl b | inr (c, _) ↦ inr (c, refl) ],
    λ sp' e. subst (λ x. AnyOf (Introduces p window x) (s ∷ before)) (some-inj sp sp' e) i,
    g.3,
    g.4,
  )

  with_host :
      (t : Turn) (h : String)
      → Good t
      → AnyOf (Introduces p window h) (s ∷ before)
      → Good (record t { names = record t.names { host_name = some h } })
  with_host t h g i = (
    λ h' e. subst (λ x. AnyOf (Introduces p window x) (s ∷ before)) (some-inj h h' e) i,
    g.1,
    g.2,
    g.3,
    g.4,
  )

  same_Good : (t t' : Turn) → t' ≡ t → Good t → Good t'
  same_Good t t' e g = subst Good (sym e) g

  abbrev named : String → Turn → Turn
  named h t = record t { names = record t.names { host_name = some h }; speaker = some h }

  introduced-none : (t : Turn) → p.intro (text_of s) ≡ none → introduced p (text_of s) t ≡ t
  unfolding introduced
  introduced-none t e = ground arith

  introduced-some :
      (t : Turn) (n : String)
      → p.intro (text_of s) ≡ some n
      → introduced p (text_of s) t ≡ named (p.capitalize n) t
  unfolding introduced
  introduced-some t n e = ground arith

  pub introduced-Good : (t : Turn) → Good t → Good (introduced p (text_of s) t)
  introduced-Good t g = elim (Option-cases (p.intro (text_of s))) [
    | inl e ↦ subst Good (sym (introduced-none t e)) g
    | inr (n, e) ↦
        let h = p.capitalize n in
        let i : AnyOf (Introduces p window h) (s ∷ before) = inl (n, e, refl) in
        subst Good (sym (introduced-some t n e)) (
          with_speaker (record t { names = record t.names { host_name = some h } }) h
            (with_host t h g i) i)
  ]

  pub filled_lem : (o : Option String) (x : String) → filled o ≡ some x → o ≡ some x
  filled_lem none x e = ground arith
  filled_lem (some y) x e = ground arith

  hosted_same :
      (t : Turn)
      → (filled t.names.host_name ≡ none) ⊎ (p.host (text_of s) ≡ false)
      → hosted p (text_of s) t ≡ t
  unfolding hosted
  hosted_same t e = ground arith

  hosted_yes :
      (t : Turn) (host : String)
      → filled t.names.host_name ≡ some host
      → p.host (text_of s) ≡ true
      → hosted p (text_of s) t ≡ record t { speaker = some host }
  unfolding hosted
  hosted_yes t host e hit = ground arith

  pub hosted-Good : (t : Turn) → Good t → Good (hosted p (text_of s) t)
  hosted-Good t g = elim (Option-cases (filled t.names.host_name)) [
    | inl e ↦ subst Good (sym (hosted_same t (inl e))) g
    | inr (host, e) ↦ elim (Bool-cases (p.host (text_of s))) [
      | inl hit ↦
          subst Good (sym (hosted_yes t host e hit))
            (with_speaker t host g (g.0 host (filled_lem t.names.host_name host e)))
      | inr idle ↦ subst Good (sym (hosted_same t (inr idle))) g
    ]
  ]

  abbrev calling : String → String → Turn → Turn
  calling host name t = record t {
    names = record t.names { pending = some (name, s.seq + window) };
    addressed_to = some name;
    speaker = some host;
  }

  called_same :
      (t : Turn)
      → (filled t.names.host_name ≡ none)
        ⊎ ((p.call (text_of s) ≡ none)
            ⊎ ((n : String) × (host : String) × (p.call (text_of s) ≡ some n)
                × (filled t.names.host_name ≡ some host)
                × (str_eq (p.capitalize n) host ≡ true)))
      → called p window s.seq (text_of s) t ≡ t
  unfolding called
  called_same t (inl e) = ground arith
  called_same t (inr (inl e)) = ground arith
  called_same t (inr (inr (n, host, e, f, g))) = ground arith

  called_yes :
      (t : Turn) (n host : String)
      → p.call (text_of s) ≡ some n
      → filled t.names.host_name ≡ some host
      → str_eq (p.capitalize n) host ≡ false
      → called p window s.seq (text_of s) t ≡ calling host (p.capitalize n) t
  unfolding called
  called_yes t n host e f g = ground arith

  with_call :
      (t : Turn) (host n : String)
      → Good t
      → AnyOf (Introduces p window host) (s ∷ before)
      → p.call (text_of s) ≡ some n
      → Good (calling host (p.capitalize n) t)
  with_call t host n g i e = (
    g.0,
    λ name until f.
        let (same, until_same) = pair-inj (p.capitalize n) name (s.seq + window) until f in
        inr ((n, e, sym same, sym until_same), refl),
    λ sp f. subst (λ x. AnyOf (Introduces p window x) (s ∷ before)) (some-inj host sp f) i,
    λ name f. (s.seq + window, (n, e, sym (some-inj (p.capitalize n) name f), refl)),
    g.4,
  )

  pub called-Good : (t : Turn) → Good t → Good (called p window s.seq (text_of s) t)
  called-Good t g = elim (Option-cases (filled t.names.host_name)) [
    | inl e ↦ subst Good (sym (called_same t (inl e))) g
    | inr (host, f) ↦ elim (Option-cases (p.call (text_of s))) [
      | inl e ↦ subst Good (sym (called_same t (inr (inl e)))) g
      | inr (n, e) ↦ elim (Bool-cases (str_eq (p.capitalize n) host)) [
        | inl same ↦ subst Good (sym (called_same t (inr (inr (n, host, e, f, same))))) g
        | inr apart ↦
            subst Good (sym (called_yes t n host e f apart))
              (with_call t host n g (g.0 host (filled_lem t.names.host_name host f)) e)
      ]
    ]
  ]
