-- ===== src/Transcript/Speakers/Explained.antt =====
-- Why a segment has the speaker that it has.
use second_capture.Base.{ℕ, ◌+◌, ◌≡◌, ◌≤◌, ◌⊎◌, String, ◌<>◌, Option, some, List, [], ◌∷◌, arith}
use second_capture.Transcript.Speakers.{Patterns, Segment, SpeakerDecision, Names, text_of}

-- One of the elements satisfies the predicate.
abbrev pub AnyOf {ℓ} : {A : Type ℓ} → (A → Type 0) → List A → Type 0
AnyOf P [] = ⊥
AnyOf P (x ∷ xs) = P x ⊎ AnyOf P xs

pub some-inj : {A : Type 0} (x y : A) → some x ≡ some y → x ≡ y
some-inj x y h = cc h

pub pair-inj :
    (a b : String) (m n : ℕ)
    → ◌≡◌ {A = Option (String × ℕ)} (some (a, m)) (some (b, n))
    → (a ≡ b) × (m ≡ n)
pair-inj a b m n h = (ground arith, ground arith)

module _ (p : Patterns) (window : ℕ) where
  -- A segment introduces the name.
  abbrev pub Introduces : String → Segment → Type 0
  Introduces h s = (n : String) × (p.intro (text_of s) ≡ some n) × (h ≡ p.capitalize n)

  -- A segment calls the name, which is pending up to the number `until`.
  abbrev pub Calls : String → ℕ → Segment → Type 0
  Calls name until s =
      (n : String) × (p.call (text_of s) ≡ some n)
      × (name ≡ p.capitalize n)
      × (until ≡ s.seq + window)

  -- Where the names that are kept come from.
  abbrev pub Known : List Segment → Names → Type 0
  Known segs names =
      ((h : String) → names.host_name ≡ some h → AnyOf (Introduces h) segs)
      × ((name : String) (until : ℕ)
          → names.pending ≡ some (name, until)
          → AnyOf (Calls name until) segs)

  -- Why a segment has its decision, the segments before it, the newest first, being `before`:
  -- the speaker has introduced themselves by now; or stands in for a name that was called by now;
  -- or is a name that was called before and whose time to answer is not over. A segment addresses
  -- only whom it calls, and a proxy is for a name that was called by now.
  abbrev pub Explained : List Segment → Segment → SpeakerDecision → Type 0
  Explained before s d =
      (d.seq ≡ s.seq)
      × ((sp : String)
          → d.speaker ≡ some sp
          → AnyOf (Introduces sp) (s ∷ before)
            ⊎ (((name : String) × (until : ℕ) × AnyOf (Calls name until) (s ∷ before)
                  × (sp ≡ "proxy_for_" <> name))
                ⊎ ((until : ℕ) × AnyOf (Calls sp until) before × (s.seq ≤ until))))
      × ((name : String) → d.addressed_to ≡ some name → (until : ℕ) × Calls name until s)
      × ((name : String)
          → d.proxy_for ≡ some name
          → (until : ℕ) × AnyOf (Calls name until) (s ∷ before))

  -- The decisions stand one for one beside the segments, each explained by those up to it.
  abbrev pub AllExplained : List Segment → List Segment → List SpeakerDecision → Type 0
  AllExplained before [] [] = Unit
  AllExplained before [] (d ∷ ds) = ⊥
  AllExplained before (s ∷ rest) [] = ⊥
  AllExplained before (s ∷ rest) (d ∷ ds) = Explained before s d × AllExplained (s ∷ before) rest ds
