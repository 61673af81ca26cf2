-- ===== src/LocalPipeline/Table.antt =====
-- The table of the segments (`TranscriptSegmentRepository`).
pub mod Laws
use second_capture.Base.{
  ℕ, suc, max, String, str_eq, Bool, true, false, ◌&&◌, ◌==◌, leb, Option, none, some, List, [],
  ◌∷◌, if◌then◌else◌,
}

-- A segment. The confidence is a number of the speech to text engine, which is only copied; the
-- times, which this code leaves empty, are left out.
pub record Segment (C : Type 0) : Type 0 where
  pub meeting_id : String
  pub seq : ℕ
  pub speaker : Option String
  pub raw_text : String
  pub enhanced_text : String
  pub confidence : Option C

module _ {C : Type 0} where
  abbrev pub is_at : String → ℕ → Segment C → Bool
  is_at meeting_id seq s = str_eq s.meeting_id meeting_id && s.seq == seq

  unfoldable pub find : String → ℕ → List (Segment C) → Option (Segment C)
  find meeting_id seq [] = none
  find meeting_id seq (s ∷ rest) =
      let later = find meeting_id seq rest in if is_at meeting_id seq s then some s else later

  unfoldable pub upsert_by_meeting_seq : Segment C → List (Segment C) → List (Segment C)
  upsert_by_meeting_seq segment [] = segment ∷ []
  upsert_by_meeting_seq segment (s ∷ rest) =
      let later = upsert_by_meeting_seq segment rest in
      if is_at segment.meeting_id segment.seq s then segment ∷ rest else s ∷ later

  unfoldable pub insert_by_seq : Segment C → List (Segment C) → List (Segment C)
  insert_by_seq segment [] = segment ∷ []
  insert_by_seq segment (s ∷ rest) =
      let later = insert_by_seq segment rest in
      if leb segment.seq s.seq then segment ∷ (s ∷ rest) else s ∷ later

  unfoldable pub list_by_meeting : String → List (Segment C) → List (Segment C)
  list_by_meeting meeting_id [] = []
  list_by_meeting meeting_id (s ∷ rest) =
      let others = list_by_meeting meeting_id rest in
      if str_eq s.meeting_id meeting_id then insert_by_seq s others else others

  -- The changes that a loop over the meeting's segments makes to them.
  unfoldable pub change_all : String → (Segment C → Segment C) → List (Segment C) → List (Segment C)
  change_all meeting_id f [] = []
  change_all meeting_id f (s ∷ rest) =
      (if str_eq s.meeting_id meeting_id then f s else s) ∷ change_all meeting_id f rest

  unfoldable pub delete_meeting : String → List (Segment C) → List (Segment C)
  delete_meeting meeting_id [] = []
  delete_meeting meeting_id (s ∷ rest) =
      let others = delete_meeting meeting_id rest in
      if str_eq s.meeting_id meeting_id then others else s ∷ others
