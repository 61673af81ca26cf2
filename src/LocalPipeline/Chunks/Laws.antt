-- ===== src/LocalPipeline/Chunks/Laws.antt =====
-- What a chunk does to the segments of its meeting, and of the others.
use second_capture.Base.{
  ℕ, ◌≡◌, ◌∙◌, refl, sym, subst, ap, String, str_eq, Bool, true, false, ◌&&◌, ◌==◌, Bool-cases,
  Option, some, List, arith, inl, inr,
}
use second_capture.Base.Text.{is_empty, strip}
use second_capture.Base.Errors.{Exc, Outcome, ok, err, Outcome-cases}
use second_capture.Transcript.Speakers.{SpeakerDecision}
use second_capture.LocalPipeline.Labels.{MeetingContext, speaker_locked_for_track}
use second_capture.LocalPipeline.Table.{is_at, find, upsert_by_meeting_seq}
use second_capture.LocalPipeline.Table.Laws.{find-upsert, find-change_all, KeepsKey, changed}
use second_capture.LocalPipeline.Chunks.{
  SttResult, Tools, Db, Seg, ensured, speakers_of, refreshed, segment_of_chunk, store_chunk,
  heard_chunk, audio_of, process_chunk_inline, meeting_language_hint,
}

module _ (t : Tools) where
  refreshed-KeepsKey : (ds : List SpeakerDecision) → KeepsKey (refreshed t ds)
  unfolding refreshed
  refreshed-KeepsKey ds s = (refl, refl)

  refreshed_locked :
      (ds : List SpeakerDecision) (s : Seg t)
      → speaker_locked_for_track s.speaker ≡ true
      → (refreshed t ds s).speaker ≡ s.speaker
  unfolding refreshed
  refreshed_locked ds s h = ground arith

  chunk_key :
      (m : String) (n : ℕ) (meeting_id : String) (chunk_seq : ℕ) (track : Option String)
      (context : MeetingContext) (heard : String) (res : SttResult t.Confidence)
      → is_at m n (segment_of_chunk t meeting_id chunk_seq track context heard res)
        ≡ (str_eq meeting_id m && chunk_seq == n)
  unfolding segment_of_chunk
  chunk_key m n meeting_id chunk_seq track context heard res = refl

  -- A segment of the table that an audio track has named, under its key.
  abbrev pub IsNamed : String → ℕ → Option String → Db t → Type 0
  IsNamed m n speaker db = (s : Seg t) × (find m n db.segments ≡ some s) × (s.speaker ≡ speaker)

  changed_named :
      (ds : List SpeakerDecision) (b : Bool) (s : Seg t)
      → speaker_locked_for_track s.speaker ≡ true
      → (s' : Seg t) × (changed (refreshed t ds) b (some s) ≡ some s') × (s'.speaker ≡ s.speaker)
  changed_named ds true s h = (refreshed t ds s, refl, refreshed_locked ds s h)
  changed_named ds false s h = (s, refl, refl)

  store_chunk-IsNamed :
      (m : String) (n : ℕ) (speaker : Option String) (meeting_id : String) (chunk_seq : ℕ)
      (track : Option String) (heard : String) (res : SttResult t.Confidence) (db : Db t)
      → (str_eq meeting_id m && chunk_seq == n) ≡ false
      → speaker_locked_for_track speaker ≡ true
      → IsNamed m n speaker db
      → IsNamed m n speaker (store_chunk t meeting_id chunk_seq track heard res db)
  unfolding store_chunk
  store_chunk-IsNamed m n speaker meeting_id chunk_seq track heard res db apart locked
        (s, found, same) =
      let context = (ensured t meeting_id db).context in
      let new = segment_of_chunk t meeting_id chunk_seq track context heard res in
      let stored = upsert_by_meeting_seq new db.segments in
      let ds = speakers_of t meeting_id stored in
      let there : find m n stored ≡ some s = ground (
        arith,
        find-upsert m n new db.segments,
        chunk_key m n meeting_id chunk_seq track context heard res,
      ) in
      let (s', e, kept) =
        changed_named ds (str_eq m meeting_id) s
          (subst (λ x. speaker_locked_for_track x ≡ true) (sym same) locked) in
      (
        s',
        find-change_all m meeting_id n (refreshed t ds) stored (refreshed-KeepsKey ds)
            ∙ ap (changed (refreshed t ds) (str_eq m meeting_id)) there
            ∙ e,
        kept ∙ same,
      )

  heard_chunk-IsNamed :
      (m : String) (n : ℕ) (speaker : Option String) (meeting_id : String) (chunk_seq : ℕ)
      (track : Option String) (r : Outcome (SttResult t.Confidence)) (db : Db t)
      → (str_eq meeting_id m && chunk_seq == n) ≡ false
      → speaker_locked_for_track speaker ≡ true
      → IsNamed m n speaker db
      → IsNamed m n speaker (heard_chunk t meeting_id chunk_seq track r db).1
  heard_chunk-IsNamed m n speaker meeting_id chunk_seq track (err x) db apart locked h =
      unfold heard_chunk in h
  heard_chunk-IsNamed m n speaker meeting_id chunk_seq track (ok res) db apart locked h =
      elim (Bool-cases (is_empty (strip res.text))) [
        | inl silent ↦ subst (IsNamed m n speaker) (sym (silent_lem silent)) h
        | inr spoken ↦ subst (IsNamed m n speaker) (sym (spoken_lem spoken)) (
            store_chunk-IsNamed m n speaker meeting_id chunk_seq track (strip res.text) res db apart
              locked h)
      ]
    where
      after : Db t
      after = (heard_chunk t meeting_id chunk_seq track (ok res) db).1

      silent_lem : is_empty (strip res.text) ≡ true → after ≡ db
      silent_lem e = unfold heard_chunk in rw e refl

      spoken_lem :
          is_empty (strip res.text) ≡ false
          → after ≡ store_chunk t meeting_id chunk_seq track (strip res.text) res db
      spoken_lem e = unfold heard_chunk in rw e refl

  -- A chunk of another number or meeting leaves the speaker of a segment as it is where an audio track
  -- has named it, whatever the engine and the speaker rules find, and whether it raises or not.
  pub process_chunk_inline-IsNamed :
      (m : String) (n : ℕ) (speaker : Option String) (meeting_id : String) (chunk_seq : ℕ)
      (audio : Option t.Audio) (blob_key : Option String) (quality : String) (track : Option String)
      (db : Db t)
      → (str_eq meeting_id m && chunk_seq == n) ≡ false
      → speaker_locked_for_track speaker ≡ true
      → IsNamed m n speaker db
      → IsNamed m n speaker
          (process_chunk_inline t meeting_id chunk_seq audio blob_key quality track db).1
  process_chunk_inline-IsNamed m n speaker meeting_id chunk_seq audio blob_key quality track db
        apart locked h =
      elim (Outcome-cases (audio_of t audio blob_key)) [
        | inr (x, e) ↦ subst (IsNamed m n speaker) (sym (failed_lem x e)) h
        | inl (a, e) ↦
            subst (IsNamed m n speaker) (sym (read_lem a e))
              (heard_chunk-IsNamed m n speaker meeting_id chunk_seq track (r a) db apart locked h)
      ]
    where
      after : Db t
      after = (process_chunk_inline t meeting_id chunk_seq audio blob_key quality track db).1

      r : t.Audio → Outcome (SttResult t.Confidence)
      r a = t.transcribe a quality track (meeting_language_hint t meeting_id db)

      failed_lem : (x : Exc) → audio_of t audio blob_key ≡ err x → after ≡ db
      failed_lem x e = unfold process_chunk_inline in ground arith

      read_lem :
          (a : t.Audio)
          → audio_of t audio blob_key ≡ ok a
          → after ≡ (heard_chunk t meeting_id chunk_seq track (r a) db).1
      read_lem a e = unfold process_chunk_inline in ground arith
