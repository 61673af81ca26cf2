-- ===== src/Tests/Local.antt =====
-- The theorems on the local pipeline at concrete inputs.
use second_capture.Base.{ℕ, ◌≡◌, refl, true, false, none, some, [], ◌∷◌}
use second_capture.Base.Text.{is_empty, norm, text_or, contains}
use second_capture.Base.Errors.{ok}
use second_capture.Config.{pos}
use second_capture.LocalPipeline.Labels.{Letters, MeetingContext, speaker_locked_for_track}
use second_capture.LocalPipeline.Table.{Segment, find}
use second_capture.LocalPipeline.Chunks.{Tools, Db, process_chunk_inline}
use second_capture.LocalPipeline.Chunks.Laws.{IsNamed, process_chunk_inline-IsNamed}

abbrev letters : Letters
letters = record { is_alnum = λ c. true; upper = λ s. s }

abbrev context : MeetingContext
context = record {
  source_track_roles = ("mic", "candidate") ∷ [];
  candidate_name = "";
  interviewer = "";
  language_profile = "ru";
  locale = "";
  language = "";
}

-- Everything is heard as one sentence of an unknown speaker, whom the rules call Anna.
abbrev tools : Tools
tools = record {
  Audio = ℕ;
  Confidence = ℕ;
  get_bytes = λ key. ok 0;
  recording_exists = λ meeting_id name. true;
  read_recording = λ meeting_id name. ok (some 1);
  transcribe = λ audio quality track hint.
      ok (record { text = "Well. Done."; speaker = none; confidence = some 9 });
  enhance = λ s. s;
  patterns = record {
    intro = λ s. some "Anna";
    host = λ s. false;
    call = λ s. none;
    absent = λ s. false;
    skip = λ s. false;
    proxy = λ s. false;
    capitalize = λ s. s;
  };
  speaker_response_window_sec = pos 8;
  letters = letters;
}

abbrev mic_segment : Segment ℕ
mic_segment = record {
  meeting_id = "m";
  seq = 1;
  speaker = some "mic";
  raw_text = "hello";
  enhanced_text = "hello";
  confidence = none;
}

abbrev db : Db tools
db = record { meetings = []; segments = mic_segment ∷ [] }

mic_locked : speaker_locked_for_track (some "mic") ≡ true
unfolding speaker_locked_for_track norm text_or is_empty contains
mic_locked = refl

mic_there : IsNamed tools "m" 1 (some "mic") db
unfolding find
mic_there = (mic_segment, refl, refl)

process_chunk_inline-IsNamed_example :
    IsNamed tools "m" 1
      (some "mic")
      (process_chunk_inline tools "m" 2 (some 0) none "live" (some "mixed") db).1
process_chunk_inline-IsNamed_example =
    process_chunk_inline-IsNamed tools "m" 1 (some "mic") "m" 2 (some 0) none "live" (some "mixed")
      db refl mic_locked mic_there
