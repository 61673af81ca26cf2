-- ===== src/Tests/Live.antt =====
-- The theorems on the sessions and on the live pull at concrete inputs.
use second_capture.Base.{
  ℕ, ◌≡◌, ◌≤◌, refl, String, ◌<>◌, Bool, true, false, Option, none, some, List, [], ◌∷◌,
}
use second_capture.Base.Text.{is_empty, text_or, strip}
use second_capture.Base.Errors.{other, ok, err, Op}
use second_capture.Config.{pos, at_least}
use second_capture.SberJazz.World.{
  SessionState, Field, number, text, RawChunk, batch, plain, lookup, insert,
}
use second_capture.SberJazz.Payloads.{field_text, truthy, parse_session}
use second_capture.SberJazz.Store.{
  W, get_sberjazz_meeting_state, state_in_memory, parse_dt, is_naive_time,
}
use second_capture.SberJazz.Sessions.{
  list_sberjazz_sessions, meeting_ids, update_ids, states_of, sorted_states, some_naive, some_zoned,
  newest_first, place_state, time_of,
}
use second_capture.SberJazz.Sessions.Visits.{Visits}
use second_capture.SberJazz.Live.{live_cursor_key}
use second_capture.SberJazz.Live.Chunks.{
  Parsed, parse_live_pull_payload, parse_items, parse_item, seq_of, parse_chunk_seq, content_of,
  chunk_id_of, raw_chunk_id, id_text, next_cursor_of,
}
use second_capture.SberJazz.Live.Pull.{
  LivePullResult, take_in, ingest_all, save_cursor_if, pull_all, pull_sberjazz_live_chunks,
}
use second_capture.SberJazz.Live.Pull.Laws.{Agree, pull_sberjazz_live_chunks_agrees}
use second_capture.SberJazz.Live.Pull.Cursor.{failed_batch_is_skipped}
use second_capture.Tests.Memory.{unary, env, world, memory_store}

abbrev in_order : List String → List String
in_order ids = ids

abbrev token_of : String → String
token_of m = "token-" <> m

abbrev old : SessionState
old = record {
  meeting_id = "a";
  provider = "sberjazz";
  connected = false;
  attempts = 1;
  last_error = none;
  updated_at = "10";
}

abbrev recent : SessionState
recent = record old { meeting_id = "b"; updated_at = "110" }

abbrev two_sessions : W env
two_sessions = record (world []) { sessions = ("a", old) ∷ ("b", recent) ∷ [] }

-- A connected session whose last change is more than a minute ago, and another one.
abbrev stale_session : W env
stale_session = record two_sessions {
  clock = 100000000;
  sessions = ("a", record old { connected = true }) ∷ ("b", recent) ∷ [];
}

abbrev raw_chunk : RawChunk
raw_chunk = record {
  seq = some (number 4);
  id = some (text "c4");
  chunk_id = none;
  content_b64 = some (text "QQ==");
}

abbrev parsed : Parsed env "m" "no-cursor"
parsed = record {
  chunks = record { chunk_id = "c4"; seq = 4; content_b64 = "QQ==" } ∷ [];
  next_cursor = some "next";
  invalid = 1;
}

abbrev items : List (Option RawChunk)
items = some raw_chunk ∷ none ∷ []

abbrev cursor_after : Option Field
cursor_after = some (text "next")

parsed_lem :
    (parse_live_pull_payload env "m" "no-cursor" (batch items cursor_after) (world [])).0
    ≡ ok parsed
unfolding parse_live_pull_payload parse_items parse_item seq_of parse_chunk_seq content_of
    chunk_id_of raw_chunk_id id_text next_cursor_of truthy field_text strip is_empty
parsed_lem = refl

-- An ingestion with a full disk.
abbrev disk_full : String → ℕ → String → String → Op (W env) Bool
disk_full m n content key w = (err (other "disk full"), w)

read_lem :
    (parse_live_pull_payload env "m"
      (text_or "no-cursor" none)
      (batch items cursor_after)
      (world [])).0
    ≡ ok parsed
unfolding text_or
read_lem = parsed_lem

raises_lem :
    (ingest_all env disk_full "m" parsed.chunks 0 0
      (save_cursor_if env disk_full "m"
        (some "next")
        (parse_live_pull_payload env "m"
          (text_or "no-cursor" none)
          (batch items cursor_after)
          (world [])).1).1).0
    ≡ err (other "disk full")
unfolding ingest_all
raises_lem = refl

failed_batch_is_skipped_example :
    let out = take_in env disk_full "m" none (batch items cursor_after) (world []) in
    (out.0 ≡ err (other "disk full"))
    × (memory_store.view out.1.redis (live_cursor_key "m") ≡ some (plain "next"))
failed_batch_is_skipped_example =
    failed_batch_is_skipped env memory_store disk_full "m" (λ n content key w. refl) none
      (batch items cursor_after) (world []) parsed "next" (other "disk full") read_lem refl
      raises_lem

abbrev new_chunk : String → ℕ → String → String → Op (W env) Bool
new_chunk m n content key w = (ok false, w)

abbrev pulled : LivePullResult
pulled = record {
  scanned = 2;
  connected = 0;
  pulled = 0;
  ingested = 0;
  failed = 0;
  invalid_chunks = 0;
  updated_at = "1110";
}

pulled_lem :
    (pull_sberjazz_live_chunks env new_chunk in_order token_of (pos 5) (pos 5) two_sessions).0
    ≡ ok pulled
unfolding pull_sberjazz_live_chunks pull_all list_sberjazz_sessions sorted_states some_naive
    some_zoned is_naive_time meeting_ids update_ids states_of newest_first place_state time_of
    parse_dt get_sberjazz_meeting_state state_in_memory parse_session lookup insert is_empty unary
pulled_lem = refl

pull_sberjazz_live_chunks_agrees_example :
    Agree env new_chunk pulled × (pulled.scanned ≤ at_least 1 (pos 5))
pull_sberjazz_live_chunks_agrees_example =
    pull_sberjazz_live_chunks_agrees env new_chunk in_order token_of (pos 5) (pos 5) two_sessions
      pulled pulled_lem
