-- ===== src/SberJazz/Live/Pull.antt =====
-- The live pull of one meeting and of all connected ones (`_pull_live_for_meeting` and
-- `pull_sberjazz_live_chunks`).
pub mod Laws
pub mod Cursor
use second_capture.Base.{
  ℕ, suc, ◌+◌, String, str_eq, Bool, true, false, not, ◌||◌, Option, none, some, List, [], ◌∷◌, leb,
  if◌then◌else◌,
}
use second_capture.Base.Text.{is_empty, norm, text_or}
use second_capture.Base.Errors.{Exc, Outcome, ok, err, Op, pure, raise, catch, ◌>>=◌, ◌>>◌}
use second_capture.Config.{ℤ, at_least}
use second_capture.SberJazz.World.{
  SessionState, Payload, not_object, Connector, Env, World, on_platform,
}
use second_capture.SberJazz.Limits.{
  Resolved, live_pull_retry_config, live_pull_fail_reconnect_threshold, resolve_connector,
}
use second_capture.SberJazz.Store.{W, now_iso}
use second_capture.SberJazz.Calls.{
  Loop, returned, gave_up, attempt_loop, reconnect_sberjazz_meeting,
}
use second_capture.SberJazz.Sessions.{list_sberjazz_sessions}
use second_capture.SberJazz.Live.{
  LiveChunk, load_live_cursor, save_live_cursor, inc_live_pull_fail_count,
  reset_live_pull_fail_count, touch_connected_state,
}
use second_capture.SberJazz.Live.Chunks.{Parsed, parse_live_pull_payload}

-- The chunks of one meeting: pulled, newly ingested, and invalid.
abbrev pub Tally : Type 0
Tally = record { pulled : ℕ; ingested : ℕ; invalid : ℕ }

-- `SberJazzLivePullResult`.
pub record LivePullResult : Type 0 where
  pub scanned : ℕ
  pub connected : ℕ
  pub pulled : ℕ
  pub ingested : ℕ
  pub failed : ℕ
  pub invalid_chunks : ℕ
  pub updated_at : String

-- `ingest` is `ingest_audio_chunk_b64` for the scope of the live pull: the meeting, the number,
-- the content and the key of a chunk give whether it is a duplicate.
module _ (e : Env) (ingest : String → ℕ → String → String → Op (W e) Bool) where
  -- The retries of `fetch_live_chunks`; the last exception is raised as it is.
  unfoldable pub fetch_with_retries :
      Connector e.Platform → String → Option String → ℕ → Op (W e) Payload
  fetch_with_retries c meeting_id cursor limit w =
      let cfg = live_pull_retry_config e.settings in
      let (l, w') =
        attempt_loop e cfg.attempts cfg
          (λ _. on_platform (c.fetch_live_chunks meeting_id cursor limit)) 1 none w in
      elim l [
        | returned p ↦ (ok p, w')
        | gave_up (some x) ↦ (err x, w')
        | gave_up none ↦ (ok not_object, w')
      ]

  -- The `for` loop over the chunks: how many there were, and how many of them were new.
  unfoldable pub ingest_all : String → List LiveChunk → ℕ → ℕ → Op (W e) (ℕ × ℕ)
  ingest_all meeting_id [] pulled ingested w = (ok (pulled, ingested), w)
  ingest_all meeting_id (c ∷ rest) pulled ingested w =
      let (r, w') = ingest meeting_id c.seq c.content_b64 c.chunk_id w in
      elim r [
        | err x ↦ (err x, w')
        | ok duplicate ↦
            ingest_all meeting_id rest (pulled + 1) (if duplicate then ingested else ingested + 1)
              w'
      ]

  unfoldable pub touch_if : Bool → String → Op (W e) (Unit {0})
  touch_if some_pulled meeting_id =
      if some_pulled then touch_connected_state e meeting_id else pure tt

  unfoldable pub save_cursor_if : String → Option String → Op (W e) (Unit {0})
  save_cursor_if meeting_id none = pure tt
  save_cursor_if meeting_id (some cursor) = save_live_cursor e meeting_id cursor

  -- What follows the fetching.
  unfoldable pub take_in : String → Option String → Payload → Op (W e) Tally
  take_in meeting_id cursor payload =
      parse_live_pull_payload e meeting_id (text_or "no-cursor" cursor) payload >>= λ parsed.
      save_cursor_if meeting_id parsed.next_cursor >>= λ _.
      ingest_all meeting_id parsed.chunks 0 0 >>= λ (pulled, ingested).
      touch_if (leb 1 pulled) meeting_id >>= λ _.
      pure (record { pulled = pulled; ingested = ingested; invalid = parsed.invalid })

  unfoldable pub pull_resolved : Resolved e → String → ℕ → Op (W e) Tally
  pull_resolved r meeting_id limit = load_live_cursor e meeting_id >>= λ cursor.
      fetch_with_retries r.connector meeting_id cursor limit >>= λ payload.
      take_in meeting_id cursor payload

  -- Without a provider nothing is pulled.
  unfoldable pub pull_live_for_meeting : String → ℕ → Op (W e) Tally
  pull_live_for_meeting meeting_id limit w =
      let name = norm e.settings.meeting_connector_provider in
      if is_empty name || str_eq name "none"
      then (ok (record { pulled = 0; ingested = 0; invalid = 0 }), w)
      else elim (resolve_connector e) [
        | err x ↦ (err x, w)
        | ok r ↦ pull_resolved r meeting_id limit w
      ]

  -- After too many failures the meeting is reconnected, whose exception is logged, and the count
  -- starts again.
  unfoldable pub reconnect_if : Bool → String → String → Op (W e) (Unit {0})
  reconnect_if too_many token meeting_id =
      if too_many
      then (catch (reconnect_sberjazz_meeting e token meeting_id >>= λ _. pure tt) (λ _. pure tt)
          >>= λ _. reset_live_pull_fail_count e meeting_id)
      else pure tt

  -- The handler of a failure of one meeting.
  unfoldable pub on_pull_failure : String → String → Op (W e) (Unit {0})
  on_pull_failure token meeting_id = inc_live_pull_fail_count e meeting_id >>= λ count.
      reconnect_if (leb (live_pull_fail_reconnect_threshold e.settings) count) token meeting_id

  -- The counts with those of a meeting added.
  abbrev pub added : LivePullResult → Tally → LivePullResult
  added acc t = record acc {
    pulled = acc.pulled + t.pulled;
    ingested = acc.ingested + t.ingested;
    invalid_chunks = acc.invalid_chunks + t.invalid;
  }

  abbrev pub one_failed : LivePullResult → LivePullResult
  one_failed acc = record acc { failed = acc.failed + 1 }

  -- The `try` of one connected meeting: the counts stay added where the reset of the failures
  -- raises, and the failure is counted then too.
  unfoldable pub pull_counted : String → String → ℕ → LivePullResult → Op (W e) LivePullResult
  pull_counted token meeting_id limit acc w =
      let (r, w') = pull_live_for_meeting meeting_id limit w in
      elim r [
        | err _ ↦ (on_pull_failure token meeting_id >>= λ _. pure (one_failed acc)) w'
        | ok t ↦
            let (q, u) = reset_live_pull_fail_count e meeting_id w' in
            elim q [
              | ok _ ↦ (ok (added acc t), u)
              | err _ ↦
                  (on_pull_failure token meeting_id >>= λ _. pure (one_failed (added acc t))) u
            ]
      ]

  abbrev pub one_scanned : LivePullResult → LivePullResult
  one_scanned acc = record acc { scanned = acc.scanned + 1 }

  abbrev pub one_connected : LivePullResult → LivePullResult
  one_connected acc = record acc { connected = acc.connected + 1 }

  -- The `for` loop over the sessions; `uuid` gives the fresh token of a meeting's lock.
  unfoldable pub pull_all :
      (String → String) → List SessionState → ℕ → LivePullResult → Op (W e) LivePullResult
  pull_all uuid [] limit acc w = (ok acc, w)
  pull_all uuid (s ∷ rest) limit acc w =
      let skipped = pull_all uuid rest limit (one_scanned acc) w in
      let tried =
        (pull_counted (uuid s.meeting_id) s.meeting_id limit (one_connected (one_scanned acc))
            >>= λ acc'. pull_all uuid rest limit acc')
          w in
      if s.connected then tried else skipped

  abbrev nothing_pulled : LivePullResult
  nothing_pulled = record {
    scanned = 0;
    connected = 0;
    pulled = 0;
    ingested = 0;
    failed = 0;
    invalid_chunks = 0;
    updated_at = "";
  }

  unfoldable pub pull_sberjazz_live_chunks :
      (arrange : List String → List String)
      → (uuid : String → String) → (limit_sessions batch_limit : ℤ) → Op (W e) LivePullResult
  pull_sberjazz_live_chunks arrange uuid limit_sessions batch_limit =
      list_sberjazz_sessions e arrange uuid limit_sessions >>= λ sessions.
      pull_all uuid sessions (at_least 1 batch_limit) nothing_pulled >>= λ acc.
      λ w. (ok (record acc { updated_at = now_iso e w }), w)
