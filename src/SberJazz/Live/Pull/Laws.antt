-- ===== src/SberJazz/Live/Pull/Laws.antt =====
-- The counts of a live pull.
use second_capture.Base.{
  ℕ, ◌+◌, ◌≡◌, ◌≤◌, inl, inr, String, Bool, Option, Bool-cases, List, [], ◌∷◌, length, arith,
}
use second_capture.Base.Text.{text_or}
use second_capture.Base.Errors.{Outcome, ok, Op, Outcome-cases}
use second_capture.Config.{ℤ, at_least}
use second_capture.SberJazz.World.{SessionState, Payload, Env}
use second_capture.SberJazz.Limits.{Resolved, resolve_connector}
use second_capture.SberJazz.Store.{W}
use second_capture.SberJazz.Sessions.{list_sberjazz_sessions}
use second_capture.SberJazz.Sessions.Order.{list_sberjazz_sessions-IsNewestFirst}
use second_capture.SberJazz.Live.{LiveChunk, load_live_cursor}
use second_capture.SberJazz.Live.Chunks.{Parsed, parse_live_pull_payload}
use second_capture.SberJazz.Live.Pull.{
  Tally, LivePullResult, fetch_with_retries, ingest_all, save_cursor_if, take_in, pull_resolved,
  pull_live_for_meeting, pull_counted, one_scanned, one_connected, pull_all, nothing_pulled,
  pull_sberjazz_live_chunks,
}

module _ (e : Env) (ingest : String → ℕ → String → String → Op (W e) Bool) where
  ingest_all_counts :
      (meeting_id : String) (chunks : List LiveChunk) (pulled ingested : ℕ) (w : W e) (out : ℕ × ℕ)
      → ingested ≤ pulled
      → (ingest_all e ingest meeting_id chunks pulled ingested w).0 ≡ ok out
      → (out.0 ≡ pulled + length chunks) × (out.1 ≤ out.0)
  unfolding ingest_all
  ingest_all_counts meeting_id [] pulled ingested w out le h = ground arith
  ingest_all_counts meeting_id (c ∷ rest) pulled ingested w out le h =
      let v = (ingest meeting_id c.seq c.content_b64 c.chunk_id w).1 in
      elim (Outcome-cases (ingest meeting_id c.seq c.content_b64 c.chunk_id w).0) [
        | inl (duplicate, done) ↦ elim (Bool-cases duplicate) [
          | inl old ↦
              ground
                (arith, ingest_all_counts meeting_id rest (pulled + 1) ingested v out (omega arith))
          | inr new ↦ ground (
            arith,
            ingest_all_counts meeting_id rest (pulled + 1) (ingested + 1) v out (omega arith),
          )
        ]
        | inr (x, failed) ↦ ground arith
      ]

  take_in_counts :
      (meeting_id : String) (cursor : Option String) (payload : Payload) (w : W e) (t : Tally)
      → (take_in e ingest meeting_id cursor payload w).0 ≡ ok t
      → t.ingested ≤ t.pulled
  unfolding take_in
  take_in_counts meeting_id cursor payload w t h = elim (Outcome-cases first.0) [
    | inr (x, failed) ↦ ground arith
    | inl (parsed, read) ↦
        let second = save_cursor_if e ingest meeting_id parsed.next_cursor first.1 in
        let third = ingest_all e ingest meeting_id parsed.chunks 0 0 second.1 in
        elim (Outcome-cases third.0) [
          | inl (out, done) ↦ ground (
            arith,
            ingest_all_counts meeting_id parsed.chunks 0 0 second.1 out (omega arith) done,
          )
          | inr (x, failed) ↦ ground arith
        ]
  ]
    where
      first : Outcome (Parsed e meeting_id (text_or "no-cursor" cursor)) × W e
      first = parse_live_pull_payload e meeting_id (text_or "no-cursor" cursor) payload w

  pull_resolved_counts :
      (r : Resolved e) (meeting_id : String) (limit : ℕ) (w : W e) (t : Tally)
      → (pull_resolved e ingest r meeting_id limit w).0 ≡ ok t
      → t.ingested ≤ t.pulled
  unfolding pull_resolved
  pull_resolved_counts r meeting_id limit w t h = elim (Outcome-cases first.0) [
    | inr (x, failed) ↦ ground arith
    | inl (cursor, read) ↦
        let second = fetch_with_retries e ingest r.connector meeting_id cursor limit first.1 in
        elim (Outcome-cases second.0) [
          | inl (payload, done) ↦
              ground (arith, take_in_counts meeting_id cursor payload second.1 t)
          | inr (x, failed) ↦ ground arith
        ]
  ]
    where
      first : Outcome (Option String) × W e
      first = load_live_cursor e meeting_id w

  pull_live_counts :
      (meeting_id : String) (limit : ℕ) (w : W e) (t : Tally)
      → (pull_live_for_meeting e ingest meeting_id limit w).0 ≡ ok t
      → t.ingested ≤ t.pulled
  unfolding pull_live_for_meeting
  pull_live_counts meeting_id limit w t h = elim (Outcome-cases (resolve_connector e)) [
    | inl (r, found) ↦ ground (arith, pull_resolved_counts r meeting_id limit w t)
    | inr (x, missing) ↦ ground arith
  ]

  -- The counts of a pull agree: what is new was pulled, and what failed was connected.
  abbrev pub Agree : LivePullResult → Type 0
  Agree acc =
      (acc.ingested ≤ acc.pulled) × (acc.failed ≤ acc.connected) × (acc.connected ≤ acc.scanned)

  pull_counted_agrees :
      (token meeting_id : String) (limit : ℕ) (acc out : LivePullResult) (w : W e)
      → Agree acc
      → (pull_counted e ingest token meeting_id limit
          (one_connected e ingest (one_scanned e ingest acc))
          w).0
        ≡ ok out
      → Agree out × (out.scanned ≡ acc.scanned + 1)
  unfolding pull_counted
  pull_counted_agrees token meeting_id limit acc out w good h = elim (Outcome-cases first.0) [
    | inr (x, failed) ↦ ground arith
    | inl (t, done) ↦ ground (arith, pull_live_counts meeting_id limit w t done)
  ]
    where
      first : Outcome Tally × W e
      first = pull_live_for_meeting e ingest meeting_id limit w

  pull_all_agrees :
      (uuid : String → String) (states : List SessionState) (limit : ℕ) (acc out : LivePullResult)
      (w : W e)
      → Agree acc
      → (pull_all e ingest uuid states limit acc w).0 ≡ ok out
      → Agree out × (out.scanned ≡ acc.scanned + length states)
  unfolding pull_all
  pull_all_agrees uuid [] limit acc out w good h = ground arith
  pull_all_agrees uuid (s ∷ rest) limit acc out w good h = elim (Bool-cases s.connected) [
    | inr off ↦ ground (arith, pull_all_agrees uuid rest limit (one_scanned e ingest acc) out w)
    | inl on ↦ elim (Outcome-cases tried.0) [
      | inl (acc', done) ↦ ground (
        arith,
        pull_counted_agrees (uuid s.meeting_id) s.meeting_id limit acc acc' w good done,
        pull_all_agrees uuid rest limit acc' out tried.1,
      )
      | inr (x, failed) ↦ ground arith
    ]
  ]
    where
      tried : Outcome LivePullResult × W e
      tried =
          pull_counted e ingest (uuid s.meeting_id) s.meeting_id limit
            (one_connected e ingest (one_scanned e ingest acc)) w

  -- A pull that returns has looked at no more sessions than the limit (one, if it is less); no
  -- more meetings failed than were connected, and no more chunks were new than were pulled.
  pub pull_sberjazz_live_chunks_agrees :
      (arrange : List String → List String) (uuid : String → String) (sessions batch : ℤ) (w : W e)
      (out : LivePullResult)
      → (pull_sberjazz_live_chunks e ingest arrange uuid sessions batch w).0 ≡ ok out
      → Agree out × (out.scanned ≤ at_least 1 sessions)
  unfolding pull_sberjazz_live_chunks
  pull_sberjazz_live_chunks_agrees arrange uuid sessions batch w out h =
      elim (Outcome-cases listed.0) [
        | inr (x, failed) ↦ ground arith
        | inl (states, found) ↦ elim (Outcome-cases (pulled_from states).0) [
          | inl (acc, done) ↦ ground (
            arith,
            list_sberjazz_sessions-IsNewestFirst e arrange uuid sessions w states found,
            pull_all_agrees uuid states (at_least 1 batch) (nothing_pulled e ingest) acc listed.1
                (omega arith, omega arith, omega arith) done,
          )
          | inr (x, failed) ↦ ground arith
        ]
      ]
    where
      listed : Outcome (List SessionState) × W e
      listed = list_sberjazz_sessions e arrange uuid sessions w

      pulled_from : List SessionState → Outcome LivePullResult × W e
      pulled_from states =
          pull_all e ingest uuid states (at_least 1 batch) (nothing_pulled e ingest) listed.1
