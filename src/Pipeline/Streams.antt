-- ===== src/Pipeline/Streams.antt =====
-- Reading a task from a stream's consumer group (src/interview_analytics_agent/queue/streams.py).
-- The commands of Redis and the parser of JSON are parameters.
use second_capture.Base.{
  ◌≡◌, refl, ap, String, Option, none, some, List, [], ◌∷◌, ℕ, arith, if◌then◌else◌, inl, inr, ◌⊎◌,
  Option-cases, sym, subst, ◌∙◌,
}
use second_capture.Base.Lines.{has_part}
use second_capture.Base.Errors.{Exc, other, Outcome, ok, err, Op, pure, ◌>>=◌, ◌>>◌, Outcome-cases}

-- What `XGROUP CREATE` gives: nothing, a `redis.ResponseError` with its text, or another exception.
pub data Created : Type 0 where
  created : Created
  response_error : String → Created
  raised : Exc → Created

-- An entry: its id, and the text under the field `payload`.
abbrev pub Entry : Type 0
Entry = String × Option String

-- The commands over the state of Redis. `claim` and `read_new` ask for one entry.
pub record Broker : Type 1 where
  pub State : Type 0
  pub Payload : Type 0
  pub create_group : (stream group : String) → State → Created × State
  pub claim : (stream group consumer : String) → (min_idle_ms : ℕ) → Op State (List Entry)
  pub read_new : (stream group consumer : String) → (block_ms : ℕ) → Op State (List Entry)
  pub ack : (stream group entry_id : String) → Op State ℕ
  pub json_loads : String → Option Payload

pub record StreamTask (P : Type 0) : Type 0 where
  pub stream : String
  pub entry_id : String
  pub payload : P

module _ (b : Broker) where
  -- A group that is there already is no error.
  unfoldable pub ensure_group : String → String → Op b.State (Unit {0})
  ensure_group stream group s =
      let (r, s') = b.create_group stream group s in
      elim r [
        | created ↦ (ok tt, s')
        | raised x ↦ (err x, s')
        | response_error m ↦ if has_part "BUSYGROUP" m then (ok tt, s') else (err (other m), s')
      ]

  unfoldable pub parse_entry : String → Entry → Outcome (StreamTask b.Payload)
  parse_entry stream (entry_id, none) = err (other "Missing 'payload' in stream entry")
  parse_entry stream (entry_id, some raw) = elim (b.json_loads raw) [
    | none ↦ err (other "JSONDecodeError")
    | some p ↦ ok (record { stream = stream; entry_id = entry_id; payload = p })
  ]

  -- The task of the first entry, if there is one.
  unfoldable pub first_task : String → List Entry → Outcome (Option (StreamTask b.Payload))
  first_task stream [] = ok none
  first_task stream (entry ∷ rest) = elim (parse_entry stream entry) [
    | err x ↦ err x
    | ok task ↦ ok (some task)
  ]

  unfoldable pub claim_stale :
      String → String → String → ℕ → Op b.State (Option (StreamTask b.Payload))
  claim_stale stream group consumer min_idle_ms =
      b.claim stream group consumer min_idle_ms >>= λ claimed s. (first_task stream claimed, s)

  unfoldable pub read_fresh :
      String → String → String → ℕ → Op b.State (Option (StreamTask b.Payload))
  read_fresh stream group consumer block_ms =
      b.read_new stream group consumer block_ms >>= λ entries s. (first_task stream entries, s)

  -- Entries that others left pending come first.
  unfoldable pub read_task :
      String → String → String → ℕ → ℕ → Op b.State (Option (StreamTask b.Payload))
  read_task stream group consumer block_ms min_idle_claim_ms = do
    ensure_group stream group
    stale ← claim_stale stream group consumer min_idle_claim_ms
    elim stale [ some task ↦ pure (some task) | none ↦ read_fresh stream group consumer block_ms ]

  unfoldable pub ack_task : String → String → String → Op b.State ℕ
  ack_task stream group entry_id = b.ack stream group entry_id

  -- What was read: nothing, or the task of an entry that the command gave first.
  abbrev pub IsFirst : String → List Entry → Option (StreamTask b.Payload) → Type 0
  IsFirst stream entries none = entries ≡ []
  IsFirst stream entries (some task) =
      (raw : String) × (rest : List Entry) × (entries ≡ (task.entry_id, some raw) ∷ rest)
      × (b.json_loads raw ≡ some task.payload)
      × (task.stream ≡ stream)

  parse_entry_ok :
      (stream : String) (entry : Entry) (rest : List Entry) (task : StreamTask b.Payload)
      → parse_entry stream entry ≡ ok task
      → IsFirst stream (entry ∷ rest) (some task)
  unfolding parse_entry
  parse_entry_ok stream (entry_id, none) rest task h = absurd (cc h)
  parse_entry_ok stream (entry_id, some raw) rest task h = elim (Option-cases (b.json_loads raw)) [
    | inl bad ↦ absurd (ground arith)
    | inr (p, parsed) ↦ (raw, rest, ground arith, ground arith, ground arith)
  ]

  first_task-IsFirst :
      (stream : String) (entries : List Entry) (t : Option (StreamTask b.Payload))
      → first_task stream entries ≡ ok t
      → IsFirst stream entries t
  unfolding first_task
  first_task-IsFirst stream [] none h = refl
  first_task-IsFirst stream [] (some task) h = absurd (cc h)
  first_task-IsFirst stream (entry ∷ rest) none h =
      elim (Outcome-cases (parse_entry stream entry)) [
        | inl (task, e) ↦ absurd (ground arith)
        | inr (x, e) ↦ absurd (ground arith)
      ]
  first_task-IsFirst stream (entry ∷ rest) (some task) h =
      elim (Outcome-cases (parse_entry stream entry)) [
        | inl (task', e) ↦ parse_entry_ok stream entry rest task (ground arith)
        | inr (x, e) ↦ absurd (ground arith)
      ]

  module _ (stream group consumer : String) (block_ms min_idle_claim_ms : ℕ) (s : b.State) where
    -- The state of Redis once the group is there, and once it has been asked for stale entries.
    abbrev pub grouped : b.State
    grouped = (b.create_group stream group s).1

    abbrev pub claimed : Outcome (List Entry) × b.State
    claimed = b.claim stream group consumer min_idle_claim_ms grouped

    abbrev pub fresh : Outcome (List Entry) × b.State
    fresh = b.read_new stream group consumer block_ms claimed.1

    abbrev read : Outcome (Option (StreamTask b.Payload)) × b.State
    read = read_task stream group consumer block_ms min_idle_claim_ms s

    grouped_lem : (ensure_group stream group s).1 ≡ grouped
    unfolding ensure_group
    grouped_lem = ground arith

    abbrev Claims : Outcome (Option (StreamTask b.Payload)) → Type 0
    Claims r = (claim_stale stream group consumer min_idle_claim_ms grouped).0 ≡ r

    claims_lem :
        (entries : List Entry) → claimed.0 ≡ ok entries → Claims (first_task stream entries)
    unfolding claim_stale
    claims_lem entries e = ground arith

    claims_state : (claim_stale stream group consumer min_idle_claim_ms grouped).1 ≡ claimed.1
    unfolding claim_stale
    claims_state = ground arith

    fresh_lem :
        (entries : List Entry)
        → fresh.0 ≡ ok entries
        → (read_fresh stream group consumer block_ms claimed.1).0 ≡ first_task stream entries
    unfolding read_fresh
    fresh_lem entries e = ground arith

    read_ok :
        (t : Option (StreamTask b.Payload))
        → read.0 ≡ ok t
        → (entries : List Entry) × (claimed.0 ≡ ok entries)
          × (stale : Option (StreamTask b.Payload)) × (first_task stream entries ≡ ok stale)
    unfolding read_task claim_stale
    read_ok t h = elim (Outcome-cases (ensure_group stream group s).0) [
      | inr (x, e) ↦ absurd (ground arith)
      | inl (u, e) ↦ elim (Outcome-cases claimed.0) [
        | inr (x, bad) ↦ absurd (ground (arith, grouped_lem))
        | inl (entries, got) ↦ elim (Outcome-cases (first_task stream entries)) [
          | inr (x, bad) ↦ absurd (ground (arith, grouped_lem))
          | inl (stale, parsed) ↦ (entries, got, stale, parsed)
        ]
      ]
    ]

    read_stale :
        (t : Option (StreamTask b.Payload)) (task : StreamTask b.Payload)
        → read.0 ≡ ok t
        → Claims (ok (some task))
        → t ≡ some task
    unfolding read_task
    read_stale t task h c = elim (Outcome-cases (ensure_group stream group s).0) [
      | inr (x, e) ↦ absurd (ground arith)
      | inl (u, e) ↦ ground (arith, grouped_lem)
    ]

    read_none :
        (t : Option (StreamTask b.Payload))
        → read.0 ≡ ok t
        → Claims (ok none)
        → (read_fresh stream group consumer block_ms claimed.1).0 ≡ ok t
    unfolding read_task
    read_none t h c = elim (Outcome-cases (ensure_group stream group s).0) [
      | inr (x, e) ↦ absurd (ground arith)
      | inl (u, e) ↦ ground (arith, grouped_lem, claims_state)
    ]

    fresh_read :
        (t : Option (StreamTask b.Payload))
        → (read_fresh stream group consumer block_ms claimed.1).0 ≡ ok t
        → (entries : List Entry) × (fresh.0 ≡ ok entries) × IsFirst stream entries t
    unfolding read_fresh
    fresh_read t h = elim (Outcome-cases fresh.0) [
      | inr (x, bad) ↦ absurd (ground arith)
      | inl (entries, got) ↦ (entries, got, first_task-IsFirst stream entries t (ground arith))
    ]

    -- A read that returns has asked for stale entries first: the task is that of the first of them;
    -- or there was none, and it is that of the first new entry, or none where there is none either.
    pub read_task_returns :
        (t : Option (StreamTask b.Payload))
        → (read_task stream group consumer block_ms min_idle_claim_ms s).0 ≡ ok t
        → ((task : StreamTask b.Payload) × (entries : List Entry) × (t ≡ some task)
            × (claimed.0 ≡ ok entries)
            × IsFirst stream entries t)
          ⊎ ((entries : List Entry) × (claimed.0 ≡ ok [])
              × (fresh.0 ≡ ok entries)
              × IsFirst stream entries t)
    read_task_returns t h =
        let (entries, got, stale, parsed) = read_ok t h in
        elim (Option-cases stale) [
          | inr (task, e) ↦
              let found = parsed ∙ ap ok e in
              let same = read_stale t task h (claims_lem entries got ∙ found) in
              inl (
                task,
                entries,
                same,
                got,
                subst (IsFirst stream entries) (sym same)
                    (first_task-IsFirst stream entries (some task) found),
              )
          | inl e ↦
              let missing = parsed ∙ ap ok e in
              let empty : entries ≡ [] = first_task-IsFirst stream entries none missing in
              let (new, found, first) =
                fresh_read t (read_none t h (claims_lem entries got ∙ missing)) in
              inr (new, cc (got, empty), found, first)
        ]
