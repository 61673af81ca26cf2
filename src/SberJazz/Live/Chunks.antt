-- ===== src/SberJazz/Live/Chunks.antt =====
-- The parsing of a batch of chunks (`_parse_chunk_seq` and `_parse_live_pull_payload`).
pub mod Laws
use Prim.Native.Nat.{zero}
use second_capture.Base.{
  ℕ, suc, ◌+◌, String, ◌<>◌, Bool, true, false, not, Option, none, some, List, [], ◌∷◌, is_some,
  if◌then◌else◌,
}
use second_capture.Base.Text.{is_empty, strip, show_nat, read_nat}
use second_capture.Base.Errors.{
  provider, connector_provider_error, Outcome, ok, err, Op, pure, ◌>>=◌,
}
use second_capture.SberJazz.World.{
  Field, null, boolean, number, text, RawChunk, Payload, not_object, bad_chunks, batch, Env, World,
}
use second_capture.SberJazz.Payloads.{field_text, truthy}
use second_capture.SberJazz.Store.{W}
use second_capture.SberJazz.Live.{LiveChunk, filled_text, next_live_seq}

-- In Python a truth value is an `int` too. `isdigit` and `int` are read for ASCII digits.
unfoldable pub parse_chunk_seq : Option Field → Option ℕ
parse_chunk_seq none = none
parse_chunk_seq (some null) = none
parse_chunk_seq (some (boolean b)) = if b then some 1 else some 0
parse_chunk_seq (some (number n)) = some n
parse_chunk_seq (some (text s)) = read_nat s

-- `str(x or "").strip()`.
unfoldable pub content_of : Option Field → String
content_of none = strip ""
content_of (some f) = if truthy f then strip (field_text f) else strip ""

-- `str(x).strip() if x is not None else ""`.
unfoldable pub id_text : Option Field → String
id_text none = ""
id_text (some null) = ""
id_text (some (boolean b)) = strip (field_text (boolean b))
id_text (some (number n)) = strip (field_text (number n))
id_text (some (text s)) = strip s

-- `item.get("id") or item.get("chunk_id")`.
unfoldable pub raw_chunk_id : RawChunk → Option Field
raw_chunk_id c = elim c.id [ none ↦ c.chunk_id | some f ↦ if truthy f then some f else c.chunk_id ]

unfoldable pub chunk_id_of : String → ℕ → RawChunk → String
chunk_id_of fallback_prefix idx c =
    let own = id_text (raw_chunk_id c) in
    if is_empty own then fallback_prefix <> (":" <> show_nat idx) else own

-- `str(raw).strip() or None`, where `next_cursor` is given.
unfoldable pub next_cursor_of : Option Field → Option String
next_cursor_of none = none
next_cursor_of (some null) = none
next_cursor_of (some (boolean b)) = filled_text (field_text (boolean b))
next_cursor_of (some (number n)) = filled_text (field_text (number n))
next_cursor_of (some (text s)) = filled_text s

module _ (e : Env) (meeting_id fallback_prefix : String) where
  -- The number of a chunk: its own, or the next one of the meeting.
  unfoldable pub seq_of : RawChunk → Op (W e) ℕ
  seq_of c w = elim (parse_chunk_seq c.seq) [
    | some n ↦ (ok n, w)
    | none ↦ next_live_seq e meeting_id w
  ]

  -- One item: none where it is invalid.
  unfoldable pub parse_item : ℕ → Option RawChunk → Op (W e) (Option LiveChunk)
  parse_item idx none w = (ok none, w)
  parse_item idx (some c) w =
      if is_empty (content_of c.content_b64)
      then (ok none, w)
      else (seq_of c >>= λ seq. pure (
            some (record {
              chunk_id = chunk_id_of fallback_prefix idx c;
              seq = seq;
              content_b64 = content_of c.content_b64;
            })))
          w

  -- The chunks of the items from the index on, and the number of invalid items.
  unfoldable pub parse_items : ℕ → List (Option RawChunk) → Op (W e) (List LiveChunk × ℕ)
  parse_items idx [] w = (ok ([], 0), w)
  parse_items idx (item ∷ rest) w =
      let (r, w') = parse_item idx item w in
      elim r [
        | err x ↦ (err x, w')
        | ok none ↦
            (parse_items (suc idx) rest >>= λ (chunks, invalid). pure (chunks, suc invalid)) w'
        | ok (some c) ↦
            (parse_items (suc idx) rest >>= λ (chunks, invalid). pure (c ∷ chunks, invalid)) w'
      ]

  abbrev pub Parsed : Type 0
  Parsed = record { chunks : List LiveChunk; next_cursor : Option String; invalid : ℕ }

  unfoldable pub parse_live_pull_payload : Payload → Op (W e) Parsed
  parse_live_pull_payload not_object w = (
    err (provider connector_provider_error "SberJazz live-chunks payload должен быть объектом"),
    w,
  )
  parse_live_pull_payload (bad_chunks _) w = (
    err (
        provider connector_provider_error
          "SberJazz live-chunks payload.chunks должен быть массивом"),
    w,
  )
  parse_live_pull_payload (batch items cursor) w =
      (parse_items 0 items >>= λ (chunks, invalid).
      pure (record { chunks = chunks; next_cursor = next_cursor_of cursor; invalid = invalid }))
        w
