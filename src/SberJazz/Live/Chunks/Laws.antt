-- ===== src/SberJazz/Live/Chunks/Laws.antt =====
-- What a parsed batch holds.
use text.Mathlib.TextLemmas.{append-eq-nil_iff}
use second_capture.Base.{
  ℕ, suc, ◌+◌, ◌≡◌, ◌≢◌, refl, subst, Option-cases, String, ◌<>◌, eq_iff, false, inl, inr, Option,
  none, some, List, [], ◌∷◌, length, All, arith,
}
use second_capture.Base.Text.{is_empty, show_nat}
use second_capture.Base.Errors.{ok, Outcome-cases}
use second_capture.SberJazz.World.{Field, RawChunk, batch, Env}
use second_capture.SberJazz.Store.{W}
use second_capture.SberJazz.Live.{LiveChunk}
use second_capture.SberJazz.Live.Chunks.{
  chunk_id_of, parse_item, parse_items, Parsed, parse_live_pull_payload, next_cursor_of,
}

ok_inj : {A : Type 0} {a b : A} → ok a ≡ ok b → a ≡ b
ok_inj h = cc h

filled_ne : (s : String) → s ≢ "" → is_empty s ≡ false
unfolding is_empty
filled_ne String.[] h = absurd (h refl)
filled_ne (String.◌∷◌ c s) h = refl

fallback_filled : (prefix t : String) → is_empty (prefix <> (":" <> t)) ≡ false
fallback_filled prefix t =
    filled_ne (prefix <> (":" <> t))
      (λ p. cc ((eq_iff ":" "").1 (append-eq-nil_iff.0 (append-eq-nil_iff.0 p).1).0))

chunk_id_filled :
    (prefix : String) (idx : ℕ) (c : RawChunk) → is_empty (chunk_id_of prefix idx c) ≡ false
unfolding chunk_id_of
chunk_id_filled prefix idx c = ground (arith, fallback_filled prefix (show_nat idx))

module _ (e : Env) (meeting_id prefix : String) where
  -- A chunk that can be ingested: it has content and an id.
  abbrev pub IsUsable : LiveChunk → Type 0
  IsUsable c = (is_empty c.content_b64 ≡ false) × (is_empty c.chunk_id ≡ false)

  parse_item-IsUsable :
      (idx : ℕ) (item : Option RawChunk) (w : W e) (c : LiveChunk)
      → (parse_item e meeting_id prefix idx item w).0 ≡ ok (some c)
      → IsUsable c
  unfolding parse_item
  parse_item-IsUsable idx none w c h = ground arith
  parse_item-IsUsable idx (some r) w c h = ground (arith, chunk_id_filled prefix idx r)

  -- The chunks and the number of invalid items for `n` items.
  abbrev Accounts : ℕ → List LiveChunk × ℕ → Type 0
  Accounts n out = (length out.0 + out.1 ≡ n) × All IsUsable out.0

  parse_items-Accounts :
      (idx : ℕ) (items : List (Option RawChunk)) (w : W e) (out : List LiveChunk × ℕ)
      → (parse_items e meeting_id prefix idx items w).0 ≡ ok out
      → Accounts (length items) out
  unfolding parse_items
  parse_items-Accounts idx [] w out h =
      let same : ([], 0) ≡ out = ok_inj h in subst (Accounts 0) same (omega arith, tt)
  parse_items-Accounts idx (item ∷ rest) w out h =
      elim (Outcome-cases (parse_item e meeting_id prefix idx item w).0) [
        | inr (x, failed) ↦ absurd (ground arith)
        | inl (o, found) ↦
            elim (Outcome-cases (parse_items e meeting_id prefix (suc idx) rest v).0) [
              | inr (x, failed) ↦ absurd (ground arith)
              | inl (got, parsed) ↦
                  let good = parse_items-Accounts (suc idx) rest v got parsed in
                  elim (Option-cases o) [
                    | inl skipped ↦
                        let same : (got.0, suc got.1) ≡ out = ok_inj (ground arith) in
                        subst (Accounts (suc (length rest))) same (omega (arith, good.0), good.1)
                    | inr (c, kept) ↦
                        let same : (c ∷ got.0, got.1) ≡ out = ok_inj (ground arith) in
                        let usable = parse_item-IsUsable idx item w c (cc (found, kept)) in
                        subst (Accounts (suc (length rest))) same
                          (omega (arith, good.0), (usable, good.1))
                  ]
            ]
      ]
    where
      v : W e
      v = (parse_item e meeting_id prefix idx item w).1

  -- A batch that is parsed: each item is a chunk or counted as invalid, and each chunk has content
  -- and an id, which is not empty.
  parse_live_pull_payload-IsUsable :
      (items : List (Option RawChunk)) (cursor : Option Field) (w : W e)
      (out : Parsed e meeting_id prefix)
      → (parse_live_pull_payload e meeting_id prefix (batch items cursor) w).0 ≡ ok out
      → (length out.chunks + out.invalid ≡ length items) × All IsUsable out.chunks
  unfolding parse_live_pull_payload
  parse_live_pull_payload-IsUsable items cursor w out h =
      elim (Outcome-cases (parse_items e meeting_id prefix 0 items w).0) [
        | inr (x, failed) ↦ absurd (ground arith)
        | inl (got, parsed) ↦
            let same : record {
              chunks = got.0;
              next_cursor = next_cursor_of cursor;
              invalid = got.1;
            }
                ≡ out =
              ok_inj (ground arith) in
            subst
              (λ (p : Parsed e meeting_id prefix).
                (length p.chunks + p.invalid ≡ length items) × All IsUsable p.chunks)
              same (parse_items-Accounts 0 items w got parsed)
      ]
