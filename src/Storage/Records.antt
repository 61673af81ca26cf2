-- ===== src/Storage/Records.antt =====
-- The records of meetings: numbers and names (src/interview_analytics_agent/storage/records.py).
pub mod Numbers
pub mod Given
pub mod Laws
use second_capture.Base.{
  ℕ, suc, ◌==◌, ltb, String, ◌<>◌, str_eq, Bool, true, false, ◌||◌, Option, none, some, List, [],
  ◌∷◌, if◌then◌else◌,
}
use second_capture.Base.Text.{is_empty, strip, truncate, show_nat}
use second_capture.Base.Lines.{join, words, has_part}
use second_capture.Base.Dict.{insert, lookup}
use second_capture.Base.Errors.{other, Outcome, ok, err, Op, pure, raise, ◌>>=◌}
use second_capture.Config.{ℤ, pos, negsuc}

-- A metadata file, each field as the code reads it: `int(meta.get("record_index") or 0)`, which
-- may raise, and `str(meta.get(...) or "")` for the texts.
pub record Metadata : Type 0 where
  pub record_index : Outcome ℤ
  pub display_name : String
  pub created_at : String
  pub updated_at : String

-- A file that is not there, one without a JSON object in it, and one with.
pub data File (A : Type 0) : Type 0 where
  missing unreadable : File A
  content : A → File A

-- The directory of records, which takes every write: the counter, as `int` reads its last index
-- (`get` raises where the JSON is no object), the metadata by directory, and a metadata file that
-- stands beside the counter, which is the one of the meeting with the name `.`.
pub record Disk : Type 0 where
  pub counter : File (Outcome ℤ)
  pub metas : List (String × File Metadata)
  pub own : File Metadata

abbrev empty_metadata : Metadata
empty_metadata = record {
  record_index = ok (pos 0);
  display_name = "";
  created_at = "";
  updated_at = "";
}

-- The number itself if it is positive, else 0.
abbrev pub positive_part : ℤ → ℕ
positive_part (pos n) = n
positive_part (negsuc n) = 0

abbrev pub index_of : File Metadata → ℕ
index_of missing = 0
index_of unreadable = 0
index_of (content m) = elim m.record_index [ ok z ↦ positive_part z | err _ ↦ 0 ]

-- `_scan_last_record_index`.
unfoldable pub scan_last_record_index : List (String × File Metadata) → ℕ
scan_last_record_index [] = 0
scan_last_record_index ((_, f) ∷ rest) =
    let max_idx = scan_last_record_index rest in
    if ltb max_idx (index_of f) then index_of f else max_idx

abbrev pub last_index : File (Outcome ℤ) → Outcome ℤ
last_index missing = ok (pos 0)
last_index unreadable = ok (pos 0)
last_index (content r) = r

-- `_next_record_index`.
unfoldable pub next_record_index : Op Disk ℕ
unfolding scan_last_record_index
next_record_index d = elim (last_index d.counter) [
  | err x ↦ (err x, d)
  | ok z ↦
      let current = positive_part z in
      let next_idx = suc (if current == 0 then scan_last_record_index d.metas else current) in
      (ok next_idx, record d { counter = content (ok (pos next_idx)) })
]

unfoldable pub safe_meeting_id : String → Outcome String
safe_meeting_id meeting_id =
    if is_empty meeting_id
      || has_part "/" meeting_id
      || has_part "\\" meeting_id
      || has_part ".." meeting_id
    then err (other "invalid_meeting_id")
    else ok meeting_id

abbrev pub file_or_missing : Option (File Metadata) → File Metadata
file_or_missing none = missing
file_or_missing (some f) = f

-- The file at `_meta_path`, read and written.
unfoldable pub meta_at : String → Disk → File Metadata
meta_at meeting_id d =
    if str_eq meeting_id "." then d.own else file_or_missing (lookup meeting_id d.metas)

unfoldable pub put_meta : String → Metadata → Disk → Disk
put_meta meeting_id m d =
    if str_eq meeting_id "."
    then record d { own = content m }
    else record d { metas = insert meeting_id (content m) d.metas }

abbrev pub metadata_of : File Metadata → Metadata
metadata_of missing = empty_metadata
metadata_of unreadable = empty_metadata
metadata_of (content m) = m

unfoldable pub read_meeting_metadata : String → Op Disk Metadata
unfolding safe_meeting_id meta_at
read_meeting_metadata meeting_id d = elim (safe_meeting_id meeting_id) [
  | err x ↦ (err x, d)
  | ok safe ↦ (ok (metadata_of (meta_at safe d)), d)
]

-- `" ".join(value.split()).strip()[:120]`.
unfoldable pub sanitize_display_name : String → Outcome String
sanitize_display_name value =
    let text = strip (join " " (words value)) in
    if is_empty text then err (other "display_name_required") else ok (truncate 120 text)

abbrev or_text : String → String → String
or_text s default = if is_empty s then default else s

unfoldable pub index_or_next : Outcome ℤ → Op Disk ℕ
index_or_next (err x) = raise x
index_or_next (ok z) = if positive_part z == 0 then next_record_index else pure (positive_part z)

-- `if not int(meta.get("record_index") or 0): meta["record_index"] = _next_record_index()`.
unfoldable pub index_unless_zero : Outcome ℤ → Op Disk ℤ
index_unless_zero (err x) = raise x
index_unless_zero (ok (negsuc n)) = pure (negsuc n)
index_unless_zero (ok (pos n)) =
    if n == 0 then (do i ← next_record_index; pure (pos i)) else pure (pos n)

-- The time of the operation, `_now_iso`.
module _ (now : String) where
  -- `write_json` of the metadata, which is then returned.
  abbrev pub write_meta : String → Metadata → Op Disk Metadata
  write_meta meeting_id m d = (ok m, put_meta meeting_id m d)

  unfoldable pub new_metadata : String → Metadata → ℕ → Metadata
  new_metadata default_prefix existing record_index = record {
    record_index = ok (pos record_index);
    display_name =
        or_text (strip existing.display_name) (default_prefix <> (" " <> show_nat record_index));
    created_at = or_text (strip existing.created_at) now;
    updated_at = now;
  }

  unfoldable pub complete : String → String → Metadata → Op Disk Metadata
  unfolding index_or_next
  complete default_prefix meeting_id existing =
      if is_empty (strip existing.display_name)
      then (do
        i ← index_or_next existing.record_index
        write_meta meeting_id (new_metadata default_prefix existing i))
      else pure existing

  unfoldable pub ensure_meeting_metadata : String → String → Op Disk Metadata
  unfolding complete read_meeting_metadata
  ensure_meeting_metadata default_prefix meeting_id = do
    existing ← read_meeting_metadata meeting_id
    complete default_prefix meeting_id existing

  unfoldable pub rename : String → String → Metadata → Op Disk Metadata
  unfolding index_unless_zero
  rename meeting_id name meta = do
    z ← index_unless_zero meta.record_index
    write_meta meeting_id (record meta {
      record_index = ok z;
      display_name = name;
      created_at = if is_empty (strip meta.created_at) then now else meta.created_at;
      updated_at = now;
    })

  unfoldable pub update_meeting_display_name : String → String → Op Disk Metadata
  unfolding ensure_meeting_metadata rename sanitize_display_name
  update_meeting_display_name meeting_id display_name d =
      elim (sanitize_display_name display_name) [
        | err x ↦ (err x, d)
        | ok name ↦
            (do meta ← ensure_meeting_metadata "Запись" meeting_id; rename meeting_id name meta) d
      ]
