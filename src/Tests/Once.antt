-- ===== src/Tests/Once.antt =====
-- The theorem on queued ingestion at a concrete input: Redis as the list of its keys, and the
-- number of writes and tasks.
use second_capture.Base.{
  ℕ, suc, ◌≡◌, refl, String, eq_refl, true, false, not, none, some, List, [], ◌∷◌, arith,
  if◌then◌else◌,
}
use second_capture.Base.Text.{is_empty, norm, contains}
use second_capture.Base.Errors.{ok}
use second_capture.Ingest.{Chunk, Services, Process, is_inline, result, ingest_audio_chunk_bytes}
use second_capture.Ingest.Queued.{KeepsKeys, queued_once}

abbrev pub Keys : Type 0
Keys = List String × ℕ

abbrev redis_queue : Services
redis_queue = record {
  Remote = Keys;
  Updates = Unit {0};
  set_nx = λ k ttl s. (ok (not (contains k s.0)), if contains k s.0 then s else (k ∷ s.0, s.1));
  put_bytes = λ k audio s. (ok tt, (s.0, suc s.1));
  get_bytes = λ k s. (ok [], s);
  process_chunk_inline = λ c k s. (ok tt, s);
  enqueue = λ q t s. (ok tt, (s.0, suc s.1));
  b64_decode = λ s. some [];
  queue_mode = "redis";
}

held_after :
    (k : String) (s : Keys) → contains k (if contains k s.0 then s else (k ∷ s.0, s.1)).0 ≡ true
unfolding contains
held_after k s = ground (arith, eq_refl k)

held_same :
    (k : String) (s : Keys)
    → contains k s.0 ≡ true
    → (if contains k s.0 then s else (k ∷ s.0, s.1)) ≡ s
held_same k s h = rw h refl

redis_law : KeepsKeys redis_queue
redis_law = record {
  holds = λ s k. contains k s.0;
  set_nx_lem = λ k ttl s. refl;
  holds-set_nx = λ k ttl s. held_after k s;
  set_nx_held = λ k ttl s h. held_same k s h;
  holds-put_bytes = λ b audio s k. refl;
  holds-enqueue = λ q t s k. refl;
}

queued_lem : is_inline redis_queue ≡ false
unfolding is_inline norm
queued_lem = refl

key_lem : is_empty "k" ≡ false
unfolding is_empty
key_lem = refl

abbrev sent : Chunk
sent = record {
  meeting_id = "m";
  seq = 7;
  audio = 1 ∷ [];
  source_track = none;
  quality_profile = "balanced";
  capture_levels = [];
}

abbrev start : Process Keys
start = record { remote = ([], 0); local_cache = []; clock = 100 }

queued_once_example :
    let q = (ingest_audio_chunk_bytes redis_queue sent (some "k") "f1" "ws" false false start).1 in
    ingest_audio_chunk_bytes redis_queue sent (some "k") "f2" "ws" false false q
    ≡ (ok (result redis_queue sent "k" true none), q)
queued_once_example =
    queued_once redis_queue redis_law queued_lem sent sent "k" "f1" "f2" "ws" false false false
      false start key_lem refl
