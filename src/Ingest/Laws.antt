-- ===== src/Ingest/Laws.antt =====
-- The chunks with one key in the inline mode, among any others.
use second_capture.Base.{
  ℕ, ◌+◌, ◌<◌, ◌≡◌, subst, String, eq_iff, Bool, true, false, Option, none, some, List, [], ◌∷◌,
  arith,
}
use second_capture.Base.Text.{is_empty, text_or}
use second_capture.Base.Dict.{lookup, insert, lookup-insert, lookup-insert_self}
use second_capture.Base.Errors.{ok}
use second_capture.Ingest.{
  Chunk, Services, Process, on_remote, default_ttl_sec, drop_expired, is_held, swept,
  local_check_and_set, idem_key_of, is_inline, check_and_set, enqueue_stt, transcribe, result,
  ingest_new, ingest_audio_chunk_bytes, blob_key_of,
}

-- The sweep removes no key that is still held.
lookup-drop_expired :
    (now t : ℕ) (k : String) (cache : List (String × ℕ))
    → now < t
    → lookup k cache ≡ some t
    → lookup k (drop_expired now cache) ≡ some t
unfolding lookup drop_expired
lookup-drop_expired now t k [] later h = h
lookup-drop_expired now t k ((j, u) ∷ rest) later h =
    ground (arith, lookup-drop_expired now t k rest later)

lookup-swept :
    (now t : ℕ) (k : String) (cache : List (String × ℕ))
    → now < t
    → lookup k cache ≡ some t
    → lookup k (swept now cache) ≡ some t
unfolding swept
lookup-swept now t k cache later h = ground (arith, lookup-drop_expired now t k cache later h)

-- A key that the caller gives is used.
pub given_key : (fresh k : String) → is_empty k ≡ false → text_or fresh (some k) ≡ k
unfolding text_or
given_key fresh k filled = ground arith

module _ (v : Services) where
  -- Writing and transcribing leave the local cache and the clock alone, also where they raise.
  transcribe_same :
      (c : Chunk) (blob : String) (defer skip : Bool) (p : Process v.Remote)
      → ((transcribe v c blob defer skip p).1.local_cache ≡ p.local_cache)
        × ((transcribe v c blob defer skip p).1.clock ≡ p.clock)
  unfolding transcribe enqueue_stt
  transcribe_same c blob defer skip p = ground arith

  ingest_new_same :
      (c : Chunk) (key : String) (defer skip : Bool) (p : Process v.Remote)
      → ((ingest_new v c key defer skip p).1.local_cache ≡ p.local_cache)
        × ((ingest_new v c key defer skip p).1.clock ≡ p.clock)
  unfolding ingest_new
  ingest_new_same c key defer skip p = ground (
    arith,
    transcribe_same c (blob_key_of c.meeting_id c.seq) defer skip
        (on_remote (v.put_bytes (blob_key_of c.meeting_id c.seq) c.audio) p).1,
  )

  -- What a first ingestion leaves in the cache: the key, until a day from now.
  first_holds :
      (c : Chunk) (k fresh scope : String) (defer skip : Bool) (p : Process v.Remote)
      → let key = idem_key_of scope c.meeting_id (text_or fresh (some k)) in
        let p' = (ingest_audio_chunk_bytes v c (some k) fresh scope defer skip p).1 in
        is_inline v ≡ true
        → is_held p.clock (lookup key p.local_cache) ≡ false
        → (lookup key p'.local_cache ≡ some (p.clock + default_ttl_sec)) × (p'.clock ≡ p.clock)
  unfolding ingest_audio_chunk_bytes check_and_set local_check_and_set
  first_holds c k fresh scope defer skip p inline new =
      let idem = text_or fresh (some k) in
      let key = idem_key_of scope c.meeting_id idem in
      let until = p.clock + default_ttl_sec in
      let q : Process v.Remote = record p {
        local_cache = swept p.clock (insert key until p.local_cache);
      } in
      ground (
        arith,
        ingest_new_same c idem defer skip q,
        lookup-swept p.clock until key (insert key until p.local_cache),
        lookup-insert_self key until p.local_cache,
      )

  -- A held key makes a duplicate, and nothing changes.
  held_duplicate :
      (c : Chunk) (k fresh scope : String) (defer skip : Bool) (q : Process v.Remote)
      → is_inline v ≡ true
      → is_held q.clock
          (lookup (idem_key_of scope c.meeting_id (text_or fresh (some k))) q.local_cache)
        ≡ true
      → ingest_audio_chunk_bytes v c (some k) fresh scope defer skip q
        ≡ (ok (result v c (text_or fresh (some k)) true none), q)
  unfolding ingest_audio_chunk_bytes check_and_set local_check_and_set
  held_duplicate c k fresh scope defer skip q inline held = ground arith

  -- A check of any key leaves a key that is held where it is.
  check_keeps :
      (key k : String) (t : ℕ) (p : Process v.Remote)
      → p.clock < t
      → lookup k p.local_cache ≡ some t
      → (lookup k (local_check_and_set key default_ttl_sec p).1.local_cache ≡ some t)
        × ((local_check_and_set key default_ttl_sec p).1.clock ≡ p.clock)
  unfolding local_check_and_set
  check_keeps key k t p later h =
      let added = insert key (p.clock + default_ttl_sec) p.local_cache in
      ground (
        arith,
        lookup-swept p.clock t k added later,
        lookup-insert key k (p.clock + default_ttl_sec) p.local_cache,
        eq_iff key k,
      )

  ingest_keeps :
      (c : Chunk) (given : Option String) (fresh scope : String) (defer skip : Bool) (k : String)
      (t : ℕ) (p : Process v.Remote)
      → is_inline v ≡ true
      → p.clock < t
      → lookup k p.local_cache ≡ some t
      → let p' = (ingest_audio_chunk_bytes v c given fresh scope defer skip p).1 in
        (lookup k p'.local_cache ≡ some t) × (p'.clock ≡ p.clock)
  unfolding ingest_audio_chunk_bytes check_and_set
  ingest_keeps c given fresh scope defer skip k t p inline later h =
      let idem = text_or fresh given in
      let key = idem_key_of scope c.meeting_id idem in
      let q = (local_check_and_set key default_ttl_sec p).1 in
      ground (arith, check_keeps key k t p later h, ingest_new_same c idem defer skip q)

  -- What happens in between: any chunk arrives, or time passes.
  pub data Visit : Type 0 where
    arrives : Chunk → (key : Option String) → (fresh scope : String) → (defer skip : Bool) → Visit
    passes : ℕ → Visit

  abbrev pub after_visit : Visit → Process v.Remote → Process v.Remote
  after_visit (arrives c key fresh scope defer skip) p =
      (ingest_audio_chunk_bytes v c key fresh scope defer skip p).1
  after_visit (passes d) p = record p { clock = p.clock + d }

  abbrev pub after_visits : List Visit → Process v.Remote → Process v.Remote
  after_visits [] p = p
  after_visits (x ∷ xs) p = after_visits xs (after_visit x p)

  -- The time that passes.
  abbrev pub time_in : List Visit → ℕ
  time_in [] = 0
  time_in (arrives _ _ _ _ _ _ ∷ xs) = time_in xs
  time_in (passes d ∷ xs) = d + time_in xs

  visits_keep :
      (xs : List Visit) (k : String) (t : ℕ) (p : Process v.Remote)
      → is_inline v ≡ true
      → p.clock + time_in xs < t
      → lookup k p.local_cache ≡ some t
      → (lookup k (after_visits xs p).local_cache ≡ some t)
        × ((after_visits xs p).clock ≡ p.clock + time_in xs)
  visits_keep [] k t p inline later h = (h, omega arith)
  visits_keep (arrives c key fresh scope defer skip ∷ xs) k t p inline later h =
      let p' = (ingest_audio_chunk_bytes v c key fresh scope defer skip p).1 in
      let one = ingest_keeps c key fresh scope defer skip k t p inline (omega (arith, later)) h in
      let rest = visits_keep xs k t p' inline (omega (arith, later, one.1)) one.0 in
      (rest.0, omega (arith, rest.1, one.1))
  visits_keep (passes d ∷ xs) k t p inline later h =
      let rest =
        visits_keep xs k t (record p { clock = p.clock + d }) inline (omega (arith, later)) h in
      (rest.0, omega (arith, rest.1))

  -- In the inline mode, once a chunk with a key that is not held has been sent, whether the
  -- ingestion returned or raised, every chunk of the same meeting, scope and key that comes less
  -- than a day later is a duplicate, whatever chunks arrive in between, with this key or others:
  -- it is accepted, and neither the blobs nor the pipeline nor the cache see it.
  pub ingest_once :
      (first second : Chunk) (k fresh fresh' scope : String) (defer skip defer' skip' : Bool)
      (p : Process v.Remote) (between : List Visit)
      → is_inline v ≡ true
      → is_empty k ≡ false
      → second.meeting_id ≡ first.meeting_id
      → is_held p.clock (lookup (idem_key_of scope first.meeting_id k) p.local_cache) ≡ false
      → time_in between < default_ttl_sec
      → let p' = (ingest_audio_chunk_bytes v first (some k) fresh scope defer skip p).1 in
        let q = after_visits between p' in
        ingest_audio_chunk_bytes v second (some k) fresh' scope defer' skip' q
        ≡ (ok (result v second k true none), q)
  ingest_once first second k fresh fresh' scope defer skip defer' skip' p between inline filled same
        new soon =
      let key = idem_key_of scope first.meeting_id k in
      let until = p.clock + default_ttl_sec in
      let p' = (ingest_audio_chunk_bytes v first (some k) fresh scope defer skip p).1 in
      let q = after_visits between p' in
      let set : (lookup key p'.local_cache ≡ some until) × (p'.clock ≡ p.clock) =
        ground
          (arith, given_key fresh k filled, first_holds first k fresh scope defer skip p inline) in
      let stays = visits_keep between key until p' inline (omega (arith, soon, set.1)) set.0 in
      let there : is_held q.clock (lookup key q.local_cache) ≡ true =
        ground (arith, stays, set.1, soon) in
      let held : is_held q.clock
            (lookup (idem_key_of scope second.meeting_id (text_or fresh' (some k))) q.local_cache)
          ≡ true =
        rw (given_key fresh' k filled, same) there in
      subst
        (λ x.
          ingest_audio_chunk_bytes v second (some k) fresh' scope defer' skip' q
          ≡ (ok (result v second x true none), q))
        (given_key fresh' k filled)
        (held_duplicate second k fresh' scope defer' skip' q inline held)
