-- ===== src/Tests/Memory.antt =====
-- A Redis in memory that answers every command, stamps of time in unary, and a platform that
-- follows a script.
use second_capture.Base.{
  ℕ, zero, suc, ◌≡◌, ap, refl, ◌&&◌, false, String, str_eq, true, false, not, none, some, is_some,
  List, [], ◌∷◌, arith, if◌then◌else◌,
}
use second_capture.Base.Text.{is_empty}
use second_capture.Base.Dict.{lookup, insert, remove, lookup-insert, lookup-remove}
use second_capture.Base.Errors.{Outcome, ok, Op}
use second_capture.SberJazz.World.{Raw, Redis, Env, Connector, batch, World}
use second_capture.SberJazz.RedisLaws.{IsStore, IsIso}
use second_capture.Config.{ConnectorSettings, pos}

abbrev pub Keys : Type 0
Keys = List (String × Raw)

abbrev pub memory : Redis
memory = record {
  State = Keys;
  get = λ k s. (ok (lookup k s), s);
  set = λ k v n s. (ok tt, insert k v s);
  set_nx = λ k v n s.
      (ok (not (is_some (lookup k s))), if is_some (lookup k s) then s else insert k v s);
  delete = λ k s. (ok tt, remove k s);
  incr = λ k s. (ok 1, s);
  sadd = λ k m s. (ok tt, s);
  smembers = λ k s. (ok [], s);
}

pub view-set_nx :
    (k : String) (v : Raw) (s : Keys) (j : String)
    → lookup j (if is_some (lookup k s) then s else insert k v s)
      ≡ (if str_eq k j && not (is_some (lookup k s)) then some v else lookup j s)
view-set_nx k v s j = ground (arith, lookup-insert k j v s)

abbrev pub memory_store : IsStore memory
memory_store = record {
  view = λ s k. lookup k s;
  get_lem = λ k s. refl;
  set_ok = λ k v n s. refl;
  view-set = λ k v n s j. lookup-insert k j v s;
  set_nx_lem = λ k v n s. refl;
  view-set_nx = λ k v n s j. view-set_nx k v s j;
  delete_ok = λ k s. refl;
  view-delete = λ k s j. lookup-remove k j s;
  sadd_ok = λ k m s. refl;
  view-sadd = λ k m s j. refl;
}

-- A stamp of time in unary, and its reading.
abbrev pub stamp : ℕ → String
stamp zero = "0"
stamp (suc n) = String.◌∷◌ "1" (stamp n)

unfoldable pub unary : String → ℕ
unary String.[] = 0
unary (String.◌∷◌ c String.[]) = 0
unary (String.◌∷◌ c (String.◌∷◌ d s)) = suc (unary (String.◌∷◌ d s))

pub unary-stamp : (n : ℕ) → unary (stamp n) ≡ n
unfolding unary
unary-stamp zero = refl
unary-stamp (suc zero) = refl
unary-stamp (suc (suc n)) = ap suc (unary-stamp (suc n))

-- The platform follows a script: each call takes the next outcome, and goes well when none is left.
abbrev pub Script : Type 0
Script = List (Outcome (Unit {0}))

abbrev pub step : Op Script (Unit {0})
step [] = (ok tt, [])
step (r ∷ rest) = (r, rest)

abbrev pub scripted : Connector Script
scripted = record {
  join = λ _. step;
  leave = λ _. step;
  fetch_live_chunks = λ _ _ _ s. (ok (batch [] none), s);
  health = step;
}

abbrev pub connector_settings : ConnectorSettings
connector_settings = record {
  meeting_connector_provider = "sberjazz";
  sberjazz_api_base = some "https://jazz.example";
  sberjazz_api_token = some "token";
  sberjazz_retries = pos 1;
  sberjazz_retry_backoff_ms = pos 1;
  sberjazz_cb_failure_threshold = pos 2;
  sberjazz_cb_open_sec = pos 5;
  sberjazz_op_lock_ttl_sec = pos 10;
  sberjazz_cb_auto_reset_enabled = true;
  sberjazz_cb_auto_reset_min_age_sec = pos 5;
  sberjazz_session_ttl_sec = pos 60;
  sberjazz_reconcile_stale_sec = pos 60;
  sberjazz_live_pull_enabled = true;
  sberjazz_live_pull_batch_limit = pos 10;
  sberjazz_live_pull_sessions_limit = pos 10;
  sberjazz_live_pull_retries = pos 1;
  sberjazz_live_pull_retry_backoff_ms = pos 1;
  sberjazz_live_pull_fail_reconnect_threshold = pos 2;
  sberjazz_join_idempotent_ttl_sec = pos 0;
  sberjazz_require_https_in_prod = true;
  sberjazz_startup_probe_enabled = true;
  sberjazz_startup_probe_fail_fast_in_prod = true;
  reconciliation_enabled = true;
  reconciliation_limit = pos 10;
}

abbrev pub env : Env
env = record {
  redis = memory;
  Platform = Script;
  real = scripted;
  mock = scripted;
  iso = stamp;
  from_iso = λ s. if is_empty s then none else some (unary s);
  is_naive = λ s. false;
  settings = connector_settings;
}

pub stamp_filled : (n : ℕ) → is_empty (stamp n) ≡ false
unfolding is_empty
stamp_filled zero = refl
stamp_filled (suc n) = refl

abbrev pub env_iso : IsIso env
env_iso = record {
  is_naive-iso = λ t. refl;
  from_iso-iso = λ t. rw (stamp_filled t) (ap some (unary-stamp t));
  iso_filled = stamp_filled;
}

abbrev pub world : Script → World Keys Script
world script = record { redis = []; platform = script; sessions = []; breaker = none; clock = 3 }
