-- ===== src/SberJazz/Sessions.antt =====
-- The listing of the sessions, the reconnection of the stale ones, and the health check.
pub mod Order
pub mod Visits
pub mod Laws
use second_capture.Base.{
  ℕ, suc, ◌+◌, ◌*◌, ◌-◌, String, str_eq, Bool, true, false, not, ◌&&◌, ◌||◌, Option, none, some,
  List, [], ◌∷◌, ◌++◌, ltb, leb, map, take, max, if◌then◌else◌,
}
use second_capture.Base.Text.{is_empty, strip, contains}
use second_capture.Base.Errors.{Exc, other, Outcome, ok, err, Op, pure, catch, ◌>>=◌}
use second_capture.Config.{ℤ, at_least}
use second_capture.SberJazz.World.{
  SessionState, BreakerState, Env, Connector, World, on_redis, on_platform,
}
use second_capture.SberJazz.Limits.{Resolved, resolve_connector}
use second_capture.SberJazz.Store.{
  W, now_iso, parse_dt, is_naive_time, naive_error, session_index_key, get_sberjazz_meeting_state,
}
use second_capture.SberJazz.Breaker.{get_sberjazz_circuit_breaker_state}
use second_capture.SberJazz.Calls.{reconnect_sberjazz_meeting}

-- `set.update`: the members that are not blank and not there.
unfoldable pub update_ids : List String → List String → List String
update_ids ids [] = ids
update_ids ids (v ∷ rest) =
    let skipped = update_ids ids rest in
    let added = update_ids (ids ++ (v ∷ [])) rest in
    if is_empty (strip v) then skipped else if contains v ids then skipped else added

-- `SberJazzReconcileResult`.
pub record ReconcileResult : Type 0 where
  pub scanned : ℕ
  pub stale : ℕ
  pub reconnected : ℕ
  pub failed : ℕ
  pub stale_threshold_sec : ℕ
  pub updated_at : String

-- `SberJazzConnectorHealth`; of the details, only the state of the breaker.
pub record ConnectorHealth : Type 0 where
  pub provider : String
  pub configured : Bool
  pub healthy : Bool
  pub circuit_breaker : String
  pub updated_at : String

-- `arrange` is the order in which the members of a set come, and `uuid` the fresh token of the
-- lock of a meeting.
module _ (e : Env) (arrange : List String → List String) (uuid : String → String) where
  -- `_SESSIONS.keys()` and, where Redis answers, the members of the index.
  unfoldable pub meeting_ids : W e → List String × W e
  meeting_ids w =
      let known = map (λ (p : String × SessionState). p.0) w.sessions in
      let (r, w') = on_redis (e.redis.smembers session_index_key) w in
      elim r [ ok members ↦ (arrange (update_ids known members), w') | err _ ↦ (arrange known, w') ]

  -- `[get_sberjazz_meeting_state(mid) for mid in meeting_ids]`.
  unfoldable pub states_of : List String → Op (W e) (List SessionState)
  states_of [] w = (ok [], w)
  states_of (m ∷ ms) w =
      let (r, w') = get_sberjazz_meeting_state e m w in
      elim r [ err x ↦ (err x, w') | ok s ↦ (states_of ms >>= λ rest. pure (s ∷ rest)) w' ]

  -- The time by which sessions are sorted.
  unfoldable pub time_of : ℕ → SessionState → ℕ
  time_of now s = parse_dt e now s.updated_at

  -- The place of a state in a sorted list, before those of the same time.
  unfoldable pub place_state : ℕ → SessionState → List SessionState → List SessionState
  place_state now s [] = s ∷ []
  place_state now s (t ∷ rest) =
      let later = place_state now s rest in
      if leb (time_of now t) (time_of now s) then s ∷ t ∷ rest else t ∷ later

  -- `sort(key=..., reverse=True)`, which keeps the order of equal times.
  unfoldable pub newest_first : ℕ → List SessionState → List SessionState
  newest_first now [] = []
  newest_first now (s ∷ rest) = place_state now s (newest_first now rest)

  unfoldable pub some_naive : List SessionState → Bool
  some_naive [] = false
  some_naive (s ∷ rest) = is_naive_time e s.updated_at || some_naive rest

  unfoldable pub some_zoned : List SessionState → Bool
  some_zoned [] = false
  some_zoned (s ∷ rest) = not (is_naive_time e s.updated_at) || some_zoned rest

  -- A time without a zone and one with a zone are not compared: the sort raises.
  unfoldable pub sorted_states : ℕ → List SessionState → Outcome (List SessionState)
  sorted_states now states =
      if some_naive states && some_zoned states
      then err (other "can't compare offset-naive and offset-aware datetimes")
      else ok (newest_first now states)

  unfoldable pub list_sberjazz_sessions : ℤ → Op (W e) (List SessionState)
  list_sberjazz_sessions limit w =
      let (ids, w') = meeting_ids w in
      (do
        states ← states_of ids
        λ u. elim (sorted_states u.clock states) [
          | err x ↦ (err x, u)
          | ok sorted ↦ (ok (take (at_least 1 limit) sorted), u)
        ])
        w'

  unfoldable pub stale_threshold_sec : ℕ
  stale_threshold_sec = at_least 30 e.settings.sberjazz_reconcile_stale_sec

  -- A session that is connected and whose last change, at `now`, is at least the threshold ago.
  unfoldable pub is_stale : ℕ → SessionState → W e → Bool
  is_stale now s w =
      if s.connected then leb (stale_threshold_sec * 1000000) (now - time_of w.clock s) else false

  -- One round of the `for` loop; the age of a session is read only where it is connected.
  unfoldable pub reconcile_one : ℕ → SessionState → ReconcileResult → Op (W e) ReconcileResult
  reconcile_one now s acc w =
      let seen = record acc { scanned = acc.scanned + 1 } in
      let old = record seen { stale = acc.stale + 1 } in
      let (r, w') = reconnect_sberjazz_meeting e (uuid s.meeting_id) s.meeting_id w in
      if s.connected && is_naive_time e s.updated_at
      then (err naive_error, w)
      else if is_stale now s w
      then elim r [
        | ok _ ↦ (ok (record old { reconnected = acc.reconnected + 1 }), w')
        | err _ ↦ (ok (record old { failed = acc.failed + 1 }), w')
      ]
      else (ok seen, w)

  unfoldable pub reconcile_all : ℕ → List SessionState → ReconcileResult → Op (W e) ReconcileResult
  reconcile_all now [] acc w = (ok acc, w)
  reconcile_all now (s ∷ rest) acc w =
      let (r, w') = reconcile_one now s acc w in
      elim r [ err x ↦ (err x, w') | ok acc' ↦ reconcile_all now rest acc' w' ]

  abbrev pub no_result : ReconcileResult
  no_result = record {
    scanned = 0;
    stale = 0;
    reconnected = 0;
    failed = 0;
    stale_threshold_sec = stale_threshold_sec;
    updated_at = "";
  }

  unfoldable pub reconcile_sberjazz_sessions : ℤ → Op (W e) ReconcileResult
  reconcile_sberjazz_sessions limit w =
      let (r, w') = list_sberjazz_sessions limit w in
      elim r [
        | err x ↦ (err x, w')
        | ok states ↦
            (do
              acc ← reconcile_all w.clock states no_result
              λ u. (ok (record acc { updated_at = now_iso e u }), u))
              w'
      ]

module _ (e : Env) where
  abbrev health_at : Resolved e → Bool → Bool → BreakerState → W e → ConnectorHealth
  health_at r configured healthy cb w = record {
    provider = r.provider;
    configured = configured;
    healthy = healthy;
    circuit_breaker = cb.state;
    updated_at = now_iso e w;
  }

  -- `bool((s.sberjazz_api_base or "").strip())`.
  unfoldable pub is_configured : Bool
  is_configured = elim e.settings.sberjazz_api_base [
    | none ↦ false
    | some base ↦ not (is_empty (strip base))
  ]

  unfoldable pub ping : Resolved e → BreakerState → W e → ConnectorHealth × W e
  ping r cb w =
      let (reply, w') = on_platform r.connector.health w in
      elim reply [
        | ok _ ↦ (health_at r true true cb w', w')
        | err _ ↦ (health_at r true false cb w', w')
      ]

  -- The health of a connector that was found.
  unfoldable pub health_of : Resolved e → BreakerState → W e → ConnectorHealth × W e
  health_of r cb w =
      if str_eq r.provider "sberjazz_mock"
      then (health_at r true true cb w, w)
      else if not is_configured
      then (health_at r false false cb w, w)
      else ping r cb w

  unfoldable pub get_sberjazz_connector_health : Op (W e) ConnectorHealth
  get_sberjazz_connector_health w = elim (resolve_connector e) [
    | err x ↦ (err x, w)
    | ok r ↦
        (get_sberjazz_circuit_breaker_state e >>= λ cb.
        λ u. let (h, v) = health_of r cb u in (ok h, v))
          w
  ]
