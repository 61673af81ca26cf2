-- ===== src/SaluteJazz/Service/Refused.antt =====
-- A platform that refuses the access.
use second_capture.Base.{ℕ, zero, suc, ◌≡◌, refl, String, true, false, none, some, [], arith}
use second_capture.Base.Text.{is_empty}
use second_capture.Base.Errors.{err}
use second_capture.Config.{ℤ, pos, negsuc, succ, at_least}
use second_capture.SberJazz.Limits.{retry_config}
use second_capture.SberJazz.Store.{W}
use second_capture.SberJazz.Calls.{
  Call, give_up, attempt_call, call_resolved, call_with_retries, is_retryable_connector_error,
}
use second_capture.SberJazz.Calls.Laws.{give_up_lem}
use second_capture.SberJazz.Calls.Attempts.{loop_stops}
use second_capture.SaluteJazz.{Line, Body, response, is_refusal, request_of, request, join, leave}
use second_capture.SaluteJazz.Laws.{add_one, refused_loop, net_after, reply_at}
use second_capture.SaluteJazz.Service.{
  path_of, refusal, Setup, service, call_request, body, found, call_found,
}

at_least_one : (z : ℤ) → (m : ℕ) × (at_least 1 z ≡ suc m)
at_least_one (pos zero) = (0, refl)
at_least_one (pos (suc n)) = (n, omega arith)
at_least_one (negsuc n) = (0, refl)

module _ (u : Setup) where
  -- The adapter asks once, and passes the refusal on.
  refused_request :
      (path : String) (l : Line u.http.Net) (n : ℕ) (b : Body u.http.Item)
      → is_empty u.adapter.base_url ≡ false
      → let q = request_of u.http u.adapter "POST" path [] in
        reply_at u.http q l.net ≡ response n b
        → is_refusal n ≡ true
        → request u.http u.adapter "POST" path [] l
          ≡ (err refusal, record l { net = net_after u.http q 1 l.net })
  unfolding request
  refused_request path l n b set r refused =
      let q = request_of u.http u.adapter "POST" path [] in
      rw set (
        rw (add_one u.adapter.http_retries) (
          refused_loop u.http u.adapter q u.adapter.http_retries (suc u.adapter.http_retries) l n b
            r refused))

  refused_attempt :
      (call : Call) (name meeting_id : String) (k : ℕ) (w : W (service u)) (n : ℕ)
      (b : Body u.http.Item)
      → is_empty u.adapter.base_url ≡ false
      → reply_at u.http (call_request u call meeting_id) w.platform.net ≡ response n b
      → is_refusal n ≡ true
      → (body u call name meeting_id k w).0 ≡ err refusal
        × ((body u call name meeting_id k w).1.platform.net
            ≡ net_after u.http (call_request u call meeting_id) 1 w.platform.net)
  unfolding attempt_call join leave
  refused_attempt Call.join name meeting_id k w n b set r refused =
      ground (arith, refused_request (path_of Call.join meeting_id) w.platform n b set r refused)
  refused_attempt Call.leave name meeting_id k w n b set r refused =
      ground (arith, refused_request (path_of Call.leave meeting_id) w.platform n b set r refused)

  -- A refusal ends the loop of the service after its first attempt.
  stopped_once :
      (call : Call) (meeting_id : String) (w : W (service u))
      → (body u call "sberjazz" meeting_id 1 w).0 ≡ err refusal
      → call_resolved (service u) call (found u) meeting_id w
        ≡ give_up
            (service u)
            call
            "sberjazz"
            meeting_id
            (retry_config u.settings).attempts
            (some refusal)
            (body u call "sberjazz" meeting_id 1 w).1
  unfolding call_resolved is_retryable_connector_error retry_config
  stopped_once call meeting_id w failed =
      let (m, one) = at_least_one (succ u.settings.sberjazz_retries) in
      rw one (
        ground (
          arith,
          loop_stops (service u) (retry_config u.settings) (body u call "sberjazz" meeting_id) m 1
              none w refusal failed (ground arith),
        ))

  -- Where the platform answers the first request with 401 or 403, a join or a leave asks it no
  -- second time, whatever retries are configured, and raises the connector's authorization error.
  pub refused_once :
      (call : Call) (meeting_id : String) (w : W (service u)) (n : ℕ) (b : Body u.http.Item)
      → u.settings.meeting_connector_provider ≡ "sberjazz"
      → is_empty u.adapter.base_url ≡ false
      → reply_at u.http (call_request u call meeting_id) w.platform.net ≡ response n b
      → is_refusal n ≡ true
      → let out = call_with_retries (service u) call meeting_id w in
        (out.0 ≡ err refusal)
        × (out.1.platform.net ≡ net_after u.http (call_request u call meeting_id) 1 w.platform.net)
  refused_once call meeting_id w n b real set r refused =
      let (failed, sent) = refused_attempt call "sberjazz" meeting_id 1 w n b set r refused in
      let (m, one) = at_least_one (succ u.settings.sberjazz_retries) in
      let v = (body u call "sberjazz" meeting_id 1 w).1 in
      ground (
        arith,
        call_found u call meeting_id w real,
        stopped_once call meeting_id w failed,
        give_up_lem (service u) call "sberjazz" meeting_id (retry_config u.settings).attempts
            (some refusal) v,
        sent,
      )
