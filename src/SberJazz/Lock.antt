-- ===== src/SberJazz/Lock.antt =====
-- The lock of a meeting in Redis, held while an operation on the meeting runs.
pub mod Frame
pub mod Laws
use second_capture.Base.{
  ℕ, String, ◌<>◌, str_eq, Bool, true, false, Option, none, some, if◌then◌else◌,
}
use second_capture.Base.Errors.{
  provider, connector_provider_error, ok, err, Op, pure, raise, catch, ◌>>=◌,
}
use second_capture.SberJazz.World.{Raw, object, plain, Redis, Env, on_redis}
use second_capture.SberJazz.Limits.{op_lock_ttl_sec}
use second_capture.SberJazz.Store.{W}

abbrev pub op_lock_key : String → String
op_lock_key meeting_id = "connector:sberjazz:op_lock:" <> meeting_id

abbrev holds_token : String → Option Raw → Bool
holds_token token none = false
holds_token token (some (object _)) = false
holds_token token (some (plain s)) = str_eq s token

module _ (e : Env) where
  unfoldable pub acquire_op_lock : String → String → Op (W e) Bool
  acquire_op_lock meeting_id token =
      on_redis (e.redis.set_nx (op_lock_key meeting_id) (plain token) (op_lock_ttl_sec e.settings))

  -- Only the holder's own token is deleted.
  unfoldable pub release_op_lock : String → String → Op (W e) (Unit {0})
  release_op_lock meeting_id token = do
    current ← on_redis (e.redis.get (op_lock_key meeting_id))
    if holds_token token current
        then on_redis (e.redis.delete (op_lock_key meeting_id))
        else pure tt

  -- `finally`: the lock is released after a return and after a raise, and a failure of the release
  -- is only logged.
  unfoldable pub then_release : {A : Type 0} → String → String → Op (W e) A → Op (W e) A
  then_release meeting_id token body w =
      let (r, w') = body w in (r, (catch (release_op_lock meeting_id token) (λ _. pure tt) w').1)

  -- `with _meeting_operation_lock(...)`; `token` is the fresh `uuid4().hex`.
  unfoldable pub with_meeting_lock : {A : Type 0} → String → String → Op (W e) A → Op (W e) A
  with_meeting_lock meeting_id token body = do
    acquired ← acquire_op_lock meeting_id token
    if acquired
        then then_release meeting_id token body
        else raise
            (provider connector_provider_error "Операция коннектора уже выполняется для meeting")
