-- ===== src/SberJazz/Lock/Laws.antt =====
-- The meeting's lock during an operation and after it.
use Prim.Native.String.{count}
use text.Mathlib.TextLemmas.{append_assoc, append_inj}
use second_capture.Base.{
  ℕ, ◌≡◌, ◌≢◌, refl, sym, subst, String, ◌<>◌, str_eq, eq_iff, eq_refl, false, Bool-cases, inl, inr,
  Option, none, some, arith,
}
use second_capture.Base.Errors.{provider, connector_provider_error, err, Op}
use second_capture.SberJazz.World.{Raw, plain, Env}
use second_capture.SberJazz.RedisLaws.{IsStore}
use second_capture.SberJazz.Limits.{op_lock_ttl_sec}
use second_capture.SberJazz.Store.{W, session_key}
use second_capture.SberJazz.Breaker.{circuit_breaker_key}
use second_capture.SberJazz.Lock.{
  op_lock_key, acquire_op_lock, release_op_lock, then_release, with_meeting_lock,
}
use second_capture.SberJazz.Lock.Frame.{join_impl-Keeps, leave_impl-Keeps, reconnect_body-Keeps}
use second_capture.SberJazz.Calls.{
  join_impl, leave_impl, reconnect_body, join_sberjazz_meeting, leave_sberjazz_meeting,
  reconnect_sberjazz_meeting,
}

-- Two texts with different beginnings of the same length differ.
begin_ne : (a b s t : String) → count a ≡ count b → a ≢ b → str_eq (a <> s) (b <> t) ≡ false
begin_ne a b s t same differ = elim (Bool-cases (str_eq (a <> s) (b <> t))) [
  | inl eq ↦ absurd (differ (append_inj ((eq_iff _ _).0 eq) same).0)
  | inr ne ↦ ne
]

session_key-ne : (m j : String) → str_eq (session_key j) (op_lock_key m) ≡ false
session_key-ne m j =
    subst (λ a. str_eq a (op_lock_key m) ≡ false)
      (sym (append_assoc "connector:sberjazz:s" "ession:" j))
      (subst (λ b. str_eq ("connector:sberjazz:s" <> ("ession:" <> j)) b ≡ false)
        (sym (append_assoc "connector:sberjazz:o" "p_lock:" m))
        (begin_ne "connector:sberjazz:s" "connector:sberjazz:o" ("ession:" <> j) ("p_lock:" <> m)
          refl (λ p. cc ((eq_iff "connector:sberjazz:s" "connector:sberjazz:o").1 p))))

breaker_key-ne : (m : String) → str_eq circuit_breaker_key (op_lock_key m) ≡ false
breaker_key-ne m =
    subst (λ b. str_eq circuit_breaker_key b ≡ false)
      (sym (append_assoc "connector:sberjazz:o" "p_lock:" m))
      (begin_ne "connector:sberjazz:c" "connector:sberjazz:o" "ircuit_breaker" ("p_lock:" <> m) refl
        (λ p. cc ((eq_iff "connector:sberjazz:c" "connector:sberjazz:o").1 p)))

module _ (e : Env) (st : IsStore e.redis) where
  -- The lock of a meeting, as Redis holds it.
  abbrev pub lock_of : String → W e → Option Raw
  lock_of m w = st.view w.redis (op_lock_key m)

  -- The operation is refused with the provider's error, and the platform, the sessions and the
  -- breaker stay as they are, and so does the lock, which holds `v`.
  abbrev pub IsRefused : {A : Type 0} → String → Raw → Op (W e) A → W e → Type 0
  IsRefused m v op w =
      let (r, w') = op w in
      (r
        ≡ err (provider connector_provider_error "Операция коннектора уже выполняется для meeting"))
      × (w'.platform ≡ w.platform)
      × (w'.sessions ≡ w.sessions)
      × (w'.breaker ≡ w.breaker)
      × (lock_of m w' ≡ some v)

  body-IsRefused :
      {A : Type 0} (m token : String) (body : Op (W e) A) (w : W e) {v : Raw}
      → lock_of m w ≡ some v
      → IsRefused m v (with_meeting_lock e m token body) w
  unfolding with_meeting_lock acquire_op_lock
  body-IsRefused m token body w {v} held =
      let k = op_lock_key m in
      let n : ℕ = op_lock_ttl_sec e.settings in
      ground
        (arith, st.set_nx_lem k (plain token) n w.redis, st.view-set_nx k (plain token) n w.redis k)

  -- While the lock of a meeting is held, by whatever token, joining, leaving and reconnecting it
  -- are each refused: the platform is not called, and the sessions, the breaker and the lock stay
  -- as they are.
  pub operations_exclude :
      (m token : String) (w : W e) (v : Raw)
      → lock_of m w ≡ some v
      → IsRefused m v (join_sberjazz_meeting e token m) w
        × IsRefused m v (leave_sberjazz_meeting e token m) w
        × IsRefused m v (reconnect_sberjazz_meeting e token m) w
  unfolding join_sberjazz_meeting leave_sberjazz_meeting reconnect_sberjazz_meeting
  operations_exclude m token w v held = (
    body-IsRefused m token (join_impl e m false) w held,
    body-IsRefused m token (leave_impl e m) w held,
    body-IsRefused m token (reconnect_body e m) w held,
  )

  -- A body that leaves the lock's key alone runs with the lock held, and when it has returned or
  -- raised, the lock is free; its result is the result.
  lock_released :
      {A : Type 0} (m token : String) (body : Op (W e) A) (w : W e)
      → ((u : W e) → st.view (body u).1.redis (op_lock_key m) ≡ st.view u.redis (op_lock_key m))
      → lock_of m w ≡ none
      → (u : W e) × (lock_of m u ≡ some (plain token))
        × ((with_meeting_lock e m token body w).0 ≡ (body u).0)
        × (lock_of m (with_meeting_lock e m token body w).1 ≡ none)
  unfolding with_meeting_lock acquire_op_lock then_release release_op_lock
  lock_released m token body w keeps free =
      let k = op_lock_key m in
      let n : ℕ = op_lock_ttl_sec e.settings in
      let taken = e.redis.set_nx k (plain token) n w.redis in
      let u : W e = record w { redis = taken.1 } in
      let v = (body u).1 in
      let held : lock_of m u ≡ some (plain token) =
        ground (arith, st.view-set_nx k (plain token) n w.redis k, eq_refl k) in
      (
        u,
        held,
        ground (arith, st.set_nx_lem k (plain token) n w.redis),
        ground (
          arith,
          held,
          keeps u,
          st.set_nx_lem k (plain token) n w.redis,
          st.get_lem k v.redis,
          st.delete_ok k v.redis,
          st.view-delete k v.redis k,
          eq_refl k,
          eq_refl token,
        ),
      )

  -- Joining, leaving and reconnecting, whether they return or raise, leave the meeting's lock free
  -- if it was free before.
  pub operations_free_lock :
      (m token : String) (w : W e)
      → lock_of m w ≡ none
      → (lock_of m (join_sberjazz_meeting e token m w).1 ≡ none)
        × (lock_of m (leave_sberjazz_meeting e token m w).1 ≡ none)
        × (lock_of m (reconnect_sberjazz_meeting e token m w).1 ≡ none)
  unfolding join_sberjazz_meeting leave_sberjazz_meeting reconnect_sberjazz_meeting
  operations_free_lock m token w free =
      let s = session_key-ne m in
      let b = breaker_key-ne m in
      let k = op_lock_key m in
      (
        (lock_released m token _ w (join_impl-Keeps e st k s b m false) free).3,
        (lock_released m token _ w (leave_impl-Keeps e st k s b m) free).3,
        (lock_released m token _ w (reconnect_body-Keeps e st k s b m) free).3,
      )
