-- ===== src/SberJazz/RedisLaws.antt =====
-- What the service relies on of a Redis that answers: a key holds what was last set, until it is
-- deleted. Expiry is left out: the laws speak of commands with no time between them.
use second_capture.Base.{
  ℕ, ◌≡◌, String, str_eq, not, ◌&&◌, false, Option, none, some, is_some, if◌then◌else◌,
}
use second_capture.Base.Errors.{ok}
use second_capture.Base.Text.{is_empty}
use second_capture.SberJazz.World.{Raw, Redis, Env}

pub record IsStore (R : Redis) : Type 0 where
  pub view : R.State → String → Option Raw
  pub get_lem : (k : String) (s : R.State) → R.get k s ≡ (ok (view s k), s)
  pub set_ok : (k : String) (v : Raw) (n : ℕ) (s : R.State) → (R.set k v n s).0 ≡ ok tt
  pub view-set :
      (k : String) (v : Raw) (n : ℕ) (s : R.State) (j : String)
      → view (R.set k v n s).1 j ≡ (if str_eq k j then some v else view s j)
  pub set_nx_lem :
      (k : String) (v : Raw) (n : ℕ) (s : R.State)
      → (R.set_nx k v n s).0 ≡ ok (not (is_some (view s k)))
  pub view-set_nx :
      (k : String) (v : Raw) (n : ℕ) (s : R.State) (j : String)
      → view (R.set_nx k v n s).1 j
        ≡ (if str_eq k j && not (is_some (view s k)) then some v else view s j)
  pub delete_ok : (k : String) (s : R.State) → (R.delete k s).0 ≡ ok tt
  pub view-delete :
      (k : String) (s : R.State) (j : String)
      → view (R.delete k s).1 j ≡ (if str_eq k j then none else view s j)
  pub sadd_ok : (k m : String) (s : R.State) → (R.sadd k m s).0 ≡ ok tt
  pub view-sadd : (k m : String) (s : R.State) (j : String) → view (R.sadd k m s).1 j ≡ view s j

-- `fromisoformat` reads what `isoformat` wrote, which is never empty and has the zone of UTC.
pub record IsIso (e : Env) : Type 0 where
  pub from_iso-iso : (t : ℕ) → e.from_iso (e.iso t) ≡ some t
  pub is_naive-iso : (t : ℕ) → e.is_naive (e.iso t) ≡ false
  pub iso_filled : (t : ℕ) → is_empty (e.iso t) ≡ false
