-- ===== src/Auth/Sessions.antt =====
-- Sessions in Redis (backend/src/auth/sessions.py). Time is counted in seconds.
use Prim.Native.String
use watari.Base.{
  Bool, List, Option, String, [], false, if◌then◌else◌, length, ltb, none, some, str_eq, ℕ, ◌&&◌,
  ◌*◌, ◌+◌, ◌∷◌, ◌≡◌, ◌≤◌,
}

-- The commands of Redis that are used, on a store of type `R`: `set … ex`, `exists`, `expire`, `delete`
-- and `scan_iter`. A command that depends on the time takes it.
pub record RedisApi (R : Type 0) : Type 0 where
  pub set_ex : (key value : String) (ttl now : ℕ) → R → R
  pub exists : (key : String) (now : ℕ) → R → Bool
  pub expire : (key : String) (ttl now : ℕ) → R → R × Bool
  pub delete : (key : String) → R → R
  pub scan_iter : (pattern : String) (now : ℕ) → R → List String

-- What Redis documents of them: a key lives for its time, `expire` gives a live key a new one and says
-- whether the key was live, and a deleted key is gone. The other keys are as they were.
pub record IsRedis {R : Type 0} (redis : RedisApi R) : Type 0 where
  pub exists-set_ex :
      (j k v : String) (ttl now t : ℕ) (r : R)
      → now ≤ t
      → redis.exists j t (redis.set_ex k v ttl now r)
        ≡ (if str_eq k j then ltb t (now + ttl) else redis.exists j t r)
  pub exists-expire :
      (j k : String) (ttl now t : ℕ) (r : R)
      → now ≤ t
      → redis.exists j t (redis.expire k ttl now r).0
        ≡ (if str_eq k j && redis.exists k now r then ltb t (now + ttl) else redis.exists j t r)
  pub expire_live :
      (k : String) (ttl now : ℕ) (r : R) → (redis.expire k ttl now r).1 ≡ redis.exists k now r
  pub exists-delete :
      (j k : String) (t : ℕ) (r : R)
      → redis.exists j t (redis.delete k r) ≡ (if str_eq k j then false else redis.exists j t r)

-- `SessionRecord`, and its `_serialize`; a date is given by its text.
pub record SessionRecord : Type 0 where
  pub user_id : String
  pub session_id : String
  pub created_at : String
  pub source_ip : Option String
  pub user_agent : Option String

abbrev pub or_empty : Option String → String
or_empty none = ""
or_empty (some v) = v

abbrev pub bar : String → String → String
bar a b = String.◌++◌ a (String.◌++◌ "|" b)

unfoldable pub serialize : SessionRecord → String
serialize x =
    bar x.user_id
      (bar x.session_id (bar x.created_at (bar (or_empty x.source_ip) (or_empty x.user_agent))))

-- `_key`
unfoldable pub session_key : String → String → String
session_key user_id session_id =
    String.◌++◌ "session:" (String.◌++◌ user_id (String.◌++◌ ":" session_id))

module _ {R : Type 0} (redis : RedisApi R) where
  unfoldable pub create_session : SessionRecord → ℕ → ℕ → R → R
  unfolding serialize session_key
  create_session x inactivity_timeout_minutes now =
      redis.set_ex (session_key x.user_id x.session_id) (serialize x)
        (inactivity_timeout_minutes * 60) now

  unfoldable pub is_session_active : String → String → ℕ → R → Bool
  unfolding session_key
  is_session_active user_id session_id now = redis.exists (session_key user_id session_id) now

  unfoldable pub touch_session : String → String → ℕ → ℕ → R → R × Bool
  unfolding session_key
  touch_session user_id session_id inactivity_timeout_minutes now =
      redis.expire (session_key user_id session_id) (inactivity_timeout_minutes * 60) now

  unfoldable pub invalidate_session : String → String → R → R
  unfolding session_key
  invalidate_session user_id session_id = redis.delete (session_key user_id session_id)

  unfoldable pub delete_all : List String → R → R
  delete_all [] r = r
  delete_all (k ∷ ks) r = delete_all ks (redis.delete k r)

  -- The store without the keys found, and their number.
  unfoldable pub invalidate_all_sessions : String → ℕ → R → R × ℕ
  unfolding session_key delete_all
  invalidate_all_sessions user_id now r =
      let keys = redis.scan_iter (session_key user_id "*") now r in (delete_all keys r, length keys)

  -- A session that is touched at the given times.
  unfoldable pub touch_all : String → String → ℕ → List ℕ → R → R
  unfolding touch_session
  touch_all user_id session_id minutes [] r = r
  touch_all user_id session_id minutes (t ∷ ts) r =
      touch_all user_id session_id minutes ts (touch_session user_id session_id minutes t r).0
