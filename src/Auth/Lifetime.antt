-- ===== src/Auth/Lifetime.antt =====
-- How long a session lives (backend/src/auth/sessions.py).
use watari.Auth.Sessions.{
  IsRedis, RedisApi, SessionRecord, create_session, invalidate_session, is_session_active,
  serialize, session_key, touch_all, touch_session,
}
use watari.Base.{
  Bool, Bool-cases, List, String, [], ap, arith, false, inl, inr, ltb, refl, str_eq, str_eq_iff,
  subst, sym, true, ℕ, ◌&&◌, ◌*◌, ◌+◌, ◌∙◌, ◌∷◌, ◌≡◌, ◌≤◌,
}

-- From `last` on, a session with requests at the given times is live at `t` if no pause is as long as
-- the time to live.
abbrev pub stays : (ttl last : ℕ) → List ℕ → ℕ → Bool
stays ttl last [] t = ltb t (last + ttl)
stays ttl last (x ∷ xs) t = ltb x (last + ttl) && stays ttl x xs t

-- The times are in order, from `last` to `t`.
abbrev pub InOrder : ℕ → List ℕ → ℕ → Type 0
InOrder last [] t = last ≤ t
InOrder last (x ∷ xs) t = (last ≤ x) × InOrder x xs t

InOrder-le : (last : ℕ) (xs : List ℕ) (t : ℕ) → InOrder last xs t → last ≤ t
InOrder-le last [] t h = h
InOrder-le last (x ∷ xs) t (p, h) = omega (arith, InOrder-le x xs t h)

module _ {R : Type 0} (redis : RedisApi R) (laws : IsRedis redis) (u sid : String)
    (minutes : ℕ) where
  abbrev key : String
  key = session_key u sid

  abbrev ttl : ℕ
  ttl = minutes * 60

  key_self : str_eq key key ≡ true
  key_self = (str_eq_iff key key).1 refl

  -- The key is live until `last + ttl`.
  abbrev LivesFrom : ℕ → R → Type 0
  LivesFrom last r = (t : ℕ) → last ≤ t → redis.exists key t r ≡ ltb t (last + ttl)

  -- What a touch at `x` makes of a live key, and of one that has expired.
  touched :
      (last x : ℕ) (r : R)
      → last ≤ x
      → LivesFrom last r
      → ltb x (last + ttl) ≡ true
      → LivesFrom x (touch_session redis u sid minutes x r).0
  unfolding touch_session
  touched last x r le lives live t h =
      let now_live : redis.exists key x r ≡ true = lives x le ∙ live in
      ground (arith, laws.exists-expire key key ttl x t r h, now_live, key_self)

  -- No touch wakes a key that has expired.
  expired :
      (xs : List ℕ) (from t : ℕ) (r : R)
      → InOrder from xs t
      → ((y : ℕ) → from ≤ y → redis.exists key y r ≡ false)
      → redis.exists key t (touch_all redis u sid minutes xs r) ≡ false
  unfolding touch_all touch_session
  expired [] from t r order gone = gone t order
  expired (x ∷ xs) from t r (le, order) gone =
      expired xs x t (redis.expire key ttl x r).0 order λ y later.
        let now_gone : redis.exists key x r ≡ false = gone x le in
        let then_gone : redis.exists key y r ≡ false = gone y (omega (arith, le, later)) in
        ground (arith, laws.exists-expire key key ttl x y r later, now_gone, then_gone)

  touch_all-stays :
      (xs : List ℕ) (last t : ℕ) (r : R)
      → InOrder last xs t
      → LivesFrom last r
      → redis.exists key t (touch_all redis u sid minutes xs r) ≡ stays ttl last xs t
  unfolding touch_all
  touch_all-stays [] last t r order lives = lives t order
  touch_all-stays (x ∷ xs) last t r (le, order) lives = elim (Bool-cases (ltb x (last + ttl))) [
    | inl live ↦ rw live (touch_all-stays xs x t _ order (touched last x r le lives live))
    | inr gone ↦ rw gone (
        expired (x ∷ xs) x t r ((omega arith), order)
          (λ y later. lives y (omega (arith, le, later)) ∙ past x y gone later))
  ]
    where
      past : (x' y : ℕ) → ltb x' (last + ttl) ≡ false → x' ≤ y → ltb y (last + ttl) ≡ false
      past x' y h k = ground arith

  -- What `create_session` leaves.
  created-LivesFrom :
      (x : SessionRecord) (now : ℕ) (r : R)
      → x.user_id ≡ u
      → x.session_id ≡ sid
      → LivesFrom now (create_session redis x minutes now r)
  unfolding create_session
  created-LivesFrom x now r e f t h =
      let same : session_key x.user_id x.session_id ≡ key =
        ap (λ a. session_key a x.session_id) e ∙ ap (session_key u) f in
      subst (λ k. redis.exists key t (redis.set_ex k (serialize x) ttl now r) ≡ ltb t (now + ttl))
        (sym same)
        (ground (arith, laws.exists-set_ex key key (serialize x) ttl now t r h, key_self))

  -- If Redis is as documented, a session that is created and then touched at times in order is
  -- live at a later time exactly if no pause so far was as long as its time to live, and it is not
  -- live once it has been invalidated.
  pub session_lifetime :
      (x : SessionRecord) (now t : ℕ) (ts : List ℕ) (r : R)
      → x.user_id ≡ u
      → x.session_id ≡ sid
      → InOrder now ts t
      → let r' = touch_all redis u sid minutes ts (create_session redis x minutes now r) in
        (is_session_active redis u sid t r' ≡ stays ttl now ts t)
        × (is_session_active redis u sid t (invalidate_session redis u sid r') ≡ false)
  unfolding is_session_active invalidate_session
  session_lifetime x now t ts r e f order =
      let r' = touch_all redis u sid minutes ts (create_session redis x minutes now r) in
      (
        touch_all-stays ts now t (create_session redis x minutes now r) order
            (created-LivesFrom x now r e f),
        ground (arith, laws.exists-delete key key t r', key_self),
      )
