-- ===== src/Auth/Logout.antt =====
-- The tokens of a login (backend/src/auth/jwt.py, api/routers/auth.py) in the requests that follow.
use watari.Base.{
  List, String, arith, false, if◌then◌else◌, leb, ltb, none, refl, some, str_eq, str_eq_iff, true,
  ℕ, ◌*◌, ◌+◌, ◌&&◌, ◌≡◌, ◌≤◌,
}
use watari.Auth.Principal.{TokenPayload, check_session, context_of, load_user_from_token}
use watari.Auth.Sessions.{
  IsRedis, RedisApi, create_session, invalidate_session, is_session_active, serialize, session_key,
}
use watari.Auth.Tokens.{
  Arrival, Claims, IsJwt, Jwt, Subject, build_payload, create_access_token, create_refresh_token,
  decode_token, login_tokens, logout, record_of, refresh_token, role_text, subject_of_user,
  tokens_at, validate_claims,
}
use watari.Exec.{err, http, jwt_error, ok}
use watari.Store.{User, user_key}
use watari.Table.{find_row}

module _ (jwt : Jwt) (jwt_laws : IsJwt jwt) (u : User) (a : Arrival) where
  abbrev subject : Subject
  subject = subject_of_user jwt u a.session_id

  -- What the claims of the user are decoded to.
  abbrev payload_of : Claims → TokenPayload
  payload_of c = record {
    sub = u.id;
    tenant_id = u.tenant_id;
    role = role_text u.role;
    session_id = a.session_id;
    token_type = c.token_type;
    iat = c.iat;
    exp = c.exp;
    jti = c.jti;
  }

  decode-build_payload :
      (kind : String) (life now t : ℕ) (jti : String)
      → decode_token jwt (jwt.encode (build_payload subject kind life now jti)) t ≡ (
          if leb t (now + life)
          then ok (payload_of (build_payload subject kind life now jti))
          else err jwt_error)
  unfolding decode_token build_payload validate_claims
  decode-build_payload kind life now t jti = ground (
    arith,
    jwt_laws.decode-encode (build_payload subject kind life now jti) t,
    jwt_laws.parse-text u.id,
    jwt_laws.parse-text u.tenant_id,
  )

  abbrev access_life : ℕ
  access_life = jwt.jwt_access_token_expire_minutes * 60

  module _ {R : Type 0} (redis : RedisApi R) (users : List User)
      (here : find_row user_key u.id users ≡ some u) (active : u.is_active ≡ true) where
    -- An access token of the session, on any store.
    access_part :
        (now t : ℕ) (jti : String) (r : R)
        → (load_user_from_token redis
            (tokens_at jwt t)
            (create_access_token jwt subject none now jti)
            t
            users
            r).0
          ≡ (if leb t (now + access_life)
                && is_session_active redis (jwt.uuid_text u.id) a.session_id t r
              then ok (context_of u u.is_service_account)
              else err (http 401))
    unfolding load_user_from_token check_session create_access_token build_payload
    access_part now t jti r =
        ground (arith, here, active, decode-build_payload "access" access_life now t jti)

    -- A refresh token is no access token.
    refresh_part :
        (now t : ℕ) (jti : String) (r : R)
        → (load_user_from_token redis
            (tokens_at jwt t)
            (create_refresh_token jwt subject now jti)
            t
            users
            r).0
          ≡ err (http 401)
    unfolding load_user_from_token create_refresh_token build_payload
    refresh_part now t jti r = ground (arith, decode-build_payload "refresh" (7 * 86400) now t jti)

    refreshed_part :
        (now t : ℕ) (jti new_jti : String)
        → refresh_token jwt (create_refresh_token jwt subject now jti) t new_jti ≡ (
            if leb t (now + 7 * 86400)
            then ok (create_access_token jwt subject none t new_jti)
            else err (http 401))
    unfolding refresh_token create_refresh_token build_payload
    refreshed_part now t jti new_jti =
        ground (arith, decode-build_payload "refresh" (7 * 86400) now t jti)

    module _ (laws : IsRedis redis) where
      abbrev key : String
      key = session_key (jwt.uuid_text u.id) a.session_id

      key_self : str_eq key key ≡ true
      key_self = (str_eq_iff key key).1 refl

      opened :
          (now t : ℕ) (r : R)
          → now ≤ t
          → is_session_active redis
              (jwt.uuid_text u.id)
              a.session_id
              t
              (create_session redis (record_of jwt u a) u.inactivity_timeout_minutes now r)
            ≡ ltb t (now + u.inactivity_timeout_minutes * 60)
      unfolding is_session_active create_session
      opened now t r h = ground (
        arith,
        laws.exists-set_ex key key (serialize (record_of jwt u a))
            (u.inactivity_timeout_minutes * 60) now t r h,
        key_self,
      )

      ended :
          (t : ℕ) (r : R)
          → is_session_active redis
              (jwt.uuid_text u.id)
              a.session_id
              t
              (logout jwt redis u.id a.session_id r)
            ≡ false
      unfolding is_session_active logout invalidate_session
      ended t r = ground (arith, laws.exists-delete key key t r, key_self)

      -- Once the session is gone, no access token of it is let in.
      after_logout :
          (now t : ℕ) (jti : String) (r : R)
          → (load_user_from_token redis
              (tokens_at jwt t)
              (create_access_token jwt subject none now jti)
              t
              users
              (logout jwt redis u.id a.session_id r)).0
            ≡ err (http 401)
      after_logout now t jti r =
          ground (arith, access_part now t jti (logout jwt redis u.id a.session_id r), ended t r)

      -- If the tokens and Redis are as documented and an active user of the table has logged in,
      -- then, while nothing else happens to the session, the access token of the login stands for
      -- the user until it or the session expires, and is a 401 from then on. The refresh token is
      -- a 401 in place of an access token, and is exchanged, until it expires, for an access token
      -- of the same session. After a logout, on whatever store it finds, the access token of the
      -- login and the exchanged one are a 401 at all times.
      pub login-logout :
          (start t later : ℕ) (jti : String) (r stored : R)
          → start ≤ t
          → let tokens = login_tokens jwt u a start in
            let r' =
              create_session redis (record_of jwt u a) u.inactivity_timeout_minutes start r in
            let after = logout jwt redis u.id a.session_id stored in
            let new = create_access_token jwt subject none t jti in
            ((load_user_from_token redis (tokens_at jwt t) tokens.access_token t users r').0 ≡ (
              if leb t (start + access_life) && ltb t (start + u.inactivity_timeout_minutes * 60)
              then ok (context_of u u.is_service_account)
              else err (http 401)))
            × ((load_user_from_token redis (tokens_at jwt t) tokens.refresh_token t users r').0
                ≡ err (http 401))
            × (refresh_token jwt tokens.refresh_token t jti
                ≡ (if leb t (start + 7 * 86400) then ok new else err (http 401)))
            × ((load_user_from_token redis
                  (tokens_at jwt later)
                  tokens.access_token
                  later
                  users
                  after).0
                ≡ err (http 401))
            × ((load_user_from_token redis (tokens_at jwt later) new later users after).0
                ≡ err (http 401))
      login-logout start t later jti r stored h =
          let r' = create_session redis (record_of jwt u a) u.inactivity_timeout_minutes start r in
          (
            ground (arith, access_part start t a.access_jti r', opened start t r h),
            refresh_part start t a.refresh_jti r',
            refreshed_part start t a.refresh_jti jti,
            after_logout start later a.access_jti stored,
            after_logout t later jti stored,
          )
