-- ===== src/Auth/Tokens.antt =====
-- The tokens of backend/src/auth/jwt.py, and the routes that give them out and end a session
-- (backend/src/api/routers/auth.py). Time is counted in seconds.
use watari.Base.{
  Option, String, if◌then◌else◌, leb, none, not, some, str_eq, ℕ, ◌*◌, ◌+◌, ◌==◌, ◌≡◌,
}
use watari.Auth.Principal.{TokenPayload, Tokens, login}
use watari.Auth.Secrets.{Secrets}
use watari.Auth.Sessions.{RedisApi, SessionRecord, create_session, invalidate_session}
use watari.Exec.{Result, err, http, jwt_error, ok, validation_error}
use watari.Store.{Role, Session, User}

-- The dict `subject`, of texts.
pub record Subject : Type 0 where
  pub sub : String
  pub tenant_id : String
  pub role : String
  pub session_id : String

-- The dict that is encoded.
pub record Claims : Type 0 where
  pub subject : Subject
  pub token_type : String
  pub iat : ℕ
  pub exp : ℕ
  pub jti : String

-- The code that is not Watari's: `jwt.encode` and, at a time, `jwt.decode` with the secret and the
-- algorithm of the settings, where `none` is a JWTError; `str` of a UUID, and the parsing of one. The
-- last is the setting `jwt_access_token_expire_minutes`.
pub record Jwt : Type 0 where
  pub encode : Claims → String
  pub decode : (token : String) (now : ℕ) → Option Claims
  pub uuid_text : ℕ → String
  pub parse_uuid : String → Option ℕ
  pub jwt_access_token_expire_minutes : ℕ

-- What is documented of them: a token of its own is decoded until it expires, and the text of a UUID
-- is parsed.
pub record IsJwt (jwt : Jwt) : Type 0 where
  pub decode-encode :
      (c : Claims) (now : ℕ)
      → jwt.decode (jwt.encode c) now ≡ (if leb now c.exp then some c else none)
  pub parse-text : (id : ℕ) → jwt.parse_uuid (jwt.uuid_text id) ≡ some id

abbrev pub role_text : Role → String
role_text Role.platform_admin = "platform_admin"
role_text Role.tenant_admin = "tenant_admin"
role_text Role.analyst = "analyst"
role_text Role.read_only = "read_only"
role_text Role.api_service_account = "api_service_account"

-- `_build_payload`
unfoldable pub build_payload :
    (subject : Subject) (token_type : String) (expires_delta now : ℕ) (jti : String) → Claims
build_payload subject token_type expires_delta now jti = record {
  subject = subject;
  token_type = token_type;
  iat = now;
  exp = now + expires_delta;
  jti = jti;
}

-- `TokenPayload.model_validate`
unfoldable pub validate_claims : Claims → (sub tenant_id : Option ℕ) → Result TokenPayload
validate_claims c none tenant_id = err validation_error
validate_claims c (some sub) none = err validation_error
validate_claims c (some sub) (some tenant_id) = ok (record {
  sub = sub;
  tenant_id = tenant_id;
  role = c.subject.role;
  session_id = c.subject.session_id;
  token_type = c.token_type;
  iat = c.iat;
  exp = c.exp;
  jti = c.jti;
})

-- What a login of a browser brings, and the texts that are drawn in it.
pub record Arrival : Type 0 where
  pub session_id : String
  pub created_at : String
  pub source_ip : Option String
  pub user_agent : Option String
  pub access_jti : String
  pub refresh_jti : String

-- The tokens of `LoginResponse`.
pub record LoginTokens : Type 0 where
  pub access_token : String
  pub refresh_token : String

module _ (jwt : Jwt) where
  -- `expires_delta or …`, where no time at all is false.
  abbrev pub or_minutes : Option ℕ → ℕ
  or_minutes none = jwt.jwt_access_token_expire_minutes * 60
  or_minutes (some d) = if d == 0 then jwt.jwt_access_token_expire_minutes * 60 else d

  unfoldable pub create_access_token :
      (subject : Subject) (expires_delta : Option ℕ) (now : ℕ) (jti : String) → String
  unfolding build_payload
  create_access_token subject expires_delta now jti =
      jwt.encode (build_payload subject "access" (or_minutes expires_delta) now jti)

  -- Seven days.
  unfoldable pub create_refresh_token : (subject : Subject) (now : ℕ) (jti : String) → String
  unfolding build_payload
  create_refresh_token subject now jti =
      jwt.encode (build_payload subject "refresh" (7 * 86400) now jti)

  unfoldable pub decode_token : String → ℕ → Result TokenPayload
  unfolding validate_claims
  decode_token token now = elim (jwt.decode token now) [
    | none ↦ err jwt_error
    | some c ↦ validate_claims c (jwt.parse_uuid c.subject.sub) (jwt.parse_uuid c.subject.tenant_id)
  ]

  -- The tokens as a request at the time decodes them.
  abbrev pub tokens_at : ℕ → Tokens
  tokens_at now = record {
    decode_token = λ token. decode_token token now;
    uuid_text = jwt.uuid_text;
  }

  abbrev pub subject_of_payload : TokenPayload → Subject
  subject_of_payload d = record {
    sub = jwt.uuid_text d.sub;
    tenant_id = jwt.uuid_text d.tenant_id;
    role = d.role;
    session_id = d.session_id;
  }

  -- The route `refresh_token`, which answers with an access token.
  unfoldable pub refresh_token : String → ℕ → String → Result String
  unfolding decode_token create_access_token
  refresh_token token now jti = elim (decode_token token now) [
    | err e ↦ err (http 401)
    | ok d ↦
        if not (str_eq d.token_type "refresh")
        then err (http 401)
        else ok (create_access_token (subject_of_payload d) none now jti)
  ]

  abbrev pub subject_of_user : User → String → Subject
  subject_of_user u session_id = record {
    sub = jwt.uuid_text u.id;
    tenant_id = jwt.uuid_text u.tenant_id;
    role = role_text u.role;
    session_id = session_id;
  }

  abbrev pub record_of : User → Arrival → SessionRecord
  record_of u a = record {
    user_id = jwt.uuid_text u.id;
    session_id = a.session_id;
    created_at = a.created_at;
    source_ip = a.source_ip;
    user_agent = a.user_agent;
  }

  abbrev pub login_tokens : User → Arrival → ℕ → LoginTokens
  login_tokens u a now = record {
    access_token = create_access_token (subject_of_user u a.session_id) none now a.access_jti;
    refresh_token = create_refresh_token (subject_of_user u a.session_id) now a.refresh_jti;
  }

  module _ {R : Type 0} (redis : RedisApi R) where
    -- `login` from the session on.
    abbrev pub open_session : Arrival → ℕ → Result User → R → Result LoginTokens × R
    open_session a now (err e) r = (err e, r)
    open_session a now (ok u) r = (
      ok (login_tokens u a now),
      create_session redis (record_of u a) u.inactivity_timeout_minutes now r,
    )

    -- The route `login`.
    unfoldable pub login_route :
        Secrets
        → (username password : String) → Arrival
        → ℕ
        → Session
        → R
        → Result LoginTokens × Session × R
    unfolding login create_session create_access_token create_refresh_token
    login_route secrets username password a now s r =
        let (found, s') = login secrets username password s in
        let (answer, r') = open_session a now found r in (answer, s', r')

    -- The route `logout`, of the user and the session of the caller.
    unfoldable pub logout : (user_id : ℕ) (session_id : String) → R → R
    unfolding invalidate_session
    logout user_id session_id r = invalidate_session redis (jwt.uuid_text user_id) session_id r
