-- ===== src/Auth/Principal.antt =====
-- Who a request comes from (backend/src/auth/dependencies.py, api_keys.py, unified.py), and the login
-- (backend/src/api/routers/auth.py).
use watari.Alerts.Ingest.{is_text}
use watari.Base.{
  Bool, List, Option, String, false, if◌then◌else◌, keep_if, none, not, some, str_eq, true, ℕ, ◌&&◌,
  ◌||◌,
}
use watari.Exec.{
  Action, Error, Result, err, http, jwt_error, modify, now, ok, scalar_one_or_none, ◌>>=◌, ◌>>◌,
}
use watari.Auth.Rbac.{AuthContext}
use watari.Auth.Secrets.{Secrets, hash_api_key, verify_password}
use watari.Auth.Sessions.{RedisApi, is_session_active, touch_session}
use watari.Store.{User, user_key}
use watari.Table.{find_row}
use watari.Users.Service.{get_user, save_user}

pub record TokenPayload : Type 0 where
  pub sub : ℕ
  pub tenant_id : ℕ
  pub role : String
  pub session_id : String
  pub token_type : String
  pub iat : ℕ
  pub exp : ℕ
  pub jti : String

-- The decoding of a JWT, and `str` of a UUID.
pub record Tokens : Type 0 where
  pub decode_token : String → Result TokenPayload
  pub uuid_text : ℕ → String

abbrev pub context_of : User → Bool → AuthContext
context_of u is_service_account = record {
  user_id = u.id;
  tenant_id = u.tenant_id;
  role = u.role;
  is_service_account = is_service_account;
}

-- `User.api_key_hash == key_hash`, and the two flags.
unfoldable pub is_account_of : String → User → Bool
is_account_of key_hash u = is_text u.api_key_hash key_hash && (u.is_service_account && u.is_active)

-- `_load_service_account`; the hash that is compared again is the one that was looked up.
unfoldable pub load_service_account : Secrets → String → List User → Result AuthContext
unfolding is_account_of hash_api_key
load_service_account secrets key users =
    if str_eq key "" || not (secrets.starts_with key "wat_")
    then err (http 401)
    else elim (scalar_one_or_none (keep_if (is_account_of (hash_api_key secrets key)) users)) [
      | err e ↦ err e
      | ok none ↦ err (http 401)
      | ok (some u) ↦ ok (context_of u true)
    ]

-- `except JWTError`: other exceptions of the decoding go on.
abbrev pub credentials_error : Error → Error
credentials_error jwt_error = http 401
credentials_error e = e

module _ {R : Type 0} (redis : RedisApi R) (tokens : Tokens) where
  -- The user of a token, once both are known: the session is checked, and its time reset.
  unfoldable pub check_session : User → TokenPayload → ℕ → R → Result AuthContext × R
  unfolding is_session_active touch_session
  check_session u payload time r =
      let text = tokens.uuid_text u.id in
      if is_session_active redis text payload.session_id time r
      then (
        ok (context_of u u.is_service_account),
        (touch_session redis text payload.session_id u.inactivity_timeout_minutes time r).0,
      )
      else (err (http 401), r)

  -- `_load_user_from_token`
  unfoldable pub load_user_from_token : String → ℕ → List User → R → Result AuthContext × R
  unfolding check_session find_row
  load_user_from_token token time users r = elim (tokens.decode_token token) [
    | err e ↦ (err (credentials_error e), r)
    | ok payload ↦
        if not (str_eq payload.token_type "access")
        then (err (http 401), r)
        else elim (find_row user_key payload.sub users) [
          | none ↦ (err (http 401), r)
          | some u ↦ if u.is_active then check_session u payload time r else (err (http 401), r)
        ]
  ]

  -- `get_principal`: a token is tried if there is one, and else the key.
  unfoldable pub get_principal :
      Secrets → Option String → Option String → ℕ → List User → R → Result AuthContext × R
  unfolding load_user_from_token load_service_account
  get_principal secrets (some token) api_key time users r = load_user_from_token token time users r
  get_principal secrets none (some key) time users r = (load_service_account secrets key users, r)
  get_principal secrets none none time users r = (err (http 401), r)

-- `select(User).where(User.username == payload.username)`
unfoldable pub is_named : String → User → Bool
is_named username u = str_eq u.username username

-- The condition under which a login is let in.
unfoldable pub may_log_in : Secrets → String → User → Bool
unfolding verify_password
may_log_in secrets password u = elim u.password_hash [
  | none ↦ false
  | some h ↦ u.is_active && (not u.is_service_account && verify_password secrets password h)
]

abbrev pub admit : Secrets → String → Option User → Action User
admit secrets password none s = (err (http 401), s)
admit secrets password (some u) s =
    (if may_log_in secrets password u then ok u else err (http 401), s)

-- `login` up to the session: the user, whose `last_login_at` is set.
unfoldable pub login : Secrets → String → String → Action User
unfolding is_named may_log_in save_user get_user
login secrets username password = do
  found ← (λ s. (scalar_one_or_none (keep_if (is_named username) s.users), s))
  u ← admit secrets password found
  t ← now
  modify (save_user (record u { last_login_at = some t }))
  get_user u.id
