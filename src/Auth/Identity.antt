-- ===== src/Auth/Identity.antt =====
-- What an authenticated request and a login tell of the user (backend/src/auth, routers/auth.py).
use watari.Auth.Principal.{
  TokenPayload, Tokens, check_session, context_of, get_principal, is_account_of, is_named,
  load_service_account, load_user_from_token, login, may_log_in,
}
use watari.Base.{
  Bool, Bool-cases, List, Option, Option-cases, String, [], ap, arith, empty_cases, false, str_eq,
  ◌↔◌, if◌then◌else◌, inl, inr, keep_if, none, refl, some, str_eq_iff, subst, sym, true, ℕ, ◌==◌,
  ◌∈◌, ◌∙◌, ◌∷◌, ◌≡◌, ◌⊎◌,
}
use watari.Table.{find_row, key-find, save_row}
use watari.Users.Service.{get_user, save_user}
use watari.Auth.Rbac.{AuthContext}
use watari.Auth.Secrets.{Secrets, hash_api_key, verify_password}
use watari.Auth.Sessions.{RedisApi, is_session_active}
use watari.Exec.{Result-cases, Result, err, http, multiple_results, ok}
use watari.Store.{Session, User, user_key}

find-∈ : (k : ℕ) (users : List User) {u : User} → find_row user_key k users ≡ some u → u ∈ users
unfolding find_row
find-∈ k [] h = cc
find-∈ k (x ∷ xs) h = elim (Bool-cases (x.id == k)) [
  | inl e ↦ inl (ground arith)
  | inr e ↦ inr (find-∈ k xs (ground arith))
]

keep_if-∈ :
    (q : User → Bool) (users : List User) (u : User) (rest : List User)
    → keep_if q users ≡ u ∷ rest
    → (u ∈ users) × (q u ≡ true)
keep_if-∈ q [] u rest h = cc
keep_if-∈ q (x ∷ xs) u rest h = elim (Bool-cases (q x)) [
  | inl e ↦ let same : x ≡ u = ground arith in (inl same, subst (λ y. q y ≡ true) same e)
  | inr e ↦ let (i, k) = keep_if-∈ q xs u rest (ground arith) in (inr i, k)
]

account_lem :
    (k : String) (u : User)
    → is_account_of k u ≡ true
    → (u.api_key_hash ≡ some k) × (u.is_service_account ≡ true) × (u.is_active ≡ true)
unfolding is_account_of
account_lem k u q = elim (Option-cases u.api_key_hash) [
  | inl e ↦ absurd (ground arith)
  | inr (h, e) ↦ (e ∙ ap some ((str_eq_iff h k).0 (ground arith)), ground arith, ground arith)
]

-- A row that is written over that of a user in the table is found.
find-save_mem :
    (r u : User) (users : List User)
    → u ∈ users
    → u.id ≡ r.id
    → find_row user_key r.id (save_row user_key r users) ≡ some r
unfolding find_row save_row
find-save_mem r u [] i e = absurd i
find-save_mem r u (x ∷ xs) (inl same) e = ground arith
find-save_mem r u (x ∷ xs) (inr i) e = ground (arith, find-save_mem r u xs i e)

module _ {R : Type 0} (redis : RedisApi R) (tokens : Tokens) (secrets : Secrets) where
  -- The token that was sent is one of the user, and its session is live.
  abbrev pub HasToken : Option String → ℕ → R → User → Type 0
  HasToken sent time r u =
      (token : String) × (payload : TokenPayload) × (sent ≡ some token)
      × (tokens.decode_token token ≡ ok payload)
      × (payload.token_type ≡ "access")
      × (payload.sub ≡ u.id)
      × (is_session_active redis (tokens.uuid_text u.id) payload.session_id time r ≡ true)

  -- No token was sent, and the key is one of the service account.
  abbrev pub HasKey : Option String → Option String → User → Type 0
  HasKey sent api_key u =
      (key : String) × (sent ≡ none)
      × (api_key ≡ some key)
      × (u.is_service_account ≡ true)
      × (u.api_key_hash ≡ some (hash_api_key secrets key))

  -- What is known of the user as whom a request goes on.
  abbrev pub IsIdentified : Option String → Option String → ℕ → List User → R → AuthContext → Type 0
  IsIdentified sent api_key time users r auth =
      (u : User) × (u ∈ users)
      × (u.is_active ≡ true)
      × (auth ≡ context_of u u.is_service_account)
      × (HasToken sent time r u ⊎ HasKey sent api_key u)

  token-IsIdentified :
      (token : String) (api_key : Option String) (time : ℕ) (users : List User) (r : R)
      (auth : AuthContext)
      → (load_user_from_token redis tokens token time users r).0 ≡ ok auth
      → IsIdentified (some token) api_key time users r auth
  unfolding load_user_from_token check_session
  token-IsIdentified token api_key time users r auth h =
      elim (Result-cases (tokens.decode_token token)) [
        | inr (e', e) ↦ absurd (ground arith)
        | inl (payload, e) ↦ elim (Option-cases (find_row user_key payload.sub users)) [
          | inl k ↦ absurd (ground arith)
          | inr (u, k) ↦ (
            u,
            find-∈ payload.sub users k,
            ground arith,
            ground arith,
            inl (
              token,
              payload,
              refl,
              e,
              (str_eq_iff payload.token_type "access").0 (ground arith),
              sym (key-find user_key payload.sub users k),
              ground arith,
            ),
          )
        ]
      ]

  key-IsIdentified :
      (key : String) (time : ℕ) (users : List User) (r : R) (auth : AuthContext)
      → load_service_account secrets key users ≡ ok auth
      → IsIdentified none (some key) time users r auth
  unfolding load_service_account
  key-IsIdentified key time users r auth h =
      elim (empty_cases (keep_if (is_account_of (hash_api_key secrets key)) users)) [
        | inl e ↦ absurd (ground arith)
        | inr (u, b ∷ ys, e) ↦ absurd (ground arith)
        | inr (u, [], e) ↦
            let (i, q) = keep_if-∈ (is_account_of (hash_api_key secrets key)) users u [] e in
            let (hash, service, active) = account_lem (hash_api_key secrets key) u q in
            (u, i, active, ground arith, inr (key, refl, refl, service, hash))
      ]

  -- Whoever a request goes on as is an active user of the table: the user that an access token
  -- names, with a live session, or, if no token was sent, the service account that has the hash of
  -- the key.
  pub get_principal_lem :
      (sent api_key : Option String) (time : ℕ) (users : List User) (r : R) (auth : AuthContext)
      → (get_principal redis tokens secrets sent api_key time users r).0 ≡ ok auth
      → IsIdentified sent api_key time users r auth
  unfolding get_principal
  get_principal_lem (some token) api_key time users r auth h =
      token-IsIdentified token api_key time users r auth h
  get_principal_lem none (some key) time users r auth h = key-IsIdentified key time users r auth h
  get_principal_lem none none time users r auth h = cc

-- What a login gives, by the users of any tenant that have the name.
abbrev pub login_by : Secrets → String → ℕ → List User → Result User
login_by secrets password t [] = err (http 401)
login_by secrets password t (u ∷ []) =
    if may_log_in secrets password u
    then ok (record u { last_login_at = some t })
    else err (http 401)
login_by secrets password t (u ∷ v ∷ us) = err multiple_results

-- The result of a login by the users that have the name.
login_result :
    (secrets : Secrets) (username password : String) (s : Session)
    → (login secrets username password s).0
      ≡ login_by secrets password
          (s.world.clock s.clock_calls)
          (keep_if (is_named username) s.users)
unfolding login get_user save_user
login_result secrets username password s =
    elim (empty_cases (keep_if (is_named username) s.users)) [
      | inl e ↦ ground arith
      | inr (u, b ∷ ys, e) ↦ ground arith
      | inr (u, [], e) ↦ elim (Bool-cases (may_log_in secrets password u)) [
        | inr no_entry ↦ ground arith
        | inl entry ↦
            let (i, _) = keep_if-∈ (is_named username) s.users u [] e in
            let row = record u { last_login_at = some (s.world.clock s.clock_calls) } in
            ground (arith, find-save_mem row u s.users i refl)
      ]
    ]

-- The account is an active user's, who is no service account, and the password is its password.
abbrev pub IsAdmitted : Secrets → String → User → Type 0
IsAdmitted secrets password u =
    (u.is_active ≡ true)
    × (u.is_service_account ≡ false)
    × (h : String) × (u.password_hash ≡ some h)
    × (verify_password secrets password h ≡ true)

may_log_in_iff :
    (secrets : Secrets) (password : String) (u : User)
    → ((may_log_in secrets password u ≡ true) × IsAdmitted secrets password u)
      ⊎ ((may_log_in secrets password u ≡ false) × ¬ IsAdmitted secrets password u)
unfolding may_log_in
may_log_in_iff secrets password u = elim (Option-cases u.password_hash) [
  | inl e ↦ inr (ground (arith, e), λ (active, person, h, e', q). cc (e, e'))
  | inr (h, e) ↦ elim (Bool-cases (may_log_in secrets password u)) [
    | inl entry ↦ inl (
      entry,
      (ground (arith, e, entry), ground (arith, e, entry), h, e, ground (arith, e, entry)),
    )
    | inr no_entry ↦ inr (
      no_entry,
      λ (active, person, h', e', q). ground (arith, e, e', active, person, q, no_entry),
    )
  ]
]

-- A login returns a user exactly if one user and no other, of whatever tenant, has the name, is
-- active, is no service account and has the password; and then it returns that user with the time
-- of the login.
pub login_iff :
    (secrets : Secrets) (username password : String) (s : Session) (v : User)
    → ((login secrets username password s).0 ≡ ok v) ↔ (
        (u : User) × (keep_if (λ (x : User). str_eq x.username username) s.users ≡ u ∷ [])
        × IsAdmitted secrets password u
        × (v ≡ record u { last_login_at = some (s.world.clock s.clock_calls) }))
unfolding is_named
login_iff secrets username password s v =
    let found = keep_if (is_named username) s.users in
    let r = login_result secrets username password s in
    (
      λ h. elim (empty_cases found) [
        | inl e ↦ absurd (ground (arith, r, e, h))
        | inr (u, b ∷ ys, e) ↦ absurd (ground (arith, r, e, h))
        | inr (u, [], e) ↦ elim (may_log_in_iff secrets password u) [
          | inl (entry, admitted) ↦ (u, e, admitted, ground (arith, r, e, h, entry))
          | inr (no_entry, _) ↦ absurd (ground (arith, r, e, h, no_entry))
        ]
      ],
      λ (u, e, admitted, q). elim (may_log_in_iff secrets password u) [
        | inl (entry, _) ↦ ground (arith, r, e, entry, q)
        | inr (_, refused) ↦ absurd (refused admitted)
      ],
    )
