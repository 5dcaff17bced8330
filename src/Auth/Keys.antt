-- ===== src/Auth/Keys.antt =====
-- The key of a new service account (backend/src/services/users.py, src/auth/api_keys.py).
use watari.Alerts.Ingest.{is_text}
use watari.Base.{
  Bool-cases, List, String, [], arith, false, inl, inr, keep_if, keep_if-append, refl, some, str_eq,
  str_eq_iff, subst, true, ℕ, ◌+◌, ◌∷◌, ◌≡◌,
}
use watari.Table.{KeysBelow, KeysBelow-weaken, add_row, find-add_new, find_row}
use watari.Users.Service.{
  ServiceAccountCreate, add_user, check_username, create_service_account, get_tenant_or_404,
  get_user, has_username, is_account_role, new_account,
}
use watari.Auth.Principal.{context_of, is_account_of, load_service_account}
use watari.Auth.Secrets.{IsSecrets, Secrets, generate_api_key, hash_api_key}
use watari.Exec.{ok}
use watari.Store.{Role, Session, Tenant, User, tenant_key, user_key}

module _ (secrets : Secrets) (laws : IsSecrets secrets) where
  generated_key-starts :
      (n : ℕ)
      → (str_eq (generate_api_key secrets n) "" ≡ false)
        × (secrets.starts_with (generate_api_key secrets n) "wat_" ≡ true)
  unfolding generate_api_key
  generated_key-starts n =
      let key = generate_api_key secrets n in
      let begins : secrets.starts_with key "wat_" ≡ true = laws.starts (secrets.token_urlsafe n) in
      elim (Bool-cases (str_eq key "")) [
        | inr e ↦ (e, begins)
        | inl e ↦
            let same : key ≡ "" = (str_eq_iff key "").0 e in
            let not_so : secrets.starts_with "" "wat_" ≡ true =
              subst (λ x. secrets.starts_with x "wat_" ≡ true) same begins in
            absurd (ground (arith, laws.starts_not))
      ]

  -- A key whose hash no row has but the one that is added is found.
  find_account :
      (key : String) (u : User) (users : List User)
      → (str_eq key "" ≡ false) × (secrets.starts_with key "wat_" ≡ true)
      → keep_if (is_account_of (hash_api_key secrets key)) users ≡ []
      → is_account_of (hash_api_key secrets key) u ≡ true
      → load_service_account secrets key (add_row user_key u users) ≡ ok (context_of u true)
  unfolding load_service_account add_row
  find_account key u users (full, begins) others it =
      let q = is_account_of (hash_api_key secrets key) in
      let split = keep_if-append q users (u ∷ []) in ground arith

  self_hash : (h : String) → is_text (some h) h ≡ true
  self_hash h = (str_eq_iff h h).1 refl

  -- If the tenant exists, the role is analyst or read-only, the name is free, the ids of users are
  -- below the next id, and no account has the hash of the key already, `create_service_account`
  -- returns a user and a key with which that user is authenticated afterwards; its role is that of
  -- a service account, whichever was asked for.
  pub load_service_account-create_service_account :
      (t : ℕ) (p : ServiceAccountCreate) (s : Session) {tenant : Tenant}
      → find_row tenant_key t s.tenants ≡ some tenant
      → is_account_role p.role ≡ true
      → keep_if (has_username t p.username) s.users ≡ []
      → KeysBelow user_key s.next_id s.users
      → let hash = hash_api_key secrets (generate_api_key secrets s.next_id) in
        keep_if (is_account_of hash) s.users ≡ []
        → let (r, s') = create_service_account secrets t p s in
          (u : User) × (key : String) × (r ≡ ok (u, key))
          × (load_service_account secrets key s'.users ≡ ok (context_of u true))
          × (u.tenant_id ≡ t)
          × (u.role ≡ Role.api_service_account)
  unfolding create_service_account get_tenant_or_404 get_user add_user check_username is_account_of
  load_service_account-create_service_account t p s {tenant} exists role free below new =
      let key = generate_api_key secrets s.next_id in
      let hash = hash_api_key secrets key in
      let u = new_account (s.next_id + 1) t p hash in
      let found =
        find-add_new user_key (s.next_id + 1) u s.users
          (KeysBelow-weaken user_key s.next_id s.users below) refl in
      let of_it : is_account_of hash u ≡ true = ground (arith, self_hash hash) in
      let stored : (create_service_account secrets t p s).1.users ≡ add_row user_key u s.users =
        ground arith in
      let loaded = find_account key u s.users (generated_key-starts s.next_id) new of_it in
      (u, key, ground arith, rw (stored, loaded), refl, refl)
