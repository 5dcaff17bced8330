-- ===== src/Users/Names.antt =====
-- Usernames: `create_user` and `create_service_account` (backend/src/services/users.py).
use watari.Auth.Secrets.{Secrets, generate_api_key, hash_api_key}
use watari.Base.{
  Bool-cases, List, Option-cases, String, [], ap, arith, empty_cases, inl, inr, keep_if,
  keep_if-append, length, length-append, str_eq_iff, subst, sym, ℕ, ◌++◌, ◌+◌, ◌∙◌, ◌∷◌, ◌≡◌, ◌≤◌,
  ◌⊎◌,
}
use watari.Users.Service.{
  ServiceAccountCreate, UserCreate, add_user, check_username, create_service_account, create_user,
  get_tenant_or_404, get_user, has_username, is_account_role, is_service_role, new_account,
  new_user, optional_hash,
}
use watari.Exec.{Error, err, http, multiple_results, ok}
use watari.Store.{Session, User, tenant_key, user_key}
use watari.Table.{add_row, find_row}

-- No two users of a tenant have the same name (the constraint `uq_users_tenant_username`).
abbrev pub HasUniqueNames : List User → Type 0
HasUniqueNames users =
    (tenant_id : ℕ) (username : String)
    → length (keep_if (has_username tenant_id username) users) ≤ 1

-- A user whose name is not taken may be added.
add-HasUniqueNames :
    (u : User) (users : List User)
    → keep_if (has_username u.tenant_id u.username) users ≡ []
    → HasUniqueNames users
    → HasUniqueNames (add_row user_key u users)
unfolding add_row has_username
add-HasUniqueNames u users free names t n =
    let q = has_username t n in
    let size : length (keep_if q (users ++ u ∷ []))
        ≡ length (keep_if q users) + length (keep_if q (u ∷ [])) =
      ap length (keep_if-append q users (u ∷ []))
      ∙ length-append (keep_if q users) (keep_if q (u ∷ [])) in
    rw size (elim (Bool-cases (q u)) [
      | inr differs ↦ rw differs (omega (arith, names t n))
      | inl same ↦
          let same_tenant : u.tenant_id ≡ t = ground arith in
          let same_name : u.username ≡ n = (str_eq_iff u.username n).0 (ground arith) in
          let gone : keep_if q users ≡ [] =
            subst (λ x. keep_if (has_username x n) users ≡ []) same_tenant
              (subst (λ x. keep_if (has_username u.tenant_id x) users ≡ []) same_name free) in
          rw gone (rw same (omega arith))
    ])

-- The name is free, or the call raises.
check_cases :
    (t : ℕ) (n : String) (s : Session)
    → ((keep_if (has_username t n) s.users ≡ []) × (check_username t n s ≡ (ok tt, s)))
      ⊎ ((e : Error) × (check_username t n s ≡ (err e, s)))
unfolding check_username
check_cases t n s = elim (empty_cases (keep_if (has_username t n) s.users)) [
  | inl e ↦ inl (e, ground arith)
  | inr (a, [], e) ↦ inr (http 409, ground arith)
  | inr (a, b ∷ ys, e) ↦ inr (multiple_results, ground arith)
]

module _ (secrets : Secrets) where
  create_user-users :
      (t : ℕ) (p : UserCreate) (s : Session)
      → ((create_user secrets t p s).1.users ≡ s.users)
        ⊎ ((u : User) × (keep_if (has_username u.tenant_id u.username) s.users ≡ [])
            × ((create_user secrets t p s).1.users ≡ add_row user_key u s.users))
  unfolding create_user get_tenant_or_404 get_user add_user
  create_user-users t p s = elim (Option-cases (find_row tenant_key t s.tenants)) [
    | inl e ↦ inl (ground arith)
    | inr (tenant, e) ↦ elim (check_cases t p.username s) [
      | inr (x, h) ↦ inl (ground arith)
      | inl (free, h) ↦ elim (Bool-cases (is_service_role p.role)) [
        | inl k ↦ inl (ground arith)
        | inr k ↦ inr (
          new_user (s.next_id + 1) t p (optional_hash secrets p.password s.next_id),
          free,
          ground arith,
        )
      ]
    ]
  ]

  create_service_account-users :
      (t : ℕ) (p : ServiceAccountCreate) (s : Session)
      → ((create_service_account secrets t p s).1.users ≡ s.users)
        ⊎ ((u : User) × (keep_if (has_username u.tenant_id u.username) s.users ≡ [])
            × ((create_service_account secrets t p s).1.users ≡ add_row user_key u s.users))
  unfolding create_service_account get_tenant_or_404 get_user add_user
  create_service_account-users t p s = elim (Option-cases (find_row tenant_key t s.tenants)) [
    | inl e ↦ inl (ground arith)
    | inr (tenant, e) ↦ elim (Bool-cases (is_account_role p.role)) [
      | inr k ↦ inl (ground arith)
      | inl k ↦ elim (check_cases t p.username s) [
        | inr (x, h) ↦ inl (ground arith)
        | inl (free, h) ↦ inr (
          new_account (s.next_id + 1) t p
              (hash_api_key secrets (generate_api_key secrets s.next_id)),
          free,
          ground arith,
        )
      ]
    ]
  ]

  after :
      (us us' : List User)
      → (us' ≡ us)
        ⊎ ((u : User) × (keep_if (has_username u.tenant_id u.username) us ≡ [])
            × (us' ≡ add_row user_key u us))
      → HasUniqueNames us
      → HasUniqueNames us'
  after us us' (inl e) names = subst HasUniqueNames (sym e) names
  after us us' (inr (u, free, e)) names =
      subst HasUniqueNames (sym e) (add-HasUniqueNames u us free names)

  -- If no two users of a tenant have the same name, this still holds after `create_user` and after
  -- `create_service_account`, whether they return or raise.
  pub creations-HasUniqueNames :
      (t : ℕ) (p : UserCreate) (q : ServiceAccountCreate) (s : Session)
      → HasUniqueNames s.users
      → HasUniqueNames (create_user secrets t p s).1.users
        × HasUniqueNames (create_service_account secrets t q s).1.users
  creations-HasUniqueNames t p q s names = (
    after s.users (create_user secrets t p s).1.users (create_user-users t p s) names,
    after s.users (create_service_account secrets t q s).1.users
        (create_service_account-users t q s) names,
  )
