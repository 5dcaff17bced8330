-- ===== src/Tests/Auth.antt =====
-- The permission matrix at some permissions.
use Prim.Native.Char.{nul}
use watari.Auth.Permissions.{authorize_iff}
use watari.Base.{
  Bool-cases, Option, String, ap, arith, false, if◌then◌else◌, inl, inr, none, refl, some, str_eq,
  str_eq_iff, suc, true, zero, ℕ, ◌↔◌, ◌∈◌, ◌≡◌, ◌⊎◌,
}
use watari.Auth.Isolation.{request_isolation}
use watari.Auth.Principal.{Tokens, check_session, context_of, get_principal, load_user_from_token}
use watari.Auth.Rbac.{Action, Resource, authorize, has_permission}
use watari.Auth.Scope.{Casts, IsCasts, Settings, is_visible, scope_session}
use watari.Auth.Sessions.{is_session_active}
use watari.Exec.{ok}
use watari.Store.{Role, User}
use watari.Table.{find_row}
use watari.Tests.Samples.{analyst_auth}
use watari.Tests.Users.{redis, secrets, tokens, user_of_tenant, users_session}

authorize_iff_example : (authorize Resource.case Action.update 7 analyst_auth ≡ ok analyst_auth) ↔ (
    (has_permission analyst_auth Resource.case Action.update ≡ true)
    × ((analyst_auth.role ≡ Role.platform_admin) ⊎ (analyst_auth.tenant_id ≡ 7)))
authorize_iff_example = authorize_iff Resource.case Action.update 7 analyst_auth

-- A UUID is written as so many characters and one more, and read by counting them.
abbrev so_many : ℕ → String
so_many zero = String.[]
so_many (suc n) = String.◌∷◌ nul (so_many n)

abbrev count_them : String → ℕ
count_them String.[] = 0
count_them (String.◌∷◌ c s) = suc (count_them s)

abbrev count_all_but_one : String → Option ℕ
count_all_but_one String.[] = none
count_all_but_one (String.◌∷◌ c s) = some (count_them s)

count_them-so_many : (n : ℕ) → count_them (so_many n) ≡ n
count_them-so_many zero = refl
count_them-so_many (suc n) = ap suc (count_them-so_many n)

abbrev casts : Casts
casts = record {
  to_uuid = count_all_but_one;
  to_boolean = λ v. if str_eq v "true" then some true else none;
}

not_empty : (n : ℕ) → str_eq (String.◌∷◌ nul (so_many n)) "" ≡ false
not_empty n = elim (Bool-cases (str_eq (String.◌∷◌ nul (so_many n)) "")) [
  | inr e ↦ e
  | inl e ↦
      let same : String.◌∷◌ nul (so_many n) ≡ "" = (str_eq_iff _ "").0 e in
      let counts : some (count_them (so_many n)) ≡ none = ap count_all_but_one same in
      absurd (ground arith)
]

casts-IsCasts : IsCasts casts (λ n. String.◌∷◌ nul (so_many n))
casts-IsCasts = record {
  to_uuid-uuid_text = λ n. ap some (count_them-so_many n);
  full_text = not_empty;
  to_boolean_true = refl;
}

abbrev unary_tokens : Tokens
unary_tokens = record tokens { uuid_text = λ n. String.◌∷◌ nul (so_many n) }

-- The connection was used before, and its tenant is the empty text.
abbrev used_before : Settings
used_before = record { current_tenant = some ""; is_platform_admin_text = none }

request_isolation_example :
    (u : User) × (u ∈ users_session.users)
    × (u.is_active ≡ true)
    × ((t : ℕ)
        → (is_visible casts
              (scope_session unary_tokens.uuid_text
                (context_of (user_of_tenant 90 7) false)
                used_before)
              t
            ≡ true)
          ↔ ((u.role ≡ Role.platform_admin) ⊎ (u.tenant_id ≡ t)))
    × ((t : ℕ) → is_visible casts used_before t ≡ false)
unfolding get_principal load_user_from_token check_session is_session_active find_row
request_isolation_example =
    request_isolation redis unary_tokens secrets casts casts-IsCasts used_before (refl, tt)
      (some "jwt") none 10 users_session.users (λ k. 20) (context_of (user_of_tenant 90 7) false)
      refl
