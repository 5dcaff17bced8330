-- ===== src/Auth/Rbac.antt =====
-- Roles and the permission matrix (backend/src/auth/rbac.py, context.py), and the tenant guard of the
-- case routes (backend/src/api/routers/cases.py).
use watari.Base.{
  Bool, List, [], any, false, if◌then◌else◌, map, not, true, ℕ, ◌&&◌, ◌++◌, ◌==◌, ◌||◌, ◌∷◌,
}
use watari.Store.{Role, platform_admin, tenant_admin, analyst, read_only, api_service_account}
use watari.Exec.{Result, err, http, ok}

pub data Action : Type 0 where
  create read update delete execute : Action

pub data Resource : Type 0 where
  tenant user case task observable asset evidence note timeline alert enrichment enrichment_source :
      Resource
  attack_mapping report report_template case_template module_ audit_log dashboard search_ : Resource

-- `AuthContext`, by the fields that authorization reads.
pub record AuthContext : Type 0 where
  pub user_id : ℕ
  pub tenant_id : ℕ
  pub role : Role
  pub is_service_account : Bool

abbrev pub action_index : Action → ℕ
action_index create = 0
action_index read = 1
action_index update = 2
action_index delete = 3
action_index execute = 4

abbrev pub resource_index : Resource → ℕ
resource_index tenant = 0
resource_index user = 1
resource_index case = 2
resource_index task = 3
resource_index observable = 4
resource_index asset = 5
resource_index evidence = 6
resource_index note = 7
resource_index timeline = 8
resource_index alert = 9
resource_index enrichment = 10
resource_index enrichment_source = 11
resource_index attack_mapping = 12
resource_index report = 13
resource_index report_template = 14
resource_index case_template = 15
resource_index module_ = 16
resource_index audit_log = 17
resource_index dashboard = 18
resource_index search_ = 19

-- `Permission(resource=…, action=…)`
abbrev pub Permission : Type 0
Permission = Resource × Action

abbrev pub permission_eq : Permission → Permission → Bool
permission_eq (r, a) (q, b) =
    resource_index r == resource_index q && action_index a == action_index b

-- `Permission(…) in` a set of them.
abbrev pub permits : List Permission → Permission → Bool
permits ps p = any (permission_eq p) ps

-- `Permission(res, action) for res in … for action in …`
abbrev pub each_of : List Resource → List Action → List Permission
each_of [] as_ = []
each_of (r ∷ rs) as_ = map (λ (a : Action). (r, a)) as_ ++ each_of rs as_

unfoldable pub read_only_set : List Permission
read_only_set =
    each_of
      (case ∷ task ∷ observable ∷ asset ∷ evidence ∷ note ∷ timeline ∷ alert ∷ attack_mapping
        ∷ report ∷ dashboard ∷ search_ ∷ [])
      (read ∷ [])

unfoldable pub analyst_extra : List Permission
analyst_extra =
    each_of
      (case ∷ task ∷ observable ∷ asset ∷ evidence ∷ note ∷ timeline ∷ alert ∷ attack_mapping
        ∷ report ∷ [])
      (create ∷ update ∷ delete ∷ [])
    ++ ((enrichment, execute)
        ∷ (enrichment, read)
        ∷ (enrichment_source, read)
        ∷ (case_template, read)
        ∷ (report_template, read)
        ∷ (module_, read)
        ∷ (module_, execute)
        ∷ [])

unfoldable pub analyst_set : List Permission
unfolding read_only_set analyst_extra
analyst_set = read_only_set ++ analyst_extra

unfoldable pub tenant_admin_extra : List Permission
tenant_admin_extra =
    each_of (user ∷ []) (create ∷ read ∷ update ∷ delete ∷ [])
    ++ (each_of (case_template ∷ report_template ∷ enrichment_source ∷ [])
          (create ∷ update ∷ delete ∷ [])
        ++ ((audit_log, read) ∷ (tenant, read) ∷ (tenant, update) ∷ []))

unfoldable pub tenant_admin_set : List Permission
unfolding analyst_set tenant_admin_extra
tenant_admin_set = analyst_set ++ tenant_admin_extra

unfoldable pub permission_matrix : Role → List Permission
unfolding read_only_set analyst_set tenant_admin_set
permission_matrix read_only = read_only_set
permission_matrix analyst = analyst_set
permission_matrix tenant_admin = tenant_admin_set
permission_matrix platform_admin = []
permission_matrix api_service_account = analyst_set

unfoldable pub permissions_for : Role → List Permission
unfolding permission_matrix
permissions_for platform_admin = tenant_admin_set ++ (analyst_set ++ read_only_set)
permissions_for role = permission_matrix role

abbrev pub is_platform_role : Role → Bool
is_platform_role platform_admin = true
is_platform_role _ = false

abbrev pub is_platform_admin : AuthContext → Bool
is_platform_admin auth = is_platform_role auth.role

-- `has_permission`, by the role of the principal.
unfoldable pub role_permits : Role → Resource → Action → Bool
unfolding permissions_for
role_permits role r a =
    if is_platform_role role then true else permits (permissions_for role) (r, a)

unfoldable pub has_permission : AuthContext → Resource → Action → Bool
unfolding role_permits
has_permission auth r a = role_permits auth.role r a

unfoldable pub require_permission : Resource → Action → AuthContext → Result AuthContext
require_permission r a auth = if has_permission auth r a then ok auth else err (http 403)

unfoldable pub require_any_permission : List Permission → AuthContext → Result AuthContext
require_any_permission perms auth =
    if is_platform_admin auth || any (λ (p : Permission). has_permission auth p.0 p.1) perms
    then ok auth
    else err (http 403)

-- `_assert_tenant_matches`
unfoldable pub assert_tenant_matches : AuthContext → ℕ → Result (Unit {0})
assert_tenant_matches auth tenant_id =
    if not (is_platform_admin auth) && not (auth.tenant_id == tenant_id)
    then err (http 403)
    else ok tt

-- The guards of a route of one tenant: the permission, then the tenant.
unfoldable pub authorize : Resource → Action → ℕ → AuthContext → Result AuthContext
unfolding require_permission assert_tenant_matches
authorize r a tenant_id auth = elim (require_permission r a auth) [
  | err e ↦ err e
  | ok who ↦ elim (assert_tenant_matches who tenant_id) [ err e ↦ err e | ok _ ↦ ok who ]
]
