-- ===== src/Auth/Permissions.antt =====
-- What the permission matrix (backend/src/auth/rbac.py) grants to whom.
use watari.Auth.Rbac.{
  Action, AuthContext, Resource, action_index, alert, asset, attack_mapping, audit_log, authorize,
  case, case_template, create, dashboard, delete, enrichment, enrichment_source, evidence, execute,
  has_permission, is_platform_role, module_, note, observable, read, report, report_template,
  require_permission, role_permits, search_, task, tenant, timeline, update, user,
}
use watari.Base.{
  Bool, Bool-cases, [], all, ap, arith, false, if◌then◌else◌, inl, inr, not, refl, true, ℕ, ◌==◌,
  ◌||◌, ◌↔◌, ◌∙◌, ◌∷◌, ◌≡◌, ◌⊎◌,
}
use watari.Store.{Role, analyst, api_service_account, platform_admin, read_only, tenant_admin}
use watari.Exec.{err, http, ok}

-- A test of every resource and action, by evaluation.
abbrev on_actions : (Action → Bool) → Bool
on_actions p = all p (create ∷ read ∷ update ∷ delete ∷ execute ∷ [])

abbrev on_resources : (Resource → Bool) → Bool
on_resources p = all p (
    tenant ∷ user ∷ case ∷ task ∷ observable ∷ asset ∷ evidence ∷ note ∷ timeline ∷ alert
    ∷ enrichment ∷ enrichment_source ∷ attack_mapping ∷ report ∷ report_template ∷ case_template
    ∷ module_ ∷ audit_log ∷ dashboard ∷ search_ ∷ [])

on_actions_sound : (p : Action → Bool) (a : Action) → on_actions p ≡ true → p a ≡ true
on_actions_sound p create h = ground arith
on_actions_sound p _ h = ground arith

on_resources_sound : (p : Resource → Bool) (r : Resource) → on_resources p ≡ true → p r ≡ true
on_resources_sound p tenant h = ground arith
on_resources_sound p _ h = ground arith

-- A claim about every permission that its table shows.
by_table :
    (p : Resource → Action → Bool) (r : Resource) (a : Action)
    → on_resources (λ q. on_actions (p q)) ≡ true
    → p r a ≡ true
by_table p r a h = on_actions_sound (p r) a (on_resources_sound (λ q. on_actions (p q)) r h)

abbrev implies : Bool → Bool → Bool
implies a b = not a || b

implies_elim : (a b : Bool) → implies a b ≡ true → a ≡ true → b ≡ true
implies_elim a b h e = ground arith

-- What a read-only user may do an analyst may do, what an analyst may do a tenant administrator
-- may do, and a service account may do what an analyst may do and nothing else.
pub permissions_grow :
    (r : Resource) (a : Action)
    → ((role_permits read_only r a ≡ true) → role_permits analyst r a ≡ true)
      × ((role_permits analyst r a ≡ true) → role_permits tenant_admin r a ≡ true)
      × (role_permits api_service_account r a ≡ role_permits analyst r a)
unfolding role_permits
permissions_grow r a = (
  implies_elim _ _
      (by_table (λ q b. implies (role_permits read_only q b) (role_permits analyst q b)) r a refl),
  implies_elim _ _ (
      by_table (λ q b. implies (role_permits analyst q b) (role_permits tenant_admin q b)) r a
        refl),
  refl,
)

abbrev is_read : Action → Bool
is_read a = action_index a == action_index read

-- A read-only user has no permission but to read.
pub read_only-reads : (r : Resource) (a : Action) → role_permits read_only r a ≡ true → a ≡ read
unfolding role_permits
read_only-reads r a h = read_of a (
    implies_elim _ _ (by_table (λ q b. implies (role_permits read_only q b) (is_read b)) r a refl)
      h)
  where
    read_of : (b : Action) → is_read b ≡ true → b ≡ read
    read_of create e = cc
    read_of read e = refl
    read_of _ e = cc

-- The resources by which a tenant is administered.
abbrev pub administers : Resource → Action → Bool
administers user a = true
administers tenant a = true
administers audit_log a = true
administers enrichment_source a = not (is_read a)
administers case_template a = not (is_read a)
administers report_template a = not (is_read a)
administers _ a = false

-- A service account is refused with a 403 what administers a tenant: users, the tenant, the audit
-- log, and writing to enrichment sources and templates.
pub service_account_cannot_administer :
    (auth : AuthContext) (r : Resource) (a : Action)
    → auth.role ≡ api_service_account
    → administers r a ≡ true
    → require_permission r a auth ≡ err (http 403)
unfolding require_permission has_permission
service_account_cannot_administer auth r a e h =
    let none_ : role_permits api_service_account r a ≡ false = not-true _ (
      implies_elim _ _
        (by_table (λ q b. implies (administers q b) (not (role_permits api_service_account q b))) r
          a refl)
        h) in
    ap (λ b. if b then ok auth else err (http 403)) (ap (λ q. role_permits q r a) e ∙ none_)
  where
    not-true : (b : Bool) → not b ≡ true → b ≡ false
    not-true true k = cc
    not-true false k = refl

-- What only the operators of the platform may do.
abbrev pub platform_only : Resource → Action → Bool
platform_only tenant create = true
platform_only tenant delete = true
platform_only module_ create = true
platform_only module_ update = true
platform_only module_ delete = true
platform_only r a = false

-- A role that may create or delete tenants, or create, update or delete modules, is the platform
-- administrator.
pub platform_only-role :
    (role : Role) (r : Resource) (a : Action)
    → platform_only r a ≡ true
    → role_permits role r a ≡ true
    → role ≡ platform_admin
unfolding role_permits
platform_only-role role r a only h = of_role role r a (implies_elim _ _ (table role r a) only) h
  where
    table :
        (role' : Role) (r' : Resource) (a' : Action)
        → implies
            (platform_only r' a')
            (implies (role_permits role' r' a') (is_platform_role role'))
          ≡ true
    table platform_admin r' a' =
        by_table
          (λ q b. implies (platform_only q b) (implies (role_permits platform_admin q b) true)) r'
          a' refl
    table tenant_admin r' a' =
        by_table
          (λ q b. implies (platform_only q b) (implies (role_permits tenant_admin q b) false)) r' a'
          refl
    table analyst r' a' =
        by_table (λ q b. implies (platform_only q b) (implies (role_permits analyst q b) false)) r'
          a' refl
    table read_only r' a' =
        by_table (λ q b. implies (platform_only q b) (implies (role_permits read_only q b) false))
          r' a' refl
    table api_service_account r' a' =
        by_table
          (λ q b.
            implies (platform_only q b) (implies (role_permits api_service_account q b) false))
          r' a' refl

    of_role :
        (q : Role) (r' : Resource) (a' : Action)
        → implies (role_permits q r' a') (is_platform_role q) ≡ true
        → role_permits q r' a' ≡ true
        → q ≡ platform_admin
    of_role platform_admin r' a' k e = refl
    of_role q r' a' k e = cc (implies_elim _ _ k e)

-- The guards of a route of one tenant let a principal through exactly if it has the permission,
-- and is a platform administrator or has that tenant.
pub authorize_iff :
    (r : Resource) (a : Action) (tenant_id : ℕ) (auth : AuthContext)
    → (authorize r a tenant_id auth ≡ ok auth) ↔ (
        (has_permission auth r a ≡ true)
        × ((auth.role ≡ platform_admin) ⊎ (auth.tenant_id ≡ tenant_id)))
unfolding authorize
authorize_iff r a tenant_id auth = (λ h. (ground arith, ground arith), λ h. ground arith)

-- What a permission of the role tells of the resource and the action.
abbrev pub IsConfined : Role → Resource → Action → Type 0
IsConfined platform_admin r a = Unit {0}
IsConfined tenant_admin r a = platform_only r a ≡ false
IsConfined analyst r a = platform_only r a ≡ false
IsConfined read_only r a = (platform_only r a ≡ false) × (a ≡ read)
IsConfined api_service_account r a = (platform_only r a ≡ false) × (administers r a ≡ false)

not_platform_only :
    (role : Role) (r : Resource) (a : Action)
    → is_platform_role role ≡ false
    → role_permits role r a ≡ true
    → platform_only r a ≡ false
not_platform_only role r a other h = elim (Bool-cases (platform_only r a)) [
  | inr e ↦ e
  | inl e ↦
      let same : role ≡ platform_admin = platform_only-role role r a e h in
      let it : is_platform_role role ≡ true = ap is_platform_role same in absurd (ground arith)
]

-- If a role has a permission, then, but for the platform administrator, it is none for the
-- creation or deletion of tenants or for writing to modules; a read-only user has it only to read;
-- and a service account has it not for what administers a tenant: users, the tenant, the audit
-- log, and writing to enrichment sources and templates.
pub role_permits-IsConfined :
    (role : Role) (r : Resource) (a : Action) → role_permits role r a ≡ true → IsConfined role r a
unfolding role_permits
role_permits-IsConfined platform_admin r a h = tt
role_permits-IsConfined tenant_admin r a h = not_platform_only tenant_admin r a refl h
role_permits-IsConfined analyst r a h = not_platform_only analyst r a refl h
role_permits-IsConfined read_only r a h =
    (not_platform_only read_only r a refl h, read_only-reads r a h)
role_permits-IsConfined api_service_account r a h = (
  not_platform_only api_service_account r a refl h,
  elim (Bool-cases (administers r a)) [
    | inr e ↦ e
    | inl e ↦
        let refused : not (role_permits api_service_account r a) ≡ true =
          implies_elim _ _
            (by_table
              (λ q b. implies (administers q b) (not (role_permits api_service_account q b))) r a
              refl)
            e in
        absurd (ground arith)
  ],
)

-- If a role has a permission, then, but for the platform administrator, it is none for the
-- creation or deletion of tenants or for writing to modules; a read-only user has it only to read;
-- and a service account has it not for what administers a tenant: users, the tenant, the audit
-- log, and writing to enrichment sources and templates. Besides, what a read-only user may do an
-- analyst may do, what an analyst may do a tenant administrator may do, and a service account may
-- do what an analyst may do and nothing else.
pub permissions_lem :
    (role : Role) (r : Resource) (a : Action)
    → role_permits role r a ≡ true
    → IsConfined role r a
      × ((role_permits read_only r a ≡ true) → role_permits analyst r a ≡ true)
      × ((role_permits analyst r a ≡ true) → role_permits tenant_admin r a ≡ true)
      × (role_permits api_service_account r a ≡ role_permits analyst r a)
permissions_lem role r a h =
    let (analysts, administrators, accounts) = permissions_grow r a in
    (role_permits-IsConfined role r a h, analysts, administrators, accounts)
