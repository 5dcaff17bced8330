-- ===== src/Audit/Service.antt =====
-- The audit log and the middleware that writes it (backend/src/services/audit.py, schemas/audit.py).
-- The middleware's session is one of its own on the same tables. `details` is kept as a text.
use Prim.Native.String
use watari.Alerts.Ingest.{fits, fits_optional}
use watari.Auth.Rbac.{AuthContext}
use watari.Base.{
  Bool, List, Option, String, [], false, if◌then◌else◌, is_some, keep_if, leb, length, ltb, none,
  not, reverse, some, str_eq, true, ℕ, ◌&&◌, ◌==◌, ◌∷◌,
}
use watari.Exec.{
  Action, data_error, fresh_id, gets, integrity_error, modify, now, pure, raise_if, suppress,
  transaction, ◌>>=◌, ◌>>◌,
}
use watari.Paging.Pages.{where_id}
use watari.Paging.Pages.{offset, select_rows}
use watari.Store.{AuditLog, Role, Session, audit_key, tenant_key, user_key}
use watari.Table.{add_row, find_row}
use watari.Timeline.Service.{where_date, where_text}

-- `AuditLogFilters`
pub record AuditLogFilters : Type 0 where
  pub user_id : Option ℕ
  pub action : Option String
  pub resource_type : Option String
  pub resource_id : Option ℕ
  pub created_after : Option ℕ
  pub created_before : Option ℕ

-- The arguments of `record`.
pub record AuditEvent : Type 0 where
  pub action : String
  pub resource_type : String
  pub resource_id : Option ℕ
  pub details : String
  pub source_ip : Option String
  pub user_agent : Option String

abbrev pub new_entry : AuthContext → AuditEvent → ℕ → ℕ → AuditLog
new_entry auth e id t = record {
  id = id;
  tenant_id = auth.tenant_id;
  user_id = auth.user_id;
  action = e.action;
  resource_type = e.resource_type;
  resource_id = e.resource_id;
  details = e.details;
  source_ip = e.source_ip;
  user_agent = e.user_agent;
  is_service_account = auth.is_service_account;
  created_at = t;
}

-- The foreign keys of the tenant and the user, which the flush checks.
unfoldable pub is_known : AuthContext → Session → Bool
unfolding find_row
is_known auth s =
    is_some (find_row tenant_key auth.tenant_id s.tenants)
    && is_some (find_row user_key auth.user_id s.users)

-- The lengths of the columns that are bounded, which the INSERT checks.
unfoldable pub fits_audit_log : AuditEvent → Bool
fits_audit_log e = fits 100 e.action && (fits 100 e.resource_type && fits_optional 45 e.source_ip)

-- `record`
unfoldable pub record_audit : AuthContext → AuditEvent → Action AuditLog
unfolding is_known fits_audit_log add_row
record_audit auth e = do
  id ← fresh_id
  t ← now
  known ← gets (is_known auth)
  raise_if (not (fits_audit_log e)) data_error
  raise_if (not known) integrity_error
  modify (λ s. record s { audit_logs = add_row audit_key (new_entry auth e id t) s.audit_logs })
  pure (new_entry auth e id t)

unfoldable pub is_listed : ℕ → AuditLogFilters → AuditLog → Bool
is_listed tenant_id f e =
    e.tenant_id == tenant_id
    && (where_id f.user_id (some e.user_id)
        && (where_text f.action (some e.action)
            && (where_text f.resource_type (some e.resource_type)
                && (where_id f.resource_id e.resource_id
                    && (where_date (λ limit t. leb limit t) f.created_after e.created_at
                        && where_date (λ limit t. leb t limit) f.created_before e.created_at)))))

-- The later first; entries have the dates of one clock.
unfoldable pub list_logs : ℕ → AuditLogFilters → (limit offset : ℕ) → Action (List AuditLog × ℕ)
unfolding is_listed
list_logs tenant_id f limit offset = do
  rows ← gets (λ s. keep_if (is_listed tenant_id f) s.audit_logs)
  pure (select_rows limit offset (reverse rows), length rows)

unfoldable pub deny_modification : Role → Bool
deny_modification Role.platform_admin = false
deny_modification _ = true

pub data Method : Type 0 where
  get head options post put patch delete_ : Method

abbrev pub is_mutating : Method → Bool
is_mutating post = true
is_mutating put = true
is_mutating patch = true
is_mutating delete_ = true
is_mutating _ = false

abbrev pub method_text : Method → String
method_text get = "GET"
method_text head = "HEAD"
method_text options = "OPTIONS"
method_text post = "POST"
method_text put = "PUT"
method_text patch = "PATCH"
method_text delete_ = "DELETE"

-- A request, by what the middleware reads: `path.strip("/").split("/")` is given as `segments`.
pub record Request : Type 0 where
  pub method : Method
  pub path : String
  pub segments : List String
  pub client_host : Option String
  pub user_agent : Option String
  pub auth_context : Option AuthContext

-- What the middlewares and the routes behind this one do: the status of the response.
abbrev pub Handler : Type 0
Handler = Request → Session → ℕ × Session

abbrev pub last_or : String → List String → String
last_or v [] = v
last_or v (x ∷ xs) = last_or x xs

-- `[p for p in … if p and not p.startswith("{")]`
abbrev pub is_meaningful : (String → Bool) → String → Bool
is_meaningful starts_with_brace p = not (str_eq p "") && not (starts_with_brace p)

module _ (starts_with_brace : String → Bool) (details_of : ℕ → String → String) where
  unfoldable pub resource_from_path : List String → String
  resource_from_path segments =
      last_or "unknown" (keep_if (is_meaningful starts_with_brace) segments)

  abbrev pub event_of_request : Request → ℕ → AuditEvent
  event_of_request r status_code = record {
    action = String.◌++◌ (method_text r.method) (String.◌++◌ " " r.path);
    resource_type = resource_from_path r.segments;
    resource_id = none;
    details = details_of status_code r.path;
    source_ip = r.client_host;
    user_agent = r.user_agent;
  }

  -- `AuditMiddleware.dispatch`: whatever the log raises is swallowed.
  unfoldable pub dispatch : Handler → Request → Session → ℕ × Session
  unfolding resource_from_path record_audit transaction
  dispatch call_next r s =
      let (status_code, s') = call_next r s in
      elim r.auth_context [
        | none ↦ (status_code, s')
        | some auth ↦ (
          status_code,
          if is_mutating r.method && ltb status_code 500
              then (suppress (transaction (record_audit auth (event_of_request r status_code)))
                  s').1
              else s',
        )
      ]
