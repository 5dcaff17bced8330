-- ===== src/Audit/Trail.antt =====
-- What the audit middleware (backend/src/services/audit.py) writes for a request.
use Prim.Native.String
use watari.Alerts.Ingest.{fits_optional}
use watari.Audit.Service.{
  Handler, Request, dispatch, event_of_request, fits_audit_log, is_known, is_mutating, method_text,
  record_audit, resource_from_path,
}
use watari.Base.{
  Bool, Bool-cases, List, Option, Option-cases, String, [], append_nil, arith, if◌then◌else◌, inl,
  inr, leb, ltb, none, some, ℕ, ◌&&◌, ◌++◌, ◌∷◌, ◌≡◌,
}
use watari.Auth.Rbac.{AuthContext}
use watari.Exec.{rollback, transaction}
use watari.Store.{AuditLog, Session}
use watari.Table.{add_row}

module _ (starts_with_brace : String → Bool) (details_of : ℕ → String → String) where
  -- The entry of an authenticated request that may change something and did not fail, of a user and a
  -- tenant that are in the database, if the columns hold its texts.
  abbrev pub trail : Request → ℕ → Session → Option AuthContext → List AuditLog
  trail r status_code s none = []
  trail r status_code s (some auth) =
      let action = String.◌++◌ (method_text r.method) (String.◌++◌ " " r.path) in
      let resource = resource_from_path starts_with_brace details_of r.segments in
      if is_mutating r.method
        && ltb status_code 500
        && (leb (String.count action) 100
            && (leb (String.count resource) 100 && fits_optional 45 r.client_host))
        && is_known auth s
      then (record {
        id = s.next_id;
        tenant_id = auth.tenant_id;
        user_id = auth.user_id;
        action = action;
        resource_type = resource;
        resource_id = none;
        details = details_of status_code r.path;
        source_ip = r.client_host;
        user_agent = r.user_agent;
        is_service_account = auth.is_service_account;
        created_at = s.world.clock s.clock_calls;
      })
        ∷ []
      else []

  -- The middleware gives the response of the handler on. It appends one entry, of the user, the
  -- method, the path and the response, to the log if the request is authenticated, its method
  -- mutates, the response is no server error, the user and the tenant are in the database, and the
  -- method with the path, the resource and the address are no longer than their columns. It
  -- appends none to any other, and changes no other table, whatever the log raises.
  pub dispatch_lem :
      (call_next : Handler) (r : Request) (s : Session)
      → let (status_code, s') = call_next r s in
        let (answer, s'') = dispatch starts_with_brace details_of call_next r s in
        (answer ≡ status_code)
        × (s''.audit_logs ≡ s'.audit_logs ++ trail r status_code s' r.auth_context)
        × (rollback s' s'' ≡ record s'' { audit_logs = s'.audit_logs })
  unfolding dispatch record_audit fits_audit_log transaction is_known add_row
  dispatch_lem call_next r s =
      let (status_code, s') = call_next r s in
      elim (Option-cases r.auth_context) [
        | inl e ↦
            (ground (arith, e), ground (arith, e, append_nil s'.audit_logs), ground (arith, e))
        | inr (auth, e) ↦ elim (Bool-cases (is_mutating r.method && ltb status_code 500)) [
          | inl logged ↦
              elim (Bool-cases
                (fits_audit_log (event_of_request starts_with_brace details_of r status_code))) [
                  | inl fitting ↦ elim (Bool-cases (is_known auth s')) [
                    | inl known ↦ (
                      ground (arith, e, logged, fitting, known),
                      ground (arith, e, logged, fitting, known),
                      ground (arith, e, logged, fitting, known),
                    )
                    | inr unknown ↦ (
                      ground (arith, e, logged, fitting, unknown),
                      ground (arith, e, logged, fitting, unknown, append_nil s'.audit_logs),
                      ground (arith, e, logged, fitting, unknown),
                    )
                  ]
                  | inr long ↦ (
                    ground (arith, e, logged, long),
                    ground (arith, e, logged, long, append_nil s'.audit_logs),
                    ground (arith, e, logged, long),
                  )
                ]
          | inr quiet ↦ (
            ground (arith, e, quiet),
            ground (arith, e, quiet, append_nil s'.audit_logs),
            ground (arith, e, quiet),
          )
        ]
      ]
