-- ===== src/Lib.antt =====
-- Watari is a multi-tenant case management service for security incidents: a FastAPI backend whose
-- services read and write PostgreSQL through SQLAlchemy, publish realtime events through Redis, and
-- hand platform events to modules (plugins) through Celery. This library models services of the
-- backend and proves what makes them correct.
--
-- How the parts correspond to the code (paths from the repository's root):
-- - Store: the rows of the tables (backend/src/models), the enumerations of backend/src/schemas, and
--   the session that a service call works on. `Session` holds the tables as lists, and beside them
--   what a rollback does not undo. `World` is the code that is not Watari's, as functions that answer
--   the n-th call: the clock, Redis, Celery, `str` of a UUID, the list made of a Python set.
-- - Table: the queries by primary key. A primary key is unique in the database, so the first row
--   found is the row.
-- - Exec: a service call as a function of the session that returns or raises. What was written before
--   a raise stays written until `transaction` (`get_db` of backend/src/db/session.py) rolls it back.
--   An HTTPException is its status code; the texts of errors are left out.
-- - Realtime.Publish: publishing, of backend/src/realtime (hub.py, publisher.py).
-- - Timeline.Recorder: `record_event` of backend/src/services/timeline_recorder.py.
-- - Modules: backend/src/services/modules.py (Service, Names: the table of modules; Dispatch:
--   `execute_module` and `dispatch_event`, with `fire` of backend/src/services/events.py) and
--   backend/src/modules/runtime_api.py (RuntimeApi). The code of the installed modules is the
--   parameter `Installed`; `UsesModuleApi` says that a module writes no table that `ModuleAPI` has no
--   operation for. Programs gives a module as data: which operation it calls, and what it does with
--   each result or exception. Confined and Closed are about such modules, which run one another to
--   a given depth, as Python's limit on recursion has it.
-- - Cases: backend/src/services/cases.py and the database function `next_case_number`. Create, Update,
--   Merge and Delete hold the operations, Numbers, Effects, Merging and Merged are about them.
-- - Tests: the operations and the theorems at concrete inputs.
-- - Observables: backend/src/services/validators.py (Validators) and observables.py (Service). The
--   regular expressions and string functions of Python are the fields of `Library`. Creation
--   and Correlation are about them.
-- - Alerts: backend/src/services/alerts.py: Ingest (with Dedup), Triage and Promote (with Workflow and
--   Triaged). An OCSF document is kept by the fields that the service reads or writes; the numbers of
--   observable types are naturals.
-- - Auth: the permission matrix of backend/src/auth/rbac.py and the guards of the case routes
--   (Rbac, Permissions); passwords and API keys (Secrets, Keys), the sessions in Redis (Sessions,
--   Lifetime), whom a request or a login is taken for (Principal, Identity), and the tokens from
--   the login to the logout (Tokens, Logout), from passwords.py, api_keys.py, sessions.py, jwt.py,
--   dependencies.py and unified.py of backend/src/auth and backend/src/api/routers/auth.py. bcrypt,
--   SHA-256, the encoding of tokens and Redis are parameters, with what they document as
--   `IsSecrets`, `IsJwt` and `IsRedis`. Scope and Isolation: the tenant of a database session
--   (backend/src/db/session.py) and the policies of row-level security that read it
--   (backend/alembic/versions/0003_force_rls_and_app_role.py).
-- - Assets: backend/src/services/assets.py (Service, with Names and Unique). Tenants:
--   backend/src/services/tenants.py. Templates: backend/src/services/templates.py.
-- - Users: backend/src/services/users.py (Service, Names) and backend/src/api/routers/users.py
--   (Routes, Tenancy).
-- - Timeline, but for Recorder: backend/src/services/clustering.py (Clustering, Clusters) and
--   timeline.py (Service with Automatic, Swimlane with Lanes).
-- - Evidence: backend/src/services/storage.py (Storage, Sealing) and evidence.py (Service, Download).
--   The object store is a state beside the session, which no rollback undoes; it and the cipher are
--   parameters, with what they document as `IsCloud` and `IsCrypto`.
-- - Realtime.Hub: the connections, presence and delivery of backend/src/realtime/hub.py, with Registry
--   and Delivery, which state whom a message reaches. The lock is held for each change of a map, so
--   that any interleaving of clients is a sequence of changes.
-- - Tasks: backend/src/services/tasks.py (Service), and when a case is announced to be complete
--   (Completion).
-- - Notes: backend/src/services/notes.py: the notes (Notes, with Filed and Keeping) and the tree of
--   note folders (Folders, with Climbing and Rooted). The loop of `_would_create_cycle` is on fuel,
--   one round for each folder and one more: a round that does not end the loop visits a folder of
--   the table that was not visited before.
-- - Paging: backend/src/schemas/common.py and the `limit` and `offset` of the services (Pages, Cover).
-- - Attack: backend/src/services/attack.py: the mappings (Service) and the heatmap (Heatmap, with Cells,
--   Linked, Severity and Described). Geospatial: backend/src/services/geospatial.py (Points, with
--   Partition); the arithmetic of floating-point numbers is the parameter `Floats`.
-- - Reports: backend/src/services/reports.py (Context, Service, with Stored). Jinja and python-docx are
--   the parameter `Rendering`. Search: backend/src/services/search.py (Service, with Hits).
-- - Enrichment: backend/src/services/enrichment.py and the task of backend/src/worker/tasks.py
--   (Service). Audit: backend/src/services/audit.py, with its middleware (Service, with
--   Trail).
--
-- Conventions. A UUID is a number and a new one is the session's `next_id`, so that a new id is unlike
-- every earlier one; where this matters it is the hypothesis `KeysBelow`. A date is a number of
-- instants. A JSON value is kept as its text. The loops are recursions on lists and need no fuel,
-- but for those that say so beside them. Not modelled: HTTP serialization and most of the
-- routing, most of the listing queries, the columns `created_at` and `updated_at` of most tables,
-- the effect of row-level security on the queries of the services, that after a database error in a
-- module the later statements of the same session raise too (`execute_module` does, and the swallowing
-- of it by `fire` is modelled as it is written), and the subsystems that the
-- manifest lists as not modelled: the dashboard, whose aggregations the database runs over creation
-- dates; single sign-on; the schema that the migrations make; the seed data.
pub mod Base
pub mod Table
pub mod Store
pub mod Exec
pub mod Realtime
pub mod Timeline
pub mod Modules
pub mod Cases
pub mod Observables
pub mod Tasks
pub mod Alerts
pub mod Auth
pub mod Notes
pub mod Users
pub mod Geospatial
pub mod Attack
pub mod Evidence
pub mod Assets
pub mod Tenants
pub mod Templates
pub mod Audit
pub mod Paging
pub mod Reports
pub mod Search
pub mod Enrichment
mod Tests
