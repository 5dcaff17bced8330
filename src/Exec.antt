-- ===== src/Exec.antt =====
-- A service call: a function of the session that returns or raises. What was written before a raise
-- stays in the session; `transaction` undoes it, as the dependency `get_db` does.
use watari.Base.{
  Bool, List, Option, [], false, if◌then◌else◌, inl, inr, none, refl, some, true, ℕ, ◌+◌, ◌∷◌, ◌≡◌,
  ◌⊎◌,
}
use watari.Store.{Session}

-- `HTTPException` by its status code, and the exceptions of SQLAlchemy, Redis, S3, Jinja and Python that the
-- services meet.
pub data Error : Type 0 where
  http : ℕ → Error
  integrity_error data_error pending_rollback multiple_results : Error
  redis_error value_error jwt_error validation_error client_error template_error : Error

pub data Result {ℓ} (A : Type ℓ) : Type ℓ where
  ok : A → Result A
  err : Error → Result A

abbrev pub Action : Type 0 → Type 0
Action A = Session → Result A × Session

module _ {A : Type 0} where
  abbrev pub pure : A → Action A
  pure a s = (ok a, s)

  abbrev pub raise : Error → Action A
  raise e s = (err e, s)

  abbrev pub gets : (Session → A) → Action A
  gets f s = (ok (f s), s)

  -- A row or a 404, as the helpers `_get_…_or_404` do.
  abbrev pub or_raise : Error → Option A → Action A
  or_raise e none = raise e
  or_raise e (some a) = pure a

infixl 5 ◌>>=◌ ◌>>◌
abbrev pub ◌>>=◌ : {A B : Type 0} → Action A → (A → Action B) → Action B
◌>>=◌ m f s = let (r, s') = m s in elim r [ ok a ↦ f a s' | err e ↦ (err e, s') ]

abbrev pub ◌>>◌ : {A B : Type 0} → Action A → Action B → Action B
m >> n = m >>= λ _. n

abbrev pub raise_if : Bool → Error → Action (Unit {0})
raise_if b e s = (if b then err e else ok tt, s)

abbrev pub modify : (Session → Session) → Action (Unit {0})
modify f s = (ok tt, f s)

abbrev pub when : Bool → Action (Unit {0}) → Action (Unit {0})
when b m s = elim b [ true ↦ m s | false ↦ (ok tt, s) ]

-- `scalar_one_or_none`
abbrev pub scalar_one_or_none {ℓ} : {A : Type ℓ} → List A → Result (Option A)
scalar_one_or_none [] = ok none
scalar_one_or_none (a ∷ []) = ok (some a)
scalar_one_or_none (a ∷ b ∷ as_) = err multiple_results

-- `for x in xs: body`
abbrev pub for_each {ℓ} : {A : Type ℓ} → (A → Action (Unit {0})) → List A → Action (Unit {0})
for_each f [] s = (ok tt, s)
for_each f (x ∷ xs) s =
    let (r, s') = f x s in elim r [ ok _ ↦ for_each f xs s' | err e ↦ (err e, s') ]

-- `with suppress(Exception)`
abbrev pub suppress : {A : Type 0} → Action A → Action (Unit {0})
suppress m s = (ok tt, (m s).1)

-- `datetime.now(UTC)`
abbrev pub now : Action ℕ
now s = (ok (s.world.clock s.clock_calls), record s { clock_calls = s.clock_calls + 1 })

-- A new UUID, as the default of a primary key gives it.
abbrev pub fresh_id : Action ℕ
fresh_id s = (ok s.next_id, record s { next_id = s.next_id + 1 })

-- The tables of `s`, with the rest as `t` has it.
abbrev pub rollback : Session → Session → Session
rollback s t = record t {
  cases = s.cases;
  templates = s.templates;
  tasks = s.tasks;
  observables = s.observables;
  entries = s.entries;
  folders = s.folders;
  alerts = s.alerts;
  modules = s.modules;
  executions = s.executions;
  tenants = s.tenants;
  users = s.users;
  assets = s.assets;
  asset_links = s.asset_links;
  evidence = s.evidence;
  enrichment_sources = s.enrichment_sources;
  enrichment_results = s.enrichment_results;
  notes = s.notes;
  attack_mappings = s.attack_mappings;
  report_templates = s.report_templates;
  reports = s.reports;
  audit_logs = s.audit_logs;
}

abbrev settle : {A : Type 0} → Session → Result A → Session → Result A × Session
settle s (ok a) t = (ok a, t)
settle s (err e) t = (err e, rollback s t)

-- `get_db`: commits on success, rolls back on an exception.
unfoldable pub transaction : {A : Type 0} → Action A → Action A
transaction m s = settle s (m s).0 (m s).1

pub Result-cases {ℓ} :
    {A : Type ℓ} (r : Result A) → ((a : A) × (r ≡ ok a)) ⊎ ((e : Error) × (r ≡ err e))
Result-cases (ok a) = inl (a, refl)
Result-cases (err e) = inr (e, refl)
