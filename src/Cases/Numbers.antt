-- ===== src/Cases/Numbers.antt =====
-- Case numbers: `next_case_number` (the first migration) and `create_case`.
use watari.Base.{
  All, All-map, List, Option, Option-cases, String, [], arith, inl, inr, none, refl, some, ℕ, ◌++◌,
  ◌+◌, ◌<◌, ◌∷◌, ◌≡◌, ◌≢◌, ◌≤◌, ◌⊎◌,
}
use watari.Cases.Create.{
  CaseCreate, add_case, add_template_tasks, create_case, defaults, greatest_number, insert_case,
  load_template, new_case, next_case_number, refresh_case,
}
use watari.Modules.Keeps.{UsesModuleApi, fire-kept, fire-ok}
use watari.Store.{Case, CaseTemplate, Session, TaskSpec, case_key, kept, template_key}
use watari.Table.{KeysBelow, add_row, find-add_new, find_row}
use watari.Exec.{err, http, ok}
use watari.Modules.Dispatch.{Installed}
use watari.Timeline.Recorder.{record_event-kept, record_event-ok}

number-le-greatest :
    (tenant : ℕ) (cs : List Case)
    → All (λ c. c.tenant_id ≡ tenant → c.case_number ≤ greatest_number tenant cs) cs
unfolding greatest_number
number-le-greatest tenant [] = tt
number-le-greatest tenant (c ∷ cs) =
    (λ e. ground arith, All-map cs (λ x h e. ground (arith, h e)) (number-le-greatest tenant cs))

-- No two cases of a tenant have the same number (the constraint `uq_cases_tenant_case_number`).
abbrev pub HasUniqueNumbers : List Case → Type 0
HasUniqueNumbers [] = Unit
HasUniqueNumbers (c ∷ cs) =
    All (λ d. d.tenant_id ≡ c.tenant_id → d.case_number ≢ c.case_number) cs × HasUniqueNumbers cs

-- A case whose number is above those of its tenant keeps the numbers unique.
add-HasUniqueNumbers :
    (r : Case) (cs : List Case)
    → HasUniqueNumbers cs
    → All (λ c. c.tenant_id ≡ r.tenant_id → c.case_number < r.case_number) cs
    → HasUniqueNumbers (add_row case_key r cs)
unfolding add_row
add-HasUniqueNumbers r [] u h = (tt, tt)
add-HasUniqueNumbers r (c ∷ cs) (here, u) (p, h) = (All-snoc cs here, add-HasUniqueNumbers r cs u h)
  where
    All-snoc :
        (ds : List Case)
        → All (λ d. d.tenant_id ≡ c.tenant_id → d.case_number ≢ c.case_number) ds
        → All (λ d. d.tenant_id ≡ c.tenant_id → d.case_number ≢ c.case_number) (ds ++ r ∷ [])
    All-snoc [] _ = (λ e. ground (arith, p), tt)
    All-snoc (d ∷ ds) (q, k) = (q, All-snoc ds k)

add_template_tasks-kept :
    (number_text : ℕ → String) (tenant case_id actor idx : ℕ) (specs : List TaskSpec) (s : Session)
    → kept (add_template_tasks number_text tenant case_id actor idx specs s).1 ≡ kept s
unfolding add_template_tasks
add_template_tasks-kept n t c a i [] s = refl
add_template_tasks-kept n t c a i (TaskSpec.not_a_dict ∷ specs) s =
    add_template_tasks-kept n t c a (i + 1) specs s
add_template_tasks-kept n t c a i (TaskSpec.spec x y z ∷ specs) s =
    grind (arith, add_template_tasks-kept n t c a (i + 1) specs)

add_template_tasks-ok :
    (number_text : ℕ → String) (tenant case_id actor idx : ℕ) (specs : List TaskSpec) (s : Session)
    → (add_template_tasks number_text tenant case_id actor idx specs s).0 ≡ ok tt
unfolding add_template_tasks
add_template_tasks-ok n t c a i [] s = refl
add_template_tasks-ok n t c a i (TaskSpec.not_a_dict ∷ specs) s =
    add_template_tasks-ok n t c a (i + 1) specs s
add_template_tasks-ok n t c a i (TaskSpec.spec x y z ∷ specs) s =
    grind (arith, add_template_tasks-ok n t c a (i + 1) specs)

-- The row that `create_case` adds.
abbrev pub created : Session → ℕ → ℕ → CaseCreate → ℕ → Option CaseTemplate → Case
created s tenant actor p number t =
    new_case s.next_id tenant number p (defaults s.world.set_order p t) actor

next_number_greater :
    (tenant : ℕ) (s : Session)
    → All (λ c. c.tenant_id ≡ tenant → c.case_number < next_case_number tenant s) s.cases
unfolding next_case_number
next_number_greater tenant s =
    All-map s.cases (λ c h e. omega (arith, h e)) (number-le-greatest tenant s.cases)

load_cases :
    (o : Option ℕ) (s : Session)
    → (load_template o s ≡ (err (http 404), s))
      ⊎ ((t : Option CaseTemplate) × (load_template o s ≡ (ok t, s)))
load_cases none s = inr (none, refl)
load_cases (some id) s = elim (Option-cases (find_row template_key id s.templates)) [
  | inl e ↦ inl (rw (e, load_template) refl)
  | inr (t, e) ↦ inr (some t, rw (e, load_template) refl)
]

module _ (installed : Installed) (api : UsesModuleApi installed) where
  -- Past the template, the creation adds one row to the cases and changes nothing else that is kept.
  insert_case-kept :
      (tenant actor : ℕ) (p : CaseCreate) (number : ℕ) (t : Option CaseTemplate) (s : Session)
      → kept (insert_case installed tenant actor p number t s).1
        ≡ kept (add_case (created s tenant actor p number t) s)
  unfolding insert_case
  insert_case-kept tenant actor p number t s = grind (
    arith, record_event-kept, record_event-ok, add_template_tasks-kept, add_template_tasks-ok,
    fire-kept,
  )

  insert_case-ok :
      (tenant actor : ℕ) (p : CaseCreate) (number : ℕ) (t : Option CaseTemplate) (s : Session)
      → (insert_case installed tenant actor p number t s).0 ≡ ok s.next_id
  unfolding insert_case
  insert_case-ok tenant actor p number t s =
      grind (arith, record_event-ok, add_template_tasks-ok, fire-ok)

  -- `create_case` writes nothing if the template that the payload names is missing, and else adds one
  -- row, with the next number.
  create_case-cases :
      (tenant actor : ℕ) (p : CaseCreate) (s : Session)
      → ((create_case installed tenant actor p s).1.cases ≡ s.cases)
        ⊎ ((t : Option CaseTemplate) × ((create_case installed tenant actor p s).1.cases
              ≡ add_row case_key (created s tenant actor p (next_case_number tenant s) t) s.cases))
  unfolding create_case refresh_case
  create_case-cases tenant actor p s = elim (load_cases p.template_id s) [
    | inl e ↦ inl (ground arith)
    | inr (t, e) ↦ inr (
      t,
      ground (
        arith,
        insert_case-ok tenant actor p (next_case_number tenant s) t s,
        insert_case-kept tenant actor p (next_case_number tenant s) t s,
      ),
    )
  ]

  pub create_case-alerts :
      (tenant actor : ℕ) (p : CaseCreate) (s : Session)
      → (create_case installed tenant actor p s).1.alerts ≡ s.alerts
  unfolding create_case refresh_case
  create_case-alerts tenant actor p s = elim (load_cases p.template_id s) [
    | inl e ↦ ground arith
    | inr (t, e) ↦ ground (
      arith,
      insert_case-ok tenant actor p (next_case_number tenant s) t s,
      insert_case-kept tenant actor p (next_case_number tenant s) t s,
    )
  ]

  -- If the modules use `ModuleAPI` alone and no two cases of a tenant have the same number, this
  -- still holds after `create_case`, whether it returns or raises.
  pub create_case-HasUniqueNumbers :
      (tenant actor : ℕ) (p : CaseCreate) (s : Session)
      → HasUniqueNumbers s.cases
      → HasUniqueNumbers (create_case installed tenant actor p s).1.cases
  create_case-HasUniqueNumbers tenant actor p s u = elim (create_case-cases tenant actor p s) [
    | inl e ↦ rw e u
    | inr (t, e) ↦ rw e (
        add-HasUniqueNumbers (created s tenant actor p (next_case_number tenant s) t) s.cases u
          (next_number_greater tenant s))
  ]

  -- If the modules use `ModuleAPI` alone, the ids in the table of cases are below the next id, and
  -- the template is none or exists, `create_case` returns a new row whose number is above those of
  -- the other cases of the tenant.
  pub create_case_returns :
      (tenant actor : ℕ) (p : CaseCreate) (t : Option CaseTemplate) (s : Session)
      → KeysBelow case_key s.next_id s.cases
      → load_template p.template_id s ≡ (ok t, s)
      → ((create_case installed tenant actor p s).0
          ≡ ok (created s tenant actor p (next_case_number tenant s) t))
        × All (λ c. c.tenant_id ≡ tenant → c.case_number < next_case_number tenant s) s.cases
  unfolding create_case refresh_case
  create_case_returns tenant actor p t s below e =
      let number = next_case_number tenant s in
      let row = created s tenant actor p number t in
      (
        ground (
          arith,
          insert_case-ok tenant actor p number t s,
          insert_case-kept tenant actor p number t s,
          find-add_new case_key s.next_id row s.cases below,
        ),
        next_number_greater tenant s,
      )
