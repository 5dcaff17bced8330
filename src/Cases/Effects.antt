-- ===== src/Cases/Effects.antt =====
-- The effects of `update_case` (backend/src/services/cases.py), branch by branch.
use watari.Base.{
  Bool, Option, Option-cases, [], ap, arith, false, if◌then◌else◌, inl, inr, is_some, none, not,
  opt_eq, refl, some, true, ℕ, ◌&&◌, ◌||◌, ◌∙◌, ◌≡◌, ◌≢◌,
}
use watari.Cases.Update.{
  CaseUpdate, Patch, apply_update, assign, assign_json, assign_optional, change_assignee,
  change_status, close_case, closing, flush_case, is_refused, is_closed, is_null, is_resolved,
  is_set, is_unknown_user, null, nulls_required, save_case, set, stamp, unset, update_case,
  update_effects,
}
use watari.Store.{Case, Kept, CaseOutcome, CaseStatus, Session, case_key, kept, status_ne}
use watari.Table.{find-save_ne, find-save_self, find_row, key-find, save_row}
use watari.Exec.{Result, err, http, integrity_error, ok, when, ◌>>◌}
use watari.Modules.Dispatch.{Installed}
use watari.Modules.Keeps.{UsesModuleApi, fire-kept, fire-ok}
use watari.Timeline.Recorder.{record_event-kept, record_event-ok}

module _ {A : Type 0} where
  -- The value of a field after an update, where `null_value` is what null stands for.
  abbrev pub sent : A → Patch A → A → A
  sent null_value unset old = old
  sent null_value null old = null_value
  sent null_value (set a) old = a

  -- The same, of a field that may be absent.
  abbrev pub sent_optional : Patch A → Option A → Option A
  sent_optional unset old = old
  sent_optional null old = none
  sent_optional (set a) old = some a

  pub assign-sent : (p : Patch A) (old : A) → assign p old ≡ sent old p old
  assign-sent unset old = refl
  assign-sent null old = refl
  assign-sent (set a) old = refl

  pub assign_optional-sent :
      (p : Patch A) (old : Option A) → assign_optional p old ≡ sent_optional p old
  assign_optional-sent unset old = refl
  assign_optional-sent null old = refl
  assign_optional-sent (set a) old = refl

  assign_json-sent : (n : A) (p : Patch A) (old : A) → assign_json n p old ≡ sent n p old
  assign_json-sent n unset old = refl
  assign_json-sent n null old = refl
  assign_json-sent n (set a) old = refl

-- The fields of the row that may be sent, after the update.
abbrev pub sent_case : CaseUpdate → Case → Case
sent_case u old = record old {
  title = sent old.title u.title old.title;
  description = sent_optional u.description old.description;
  status = sent old.status u.status old.status;
  severity = sent old.severity u.severity old.severity;
  outcome = sent_optional u.outcome old.outcome;
  assignee_id = sent_optional u.assignee_id old.assignee_id;
  tags = sent old.tags u.tags old.tags;
  custom_fields = sent [] u.custom_fields old.custom_fields;
}

apply_update-sent_case : (u : CaseUpdate) (old : Case) → apply_update u old ≡ sent_case u old
unfolding apply_update
apply_update-sent_case u old = simp (assign-sent, assign_optional-sent, assign_json-sent)

-- The result of `update_case` for a case that exists, where `c` has the fields that were sent and `t`
-- is the instant of the call: `refused` says whether the database refuses the row.
abbrev result_of : Session → Bool → Case → Case → Result Case
result_of s refused old c =
    let t = s.world.clock s.clock_calls in
    let is_new = status_ne c.status old.status in
    if is_new && (is_closed c.status && not (is_some c.outcome))
    then err (http 400)
    else if refused
    then err integrity_error
    else ok (record c {
      resolved_at = if is_new && is_resolved c.status then some t else old.resolved_at;
      closed_at = if is_new && is_closed c.status then some t else old.closed_at;
    })

abbrev pub update_result : Session → CaseUpdate → Case → Result Case
update_result s u old =
    result_of s
      (is_null u.title
        || is_null u.status
        || is_null u.severity
        || is_null u.tags
        || is_unknown_user u.assignee_id s.users)
      old (sent_case u old)

module _ (installed : Installed) (api : UsesModuleApi installed) where
  -- The users are among what modules leave alone.
  is_refused-kept :
      (u : CaseUpdate) (s s' : Session)
      → kept s' ≡ kept s
      → is_refused u s'.users ≡ is_refused u s.users
  is_refused-kept u s s' same = ap (λ (k : Kept). is_refused u k.users) same

  change_status_lem :
      (u : CaseUpdate) (c : Case) (old : CaseStatus) (actor : ℕ) (s : Session)
      → ((change_status installed u c old actor s).0 ≡ (
          if is_closed c.status && not (is_some c.outcome)
          then err (http 400)
          else if is_refused u s.users
          then err integrity_error
          else ok tt))
        × (kept (change_status installed u c old actor s).1
            ≡ kept (save_case (stamp (s.world.clock s.clock_calls) c) s))
  unfolding change_status
  change_status_lem u c old actor s = (
    grind (arith, record_event-ok, fire-ok),
    grind (arith, record_event-kept, record_event-ok, fire-kept),
  )

  change_assignee_lem :
      (u : CaseUpdate) (c : Case) (old : Option ℕ) (actor : ℕ) (s : Session)
      → ((change_assignee installed u c old actor s).0
          ≡ (if is_refused u s.users then err integrity_error else ok tt))
        × (kept (change_assignee installed u c old actor s).1 ≡ kept s)
  unfolding change_assignee
  change_assignee_lem u c old actor s =
      (grind (arith, record_event-ok), grind (arith, record_event-kept))

  assignee_part_lem :
      (b : Bool) (u : CaseUpdate) (c : Case) (old : Option ℕ) (actor : ℕ) (s : Session)
      → (((when b (change_assignee installed u c old actor) >> flush_case u) s).0
          ≡ (if is_refused u s.users then err integrity_error else ok tt))
        × (kept ((when b (change_assignee installed u c old actor) >> flush_case u) s).1 ≡ kept s)
  assignee_part_lem true u c old actor s = (
    ground (arith, change_assignee_lem u c old actor s),
    ground (arith, change_assignee_lem u c old actor s),
  )
  assignee_part_lem false u c old actor s = (refl, refl)

  effects_part_lem :
      (a b : Bool) (u : CaseUpdate) (c : Case) (status : CaseStatus) (old : Option ℕ) (actor : ℕ)
      (s : Session)
      → let m =
          when a (change_status installed u c status actor)
          >> (when b (change_assignee installed u c old actor) >> flush_case u) in
        ((m s).0 ≡ (
          if a && (is_closed c.status && not (is_some c.outcome))
          then err (http 400)
          else if is_refused u s.users
          then err integrity_error
          else ok tt))
        × (kept (m s).1
            ≡ kept (if a then save_case (stamp (s.world.clock s.clock_calls) c) s else s))
  unfolding save_case
  effects_part_lem true b u c status old actor s =
      let first = change_status_lem u c status actor s in
      let second =
        assignee_part_lem b u c old actor (change_status installed u c status actor s).1 in
      let refused : is_refused u (change_status installed u c status actor s).1.users
          ≡ is_refused u s.users =
        is_refused-kept u (save_case (stamp (s.world.clock s.clock_calls) c) s)
          (change_status installed u c status actor s).1 first.1 in
      (ground (arith, first, second, refused), ground (arith, first, second, refused))
  effects_part_lem false b u c status old actor s = assignee_part_lem b u c old actor s

  update_effects_lem :
      (u : CaseUpdate) (c old : Case) (actor : ℕ) (s : Session)
      → ((update_effects installed u c old actor s).0 ≡ (
          if status_ne c.status old.status && (is_closed c.status && not (is_some c.outcome))
          then err (http 400)
          else if is_refused u s.users
          then err integrity_error
          else ok tt))
        × (kept (update_effects installed u c old actor s).1
            ≡ kept (
                if status_ne c.status old.status
                then save_case (stamp (s.world.clock s.clock_calls) c) s
                else s))
  unfolding update_effects
  update_effects_lem u c old actor s =
      effects_part_lem (status_ne c.status old.status)
        (is_set u.assignee_id && not (opt_eq c.assignee_id old.assignee_id)) u c old.status
        old.assignee_id actor s

  -- The table of cases after the update of a case that exists.
  update_case-cases :
      (case_id : ℕ) (u : CaseUpdate) (actor : ℕ) (s : Session) {old : Case}
      → find_row case_key case_id s.cases ≡ some old
      → let c = apply_update u old in
        (update_case installed case_id u actor s).1.cases ≡ (
          if status_ne c.status old.status
          then save_row case_key
              (stamp (s.world.clock s.clock_calls) c)
              (save_row case_key c s.cases)
          else save_row case_key c s.cases)
  unfolding update_case
  update_case-cases case_id u actor s {old} e =
      let c = apply_update u old in
      let after = (update_effects_lem u c old actor (save_case c s)).1 in ground (arith, after)

  -- The result of the call from that of its effects.
  update_case_after :
      (case_id : ℕ) (u : CaseUpdate) (actor : ℕ) (s : Session) {old : Case} (refused : Bool)
      → find_row case_key case_id s.cases ≡ some old
      → let c = apply_update u old in
        (update_effects installed u c old actor (save_case c s)).0 ≡ (
          if status_ne c.status old.status && (is_closed c.status && not (is_some c.outcome))
          then err (http 400)
          else if refused
          then err integrity_error
          else ok tt)
        → kept (update_effects installed u c old actor (save_case c s)).1
          ≡ kept (
              if status_ne c.status old.status
              then save_case (stamp (s.world.clock s.clock_calls) c) (save_case c s)
              else save_case c s)
        → (update_case installed case_id u actor s).0 ≡ result_of s refused old (apply_update u old)
  unfolding update_case apply_update stamp
  update_case_after case_id u actor s {old} refused e answer after =
      let c = apply_update u old in
      let t = stamp (s.world.clock s.clock_calls) c in
      ground (
        arith,
        answer,
        after,
        key-find case_key case_id s.cases e,
        find-save_self case_key c s.cases {old = old},
        find-save_self case_key t (save_row case_key c s.cases) {old = c},
      )

  update_case-result_of :
      (case_id : ℕ) (u : CaseUpdate) (actor : ℕ) (s : Session) {old : Case}
      → find_row case_key case_id s.cases ≡ some old
      → (update_case installed case_id u actor s).0
        ≡ result_of s (is_refused u s.users) old (apply_update u old)
  unfolding save_case
  update_case-result_of case_id u actor s {old} e =
      let c = apply_update u old in
      let (answer, after) = update_effects_lem u c old actor (save_case c s) in
      update_case_after case_id u actor s (is_refused u s.users) e answer after

  -- If the modules use `ModuleAPI` alone, `update_case` on a case that exists is, on every branch:
  -- a 400 if the status changes to closed and no outcome is left; else an integrity error if a
  -- column that may not be null is set to null or the assignee is no user of the table; else the
  -- row with each field that was sent, with `resolved_at` or `closed_at` the instant of the call
  -- if the status has changed to resolved or closed, and the rest as it was.
  pub update_case_result :
      (case_id : ℕ) (u : CaseUpdate) (actor : ℕ) (s : Session) {old : Case}
      → find_row case_key case_id s.cases ≡ some old
      → (update_case installed case_id u actor s).0 ≡ update_result s u old
  unfolding is_refused nulls_required
  update_case_result case_id u actor s {old} e =
      update_case-result_of case_id u actor s e
      ∙ ap (result_of s (is_refused u s.users) old) (apply_update-sent_case u old)

  -- If the modules use `ModuleAPI` alone, `update_case` leaves the row of every other case as it
  -- was, whether it returns or raises.
  pub update_case-others :
      (case_id other : ℕ) (u : CaseUpdate) (actor : ℕ) (s : Session)
      → other ≢ case_id
      → find_row case_key other (update_case installed case_id u actor s).1.cases
        ≡ find_row case_key other s.cases
  unfolding update_case apply_update stamp
  update_case-others case_id other u actor s ne =
      elim (Option-cases (find_row case_key case_id s.cases)) [
        | inl e ↦ ground arith
        | inr (old, e) ↦
            let c = apply_update u old in
            let t = stamp (s.world.clock s.clock_calls) c in
            ground (
              arith,
              key-find case_key case_id s.cases e,
              update_case-cases case_id u actor s e,
              find-save_ne case_key other c s.cases,
              find-save_ne case_key other t (save_row case_key c s.cases),
            )
      ]

  -- If the modules use `ModuleAPI` alone, closing a case that exists and is not closed returns its
  -- row with status closed, the given outcome and the instant of the call as `closed_at`, and
  -- nothing else changed.
  pub close_case_result :
      (case_id : ℕ) (outcome : CaseOutcome) (actor : ℕ) (s : Session) {old : Case}
      → find_row case_key case_id s.cases ≡ some old
      → old.status ≢ CaseStatus.closed
      → (close_case installed case_id outcome actor s).0
        ≡ ok (record old {
          status = CaseStatus.closed;
          outcome = some outcome;
          closed_at = some (s.world.clock s.clock_calls);
        })
  unfolding close_case
  close_case_result case_id outcome actor s {old} e open_case =
      ground (arith, update_case_result case_id (closing outcome) actor s e)
