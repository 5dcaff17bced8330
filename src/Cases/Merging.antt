-- ===== src/Cases/Merging.antt =====
-- The parts of `merge_cases` (backend/src/services/cases.py): what each moves, closes and refuses.
use watari.Base.{
  ==_iff, All, Bool-cases, List, Option-cases, [], ap, arith, contains, false, if◌then◌else◌, inl,
  inr, map, refl, some, subst, sym, true, ℕ, ◌+◌, ◌==◌, ◌∙◌, ◌∷◌, ◌≡◌, ◌≢◌,
}
use watari.Cases.Merge.{
  case_ids, close_at, close_sources, collect_sources, move_entries, move_observables, transfer,
  transfer_all,
}
use watari.Store.{Case, Observable, Session, TimelineEntry, case_key}
use watari.Exec.{Result-cases, ok}
use watari.Table.{find-update_ne, find-update_self, find_row, key-find, update_row}

-- A case that may be merged into the target: it is in the table, has the target's tenant, and is
-- another case.
abbrev pub IsSource : Session → Case → Case → Type 0
IsSource s target c =
    (find_row case_key c.id s.cases ≡ some c)
    × (c.tenant_id ≡ target.tenant_id)
    × (c.id ≢ target.id)

pub collect_sources-session :
    (target : Case) (ids : List ℕ) (s : Session) → (collect_sources target ids s).1 ≡ s
unfolding collect_sources
collect_sources-session target [] s = refl
collect_sources-session target (id ∷ ids) s = ground (arith, collect_sources-session target ids s)

pub collect_sources-IsSource :
    (target : Case) (ids : List ℕ) (s : Session) (sources : List Case)
    → (collect_sources target ids s).0 ≡ ok sources
    → All (IsSource s target) sources × (case_ids sources ≡ ids)
unfolding collect_sources
collect_sources-IsSource target [] s [] h = (tt, refl)
collect_sources-IsSource target [] s (c ∷ cs) h = absurd (cc)
collect_sources-IsSource target (id ∷ ids) s sources h =
    elim (Option-cases (find_row case_key id s.cases)) [
      | inl missing ↦ absurd (ground arith)
      | inr (src, found) ↦ elim (Result-cases (collect_sources target ids s).0) [
        | inr (e, failed) ↦ absurd (ground (arith, collect_sources-session target ids s))
        | inl (rest, collected) ↦
            let (each, same) = collect_sources-IsSource target ids s rest collected in
            let is_id : src.id ≡ id = key-find case_key id s.cases found in
            let taken : sources ≡ src ∷ rest =
              ground (arith, collect_sources-session target ids s) in
            let source : IsSource s target src = (
              subst (λ k. find_row case_key k s.cases ≡ some src) (sym is_id) found,
              ground (arith, collect_sources-session target ids s),
              ground (arith, collect_sources-session target ids s),
            ) in
            (subst (All (IsSource s target)) (sym taken) (source, each), cc)
      ]
    ]

-- The case that a row belongs to after the merge.
abbrev pub merged_case : ℕ → List ℕ → ℕ → ℕ
merged_case target ids case_id = if contains case_id ids then target else case_id

pub transfer_all-observables :
    (target : ℕ) (srcs : List Case) (s : Session)
    → (transfer_all target srcs s).observables
      ≡ map
          (λ (o : Observable). record o { case_id = merged_case target (case_ids srcs) o.case_id })
          s.observables
unfolding transfer_all
transfer_all-observables target [] s = sym (map-same s.observables)
  where
    map-same :
        (os : List Observable) → map (λ (o : Observable). record o { case_id = o.case_id }) os ≡ os
    map-same [] = refl
    map-same (o ∷ os) = ap (λ l. o ∷ l) (map-same os)
transfer_all-observables target (src ∷ srcs) s =
    transfer_all-observables target srcs (transfer target src.id s) ∙ step s.observables
  where
    step :
        (os : List Observable)
        → map
            (λ (o : Observable). record o {
              case_id = merged_case target (case_ids srcs) o.case_id;
            })
            (move_observables src.id target os)
          ≡ map
              (λ (o : Observable). record o {
                case_id = merged_case target (case_ids (src ∷ srcs)) o.case_id;
              })
              os
    step [] = refl
    step (o ∷ os) = ground (arith, step os)

module _ (j : ℕ) where
  pub close_sources-other :
      (srcs : List Case) (s : Session)
      → contains j (case_ids srcs) ≡ false
      → find_row case_key j (close_sources srcs s).1.cases ≡ find_row case_key j s.cases
  unfolding close_sources close_at
  close_sources-other [] s h = refl
  close_sources-other (src ∷ srcs) s h =
      let t = s.world.clock s.clock_calls in
      let s' : Session = record s {
        clock_calls = s.clock_calls + 1;
        cases = update_row case_key src.id (close_at t) s.cases;
      } in
      let apart : src.id ≢ j = λ e. cc ((==_iff src.id j).1 e) in
      close_sources-other srcs s' (ground arith)
      ∙ find-update_ne case_key j src.id (close_at t) s.cases (λ y. refl) (λ e. apart (sym e))

  pub close_sources-closes :
      (srcs : List Case) (s : Session) {c : Case}
      → find_row case_key j s.cases ≡ some c
      → contains j (case_ids srcs) ≡ true
      → (t : ℕ) × (find_row case_key j (close_sources srcs s).1.cases ≡ some (close_at t c))
  unfolding close_sources close_at
  close_sources-closes [] s f h = absurd (cc)
  close_sources-closes (src ∷ srcs) s {c} f h =
      let t = s.world.clock s.clock_calls in
      let s' : Session = record s {
        clock_calls = s.clock_calls + 1;
        cases = update_row case_key src.id (close_at t) s.cases;
      } in
      elim (Bool-cases (src.id == j)) [
        | inl here ↦
            let same : src.id ≡ j = (==_iff src.id j).0 here in
            let now_closed : find_row case_key j s'.cases ≡ some (close_at t c) =
              rw same (find-update_self case_key j (close_at t) s.cases (λ y. refl) f) in
            elim (Bool-cases (contains j (case_ids srcs))) [
              | inl again ↦ close_sources-closes srcs s' now_closed again
              | inr last ↦ (t, close_sources-other srcs s' last ∙ now_closed)
            ]
        | inr later ↦
            close_sources-closes srcs s'
              (find-update_ne case_key j src.id (close_at t) s.cases (λ y. refl) (ground arith) ∙ f)
              (ground arith)
      ]

pub close_sources-rest :
    (srcs : List Case) (s : Session)
    → ((close_sources srcs s).0 ≡ ok tt)
      × ((close_sources srcs s).1.observables ≡ s.observables)
      × ((close_sources srcs s).1.entries ≡ s.entries)
unfolding close_sources close_at
close_sources-rest [] s = (refl, refl, refl)
close_sources-rest (src ∷ srcs) s = close_sources-rest srcs (record s {
  clock_calls = s.clock_calls + 1;
  cases = update_row case_key src.id (close_at (s.world.clock s.clock_calls)) s.cases;
})

pub transfer_all-entries :
    (target : ℕ) (srcs : List Case) (s : Session)
    → (transfer_all target srcs s).entries
      ≡ map
          (λ (e : TimelineEntry). record e {
            case_id = merged_case target (case_ids srcs) e.case_id;
          })
          s.entries
unfolding transfer_all
transfer_all-entries target [] s = sym (map-same s.entries)
  where
    map-same :
        (es : List TimelineEntry)
        → map (λ (e : TimelineEntry). record e { case_id = e.case_id }) es ≡ es
    map-same [] = refl
    map-same (e ∷ es) = ap (λ l. e ∷ l) (map-same es)
transfer_all-entries target (src ∷ srcs) s =
    transfer_all-entries target srcs (transfer target src.id s) ∙ step s.entries
  where
    step :
        (es : List TimelineEntry)
        → map
            (λ (e : TimelineEntry). record e {
              case_id = merged_case target (case_ids srcs) e.case_id;
            })
            (move_entries src.id target es)
          ≡ map
              (λ (e : TimelineEntry). record e {
                case_id = merged_case target (case_ids (src ∷ srcs)) e.case_id;
              })
              es
    step [] = refl
    step (e ∷ es) = ground (arith, step es)

pub transfer_all-cases :
    (target : ℕ) (srcs : List Case) (s : Session)
    → ((transfer_all target srcs s).cases ≡ s.cases)
      × ((transfer_all target srcs s).world ≡ s.world)
unfolding transfer_all
transfer_all-cases target [] s = (refl, refl)
transfer_all-cases target (src ∷ srcs) s = transfer_all-cases target srcs (transfer target src.id s)
