-- ===== src/Alerts/Dedup.antt =====
-- Deduplication (`ingest_alert` of backend/src/services/alerts.py): the query for a pending alert, and
-- what an ingestion leaves for the next one.
use watari.Alerts.Ingest.{
  DetectionFindingIngest, add_alert, derive_dedup_key, find_existing, fits_alert, get_alert_or_404,
  ingest_alert, insert_alert, is_existing, new_alert, settle_ingest, truthy,
}
use watari.Base.{
  Bool-cases, List, Option, Option-cases, String, [], ap, arith, at_most_one_cases, false,
  if◌then◌else◌, inl, inr, keep_if, keep_if-append, length, length-append, none, refl, some, str_eq,
  str_eq_iff, subst, sym, true, ℕ, ◌&&◌, ◌++◌, ◌+◌, ◌==◌, ◌∙◌, ◌∷◌, ◌≡◌, ◌≤◌, ◌⊎◌,
}
use watari.Exec.{Result, err, ok, scalar_one_or_none}
use watari.Store.{Alert, Kept, Session, alert_key, kept}
use watari.Modules.Dispatch.{Installed}
use watari.Modules.Keeps.{UsesModuleApi, fire-kept}
use watari.Table.{add_row, find_row}

-- At most one pending alert of a tenant has a given key, the empty one excepted.
abbrev pub HasOnePending : List Alert → Type 0
HasOnePending alerts =
    (tenant_id : ℕ) (k : String)
    → str_eq k "" ≡ false
    → length (keep_if (is_existing tenant_id k) alerts) ≤ 1

-- A key is derived, and not the empty one, since the schema wants a `uid`.
derive_dedup_key-nonempty :
    (p : DetectionFindingIngest)
    → str_eq p.uid "" ≡ false
    → (k : String) × (derive_dedup_key p ≡ some k) × (str_eq k "" ≡ false)
unfolding derive_dedup_key
derive_dedup_key-nonempty p h = first p.dedup_key p.uid_alt
  where
    second :
        (b : Option String)
        → (k : String) × ((if truthy b then b else some p.uid) ≡ some k) × (str_eq k "" ≡ false)
    second none = (p.uid, refl, h)
    second (some v) = elim (Bool-cases (str_eq v "")) [
      | inl e ↦ (p.uid, ground arith, h)
      | inr e ↦ (v, ground arith, e)
    ]

    first :
        (a b : Option String)
        → (k : String) × ((if truthy a then a else if truthy b then b else some p.uid) ≡ some k)
          × (str_eq k "" ≡ false)
    first none b = second b
    first (some v) b = elim (Bool-cases (str_eq v "")) [
      | inl e ↦ rw e (second b)
      | inr e ↦ (v, ground arith, e)
    ]

find_existing_lem :
    (tenant_id : ℕ) (k : String) (s : Session)
    → str_eq k "" ≡ false
    → find_existing tenant_id (some k) s
      ≡ (scalar_one_or_none (keep_if (is_existing tenant_id k) s.alerts), s)
unfolding find_existing
find_existing_lem tenant_id k s nonempty = rw nonempty refl

module _ (installed : Installed) (api : UsesModuleApi installed) where
  abbrev row : ℕ → DetectionFindingIngest → ℕ → Alert
  row tenant_id p id = new_alert id tenant_id p (derive_dedup_key p)

  -- The columns of the row are wide enough for it.
  abbrev pub IsStorable : ℕ → DetectionFindingIngest → ℕ → Type 0
  IsStorable tenant_id p id = fits_alert (row tenant_id p id) ≡ true

  insert_alert-kept :
      (tenant_id : ℕ) (p : DetectionFindingIngest) (s : Session)
      → IsStorable tenant_id p s.next_id
      → kept (insert_alert installed tenant_id p s).1
        ≡ kept (add_alert (row tenant_id p s.next_id) s)
  unfolding insert_alert get_alert_or_404 add_alert
  insert_alert-kept tenant_id p s fitting =
      let rows = add_row alert_key (row tenant_id p s.next_id) s.alerts in
      elim (Option-cases (find_row alert_key s.next_id rows)) [
        | inl e ↦ ground arith
        | inr (a, e) ↦ grind (arith, fire-kept)
      ]

  -- A row that a column is too narrow for leaves the table as it was.
  insert_alert-refused :
      (tenant_id : ℕ) (p : DetectionFindingIngest) (s : Session)
      → fits_alert (row tenant_id p s.next_id) ≡ false
      → (insert_alert installed tenant_id p s).1.alerts ≡ s.alerts
  unfolding insert_alert
  insert_alert-refused tenant_id p s long = ground (arith, long)

  settled :
      (tenant_id : ℕ) (p : DetectionFindingIngest) (o : Option Alert) (s : Session)
      → find_existing tenant_id (derive_dedup_key p) s ≡ (ok o, s)
      → ingest_alert installed tenant_id p s ≡ settle_ingest installed tenant_id p o s
  unfolding ingest_alert
  settled tenant_id p o s h =
      ap
        (λ (x : Result (Option Alert) × Session). elim x.0 [
          | ok a ↦ settle_ingest installed tenant_id p a x.1
          | err e ↦ (err e, x.1)
        ])
        h

  -- A pending alert that has the key is what `ingest_alert` returns.
  found_again :
      (tenant_id : ℕ) (p : DetectionFindingIngest) (k : String) (a : Alert) (s : Session)
      → derive_dedup_key p ≡ some k
      → str_eq k "" ≡ false
      → keep_if (is_existing tenant_id k) s.alerts ≡ a ∷ []
      → ingest_alert installed tenant_id p s ≡ (ok (a, true), s)
  found_again tenant_id p k a s e nonempty h =
      settled tenant_id p (some a) s (rw e (find_existing_lem tenant_id k s nonempty ∙ rw h refl))

  -- What `ingest_alert` does when the key is `k` and at most one pending alert has it.
  ingest_cases :
      (tenant_id : ℕ) (p : DetectionFindingIngest) (k : String) (s : Session)
      → derive_dedup_key p ≡ some k
      → str_eq k "" ≡ false
      → length (keep_if (is_existing tenant_id k) s.alerts) ≤ 1
      → ((keep_if (is_existing tenant_id k) s.alerts ≡ [])
          × (ingest_alert installed tenant_id p s ≡ insert_alert installed tenant_id p s))
        ⊎ ((a : Alert) × (keep_if (is_existing tenant_id k) s.alerts ≡ a ∷ [])
            × (ingest_alert installed tenant_id p s ≡ (ok (a, true), s)))
  ingest_cases tenant_id p k s e nonempty one =
      elim (at_most_one_cases (keep_if (is_existing tenant_id k) s.alerts) one) [
        | inl h ↦ inl (
          h,
          settled tenant_id p none s (rw e (find_existing_lem tenant_id k s nonempty ∙ rw h refl)),
        )
        | inr (a, h) ↦ inr (a, h, found_again tenant_id p k a s e nonempty h)
      ]

  -- The table after the insertion.
  insert_alert-alerts :
      (tenant_id : ℕ) (p : DetectionFindingIngest) (s : Session)
      → IsStorable tenant_id p s.next_id
      → (insert_alert installed tenant_id p s).1.alerts ≡ s.alerts ++ row tenant_id p s.next_id ∷ []
  unfolding add_alert add_row
  insert_alert-alerts tenant_id p s fitting =
      ap (λ (k : Kept). k.alerts) (insert_alert-kept tenant_id p s fitting)

  -- A new row meets the condition of the query for its own tenant and key, and no other.
  is_existing-row :
      (tenant_id t : ℕ) (p : DetectionFindingIngest) (k j : String) (id : ℕ)
      → derive_dedup_key p ≡ some k
      → is_existing t j (row tenant_id p id) ≡ tenant_id == t && str_eq k j
  unfolding is_existing
  is_existing-row tenant_id t p k j id e = rw e (ground arith)

  -- The rows of one key stay at most one when the table gets a row with a key that has none.
  inserted-HasOnePending :
      (tenant_id : ℕ) (p : DetectionFindingIngest) (k : String) (s : Session)
      → IsStorable tenant_id p s.next_id
      → derive_dedup_key p ≡ some k
      → keep_if (is_existing tenant_id k) s.alerts ≡ []
      → HasOnePending s.alerts
      → HasOnePending (insert_alert installed tenant_id p s).1.alerts
  inserted-HasOnePending tenant_id p k s fitting e h one t j nonempty =
      let r = row tenant_id p s.next_id in
      let old = keep_if (is_existing t j) s.alerts in
      let new = keep_if (is_existing t j) (r ∷ []) in
      let size : length (keep_if (is_existing t j) (insert_alert installed tenant_id p s).1.alerts)
          ≡ length old + length new =
        rw (insert_alert-alerts tenant_id p s fitting) (
          ap length (keep_if-append (is_existing t j) s.alerts (r ∷ [])) ∙ length-append old new) in
      rw size (elim (Bool-cases (is_existing t j r)) [
        | inr differs ↦ rw differs (omega (arith, one t j nonempty))
        | inl same ↦
            let both = is_existing-row tenant_id t p k j s.next_id e in
            let same_tenant : tenant_id ≡ t = ground arith in
            let same_key : k ≡ j = (str_eq_iff k j).0 (ground arith) in
            let gone : old ≡ [] =
              subst (λ x. keep_if (is_existing x j) s.alerts ≡ []) same_tenant
                (subst (λ x. keep_if (is_existing tenant_id x) s.alerts ≡ []) same_key h) in
            rw gone (rw same (omega arith))
      ])

  -- If the modules use `ModuleAPI` alone, the finding has a `uid`, and a tenant has at most one
  -- pending alert with any key but the empty one, this still holds after `ingest_alert`.
  pub ingest_alert-HasOnePending :
      (tenant_id : ℕ) (p : DetectionFindingIngest) (s : Session)
      → str_eq p.uid "" ≡ false
      → HasOnePending s.alerts
      → HasOnePending (ingest_alert installed tenant_id p s).1.alerts
  ingest_alert-HasOnePending tenant_id p s uid one =
      let (k, e, nonempty) = derive_dedup_key-nonempty p uid in
      elim (ingest_cases tenant_id p k s e nonempty (one tenant_id k nonempty)) [
        | inl (h, q) ↦ elim (Bool-cases (fits_alert (row tenant_id p s.next_id))) [
          | inl fitting ↦ rw q (inserted-HasOnePending tenant_id p k s fitting e h one)
          | inr long ↦
              rw q (subst HasOnePending (sym (insert_alert-refused tenant_id p s long)) one)
        ]
        | inr (a, h, q) ↦ rw q one
      ]
