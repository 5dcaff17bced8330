-- ===== src/Attack/Severity.antt =====
-- The severity of a cell of the heatmap (backend/src/services/attack.py).
use watari.Attack.Heatmap.{
  CellData, HeatmapRow, add_case_id, add_severity, add_text, add_to_cell, contains_text, max_from,
  max_of, severity_rank,
}
use watari.Base.{
  Bool, Bool-cases, List, Option, String, [], all, arith, if◌then◌else◌, inl, inr, leb, ltb, none,
  refl, some, str_eq, str_eq_iff, subst, true, ℕ, ◌++◌, ◌||◌, ◌∙◌, ◌∷◌, ◌≡◌, ◌≤◌,
}
use watari.Attack.Linked.{gathered}

-- A severity ranks at most as high as another; none and the empty text do not count.
abbrev pub severity_leb : Option String → Option String → Bool
severity_leb none most = true
severity_leb (some v) none = str_eq v ""
severity_leb (some v) (some w) = str_eq v "" || leb (severity_rank v) (severity_rank w)

contains_text-add_text :
    (v w : String) (ts : List String)
    → contains_text v ts ≡ true
    → contains_text v (add_text w ts) ≡ true
contains_text-add_text v w ts h = elim (Bool-cases (contains_text w ts)) [
  | inl e ↦ rw e h
  | inr e ↦ rw e (longer ts h)
]
  where
    longer : (us : List String) → contains_text v us ≡ true → contains_text v (us ++ w ∷ []) ≡ true
    longer [] k = ground arith
    longer (u ∷ us) k = elim (Bool-cases (str_eq u v)) [
      | inl f ↦ rw f refl
      | inr f ↦ rw f (longer us (ground (arith, f, k)))
    ]

contains_text-add_self : (v : String) (ts : List String) → contains_text v (add_text v ts) ≡ true
contains_text-add_self v ts = elim (Bool-cases (contains_text v ts)) [
  | inl e ↦ rw e e
  | inr e ↦ rw e (last ts)
]
  where
    last : (us : List String) → contains_text v (us ++ v ∷ []) ≡ true
    last [] = ground (arith, (str_eq_iff v v).1 refl)
    last (u ∷ us) = ground (arith, last us)

-- What a row adds to the severities, and keeps of them.
contains_text-add_severity :
    (v : String) (o : Option String) (ts : List String)
    → contains_text v ts ≡ true
    → contains_text v (add_severity o ts) ≡ true
contains_text-add_severity v none ts h = h
contains_text-add_severity v (some w) ts h = elim (Bool-cases (str_eq w "")) [
  | inl e ↦ rw e h
  | inr e ↦ rw e (contains_text-add_text v w ts h)
]

contains_text-gathered :
    (v : String) (rs : List HeatmapRow) (d : CellData)
    → contains_text v d.severities ≡ true
    → contains_text v (gathered rs d).severities ≡ true
contains_text-gathered v [] d h = h
contains_text-gathered v (r ∷ rs) d h =
    contains_text-gathered v rs (add_to_cell r d)
      (contains_text-add_severity v r.severity d.severities h)

best_of_max : (b : String) (vs : List String) → severity_rank b ≤ severity_rank (max_from b vs)
unfolding max_from
best_of_max b [] = omega arith
best_of_max b (v ∷ vs) = elim (Bool-cases (ltb (severity_rank b) (severity_rank v))) [
  | inl e ↦ rw e (ground (arith, e, best_of_max v vs))
  | inr e ↦ rw e (best_of_max b vs)
]

second_of_max :
    (b w : String)
    → severity_rank w ≤ severity_rank (if ltb (severity_rank b) (severity_rank w) then w else b)
second_of_max b w = ground arith

-- Every text of a list ranks at most as high as the one that `max` picks.
member_of_max :
    (v b : String) (vs : List String)
    → contains_text v (b ∷ vs) ≡ true
    → severity_rank v ≤ severity_rank (max_from b vs)
unfolding max_from
member_of_max v b [] h =
    let same : b ≡ v = (str_eq_iff b v).0 (ground (arith, h)) in
    subst (λ x. severity_rank x ≤ severity_rank b) same (omega arith)
member_of_max v b (w ∷ ws) h =
    let best = if ltb (severity_rank b) (severity_rank w) then w else b in
    elim (Bool-cases (str_eq b v)) [
      | inl e ↦
          subst (λ x. severity_rank x ≤ severity_rank (max_from b (w ∷ ws))) ((str_eq_iff b v).0 e)
            (best_of_max b (w ∷ ws))
      | inr e ↦ elim (Bool-cases (str_eq w v)) [
        | inl f ↦
            subst (λ x. severity_rank x ≤ severity_rank (max_from b (w ∷ ws)))
              ((str_eq_iff w v).0 f) (omega (arith, second_of_max b w, best_of_max best ws))
        | inr f ↦ member_of_max v best ws (ground (arith, e, f, h))
      ]
    ]

module _ (set_order : List String → List String) where
  -- A set has the same elements in whichever order they come.
  abbrev pub KeepsTexts : Type 0
  KeepsTexts = (v : String) (ts : List String) → contains_text v (set_order ts) ≡ contains_text v ts

  severity_leb-max :
      (v : String) (ts : List String)
      → contains_text v ts ≡ true
      → severity_leb (some v) (max_of ts) ≡ true
  severity_leb-max v [] h = ground arith
  severity_leb-max v (t ∷ ts) h = ground (arith, member_of_max v t ts h)

  empty_leb : (v : String) (m : Option String) → str_eq v "" ≡ true → severity_leb (some v) m ≡ true
  empty_leb v none e = e
  empty_leb v (some w) e = ground (arith, e)

  of_row :
      KeepsTexts
      → (o : Option String) (rs : List HeatmapRow) (c : Option ℕ) (d : CellData)
      → let d' : CellData = record {
        case_ids = add_case_id c d.case_ids;
        severities = add_severity o d.severities;
      } in
        severity_leb o (max_of (set_order (gathered rs d').severities)) ≡ true
  of_row keeps none rs c d = refl
  of_row keeps (some v) rs c d = elim (Bool-cases (str_eq v "")) [
    | inl e ↦ empty_leb v _ e
    | inr e ↦
        let d' : CellData = record {
          case_ids = add_case_id c d.case_ids;
          severities = add_severity (some v) d.severities;
        } in
        severity_leb-max v (set_order (gathered rs d').severities) (
          keeps v (gathered rs d').severities
          ∙ contains_text-gathered v rs d' (rw e (contains_text-add_self v d.severities)))
  ]

  pub severities-gathered :
      KeepsTexts
      → (rs : List HeatmapRow) (d : CellData)
      → all
          (λ (r : HeatmapRow).
            severity_leb r.severity (max_of (set_order (gathered rs d).severities)))
          rs
        ≡ true
  severities-gathered keeps [] d = refl
  severities-gathered keeps (r ∷ rs) d = ground (
    arith,
    of_row keeps r.severity rs r.case_id d,
    severities-gathered keeps rs (add_to_cell r d),
  )
