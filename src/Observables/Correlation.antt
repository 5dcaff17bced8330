-- ===== src/Observables/Correlation.antt =====
-- Correlation across cases: `cross_case_count` and `find_correlating_cases`
-- (backend/src/services/observables.py).
use watari.Base.{
  Bool, Bool-cases, List, String, [], any, ap, arith, contains, false, inl, inr, keep_if, length,
  map, not, refl, subst, sym, true, ℕ, ◌&&◌, ◌==◌, ◌||◌, ◌∙◌, ◌∷◌, ◌≡◌,
}
use watari.Exec.{ok, pure, ◌>>=◌}
use watari.Observables.Service.{
  case_id_of, cross_case_count, distinct, find_correlating_cases, has_value,
}
use watari.Store.{Observable, ObservableType, Session}

contains-distinct : (x : ℕ) (xs : List ℕ) → contains x (distinct xs) ≡ contains x xs
unfolding distinct
contains-distinct x [] = refl
contains-distinct x (y ∷ ys) = elim (Bool-cases (contains y (distinct ys))) [
  | inl e ↦ rw e (here x y ys e (contains-distinct x ys) (contains-distinct y ys))
  | inr e ↦ rw e (ap (λ b. y == x || b) (contains-distinct x ys))
]
  where
    here :
        (a b : ℕ) (bs : List ℕ)
        → contains b (distinct bs) ≡ true
        → contains a (distinct bs) ≡ contains a bs
        → contains b (distinct bs) ≡ contains b bs
        → contains a (distinct bs) ≡ (b == a) || contains a bs
    here a b bs e h k = ground arith

-- No number is in the list twice.
abbrev pub HasNoDuplicates : List ℕ → Type 0
HasNoDuplicates [] = Unit
HasNoDuplicates (x ∷ xs) = (contains x xs ≡ false) × HasNoDuplicates xs

distinct-HasNoDuplicates : (xs : List ℕ) → HasNoDuplicates (distinct xs)
unfolding distinct
distinct-HasNoDuplicates [] = tt
distinct-HasNoDuplicates (x ∷ xs) = elim (Bool-cases (contains x (distinct xs))) [
  | inl e ↦ rw e (distinct-HasNoDuplicates xs)
  | inr e ↦ rw e (e, distinct-HasNoDuplicates xs)
]

contains-keep_if :
    (x : ℕ) (p : ℕ → Bool) (xs : List ℕ) → contains x (keep_if p xs) ≡ p x && contains x xs
contains-keep_if x p [] = ground arith
contains-keep_if x p (y ∷ ys) = elim (Bool-cases (y == x)) [
  | inl e ↦
      let same : y ≡ x = ground arith in
      subst (λ z. contains x (keep_if p (z ∷ ys)) ≡ p x && contains x (z ∷ ys)) (sym same)
        (ground (arith, contains-keep_if x p ys))
  | inr e ↦ ground (arith, contains-keep_if x p ys)
]

-- What is left of a list does not depend on whether its repetitions are dropped before or after.
distinct-keep_if : (p : ℕ → Bool) (xs : List ℕ) → distinct (keep_if p xs) ≡ keep_if p (distinct xs)
unfolding distinct
distinct-keep_if p [] = refl
distinct-keep_if p (x ∷ xs) = elim (Bool-cases (p x)) [
  | inl e ↦ ground (
    arith,
    distinct-keep_if p xs,
    contains-distinct x (keep_if p xs),
    contains-keep_if x p xs,
    contains-distinct x xs,
  )
  | inr e ↦ ground (arith, distinct-keep_if p xs)
]

map-keep_if :
    (q : Observable → Bool) (n : ℕ) (os : List Observable)
    → map case_id_of (keep_if (λ o. q o && not (o.case_id == n)) os)
      ≡ keep_if (λ c. not (c == n)) (map case_id_of (keep_if q os))
map-keep_if q n [] = refl
map-keep_if q n (o ∷ os) = ground (arith, map-keep_if q n os)

contains-map :
    (q : Observable → Bool) (c : ℕ) (os : List Observable)
    → contains c (map case_id_of (keep_if q os)) ≡ any (λ o. q o && o.case_id == c) os
contains-map q c [] = refl
contains-map q c (o ∷ os) = ground (arith, contains-map q c os)

-- `find_correlating_cases` returns no case twice, returns a case exactly if some observable of it
-- has the tenant, the type and the value, and leaves the session as it was.
pub find_correlating_cases_lem :
    (tenant_id : ℕ) (type : ObservableType) (value : String) (s : Session)
    → (cases : List ℕ) × (find_correlating_cases tenant_id type value s ≡ (ok cases, s))
      × HasNoDuplicates cases
      × ((c : ℕ)
          → contains c cases
            ≡ any (λ o. has_value tenant_id type value o && o.case_id == c) s.observables)
unfolding find_correlating_cases
find_correlating_cases_lem tenant_id type value s =
    let ids = map case_id_of (keep_if (has_value tenant_id type value) s.observables) in
    (
      distinct ids,
      refl,
      distinct-HasNoDuplicates ids,
      λ c. contains-distinct c ids ∙ contains-map (has_value tenant_id type value) c s.observables,
    )

-- `cross_case_count` is the number of the cases that `find_correlating_cases` returns, the
-- excluded one left out.
pub cross_case_count-find_correlating_cases :
    (tenant_id : ℕ) (type : ObservableType) (value : String) (n : ℕ) (s : Session)
    → cross_case_count tenant_id type value n s
      ≡ (do
        cases ← find_correlating_cases tenant_id type value
        pure (length (keep_if (λ c. not (c == n)) cases)))
          s
unfolding cross_case_count find_correlating_cases
cross_case_count-find_correlating_cases tenant_id type value n s =
    ap (λ ids. (ok (length ids), s))
      (ap distinct (map-keep_if (has_value tenant_id type value) n s.observables)
        ∙ distinct-keep_if (λ c. not (c == n))
            (map case_id_of (keep_if (has_value tenant_id type value) s.observables)))

-- `find_correlating_cases` returns no case twice, returns a case exactly if some observable of it
-- has the tenant, the type and the value, and leaves the session as it was; and `cross_case_count`
-- is the number of these cases, the excluded one left out.
pub correlation_lem :
    (tenant_id : ℕ) (type : ObservableType) (value : String) (n : ℕ) (s : Session)
    → (cases : List ℕ) × (find_correlating_cases tenant_id type value s ≡ (ok cases, s))
      × HasNoDuplicates cases
      × ((c : ℕ)
          → contains c cases
            ≡ any (λ o. has_value tenant_id type value o && o.case_id == c) s.observables)
      × (cross_case_count tenant_id type value n s
          ≡ (ok (length (keep_if (λ c. not (c == n)) cases)), s))
unfolding find_correlating_cases
correlation_lem tenant_id type value n s =
    let ids = map case_id_of (keep_if (has_value tenant_id type value) s.observables) in
    (
      distinct ids,
      refl,
      distinct-HasNoDuplicates ids,
      λ c. contains-distinct c ids ∙ contains-map (has_value tenant_id type value) c s.observables,
      cross_case_count-find_correlating_cases tenant_id type value n s,
    )
