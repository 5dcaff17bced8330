-- ===== src/Search/Hits.antt =====
-- What a search finds (backend/src/services/search.py).
use watari.Base.{
  All, All-append, All-map, All-take, Bool, Bool-cases, List, [], arith, false, inl, inr, keep_if,
  length, length-take, map, refl, subst, suc, sym, take, true, zero, ℕ, ◌∈◌, ◌∷◌, ◌≡◌, ◌≤◌, ◌⊎◌,
}
use watari.Search.Service.{
  case, observable, asset, note, alert, Score, SearchEntityType, SearchHit, SearchRequest, Texts,
  alert_hit, all_hits, asset_hit, case_hit, full, half, hit_leb, hits_in, insert_hit, is_searched,
  matches_alert, matches_asset, matches_case, matches_note, matches_observable, note_hit,
  observable_hit, search, sorted_hits,
}
use watari.Store.{Session}

module _ (texts : Texts) where
  -- The hit is that of a row of the list that matches.
  abbrev pub IsHitIn : {A : Type 0} → (A → Bool) → (A → SearchHit) → List A → SearchHit → Type 0
  IsHitIn {A} matches hit rows h = (a : A) × (a ∈ rows) × (matches a ≡ true) × (h ≡ hit a)

  -- The hit is that of a row that matches, in one of the tables that the request names.
  abbrev pub IsHit : ℕ → SearchRequest → Session → SearchHit → Type 0
  IsHit t r s h =
      (is_searched texts r h.entity_type ≡ true)
      × (IsHitIn (matches_case texts t r) (case_hit texts r) s.cases h
          ⊎ (IsHitIn (matches_observable texts t r) (observable_hit texts r) s.observables h
              ⊎ (IsHitIn (matches_asset texts t r) (asset_hit texts r) s.assets h
                  ⊎ (IsHitIn (matches_note texts t r) (note_hit texts r) s.notes h
                      ⊎ IsHitIn (matches_alert texts t r) (alert_hit texts r) s.alerts h))))

  -- No hit scores more than the one before.
  abbrev pub is_below : Score → Score → Bool
  is_below half k = true
  is_below full full = true
  is_below full half = false

  abbrev pub StartsBelow : Score → List SearchHit → Type 0
  StartsBelow score [] = Unit {0}
  StartsBelow score (k ∷ hits) = is_below k.score score ≡ true

  abbrev pub IsRanked : List SearchHit → Type 0
  IsRanked [] = Unit {0}
  IsRanked (h ∷ hits) = StartsBelow h.score hits × IsRanked hits

  rows-IsHitIn :
      {A : Type 0} (matches : A → Bool) (hit : A → SearchHit) (rows : List A)
      → All (IsHitIn matches hit rows) (map hit (keep_if matches rows))
  rows-IsHitIn matches hit [] = tt
  rows-IsHitIn matches hit (a ∷ rows) =
      let later =
        All-map (map hit (keep_if matches rows)) (λ h (x, i, m, e). (x, inr i, m, e))
          (rows-IsHitIn matches hit rows) in
      elim (Bool-cases (matches a)) [
        | inl e ↦ rw e ((a, inl refl, e, refl), later)
        | inr e ↦ rw e later
      ]

  insert_hit-All :
      (P : SearchHit → Type 0) (h : SearchHit) (hits : List SearchHit)
      → P h
      → All P hits
      → All P (insert_hit texts h hits)
  unfolding insert_hit
  insert_hit-All P h [] p a = (p, tt)
  insert_hit-All P h (k ∷ hits) p (q, a) = elim (Bool-cases (hit_leb texts h k)) [
    | inl e ↦ rw e (p, (q, a))
    | inr e ↦ rw e (q, insert_hit-All P h hits p a)
  ]

  sorted_hits-All :
      (P : SearchHit → Type 0) (hits : List SearchHit) → All P hits → All P (sorted_hits texts hits)
  unfolding sorted_hits
  sorted_hits-All P [] a = tt
  sorted_hits-All P (h ∷ hits) (p, a) =
      insert_hit-All P h (sorted_hits texts hits) p (sorted_hits-All P hits a)

  leb_below : (h k : SearchHit) → hit_leb texts h k ≡ true → is_below k.score h.score ≡ true
  leb_below h k e =
      by_score h.score k.score (texts.leb_text (texts.lower h.title) (texts.lower k.title)) e
    where
      by_score :
          (a b : Score) (l : Bool)
          → (elim a [
            | full ↦ elim b [ full ↦ l | half ↦ true ]
            | half ↦ elim b [ full ↦ false | half ↦ l ]
          ])
            ≡ true
          → is_below b a ≡ true
      by_score full full l e = refl
      by_score full half l e = refl
      by_score half full l e = absurd (ground (arith, e))
      by_score half half l e = refl

  above_of_not_leb : (h k : SearchHit) → hit_leb texts h k ≡ false → is_below h.score k.score ≡ true
  above_of_not_leb h k e =
      by_score h.score k.score (texts.leb_text (texts.lower h.title) (texts.lower k.title)) e
    where
      by_score :
          (a b : Score) (l : Bool)
          → (elim a [
            | full ↦ elim b [ full ↦ l | half ↦ true ]
            | half ↦ elim b [ full ↦ false | half ↦ l ]
          ])
            ≡ false
          → is_below a b ≡ true
      by_score full full l e = refl
      by_score full half l e = absurd (ground (arith, e))
      by_score half full l e = refl
      by_score half half l e = refl

  insert_hit-StartsBelow :
      (score : Score) (h : SearchHit) (hits : List SearchHit)
      → is_below h.score score ≡ true
      → StartsBelow score hits
      → StartsBelow score (insert_hit texts h hits)
  unfolding insert_hit
  insert_hit-StartsBelow score h [] b a = b
  insert_hit-StartsBelow score h (k ∷ hits) b a = elim (Bool-cases (hit_leb texts h k)) [
    | inl e ↦ rw e b
    | inr e ↦ rw e a
  ]

  insert_hit-IsRanked :
      (h : SearchHit) (hits : List SearchHit) → IsRanked hits → IsRanked (insert_hit texts h hits)
  unfolding insert_hit
  insert_hit-IsRanked h [] a = (tt, tt)
  insert_hit-IsRanked h (k ∷ hits) (b, a) = elim (Bool-cases (hit_leb texts h k)) [
    | inl e ↦ rw e (leb_below h k e, (b, a))
    | inr e ↦ rw e (
      insert_hit-StartsBelow k.score h hits (above_of_not_leb h k e) b,
      insert_hit-IsRanked h hits a,
    )
  ]

  sorted_hits-IsRanked : (hits : List SearchHit) → IsRanked (sorted_hits texts hits)
  unfolding sorted_hits
  sorted_hits-IsRanked [] = tt
  sorted_hits-IsRanked (h ∷ hits) =
      insert_hit-IsRanked h (sorted_hits texts hits) (sorted_hits-IsRanked hits)

  take-IsRanked : (n : ℕ) (hits : List SearchHit) → IsRanked hits → IsRanked (take n hits)
  take-IsRanked zero hits a = tt
  take-IsRanked (suc n) [] a = tt
  take-IsRanked (suc zero) (h ∷ hits) (b, a) = (tt, tt)
  take-IsRanked (suc (suc n)) (h ∷ []) (b, a) = (tt, tt)
  take-IsRanked (suc (suc n)) (h ∷ k ∷ hits) (b, a) = (b, take-IsRanked (suc n) (k ∷ hits) a)

  -- The hits of a table, as hits of the search.
  hits_in-All :
      {A : Type 0} (t : ℕ) (r : SearchRequest) (s : Session) (e : SearchEntityType)
      (matches : A → Bool) (hit : A → SearchHit) (rows : List A)
      → ((h : SearchHit)
          → is_searched texts r e ≡ true
          → IsHitIn matches hit rows h
          → IsHit t r s h)
      → All (IsHit t r s) (hits_in texts r e matches hit rows)
  hits_in-All t r s e matches hit rows f = elim (Bool-cases (is_searched texts r e)) [
    | inr off ↦ rw off tt
    | inl on ↦ rw on (
        All-map (map hit (take r.limit (keep_if matches rows))) (λ h. f h on)
          (taken r.limit (keep_if matches rows) (rows-IsHitIn matches hit rows)))
  ]
    where
      taken :
          (n : ℕ) (xs : List _)
          → All (IsHitIn matches hit rows) (map hit xs)
          → All (IsHitIn matches hit rows) (map hit (take n xs))
      taken zero xs a = tt
      taken (suc n) [] a = tt
      taken (suc n) (x ∷ xs) (p, a) = (p, taken n xs a)

  all_hits-All :
      (t : ℕ) (r : SearchRequest) (s : Session) → All (IsHit t r s) (all_hits texts t r s)
  unfolding all_hits
  all_hits-All t r s =
      All-append (IsHit t r s) _ _
        (hits_in-All t r s case (matches_case texts t r) (case_hit texts r) s.cases
          (λ h on (a, i, m, q). (named h q on, inl (a, i, m, q))))
        (All-append (IsHit t r s) _ _
          (hits_in-All t r s observable (matches_observable texts t r) (observable_hit texts r)
            s.observables (λ h on (a, i, m, q). (named h q on, inr (inl (a, i, m, q)))))
          (All-append (IsHit t r s) _ _
            (hits_in-All t r s asset (matches_asset texts t r) (asset_hit texts r) s.assets
              (λ h on (a, i, m, q). (named h q on, inr (inr (inl (a, i, m, q))))))
            (All-append (IsHit t r s) _ _
              (hits_in-All t r s note (matches_note texts t r) (note_hit texts r) s.notes
                (λ h on (a, i, m, q). (named h q on, inr (inr (inr (inl (a, i, m, q)))))))
              (hits_in-All t r s alert (matches_alert texts t r) (alert_hit texts r) s.alerts
                (λ h on (a, i, m, q). (named h q on, inr (inr (inr (inr ((a, i, m, q)))))))))))
    where
      named :
          (h : SearchHit) {k : SearchHit}
          → h ≡ k
          → is_searched texts r k.entity_type ≡ true
          → is_searched texts r h.entity_type ≡ true
      named h q on = subst (λ (x : SearchHit). is_searched texts r x.entity_type ≡ true) (sym q) on

  -- A search returns at most `limit` hits and counts them; each is the hit of a row of the tenant
  -- that matches the query, in a table that the request names; and no hit scores more than one
  -- before it.
  pub search_lem :
      (t : ℕ) (r : SearchRequest) (s : Session)
      → let found = search texts t r s in
        (length found.hits ≤ r.limit)
        × (found.total_hits ≡ length found.hits)
        × All (IsHit t r s) found.hits
        × IsRanked found.hits
  unfolding search
  search_lem t r s =
      let sorted = sorted_hits texts (all_hits texts t r s) in
      (
        length-take r.limit sorted,
        refl,
        All-take (IsHit t r s) r.limit sorted
            (sorted_hits-All (IsHit t r s) (all_hits texts t r s) (all_hits-All t r s)),
        take-IsRanked r.limit sorted (sorted_hits-IsRanked (all_hits texts t r s)),
      )
