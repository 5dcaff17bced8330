-- ===== src/Timeline/Automatic.antt =====
-- The entries that the services write themselves, under the operations of analysts
-- (backend/src/services/timeline.py).
use watari.Base.{
  Bool, Bool-cases, List, Option-cases, ap, arith, false, inl, inr, is_empty, not, refl, some,
  subst, sym, true, ℕ, ◌+◌, ◌==◌, ◌∙◌, ◌≡◌, ◌≢◌,
}
use watari.Table.{
  add_row, find-add_old, find-delete_ne, find-save_ne, find-save_self, find_row, key-find, save_row,
}
use watari.Timeline.Service.{
  TimelineEntryCreate, TimelineEntryUpdate, apply_entry, create_manual_entry, delete_entry,
  get_entry_or_404, manual_entry, replace_asset_links, replace_if_set, update_entry,
}
use watari.Cases.Update.{Patch, is_null}
use watari.Cases.Create.{get_case_or_404}
use watari.Exec.{Action, Result-cases, when, ◌>>◌}
use watari.Store.{Session, TimelineEntry, case_key, entry_key}

-- The entry is the same but for its text, category and metadata.
abbrev pub IsSameEvent : TimelineEntry → TimelineEntry → Type 0
IsSameEvent e e' =
    (e'.is_automatic ≡ e.is_automatic)
    × (e'.tenant_id ≡ e.tenant_id)
    × (e'.case_id ≡ e.case_id)
    × (e'.event_type ≡ e.event_type)
    × (e'.event_timestamp ≡ e.event_timestamp)
    × (e'.actor_id ≡ e.actor_id)

replace_asset_links-entries :
    (entry : TimelineEntry) (ids : List ℕ) (s : Session)
    → (replace_asset_links entry ids s).1.entries ≡ s.entries
unfolding replace_asset_links
replace_asset_links-entries entry ids s = ground arith

when_replaced-entries :
    (b : Bool) (entry : TimelineEntry) (ids : List ℕ) (s : Session)
    → (when b (replace_asset_links entry ids) s).1.entries ≡ s.entries
when_replaced-entries true entry ids s = replace_asset_links-entries entry ids s
when_replaced-entries false entry ids s = refl

replace_if_set-entries :
    (p : Patch (List ℕ)) (entry : TimelineEntry) (s : Session)
    → (replace_if_set p entry s).1.entries ≡ s.entries
replace_if_set-entries Patch.unset entry s = refl
replace_if_set-entries Patch.null entry s = refl
replace_if_set-entries (Patch.set ids) entry s = replace_asset_links-entries entry ids s

-- What follows in a `do` block only reads the entries.
then_get-entries :
    (m : Action (Unit {0})) (k : ℕ) (s : Session)
    → (m s).1.entries ≡ s.entries
    → ((m >> get_entry_or_404 k) s).1.entries ≡ s.entries
unfolding get_entry_or_404
then_get-entries m k s h = elim (Result-cases (m s).0) [
  | inl (a, e) ↦ ground arith
  | inr (x, e) ↦ ground arith
]

module _ (k : ℕ) (e : TimelineEntry) (s : Session)
    (here : find_row entry_key k s.entries ≡ some e) where
  create_manual_entry_keeps :
      (case_id actor : ℕ) (p : TimelineEntryCreate)
      → find_row entry_key k (create_manual_entry case_id actor p s).1.entries ≡ some e
  unfolding create_manual_entry get_case_or_404
  create_manual_entry_keeps case_id actor p =
      elim (Option-cases (find_row case_key case_id s.cases)) [
        | inl none_ ↦ ground arith
        | inr (c, found) ↦
            let entry = manual_entry c actor p s.next_id in
            let linked = not (is_empty p.linked_asset_ids) in
            let s1 = record s {
              next_id = s.next_id + 1;
              entries = add_row entry_key entry s.entries;
            } in
            let after =
              then_get-entries (when linked (replace_asset_links entry p.linked_asset_ids))
                s.next_id s1 (when_replaced-entries linked entry p.linked_asset_ids s1) in
            let stored : (create_manual_entry case_id actor p s).1.entries
                ≡ add_row entry_key entry s.entries =
              ground (arith, after) in
            rw stored (find-add_old entry_key k entry s.entries here)
      ]

  saved_keeps :
      (id : ℕ) (u : TimelineEntryUpdate) (x : TimelineEntry)
      → find_row entry_key id s.entries ≡ some x
      → (e' : TimelineEntry) × (find_row entry_key k
            (save_row entry_key (apply_entry u x) s.entries)
          ≡ some e')
        × IsSameEvent e e'
  unfolding apply_entry
  saved_keeps id u x found = elim (Bool-cases (k == id)) [
    | inr differs ↦
        let own : x.id ≡ id = key-find entry_key id s.entries found in
        let other : x.id ≢ k = λ same. ground arith in
        let kept_row = find-save_ne entry_key k (apply_entry u x) s.entries other in
        (e, kept_row ∙ here, (refl, refl, refl, refl, refl, refl))
    | inl equal ↦
        let same : k ≡ id = ground arith in
        let it : some x ≡ some e =
          sym found ∙ subst (λ j. find_row entry_key j s.entries ≡ some e) same here in
        let x_e : x ≡ e = ground arith in
        let own : x.id ≡ k = key-find entry_key id s.entries found ∙ sym same in
        let there : find_row entry_key x.id s.entries ≡ some e =
          subst (λ j. find_row entry_key j s.entries ≡ some e) (sym own) here in
        let saved =
          subst
            (λ j.
              find_row entry_key j (save_row entry_key (apply_entry u x) s.entries)
              ≡ some (apply_entry u x))
            own (find-save_self entry_key (apply_entry u x) s.entries there) in
        (
          apply_entry u x,
          saved,
          (
            ap (λ y. y.is_automatic) x_e,
            ap (λ y. y.tenant_id) x_e,
            ap (λ y. y.case_id) x_e,
            ap (λ y. y.event_type) x_e,
            ap (λ y. y.event_timestamp) x_e,
            ap (λ y. y.actor_id) x_e,
          ),
        )
  ]

  update_entry_keeps :
      (id : ℕ) (u : TimelineEntryUpdate)
      → (e' : TimelineEntry) × (find_row entry_key k (update_entry id u s).1.entries ≡ some e')
        × IsSameEvent e e'
  unfolding update_entry get_entry_or_404
  update_entry_keeps id u = elim (Option-cases (find_row entry_key id s.entries)) [
    | inl missing ↦ (e, ground arith, (refl, refl, refl, refl, refl, refl))
    | inr (x, found) ↦
        let s1 = record s { entries = save_row entry_key (apply_entry u x) s.entries } in
        let after =
          then_get-entries (replace_if_set u.linked_asset_ids x) id s1
            (replace_if_set-entries u.linked_asset_ids x s1) in
        let stored : (update_entry id u s).1.entries
            ≡ save_row entry_key (apply_entry u x) s.entries =
          elim (Bool-cases (is_null u.description)) [
            | inl refused ↦ ground arith
            | inr allowed ↦ ground (arith, after)
          ] in
        rw stored (saved_keeps id u x found)
  ]

  delete_entry_keeps :
      (id : ℕ) → e.is_automatic ≡ true → find_row entry_key k (delete_entry id s).1.entries ≡ some e
  unfolding delete_entry get_entry_or_404
  delete_entry_keeps id automatic = elim (Option-cases (find_row entry_key id s.entries)) [
    | inl missing ↦ ground arith
    | inr (x, found) ↦ elim (Bool-cases x.is_automatic) [
      | inl same ↦ ground arith
      | inr manual ↦
          let other : k ≢ id = λ same.
            let it : some x ≡ some e =
              sym found ∙ subst (λ j. find_row entry_key j s.entries ≡ some e) same here in
            ground arith in
          let left = find-delete_ne entry_key k id s.entries other in ground arith
    ]
  ]

-- An automatic entry stays in the table as it is when an entry is created and when any entry is
-- deleted; when an entry is updated it stays, with the same event, date, actor, case and tenant,
-- and still automatic.
pub automatic_entries_stay :
    (k : ℕ) (e : TimelineEntry) (s : Session)
    → find_row entry_key k s.entries ≡ some e
    → e.is_automatic ≡ true
    → ((case_id actor : ℕ) (p : TimelineEntryCreate)
        → find_row entry_key k (create_manual_entry case_id actor p s).1.entries ≡ some e)
      × ((id : ℕ) (u : TimelineEntryUpdate)
          → (e' : TimelineEntry) × (find_row entry_key k (update_entry id u s).1.entries ≡ some e')
            × IsSameEvent e e')
      × ((id : ℕ) → find_row entry_key k (delete_entry id s).1.entries ≡ some e)
automatic_entries_stay k e s here automatic = (
  create_manual_entry_keeps k e s here,
  update_entry_keeps k e s here,
  λ id. delete_entry_keeps k e s here id automatic,
)
