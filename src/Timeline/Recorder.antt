-- ===== src/Timeline/Recorder.antt =====
-- `record_event` (backend/src/services/timeline_recorder.py), by which the other services write the
-- automatic entries of the timeline.
use watari.Base.{Option, String, arith, some, true, ℕ, ◌+◌, ◌≡◌}
use watari.Exec.{Action, fresh_id, modify, now, ok, pure, ◌>>=◌, ◌>>◌}
use watari.Realtime.{Event, publish_case}
use watari.Store.{Metadata, Session, TimelineEntry, entry_key, kept}
use watari.Table.{add_row}

-- The arguments of `record_event`; `event_timestamp` is always left to its default.
pub record Recorded : Type 0 where
  pub tenant_id : ℕ
  pub case_id : ℕ
  pub event_type : String
  pub description : String
  pub category : Option String
  pub actor_id : Option ℕ
  pub metadata : Metadata

abbrev pub automatic_entry : Recorded → ℕ → ℕ → TimelineEntry
automatic_entry e id t = record {
  id = id;
  tenant_id = e.tenant_id;
  case_id = e.case_id;
  event_type = e.event_type;
  event_timestamp = t;
  description = e.description;
  category = e.category;
  actor_id = e.actor_id;
  is_automatic = true;
  metadata = e.metadata;
}

abbrev pub event_of : Recorded → ℕ → Event
event_of e id = record {
  type = e.event_type;
  entry_id = some id;
  description = e.description;
  category = e.category;
  metadata = e.metadata;
  actor_id = e.actor_id;
}

unfoldable pub record_event : Recorded → Action TimelineEntry
unfolding add_row publish_case
record_event e = do
  t ← now
  id ← fresh_id
  let entry = automatic_entry e id t
  modify (λ s. record s { entries = add_row entry_key entry s.entries })
  publish_case e.case_id e.tenant_id (event_of e id)
  pure entry

module _ (e : Recorded) (s : Session) where
  pub record_event-kept : kept (record_event e s).1 ≡ kept s
  unfolding record_event
  record_event-kept = ground arith

  -- Recording an event appends its entry, and never raises, whether Redis is up or not.
  pub record_event-entries :
      (record_event e s).1.entries
      ≡ add_row entry_key (automatic_entry e s.next_id (s.world.clock s.clock_calls)) s.entries
  unfolding record_event
  record_event-entries = ground arith

  pub record_event-ok :
      (record_event e s).0 ≡ ok (automatic_entry e s.next_id (s.world.clock s.clock_calls))
  unfolding record_event
  record_event-ok = ground arith

  pub record_event-observables : (record_event e s).1.observables ≡ s.observables
  unfolding record_event
  record_event-observables = ground arith

  pub record_event-next_id : (record_event e s).1.next_id ≡ s.next_id + 1
  unfolding record_event
  record_event-next_id = ground arith

  pub record_event-tasks : (record_event e s).1.tasks ≡ s.tasks
  unfolding record_event
  record_event-tasks = ground arith

  pub record_event-assets : (record_event e s).1.assets ≡ s.assets
  unfolding record_event
  record_event-assets = ground arith
