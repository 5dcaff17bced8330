-- ===== src/Reports/Context.antt =====
-- What the templates of reports are rendered with (`_build_context` and `_build_activity_context` of
-- backend/src/services/reports.py). The dates `created_at` and `updated_at` of rows that have none in
-- the model are left out.
use watari.Base.{Bool, List, Option, String, keep_if, map, opt_eq, some, ℕ, ◌&&◌, ◌==◌}
use watari.Store.{
  Asset, AssetType, AttackMapping, AuditLog, Case, CaseOutcome, CaseSeverity, CaseStatus, Evidence,
  Note, Observable, ObservableType, Session, Task, TaskStatus, TimelineEntry, Tlp,
}
use watari.Timeline.Clustering.{sorted}

pub record CaseItem : Type 0 where
  pub id : ℕ
  pub case_number : ℕ
  pub title : String
  pub description : Option String
  pub status : CaseStatus
  pub severity : CaseSeverity
  pub outcome : Option CaseOutcome
  pub tags : List String
  pub resolved_at : Option ℕ
  pub closed_at : Option ℕ

pub record ObservableItem : Type 0 where
  pub type : ObservableType
  pub value : String
  pub tlp : Option Tlp
  pub is_ioc : Bool
  pub tags : List String
  pub description : Option String

pub record AssetItem : Type 0 where
  pub name : String
  pub type : AssetType
  pub ip_address : Option String
  pub domain : Option String
  pub is_compromised : Bool
  pub description : Option String

pub record EntryItem : Type 0 where
  pub event_timestamp : ℕ
  pub event_type : String
  pub category : Option String
  pub description : String
  pub is_automatic : Bool

pub record TaskItem : Type 0 where
  pub title : String
  pub status : TaskStatus
  pub description : Option String

pub record NoteItem : Type 0 where
  pub title : String
  pub content : String

pub record EvidenceItem : Type 0 where
  pub filename : String
  pub type : String
  pub sha256 : String
  pub size : ℕ
  pub integrity_verified : Option Bool

pub record AttackItem : Type 0 where
  pub tactic : String
  pub technique : String
  pub sub_technique : Option String

pub record AuditItem : Type 0 where
  pub created_at : ℕ
  pub action : String
  pub resource_type : String
  pub user_id : ℕ
  pub details : String

pub record ActivityItem : Type 0 where
  pub event_timestamp : ℕ
  pub event_type : String
  pub description : String
  pub actor_id : Option ℕ

-- The two dicts.
pub data Context : Type 0 where
  investigation :
      (case : CaseItem) (observables : List ObservableItem) (assets : List AssetItem)
      (timeline : List EntryItem) (tasks : List TaskItem) (notes : List NoteItem)
      (evidence : List EvidenceItem) (attack : List AttackItem)
      → Context
  activity :
      (title : String) (case_number : ℕ) (audit_entries : List AuditItem)
      (timeline_entries : List ActivityItem)
      → Context

abbrev pub case_item : Case → CaseItem
case_item c = record {
  id = c.id;
  case_number = c.case_number;
  title = c.title;
  description = c.description;
  status = c.status;
  severity = c.severity;
  outcome = c.outcome;
  tags = c.tags;
  resolved_at = c.resolved_at;
  closed_at = c.closed_at;
}

abbrev pub observable_item : Observable → ObservableItem
observable_item o = record {
  type = o.type;
  value = o.value;
  tlp = o.tlp;
  is_ioc = o.is_ioc;
  tags = o.tags;
  description = o.description;
}

abbrev pub asset_item : Asset → AssetItem
asset_item a = record {
  name = a.name;
  type = a.type;
  ip_address = a.ip_address;
  domain = a.domain;
  is_compromised = a.is_compromised;
  description = a.description;
}

abbrev pub entry_item : TimelineEntry → EntryItem
entry_item e = record {
  event_timestamp = e.event_timestamp;
  event_type = e.event_type;
  category = e.category;
  description = e.description;
  is_automatic = e.is_automatic;
}

abbrev pub evidence_item : Evidence → EvidenceItem
evidence_item e = record {
  filename = e.filename;
  type = e.type;
  sha256 = e.file_hash_sha256;
  size = e.file_size;
  integrity_verified = e.integrity_verified;
}

abbrev pub task_item : Task → TaskItem
task_item t = record { title = t.title; status = t.status; description = t.description }

abbrev pub note_item : Note → NoteItem
note_item n = record { title = n.title; content = n.content }

abbrev pub attack_item : AttackMapping → AttackItem
attack_item m = record {
  tactic = m.tactic_id;
  technique = m.technique_id;
  sub_technique = m.sub_technique_id;
}

abbrev pub audit_item : AuditLog → AuditItem
audit_item e = record {
  created_at = e.created_at;
  action = e.action;
  resource_type = e.resource_type;
  user_id = e.user_id;
  details = e.details;
}

abbrev pub activity_item : TimelineEntry → ActivityItem
activity_item e = record {
  event_timestamp = e.event_timestamp;
  event_type = e.event_type;
  description = e.description;
  actor_id = e.actor_id;
}

-- The entries of the case, by their dates.
abbrev pub timeline_of : ℕ → Session → List TimelineEntry
timeline_of case_id s = sorted (keep_if (λ (e : TimelineEntry). e.case_id == case_id) s.entries)

unfoldable pub build_context : Case → Session → Context
unfolding sorted
build_context c s =
    investigation (case_item c)
      (map observable_item (keep_if (λ (o : Observable). o.case_id == c.id) s.observables))
      (map asset_item (keep_if (λ (a : Asset). a.case_id == c.id) s.assets))
      (map entry_item (timeline_of c.id s))
      (map task_item (keep_if (λ (t : Task). t.case_id == c.id) s.tasks))
      (map note_item (keep_if (λ (n : Note). n.case_id == c.id) s.notes))
      (map evidence_item (keep_if (λ (e : Evidence). e.case_id == c.id) s.evidence))
      (map attack_item
        (keep_if (λ (m : AttackMapping). opt_eq m.case_id (some c.id)) s.attack_mappings))

-- The log is in the order of its dates.
unfoldable pub build_activity_context : Case → Session → Context
unfolding sorted
build_activity_context c s =
    activity c.title c.case_number
      (map audit_item (
        keep_if (λ (e : AuditLog). e.tenant_id == c.tenant_id && opt_eq e.resource_id (some c.id))
          s.audit_logs))
      (map activity_item (timeline_of c.id s))
