-- ===== src/Search/Service.antt =====
-- The search over five tables (backend/src/services/search.py, schemas/search.py). The database gives the
-- rows of a query without an order in the order of insertion.
use Prim.Native.String
use watari.Base.{
  Bool, List, Option, String, [], any, false, if◌then◌else◌, keep_if, length, map, none, some,
  str_eq, take, true, ℕ, ◌&&◌, ◌++◌, ◌+◌, ◌-◌, ◌==◌, ◌||◌, ◌∷◌,
}
use watari.Store.{
  Alert, AlertStatus, Asset, AssetType, Case, CaseSeverity, CaseStatus, Note, Observable,
  ObservableType, Session, Tlp, type_text,
}
use Prim.Native.Nat.{min}
use watari.Assets.Service.{type_name}

-- What is used of Python and of PostgreSQL on texts: `strip`, `lower`, `in`, `find`, `len`, slices,
-- `ILIKE`, and the order of texts.
pub record Texts : Type 0 where
  pub strip : String → String
  pub lower : String → String
  pub is_in : (needle text : String) → Bool
  pub find : (needle text : String) → Option ℕ
  pub len : String → ℕ
  pub slice : (start end : ℕ) → String → String
  pub ilike : (value pattern : String) → Bool
  pub leb_text : String → String → Bool

-- `ocsf_severity_caption` (backend/src/schemas/alerts.py)
abbrev pub ocsf_severity_caption : ℕ → String
ocsf_severity_caption severity_id =
    if severity_id == 0
    then "Unknown"
    else if severity_id == 1
    then "Informational"
    else if severity_id == 2
    then "Low"
    else if severity_id == 3
    then "Medium"
    else if severity_id == 4
    then "High"
    else if severity_id == 5
    then "Critical"
    else if severity_id == 6
    then "Fatal"
    else "Other"

pub data SearchEntityType : Type 0 where
  case observable asset note alert : SearchEntityType

abbrev pub entity_index : SearchEntityType → ℕ
entity_index case = 0
entity_index observable = 1
entity_index asset = 2
entity_index note = 3
entity_index alert = 4

pub record SearchRequest : Type 0 where
  pub query : String
  pub entity_types : List SearchEntityType
  pub limit : ℕ

-- 0.5 and 1.0
pub data Score : Type 0 where
  half full : Score

-- The dict `extra`.
pub data Extra : Type 0 where
  of_case : (case_number : ℕ) (severity : CaseSeverity) (status : CaseStatus) → Extra
  of_observable : (type : ObservableType) (tlp : Option Tlp) (is_ioc : Bool) → Extra
  of_asset : (type : AssetType) (is_compromised : Bool) → Extra
  of_note : Extra
  of_alert :
      (source_product : String) (severity_id : ℕ) (severity : String) (status : AlertStatus) → Extra

pub record SearchHit : Type 0 where
  pub entity_type : SearchEntityType
  pub entity_id : ℕ
  pub case_id : Option ℕ
  pub title : String
  pub snippet : String
  pub extra : Extra
  pub score : Score

pub record SearchResponse : Type 0 where
  pub query : String
  pub total_hits : ℕ
  pub hits : List SearchHit

-- `a or b`, where the empty text is false.
abbrev pub text_or : Option String → String → String
text_or none b = b
text_or (some a) b = if str_eq a "" then b else a

-- `column.ilike(pattern)`, where NULL matches nothing.
abbrev pub optional_like : (String → Bool) → Option String → Bool
optional_like like none = false
optional_like like (some v) = like v

module _ (texts : Texts) where
  abbrev pub pattern_of : SearchRequest → String
  pattern_of r = String.◌++◌ "%" (String.◌++◌ (texts.strip r.query) "%")

  abbrev pub like : SearchRequest → String → Bool
  like r v = texts.ilike v (pattern_of r)

  -- `request.query.lower() in value.lower()`
  abbrev pub score_of : SearchRequest → String → Score
  score_of r v = if texts.is_in (texts.lower r.query) (texts.lower v) then full else half

  abbrev pub matches_case : ℕ → SearchRequest → Case → Bool
  matches_case t r c = c.tenant_id == t && (like r c.title || optional_like (like r) c.description)

  abbrev pub matches_observable : ℕ → SearchRequest → Observable → Bool
  matches_observable t r o = o.tenant_id == t && like r o.value

  abbrev pub matches_asset : ℕ → SearchRequest → Asset → Bool
  matches_asset t r a =
      a.tenant_id == t
      && (like r a.name || (optional_like (like r) a.ip_address || optional_like (like r) a.domain))

  abbrev pub matches_note : ℕ → SearchRequest → Note → Bool
  matches_note t r n = n.tenant_id == t && (like r n.title || like r n.content)

  abbrev pub matches_alert : ℕ → SearchRequest → Alert → Bool
  matches_alert t r a = a.tenant_id == t && (like r a.title || optional_like (like r) a.message)

  abbrev pub case_hit : SearchRequest → Case → SearchHit
  case_hit r c = record {
    entity_type = case;
    entity_id = c.id;
    case_id = some c.id;
    title = c.title;
    snippet = texts.slice 0 200 (text_or c.description c.title);
    extra = of_case c.case_number c.severity c.status;
    score = score_of r c.title;
  }

  abbrev pub observable_hit : SearchRequest → Observable → SearchHit
  observable_hit r o = record {
    entity_type = observable;
    entity_id = o.id;
    case_id = some o.case_id;
    title = o.value;
    snippet = String.◌++◌ (type_text o.type) (String.◌++◌ ": " o.value);
    extra = of_observable o.type o.tlp o.is_ioc;
    score = score_of r o.value;
  }

  abbrev pub asset_hit : SearchRequest → Asset → SearchHit
  asset_hit r a = record {
    entity_type = asset;
    entity_id = a.id;
    case_id = some a.case_id;
    title = a.name;
    snippet = String.◌++◌ (type_name a.type) (String.◌++◌ ": " a.name);
    extra = of_asset a.type a.is_compromised;
    score = full;
  }

  -- The part of a note around the query: without it, `idx` is -1, and the slice is `content[0:200]`.
  abbrev pub note_snippet : SearchRequest → String → String
  note_snippet r content = elim (texts.find (texts.lower r.query) (texts.lower content)) [
    | none ↦ texts.slice 0 (min (texts.len content) 200) content
    | some idx ↦ texts.slice (idx - 40) (min (texts.len content) (idx + 160)) content
  ]

  abbrev pub note_hit : SearchRequest → Note → SearchHit
  note_hit r n = record {
    entity_type = note;
    entity_id = n.id;
    case_id = some n.case_id;
    title = n.title;
    snippet = note_snippet r n.content;
    extra = of_note;
    score = full;
  }

  abbrev pub alert_hit : SearchRequest → Alert → SearchHit
  alert_hit r a = record {
    entity_type = alert;
    entity_id = a.id;
    case_id = a.promoted_to_case_id;
    title = a.title;
    snippet = texts.slice 0 200 (text_or a.message a.title);
    extra = of_alert a.source_product a.severity_id (ocsf_severity_caption a.severity_id) a.status;
    score = full;
  }

  -- `-h.score, h.title.lower()`
  abbrev pub hit_leb : SearchHit → SearchHit → Bool
  hit_leb h k = elim h.score [
    | full ↦ elim k.score [
      | full ↦ texts.leb_text (texts.lower h.title) (texts.lower k.title)
      | half ↦ true
    ]
    | half ↦ elim k.score [
      | full ↦ false
      | half ↦ texts.leb_text (texts.lower h.title) (texts.lower k.title)
    ]
  ]

  unfoldable pub insert_hit : SearchHit → List SearchHit → List SearchHit
  insert_hit h [] = h ∷ []
  insert_hit h (k ∷ hits) =
      let rest = insert_hit h hits in if hit_leb h k then h ∷ k ∷ hits else k ∷ rest

  -- `hits.sort(key=…)`
  unfoldable pub sorted_hits : List SearchHit → List SearchHit
  unfolding insert_hit
  sorted_hits [] = []
  sorted_hits (h ∷ hits) = insert_hit h (sorted_hits hits)

  abbrev pub is_searched : SearchRequest → SearchEntityType → Bool
  is_searched r e = any (λ x. entity_index x == entity_index e) r.entity_types

  -- The hits of one table: the rows that match, up to the limit.
  abbrev pub hits_in :
      {A : Type 0}
      → SearchRequest
      → SearchEntityType
      → (A → Bool)
      → (A → SearchHit)
      → List A
      → List SearchHit
  hits_in r e matches hit rows =
      if is_searched r e then map hit (take r.limit (keep_if matches rows)) else []

  unfoldable pub all_hits : ℕ → SearchRequest → Session → List SearchHit
  all_hits t r s =
      hits_in r case (matches_case t r) (case_hit r) s.cases
      ++ (hits_in r observable (matches_observable t r) (observable_hit r) s.observables
          ++ (hits_in r asset (matches_asset t r) (asset_hit r) s.assets
              ++ (hits_in r note (matches_note t r) (note_hit r) s.notes
                  ++ hits_in r alert (matches_alert t r) (alert_hit r) s.alerts)))

  unfoldable pub search : ℕ → SearchRequest → Session → SearchResponse
  unfolding all_hits sorted_hits
  search t r s =
      let hits = take r.limit (sorted_hits (all_hits t r s)) in
      record { query = r.query; total_hits = length hits; hits = hits }
