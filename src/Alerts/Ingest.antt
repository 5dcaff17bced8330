-- ===== src/Alerts/Ingest.antt =====
-- Ingestion and deduplication (backend/src/services/alerts.py, schemas/alerts.py).
use Prim.Native.String
use watari.Base.{
  Bool, Option, String, false, if◌then◌else◌, keep_if, leb, none, not, some, str_eq, true, ℕ, ◌&&◌,
  ◌==◌,
}
use watari.Exec.{
  Action, data_error, fresh_id, gets, http, modify, ok, or_raise, pure, raise_if,
  scalar_one_or_none, ◌>>=◌, ◌>>◌,
}
use watari.Modules.Dispatch.{Installed, fire}
use watari.Store.{Alert, AlertStatus, OcsfPayload, PlatformEvent, Session, alert_key}
use watari.Table.{add_row, find_row}

-- `DetectionFindingIngest`, by the fields that the service reads; `document` is its `model_dump`.
pub record DetectionFindingIngest : Type 0 where
  pub severity_id : ℕ
  pub product_name : String
  pub uid : String
  pub uid_alt : Option String
  pub finding_title : Option String
  pub message : Option String
  pub dedup_key : Option String
  pub document : OcsfPayload

-- The truth value of a string or None.
abbrev pub truthy : Option String → Bool
truthy none = false
truthy (some v) = not (str_eq v "")

-- `a or b`
abbrev pub or_text : Option String → String → String
or_text none b = b
or_text (some a) b = if str_eq a "" then b else a

-- `_derive_dedup_key`
unfoldable pub derive_dedup_key : DetectionFindingIngest → Option String
derive_dedup_key payload =
    if truthy payload.dedup_key
    then payload.dedup_key
    else if truthy payload.uid_alt
    then payload.uid_alt
    else some payload.uid

abbrev pub is_pending : Alert → Bool
is_pending a = elim a.status [
  | AlertStatus.pending ↦ true
  | AlertStatus.promoted ↦ false
  | AlertStatus.dismissed ↦ false
]

-- `==` of a column that may be null and a string.
abbrev pub is_text : Option String → String → Bool
is_text none k = false
is_text (some v) k = str_eq v k

abbrev pub eq_key : Option String → Option String → Bool
eq_key none none = true
eq_key none (some k) = false
eq_key (some k) v = is_text v k

unfoldable pub is_duplicate_payload : DetectionFindingIngest → Alert → Bool
unfolding derive_dedup_key
is_duplicate_payload payload a =
    if not (is_pending a)
    then false
    else truthy (derive_dedup_key payload) && eq_key (derive_dedup_key payload) a.dedup_key

-- The condition of the query for an existing alert.
unfoldable pub is_existing : ℕ → String → Alert → Bool
is_existing tenant_id k a = a.tenant_id == tenant_id && (is_text a.dedup_key k && is_pending a)

unfoldable pub find_existing : ℕ → Option String → Action (Option Alert)
unfolding is_existing
find_existing tenant_id none s = (ok none, s)
find_existing tenant_id (some k) s =
    if str_eq k ""
    then (ok none, s)
    else (scalar_one_or_none (keep_if (is_existing tenant_id k) s.alerts), s)

abbrev pub new_alert : ℕ → ℕ → DetectionFindingIngest → Option String → Alert
new_alert id tenant_id p k = record {
  id = id;
  tenant_id = tenant_id;
  severity_id = p.severity_id;
  source_product = p.product_name;
  finding_uid = p.uid;
  title = or_text p.finding_title (or_text p.message p.uid);
  message = p.message;
  ocsf_payload = p.document;
  status = AlertStatus.pending;
  dismiss_reason = none;
  promoted_to_case_id = none;
  dedup_key = k;
}

-- The text of a column `String(n)`.
abbrev pub fits : ℕ → String → Bool
fits n v = leb (String.count v) n

abbrev pub fits_optional : ℕ → Option String → Bool
fits_optional n none = true
fits_optional n (some v) = fits n v

-- The lengths of the columns that are bounded, which the INSERT checks.
unfoldable pub fits_alert : Alert → Bool
fits_alert a =
    fits 500 a.title
    && (fits 500 a.finding_uid && (fits 255 a.source_product && fits_optional 500 a.dedup_key))

unfoldable pub get_alert_or_404 : ℕ → Action Alert
unfolding find_row
get_alert_or_404 alert_id = do
  found ← gets (λ s. find_row alert_key alert_id s.alerts)
  or_raise (http 404) found

unfoldable pub add_alert : Alert → Session → Session
unfolding add_row
add_alert a s = record s { alerts = add_row alert_key a s.alerts }

module _ (installed : Installed) where
  -- The rest of `ingest_alert`, when no pending alert has the key; the row is read back before the
  -- event is fired.
  unfoldable pub insert_alert : ℕ → DetectionFindingIngest → Action (Alert × Bool)
  unfolding derive_dedup_key fits_alert add_alert get_alert_or_404
  insert_alert tenant_id payload = do
    id ← fresh_id
    let row = new_alert id tenant_id payload (derive_dedup_key payload)
    raise_if (not (fits_alert row)) data_error
    modify (add_alert row)
    a ← get_alert_or_404 id
    fire installed tenant_id PlatformEvent.alert_ingested (record { case_id = none; subject = id })
    pure (a, false)

  abbrev pub settle_ingest : ℕ → DetectionFindingIngest → Option Alert → Action (Alert × Bool)
  settle_ingest tenant_id payload none = insert_alert tenant_id payload
  settle_ingest tenant_id payload (some existing) = pure (existing, true)

  unfoldable pub ingest_alert : ℕ → DetectionFindingIngest → Action (Alert × Bool)
  unfolding find_existing derive_dedup_key insert_alert
  ingest_alert tenant_id payload = do
    existing ← find_existing tenant_id (derive_dedup_key payload)
    settle_ingest tenant_id payload existing
