-- ===== src/Evidence/Service.antt =====
-- The evidence service (backend/src/services/evidence.py, schemas/evidence.py).
use Prim.Native.String
use watari.Evidence.Storage.{
  Bytes, Cloud, Crypto, build_key, compute_sha256, decrypt_with_password, encrypt_with_password,
}
use watari.Exec.{
  Action, Result, client_error, err, fresh_id, gets, http, integrity_error, modify, ok, or_raise,
  pure, raise_if, ◌>>=◌, ◌>>◌,
}
use watari.Base.{Bool, List, Option, String, false, if◌then◌else◌, none, not, some, str_eq, true, ℕ}
use watari.Cases.Create.{get_case_or_404}
use watari.Cases.Update.{Patch, assign, assign_optional, is_null}
use watari.Modules.Dispatch.{Installed, fire}
use watari.Store.{Case, Evidence, Metadata, PlatformEvent, Session, evidence_key}
use watari.Table.{add_row, delete_row, find_row, save_row}
use watari.Timeline.Recorder.{Recorded, record_event}

pub record EvidenceRegister : Type 0 where
  pub filename : String
  pub type : String
  pub file_hash_sha256 : String
  pub file_size : ℕ
  pub description : Option String
  pub tags : List String

pub record EvidenceUpdate : Type 0 where
  pub description : Patch String
  pub tags : Patch (List String)

-- `_get_evidence_or_404`
unfoldable pub get_evidence_or_404 : ℕ → Action Evidence
unfolding find_row
get_evidence_or_404 evidence_id = do
  found ← gets (λ s. find_row evidence_key evidence_id s.evidence)
  or_raise (http 404) found

unfoldable pub save_evidence : Evidence → Session → Session
unfolding save_row
save_evidence e s = record s { evidence = save_row evidence_key e s.evidence }

abbrev pub registered : Case → ℕ → EvidenceRegister → ℕ → String → Evidence
registered c registered_by p id hash = record {
  id = id;
  tenant_id = c.tenant_id;
  case_id = c.id;
  filename = p.filename;
  type = p.type;
  file_hash_sha256 = hash;
  file_size = p.file_size;
  description = p.description;
  storage_path = none;
  is_uploaded = false;
  is_encrypted = false;
  integrity_verified = none;
  integrity_mismatch = false;
  tags = p.tags;
  registered_by = registered_by;
}

abbrev pub registered_event : Evidence → ℕ → Recorded
registered_event e actor_id = record {
  tenant_id = e.tenant_id;
  case_id = e.case_id;
  event_type = "evidence_registered";
  description = String.◌++◌ "Evidence registered: " e.filename;
  category = some "evidence";
  actor_id = some actor_id;
  metadata = Metadata.evidence_registered e.id e.file_hash_sha256 e.file_size;
}

unfoldable pub register_evidence : ℕ → ℕ → EvidenceRegister → Action Evidence
unfolding get_case_or_404 add_row record_event get_evidence_or_404
register_evidence case_id registered_by payload = do
  c ← get_case_or_404 case_id
  id ← fresh_id
  hash ← gets (λ s. s.world.library.lower payload.file_hash_sha256)
  let e = registered c registered_by payload id hash
  modify (λ s. record s { evidence = add_row evidence_key e s.evidence })
  record_event (registered_event e registered_by)
  get_evidence_or_404 id

-- What an upload puts into the object store, and what it knows of the file by then.
pub record Upload : Type 0 where
  pub evidence : Evidence
  pub storage_key : String
  pub body : Bytes
  pub is_encrypted : Bool
  pub computed_hash : String
  pub declared_hash : String

-- The row after the upload.
abbrev pub uploaded : Upload → Evidence
uploaded u = record u.evidence {
  storage_path = some u.storage_key;
  is_uploaded = true;
  is_encrypted = u.is_encrypted;
  integrity_verified = some (str_eq u.computed_hash u.declared_hash);
  integrity_mismatch = not (str_eq u.computed_hash u.declared_hash);
}

abbrev pub uploaded_event : Upload → ℕ → Recorded
uploaded_event u actor_id =
    let matched = str_eq u.computed_hash u.declared_hash in
    record {
      tenant_id = u.evidence.tenant_id;
      case_id = u.evidence.case_id;
      event_type = if matched then "evidence_uploaded" else "evidence_integrity_mismatch";
      description =
          String.◌++◌
            (if matched then "Evidence file uploaded: " else "Evidence hash mismatch detected for ")
            u.evidence.filename;
      category = some "evidence";
      actor_id = some actor_id;
      metadata = Metadata.evidence_uploaded u.evidence.id u.declared_hash u.computed_hash matched;
    }

-- The password, if it is given and not blank.
abbrev pub given : (String → String) → Option String → Option String
given strip none = none
given strip (some p) = if str_eq (strip p) "" then none else some p

-- `upload_evidence_file` from the call of the object store on.
unfoldable pub finish : Installed → Upload → ℕ → Action Evidence
unfolding save_evidence record_event fire get_evidence_or_404
finish installed u actor_id = do
  modify (save_evidence (uploaded u))
  record_event (uploaded_event u actor_id)
  fire installed u.evidence.tenant_id PlatformEvent.evidence_uploaded
      (record { case_id = some u.evidence.case_id; subject = u.evidence.id })
  get_evidence_or_404 u.evidence.id

module _ (crypto : Crypto) where
  -- The body to store, and whether it is encrypted.
  abbrev pub seal : Option String → Bytes → Action (Bytes × Bool)
  seal none raw = pure (raw, false)
  seal (some password) raw = do
    salt_n ← fresh_id
    nonce_n ← fresh_id
    pure (encrypt_with_password crypto raw password salt_n nonce_n, true)

  -- `upload_evidence_file` up to the call of the object store.
  unfoldable pub prepare : ℕ → Bytes → Option String → Action Upload
  unfolding get_evidence_or_404 compute_sha256 encrypt_with_password build_key
  prepare evidence_id raw password = do
    e ← get_evidence_or_404 evidence_id
    world ← gets (λ s. s.world)
    sealed ← seal (given world.library.strip password) raw
    storage_uuid ← fresh_id
    pure (record {
      evidence = e;
      storage_key =
          build_key (world.uuid_text e.tenant_id) (world.uuid_text e.case_id)
            (world.uuid_text storage_uuid);
      body = sealed.0;
      is_encrypted = sealed.1;
      computed_hash = compute_sha256 crypto raw;
      declared_hash = world.library.lower e.file_hash_sha256;
    })

  module _ {B : Type 0} (cloud : Cloud B) where
    abbrev pub put_and_finish :
        Installed → ℕ → Result Upload → Session → B → Result Evidence × Session × B
    put_and_finish installed actor_id (err e) s b = (err e, s, b)
    put_and_finish installed actor_id (ok u) s b = elim (cloud.put_object u.storage_key u.body b) [
      | none ↦ (err client_error, s, b)
      | some b' ↦ let (r, s') = finish installed u actor_id s in (r, s', b')
    ]

    unfoldable pub upload_evidence_file :
        Installed → ℕ → Bytes → Option String → ℕ → Session → B → Result Evidence × Session × B
    unfolding prepare finish
    upload_evidence_file installed evidence_id raw password actor_id s b =
        let (r, s') = prepare evidence_id raw password s in put_and_finish installed actor_id r s' b

    -- The content of a row, decrypted if it is encrypted; an empty password is none.
    abbrev pub open_content : Evidence → Option String → Bytes → Result (Evidence × Bytes)
    open_content e password content =
        if not e.is_encrypted then ok (e, content) else elim (given (λ p. p) password) [
          | none ↦ err (http 400)
          | some p ↦ elim (decrypt_with_password crypto content p) [
            | none ↦ err (http 400)
            | some raw ↦ ok (e, raw)
          ]
        ]

    abbrev pub fetch : Evidence → Option String → B → Result (Evidence × Bytes)
    fetch e password b = elim e.storage_path [
      | none ↦ err (http 404)
      | some path ↦ if not e.is_uploaded then err (http 404) else elim (cloud.get_object path b) [
        | none ↦ err client_error
        | some content ↦ open_content e password content
      ]
    ]

    unfoldable pub download_evidence_file :
        ℕ → Option String → Session → B → Result (Evidence × Bytes)
    unfolding get_evidence_or_404 decrypt_with_password
    download_evidence_file evidence_id password s b = elim (get_evidence_or_404 evidence_id s).0 [
      | err e ↦ err e
      | ok e ↦ fetch e password b
    ]

module _ {B : Type 0} (cloud : Cloud B) where
  abbrev pub delete_object : Option String → B → B
  delete_object none b = b
  delete_object (some path) b = if str_eq path "" then b else cloud.delete path b

  unfoldable pub delete_evidence : ℕ → Session → B → Result (Unit {0}) × Session × B
  unfolding get_evidence_or_404 delete_row
  delete_evidence evidence_id s b = elim (get_evidence_or_404 evidence_id s).0 [
    | err e ↦ (err e, s, b)
    | ok e ↦ (
      ok tt,
      record s { evidence = delete_row evidence_key evidence_id s.evidence },
      delete_object e.storage_path b,
    )
  ]

unfoldable pub update_evidence : ℕ → EvidenceUpdate → Action Evidence
unfolding get_evidence_or_404 save_evidence
update_evidence evidence_id u = do
  e ← get_evidence_or_404 evidence_id
  modify (
      save_evidence (record e {
        description = assign_optional u.description e.description;
        tags = assign u.tags e.tags;
      }))
  raise_if (is_null u.tags) integrity_error
  get_evidence_or_404 evidence_id
