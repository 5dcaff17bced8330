-- ===== src/Evidence/Download.antt =====
-- A file that is uploaded and downloaded again (backend/src/services/evidence.py).
use watari.Base.{
  Bool, Bool-cases, Option, String, ap, arith, false, if◌then◌else◌, inl, inr, is_some, none, refl,
  some, str_eq, str_eq_iff, subst, true, ℕ, ◌+◌, ◌∙◌, ◌≡◌, ◌⊎◌,
}
use watari.Evidence.Service.{
  Upload, download_evidence_file, finish, get_evidence_or_404, given, open_content, prepare,
  put_and_finish, save_evidence, upload_evidence_file, uploaded, uploaded_event,
}
use watari.Evidence.Storage.{
  Bytes, Cloud, Crypto, IsCloud, IsCrypto, build_key, compute_sha256, decrypt_with_password,
  encrypt_with_password,
}
use watari.Exec.{Result, err, http, ok}
use watari.Modules.Dispatch.{EventPayload, Installed, fire}
use watari.Table.{find-save_self, find_row, key-find}
use watari.Evidence.Sealing.{decrypt_with_password-encrypt_with_password}
use watari.Modules.Keeps.{UsesModuleApi, fire-kept, fire-ok}
use watari.Store.{Evidence, PlatformEvent, Session, evidence_key}
use watari.Timeline.Recorder.{record_event, record_event-kept, record_event-ok}

module _ (crypto : Crypto) (laws : IsCrypto crypto) where
  -- What is stored opens to the file: as it is, or with the password under which it was encrypted.
  abbrev pub OpensTo : Bytes → Option String → Upload → Type 0
  OpensTo raw password u =
      ((u.is_encrypted ≡ false) × (u.body ≡ raw))
      ⊎ ((p : String) × (password ≡ some p)
          × (str_eq p "" ≡ false)
          × (u.is_encrypted ≡ true)
          × (decrypt_with_password crypto u.body p ≡ some raw))

  -- What `prepare` gives for the row `e`.
  abbrev IsPrepared : ℕ → Bytes → Option String → Evidence → Session → Type 0
  IsPrepared id raw password e s =
      (u : Upload) × (s1 : Session) × (prepare crypto id raw password s ≡ (ok u, s1))
      × (u.evidence ≡ e)
      × (s1.evidence ≡ s.evidence)
      × (u.computed_hash ≡ compute_sha256 crypto raw)
      × (u.declared_hash ≡ s.world.library.lower e.file_hash_sha256)
      × (u.is_encrypted ≡ is_some (given s.world.library.strip password))
      × OpensTo raw password u

  abbrev upload_of : Evidence → Bytes → Session → ℕ → Bytes → Bool → Upload
  upload_of e raw s n body is_encrypted = record {
    evidence = e;
    storage_key =
        build_key (s.world.uuid_text e.tenant_id) (s.world.uuid_text e.case_id)
          (s.world.uuid_text n);
    body = body;
    is_encrypted = is_encrypted;
    computed_hash = compute_sha256 crypto raw;
    declared_hash = s.world.library.lower e.file_hash_sha256;
  }

  abbrev is_blank : Session → String → Bool
  is_blank s p = str_eq (s.world.library.strip p) ""

  not_empty :
      (s : Session) (p : String)
      → s.world.library.strip "" ≡ ""
      → is_blank s p ≡ false
      → str_eq p "" ≡ false
  not_empty s p strips full = elim (Bool-cases (str_eq p "")) [
    | inr e ↦ e
    | inl e ↦
        let same : p ≡ "" = (str_eq_iff p "").0 e in
        let blank : s.world.library.strip p ≡ "" = ap s.world.library.strip same ∙ strips in
        let it : is_blank s p ≡ true = (str_eq_iff (s.world.library.strip p) "").1 blank in
        absurd (ground arith)
  ]

  module _ (id : ℕ) (raw : Bytes) (e : Evidence) (s : Session)
      (found : find_row evidence_key id s.evidence ≡ some e)
      (strips : s.world.library.strip "" ≡ "") where
    prepare_lem : (password : Option String) → IsPrepared id raw password e s
    unfolding prepare get_evidence_or_404
    prepare_lem none =
        let u = upload_of e raw s s.next_id raw false in
        let s1 = record s { next_id = s.next_id + 1 } in
        (u, s1, ground arith, refl, refl, refl, refl, refl, inl (refl, refl))
    prepare_lem (some p) = elim (Bool-cases (is_blank s p)) [
      | inl blank ↦
          let u = upload_of e raw s s.next_id raw false in
          let s1 = record s { next_id = s.next_id + 1 } in
          (u, s1, ground arith, refl, refl, refl, refl, rw blank refl, inl (refl, refl))
      | inr full ↦
          let body = encrypt_with_password crypto raw p s.next_id (s.next_id + 1) in
          let u = upload_of e raw s (s.next_id + 1 + 1) body true in
          let s1 = record s { next_id = s.next_id + 1 + 1 + 1 } in
          let opens =
            decrypt_with_password-encrypt_with_password crypto laws raw p s.next_id
              (s.next_id + 1) in
          (
            u,
            s1,
            ground arith,
            refl,
            refl,
            refl,
            refl,
            rw full refl,
            inr (p, refl, not_empty s p strips full, refl, opens),
          )
    ]

module _ (installed : Installed) (api : UsesModuleApi installed) (u : Upload) (actor : ℕ)
    (s : Session) where
  -- The row of the upload is in the table after it, and is what the call returns.
  finish_lem :
      {old : Evidence}
      → find_row evidence_key u.evidence.id s.evidence ≡ some old
      → ((finish installed u actor s).0 ≡ ok (uploaded u))
        × (find_row evidence_key u.evidence.id (finish installed u actor s).1.evidence
            ≡ some (uploaded u))
  unfolding finish save_evidence get_evidence_or_404
  finish_lem {old} found =
      let saved = find-save_self evidence_key (uploaded u) s.evidence {old = old} found in
      let s2 = save_evidence (uploaded u) s in
      let s3 = (record_event (uploaded_event u actor) s2).1 in
      let payload : EventPayload = record {
        case_id = some u.evidence.case_id;
        subject = u.evidence.id;
      } in
      let event = PlatformEvent.evidence_uploaded in
      let recorded = record_event-ok (uploaded_event u actor) s2 in
      let rows3 : s3.evidence ≡ s2.evidence =
        ap (λ k. k.evidence) (record_event-kept (uploaded_event u actor) s2) in
      let rows4 : (fire installed u.evidence.tenant_id event payload s3).1.evidence ≡ s3.evidence =
        ap (λ k. k.evidence) (fire-kept installed api u.evidence.tenant_id event payload s3) in
      let fired = fire-ok installed u.evidence.tenant_id event payload s3 in
      (ground arith, ground arith)

module _ (crypto : Crypto) (laws : IsCrypto crypto) {B : Type 0} (cloud : Cloud B)
    (is_cloud : IsCloud cloud) where
  open_lem :
      (raw : Bytes) (password : Option String) (u : Upload)
      → OpensTo crypto laws raw password u
      → (open_content crypto cloud (uploaded u) password u.body ≡ ok (uploaded u, raw))
        × (open_content crypto cloud (uploaded u) none u.body
            ≡ (if u.is_encrypted then err (http 400) else ok (uploaded u, raw)))
  open_lem raw password u (inl (plain, same)) = (ground arith, ground arith)
  open_lem raw password u (inr (p, sent, full, sealed, opens)) = (ground arith, ground arith)

  upload_lem :
      (installed : Installed) (id : ℕ) (raw : Bytes) (password : Option String) (actor : ℕ)
      (s s1 : Session) (b b' : B) (u : Upload)
      → prepare crypto id raw password s ≡ (ok u, s1)
      → cloud.put_object u.storage_key u.body b ≡ some b'
      → upload_evidence_file crypto cloud installed id raw password actor s b
        ≡ ((finish installed u actor s1).0, (finish installed u actor s1).1, b')
  unfolding upload_evidence_file
  upload_lem installed id raw password actor s s1 b b' u prepared put =
      ap (λ (x : Result Upload × Session). put_and_finish crypto cloud installed actor x.0 x.1 b)
        prepared
      ∙ rw (put, put_and_finish) refl

  module _ (installed : Installed) (api : UsesModuleApi installed) where
    -- If the modules use `ModuleAPI` alone, the object store and the cipher are as documented, the
    -- evidence exists and the store takes the object, `upload_evidence_file` returns the row, and
    -- a download with the same password then returns the row and the file as it was; the file is
    -- encrypted exactly if a password was given that is not blank, is then refused without a
    -- password, and is flagged as verified exactly if its hash is the one declared.
    pub download-upload :
        (id : ℕ) (raw : Bytes) (password : Option String) (actor : ℕ) (e : Evidence) (s : Session)
        (b : B)
        → find_row evidence_key id s.evidence ≡ some e
        → s.world.library.strip "" ≡ ""
        → ((k : String) (content : Bytes) → (b' : B) × (cloud.put_object k content b ≡ some b'))
        → (e' : Evidence) × (s' : Session) × (b' : B) × (upload_evidence_file crypto cloud installed
              id raw password actor s b
            ≡ (ok e', s', b'))
          × (download_evidence_file crypto cloud id password s' b' ≡ ok (e', raw))
          × (e'.is_encrypted ≡ is_some (given s.world.library.strip password))
          × (download_evidence_file crypto cloud id none s' b'
              ≡ (if e'.is_encrypted then err (http 400) else ok (e', raw)))
          × (e'.integrity_verified
              ≡ some
                  (str_eq (compute_sha256 crypto raw) (s.world.library.lower e.file_hash_sha256)))
    unfolding upload_evidence_file download_evidence_file get_evidence_or_404
    download-upload id raw password actor e s b found strips accepts =
        let (u, s1, prepared, row, rows, hash, declared, sealed, opens) =
          prepare_lem crypto laws id raw e s found strips password in
        let (b', put) = accepts u.storage_key u.body in
        let own : u.evidence.id ≡ id =
          ap (λ x. x.id) row ∙ key-find evidence_key id s.evidence found in
        let there : find_row evidence_key u.evidence.id s1.evidence ≡ some e =
          rw own (rw rows found) in
        let (answer, stored) = finish_lem installed api u actor s1 there in
        let s' = (finish installed u actor s1).1 in
        let stored_id : find_row evidence_key id s'.evidence ≡ some (uploaded u) =
          subst (λ k. find_row evidence_key k s'.evidence ≡ some (uploaded u)) own stored in
        let got = is_cloud u.storage_key u.body b b' put in
        let (opened, refused) = open_lem raw password u opens in
        (
          uploaded u,
          s',
          b',
          upload_lem installed id raw password actor s s1 b b' u prepared put
              ∙ ap (λ r. (r, s', b')) answer,
          ground (arith, opened),
          sealed,
          ground (arith, refused),
          rw hash (rw declared refl),
        )
