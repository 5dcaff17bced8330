-- ===== src/Tests/Evidence.antt =====
-- A file that is stored under a password, in a store that keeps the object of each key.
use watari.Base.{
  Option, String, [], ap, arith, drop, false, if◌then◌else◌, length, length-append, none, refl,
  some, str_eq, str_eq_iff, suc, sym, true, zero, ℕ, ◌++◌, ◌∙◌, ◌∷◌, ◌≡◌,
}
use watari.Evidence.Download.{download-upload}
use watari.Evidence.Service.{download_evidence_file, upload_evidence_file}
use watari.Evidence.Storage.{Bytes, Cloud, Crypto, IsCloud, IsCrypto, compute_sha256}
use watari.Exec.{err, http, ok}
use watari.Store.{Evidence, Session}
use watari.Table.{find_row}
use watari.Tests.Samples.{installed, installed-UsesModuleApi, session}

abbrev Objects : Type 0
Objects = String → Option Bytes

abbrev cloud : Cloud Objects
cloud = record {
  put_object = λ k content b. some (λ j. if str_eq k j then some content else b j);
  get_object = λ k b. b k;
  delete = λ k b j. if str_eq k j then none else b j;
}

cloud-IsCloud : IsCloud cloud
cloud-IsCloud k content b b' h =
    let same : (λ (j : String). if str_eq k j then some content else b j) ≡ b' = ground arith in
    let self : str_eq k k ≡ true = (str_eq_iff k k).1 refl in
    sym (ap (λ (f : Objects). f k) same) ∙ rw self refl

-- So many zeros.
abbrev zeros : ℕ → Bytes
zeros zero = []
zeros (suc n) = 0 ∷ zeros n

length-zeros : (n : ℕ) → length (zeros n) ≡ n
length-zeros zero = refl
length-zeros (suc n) = ap suc (length-zeros n)

-- A cipher that only puts a tag in front.
abbrev crypto : Crypto
crypto = record {
  scrypt = λ password salt. [];
  aes_encrypt = λ key nonce p. zeros 16 ++ p;
  aes_decrypt = λ key nonce c. some (drop 16 c);
  urandom = λ size n. zeros size;
  sha256 = λ content. "digest";
}

crypto-IsCrypto : IsCrypto crypto
crypto-IsCrypto = record {
  decrypt_encrypt = λ key nonce p. refl;
  tag = λ key nonce p. omega (arith, length-append (zeros 16) p);
  length-urandom = λ size n. length-zeros size;
}

abbrev disk_image : Evidence
disk_image = record {
  id = 70;
  tenant_id = 7;
  case_id = 1;
  filename = "disk.img";
  type = "disk_image";
  file_hash_sha256 = "digest";
  file_size = 3;
  description = none;
  storage_path = none;
  is_uploaded = false;
  is_encrypted = false;
  integrity_verified = none;
  integrity_mismatch = false;
  tags = [];
  registered_by = 90;
}

abbrev evidence_session : Session
evidence_session = record session { evidence = disk_image ∷ [] }

download-upload_example :
    (e' : Evidence) × (s' : Session) × (b' : Objects) × (upload_evidence_file crypto cloud installed
        70
        (1 ∷ 2 ∷ 3 ∷ [])
        (some "secret")
        90
        evidence_session
        (λ k. none)
      ≡ (ok e', s', b'))
    × (download_evidence_file crypto cloud 70 (some "secret") s' b' ≡ ok (e', 1 ∷ 2 ∷ 3 ∷ []))
    × (e'.is_encrypted ≡ true)
    × (download_evidence_file crypto cloud 70 none s' b'
        ≡ (if e'.is_encrypted then err (http 400) else ok (e', 1 ∷ 2 ∷ 3 ∷ [])))
    × (e'.integrity_verified ≡ some true)
unfolding find_row compute_sha256
download-upload_example =
    download-upload crypto crypto-IsCrypto cloud cloud-IsCloud installed installed-UsesModuleApi 70
      (1 ∷ 2 ∷ 3 ∷ []) (some "secret") 90 disk_image evidence_session (λ k. none) refl refl
      (λ k content. (_, refl))
