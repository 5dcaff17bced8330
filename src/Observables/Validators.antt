-- ===== src/Observables/Validators.antt =====
-- The format validators (backend/src/services/validators.py). A `ValueError` is `none`.
use watari.Base.{Bool, Option, String, if◌then◌else◌, ltb, none, not, some, str_eq, ◌&&◌, ◌||◌}
use watari.Store.{
  Library, ObservableType, Pattern, domain_re, email_re, filename_re, hostname_re, md5_re,
  registry_key_re, sha1_re, sha256_re,
}

module _ (lib : Library) where
  unfoldable pub normalize_domain : String → Option String
  normalize_domain value =
      let v = lib.rstrip_dots (lib.lower (lib.strip value)) in
      if lib.matches domain_re v then some v else none

  unfoldable pub normalize_hostname : String → Option String
  normalize_hostname value =
      let v = lib.rstrip_dots (lib.lower (lib.strip value)) in
      if not (str_eq v "") && lib.matches hostname_re v then some v else none

  unfoldable pub normalize_ip : String → Option String
  normalize_ip value = lib.ip_address (lib.strip value)

  -- The schemes that an URL may have.
  abbrev pub is_scheme : String → Bool
  is_scheme s = str_eq s "http" || (str_eq s "https" || (str_eq s "ftp" || str_eq s "ftps"))

  unfoldable pub normalize_url : String → Option String
  normalize_url value =
      let v = lib.strip value in
      if ltb 4096 (lib.len v)
      then none
      else if not (is_scheme (lib.scheme v))
      then none
      else if str_eq (lib.netloc v) ""
      then none
      else some v

  unfoldable pub normalize_email : String → Option String
  normalize_email value =
      let v = lib.lower (lib.strip value) in if lib.matches email_re v then some v else none

  unfoldable pub normalize_hash : Pattern → String → Option String
  normalize_hash pattern value =
      let v = lib.lower (lib.strip value) in if lib.matches pattern v then some v else none

  unfoldable pub normalize_filename : String → Option String
  normalize_filename value =
      let v = lib.strip value in
      if str_eq v "" || (not (lib.matches filename_re v) || ltb 500 (lib.len v))
      then none
      else some v

  unfoldable pub normalize_registry_key : String → Option String
  normalize_registry_key value =
      let v = lib.strip value in if lib.matches registry_key_re v then some v else none

  unfoldable pub validate_observable : ObservableType → String → Option String
  unfolding normalize_domain normalize_hostname normalize_ip normalize_url normalize_email
      normalize_hash normalize_filename normalize_registry_key
  validate_observable ObservableType.ip = normalize_ip
  validate_observable ObservableType.domain = normalize_domain
  validate_observable ObservableType.hostname = normalize_hostname
  validate_observable ObservableType.url = normalize_url
  validate_observable ObservableType.hash_md5 = normalize_hash md5_re
  validate_observable ObservableType.hash_sha1 = normalize_hash sha1_re
  validate_observable ObservableType.hash_sha256 = normalize_hash sha256_re
  validate_observable ObservableType.email = normalize_email
  validate_observable ObservableType.filename = normalize_filename
  validate_observable ObservableType.registry_key = normalize_registry_key
