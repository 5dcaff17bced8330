-- ===== src/Evidence/Sealing.antt =====
-- Encryption under a password (backend/src/services/storage.py).
use watari.Base.{
  String, ap, append_assoc, arith, drop, drop-append, false, length, length-append, ltb, some, take,
  take-append, ℕ, ◌++◌, ◌+◌, ◌∙◌, ◌≡◌,
}
use watari.Evidence.Storage.{
  Bytes, Crypto, IsCrypto, decrypt_with_password, derive_key, encrypt_with_password, nonce_len,
  salt_len,
}

module _ (crypto : Crypto) (laws : IsCrypto crypto) where
  pub decrypt_with_password-encrypt_with_password :
      (raw : Bytes) (password : String) (salt_n nonce_n : ℕ)
      → decrypt_with_password crypto
          (encrypt_with_password crypto raw password salt_n nonce_n)
          password
        ≡ some raw
  unfolding decrypt_with_password encrypt_with_password
  decrypt_with_password-encrypt_with_password raw password salt_n nonce_n =
      let salt = crypto.urandom salt_len salt_n in
      let nonce = crypto.urandom nonce_len nonce_n in
      let key = derive_key crypto password salt in
      let ct = crypto.aes_encrypt key nonce raw in
      let salt_size = laws.length-urandom salt_len salt_n in
      let nonce_size = laws.length-urandom nonce_len nonce_n in
      let tag = laws.tag key nonce raw in
      let header : length (salt ++ nonce) ≡ salt_len + nonce_len =
        length-append salt nonce ∙ omega (arith, salt_size, nonce_size) in
      let size : length ((salt ++ nonce) ++ ct) ≡ salt_len + nonce_len + length ct =
        length-append (salt ++ nonce) ct ∙ omega (arith, header) in
      let long : ltb (length ((salt ++ nonce) ++ ct)) (salt_len + nonce_len + 16) ≡ false =
        ground (arith, size, tag) in
      let to_salt : take salt_len ((salt ++ nonce) ++ ct) ≡ salt =
        ap (take salt_len) (append_assoc salt nonce ct)
        ∙ take-append salt_len salt (nonce ++ ct) salt_size in
      let to_nonce : drop salt_len (take (salt_len + nonce_len) ((salt ++ nonce) ++ ct)) ≡ nonce =
        ap (drop salt_len) (take-append (salt_len + nonce_len) (salt ++ nonce) ct header)
        ∙ drop-append salt_len salt nonce salt_size in
      let to_ct : drop (salt_len + nonce_len) ((salt ++ nonce) ++ ct) ≡ ct =
        drop-append (salt_len + nonce_len) (salt ++ nonce) ct header in
      rw long (rw to_salt (rw to_nonce (rw to_ct (laws.decrypt_encrypt key nonce raw))))
