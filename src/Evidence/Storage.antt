-- ===== src/Evidence/Storage.antt =====
-- Object storage and the encryption of files (backend/src/services/storage.py).
use Prim.Native.String
use watari.Base.{
  List, Option, String, drop, if◌then◌else◌, length, ltb, none, some, take, ℕ, ◌++◌, ◌+◌, ◌≡◌, ◌≤◌,
}

abbrev pub Bytes : Type 0
Bytes = List ℕ

-- The calls of the S3 client on a store of type `B`; `none` is a ClientError.
pub record Cloud (B : Type 0) : Type 0 where
  pub put_object : String → Bytes → B → Option B
  pub get_object : String → B → Option Bytes
  pub delete : String → B → B

-- An object that was put is got.
abbrev pub IsCloud : {B : Type 0} → Cloud B → Type 0
IsCloud {B} cloud =
    (k : String) (content : Bytes) (b b' : B)
    → cloud.put_object k content b ≡ some b'
    → cloud.get_object k b' ≡ some content

-- What is used of the libraries of cryptography: scrypt with the parameters of the file, AES-GCM, where
-- `none` is an InvalidTag, the n-th answer of `os.urandom`, and the SHA-256 digest in hexadecimal.
pub record Crypto : Type 0 where
  pub scrypt : String → Bytes → Bytes
  pub aes_encrypt : (key nonce plaintext : Bytes) → Bytes
  pub aes_decrypt : (key nonce ciphertext : Bytes) → Option Bytes
  pub urandom : (size n : ℕ) → Bytes
  pub sha256 : Bytes → String

-- What is decrypted with the key and nonce of the encryption is what was encrypted, a ciphertext has a
-- tag of 16 bytes, and `urandom` gives as many bytes as it is asked for.
pub record IsCrypto (crypto : Crypto) : Type 0 where
  pub decrypt_encrypt :
      (key nonce p : Bytes) → crypto.aes_decrypt key nonce (crypto.aes_encrypt key nonce p) ≡ some p
  pub tag : (key nonce p : Bytes) → 16 ≤ length (crypto.aes_encrypt key nonce p)
  pub length-urandom : (size n : ℕ) → length (crypto.urandom size n) ≡ size

unfoldable pub build_key : (tenant_id case_id storage_uuid : String) → String
build_key tenant_id case_id storage_uuid =
    String.◌++◌ "evidence/"
      (String.◌++◌ tenant_id (String.◌++◌ "/" (String.◌++◌ case_id (String.◌++◌ "/" storage_uuid))))

-- `_SCRYPT_SALT_LEN` and `_AESGCM_NONCE_LEN`
abbrev pub salt_len : ℕ
salt_len = 16

abbrev pub nonce_len : ℕ
nonce_len = 12

module _ (crypto : Crypto) where
  unfoldable pub compute_sha256 : Bytes → String
  compute_sha256 content = crypto.sha256 content

  -- `_derive_key`
  unfoldable pub derive_key : String → Bytes → Bytes
  derive_key password salt = crypto.scrypt password salt

  -- The salt and the nonce are the answers of `urandom` with the given numbers.
  unfoldable pub encrypt_with_password : Bytes → String → (salt_n nonce_n : ℕ) → Bytes
  unfolding derive_key
  encrypt_with_password plaintext password salt_n nonce_n =
      let salt = crypto.urandom salt_len salt_n in
      let nonce = crypto.urandom nonce_len nonce_n in
      (salt ++ nonce) ++ crypto.aes_encrypt (derive_key password salt) nonce plaintext

  -- `none` is an exception: a ciphertext that is too short, or an InvalidTag.
  unfoldable pub decrypt_with_password : Bytes → String → Option Bytes
  unfolding derive_key
  decrypt_with_password ciphertext password =
      if ltb (length ciphertext) (salt_len + nonce_len + 16)
      then none
      else crypto.aes_decrypt (derive_key password (take salt_len ciphertext))
          (drop salt_len (take (salt_len + nonce_len) ciphertext))
          (drop (salt_len + nonce_len) ciphertext)
