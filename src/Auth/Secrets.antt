-- ===== src/Auth/Secrets.antt =====
-- Passwords and API keys (backend/src/auth/passwords.py, api_keys.py).
use Prim.Native.String
use watari.Base.{Bool, List, Option, String, false, none, some, str_eq, take, true, ℕ, ◌≡◌}

-- What they use of bcrypt and of Python's library: UTF-8, `hashpw` with the salt of a number,
-- `checkpw`, where `none` is its ValueError, the SHA-256 digest in hexadecimal, the text of
-- `token_urlsafe(32)` of a number, and `startswith`.
pub record Secrets : Type 0 where
  pub utf8 : String → List ℕ
  pub hashpw : List ℕ → ℕ → String
  pub checkpw : List ℕ → String → Option Bool
  pub sha256 : String → String
  pub token_urlsafe : ℕ → String
  pub starts_with : String → String → Bool

-- `checkpw` accepts the password that a hash was made of; a text that is made by putting "wat_" in
-- front starts with it, and the empty text does not.
pub record IsSecrets (secrets : Secrets) : Type 0 where
  pub check_hash : (p : List ℕ) (salt : ℕ) → secrets.checkpw p (secrets.hashpw p salt) ≡ some true
  pub starts : (b : String) → secrets.starts_with (String.◌++◌ "wat_" b) "wat_" ≡ true
  pub starts_not : secrets.starts_with "" "wat_" ≡ false

module _ (secrets : Secrets) where
  -- `_encode`
  unfoldable pub encode : String → List ℕ
  encode password = take 72 (secrets.utf8 password)

  unfoldable pub hash_password : String → ℕ → String
  unfolding encode
  hash_password password salt = secrets.hashpw (encode password) salt

  unfoldable pub verify_password : String → String → Bool
  unfolding encode
  verify_password plain hashed = elim (secrets.checkpw (encode plain) hashed) [
    | none ↦ false
    | some b ↦ b
  ]

  unfoldable pub generate_api_key : ℕ → String
  generate_api_key n = String.◌++◌ "wat_" (secrets.token_urlsafe n)

  unfoldable pub hash_api_key : String → String
  hash_api_key api_key = secrets.sha256 api_key

  unfoldable pub verify_api_key : String → String → Bool
  unfolding hash_api_key
  verify_api_key plain hashed = str_eq (hash_api_key plain) hashed

  -- A password is accepted against its own hash, whatever the salt.
  pub verify_password-hash_password :
      IsSecrets secrets
      → (password : String) (salt : ℕ)
      → verify_password password (hash_password password salt) ≡ true
  unfolding verify_password hash_password
  verify_password-hash_password laws password salt =
      rw (laws.check_hash (encode password) salt, verify_password)
