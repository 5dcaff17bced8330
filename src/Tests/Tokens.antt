-- ===== src/Tests/Tokens.antt =====
-- Tokens, with a decoding that reads what the encoding wrote, text by text.
use Prim.Native.Char.{Char, char, code}
use watari.Auth.Logout.{login-logout}
use watari.Auth.Principal.{context_of, load_user_from_token}
use watari.Auth.Sessions.{create_session}
use watari.Auth.Tokens.{
  Arrival, Claims, IsJwt, Jwt, create_access_token, login_tokens, logout, record_of, refresh_token,
  subject_of_user, tokens_at,
}
use watari.Base.{
  Bool, Option, String, ap, false, if◌then◌else◌, leb, ltb, none, refl, some, ℕ, ◌*◌, ◌+◌, ◌&&◌,
  ◌==◌, ◌≡◌, arith, suc, zero,
}
use watari.Exec.{err, http, ok}
use watari.Store.{User}
use watari.Table.{find_row}
use watari.Tests.Users.{redis, redis-IsRedis, user_of_tenant, users_session}

abbrev stop : Char
stop = char 0 tt

abbrev mark : Char
mark = char 1 tt

abbrev is_stop : Char → Bool
is_stop c = code c == 0

put_text : String → String → String
put_text String.[] rest = String.◌∷◌ stop rest
put_text (String.◌∷◌ c s) rest = String.◌∷◌ mark (String.◌∷◌ c (put_text s rest))

abbrev put_nat : ℕ → String → String
put_nat zero rest = String.◌∷◌ stop rest
put_nat (suc n) rest = String.◌∷◌ mark (put_nat n rest)

abbrev take_text : String → String × String
take_text String.[] = (String.[], String.[])
take_text (String.◌∷◌ m String.[]) = (String.[], String.[])
take_text (String.◌∷◌ m (String.◌∷◌ c rest)) =
    let (x, r) = take_text rest in
    if is_stop m then (String.[], String.◌∷◌ c rest) else (String.◌∷◌ c x, r)

abbrev take_nat : String → ℕ × String
take_nat String.[] = (0, String.[])
take_nat (String.◌∷◌ m rest) =
    let (n, r) = take_nat rest in if is_stop m then (0, rest) else (suc n, r)

take-put_text : (s rest : String) → take_text (put_text s rest) ≡ (s, rest)
unfolding put_text
take-put_text String.[] String.[] = refl
take-put_text String.[] (String.◌∷◌ c rest) = refl
take-put_text (String.◌∷◌ c s) rest =
    ap (λ (x : String × String). (String.◌∷◌ c x.0, x.1)) (take-put_text s rest)

take-put_nat : (n : ℕ) (rest : String) → take_nat (put_nat n rest) ≡ (n, rest)
take-put_nat zero rest = refl
take-put_nat (suc n) rest = ap (λ (x : ℕ × String). (suc x.0, x.1)) (take-put_nat n rest)

-- The texts one after the other, then the two dates.
encode_claims : Claims → String
encode_claims c = put_text c.subject.sub (
    put_text c.subject.tenant_id (
      put_text c.subject.role (
        put_text c.subject.session_id
          (put_text c.token_type (put_text c.jti (put_nat c.iat (put_nat c.exp String.[])))))))

abbrev claims_of : String → Claims
claims_of text =
    let (sub, r₁) = take_text text in
    let (tenant_id, r₂) = take_text r₁ in
    let (role, r₃) = take_text r₂ in
    let (session_id, r₄) = take_text r₃ in
    let (token_type, r₅) = take_text r₄ in
    let (jti, r₆) = take_text r₅ in
    let (iat, r₇) = take_nat r₆ in
    record {
      subject = record { sub = sub; tenant_id = tenant_id; role = role; session_id = session_id };
      token_type = token_type;
      iat = iat;
      exp = (take_nat r₇).0;
      jti = jti;
    }

claims_of-encode_claims : (c : Claims) → claims_of (encode_claims c) ≡ c
unfolding encode_claims
claims_of-encode_claims c = simp (take-put_text, take-put_nat)

abbrev unless_late : ℕ → Claims → Option Claims
unless_late now c = if leb now c.exp then some c else none

abbrev jwt : Jwt
jwt = record {
  encode = encode_claims;
  decode = λ token now. unless_late now (claims_of token);
  uuid_text = λ n. put_nat n String.[];
  parse_uuid = λ text. some (take_nat text).0;
  jwt_access_token_expire_minutes = 60;
}

jwt-IsJwt : IsJwt jwt
jwt-IsJwt = record {
  decode-encode = λ c now. ap (unless_late now) (claims_of-encode_claims c);
  parse-text = λ id. ap (λ (x : ℕ × String). some x.0) (take-put_nat id String.[]);
}

abbrev kim : User
kim = user_of_tenant 90 7

abbrev arrival : Arrival
arrival = record {
  session_id = "sid";
  created_at = "t";
  source_ip = none;
  user_agent = none;
  access_jti = "one";
  refresh_jti = "two";
}

login-logout_example :
    let tokens = login_tokens jwt kim arrival 0 in
    let r' = create_session redis (record_of jwt kim arrival) 30 0 (λ k. 0) in
    let after = logout jwt redis 90 "sid" r' in
    let new = create_access_token jwt (subject_of_user jwt kim "sid") none 900 "three" in
    ((load_user_from_token redis
        (tokens_at jwt 900)
        tokens.access_token
        900
        users_session.users
        r').0
      ≡ (if leb 900 (0 + 60 * 60) && ltb 900 (0 + 30 * 60)
          then ok (context_of kim false)
          else err (http 401)))
    × ((load_user_from_token redis
          (tokens_at jwt 900)
          tokens.refresh_token
          900
          users_session.users
          r').0
        ≡ err (http 401))
    × (refresh_token jwt tokens.refresh_token 900 "three"
        ≡ (if leb 900 (0 + 7 * 86400) then ok new else err (http 401)))
    × ((load_user_from_token redis
          (tokens_at jwt 1000)
          tokens.access_token
          1000
          users_session.users
          after).0
        ≡ err (http 401))
    × ((load_user_from_token redis (tokens_at jwt 1000) new 1000 users_session.users after).0
        ≡ err (http 401))
unfolding find_row
login-logout_example =
    login-logout jwt jwt-IsJwt kim arrival redis users_session.users refl refl redis-IsRedis 0 900
      1000 "three" (λ k. 0) (create_session redis (record_of jwt kim arrival) 30 0 (λ k. 0))
      (omega arith)
