-- ===== src/Crypto.antt =====
-- The cryptography and the random numbers of the backend, which are libraries': crypto/sha256 with
-- encoding/hex, crypto/rand, golang.org/x/crypto/bcrypt and golang-jwt. What they do is a parameter.
use flutter_whatsapp_clone.Base.{ℕ, ◌<◌, ◌*◌, ◌/◌, Bool, true, String, Option, some, ◌≡◌, ltb}
use flutter_whatsapp_clone.Models.{Time}

-- The payload of an access token; the subject and the user id are one claim, "sub".
pub record Claims : Type 0 where
  pub user_id : String
  pub device_id : String
  pub issued_at : Time
  pub expires_at : Time

-- What jwt.ParseWithClaims answers for a token.
pub data Parsed : Type 0 where
  valid : Claims → Parsed
  expired invalid : Parsed

pub record Crypto : Type 0 where
  -- hex.EncodeToString of sha256.Sum256.
  pub sha256_hex : String → String
  -- The draws of rand.Int below ten, by statement and place.
  pub random_digit : ℕ → ℕ → Option ℕ
  pub random_digit_bound : (n i d : ℕ) → random_digit n i ≡ some d → d < 10
  -- 32 random bytes in RawURLEncoding.
  pub random_token : ℕ → Option String
  -- GenerateFromPassword, with the salt drawn at a statement, and CompareHashAndPassword.
  pub bcrypt_hash : ℕ → String → Option String
  pub bcrypt_matches : String → String → Bool
  pub bcrypt-matches :
      (n : ℕ) (hash password : String)
      → bcrypt_hash n password ≡ some hash
      → bcrypt_matches hash password ≡ true
  -- jwt.NewNumericDate, whose precision is the second.
  pub numeric_date : Time → Time
  pub numeric_date_lem : (t : Time) → numeric_date t ≡ t / 1000000 * 1000000
  -- SignedString with HS256, and ParseWithClaims that admits HMAC methods only. Of claims whose times
  -- are whole seconds, which is what the JSON of a token has, parsing gives back what was signed.
  pub sign : String → Claims → Option String
  pub parse : Time → String → String → Parsed
  pub parse-sign :
      (now : Time) (secret token : String) (c : Claims)
      → numeric_date c.issued_at ≡ c.issued_at
      → numeric_date c.expires_at ≡ c.expires_at
      → sign secret c ≡ some token
      → ltb now c.expires_at ≡ true
      → parse now secret token ≡ valid c
