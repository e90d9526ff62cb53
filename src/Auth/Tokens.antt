-- ===== src/Auth/Tokens.antt =====
-- internal/auth/tokens.go: access tokens and refresh tokens.
use flutter_whatsapp_clone.Base.{◌+◌, String}
use flutter_whatsapp_clone.Models.{Time}
use flutter_whatsapp_clone.Crypto.{Crypto, Claims, Parsed}
use flutter_whatsapp_clone.Action.{Action, pure, ◌>>=◌, or_fail}
use flutter_whatsapp_clone.Store.{Env, World}
use flutter_whatsapp_clone.Auth.Defs.{Error, internal}

-- 15 minutes and 30 days.
abbrev pub access_token_ttl : Time
access_token_ttl = 900000000

abbrev pub refresh_token_ttl : Time
refresh_token_ttl = 2592000000000

abbrev pub claims_for : Crypto → String → String → Time → Claims
claims_for crypto user_id device_id now = record {
  user_id = user_id;
  device_id = device_id;
  issued_at = crypto.numeric_date now;
  expires_at = crypto.numeric_date (now + access_token_ttl);
}

module _ (env : Env) (crypto : Crypto) where
  unfoldable pub parse_access_token : String → String → Time → Parsed
  parse_access_token secret token now = crypto.parse now secret token

  abbrev pub hash_refresh_token : String → String
  hash_refresh_token raw = crypto.sha256_hex raw

  -- The token, and its expiry to the microsecond, where the token itself has whole seconds.
  unfoldable pub generate_access_token :
      String → String → String → Action (World env) Error (String × Time)
  generate_access_token secret user_id device_id w =
      (do
        token ←
            or_fail (crypto.sign secret (claims_for crypto user_id device_id (env.now w.tick)))
              internal
        pure (token, env.now w.tick + access_token_ttl))
        w

  -- The raw token, and its hash.
  unfoldable pub generate_refresh_token : Action (World env) Error (String × String)
  generate_refresh_token w =
      (do raw ← or_fail (crypto.random_token w.tick) internal; pure (raw, hash_refresh_token raw)) w
