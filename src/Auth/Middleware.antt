-- ===== src/Auth/Middleware.antt =====
-- internal/middleware/auth.go: RequireAuth.
pub mod Access
pub mod Entry
use Prim.Native.Char.{code}
use flutter_whatsapp_clone.Base.{
  ℕ, suc, ◌+◌, Bool, true, false, not, ◌&&◌, ◌||◌, Option, none, some, List, [], ◌∷◌, String,
  first_where, leb, ◌==◌, str_eq, if◌then◌else◌,
}
use flutter_whatsapp_clone.Models.{Uuid, Device, device_is_active}
use flutter_whatsapp_clone.Crypto.{Crypto, Claims, Parsed, valid, expired, invalid}
use flutter_whatsapp_clone.Action.{Action, pure, raise, ◌>>=◌, ◌>>◌, on_error, ensure, or_fail}
use flutter_whatsapp_clone.Store.{Env, World, query}
use flutter_whatsapp_clone.Auth.Tokens.{parse_access_token}

-- The `code` of the JSON that ends the request; internal_error goes with status 500, the rest with 401.
pub data Denial : Type 0 where
  auth_header_missing auth_header_malformed token_invalid token_expired : Denial
  session_revoked internal_error : Denial

-- What c.Set keeps for the handlers.
pub record Session : Type 0 where
  pub user_id : String
  pub device_id : String

abbrev lower : ℕ → ℕ
lower c = if leb b'A' c && leb c b'Z' then c + 32 else c

-- strings.EqualFold with the ASCII word "Bearer": only the letters of ASCII fold to those of it.
unfoldable pub equal_fold : String → String → Bool
equal_fold String.[] String.[] = true
equal_fold (String.◌∷◌ c s) (String.◌∷◌ d t) = lower (code c) == lower (code d) && equal_fold s t
equal_fold _ _ = false

-- strings.SplitN(header, " ", 2) where it has two parts.
unfoldable pub split_at_space : String → Option (String × String)
split_at_space String.[] = none
split_at_space (String.◌∷◌ c s) =
    let rest = split_at_space s in
    if code c == 32
    then some ("", s)
    else elim rest [ none ↦ none | some (a, b) ↦ some (String.◌∷◌ c a, b) ]

abbrev pub bearer_token : Option (String × String) → Option String
bearer_token none = none
bearer_token (some (scheme, token)) =
    if equal_fold scheme "Bearer" && not (str_eq token "") then some token else none

-- gorm compares the id with the text, which PostgreSQL reads as a UUID or refuses.
unfoldable pub is_device_active : (env : Env) → String → Action (World env) Denial Bool
is_device_active env text = do
  id ← or_fail (env.parse_uuid text) internal_error
  found ← query (λ db n. first_where (λ d. d.id) (λ d. d.id == id) db.devices) internal_error
  pure (elim found [ none ↦ false | some d ↦ device_is_active d.status ])

module _ (env : Env) (crypto : Crypto) (secret : String) where
  unfoldable pub accept_parsed : Parsed → Action (World env) Denial Claims
  accept_parsed (valid c) = pure c
  accept_parsed expired = raise token_expired
  accept_parsed invalid = raise token_invalid

  unfoldable pub read_token : String → Action (World env) Denial Claims
  read_token token w = accept_parsed (parse_access_token env crypto secret token (env.now w.tick)) w

  -- The middleware, up to the call of the handler, which gets the session.
  unfoldable pub require_auth : String → Action (World env) Denial Session
  require_auth header = do
    ensure (not (str_eq header "")) auth_header_missing
    token ← or_fail (bearer_token (split_at_space header)) auth_header_malformed
    claims ← read_token token
    active ← is_device_active env claims.device_id
    ensure active session_revoked
    pure (record { user_id = claims.user_id; device_id = claims.device_id })
