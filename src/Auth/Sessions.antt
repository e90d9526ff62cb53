-- ===== src/Auth/Sessions.antt =====
-- internal/auth/service.go: Login, Logout and Refresh.
pub mod Login
pub mod Refresh
use flutter_whatsapp_clone.Base.{
  ℕ, ◌+◌, Bool, true, false, not, Option, none, some, List, map, String, first_where, ltb, ◌==◌,
  str_eq, if◌then◌else◌,
}
use flutter_whatsapp_clone.Models.{
  Uuid, Time, User, Device, RefreshToken, AccountStatus, DeviceStatus,
}
use flutter_whatsapp_clone.Redis.{is_some}
use flutter_whatsapp_clone.Crypto.{Crypto}
use flutter_whatsapp_clone.Action.{Action, pure, raise, ◌>>=◌, ◌>>◌, on_error, ensure, or_fail}
use flutter_whatsapp_clone.Store.{
  Db, Env, World, devices_table, refresh_tokens_table, query, execute, insert, ignored,
  before_create,
}
use flutter_whatsapp_clone.Auth.Defs.{
  LoginRequest, LoginResult, Error, user_not_found, invalid_credentials, account_not_verified,
  account_disabled, refresh_token_invalid, refresh_token_expired, internal,
}
use flutter_whatsapp_clone.Auth.Tokens.{
  refresh_token_ttl, hash_refresh_token, generate_access_token, generate_refresh_token,
}
use flutter_whatsapp_clone.Auth.Accounts.{find_by_identifier}

abbrev pub or_default : String → String → String
or_default s d = if str_eq s "" then d else s

abbrev pub revoke_token : Uuid → Time → RefreshToken → RefreshToken
revoke_token id now t = if t.id == id then record t { revoked_at = some now } else t

abbrev pub revoke_device : Uuid → Device → Device
revoke_device id d = if d.id == id then record d { status = DeviceStatus.revoked } else d

abbrev pub touch_device : Uuid → Time → Device → Device
touch_device id now d = if d.id == id then record d { last_active_at = some now } else d

module _ (env : Env) (crypto : Crypto) (secret : String) where
  unfoldable pub admit : AccountStatus → Action (World env) Error (Unit {0})
  admit AccountStatus.pending_verification = raise account_not_verified
  admit AccountStatus.banned = raise account_disabled
  admit AccountStatus.deactivated = raise account_disabled
  admit AccountStatus.active = pure tt

  abbrev pub new_device : Uuid → LoginRequest → ℕ → Device
  new_device user_id req n = record {
    id = before_create 0 (env.new_uuid n 0);
    user_id = user_id;
    device_name = some (or_default req.device_name "Unknown device");
    platform = or_default req.platform "web";
    push_token = none;
    push_token_updated_at = none;
    status = DeviceStatus.active;
    last_active_at = none;
    created_at = env.now n;
  }

  -- `issued_at` is the zero time of Go, which is sent as it is.
  abbrev pub new_token : Uuid → Uuid → String → Time → ℕ → RefreshToken
  new_token user_id device_id hash expires n = record {
    id = before_create 0 (env.new_uuid n 0);
    user_id = user_id;
    device_id = device_id;
    token_hash = hash;
    issued_at = 0;
    expires_at = expires;
    revoked_at = none;
  }

  -- Login up to the switch on the status: the account that is let in.
  unfoldable pub authenticate : LoginRequest → Action (World env) Error User
  authenticate req = do
    found ← find_by_identifier env crypto req.identifier
    user ← or_fail found invalid_credentials
    ensure (crypto.bcrypt_matches user.password_hash req.password) invalid_credentials
    admit user.account_status
    pure user

  -- The rest of Login: the device, the two tokens, and the row of the refresh token.
  unfoldable pub open_session : User → LoginRequest → Action (World env) Error LoginResult
  open_session user req = do
    device ← on_error (insert devices_table (new_device user.id req)) (λ e. raise internal)
    access ←
        generate_access_token env crypto secret (env.uuid_string user.id)
          (env.uuid_string device.id)
    refresh ← generate_refresh_token env crypto
    stored ←
        on_error
          (insert refresh_tokens_table
            (λ n. new_token user.id device.id refresh.1 (env.now n + refresh_token_ttl) n))
          (λ e. raise internal)
    pure (record {
      access_token = access.0;
      refresh_token = refresh.0;
      expires_at = access.1;
      user = user;
    })

  unfoldable pub login : LoginRequest → Action (World env) Error LoginResult
  login req = do user ← authenticate req; open_session user req

  unfoldable pub find_token : String → Action (World env) Error (Option RefreshToken)
  find_token raw =
      query
        (λ db n.
          first_where (λ t. t.id) (λ t. str_eq t.token_hash (hash_refresh_token env crypto raw))
            db.refresh_tokens)
        internal

  unfoldable pub revoke : RefreshToken → Action (World env) Error (Unit {0})
  revoke t =
      execute
        (λ db n. record db {
          refresh_tokens = map (revoke_token t.id (env.now n)) db.refresh_tokens;
        })
        internal

  -- Nothing to do for a token that was revoked before.
  unfoldable pub end_session : Option RefreshToken → Action (World env) Error (Unit {0})
  end_session none = pure tt
  end_session (some t) = if is_some t.revoked_at then pure tt else do
    revoke t
    execute (λ db n. record db { devices = map (revoke_device t.device_id) db.devices }) internal

  unfoldable pub logout : String → Action (World env) Error (Unit {0})
  logout raw = do found ← find_token raw; end_session found

  unfoldable pub check_expiry : RefreshToken → Action (World env) Error (Unit {0})
  check_expiry t w = ensure (not (ltb t.expires_at (env.now w.tick))) refresh_token_expired w

  -- Revoke the old token, then insert the new one, at the time that the source calls `now`.
  unfoldable pub rotate_at :
      Time → RefreshToken → Uuid → String → Action (World env) Error (Unit {0})
  rotate_at now t user_id hash = do
    revoke t
    stored ←
        on_error
          (insert refresh_tokens_table
            (new_token user_id t.device_id hash (now + refresh_token_ttl)))
          (λ e. raise internal)
    ignored {E = Error} (
        execute (λ db n. record db { devices = map (touch_device t.device_id now) db.devices })
          internal)

  unfoldable pub rotate : RefreshToken → Uuid → String → Action (World env) Error (Unit {0})
  rotate t user_id hash w = rotate_at (env.now w.tick) t user_id hash w

  -- Refresh up to the comparison of the times: the token that may be exchanged.
  unfoldable pub exchangeable : String → Action (World env) Error RefreshToken
  exchangeable raw = do
    found ← find_token raw
    t ← or_fail found refresh_token_invalid
    ensure (not (is_some t.revoked_at)) refresh_token_invalid
    check_expiry t
    pure t

  -- The rest of Refresh.
  unfoldable pub exchange : RefreshToken → Action (World env) Error LoginResult
  exchange t = do
    found ← query (λ db n. first_where (λ u. u.id) (λ u. u.id == t.user_id) db.users) internal
    user ← or_fail found user_not_found
    access ←
        generate_access_token env crypto secret (env.uuid_string user.id)
          (env.uuid_string t.device_id)
    fresh ← generate_refresh_token env crypto
    rotate t user.id fresh.1
    pure (record {
      access_token = access.0;
      refresh_token = fresh.0;
      expires_at = access.1;
      user = user;
    })

  unfoldable pub refresh : String → Action (World env) Error LoginResult
  refresh raw = do t ← exchangeable raw; exchange t
