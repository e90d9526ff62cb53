-- ===== src/Steps/Accounts.antt =====
-- The services of otp and auth, as the statements that they issue, from the first to the last.
use flutter_whatsapp_clone.Action.{pure, or_fail, ensure, ◌>>=◌}
use flutter_whatsapp_clone.Base.{ltb, ◌+◌, not, ℕ, Option, none, some, String}
use flutter_whatsapp_clone.Models.{Uuid, AccountStatus, User, RefreshToken}
use flutter_whatsapp_clone.Crypto.{Crypto}
use flutter_whatsapp_clone.Store.{Env}
use flutter_whatsapp_clone.Store.Keeps.{Order, Keeps, Keeps-here, Keeps-bind, keeps_rules}
use flutter_whatsapp_clone.Steps.Writes.{Writes}
use flutter_whatsapp_clone.Otp
use flutter_whatsapp_clone.Auth.Defs.{
  refresh_token_expired, internal, RegisterRequest, VerifyOtpRequest, LoginRequest,
}
use flutter_whatsapp_clone.Auth.Tokens.{
  access_token_ttl, hash_refresh_token, claims_for, generate_access_token, generate_refresh_token,
}
use flutter_whatsapp_clone.Auth.Accounts.{
  activate_at, activate, hash_password, find_by_identifier, register, verify_otp, resend_otp,
}
use flutter_whatsapp_clone.Auth.Sessions.{
  rotate_at, admit, authenticate, open_session, login, find_token, revoke, end_session, logout,
  check_expiry, rotate, exchangeable, exchange, refresh,
}

module _ (env : Env) (O : Order) (writes : Writes env O) (crypto : Crypto) where
  draw_code-Keeps : Keeps env O (Otp.draw_code env crypto)
  unfolding Otp.draw_code
  draw_code-Keeps =
      Keeps-here
        (λ w. or_fail (Otp.generate_numeric_code env crypto w.tick 0 Otp.code_length) Otp.internal)
        (λ v. search keeps_rules)

  generate-Keeps : (identifier : String) → Keeps env O (Otp.generate env crypto identifier)
  unfolding Otp.generate
  generate-Keeps identifier = search (keeps_rules, draw_code-Keeps) depth 12

  count_attempt-Keeps :
      (identifier : String) → Keeps env O (Otp.count_attempt env crypto identifier)
  unfolding Otp.count_attempt
  count_attempt-Keeps identifier = search keeps_rules

  start_expiry-Keeps :
      (identifier : String) (n : ℕ) → Keeps env O (Otp.start_expiry env crypto identifier n)
  unfolding Otp.start_expiry
  start_expiry-Keeps identifier n = search keeps_rules

  verify-Keeps : (identifier code : String) → Keeps env O (Otp.verify env crypto identifier code)
  unfolding Otp.verify
  verify-Keeps identifier code =
      search (keeps_rules, count_attempt-Keeps, start_expiry-Keeps) depth 9

  hash_password-Keeps : (p : String) → Keeps env O (hash_password env crypto p)
  unfolding hash_password
  hash_password-Keeps p =
      Keeps-here (λ w. or_fail (crypto.bcrypt_hash w.tick p) internal) (λ v. search keeps_rules)

  find_by_identifier-Keeps :
      (identifier : String) → Keeps env O (find_by_identifier env crypto identifier)
  unfolding find_by_identifier
  find_by_identifier-Keeps identifier = search keeps_rules

  pub register-Keeps : (req : RegisterRequest) → Keeps env O (register env crypto req)
  unfolding register
  register-Keeps req =
      search (keeps_rules, hash_password-Keeps, writes.insert_users, generate-Keeps) depth 12

  activate-Keeps :
      (user : User) (identifier : String) → Keeps env O (activate env crypto user identifier)
  unfolding activate activate_at
  activate-Keeps user identifier =
      Keeps-here (λ w. activate_at env crypto (env.now w.tick) user identifier)
        (λ v.
          Keeps-bind _ _ (writes.update_users internal crypto user identifier)
            (λ u. search keeps_rules))

  pub verify_otp-Keeps : (req : VerifyOtpRequest) → Keeps env O (verify_otp env crypto req)
  unfolding verify_otp
  verify_otp-Keeps req = Keeps-bind _ _ (search (keeps_rules, verify-Keeps)) (λ a.
      Keeps-bind _ _ (find_by_identifier-Keeps req.identifier)
        (λ found. Keeps-bind _ _ (search keeps_rules) (λ user. activate-Keeps user req.identifier)))

  pub resend_otp-Keeps : (identifier : String) → Keeps env O (resend_otp env crypto identifier)
  unfolding resend_otp
  resend_otp-Keeps identifier =
      search (keeps_rules, find_by_identifier-Keeps, generate-Keeps) depth 12

  module _ (secret : String) where
    admit-Keeps : (s : AccountStatus) → Keeps env O (admit env crypto secret s)
    unfolding admit
    admit-Keeps AccountStatus.pending_verification = search keeps_rules
    admit-Keeps AccountStatus.active = search keeps_rules
    admit-Keeps AccountStatus.deactivated = search keeps_rules
    admit-Keeps AccountStatus.banned = search keeps_rules

    authenticate-Keeps : (req : LoginRequest) → Keeps env O (authenticate env crypto secret req)
    unfolding authenticate
    authenticate-Keeps req = search (keeps_rules, find_by_identifier-Keeps, admit-Keeps) depth 9

    access_token-Keeps :
        (user device : String) → Keeps env O (generate_access_token env crypto secret user device)
    unfolding generate_access_token
    access_token-Keeps user device =
        Keeps-here
          (λ w. do
            token ←
                or_fail (crypto.sign secret (claims_for crypto user device (env.now w.tick)))
                  internal
            pure (token, env.now w.tick + access_token_ttl))
          (λ v. search keeps_rules)

    refresh_token-Keeps : Keeps env O (generate_refresh_token env crypto)
    unfolding generate_refresh_token
    refresh_token-Keeps =
        Keeps-here
          (λ w. do
            raw ← or_fail (crypto.random_token w.tick) internal
            pure (raw, hash_refresh_token env crypto raw))
          (λ v. search keeps_rules)

    open_session-Keeps :
        (u : User) (req : LoginRequest) → Keeps env O (open_session env crypto secret u req)
    unfolding open_session
    open_session-Keeps u req =
        search
          (
            keeps_rules, writes.insert_devices, access_token-Keeps, refresh_token-Keeps,
            writes.insert_tokens,
          )
          depth 12

    pub login-Keeps : (req : LoginRequest) → Keeps env O (login env crypto secret req)
    unfolding login
    login-Keeps req = search (keeps_rules, authenticate-Keeps, open_session-Keeps)

    find_token-Keeps : (raw : String) → Keeps env O (find_token env crypto secret raw)
    unfolding find_token
    find_token-Keeps raw = search keeps_rules

    revoke-Keeps : (t : RefreshToken) → Keeps env O (revoke env crypto secret t)
    unfolding revoke
    revoke-Keeps t = writes.update_tokens internal t.id

    end_session-Keeps : (o : Option RefreshToken) → Keeps env O (end_session env crypto secret o)
    unfolding end_session
    end_session-Keeps none = search keeps_rules
    end_session-Keeps (some t) = search (keeps_rules, revoke-Keeps, writes.revoke_devices)

    pub logout-Keeps : (raw : String) → Keeps env O (logout env crypto secret raw)
    unfolding logout
    logout-Keeps raw = search (keeps_rules, find_token-Keeps, end_session-Keeps)

    check_expiry-Keeps : (t : RefreshToken) → Keeps env O (check_expiry env crypto secret t)
    unfolding check_expiry
    check_expiry-Keeps t =
        Keeps-here (λ w. ensure (not (ltb t.expires_at (env.now w.tick))) refresh_token_expired)
          (λ v. search keeps_rules)

    rotate-Keeps :
        (t : RefreshToken) (user : Uuid) (hash : String)
        → Keeps env O (rotate env crypto secret t user hash)
    unfolding rotate rotate_at
    rotate-Keeps t user hash =
        Keeps-here (λ w. rotate_at env crypto secret (env.now w.tick) t user hash)
          (λ v.
            search (keeps_rules, revoke-Keeps, writes.insert_tokens, writes.touch_devices) depth 9)

    exchangeable-Keeps : (raw : String) → Keeps env O (exchangeable env crypto secret raw)
    unfolding exchangeable
    exchangeable-Keeps raw = search (keeps_rules, find_token-Keeps, check_expiry-Keeps) depth 9

    exchange-Keeps : (t : RefreshToken) → Keeps env O (exchange env crypto secret t)
    unfolding exchange
    exchange-Keeps t =
        search (keeps_rules, access_token-Keeps, refresh_token-Keeps, rotate-Keeps) depth 12

    pub refresh-Keeps : (raw : String) → Keeps env O (refresh env crypto secret raw)
    unfolding refresh
    refresh-Keeps raw = search (keeps_rules, exchangeable-Keeps, exchange-Keeps)
