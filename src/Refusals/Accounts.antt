-- ===== src/Refusals/Accounts.antt =====
-- internal/auth/service.go: the errors that the handlers answer with a status below 500 leave the tables
-- as they were.
use flutter_whatsapp_clone.Base.{arith, ℕ, String, Bool, true, false, not, ltb, refl}
use flutter_whatsapp_clone.Models.{AccountStatus, Uuid, User, RefreshToken}
use flutter_whatsapp_clone.Crypto.{Crypto}
use flutter_whatsapp_clone.Action.{ensure, or_fail, ◌>>=◌, pure, raise}
use flutter_whatsapp_clone.Store.{Env, users_table}
use flutter_whatsapp_clone.Store.Keeps.{Keeps, Keeps-here, keeps_rules}
use flutter_whatsapp_clone.Store.Keeps.{reading}
use flutter_whatsapp_clone.Otp.Reads.{generate_reads, verify_reads}
use flutter_whatsapp_clone.Auth.Defs.{
  RegisterRequest, VerifyOtpRequest, LoginRequest, Error, refresh_token_expired, internal,
}
use flutter_whatsapp_clone.Auth.Tokens.{generate_access_token, generate_refresh_token}
use flutter_whatsapp_clone.Auth.Accounts.{
  activate, activate_at, hash_password, find_by_identifier, register, verify_otp, resend_otp,
  of_insert, new_user,
}
use flutter_whatsapp_clone.Auth.Sessions.{
  admit, authenticate, open_session, login, find_token, revoke, check_expiry, rotate_at, rotate,
  exchangeable, exchange, refresh,
}
use flutter_whatsapp_clone.Refusals.Rules.{
  Spares, Grave, Spares-reads, Spares-Grave, Spares-insert, Spares-bind_reads, Spares-bind-Grave,
  grave_rules,
}

-- The only error that is answered with status 500.
abbrev pub is_internal : Error → Bool
is_internal internal = true
is_internal _ = false

module _ (env : Env) (crypto : Crypto) where
  find_reads : (identifier : String) → Keeps env reading (find_by_identifier env crypto identifier)
  unfolding find_by_identifier
  find_reads identifier = search keeps_rules

  hash_reads : (password : String) → Keeps env reading (hash_password env crypto password)
  unfolding hash_password
  hash_reads password =
      Keeps-here (λ w. or_fail (crypto.bcrypt_hash w.tick password) internal)
        (λ v. search keeps_rules)

  pub register-Spares : (req : RegisterRequest) → Spares env is_internal (register env crypto req)
  unfolding register
  register-Spares req = Spares-bind_reads _ _ (search keeps_rules) (λ u.
      Spares-bind_reads _ _ (search keeps_rules) (λ n.
        Spares-bind_reads _ _ (search keeps_rules) (λ v.
          Spares-bind_reads _ _ (search hash_reads) (λ hash.
            Spares-bind-Grave _ _
              (Spares-insert (users_table env) (new_user env crypto req hash)
                (λ e. of_insert env crypto e) refl)
              (λ user. search grave_rules)))))

  activate_at-Grave :
      (now : ℕ) (user : User) (identifier : String)
      → Grave env is_internal (activate_at env crypto now user identifier)
  unfolding activate_at
  activate_at-Grave now user identifier = search grave_rules depth 9

  activate-Grave :
      (user : User) (identifier : String)
      → Grave env is_internal (activate env crypto user identifier)
  unfolding activate
  activate-Grave user identifier = record {
    all = λ w w' e h. (activate_at-Grave (env.now w.tick) user identifier).all w w' e h;
  }

  pub verify_otp-Spares :
      (req : VerifyOtpRequest) → Spares env is_internal (verify_otp env crypto req)
  unfolding verify_otp
  verify_otp-Spares req = Spares-bind_reads _ _ (search (keeps_rules, verify_reads)) (λ u.
      Spares-bind_reads _ _ (search find_reads) (λ found.
        Spares-bind_reads _ _ (search keeps_rules)
          (λ user. Spares-Grave _ (activate-Grave user req.identifier))))

  pub resend_otp-Spares :
      (identifier : String) → Spares env is_internal (resend_otp env crypto identifier)
  unfolding resend_otp
  resend_otp-Spares identifier =
      Spares-reads _ (search (keeps_rules, find_reads, generate_reads) depth 12)

  module _ (secret : String) where
    admit_reads : (s : AccountStatus) → Keeps env reading (admit env crypto secret s)
    unfolding admit
    admit_reads AccountStatus.pending_verification = search keeps_rules
    admit_reads AccountStatus.banned = search keeps_rules
    admit_reads AccountStatus.deactivated = search keeps_rules
    admit_reads AccountStatus.active = search keeps_rules

    authenticate_reads :
        (req : LoginRequest) → Keeps env reading (authenticate env crypto secret req)
    unfolding authenticate
    authenticate_reads req = search (keeps_rules, find_reads, admit_reads) depth 12

    find_token_reads : (raw : String) → Keeps env reading (find_token env crypto secret raw)
    unfolding find_token
    find_token_reads raw = search keeps_rules

    check_expiry_reads : (t : RefreshToken) → Keeps env reading (check_expiry env crypto secret t)
    unfolding check_expiry
    check_expiry_reads t =
        Keeps-here (λ w. ensure (not (ltb t.expires_at (env.now w.tick))) refresh_token_expired)
          (λ v. search keeps_rules)

    exchangeable_reads : (raw : String) → Keeps env reading (exchangeable env crypto secret raw)
    unfolding exchangeable
    exchangeable_reads raw = search (keeps_rules, find_token_reads, check_expiry_reads) depth 12

    access-Grave :
        (u d : String) → Grave env is_internal (generate_access_token env crypto secret u d)
    unfolding generate_access_token or_fail ◌>>=◌ pure raise
    access-Grave u d = record { all = λ w w' e h. ground arith }

    refresh_token-Grave : Grave env is_internal (generate_refresh_token env crypto)
    unfolding generate_refresh_token or_fail ◌>>=◌ pure raise
    refresh_token-Grave = record { all = λ w w' e h. ground arith }

    access_reads : (u d : String) → Keeps env reading (generate_access_token env crypto secret u d)
    unfolding generate_access_token or_fail ◌>>=◌ pure raise
    access_reads u d = record { at = λ w. ground arith }

    refresh_token_reads : Keeps env reading (generate_refresh_token env crypto)
    unfolding generate_refresh_token or_fail ◌>>=◌ pure raise
    refresh_token_reads = record { at = λ w. ground arith }

    open_session-Grave :
        (user : User) (req : LoginRequest)
        → Grave env is_internal (open_session env crypto secret user req)
    unfolding open_session
    open_session-Grave user req = search (grave_rules, access-Grave, refresh_token-Grave) depth 12

    pub login-Spares : (req : LoginRequest) → Spares env is_internal (login env crypto secret req)
    unfolding login
    login-Spares req =
        Spares-bind_reads _ _ (authenticate_reads req)
          (λ user. Spares-Grave _ (open_session-Grave user req))

    revoke-Grave : (t : RefreshToken) → Grave env is_internal (revoke env crypto secret t)
    unfolding revoke
    revoke-Grave t = search grave_rules

    rotate_at-Grave :
        (now : ℕ) (t : RefreshToken) (u : Uuid) (hash : String)
        → Grave env is_internal (rotate_at env crypto secret now t u hash)
    unfolding rotate_at
    rotate_at-Grave now t u hash = search (grave_rules, revoke-Grave) depth 12

    rotate-Grave :
        (t : RefreshToken) (u : Uuid) (hash : String)
        → Grave env is_internal (rotate env crypto secret t u hash)
    unfolding rotate
    rotate-Grave t u hash = record {
      all = λ w w' e h. (rotate_at-Grave (env.now w.tick) t u hash).all w w' e h;
    }

    exchange-Spares : (t : RefreshToken) → Spares env is_internal (exchange env crypto secret t)
    unfolding exchange
    exchange-Spares t = Spares-bind_reads _ _ (search keeps_rules) (λ found.
        Spares-bind_reads _ _ (search keeps_rules) (λ user.
          Spares-bind_reads _ _ (search access_reads) (λ access.
            Spares-bind_reads _ _ refresh_token_reads
              (λ fresh. Spares-Grave _ (search (grave_rules, rotate-Grave) depth 9)))))

    pub refresh-Spares : (raw : String) → Spares env is_internal (refresh env crypto secret raw)
    unfolding refresh
    refresh-Spares raw = Spares-bind_reads _ _ (exchangeable_reads raw) (λ t. exchange-Spares t)
