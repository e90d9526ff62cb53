-- ===== src/Auth/Accounts.antt =====
-- internal/auth/service.go: Register, VerifyOTP and ResendOTP.
pub mod Registered
pub mod Activated
use flutter_whatsapp_clone.Base.{
  ℕ, Bool, not, ◌&&◌, ◌||◌, Option, none, some, map, String, length, select_where, first_where,
  ◌==◌, str_eq, if◌then◌else◌,
}
use flutter_whatsapp_clone.Models.{Time, User, AccountStatus, account_is_active}
use flutter_whatsapp_clone.Crypto.{Crypto}
use flutter_whatsapp_clone.Action.{Action, pure, raise, ◌>>=◌, ◌>>◌, on_error, ensure, or_fail}
use flutter_whatsapp_clone.Store.{
  Env, World, InsertError, duplicate_key, failed, users_table, query, execute, insert, ignored,
  same_text, before_create,
}
use flutter_whatsapp_clone.Otp
use flutter_whatsapp_clone.Auth.Defs.{
  RegisterRequest, VerifyOtpRequest, Error, has_identifier, identifier_required, identifier_taken,
  user_not_found, already_verified, internal, too_many_attempts, invalid_otp, otp_expired, too_soon,
}

-- An empty field stands for none.
abbrev pub given : String → Option String
given s = if str_eq s "" then none else some s

-- The errors of internal/otp, under the names that the handler knows.
abbrev pub of_otp : Otp.Error → Error
of_otp Otp.too_many_attempts = too_many_attempts
of_otp Otp.invalid_code = invalid_otp
of_otp Otp.expired = otp_expired
of_otp Otp.too_soon = too_soon
of_otp Otp.internal = internal

module _ (env : Env) (crypto : Crypto) where
  -- The WHERE of the pre-check: of what the request gives.
  abbrev pub is_taken_by : RegisterRequest → User → Bool
  is_taken_by req u =
      same_text str_eq u.phone_number (given req.phone_number)
      || same_text env.citext_eq u.email (given req.email)

  abbrev pub new_user : RegisterRequest → String → ℕ → User
  new_user req hash n = record {
    id = before_create 0 (env.new_uuid n 0);
    phone_number = given req.phone_number;
    email = given req.email;
    password_hash = hash;
    name = req.name;
    profile_photo_url = none;
    about_text = none;
    account_status = AccountStatus.pending_verification;
    phone_verified_at = none;
    email_verified_at = none;
    last_seen_at = none;
    created_at = env.now n;
    updated_at = env.now n;
  }

  -- The phone number, or else the email.
  abbrev pub identifier_of : RegisterRequest → String
  identifier_of req = if str_eq req.phone_number "" then req.email else req.phone_number

  abbrev pub of_insert : InsertError → Error
  of_insert duplicate_key = identifier_taken
  of_insert failed = internal

  unfoldable pub hash_password : String → Action (World env) Error String
  hash_password password w = or_fail (crypto.bcrypt_hash w.tick password) internal w

  unfoldable pub register : RegisterRequest → Action (World env) Error User
  register req = do
    ensure (not (str_eq req.phone_number "" && str_eq req.email "")) identifier_required
    count ← query (λ db n. length (select_where (is_taken_by req) db.users)) internal
    ensure (count == 0) identifier_taken
    hash ← hash_password req.password
    user ← on_error (insert (users_table env) (new_user req hash)) (λ e. raise (of_insert e))
    ignored (Otp.generate env crypto (identifier_of req))
    pure user

  unfoldable pub find_by_identifier : String → Action (World env) Error (Option User)
  find_by_identifier identifier =
      query (λ db n. first_where (λ u. u.id) (has_identifier env identifier identifier) db.users)
        internal

  -- The columns are chosen by the row that was read, where Go compares the texts as they are; the row
  -- is found by its id, and gorm sets updated_at with it.
  abbrev pub activate_row : User → String → Time → User → User
  activate_row read identifier now u =
      if u.id == read.id
      then record u {
        account_status = AccountStatus.active;
        updated_at = now;
        phone_verified_at =
            if same_text str_eq read.phone_number (some identifier)
            then some now
            else u.phone_verified_at;
        email_verified_at =
            if same_text str_eq read.phone_number (some identifier)
            then u.email_verified_at
            else if same_text str_eq read.email (some identifier)
            then some now
            else u.email_verified_at;
      }
      else u

  -- gorm's Updates writes the columns back into the row that was read.
  unfoldable pub activate_at : Time → User → String → Action (World env) Error User
  activate_at now user identifier = do
    execute (λ db n. record db { users = map (activate_row user identifier (env.now n)) db.users })
        internal
    pure (record (activate_row user identifier now user) { account_status = AccountStatus.active })

  unfoldable pub activate : User → String → Action (World env) Error User
  activate user identifier w = activate_at (env.now w.tick) user identifier w

  unfoldable pub verify_otp : VerifyOtpRequest → Action (World env) Error User
  verify_otp req = do
    on_error (Otp.verify env crypto req.identifier req.code) (λ e. raise (of_otp e))
    found ← find_by_identifier req.identifier
    user ← or_fail found user_not_found
    activate user req.identifier

  unfoldable pub resend_otp : String → Action (World env) Error (Unit {0})
  resend_otp identifier = do
    found ← find_by_identifier identifier
    user ← or_fail found user_not_found
    ensure (not (account_is_active user.account_status)) already_verified
    code ← on_error (Otp.generate env crypto identifier) (λ e. raise (of_otp e))
    pure tt
