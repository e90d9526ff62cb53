-- ===== src/Auth/Handler.antt =====
-- internal/auth/handler.go: the answers to the six requests under /auth.
use flutter_whatsapp_clone.Base.{Bool, true, String, Option}
use flutter_whatsapp_clone.Models.{User, AccountStatus}
use flutter_whatsapp_clone.Crypto.{Crypto}
use flutter_whatsapp_clone.Store.{Env}
use flutter_whatsapp_clone.Web.{Reply, failure, json, internal_error, Handler, answer, bound}
use flutter_whatsapp_clone.Auth.Defs.{
  RegisterRequest, VerifyOtpRequest, LoginRequest, LoginResult, Error, identifier_required,
  identifier_taken, user_not_found, invalid_credentials, account_not_verified, account_disabled,
  refresh_token_invalid, refresh_token_expired, already_verified, too_many_attempts, invalid_otp,
  otp_expired, too_soon,
}
use flutter_whatsapp_clone.Auth.Accounts.{register, verify_otp, resend_otp}
use flutter_whatsapp_clone.Auth.Sessions.{login, logout, refresh}

pub record RegisterResponse : Type 0 where
  pub id : String
  pub name : String
  pub phone_number : Option String
  pub email : Option String
  pub created_at : String

pub record VerifyOtpResponse : Type 0 where
  pub verified : Bool
  pub account_status : AccountStatus

pub record ResendOtpRequest : Type 0 where
  pub identifier : String

pub record ResendOtpResponse : Type 0 where
  pub sent : Bool

pub record LoginUserSummary : Type 0 where
  pub id : String
  pub name : String
  pub phone_number : Option String
  pub email : Option String

pub record LoginResponse : Type 0 where
  pub access_token : String
  pub refresh_token : String
  pub token_type : String
  pub expires_at : String
  pub user : LoginUserSummary

pub record RefreshRequest : Type 0 where
  pub refresh_token : String

pub record LogoutRequest : Type 0 where
  pub refresh_token : String

pub record LogoutResponse : Type 0 where
  pub success : Bool

module _ {P : Type 0} where
  -- The switch of each handler.
  unfoldable pub register_failure : Error → Reply P
  register_failure identifier_required = failure 400 "IDENTIFIER_REQUIRED"
  register_failure identifier_taken = failure 409 "IDENTIFIER_TAKEN"
  register_failure _ = internal_error

  unfoldable pub verify_otp_failure : Error → Reply P
  verify_otp_failure too_many_attempts = failure 429 "OTP_TOO_MANY_ATTEMPTS"
  verify_otp_failure invalid_otp = failure 400 "INVALID_OTP"
  verify_otp_failure otp_expired = failure 400 "OTP_EXPIRED"
  verify_otp_failure user_not_found = failure 404 "USER_NOT_FOUND"
  verify_otp_failure _ = internal_error

  unfoldable pub resend_otp_failure : Error → Reply P
  resend_otp_failure user_not_found = failure 404 "USER_NOT_FOUND"
  resend_otp_failure already_verified = failure 400 "ALREADY_VERIFIED"
  resend_otp_failure too_soon = failure 429 "OTP_RESEND_TOO_SOON"
  resend_otp_failure _ = internal_error

  unfoldable pub login_failure : Error → Reply P
  login_failure invalid_credentials = failure 401 "INVALID_CREDENTIALS"
  login_failure account_not_verified = failure 403 "ACCOUNT_NOT_VERIFIED"
  login_failure account_disabled = failure 403 "ACCOUNT_DISABLED"
  login_failure _ = internal_error

  unfoldable pub refresh_failure : Error → Reply P
  refresh_failure refresh_token_invalid = failure 401 "REFRESH_TOKEN_INVALID"
  refresh_failure refresh_token_expired = failure 401 "REFRESH_TOKEN_EXPIRED"
  refresh_failure user_not_found = failure 404 "USER_NOT_FOUND"
  refresh_failure _ = internal_error

module _ (env : Env) where
  abbrev pub registered : User → RegisterResponse
  registered u = record {
    id = env.uuid_string u.id;
    name = u.name;
    phone_number = u.phone_number;
    email = u.email;
    created_at = env.format_time u.created_at;
  }

  abbrev pub login_response : LoginResult → LoginResponse
  login_response r = record {
    access_token = r.access_token;
    refresh_token = r.refresh_token;
    token_type = "Bearer";
    expires_at = env.format_time r.expires_at;
    user = record {
      id = env.uuid_string r.user.id;
      name = r.user.name;
      phone_number = r.user.phone_number;
      email = r.user.email;
    };
  }

  module _ (crypto : Crypto) where
    unfoldable pub handle_register : Option RegisterRequest → Handler env RegisterResponse
    handle_register body =
        bound body
          λ req. answer (register env crypto req) register_failure (λ u. json 201 (registered u))

    unfoldable pub handle_verify_otp : Option VerifyOtpRequest → Handler env VerifyOtpResponse
    handle_verify_otp body = bound body λ req.
        answer (verify_otp env crypto req) verify_otp_failure
          (λ u. json 200 (record { verified = true; account_status = u.account_status }))

    unfoldable pub handle_resend_otp : Option ResendOtpRequest → Handler env ResendOtpResponse
    handle_resend_otp body = bound body λ req.
        answer (resend_otp env crypto req.identifier) resend_otp_failure
          (λ u. json 200 (record { sent = true }))

    module _ (secret : String) where
      unfoldable pub handle_login : Option LoginRequest → Handler env LoginResponse
      handle_login body = bound body λ req.
          answer (login env crypto secret req) login_failure (λ r. json 200 (login_response r))

      unfoldable pub handle_logout : Option LogoutRequest → Handler env LogoutResponse
      handle_logout body = bound body λ req.
          answer (logout env crypto secret req.refresh_token) (λ e. internal_error)
            (λ u. json 200 (record { success = true }))

      unfoldable pub handle_refresh : Option RefreshRequest → Handler env LoginResponse
      handle_refresh body = bound body λ req.
          answer (refresh env crypto secret req.refresh_token) refresh_failure
            (λ r. json 200 (login_response r))
