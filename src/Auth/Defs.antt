-- ===== src/Auth/Defs.antt =====
-- internal/auth/dto.go and service.go: the requests, results and errors.
use flutter_whatsapp_clone.Base.{Bool, ◌||◌, String, str_eq}
use flutter_whatsapp_clone.Models.{User, Time}
use flutter_whatsapp_clone.Store.{Env, same_text}
use flutter_whatsapp_clone.Base.{some}

pub record RegisterRequest : Type 0 where
  pub name : String
  pub phone_number : String
  pub email : String
  pub password : String

pub record VerifyOtpRequest : Type 0 where
  pub identifier : String
  pub code : String

pub record LoginRequest : Type 0 where
  pub identifier : String
  pub password : String
  pub device_name : String
  pub platform : String

pub record LoginResult : Type 0 where
  pub access_token : String
  pub refresh_token : String
  pub expires_at : Time
  pub user : User

-- The sentinel errors; the last four are those of internal/otp, and `internal` is any other error.
pub data Error : Type 0 where
  identifier_required identifier_taken user_not_found invalid_credentials : Error
  account_not_verified account_disabled refresh_token_invalid refresh_token_expired : Error
  already_verified internal : Error
  too_many_attempts invalid_otp otp_expired too_soon : Error

-- WHERE phone_number = ? OR email = ?
abbrev pub has_identifier : Env → String → String → User → Bool
has_identifier env phone email u =
    same_text str_eq u.phone_number (some phone) || same_text env.citext_eq u.email (some email)
