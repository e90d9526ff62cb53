-- ===== src/Keys/Defs.antt =====
-- internal/keys/dto.go: the requests and responses of the two key endpoints.
use flutter_whatsapp_clone.Base.{ℕ, ℤ, Bool, String, Option, List}

pub record SignedPrekeyInput : Type 0 where
  pub key_id : ℤ
  pub public_key : String
  pub signature : String

pub record OneTimePrekeyInput : Type 0 where
  pub key_id : ℤ
  pub public_key : String

pub record UploadKeysRequest : Type 0 where
  pub identity_public_key : String
  pub registration_id : ℤ
  pub signed_prekey : Option SignedPrekeyInput
  pub one_time_prekeys : List OneTimePrekeyInput

pub record UploadResult : Type 0 where
  pub identity_key_stored : Bool
  pub signed_prekey_stored : Bool
  pub one_time_prekeys_stored : ℕ

pub record IdentityKeyOutput : Type 0 where
  pub public_key : String
  pub registration_id : ℤ

pub record SignedPrekeyOutput : Type 0 where
  pub key_id : ℤ
  pub public_key : String
  pub signature : String

pub record OneTimePrekeyOutput : Type 0 where
  pub key_id : ℤ
  pub public_key : String

pub record DeviceKeyBundle : Type 0 where
  pub device_id : String
  pub identity_key : IdentityKeyOutput
  pub signed_prekey : SignedPrekeyOutput
  pub one_time_prekey : Option OneTimePrekeyOutput

pub record KeyBundleResponse : Type 0 where
  pub user_id : String
  pub devices : List DeviceKeyBundle

-- ErrUserNotFound and ErrNoKeysAvailable; `internal` is any other error.
pub data Error : Type 0 where
  user_not_found no_keys_available internal : Error
