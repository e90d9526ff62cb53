-- ===== src/Keys/Handler.antt =====
-- internal/keys/handler.go: the answers to POST /users/keys and GET /users/:userId/keys.
use flutter_whatsapp_clone.Base.{ℕ, Bool, String, Option, none, some}
use flutter_whatsapp_clone.Store.{Env}
use flutter_whatsapp_clone.Web.{
  Reply, failure, json, internal_error, Handler, reply, answer, bound, parsed,
}
use flutter_whatsapp_clone.Auth.Middleware.{Session}
use flutter_whatsapp_clone.Keys.Defs.{
  UploadKeysRequest, UploadResult, KeyBundleResponse, Error, user_not_found, no_keys_available,
}
use flutter_whatsapp_clone.Keys.Validation.{ValidationError, validate}
use flutter_whatsapp_clone.Keys.Upload.{upload_keys}
use flutter_whatsapp_clone.Keys.Bundle.{get_user_key_bundle}

pub record UploadKeysResponse : Type 0 where
  pub identity_key_stored : Bool
  pub signed_prekey_stored : Bool
  pub one_time_prekeys_stored : ℕ

module _ {P : Type 0} where
  unfoldable pub bundle_failure : Error → Reply P
  bundle_failure user_not_found = failure 404 "USER_NOT_FOUND"
  bundle_failure no_keys_available = failure 404 "NO_KEYS_AVAILABLE"
  bundle_failure _ = internal_error

abbrev pub uploaded : UploadResult → UploadKeysResponse
uploaded r = record {
  identity_key_stored = r.identity_key_stored;
  signed_prekey_stored = r.signed_prekey_stored;
  one_time_prekeys_stored = r.one_time_prekeys_stored;
}

module _ {env : Env} {P : Type 0} where
  -- 400 where Validate complains.
  unfoldable pub checked : Option ValidationError → Handler env P → Handler env P
  unfolding reply
  checked (some e) h = reply (failure 400 "INVALID_KEY_FORMAT")
  checked none h = h

module _ (env : Env) where
  unfoldable pub handle_upload_keys :
      Session → Option UploadKeysRequest → Handler env UploadKeysResponse
  handle_upload_keys session body = bound body λ req. checked (validate req) (
      parsed (env.parse_uuid session.device_id) λ device.
        answer (upload_keys env device req) (λ e. internal_error) (λ r. json 200 (uploaded r)))

  unfoldable pub handle_get_user_keys : String → Handler env KeyBundleResponse
  handle_get_user_keys user_id =
      answer (get_user_key_bundle env user_id) bundle_failure (λ bundle. json 200 bundle)
