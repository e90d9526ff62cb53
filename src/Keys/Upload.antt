-- ===== src/Keys/Upload.antt =====
-- internal/keys/service.go: UploadKeys.
pub mod Rotation
pub mod Parts
pub mod Uploaded
use flutter_whatsapp_clone.Base.{
  ℕ, suc, Bool, true, false, ◌&&◌, Option, none, some, List, [], ◌∷◌, map, any, length, ◌==◌,
  if◌then◌else◌,
}
use flutter_whatsapp_clone.Models.{Uuid, SignalIdentityKey, SignalSignedPrekey, SignalOneTimePrekey}
use flutter_whatsapp_clone.Action.{Action, pure, raise, ◌>>=◌, ◌>>◌, on_error}
use flutter_whatsapp_clone.Store.{
  Db, Env, World, signed_prekeys_table, one_time_prekeys_table, execute, insert, insert_rows,
  before_create,
}
use flutter_whatsapp_clone.Keys.Defs.{
  SignedPrekeyInput, OneTimePrekeyInput, UploadKeysRequest, UploadResult, Error, internal,
}

-- INSERT … ON CONFLICT (device_id) DO UPDATE of the key and the registration id.
unfoldable pub upsert_identity_key :
    SignalIdentityKey → List SignalIdentityKey → List SignalIdentityKey
upsert_identity_key new [] = new ∷ []
upsert_identity_key new (k ∷ ks) =
    let rest = upsert_identity_key new ks in
    if k.device_id == new.device_id
    then record k {
      identity_public_key = new.identity_public_key;
      registration_id = new.registration_id;
    }
      ∷ ks
    else k ∷ rest

-- The WHERE of the active signed prekeys of a device.
abbrev pub is_active_prekey_of : Uuid → SignalSignedPrekey → Bool
is_active_prekey_of device k = k.device_id == device && k.is_active

abbrev pub deactivated : Uuid → SignalSignedPrekey → SignalSignedPrekey
deactivated device k = if is_active_prekey_of device k then record k { is_active = false } else k

module _ (env : Env) where
  abbrev pub identity_row : Uuid → UploadKeysRequest → ℕ → SignalIdentityKey
  identity_row device req n = record {
    device_id = device;
    identity_public_key = req.identity_public_key;
    registration_id = req.registration_id;
    created_at = env.now n;
  }

  abbrev pub signed_row : Uuid → SignedPrekeyInput → ℕ → SignalSignedPrekey
  signed_row device k n = record {
    id = before_create 0 (env.new_uuid n 0);
    device_id = device;
    key_id = k.key_id;
    public_key = k.public_key;
    signature = k.signature;
    is_active = true;
    created_at = env.now n;
  }

  unfoldable pub one_time_rows : Uuid → ℕ → ℕ → List OneTimePrekeyInput → List SignalOneTimePrekey
  one_time_rows device n i [] = []
  one_time_rows device n i (k ∷ ks) =
      record {
        id = before_create 0 (env.new_uuid n i);
        device_id = device;
        key_id = k.key_id;
        public_key = k.public_key;
        is_used = false;
        created_at = env.now n;
        used_at = none;
      }
      ∷ one_time_rows device n (suc i) ks

  unfoldable pub store_identity_key : Uuid → UploadKeysRequest → Action (World env) Error (Unit {0})
  unfolding upsert_identity_key
  store_identity_key device req =
      execute
        (λ db n. record db {
          identity_keys = upsert_identity_key (identity_row device req n) db.identity_keys;
        })
        internal

  -- Rotation; the Boolean is the field of the result.
  unfoldable pub rotate_signed_prekey :
      Uuid → Option SignedPrekeyInput → Action (World env) Error Bool
  rotate_signed_prekey device none = pure false
  rotate_signed_prekey device (some k) = do
    execute (λ db n. record db { signed_prekeys = map (deactivated device) db.signed_prekeys })
        internal
    stored ← on_error (insert signed_prekeys_table (signed_row device k)) (λ e. raise internal)
    pure true

  unfoldable pub add_one_time_prekeys : Uuid → List OneTimePrekeyInput → Action (World env) Error ℕ
  unfolding one_time_rows
  add_one_time_prekeys device ks = if length ks == 0 then pure 0 else do
    rows ←
        on_error (insert_rows one_time_prekeys_table (λ n. one_time_rows device n 0 ks))
          (λ e. raise internal)
    pure (length rows)

  unfoldable pub upload_keys : Uuid → UploadKeysRequest → Action (World env) Error UploadResult
  upload_keys device req = do
    store_identity_key device req
    signed ← rotate_signed_prekey device req.signed_prekey
    count ← add_one_time_prekeys device req.one_time_prekeys
    pure (record {
      identity_key_stored = true;
      signed_prekey_stored = signed;
      one_time_prekeys_stored = count;
    })
