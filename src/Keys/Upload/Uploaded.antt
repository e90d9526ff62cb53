-- ===== src/Keys/Upload/Uploaded.antt =====
-- internal/keys/service.go: how an upload ends.
use flutter_whatsapp_clone.Keys.Upload.Parts.{Replaced}
use flutter_whatsapp_clone.Base.{◌≡◌, ◌++◌, length, true, ◌==◌, not, select_where}
use flutter_whatsapp_clone.Action.{Result, ok, err, pure}
use flutter_whatsapp_clone.Keys.Upload.{
  World, UploadResult, pure, Db, UploadKeysRequest, ℕ, Uuid, List, Env, SignalIdentityKey,
  one_time_rows,
}
use flutter_whatsapp_clone.Keys.Defs.{Error}
use mathlib.Core.List.{Mem}
use flutter_whatsapp_clone.Keys.Upload.Rotation.{Rotated}

module _ (env : Env) (device : Uuid) where
  pub record Uploaded (req : UploadKeysRequest) (before after : Db) (res : UploadResult)
      : Type 0 where
    pub identity :
        (k : SignalIdentityKey) × Mem k after.identity_keys
        × (k.device_id ≡ device)
        × (k.identity_public_key ≡ req.identity_public_key)
        × (k.registration_id ≡ req.registration_id)
    pub other_identities :
        select_where (λ k. not (k.device_id == device)) after.identity_keys
        ≡ select_where (λ k. not (k.device_id == device)) before.identity_keys
    pub signed :
        Replaced env device req.signed_prekey before.signed_prekeys after.signed_prekeys
          res.signed_prekey_stored
    pub one_time_at : ℕ
    pub one_time :
        after.one_time_prekeys
        ≡ before.one_time_prekeys ++ one_time_rows env device one_time_at 0 req.one_time_prekeys
    pub flags :
        (res.identity_key_stored ≡ true)
        × (res.one_time_prekeys_stored ≡ length req.one_time_prekeys)
    pub tables : after ≡ record before {
      identity_keys = after.identity_keys;
      signed_prekeys = after.signed_prekeys;
      one_time_prekeys = after.one_time_prekeys;
    }

  -- An upload by how it ends.
  abbrev pub Uploads : UploadKeysRequest → Db → Result Error UploadResult × World env → Type 0
  Uploads req before (ok res, w) = Uploaded req before w.db res
  Uploads req before (err e, w) =
      Rotated env device req.signed_prekey before.signed_prekeys w.db.signed_prekeys
