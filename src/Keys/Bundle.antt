-- ===== src/Keys/Bundle.antt =====
-- internal/keys/service.go: GetUserKeyBundle and claimOneTimePrekey.
pub mod Claim
pub mod Devices
pub mod Answer
pub mod Marks
pub mod Pool
use flutter_whatsapp_clone.Base.{
  head?, ℕ, Bool, true, false, not, ◌&&◌, Option, none, some, List, [], ◌∷◌, map, String, length,
  select_where, first_where, order_by, leb, ◌==◌, str_eq, if◌then◌else◌,
}
use flutter_whatsapp_clone.Models.{
  Uuid, Time, User, Device, SignalIdentityKey, SignalSignedPrekey, SignalOneTimePrekey,
  account_is_active, device_is_active,
}
use flutter_whatsapp_clone.Action.{Action, pure, ◌>>=◌, ◌>>◌, ensure, or_fail}
use flutter_whatsapp_clone.Store.{Db, Env, World, query, execute_returning}
use flutter_whatsapp_clone.Keys.Defs.{
  OneTimePrekeyOutput, DeviceKeyBundle, KeyBundleResponse, Error, user_not_found, no_keys_available,
  internal,
}
use flutter_whatsapp_clone.Keys.Upload.{is_active_prekey_of}

abbrev pub mark_used : Uuid → Time → SignalOneTimePrekey → SignalOneTimePrekey
mark_used id now k = if k.id == id then record k { is_used = true; used_at = some now } else k

module _ (env : Env) where
  -- The WHERE of the subquery; SKIP LOCKED leaves out what others hold.
  abbrev pub is_unused_of : Uuid → ℕ → SignalOneTimePrekey → Bool
  is_unused_of device n k = k.device_id == device && not k.is_used && not (env.locked n k.id)

  -- The subquery: ORDER BY created_at LIMIT 1.
  unfoldable pub oldest_unused : Uuid → ℕ → List SignalOneTimePrekey → Option SignalOneTimePrekey
  oldest_unused device n rows = head? (
      order_by (λ x y. leb x.created_at y.created_at)
        (env.arrange _ n (select_where (is_unused_of device n) rows)))

  -- The UPDATE of the row that was picked, and what RETURNING gives of it.
  abbrev pub claim_of : ℕ → Db → Option SignalOneTimePrekey → Option SignalOneTimePrekey × Db
  claim_of n db none = (none, db)
  claim_of n db (some k) = (
    some k,
    record db { one_time_prekeys = map (mark_used k.id (env.now n)) db.one_time_prekeys },
  )

  abbrev pub claim : Uuid → Db → ℕ → Option SignalOneTimePrekey × Db
  claim device db n = claim_of n db (oldest_unused device n db.one_time_prekeys)

  -- Scan leaves an empty text where no row came back.
  abbrev pub claimed_output : Option SignalOneTimePrekey → Option OneTimePrekeyOutput
  claimed_output none = none
  claimed_output (some k) =
      if str_eq k.public_key ""
      then none
      else some (record { key_id = k.key_id; public_key = k.public_key })

  unfoldable pub claim_one_time_prekey :
      Uuid → Action (World env) Error (Option OneTimePrekeyOutput)
  unfolding oldest_unused
  claim_one_time_prekey device = do
    claimed ← execute_returning (claim device) internal
    pure (claimed_output claimed)

  unfoldable pub find_identity_key : Uuid → Action (World env) Error (Option SignalIdentityKey)
  find_identity_key device =
      query (λ db n. first_where (λ k. k.device_id) (λ k. k.device_id == device) db.identity_keys)
        internal

  unfoldable pub find_signed_prekey : Uuid → Action (World env) Error (Option SignalSignedPrekey)
  find_signed_prekey device =
      query (λ db n. first_where (λ k. k.id) (is_active_prekey_of device) db.signed_prekeys)
        internal

  abbrev pub bundle_of :
      Device → SignalIdentityKey → SignalSignedPrekey → Option OneTimePrekeyOutput → DeviceKeyBundle
  bundle_of device identity signed one_time = record {
    device_id = env.uuid_string device.id;
    identity_key = record {
      public_key = identity.identity_public_key;
      registration_id = identity.registration_id;
    };
    signed_prekey = record {
      key_id = signed.key_id;
      public_key = signed.public_key;
      signature = signed.signature;
    };
    one_time_prekey = one_time;
  }

  unfoldable pub claim_for :
      Device
      → SignalIdentityKey
      → Option SignalSignedPrekey
      → Action (World env) Error (Option DeviceKeyBundle)
  claim_for device identity none = pure none
  claim_for device identity (some signed) = do
    one_time ← claim_one_time_prekey device.id
    pure (some (bundle_of device identity signed one_time))

  unfoldable pub prekeys_for :
      Device → Option SignalIdentityKey → Action (World env) Error (Option DeviceKeyBundle)
  prekeys_for device none = pure none
  prekeys_for device (some identity) = do
    signed ← find_signed_prekey device.id
    claim_for device identity signed

  -- One turn of the loop: no bundle for a device whose keys are not ready.
  unfoldable pub bundle_device : Device → Action (World env) Error (Option DeviceKeyBundle)
  bundle_device device = do identity ← find_identity_key device.id; prekeys_for device identity

  abbrev pub add_bundle : Option DeviceKeyBundle → List DeviceKeyBundle → List DeviceKeyBundle
  add_bundle none bundles = bundles
  add_bundle (some b) bundles = b ∷ bundles

  unfoldable pub bundle_devices : List Device → Action (World env) Error (List DeviceKeyBundle)
  bundle_devices [] = pure []
  bundle_devices (d ∷ ds) = do
    bundle ← bundle_device d
    bundles ← bundle_devices ds
    pure (add_bundle bundle bundles)

  unfoldable pub get_user_key_bundle : String → Action (World env) Error KeyBundleResponse
  get_user_key_bundle user_id = do
    id ← or_fail (env.parse_uuid user_id) user_not_found
    found ←
        query
          (λ db n.
            first_where (λ u. u.id) (λ u. u.id == id && account_is_active u.account_status)
              db.users)
          internal
    user ← or_fail found user_not_found
    devices ←
        query
          (λ db n.
            env.arrange _ n
              (select_where (λ d. d.user_id == id && device_is_active d.status) db.devices))
          internal
    bundles ← bundle_devices devices
    ensure (not (length bundles == 0)) no_keys_available
    pure (record { user_id = env.uuid_string user.id; devices = bundles })
