-- ===== src/Refusals/Bundles.antt =====
-- internal/keys/service.go: a request for a key bundle that is refused has claimed no one-time prekey.
use flutter_whatsapp_clone.Base.{
  arith, String, Bool, true, false, not, Option, none, some, List, [], ◌∷◌, length, ◌==◌, ◌≡◌, refl,
  inl, inr, sym, ap, ◌∙◌,
}
use flutter_whatsapp_clone.Models.{Uuid, Device, SignalIdentityKey, SignalSignedPrekey}
use flutter_whatsapp_clone.Action.{ok, err, ensure, pure, raise, ◌>>=◌, ◌>>◌}
use flutter_whatsapp_clone.Action.Rules.{bind_ok, bind_err}
use flutter_whatsapp_clone.Store.{Env, World}
use flutter_whatsapp_clone.Store.Keeps.{Keeps, keeps_rules}
use flutter_whatsapp_clone.Store.Keeps.{reading}
use flutter_whatsapp_clone.Keys.Defs as Key
use flutter_whatsapp_clone.Keys.Bundle.{
  claim_one_time_prekey, find_identity_key, find_signed_prekey, claim_for, prekeys_for,
  bundle_device, add_bundle, bundle_devices, get_user_key_bundle,
}
use flutter_whatsapp_clone.Refusals.Rules.{
  Spares, Grave, Spares-bind_reads, Grave-bind, grave_rules,
}

abbrev pub key_internal : Key.Error → Bool
key_internal Key.internal = true
key_internal _ = false

module _ (env : Env) where
  claim-Grave : (d : Uuid) → Grave env key_internal (claim_one_time_prekey env d)
  unfolding claim_one_time_prekey
  claim-Grave d = search grave_rules

  find_identity-Grave : (d : Uuid) → Grave env key_internal (find_identity_key env d)
  unfolding find_identity_key
  find_identity-Grave d = search grave_rules

  find_signed-Grave : (d : Uuid) → Grave env key_internal (find_signed_prekey env d)
  unfolding find_signed_prekey
  find_signed-Grave d = search grave_rules

  claim_for-Grave :
      (d : Device) (i : SignalIdentityKey) (o : Option SignalSignedPrekey)
      → Grave env key_internal (claim_for env d i o)
  unfolding claim_for
  claim_for-Grave d i none = search grave_rules
  claim_for-Grave d i (some s) = search (grave_rules, claim-Grave)

  prekeys_for-Grave :
      (d : Device) (o : Option SignalIdentityKey) → Grave env key_internal (prekeys_for env d o)
  unfolding prekeys_for
  prekeys_for-Grave d none = search grave_rules
  prekeys_for-Grave d (some i) = search (grave_rules, find_signed-Grave, claim_for-Grave)

  bundle_device-Grave : (d : Device) → Grave env key_internal (bundle_device env d)
  unfolding bundle_device
  bundle_device-Grave d = search (grave_rules, find_identity-Grave, prekeys_for-Grave)

  bundle_devices-Grave : (ds : List Device) → Grave env key_internal (bundle_devices env ds)
  unfolding bundle_devices
  bundle_devices-Grave [] = search grave_rules
  bundle_devices-Grave (d ∷ ds) =
      Grave-bind _ _ (bundle_device-Grave d)
        (λ bundle. Grave-bind _ _ (bundle_devices-Grave ds) (λ bundles. search grave_rules))

  find_identity_reads : (d : Uuid) → Keeps env reading (find_identity_key env d)
  unfolding find_identity_key
  find_identity_reads d = search keeps_rules

  find_signed_reads : (d : Uuid) → Keeps env reading (find_signed_prekey env d)
  unfolding find_signed_prekey
  find_signed_reads d = search keeps_rules

  -- A device that gets no bundle has lost no key.
  claim_for-none :
      (d : Device) (i : SignalIdentityKey) (o : Option SignalSignedPrekey) (w w' : World env)
      → claim_for env d i o w ≡ (ok none, w')
      → w'.db ≡ w.db
  unfolding claim_for pure
  claim_for-none d i none w w' h = sym (ap (λ r. r.1.db) h)
  claim_for-none d i (some s) w w' h = let (out, v, e, p) = bind_ok _ _ w w' none h in cc

  prekeys_for-none :
      (d : Device) (o : Option SignalIdentityKey) (w w' : World env)
      → prekeys_for env d o w ≡ (ok none, w')
      → w'.db ≡ w.db
  unfolding prekeys_for pure
  prekeys_for-none d none w w' h = sym (ap (λ r. r.1.db) h)
  prekeys_for-none d (some i) w w' h =
      let (s, v, e, p) = bind_ok _ _ w w' none h in
      claim_for-none d i s v w' p ∙ sym (ap (λ r. r.1.db) e) ∙ (find_signed_reads d.id).at w

  bundle_device-none :
      (d : Device) (w w' : World env) → bundle_device env d w ≡ (ok none, w') → w'.db ≡ w.db
  unfolding bundle_device
  bundle_device-none d w w' h =
      let (o, v, e, p) = bind_ok _ _ w w' none h in
      prekeys_for-none d o v w' p ∙ sym (ap (λ r. r.1.db) e) ∙ (find_identity_reads d.id).at w

  nothing_added :
      (d : Device) (o : Option Key.DeviceKeyBundle) (bs : List Key.DeviceKeyBundle)
      (w v u w' : World env)
      → bundle_device env d w ≡ (ok o, v)
      → (bs ≡ [] → u.db ≡ v.db)
      → pure {E = Key.Error} (add_bundle env o bs) u ≡ (ok [], w')
      → w'.db ≡ w.db
  unfolding pure
  nothing_added d none [] w v u w' e f q =
      sym (ap (λ r. r.1.db) q) ∙ f refl ∙ bundle_device-none d w v e
  nothing_added d none (b ∷ bs) w v u w' e f q = cc
  nothing_added d (some b) bs w v u w' e f q = cc

  bundle_devices_nil :
      (ds : List Device) (w w' : World env) → bundle_devices env ds w ≡ (ok [], w') → w'.db ≡ w.db
  unfolding bundle_devices pure
  bundle_devices_nil [] w w' h = sym (ap (λ r. r.1.db) h)
  bundle_devices_nil (d ∷ ds) w w' h =
      let (o, v, e, p) = bind_ok _ _ w w' [] h in
      let (bs, u, f, q) = bind_ok _ _ v w' [] p in
      nothing_added d o bs w v u w' e
        (λ none_left. bundle_devices_nil ds v u (f ∙ ap (λ xs. (ok xs, u)) none_left)) q

  finish :
      (ds : List Device) (bs : List Key.DeviceKeyBundle)
      (R : List Key.DeviceKeyBundle → Key.KeyBundleResponse) (w v w' : World env) (x : Key.Error)
      → bundle_devices env ds w ≡ (ok bs, v)
      → (do ensure (not (length bs == 0)) Key.no_keys_available; pure (R bs)) v ≡ (err x, w')
      → w'.db ≡ w.db
  unfolding ensure ◌>>=◌ pure raise
  finish ds [] R w v w' x e p = sym (ap (λ r. r.1.db) p) ∙ bundle_devices_nil ds w v e
  finish ds (b ∷ bs) R w v w' x e p = ground arith

  finish-Spares :
      (ds : List Device) (R : List Key.DeviceKeyBundle → Key.KeyBundleResponse)
      → Spares env key_internal (do
        bundles ← bundle_devices env ds
        ensure (not (length bundles == 0)) Key.no_keys_available
        pure (R bundles))
  finish-Spares ds R = record {
    spared = λ w w' x h g. elim (bind_err _ _ w w' x h) [
      | inl e ↦ let known = (bundle_devices-Grave ds).all w w' x e in cc
      | inr (bs, v, e, p) ↦ finish ds bs R w v w' x e p
    ];
  }

  pub bundle-Spares : (id : String) → Spares env key_internal (get_user_key_bundle env id)
  unfolding get_user_key_bundle
  bundle-Spares id = Spares-bind_reads _ _ (search keeps_rules) (λ u.
      Spares-bind_reads _ _ (search keeps_rules) (λ found.
        Spares-bind_reads _ _ (search keeps_rules) (λ user.
          Spares-bind_reads _ _ (search keeps_rules) (λ devices. finish-Spares devices _))))
