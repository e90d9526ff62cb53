-- ===== src/Keys/Bundle/Devices.antt =====
-- internal/keys/service.go: for which devices GetUserKeyBundle answers with a bundle.
use flutter_whatsapp_clone.Base.{
  ℕ, Option, none, some, List, [], ◌∷◌, first_where, ◌==◌, ◌≡◌, refl, sym, ap, ◌∙◌, subst, ◌⊎◌, inl,
  inr, arith,
}
use flutter_whatsapp_clone.Models.{
  Uuid, Device, SignalIdentityKey, SignalSignedPrekey, SignalOneTimePrekey,
}
use flutter_whatsapp_clone.Action.{Result, ok, err, pure}
use flutter_whatsapp_clone.Action.Rules.{bind_ok}
use flutter_whatsapp_clone.Store.{Db, Env, World}
use flutter_whatsapp_clone.Store.Laws.{query_ok}
use flutter_whatsapp_clone.Store.Keeps.{
  Order, Keeps, Keeps-bind, Keeps-pure, Keeps-execute_returning,
}
use flutter_whatsapp_clone.Keys.Defs.{Error, internal, OneTimePrekeyOutput, DeviceKeyBundle}
use flutter_whatsapp_clone.Keys.Upload.{is_active_prekey_of}
use flutter_whatsapp_clone.Keys.Bundle.{
  claim, claim_of, claimed_output, claim_one_time_prekey, oldest_unused, find_identity_key,
  find_signed_prekey, bundle_of, claim_for, prekeys_for, bundle_device, add_bundle, bundle_devices,
}

-- The keys of a device, as the tables hold them.
abbrev pub identity_of : Db → Device → Option SignalIdentityKey
identity_of db d = first_where (λ k. k.device_id) (λ k. k.device_id == d.id) db.identity_keys

abbrev pub signed_of : Db → Device → Option SignalSignedPrekey
signed_of db d = first_where (λ k. k.id) (is_active_prekey_of d.id) db.signed_prekeys

module _ (env : Env) where
  -- The bundles that a list of devices calls for: one for each device with an identity key and an
  -- active signed prekey, in the order of the devices, and none for another.
  abbrev pub Bundled : Db → List Device → List DeviceKeyBundle → Type 0
  Bundled db [] bundles = bundles ≡ []
  Bundled db (d ∷ ds) bundles =
      (((identity_of db d ≡ none) ⊎ (signed_of db d ≡ none)) × Bundled db ds bundles)
      ⊎ ((identity : SignalIdentityKey) × (signed : SignalSignedPrekey) × (one_time : Option
            OneTimePrekeyOutput)
          × (rest : List DeviceKeyBundle) × (identity_of db d ≡ some identity)
          × (signed_of db d ≡ some signed)
          × (bundles ≡ bundle_of env d identity signed one_time ∷ rest)
          × Bundled db ds rest)

  -- One device.
  abbrev Turn : Db → Device → Option DeviceKeyBundle → Type 0
  Turn db d none = (identity_of db d ≡ none) ⊎ (signed_of db d ≡ none)
  Turn db d (some b) =
      (identity : SignalIdentityKey) × (signed : SignalSignedPrekey) × (one_time : Option
        OneTimePrekeyOutput)
      × (identity_of db d ≡ some identity)
      × (signed_of db d ≡ some signed)
      × (b ≡ bundle_of env d identity signed one_time)

  Bundled-add :
      (db : Db) (d : Device) (ds : List Device) (o : Option DeviceKeyBundle)
      (bundles : List DeviceKeyBundle)
      → Turn db d o
      → Bundled db ds bundles
      → Bundled db (d ∷ ds) (add_bundle env o bundles)
  Bundled-add db d ds none bundles t h = inl (t, h)
  Bundled-add db d ds (some b) bundles (i, s, one_time, ei, es, e) h =
      inr (i, s, one_time, bundles, ei, es, ap (λ x. x ∷ bundles) e, h)

  -- A claim of a one-time prekey leaves the other keys as they are.
  abbrev keys : Order
  keys = record {
    Before = λ a b. (b.identity_keys ≡ a.identity_keys) × (b.signed_prekeys ≡ a.signed_prekeys);
    same = λ d. (refl, refl);
    chain = λ a b c (p, q) (r, s). (r ∙ p, s ∙ q);
  }

  claim_of-keys :
      (n : ℕ) (d : Db) (o : Option SignalOneTimePrekey) → keys.Before d (claim_of env n d o).1
  claim_of-keys n d none = (refl, refl)
  claim_of-keys n d (some k) = (refl, refl)

  claim-keys : (device : Uuid) → Keeps env keys (claim_one_time_prekey env device)
  unfolding claim_one_time_prekey
  claim-keys device =
      Keeps-bind _ _
        (Keeps-execute_returning (claim env device) internal
          (λ d n. claim_of-keys n d (oldest_unused env device n d.one_time_prekeys)))
        (λ claimed. Keeps-pure (claimed_output env claimed))

  Turn-keys :
      (a b : Db) (d : Device) (o : Option DeviceKeyBundle)
      → keys.Before a b
      → Turn b d o
      → Turn a d o
  Turn-keys a b d none (i, s) (inl e) =
      inl (ap (λ ks. first_where (λ k. k.device_id) (λ k. k.device_id == d.id) ks) (sym i) ∙ e)
  Turn-keys a b d none (i, s) (inr e) =
      inr (ap (λ ks. first_where (λ k. k.id) (is_active_prekey_of d.id) ks) (sym s) ∙ e)
  Turn-keys a b d (some x) (i, s) (identity, signed, one_time, ei, es, e) = (
    identity,
    signed,
    one_time,
    ap (λ ks. first_where (λ k. k.device_id) (λ k. k.device_id == d.id) ks) (sym i) ∙ ei,
    ap (λ ks. first_where (λ k. k.id) (is_active_prekey_of d.id) ks) (sym s) ∙ es,
    e,
  )

  abbrev Done : Db → Device → Result Error (Option DeviceKeyBundle) × World env → Type 0
  Done db d (ok o, v) = keys.Before db v.db × Turn db d o
  Done db d (err e, v) = Unit {0}

  claim_for_ok :
      (d : Device) (identity : SignalIdentityKey) (o : Option SignalSignedPrekey) (w w' : World env)
      (out : Option DeviceKeyBundle)
      → identity_of w.db d ≡ some identity
      → signed_of w.db d ≡ o
      → claim_for env d identity o w ≡ (ok out, w')
      → Done w.db d (ok out, w')
  unfolding claim_for pure
  claim_for_ok d identity none w w' out ei es h = subst (Done w.db d) h ((refl, refl), inr es)
  claim_for_ok d identity (some signed) w w' out ei es h =
      let (one_time, w₁, e₁, h₁) = bind_ok _ _ w w' out h in
      let kept = subst (λ r. keys.Before w.db r.1.db) e₁ ((claim-keys d.id).at w) in
      subst (Done w.db d) h₁ (kept, (identity, signed, one_time, ei, es, refl))

  prekeys_for_ok :
      (d : Device) (o : Option SignalIdentityKey) (w w' : World env) (out : Option DeviceKeyBundle)
      → identity_of w.db d ≡ o
      → prekeys_for env d o w ≡ (ok out, w')
      → Done w.db d (ok out, w')
  unfolding prekeys_for find_signed_prekey pure
  prekeys_for_ok d none w w' out ei h = subst (Done w.db d) h ((refl, refl), inl ei)
  prekeys_for_ok d (some identity) w w' out ei h =
      let (signed, w₁, e₁, h₁) = bind_ok _ _ w w' out h in
      let (f₁, s₁) = query_ok _ internal w w₁ signed e₁ in
      let same : w₁.db ≡ w.db = ap (λ v. v.db) s₁ in
      subst (λ db. Done db d (ok out, w')) same
        (claim_for_ok d identity signed w₁ w' out (ap (λ db. identity_of db d) same ∙ ei)
          (ap (λ db. signed_of db d) same ∙ sym f₁) h₁)

  bundle_device_ok :
      (d : Device) (w w' : World env) (out : Option DeviceKeyBundle)
      → bundle_device env d w ≡ (ok out, w')
      → Done w.db d (ok out, w')
  unfolding bundle_device find_identity_key
  bundle_device_ok d w w' out h =
      let (identity, w₁, e₁, h₁) = bind_ok _ _ w w' out h in
      let (f₁, s₁) = query_ok _ internal w w₁ identity e₁ in
      let same : w₁.db ≡ w.db = ap (λ v. v.db) s₁ in
      subst (λ db. Done db d (ok out, w')) same
        (prekeys_for_ok d identity w₁ w' out (ap (λ db. identity_of db d) same ∙ sym f₁) h₁)

  Bundled-keys :
      (a b : Db) (ds : List Device) (bundles : List DeviceKeyBundle)
      → keys.Before a b
      → Bundled b ds bundles
      → Bundled a ds bundles
  Bundled-keys a b [] bundles k h = h
  Bundled-keys a b (d ∷ ds) bundles k (inl (t, h)) =
      inl (Turn-keys a b d none k t, Bundled-keys a b ds bundles k h)
  Bundled-keys a b (d ∷ ds) bundles k (inr (i, s, one_time, rest, ei, es, e, h)) =
      let (i', s', o', ei', es', e') =
        Turn-keys a b d (some (bundle_of env d i s one_time)) k (i, s, one_time, ei, es, refl) in
      inr (i', s', o', rest, ei', es', e ∙ ap (λ x. x ∷ rest) e', Bundled-keys a b ds rest k h)

  abbrev Listed : Db → List Device → Result Error (List DeviceKeyBundle) × World env → Type 0
  Listed db ds (ok bundles, v) = Bundled db ds bundles
  Listed db ds (err e, v) = Unit {0}

  pub bundle_devices_ok :
      (ds : List Device) (w w' : World env) (bundles : List DeviceKeyBundle)
      → bundle_devices env ds w ≡ (ok bundles, w')
      → Bundled w.db ds bundles
  unfolding bundle_devices pure
  bundle_devices_ok [] w w' bundles h = ground arith
  bundle_devices_ok (d ∷ ds) w w' bundles h =
      let (o, w₁, e₁, h₁) = bind_ok _ _ w w' bundles h in
      let (kept, turn) = bundle_device_ok d w w₁ o e₁ in
      let (rest, w₂, e₂, h₂) = bind_ok _ _ w₁ w' bundles h₁ in
      let later = Bundled-keys w.db w₁.db ds rest kept (bundle_devices_ok ds w₁ w₂ rest e₂) in
      subst (Listed w.db (d ∷ ds)) h₂ (Bundled-add w.db d ds o rest turn later)
