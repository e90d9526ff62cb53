-- ===== src/Keys/Upload/Rotation.antt =====
-- internal/keys/service.go: the signed prekeys through an upload.
use flutter_whatsapp_clone.Base.{
  ℕ, Bool, false, Option, none, some, List, [], ◌∷◌, ◌++◌, map, length, select_where, ◌==◌, ◌≡◌,
  refl, ◌⊎◌, inl, inr, ◌≤◌, ◌+◌, arith, if◌then◌else◌, Bool-cases, ap, ◌∙◌,
}
use flutter_whatsapp_clone.Models.{Uuid, SignalSignedPrekey}
use flutter_whatsapp_clone.Action.{Result, pure, ◌>>=◌, on_error}
use flutter_whatsapp_clone.Action.Rules.{bind_cases}
use flutter_whatsapp_clone.Action.{raise}
use flutter_whatsapp_clone.Store.Laws.{execute_ok, execute_err, insert_ok, insert_err}
use flutter_whatsapp_clone.Store.{Env, World, execute, insert_rows}
use flutter_whatsapp_clone.Keys.Defs.{
  internal, OneTimePrekeyInput, SignedPrekeyInput, UploadKeysRequest, Error,
}
use flutter_whatsapp_clone.Keys.Upload.{
  Db, signed_prekeys_table, is_active_prekey_of, deactivated, signed_row, store_identity_key,
  rotate_signed_prekey, add_one_time_prekeys,
}

-- How many active signed prekeys a device has.
abbrev pub active_prekeys : Uuid → List SignalSignedPrekey → ℕ
active_prekeys device rows = length (select_where (is_active_prekey_of device) rows)

-- No device has two.
abbrev pub AtMostOneActive : List SignalSignedPrekey → Type 0
AtMostOneActive rows = (device : Uuid) → active_prekeys device rows ≤ 1

module _ (env : Env) (device : Uuid) where
  -- What an upload for a device makes of the signed prekeys: it leaves them, or switches those of
  -- the device off, or adds the new one beside.
  abbrev pub Rotated :
      Option SignedPrekeyInput → List SignalSignedPrekey → List SignalSignedPrekey → Type 0
  Rotated k before after =
      (after ≡ before)
      ⊎ ((after ≡ map (deactivated device) before)
          ⊎ ((new : SignedPrekeyInput) × (n : ℕ) × (k ≡ some new)
              × (after ≡ map (deactivated device) before ++ signed_row env device new n ∷ [])))

module _ (device : Uuid) where
  other_unchanged :
      (d : Uuid) (rows : List SignalSignedPrekey)
      → (d == device) ≡ false
      → active_prekeys d (map (deactivated device) rows) ≡ active_prekeys d rows
  other_unchanged d [] h = refl
  other_unchanged d (k ∷ ks) h = ground (arith, other_unchanged d ks h)

  none_left :
      (rows : List SignalSignedPrekey) → active_prekeys device (map (deactivated device) rows) ≡ 0
  none_left [] = refl
  none_left (k ∷ ks) = ground (arith, none_left ks)

  added_active :
      (d : Uuid) (rows : List SignalSignedPrekey) (new : SignalSignedPrekey)
      → new.device_id ≡ device
      → active_prekeys d (map (deactivated device) rows ++ new ∷ [])
        ≤ active_prekeys d (map (deactivated device) rows) + (if d == device then 1 else 0)
  added_active d [] new h = ground arith
  added_active d (k ∷ ks) new h = ground (arith, added_active d ks new h)

module _ (env : Env) (device : Uuid) where
  -- What an upload does to the signed prekeys keeps every device at one active or none.
  pub Rotated-AtMostOneActive :
      (k : Option SignedPrekeyInput) (before after : List SignalSignedPrekey)
      → Rotated env device k before after
      → AtMostOneActive before
      → AtMostOneActive after
  Rotated-AtMostOneActive k before after (inl e) h d = rw e (h d)
  Rotated-AtMostOneActive k before after (inr (inl e)) h d = elim (Bool-cases (d == device)) [
    | inl same ↦
        let q : d ≡ device = ground arith in rw (e, q, none_left device before) (omega arith)
    | inr differs ↦ rw (e, other_unchanged device d before differs) (h d)
  ]
  Rotated-AtMostOneActive k before after (inr (inr (new, n, e, f))) h d =
      let bound = added_active device d before (signed_row env device new n) refl in
      elim (Bool-cases (d == device)) [
        | inl same ↦
            let q : d ≡ device = ground arith in
            rw (f, q) (ground (arith, bound, none_left device before))
        | inr differs ↦ rw f (ground (arith, bound, other_unchanged device d before differs, h d))
      ]

  pub rotate-Rotated :
      (k : Option SignedPrekeyInput) (w : World env)
      → let out = rotate_signed_prekey env device k w in
        Rotated env device k w.db.signed_prekeys out.1.db.signed_prekeys
  unfolding rotate_signed_prekey pure raise
  rotate-Rotated none w = inl refl
  rotate-Rotated (some new) w =
      bind_cases P _ _ w
        (λ u w₁ e₁.
          let s₁ = execute_ok _ _ w w₁ u e₁ in
          let off : w₁.db.signed_prekeys ≡ map (deactivated device) w.db.signed_prekeys =
            ap (λ v. v.db.signed_prekeys) s₁ in
          bind_cases P _ _ w₁
            (λ a w₂ e₂.
              let (f, s₂, g) =
                insert_ok signed_prekeys_table (λ e. internal) (signed_row env device new) w₁ w₂ a
                  e₂ in
              inr (
                inr (
                  new,
                  w₁.tick,
                  refl,
                  (ap (λ v. v.db.signed_prekeys) s₂
                      ∙ ap (λ rows. rows ++ a ∷ []) off
                      ∙ ap (λ r. map (deactivated device) w.db.signed_prekeys ++ r ∷ []) f),
                )))
            (λ x w₂ e₂.
              elim (insert_err signed_prekeys_table (λ e. internal) (signed_row env device new) w₁
                w₂ x e₂) [
                  | inl s₂ ↦ inr (inl (rw (s₂, off) refl))
                  | inr s₂ ↦ inr (
                      inr (
                        new,
                        w₁.tick,
                        refl,
                        (ap (λ v. v.db.signed_prekeys) s₂
                            ∙ ap (λ rows. rows ++ signed_row env device new w₁.tick ∷ []) off),
                      ))
                ]))
        (λ x w₁ e₁. elim (execute_err switch_off Error.internal x w w₁ e₁) [
          | inl s₁ ↦ inl (ap (λ v. v.db.signed_prekeys) s₁)
          | inr s₁ ↦ inr (inl (ap (λ v. v.db.signed_prekeys) s₁))
        ])
    where
      switch_off : Db → ℕ → Db
      switch_off db n = record db { signed_prekeys = map (deactivated device) db.signed_prekeys }

      P : Result Error Bool × World env → Type 0
      P out = Rotated env device (some new) w.db.signed_prekeys out.1.db.signed_prekeys

  pub store_identity_key_keeps :
      (req : UploadKeysRequest) (w : World env)
      → (store_identity_key env device req w).1.db.signed_prekeys ≡ w.db.signed_prekeys
  unfolding store_identity_key execute
  store_identity_key_keeps req w = ground arith

  pub add_one_time_prekeys_keeps :
      (ks : List OneTimePrekeyInput) (w : World env)
      → (add_one_time_prekeys env device ks w).1.db.signed_prekeys ≡ w.db.signed_prekeys
  unfolding add_one_time_prekeys insert_rows on_error ◌>>=◌ pure raise
  add_one_time_prekeys_keeps ks w = ground arith
