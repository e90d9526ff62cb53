-- ===== src/Keys/Upload/Parts.antt =====
-- internal/keys/service.go: the parts of an upload, each by how it ends.
use flutter_whatsapp_clone.Base.{
  refl, sym, ap, ◌∙◌, ◌≡◌, arith, ◌++◌, subst, length, if◌then◌else◌, none, map, true, some, [],
  inr, ==→eq, false, suc, inl, ◌==◌, Bool, not, select_where, Bool-cases,
}
use flutter_whatsapp_clone.Action.{Result, ok, err, pure, ◌>>=◌, on_error, raise}
use flutter_whatsapp_clone.Store.{insert_rows, one_time_prekeys_table}
use flutter_whatsapp_clone.Action.Rules.{bind_ok}
use flutter_whatsapp_clone.Store.Laws.{execute_ok, insert_ok, insert_rows_ok}
use flutter_whatsapp_clone.Keys.Upload.{
  one_time_prekeys_table, signed_prekeys_table, insert_rows, SignalOneTimePrekey, World, signed_row,
  deactivated, SignalSignedPrekey, pure, Db, SignedPrekeyInput, OneTimePrekeyInput,
  add_one_time_prekeys, rotate_signed_prekey, Option, ℕ, ◌∷◌, Uuid, List, Env, SignalIdentityKey,
  one_time_rows, upsert_identity_key,
}
use flutter_whatsapp_clone.Keys.Defs.{internal, Error}
use mathlib.Core.List.{append-nil, Mem, mem-cons_self, mem-cons_of_mem}

-- Some row has the device, the key and the registration id of another.
abbrev pub IsStored : SignalIdentityKey → List SignalIdentityKey → Type 0
IsStored new ks =
    (k : SignalIdentityKey) × Mem k ks
    × (k.device_id ≡ new.device_id)
    × (k.identity_public_key ≡ new.identity_public_key)
    × (k.registration_id ≡ new.registration_id)

pub upsert_identity_key-IsStored :
    (new : SignalIdentityKey) (ks : List SignalIdentityKey)
    → IsStored new (upsert_identity_key new ks)
unfolding upsert_identity_key
upsert_identity_key-IsStored new [] = (new, mem-cons_self, refl, refl, refl)
upsert_identity_key-IsStored new (k ∷ ks) = elim (Bool-cases (k.device_id == new.device_id)) [
  | inl same ↦ (
    record k {
      identity_public_key = new.identity_public_key;
      registration_id = new.registration_id;
    },
    rw same mem-cons_self,
    ==→eq k.device_id new.device_id same,
    refl,
    refl,
  )
  | inr differs ↦
      let (x, m, d, p, r) = upsert_identity_key-IsStored new ks in
      (x, rw differs (mem-cons_of_mem k m), d, p, r)
]

pub other_keys :
    (new : SignalIdentityKey) (ks : List SignalIdentityKey)
    → select_where (λ k. not (k.device_id == new.device_id)) (upsert_identity_key new ks)
      ≡ select_where (λ k. not (k.device_id == new.device_id)) ks
unfolding upsert_identity_key
other_keys new [] = ground arith
other_keys new (k ∷ ks) = elim (Bool-cases (k.device_id == new.device_id)) [
  | inl same ↦ rw same (rw same refl)
  | inr differs ↦ rw differs (rw differs (ap (λ x. k ∷ x) (other_keys new ks)))
]

length-one_time_rows :
    (env : Env) (device : Uuid) (n i : ℕ) (ks : List OneTimePrekeyInput)
    → length (one_time_rows env device n i ks) ≡ length ks
unfolding one_time_rows
length-one_time_rows env device n i [] = refl
length-one_time_rows env device n i (k ∷ ks) = ap suc (length-one_time_rows env device n (suc i) ks)

module _ (env : Env) (device : Uuid) where
  -- What the upload of a signed prekey, or of none, that succeeds has made of the rows, with the flag
  -- that it answers.
  abbrev pub Replaced :
      Option SignedPrekeyInput → List SignalSignedPrekey → List SignalSignedPrekey → Bool → Type 0
  Replaced none before after flag = (after ≡ before) × (flag ≡ false)
  Replaced (some new) before after flag =
      ((n : ℕ) × (after ≡ map (deactivated device) before ++ signed_row env device new n ∷ []))
      × (flag ≡ true)

  pub rotate_ok :
      (k : Option SignedPrekeyInput) (w w' : World env) (flag : Bool)
      → rotate_signed_prekey env device k w ≡ (ok flag, w')
      → Replaced k w.db.signed_prekeys w'.db.signed_prekeys flag
        × (w'.db ≡ record w.db { signed_prekeys = w'.db.signed_prekeys })
  unfolding rotate_signed_prekey pure
  rotate_ok none w w' flag h =
      let same : w' ≡ w = ground arith in
      (
        (ap (λ v. v.db.signed_prekeys) same, ground arith),
        subst (λ v. v.db ≡ record w.db { signed_prekeys = v.db.signed_prekeys }) (sym same) refl,
      )
  rotate_ok (some new) w w' flag h =
      let (u, w₁, e₁, h₁) = bind_ok _ _ w w' flag h in
      let s₁ = execute_ok _ internal w w₁ u e₁ in
      let (a, w₂, e₂, h₂) = bind_ok _ _ w₁ w' flag h₁ in
      let (f₂, s₂, g₂) =
        insert_ok signed_prekeys_table (λ e. internal) (signed_row env device new) w₁ w₂ a e₂ in
      let rows : w₂.db.signed_prekeys
          ≡ map (deactivated device) w.db.signed_prekeys ++ signed_row env device new w₁.tick ∷ [] =
        ap (λ v. v.db.signed_prekeys) s₂
        ∙ ap (λ v. v.db.signed_prekeys ++ a ∷ []) s₁
        ∙ ap (λ r. map (deactivated device) w.db.signed_prekeys ++ r ∷ []) f₂ in
      let whole : w₂.db ≡ record w.db { signed_prekeys = w₂.db.signed_prekeys } =
        ap (λ v. v.db) s₂
        ∙ ap (λ d. with_signed (d.signed_prekeys ++ a ∷ []) d) (ap (λ v. v.db) s₁)
        ∙ ap (λ r. with_signed r w.db)
            (sym (ap (λ v. v.db.signed_prekeys) s₂ ∙ ap (λ v. v.db.signed_prekeys ++ a ∷ []) s₁)) in
      subst Q h₂ (((w₁.tick, rows), refl), whole)
    where
      with_signed : List SignalSignedPrekey → Db → Db
      with_signed rows d = record d { signed_prekeys = rows }

      Q : Result Error Bool × World env → Type 0
      Q (ok b, v) =
          Replaced (some new) w.db.signed_prekeys v.db.signed_prekeys b
          × (v.db ≡ record w.db { signed_prekeys = v.db.signed_prekeys })
      Q (err e, v) = Unit {0}

  pub add_ok :
      (ks : List OneTimePrekeyInput) (w w' : World env) (count : ℕ)
      → add_one_time_prekeys env device ks w ≡ (ok count, w')
      → (n : ℕ) × (w'.db ≡ record w.db {
        one_time_prekeys = w.db.one_time_prekeys ++ one_time_rows env device n 0 ks;
      })
        × (count ≡ length ks)
  unfolding add_one_time_prekeys pure one_time_rows
  add_ok [] w w' count h = (
    0,
    ap (λ v. v.1.db) (sym h)
        ∙ ap (λ rows. with_one_time rows w.db) (sym (append-nil w.db.one_time_prekeys)),
    ground arith,
  )
    where
      with_one_time : List SignalOneTimePrekey → Db → Db
      with_one_time rows d = record d { one_time_prekeys = rows }
  add_ok (k ∷ ks) w w' count h =
      let some_keys : (length (k ∷ ks) == 0) ≡ false = ground arith in
      let stored =
        subst
          (λ b.
            (if b then pure 0 else do
              rows ←
                  on_error
                    (insert_rows one_time_prekeys_table
                      (λ n. one_time_rows env device n 0 (k ∷ ks)))
                    (λ e. raise internal)
              pure (length rows))
              w
            ≡ (ok count, w'))
          some_keys h in
      let (rows, w₁, e₁, h₁) = bind_ok _ _ w w' count stored in
      let (f₁, s₁, g₁) = insert_rows_ok one_time_prekeys_table (λ e. internal) _ w w₁ rows e₁ in
      subst Q h₁ (
        w.tick,
        ap (λ v. v.db) s₁ ∙ ap (λ r. with_added r w.db) f₁,
        ap length f₁ ∙ length-one_time_rows env device w.tick 0 (k ∷ ks),
      )
    where
      with_added : List SignalOneTimePrekey → Db → Db
      with_added rows d = record d { one_time_prekeys = d.one_time_prekeys ++ rows }

      Q : Result Error ℕ × World env → Type 0
      Q (ok c, v) =
          (n : ℕ) × (v.db ≡ record w.db {
            one_time_prekeys = w.db.one_time_prekeys ++ one_time_rows env device n 0 (k ∷ ks);
          })
          × (c ≡ length (k ∷ ks))
      Q (err e, v) = Unit {0}
