-- ===== src/Auth/Middleware/Entry.antt =====
-- internal/middleware/auth.go with internal/auth/service.go: the token of a login is let in.
use flutter_whatsapp_clone.Base.Select.{any_of_imp}
use flutter_whatsapp_clone.Base.{
  sym, ◌*◌, ◌/◌, ◌<◌, Bool-cases, inl, inr, eq_iff, Bool, true, false, not, Option, none, some,
  String, List, [], ◌∷◌, ◌++◌, any, select_where, first_where, ◌==◌, ltb, str_eq, ◌≡◌, refl, ap,
  ◌∙◌, arith,
}
use flutter_whatsapp_clone.Base.Sorting.{first_where_only}
use flutter_whatsapp_clone.Models.{Time, Uuid, Device, device_is_active}
use flutter_whatsapp_clone.Crypto.{Crypto, Claims, valid}
use flutter_whatsapp_clone.Action.{ok, Action, pure, ensure, or_fail, ◌>>=◌}
use flutter_whatsapp_clone.Action.Rules.{bind_done}
use flutter_whatsapp_clone.Store.{Env, World, done, fits, devices_table, advance, query}
use flutter_whatsapp_clone.Store.Laws.{query_done}
use flutter_whatsapp_clone.Auth.Defs.{LoginRequest, LoginResult}
use flutter_whatsapp_clone.Auth.Tokens.{claims_for, parse_access_token}
use flutter_whatsapp_clone.Auth.Sessions.{login}
use flutter_whatsapp_clone.Auth.Sessions.Login.{login-SessionOf}
use flutter_whatsapp_clone.Auth.Middleware.{
  ℕ, internal_error, session_revoked, auth_header_missing, auth_header_malformed, split_at_space,
  bearer_token, equal_fold, is_device_active, accept_parsed, read_token, require_auth,
}

not_empty :
    (header : String) (parts : String × String)
    → split_at_space header ≡ some parts
    → str_eq header "" ≡ false
unfolding split_at_space
not_empty header parts h = elim (Bool-cases (str_eq header "")) [
  | inr filled ↦ filled
  | inl empty ↦
      let none_split : split_at_space header ≡ none =
        ap split_at_space ((eq_iff header "").0 empty) in
      cc
]

select_where_last :
    (p : Device → Bool) (ds : List Device) (d : Device)
    → any p ds ≡ false
    → p d ≡ true
    → select_where p (ds ++ d ∷ []) ≡ d ∷ []
select_where_last p [] d free hit = rw hit refl
select_where_last p (x ∷ ds) d free hit =
    let miss : p x ≡ false = ground arith in
    rw (miss, select_where_last p ds d (ground arith) hit) refl

-- The device that a login has added is the only one of its id.
added_alone :
    (ds : List Device) (d : Device)
    → fits devices_table.clash ds (d ∷ []) ≡ true
    → first_where (λ x. x.id) (λ x. x.id == d.id) (ds ++ d ∷ []) ≡ some d
unfolding fits
added_alone ds d room =
    first_where_only (λ x. x.id) (λ x. x.id == d.id) (ds ++ d ∷ []) d
      (select_where_last (λ x. x.id == d.id) ds d
        (any_of_imp (λ x. x.id == d.id) (devices_table.clash d) (λ x e. ground arith) ds
          (ground arith))
        (ground arith))

numeric_date-whole :
    (crypto : Crypto) (t : Time)
    → crypto.numeric_date (crypto.numeric_date t) ≡ crypto.numeric_date t
numeric_date-whole crypto t =
    crypto.numeric_date_lem (crypto.numeric_date t)
    ∙ ap (λ s. s / 1000000 * 1000000) (crypto.numeric_date_lem t)
    ∙ whole (t / 1000000)
    ∙ sym (crypto.numeric_date_lem t)
  where
    whole : (n : ℕ) → n * 1000000 / 1000000 * 1000000 ≡ n * 1000000
    whole n = omega arith

-- What each line of a block leaves for the next.
module _ {S E B : Type 0} where
  ensure_done :
      (b : Bool) (e : E) (f : Unit {0} → Action S E B) (s : S)
      → b ≡ true
      → (ensure b e >>= f) s ≡ f tt s
  unfolding ensure ◌>>=◌
  ensure_done b e f s h = rw h refl

  or_fail_done :
      {A : Type 0} (o : Option A) (e : E) (f : A → Action S E B) (s : S) (a : A)
      → o ≡ some a
      → (or_fail o e >>= f) s ≡ f a s
  unfolding or_fail ◌>>=◌
  or_fail_done o e f s a h = rw h refl

module _ (env : Env) (crypto : Crypto) (secret : String) where
  is_device_active_done :
      (id : Uuid) (d : Device) (v : World env)
      → env.verdict v.tick ≡ done
      → first_where (λ x. x.id) (λ x. x.id == id) v.db.devices ≡ some d
      → device_is_active d.status ≡ true
      → is_device_active env (env.uuid_string id) v ≡ (ok true, advance v)
  unfolding is_device_active pure
  is_device_active_done id d v up found active =
      or_fail_done (env.parse_uuid (env.uuid_string id)) internal_error _ v id (env.parse-string id)
      ∙ bind_done
          (query (λ db n. first_where (λ x. x.id) (λ x. x.id == id) db.devices) internal_error)
          (λ o. pure (elim o [ none ↦ false | some x ↦ device_is_active x.status ])) v (advance v)
          (some d) (query_done _ internal_error v up ∙ ap (λ o. (ok o, advance v)) found)
      ∙ ap (λ b. (ok b, advance v)) active

  bearer_done :
      (token : String)
      → str_eq token "" ≡ false
      → bearer_token (some ("Bearer", token)) ≡ some token
  unfolding equal_fold
  bearer_done token filled = rw filled refl

  read_done :
      (token : String) (c : Claims) (v : World env)
      → crypto.parse (env.now v.tick) secret token ≡ valid c
      → read_token env crypto secret token v ≡ (ok c, v)
  unfolding read_token parse_access_token accept_parsed pure
  read_done token c v parsed = rw parsed refl

  require_auth_done :
      (header token : String) (c : Claims) (id : Uuid) (d : Device) (v : World env)
      → split_at_space header ≡ some ("Bearer", token)
      → str_eq token "" ≡ false
      → crypto.parse (env.now v.tick) secret token ≡ valid c
      → c.device_id ≡ env.uuid_string id
      → env.verdict v.tick ≡ done
      → first_where (λ x. x.id) (λ x. x.id == id) v.db.devices ≡ some d
      → device_is_active d.status ≡ true
      → require_auth env crypto secret header v
        ≡ (ok (record { user_id = c.user_id; device_id = c.device_id }), advance v)
  unfolding require_auth pure
  require_auth_done header token c id d v split filled parsed named up found active =
      ensure_done (not (str_eq header "")) auth_header_missing _ v
        (ap not (not_empty header _ split))
      ∙ or_fail_done (bearer_token (split_at_space header)) auth_header_malformed _ v token
          (ap bearer_token split ∙ bearer_done token filled)
      ∙ bind_done (read_token env crypto secret token) _ v v c (read_done token c v parsed)
      ∙ bind_done (is_device_active env c.device_id) _ v (advance v) true
          (ap (λ t. is_device_active env t v) named ∙ is_device_active_done id d v up found active)
      ∙ ensure_done true session_revoked _ (advance v) refl

-- The access token of a login that succeeds is let in: before the whole second in which it expires,
-- while the devices are those that the login left, and if the query of the device is answered,
-- RequireAuth passes a request whose header is the word Bearer and the token, as the account and the
-- new device.
pub login-require_auth :
    (env : Env) (crypto : Crypto) (secret header : String) (req : LoginRequest) (w w₁ v : World env)
    (res : LoginResult)
    → login env crypto secret req w ≡ (ok res, w₁)
    → split_at_space header ≡ some ("Bearer", res.access_token)
    → str_eq res.access_token "" ≡ false
    → v.db.devices ≡ w₁.db.devices
    → env.verdict v.tick ≡ done
    → env.now v.tick < res.expires_at / 1000000 * 1000000
    → (device : Device) × (w₁.db.devices ≡ w.db.devices ++ device ∷ [])
      × (device.user_id ≡ res.user.id)
      × (require_auth env crypto secret header v ≡ (
        ok (record {
          user_id = env.uuid_string res.user.id;
          device_id = env.uuid_string device.id;
        }),
        advance v,
      ))
login-require_auth env crypto secret header req w w₁ v res h split filled same up live =
    let (_, s) = login-SessionOf env crypto secret req w w₁ res h in
    let claims =
      claims_for crypto (env.uuid_string res.user.id) (env.uuid_string s.device.id) s.signed_at in
    let until : claims.expires_at ≡ res.expires_at / 1000000 * 1000000 =
      ap crypto.numeric_date (sym s.lifetime) ∙ crypto.numeric_date_lem res.expires_at in
    let fresh : ltb (env.now v.tick) claims.expires_at ≡ true = ground (arith, until, live) in
    let left : w₁.db.devices ≡ w.db.devices ++ s.device ∷ [] = ap (λ d. d.devices) s.tables in
    let found =
      ap (first_where (λ x. x.id) (λ x. x.id == s.device.id)) (same ∙ left)
      ∙ added_alone w.db.devices s.device s.admitted in
    (
      s.device,
      left,
      s.device_of.0,
      require_auth_done env crypto secret header res.access_token claims s.device.id s.device v
          split filled
          (crypto.parse-sign (env.now v.tick) secret res.access_token claims
            (numeric_date-whole crypto _) (numeric_date-whole crypto _) s.signed fresh)
          refl up found (ap device_is_active s.device_of.1),
    )
