-- ===== src/Auth/Sessions/Login.antt =====
-- internal/auth/service.go: what a login grants.
use flutter_whatsapp_clone.Base.{
  ◌+◌, true, none, some, String, [], ◌∷◌, ◌++◌, ◌≡◌, refl, sym, ap, ◌∙◌, subst, arith,
}
use mathlib.Core.List.{Mem}
use flutter_whatsapp_clone.Base.Sorting.{first_where_found}
use flutter_whatsapp_clone.Models.{Time, User, Device, RefreshToken, AccountStatus, DeviceStatus}
use flutter_whatsapp_clone.Crypto.{Crypto}
use flutter_whatsapp_clone.Action.{err, Result, raise, ok, pure, ◌>>=◌, or_fail}
use flutter_whatsapp_clone.Action.Rules.{bind_ok, or_fail_ok, ensure_ok}
use flutter_whatsapp_clone.Store.{Db, Env, World, fits, devices_table, refresh_tokens_table}
use flutter_whatsapp_clone.Store.Laws.{query_ok, insert_ok}
use flutter_whatsapp_clone.Auth.Defs.{Error, LoginRequest, LoginResult, has_identifier, internal}
use flutter_whatsapp_clone.Auth.Tokens.{
  access_token_ttl, claims_for, hash_refresh_token, generate_access_token, generate_refresh_token,
}
use flutter_whatsapp_clone.Auth.Accounts.{find_by_identifier}
use flutter_whatsapp_clone.Auth.Sessions.{open_session, authenticate, admit, login}

module _ (env : Env) (crypto : Crypto) (secret : String) where
  -- A token that was made: signed, for these claims.
  pub generate_access_token_ok :
      (user_id device_id : String) (w w' : World env) (out : String × Time)
      → generate_access_token env crypto secret user_id device_id w ≡ (ok out, w')
      → (crypto.sign secret (claims_for crypto user_id device_id (env.now w.tick)) ≡ some out.0)
        × (out.1 ≡ env.now w.tick + access_token_ttl)
        × (w' ≡ w)
  unfolding generate_access_token or_fail ◌>>=◌ pure
  generate_access_token_ok user_id device_id w w' out h = ground arith

  pub generate_refresh_token_ok :
      (w w' : World env) (out : String × String)
      → generate_refresh_token env crypto w ≡ (ok out, w')
      → (out.1 ≡ hash_refresh_token env crypto out.0) × (w' ≡ w)
  unfolding generate_refresh_token or_fail ◌>>=◌ pure
  generate_refresh_token_ok w w' out h = ground arith

  admit_ok :
      (s : AccountStatus) (w w' : World env) (u : Unit {0})
      → admit env crypto secret s w ≡ (ok u, w')
      → (s ≡ AccountStatus.active) × (w' ≡ w)
  unfolding admit pure raise
  admit_ok AccountStatus.active w w' u h = (refl, ground arith)
  admit_ok AccountStatus.pending_verification w w' u h = cc
  admit_ok AccountStatus.banned w w' u h = cc
  admit_ok AccountStatus.deactivated w w' u h = cc

  -- An account that a login lets in.
  pub record Authenticated (req : LoginRequest) (before : Db) (user : User) : Type 0 where
    pub known : Mem user before.users
    pub identified : has_identifier env req.identifier req.identifier user ≡ true
    pub authentic : crypto.bcrypt_matches user.password_hash req.password ≡ true
    pub admitted : user.account_status ≡ AccountStatus.active

  authenticate_ok :
      (req : LoginRequest) (w w' : World env) (user : User)
      → authenticate env crypto secret req w ≡ (ok user, w')
      → Authenticated req w.db user × (w'.db ≡ w.db)
  unfolding authenticate find_by_identifier pure
  authenticate_ok req w w' user h =
      let (found, w₁, e₁, h₁) = bind_ok _ _ w w' user h in
      let (f₁, s₁) = query_ok _ internal w w₁ found e₁ in
      let (u, w₂, e₂, h₂) = bind_ok _ _ w₁ w' user h₁ in
      let (f₂, s₂) = or_fail_ok _ _ w₁ w₂ u e₂ in
      let (u₃, w₃, e₃, h₃) = bind_ok _ _ w₂ w' user h₂ in
      let (f₃, s₃) = ensure_ok _ _ w₂ w₃ u₃ e₃ in
      let (u₄, w₄, e₄, h₄) = bind_ok _ _ w₃ w' user h₃ in
      let (f₄, s₄) = admit_ok u.account_status w₃ w₄ u₄ e₄ in
      let (m, t) = (first_where_found _ _ w.db.users u (sym f₁ ∙ f₂)) in
      subst Q h₄ (
        record { known = t; identified = m; authentic = f₃; admitted = f₄ },
        ap (λ v. v.db) (s₄ ∙ s₃ ∙ s₂ ∙ s₁),
      )
    where
      Q : Result Error User × World env → Type 0
      Q (ok r, v) = Authenticated req w.db r × (v.db ≡ w.db)
      Q (err e, v) = Unit {0}

  -- The session that a login opens for an account.
  pub record SessionOf (user : User) (before after : Db) (res : LoginResult) : Type 0 where
    pub device : Device
    pub token : RefreshToken
    pub tables : after ≡ record before {
      devices = before.devices ++ device ∷ [];
      refresh_tokens = before.refresh_tokens ++ token ∷ [];
    }
    -- The primary key had room for the new device.
    pub admitted : fits devices_table.clash before.devices (device ∷ []) ≡ true
    pub device_of : (device.user_id ≡ user.id) × (device.status ≡ DeviceStatus.active)
    pub token_of : (token.user_id ≡ user.id) × (token.device_id ≡ device.id)
    pub hashed : token.token_hash ≡ hash_refresh_token env crypto res.refresh_token
    pub usable : token.revoked_at ≡ none
    pub signed_at : Time
    pub signed :
        crypto.sign secret
          (claims_for crypto (env.uuid_string user.id) (env.uuid_string device.id) signed_at)
        ≡ some res.access_token
    pub lifetime : res.expires_at ≡ signed_at + access_token_ttl
    pub for_user : res.user ≡ user

  open_session_ok :
      (user : User) (req : LoginRequest) (w w' : World env) (res : LoginResult)
      → open_session env crypto secret user req w ≡ (ok res, w')
      → SessionOf user w.db w'.db res
  unfolding open_session pure
  open_session_ok user req w w' res h =
      let (device, w₅, e₅, h₅) = bind_ok _ _ w w' res h in
      let (f₅, s₅, g₅) = insert_ok devices_table (λ e. internal) _ w w₅ device e₅ in
      let (access, w₆, e₆, h₆) = bind_ok _ _ w₅ w' res h₅ in
      let (f₆, g₆, s₆) = generate_access_token_ok _ _ w₅ w₆ access e₆ in
      let (refresh, w₇, e₇, h₇) = bind_ok _ _ w₆ w' res h₆ in
      let (f₇, s₇) = generate_refresh_token_ok w₆ w₇ refresh e₇ in
      let (token, w₈, e₈, h₈) = bind_ok _ _ w₇ w' res h₇ in
      let (f₈, s₈, g₈) = insert_ok refresh_tokens_table (λ e. internal) _ w₇ w₈ token e₈ in
      subst Q h₈ (record {
        device = device;
        token = token;
        tables = ap (λ v. v.db) s₈ ∙ ap (with_token token) (ap (λ v. v.db) (s₇ ∙ s₆ ∙ s₅));
        admitted = g₅;
        device_of = (ap (λ x. x.user_id) f₅, ap (λ x. x.status) f₅);
        token_of = (ap (λ x. x.user_id) f₈, ap (λ x. x.device_id) f₈);
        hashed = ap (λ x. x.token_hash) f₈ ∙ f₇;
        usable = ap (λ x. x.revoked_at) f₈;
        signed_at = env.now w₅.tick;
        signed = f₆;
        lifetime = g₆;
        for_user = refl;
      })
    where
      with_token : RefreshToken → Db → Db
      with_token t d = record d { refresh_tokens = d.refresh_tokens ++ t ∷ [] }

      Q : Result Error LoginResult × World env → Type 0
      Q (ok r, v) = SessionOf user w.db v.db r
      Q (err e, v) = Unit {0}

-- A login that succeeds is one of a stored account of this identifier that is active and whose
-- password hash matches; exactly one active device of that account and one unrevoked refresh token
-- for the device are added, only the hash of the refresh token is stored, and the access token is
-- signed for the account and the device.
pub login-SessionOf :
    (env : Env) (crypto : Crypto) (secret : String) (req : LoginRequest) (w w' : World env)
    (res : LoginResult)
    → login env crypto secret req w ≡ (ok res, w')
    → Authenticated env crypto secret req w.db res.user
      × SessionOf env crypto secret res.user w.db w'.db res
unfolding login
login-SessionOf env crypto secret req w w' res h =
    let (user, w₁, e₁, h₁) = bind_ok _ _ w w' res h in
    let (a, s) = authenticate_ok env crypto secret req w w₁ user e₁ in
    let t = open_session_ok env crypto secret user req w₁ w' res h₁ in
    (
      subst (Authenticated env crypto secret req w.db) (sym t.for_user) a,
      subst (λ u. SessionOf env crypto secret u w.db w'.db res) (sym t.for_user)
          (subst (λ d. SessionOf env crypto secret user d w'.db res) s t),
    )
