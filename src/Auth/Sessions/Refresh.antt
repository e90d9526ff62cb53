-- ===== src/Auth/Sessions/Refresh.antt =====
-- internal/auth/service.go: the rotation of refresh tokens.
use flutter_whatsapp_clone.Base.{
  suc, inl, inr, Bool-cases, ◌+◌, Bool, true, false, not, ◌&&◌, none, some, String, List, [], ◌∷◌,
  ◌++◌, map, any, ltb, ◌==◌, str_eq, ◌≡◌, refl, sym, ap, ◌∙◌, subst, arith,
}
use mathlib.Core.List.{Mem}
use flutter_whatsapp_clone.Base.Select.{any-append, any-map}
use flutter_whatsapp_clone.Base.Sorting.{any-mem, first_where_found}
use flutter_whatsapp_clone.Models.{Uuid, Time, RefreshToken}
use flutter_whatsapp_clone.Redis.{is_some}
use flutter_whatsapp_clone.Crypto.{Crypto}
use flutter_whatsapp_clone.Action.{Result, ok, err, pure}
use flutter_whatsapp_clone.Action.Rules.{bind_ok, or_fail_ok, ensure_ok}
use flutter_whatsapp_clone.Store.{Db, Env, World, fits, refresh_tokens_table, execute, ignored}
use flutter_whatsapp_clone.Store.Laws.{query_ok, insert_ok, execute_ok}
use flutter_whatsapp_clone.Auth.Defs.{Error, LoginResult, internal}
use flutter_whatsapp_clone.Auth.Tokens.{access_token_ttl, claims_for, hash_refresh_token}
use flutter_whatsapp_clone.Auth.Sessions.{
  rotate_at, refresh_token_ttl, ℕ, revoke_token, new_token, find_token, revoke, check_expiry,
  rotate, exchangeable, exchange, refresh,
}
use flutter_whatsapp_clone.Auth.Sessions.Login.{generate_access_token_ok, generate_refresh_token_ok}

-- Whether a row of this id can still be exchanged.
abbrev pub is_unrevoked : Uuid → RefreshToken → Bool
is_unrevoked id t = t.id == id && not (is_some t.revoked_at)

all_revoked :
    (id : Uuid) (now : Time) (ts : List RefreshToken)
    → any (is_unrevoked id) (map (revoke_token id now) ts) ≡ false
all_revoked id now [] = refl
all_revoked id now (t ∷ ts) = ground (arith, all_revoked id now ts)

module _ (env : Env) (crypto : Crypto) (secret : String) where
  pub record Exchangeable (raw : String) (w : World env) (old : RefreshToken) : Type 0 where
    pub stored : Mem old w.db.refresh_tokens
    pub hashed : str_eq old.token_hash (hash_refresh_token env crypto raw) ≡ true
    pub unrevoked : is_some old.revoked_at ≡ false
    -- At the time right after the token was read.
    pub unexpired : ltb old.expires_at (env.now (suc w.tick)) ≡ false

  check_expiry_ok :
      (t : RefreshToken) (w w' : World env) (u : Unit {0})
      → check_expiry env crypto secret t w ≡ (ok u, w')
      → (ltb t.expires_at (env.now w.tick) ≡ false) × (w' ≡ w)
  unfolding check_expiry
  check_expiry_ok t w w' u h = let (f, s) = ensure_ok _ _ w w' u h in (ground arith, s)

  exchangeable_ok :
      (raw : String) (w w' : World env) (old : RefreshToken)
      → exchangeable env crypto secret raw w ≡ (ok old, w')
      → Exchangeable raw w old × (w'.db ≡ w.db)
  unfolding exchangeable find_token pure
  exchangeable_ok raw w w' old h =
      let (found, w₁, e₁, h₁) = bind_ok _ _ w w' old h in
      let (f₁, s₁) = query_ok _ internal w w₁ found e₁ in
      let (t, w₂, e₂, h₂) = bind_ok _ _ w₁ w' old h₁ in
      let (f₂, s₂) = or_fail_ok _ _ w₁ w₂ t e₂ in
      let (u₃, w₃, e₃, h₃) = bind_ok _ _ w₂ w' old h₂ in
      let (f₃, s₃) = ensure_ok _ _ w₂ w₃ u₃ e₃ in
      let (u₄, w₄, e₄, h₄) = bind_ok _ _ w₃ w' old h₃ in
      let (f₄, s₄) = check_expiry_ok t w₃ w₄ u₄ e₄ in
      let (m, s) = first_where_found _ _ w.db.refresh_tokens t (sym f₁ ∙ f₂) in
      subst Q h₄ (
        record {
          stored = s;
          hashed = m;
          unrevoked = ground arith;
          unexpired =
              subst (λ n. ltb t.expires_at (env.now n) ≡ false) (ap (λ v. v.tick) (s₃ ∙ s₂ ∙ s₁))
                f₄;
        },
        ap (λ v. v.db) (s₄ ∙ s₃ ∙ s₂ ∙ s₁),
      )
    where
      Q : Result Error RefreshToken × World env → Type 0
      Q (ok r, v) = Exchangeable raw w r × (v.db ≡ w.db)
      Q (err e, v) = Unit {0}

  -- The tokens after an exchange: the old one revoked, and one more, for the same device.
  pub record Exchanged (old : RefreshToken) (before after : Db) (res : LoginResult) : Type 0 where
    pub account : Mem res.user before.users × ((res.user.id == old.user_id) ≡ true)
    pub revoked_at : Time
    pub new : RefreshToken
    pub tokens :
        after.refresh_tokens
        ≡ map (revoke_token old.id revoked_at) before.refresh_tokens ++ new ∷ []
    -- The unique indexes had room for the new row.
    pub admitted :
        fits refresh_tokens_table.clash
          (map (revoke_token old.id revoked_at) before.refresh_tokens)
          (new ∷ [])
        ≡ true
    pub spent :
        any (is_unrevoked old.id) (map (revoke_token old.id revoked_at) before.refresh_tokens)
        ≡ false
    pub new_of : (new.user_id ≡ res.user.id) × (new.device_id ≡ old.device_id)
    pub new_hash : new.token_hash ≡ hash_refresh_token env crypto res.refresh_token
    pub usable : new.revoked_at ≡ none
    pub signed_at : Time
    pub signed :
        crypto.sign secret (
          claims_for crypto (env.uuid_string res.user.id) (env.uuid_string old.device_id) signed_at)
        ≡ some res.access_token
    pub lifetime : res.expires_at ≡ signed_at + access_token_ttl

  ignored_update :
      (change : Db → ℕ → Db) (w w' : World env) (u : Unit {0})
      → ((d : Db) (n : ℕ) → (change d n).refresh_tokens ≡ d.refresh_tokens)
      → ignored {E = Error} {F = Error} (execute change internal) w ≡ (ok u, w')
      → w'.db.refresh_tokens ≡ w.db.refresh_tokens
  unfolding ignored execute
  ignored_update change w w' u same h = let known = same w.db w.tick in ground arith

  rotate_ok :
      (t : RefreshToken) (user_id : Uuid) (hash : String) (w w' : World env) (u : Unit {0})
      → rotate env crypto secret t user_id hash w ≡ (ok u, w')
      → (new : RefreshToken) × (now expires : Time) × (n : ℕ) × (new
          ≡ new_token env crypto secret user_id t.device_id hash expires n)
        × (w'.db.refresh_tokens ≡ map (revoke_token t.id now) w.db.refresh_tokens ++ new ∷ [])
        × (fits refresh_tokens_table.clash
              (map (revoke_token t.id now) w.db.refresh_tokens)
              (new ∷ [])
            ≡ true)
  unfolding rotate rotate_at revoke
  rotate_ok t user_id hash w w' u h =
      let (u₁, w₁, e₁, h₁) = bind_ok _ _ w w' u h in
      let s₁ = execute_ok _ internal w w₁ u₁ e₁ in
      let (new, w₂, e₂, h₂) = bind_ok _ _ w₁ w' u h₁ in
      let (f₂, s₂, g₂) = insert_ok refresh_tokens_table (λ e. internal) _ w₁ w₂ new e₂ in
      let s₃ = ignored_update _ w₂ w' u (λ d n. refl) h₂ in
      (
        new,
        env.now w.tick,
        env.now w.tick + refresh_token_ttl,
        w₁.tick,
        f₂,
        s₃
            ∙ ap (λ v. v.db.refresh_tokens) s₂
            ∙ ap (λ ts. ts ++ new ∷ []) (ap (λ v. v.db.refresh_tokens) s₁),
        subst (λ v. fits refresh_tokens_table.clash v.db.refresh_tokens (new ∷ []) ≡ true) s₁ g₂,
      )

  exchange_ok :
      (old : RefreshToken) (w w' : World env) (res : LoginResult)
      → exchange env crypto secret old w ≡ (ok res, w')
      → Exchanged old w.db w'.db res
  unfolding exchange pure
  exchange_ok old w w' res h =
      let (found, w₁, e₁, h₁) = bind_ok _ _ w w' res h in
      let (f₁, s₁) = query_ok _ internal w w₁ found e₁ in
      let (user, w₂, e₂, h₂) = bind_ok _ _ w₁ w' res h₁ in
      let (f₂, s₂) = or_fail_ok _ _ w₁ w₂ user e₂ in
      let (access, w₃, e₃, h₃) = bind_ok _ _ w₂ w' res h₂ in
      let (f₃, g₃, s₃) = generate_access_token_ok env crypto secret _ _ w₂ w₃ access e₃ in
      let (fresh, w₄, e₄, h₄) = bind_ok _ _ w₃ w' res h₃ in
      let (f₄, s₄) = generate_refresh_token_ok env crypto secret w₃ w₄ fresh e₄ in
      let (u₅, w₅, e₅, h₅) = bind_ok _ _ w₄ w' res h₄ in
      let (new, now, expires, n, f₅, s₅, g₅) = rotate_ok old user.id fresh.1 w₄ w₅ u₅ e₅ in
      let (m, s) = first_where_found _ _ w.db.users user (sym f₁ ∙ f₂) in
      subst Q h₅ (record {
        account = (s, m);
        revoked_at = now;
        new = new;
        tokens =
            s₅
            ∙ ap (λ v. map (revoke_token old.id now) v.db.refresh_tokens ++ new ∷ [])
                (s₄ ∙ s₃ ∙ s₂ ∙ s₁);
        admitted =
            subst
              (λ v.
                fits refresh_tokens_table.clash (map (revoke_token old.id now) v.db.refresh_tokens)
                  (new ∷ [])
                ≡ true)
              (s₄ ∙ s₃ ∙ s₂ ∙ s₁) g₅;
        spent = all_revoked old.id now w.db.refresh_tokens;
        new_of = (ap (λ x. x.user_id) f₅, ap (λ x. x.device_id) f₅);
        new_hash = ap (λ x. x.token_hash) f₅ ∙ f₄;
        usable = ap (λ x. x.revoked_at) f₅;
        signed_at = env.now w₂.tick;
        signed = f₃;
        lifetime = g₃;
      })
    where
      Q : Result Error LoginResult × World env → Type 0
      Q (ok r, v) = Exchanged old w.db v.db r
      Q (err e, v) = Unit {0}

module _ (env : Env) (crypto : Crypto) (secret : String) where
  other_id :
      (old new : RefreshToken) (now : Time) (ts : List RefreshToken)
      → Mem old ts
      → fits refresh_tokens_table.clash (map (revoke_token old.id now) ts) (new ∷ []) ≡ true
      → (new.id == old.id) ≡ false
  unfolding fits
  other_id old new now ts m h = elim (Bool-cases (new.id == old.id)) [
    | inr other ↦ other
    | inl same ↦
        let clash = refresh_tokens_table.clash in
        let here : clash new (revoke_token old.id now old) ≡ true = ground arith in
        let found = any-mem (λ t. clash new (revoke_token old.id now t)) old ts m here in
        let image = any-map (clash new) (revoke_token old.id now) ts in ground arith
  ]

  -- The token that was exchanged, among the tokens after the exchange.
  pub spent-Exchanged :
      (old : RefreshToken) (before after : Db) (res : LoginResult)
      → Mem old before.refresh_tokens
      → Exchanged env crypto secret old before after res
      → any (is_unrevoked old.id) after.refresh_tokens ≡ false
  spent-Exchanged old before after res m x =
      let other = other_id old x.new x.revoked_at before.refresh_tokens m x.admitted in
      let rows = map (revoke_token old.id x.revoked_at) before.refresh_tokens in
      let split = any-append (is_unrevoked old.id) rows (x.new ∷ []) in
      let last : any (is_unrevoked old.id) (x.new ∷ []) ≡ false = ground arith in
      ap (any (is_unrevoked old.id)) x.tokens ∙ split ∙ rw (x.spent, last)

-- A refresh that succeeds was given the raw text of a stored token that was not revoked and,
-- by the clock right after the row was read, not expired; it leaves every row of that token revoked and adds one unrevoked token, of which only the
-- hash is stored, for the same device and account; the access token is signed for these two.
pub refresh-Exchanged :
    (env : Env) (crypto : Crypto) (secret raw : String) (w w' : World env) (res : LoginResult)
    → refresh env crypto secret raw w ≡ (ok res, w')
    → (old : RefreshToken) × Exchangeable env crypto secret raw w old
      × Exchanged env crypto secret old w.db w'.db res
unfolding refresh
refresh-Exchanged env crypto secret raw w w' res h =
    let (old, w₁, e₁, h₁) = bind_ok _ _ w w' res h in
    let (a, s) = exchangeable_ok env crypto secret raw w w₁ old e₁ in
    (
      old,
      a,
      subst (λ d. Exchanged env crypto secret old d w'.db res) s
          (exchange_ok env crypto secret old w₁ w' res h₁),
    )
