-- ===== src/Auth/Middleware/Access.antt =====
-- internal/middleware/auth.go: the requests that pass, and those after a logout.
use flutter_whatsapp_clone.Base.{
  ◌&&◌, Bool, true, false, Option, none, some, String, List, [], ◌∷◌, map, any, first_where, ◌==◌,
  str_eq, ◌≡◌, refl, sym, ap, ◌∙◌, subst, arith, if◌then◌else◌,
}
use mathlib.Core.List.{Mem}
use flutter_whatsapp_clone.Base.Sorting.{first_where_found}
use flutter_whatsapp_clone.Models.{Uuid, Device, RefreshToken, device_is_active}
use flutter_whatsapp_clone.Redis.{is_some}
use flutter_whatsapp_clone.Crypto.{Crypto, Claims, Parsed, valid}
use flutter_whatsapp_clone.Action.{Result, ok, err, pure, raise, ◌>>◌}
use flutter_whatsapp_clone.Action.Rules.{bind_ok, or_fail_ok, ensure_ok}
use flutter_whatsapp_clone.Store.{execute, Env, World}
use flutter_whatsapp_clone.Store.Laws.{query_ok, execute_ok}
use flutter_whatsapp_clone.Auth.Defs.{internal}
use flutter_whatsapp_clone.Auth.Tokens.{hash_refresh_token, parse_access_token}
use flutter_whatsapp_clone.Auth.Sessions.{revoke_device, find_token, revoke, end_session, logout}
use flutter_whatsapp_clone.Auth.Middleware.{
  Session, Denial, internal_error, split_at_space, bearer_token, is_device_active, accept_parsed,
  read_token, require_auth,
}

-- Whether there is an active device of this id.
abbrev pub is_active_device : Uuid → Device → Bool
is_active_device id d = d.id == id && device_is_active d.status

all_inactive :
    (id : Uuid) (ds : List Device) → any (is_active_device id) (map (revoke_device id) ds) ≡ false
all_inactive id [] = refl
all_inactive id (d ∷ ds) = ground (arith, all_inactive id ds)

module _ (env : Env) (crypto : Crypto) (secret : String) where
  -- What RequireAuth has found of a request that it lets pass.
  pub record Passed (header : String) (w : World env) (session : Session) : Type 0 where
    pub token : String
    pub sent : bearer_token (split_at_space header) ≡ some token
    pub claims : Claims
    -- The token parses at the time of the request.
    pub parsed : crypto.parse (env.now w.tick) secret token ≡ valid claims
    pub session_of : (session.user_id ≡ claims.user_id) × (session.device_id ≡ claims.device_id)
    pub device : Device
    pub device_id : env.parse_uuid claims.device_id ≡ some device.id
    pub stored : Mem device w.db.devices
    pub active : device_is_active device.status ≡ true

  accept_parsed_ok :
      (p : Parsed) (w w' : World env) (c : Claims)
      → accept_parsed env crypto secret p w ≡ (ok c, w')
      → (p ≡ valid c) × (w' ≡ w)
  unfolding accept_parsed pure raise
  accept_parsed_ok (valid c) w w' c' h = (ground arith, ground arith)
  accept_parsed_ok Parsed.expired w w' c' h = cc
  accept_parsed_ok Parsed.invalid w w' c' h = cc

  is_device_active_ok :
      (text : String) (w w' : World env)
      → is_device_active env text w ≡ (ok true, w')
      → (d : Device) × (env.parse_uuid text ≡ some d.id)
        × Mem d w.db.devices
        × (device_is_active d.status ≡ true)
        × (w'.db ≡ w.db)
  unfolding is_device_active pure
  is_device_active_ok text w w' h =
      let (id, w₁, e₁, h₁) = bind_ok _ _ w w' true h in
      let (f₁, s₁) = or_fail_ok _ _ w w₁ id e₁ in
      let (found, w₂, e₂, h₂) = bind_ok _ _ w₁ w' true h₁ in
      let (f₂, s₂) = query_ok _ internal_error w₁ w₂ found e₂ in
      let q : w'.db ≡ w.db = ap (λ v. v.1.db) (sym h₂) ∙ ap (λ v. v.db) s₂ ∙ ap (λ v. v.db) s₁ in
      let looked = f₂ ∙ ap (λ v. first_where (λ d. d.id) (λ d. d.id == id) v.db.devices) s₁ in
      go id found f₁ looked (ground arith) q
    where
      go :
          (id : Uuid) (found : Option Device)
          → env.parse_uuid text ≡ some id
          → found ≡ first_where (λ d. d.id) (λ d. d.id == id) w.db.devices
          → elim found [ none ↦ false | some d ↦ device_is_active d.status ] ≡ true
          → w'.db ≡ w.db
          → (d : Device) × (env.parse_uuid text ≡ some d.id)
            × Mem d w.db.devices
            × (device_is_active d.status ≡ true)
            × (w'.db ≡ w.db)
      go id none p f h q = cc
      go id (some d) p f h q =
          let (m, s) = first_where_found _ _ w.db.devices d (sym f) in
          let same : id ≡ d.id = ground arith in (d, p ∙ ap some same, s, h, q)

  pub require_auth-Passed :
      (header : String) (w w' : World env) (session : Session)
      → require_auth env crypto secret header w ≡ (ok session, w')
      → Passed header w session
  unfolding require_auth read_token parse_access_token pure
  require_auth-Passed header w w' session h =
      let (u₀, w₀, e₀, h₀) = bind_ok _ _ w w' session h in
      let (f₀, s₀) = ensure_ok _ _ w w₀ u₀ e₀ in
      let (token, w₁, e₁, h₁) = bind_ok _ _ w₀ w' session h₀ in
      let (f₁, s₁) = or_fail_ok _ _ w₀ w₁ token e₁ in
      let (claims, w₂, e₂, h₂) = bind_ok _ _ w₁ w' session h₁ in
      let (f₂, s₂) = accept_parsed_ok _ w₁ w₂ claims e₂ in
      let (active, w₃, e₃, h₃) = bind_ok _ _ w₂ w' session h₂ in
      let (u₄, w₄, e₄, h₄) = bind_ok _ _ w₃ w' session h₃ in
      let (f₄, s₄) = ensure_ok _ _ w₃ w₄ u₄ e₄ in
      let (d, p, m, a, q) =
        is_device_active_ok claims.device_id w₂ w₃ (e₂' claims.device_id w₂ w₃ active e₃ f₄) in
      subst Q h₄ (record {
        token = token;
        sent = f₁;
        claims = claims;
        parsed =
            subst (λ n. crypto.parse (env.now n) secret token ≡ valid claims)
              (ap (λ v. v.tick) (s₁ ∙ s₀)) f₂;
        session_of = (refl, refl);
        device = d;
        device_id = p;
        stored = subst (λ v. Mem d v.db.devices) (s₂ ∙ s₁ ∙ s₀) m;
        active = a;
      })
    where
      e₂' :
          (text : String) (v v' : World env) (active : Bool)
          → is_device_active env text v ≡ (ok active, v')
          → active ≡ true
          → is_device_active env text v ≡ (ok true, v')
      e₂' text v v' active e f = e ∙ ap (λ b. (ok b, v')) f

      Q : Result Denial Session × World env → Type 0
      Q (ok r, v) = Passed header w r
      Q (err e, v) = Unit {0}

  -- A logout that succeeds with a stored token that was not revoked leaves its device with no active
  -- row.
  pub logout_ok :
      (raw : String) (w w' : World env) (u : Unit {0}) (old : RefreshToken)
      → logout env crypto secret raw w ≡ (ok u, w')
      → first_where
          (λ t. t.id)
          (λ t. str_eq t.token_hash (hash_refresh_token env crypto raw))
          w.db.refresh_tokens
        ≡ some old
      → is_some old.revoked_at ≡ false
      → any (is_active_device old.device_id) w'.db.devices ≡ false
  unfolding logout find_token end_session revoke
  logout_ok raw w w' u old h find unrevoked =
      let (found, w₁, e₁, h₁) = bind_ok _ _ w w' u h in
      let (f₁, s₁) = query_ok _ internal w w₁ found e₁ in
      let known : found ≡ some old = f₁ ∙ find in
      let h₂ = subst (λ o. end_session env crypto secret o w₁ ≡ (ok u, w')) known h₁ in
      let h₃ =
        subst
          (λ b.
            (if b then pure tt else do
              revoke env crypto secret old
              execute (λ db n. record db { devices = map (revoke_device old.device_id) db.devices })
                  internal)
              w₁
            ≡ (ok u, w'))
          unrevoked h₂ in
      let (u₂, w₂, e₃, h₄) = bind_ok _ _ w₁ w' u h₃ in
      let s₃ = execute_ok _ internal w₂ w' u h₄ in
      ap (λ v. any (is_active_device old.device_id) v.db.devices) s₃ ∙ all_inactive old.device_id _
