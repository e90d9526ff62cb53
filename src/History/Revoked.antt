-- ===== src/History/Revoked.antt =====
-- internal/auth and internal/middleware: what has ended a session, and the requests that follow.
use flutter_whatsapp_clone.Base.{
  true, false, some, String, List, any, first_where, ◌==◌, str_eq, ◌≡◌, ◌≢◌, refl, subst, arith,
}
use flutter_whatsapp_clone.Base.Sorting.{any-mem}
use flutter_whatsapp_clone.Models.{RefreshToken, device_is_active}
use flutter_whatsapp_clone.Redis.{is_some}
use flutter_whatsapp_clone.Crypto.{Crypto}
use flutter_whatsapp_clone.Action.{ok}
use flutter_whatsapp_clone.Store.{Env, World}
use flutter_whatsapp_clone.Auth.Tokens.{hash_refresh_token}
use flutter_whatsapp_clone.Auth.Sessions.{logout, refresh}
use flutter_whatsapp_clone.Auth.Sessions.Refresh.{
  Exchangeable, Exchanged, is_unrevoked, refresh-Exchanged, spent-Exchanged,
}
use flutter_whatsapp_clone.Auth.Defs.{LoginResult}
use flutter_whatsapp_clone.Auth.Middleware.{Session, require_auth}
use flutter_whatsapp_clone.Auth.Middleware.Access.{is_active_device, logout_ok, require_auth-Passed}
use flutter_whatsapp_clone.Server.{serve_all, Request}
use flutter_whatsapp_clone.History.Kept.{is_taken-Kept}
use flutter_whatsapp_clone.History.Grows.{growing, lasting_device, lasting_token, is_usable, Grows}
use flutter_whatsapp_clone.Steps.Accounts.{logout-Keeps, refresh-Keeps}
use flutter_whatsapp_clone.History.Writes.{history}
use flutter_whatsapp_clone.History.Requests.{serve_all-Grows}

-- After a logout that succeeds with a refresh token whose row was stored, for a stored device, and not
-- revoked before the call, and after any requests that follow it, RequireAuth lets no request pass
-- whose access token is for that device. (A logout with a row that was revoked before also succeeds,
-- and leaves the device as it is.)
pub logout-serve_all :
    (env : Env) (crypto : Crypto) (secret raw header : String) (requests : List Request)
    (w w₁ v : World env) (u : Unit {0}) (old : RefreshToken) (session : Session)
    → logout env crypto secret raw w ≡ (ok u, w₁)
    → first_where
        (λ t. t.id)
        (λ t. str_eq t.token_hash (hash_refresh_token env crypto raw))
        w.db.refresh_tokens
      ≡ some old
    → is_some old.revoked_at ≡ false
    → any (λ d. d.id == old.device_id) w.db.devices ≡ true
    → require_auth env crypto secret header (serve_all env crypto secret requests w₁)
      ≡ (ok session, v)
    → env.parse_uuid session.device_id ≢ some old.device_id
logout-serve_all env crypto secret raw header requests w w₁ v u old session h find unrevoked stored
      passed for_device =
    let w₂ = serve_all env crypto secret requests w₁ in
    let gone = logout_ok env crypto secret raw w w₁ u old h find unrevoked in
    let left =
      subst (λ r. Grows w.db r.1.db) h
        ((logout-Keeps env growing (history env) crypto secret raw).at w) in
    let taken =
      is_taken-Kept lasting_device (λ d. device_is_active d.status) (λ d. d.id) (λ d. refl)
        old.device_id w.db.devices w₁.db.devices left.devices stored in
    let later =
      (serve_all-Grows env crypto secret requests w₁).revoked_devices old.device_id (taken, gone) in
    let p = require_auth-Passed env crypto secret header w₂ v session passed in
    let id : p.device.id ≡ old.device_id = cc in
    let here : is_active_device old.device_id p.device ≡ true = ground arith in
    let found = any-mem (is_active_device old.device_id) p.device w₂.db.devices p.stored here in cc

-- Two refreshes that succeed, with any requests in between, exchange two different tokens: whatever
-- texts they were given, each was exchangeable when it was exchanged, and their ids differ.
pub refresh-serve_all :
    (env : Env) (crypto : Crypto) (secret raw again : String) (requests : List Request)
    (w w₁ v : World env) (first second : LoginResult)
    → refresh env crypto secret raw w ≡ (ok first, w₁)
    → refresh env crypto secret again (serve_all env crypto secret requests w₁) ≡ (ok second, v)
    → let w₂ = serve_all env crypto secret requests w₁ in
      (a : RefreshToken) × (b : RefreshToken) × Exchangeable env crypto secret raw w a
      × Exchanged env crypto secret a w.db w₁.db first
      × Exchangeable env crypto secret again w₂ b
      × Exchanged env crypto secret b w₂.db v.db second
      × (a.id ≢ b.id)
refresh-serve_all env crypto secret raw again requests w w₁ v first second h k =
    let w₂ = serve_all env crypto secret requests w₁ in
    let (a, ea, xa) = refresh-Exchanged env crypto secret raw w w₁ first h in
    let (b, eb, xb) = refresh-Exchanged env crypto secret again w₂ v second k in
    let left =
      subst (λ r. Grows w.db r.1.db) h
        ((refresh-Keeps env growing (history env) crypto secret raw).at w) in
    let taken =
      is_taken-Kept lasting_token is_usable (λ t. t.id) (λ t. refl) a.id w.db.refresh_tokens
        w₁.db.refresh_tokens left.tokens
        (any-mem (λ t. t.id == a.id) a w.db.refresh_tokens ea.stored (ground arith)) in
    let spent = spent-Exchanged env crypto secret a w.db w₁.db first ea.stored xa in
    let later =
      (serve_all-Grows env crypto secret requests w₁).revoked_tokens a.id (taken, spent) in
    (
      a,
      b,
      ea,
      xa,
      eb,
      xb,
      λ same.
          let here : is_unrevoked a.id b ≡ true = let q = eb.unrevoked in ground arith in
          let found = any-mem (is_unrevoked a.id) b w₂.db.refresh_tokens eb.stored here in cc,
    )
