-- ===== src/Server/Guard.antt =====
-- internal/server with internal/middleware: no handler behind RequireAuth runs without a session.
use flutter_whatsapp_clone.Base.{String, ◌≡◌, ◌⊎◌, inl, inr, refl, sym, ap, ◌∙◌}
use flutter_whatsapp_clone.Crypto.{Crypto, Parsed}
use flutter_whatsapp_clone.Action.{Result, ok, err}
use flutter_whatsapp_clone.Store.{Env, World}
use flutter_whatsapp_clone.Store.Keeps.{reading, Keeps, Keeps-here, keeps_rules}
use flutter_whatsapp_clone.Web.{status_of}
use flutter_whatsapp_clone.Auth.Tokens.{parse_access_token}
use flutter_whatsapp_clone.Auth.Middleware.{
  Denial, Session, accept_parsed, read_token, is_device_active, require_auth,
}
use flutter_whatsapp_clone.Auth.Middleware.Access.{Passed, require_auth-Passed}
use flutter_whatsapp_clone.Server.{
  ProtectedRoute, behind_auth, denied, serve_protected, after_auth, with_auth, serve,
}

module _ (env : Env) (crypto : Crypto) (secret : String) where
  is_device_active_reads : (id : String) → Keeps env reading (is_device_active env id)
  unfolding is_device_active
  is_device_active_reads id = search keeps_rules

  accept_parsed_reads : (p : Parsed) → Keeps env reading (accept_parsed env crypto secret p)
  unfolding accept_parsed
  accept_parsed_reads (Parsed.valid c) = search keeps_rules
  accept_parsed_reads Parsed.expired = search keeps_rules
  accept_parsed_reads Parsed.invalid = search keeps_rules

  read_token_reads : (token : String) → Keeps env reading (read_token env crypto secret token)
  unfolding read_token
  read_token_reads token =
      Keeps-here
        (λ w.
          accept_parsed env crypto secret
            (parse_access_token env crypto secret token (env.now w.tick)))
        (λ v. search accept_parsed_reads)

  require_auth_reads : (header : String) → Keeps env reading (require_auth env crypto secret header)
  unfolding require_auth
  require_auth_reads header =
      search (keeps_rules, read_token_reads, is_device_active_reads) depth 12

  denied_status : (d : Denial) → (status_of (denied d) ≡ 401) ⊎ (status_of (denied d) ≡ 500)
  denied_status Denial.auth_header_missing = inl refl
  denied_status Denial.auth_header_malformed = inl refl
  denied_status Denial.token_invalid = inl refl
  denied_status Denial.token_expired = inl refl
  denied_status Denial.session_revoked = inl refl
  denied_status Denial.internal_error = inr refl

  -- A request that is turned away, or one that its handler answers.
  pub record TurnedAway (header : String) (route : ProtectedRoute) (w : World env) : Type 0 where
    pub reason : Denial
    pub abort : (require_auth env crypto secret header w).0 ≡ err reason
    pub answer : (serve env crypto secret (behind_auth header route) w).0 ≡ denied reason
    pub status : (status_of (denied reason) ≡ 401) ⊎ (status_of (denied reason) ≡ 500)
    pub untouched : (serve env crypto secret (behind_auth header route) w).1.db ≡ w.db

  pub record LetIn (header : String) (route : ProtectedRoute) (w : World env) : Type 0 where
    pub session : Session
    pub passed : Passed env crypto secret header w session
    pub start : World env
    pub untouched : start.db ≡ w.db
    pub handled :
        serve env crypto secret (behind_auth header route) w
        ≡ serve_protected env crypto secret session route start

  -- A request to a route behind RequireAuth is either turned away, with status 401 or 500 and the tables
  -- as they were, or the route's handler runs, from the same tables, as a session whose token parses
  -- at the time of the request and whose device is stored and active.
  pub serve-RequireAuth :
      (header : String) (route : ProtectedRoute) (w : World env)
      → TurnedAway header route w ⊎ LetIn header route w
  unfolding serve with_auth
  serve-RequireAuth header route w =
      go (require_auth env crypto secret header w).0 (require_auth env crypto secret header w).1
        refl
    where
      go :
          (r : Result Denial Session) (w' : World env)
          → require_auth env crypto secret header w ≡ (r, w')
          → TurnedAway header route w ⊎ LetIn header route w
      go (err d) w' e =
          let out = ap (λ x. after_auth env crypto secret x.0 route x.1) e in
          inl (record {
            reason = d;
            abort = ap (λ x. x.0) e;
            answer = ap (λ x. x.0) out;
            status = denied_status d;
            untouched =
                ap (λ x. x.1.db) out ∙ sym (ap (λ x. x.1.db) e) ∙ (require_auth_reads header).at w;
          })
      go (ok s) w' e = inr (record {
        session = s;
        passed = require_auth-Passed env crypto secret header w w' s e;
        start = w';
        untouched = sym (ap (λ x. x.1.db) e) ∙ (require_auth_reads header).at w;
        handled = ap (λ x. after_auth env crypto secret x.0 route x.1) e;
      })
