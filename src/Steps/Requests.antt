-- ===== src/Steps/Requests.antt =====
-- internal/server: every route of the server, as the services that it calls.
use flutter_whatsapp_clone.Base.{String, Option, none, some, List, [], ◌∷◌}
use flutter_whatsapp_clone.Crypto.{Crypto}
use flutter_whatsapp_clone.Action.{Result, ok, err, Action}
use flutter_whatsapp_clone.Store.{Env, World, query}
use flutter_whatsapp_clone.Store.Keeps.{Order, Keeps, Keeps-query, Keeps-command}
use flutter_whatsapp_clone.Web.{Reply, Handler, reply, answer, bound, parsed}
use flutter_whatsapp_clone.Auth.Handler.{
  handle_register, handle_verify_otp, handle_resend_otp, handle_login, handle_refresh,
  handle_logout,
}
use flutter_whatsapp_clone.Users.Handler.{handle_me, handle_search}
use flutter_whatsapp_clone.Conversations.Handler.{handle_create, handle_list_conversations}
use flutter_whatsapp_clone.Messages.Handler.{handle_send, handle_list}
use flutter_whatsapp_clone.Keys.Handler.{checked, handle_upload_keys, handle_get_user_keys}
use flutter_whatsapp_clone.Keys.Validation.{ValidationError}
use flutter_whatsapp_clone.Auth.Middleware.{Session, Denial, require_auth}
use flutter_whatsapp_clone.Server.{
  PublicRoute, ProtectedRoute, Request, Payload, open_to_all, behind_auth, as_payload,
  handle_health, serve_public, serve_protected, after_auth, with_auth, serve, serve_all,
}
use flutter_whatsapp_clone.Steps.Writes.{Writes}
use flutter_whatsapp_clone.Steps.Accounts.{
  register-Keeps, verify_otp-Keeps, resend_otp-Keeps, login-Keeps, logout-Keeps, refresh-Keeps,
}
use flutter_whatsapp_clone.Steps.Messages.{send_message-Keeps, list_messages-Keeps}
use flutter_whatsapp_clone.Steps.Contents.{
  upload_keys-Keeps, bundle-Keeps, get_by_id-Keeps, search-Keeps, create-Keeps,
  list_conversations-Keeps, require_auth-Keeps,
}

module _ {env : Env} {O : Order} {P : Type 0} where
  Keeps-reply : (r : Reply P) → Keeps env O (reply {env = env} r)
  unfolding reply
  Keeps-reply r = record { at = λ w. O.same w.db }

  Keeps-answer :
      {E A : Type 0} (m : Action (World env) E A) (f : E → Reply P) (g : A → Reply P)
      → Keeps env O m
      → Keeps env O (answer m f g)
  unfolding answer
  Keeps-answer m f g h = record { at = λ w. h.at w }

  Keeps-bound :
      {R : Type 0} (o : Option R) (h : R → Handler env P)
      → ((r : R) → Keeps env O (h r))
      → Keeps env O (bound o h)
  unfolding bound reply
  Keeps-bound none h k = record { at = λ w. O.same w.db }
  Keeps-bound (some r) h k = k r

  Keeps-parsed :
      {R : Type 0} (o : Option R) (h : R → Handler env P)
      → ((r : R) → Keeps env O (h r))
      → Keeps env O (parsed o h)
  unfolding parsed reply
  Keeps-parsed none h k = record { at = λ w. O.same w.db }
  Keeps-parsed (some r) h k = k r

  Keeps-checked :
      (o : Option ValidationError) (h : Handler env P) → Keeps env O h → Keeps env O (checked o h)
  unfolding checked reply
  Keeps-checked none h k = k
  Keeps-checked (some e) h k = record { at = λ w. O.same w.db }

  Keeps-as_payload :
      (f : P → Payload) (h : Handler env P) → Keeps env O h → Keeps env O (as_payload f h)
  unfolding as_payload
  Keeps-as_payload f h k = record { at = λ w. k.at w }

ruleset handler_rules =
    (Keeps-reply, Keeps-answer, Keeps-bound, Keeps-parsed, Keeps-checked, Keeps-as_payload)

module _ (env : Env) (O : Order) (writes : Writes env O) where
  health-Keeps : Keeps env O (handle_health env)
  unfolding handle_health
  health-Keeps = record {
    at = λ w.
        O.chain w.db (query {E = Unit {0}} {A = Unit {0}} (λ db n. tt) tt w).1.db _
          ((Keeps-query {env = env} {O = O} (λ db n. tt) tt).at w)
          ((Keeps-command {env = env} {O = O} (λ now s. (tt, s)) tt).at
            (query {E = Unit {0}} {A = Unit {0}} (λ db n. tt) tt w).1);
  }

  module _ (crypto : Crypto) (secret : String) where
    public-Keeps : (route : PublicRoute) → Keeps env O (serve_public env crypto secret route)
    unfolding serve_public handle_register handle_verify_otp handle_resend_otp handle_login
        handle_refresh handle_logout
    public-Keeps PublicRoute.get_health = search (handler_rules, health-Keeps)
    public-Keeps (PublicRoute.post_register body) = search (handler_rules, register-Keeps)
    public-Keeps (PublicRoute.post_verify_otp body) = search (handler_rules, verify_otp-Keeps)
    public-Keeps (PublicRoute.post_resend_otp body) = search (handler_rules, resend_otp-Keeps)
    public-Keeps (PublicRoute.post_login body) = search (handler_rules, login-Keeps)
    public-Keeps (PublicRoute.post_refresh body) = search (handler_rules, refresh-Keeps)
    public-Keeps (PublicRoute.post_logout body) = search (handler_rules, logout-Keeps)

    protected-Keeps :
        (s : Session) (route : ProtectedRoute)
        → Keeps env O (serve_protected env crypto secret s route)
    unfolding serve_protected handle_me handle_search handle_list_conversations handle_upload_keys
        handle_get_user_keys handle_create handle_send handle_list
    protected-Keeps s ProtectedRoute.get_health_protected = search handler_rules
    protected-Keeps s ProtectedRoute.get_me = search (handler_rules, get_by_id-Keeps)
    protected-Keeps s ProtectedRoute.get_conversations =
        search (handler_rules, list_conversations-Keeps)
    protected-Keeps s (ProtectedRoute.get_search sought) = search (handler_rules, search-Keeps)
    protected-Keeps s (ProtectedRoute.post_keys body) =
        search (handler_rules, upload_keys-Keeps) depth 9
    protected-Keeps s (ProtectedRoute.get_user_keys id) = search (handler_rules, bundle-Keeps)
    protected-Keeps s (ProtectedRoute.post_conversations body) =
        search (handler_rules, create-Keeps)
    protected-Keeps s (ProtectedRoute.post_messages body) =
        search (handler_rules, send_message-Keeps) depth 9
    protected-Keeps s (ProtectedRoute.get_messages id page) =
        search (handler_rules, list_messages-Keeps) depth 9

    pub serve-Keeps : (request : Request) → Keeps env O (serve env crypto secret request)
    unfolding serve with_auth
    serve-Keeps (open_to_all route) = public-Keeps route
    serve-Keeps (behind_auth header route) = record {
      at = λ w.
          go w (require_auth env crypto secret header w).0
            (require_auth env crypto secret header w).1
            ((require_auth-Keeps env O writes crypto secret header).at w);
    }
      where
        go :
            (w : World env) (r : Result Denial Session) (w' : World env)
            → O.Before w.db w'.db
            → O.Before w.db (after_auth env crypto secret r route w').1.db
        go w (err d) w' h = h
        go w (ok s) w' h = O.chain w.db w'.db _ h ((protected-Keeps s route).at w')

    pub serve_all-Keeps :
        (requests : List Request) (w : World env)
        → O.Before w.db (serve_all env crypto secret requests w).db
    unfolding serve_all
    serve_all-Keeps [] w = O.same w.db
    serve_all-Keeps (r ∷ rs) w =
        O.chain w.db (serve env crypto secret r w).1.db _ ((serve-Keeps r).at w)
          (serve_all-Keeps rs (serve env crypto secret r w).1)
