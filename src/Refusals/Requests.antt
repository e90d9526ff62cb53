-- ===== src/Refusals/Requests.antt =====
-- internal/server: a request that is answered with a status from 400 to 499 leaves the tables as they
-- were.
use flutter_whatsapp_clone.Base.{
  Bool, true, false, String, ◌≡◌, refl, sym, ap, ◌∙◌, inl, inr, if◌then◌else◌,
}
use flutter_whatsapp_clone.Crypto.{Crypto}
use flutter_whatsapp_clone.Store.{Env, World}
use flutter_whatsapp_clone.Store.Keeps.{Keeps, keeps_rules}
use flutter_whatsapp_clone.Web.{status_of, is_client_error}
use flutter_whatsapp_clone.Auth.Defs as Auth
use flutter_whatsapp_clone.Messages.Defs as Mess
use flutter_whatsapp_clone.Conversations.Defs as Conv
use flutter_whatsapp_clone.Conversations.Handler.{
  handle_create, handle_list_conversations, create_failure,
}
use flutter_whatsapp_clone.Keys.Defs as Key
use flutter_whatsapp_clone.Users
use flutter_whatsapp_clone.Users.Handler.{handle_me, handle_search, me_failure, search_failure}
use flutter_whatsapp_clone.Auth.Handler.{
  handle_register, handle_verify_otp, handle_resend_otp, handle_login, handle_logout,
  handle_refresh, register_failure, verify_otp_failure, resend_otp_failure, login_failure,
  refresh_failure,
}
use flutter_whatsapp_clone.Messages.Handler.{handle_send, handle_list, send_failure, list_failure}
use flutter_whatsapp_clone.Keys.Handler.{handle_upload_keys, handle_get_user_keys, bundle_failure}
use flutter_whatsapp_clone.Auth.Middleware.{Session}
use flutter_whatsapp_clone.Server.{
  PublicRoute, ProtectedRoute, Request, open_to_all, behind_auth, handle_health, serve_public,
  serve_protected, serve,
}
use flutter_whatsapp_clone.Store.Keeps.{reading}
use flutter_whatsapp_clone.Server.Guard.{serve-RequireAuth}
use flutter_whatsapp_clone.Refusals.Accounts.{
  is_internal, register-Spares, verify_otp-Spares, resend_otp-Spares, login-Spares, refresh-Spares,
}
use flutter_whatsapp_clone.Refusals.Contents.{
  message_internal, conversation_internal, send_message-Spares, list_messages-Spares, create-Spares,
}
use flutter_whatsapp_clone.Refusals.Bundles.{key_internal, bundle-Spares}
use flutter_whatsapp_clone.Refusals.Handlers.{
  IsHarmless, reply-IsHarmless, answer-IsHarmless, reads-IsHarmless, fatal-IsHarmless,
  bound-IsHarmless, parsed-IsHarmless, checked-IsHarmless, as_payload-IsHarmless,
}

-- Each service has one error that its handler answers with status 500.
auth_only : (e : Auth.Error) → is_internal e ≡ true → e ≡ Auth.internal
auth_only Auth.internal h = refl
auth_only Auth.identifier_required h = cc
auth_only Auth.identifier_taken h = cc
auth_only Auth.user_not_found h = cc
auth_only Auth.invalid_credentials h = cc
auth_only Auth.account_not_verified h = cc
auth_only Auth.account_disabled h = cc
auth_only Auth.refresh_token_invalid h = cc
auth_only Auth.refresh_token_expired h = cc
auth_only Auth.already_verified h = cc
auth_only Auth.too_many_attempts h = cc
auth_only Auth.invalid_otp h = cc
auth_only Auth.otp_expired h = cc
auth_only Auth.too_soon h = cc

message_only : (e : Mess.Error) → message_internal e ≡ true → e ≡ Mess.internal
message_only Mess.internal h = refl
message_only Mess.invalid_conversation_id h = cc
message_only Mess.invalid_client_message_id h = cc
message_only Mess.not_a_participant h = cc
message_only Mess.client_message_id_reused h = cc
message_only Mess.invalid_before_message_id h = cc

conversation_only : (e : Conv.Error) → conversation_internal e ≡ true → e ≡ Conv.internal
conversation_only Conv.internal h = refl
conversation_only Conv.invalid_participant h = cc
conversation_only Conv.cannot_message_self h = cc
conversation_only Conv.participant_not_found h = cc

key_only : (e : Key.Error) → key_internal e ≡ true → e ≡ Key.internal
key_only Key.internal h = refl
key_only Key.user_not_found h = cc
key_only Key.no_keys_available h = cc

created_status : (b : Bool) → is_client_error (if b then 201 else 200) ≡ false
created_status true = refl
created_status false = refl

module _ (env : Env) where
  health-IsHarmless : IsHarmless env (handle_health env)
  unfolding handle_health
  health-IsHarmless = record { harmless = λ w c. cc }

  module _ (crypto : Crypto) (secret : String) where
    public-IsHarmless :
        (route : PublicRoute) → IsHarmless env (serve_public env crypto secret route)
    unfolding serve_public handle_register handle_verify_otp handle_resend_otp handle_login
        handle_refresh handle_logout register_failure verify_otp_failure resend_otp_failure
        login_failure refresh_failure
    public-IsHarmless PublicRoute.get_health = as_payload-IsHarmless _ _ health-IsHarmless
    public-IsHarmless (PublicRoute.post_register body) = as_payload-IsHarmless _ _ (
        bound-IsHarmless body _ (λ req.
          answer-IsHarmless is_internal Auth.internal _ _ _ (register-Spares env crypto req)
            auth_only refl (λ a. refl)))
    public-IsHarmless (PublicRoute.post_verify_otp body) = as_payload-IsHarmless _ _ (
        bound-IsHarmless body _ (λ req.
          answer-IsHarmless is_internal Auth.internal _ _ _ (verify_otp-Spares env crypto req)
            auth_only refl (λ a. refl)))
    public-IsHarmless (PublicRoute.post_resend_otp body) = as_payload-IsHarmless _ _ (
        bound-IsHarmless body _ (λ req.
          answer-IsHarmless is_internal Auth.internal _ _ _
            (resend_otp-Spares env crypto req.identifier) auth_only refl (λ a. refl)))
    public-IsHarmless (PublicRoute.post_login body) = as_payload-IsHarmless _ _ (
        bound-IsHarmless body _ (λ req.
          answer-IsHarmless is_internal Auth.internal _ _ _ (login-Spares env crypto secret req)
            auth_only refl (λ a. refl)))
    public-IsHarmless (PublicRoute.post_refresh body) = as_payload-IsHarmless _ _ (
        bound-IsHarmless body _ (λ req.
          answer-IsHarmless is_internal Auth.internal _ _ _
            (refresh-Spares env crypto secret req.refresh_token) auth_only refl (λ a. refl)))
    public-IsHarmless (PublicRoute.post_logout body) =
        as_payload-IsHarmless _ _
          (bound-IsHarmless body _ (λ req. fatal-IsHarmless _ _ (λ a. refl)))

    me_reads : (id : String) → Keeps env reading (Users.get_by_id env id)
    unfolding Users.get_by_id
    me_reads id = search keeps_rules

    find_reads : (phone email : String) → Keeps env reading (Users.search env phone email)
    unfolding Users.search
    find_reads phone email = search keeps_rules

    protected-IsHarmless :
        (s : Session) (route : ProtectedRoute)
        → IsHarmless env (serve_protected env crypto secret s route)
    unfolding serve_protected handle_me handle_search handle_list_conversations handle_upload_keys
        handle_get_user_keys handle_create handle_send handle_list me_failure search_failure
        create_failure send_failure list_failure bundle_failure
    protected-IsHarmless s ProtectedRoute.get_health_protected = reply-IsHarmless _
    protected-IsHarmless s ProtectedRoute.get_me =
        as_payload-IsHarmless _ _ (reads-IsHarmless _ _ _ (me_reads s.user_id))
    protected-IsHarmless s ProtectedRoute.get_conversations =
        as_payload-IsHarmless _ _
          (parsed-IsHarmless _ _ (λ caller. fatal-IsHarmless _ _ (λ a. refl)))
    protected-IsHarmless s (ProtectedRoute.get_search sought) =
        as_payload-IsHarmless _ _ (
          bound-IsHarmless sought _
            (λ req. reads-IsHarmless _ _ _ (find_reads req.phone req.email)))
    protected-IsHarmless s (ProtectedRoute.post_keys body) = as_payload-IsHarmless _ _ (
        bound-IsHarmless body _ (λ req.
          checked-IsHarmless _ _
            (parsed-IsHarmless _ _ (λ device. fatal-IsHarmless _ _ (λ a. refl)))))
    protected-IsHarmless s (ProtectedRoute.get_user_keys id) = as_payload-IsHarmless _ _ (
        answer-IsHarmless key_internal Key.internal _ _ _ (bundle-Spares env id) key_only refl
          (λ a. refl))
    protected-IsHarmless s (ProtectedRoute.post_conversations body) = as_payload-IsHarmless _ _ (
        bound-IsHarmless body _ (λ req. parsed-IsHarmless _ _ (λ caller.
          answer-IsHarmless conversation_internal Conv.internal _ _ _
            (create-Spares env caller req.participant_id) conversation_only refl
            (λ a. created_status a.was_created))))
    protected-IsHarmless s (ProtectedRoute.post_messages body) = as_payload-IsHarmless _ _ (
        bound-IsHarmless body _ (λ req. parsed-IsHarmless _ _ (λ caller.
          parsed-IsHarmless _ _ (λ device.
            answer-IsHarmless message_internal Mess.internal _ _ _
              (send_message-Spares env caller device req) message_only refl
              (λ a. created_status a.was_created)))))
    protected-IsHarmless s (ProtectedRoute.get_messages id page) = as_payload-IsHarmless _ _ (
        bound-IsHarmless page _ (λ q. parsed-IsHarmless _ _ (λ caller.
          parsed-IsHarmless _ _ (λ device.
            answer-IsHarmless message_internal Mess.internal _ _ _
              (list_messages-Spares env caller device id q.limit q.before_message_id) message_only
              refl (λ a. refl)))))

    -- A request that is answered with a status from 400 to 499 leaves the tables as they were, whatever
    -- its statements do.
    pub serve-client_error :
        (request : Request) (w : World env)
        → is_client_error (status_of (serve env crypto secret request w).0) ≡ true
        → (serve env crypto secret request w).1.db ≡ w.db
    unfolding serve
    serve-client_error (open_to_all route) w c = (public-IsHarmless route).harmless w c
    serve-client_error (behind_auth header route) w c =
        elim (serve-RequireAuth env crypto secret header route w) [
          | inl away ↦ away.untouched
          | inr let_in ↦
              ap (λ r. r.1.db) let_in.handled
              ∙ (protected-IsHarmless let_in.session route).harmless let_in.start
                  (sym (ap (λ r. is_client_error (status_of r.0)) let_in.handled) ∙ c)
              ∙ let_in.untouched
        ]
