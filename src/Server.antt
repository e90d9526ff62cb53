-- ===== src/Server.antt =====
-- internal/server/server.go: the routes, and which of them stand behind RequireAuth; with them
-- internal/health/handler.go. Gin finds the route of a request, and fills in what the path and the
-- body give: a Route holds these.
pub mod Guard
use flutter_whatsapp_clone.Base.{String, Option, List, [], ◌∷◌}
use flutter_whatsapp_clone.Crypto.{Crypto}
use flutter_whatsapp_clone.Action.{Result, ok, err}
use flutter_whatsapp_clone.Store.{Env, World, query, command}
use flutter_whatsapp_clone.Web.{Reply, failure, json, internal_error, Handler, reply}
use flutter_whatsapp_clone.Auth.Defs.{RegisterRequest, VerifyOtpRequest, LoginRequest}
use flutter_whatsapp_clone.Auth.Middleware.{
  Denial, auth_header_missing, auth_header_malformed, token_invalid, token_expired, session_revoked,
  Session, require_auth,
}
use flutter_whatsapp_clone.Auth.Handler.{
  RegisterResponse, VerifyOtpResponse, ResendOtpRequest, ResendOtpResponse, LoginResponse,
  RefreshRequest, LogoutRequest, LogoutResponse, handle_register, handle_verify_otp,
  handle_resend_otp, handle_login, handle_logout, handle_refresh,
}
use flutter_whatsapp_clone.Users.Handler.{
  MeResponse, SearchUserRequest, SearchUserResponse, handle_me, handle_search,
}
use flutter_whatsapp_clone.Keys.Defs.{UploadKeysRequest, KeyBundleResponse}
use flutter_whatsapp_clone.Keys.Handler.{
  UploadKeysResponse, handle_upload_keys, handle_get_user_keys,
}
use flutter_whatsapp_clone.Conversations.Handler.{
  CreateConversationRequest, ConversationResponse, ListConversationsResponse, handle_create,
  handle_list_conversations,
}
use flutter_whatsapp_clone.Messages.Send.{SendMessageRequest}
use flutter_whatsapp_clone.Messages.Handler.{
  MessageResponse, ListMessagesQuery, ListMessagesResponse, handle_send, handle_list,
}

pub record HealthResponse : Type 0 where
  pub status : String
  pub database : String
  pub redis : String
  pub time : String

-- The JSON of GET /health/protected.
pub record AuthenticatedAs : Type 0 where
  pub user_id : String
  pub device_id : String

pub record ProtectedResponse : Type 0 where
  pub status : String
  pub authenticated_as : AuthenticatedAs

pub data Payload : Type 0 where
  of_health : HealthResponse → Payload
  of_protected : ProtectedResponse → Payload
  of_register : RegisterResponse → Payload
  of_verify_otp : VerifyOtpResponse → Payload
  of_resend_otp : ResendOtpResponse → Payload
  of_login : LoginResponse → Payload
  of_logout : LogoutResponse → Payload
  of_me : MeResponse → Payload
  of_search : SearchUserResponse → Payload
  of_upload : UploadKeysResponse → Payload
  of_bundle : KeyBundleResponse → Payload
  of_conversation : ConversationResponse → Payload
  of_conversations : ListConversationsResponse → Payload
  of_message : MessageResponse → Payload
  of_messages : ListMessagesResponse → Payload

-- The routes that anyone may call.
pub data PublicRoute : Type 0 where
  get_health : PublicRoute
  post_register : Option RegisterRequest → PublicRoute
  post_verify_otp : Option VerifyOtpRequest → PublicRoute
  post_resend_otp : Option ResendOtpRequest → PublicRoute
  post_login : Option LoginRequest → PublicRoute
  post_refresh : Option RefreshRequest → PublicRoute
  post_logout : Option LogoutRequest → PublicRoute

-- The routes behind RequireAuth.
pub data ProtectedRoute : Type 0 where
  get_health_protected get_me get_conversations : ProtectedRoute
  get_search : Option SearchUserRequest → ProtectedRoute
  post_keys : Option UploadKeysRequest → ProtectedRoute
  get_user_keys : String → ProtectedRoute
  post_conversations : Option CreateConversationRequest → ProtectedRoute
  post_messages : Option SendMessageRequest → ProtectedRoute
  get_messages : String → Option ListMessagesQuery → ProtectedRoute

-- A protected route comes with the Authorization header.
pub data Request : Type 0 where
  open_to_all : PublicRoute → Request
  behind_auth : String → ProtectedRoute → Request

abbrev pub tagged : {P : Type 0} → (P → Payload) → Reply P → Reply Payload
tagged f (failure status code) = failure status code
tagged f (json status p) = json status (f p)

abbrev pub denied : Denial → Reply Payload
denied auth_header_missing = failure 401 "AUTH_HEADER_MISSING"
denied auth_header_malformed = failure 401 "AUTH_HEADER_MALFORMED"
denied token_invalid = failure 401 "TOKEN_INVALID"
denied token_expired = failure 401 "TOKEN_EXPIRED"
denied session_revoked = failure 401 "SESSION_REVOKED"
denied Denial.internal_error = internal_error

module _ {env : Env} {P : Type 0} where
  unfoldable pub as_payload : (P → Payload) → Handler env P → Handler env Payload
  as_payload f h w = let (r, w') = h w in (tagged f r, w')

module _ (env : Env) where
  abbrev reachable : Result (Unit {0}) (Unit {0}) → String
  reachable (ok u) = "ok"
  reachable (err e) = "unreachable"

  -- A ping of each store; the answer is 200 in any case.
  unfoldable pub handle_health : Handler env HealthResponse
  handle_health w =
      let (database, w₁) = query (λ db n. tt) tt w in
      let (redis, w₂) = command (λ now s. (tt, s)) tt w₁ in
      (
        json 200 (record {
          status = "ok";
          database = reachable database;
          redis = reachable redis;
          time = env.format_time (env.now w₂.tick);
        }),
        w₂,
      )

  module _ (crypto : Crypto) (secret : String) where
    unfoldable pub serve_public : PublicRoute → Handler env Payload
    serve_public get_health = as_payload of_health handle_health
    serve_public (post_register body) = as_payload of_register (handle_register env crypto body)
    serve_public (post_verify_otp body) =
        as_payload of_verify_otp (handle_verify_otp env crypto body)
    serve_public (post_resend_otp body) =
        as_payload of_resend_otp (handle_resend_otp env crypto body)
    serve_public (post_login body) = as_payload of_login (handle_login env crypto secret body)
    serve_public (post_refresh body) = as_payload of_login (handle_refresh env crypto secret body)
    serve_public (post_logout body) = as_payload of_logout (handle_logout env crypto secret body)

    unfoldable pub serve_protected : Session → ProtectedRoute → Handler env Payload
    unfolding reply
    serve_protected s get_health_protected = reply (
        json 200 (
          of_protected (record {
            status = "ok";
            authenticated_as = record { user_id = s.user_id; device_id = s.device_id };
          })))
    serve_protected s get_me = as_payload of_me (handle_me env s)
    serve_protected s get_conversations =
        as_payload of_conversations (handle_list_conversations env s)
    serve_protected s (get_search query) = as_payload of_search (handle_search env query)
    serve_protected s (post_keys body) = as_payload of_upload (handle_upload_keys env s body)
    serve_protected s (get_user_keys id) = as_payload of_bundle (handle_get_user_keys env id)
    serve_protected s (post_conversations body) =
        as_payload of_conversation (handle_create env s body)
    serve_protected s (post_messages body) = as_payload of_message (handle_send env s body)
    serve_protected s (get_messages id query) = as_payload of_messages (handle_list env s id query)

    abbrev pub after_auth : Result Denial Session → ProtectedRoute → Handler env Payload
    after_auth (ok s) route w = serve_protected s route w
    after_auth (err d) route w = (denied d, w)

    -- RequireAuth, then the handler unless it aborts.
    unfoldable pub with_auth : String → ProtectedRoute → Handler env Payload
    with_auth header route w =
        let (r, w') = require_auth env crypto secret header w in after_auth r route w'

    unfoldable pub serve : Request → Handler env Payload
    unfolding serve_public with_auth
    serve (open_to_all route) w = serve_public route w
    serve (behind_auth header route) w = with_auth header route w

    -- A run of the server: the requests one after the other.
    unfoldable pub serve_all : List Request → World env → World env
    serve_all [] w = w
    serve_all (r ∷ rs) w = serve_all rs (serve r w).1
