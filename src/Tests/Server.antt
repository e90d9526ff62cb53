-- ===== src/Tests/Server.antt =====
-- Runs of the server in the sample world.
use flutter_whatsapp_clone.Base.{
  arith, ℕ, none, some, List, [], ◌∷◌, ◌++◌, first_where, order_by, insert_sorted, ◌≡◌, ◌≢◌, ◌⊎◌,
  refl,
}
use flutter_whatsapp_clone.Models.{SignalOneTimePrekey, RefreshToken, Device}
use flutter_whatsapp_clone.Crypto.{Crypto}
use flutter_whatsapp_clone.Action.{ok, ◌>>=◌, ensure, or_fail, on_error}
use flutter_whatsapp_clone.Store.{
  execute_returning, Env, World, advance, query, command, execute, insert, ignored, fits,
}
use flutter_whatsapp_clone.Web.{answer, reply, bound, parsed}
use flutter_whatsapp_clone.Conversations.Create.{create_direct_conversation}
use flutter_whatsapp_clone.Conversations.Handler.{handle_create, create_failure}
use flutter_whatsapp_clone.Refusals.Requests.{serve-client_error}
use flutter_whatsapp_clone.Auth.Defs.{LoginResult}
use flutter_whatsapp_clone.Auth.Tokens.{
  generate_access_token, generate_refresh_token, parse_access_token,
}
use flutter_whatsapp_clone.Auth.Accounts.{find_by_identifier}
use flutter_whatsapp_clone.Auth.Sessions.{
  login, authenticate, open_session, admit, logout, find_token, end_session, revoke, refresh,
  exchangeable, exchange, check_expiry, rotate, rotate_at,
}
use flutter_whatsapp_clone.Auth.Sessions.Refresh.{Exchangeable, Exchanged}
use flutter_whatsapp_clone.Auth.Middleware.{
  require_auth, read_token, accept_parsed, is_device_active, equal_fold, split_at_space,
}
use flutter_whatsapp_clone.Auth.Middleware.Entry.{login-require_auth}
use flutter_whatsapp_clone.Users.{get_by_id}
use flutter_whatsapp_clone.Users.Handler.{handle_me}
use flutter_whatsapp_clone.Server.{
  serve_all, Request, open_to_all, behind_auth, PublicRoute, ProtectedRoute, handle_health,
  serve_public, serve_protected, with_auth, serve, as_payload,
}
use flutter_whatsapp_clone.Server.Guard.{TurnedAway, LetIn, serve-RequireAuth}
use flutter_whatsapp_clone.History.Grows.{Grows}
use flutter_whatsapp_clone.History.Requests.{serve_all-Grows}
use flutter_whatsapp_clone.History.Revoked.{logout-serve_all, refresh-serve_all}
use flutter_whatsapp_clone.History.Prekeys.{claim-serve_all}
use flutter_whatsapp_clone.Keys.Bundle.{oldest_unused, claim_one_time_prekey}
use flutter_whatsapp_clone.Keys.Bundle.Claim.{Claimed}
use flutter_whatsapp_clone.Tests.Keys.{stocked, first_claim, handed}
use flutter_whatsapp_clone.Tests.Fixtures.{calm, spell, a_user, a_db, a_world}
use flutter_whatsapp_clone.Tests.Auth.{
  plain, first_claims, other_claims, refreshed_claims, old_token, token_world, left_world,
  other_session, session_world, a_login, logged_in,
}

serving : Unit {0}
unfolding login authenticate open_session admit find_by_identifier generate_access_token
    generate_refresh_token query insert execute fits on_error or_fail ensure first_where order_by
    insert_sorted ◌>>=◌ logout find_token end_session revoke require_auth read_token
    parse_access_token accept_parsed is_device_active equal_fold split_at_space refresh exchangeable
    exchange check_expiry rotate rotate_at ignored command serve serve_public serve_protected
    with_auth as_payload handle_health handle_me get_by_id answer reply serve_all
serving = tt

-- A login, a question for the own profile, and a look at the health of the server.
abbrev some_requests : List Request
some_requests =
    open_to_all (PublicRoute.post_login (some a_login))
    ∷ behind_auth "Bearer t" ProtectedRoute.get_me
    ∷ open_to_all PublicRoute.get_health
    ∷ []

serve_all-Grows_example :
    Grows a_db (serve_all calm (plain first_claims) "key" some_requests a_world).db
serve_all-Grows_example = serve_all-Grows calm (plain first_claims) "key" some_requests a_world

abbrev two_requests : List Request
two_requests =
    behind_auth "Bearer t" ProtectedRoute.get_me ∷ open_to_all PublicRoute.get_health ∷ []

-- The device 11 is logged out; a request from the device 12 still passes after two more.
logout-serve_all_example : calm.parse_uuid (spell 12) ≢ some 11
unfolding serving
logout-serve_all_example =
    logout-serve_all calm (plain other_claims) "key" "old" "Bearer t" two_requests token_world
      left_world
      (require_auth calm (plain other_claims) "key" "Bearer t"
        (serve_all calm (plain other_claims) "key" two_requests left_world)).1
      tt old_token other_session refl refl refl refl refl

login-require_auth_example :
    (device : Device) × (session_world.db.devices ≡ a_db.devices ++ device ∷ [])
    × (device.user_id ≡ 1)
    × (require_auth calm (plain first_claims) "key" "Bearer t" session_world
        ≡ (ok (record { user_id = spell 1; device_id = spell device.id }), advance session_world))
unfolding serving
login-require_auth_example =
    login-require_auth calm (plain first_claims) "key" "Bearer t" a_login a_world session_world
      session_world logged_in refl refl refl refl refl (omega arith)

-- A clock that stands still, and another raw token at each draw.
abbrev still : Env
still = record calm { now = λ n. 1002 }

abbrev varied : Crypto
varied = record (plain refreshed_claims) { random_token = λ n. some (spell n) }

abbrev still_world : World still
still_world = record { db = token_world.db; cache = λ k. none; tick = 0 }

abbrev renewed : ℕ → LoginResult
renewed n = record {
  access_token = "t";
  refresh_token = spell n;
  expires_at = 900001002;
  user = a_user 1;
}

abbrev one_request : List Request
one_request = open_to_all PublicRoute.get_health ∷ []

abbrev once_world : World still
once_world = (refresh still varied "key" "old" still_world).1

abbrev between_world : World still
between_world = serve_all still varied "key" one_request once_world

abbrev twice_world : World still
twice_world = (refresh still varied "key" "iii" between_world).1

refresh-serve_all_example :
    (a : RefreshToken) × (b : RefreshToken) × Exchangeable still varied "key" "old" still_world a
    × Exchanged still varied "key" a still_world.db once_world.db (renewed 2)
    × Exchangeable still varied "key" "iii" between_world b
    × Exchanged still varied "key" b between_world.db twice_world.db (renewed 9)
    × (a.id ≢ b.id)
unfolding serving
refresh-serve_all_example =
    refresh-serve_all still varied "key" "old" "iii" one_request still_world once_world twice_world
      (renewed 2) (renewed 9) refl refl

serve-RequireAuth_example :
    TurnedAway calm (plain first_claims) "key" "Bearer t" ProtectedRoute.get_me session_world
    ⊎ LetIn calm (plain first_claims) "key" "Bearer t" ProtectedRoute.get_me session_world
serve-RequireAuth_example =
    serve-RequireAuth calm (plain first_claims) "key" "Bearer t" ProtectedRoute.get_me session_world

-- The world after the claim of the key 1, a look at the server's health, and the claim of the key 2.
abbrev unclaimed_left : World calm
unclaimed_left = serve_all calm (plain first_claims) "key" one_request first_claim

claim-serve_all_example :
    (a : SignalOneTimePrekey) × (b : SignalOneTimePrekey) × Claimed 22 stocked.db.one_time_prekeys
      first_claim.db.one_time_prekeys
      (handed 1 "one")
      a
    × Claimed 22 unclaimed_left.db.one_time_prekeys
        (claim_one_time_prekey calm 22 unclaimed_left).1.db.one_time_prekeys
        (handed 2 "two")
        b
    × (b.id ≢ a.id)
unfolding serving claim_one_time_prekey oldest_unused execute_returning
claim-serve_all_example =
    claim-serve_all calm (plain first_claims) "key" 22 22 one_request stocked first_claim
      (claim_one_time_prekey calm 22 unclaimed_left).1 (handed 1 "one") (handed 2 "two") refl refl

-- User 1 opens a conversation with user 1, and is refused with status 400.
abbrev a_refused_request : Request
a_refused_request =
    behind_auth "Bearer t"
      (ProtectedRoute.post_conversations (some (record { participant_id = spell 1 })))

serve-client_error_example :
    (serve calm (plain first_claims) "key" a_refused_request session_world).1.db ≡ session_world.db
unfolding serving handle_create bound parsed create_failure create_direct_conversation
serve-client_error_example =
    serve-client_error calm (plain first_claims) "key" a_refused_request session_world refl
