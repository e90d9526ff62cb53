-- ===== src/Tests/Auth.antt =====
-- Sessions and one-time codes in the sample world, with hashes that keep the text.
use flutter_whatsapp_clone.Base.{
  ◌*◌, ◌/◌, order_by, insert_sorted, first_where, inr, ap, ◌∙◌, inl, Bool-cases, sym, ℕ, ◌<◌, Bool,
  true, ◌&&◌, Option, none, some, [], ◌∷◌, String, ltb, ◌==◌, str_eq, eq_iff, if◌then◌else◌, ◌≡◌,
  ◌≢◌, refl, arith,
}
use flutter_whatsapp_clone.Models.{Time, RefreshToken}
use flutter_whatsapp_clone.Crypto.{Crypto, Claims, Parsed, valid, expired, invalid}
use flutter_whatsapp_clone.Action.{◌>>=◌, ensure, or_fail, on_error}
use flutter_whatsapp_clone.Store.{command, ignored, fits, execute, insert, query, World}
use flutter_whatsapp_clone.Auth.Defs.{LoginRequest, LoginResult}
use flutter_whatsapp_clone.Auth.Tokens.{
  generate_access_token, generate_refresh_token, parse_access_token,
}
use flutter_whatsapp_clone.Auth.Accounts.{find_by_identifier}
use flutter_whatsapp_clone.Auth.Sessions.{
  login, authenticate, open_session, admit, logout, find_token, end_session, revoke, refresh,
  exchangeable, exchange, check_expiry, rotate, rotate_at,
}
use flutter_whatsapp_clone.Auth.Sessions.Login.{Authenticated, SessionOf, login-SessionOf}
use flutter_whatsapp_clone.Auth.Sessions.Refresh.{Exchangeable, Exchanged, refresh-Exchanged}
use flutter_whatsapp_clone.Auth.Middleware.{
  Session, require_auth, read_token, accept_parsed, is_device_active, equal_fold, split_at_space,
}
use flutter_whatsapp_clone.Tests.Fixtures.{spell, a_user, calm, a_world, a_db}

abbrev whole_seconds : Time → Time
whole_seconds t = t / 1000000 * 1000000

abbrev pub same_claims : Claims → Claims → Bool
same_claims c d =
    str_eq c.user_id d.user_id
    && str_eq c.device_id d.device_id
    && c.issued_at == d.issued_at
    && c.expires_at == d.expires_at

-- "t" is the token of these claims, and no other token is ever signed.
abbrev pub parse_with : Claims → Time → String → String → Parsed
parse_with d now secret token =
    if str_eq token "t" then if ltb now d.expires_at then valid d else expired else invalid

abbrev pub sign_with : Claims → String → Claims → Option String
sign_with d secret c = if same_claims c d then some "t" else none

eq_of : (a b : String) → str_eq a b ≡ true → a ≡ b
eq_of a b h = (eq_iff a b).0 h

same_claims_eq : (c d : Claims) → same_claims c d ≡ true → c ≡ d
same_claims_eq c d h =
    let u = eq_of c.user_id d.user_id (ground arith) in
    let v = eq_of c.device_id d.device_id (ground arith) in
    let i : c.issued_at ≡ d.issued_at = ground arith in
    let e : c.expires_at ≡ d.expires_at = ground arith in cc

pub parse-sign_with :
    (d : Claims) (now : Time) (secret token : String) (c : Claims)
    → whole_seconds c.issued_at ≡ c.issued_at
    → whole_seconds c.expires_at ≡ c.expires_at
    → sign_with d secret c ≡ some token
    → ltb now c.expires_at ≡ true
    → parse_with d now secret token ≡ valid c
parse-sign_with d now secret token c issued ends h live = elim (Bool-cases (same_claims c d)) [
  | inl same ↦
      let claims : c ≡ d = same_claims_eq c d same in
      let text : str_eq token "t" ≡ true =
        (eq_iff token "t").1
          (of_some token "t" (sym h ∙ ap (λ b. if b then some "t" else none) same)) in
      rw (text, ← claims, live) refl
  | inr differs ↦
      absurd (none_signed token (sym (ap (λ b. if b then some "t" else none) differs) ∙ h))
]
  where
    of_some : (a b : String) → ◌≡◌ {A = Option String} (some a) (some b) → a ≡ b
    of_some a b e = cc

    none_signed : (a : String) → ◌≢◌ {A = Option String} none (some a)
    none_signed a e = cc

pub digit_bound : (n i d : ℕ) → ◌≡◌ {A = Option ℕ} (some 7) (some d) → d < 10
digit_bound n i d h = ground arith

pub matches_lem :
    (n : ℕ) (hash password : String)
    → ◌≡◌ {A = Option String} (some password) (some hash)
    → str_eq hash password ≡ true
matches_lem n hash password h =
    let same : password ≡ hash = cc in (eq_iff hash password).1 (sym same)

abbrev pub plain : Claims → Crypto
plain d = record {
  sha256_hex = λ s. s;
  random_digit = λ n i. some 7;
  random_digit_bound = digit_bound;
  random_token = λ n. some "raw";
  bcrypt_hash = λ n p. some p;
  bcrypt_matches = str_eq;
  bcrypt-matches = matches_lem;
  numeric_date = whole_seconds;
  numeric_date_lem = λ t. refl;
  sign = sign_with d;
  parse = parse_with d;
  parse-sign = parse-sign_with d;
}

-- The claims of tokens made in the first second, for a device; a login makes the device 110 of user 1.
abbrev claims_of : ℕ → ℕ → Claims
claims_of user device = record {
  user_id = spell user;
  device_id = spell device;
  issued_at = 0;
  expires_at = 900000000;
}

abbrev pub first_claims : Claims
first_claims = claims_of 1 110

abbrev pub a_login : LoginRequest
a_login = record { identifier = spell 1; password = ""; device_name = ""; platform = "" }

abbrev pub logged_in : LoginResult
logged_in = record {
  access_token = "t";
  refresh_token = "raw";
  expires_at = 900001002;
  user = a_user 1;
}

abbrev pub session_world : World calm
session_world = (login calm (plain first_claims) "key" a_login a_world).1

unfoldable pub running_auth : Unit {0}
unfolding login authenticate open_session admit find_by_identifier generate_access_token
    generate_refresh_token query insert execute fits on_error or_fail ensure first_where order_by
    insert_sorted ◌>>=◌ logout find_token end_session revoke require_auth read_token
    parse_access_token accept_parsed is_device_active equal_fold split_at_space refresh exchangeable
    exchange check_expiry rotate rotate_at ignored command
running_auth = tt

login-SessionOf_example :
    Authenticated calm (plain first_claims) "key" a_login a_db (a_user 1)
    × SessionOf calm (plain first_claims) "key" (a_user 1) a_db session_world.db logged_in
unfolding running_auth
login-SessionOf_example =
    login-SessionOf calm (plain first_claims) "key" a_login a_world session_world logged_in refl

-- The claims of the refresh, and the token that it takes.
abbrev pub refreshed_claims : Claims
refreshed_claims = claims_of 1 11

abbrev pub old_token : RefreshToken
old_token = record {
  id = 9;
  user_id = 1;
  device_id = 11;
  token_hash = "old";
  issued_at = 0;
  expires_at = 5000;
  revoked_at = none;
}

abbrev pub token_world : World calm
token_world = record a_world { db = record a_db { refresh_tokens = old_token ∷ [] } }

abbrev refreshed_world : World calm
refreshed_world = (refresh calm (plain refreshed_claims) "key" "old" token_world).1

refresh-Exchanged_example :
    (old : RefreshToken) × Exchangeable calm (plain refreshed_claims) "key" "old" token_world old
    × Exchanged calm (plain refreshed_claims) "key" old token_world.db refreshed_world.db logged_in
unfolding running_auth
refresh-Exchanged_example =
    refresh-Exchanged calm (plain refreshed_claims) "key" "old" token_world refreshed_world
      logged_in refl

abbrev pub other_claims : Claims
other_claims = claims_of 1 12

-- The device 11 is logged out; a request from the device 12 still passes.
abbrev pub left_world : World calm
left_world = (logout calm (plain other_claims) "key" "old" token_world).1

abbrev pub other_session : Session
other_session = record { user_id = spell 1; device_id = spell 12 }
