-- ===== src/Users.antt =====
-- internal/users/service.go: profile lookups.
pub mod Found
pub mod Handler
use flutter_whatsapp_clone.Base.{
  Bool, true, false, not, ◌&&◌, some, String, first_where, ◌==◌, str_eq, if◌then◌else◌,
}
use flutter_whatsapp_clone.Models.{User, account_is_active}
use flutter_whatsapp_clone.Action.{Action, ◌>>=◌, ◌>>◌, ensure, or_fail}
use flutter_whatsapp_clone.Store.{Env, World, query, same_text}

pub data Error : Type 0 where
  user_not_found search_param_required internal : Error

abbrev pub same_bool : Bool → Bool → Bool
same_bool true b = b
same_bool false b = not b

module _ (env : Env) where
  unfoldable pub get_by_id : String → Action (World env) Error User
  get_by_id user_id = do
    id ← or_fail (env.parse_uuid user_id) user_not_found
    found ← query (λ db n. first_where (λ u. u.id) (λ u. u.id == id) db.users) internal
    or_fail found user_not_found

  -- The WHERE: an active account with the one identifier that was given.
  abbrev pub is_found_by : String → String → User → Bool
  is_found_by phone email u =
      account_is_active u.account_status
      && (if str_eq phone ""
          then same_text env.citext_eq u.email (some email)
          else same_text str_eq u.phone_number (some phone))

  unfoldable pub search : String → String → Action (World env) Error User
  search phone email = do
    ensure (not (same_bool (not (str_eq phone "")) (not (str_eq email "")))) search_param_required
    found ← query (λ db n. first_where (λ u. u.id) (is_found_by phone email) db.users) internal
    or_fail found user_not_found
