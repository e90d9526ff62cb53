-- ===== src/Users/Handler.antt =====
-- internal/users/handler.go: the answers to GET /users/me and GET /users/search.
use flutter_whatsapp_clone.Base.{String, Option}
use flutter_whatsapp_clone.Models.{User}
use flutter_whatsapp_clone.Store.{Env}
use flutter_whatsapp_clone.Web.{Reply, failure, json, internal_error, Handler, answer, bound}
use flutter_whatsapp_clone.Auth.Middleware.{Session}
use flutter_whatsapp_clone.Users.{Error, user_not_found, search_param_required, get_by_id, search}

pub record MeResponse : Type 0 where
  pub id : String
  pub name : String
  pub phone_number : Option String
  pub email : Option String
  pub about : Option String
  pub profile_photo_url : Option String
  pub created_at : String

pub record SearchUserRequest : Type 0 where
  pub phone : String
  pub email : String

pub record SearchUserResponse : Type 0 where
  pub id : String
  pub name : String
  pub about : Option String
  pub profile_photo_url : Option String

module _ {P : Type 0} where
  unfoldable pub me_failure : Error → Reply P
  me_failure user_not_found = failure 404 "USER_NOT_FOUND"
  me_failure _ = internal_error

  unfoldable pub search_failure : Error → Reply P
  search_failure search_param_required = failure 400 "SEARCH_PARAM_REQUIRED"
  search_failure user_not_found = failure 404 "USER_NOT_FOUND"
  search_failure _ = internal_error

module _ (env : Env) where
  abbrev pub me_response : User → MeResponse
  me_response u = record {
    id = env.uuid_string u.id;
    name = u.name;
    phone_number = u.phone_number;
    email = u.email;
    about = u.about_text;
    profile_photo_url = u.profile_photo_url;
    created_at = env.format_time u.created_at;
  }

  abbrev pub search_response : User → SearchUserResponse
  search_response u = record {
    id = env.uuid_string u.id;
    name = u.name;
    about = u.about_text;
    profile_photo_url = u.profile_photo_url;
  }

  unfoldable pub handle_me : Session → Handler env MeResponse
  handle_me session =
      answer (get_by_id env session.user_id) me_failure (λ u. json 200 (me_response u))

  unfoldable pub handle_search : Option SearchUserRequest → Handler env SearchUserResponse
  handle_search query = bound query λ req.
      answer (search env req.phone req.email) search_failure (λ u. json 200 (search_response u))
