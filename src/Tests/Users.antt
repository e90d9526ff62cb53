-- ===== src/Tests/Users.antt =====
-- A search and a registration in the sample world.
use flutter_whatsapp_clone.Base.{insert_sorted, order_by, first_where, ◌≡◌, refl}
use flutter_whatsapp_clone.Action.{◌>>=◌, or_fail, ensure, on_error}
use flutter_whatsapp_clone.Store.{World, query, insert, fits, ignored}
use flutter_whatsapp_clone.Users.{search}
use flutter_whatsapp_clone.Users.Found.{Found, search-Found}
use flutter_whatsapp_clone.Tests.Fixtures.{calm, spell, a_world, a_db, a_user}
use flutter_whatsapp_clone.Tests.Auth.{plain, first_claims}
use flutter_whatsapp_clone.Auth.Defs.{RegisterRequest}
use flutter_whatsapp_clone.Auth.Accounts.{new_user, hash_password, register}
use flutter_whatsapp_clone.Auth.Accounts.Registered.{Registered, register-Registered}

abbrev searched_world : World calm
searched_world = (search calm "iii" "" a_world).1

search-Found_example : Found calm "iii" "" a_db (a_user 2) × (searched_world.db ≡ a_db)
unfolding search query or_fail ensure first_where order_by insert_sorted ◌>>=◌
search-Found_example = search-Found calm "iii" "" a_world searched_world (a_user 2) refl

abbrev a_registration : RegisterRequest
a_registration = record {
  name = "new";
  phone_number = spell 8;
  email = "";
  password = "long enough";
}

abbrev registered_world : World calm
registered_world = (register calm (plain first_claims) a_registration a_world).1

-- The account 110 is made at the second statement.
register-Registered_example :
    Registered calm
      (plain first_claims)
      a_registration
      a_db
      registered_world.db
      (new_user calm (plain first_claims) a_registration "long enough" 1)
unfolding register hash_password query insert fits on_error or_fail ensure ignored ◌>>=◌
register-Registered_example =
    register-Registered calm (plain first_claims) a_registration a_world registered_world
      (new_user calm (plain first_claims) a_registration "long enough" 1) refl
