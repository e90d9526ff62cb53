-- ===== src/Tests/Conversations.antt =====
-- Creating a conversation in the sample world.
use flutter_whatsapp_clone.Base.{insert_sorted, order_by, ◌==◌, first_where, true, false, ◌≡◌, refl}
use mathlib.Core.List.{Mem}
use flutter_whatsapp_clone.Models.{account_is_active, User}
use flutter_whatsapp_clone.Action.{◌>>=◌, or_fail, ensure, on_error}
use flutter_whatsapp_clone.Store.{World, query, insert, insert_rows, transaction, fits}
use flutter_whatsapp_clone.Conversations.Defs.{CreateResult}
use flutter_whatsapp_clone.Conversations.Create.{
  store_conversation, open_new, find_existing_direct_conversation, new_conversation,
  create_direct_conversation,
}
use flutter_whatsapp_clone.Conversations.Create.Outcome.{
  Answered, create_direct_conversation-Answered,
}
use flutter_whatsapp_clone.Tests.Fixtures.{calm, a_world, a_db}

-- User 1 writes to user 3, for the first time.
abbrev created_world : World calm
created_world = (create_direct_conversation calm 1 "iiii" a_world).1

abbrev created : CreateResult
created = record { conversation = new_conversation calm 1 3; was_created = true }

create_direct_conversation-Answered_example :
    ((3 == 1) ≡ false)
    × ((u : User) × Mem u a_db.users × (u.id ≡ 3) × (account_is_active u.account_status ≡ true))
    × Answered calm 1 3 a_db created_world.db created
unfolding create_direct_conversation find_existing_direct_conversation open_new store_conversation
    query insert insert_rows transaction fits on_error or_fail ensure first_where order_by
    insert_sorted ◌>>=◌
create_direct_conversation-Answered_example =
    create_direct_conversation-Answered calm 1 3 "iiii" a_world created_world created refl refl
