-- ===== src/Tests/Listing.antt =====
-- Listing in the sample world, after a message was sent.
use flutter_whatsapp_clone.Base.{
  insert_sorted, order_by, [], ◌∷◌, List, true, any, length, ◌⊎◌, ◌≤◌, ℕ, ◌≡◌, refl, pos,
}
use flutter_whatsapp_clone.Action.{Result, ok, err}
use flutter_whatsapp_clone.Store.{World}
use flutter_whatsapp_clone.Messages.Defs.{Error}
use flutter_whatsapp_clone.Messages.Listing.{
  to_mark_delivered, joined, mark_delivered, resolve_cursor, list_rows, MessageListItem,
  clamp_limit, list_messages,
}
use flutter_whatsapp_clone.Messages.Listing.Page.{clamp_limit_bounds}
use flutter_whatsapp_clone.Messages.Listing.Outcome.{Answer, list_messages-Answer}
use flutter_whatsapp_clone.Messages.Listing.Marking.{Pointwise, Advances, list_messages-Advances}
use flutter_whatsapp_clone.Tests.Fixtures.{calm, a_world, a_device}
use flutter_whatsapp_clone.Tests.Auth.{plain, first_claims}
use flutter_whatsapp_clone.Tests.Messages.{sent_world, hello, hello_message, running}
use mathlib.Core.List.{mem-cons_self, mem-cons_of_mem}
use flutter_whatsapp_clone.Store.{command}
use flutter_whatsapp_clone.Server.{
  PublicRoute, open_to_all, as_payload, handle_health, serve_public, serve,
}
use flutter_whatsapp_clone.Server.{serve_all}
use flutter_whatsapp_clone.History.Delivery.{shows_item, send_message-list_messages}

-- The list of an answer.
abbrev items_of : Result Error (List MessageListItem) × World calm → List MessageListItem
items_of (ok items, w) = items
items_of (err e, w) = []

-- User 2 lists on the device 22.
abbrev listed : Result Error (List MessageListItem) × World calm
listed = list_messages calm 2 22 "iiiiii" (pos 0) "" sent_world

clamp_limit_bounds_example :
    (1 ≤ clamp_limit (pos 500))
    × (clamp_limit (pos 500) ≤ 100)
    × ((n : ℕ) → pos 500 ≡ pos n → 1 ≤ n → n ≤ 100 → clamp_limit (pos 500) ≡ n)
clamp_limit_bounds_example = clamp_limit_bounds (pos 500)

list_messages-Answer_example :
    Answer calm 2 22 5 (pos 0) "" sent_world.db listed.1.db (items_of listed)
unfolding running list_messages list_rows resolve_cursor mark_delivered joined to_mark_delivered
    clamp_limit order_by insert_sorted
list_messages-Answer_example =
    list_messages-Answer calm 2 22 "iiiiii" 5 (pos 0) "" sent_world listed.1 (items_of listed) refl
      refl

list_messages-Advances_example :
    Pointwise (Advances 2 22) sent_world.db.recipients listed.1.db.recipients
unfolding running list_messages list_rows resolve_cursor mark_delivered joined to_mark_delivered
    clamp_limit order_by insert_sorted
list_messages-Advances_example =
    list_messages-Advances calm 2 22 "iiiiii" 5 (pos 0) "" sent_world listed.1 (items_of listed)
      refl (refl, tt) refl

-- User 2 lists after the server was asked for its health.
abbrev later_world : World calm
later_world =
    serve_all calm (plain first_claims) "key" (open_to_all PublicRoute.get_health ∷ []) sent_world

abbrev later_listed : Result Error (List MessageListItem) × World calm
later_listed = list_messages calm 2 22 "iiiiii" (pos 0) "" later_world

send_message-list_messages_example :
    (any (shows_item calm 120 1 "hello") (items_of later_listed) ≡ true)
    ⊎ (length (items_of later_listed) ≡ clamp_limit (pos 0))
unfolding running list_messages list_rows resolve_cursor mark_delivered joined to_mark_delivered
    clamp_limit order_by insert_sorted serve_all serve serve_public handle_health as_payload command
send_message-list_messages_example =
    send_message-list_messages calm (plain first_claims) "key" 1 11 hello 5 3 (a_device 22 2)
      (pos 0) (open_to_all PublicRoute.get_health ∷ []) a_world sent_world later_listed.1
      (record { message = hello_message; body = "hello"; was_created = true })
      (items_of later_listed) refl refl refl refl
      (mem-cons_of_mem _ (mem-cons_of_mem _ mem-cons_self)) refl refl
