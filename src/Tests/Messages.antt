-- ===== src/Tests/Messages.antt =====
-- Sending and listing in the sample world.
use flutter_whatsapp_clone.Base.{true, ◌≡◌, refl, false}
use flutter_whatsapp_clone.Action.{ok, is_ok, ◌>>=◌, or_fail, ensure, on_error}
use flutter_whatsapp_clone.Models.{Message}
use flutter_whatsapp_clone.Store.{World, query, execute, insert, insert_rows, transaction, fits}
use flutter_whatsapp_clone.Messages.Send.Retry.{send_message_retry}
use flutter_whatsapp_clone.Messages.Send.{
  SendMessageRequest, new_message, build_recipient_rows, add_recipients, with_ids, store_message,
  resolve_duplicate, send_message,
}
use flutter_whatsapp_clone.Messages.Defs.{is_active_participant}
use flutter_whatsapp_clone.Messages.Send.Outcome.{
  Outcome, send_message-Outcome, send_message_outsider,
}
use flutter_whatsapp_clone.Tests.Fixtures.{calm, a_world, a_db}

unfoldable pub running : Unit {0}
unfolding send_message is_active_participant store_message build_recipient_rows add_recipients
    with_ids resolve_duplicate query execute insert insert_rows transaction fits on_error or_fail
    ensure ◌>>=◌
running = tt

abbrev pub hello : SendMessageRequest
hello = record { conversation_id = "iiiiii"; client_message_id = "iiii"; body = "hello" }

send_message-Outcome_example :
    Outcome calm 5 1 11 3 "hello" a_db (send_message calm 1 11 hello a_world)
send_message-Outcome_example = send_message-Outcome calm 1 11 hello 5 3 a_world refl refl

send_message_outsider_example :
    (is_ok (send_message calm 3 33 hello a_world).0 ≡ false)
    × ((send_message calm 3 33 hello a_world).1.db ≡ a_db)
send_message_outsider_example = send_message_outsider calm 3 33 hello 5 a_world refl refl

abbrev pub sent_world : World calm
sent_world = (send_message calm 1 11 hello a_world).1

abbrev pub hello_message : Message
hello_message = new_message calm 5 1 11 3 2

send_message_retry_example :
    ((send_message calm 1 11 hello sent_world).0
      ≡ ok (record { message = hello_message; body = "hello"; was_created = false }))
    × ((send_message calm 1 11 hello sent_world).1.db ≡ sent_world.db)
unfolding running
send_message_retry_example =
    send_message_retry calm 1 11 hello 5 3 a_world sent_world
      (record { message = hello_message; body = "hello"; was_created = true }) refl refl
      (λ n h. refl) refl refl
