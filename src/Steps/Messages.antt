-- ===== src/Steps/Messages.antt =====
-- The service of messages: SendMessage and ListMessages as the statements that they issue.
use flutter_whatsapp_clone.Base.{ℕ, ℤ, List, Option, String}
use flutter_whatsapp_clone.Models.{Uuid, Time}
use flutter_whatsapp_clone.Store.{Env}
use flutter_whatsapp_clone.Store.Keeps.{Order, Keeps, keeps_rules}
use flutter_whatsapp_clone.Steps.Writes.{Writes}
use flutter_whatsapp_clone.Messages.Defs.{is_active_participant}
use flutter_whatsapp_clone.Messages.Send.{
  SendMessageRequest, TxError, resolve_duplicate, on_tx_error, send_message,
}
use flutter_whatsapp_clone.Messages.Listing.{
  MessageListRow, resolve_cursor, list_rows, mark_delivered, list_messages,
}

module _ (env : Env) (O : Order) (writes : Writes env O) where
  participant-Keeps : (c u : Uuid) → Keeps env O (is_active_participant env c u)
  unfolding is_active_participant
  participant-Keeps c u = search keeps_rules

  resolve-Keeps : (c d i : Uuid) (body : String) → Keeps env O (resolve_duplicate env c d i body)
  unfolding resolve_duplicate
  resolve-Keeps c d i body = search keeps_rules depth 9

  on_tx_error-Keeps :
      (c d i : Uuid) (body : String) (e : TxError) → Keeps env O (on_tx_error env c d i body e)
  on_tx_error-Keeps c d i body TxError.duplicate_client_message = resolve-Keeps c d i body
  on_tx_error-Keeps c d i body TxError.other = search keeps_rules

  pub send_message-Keeps :
      (caller device : Uuid) (req : SendMessageRequest)
      → Keeps env O (send_message env caller device req)
  unfolding send_message
  send_message-Keeps caller device req =
      search (keeps_rules, participant-Keeps, writes.post_message, on_tx_error-Keeps) depth 12

  resolve_cursor-Keeps : (c : Uuid) (before : String) → Keeps env O (resolve_cursor env c before)
  unfolding resolve_cursor
  resolve_cursor-Keeps c before = search keeps_rules depth 9

  list_rows-Keeps :
      (u d c : Uuid) (cursor : Option Time) (n : ℕ) → Keeps env O (list_rows env u d c cursor n)
  unfolding list_rows
  list_rows-Keeps u d c cursor n = search keeps_rules

  mark_delivered-Keeps : (rows : List MessageListRow) → Keeps env O (mark_delivered env rows)
  unfolding mark_delivered
  mark_delivered-Keeps rows = search (keeps_rules, writes.update_recipients) depth 9

  pub list_messages-Keeps :
      (u d : Uuid) (c : String) (limit : ℤ) (before : String)
      → Keeps env O (list_messages env u d c limit before)
  unfolding list_messages
  list_messages-Keeps u d c limit before =
      search
        (
          keeps_rules, participant-Keeps, resolve_cursor-Keeps, list_rows-Keeps,
          mark_delivered-Keeps,
        )
        depth 12
