-- ===== src/Refusals/Contents.antt =====
-- The services of messages and conversations: the errors that the handlers answer with a
-- status below 500 leave the tables as they were.
use flutter_whatsapp_clone.Base.{ℕ, ℤ, String, Bool, true, false, Option, List, ◌==◌, ◌≡◌, refl}
use flutter_whatsapp_clone.Models.{Uuid, Time}
use flutter_whatsapp_clone.Store.{Env}
use flutter_whatsapp_clone.Store.Keeps.{Keeps, keeps_rules}
use flutter_whatsapp_clone.Store.Keeps.{reading}
use flutter_whatsapp_clone.Conversations.Defs as Conv
use flutter_whatsapp_clone.Conversations.Create.{
  find_existing_direct_conversation, open_existing, open_new, create_direct_conversation,
}
use flutter_whatsapp_clone.Messages.Defs as Mess
use flutter_whatsapp_clone.Messages.Send.{
  SendMessageRequest, TxError, resolve_duplicate, on_tx_error, send_message,
}
use flutter_whatsapp_clone.Messages.Listing.{
  MessageListRow, resolve_cursor, list_rows, mark_delivered, list_messages,
}
use flutter_whatsapp_clone.Refusals.Rules.{
  Spares, Grave, Spares-reads, Spares-Grave, Spares-if, Spares-transaction, Spares-on_error,
  Spares-bind_reads, Spares-bind-Grave, Grave-raise, grave_rules,
}

-- The error of a transaction that is answered with status 500.
abbrev is_other : TxError → Bool
is_other TxError.other = true
is_other TxError.duplicate_client_message = false

abbrev pub message_internal : Mess.Error → Bool
message_internal Mess.internal = true
message_internal _ = false

abbrev pub conversation_internal : Conv.Error → Bool
conversation_internal Conv.internal = true
conversation_internal _ = false

module _ (env : Env) where
  participant_reads : (c u : Uuid) → Keeps env reading (Mess.is_active_participant env c u)
  unfolding Mess.is_active_participant
  participant_reads c u = search keeps_rules

  resolve_reads :
      (c d i : Uuid) (body : String) → Keeps env reading (resolve_duplicate env c d i body)
  unfolding resolve_duplicate
  resolve_reads c d i body = search keeps_rules depth 9

  on_tx_error_reads :
      (c d i : Uuid) (body : String) (e : TxError)
      → is_other e ≡ false
      → Keeps env reading (on_tx_error env c d i body e)
  on_tx_error_reads c d i body TxError.duplicate_client_message h = resolve_reads c d i body
  on_tx_error_reads c d i body TxError.other h = cc

  on_tx_error-Grave :
      (c d i : Uuid) (body : String) (e : TxError)
      → is_other e ≡ true
      → Grave env message_internal (on_tx_error env c d i body e)
  on_tx_error-Grave c d i body TxError.duplicate_client_message h = cc
  on_tx_error-Grave c d i body TxError.other h = Grave-raise Mess.internal refl

  pub send_message-Spares :
      (caller device : Uuid) (req : SendMessageRequest)
      → Spares env message_internal (send_message env caller device req)
  unfolding send_message
  send_message-Spares caller device req = Spares-bind_reads _ _ (search keeps_rules) (λ c.
      Spares-bind_reads _ _ (search keeps_rules) (λ i.
        Spares-bind_reads _ _ (search participant_reads) (λ member.
          Spares-bind_reads _ _ (search keeps_rules) (λ u.
            Spares-on_error is_other _ _
              (Spares-bind-Grave _ _ (Spares-transaction TxError.other _ refl)
                (λ message. search grave_rules))
              (on_tx_error_reads c device i req.body) (on_tx_error-Grave c device i req.body)))))

  cursor_reads : (c : Uuid) (before : String) → Keeps env reading (resolve_cursor env c before)
  unfolding resolve_cursor
  cursor_reads c before = search keeps_rules depth 9

  list_rows_reads :
      (u d c : Uuid) (cursor : Option Time) (n : ℕ)
      → Keeps env reading (list_rows env u d c cursor n)
  unfolding list_rows
  list_rows_reads u d c cursor n = search keeps_rules

  mark_delivered-Grave :
      (rows : List MessageListRow) → Grave env message_internal (mark_delivered env rows)
  unfolding mark_delivered
  mark_delivered-Grave rows = search grave_rules depth 9

  pub list_messages-Spares :
      (u d : Uuid) (c : String) (limit : ℤ) (before : String)
      → Spares env message_internal (list_messages env u d c limit before)
  unfolding list_messages
  list_messages-Spares u d c limit before =
      Spares-bind_reads _ _ (search keeps_rules) (λ conversation.
        Spares-bind_reads _ _ (search participant_reads) (λ member.
          Spares-bind_reads _ _ (search keeps_rules) (λ t.
            Spares-bind_reads _ _ (search cursor_reads) (λ cursor.
              Spares-bind_reads _ _ (search list_rows_reads)
                (λ rows. Spares-Grave _ (search (grave_rules, mark_delivered-Grave) depth 9))))))

  find_existing_reads : (a b : Uuid) → Keeps env reading (find_existing_direct_conversation env a b)
  unfolding find_existing_direct_conversation
  find_existing_reads a b = search keeps_rules

  open_existing_reads : (a : Uuid) → Keeps env reading (open_existing env a)
  unfolding open_existing
  open_existing_reads a = search keeps_rules

  open_new-Spares : (a b : Uuid) → Spares env conversation_internal (open_new env a b)
  unfolding open_new
  open_new-Spares a b =
      Spares-bind-Grave _ _ (Spares-transaction Conv.internal _ refl) (λ c. search grave_rules)

  pub create-Spares :
      (caller : Uuid) (text : String)
      → Spares env conversation_internal (create_direct_conversation env caller text)
  unfolding create_direct_conversation
  create-Spares caller text = Spares-bind_reads _ _ (search keeps_rules) (λ participant.
      Spares-bind_reads _ _ (search keeps_rules) (λ u.
        Spares-bind_reads _ _ (search keeps_rules) (λ found.
          Spares-bind_reads _ _ (search keeps_rules) (λ user.
            Spares-bind_reads _ _ (search find_existing_reads) (λ existing.
              Spares-if (existing == 0) _ _ (open_new-Spares caller participant)
                (Spares-reads _ (open_existing_reads existing)))))))
