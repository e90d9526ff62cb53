-- ===== src/Steps/Units.antt =====
-- The rotation of a signed prekey and the two transactions, as the statements that they issue.
use flutter_whatsapp_clone.Base.{ℕ, List, Option, none, some, String, map}
use flutter_whatsapp_clone.Models.{
  Uuid, SignalSignedPrekey, Conversation, ConversationParticipant, Message, MessageRecipient,
}
use flutter_whatsapp_clone.Store.{
  Env, signed_prekeys_table, conversations_table, participants_table, messages_table,
  recipients_table, execute, insert, insert_rows, transaction,
}
use flutter_whatsapp_clone.Store.Keeps.{Order, Keeps, Keeps-transaction, keeps_rules}
use flutter_whatsapp_clone.Conversations.Defs as Conversations
use flutter_whatsapp_clone.Keys.Defs.{SignedPrekeyInput, internal}
use flutter_whatsapp_clone.Keys.Upload.{deactivated, rotate_signed_prekey}
use flutter_whatsapp_clone.Conversations.Create.{store_conversation}
use flutter_whatsapp_clone.Messages.Send.{
  build_recipient_rows, add_recipients, store_message, TxError,
}

module _ {env : Env} {O : Order} where
  pub rotation-Keeps :
      ((device : Uuid)
        → Keeps env O (
            execute
              (λ db n. record db { signed_prekeys = map (deactivated device) db.signed_prekeys })
              internal))
      → ((make : ℕ → SignalSignedPrekey) → Keeps env O (insert signed_prekeys_table make))
      → (device : Uuid) (k : Option SignedPrekeyInput)
      → Keeps env O (rotate_signed_prekey env device k)
  unfolding rotate_signed_prekey
  rotation-Keeps off add device none = search keeps_rules
  rotation-Keeps off add device (some k) = search (keeps_rules, off, add) depth 9

  store_conversation-Keeps :
      ((make : ℕ → Conversation) → Keeps env O (insert conversations_table make))
      → ((make : ℕ → List ConversationParticipant)
          → Keeps env O (insert_rows participants_table make))
      → (a b : Uuid) → Keeps env O (store_conversation env a b)
  unfolding store_conversation
  store_conversation-Keeps add join a b = search (keeps_rules, add, join) depth 9

  pub conversation-Keeps :
      ((make : ℕ → Conversation) → Keeps env O (insert conversations_table make))
      → ((make : ℕ → List ConversationParticipant)
          → Keeps env O (insert_rows participants_table make))
      → (a b : Uuid)
      → Keeps env O (transaction Conversations.Error.internal (store_conversation env a b))
  conversation-Keeps add join a b = Keeps-transaction _ _ (store_conversation-Keeps add join a b)

  build_rows-Keeps :
      (c u m : Uuid) (body : String) → Keeps env O (build_recipient_rows env c u m body)
  unfolding build_recipient_rows
  build_rows-Keeps c u m body = search keeps_rules depth 9

  add_recipients-Keeps :
      ((make : ℕ → List MessageRecipient) → Keeps env O (insert_rows recipients_table make))
      → (m : Message) (rows : List MessageRecipient) → Keeps env O (add_recipients env m rows)
  unfolding add_recipients
  add_recipients-Keeps send m rows = search (keeps_rules, send) depth 9

  store_message-Keeps :
      ((make : ℕ → Message) → Keeps env O (insert messages_table make))
      → ((make : ℕ → List MessageRecipient) → Keeps env O (insert_rows recipients_table make))
      → (c u d i : Uuid) (body : String) → Keeps env O (store_message env c u d i body)
  unfolding store_message
  store_message-Keeps add send c u d i body =
      search (keeps_rules, add, build_rows-Keeps, add_recipients-Keeps send) depth 9

  pub message-Keeps :
      ((make : ℕ → Message) → Keeps env O (insert messages_table make))
      → ((make : ℕ → List MessageRecipient) → Keeps env O (insert_rows recipients_table make))
      → (c u d i : Uuid) (body : String)
      → Keeps env O (transaction TxError.other (store_message env c u d i body))
  message-Keeps add send c u d i body =
      Keeps-transaction _ _ (store_message-Keeps add send c u d i body)
