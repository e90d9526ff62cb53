-- ===== src/Messages/Send.antt =====
-- internal/messages/service.go: SendMessage.
pub mod FanOut
pub mod Posting
pub mod Outcome
pub mod Retry
use flutter_whatsapp_clone.Base.{
  ℕ, suc, Bool, true, false, not, ◌&&◌, String, none, List, [], ◌∷◌, map, length, contains,
  select_where, ◌==◌, if◌then◌else◌, first_where,
}
use flutter_whatsapp_clone.Models.{
  Uuid, Device, ConversationParticipant, Message, MessageRecipient, sent, device_is_active,
}
use flutter_whatsapp_clone.Action.{Action, pure, raise, ◌>>=◌, ◌>>◌, on_error, ensure, or_fail}
use flutter_whatsapp_clone.Store.{
  Env, World, InsertError, duplicate_key, failed, messages_table, recipients_table, query, insert,
  insert_rows, transaction, before_create,
}
use flutter_whatsapp_clone.Messages.Defs.{
  Error, invalid_conversation_id, invalid_client_message_id, not_a_participant,
  client_message_id_reused, internal, is_active_participant,
}

-- An error inside the transaction: errDuplicateClientMessage, or any other.
pub data TxError : Type 0 where
  duplicate_client_message other : TxError

pub record SendMessageRequest : Type 0 where
  pub conversation_id : String
  pub client_message_id : String
  pub body : String

pub record SendResult : Type 0 where
  pub message : Message
  pub body : String
  pub was_created : Bool

-- The WHERE that finds the other participants of a conversation.
abbrev pub is_other_in : Uuid → Uuid → ConversationParticipant → Bool
is_other_in conversation caller p =
    p.conversation_id == conversation && not (p.user_id == caller) && p.is_active

abbrev pub has_client_id : Uuid → Uuid → Message → Bool
has_client_id device client_id m = m.sender_device_id == device && m.client_message_id == client_id

module _ (env : Env) where
  abbrev pub recipient_row : Uuid → String → Device → MessageRecipient
  recipient_row message_id body device = record {
    id = 0;
    message_id = message_id;
    recipient_user_id = device.user_id;
    recipient_device_id = device.id;
    ciphertext = body;
    status = sent;
    delivered_at = none;
    read_at = none;
  }

  unfoldable pub build_recipient_rows :
      Uuid → Uuid → Uuid → String → Action (World env) TxError (List MessageRecipient)
  build_recipient_rows conversation caller message_id body = do
    others ←
        query
          (λ db n. env.arrange _ n (select_where (is_other_in conversation caller) db.participants))
          other
    if length others == 0 then pure [] else do
      devices ←
          query
            (λ db n. env.arrange _ n (
              select_where
                (λ d. contains (map (λ p. p.user_id) others) d.user_id && device_is_active d.status)
                db.devices))
            other
      pure (map (recipient_row message_id body) devices)

  abbrev pub new_message : Uuid → Uuid → Uuid → Uuid → ℕ → Message
  new_message conversation caller device client_id n = record {
    id = before_create 0 (env.new_uuid n 0);
    conversation_id = conversation;
    sender_id = caller;
    sender_device_id = device;
    client_message_id = client_id;
    message_type = "text";
    created_at = env.now n;
    deleted_at = none;
  }

  -- BeforeCreate, for each row of a batch.
  unfoldable pub with_ids : ℕ → ℕ → List MessageRecipient → List MessageRecipient
  with_ids n i [] = []
  with_ids n i (r ∷ rs) =
      record r { id = before_create r.id (env.new_uuid n i) } ∷ with_ids n (suc i) rs

  abbrev of_insert : InsertError → TxError
  of_insert duplicate_key = duplicate_client_message
  of_insert failed = other

  unfoldable pub add_recipients :
      Message → List MessageRecipient → Action (World env) TxError Message
  unfolding with_ids
  add_recipients message rows = if length rows == 0 then pure message else do
    stored ← on_error (insert_rows recipients_table (λ n. with_ids n 0 rows)) (λ e. raise other)
    pure message

  -- The closure that SendMessage hands to Transaction.
  unfoldable pub store_message :
      Uuid → Uuid → Uuid → Uuid → String → Action (World env) TxError Message
  unfolding build_recipient_rows add_recipients
  store_message conversation caller device client_id body = do
    message ←
        on_error (insert messages_table (new_message conversation caller device client_id))
          (λ e. raise (of_insert e))
    rows ← build_recipient_rows conversation caller message.id body
    add_recipients message rows

  -- After the unique index on (sender_device_id, client_message_id) refused the row.
  unfoldable pub resolve_duplicate :
      Uuid → Uuid → Uuid → String → Action (World env) Error SendResult
  resolve_duplicate conversation device client_id body = do
    found ←
        query (λ db n. first_where (λ m. m.id) (has_client_id device client_id) db.messages)
          internal
    existing ← or_fail found internal
    ensure (existing.conversation_id == conversation) client_message_id_reused
    pure (record { message = existing; body = body; was_created = false })

  abbrev pub on_tx_error :
      Uuid → Uuid → Uuid → String → TxError → Action (World env) Error SendResult
  on_tx_error conversation device client_id body duplicate_client_message =
      resolve_duplicate conversation device client_id body
  on_tx_error conversation device client_id body other = raise internal

  unfoldable pub send_message :
      Uuid → Uuid → SendMessageRequest → Action (World env) Error SendResult
  send_message caller device req = do
    conversation ← or_fail (env.parse_uuid req.conversation_id) invalid_conversation_id
    client_id ← or_fail (env.parse_uuid req.client_message_id) invalid_client_message_id
    member ← is_active_participant env conversation caller
    ensure member not_a_participant
    on_error
        (do
          message ← transaction other (store_message conversation caller device client_id req.body)
          pure (record { message = message; body = req.body; was_created = true }))
        (on_tx_error conversation device client_id req.body)
