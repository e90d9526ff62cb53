-- ===== src/Messages/Handler.antt =====
-- internal/messages/handler.go: the answers to POST /messages and GET /messages/:conversationId.
use flutter_whatsapp_clone.Base.{ℤ, String, Option, List, if◌then◌else◌}
use flutter_whatsapp_clone.Store.{Env}
use flutter_whatsapp_clone.Web.{
  Reply, failure, json, internal_error, Handler, answer, bound, parsed,
}
use flutter_whatsapp_clone.Auth.Middleware.{Session}
use flutter_whatsapp_clone.Messages.Defs.{
  Error, invalid_conversation_id, invalid_client_message_id, not_a_participant,
  client_message_id_reused, invalid_before_message_id,
}
use flutter_whatsapp_clone.Messages.Send.{SendMessageRequest, SendResult, send_message}
use flutter_whatsapp_clone.Messages.Listing.{MessageListItem, list_messages}

pub record MessageResponse : Type 0 where
  pub id : String
  pub conversation_id : String
  pub sender_id : String
  pub client_message_id : String
  pub message_type : String
  pub body : String
  pub created_at : String

pub record ListMessagesQuery : Type 0 where
  pub limit : ℤ
  pub before_message_id : String

pub record ListMessagesResponse : Type 0 where
  pub messages : List MessageListItem

module _ {P : Type 0} where
  unfoldable pub send_failure : Error → Reply P
  send_failure invalid_conversation_id = failure 400 "INVALID_CONVERSATION_ID"
  send_failure invalid_client_message_id = failure 400 "INVALID_CLIENT_MESSAGE_ID"
  send_failure not_a_participant = failure 403 "NOT_A_PARTICIPANT"
  send_failure client_message_id_reused = failure 409 "CLIENT_MESSAGE_ID_REUSED"
  send_failure _ = internal_error

  unfoldable pub list_failure : Error → Reply P
  list_failure invalid_conversation_id = failure 400 "INVALID_CONVERSATION_ID"
  list_failure not_a_participant = failure 403 "NOT_A_PARTICIPANT"
  list_failure invalid_before_message_id = failure 400 "INVALID_BEFORE_MESSAGE_ID"
  list_failure _ = internal_error

module _ (env : Env) where
  abbrev pub message_response : SendResult → MessageResponse
  message_response r = record {
    id = env.uuid_string r.message.id;
    conversation_id = env.uuid_string r.message.conversation_id;
    sender_id = env.uuid_string r.message.sender_id;
    client_message_id = env.uuid_string r.message.client_message_id;
    message_type = r.message.message_type;
    body = r.body;
    created_at = env.format_time r.message.created_at;
  }

  abbrev pub sent_reply : SendResult → Reply MessageResponse
  sent_reply r = json (if r.was_created then 201 else 200) (message_response r)

  unfoldable pub handle_send : Session → Option SendMessageRequest → Handler env MessageResponse
  handle_send session body = bound body λ req. parsed (env.parse_uuid session.user_id) λ caller.
      parsed (env.parse_uuid session.device_id)
        λ device. answer (send_message env caller device req) send_failure sent_reply

  unfoldable pub handle_list :
      Session → String → Option ListMessagesQuery → Handler env ListMessagesResponse
  handle_list session conversation_id query = bound query λ q.
      parsed (env.parse_uuid session.user_id) λ caller.
        parsed (env.parse_uuid session.device_id) λ device.
          answer (list_messages env caller device conversation_id q.limit q.before_message_id)
            list_failure (λ items. json 200 (record { messages = items }))
