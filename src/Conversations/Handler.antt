-- ===== src/Conversations/Handler.antt =====
-- internal/conversations/handler.go: the answers to POST and GET /conversations.
use flutter_whatsapp_clone.Base.{String, Option, List, if◌then◌else◌}
use flutter_whatsapp_clone.Models.{ConversationType}
use flutter_whatsapp_clone.Store.{Env}
use flutter_whatsapp_clone.Web.{
  Reply, failure, json, internal_error, Handler, answer, bound, parsed,
}
use flutter_whatsapp_clone.Auth.Middleware.{Session}
use flutter_whatsapp_clone.Conversations.Defs.{
  CreateResult, ConversationListItem, Error, invalid_participant, cannot_message_self,
  participant_not_found,
}
use flutter_whatsapp_clone.Conversations.Create.{create_direct_conversation}
use flutter_whatsapp_clone.Conversations.Listing.{list_conversations}

pub record CreateConversationRequest : Type 0 where
  pub participant_id : String

pub record ConversationResponse : Type 0 where
  pub id : String
  pub type : ConversationType
  pub created_at : String

pub record ListConversationsResponse : Type 0 where
  pub conversations : List ConversationListItem

module _ {P : Type 0} where
  unfoldable pub create_failure : Error → Reply P
  create_failure invalid_participant = failure 400 "INVALID_PARTICIPANT"
  create_failure cannot_message_self = failure 400 "CANNOT_MESSAGE_SELF"
  create_failure participant_not_found = failure 404 "PARTICIPANT_NOT_FOUND"
  create_failure _ = internal_error

module _ (env : Env) where
  abbrev pub created_reply : CreateResult → Reply ConversationResponse
  created_reply r = json (if r.was_created then 201 else 200) (record {
    id = env.uuid_string r.conversation.id;
    type = r.conversation.type;
    created_at = env.format_time r.conversation.created_at;
  })

  unfoldable pub handle_create :
      Session → Option CreateConversationRequest → Handler env ConversationResponse
  handle_create session body = bound body λ req. parsed (env.parse_uuid session.user_id) λ caller.
      answer (create_direct_conversation env caller req.participant_id) create_failure created_reply

  unfoldable pub handle_list_conversations : Session → Handler env ListConversationsResponse
  handle_list_conversations session = parsed (env.parse_uuid session.user_id) λ caller.
      answer (list_conversations env caller) (λ e. internal_error)
        (λ items. json 200 (record { conversations = items }))
