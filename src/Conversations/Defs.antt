-- ===== src/Conversations/Defs.antt =====
-- internal/conversations/dto.go and service.go: results and errors.
use flutter_whatsapp_clone.Base.{Bool, ◌&&◌, String, Option, ◌==◌}
use flutter_whatsapp_clone.Models.{Uuid, Conversation, ConversationParticipant, ConversationType}

pub record CreateResult : Type 0 where
  pub conversation : Conversation
  pub was_created : Bool

pub record ConversationParticipantSummary : Type 0 where
  pub id : String
  pub name : String
  pub about : Option String
  pub profile_photo_url : Option String

pub record ConversationListItem : Type 0 where
  pub id : String
  pub type : ConversationType
  pub created_at : String
  pub other_participant : Option ConversationParticipantSummary

-- The sentinel errors; `internal` is any other error.
pub data Error : Type 0 where
  invalid_participant cannot_message_self participant_not_found internal : Error

-- The ON of a join with the active participation of a user.
abbrev pub joins : Uuid → Conversation → ConversationParticipant → Bool
joins user c p = p.conversation_id == c.id && p.user_id == user && p.is_active
