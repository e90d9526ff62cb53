-- ===== src/Messages/Defs.antt =====
-- internal/messages/service.go: what sending and listing share.
use flutter_whatsapp_clone.Base.{Bool, ◌&&◌, length, select_where, ltb, ◌==◌}
use flutter_whatsapp_clone.Models.{Uuid, ConversationParticipant}
use flutter_whatsapp_clone.Action.{Action}
use flutter_whatsapp_clone.Store.{Env, World, query}

-- The sentinel errors; `internal` is any other error, which the handler hides.
pub data Error : Type 0 where
  invalid_conversation_id invalid_client_message_id not_a_participant : Error
  client_message_id_reused invalid_before_message_id internal : Error

-- The WHERE of isActiveParticipant.
abbrev pub is_active_in : Uuid → Uuid → ConversationParticipant → Bool
is_active_in conversation user p =
    p.conversation_id == conversation && p.user_id == user && p.is_active

module _ (env : Env) where
  unfoldable pub is_active_participant : Uuid → Uuid → Action (World env) Error Bool
  is_active_participant conversation user =
      query (λ db n. ltb 0 (length (select_where (is_active_in conversation user) db.participants)))
        internal
