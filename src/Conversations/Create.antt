-- ===== src/Conversations/Create.antt =====
-- internal/conversations/service.go: CreateDirectConversation.
pub mod Existing
pub mod Outcome
use flutter_whatsapp_clone.Base.{
  head?, ℕ, Bool, true, false, not, ◌&&◌, Option, none, some, List, [], ◌∷◌, String, any,
  select_where, first_where, ◌==◌, if◌then◌else◌,
}
use flutter_whatsapp_clone.Models.{
  Uuid, User, Conversation, ConversationParticipant, ConversationType, account_is_active, is_direct,
}
use flutter_whatsapp_clone.Action.{Action, pure, raise, ◌>>=◌, ◌>>◌, on_error, ensure, or_fail}
use flutter_whatsapp_clone.Store.{
  Db, Env, World, conversations_table, participants_table, query, insert, insert_rows, transaction,
  before_create,
}
use flutter_whatsapp_clone.Conversations.Defs.{
  CreateResult, Error, joins, invalid_participant, cannot_message_self, participant_not_found,
  internal,
}

-- The rows of the two joins, less their repetitions.
abbrev pub is_shared : Db → Uuid → Uuid → Conversation → Bool
is_shared db a b c =
    is_direct c.type && any (joins a c) db.participants && any (joins b c) db.participants

abbrev pub id_of : Option Conversation → Uuid
id_of none = 0
id_of (some c) = c.id

module _ (env : Env) where
  -- uuid.Nil, which is 0, where there is none.
  unfoldable pub find_existing_direct_conversation : Uuid → Uuid → Action (World env) Error Uuid
  find_existing_direct_conversation a b =
      query
        (λ db n. id_of (head? (env.arrange _ n (select_where (is_shared db a b) db.conversations))))
        internal

  abbrev pub new_conversation : Uuid → ℕ → Conversation
  new_conversation caller n = record {
    id = before_create 0 (env.new_uuid n 0);
    type = ConversationType.direct;
    created_by = caller;
    created_at = env.now n;
  }

  -- `joined_at` is the zero time of Go, which is sent as it is.
  abbrev pub new_member : Uuid → Uuid → ℕ → ℕ → ConversationParticipant
  new_member conversation user n i = record {
    id = before_create 0 (env.new_uuid n i);
    conversation_id = conversation;
    user_id = user;
    role = "member";
    joined_at = 0;
    left_at = none;
    is_active = true;
  }

  -- The closure of the transaction.
  unfoldable pub store_conversation : Uuid → Uuid → Action (World env) Error Conversation
  store_conversation caller participant = do
    c ← on_error (insert conversations_table (new_conversation caller)) (λ e. raise internal)
    members ←
        on_error
          (insert_rows participants_table
            (λ n. new_member c.id caller n 0 ∷ new_member c.id participant n 1 ∷ []))
          (λ e. raise internal)
    pure c

  unfoldable pub open_existing : Uuid → Action (World env) Error CreateResult
  open_existing id = do
    found ← query (λ db n. first_where (λ c. c.id) (λ c. c.id == id) db.conversations) internal
    existing ← or_fail found internal
    pure (record { conversation = existing; was_created = false })

  unfoldable pub open_new : Uuid → Uuid → Action (World env) Error CreateResult
  open_new caller participant = do
    c ← transaction internal (store_conversation caller participant)
    pure (record { conversation = c; was_created = true })

  unfoldable pub create_direct_conversation : Uuid → String → Action (World env) Error CreateResult
  create_direct_conversation caller participant_id = do
    participant ← or_fail (env.parse_uuid participant_id) invalid_participant
    ensure (not (participant == caller)) cannot_message_self
    found ←
        query
          (λ db n.
            first_where (λ u. u.id) (λ u. u.id == participant && account_is_active u.account_status)
              db.users)
          internal
    user ← or_fail found participant_not_found
    existing ← find_existing_direct_conversation caller participant
    if existing == 0 then open_new caller participant else open_existing existing
