-- ===== src/Conversations/Listing.antt =====
-- internal/conversations/service.go: ListConversations.
use flutter_whatsapp_clone.Base.{
  Bool, not, ◌&&◌, Option, none, some, List, [], ◌∷◌, ◌++◌, map, length, contains, select_where,
  order_by, leb, ◌==◌, if◌then◌else◌,
}
use flutter_whatsapp_clone.Models.{Uuid, User, Conversation, ConversationParticipant, is_direct}
use flutter_whatsapp_clone.Action.{Action, pure, ◌>>=◌}
use flutter_whatsapp_clone.Store.{Env, World, query}
use flutter_whatsapp_clone.Conversations.Defs.{
  ConversationParticipantSummary, ConversationListItem, Error, joins, internal,
}

-- Each conversation once for each active participation of the caller, which the index
-- on (conversation_id, user_id) keeps to one.
unfoldable pub joined_rows :
    Uuid → List ConversationParticipant → List Conversation → List Conversation
joined_rows caller ps [] = []
joined_rows caller ps (c ∷ cs) =
    map (λ p. c) (select_where (joins caller c) ps) ++ joined_rows caller ps cs

-- A Go map that is filled in the order of a list: the last value of a key stands.
unfoldable pub last_where {ℓ} : {A : Type ℓ} → (A → Bool) → List A → Option A
last_where p [] = none
last_where p (x ∷ xs) = elim (last_where p xs) [
  | none ↦ if p x then some x else none
  | some y ↦ some y
]

module _ (env : Env) where
  unfoldable pub list_rows : Uuid → Action (World env) Error (List Conversation)
  unfolding joined_rows
  list_rows caller =
      query
        (λ db n.
          order_by (λ x y. leb y.created_at x.created_at)
            (env.arrange _ n (joined_rows caller db.participants db.conversations)))
        internal

  unfoldable pub other_participants :
      Uuid → List Conversation → Action (World env) Error (List ConversationParticipant)
  other_participants caller cs =
      query
        (λ db n. env.arrange _ n (
          select_where
            (λ p.
              contains (map (λ c. c.id) cs) p.conversation_id
              && not (p.user_id == caller)
              && p.is_active)
            db.participants))
        internal

  unfoldable pub load_profiles : List ConversationParticipant → Action (World env) Error (List User)
  load_profiles others =
      if length others == 0
      then pure []
      else query
          (λ db n.
            env.arrange _ n
              (select_where (λ u. contains (map (λ p. p.user_id) others) u.id) db.users))
          internal

  abbrev pub summary_of : User → ConversationParticipantSummary
  summary_of u = record {
    id = env.uuid_string u.id;
    name = u.name;
    about = u.about_text;
    profile_photo_url = u.profile_photo_url;
  }

  -- The two map lookups for a direct conversation.
  unfoldable pub other_of :
      List ConversationParticipant
      → List User
      → Conversation
      → Option ConversationParticipantSummary
  unfolding last_where
  other_of others users c =
      if is_direct c.type
      then elim (last_where (λ p. p.conversation_id == c.id) others) [
        | none ↦ none
        | some p ↦ elim (last_where (λ u. u.id == p.user_id) users) [
          | none ↦ none
          | some u ↦ some (summary_of u)
        ]
      ]
      else none

  abbrev pub item_of :
      List ConversationParticipant → List User → Conversation → ConversationListItem
  item_of others users c = record {
    id = env.uuid_string c.id;
    type = c.type;
    created_at = env.format_time c.created_at;
    other_participant = other_of others users c;
  }

  unfoldable pub list_conversations : Uuid → Action (World env) Error (List ConversationListItem)
  list_conversations caller = do
    rows ← list_rows caller
    if length rows == 0 then pure [] else do
      others ← other_participants caller rows
      users ← load_profiles others
      pure (map (item_of others users) rows)
