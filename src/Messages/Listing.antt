-- ===== src/Messages/Listing.antt =====
-- internal/messages/service.go: ListMessages.
pub mod Page
pub mod Joined
pub mod Outcome
pub mod Marking
use flutter_whatsapp_clone.Base.{
  ℕ, Bool, true, false, ◌&&◌, String, str_eq, Option, none, some, List, [], ◌∷◌, ◌++◌, map, reverse,
  length, take, contains, select_where, update_where, ltb, leb, ◌==◌, if◌then◌else◌, order_by,
  first_where, ℤ, pos, leb_ℤ, ltb_ℤ, to_ℕ,
}
use flutter_whatsapp_clone.Models.{
  Uuid, Time, Message, MessageRecipient, DeliveryStatus, delivered, is_sent,
}
use flutter_whatsapp_clone.Action.{Action, pure, ◌>>=◌, ◌>>◌, on_error, ensure, or_fail}
use flutter_whatsapp_clone.Store.{Env, World, query, execute}
use flutter_whatsapp_clone.Messages.Defs.{
  Error, invalid_conversation_id, not_a_participant, invalid_before_message_id, internal,
  is_active_participant,
}

pub record MessageListRow : Type 0 where
  pub recipient_row_id : Uuid
  pub message_id : Uuid
  pub sender_id : Uuid
  pub message_type : String
  pub body : String
  pub status : DeliveryStatus
  pub created_at : Time

pub record MessageListItem : Type 0 where
  pub id : String
  pub sender_id : String
  pub message_type : String
  pub body : String
  pub status : DeliveryStatus
  pub created_at : String

abbrev pub default_message_list_limit : ℤ
default_message_list_limit = pos 50

abbrev pub max_message_list_limit : ℤ
max_message_list_limit = pos 100

unfoldable pub clamp_limit : ℤ → ℕ
clamp_limit limit =
    let defaulted = if leb_ℤ limit (pos 0) then default_message_list_limit else limit in
    to_ℕ (if ltb_ℤ max_message_list_limit defaulted then max_message_list_limit else defaulted)

-- What the WHERE says of a recipient row, and of the message that it is joined with.
abbrev pub is_for : Uuid → Uuid → MessageRecipient → Bool
is_for caller device r = r.recipient_user_id == caller && r.recipient_device_id == device

abbrev pub is_older : Option Time → Time → Bool
is_older none at = true
is_older (some cursor) at = ltb at cursor

abbrev is_null {ℓ} : {A : Type ℓ} → Option A → Bool
is_null none = true
is_null (some a) = false

abbrev pub is_listed : Uuid → Option Time → Message → Bool
is_listed conversation cursor m =
    m.conversation_id == conversation && is_null m.deleted_at && is_older cursor m.created_at

abbrev pub row_of : MessageRecipient → Message → MessageListRow
row_of r m = record {
  recipient_row_id = r.id;
  message_id = m.id;
  sender_id = m.sender_id;
  message_type = m.message_type;
  body = r.ciphertext;
  status = r.status;
  created_at = m.created_at;
}

-- message_recipients JOIN messages, and the WHERE.
unfoldable pub joined :
    Uuid → Uuid → Uuid → Option Time → List MessageRecipient → List Message → List MessageListRow
joined caller device conversation cursor [] ms = []
joined caller device conversation cursor (r ∷ rs) ms =
    (if is_for caller device r
      then map (row_of r)
          (select_where (λ m. m.id == r.message_id && is_listed conversation cursor m) ms)
      else [])
    ++ joined caller device conversation cursor rs ms

abbrev pub newest_first : MessageListRow → MessageListRow → Bool
newest_first x y = leb y.created_at x.created_at

abbrev pub mark_row : MessageListRow → MessageListRow
mark_row r = if is_sent r.status then record r { status = delivered } else r

-- The ids of the rows still marked "sent".
unfoldable pub to_mark_delivered : List MessageListRow → List Uuid
to_mark_delivered [] = []
to_mark_delivered (r ∷ rs) =
    let rest = to_mark_delivered rs in if is_sent r.status then r.recipient_row_id ∷ rest else rest

-- UPDATE message_recipients SET status, delivered_at WHERE id IN ids.
abbrev pub set_delivered : List Uuid → Time → List MessageRecipient → List MessageRecipient
set_delivered ids at =
    update_where (λ r. contains ids r.id)
      (λ r. record r { status = delivered; delivered_at = some at })

module _ (env : Env) where
  abbrev pub item_of : MessageListRow → MessageListItem
  item_of r = record {
    id = env.uuid_string r.message_id;
    sender_id = env.uuid_string r.sender_id;
    message_type = r.message_type;
    body = r.body;
    status = r.status;
    created_at = env.format_time r.created_at;
  }

  unfoldable pub resolve_cursor : Uuid → String → Action (World env) Error (Option Time)
  resolve_cursor conversation before = if str_eq before "" then pure none else do
    before_id ← or_fail (env.parse_uuid before) invalid_before_message_id
    found ←
        query
          (λ db n.
            first_where (λ m. m.id) (λ m. m.id == before_id && m.conversation_id == conversation)
              db.messages)
          internal
    cursor ← or_fail found invalid_before_message_id
    pure (some cursor.created_at)

  unfoldable pub list_rows :
      Uuid → Uuid → Uuid → Option Time → ℕ → Action (World env) Error (List MessageListRow)
  list_rows caller device conversation cursor limit =
      query
        (λ db n. take limit (
          order_by newest_first
            (env.arrange _ n (joined caller device conversation cursor db.recipients db.messages))))
        internal

  -- A failed update is logged, and the rows keep the status that they were read with.
  unfoldable pub mark_delivered :
      List MessageListRow → Action (World env) Error (List MessageListRow)
  mark_delivered rows =
      let ids = to_mark_delivered rows in
      if length ids == 0
      then pure rows
      else on_error
          (do
            execute (λ db n. record db { recipients = set_delivered ids (env.now n) db.recipients })
                internal
            pure (map mark_row rows))
          (λ e. pure rows)

  unfoldable pub list_messages :
      Uuid → Uuid → String → ℤ → String → Action (World env) Error (List MessageListItem)
  list_messages caller device conversation_id limit before = do
    conversation ← or_fail (env.parse_uuid conversation_id) invalid_conversation_id
    member ← is_active_participant env conversation caller
    ensure member not_a_participant
    cursor ← resolve_cursor conversation before
    rows ← list_rows caller device conversation cursor (clamp_limit limit)
    marked ← mark_delivered rows
    pure (reverse (map item_of marked))
