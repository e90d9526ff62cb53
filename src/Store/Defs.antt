-- ===== src/Store/Defs.antt =====
-- The stores as the services see them: the ten tables of PostgreSQL with the unique indexes that
-- migrations/*.up.sql declare, Redis, and what neither the source nor the data decide.
use flutter_whatsapp_clone.Base.{
  ℕ, Bool, true, false, ◌&&◌, ◌||◌, List, ◌==◌, same_int, Perm, Option, some, String, str_eq,
  if◌then◌else◌, ◌≡◌,
}
use flutter_whatsapp_clone.Models.{
  Uuid, Time, User, Device, RefreshToken, SignalIdentityKey, SignalSignedPrekey,
  SignalOneTimePrekey, Conversation, ConversationParticipant, Message, MessageRecipient,
}
use flutter_whatsapp_clone.Redis.{Redis}

pub record Db : Type 0 where
  pub users : List User
  pub devices : List Device
  pub refresh_tokens : List RefreshToken
  pub identity_keys : List SignalIdentityKey
  pub signed_prekeys : List SignalSignedPrekey
  pub one_time_prekeys : List SignalOneTimePrekey
  pub conversations : List Conversation
  pub participants : List ConversationParticipant
  pub messages : List Message
  pub recipients : List MessageRecipient

-- How a statement ends: with its effect, with none, or with its effect and its reply lost.
pub data Verdict : Type 0 where
  done refused lost : Verdict

-- The world outside the source, asked by the number of the statement at which it is asked.
pub record Env : Type 1 where
  pub redis : Redis
  -- Connections break and constraints other than unique indexes refuse rows: any statement may fail.
  pub verdict : ℕ → Verdict
  -- time.Now() and now().
  pub now : ℕ → Time
  -- uuid.New(), for the row of this index in a batch.
  pub new_uuid : ℕ → ℕ → Uuid
  -- The order of the rows of a query with no ORDER BY, and among equal keys of one that has it.
  pub arrange : (A : Type 0) → ℕ → List A → List A
  pub arrange_perm : (A : Type 0) (n : ℕ) (xs : List A) → Perm (arrange A n xs) xs
  -- uuid.Parse and UUID.String.
  pub parse_uuid : String → Option Uuid
  pub uuid_string : Uuid → String
  -- The rows that other transactions hold locked.
  pub locked : ℕ → Uuid → Bool
  -- The equality of CITEXT, which ignores case; users.email has this type.
  pub citext_eq : String → String → Bool
  pub citext_refl : (s : String) → citext_eq s s ≡ true
  -- Time.Format(time.RFC3339).
  pub format_time : Time → String
  pub parse-string : (u : Uuid) → parse_uuid (uuid_string u) ≡ some u

-- A table: its rows, and when two rows may not stand in it together.
pub record Table (A : Type 0) : Type 0 where
  pub rows : Db → List A
  pub put : List A → Db → Db
  pub clash : A → A → Bool

-- NULL equals nothing.
abbrev pub same_text : (String → String → Bool) → Option String → Option String → Bool
same_text eq (some a) (some b) = eq a b
same_text eq _ _ = false

abbrev pub users_table : Env → Table User
users_table env = record {
  rows = λ d. d.users;
  put = λ xs d. record d { users = xs };
  clash = λ x y.
      x.id == y.id
      || same_text str_eq x.phone_number y.phone_number
      || same_text env.citext_eq x.email y.email;
}

abbrev pub devices_table : Table Device
devices_table = record {
  rows = λ d. d.devices;
  put = λ xs d. record d { devices = xs };
  clash = λ x y. x.id == y.id;
}

abbrev pub refresh_tokens_table : Table RefreshToken
refresh_tokens_table = record {
  rows = λ d. d.refresh_tokens;
  put = λ xs d. record d { refresh_tokens = xs };
  clash = λ x y. x.id == y.id || str_eq x.token_hash y.token_hash;
}

abbrev pub signed_prekeys_table : Table SignalSignedPrekey
signed_prekeys_table = record {
  rows = λ d. d.signed_prekeys;
  put = λ xs d. record d { signed_prekeys = xs };
  clash = λ x y. x.id == y.id || (x.device_id == y.device_id && same_int x.key_id y.key_id);
}

abbrev pub one_time_prekeys_table : Table SignalOneTimePrekey
one_time_prekeys_table = record {
  rows = λ d. d.one_time_prekeys;
  put = λ xs d. record d { one_time_prekeys = xs };
  clash = λ x y. x.id == y.id || (x.device_id == y.device_id && same_int x.key_id y.key_id);
}

abbrev pub conversations_table : Table Conversation
conversations_table = record {
  rows = λ d. d.conversations;
  put = λ xs d. record d { conversations = xs };
  clash = λ x y. x.id == y.id;
}

abbrev pub participants_table : Table ConversationParticipant
participants_table = record {
  rows = λ d. d.participants;
  put = λ xs d. record d { participants = xs };
  clash = λ x y. x.id == y.id || (x.conversation_id == y.conversation_id && x.user_id == y.user_id);
}

abbrev pub messages_table : Table Message
messages_table = record {
  rows = λ d. d.messages;
  put = λ xs d. record d { messages = xs };
  clash = λ x y.
      x.id == y.id
      || (x.sender_device_id == y.sender_device_id && x.client_message_id == y.client_message_id);
}

abbrev pub recipients_table : Table MessageRecipient
recipients_table = record {
  rows = λ d. d.recipients;
  put = λ xs d. record d { recipients = xs };
  clash = λ x y.
      x.id == y.id
      || (x.message_id == y.message_id && x.recipient_device_id == y.recipient_device_id);
}

-- The BeforeCreate hook of every model.
abbrev pub before_create : Uuid → Uuid → Uuid
before_create id new = if id == 0 then new else id
