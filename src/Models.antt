-- ===== src/Models.antt =====
-- internal/models: the rows of the ten tables, one record for each Go struct. A `uuid.UUID` is the
-- number that its sixteen bytes spell, so `uuid.Nil` is 0 and the order of PostgreSQL is `≤`.
-- A time is a number of microseconds, the precision of TIMESTAMPTZ; `*time.Time` and `*string` are
-- options. The columns that a CHECK restricts to a list of words are data types of those words.
use flutter_whatsapp_clone.Base.{ℕ, Bool, true, false, String, Option, ℤ}

abbrev pub Uuid : Type 0
Uuid = ℕ

abbrev pub Time : Type 0
Time = ℕ

-- The words of users.account_status, in migrations/000002.
pub data AccountStatus : Type 0 where
  pending_verification active deactivated banned : AccountStatus

-- The words of devices.status, in migrations/000003.
pub data DeviceStatus : Type 0 where
  active revoked : DeviceStatus

-- The words of message_recipients.status, in migrations/000006.
pub data DeliveryStatus : Type 0 where
  sent delivered read : DeliveryStatus

-- The words of conversations.type, in migrations/000005.
pub data ConversationType : Type 0 where
  direct group : ConversationType

pub record User : Type 0 where
  pub id : Uuid
  pub phone_number : Option String
  pub email : Option String
  pub password_hash : String
  pub name : String
  pub profile_photo_url : Option String
  pub about_text : Option String
  pub account_status : AccountStatus
  pub phone_verified_at : Option Time
  pub email_verified_at : Option Time
  pub last_seen_at : Option Time
  pub created_at : Time
  pub updated_at : Time

pub record Device : Type 0 where
  pub id : Uuid
  pub user_id : Uuid
  pub device_name : Option String
  pub platform : String
  pub push_token : Option String
  pub push_token_updated_at : Option Time
  pub status : DeviceStatus
  pub last_active_at : Option Time
  pub created_at : Time

pub record RefreshToken : Type 0 where
  pub id : Uuid
  pub user_id : Uuid
  pub device_id : Uuid
  pub token_hash : String
  pub issued_at : Time
  pub expires_at : Time
  pub revoked_at : Option Time

pub record SignalIdentityKey : Type 0 where
  pub device_id : Uuid
  pub identity_public_key : String
  pub registration_id : ℤ
  pub created_at : Time

pub record SignalSignedPrekey : Type 0 where
  pub id : Uuid
  pub device_id : Uuid
  pub key_id : ℤ
  pub public_key : String
  pub signature : String
  pub is_active : Bool
  pub created_at : Time

pub record SignalOneTimePrekey : Type 0 where
  pub id : Uuid
  pub device_id : Uuid
  pub key_id : ℤ
  pub public_key : String
  pub is_used : Bool
  pub created_at : Time
  pub used_at : Option Time

pub record Conversation : Type 0 where
  pub id : Uuid
  pub type : ConversationType
  pub created_by : Uuid
  pub created_at : Time

pub record ConversationParticipant : Type 0 where
  pub id : Uuid
  pub conversation_id : Uuid
  pub user_id : Uuid
  pub role : String
  pub joined_at : Time
  pub left_at : Option Time
  pub is_active : Bool

pub record Message : Type 0 where
  pub id : Uuid
  pub conversation_id : Uuid
  pub sender_id : Uuid
  pub sender_device_id : Uuid
  pub client_message_id : Uuid
  pub message_type : String
  pub created_at : Time
  pub deleted_at : Option Time

pub record MessageRecipient : Type 0 where
  pub id : Uuid
  pub message_id : Uuid
  pub recipient_user_id : Uuid
  pub recipient_device_id : Uuid
  pub ciphertext : String
  pub status : DeliveryStatus
  pub delivered_at : Option Time
  pub read_at : Option Time

-- The tests `account_status = 'active'`, `status = 'active'` and `status = 'sent'`.
abbrev pub account_is_active : AccountStatus → Bool
account_is_active AccountStatus.active = true
account_is_active _ = false

abbrev pub device_is_active : DeviceStatus → Bool
device_is_active DeviceStatus.active = true
device_is_active _ = false

abbrev pub is_sent : DeliveryStatus → Bool
is_sent DeliveryStatus.sent = true
is_sent _ = false

abbrev pub is_direct : ConversationType → Bool
is_direct ConversationType.direct = true
is_direct _ = false
