-- ===== src/History/Grows.antt =====
-- The history of all tables: the columns of a row that never change, and the changes that are final.
use flutter_whatsapp_clone.Base.{pos, Bool, true, false, not, List, none}
use flutter_whatsapp_clone.Models.{
  User, Device, RefreshToken, SignalIdentityKey, SignalSignedPrekey, SignalOneTimePrekey,
  Conversation, ConversationParticipant, Message, MessageRecipient, AccountStatus, DeviceStatus,
  sent, device_is_active, is_sent,
}
use flutter_whatsapp_clone.Redis.{is_some}
use flutter_whatsapp_clone.Store.{Db}
use flutter_whatsapp_clone.Store.Keeps.{Order}
use flutter_whatsapp_clone.History.Kept.{Kept, Kept-refl, Kept-trans, Buries}

abbrev pub always : {A : Type 0} → A → Bool
always a = true

-- Of an account only the status, the times of verification and updated_at change.
abbrev pub lasting_user : User → User
lasting_user u = record u {
  account_status = AccountStatus.active;
  phone_verified_at = none;
  email_verified_at = none;
  updated_at = 0;
}

abbrev pub lasting_device : Device → Device
lasting_device d = record d { status = DeviceStatus.active; last_active_at = none }

abbrev pub lasting_token : RefreshToken → RefreshToken
lasting_token t = record t { revoked_at = none }

abbrev pub is_usable : RefreshToken → Bool
is_usable t = not (is_some t.revoked_at)

-- A device keeps one identity key row, which later uploads overwrite.
abbrev pub lasting_identity : SignalIdentityKey → SignalIdentityKey
lasting_identity k = record k { identity_public_key = ""; registration_id = pos 0 }

abbrev pub lasting_signed : SignalSignedPrekey → SignalSignedPrekey
lasting_signed k = record k { is_active = false }

abbrev pub lasting_one_time : SignalOneTimePrekey → SignalOneTimePrekey
lasting_one_time k = record k { is_used = false; used_at = none }

abbrev pub is_unused : SignalOneTimePrekey → Bool
is_unused k = not k.is_used

abbrev pub lasting_recipient : MessageRecipient → MessageRecipient
lasting_recipient r = record r { status = sent; delivered_at = none }

abbrev pub as_it_is : {A : Type 0} → A → A
as_it_is a = a

-- From the first tables to the second: no row goes away or changes but in the columns above; a revoked
-- device or token, a used prekey, an inactive signed prekey and a delivered message stay so, and their
-- ids are not taken again; conversations, participants and messages are never touched.
pub record Grows (a b : Db) : Type 0 where
  pub users : Kept lasting_user always a.users b.users
  pub devices : Kept lasting_device (λ d. device_is_active d.status) a.devices b.devices
  pub revoked_devices : Buries (λ d. d.id) (λ d. device_is_active d.status) a.devices b.devices
  pub tokens : Kept lasting_token is_usable a.refresh_tokens b.refresh_tokens
  pub revoked_tokens : Buries (λ t. t.id) is_usable a.refresh_tokens b.refresh_tokens
  pub identity_keys : Kept lasting_identity always a.identity_keys b.identity_keys
  pub signed_prekeys : Kept lasting_signed (λ k. k.is_active) a.signed_prekeys b.signed_prekeys
  pub one_time_prekeys : Kept lasting_one_time is_unused a.one_time_prekeys b.one_time_prekeys
  pub used_prekeys : Buries (λ k. k.id) is_unused a.one_time_prekeys b.one_time_prekeys
  pub conversations : Kept as_it_is always a.conversations b.conversations
  pub participants : Kept as_it_is always a.participants b.participants
  pub messages : Kept as_it_is always a.messages b.messages
  pub recipients : Kept lasting_recipient (λ r. is_sent r.status) a.recipients b.recipients

pub Grows-refl : (d : Db) → Grows d d
Grows-refl d = record {
  users = Kept-refl _ _ d.users;
  devices = Kept-refl _ _ d.devices;
  revoked_devices = λ i h. h;
  tokens = Kept-refl _ _ d.refresh_tokens;
  revoked_tokens = λ i h. h;
  identity_keys = Kept-refl _ _ d.identity_keys;
  signed_prekeys = Kept-refl _ _ d.signed_prekeys;
  one_time_prekeys = Kept-refl _ _ d.one_time_prekeys;
  used_prekeys = λ i h. h;
  conversations = Kept-refl _ _ d.conversations;
  participants = Kept-refl _ _ d.participants;
  messages = Kept-refl _ _ d.messages;
  recipients = Kept-refl _ _ d.recipients;
}

pub Grows-trans : (a b c : Db) → Grows a b → Grows b c → Grows a c
Grows-trans a b c h k = record {
  users = Kept-trans _ _ a.users b.users c.users h.users k.users;
  devices = Kept-trans _ _ a.devices b.devices c.devices h.devices k.devices;
  revoked_devices = λ i d. k.revoked_devices i (h.revoked_devices i d);
  tokens = Kept-trans _ _ a.refresh_tokens b.refresh_tokens c.refresh_tokens h.tokens k.tokens;
  revoked_tokens = λ i d. k.revoked_tokens i (h.revoked_tokens i d);
  identity_keys =
      Kept-trans _ _ a.identity_keys b.identity_keys c.identity_keys h.identity_keys
        k.identity_keys;
  signed_prekeys =
      Kept-trans _ _ a.signed_prekeys b.signed_prekeys c.signed_prekeys h.signed_prekeys
        k.signed_prekeys;
  one_time_prekeys =
      Kept-trans _ _ a.one_time_prekeys b.one_time_prekeys c.one_time_prekeys h.one_time_prekeys
        k.one_time_prekeys;
  used_prekeys = λ i d. k.used_prekeys i (h.used_prekeys i d);
  conversations =
      Kept-trans _ _ a.conversations b.conversations c.conversations h.conversations
        k.conversations;
  participants =
      Kept-trans _ _ a.participants b.participants c.participants h.participants k.participants;
  messages = Kept-trans _ _ a.messages b.messages c.messages h.messages k.messages;
  recipients = Kept-trans _ _ a.recipients b.recipients c.recipients h.recipients k.recipients;
}

abbrev pub growing : Order
growing = record { Before = Grows; same = Grows-refl; chain = Grows-trans }

module _ (d : Db) where
  pub users-Grows :
      (xs : List User) → Kept lasting_user always d.users xs → Grows d (record d { users = xs })
  users-Grows xs h = search Kept-refl

  pub devices-Grows :
      (xs : List Device)
      → Kept lasting_device (λ x. device_is_active x.status) d.devices xs
      → Buries (λ x. x.id) (λ x. device_is_active x.status) d.devices xs
      → Grows d (record d { devices = xs })
  devices-Grows xs h k = search Kept-refl

  pub tokens-Grows :
      (xs : List RefreshToken)
      → Kept lasting_token is_usable d.refresh_tokens xs
      → Buries (λ x. x.id) is_usable d.refresh_tokens xs
      → Grows d (record d { refresh_tokens = xs })
  tokens-Grows xs h k = search Kept-refl

  pub identity_keys-Grows :
      (xs : List SignalIdentityKey)
      → Kept lasting_identity always d.identity_keys xs
      → Grows d (record d { identity_keys = xs })
  identity_keys-Grows xs h = search Kept-refl

  pub signed_prekeys-Grows :
      (xs : List SignalSignedPrekey)
      → Kept lasting_signed (λ k. k.is_active) d.signed_prekeys xs
      → Grows d (record d { signed_prekeys = xs })
  signed_prekeys-Grows xs h = search Kept-refl

  pub one_time_prekeys-Grows :
      (xs : List SignalOneTimePrekey)
      → Kept lasting_one_time is_unused d.one_time_prekeys xs
      → Buries (λ x. x.id) is_unused d.one_time_prekeys xs
      → Grows d (record d { one_time_prekeys = xs })
  one_time_prekeys-Grows xs h k = search Kept-refl

  pub conversations-Grows :
      (xs : List Conversation)
      → Kept as_it_is always d.conversations xs
      → Grows d (record d { conversations = xs })
  conversations-Grows xs h = search Kept-refl

  pub participants-Grows :
      (xs : List ConversationParticipant)
      → Kept as_it_is always d.participants xs
      → Grows d (record d { participants = xs })
  participants-Grows xs h = search Kept-refl

  pub messages-Grows :
      (xs : List Message)
      → Kept as_it_is always d.messages xs
      → Grows d (record d { messages = xs })
  messages-Grows xs h = search Kept-refl

  pub recipients-Grows :
      (xs : List MessageRecipient)
      → Kept lasting_recipient (λ r. is_sent r.status) d.recipients xs
      → Grows d (record d { recipients = xs })
  recipients-Grows xs h = search Kept-refl
