-- ===== src/History/Writes.antt =====
-- The statements of the services that write, one by one.
use flutter_whatsapp_clone.Base.{
  none, ℕ, List, [], ◌∷◌, map, Option, some, String, ◌==◌, refl, arith, Bool-cases, inl, inr,
  contains,
}
use flutter_whatsapp_clone.Models.{
  Uuid, Time, User, Device, RefreshToken, SignalIdentityKey, SignalSignedPrekey,
  SignalOneTimePrekey, Conversation, ConversationParticipant, Message, MessageRecipient, is_sent,
}
use flutter_whatsapp_clone.Store.{
  Db, Env, users_table, devices_table, refresh_tokens_table, signed_prekeys_table,
  one_time_prekeys_table, conversations_table, participants_table, messages_table, recipients_table,
  execute, execute_returning, insert, insert_rows,
}
use flutter_whatsapp_clone.Store.Keeps.{
  Keeps, Keeps-execute, Keeps-execute_returning, Keeps-insert, Keeps-insert_rows,
}
use flutter_whatsapp_clone.Steps.Writes.{Writes}
use flutter_whatsapp_clone.History.Kept.{
  Kept-refl, Kept-append, Kept-map, Kept, Buries-map, Buries-fits,
}
use flutter_whatsapp_clone.History.Grows.{
  Grows, Grows-refl, growing, users-Grows, devices-Grows, tokens-Grows, identity_keys-Grows,
  signed_prekeys-Grows, one_time_prekeys-Grows, conversations-Grows, participants-Grows,
  messages-Grows, recipients-Grows, lasting_identity, always, lasting_recipient,
}
use flutter_whatsapp_clone.Crypto.{Crypto}
use flutter_whatsapp_clone.Auth.Accounts.{activate_row}
use flutter_whatsapp_clone.Auth.Sessions.{revoke_token, revoke_device, touch_device}
use flutter_whatsapp_clone.Keys.Upload.{upsert_identity_key, identity_row, deactivated}
use flutter_whatsapp_clone.Steps.Units.{rotation-Keeps, conversation-Keeps, message-Keeps}
use flutter_whatsapp_clone.Keys.Defs.{internal, UploadKeysRequest}
use flutter_whatsapp_clone.Keys.Bundle.{claim_of, mark_used, claim, oldest_unused}
use flutter_whatsapp_clone.Messages.Listing.{set_delivered}

module _ (env : Env) where
  insert-users : (make : ℕ → User) → Keeps env growing (insert (users_table env) make)
  insert-users make =
      Keeps-insert (users_table env) make (λ d n f. users-Grows d _ (Kept-append _ _ d.users _))

  insert-devices : (make : ℕ → Device) → Keeps env growing (insert devices_table make)
  insert-devices make = Keeps-insert devices_table make (λ d n f.
      devices-Grows d _ (Kept-append _ _ d.devices _)
        (Buries-fits _ _ devices_table.clash (λ x y h. ground arith) d.devices _ f))

  insert-tokens : (make : ℕ → RefreshToken) → Keeps env growing (insert refresh_tokens_table make)
  insert-tokens make = Keeps-insert refresh_tokens_table make (λ d n f.
      tokens-Grows d _ (Kept-append _ _ d.refresh_tokens _)
        (Buries-fits _ _ refresh_tokens_table.clash (λ x y h. ground arith) d.refresh_tokens _ f))

  insert-signed :
      (make : ℕ → SignalSignedPrekey) → Keeps env growing (insert signed_prekeys_table make)
  insert-signed make =
      Keeps-insert signed_prekeys_table make
        (λ d n f. signed_prekeys-Grows d _ (Kept-append _ _ d.signed_prekeys _))

  insert-one_time :
      (make : ℕ → List SignalOneTimePrekey)
      → Keeps env growing (insert_rows one_time_prekeys_table make)
  insert-one_time make = Keeps-insert_rows one_time_prekeys_table make (λ d n f.
      one_time_prekeys-Grows d _ (Kept-append _ _ d.one_time_prekeys _) (
        Buries-fits _ _ one_time_prekeys_table.clash (λ x y h. ground arith) d.one_time_prekeys _
          f))

  insert-conversations :
      (make : ℕ → Conversation) → Keeps env growing (insert conversations_table make)
  insert-conversations make =
      Keeps-insert conversations_table make
        (λ d n f. conversations-Grows d _ (Kept-append _ _ d.conversations _))

  insert-participants :
      (make : ℕ → List ConversationParticipant)
      → Keeps env growing (insert_rows participants_table make)
  insert-participants make =
      Keeps-insert_rows participants_table make
        (λ d n f. participants-Grows d _ (Kept-append _ _ d.participants _))

  insert-messages : (make : ℕ → Message) → Keeps env growing (insert messages_table make)
  insert-messages make =
      Keeps-insert messages_table make (λ d n f. messages-Grows d _ (Kept-append _ _ d.messages _))

  insert-recipients :
      (make : ℕ → List MessageRecipient) → Keeps env growing (insert_rows recipients_table make)
  insert-recipients make =
      Keeps-insert_rows recipients_table make
        (λ d n f. recipients-Grows d _ (Kept-append _ _ d.recipients _))

  module _ {E : Type 0} (e : E) where
    update-users :
        (crypto : Crypto) (u : User) (identifier : String)
        → Keeps env growing (
            execute
              (λ db n. record db {
                users = map (activate_row env crypto u identifier (env.now n)) db.users;
              })
              e)
    update-users crypto u identifier =
        Keeps-execute _ e
          (λ d n. users-Grows d _ (Kept-map _ _ _ (λ x. (ground arith, λ h. refl)) d.users))

    update-tokens :
        (id : Uuid)
        → Keeps env growing (
            execute
              (λ db n. record db {
                refresh_tokens = map (revoke_token id (env.now n)) db.refresh_tokens;
              })
              e)
    update-tokens id = Keeps-execute _ e (λ d n.
        tokens-Grows d _
          (Kept-map _ _ (revoke_token id (env.now n)) (λ x. (ground arith, λ h. ground arith))
            d.refresh_tokens)
          (Buries-map _ _ (revoke_token id (env.now n)) (λ x. (ground arith, λ h. ground arith))
            d.refresh_tokens))

    revoke-devices :
        (id : Uuid)
        → Keeps env growing
            (execute (λ db n. record db { devices = map (revoke_device id) db.devices }) e)
    revoke-devices id = Keeps-execute _ e (λ d n.
        devices-Grows d _
          (Kept-map _ _ (revoke_device id) (λ x. (ground arith, λ h. ground arith)) d.devices)
          (Buries-map _ _ (revoke_device id) (λ x. (ground arith, λ h. ground arith)) d.devices))

    touch-devices :
        (id : Uuid) (now : Time)
        → Keeps env growing
            (execute (λ db n. record db { devices = map (touch_device id now) db.devices }) e)
    touch-devices id now = Keeps-execute _ e (λ d n.
        devices-Grows d _
          (Kept-map _ _ (touch_device id now) (λ x. (ground arith, λ h. ground arith)) d.devices)
          (Buries-map _ _ (touch_device id now) (λ x. (ground arith, λ h. ground arith)) d.devices))

    Kept-upsert :
        (new : SignalIdentityKey) (ks : List SignalIdentityKey)
        → Kept lasting_identity always ks (upsert_identity_key new ks)
    unfolding upsert_identity_key
    Kept-upsert new [] = tt
    Kept-upsert new (k ∷ ks) = elim (Bool-cases (k.device_id == new.device_id)) [
      | inl same ↦ rw same ((refl, λ h. refl), Kept-refl _ _ ks)
      | inr other ↦ rw other ((refl, λ h. refl), Kept-upsert new ks)
    ]

    upsert-identity :
        (device : Uuid) (req : UploadKeysRequest)
        → Keeps env growing (
            execute
              (λ db n. record db {
                identity_keys =
                    upsert_identity_key (identity_row env device req n) db.identity_keys;
              })
              e)
    upsert-identity device req =
        Keeps-execute _ e (λ d n. identity_keys-Grows d _ (Kept-upsert _ d.identity_keys))

    switch_off-signed :
        (device : Uuid)
        → Keeps env growing (
            execute
              (λ db n. record db { signed_prekeys = map (deactivated device) db.signed_prekeys })
              e)
    switch_off-signed device = Keeps-execute _ e (λ d n. signed_prekeys-Grows d _ (
        Kept-map _ _ (deactivated device) (λ x. (ground arith, λ h. ground arith))
          d.signed_prekeys))

    claim-prekey : (device : Uuid) → Keeps env growing (execute_returning (claim env device) e)
    claim-prekey device =
        Keeps-execute_returning (claim env device) e
          (λ d n. go d n (oldest_unused env device n d.one_time_prekeys))
      where
        go : (d : Db) (n : ℕ) (o : Option SignalOneTimePrekey) → Grows d (claim_of env n d o).1
        go d n none = Grows-refl d
        go d n (some k) =
            one_time_prekeys-Grows d _
              (Kept-map _ _ (mark_used k.id (env.now n)) (λ x. (ground arith, λ h. ground arith))
                d.one_time_prekeys)
              (Buries-map _ _ (mark_used k.id (env.now n)) (λ x. (ground arith, λ h. ground arith))
                d.one_time_prekeys)

    Kept-delivered :
        (ids : List Uuid) (at : Time) (rs : List MessageRecipient)
        → Kept lasting_recipient (λ r. is_sent r.status) rs (set_delivered ids at rs)
    Kept-delivered ids at [] = tt
    Kept-delivered ids at (r ∷ rs) = elim (Bool-cases (contains ids r.id)) [
      | inl hit ↦ rw hit ((refl, λ h. cc), Kept-delivered ids at rs)
      | inr miss ↦ rw miss ((refl, λ h. h), Kept-delivered ids at rs)
    ]

    update-recipients :
        (ids : List Uuid)
        → Keeps env growing (
            execute
              (λ db n. record db { recipients = set_delivered ids (env.now n) db.recipients })
              e)
    update-recipients ids =
        Keeps-execute _ e
          (λ d n. recipients-Grows d _ (Kept-delivered ids (env.now n) d.recipients))

-- What the services keep holds of the history.
pub history : (env : Env) → Writes env growing
history env = record {
  insert_users = insert-users env;
  insert_devices = insert-devices env;
  insert_tokens = insert-tokens env;
  insert_one_time = insert-one_time env;
  update_users = update-users env;
  update_tokens = update-tokens env;
  revoke_devices = revoke-devices env;
  touch_devices = touch-devices env;
  upsert_identity = upsert-identity env;
  claim_prekey = claim-prekey env;
  update_recipients = update-recipients env;
  rotate_signed = rotation-Keeps (switch_off-signed env internal) (insert-signed env);
  open_conversation = conversation-Keeps (insert-conversations env) (insert-participants env);
  post_message = message-Keeps (insert-messages env) (insert-recipients env);
}
