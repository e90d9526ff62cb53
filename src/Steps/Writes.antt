-- ===== src/Steps/Writes.antt =====
-- What the services write, as the interface of what they keep: single statements, the rotation of a
-- signed prekey, and the two transactions. A relation between tables that each of these keeps is kept
-- by every request.
use flutter_whatsapp_clone.Base.{Option, ℕ, List, map, String}
use flutter_whatsapp_clone.Models.{Uuid, Time, User, Device, RefreshToken, SignalOneTimePrekey}
use flutter_whatsapp_clone.Crypto.{Crypto}
use flutter_whatsapp_clone.Store.{
  Env, users_table, devices_table, refresh_tokens_table, one_time_prekeys_table, execute,
  execute_returning, insert, insert_rows, transaction,
}
use flutter_whatsapp_clone.Store.Keeps.{Order, Keeps}
use flutter_whatsapp_clone.Auth.Accounts.{activate_row}
use flutter_whatsapp_clone.Auth.Sessions.{revoke_token, revoke_device, touch_device}
use flutter_whatsapp_clone.Keys.Upload.{upsert_identity_key, identity_row, rotate_signed_prekey}
use flutter_whatsapp_clone.Conversations.Create.{store_conversation}
use flutter_whatsapp_clone.Messages.Send.{store_message, TxError}
use flutter_whatsapp_clone.Conversations.Defs as Conversations
use flutter_whatsapp_clone.Keys.Defs.{SignedPrekeyInput, UploadKeysRequest}
use flutter_whatsapp_clone.Keys.Bundle.{claim}
use flutter_whatsapp_clone.Messages.Listing.{set_delivered}

pub record Writes (env : Env) (O : Order) : Type 1 where
  pub insert_users : (make : ℕ → User) → Keeps env O (insert (users_table env) make)
  pub insert_devices : (make : ℕ → Device) → Keeps env O (insert devices_table make)
  pub insert_tokens : (make : ℕ → RefreshToken) → Keeps env O (insert refresh_tokens_table make)
  pub insert_one_time :
      (make : ℕ → List SignalOneTimePrekey) → Keeps env O (insert_rows one_time_prekeys_table make)
  pub update_users :
      {E : Type 0} (e : E) (crypto : Crypto) (u : User) (identifier : String)
      → Keeps env O (
          execute
            (λ db n. record db {
              users = map (activate_row env crypto u identifier (env.now n)) db.users;
            })
            e)
  pub update_tokens :
      {E : Type 0} (e : E) (id : Uuid)
      → Keeps env O (
          execute
            (λ db n. record db {
              refresh_tokens = map (revoke_token id (env.now n)) db.refresh_tokens;
            })
            e)
  pub revoke_devices :
      {E : Type 0} (e : E) (id : Uuid)
      → Keeps env O (execute (λ db n. record db { devices = map (revoke_device id) db.devices }) e)
  pub touch_devices :
      {E : Type 0} (e : E) (id : Uuid) (now : Time)
      → Keeps env O
          (execute (λ db n. record db { devices = map (touch_device id now) db.devices }) e)
  pub upsert_identity :
      {E : Type 0} (e : E) (device : Uuid) (req : UploadKeysRequest)
      → Keeps env O (
          execute
            (λ db n. record db {
              identity_keys = upsert_identity_key (identity_row env device req n) db.identity_keys;
            })
            e)
  pub claim_prekey :
      {E : Type 0} (e : E) (device : Uuid) → Keeps env O (execute_returning (claim env device) e)
  pub update_recipients :
      {E : Type 0} (e : E) (ids : List Uuid)
      → Keeps env O (
          execute
            (λ db n. record db { recipients = set_delivered ids (env.now n) db.recipients })
            e)
  pub rotate_signed :
      (device : Uuid) (k : Option SignedPrekeyInput)
      → Keeps env O (rotate_signed_prekey env device k)
  pub open_conversation :
      (a b : Uuid)
      → Keeps env O (transaction Conversations.Error.internal (store_conversation env a b))
  pub post_message :
      (c u d i : Uuid) (body : String)
      → Keeps env O (transaction TxError.other (store_message env c u d i body))
