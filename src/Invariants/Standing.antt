-- ===== src/Invariants/Standing.antt =====
-- A predicate of the signed prekeys, the conversations and their members: only the rotation of a
-- signed prekey and the transaction of a new conversation can break it.
use flutter_whatsapp_clone.Base.{ℕ, Option, none, some, List}
use flutter_whatsapp_clone.Models.{
  Uuid, SignalSignedPrekey, SignalOneTimePrekey, Conversation, ConversationParticipant,
}
use flutter_whatsapp_clone.Store.{
  Db, Env, users_table, devices_table, refresh_tokens_table, one_time_prekeys_table, messages_table,
  recipients_table, transaction,
}
use flutter_whatsapp_clone.Store.Keeps.{
  Order, Keeps, Keeps-execute, Keeps-execute_returning, Keeps-insert, Keeps-insert_rows,
}
use flutter_whatsapp_clone.Conversations.Defs as Conversations
use flutter_whatsapp_clone.Conversations.Create.{store_conversation}
use flutter_whatsapp_clone.Keys.Defs.{SignedPrekeyInput}
use flutter_whatsapp_clone.Keys.Upload.{rotate_signed_prekey}
use flutter_whatsapp_clone.Keys.Bundle.{claim_of, claim, oldest_unused}
use flutter_whatsapp_clone.Steps.Writes.{Writes}
use flutter_whatsapp_clone.Steps.Units.{message-Keeps}

module _
    (P : List SignalSignedPrekey → List Conversation → List ConversationParticipant → Type 0) where
  abbrev pub Holds : Db → Type 0
  Holds d = P d.signed_prekeys d.conversations d.participants

  -- A change of the tables that leaves the predicate true.
  abbrev pub standing : Order
  standing = record {
    Before = λ a b. Holds a → Holds b;
    same = λ d h. h;
    chain = λ a b c p q h. q (p h);
  }

  claim_of-Holds :
      (env : Env) (n : ℕ) (d : Db) (o : Option SignalOneTimePrekey)
      → Holds d
      → Holds (claim_of env n d o).1
  claim_of-Holds env n d none h = h
  claim_of-Holds env n d (some k) h = h

  pub stands :
      (env : Env)
      → ((device : Uuid) (k : Option SignedPrekeyInput)
          → Keeps env standing (rotate_signed_prekey env device k))
      → ((a b : Uuid)
          → Keeps env standing
              (transaction Conversations.Error.internal (store_conversation env a b)))
      → Writes env standing
  stands env rotate begin = record {
    insert_users = λ make. Keeps-insert (users_table env) make (λ d n f h. h);
    insert_devices = λ make. Keeps-insert devices_table make (λ d n f h. h);
    insert_tokens = λ make. Keeps-insert refresh_tokens_table make (λ d n f h. h);
    insert_one_time = λ make. Keeps-insert_rows one_time_prekeys_table make (λ d n f h. h);
    update_users = λ e crypto u identifier. Keeps-execute _ e (λ d n h. h);
    update_tokens = λ e id. Keeps-execute _ e (λ d n h. h);
    revoke_devices = λ e id. Keeps-execute _ e (λ d n h. h);
    touch_devices = λ e id now. Keeps-execute _ e (λ d n h. h);
    upsert_identity = λ e device req. Keeps-execute _ e (λ d n h. h);
    claim_prekey = λ e device.
        Keeps-execute_returning (claim env device) e
          (λ d n. claim_of-Holds env n d (oldest_unused env device n d.one_time_prekeys));
    update_recipients = λ e ids. Keeps-execute _ e (λ d n h. h);
    rotate_signed = rotate;
    open_conversation = begin;
    post_message =
        message-Keeps (λ make. Keeps-insert messages_table make (λ d n f h. h))
          (λ make. Keeps-insert_rows recipients_table make (λ d n f h. h));
  }
