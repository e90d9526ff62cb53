-- ===== src/Steps/Contents.antt =====
-- The services of keys, users and conversations, and RequireAuth, as the statements that they issue.
use flutter_whatsapp_clone.Base.{List, [], ◌∷◌, Option, none, some, String}
use flutter_whatsapp_clone.Models.{
  ConversationParticipant, Conversation, Uuid, Device, SignalIdentityKey, SignalSignedPrekey,
}
use flutter_whatsapp_clone.Crypto.{Crypto, Parsed}
use flutter_whatsapp_clone.Store.{Env}
use flutter_whatsapp_clone.Store.Keeps.{Order, Keeps, Keeps-here, Keeps-bind, keeps_rules}
use flutter_whatsapp_clone.Steps.Writes.{Writes}
use flutter_whatsapp_clone.Keys.Defs.{internal, OneTimePrekeyInput, UploadKeysRequest}
use flutter_whatsapp_clone.Keys.Upload.{store_identity_key, add_one_time_prekeys, upload_keys}
use flutter_whatsapp_clone.Keys.Bundle.{
  claim_one_time_prekey, find_identity_key, find_signed_prekey, claim_for, prekeys_for,
  bundle_device, bundle_devices, get_user_key_bundle,
}
use flutter_whatsapp_clone.Users.{get_by_id, search as search_user}
use flutter_whatsapp_clone.Auth.Tokens.{parse_access_token}
use flutter_whatsapp_clone.Auth.Middleware.{
  accept_parsed, read_token, is_device_active, require_auth,
}
use flutter_whatsapp_clone.Conversations.Create.{
  find_existing_direct_conversation, open_existing, open_new, create_direct_conversation,
}
use flutter_whatsapp_clone.Conversations.Listing.{
  list_rows as conversation_rows, other_participants, load_profiles, list_conversations,
}

module _ (env : Env) (O : Order) (writes : Writes env O) where
  identity-Keeps :
      (device : Uuid) (req : UploadKeysRequest) → Keeps env O (store_identity_key env device req)
  unfolding store_identity_key
  identity-Keeps device req = writes.upsert_identity internal device req

  one_time-Keeps :
      (device : Uuid) (ks : List OneTimePrekeyInput)
      → Keeps env O (add_one_time_prekeys env device ks)
  unfolding add_one_time_prekeys
  one_time-Keeps device ks = search (keeps_rules, writes.insert_one_time) depth 9

  pub upload_keys-Keeps :
      (device : Uuid) (req : UploadKeysRequest) → Keeps env O (upload_keys env device req)
  unfolding upload_keys
  upload_keys-Keeps device req =
      search (keeps_rules, identity-Keeps, writes.rotate_signed, one_time-Keeps) depth 9

  pub claim-Keeps : (device : Uuid) → Keeps env O (claim_one_time_prekey env device)
  unfolding claim_one_time_prekey
  claim-Keeps device = search (keeps_rules, writes.claim_prekey)

  claim_for-Keeps :
      (d : Device) (i : SignalIdentityKey) (o : Option SignalSignedPrekey)
      → Keeps env O (claim_for env d i o)
  unfolding claim_for
  claim_for-Keeps d i none = search keeps_rules
  claim_for-Keeps d i (some s) = search (keeps_rules, claim-Keeps)

  find_signed-Keeps : (device : Uuid) → Keeps env O (find_signed_prekey env device)
  unfolding find_signed_prekey
  find_signed-Keeps device = search keeps_rules

  find_identity-Keeps : (device : Uuid) → Keeps env O (find_identity_key env device)
  unfolding find_identity_key
  find_identity-Keeps device = search keeps_rules

  prekeys_for-Keeps :
      (d : Device) (o : Option SignalIdentityKey) → Keeps env O (prekeys_for env d o)
  unfolding prekeys_for
  prekeys_for-Keeps d none = search keeps_rules
  prekeys_for-Keeps d (some i) = search (keeps_rules, find_signed-Keeps, claim_for-Keeps)

  bundle_device-Keeps : (d : Device) → Keeps env O (bundle_device env d)
  unfolding bundle_device
  bundle_device-Keeps d = search (keeps_rules, find_identity-Keeps, prekeys_for-Keeps)

  bundle_devices-Keeps : (ds : List Device) → Keeps env O (bundle_devices env ds)
  unfolding bundle_devices
  bundle_devices-Keeps [] = search keeps_rules
  bundle_devices-Keeps (d ∷ ds) =
      Keeps-bind _ _ (bundle_device-Keeps d)
        (λ bundle. Keeps-bind _ _ (bundle_devices-Keeps ds) (λ bundles. search keeps_rules))

  pub bundle-Keeps : (id : String) → Keeps env O (get_user_key_bundle env id)
  unfolding get_user_key_bundle
  bundle-Keeps id = search (keeps_rules, bundle_devices-Keeps) depth 12

  pub get_by_id-Keeps : (id : String) → Keeps env O (get_by_id env id)
  unfolding get_by_id
  get_by_id-Keeps id = search keeps_rules

  pub search-Keeps : (phone email : String) → Keeps env O (search_user env phone email)
  unfolding search_user
  search-Keeps phone email = search keeps_rules

  pub is_device_active-Keeps : (id : String) → Keeps env O (is_device_active env id)
  unfolding is_device_active
  is_device_active-Keeps id = search keeps_rules

  open_new-Keeps : (a b : Uuid) → Keeps env O (open_new env a b)
  unfolding open_new
  open_new-Keeps a b = search (keeps_rules, writes.open_conversation)

  open_existing-Keeps : (a : Uuid) → Keeps env O (open_existing env a)
  unfolding open_existing
  open_existing-Keeps a = search keeps_rules

  find_existing-Keeps : (a b : Uuid) → Keeps env O (find_existing_direct_conversation env a b)
  unfolding find_existing_direct_conversation
  find_existing-Keeps a b = search keeps_rules

  pub create-Keeps :
      (caller : Uuid) (text : String) → Keeps env O (create_direct_conversation env caller text)
  unfolding create_direct_conversation
  create-Keeps caller text =
      search (keeps_rules, find_existing-Keeps, open_new-Keeps, open_existing-Keeps) depth 12

  conversation_rows-Keeps : (caller : Uuid) → Keeps env O (conversation_rows env caller)
  unfolding conversation_rows
  conversation_rows-Keeps caller = search keeps_rules

  other_participants-Keeps :
      (caller : Uuid) (cs : List Conversation) → Keeps env O (other_participants env caller cs)
  unfolding other_participants
  other_participants-Keeps caller cs = search keeps_rules

  load_profiles-Keeps : (ps : List ConversationParticipant) → Keeps env O (load_profiles env ps)
  unfolding load_profiles
  load_profiles-Keeps ps = search keeps_rules

  pub list_conversations-Keeps : (caller : Uuid) → Keeps env O (list_conversations env caller)
  unfolding list_conversations
  list_conversations-Keeps caller =
      search (keeps_rules, conversation_rows-Keeps, other_participants-Keeps, load_profiles-Keeps)
        depth 9

  module _ (crypto : Crypto) (secret : String) where
    accept_parsed-Keeps : (p : Parsed) → Keeps env O (accept_parsed env crypto secret p)
    unfolding accept_parsed
    accept_parsed-Keeps (Parsed.valid c) = search keeps_rules
    accept_parsed-Keeps Parsed.expired = search keeps_rules
    accept_parsed-Keeps Parsed.invalid = search keeps_rules

    read_token-Keeps : (token : String) → Keeps env O (read_token env crypto secret token)
    unfolding read_token
    read_token-Keeps token =
        Keeps-here
          (λ w.
            accept_parsed env crypto secret
              (parse_access_token env crypto secret token (env.now w.tick)))
          (λ v. search accept_parsed-Keeps)

    pub require_auth-Keeps : (header : String) → Keeps env O (require_auth env crypto secret header)
    unfolding require_auth
    require_auth-Keeps header =
        search (keeps_rules, read_token-Keeps, is_device_active-Keeps) depth 12
