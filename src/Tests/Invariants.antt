-- ===== src/Tests/Invariants.antt =====
-- The invariants of the services in the sample world.
use flutter_whatsapp_clone.Base.{
  map, length, false, ◌≡◌, first_where, order_by, insert_sorted, List, [], ◌∷◌, true, some, pos,
  refl, arith,
}
use flutter_whatsapp_clone.Action.{◌>>=◌, on_error, or_fail, ensure}
use flutter_whatsapp_clone.Store.{query, execute, insert, insert_rows, transaction, fits, World}
use flutter_whatsapp_clone.Web.{answer, reply, bound, parsed}
use flutter_whatsapp_clone.Auth.Tokens.{parse_access_token}
use flutter_whatsapp_clone.Auth.Middleware.{
  require_auth, read_token, accept_parsed, is_device_active, equal_fold, split_at_space,
}
use flutter_whatsapp_clone.Keys.Upload.{
  upload_keys, store_identity_key, upsert_identity_key, rotate_signed_prekey, add_one_time_prekeys,
  one_time_rows,
}
use flutter_whatsapp_clone.Keys.Validation.{validate, validate_public_key, validate_signature}
use flutter_whatsapp_clone.Keys.Base64.{decode_base64_flexible}
use flutter_whatsapp_clone.Keys.Handler.{handle_upload_keys, checked}
use flutter_whatsapp_clone.Conversations.Handler.{handle_create}
use flutter_whatsapp_clone.Conversations.Create.{
  create_direct_conversation, find_existing_direct_conversation, open_new, open_existing,
  store_conversation,
}
use flutter_whatsapp_clone.Server.{
  serve, serve_protected, with_auth, as_payload, Request, behind_auth, ProtectedRoute, serve_all,
}
use flutter_whatsapp_clone.Models.{SignalSignedPrekey}
use flutter_whatsapp_clone.Keys.Upload.Rotation.{AtMostOneActive}
use flutter_whatsapp_clone.Invariants.Members.{IsPaired}
use flutter_whatsapp_clone.Invariants.OneActive.{serve_all-AtMostOneActive}
use flutter_whatsapp_clone.Invariants.Paired.{serve_all-IsPaired}
use flutter_whatsapp_clone.Tests.Keys.{key_text, signature_text}
use flutter_whatsapp_clone.Tests.Fixtures.{calm, spell}
use flutter_whatsapp_clone.Tests.Auth.{session_world, running_auth, plain, first_claims}

abbrev signed_key : SignalSignedPrekey
signed_key = record {
  id = 71;
  device_id = 110;
  key_id = pos 1;
  public_key = key_text;
  signature = "";
  is_active = true;
  created_at = 1;
}

abbrev signed_world : World calm
signed_world = record session_world {
  db = record session_world.db { signed_prekeys = signed_key ∷ [] };
}

-- The device 110, of the session that the token is for, uploads a new signed prekey.
abbrev uploads : List Request
uploads =
    behind_auth "Bearer t" (
      ProtectedRoute.post_keys (
        some (record {
          identity_public_key = key_text;
          registration_id = pos 1;
          signed_prekey =
              some (record { key_id = pos 2; public_key = key_text; signature = signature_text });
          one_time_prekeys = [];
        })))
    ∷ []

serve_all-AtMostOneActive_example :
    AtMostOneActive
      (serve_all calm (plain first_claims) "key" uploads signed_world).db.signed_prekeys
serve_all-AtMostOneActive_example =
    serve_all-AtMostOneActive calm (plain first_claims) "key" uploads signed_world
      (λ device. ground arith)

-- User 1 opens a conversation with user 3, and again, in the session that the token is for.
abbrev openings : List Request
openings =
    behind_auth "Bearer t"
      (ProtectedRoute.post_conversations (some (record { participant_id = spell 3 })))
    ∷ behind_auth "Bearer t"
        (ProtectedRoute.post_conversations (some (record { participant_id = spell 3 })))
    ∷ []

abbrev opened_world : World calm
opened_world = serve_all calm (plain first_claims) "key" openings session_world

serve_all-IsPaired_example : IsPaired opened_world.db.conversations opened_world.db.participants
unfolding running_auth
serve_all-IsPaired_example =
    serve_all-IsPaired calm (plain first_claims) "key" openings session_world
      (record { pairs = ((refl, refl, refl), tt); members = (refl, (refl, tt)) })

-- The token is accepted: the new key is the only active one, and one conversation is added.
serving : Unit {0}
unfolding running_auth require_auth read_token accept_parsed is_device_active equal_fold
    split_at_space parse_access_token serve serve_protected with_auth as_payload answer reply
    serve_all bound parsed checked validate validate_public_key validate_signature
    decode_base64_flexible handle_upload_keys upload_keys store_identity_key upsert_identity_key
    rotate_signed_prekey add_one_time_prekeys one_time_rows handle_create create_direct_conversation
    find_existing_direct_conversation open_new open_existing store_conversation query execute insert
    insert_rows transaction fits on_error or_fail ensure first_where order_by insert_sorted ◌>>=◌
serving = tt

uploads_accepted :
    map
      (λ k. k.is_active)
      (serve_all calm (plain first_claims) "key" uploads signed_world).db.signed_prekeys
    ≡ false ∷ true ∷ []
unfolding serving
uploads_accepted = refl

openings_accepted : length opened_world.db.conversations ≡ 2
unfolding serving
openings_accepted = refl
