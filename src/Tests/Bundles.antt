-- ===== src/Tests/Bundles.antt =====
-- The key bundle of user 2, whose device 22 has uploaded its keys.
use flutter_whatsapp_clone.Base.{pos, true, some, [], ◌∷◌}
use flutter_whatsapp_clone.Models.{SignalIdentityKey, SignalSignedPrekey}
use flutter_whatsapp_clone.Store.{World}
use flutter_whatsapp_clone.Keys.Defs.{DeviceKeyBundle, KeyBundleResponse}
use flutter_whatsapp_clone.Tests.Keys.{key_text, stocked, handed}
use flutter_whatsapp_clone.Tests.Fixtures.{calm, spell}

abbrev identity_22 : SignalIdentityKey
identity_22 = record {
  device_id = 22;
  identity_public_key = key_text;
  registration_id = pos 7;
  created_at = 1;
}

abbrev signed_22 : SignalSignedPrekey
signed_22 = record {
  id = 72;
  device_id = 22;
  key_id = pos 0;
  public_key = key_text;
  signature = key_text;
  is_active = true;
  created_at = 1;
}

abbrev keyed_world : World calm
keyed_world = record stocked {
  db = record stocked.db { identity_keys = identity_22 ∷ []; signed_prekeys = signed_22 ∷ [] };
}

abbrev bundle_22 : DeviceKeyBundle
bundle_22 = record {
  device_id = spell 22;
  identity_key = record { public_key = key_text; registration_id = pos 7 };
  signed_prekey = record { key_id = pos 0; public_key = key_text; signature = key_text };
  one_time_prekey = some (handed 1 "one");
}

abbrev answer_2 : KeyBundleResponse
answer_2 = record { user_id = spell 2; devices = bundle_22 ∷ [] }
