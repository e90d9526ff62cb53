-- ===== src/Tests/Keys.antt =====
-- Validating, uploading and claiming keys in the sample world.
use flutter_whatsapp_clone.Base.{
  insert_sorted, order_by, ℕ, false, ◌≡◌, ◌↔◌, ◌⊎◌, refl, pos, none, some, [], ◌∷◌, String,
}
use flutter_whatsapp_clone.Models.{SignalOneTimePrekey}
use flutter_whatsapp_clone.Action.{◌>>=◌}
use flutter_whatsapp_clone.Store.{execute_returning, World}
use flutter_whatsapp_clone.Keys.Defs.{UploadKeysRequest, OneTimePrekeyOutput}
use flutter_whatsapp_clone.Keys.Base64.{
  Encoding, raw_url, codes, decode_string, decode_base64_flexible,
}
use flutter_whatsapp_clone.Keys.Base64.Agreement.{decode_base64_flexible-decode_string}
use flutter_whatsapp_clone.Keys.Base64.Encode.{encode_with, decode_base64_flexible-encode}
use flutter_whatsapp_clone.Keys.Validation.{validate}
use flutter_whatsapp_clone.Keys.Validation.Accepted.{IsAcceptable, validate-IsAcceptable}
use flutter_whatsapp_clone.Keys.Bundle.{claimed_output, oldest_unused, claim_one_time_prekey}
use flutter_whatsapp_clone.Keys.Bundle.Pool.{NoneToTake, Took, claim_one_time_prekey-Took}
use flutter_whatsapp_clone.Tests.Fixtures.{calm, a_world}

-- 32 bytes, without padding.
abbrev pub key_text : String
key_text = "AAAAAAAAAAAAAAAAAAAAAAAAAAAAAAAAAAAAAAAAAAA"

-- 64 bytes, without padding.
abbrev pub signature_text : String
signature_text =
    "AAAAAAAAAAAAAAAAAAAAAAAAAAAAAAAAAAAAAAAAAAAAAAAAAAAAAAAAAAAAAAAAAAAAAAAAAAAAAAAAAAAAAA"

-- Text in the alphabet for URLs, without padding.
decode_base64_flexible-encode_example : decode_base64_flexible "_-8" ≡ some (255 ∷ 239 ∷ [])
unfolding encode_with
decode_base64_flexible-encode_example =
    decode_base64_flexible-encode raw_url "_-8" (255 ∷ 239 ∷ []) refl refl

decode_base64_flexible-decode_string_example :
    (decode_base64_flexible "_-8" ≡ some (255 ∷ 239 ∷ []))
    ↔ ((e : Encoding) × (decode_string e (codes "_-8") ≡ some (255 ∷ 239 ∷ [])))
decode_base64_flexible-decode_string_example =
    decode_base64_flexible-decode_string "_-8" (255 ∷ 239 ∷ [])

abbrev an_upload : UploadKeysRequest
an_upload = record {
  identity_public_key = key_text;
  registration_id = pos 7;
  signed_prekey =
      some (record { key_id = pos 0; public_key = key_text; signature = signature_text });
  one_time_prekeys =
      record { key_id = pos 1; public_key = key_text }
      ∷ record { key_id = pos 2; public_key = key_text }
      ∷ [];
}

validate-IsAcceptable_example : (validate an_upload ≡ none) ↔ IsAcceptable an_upload
validate-IsAcceptable_example = validate-IsAcceptable an_upload

abbrev a_prekey : ℕ → ℕ → String → SignalOneTimePrekey
a_prekey id key text = record {
  id = id;
  device_id = 22;
  key_id = pos key;
  public_key = text;
  is_used = false;
  created_at = id;
  used_at = none;
}

abbrev pub stocked : World calm
stocked = record a_world {
  db = record a_world.db { one_time_prekeys = a_prekey 1 1 "one" ∷ a_prekey 2 2 "two" ∷ [] };
}

abbrev pub first_claim : World calm
first_claim = (claim_one_time_prekey calm 22 stocked).1

abbrev pub handed : ℕ → String → OneTimePrekeyOutput
handed n s = record { key_id = pos n; public_key = s }

claim_one_time_prekey-Took_example :
    ((some (handed 1 "one") ≡ none)
      × NoneToTake calm 22 0 stocked.db.one_time_prekeys first_claim.db.one_time_prekeys)
    ⊎ ((k : SignalOneTimePrekey) × (some (handed 1 "one") ≡ claimed_output calm (some k))
        × Took calm 22 0 stocked.db.one_time_prekeys first_claim.db.one_time_prekeys k)
unfolding claim_one_time_prekey oldest_unused execute_returning order_by insert_sorted ◌>>=◌
claim_one_time_prekey-Took_example =
    claim_one_time_prekey-Took calm 22 stocked first_claim (some (handed 1 "one"))
      (refl, (refl, tt)) refl
