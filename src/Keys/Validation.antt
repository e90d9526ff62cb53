-- ===== src/Keys/Validation.antt =====
-- internal/keys/validation.go: what an upload must look like.
pub mod Accepted
use flutter_whatsapp_clone.Base.{
  ℕ, suc, ℤ, pos, leb_ℤ, Bool, true, false, ◌&&◌, ◌||◌, String, Option, none, some, List, [], ◌∷◌,
  length, ◌==◌, if◌then◌else◌,
}
use flutter_whatsapp_clone.Keys.Base64.{decode_base64_flexible, or_else}
use flutter_whatsapp_clone.Keys.Defs.{SignedPrekeyInput, OneTimePrekeyInput, UploadKeysRequest}

-- The place that a message names.
pub data Field : Type 0 where
  identity_public_key registration_id signed_key_id signed_public_key signed_signature : Field
  one_time_key_id one_time_public_key : ℕ → Field

pub data ValidationError : Type 0 where
  not_base64 out_of_range : Field → ValidationError
  wrong_length : Field → ℕ → ValidationError

abbrev pub max_key_id : ℤ
max_key_id = pos 16777215

abbrev pub check_range : ℤ → ℤ → ℤ → Field → Option ValidationError
check_range low high n field =
    if leb_ℤ low n && leb_ℤ n high then none else some (out_of_range field)

abbrev pub is_key_length : ℕ → Bool
is_key_length n = n == 32 || n == 33

abbrev pub check_length : (ℕ → Bool) → Field → Option (List ℕ) → Option ValidationError
check_length fine field none = some (not_base64 field)
check_length fine field (some bytes) =
    if fine (length bytes) then none else some (wrong_length field (length bytes))

unfoldable pub validate_public_key : String → Field → Option ValidationError
validate_public_key value field = check_length is_key_length field (decode_base64_flexible value)

unfoldable pub validate_signature : String → Option ValidationError
validate_signature value =
    check_length (λ n. n == 64) signed_signature (decode_base64_flexible value)

unfoldable pub validate_signed_prekey : Option SignedPrekeyInput → Option ValidationError
validate_signed_prekey none = none
validate_signed_prekey (some k) =
    or_else (check_range (pos 0) max_key_id k.key_id signed_key_id) (
      or_else (validate_public_key k.public_key signed_public_key) (validate_signature k.signature))

unfoldable pub validate_one_time_prekeys : ℕ → List OneTimePrekeyInput → Option ValidationError
validate_one_time_prekeys i [] = none
validate_one_time_prekeys i (k ∷ ks) =
    or_else (check_range (pos 0) max_key_id k.key_id (one_time_key_id i)) (
      or_else (validate_public_key k.public_key (one_time_public_key i))
        (validate_one_time_prekeys (suc i) ks))

-- Validate: the first complaint, or none.
unfoldable pub validate : UploadKeysRequest → Option ValidationError
unfolding validate_signed_prekey validate_one_time_prekeys
validate r = or_else (validate_public_key r.identity_public_key identity_public_key) (
    or_else (check_range (pos 1) (pos 16380) r.registration_id registration_id) (
      or_else (validate_signed_prekey r.signed_prekey)
        (validate_one_time_prekeys 0 r.one_time_prekeys)))
