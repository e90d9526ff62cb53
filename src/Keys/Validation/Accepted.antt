-- ===== src/Keys/Validation/Accepted.antt =====
-- internal/keys/validation.go: the requests that Validate accepts.
use flutter_whatsapp_clone.Base.{
  ℕ, suc, ℤ, pos, leb_ℤ, true, ◌&&◌, String, Option, none, some, List, [], ◌∷◌, length, ◌≡◌, refl,
  ◌⊎◌, All, ◌↔◌, arith,
}
use flutter_whatsapp_clone.Keys.Base64.{decode_base64_flexible, or_else}
use flutter_whatsapp_clone.Keys.Defs.{SignedPrekeyInput, OneTimePrekeyInput, UploadKeysRequest}
use flutter_whatsapp_clone.Keys.Validation.{
  Field, max_key_id, check_range, validate_public_key, validate_signature, validate_signed_prekey,
  validate_one_time_prekeys, validate,
}

-- A text that stands for 32 bytes, or for 33 with the type byte.
abbrev pub IsPublicKey : String → Type 0
IsPublicKey s =
    (bytes : List ℕ) × (decode_base64_flexible s ≡ some bytes)
    × ((length bytes ≡ 32) ⊎ (length bytes ≡ 33))

abbrev pub IsSignature : String → Type 0
IsSignature s = (bytes : List ℕ) × (decode_base64_flexible s ≡ some bytes) × (length bytes ≡ 64)

abbrev pub InRange : ℤ → ℤ → ℤ → Type 0
InRange low high n = (leb_ℤ low n && leb_ℤ n high) ≡ true

abbrev pub IsSignedPrekey : Option SignedPrekeyInput → Type 0
IsSignedPrekey none = Unit {0}
IsSignedPrekey (some k) =
    InRange (pos 0) max_key_id k.key_id × IsPublicKey k.public_key × IsSignature k.signature

abbrev pub IsOneTimePrekey : OneTimePrekeyInput → Type 0
IsOneTimePrekey k = InRange (pos 0) max_key_id k.key_id × IsPublicKey k.public_key

pub record IsAcceptable (r : UploadKeysRequest) : Type 0 where
  pub identity : IsPublicKey r.identity_public_key
  pub registration : InRange (pos 1) (pos 16380) r.registration_id
  pub signed : IsSignedPrekey r.signed_prekey
  pub one_time : All IsOneTimePrekey r.one_time_prekeys

or_else-none {ℓ} : {A : Type ℓ} (o p : Option A) → or_else o p ≡ none → (o ≡ none) × (p ≡ none)
or_else-none o p h = ground arith

check_range-InRange :
    (low high n : ℤ) (f : Field) → check_range low high n f ≡ none → InRange low high n
check_range-InRange low high n f h = ground arith

range_ok : (low high n : ℤ) (f : Field) → InRange low high n → check_range low high n f ≡ none
range_ok low high n f h = rw h

validate_public_key-IsPublicKey :
    (s : String) (f : Field) → validate_public_key s f ≡ none → IsPublicKey s
unfolding validate_public_key
validate_public_key-IsPublicKey s f h = ground arith

public_key_ok : (s : String) (f : Field) → IsPublicKey s → validate_public_key s f ≡ none
unfolding validate_public_key
public_key_ok s f (bytes, e, h) = rw e (ground arith)

validate_signature-IsSignature : (s : String) → validate_signature s ≡ none → IsSignature s
unfolding validate_signature
validate_signature-IsSignature s h = ground arith

signature_ok : (s : String) → IsSignature s → validate_signature s ≡ none
unfolding validate_signature
signature_ok s (bytes, e, h) = rw e (ground arith)

validate_signed_prekey-IsSignedPrekey :
    (o : Option SignedPrekeyInput) → validate_signed_prekey o ≡ none → IsSignedPrekey o
unfolding validate_signed_prekey
validate_signed_prekey-IsSignedPrekey none h = tt
validate_signed_prekey-IsSignedPrekey (some k) h =
    let (range, rest) = or_else-none _ _ h in
    let (key, signature) = or_else-none _ _ rest in
    (
      check_range-InRange (pos 0) max_key_id k.key_id Field.signed_key_id range,
      validate_public_key-IsPublicKey k.public_key Field.signed_public_key key,
      validate_signature-IsSignature k.signature signature,
    )

signed_prekey_ok :
    (o : Option SignedPrekeyInput) → IsSignedPrekey o → validate_signed_prekey o ≡ none
unfolding validate_signed_prekey
signed_prekey_ok none h = refl
signed_prekey_ok (some k) (range, key, signature) =
    rw (range_ok _ _ _ Field.signed_key_id range, public_key_ok _ Field.signed_public_key key)
      (signature_ok _ signature)

validate_one_time_prekeys-All :
    (i : ℕ) (ks : List OneTimePrekeyInput)
    → validate_one_time_prekeys i ks ≡ none
    → All IsOneTimePrekey ks
unfolding validate_one_time_prekeys
validate_one_time_prekeys-All i [] h = tt
validate_one_time_prekeys-All i (k ∷ ks) h =
    let (range, rest) = or_else-none _ _ h in
    let (key, others) = or_else-none _ _ rest in
    (
      (
        check_range-InRange (pos 0) max_key_id k.key_id (Field.one_time_key_id i) range,
        validate_public_key-IsPublicKey k.public_key (Field.one_time_public_key i) key,
      ),
      validate_one_time_prekeys-All (suc i) ks others,
    )

one_time_ok :
    (i : ℕ) (ks : List OneTimePrekeyInput)
    → All IsOneTimePrekey ks
    → validate_one_time_prekeys i ks ≡ none
unfolding validate_one_time_prekeys
one_time_ok i [] h = refl
one_time_ok i (k ∷ ks) ((range, key), rest) =
    rw
      (
        range_ok _ _ _ (Field.one_time_key_id i) range,
        public_key_ok _ (Field.one_time_public_key i) key,
      )
      (one_time_ok (suc i) ks rest)

accepted : (r : UploadKeysRequest) → validate r ≡ none → IsAcceptable r
unfolding validate
accepted r h =
    let (identity, rest) = or_else-none _ _ h in
    let (registration, rest) = or_else-none _ _ rest in
    let (signed, one_time) = or_else-none _ _ rest in
    record {
      identity =
          validate_public_key-IsPublicKey r.identity_public_key Field.identity_public_key identity;
      registration =
          check_range-InRange (pos 1) (pos 16380) r.registration_id Field.registration_id
            registration;
      signed = validate_signed_prekey-IsSignedPrekey _ signed;
      one_time = validate_one_time_prekeys-All 0 _ one_time;
    }

accepts : (r : UploadKeysRequest) → IsAcceptable r → validate r ≡ none
unfolding validate
accepts r h =
    rw
      (
        public_key_ok _ Field.identity_public_key h.identity,
        range_ok _ _ _ Field.registration_id h.registration,
        signed_prekey_ok _ h.signed,
      )
      (one_time_ok 0 _ h.one_time)

-- Validate returns no error on exactly the requests whose keys are base64, in one of the four
-- encodings, of the right number of bytes and whose numbers are in their ranges: the optional
-- signed prekey if there is one, and every one-time prekey.
pub validate-IsAcceptable : (r : UploadKeysRequest) → (validate r ≡ none) ↔ IsAcceptable r
validate-IsAcceptable r = (accepted r, accepts r)
