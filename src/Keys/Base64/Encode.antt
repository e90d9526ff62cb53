-- ===== src/Keys/Base64/Encode.antt =====
-- The texts that encode bytes in each of the four encodings (RFC 4648), and what decodeBase64Flexible
-- makes of them.
use flutter_whatsapp_clone.Base.{
  ℕ, ◌+◌, ◌-◌, ◌*◌, ◌/◌, ◌%◌, ◌<◌, Bool, true, false, Option, none, some, List, [], ◌∷◌, all,
  String, ltb, ◌==◌, ◌≡◌, refl, ap, ◌∙◌, arith, if◌then◌else◌,
}
use flutter_whatsapp_clone.Keys.Base64.{
  Pending, none_read, one, two, three, Encoding, std, raw_std, url, raw_url, codes, digit,
  std_digit, url_digit, digit_of, is_padded, pad_char, emit, next, second_pad, decode_from,
  decode_string, decode_base64_flexible, byte0, byte1, byte2,
}
use flutter_whatsapp_clone.Keys.Base64.Agreement.{decode_base64_flexible-decode_string}

-- The character of a digit.
abbrev letter : ℕ → ℕ → ℕ → ℕ
letter c62 c63 d =
    if ltb d 26
    then d + b'A'
    else if ltb d 52
    then d - 26 + b'a'
    else if ltb d 62
    then d - 52 + b'0'
    else if d == 62
    then c62
    else c63

abbrev letter_of : Encoding → ℕ → ℕ
letter_of std = letter b'+' b'/'
letter_of raw_std = letter b'+' b'/'
letter_of url = letter b'-' b'_'
letter_of raw_url = letter b'-' b'_'

abbrev padding : Bool → List ℕ → List ℕ
padding true signs = signs
padding false signs = []

module _ (char : ℕ → ℕ) (padded : Bool) where
  unfoldable pub encode_with : List ℕ → List ℕ
  encode_with [] = []
  encode_with (a ∷ []) =
      char (a / 4) ∷ char (a % 4 * 16) ∷ padding padded (pad_char ∷ pad_char ∷ [])
  encode_with (a ∷ b ∷ []) =
      char (a / 4) ∷ char (a % 4 * 16 + b / 16) ∷ char (b % 16 * 4) ∷ padding padded (pad_char ∷ [])
  encode_with (a ∷ b ∷ c ∷ bytes) =
      char (a / 4)
      ∷ char (a % 4 * 16 + b / 16)
      ∷ char (b % 16 * 4 + c / 64)
      ∷ char (c % 64)
      ∷ encode_with bytes

abbrev pub encode : Encoding → List ℕ → List ℕ
encode e = encode_with (letter_of e) (is_padded e)

abbrev pub is_byte : ℕ → Bool
is_byte b = ltb b 256

byte0-halves : (a b : ℕ) → b < 256 → byte0 (a / 4) (a % 4 * 16 + b / 16) ≡ a
byte0-halves a b h = omega arith

byte1-halves :
    (a b c : ℕ) → b < 256 → c < 256 → byte1 (a % 4 * 16 + b / 16) (b % 16 * 4 + c / 64) ≡ b
byte1-halves a b c h k = omega arith

byte2-halves : (b c : ℕ) → c < 256 → byte2 (b % 16 * 4 + c / 64) (c % 64) ≡ c
byte2-halves b c h = omega arith

quantum-halves :
    (a b c : ℕ)
    → a < 256
    → b < 256
    → c < 256
    → byte0 (a / 4) (a % 4 * 16 + b / 16)
        ∷ byte1 (a % 4 * 16 + b / 16) (b % 16 * 4 + c / 64)
        ∷ byte2 (b % 16 * 4 + c / 64) (c % 64)
        ∷ []
      ≡ a ∷ b ∷ c ∷ []
quantum-halves a b c h k l =
    ap
      (λ x.
        x
        ∷ byte1 (a % 4 * 16 + b / 16) (b % 16 * 4 + c / 64)
        ∷ byte2 (b % 16 * 4 + c / 64) (c % 64)
        ∷ [])
      (byte0-halves a b k)
    ∙ ap (λ x. a ∷ x ∷ byte2 (b % 16 * 4 + c / 64) (c % 64) ∷ []) (byte1-halves a b c k l)
    ∙ ap (λ x. a ∷ b ∷ x ∷ []) (byte2-halves b c l)

module _ (dig : ℕ → Option ℕ) (no_pad : dig pad_char ≡ none) where
  -- The end of a text whose last quantum has two digits, or three.
  read_padding_two :
      (padded : Bool) (i j : ℕ)
      → decode_from dig padded (padding padded (pad_char ∷ pad_char ∷ [])) (two i j)
        ≡ some (byte0 i j ∷ [])
  unfolding decode_from second_pad
  read_padding_two true i j = rw no_pad refl
  read_padding_two false i j = refl

  read_padding_three :
      (padded : Bool) (i j l : ℕ)
      → decode_from dig padded (padding padded (pad_char ∷ [])) (three i j l)
        ≡ some (byte0 i j ∷ byte1 j l ∷ [])
  unfolding decode_from second_pad
  read_padding_three true i j l = rw no_pad refl
  read_padding_three false i j l = refl

module _ (dig : ℕ → Option ℕ) (char : ℕ → ℕ) (padded : Bool)
    (inverse : (d : ℕ) → d < 64 → dig (char d) ≡ some d) (no_pad : dig pad_char ≡ none) where
  read_letter :
      (d : ℕ) (cs : List ℕ) (p : Pending)
      → d < 64
      → decode_from dig padded (char d ∷ cs) p ≡ next p d (decode_from dig padded cs)
  unfolding decode_from
  read_letter d cs p h = rw (inverse d h) refl

  decode_from-encode :
      (bytes : List ℕ)
      → all is_byte bytes ≡ true
      → decode_from dig padded (encode_with char padded bytes) none_read ≡ some bytes
  unfolding encode_with decode_from
  decode_from-encode [] h = refl
  decode_from-encode (a ∷ []) h =
      read_letter (a / 4) _ none_read (ground arith)
      ∙ read_letter (a % 4 * 16) _ (one (a / 4)) (ground arith)
      ∙ read_padding_two dig no_pad padded (a / 4) (a % 4 * 16)
      ∙ ap (λ x. some (x ∷ [])) (omega arith)
  decode_from-encode (a ∷ b ∷ []) h =
      read_letter (a / 4) _ none_read (ground arith)
      ∙ read_letter (a % 4 * 16 + b / 16) _ (one (a / 4)) (ground arith)
      ∙ read_letter (b % 16 * 4) _ (two (a / 4) (a % 4 * 16 + b / 16)) (ground arith)
      ∙ read_padding_three dig no_pad padded (a / 4) (a % 4 * 16 + b / 16) (b % 16 * 4)
      ∙ ap (λ x. some (x ∷ byte1 (a % 4 * 16 + b / 16) (b % 16 * 4) ∷ []))
          (byte0-halves a b (ground arith))
      ∙ ap (λ x. some (a ∷ x ∷ [])) (ground arith)
  decode_from-encode (a ∷ b ∷ c ∷ bytes) h =
      read_letter (a / 4) _ none_read (ground arith)
      ∙ read_letter (a % 4 * 16 + b / 16) _ (one (a / 4)) (ground arith)
      ∙ read_letter (b % 16 * 4 + c / 64) _ (two (a / 4) (a % 4 * 16 + b / 16)) (ground arith)
      ∙ read_letter (c % 64) _ (three (a / 4) (a % 4 * 16 + b / 16) (b % 16 * 4 + c / 64))
          (ground arith)
      ∙ ap
          (emit (
            byte0 (a / 4) (a % 4 * 16 + b / 16)
            ∷ byte1 (a % 4 * 16 + b / 16) (b % 16 * 4 + c / 64)
            ∷ byte2 (b % 16 * 4 + c / 64) (c % 64)
            ∷ []))
          (decode_from-encode bytes (ground arith))
      ∙ ap (λ q. emit q (some bytes))
          (quantum-halves a b c (ground arith) (ground arith) (ground arith))

digit_letter_std : (d : ℕ) → d < 64 → std_digit (letter b'+' b'/' d) ≡ some d
unfolding digit
digit_letter_std d h = ground arith

digit_letter_url : (d : ℕ) → d < 64 → url_digit (letter b'-' b'_' d) ≡ some d
unfolding digit
digit_letter_url d h = ground arith

digit_of-letter_of : (e : Encoding) (d : ℕ) → d < 64 → digit_of e (letter_of e d) ≡ some d
digit_of-letter_of std d h = digit_letter_std d h
digit_of-letter_of raw_std d h = digit_letter_std d h
digit_of-letter_of url d h = digit_letter_url d h
digit_of-letter_of raw_url d h = digit_letter_url d h

digit_of-pad_char : (e : Encoding) → digit_of e pad_char ≡ none
unfolding digit
digit_of-pad_char std = refl
digit_of-pad_char raw_std = refl
digit_of-pad_char url = refl
digit_of-pad_char raw_url = refl

-- Of a text that encodes bytes in one of the four encodings, whichever it is, decodeBase64Flexible
-- gives these bytes.
pub decode_base64_flexible-encode :
    (e : Encoding) (s : String) (bytes : List ℕ)
    → all is_byte bytes ≡ true
    → codes s ≡ encode e bytes
    → decode_base64_flexible s ≡ some bytes
unfolding decode_string
decode_base64_flexible-encode e s bytes h text =
    let decoded =
      decode_from-encode (digit_of e) (letter_of e) (is_padded e) (digit_of-letter_of e)
        (digit_of-pad_char e) bytes h in
    (decode_base64_flexible-decode_string s bytes).1 (e, ap (decode_string e) text ∙ decoded)
