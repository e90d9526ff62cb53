-- ===== src/Keys/Base64.antt =====
-- encoding/base64, as far as decodeBase64Flexible uses it: DecodeString of the four encodings, over
-- the codes of a text. Line breaks are skipped, and the bits left over at the end are not checked.
pub mod Agreement
pub mod Encode
use Prim.Native.String.{String}
use Prim.Native.Char.{code}
use flutter_whatsapp_clone.Base.{
  ℕ, ◌+◌, ◌-◌, ◌*◌, ◌/◌, ◌%◌, Bool, true, false, ◌&&◌, ◌||◌, Option, none, some, List, [], ◌∷◌,
  ◌++◌, all, leb, ◌==◌, if◌then◌else◌,
}

abbrev pub codes : String → List ℕ
codes String.[] = []
codes (String.◌∷◌ c s) = code c ∷ codes s

-- The alphabets; they differ in the codes of 62 and 63.
unfoldable pub digit : ℕ → ℕ → ℕ → Option ℕ
digit c62 c63 c =
    if leb b'A' c && leb c b'Z'
    then some (c - b'A')
    else if leb b'a' c && leb c b'z'
    then some (c - b'a' + 26)
    else if leb b'0' c && leb c b'9'
    then some (c - b'0' + 52)
    else if c == c62
    then some 62
    else if c == c63
    then some 63
    else none

abbrev pub std_digit : ℕ → Option ℕ
std_digit = digit b'+' b'/'

abbrev pub url_digit : ℕ → Option ℕ
url_digit = digit b'-' b'_'

abbrev pub is_newline : ℕ → Bool
is_newline c = c == 10 || c == 13

abbrev pub pad_char : ℕ
pad_char = b'='

abbrev pub byte0 : ℕ → ℕ → ℕ
byte0 a b = a * 4 + b / 16

abbrev pub byte1 : ℕ → ℕ → ℕ
byte1 b c = b % 16 * 16 + c / 4

abbrev pub byte2 : ℕ → ℕ → ℕ
byte2 c d = c % 4 * 64 + d

-- The digits of a quantum that were read so far.
pub data Pending : Type 0 where
  none_read : Pending
  one : ℕ → Pending
  two : ℕ → ℕ → Pending
  three : ℕ → ℕ → ℕ → Pending

-- A quantum that ends early: by the end of the input, or by padding.
abbrev pub short : Pending → Option (List ℕ)
short (two a b) = some (byte0 a b ∷ [])
short (three a b c) = some (byte0 a b ∷ byte1 b c ∷ [])
short _ = none

-- The end of the input without padding.
abbrev pub at_end : Bool → Pending → Option (List ℕ)
at_end padded none_read = some []
at_end true p = none
at_end false p = short p

-- After the second "=", or the only one: nothing but line breaks.
abbrev pub closed : Pending → List ℕ → Option (List ℕ)
closed p cs = if all is_newline cs then short p else none

-- After the first "=" of two: the second one.
unfoldable pub second_pad : Pending → List ℕ → Option (List ℕ)
second_pad p [] = none
second_pad p (c ∷ cs) =
    let skipped = second_pad p cs in
    if is_newline c then skipped else if c == pad_char then closed p cs else none

abbrev pub at_pad : Pending → List ℕ → Option (List ℕ)
at_pad none_read cs = none
at_pad (one a) cs = none
at_pad (two a b) cs = second_pad (two a b) cs
at_pad (three a b c) cs = closed (three a b c) cs

abbrev pub emit : List ℕ → Option (List ℕ) → Option (List ℕ)
emit bytes none = none
emit bytes (some rest) = some (bytes ++ rest)

-- decodeQuantum, digit by digit, by the calls that decode the rest after each digit.
abbrev pub next : Pending → ℕ → (Pending → Option (List ℕ)) → Option (List ℕ)
next none_read d rest = rest (one d)
next (one a) d rest = rest (two a d)
next (two a b) d rest = rest (three a b d)
next (three a b c) d rest = emit (byte0 a b ∷ byte1 b c ∷ byte2 c d ∷ []) (rest none_read)

abbrev pub on_char :
    Bool → Option ℕ → ℕ → Pending → List ℕ → (Pending → Option (List ℕ)) → Option (List ℕ)
on_char padded (some d) c p cs rest = next p d rest
on_char padded none c p cs rest =
    if is_newline c then rest p else if padded && c == pad_char then at_pad p cs else none

unfoldable pub decode_from : (ℕ → Option ℕ) → Bool → List ℕ → Pending → Option (List ℕ)
unfolding second_pad
decode_from dig padded [] p = at_end padded p
decode_from dig padded (c ∷ cs) p = on_char padded (dig c) c p cs (decode_from dig padded cs)

-- The four encodings, each with its DecodeString.
pub data Encoding : Type 0 where
  std raw_std url raw_url : Encoding

abbrev pub digit_of : Encoding → ℕ → Option ℕ
digit_of std = std_digit
digit_of raw_std = std_digit
digit_of url = url_digit
digit_of raw_url = url_digit

abbrev pub is_padded : Encoding → Bool
is_padded std = true
is_padded raw_std = false
is_padded url = true
is_padded raw_url = false

unfoldable pub decode_string : Encoding → List ℕ → Option (List ℕ)
unfolding decode_from digit
decode_string e cs = decode_from (digit_of e) (is_padded e) cs none_read

abbrev pub or_else {ℓ} : {A : Type ℓ} → Option A → Option A → Option A
or_else (some a) o = some a
or_else none o = o

-- decodeBase64Flexible: the first of the four that succeeds.
unfoldable pub decode_base64_flexible : String → Option (List ℕ)
unfolding decode_string
decode_base64_flexible s = or_else (decode_string std (codes s)) (
    or_else (decode_string raw_std (codes s))
      (or_else (decode_string url (codes s)) (decode_string raw_url (codes s))))
