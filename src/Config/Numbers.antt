-- ===== src/Config/Numbers.antt =====
-- strconv.Atoi, with the 64 bits of Go's int: an optional sign, then at least one digit and nothing
-- else, and a number that fits.
use Prim.Native.String.{String}
use flutter_whatsapp_clone.Base.{
  ℕ, zero, suc, ◌+◌, ◌-◌, ◌*◌, Bool, ◌&&◌, Option, none, some, List, [], ◌∷◌, ltb, leb, ◌==◌,
  if◌then◌else◌, ℤ, pos, negsuc,
}
use flutter_whatsapp_clone.Keys.Base64.{codes}

-- 1 << 63
abbrev pub cutoff : ℕ
cutoff = 9223372036854775808

abbrev pub is_decimal : ℕ → Bool
is_decimal c = leb b'0' c && leb c b'9'

-- The loop, with the number read so far.
abbrev pub read_digits : ℕ → List ℕ → Option ℕ
read_digits n [] = some n
read_digits n (c ∷ cs) =
    let rest = read_digits (n * 10 + (c - b'0')) cs in if is_decimal c then rest else none

abbrev pub magnitude : List ℕ → Option ℕ
magnitude [] = none
magnitude (c ∷ cs) = read_digits 0 (c ∷ cs)

-- -n
abbrev pub negated : ℕ → ℤ
negated zero = pos 0
negated (suc n) = negsuc n

abbrev pub positive_of : Option ℕ → Option ℤ
positive_of none = none
positive_of (some n) = if ltb n cutoff then some (pos n) else none

abbrev pub negative_of : Option ℕ → Option ℤ
negative_of none = none
negative_of (some n) = if leb n cutoff then some (negated n) else none

abbrev pub atoi_codes : List ℕ → Option ℤ
atoi_codes [] = none
atoi_codes (c ∷ cs) =
    if c == b'-'
    then negative_of (magnitude cs)
    else if c == b'+'
    then positive_of (magnitude cs)
    else positive_of (magnitude (c ∷ cs))

abbrev pub atoi : String → Option ℤ
atoi text = atoi_codes (codes text)
