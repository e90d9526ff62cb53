-- ===== src/Config/Positional.antt =====
-- strconv.Atoi against the positional reading of decimals.
use Prim.Native.String.{String}
use native.Mathlib.Nat.{add-mul, mul_assoc, zero-mul}
use flutter_whatsapp_clone.Base.{
  eq_iff, ℕ, suc, ◌+◌, ◌-◌, ◌*◌, Bool, true, false, none, some, List, [], ◌∷◌, all, length, ltb,
  leb, ◌==◌, ◌≡◌, refl, ap, sym, ◌∙◌, if◌then◌else◌, Bool-cases, inl, inr, arith, ◌≢◌, str_eq, ℤ,
  pos,
}
use flutter_whatsapp_clone.Keys.Base64.{codes}
use flutter_whatsapp_clone.Config.{Variables, getenv, get_env_int, or_fallback}
use flutter_whatsapp_clone.Config.Numbers.{
  is_decimal, read_digits, magnitude, atoi_codes, atoi, positive_of, negative_of, cutoff, negated,
}

abbrev pub power_of_ten : ℕ → ℕ
power_of_ten Prim.Native.Nat.zero = 1
power_of_ten (suc n) = 10 * power_of_ten n

-- Each digit counts its power of ten.
abbrev pub positional : List ℕ → ℕ
positional [] = 0
positional (c ∷ cs) = (c - b'0') * power_of_ten (length cs) + positional cs

regroup : (n d p v : ℕ) → (n * 10 + d) * p + v ≡ n * (10 * p) + (d * p + v)
regroup n d p v = rw (add-mul (n * 10) d p, mul_assoc n 10 p) (omega arith)

read_digits-positional :
    (n : ℕ) (cs : List ℕ)
    → all is_decimal cs ≡ true
    → read_digits n cs ≡ some (n * power_of_ten (length cs) + positional cs)
read_digits-positional n [] h = ap some (omega arith)
read_digits-positional n (c ∷ cs) h =
    let decimal : is_decimal c ≡ true = ground arith in
    let rest : all is_decimal cs ≡ true = ground arith in
    rw decimal (
      read_digits-positional (n * 10 + (c - b'0')) cs rest
      ∙ ap some (regroup n (c - b'0') (power_of_ten (length cs)) (positional cs)))

read_digits-none : (n : ℕ) (cs : List ℕ) → all is_decimal cs ≡ false → read_digits n cs ≡ none
read_digits-none n [] h = ground arith
read_digits-none n (c ∷ cs) h = ground (arith, read_digits-none (n * 10 + (c - b'0')) cs)

-- At least one digit, and nothing else.
abbrev pub is_numeral : List ℕ → Bool
is_numeral [] = false
is_numeral (c ∷ cs) = all is_decimal (c ∷ cs)

magnitude-positional :
    (cs : List ℕ) → magnitude cs ≡ (if is_numeral cs then some (positional cs) else none)
magnitude-positional [] = refl
magnitude-positional (c ∷ cs) = elim (Bool-cases (all is_decimal (c ∷ cs))) [
  | inl h ↦ rw h (
      read_digits-positional 0 (c ∷ cs) h
      ∙ ap some (rw (zero-mul (power_of_ten (length (c ∷ cs)))) (omega arith)))
  | inr h ↦ rw h (read_digits-none 0 (c ∷ cs) h)
]

-- The signs that a decimal may have, how it is written with one, and what it means.
pub data Sign : Type 0 where
  unsigned plus minus : Sign

abbrev pub written : Sign → List ℕ → List ℕ
written unsigned ds = ds
written plus ds = b'+' ∷ ds
written minus ds = b'-' ∷ ds

abbrev pub in_range : Sign → ℕ → Bool
in_range minus n = leb n cutoff
in_range _ n = ltb n cutoff

abbrev pub value_of : Sign → ℕ → ℤ
value_of minus n = negated n
value_of _ n = pos n

module _ (ds : List ℕ) (numeral : is_numeral ds ≡ true) where
  magnitude-numeral : magnitude ds ≡ some (positional ds)
  magnitude-numeral =
      magnitude-positional ds ∙ ap (λ b. if b then some (positional ds) else none) numeral

  positive-numeral :
      positive_of (magnitude ds)
      ≡ (if ltb (positional ds) cutoff then some (pos (positional ds)) else none)
  positive-numeral = ap positive_of magnitude-numeral

atoi_codes-written :
    (sign : Sign) (ds : List ℕ)
    → is_numeral ds ≡ true
    → let n = positional ds in
      atoi_codes (written sign ds) ≡ (if in_range sign n then some (value_of sign n) else none)
atoi_codes-written plus ds h = positive-numeral ds h
atoi_codes-written minus ds h = ap negative_of (magnitude-numeral ds h)
atoi_codes-written unsigned [] h = ground arith
atoi_codes-written unsigned (c ∷ cs) h =
    let no_minus : (c == b'-') ≡ false = ground arith in
    let no_plus : (c == b'+') ≡ false = ground arith in
    rw (no_minus, no_plus) (positive-numeral (c ∷ cs) h)

magnitude-none : (cs : List ℕ) → is_numeral cs ≡ false → magnitude cs ≡ none
magnitude-none cs h = magnitude-positional cs ∙ ap (λ b. if b then some (positional cs) else none) h

atoi_codes-none :
    (cs : List ℕ)
    → ((sign : Sign) (ds : List ℕ) → cs ≡ written sign ds → is_numeral ds ≡ false)
    → atoi_codes cs ≡ none
atoi_codes-none [] h = refl
atoi_codes-none (c ∷ cs) h = elim (Bool-cases (c == b'-')) [
  | inl dash ↦
      let e : c ≡ b'-' = ground arith in
      rw dash (ap negative_of (magnitude-none cs (h minus cs (ap (λ x. x ∷ cs) e))))
  | inr other ↦ elim (Bool-cases (c == b'+')) [
    | inl cross ↦
        let e : c ≡ b'+' = ground arith in
        rw (other, cross) (ap positive_of (magnitude-none cs (h plus cs (ap (λ x. x ∷ cs) e))))
    | inr bare ↦
        rw (other, bare) (ap positive_of (magnitude-none (c ∷ cs) (h unsigned (c ∷ cs) refl)))
  ]
]

written-nonempty : (sign : Sign) (ds : List ℕ) → is_numeral ds ≡ true → written sign ds ≢ []
written-nonempty plus ds h e = cc
written-nonempty minus ds h e = cc
written-nonempty unsigned [] h e = ground arith
written-nonempty unsigned (c ∷ cs) h e = cc

text-nonempty :
    (text : String) (sign : Sign) (ds : List ℕ)
    → codes text ≡ written sign ds
    → is_numeral ds ≡ true
    → str_eq text "" ≡ false
text-nonempty text sign ds e h = elim (Bool-cases (str_eq text "")) [
  | inl same ↦ absurd (written-nonempty sign ds h (sym e ∙ ap codes ((eq_iff text "").0 same)))
  | inr differs ↦ differs
]

-- getEnvInt gives the number that the variable spells in decimal, with a sign or without, where this
-- fits in 64 bits, and the fallback where it does not fit; it gives the fallback too for every text
-- that spells no number.
pub get_env_int-positional :
    (vars : Variables) (key text : String) (fallback : ℤ)
    → vars key ≡ some text
    → ((sign : Sign) (ds : List ℕ)
        → codes text ≡ written sign ds
        → is_numeral ds ≡ true
        → let n = positional ds in
          get_env_int vars key fallback ≡ (if in_range sign n then value_of sign n else fallback))
      × (((sign : Sign) (ds : List ℕ) → codes text ≡ written sign ds → is_numeral ds ≡ false)
          → get_env_int vars key fallback ≡ fallback)
get_env_int-positional vars key text fallback set = (
  λ sign ds e h.
      ap (read_text fallback) set_text
      ∙ ap (λ b. if b then fallback else or_fallback fallback (atoi text))
          (text-nonempty text sign ds e h)
      ∙ ap (λ cs. or_fallback fallback (atoi_codes cs)) e
      ∙ ap (or_fallback fallback) (atoi_codes-written sign ds h)
      ∙ or_fallback-if fallback (in_range sign (positional ds)) (value_of sign (positional ds)),
  λ h.
      ap (read_text fallback) set_text
      ∙ ap (λ o. if str_eq text "" then fallback else or_fallback fallback o)
          (atoi_codes-none (codes text) h)
      ∙ both fallback (str_eq text ""),
)
  where
    set_text : getenv vars key ≡ text
    set_text = ap (λ o. elim o [ none ↦ "" | some v ↦ v ]) set

    read_text : ℤ → String → ℤ
    read_text fallback t = if str_eq t "" then fallback else or_fallback fallback (atoi t)

    both : (fallback : ℤ) (b : Bool) → (if b then fallback else fallback) ≡ fallback
    both fallback true = refl
    both fallback false = refl

    or_fallback-if :
        (fallback : ℤ) (b : Bool) (z : ℤ)
        → or_fallback fallback (if b then some z else none) ≡ (if b then z else fallback)
    or_fallback-if fallback true z = refl
    or_fallback-if fallback false z = refl
