-- ===== src/Keys/Base64/Agreement.antt =====
-- encoding/base64 in decodeBase64Flexible: the four encodings read no text differently.
use flutter_whatsapp_clone.Base.{
  ℕ, Bool, true, false, ◌||◌, Option, none, some, List, [], ◌∷◌, ◌++◌, String, ◌==◌, ◌≡◌, ◌↔◌, ◌⊎◌,
  refl, sym, ap, ◌∙◌, subst, arith, Bool-cases, inl, inr,
}
use flutter_whatsapp_clone.Keys.Base64.{
  Pending, none_read, one, two, three, Encoding, std, raw_std, url, raw_url, codes, digit,
  std_digit, url_digit, digit_of, is_padded, is_newline, pad_char, at_end, at_pad, emit, next,
  on_char, decode_from, decode_string, or_else, decode_base64_flexible, byte0, byte1, byte2,
}

emit-some :
    (bytes : List ℕ) (o : Option (List ℕ)) (x : List ℕ)
    → emit bytes o ≡ some x
    → (rest : List ℕ) × (o ≡ some rest) × (x ≡ bytes ++ rest)
emit-some bytes none x h = cc
emit-some bytes (some rest) x h = (rest, refl, ground arith)

same_some : (x y : List ℕ) (o : Option (List ℕ)) → o ≡ some x → o ≡ some y → x ≡ y
same_some x y o h k = ground arith

-- What two readers of the rest of a text must agree on.
abbrev Agree : (Pending → Option (List ℕ)) → (Pending → Option (List ℕ)) → Type 0
Agree r s = (p : Pending) (x y : List ℕ) → r p ≡ some x → s p ≡ some y → x ≡ y

next-Agree :
    (p : Pending) (d : ℕ) (r s : Pending → Option (List ℕ)) (x y : List ℕ)
    → Agree r s
    → next p d r ≡ some x
    → next p d s ≡ some y
    → x ≡ y
next-Agree none_read d r s x y a h k = a (one d) x y h k
next-Agree (one i) d r s x y a h k = a (two i d) x y h k
next-Agree (two i j) d r s x y a h k = a (three i j d) x y h k
next-Agree (three i j l) d r s x y a h k =
    let (u, hu, xu) = emit-some (byte0 i j ∷ byte1 j l ∷ byte2 l d ∷ []) (r none_read) x h in
    let (v, hv, yv) = emit-some (byte0 i j ∷ byte1 j l ∷ byte2 l d ∷ []) (s none_read) y k in
    xu ∙ ap (λ z. (byte0 i j ∷ byte1 j l ∷ byte2 l d ∷ []) ++ z) (a none_read u v hu hv) ∙ sym yv

at_end_agree :
    (b c : Bool) (p : Pending) (x y : List ℕ) → at_end b p ≡ some x → at_end c p ≡ some y → x ≡ y
at_end_agree b c none_read x y h k = same_some x y (some []) h k
at_end_agree true c (one i) x y h k = cc
at_end_agree true c (two i j) x y h k = cc
at_end_agree true c (three i j l) x y h k = cc
at_end_agree false true (one i) x y h k = cc
at_end_agree false true (two i j) x y h k = cc
at_end_agree false true (three i j l) x y h k = cc
at_end_agree false false (one i) x y h k = cc
at_end_agree false false (two i j) x y h k = ground arith
at_end_agree false false (three i j l) x y h k = ground arith

-- No digit is a line break or the sign of padding.
abbrev IsClean : (ℕ → Option ℕ) → Type 0
IsClean dig = (c d : ℕ) → dig c ≡ some d → (is_newline c || c == pad_char) ≡ false

on_char-none :
    (b : Bool) (c : ℕ) (p : Pending) (cs : List ℕ) (r : Pending → Option (List ℕ)) (x : List ℕ)
    → (is_newline c || c == pad_char) ≡ false
    → on_char b none c p cs r ≡ some x
    → ⊥
on_char-none b c p cs r x clean h = ground arith

on_char-Agree :
    (b b' : Bool) (o o' : Option ℕ) (c : ℕ) (p : Pending) (cs : List ℕ)
    (r s : Pending → Option (List ℕ)) (x y : List ℕ)
    → Agree r s
    → ((d d' : ℕ) → o ≡ some d → o' ≡ some d' → d ≡ d')
    → ((d : ℕ) → o ≡ some d → (is_newline c || c == pad_char) ≡ false)
    → ((d : ℕ) → o' ≡ some d → (is_newline c || c == pad_char) ≡ false)
    → on_char b o c p cs r ≡ some x
    → on_char b' o' c p cs s ≡ some y
    → x ≡ y
on_char-Agree b b' (some d) (some d') c p cs r s x y a same k k' h h' =
    next-Agree p d r s x y a h (subst (λ e. next p e s ≡ some y) (sym (same d d' refl refl)) h')
on_char-Agree b b' (some d) none c p cs r s x y a same k k' h h' =
    absurd (on_char-none b' c p cs s y (k d refl) h')
on_char-Agree b b' none (some d) c p cs r s x y a same k k' h h' =
    absurd (on_char-none b c p cs r x (k' d refl) h)
on_char-Agree b b' none none c p cs r s x y a same k k' h h' = elim (Bool-cases (is_newline c)) [
  | inl line ↦ a p x y (ground arith) (ground arith)
  | inr other ↦ same_some x y (at_pad p cs) (ground arith) (ground arith)
]

decode_from-Agree :
    (dig dig' : ℕ → Option ℕ) (b b' : Bool)
    → ((c d d' : ℕ) → dig c ≡ some d → dig' c ≡ some d' → d ≡ d')
    → IsClean dig
    → IsClean dig'
    → (cs : List ℕ) → Agree (decode_from dig b cs) (decode_from dig' b' cs)
unfolding decode_from
decode_from-Agree dig dig' b b' same k k' [] p x y h h' = at_end_agree b b' p x y h h'
decode_from-Agree dig dig' b b' same k k' (c ∷ cs) p x y h h' =
    on_char-Agree b b' (dig c) (dig' c) c p cs (decode_from dig b cs) (decode_from dig' b' cs) x y
      (decode_from-Agree dig dig' b b' same k k' cs) (same c) (k c) (k' c) h h'

std-url_digit : (c d d' : ℕ) → std_digit c ≡ some d → url_digit c ≡ some d' → d ≡ d'
unfolding digit
std-url_digit c d d' h k = ground arith

one_digit : (o : Option ℕ) (d d' : ℕ) → o ≡ some d → o ≡ some d' → d ≡ d'
one_digit o d d' h k = ground arith

digits_agree :
    (e f : Encoding) (c d d' : ℕ) → digit_of e c ≡ some d → digit_of f c ≡ some d' → d ≡ d'
digits_agree e f c d d' = elim (kind_of e) [
  | inl p ↦ elim (kind_of f) [
    | inl q ↦
        λ h k. one_digit (std_digit c) d d' (ap (λ z. z c) (sym p) ∙ h) (ap (λ z. z c) (sym q) ∙ k)
    | inr q ↦ λ h k. std-url_digit c d d' (ap (λ z. z c) (sym p) ∙ h) (ap (λ z. z c) (sym q) ∙ k)
  ]
  | inr p ↦ elim (kind_of f) [
    | inl q ↦
        λ h k. sym (std-url_digit c d' d (ap (λ z. z c) (sym q) ∙ k) (ap (λ z. z c) (sym p) ∙ h))
    | inr q ↦
        λ h k. one_digit (url_digit c) d d' (ap (λ z. z c) (sym p) ∙ h) (ap (λ z. z c) (sym q) ∙ k)
  ]
]
  where
    kind_of : (e : Encoding) → (digit_of e ≡ std_digit) ⊎ (digit_of e ≡ url_digit)
    kind_of std = inl refl
    kind_of raw_std = inl refl
    kind_of url = inr refl
    kind_of raw_url = inr refl

std_digit-IsClean : IsClean std_digit
unfolding digit
std_digit-IsClean c d h = ground arith

url_digit-IsClean : IsClean url_digit
unfolding digit
url_digit-IsClean c d h = ground arith

digit_of-IsClean : (e : Encoding) → IsClean (digit_of e)
digit_of-IsClean std = std_digit-IsClean
digit_of-IsClean raw_std = std_digit-IsClean
digit_of-IsClean url = url_digit-IsClean
digit_of-IsClean raw_url = url_digit-IsClean

-- No two of the encodings decode a text to different bytes.
decode_string_agree :
    (e f : Encoding) (cs x y : List ℕ)
    → decode_string e cs ≡ some x
    → decode_string f cs ≡ some y
    → x ≡ y
unfolding decode_string
decode_string_agree e f cs x y h k =
    decode_from-Agree (digit_of e) (digit_of f) (is_padded e) (is_padded f) (digits_agree e f)
      (digit_of-IsClean e) (digit_of-IsClean f) cs none_read x y h k

first_attempt :
    (f : Encoding → Option (List ℕ)) (bytes : List ℕ) (e : Encoding)
    → f e ≡ some bytes
    → ((e' : Encoding) (x : List ℕ) → f e' ≡ some x → x ≡ bytes)
    → or_else (f std) (or_else (f raw_std) (or_else (f url) (f raw_url))) ≡ some bytes
first_attempt f bytes e h only = go (f std) (f raw_std) (f url) (f raw_url) refl refl refl refl
  where
    none_left :
        (e : Encoding)
        → f std ≡ none
        → f raw_std ≡ none
        → f url ≡ none
        → f raw_url ≡ none
        → f e ≡ some bytes
        → ⊥
    none_left std p q r t h = cc
    none_left raw_std p q r t h = cc
    none_left url p q r t h = cc
    none_left raw_url p q r t h = cc

    go :
        (a b c d : Option (List ℕ))
        → f std ≡ a
        → f raw_std ≡ b
        → f url ≡ c
        → f raw_url ≡ d
        → or_else a (or_else b (or_else c d)) ≡ some bytes
    go (some x) b c d p q r t = ap some (only std x p)
    go none (some x) c d p q r t = ap some (only raw_std x q)
    go none none (some x) d p q r t = ap some (only url x r)
    go none none none (some x) p q r t = ap some (only raw_url x t)
    go none none none none p q r t = absurd (none_left e p q r t h)

-- decodeBase64Flexible decodes a text to the bytes that any of the four encodings decodes it to: the
-- order in which the encodings are tried does not matter, and a text fails only if it fails in all.
pub decode_base64_flexible-decode_string :
    (s : String) (bytes : List ℕ)
    → (decode_base64_flexible s ≡ some bytes)
      ↔ ((e : Encoding) × (decode_string e (codes s) ≡ some bytes))
unfolding decode_base64_flexible
decode_base64_flexible-decode_string s bytes = (
  by_case (decode_string std (codes s)) (decode_string raw_std (codes s))
      (decode_string url (codes s)) (decode_string raw_url (codes s)) refl refl refl refl,
  λ (e, h).
      first_attempt (λ f. decode_string f (codes s)) bytes e h
        (λ f x k. decode_string_agree f e (codes s) x bytes k h),
)
  where
    by_case :
        (a b c d : Option (List ℕ))
        → decode_string std (codes s) ≡ a
        → decode_string raw_std (codes s) ≡ b
        → decode_string url (codes s) ≡ c
        → decode_string raw_url (codes s) ≡ d
        → or_else a (or_else b (or_else c d)) ≡ some bytes
        → (e : Encoding) × (decode_string e (codes s) ≡ some bytes)
    by_case (some x) b c d p q r t h = (std, p ∙ h)
    by_case none (some x) c d p q r t h = (raw_std, q ∙ h)
    by_case none none (some x) d p q r t h = (url, r ∙ h)
    by_case none none none d p q r t h = (raw_url, t ∙ h)
