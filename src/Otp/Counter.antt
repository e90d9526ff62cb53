-- ===== src/Otp/Counter.antt =====
-- internal/otp/service.go: the counter of attempts, next to the code that it protects.
use flutter_whatsapp_clone.Base.{
  ℕ, suc, ◌≤◌, ltb, Option, none, some, ◌≡◌, refl, ◌⊎◌, inl, inr, arith, Bool-cases,
}
use flutter_whatsapp_clone.Models.{Time}
use flutter_whatsapp_clone.Redis.{Value, text, number, Entry, live, incremented, renewed}

-- A counter of at least n, whatever else the key holds.
abbrev pub AtLeast : ℕ → Value → Type 0
AtLeast n (text s) = Unit {0}
AtLeast n (number m) = n ≤ m

abbrev pub Lasts : Time → Option Time → Type 0
Lasts t none = Unit {0}
Lasts t (some d) = t ≤ d

-- An entry that counts at least n until the time t.
abbrev pub Counts : Time → ℕ → Option Entry → Type 0
Counts t n none = n ≡ 0
Counts t n (some e) = AtLeast n e.value × Lasts t e.deadline

-- A code that is gone from the time t.
abbrev pub Ends : Time → Option Entry → Type 0
Ends t none = Unit {0}
Ends t (some e) = e.deadline ≡ some t

pub Ends-live : (t now : Time) (o : Option Entry) → Ends t o → t ≤ now → live now o ≡ none
Ends-live t now none h k = refl
Ends-live t now (some e) h k = rw h (ground arith)

AtLeast-fewer : (n : ℕ) (v : Value) → AtLeast (suc n) v → AtLeast n v
AtLeast-fewer n (text s) h = tt
AtLeast-fewer n (number m) h = omega (arith, h)

pub Counts-fewer : (t : Time) (n : ℕ) (o : Option Entry) → Counts t (suc n) o → Counts t n o
Counts-fewer t n none h = ground arith
Counts-fewer t n (some e) (a, l) = (AtLeast-fewer n e.value a, l)

-- INCR: it counts one more, and the number that it gives is as large, unless the time has come.
abbrev pub number_of : Option (ℕ × Entry) → Option ℕ
number_of none = none
number_of (some (n, e)) = some n

abbrev pub entry_of : Option Entry → Option (ℕ × Entry) → Option Entry
entry_of old none = old
entry_of old (some (n, e)) = some e

abbrev Grown : Time → ℕ → Option Entry → Option Entry → Type 0
Grown t n old o =
    Counts t n (entry_of old (incremented o))
    × ((m : ℕ)
        → number_of (incremented o) ≡ some m
        → (suc n ≤ m) × Counts t (suc n) (entry_of old (incremented o)))

value-Grown :
    (t : Time) (n : ℕ) (old : Option Entry) (v : Value) (d : Option Time)
    → Counts t n old
    → AtLeast n v × Lasts t d
    → Grown t n old (some (record { value = v; deadline = d }))
value-Grown t n old (text s) d h k = (h, λ m e. ground arith)
value-Grown t n old (number i) d h (a, l) =
    ((ground arith, l), λ m e. (ground arith, (ground arith, l)))

pub incremented-Grown :
    (t : Time) (n : ℕ) (old o : Option Entry) → Counts t n old → Counts t n o → Grown t n old o
incremented-Grown t n old none h k = ((ground arith, tt), λ m e. (ground arith, (ground arith, tt)))
incremented-Grown t n old (some e) h k = value-Grown t n old e.value e.deadline h k

deadline-live :
    (t now : Time) (n : ℕ) (v : Value) (d : Option Time)
    → AtLeast n v × Lasts t d
    → (t ≤ now) ⊎ Counts t n (live now (some (record { value = v; deadline = d })))
deadline-live t now n v none h = inr h
deadline-live t now n v (some d) (a, l) = elim (Bool-cases (ltb now d)) [
  | inl before ↦ inr (rw before (a, l))
  | inr past ↦ inl (ground arith)
]

pub Counts-live :
    (t now : Time) (n : ℕ) (o : Option Entry) → Counts t n o → (t ≤ now) ⊎ Counts t n (live now o)
Counts-live t now n none h = inr h
Counts-live t now n (some e) h = deadline-live t now n e.value e.deadline h

pub Counts-renewed :
    (t d : Time) (n : ℕ) (o : Option Entry) → t ≤ d → Counts t n o → Counts t n (renewed d o)
Counts-renewed t d n none h k = k
Counts-renewed t d n (some e) h (a, l) = (a, h)
