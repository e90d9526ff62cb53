-- ===== src/Redis.antt =====
-- What internal/otp relies on of Redis: the six commands that it calls, with their documented
-- effect on the entry of a key. Redis itself is a parameter, and a value of this record.
use flutter_whatsapp_clone.Base.{
  ℕ, suc, ◌+◌, String, Bool, true, false, Option, none, some, ◌≡◌, ltb, str_eq, if◌then◌else◌,
}
use flutter_whatsapp_clone.Models.{Time}

pub data Value : Type 0 where
  text : String → Value
  number : ℕ → Value

-- A stored value, and the time from which it is gone; `none` stays for ever.
pub record Entry : Type 0 where
  pub value : Value
  pub deadline : Option Time

abbrev pub has_expired : Time → Option Time → Bool
has_expired now none = false
has_expired now (some d) = if ltb now d then false else true

-- An entry past its deadline is as good as none.
abbrev pub live : Time → Option Entry → Option Entry
live now none = none
live now (some e) = if has_expired now e.deadline then none else some e

abbrev pub value_of : Option Entry → Option Value
value_of none = none
value_of (some e) = some e.value

-- INCR: the new number, and the entry that holds it. A text is refused.
abbrev pub incremented : Option Entry → Option (ℕ × Entry)
incremented none = some (1, record { value = number 1; deadline = none })
incremented (some e) = elim e.value [
  | text s ↦ none
  | number n ↦ some (suc n, record { value = number (suc n); deadline = e.deadline })
]

abbrev pub renewed : Time → Option Entry → Option Entry
renewed d none = none
renewed d (some e) = some (record e { deadline = some d })

abbrev pub fresh : String → Time → Option Entry
fresh v d = some (record { value = text v; deadline = some d })

abbrev pub is_some {ℓ} : {A : Type ℓ} → Option A → Bool
is_some none = false
is_some (some a) = true

pub record Redis : Type 1 where
  pub State : Type 0
  -- What is stored under a key.
  pub entry : State → String → Option Entry
  -- GET, SET with a time to live, SET NX, DEL, INCR and EXPIRE, at a time of the server.
  pub get : Time → String → State → Option Value
  pub set : Time → String → String → Time → State → State
  pub set_nx : Time → String → String → Time → State → Bool × State
  pub del : String → State → State
  pub incr : Time → String → State → Option ℕ × State
  pub expire : Time → String → Time → State → State
  pub get_lem :
      (now : Time) (k : String) (s : State) → get now k s ≡ value_of (live now (entry s k))
  pub set_lem :
      (now : Time) (k v : String) (ttl : Time) (s : State) (j : String)
      → entry (set now k v ttl s) j ≡ (if str_eq k j then fresh v (now + ttl) else entry s j)
  pub set_nx_lem :
      (now : Time) (k v : String) (ttl : Time) (s : State)
      → set_nx now k v ttl s
        ≡ (if is_some (live now (entry s k)) then (false, s) else (true, set now k v ttl s))
  pub del_lem :
      (k : String) (s : State) (j : String)
      → entry (del k s) j ≡ (if str_eq k j then none else entry s j)
  pub incr_result :
      (now : Time) (k : String) (s : State)
      → (incr now k s).0
        ≡ elim (incremented (live now (entry s k))) [ none ↦ none | some (n, e) ↦ some n ]
  pub incr_entry :
      (now : Time) (k : String) (s : State) (j : String)
      → entry (incr now k s).1 j ≡ (
          if str_eq k j
          then elim (incremented (live now (entry s k))) [ none ↦ entry s j | some (n, e) ↦ some e ]
          else entry s j)
  pub expire_lem :
      (now : Time) (k : String) (ttl : Time) (s : State) (j : String)
      → entry (expire now k ttl s) j
        ≡ (if str_eq k j then renewed (now + ttl) (live now (entry s k)) else entry s j)
