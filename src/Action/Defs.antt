-- ===== src/Action/Defs.antt =====
-- A method that writes to the stores and may return an error. What was written before an error
-- stays written, so the state comes back beside the error too.
use flutter_whatsapp_clone.Base.{Bool, true, false, Option, none, some}

pub data Result {ℓ κ} (E : Type ℓ) (A : Type κ) : Type (ℓ ⊔ κ) where
  ok : A → Result E A
  err : E → Result E A

abbrev pub is_ok {ℓ κ} : {E : Type ℓ} {A : Type κ} → Result E A → Bool
is_ok (ok a) = true
is_ok (err e) = false

abbrev pub Action : Type 0 → Type 0 → Type 0 → Type 0
Action S E A = S → Result E A × S

module _ {S E A : Type 0} where
  unfoldable pub pure : A → Action S E A
  pure a s = (ok a, s)

  unfoldable pub raise : E → Action S E A
  raise e s = (err e, s)

module _ {S E A B : Type 0} where
  abbrev pub continue : Result E A → (A → Action S E B) → Action S E B
  continue (ok a) f s = f a s
  continue (err e) f s = (err e, s)

  infixl 5 ◌>>=◌
  -- Opening this opens `pure` and `raise` too.
  unfoldable pub ◌>>=◌ : Action S E A → (A → Action S E B) → Action S E B
  unfolding pure raise
  ◌>>=◌ m f s = let (r, s') = m s in continue r f s'

module _ {S E B : Type 0} where
  infixl 5 ◌>>◌
  abbrev pub ◌>>◌ : Action S E (Unit {0}) → Action S E B → Action S E B
  m >> n = m >>= λ _. n

module _ {S E F A : Type 0} where
  -- `if err := m(); err != nil { return handle(err) }`
  unfoldable pub on_error : Action S E A → (E → Action S F A) → Action S F A
  unfolding pure
  on_error m handle s = let (r, s') = m s in elim r [ ok a ↦ (ok a, s') | err e ↦ handle e s' ]

module _ {S E : Type 0} where
  -- An early return of an error unless the test holds.
  unfoldable pub ensure : Bool → E → Action S E (Unit {0})
  unfolding pure raise
  ensure true e = pure tt
  ensure false e = raise e

module _ {S E A : Type 0} where
  unfoldable pub or_fail : Option A → E → Action S E A
  unfolding pure raise
  or_fail none e = raise e
  or_fail (some a) e = pure a
