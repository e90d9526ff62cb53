-- ===== src/Action/Rules.antt =====
-- Reasoning about a block one line at a time, and about what every line of it keeps.
use flutter_whatsapp_clone.Base.{◌≡◌, refl, ◌⊎◌, inl, inr, true, Bool, Option, some, arith}
use flutter_whatsapp_clone.Action.Defs.{
  Result, ok, err, is_ok, Action, continue, ◌>>=◌, on_error, or_fail, ensure,
}

module _ {S E A B : Type 0} where
  -- The two ways in which the first line of a block ends.
  pub bind_cases {ℓ} :
      (P : Result E B × S → Type ℓ) (m : Action S E A) (f : A → Action S E B) (s : S)
      → ((a : A) (s' : S) → m s ≡ (ok a, s') → P (f a s'))
      → ((e : E) (s' : S) → m s ≡ (err e, s') → P (err e, s'))
      → P ((m >>= f) s)
  unfolding ◌>>=◌
  bind_cases P m f s on_ok on_err = go (m s).0 (m s).1 refl
    where
      go : (r : Result E A) (s' : S) → m s ≡ (r, s') → P (continue r f s')
      go (ok a) s' e = on_ok a s' e
      go (err x) s' e = on_err x s' e

module _ {S E F A : Type 0} where
  -- The two ways in which an action whose error is handled ends.
  pub on_error_cases {ℓ} :
      (P : Result F A × S → Type ℓ) (m : Action S E A) (handle : E → Action S F A) (s : S)
      → ((a : A) (s' : S) → m s ≡ (ok a, s') → P (ok a, s'))
      → ((e : E) (s' : S) → m s ≡ (err e, s') → P (handle e s'))
      → P (on_error m handle s)
  unfolding on_error
  on_error_cases P m handle s on_ok on_err = go (m s).0 (m s).1 refl
    where
      go :
          (r : Result E A) (s' : S)
          → m s ≡ (r, s')
          → P (elim r [ ok a ↦ (ok a, s') | err e ↦ handle e s' ])
      go (ok a) s' e = on_ok a s' e
      go (err x) s' e = on_err x s' e

module _ {S E A B : Type 0} where
  -- The rest of a block, once its first line has succeeded.
  pub bind_done :
      (m : Action S E A) (f : A → Action S E B) (s s₁ : S) (a : A)
      → m s ≡ (ok a, s₁)
      → (m >>= f) s ≡ f a s₁
  unfolding ◌>>=◌
  bind_done m f s s₁ a h = rw h refl

  -- A block that succeeds: its first line has, and so has the rest.
  pub bind_ok :
      (m : Action S E A) (f : A → Action S E B) (s s' : S) (b : B)
      → (m >>= f) s ≡ (ok b, s')
      → (a : A) × (s₁ : S) × (m s ≡ (ok a, s₁)) × (f a s₁ ≡ (ok b, s'))
  bind_ok m f s s' b h =
      bind_cases
        (λ out. out ≡ (ok b, s') → (a : A) × (s₁ : S) × (m s ≡ (ok a, s₁)) × (f a s₁ ≡ (ok b, s')))
        m f s (λ a s₁ e h. (a, s₁, e, h)) (λ e s₁ _ h. cc) h

  -- A block that fails: its first line has, or the rest.
  pub bind_err :
      (m : Action S E A) (f : A → Action S E B) (s s' : S) (x : E)
      → (m >>= f) s ≡ (err x, s')
      → (m s ≡ (err x, s')) ⊎ ((a : A) × (s₁ : S) × (m s ≡ (ok a, s₁)) × (f a s₁ ≡ (err x, s')))
  bind_err m f s s' x h =
      bind_cases
        (λ out.
          out ≡ (err x, s')
          → (m s ≡ (err x, s'))
            ⊎ ((a : A) × (s₁ : S) × (m s ≡ (ok a, s₁)) × (f a s₁ ≡ (err x, s'))))
        m f s (λ a s₁ e h. inr (a, s₁, e, h)) (λ e s₁ q h. inl (failed e s₁ q h)) h
    where
      failed :
          (e : E) (s₁ : S)
          → m s ≡ (err e, s₁)
          → ◌≡◌ {A = Result E B × S} (err e, s₁) (err x, s')
          → m s ≡ (err x, s')
      failed e s₁ q h =
          let same : e ≡ x = cc in let s_same : s₁ ≡ s' = cc in rw (← same, ← s_same) q

module _ {S E A : Type 0} where
  -- A result of either kind, with the state beside it.
  pub is_ok_cases :
      (m : Action S E A) (s : S) → is_ok (m s).0 ≡ true → (a : A) × (m s ≡ (ok a, (m s).1))
  is_ok_cases m s h = go (m s).0 (m s).1 h
    where
      go :
          (r : Result E A) (s' : S)
          → is_ok r ≡ true
          → (a : A) × (◌≡◌ {A = Result E A × S} (r, s') (ok a, s'))
      go (ok a) s' h = (a, refl)
      go (err x) s' h = cc

  pub or_fail_ok :
      (o : Option A) (e : E) (s s' : S) (a : A)
      → or_fail o e s ≡ (ok a, s')
      → (o ≡ some a) × (s' ≡ s)
  unfolding or_fail
  or_fail_ok o e s s' a h = ground arith

  pub or_fail_err :
      (o : Option A) (e x : E) (s s' : S) → or_fail o e s ≡ (err x, s') → (x ≡ e) × (s' ≡ s)
  unfolding or_fail
  or_fail_err o e x s s' h = ground arith

module _ {S E : Type 0} where
  pub ensure_ok :
      (b : Bool) (e : E) (s s' : S) (u : Unit {0})
      → ensure b e s ≡ (ok u, s')
      → (b ≡ true) × (s' ≡ s)
  unfolding ensure
  ensure_ok b e s s' u h = ground arith

  pub ensure_err : (b : Bool) (e x : E) (s s' : S) → ensure b e s ≡ (err x, s') → (x ≡ e) × (s' ≡ s)
  unfolding ensure
  ensure_err b e x s s' h = ground arith
