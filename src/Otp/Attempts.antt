-- ===== src/Otp/Attempts.antt =====
-- internal/otp/service.go: how many submitted codes Verify compares with one stored code.
use flutter_whatsapp_clone.Base.{
  ℕ, suc, ◌+◌, ◌≤◌, ◌<◌, ltb, true, false, not, Bool, String, List, [], ◌∷◌, Option, ◌≡◌, refl, sym,
  ap, subst, ◌⊎◌, inl, inr, if◌then◌else◌, arith,
}
use flutter_whatsapp_clone.Models.{Time}
use flutter_whatsapp_clone.Crypto.{Crypto}
use flutter_whatsapp_clone.Action.{Result, ok, err, or_fail, ensure, ◌>>=◌, ◌>>◌}
use flutter_whatsapp_clone.Action.Rules.{bind_cases, or_fail_ok, ensure_ok, ensure_err, or_fail_err}
use flutter_whatsapp_clone.Redis.{Value}
use flutter_whatsapp_clone.Store.{Env, World, command, ignored}
use flutter_whatsapp_clone.Otp.{
  holds_hash, Error, internal, too_many_attempts, expired, invalid_code, ttl, max_attempts,
  code_key, attempts_key, count_attempt, start_expiry, verify,
}
use flutter_whatsapp_clone.Otp.Guarded.{
  IsMonotone, Spent, Guarded, Guarded-fewer, Guarded-same, count-Guarded, counted-Guarded,
  expiry-Guarded,
}
use flutter_whatsapp_clone.Otp.Reply.{get-Guarded, del-Guarded}
use flutter_whatsapp_clone.Otp.Effects.{get_same, count_error, expiry_total, get_error}

-- Whether the submitted code was compared with the stored one.
abbrev pub is_compared : Result Error (Unit {0}) → Bool
is_compared (ok u) = true
is_compared (err Error.invalid_code) = true
is_compared (err e) = false

module _ (env : Env) (crypto : Crypto) (identifier : String) where
  -- The calls one after the other, with the texts submitted: how many were compared.
  abbrev pub compare_all : List String → World env → ℕ
  compare_all [] w = 0
  compare_all (submitted ∷ rest) w =
      let (r, w') = verify env crypto identifier submitted w in
      (if is_compared r then 1 else 0) + compare_all rest w'

module _ (env : Env) (crypto : Crypto) (identifier : String) (t : Time) (monotone : IsMonotone env)
    (start : World env) (soon : t ≤ env.now start.tick + ttl) where
  -- What is left of a call: one more is counted where it compared.
  abbrev Left : ℕ → Result Error (Unit {0}) × World env → Type 0
  Left n out =
      Guarded env crypto identifier t (if is_compared out.0 then suc n else n) start out.1
      × (is_compared out.0 ≡ true → n < max_attempts)

  uncompared :
      (n : ℕ) (x : Error) (w : World env)
      → is_compared (err x) ≡ false
      → Guarded env crypto identifier t n start w
      → Left n (err x, w)
  uncompared n x w h g = (rw h g, λ c. cc)

  compared :
      (n : ℕ) (r : Result Error (Unit {0})) (w : World env)
      → is_compared r ≡ true
      → Guarded env crypto identifier t (suc n) start w
      → n < max_attempts
      → Left n (r, w)
  compared n r w h g limit = (rw h g, λ c. limit)

  -- Verify from the comparison on, from GET on, and from the limit on for the attempt counted as m.
  abbrev from_stored : String → Value → World env → Result Error (Unit {0}) × World env
  from_stored submitted stored = do
    ensure (holds_hash (crypto.sha256_hex submitted) stored) invalid_code
    ignored {E = Error} (
        command
          (λ now s.
            (tt, env.redis.del (attempts_key identifier) (env.redis.del (code_key identifier) s)))
          internal)

  abbrev from_get : String → World env → Result Error (Unit {0}) × World env
  from_get submitted = do
    found ← command (λ now s. (env.redis.get now (code_key identifier) s, s)) internal
    stored ← or_fail found expired
    from_stored submitted stored

  abbrev from_limit : String → ℕ → World env → Result Error (Unit {0}) × World env
  from_limit submitted m = do
    ensure (not (ltb max_attempts m)) too_many_attempts
    from_get submitted

  abbrev from_expiry : String → ℕ → World env → Result Error (Unit {0}) × World env
  from_expiry submitted m = do start_expiry env crypto identifier m; from_limit submitted m

  stored-Left :
      (n : ℕ) (submitted : String) (stored : Value) (w : World env)
      → Guarded env crypto identifier t (suc n) start w
      → n < max_attempts
      → Left n (from_stored submitted stored w)
  unfolding ignored
  stored-Left n submitted stored w g limit =
      bind_cases (Left n) _ _ w
        (λ v w₁ e₁.
          let (hit, same) = ensure_ok _ _ w w₁ v e₁ in
          (
            del-Guarded monotone soon (suc n) w₁
                (subst (Guarded env crypto identifier t (suc n) start) (sym same) g),
            λ c. limit,
          ))
        (λ x w₁ e₁.
          let (miss, same) = ensure_err _ _ x w w₁ e₁ in
          compared n (err x) w₁ (ap (λ y. is_compared (err y)) miss)
            (subst (Guarded env crypto identifier t (suc n) start) (sym same) g) limit)

  get-Left :
      (n m : ℕ) (submitted : String) (w : World env)
      → Guarded env crypto identifier t (suc n) start w
      → Spent env crypto identifier t w ⊎ (suc n ≤ m)
      → (suc n ≤ m → n < max_attempts)
      → Left n (from_get submitted w)
  get-Left n m submitted w g s within =
      bind_cases (Left n) _ _ w
        (λ found w₁ e₁.
          let g₁ = after (ok found) w₁ e₁ in
          bind_cases (Left n) _ _ w₁
            (λ stored w₂ e₂.
              let (f, same) = or_fail_ok _ _ w₁ w₂ stored e₂ in
              let counted = get-Guarded monotone soon (suc n) m w w₁ found stored g s e₁ f in
              stored-Left n submitted stored w₂
                (subst (Guarded env crypto identifier t (suc n) start) (sym same) g₁)
                (within counted))
            (λ x w₂ e₂.
              let (gone, same) = or_fail_err _ _ x w₁ w₂ e₂ in
              uncompared n x w₂ (ap (λ y. is_compared (err y)) gone) (
                Guarded-fewer monotone soon n w₂
                  (subst (Guarded env crypto identifier t (suc n) start) (sym same) g₁))))
        (λ x w₁ e₁.
          uncompared n x w₁
            (ap (λ y. is_compared (err y)) (get_error env crypto identifier w w₁ x e₁))
            (Guarded-fewer monotone soon n w₁ (after (err x) w₁ e₁)))
    where
      after :
          (r : Result Error (Option Value)) (w₁ : World env)
          → command {env = env} (λ now s. (env.redis.get now (code_key identifier) s, s)) internal w
            ≡ (r, w₁)
          → Guarded env crypto identifier t (suc n) start w₁
      after r w₁ e =
          let (le, same) = get_same env crypto identifier w in
          subst (λ out. Guarded env crypto identifier t (suc n) start out.1) e
            (Guarded-same monotone soon (suc n) w _ g le same)

  limit-Left :
      (n m : ℕ) (submitted : String) (w : World env)
      → Guarded env crypto identifier t (suc n) start w
      → Spent env crypto identifier t w ⊎ (suc n ≤ m)
      → Left n (from_limit submitted m w)
  limit-Left n m submitted w g s =
      bind_cases (Left n) _ (λ u. from_get submitted) w
        (λ u w₁ e₁.
          let (under, same) = ensure_ok _ _ w w₁ u e₁ in
          get-Left n m submitted w₁
            (subst (Guarded env crypto identifier t (suc n) start) (sym same) g)
            (subst (λ v. Spent env crypto identifier t v ⊎ (suc n ≤ m)) (sym same) s)
            (λ le. ground arith))
        (λ x w₁ e₁.
          let (over, same) = ensure_err _ _ x w w₁ e₁ in
          uncompared n x w₁ (ap (λ y. is_compared (err y)) over) (
            Guarded-fewer monotone soon n w₁
              (subst (Guarded env crypto identifier t (suc n) start) (sym same) g)))

  -- A call of Verify: INCR, EXPIRE, the limit, GET, the comparison, DEL.
  verify-Left :
      (n : ℕ) (submitted : String) (w : World env)
      → Guarded env crypto identifier t n start w
      → Left n (verify env crypto identifier submitted w)
  unfolding verify
  verify-Left n submitted w g =
      bind_cases P (count_attempt env crypto identifier) (λ m. from_expiry submitted m) w
        (λ m w₁ e₁.
          let (g₁, s₁) = counted-Guarded monotone soon n m w w₁ g e₁ in
          bind_cases P (start_expiry env crypto identifier m) (λ u. from_limit submitted m) w₁
            (λ u w₂ e₂.
              let (kept, passed) = expiry-Guarded monotone soon (suc n) m w₁ g₁ in
              let g₂ : Guarded env crypto identifier t (suc n) start w₂ =
                subst (λ out. Guarded env crypto identifier t (suc n) start out.1) e₂ kept in
              let s₂ : Spent env crypto identifier t w₂ ⊎ (suc n ≤ m) = elim s₁ [
                | inl s ↦ inl (subst (λ out. Spent env crypto identifier t out.1) e₂ (passed s))
                | inr le ↦ inr le
              ] in
              limit-Left n m submitted w₂ g₂ s₂)
            (λ x w₂ e₂. absurd (expiry_total env crypto identifier m w₁ w₂ x e₂)))
        (λ x w₁ e₁.
          uncompared n x w₁
            (ap (λ y. is_compared (err y)) (count_error env crypto identifier w w₁ x e₁))
            (subst (λ out. Guarded env crypto identifier t n start out.1) e₁
              (count-Guarded monotone soon n w g)))
    where
      P : Result Error (Unit {0}) × World env → Type 0
      P out = Left n out

  pub compare_all-Guarded :
      (n : ℕ) (texts : List String) (w : World env)
      → n ≤ max_attempts
      → Guarded env crypto identifier t n start w
      → compare_all env crypto identifier texts w + n ≤ max_attempts
  compare_all-Guarded n [] w le g = omega (arith, le)
  compare_all-Guarded n (text ∷ texts) w le g =
      let out = verify env crypto identifier text w in
      let (kept, limit) = verify-Left n text w g in
      more (is_compared out.0) (compare_all env crypto identifier texts out.1) (
        compare_all-Guarded (if is_compared out.0 then suc n else n) texts out.1
          (bound (is_compared out.0) limit) kept)
    where
      bound : (b : Bool) → (b ≡ true → n < max_attempts) → (if b then suc n else n) ≤ max_attempts
      bound true h = let l = h refl in omega (arith, l)
      bound false h = le

      more :
          (b : Bool) (k : ℕ)
          → k + (if b then suc n else n) ≤ max_attempts
          → (if b then 1 else 0) + k + n ≤ max_attempts
      more true k h = omega (arith, h)
      more false k h = omega (arith, h)
