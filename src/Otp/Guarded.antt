-- ===== src/Otp/Guarded.antt =====
-- internal/otp/service.go: what each command of Verify does to a counter that guards a code.
use flutter_whatsapp_clone.Base.{
  ℕ, suc, ◌+◌, ◌≤◌, String, none, ◌≡◌, sym, ap, ◌∙◌, subst, ◌⊎◌, inl, inr, arith,
}
use flutter_whatsapp_clone.Models.{Time}
use flutter_whatsapp_clone.Crypto.{Crypto}
use flutter_whatsapp_clone.Action.{ok}
use flutter_whatsapp_clone.Redis.{live, incremented}
use flutter_whatsapp_clone.Store.{Env, World}
use flutter_whatsapp_clone.Otp.{ttl, code_key, attempts_key, count_attempt, start_expiry}
use flutter_whatsapp_clone.Otp.Guard.{count_keeps_code, count_attempt_ok}
use flutter_whatsapp_clone.Otp.Counter.{
  Counts, Ends, Counts-fewer, Counts-live, Counts-renewed, incremented-Grown, entry_of,
}
use flutter_whatsapp_clone.Otp.Effects.{
  counter, stored_code, expiry_cases, counter-incr, counter-expire, code-expire, count_cases,
  counted_number,
}

-- A clock that does not go back, as that of the Redis server.
abbrev pub IsMonotone : Env → Type 0
IsMonotone env = (m n : ℕ) → m ≤ n → env.now m ≤ env.now n

module _ {env : Env} (monotone : IsMonotone env) (t : Time) where
  still : (w w' : World env) → w.tick ≤ w'.tick → t ≤ env.now w.tick → t ≤ env.now w'.tick
  still w w' le h = let m = monotone w.tick w'.tick le in omega (arith, m, h)

module _ (env : Env) (crypto : Crypto) (identifier : String) (t : Time) where
  -- The stored code serves no more.
  abbrev pub Spent : World env → Type 0
  Spent w = (t ≤ env.now w.tick) ⊎ (stored_code env crypto identifier w ≡ none)

  -- A code that goes at the time t, and n comparisons counted until then.
  pub record Guarded (n : ℕ) (start w : World env) : Type 0 where
    pub ends : Ends t (stored_code env crypto identifier w)
    pub later : start.tick ≤ w.tick
    pub counts : Spent w ⊎ Counts t n (counter env crypto identifier w)

module _ {env : Env} {crypto : Crypto} {identifier : String} {t : Time} (monotone : IsMonotone env)
    {start : World env} (soon : t ≤ env.now start.tick + ttl) where
  -- A step that leaves the code, and the counter or more.
  Guarded-step :
      (n k : ℕ) (w w' : World env)
      → Guarded env crypto identifier t n start w
      → w.tick ≤ w'.tick
      → stored_code env crypto identifier w' ≡ stored_code env crypto identifier w
      → (Counts t n (counter env crypto identifier w)
          → (t ≤ env.now w'.tick) ⊎ Counts t k (counter env crypto identifier w'))
      → Guarded env crypto identifier t k start w'
  Guarded-step n k w w' g le same step = record {
    ends = subst (Ends t) (sym same) g.ends;
    later = let l = g.later in omega (arith, l, le);
    counts = elim g.counts [
      | inl (inl past) ↦ inl (inl (still monotone t w w' le past))
      | inl (inr gone) ↦ inl (inr (same ∙ gone))
      | inr c ↦ elim (step c) [ inl past ↦ inl (inl past) | inr c' ↦ inr c' ]
    ];
  }

  -- A step that leaves Redis as it is.
  pub Guarded-same :
      (n : ℕ) (w w' : World env)
      → Guarded env crypto identifier t n start w
      → w.tick ≤ w'.tick
      → w'.cache ≡ w.cache
      → Guarded env crypto identifier t n start w'
  Guarded-same n w w' g le same =
      Guarded-step n n w w' g le (ap (λ s. env.redis.entry s (code_key identifier)) same) (λ c.
        inr (subst (λ s. Counts t n (env.redis.entry s (attempts_key identifier))) (sym same) c))

  pub Guarded-fewer :
      (n : ℕ) (w : World env)
      → Guarded env crypto identifier t (suc n) start w
      → Guarded env crypto identifier t n start w
  Guarded-fewer n w g = record {
    ends = g.ends;
    later = g.later;
    counts = elim g.counts [ inl s ↦ inl s | inr c ↦ inr (Counts-fewer t n _ c) ];
  }

  -- INCR: whatever its reply, the counter counts as many; where it gives a number, one more.
  incr-Guarded :
      (n k : ℕ) (w w' : World env)
      → (Counts t n (counter env crypto identifier w)
          → Counts t n (live (env.now w.tick) (counter env crypto identifier w))
          → Counts t k (
              entry_of
                (counter env crypto identifier w)
                (incremented (live (env.now w.tick) (counter env crypto identifier w)))))
      → Guarded env crypto identifier t n start w
      → w.tick ≤ w'.tick
      → w'.cache ≡ (env.redis.incr (env.now w.tick) (attempts_key identifier) w.cache).1
      → Guarded env crypto identifier t k start w'
  incr-Guarded n k w w' grow g le more =
      let e : counter env crypto identifier w'
          ≡ entry_of (counter env crypto identifier w)
              (incremented (live (env.now w.tick) (counter env crypto identifier w))) =
        ap (λ s. env.redis.entry s (attempts_key identifier)) more
        ∙ counter-incr env crypto identifier (env.now w.tick) w.cache in
      Guarded-step n k w w' g le
        (ap (λ s. env.redis.entry s (code_key identifier)) more
          ∙ count_keeps_code env crypto identifier (env.now w.tick) w.cache)
        (λ c. elim (Counts-live t (env.now w.tick) n (counter env crypto identifier w) c) [
          | inl past ↦ inl (still monotone t w w' le past)
          | inr l ↦ inr (subst (Counts t k) (sym e) (grow c l))
        ])

  pub count-Guarded :
      (n : ℕ) (w : World env)
      → Guarded env crypto identifier t n start w
      → Guarded env crypto identifier t n start (count_attempt env crypto identifier w).1
  count-Guarded n w g =
      let (tick, cache) = count_cases env crypto identifier w in
      let w' = (count_attempt env crypto identifier w).1 in
      elim cache [
        | inl same ↦ Guarded-same n w w' g (omega (arith, tick)) same
        | inr more ↦
            incr-Guarded n n w w' (λ c l. (incremented-Grown t n _ _ c l).0) g (omega (arith, tick))
              more
      ]

  -- An attempt that was counted as the number m.
  pub counted-Guarded :
      (n m : ℕ) (w w' : World env)
      → Guarded env crypto identifier t n start w
      → count_attempt env crypto identifier w ≡ (ok m, w')
      → Guarded env crypto identifier t (suc n) start w'
        × (Spent env crypto identifier t w' ⊎ (suc n ≤ m))
  counted-Guarded n m w w' g h =
      let s = (count_attempt_ok env crypto identifier w w' m h).1 in
      let number = counted_number env crypto identifier w w' m h in
      let tick : w'.tick ≡ suc w.tick = ap (λ v. v.tick) s in
      let le : w.tick ≤ w'.tick = omega (arith, tick) in
      let more : w'.cache ≡ (env.redis.incr (env.now w.tick) (attempts_key identifier) w.cache).1 =
        ap (λ v. v.cache) s in
      (
        incr-Guarded n (suc n) w w' (λ c l. ((incremented-Grown t n _ _ c l).1 m number).1) g le
            more,
        elim g.counts [
          | inl (inl past) ↦ inl (inl (still monotone t w w' le past))
          | inl (inr gone) ↦ inl (
              inr (
                ap (λ s. env.redis.entry s (code_key identifier)) more
                ∙ count_keeps_code env crypto identifier (env.now w.tick) w.cache
                ∙ gone))
          | inr c ↦ elim (Counts-live t (env.now w.tick) n (counter env crypto identifier w) c) [
            | inl past ↦ inl (inl (still monotone t w w' le past))
            | inr l ↦ inr ((incremented-Grown t n _ _ c l).1 m number).0
          ]
        ],
      )

  -- EXPIRE, sent with the first attempt.
  pub expiry-Guarded :
      (n m : ℕ) (w : World env)
      → Guarded env crypto identifier t n start w
      → Guarded env crypto identifier t n start (start_expiry env crypto identifier m w).1
        × (Spent env crypto identifier t w
            → Spent env crypto identifier t (start_expiry env crypto identifier m w).1)
  expiry-Guarded n m w g =
      let (le, cache) = expiry_cases env crypto identifier m w in
      let w' = (start_expiry env crypto identifier m w).1 in
      elim cache [
        | inl same ↦ (
          Guarded-same n w w' g le same,
          spent w' le (ap (λ s. env.redis.entry s (code_key identifier)) same),
        )
        | inr set ↦
            let same =
              ap (λ s. env.redis.entry s (code_key identifier)) set
              ∙ code-expire env crypto identifier (env.now w.tick) w.cache in
            let e =
              ap (λ s. env.redis.entry s (attempts_key identifier)) set
              ∙ counter-expire env crypto identifier (env.now w.tick) w.cache in
            let begun = monotone start.tick w.tick g.later in
            (
              Guarded-step n n w w' g le same (λ c.
                  elim (Counts-live t (env.now w.tick) n (counter env crypto identifier w) c) [
                    | inl past ↦ inl (still monotone t w w' le past)
                    | inr l ↦ inr (
                        subst (Counts t n) (sym e) (
                          Counts-renewed t (env.now w.tick + ttl) n _ (omega (arith, begun, soon))
                            l))
                  ]),
              spent w' le same,
            )
      ]
    where
      spent :
          (w' : World env)
          → w.tick ≤ w'.tick
          → stored_code env crypto identifier w' ≡ stored_code env crypto identifier w
          → Spent env crypto identifier t w
          → Spent env crypto identifier t w'
      spent w' le same (inl past) = inl (still monotone t w w' le past)
      spent w' le same (inr gone) = inr (same ∙ gone)
