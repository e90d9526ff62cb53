-- ===== src/Otp/Effects.antt =====
-- internal/otp/service.go: what the commands of Verify do to its two keys.
use flutter_whatsapp_clone.Base.{
  ℕ, suc, ◌+◌, ◌≤◌, true, String, Option, none, some, ◌≡◌, ◌≢◌, refl, sym, ap, ◌∙◌, ◌⊎◌, str_eq,
  if◌then◌else◌, eq_iff, arith,
}
use flutter_whatsapp_clone.Models.{Time}
use flutter_whatsapp_clone.Crypto.{Crypto}
use flutter_whatsapp_clone.Action.{ok, err, or_fail, ◌>>=◌, pure, raise}
use flutter_whatsapp_clone.Action.Rules.{bind_ok, or_fail_ok}
use flutter_whatsapp_clone.Redis.{Entry, live, incremented, renewed}
use flutter_whatsapp_clone.Store.{Env, World, command, ignored}
use flutter_whatsapp_clone.Store.Laws.{command_ok}
use flutter_whatsapp_clone.Otp.{
  Error, internal, ttl, code_key, attempts_key, count_attempt, start_expiry,
}
use flutter_whatsapp_clone.Otp.Guard.{keys_differ}
use flutter_whatsapp_clone.Otp.Counter.{number_of, entry_of}

number_of_lem :
    (o : Option (ℕ × Entry)) → elim o [ none ↦ none | some (n, e) ↦ some n ] ≡ number_of o
number_of_lem none = refl
number_of_lem (some (n, e)) = refl

entry_of_lem :
    (old : Option Entry) (o : Option (ℕ × Entry))
    → elim o [ none ↦ old | some (n, e) ↦ some e ] ≡ entry_of old o
entry_of_lem old none = refl
entry_of_lem old (some (n, e)) = refl

module _ (env : Env) (crypto : Crypto) (identifier : String) where
  abbrev pub counter : World env → Option Entry
  counter w = env.redis.entry w.cache (attempts_key identifier)

  abbrev pub stored_code : World env → Option Entry
  stored_code w = env.redis.entry w.cache (code_key identifier)

  key_same : str_eq (attempts_key identifier) (attempts_key identifier) ≡ true
  key_same = (eq_iff _ _).1 refl

  pub counter-incr :
      (now : Time) (s : env.redis.State)
      → env.redis.entry (env.redis.incr now (attempts_key identifier) s).1 (attempts_key identifier)
        ≡ entry_of
            (env.redis.entry s (attempts_key identifier))
            (incremented (live now (env.redis.entry s (attempts_key identifier))))
  counter-incr now s =
      env.redis.incr_entry now (attempts_key identifier) s (attempts_key identifier)
      ∙ ap
          (λ b.
            if b
            then elim (incremented (live now (env.redis.entry s (attempts_key identifier)))) [
              | none ↦ env.redis.entry s (attempts_key identifier)
              | some (n, e) ↦ some e
            ]
            else env.redis.entry s (attempts_key identifier))
          key_same
      ∙ entry_of_lem (env.redis.entry s (attempts_key identifier))
          (incremented (live now (env.redis.entry s (attempts_key identifier))))

  pub counter-expire :
      (now : Time) (s : env.redis.State)
      → env.redis.entry
          (env.redis.expire now (attempts_key identifier) ttl s)
          (attempts_key identifier)
        ≡ renewed (now + ttl) (live now (env.redis.entry s (attempts_key identifier)))
  counter-expire now s =
      env.redis.expire_lem now (attempts_key identifier) ttl s (attempts_key identifier)
      ∙ ap
          (λ b.
            if b
            then renewed (now + ttl) (live now (env.redis.entry s (attempts_key identifier)))
            else env.redis.entry s (attempts_key identifier))
          key_same

  pub code-expire :
      (now : Time) (s : env.redis.State)
      → env.redis.entry (env.redis.expire now (attempts_key identifier) ttl s) (code_key identifier)
        ≡ env.redis.entry s (code_key identifier)
  code-expire now s =
      env.redis.expire_lem now (attempts_key identifier) ttl s (code_key identifier)
      ∙ ap
          (λ b.
            if b
            then renewed (now + ttl) (live now (env.redis.entry s (attempts_key identifier)))
            else env.redis.entry s (code_key identifier))
          (keys_differ identifier)

  pub code-del :
      (s : env.redis.State)
      → env.redis.entry
          (env.redis.del (attempts_key identifier) (env.redis.del (code_key identifier) s))
          (code_key identifier)
        ≡ none
  code-del s =
      env.redis.del_lem (attempts_key identifier) _ (code_key identifier)
      ∙ ap
          (λ b.
            if b
            then none
            else env.redis.entry (env.redis.del (code_key identifier) s) (code_key identifier))
          (keys_differ identifier)
      ∙ env.redis.del_lem (code_key identifier) s (code_key identifier)
      ∙ ap (λ b. if b then none else env.redis.entry s (code_key identifier)) ((eq_iff _ _).1 refl)

  -- The ways in which a command may leave Redis.
  pub command_cases :
      {E A : Type 0} (run : Time → env.redis.State → A × env.redis.State) (e : E) (w : World env)
      → let w' = (command {env = env} run e w).1 in
        (w'.tick ≡ suc w.tick)
        × ((w'.cache ≡ w.cache) ⊎ (w'.cache ≡ (run (env.now w.tick) w.cache).1))
  unfolding command
  command_cases run e w = ground arith

  pub count_cases :
      (w : World env)
      → let w' = (count_attempt env crypto identifier w).1 in
        (w'.tick ≡ suc w.tick)
        × ((w'.cache ≡ w.cache)
            ⊎ (w'.cache ≡ (env.redis.incr (env.now w.tick) (attempts_key identifier) w.cache).1))
  unfolding count_attempt command or_fail ◌>>=◌ pure raise
  count_cases w = ground arith

  pub counted_number :
      (w w' : World env) (m : ℕ)
      → count_attempt env crypto identifier w ≡ (ok m, w')
      → number_of (incremented (live (env.now w.tick) (counter w))) ≡ some m
  unfolding count_attempt
  counted_number w w' m h =
      let (counted, w₁, e₁, h₁) = bind_ok _ _ w w' m h in
      let (f₁, s₁) =
        command_ok (λ now. env.redis.incr now (attempts_key identifier)) internal w w₁ counted e₁ in
      let (f₂, s₂) = or_fail_ok _ _ w₁ w' m h₁ in
      sym (number_of_lem (incremented (live (env.now w.tick) (counter w))))
      ∙ sym (env.redis.incr_result (env.now w.tick) (attempts_key identifier) w.cache)
      ∙ sym f₁
      ∙ f₂

  pub expiry_cases :
      (m : ℕ) (w : World env)
      → let w' = (start_expiry env crypto identifier m w).1 in
        (w.tick ≤ w'.tick)
        × ((w'.cache ≡ w.cache)
            ⊎ (w'.cache ≡ env.redis.expire (env.now w.tick) (attempts_key identifier) ttl w.cache))
  unfolding start_expiry ignored command pure
  expiry_cases m w = ground arith

  -- The errors that are no outcome of a comparison.
  pub count_error :
      (w w' : World env) (x : Error)
      → count_attempt env crypto identifier w ≡ (err x, w')
      → x ≡ internal
  unfolding count_attempt command or_fail ◌>>=◌ pure raise
  count_error w w' x h = ground arith

  pub expiry_total :
      (m : ℕ) (w w' : World env) (x : Error) → start_expiry env crypto identifier m w ≢ (err x, w')
  unfolding start_expiry ignored pure
  expiry_total m w w' x h = ground arith

  pub get_error :
      (w w' : World env) (x : Error)
      → command {env = env} (λ now s. (env.redis.get now (code_key identifier) s, s)) internal w
        ≡ (err x, w')
      → x ≡ internal
  unfolding command
  get_error w w' x h = ground arith

  pub get_same :
      (w : World env)
      → let w' =
          (command {env = env} {E = Error}
            (λ now s. (env.redis.get now (code_key identifier) s, s))
            internal
            w).1 in
        (w.tick ≤ w'.tick) × (w'.cache ≡ w.cache)
  unfolding command
  get_same w = ground arith
