-- ===== src/Otp/Guard.antt =====
-- internal/otp/service.go: what Verify guards.
use Prim.Native.Char.{code}
use flutter_whatsapp_clone.Store.Laws.{command_ok}
use flutter_whatsapp_clone.Base.{
  subst, ◌≤◌, ◌≢◌, ◌+◌, ◌<◌, if◌then◌else◌, inr, eq_iff, inl, Bool-cases, str_eq, ℕ, suc, true,
  false, not, Option, none, some, String, ltb, ◌≡◌, refl, sym, ap, ◌∙◌, arith,
}
use flutter_whatsapp_clone.Crypto.{Crypto}
use flutter_whatsapp_clone.Redis.{renewed, incremented, Value, text, number, Entry, live, value_of}
use flutter_whatsapp_clone.Action.{ok, pure}
use flutter_whatsapp_clone.Action.Rules.{bind_ok, or_fail_ok, ensure_ok}
use flutter_whatsapp_clone.Store.{Verdict, Env, World, command, ignored, remember}
use flutter_whatsapp_clone.Otp.{
  Error, internal, Time, ttl, max_attempts, holds_hash, code_key, attempts_key, count_attempt,
  start_expiry, verify,
}

-- The attempts counted for an identifier: none without a live entry.
abbrev pub attempts_of : Option Entry → ℕ
attempts_of none = 0
attempts_of (some e) = elim e.value [ text s ↦ 0 | number n ↦ n ]

counted_value :
    (v : Value) (d : Option Time) (n : ℕ)
    → elim (incremented (some (record { value = v; deadline = d }))) [
      | none ↦ none
      | some (m, e) ↦ some m
    ]
      ≡ some n
    → n ≡ suc (attempts_of (some (record { value = v; deadline = d })))
counted_value (text s) d n h = cc
counted_value (number m) d n h = ground arith

counted_of :
    (o : Option Entry) (n : ℕ)
    → elim (incremented o) [ none ↦ none | some (m, e) ↦ some m ] ≡ some n
    → n ≡ suc (attempts_of o)
counted_of none n h = ground arith
counted_of (some e) n h = counted_value e.value e.deadline n h

-- The code of the letter after "otp:".
fifth : String → ℕ
fifth (String.◌∷◌ a (String.◌∷◌ b (String.◌∷◌ c (String.◌∷◌ d (String.◌∷◌ e s))))) = code e
fifth _ = 0

pub keys_differ :
    (identifier : String) → str_eq (attempts_key identifier) (code_key identifier) ≡ false
unfolding fifth
keys_differ identifier =
    elim (Bool-cases (str_eq (attempts_key identifier) (code_key identifier))) [
      | inl same ↦
          let letters : fifth (attempts_key identifier) ≡ fifth (code_key identifier) =
            ap fifth ((eq_iff _ _).0 same) in
          absurd (apart letters)
      | inr differs ↦ differs
    ]
  where
    apart : ◌≢◌ {A = ℕ} 97 99
    apart e = omega (arith, e)

module _ (env : Env) (crypto : Crypto) where
  abbrev pub attempts_at : String → World env → ℕ
  attempts_at identifier w =
      attempts_of (live (env.now w.tick) (env.redis.entry w.cache (attempts_key identifier)))

  pub count_attempt_ok :
      (identifier : String) (w w' : World env) (n : ℕ)
      → count_attempt env crypto identifier w ≡ (ok n, w')
      → (n ≡ suc (attempts_at identifier w))
        × (w' ≡ remember (env.redis.incr (env.now w.tick) (attempts_key identifier) w.cache).1 w)
  unfolding count_attempt
  count_attempt_ok identifier w w' n h =
      let (counted, w₁, e₁, h₁) = bind_ok _ _ w w' n h in
      let (f₁, s₁) =
        command_ok (λ now. env.redis.incr now (attempts_key identifier)) internal w w₁ counted e₁ in
      let (f₂, s₂) = or_fail_ok _ _ w₁ w' n h₁ in
      (
        counted_of _ n (
            sym (env.redis.incr_result (env.now w.tick) (attempts_key identifier) w.cache)
            ∙ sym f₁
            ∙ f₂),
        s₂ ∙ s₁,
      )

  -- Counting and its expiry leave the entry of the code alone.
  pub count_keeps_code :
      (identifier : String) (now : ℕ) (s : env.redis.State)
      → env.redis.entry (env.redis.incr now (attempts_key identifier) s).1 (code_key identifier)
        ≡ env.redis.entry s (code_key identifier)
  count_keeps_code identifier now s =
      env.redis.incr_entry now (attempts_key identifier) s (code_key identifier)
      ∙ ap
          (λ b.
            if b
            then elim (incremented (live now (env.redis.entry s (attempts_key identifier)))) [
              | none ↦ env.redis.entry s (code_key identifier)
              | some (n, e) ↦ some e
            ]
            else env.redis.entry s (code_key identifier))
          (keys_differ identifier)

  start_expiry_ok :
      (identifier : String) (n : ℕ) (w w' : World env) (u : Unit {0})
      → start_expiry env crypto identifier n w ≡ (ok u, w')
      → env.redis.entry w'.cache (code_key identifier)
        ≡ env.redis.entry w.cache (code_key identifier)
  unfolding start_expiry ignored command pure
  start_expiry_ok identifier n w w' u h =
      let same : env.redis.entry
            (env.redis.expire (env.now w.tick) (attempts_key identifier) ttl w.cache)
            (code_key identifier)
          ≡ env.redis.entry w.cache (code_key identifier) =
        env.redis.expire_lem (env.now w.tick) (attempts_key identifier) ttl w.cache
          (code_key identifier)
        ∙ ap
            (λ b.
              if b
              then renewed (env.now w.tick + ttl)
                  (live (env.now w.tick) (env.redis.entry w.cache (attempts_key identifier)))
              else env.redis.entry w.cache (code_key identifier))
            (keys_differ identifier) in
      ground arith

  start_expiry-tick :
      (identifier : String) (n : ℕ) (w w' : World env) (u : Unit {0})
      → start_expiry env crypto identifier n w ≡ (ok u, w')
      → w.tick ≤ w'.tick
  unfolding start_expiry ignored command pure
  start_expiry-tick identifier n w w' u h = ground arith

  del-tick :
      (identifier : String) (w w' : World env) (u : Unit {0})
      → ignored {E = Error} {F = Error}
          (command
            (λ now s.
              (tt, env.redis.del (attempts_key identifier) (env.redis.del (code_key identifier) s)))
            internal)
          w
        ≡ (ok u, w')
      → w'.tick ≡ suc w.tick
  unfolding ignored command
  del-tick identifier w w' u h = ground arith

  -- What a verification that succeeds has found, and what it leaves.
  pub record Verified (identifier submitted : String) (w w' : World env) : Type 0 where
    pub within_limit : attempts_at identifier w < max_attempts
    pub code : Value
    -- The number of the GET, by whose clock the code is live: a statement of the call, which the
    -- final DEL alone follows.
    pub asked : ℕ
    pub asked_after : w.tick < asked
    pub two_left : w'.tick ≡ suc (suc asked)
    pub found :
        value_of (live (env.now asked) (env.redis.entry w.cache (code_key identifier))) ≡ some code
    pub matching : holds_hash (crypto.sha256_hex submitted) code ≡ true
    pub used_up :
        env.verdict (suc asked) ≢ Verdict.refused
        → env.redis.entry w'.cache (code_key identifier) ≡ none

  after_del :
      (identifier : String) (w w' : World env) (u : Unit {0})
      → ignored {E = Error} {F = Error}
          (command
            (λ now s.
              (tt, env.redis.del (attempts_key identifier) (env.redis.del (code_key identifier) s)))
            internal)
          w
        ≡ (ok u, w')
      → env.verdict w.tick ≢ Verdict.refused
      → env.redis.entry w'.cache (code_key identifier) ≡ none
  unfolding ignored command
  after_del identifier w w' u h kept =
      let gone : env.redis.entry
            (env.redis.del (attempts_key identifier) (env.redis.del (code_key identifier) w.cache))
            (code_key identifier)
          ≡ none =
        env.redis.del_lem (attempts_key identifier) _ (code_key identifier)
        ∙ ap
            (λ b.
              if b
              then none
              else env.redis.entry (env.redis.del (code_key identifier) w.cache)
                  (code_key identifier))
            (keys_differ identifier)
        ∙ env.redis.del_lem (code_key identifier) w.cache (code_key identifier)
        ∙ ap (λ b. if b then none else env.redis.entry w.cache (code_key identifier))
            ((eq_iff _ _).1 refl) in
      ground arith

  -- A verification that succeeds had fewer than five attempts counted before it, and the text
  -- submitted is one whose hash was stored as the code of the identifier and had not expired by the
  -- clock of the GET, which is a statement of the call; unless Redis refuses the DEL that is the last
  -- statement of the call, no code is stored for the identifier afterwards.
  pub verify-Verified :
      (identifier submitted : String) (w w' : World env) (u : Unit {0})
      → verify env crypto identifier submitted w ≡ (ok u, w')
      → Verified identifier submitted w w'
  unfolding verify
  verify-Verified identifier submitted w w' u h =
      let (n, w₁, e₁, h₁) = bind_ok _ _ w w' u h in
      let (f₁, s₁) = count_attempt_ok identifier w w₁ n e₁ in
      let (u₂, w₂, e₂, h₂) = bind_ok _ _ w₁ w' u h₁ in
      let c₂ = start_expiry_ok identifier n w₁ w₂ u₂ e₂ in
      let (u₃, w₃, e₃, h₃) = bind_ok _ _ w₂ w' u h₂ in
      let (f₃, s₃) = ensure_ok _ _ w₂ w₃ u₃ e₃ in
      let (found, w₄, e₄, h₄) = bind_ok _ _ w₃ w' u h₃ in
      let (f₄, s₄) =
        command_ok (λ now s. (env.redis.get now (code_key identifier) s, s)) internal w₃ w₄ found
          e₄ in
      let (stored, w₅, e₅, h₅) = bind_ok _ _ w₄ w' u h₄ in
      let (f₅, s₅) = or_fail_ok _ _ w₄ w₅ stored e₅ in
      let (u₆, w₆, e₆, h₆) = bind_ok _ _ w₅ w' u h₅ in
      let (f₆, s₆) = ensure_ok _ _ w₅ w₆ u₆ e₆ in
      let code_entry : env.redis.entry w₃.cache (code_key identifier)
          ≡ env.redis.entry w.cache (code_key identifier) =
        ap (λ v. env.redis.entry v.cache (code_key identifier)) s₃
        ∙ c₂
        ∙ ap (λ v. env.redis.entry v.cache (code_key identifier)) s₁
        ∙ count_keeps_code identifier (env.now w.tick) w.cache in
      let later₂ = start_expiry-tick identifier n w₁ w₂ u₂ e₂ in
      let asked_late : w.tick < w₃.tick = later w w₁ w₂ w₃ _ s₁ later₂ s₃ in
      let at_del : w₆.tick ≡ suc w₃.tick = ap (λ v. v.tick) (s₆ ∙ s₅ ∙ s₄) in
      record {
        within_limit = below n (attempts_at identifier w) f₁ f₃;
        code = stored;
        asked = w₃.tick;
        asked_after = asked_late;
        found =
            ap (λ e. value_of (live (env.now w₃.tick) e)) (sym code_entry)
            ∙ sym (env.redis.get_lem (env.now w₃.tick) (code_key identifier) w₃.cache)
            ∙ sym f₄
            ∙ f₅;
        matching = f₆;
        two_left = del-tick identifier w₆ w' u h₆ ∙ ap suc at_del;
        used_up = λ took.
            after_del identifier w₆ w' u h₆
              (subst (λ n. env.verdict n ≢ Verdict.refused) (sym at_del) took);
      }
    where
      later :
          (a b c d : World env) (s : env.redis.State)
          → b ≡ remember s a
          → b.tick ≤ c.tick
          → d ≡ c
          → a.tick < d.tick
      later a b c d s h le k =
          let one : b.tick ≡ suc a.tick = ap (λ v. v.tick) h in
          let two : d.tick ≡ c.tick = ap (λ v. v.tick) k in omega (arith, one, two, le)

      below : (n a : ℕ) → n ≡ suc a → not (ltb max_attempts n) ≡ true → a < max_attempts
      below n a e h = ground arith
