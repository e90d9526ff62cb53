-- ===== src/Otp/Limit.antt =====
-- internal/otp/service.go: Generate, then any calls of Verify.
use flutter_whatsapp_clone.Base.{
  ℕ, suc, ◌+◌, ◌≤◌, String, List, none, ◌≡◌, ◌≢◌, refl, sym, ap, ◌∙◌, subst, inr, if◌then◌else◌,
  eq_iff, arith,
}
use flutter_whatsapp_clone.Models.{Time}
use flutter_whatsapp_clone.Crypto.{Crypto}
use flutter_whatsapp_clone.Redis.{fresh}
use flutter_whatsapp_clone.Action.{ok, pure}
use flutter_whatsapp_clone.Action.Rules.{bind_ok}
use flutter_whatsapp_clone.Store.{Verdict, Env, World, command, ignored}
use flutter_whatsapp_clone.Store.Laws.{command_ok}
use flutter_whatsapp_clone.Otp.{
  Error, internal, ttl, max_attempts, code_key, attempts_key, generate,
}
use flutter_whatsapp_clone.Otp.Guard.{keys_differ}
use flutter_whatsapp_clone.Otp.Counter.{Counts, Ends}
use flutter_whatsapp_clone.Otp.Effects.{counter, stored_code}
use flutter_whatsapp_clone.Otp.Guarded.{IsMonotone, Guarded}
use flutter_whatsapp_clone.Otp.Attempts.{compare_all, compare_all-Guarded}

module _ (env : Env) (crypto : Crypto) (identifier : String) where
  -- A code stored at a time, and no attempt counted.
  record Generated (w : World env) : Type 0 where
    made_at : ℕ
    before : made_at ≤ w.tick
    last : ℕ
    at_last : w.tick ≡ suc last
    text : String
    stored : stored_code env crypto identifier w ≡ fresh text (env.now made_at + ttl)
    uncounted : env.verdict last ≢ Verdict.refused → counter env crypto identifier w ≡ none

  code-set :
      (now : Time) (v : String) (s : env.redis.State)
      → env.redis.entry (env.redis.set now (code_key identifier) v ttl s) (code_key identifier)
        ≡ fresh v (now + ttl)
  code-set now v s =
      env.redis.set_lem now (code_key identifier) v ttl s (code_key identifier)
      ∙ ap (λ b. if b then fresh v (now + ttl) else env.redis.entry s (code_key identifier))
          ((eq_iff _ _).1 refl)

  code-del_attempts :
      (s : env.redis.State)
      → env.redis.entry (env.redis.del (attempts_key identifier) s) (code_key identifier)
        ≡ env.redis.entry s (code_key identifier)
  code-del_attempts s =
      env.redis.del_lem (attempts_key identifier) s (code_key identifier)
      ∙ ap (λ b. if b then none else env.redis.entry s (code_key identifier))
          (keys_differ identifier)

  counter-del_attempts :
      (s : env.redis.State)
      → env.redis.entry (env.redis.del (attempts_key identifier) s) (attempts_key identifier) ≡ none
  counter-del_attempts s =
      env.redis.del_lem (attempts_key identifier) s (attempts_key identifier)
      ∙ ap (λ b. if b then none else env.redis.entry s (attempts_key identifier))
          ((eq_iff _ _).1 refl)

  reset_cases :
      (w w' : World env) (u : Unit {0})
      → ignored {E = Error} {F = Error}
          (command (λ now s. (tt, env.redis.del (attempts_key identifier) s)) internal)
          w
        ≡ (ok u, w')
      → (w'.tick ≡ suc w.tick)
        × (stored_code env crypto identifier w' ≡ stored_code env crypto identifier w)
        × (env.verdict w.tick ≢ Verdict.refused → counter env crypto identifier w' ≡ none)
  unfolding ignored command
  reset_cases w w' u h =
      let c = code-del_attempts w.cache in
      let g = counter-del_attempts w.cache in (ground arith, ground arith, λ kept. ground arith)

  generate-Generated :
      (w w' : World env) (code : String)
      → generate env crypto identifier w ≡ (ok code, w')
      → Generated w'
  unfolding generate pure
  generate-Generated w w' code h =
      let (acquired, w₁, e₁, h₁) = bind_ok _ _ w w' code h in
      let (u₂, w₂, e₂, h₂) = bind_ok _ _ w₁ w' code h₁ in
      let (drawn, w₃, e₃, h₃) = bind_ok _ _ w₂ w' code h₂ in
      let (u₄, w₄, e₄, h₄) = bind_ok _ _ w₃ w' code h₃ in
      let (u₅, w₅, e₅, h₅) = bind_ok _ _ w₄ w' code h₄ in
      let (f₄, s₄) =
        command_ok
          (λ now s. (tt, env.redis.set now (code_key identifier) (crypto.sha256_hex drawn) ttl s))
          internal w₃ w₄ u₄ e₄ in
      let (tick, same, gone) = reset_cases w₄ w₅ u₅ e₅ in
      let q : w₅ ≡ w' = ap (λ out. out.1) h₅ in
      let ticked : w₄.tick ≡ suc w₃.tick = ap (λ v. v.tick) s₄ in
      subst Generated q (record {
        made_at = w₃.tick;
        before = omega (arith, ticked, tick);
        last = w₄.tick;
        at_last = tick;
        text = crypto.sha256_hex drawn;
        stored =
            same
            ∙ ap (stored_code env crypto identifier) s₄
            ∙ code-set (env.now w₃.tick) (crypto.sha256_hex drawn) w₃.cache;
        uncounted = gone;
      })

  Generated-Guarded :
      (w : World env) (g : Generated w)
      → env.verdict g.last ≢ Verdict.refused
      → Guarded env crypto identifier (env.now g.made_at + ttl) 0 w w
  Generated-Guarded w g kept = record {
    ends = subst (Ends (env.now g.made_at + ttl)) (sym g.stored) refl;
    later = omega arith;
    counts = inr (subst (Counts (env.now g.made_at + ttl) 0) (sym (g.uncounted kept)) refl);
  }

-- Once Generate has stored a code for an identifier, Verify compares at most five of the texts that
-- are submitted for it with this code, in any sequence of calls with no other Generate among them and
-- whatever Redis answers, if Redis does not refuse the DEL of the counter and the clock does not go
-- back.
pub generate-compare_all :
    (env : Env) (crypto : Crypto) (identifier : String) (texts : List String) (w w' : World env)
    (code : String)
    → IsMonotone env
    → generate env crypto identifier w ≡ (ok code, w')
    → ((n : ℕ) → w'.tick ≡ suc n → env.verdict n ≢ Verdict.refused)
    → compare_all env crypto identifier texts w' ≤ max_attempts
generate-compare_all env crypto identifier texts w w' code monotone h kept =
    let g = generate-Generated env crypto identifier w w' code h in
    let later = monotone g.made_at w'.tick g.before in
    let bound =
      compare_all-Guarded env crypto identifier (env.now g.made_at + ttl) monotone w'
        (omega (arith, later)) 0 texts w' (omega arith)
        (Generated-Guarded env crypto identifier w' g (kept g.last g.at_last)) in
    omega (arith, bound)
