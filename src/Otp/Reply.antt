-- ===== src/Otp/Reply.antt =====
-- internal/otp/service.go: GET and DEL, when a counter guards the code.
use flutter_whatsapp_clone.Base.{
  ℕ, ◌+◌, ◌≤◌, String, Option, none, some, ◌≡◌, ◌≢◌, sym, ap, ◌∙◌, subst, ◌⊎◌, inl, inr, arith,
}
use flutter_whatsapp_clone.Models.{Time}
use flutter_whatsapp_clone.Crypto.{Crypto}
use flutter_whatsapp_clone.Action.{ok}
use flutter_whatsapp_clone.Redis.{Value, live, value_of}
use flutter_whatsapp_clone.Store.{Env, World, command, ignored}
use flutter_whatsapp_clone.Store.Laws.{command_ok}
use flutter_whatsapp_clone.Otp.{Error, internal, ttl, code_key, attempts_key}
use flutter_whatsapp_clone.Otp.Counter.{Ends, Ends-live}
use flutter_whatsapp_clone.Otp.Guarded.{IsMonotone, Spent, Guarded, Guarded-same}
use flutter_whatsapp_clone.Otp.Effects.{stored_code, code-del, command_cases}

module _ (env : Env) (crypto : Crypto) (identifier : String) (t : Time) where
  Spent-none :
      (w : World env)
      → Ends t (stored_code env crypto identifier w)
      → Spent env crypto identifier t w
      → live (env.now w.tick) (stored_code env crypto identifier w) ≡ none
  Spent-none w h (inl past) = Ends-live t (env.now w.tick) _ h past
  Spent-none w h (inr gone) = ap (live (env.now w.tick)) gone

module _ {env : Env} {crypto : Crypto} {identifier : String} {t : Time} (monotone : IsMonotone env)
    {start : World env} (soon : t ≤ env.now start.tick + ttl) where
  -- GET: it finds nothing once the code is spent.
  pub get-Guarded :
      (n m : ℕ) (w w' : World env) (found : Option Value) (stored : Value)
      → Guarded env crypto identifier t n start w
      → Spent env crypto identifier t w ⊎ (n ≤ m)
      → command {env = env} {E = Error}
          (λ now s. (env.redis.get now (code_key identifier) s, s))
          internal
          w
        ≡ (ok found, w')
      → found ≡ some stored
      → n ≤ m
  get-Guarded n m w w' found stored g (inr le) h k = le
  get-Guarded n m w w' found stored g (inl s) h k =
      let f =
        (command_ok (λ now s. (env.redis.get now (code_key identifier) s, s)) internal w w' found
          h).0 in
      let nothing : found ≡ none =
        f
        ∙ env.redis.get_lem (env.now w.tick) (code_key identifier) w.cache
        ∙ ap value_of (Spent-none env crypto identifier t w g.ends s) in
      absurd (none-some (sym nothing ∙ k))
    where
      none-some : ◌≢◌ {A = Option Value} none (some stored)
      none-some e = cc

  -- DEL: both keys are gone, or neither is.
  pub del-Guarded :
      (n : ℕ) (w : World env)
      → Guarded env crypto identifier t n start w
      → Guarded env crypto identifier t n start (
          (ignored {E = Error} {F = Error}
            (command
              (λ now s. (
                tt,
                env.redis.del (attempts_key identifier) (env.redis.del (code_key identifier) s),
              ))
              internal)
            w).1)
  unfolding ignored
  del-Guarded n w g =
      let (tick, cache) =
        command_cases env crypto identifier {E = Error}
          (λ now s.
            (tt, env.redis.del (attempts_key identifier) (env.redis.del (code_key identifier) s)))
          internal w in
      elim cache [
        | inl same ↦ Guarded-same monotone soon n w _ g (omega (arith, tick)) same
        | inr gone ↦
            let none_left =
              ap (λ s. env.redis.entry s (code_key identifier)) gone
              ∙ code-del env crypto identifier w.cache in
            record {
              ends = subst (Ends t) (sym none_left) tt;
              later = let l = g.later in omega (arith, l, tick);
              counts = inl (inr none_left);
            }
      ]
