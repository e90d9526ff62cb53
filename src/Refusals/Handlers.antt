-- ===== src/Refusals/Handlers.antt =====
-- Web: a handler that answers a status from 400 to 499 and has changed no table, by how it is built.
use flutter_whatsapp_clone.Base.{
  Bool-cases, inl, inr, Bool, true, false, Option, none, some, ◌≡◌, refl, sym, ap, ◌∙◌,
}
use flutter_whatsapp_clone.Action.{Result, ok, err, Action}
use flutter_whatsapp_clone.Store.{Env, World}
use flutter_whatsapp_clone.Store.Keeps.{Keeps}
use flutter_whatsapp_clone.Web.{
  Reply, failure, json, status_of, Handler, is_client_error, internal_error, conclude, reply,
  answer, bound, parsed,
}
use flutter_whatsapp_clone.Server.{Payload, tagged, as_payload}
use flutter_whatsapp_clone.Keys.Validation.{ValidationError}
use flutter_whatsapp_clone.Keys.Handler.{checked}
use flutter_whatsapp_clone.Store.Keeps.{reading}
use flutter_whatsapp_clone.Refusals.Rules.{Spares}

-- A handler that has changed no table if it answers that the client is at fault.
pub record IsHarmless (env : Env) {P : Type 0} (h : Handler env P) : Type 0 where
  pub harmless : (w : World env) → is_client_error (status_of (h w).0) ≡ true → (h w).1.db ≡ w.db

module _ {env : Env} {P E A : Type 0} where
  -- An error that is not grave has changed no table, and the grave one is not the client's fault.
  pub answer-IsHarmless :
      (grave : E → Bool) (internal : E) (m : Action (World env) E A) (f : E → Reply P)
      (g : A → Reply P)
      → Spares env grave m
      → ((e : E) → grave e ≡ true → e ≡ internal)
      → is_client_error (status_of (f internal)) ≡ false
      → ((a : A) → is_client_error (status_of (g a)) ≡ false)
      → IsHarmless env (answer m f g)
  unfolding answer
  answer-IsHarmless grave internal m f g s only bad good = record {
    harmless = λ w c. go w (m w).0 (m w).1 refl c;
  }
    where
      go :
          (w : World env) (r : Result E A) (v : World env)
          → m w ≡ (r, v)
          → is_client_error (status_of (conclude f g r)) ≡ true
          → v.db ≡ w.db
      go w (ok a) v h c = let no = good a in cc
      go w (err e) v h c = elim (Bool-cases (grave e)) [
        | inl known ↦
            let no : is_client_error (status_of (f e)) ≡ false =
              ap (λ x. is_client_error (status_of (f x))) (only e known) ∙ bad in
            cc
        | inr mild ↦ s.spared w v e h mild
      ]

  -- A service that changes no table.
  pub reads-IsHarmless :
      (m : Action (World env) E A) (f : E → Reply P) (g : A → Reply P)
      → Keeps env reading m
      → IsHarmless env (answer m f g)
  unfolding answer
  reads-IsHarmless m f g k = record { harmless = λ w c. k.at w }

  -- Every answer to an error is status 500.
  pub fatal-IsHarmless :
      (m : Action (World env) E A) (g : A → Reply P)
      → ((a : A) → is_client_error (status_of (g a)) ≡ false)
      → IsHarmless env (answer m (λ e. internal_error) g)
  unfolding answer
  fatal-IsHarmless m g good = record { harmless = λ w c. absurd (go (m w).0 c) }
    where
      go :
          (r : Result E A)
          → is_client_error (status_of (conclude (λ e. internal_error) g r)) ≡ true
          → ⊥
      go (ok a) c = let no = good a in cc
      go (err e) c = cc

module _ {env : Env} {P : Type 0} where
  pub reply-IsHarmless : (r : Reply P) → IsHarmless env (reply {env = env} r)
  unfolding reply
  reply-IsHarmless r = record { harmless = λ w c. refl }

  pub bound-IsHarmless :
      {R : Type 0} (o : Option R) (h : R → Handler env P)
      → ((r : R) → IsHarmless env (h r))
      → IsHarmless env (bound o h)
  unfolding bound reply
  bound-IsHarmless none h k = record { harmless = λ w c. refl }
  bound-IsHarmless (some r) h k = k r

  pub parsed-IsHarmless :
      {R : Type 0} (o : Option R) (h : R → Handler env P)
      → ((r : R) → IsHarmless env (h r))
      → IsHarmless env (parsed o h)
  unfolding parsed reply
  parsed-IsHarmless none h k = record { harmless = λ w c. refl }
  parsed-IsHarmless (some r) h k = k r

  pub checked-IsHarmless :
      (o : Option ValidationError) (h : Handler env P)
      → IsHarmless env h
      → IsHarmless env (checked o h)
  unfolding checked reply
  checked-IsHarmless none h k = k
  checked-IsHarmless (some e) h k = record { harmless = λ w c. refl }

  pub as_payload-IsHarmless :
      (f : P → Payload) (h : Handler env P) → IsHarmless env h → IsHarmless env (as_payload f h)
  unfolding as_payload
  as_payload-IsHarmless f h k = record {
    harmless = λ w c. k.harmless w (sym (ap is_client_error (same (h w).0)) ∙ c);
  }
    where
      same : (r : Reply P) → status_of (tagged f r) ≡ status_of r
      same (failure status code) = refl
      same (json status p) = refl
