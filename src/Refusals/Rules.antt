-- ===== src/Refusals/Rules.antt =====
-- An action that fails and has changed no table, for the errors that are not grave: one rule for each
-- way to build an action.
use flutter_whatsapp_clone.Base.{
  Bool-cases, ℕ, Bool, true, false, Option, none, some, ◌≡◌, sym, ap, ◌∙◌, arith, if◌then◌else◌,
  inl, inr,
}
use flutter_whatsapp_clone.Action.{err, Action, pure, raise, ◌>>=◌, on_error, ensure, or_fail}
use flutter_whatsapp_clone.Action.Rules.{bind_err, on_error_cases}
use flutter_whatsapp_clone.Store.{
  Db, Env, World, Table, InsertError, failed, query, execute, execute_returning, insert,
  transaction, ignored,
}
use flutter_whatsapp_clone.Store.Laws.{transaction_err}
use flutter_whatsapp_clone.Store.Keeps.{Keeps}
use flutter_whatsapp_clone.Store.Keeps.{reading}

-- An error that is not grave has changed no table.
pub record Spares (env : Env) {E A : Type 0} (grave : E → Bool) (m : Action (World env) E A)
    : Type 0 where
  pub spared : (w w' : World env) (e : E) → m w ≡ (err e, w') → grave e ≡ false → w'.db ≡ w.db

-- Every error is grave.
pub record Grave (env : Env) {E A : Type 0} (grave : E → Bool) (m : Action (World env) E A)
    : Type 0 where
  pub all : (w w' : World env) (e : E) → m w ≡ (err e, w') → grave e ≡ true

module _ {env : Env} {E A : Type 0} {grave : E → Bool} where
  pub Spares-reads : (m : Action (World env) E A) → Keeps env reading m → Spares env grave m
  Spares-reads m k = record { spared = λ w w' e h g. sym (ap (λ r. r.1.db) h) ∙ k.at w }

  pub Spares-Grave : (m : Action (World env) E A) → Grave env grave m → Spares env grave m
  Spares-Grave m k = record { spared = λ w w' e h g. let f = k.all w w' e h in cc }

  pub Spares-if :
      (b : Bool) (m n : Action (World env) E A)
      → Spares env grave m
      → Spares env grave n
      → Spares env grave (if b then m else n)
  Spares-if true m n h k = h
  Spares-if false m n h k = k

  pub Grave-if :
      (b : Bool) (m n : Action (World env) E A)
      → Grave env grave m
      → Grave env grave n
      → Grave env grave (if b then m else n)
  Grave-if true m n h k = h
  Grave-if false m n h k = k

  pub Spares-transaction :
      (e : E) (m : Action (World env) E A) → grave e ≡ true → Spares env grave (transaction e m)
  Spares-transaction e m g = record {
    spared = λ w w' x h f. elim (transaction_err e x m w w' h) [
      | inl same ↦ same
      | inr (q, done, rest) ↦ absurd (differs x (ap grave q ∙ g) f)
    ];
  }
    where
      differs : (x : E) → grave x ≡ true → grave x ≡ false → ⊥
      differs x p q = cc

  pub Grave-pure : (a : A) → Grave env grave (pure {E = E} a)
  unfolding pure
  Grave-pure a = record { all = λ w w' e h. cc }

  pub Grave-raise : (e : E) → grave e ≡ true → Grave env grave (raise {A = A} e)
  unfolding raise
  Grave-raise e g = record { all = λ w w' x h. ground arith }

  pub Grave-or_fail : (o : Option A) (e : E) → grave e ≡ true → Grave env grave (or_fail o e)
  unfolding or_fail pure raise
  Grave-or_fail none e g = record { all = λ w w' x h. ground arith }
  Grave-or_fail (some a) e g = record { all = λ w w' x h. cc }

  pub Grave-query : (read : Db → ℕ → A) (e : E) → grave e ≡ true → Grave env grave (query read e)
  unfolding query
  Grave-query read e g = record { all = λ w w' x h. ground arith }

  pub Grave-execute_returning :
      (change : Db → ℕ → A × Db) (e : E)
      → grave e ≡ true
      → Grave env grave (execute_returning change e)
  unfolding execute_returning
  Grave-execute_returning change e g = record { all = λ w w' x h. ground arith }

module _ {env : Env} {E : Type 0} {grave : E → Bool} where
  pub Grave-ensure : (b : Bool) (e : E) → grave e ≡ true → Grave env grave (ensure b e)
  unfolding ensure pure raise
  Grave-ensure true e g = record { all = λ w w' x h. cc }
  Grave-ensure false e g = record { all = λ w w' x h. ground arith }

  pub Grave-execute :
      (change : Db → ℕ → Db) (e : E) → grave e ≡ true → Grave env grave (execute change e)
  unfolding execute
  Grave-execute change e g = record { all = λ w w' x h. ground arith }

module _ {env : Env} {E F A : Type 0} {grave : F → Bool} where
  pub Grave-ignored : (m : Action (World env) E A) → Grave env grave (ignored {F = F} m)
  unfolding ignored
  Grave-ignored m = record { all = λ w w' x h. cc }

  pub Grave-on_error :
      (m : Action (World env) E A) (handle : E → Action (World env) F A)
      → ((e : E) → Grave env grave (handle e))
      → Grave env grave (on_error m handle)
  Grave-on_error m handle g = record {
    all = λ w w' x h.
        on_error_cases (λ r. r ≡ (err x, w') → grave x ≡ true) m handle w (λ a v q p. cc)
          (λ e v q p. (g e).all v w' x p) h;
  }

  pub Spares-on_error :
      (first : E → Bool) (m : Action (World env) E A) (handle : E → Action (World env) F A)
      → Spares env first m
      → ((e : E) → first e ≡ false → Keeps env reading (handle e))
      → ((e : E) → first e ≡ true → Grave env grave (handle e))
      → Spares env grave (on_error m handle)
  Spares-on_error first m handle s k g = record {
    spared = λ w w' x h f.
        on_error_cases (λ r. r ≡ (err x, w') → w'.db ≡ w.db) m handle w (λ a v q p. cc)
          (λ e v q p. elim (Bool-cases (first e)) [
            | inr mild ↦ sym (ap (λ r. r.1.db) p) ∙ (k e mild).at v ∙ s.spared w v e q mild
            | inl known ↦ let all = (g e known).all v w' x p in cc
          ])
          h;
  }

module _ {env : Env} {A F : Type 0} {grave : F → Bool} (t : Table A) where
  -- An INSERT that the unique indexes refuse has added nothing.
  pub Spares-insert :
      (make : ℕ → A) (f : InsertError → F)
      → grave (f failed) ≡ true
      → Spares env grave (on_error (insert t make) (λ e. raise (f e)))
  unfolding insert on_error raise
  Spares-insert make f g = record { spared = λ w w' x h q. ground arith }

module _ {env : Env} {E A B : Type 0} {grave : E → Bool} where
  pub Grave-bind :
      (m : Action (World env) E A) (f : A → Action (World env) E B)
      → Grave env grave m
      → ((a : A) → Grave env grave (f a))
      → Grave env grave (m >>= f)
  Grave-bind m f g k = record {
    all = λ w w' x h. elim (bind_err m f w w' x h) [
      | inl e ↦ g.all w w' x e
      | inr (a, v, e, r) ↦ (k a).all v w' x r
    ];
  }

  pub Spares-bind_reads :
      (m : Action (World env) E A) (f : A → Action (World env) E B)
      → Keeps env reading m
      → ((a : A) → Spares env grave (f a))
      → Spares env grave (m >>= f)
  Spares-bind_reads m f k s = record {
    spared = λ w w' x h q. elim (bind_err m f w w' x h) [
      | inl e ↦ sym (ap (λ r. r.1.db) e) ∙ k.at w
      | inr (a, v, e, r) ↦ (s a).spared v w' x r q ∙ sym (ap (λ r. r.1.db) e) ∙ k.at w
    ];
  }

  pub Spares-bind-Grave :
      (m : Action (World env) E A) (f : A → Action (World env) E B)
      → Spares env grave m
      → ((a : A) → Grave env grave (f a))
      → Spares env grave (m >>= f)
  Spares-bind-Grave m f s g = record {
    spared = λ w w' x h q. elim (bind_err m f w w' x h) [
      | inl e ↦ s.spared w w' x e q
      | inr (a, v, e, r) ↦ let k = (g a).all v w' x r in cc
    ];
  }

pub ruleset grave_rules = (
  Grave-pure, Grave-raise, Grave-or_fail, Grave-query, Grave-execute_returning, Grave-ensure,
  Grave-execute, Grave-ignored, Grave-if, Grave-on_error, Grave-bind,
)
