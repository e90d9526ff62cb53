-- ===== src/Web.antt =====
-- What the handlers share: an answer is a status with a JSON body. Of an error's body the `code` is
-- kept; its texts, `error` and `details`, are left out. Gin decodes and validates a request before the
-- handler's own code runs, so a handler is given what ShouldBindJSON or ShouldBindQuery gave.
use flutter_whatsapp_clone.Base.{ℕ, Bool, ◌&&◌, String, Option, none, some, leb, ltb}
use flutter_whatsapp_clone.Action.{Result, ok, err, Action}
use flutter_whatsapp_clone.Store.{Env, World}

pub data Reply (P : Type 0) : Type 0 where
  failure : ℕ → String → Reply P
  json : ℕ → P → Reply P

abbrev pub status_of : {P : Type 0} → Reply P → ℕ
status_of (failure status code) = status
status_of (json status p) = status

-- A handler writes one answer, whatever happens.
abbrev pub Handler : Env → Type 0 → Type 0
Handler env P = World env → Reply P × World env

abbrev pub internal_error : {P : Type 0} → Reply P
internal_error = failure 500 "INTERNAL_ERROR"

abbrev pub is_client_error : ℕ → Bool
is_client_error status = leb 400 status && ltb status 500

module _ {P E A : Type 0} where
  abbrev pub conclude : (E → Reply P) → (A → Reply P) → Result E A → Reply P
  conclude on_err on_ok (ok a) = on_ok a
  conclude on_err on_ok (err e) = on_err e

module _ {env : Env} {P : Type 0} where
  unfoldable pub reply : Reply P → Handler env P
  reply r w = (r, w)

  module _ {E A : Type 0} where
    -- The call of the service, the switch on its error, and the answer.
    unfoldable pub answer : Action (World env) E A → (E → Reply P) → (A → Reply P) → Handler env P
    answer m on_err on_ok w = let (r, w') = m w in (conclude on_err on_ok r, w')

  module _ {R : Type 0} where
    -- 400 where the request does not bind.
    unfoldable pub bound : Option R → (R → Handler env P) → Handler env P
    unfolding reply
    bound none h = reply (failure 400 "VALIDATION_ERROR")
    bound (some r) h = h r

    -- 500 where an id of the session does not parse.
    unfoldable pub parsed : Option R → (R → Handler env P) → Handler env P
    unfolding reply
    parsed none h = reply internal_error
    parsed (some r) h = h r
