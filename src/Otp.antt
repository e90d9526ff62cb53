-- ===== src/Otp.antt =====
-- internal/otp/service.go: one-time codes in Redis.
pub mod Guard
pub mod Counter
pub mod Effects
pub mod Guarded
pub mod Reply
pub mod Attempts
pub mod Limit
pub mod Reads
use Prim.Native.Char.{Char}
use flutter_whatsapp_clone.Base.{
  ℕ, zero, suc, ◌*◌, Bool, true, false, not, Option, none, some, String, ltb, ◌==◌, str_eq,
  if◌then◌else◌,
}
use flutter_whatsapp_clone.Models.{Time}
use flutter_whatsapp_clone.Crypto.{Crypto}
use flutter_whatsapp_clone.Redis.{Value, text, number}
use flutter_whatsapp_clone.Action.{
  Result, ok, err, Action, pure, raise, ◌>>=◌, ◌>>◌, ensure, or_fail,
}
use flutter_whatsapp_clone.Store.{Env, World, command, ignored}

-- In microseconds, like every time.
abbrev pub ttl : Time
ttl = 300000000

abbrev pub resend_cooldown : Time
resend_cooldown = 60000000

abbrev pub max_attempts : ℕ
max_attempts = 5

abbrev pub code_length : ℕ
code_length = 6

-- ErrTooManyAttempts, ErrInvalidCode, ErrExpired, ErrTooSoon, or any other error.
pub data Error : Type 0 where
  too_many_attempts invalid_code expired too_soon internal : Error

-- fmt.Sprintf with a prefix and %s.
abbrev pub join : String → String → String
join String.[] t = t
join (String.◌∷◌ c s) t = String.◌∷◌ c (join s t)

abbrev pub code_key : String → String
code_key identifier = join "otp:code:" identifier

abbrev pub attempts_key : String → String
attempts_key identifier = join "otp:attempts:" identifier

abbrev pub cooldown_key : String → String
cooldown_key identifier = join "otp:cooldown:" identifier

-- The character at an index, put before a text.
unfoldable pub with_digit : String → ℕ → String → String
with_digit String.[] n s = s
with_digit (String.◌∷◌ c cs) zero s = String.◌∷◌ c s
with_digit (String.◌∷◌ c cs) (suc n) s = with_digit cs n s

-- Whether the text stored under the key of a code is this one. No number is: a hash has 64 digits.
abbrev pub holds_hash : String → Value → Bool
holds_hash hash (text s) = str_eq hash s
holds_hash hash (number n) = false

module _ (env : Env) (crypto : Crypto) where
  -- The draws at a statement, from place i on.
  unfoldable pub generate_numeric_code : ℕ → ℕ → ℕ → Option String
  unfolding with_digit
  generate_numeric_code at i zero = some ""
  generate_numeric_code at i (suc n) =
      let rest = generate_numeric_code at (suc i) n in
      elim (crypto.random_digit at i) [
        | none ↦ none
        | some d ↦ elim rest [ none ↦ none | some s ↦ some (with_digit "0123456789" d s) ]
      ]

  unfoldable pub draw_code : Action (World env) Error String
  unfolding generate_numeric_code
  draw_code w = or_fail (generate_numeric_code w.tick 0 code_length) internal w

  unfoldable pub generate : String → Action (World env) Error String
  generate identifier = do
    acquired ←
        command (λ now. env.redis.set_nx now (cooldown_key identifier) "1" resend_cooldown) internal
    ensure acquired too_soon
    code ← draw_code
    command (λ now s. (tt, env.redis.set now (code_key identifier) (crypto.sha256_hex code) ttl s))
        internal
    ignored {E = Error}
        (command (λ now s. (tt, env.redis.del (attempts_key identifier) s)) internal)
    pure code

  -- INCR, which refuses an entry that holds no number.
  unfoldable pub count_attempt : String → Action (World env) Error ℕ
  count_attempt identifier = do
    counted ← command (λ now. env.redis.incr now (attempts_key identifier)) internal
    or_fail counted internal

  unfoldable pub start_expiry : String → ℕ → Action (World env) Error (Unit {0})
  start_expiry identifier attempts =
      if attempts == 1
      then ignored {E = Error}
          (command (λ now s. (tt, env.redis.expire now (attempts_key identifier) ttl s)) internal)
      else pure tt

  unfoldable pub verify : String → String → Action (World env) Error (Unit {0})
  verify identifier submitted = do
    attempts ← count_attempt identifier
    start_expiry identifier attempts
    ensure (not (ltb max_attempts attempts)) too_many_attempts
    found ← command (λ now s. (env.redis.get now (code_key identifier) s, s)) internal
    stored ← or_fail found expired
    ensure (holds_hash (crypto.sha256_hex submitted) stored) invalid_code
    ignored {E = Error} (
        command
          (λ now s.
            (tt, env.redis.del (attempts_key identifier) (env.redis.del (code_key identifier) s)))
          internal)
