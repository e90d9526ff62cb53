-- ===== src/Otp/Reads.antt =====
-- internal/otp/service.go: the codes live in Redis, so that no table is changed.
use flutter_whatsapp_clone.Base.{ℕ, String}
use flutter_whatsapp_clone.Crypto.{Crypto}
use flutter_whatsapp_clone.Action.{or_fail}
use flutter_whatsapp_clone.Store.{Env}
use flutter_whatsapp_clone.Store.Keeps.{reading, Keeps, Keeps-here, keeps_rules}
use flutter_whatsapp_clone.Otp.{
  code_length, internal, generate_numeric_code, draw_code, generate, count_attempt, start_expiry,
  verify,
}

module _ (env : Env) (crypto : Crypto) where
  draw_code_reads : Keeps env reading (draw_code env crypto)
  unfolding draw_code
  draw_code_reads =
      Keeps-here (λ w. or_fail (generate_numeric_code env crypto w.tick 0 code_length) internal)
        (λ v. search keeps_rules)

  pub generate_reads : (identifier : String) → Keeps env reading (generate env crypto identifier)
  unfolding generate
  generate_reads identifier = search (keeps_rules, draw_code_reads) depth 12

  count_attempt_reads :
      (identifier : String) → Keeps env reading (count_attempt env crypto identifier)
  unfolding count_attempt
  count_attempt_reads identifier = search keeps_rules

  start_expiry_reads :
      (identifier : String) (n : ℕ) → Keeps env reading (start_expiry env crypto identifier n)
  unfolding start_expiry
  start_expiry_reads identifier n = search keeps_rules

  pub verify_reads :
      (identifier code : String) → Keeps env reading (verify env crypto identifier code)
  unfolding verify
  verify_reads identifier code =
      search (keeps_rules, count_attempt_reads, start_expiry_reads) depth 12
