-- ===== src/Tests/Otp.antt =====
-- Verifying a one-time code in the sample world.
use flutter_whatsapp_clone.Base.{
  some, first_where, order_by, insert_sorted, ◌≤◌, List, [], ◌∷◌, String, refl, arith,
}
use flutter_whatsapp_clone.Action.{◌>>=◌, or_fail, ensure, on_error}
use flutter_whatsapp_clone.Store.{World, query, execute, command, ignored}
use flutter_whatsapp_clone.Otp.{
  with_digit, generate_numeric_code, draw_code, count_attempt, start_expiry, verify, generate,
}
use flutter_whatsapp_clone.Otp.Attempts.{compare_all}
use flutter_whatsapp_clone.Otp.Limit.{generate-compare_all}
use flutter_whatsapp_clone.Otp.Guard.{Verified, verify-Verified}
use flutter_whatsapp_clone.Models.{User, AccountStatus}
use flutter_whatsapp_clone.Auth.Defs.{VerifyOtpRequest}
use flutter_whatsapp_clone.Auth.Accounts.{activate_at, activate, verify_otp, find_by_identifier}
use flutter_whatsapp_clone.Auth.Accounts.Activated.{Activated, verify_otp-Activated}
use flutter_whatsapp_clone.Tests.Fixtures.{calm, spell, a_world, a_user}
use flutter_whatsapp_clone.Tests.Auth.{plain, first_claims}

-- A code was asked for, and it is "777777".
abbrev asked_world : World calm
asked_world = (generate calm (plain first_claims) "i" a_world).1

abbrev verified_world : World calm
verified_world = (verify calm (plain first_claims) "i" "777777" asked_world).1

verify-Verified_example : Verified calm (plain first_claims) "i" "777777" asked_world verified_world
unfolding verify generate draw_code generate_numeric_code with_digit count_attempt start_expiry
    command ignored or_fail ensure ◌>>=◌
verify-Verified_example =
    verify-Verified calm (plain first_claims) "i" "777777" asked_world verified_world tt refl

-- Seven texts are submitted, the code among them as the sixth.
abbrev seven_texts : List String
seven_texts = "0" ∷ "1" ∷ "2" ∷ "3" ∷ "4" ∷ "777777" ∷ "5" ∷ []

generate-compare_all_example : compare_all calm (plain first_claims) "i" seven_texts asked_world ≤ 5
unfolding generate draw_code generate_numeric_code with_digit command ignored or_fail ensure ◌>>=◌
generate-compare_all_example =
    generate-compare_all calm (plain first_claims) "i" seven_texts a_world asked_world "777777"
      (λ m n le. omega (arith, le)) refl (λ n e. λ h. cc)

-- User 1 is not verified yet, asks for a code, and gives it.
abbrev pending_user : User
pending_user = record (a_user 1) { account_status = AccountStatus.pending_verification }

abbrev pending_world : World calm
pending_world = record a_world { db = record a_world.db { users = pending_user ∷ a_user 2 ∷ [] } }

abbrev sent_world : World calm
sent_world = (generate calm (plain first_claims) (spell 1) pending_world).1

abbrev a_verification : VerifyOtpRequest
a_verification = record { identifier = spell 1; code = "777777" }

abbrev activated_world : World calm
activated_world = (verify_otp calm (plain first_claims) a_verification sent_world).1

-- The UPDATE is the statement 8.
abbrev activated_user : User
activated_user = record (a_user 1) { phone_verified_at = some 1008; updated_at = 1008 }

verify_otp-Activated_example :
    Activated calm (plain first_claims) a_verification sent_world activated_world activated_user
unfolding verify generate draw_code generate_numeric_code with_digit count_attempt start_expiry
    command ignored or_fail ensure verify_otp activate activate_at find_by_identifier query execute
    on_error first_where order_by insert_sorted ◌>>=◌
verify_otp-Activated_example =
    verify_otp-Activated calm (plain first_claims) a_verification sent_world activated_world
      activated_user refl
