-- ===== src/Auth/Accounts/Activated.antt =====
-- internal/auth/service.go: what VerifyOTP leaves.
use flutter_whatsapp_clone.Base.{
  suc, true, false, not, ◌&&◌, String, List, [], ◌∷◌, map, any, select_where, ◌==◌, ◌≡◌, refl, sym,
  ap, ◌∙◌, subst, Bool-cases, inl, inr, arith,
}
use mathlib.Core.List.{Mem}
use flutter_whatsapp_clone.Base.Sorting.{first_where_found}
use flutter_whatsapp_clone.Models.{Time, User, AccountStatus, account_is_active}
use flutter_whatsapp_clone.Crypto.{Crypto}
use flutter_whatsapp_clone.Action.{Result, ok, err, pure, raise, on_error}
use flutter_whatsapp_clone.Action.Rules.{bind_ok, or_fail_ok}
use flutter_whatsapp_clone.Store.{Db, Env, World}
use flutter_whatsapp_clone.Store.Laws.{query_ok, execute_ok}
use flutter_whatsapp_clone.Otp
use flutter_whatsapp_clone.Otp.Reads.{verify_reads}
use flutter_whatsapp_clone.Otp.Guard.{Verified, verify-Verified}
use flutter_whatsapp_clone.Auth.Defs.{VerifyOtpRequest, Error, has_identifier, internal}
use flutter_whatsapp_clone.Auth.Accounts.{
  activate_at, activate, ℕ, of_otp, find_by_identifier, activate_row, verify_otp,
}

module _ (env : Env) (crypto : Crypto) where
  -- What a verification of an account has found and left.
  pub record Activated (req : VerifyOtpRequest) (w w' : World env) (user : User) : Type 0 where
    pub checked : World env
    pub code : Verified env crypto req.identifier req.code w checked
    pub account : User
    pub stored : Mem account w.db.users
    pub identified : has_identifier env req.identifier req.identifier account ≡ true
    -- The number of the UPDATE, the last statement of the call.
    pub last : ℕ
    pub is_last : w'.tick ≡ suc last
    -- The query of the account alone stands between Verify and the UPDATE.
    pub found_between : last ≡ suc checked.tick
    pub same_cache : w'.cache ≡ checked.cache
    pub answer :
        user ≡ record (activate_row env crypto account req.identifier (env.now last) account) {
          account_status = AccountStatus.active;
        }
    pub rows :
        w'.db.users ≡ map (activate_row env crypto account req.identifier (env.now last)) w.db.users
    pub active :
        any (λ u. u.id == account.id && not (account_is_active u.account_status)) w'.db.users
        ≡ false
    pub others :
        select_where (λ u. not (u.id == account.id)) w'.db.users
        ≡ select_where (λ u. not (u.id == account.id)) w.db.users
    pub tables : w'.db ≡ record w.db { users = w'.db.users }

  module _ (account : User) (identifier : String) (now : Time) where
    all_active :
        (us : List User)
        → any
            (λ u. u.id == account.id && not (account_is_active u.account_status))
            (map (activate_row env crypto account identifier now) us)
          ≡ false
    all_active [] = refl
    all_active (u ∷ us) = elim (Bool-cases (u.id == account.id)) [
      | inl same ↦ rw same (ground (arith, same, all_active us))
      | inr differs ↦ rw differs (ground (arith, differs, all_active us))
    ]

    others_same :
        (us : List User)
        → select_where
            (λ u. not (u.id == account.id))
            (map (activate_row env crypto account identifier now) us)
          ≡ select_where (λ u. not (u.id == account.id)) us
    others_same [] = refl
    others_same (u ∷ us) = elim (Bool-cases (u.id == account.id)) [
      | inl same ↦ rw same (ground (arith, same, others_same us))
      | inr differs ↦ rw differs (rw differs (ap (λ x. u ∷ x) (others_same us)))
    ]

  otp_ok :
      (identifier code : String) (w w' : World env) (u : Unit {0})
      → on_error (Otp.verify env crypto identifier code) (λ e. raise (of_otp e)) w ≡ (ok u, w')
      → Otp.verify env crypto identifier code w ≡ (ok u, w')
  unfolding on_error raise
  otp_ok identifier code w w' u h = ground arith

-- A VerifyOTP that succeeds was given a code that Verify accepted, within its limit of attempts and
-- by the clock of its GET before it expired, for the identifier of a stored account; whatever the
-- status of the account was, it is active afterwards; the account is answered with the columns that
-- the UPDATE, the last statement, has set; no other account changes, and no other table.
pub verify_otp-Activated :
    (env : Env) (crypto : Crypto) (req : VerifyOtpRequest) (w w' : World env) (user : User)
    → verify_otp env crypto req w ≡ (ok user, w')
    → Activated env crypto req w w' user
unfolding verify_otp find_by_identifier activate activate_at pure
verify_otp-Activated env crypto req w w' user h =
    let (u₁, w₁, e₁, h₁) = bind_ok _ _ w w' user h in
    let f₁ = otp_ok env crypto req.identifier req.code w w₁ u₁ e₁ in
    let q₁ : w₁.db ≡ w.db =
      subst (λ out. out.1.db ≡ w.db) f₁ ((verify_reads env crypto req.identifier req.code).at w) in
    let (found, w₂, e₂, h₂) = bind_ok _ _ w₁ w' user h₁ in
    let (f₂, s₂) = query_ok _ internal w₁ w₂ found e₂ in
    let (account, w₃, e₃, h₃) = bind_ok _ _ w₂ w' user h₂ in
    let (f₃, s₃) = or_fail_ok _ _ w₂ w₃ account e₃ in
    let (u₄, w₄, e₄, h₄) = bind_ok _ _ w₃ w' user h₃ in
    let s₄ = execute_ok _ internal w₃ w₄ u₄ e₄ in
    let q₃ : w₃.db ≡ w.db = ap (λ v. v.db) s₃ ∙ ap (λ v. v.db) s₂ ∙ q₁ in
    let (m, s) = first_where_found _ _ w₁.db.users account (sym f₂ ∙ f₃) in
    let at = env.now w₃.tick in
    let rows : w₄.db.users ≡ map (activate_row env crypto account req.identifier at) w.db.users =
      ap (λ v. v.db.users) s₄
      ∙ ap (λ d. map (activate_row env crypto account req.identifier at) d.users) q₃ in
    subst Q h₄ (record {
      checked = w₁;
      code = verify-Verified env crypto req.identifier req.code w w₁ u₁ f₁;
      account = account;
      stored = subst (λ d. Mem account d.users) q₁ s;
      identified = m;
      last = w₃.tick;
      is_last = ap (λ v. v.tick) s₄;
      found_between = ap (λ v. v.tick) (s₃ ∙ s₂);
      same_cache = ap (λ v. v.cache) s₄ ∙ ap (λ v. v.cache) (s₃ ∙ s₂);
      answer = refl;
      rows = rows;
      active =
          ap (any (λ u. u.id == account.id && not (account_is_active u.account_status))) rows
          ∙ all_active env crypto account req.identifier at w.db.users;
      others =
          ap (select_where (λ u. not (u.id == account.id))) rows
          ∙ others_same env crypto account req.identifier at w.db.users;
      tables =
          ap (λ v. v.db) s₄
          ∙ ap (λ d. with_users (map (activate_row env crypto account req.identifier at) d.users) d)
              q₃
          ∙ ap (λ us. with_users us w.db) (sym rows);
    })
  where
    Q : Result Error User × World env → Type 0
    Q (ok r, v) = Activated env crypto req w v r
    Q (err e, v) = Unit {0}

    with_users : List User → Db → Db
    with_users us d = record d { users = us }
