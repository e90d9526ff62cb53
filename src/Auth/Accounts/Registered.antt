-- ===== src/Auth/Accounts/Registered.antt =====
-- internal/auth/service.go: what a registration leaves.
use flutter_whatsapp_clone.Base.{
  true, false, not, ◌&&◌, none, String, [], ◌∷◌, ◌++◌, any, length, select_where, ◌==◌, str_eq, ◌≡◌,
  sym, ap, ◌∙◌, subst, arith,
}
use flutter_whatsapp_clone.Base.Select.{any-eq-length}
use flutter_whatsapp_clone.Models.{User, AccountStatus}
use flutter_whatsapp_clone.Crypto.{Crypto}
use flutter_whatsapp_clone.Action.{Result, ok, err, pure}
use flutter_whatsapp_clone.Action.Rules.{bind_ok, or_fail_ok, ensure_ok}
use flutter_whatsapp_clone.Store.{Db, Env, World, fits, users_table}
use flutter_whatsapp_clone.Store.Laws.{query_ok, insert_ok}
use flutter_whatsapp_clone.Store.Keeps.{Keeps-ignored}
use flutter_whatsapp_clone.Otp.Reads.{generate_reads}
use flutter_whatsapp_clone.Auth.Defs.{RegisterRequest, Error, internal}
use flutter_whatsapp_clone.Auth.Accounts.{
  given, is_taken_by, of_insert, hash_password, identifier_of, register,
}

module _ (env : Env) (crypto : Crypto) where
  pub record Registered (req : RegisterRequest) (before after : Db) (user : User) : Type 0 where
    pub identified : (str_eq req.phone_number "" && str_eq req.email "") ≡ false
    pub fresh : any (is_taken_by env crypto req) before.users ≡ false
    pub tables : after ≡ record before { users = before.users ++ user ∷ [] }
    pub admitted : fits (users_table env).clash before.users (user ∷ []) ≡ true
    pub pending : user.account_status ≡ AccountStatus.pending_verification
    pub unverified : (user.phone_verified_at ≡ none) × (user.email_verified_at ≡ none)
    pub identifiers : (user.phone_number ≡ given req.phone_number) × (user.email ≡ given req.email)
    pub name : user.name ≡ req.name
    pub password : crypto.bcrypt_matches user.password_hash req.password ≡ true

  hash_password_ok :
      (password hash : String) (w w' : World env)
      → hash_password env crypto password w ≡ (ok hash, w')
      → (crypto.bcrypt_matches hash password ≡ true) × (w' ≡ w)
  unfolding hash_password
  hash_password_ok password hash w w' h =
      let (f, s) = or_fail_ok _ _ w w' hash h in (crypto.bcrypt-matches w.tick hash password f, s)

-- A registration that succeeds gave a phone number or an email, and no stored account had either; it
-- adds exactly one account, pending verification, with what was given, whose stored hash matches the
-- password, though the sending of the code may have failed; no other table changes.
pub register-Registered :
    (env : Env) (crypto : Crypto) (req : RegisterRequest) (w w' : World env) (user : User)
    → register env crypto req w ≡ (ok user, w')
    → Registered env crypto req w.db w'.db user
unfolding register pure
register-Registered env crypto req w w' user h =
    let (u₀, w₀, e₀, h₀) = bind_ok _ _ w w' user h in
    let (f₀, s₀) = ensure_ok _ _ w w₀ u₀ e₀ in
    let (count, w₁, e₁, h₁) = bind_ok _ _ w₀ w' user h₀ in
    let (f₁, s₁) = query_ok _ internal w₀ w₁ count e₁ in
    let (u₂, w₂, e₂, h₂) = bind_ok _ _ w₁ w' user h₁ in
    let (f₂, s₂) = ensure_ok _ _ w₁ w₂ u₂ e₂ in
    let (hash, w₃, e₃, h₃) = bind_ok _ _ w₂ w' user h₂ in
    let (f₃, s₃) = hash_password_ok env crypto req.password hash w₂ w₃ e₃ in
    let (new, w₄, e₄, h₄) = bind_ok _ _ w₃ w' user h₃ in
    let (f₄, s₄, g₄) = insert_ok (users_table env) (of_insert env crypto) _ w₃ w₄ new e₄ in
    let (u₅, w₅, e₅, h₅) = bind_ok _ _ w₄ w' user h₄ in
    let same : w₃.db ≡ w.db = ap (λ v. v.db) (s₃ ∙ s₂) ∙ ap (λ v. v.db) s₁ ∙ ap (λ v. v.db) s₀ in
    let sent : w₅.db ≡ w₄.db =
      sym (ap (λ r. r.1.db) e₅)
      ∙ (Keeps-ignored {F = Error} _ (generate_reads env crypto (identifier_of env crypto req))).at
          w₄ in
    subst Q h₅ (record {
      identified = ground arith;
      fresh =
          any-eq-length (is_taken_by env crypto req) w.db.users
          ∙ ap not (
              ap (λ n. n == 0)
                (sym
                  (f₁ ∙ ap (λ v. length (select_where (is_taken_by env crypto req) v.db.users)) s₀))
              ∙ f₂);
      tables = sent ∙ ap (λ v. v.db) s₄ ∙ ap (with_user new) same;
      admitted = subst (λ d. fits (users_table env).clash d.users (new ∷ []) ≡ true) same g₄;
      pending = ap (λ x. x.account_status) f₄;
      unverified = (ap (λ x. x.phone_verified_at) f₄, ap (λ x. x.email_verified_at) f₄);
      identifiers = (ap (λ x. x.phone_number) f₄, ap (λ x. x.email) f₄);
      name = ap (λ x. x.name) f₄;
      password = ap (λ x. crypto.bcrypt_matches x.password_hash req.password) f₄ ∙ f₃;
    })
  where
    with_user : User → Db → Db
    with_user u d = record d { users = d.users ++ u ∷ [] }

    Q : Result Error User × World env → Type 0
    Q (ok r, v) = Registered env crypto req w.db v.db r
    Q (err e, v) = Unit {0}
