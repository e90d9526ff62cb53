-- ===== src/Users/Found.antt =====
-- internal/users/service.go: whom a search finds.
use flutter_whatsapp_clone.Base.{
  refl, subst, Bool, true, false, not, ◌&&◌, some, String, str_eq, ◌≡◌, ◌⊎◌, inl, inr, sym, ap, ◌∙◌,
  arith, if◌then◌else◌,
}
use mathlib.Core.List.{Mem}
use flutter_whatsapp_clone.Base.Sorting.{first_where_found}
use flutter_whatsapp_clone.Models.{User, account_is_active}
use flutter_whatsapp_clone.Action.{ok}
use flutter_whatsapp_clone.Action.Rules.{bind_ok, or_fail_ok, ensure_ok}
use flutter_whatsapp_clone.Store.{Db, Env, World, same_text}
use flutter_whatsapp_clone.Store.Laws.{query_ok}
use flutter_whatsapp_clone.Users.{internal, same_bool, search}

module _ (env : Env) where
  -- An active account with the phone number, where this alone was given, or with the email, where
  -- this alone was given.
  pub record Found (phone email : String) (db : Db) (u : User) : Type 0 where
    pub stored : Mem u db.users
    pub active : account_is_active u.account_status ≡ true
    pub named :
        ((str_eq email "" ≡ true)
          × (str_eq phone "" ≡ false)
          × (same_text str_eq u.phone_number (some phone) ≡ true))
        ⊎ ((str_eq phone "" ≡ true)
            × (str_eq email "" ≡ false)
            × (same_text env.citext_eq u.email (some email) ≡ true))

  one_given :
      (p e : Bool) (by_phone by_email : Bool)
      → not (same_bool (not p) (not e)) ≡ true
      → (if p then by_email else by_phone) ≡ true
      → ((e ≡ true) × (p ≡ false) × (by_phone ≡ true))
        ⊎ ((p ≡ true) × (e ≡ false) × (by_email ≡ true))
  one_given true e by_phone by_email h k = inr (refl, ground arith, k)
  one_given false e by_phone by_email h k = inl (ground arith, refl, k)

  both : (a b : Bool) → (a && b) ≡ true → (a ≡ true) × (b ≡ true)
  both a b h = ground arith

  -- A search that succeeds was given exactly one of the two identifiers, and returns a stored, active
  -- account that has it.
  pub search-Found :
      (phone email : String) (w w' : World env) (u : User)
      → search env phone email w ≡ (ok u, w')
      → Found phone email w.db u × (w'.db ≡ w.db)
  unfolding search
  search-Found phone email w w' u h =
      let (u₁, w₁, e₁, h₁) = bind_ok _ _ w w' u h in
      let (f₁, s₁) = ensure_ok _ _ w w₁ u₁ e₁ in
      let (found, w₂, e₂, h₂) = bind_ok _ _ w₁ w' u h₁ in
      let (f₂, s₂) = query_ok _ internal w₁ w₂ found e₂ in
      let (f₃, s₃) = or_fail_ok _ _ w₂ w' u h₂ in
      let q : w₁.db ≡ w.db = ap (λ v. v.db) s₁ in
      let (m, s) = first_where_found _ _ w₁.db.users u (sym f₂ ∙ f₃) in
      let (active, has) = both _ _ m in
      (
        record {
          stored = subst (λ d. Mem u d.users) q s;
          active = active;
          named = one_given _ _ _ _ f₁ has;
        },
        ap (λ v. v.db) s₃ ∙ ap (λ v. v.db) s₂ ∙ q,
      )
