-- ===== src/Conversations/Create/Outcome.antt =====
-- internal/conversations/service.go: what creating a direct conversation leaves.
use flutter_whatsapp_clone.Conversations.Create.Existing.{
  IsShared, NoneShared, Found, find_existing-Found,
}
use flutter_whatsapp_clone.Base.{
  any, ==→eq, ℕ, true, false, not, ◌&&◌, some, String, List, [], ◌∷◌, ◌++◌, ◌==◌, ◌≡◌, ◌⊎◌, inl,
  inr, refl, sym, ap, ◌∙◌, subst, arith, Bool-cases, if◌then◌else◌,
}
use mathlib.Core.List.{Mem}
use flutter_whatsapp_clone.Conversations.Create.{
  find_existing_direct_conversation, Error, new_conversation, new_member, store_conversation,
  open_existing, open_new, create_direct_conversation,
}
use flutter_whatsapp_clone.Base.Sorting.{first_where_found}
use flutter_whatsapp_clone.Base.Select.{any_of_imp}
use flutter_whatsapp_clone.Models.{
  Uuid, User, Conversation, ConversationParticipant, account_is_active,
}
use flutter_whatsapp_clone.Action.{Result, ok, err, pure}
use flutter_whatsapp_clone.Action.Rules.{bind_ok, or_fail_ok, ensure_ok}
use flutter_whatsapp_clone.Store.{
  Db, Env, World, conversations_table, participants_table, advance, fits,
}
use flutter_whatsapp_clone.Store.Laws.{query_ok, insert_ok, insert_rows_ok, transaction_ok}
use flutter_whatsapp_clone.Conversations.Defs.{CreateResult, internal}

module _ (env : Env) (caller participant : Uuid) where
  -- A conversation that was created: one row, and exactly the two as its members.
  pub record Created (before after : Db) (c : Conversation) : Type 0 where
    pub made_at : ℕ
    pub conversation : c ≡ new_conversation env caller made_at
    pub fresh : any (λ x. x.id == c.id) before.conversations ≡ false
    pub joined_at : ℕ
    pub tables : after ≡ record before {
      conversations = before.conversations ++ c ∷ [];
      participants =
          before.participants
          ++ new_member env c.id caller joined_at 0
            ∷ new_member env c.id participant joined_at 1
            ∷ [];
    }

  unclashed :
      (c : Conversation) (cs : List Conversation)
      → fits conversations_table.clash cs (c ∷ []) ≡ true
      → any (λ x. x.id == c.id) cs ≡ false
  unfolding fits
  unclashed c cs h =
      any_of_imp (λ x. x.id == c.id) (conversations_table.clash c) (λ x e. ground arith) cs
        (ground arith)

  pub store_conversation_ok :
      (w w' : World env) (c : Conversation)
      → store_conversation env caller participant w ≡ (ok c, w')
      → Created w.db w'.db c
  unfolding store_conversation pure
  store_conversation_ok w w' c h =
      let (made, w₁, e₁, h₁) = bind_ok _ _ w w' c h in
      let (f₁, s₁, g₁) =
        insert_ok conversations_table (λ e. internal) (new_conversation env caller) w w₁ made e₁ in
      let (rows, w₂, e₂, h₂) = bind_ok _ _ w₁ w' c h₁ in
      let (f₂, s₂, g₂) = insert_rows_ok participants_table (λ e. internal) _ w₁ w₂ rows e₂ in
      subst Q h₂ (record {
        made_at = w.tick;
        conversation = f₁;
        fresh = unclashed made w.db.conversations g₁;
        joined_at = w₁.tick;
        tables =
            ap (λ v. v.db) s₂
            ∙ ap (with_members rows) (ap (λ v. v.db) s₁)
            ∙ ap (λ rs. with_members rs (with_conversation made w.db)) f₂;
      })
    where
      with_conversation : Conversation → Db → Db
      with_conversation x d = record d { conversations = d.conversations ++ x ∷ [] }

      with_members : List ConversationParticipant → Db → Db
      with_members rs d = record d { participants = d.participants ++ rs }

      Q : Result Error Conversation × World env → Type 0
      Q (ok r, v) = Created w.db v.db r
      Q (err e, v) = Unit {0}

  -- What an answer without an error says.
  abbrev pub Answered : Db → Db → CreateResult → Type 0
  Answered before after res =
      ((res.was_created ≡ true)
        × Created before after res.conversation
        × NoneShared env caller participant before)
      ⊎ ((res.was_created ≡ false)
          × (after ≡ before)
          × Mem res.conversation before.conversations
          × IsShared env caller participant before res.conversation.id)

  open_new_ok :
      (w w' : World env) (res : CreateResult)
      → NoneShared env caller participant w.db
      → open_new env caller participant w ≡ (ok res, w')
      → Answered w.db w'.db res
  unfolding open_new pure
  open_new_ok w w' res alone h =
      let (c, w₁, e₁, h₁) = bind_ok _ _ w w' res h in
      let (w₂, e₂, s₂) =
        transaction_ok internal (store_conversation env caller participant) w w₁ c e₁ in
      subst Q h₁ (
        inl (
          refl,
          subst (λ d. Created w.db d c) (sym (ap (λ v. v.db) s₂))
              (store_conversation_ok (advance w) w₂ c e₂),
          alone,
        ))
    where
      Q : Result Error CreateResult × World env → Type 0
      Q (ok r, v) = Answered w.db v.db r
      Q (err e, v) = Unit {0}

  open_existing_ok :
      (id : Uuid) (w w' : World env) (res : CreateResult)
      → IsShared env caller participant w.db id
      → open_existing env id w ≡ (ok res, w')
      → Answered w.db w'.db res
  unfolding open_existing pure
  open_existing_ok id w w' res shared h =
      let (found, w₁, e₁, h₁) = bind_ok _ _ w w' res h in
      let (f₁, s₁) = query_ok _ internal w w₁ found e₁ in
      let (c, w₂, e₂, h₂) = bind_ok _ _ w₁ w' res h₁ in
      let (f₂, s₂) = or_fail_ok _ _ w₁ w₂ c e₂ in
      let (m, s) = first_where_found _ _ w.db.conversations c (sym f₁ ∙ f₂) in
      subst Q h₂ (
        inr (
          refl,
          ap (λ v. v.db) (s₂ ∙ s₁),
          s,
          subst (IsShared env caller participant w.db) (sym (==→eq c.id id m)) shared,
        ))
    where
      Q : Result Error CreateResult × World env → Type 0
      Q (ok r, v) = Answered w.db v.db r
      Q (err e, v) = Unit {0}

-- A call that answers without an error was made for another user, who is stored and active; either a
-- stored conversation is returned, whose id is that of a direct one in which both are active members,
-- and nothing has changed; or the two share no conversation, or one whose id is uuid.Nil, and one direct
-- conversation of the caller is added, with exactly the two as its active members, and returned.
pub create_direct_conversation-Answered :
    (env : Env) (caller participant : Uuid) (text : String) (w w' : World env) (res : CreateResult)
    → env.parse_uuid text ≡ some participant
    → create_direct_conversation env caller text w ≡ (ok res, w')
    → ((participant == caller) ≡ false)
      × ((u : User) × Mem u w.db.users
          × (u.id ≡ participant)
          × (account_is_active u.account_status ≡ true))
      × Answered env caller participant w.db w'.db res
unfolding create_direct_conversation
create_direct_conversation-Answered env caller participant text w w' res p h =
    let (id, w₁, e₁, h₁) = bind_ok _ _ w w' res h in
    let (f₁, s₁) = or_fail_ok _ _ w w₁ id e₁ in
    let same : id ≡ participant = cc in
    let (u₂, w₂, e₂, h₂) = bind_ok _ _ w₁ w' res h₁ in
    let (f₂, s₂) = ensure_ok _ _ w₁ w₂ u₂ e₂ in
    let (found, w₃, e₃, h₃) = bind_ok _ _ w₂ w' res h₂ in
    let (f₃, s₃) = query_ok _ internal w₂ w₃ found e₃ in
    let (u, w₄, e₄, h₄) = bind_ok _ _ w₃ w' res h₃ in
    let (f₄, s₄) = or_fail_ok _ _ w₃ w₄ u e₄ in
    let (existing, w₅, e₅, h₅) = bind_ok _ _ w₄ w' res h₄ in
    let (f₅, k₅) = find_existing-Found env caller participant w₄ w₅ existing (
      subst (λ i. find_existing_direct_conversation env caller i w₄ ≡ (ok existing, w₅)) same e₅) in
    let q₂ : w₂.db ≡ w.db = ap (λ v. v.db) (s₂ ∙ s₁) in
    let q₄ : w₄.db ≡ w.db = ap (λ v. v.db) s₄ ∙ ap (λ v. v.db) s₃ ∙ q₂ in
    let q₅ : w₅.db ≡ w.db = k₅ ∙ q₄ in
    let (m, s) = first_where_found _ _ w₂.db.users u (sym f₃ ∙ f₄) in
    (
      other id same f₂,
      (u, subst (λ d. Mem u d.users) q₂ s, is_that id u same m, is_active id u m),
      subst (λ d. Answered env caller participant d w'.db res) q₅
          (opened id existing w₅ same
            (subst (λ d. Found env caller participant d existing) (sym k₅) f₅) h₅),
    )
  where
    other :
        (id : Uuid) → id ≡ participant → not (id == caller) ≡ true → (participant == caller) ≡ false
    other id same h = ground arith

    is_that :
        (id : Uuid) (u : User)
        → id ≡ participant
        → (u.id == id && account_is_active u.account_status) ≡ true
        → u.id ≡ participant
    is_that id u same h = ground arith

    is_active :
        (id : Uuid) (u : User)
        → (u.id == id && account_is_active u.account_status) ≡ true
        → account_is_active u.account_status ≡ true
    is_active id u h = ground arith

    opened :
        (id existing : Uuid) (v : World env)
        → id ≡ participant
        → Found env caller participant v.db existing
        → (if existing == 0 then open_new env caller id else open_existing env existing) v
          ≡ (ok res, w')
        → Answered env caller participant v.db w'.db res
    opened id existing v same known k = elim (Bool-cases (existing == 0)) [
      | inl none_yet ↦ open_new_ok env caller participant v w' res (known.0 none_yet) (
          subst (λ i. open_new env caller i v ≡ (ok res, w')) same
            (subst
              (λ b.
                (if b then open_new env caller id else open_existing env existing) v ≡ (ok res, w'))
              none_yet k))
      | inr there ↦ open_existing_ok env caller participant existing v w' res (known.1 there) (
          subst
            (λ b.
              (if b then open_new env caller id else open_existing env existing) v ≡ (ok res, w'))
            there k)
    ]
