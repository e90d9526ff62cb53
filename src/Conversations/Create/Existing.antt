-- ===== src/Conversations/Create/Existing.antt =====
-- internal/conversations/service.go: what findExistingDirectConversation finds.
use flutter_whatsapp_clone.Base.{
  Bool, any, ==→eq, true, false, ◌&&◌, List, [], ◌∷◌, ◌==◌, ◌≡◌, ◌⊎◌, inl, inr, refl, sym, ap, ◌∙◌,
  subst, Perm, head?, select_where,
}
use mathlib.Core.List.{Mem, mem-cons_self}
use mathlib.Core.List.Perm
use flutter_whatsapp_clone.Conversations.Create.{
  is_direct, id_of, find_existing_direct_conversation,
}
use flutter_whatsapp_clone.Base.Sorting.{mem-select_where}
use flutter_whatsapp_clone.Base.Select.{any-and_true, any-select_where, any-perm}
use flutter_whatsapp_clone.Models.{Uuid, Conversation}
use flutter_whatsapp_clone.Action.{ok}
use flutter_whatsapp_clone.Store.{Db, Env, World}
use flutter_whatsapp_clone.Store.Laws.{query_ok}
use flutter_whatsapp_clone.Conversations.Defs.{internal}

-- A user is an active member of a conversation.
abbrev pub is_member : Db → Uuid → Uuid → Bool
is_member db id user =
    any (λ p. p.conversation_id == id && p.user_id == user && p.is_active) db.participants

-- A direct conversation in which two users are active members.
abbrev pub is_of_both : Db → Uuid → Uuid → Conversation → Bool
is_of_both db a b c = is_direct c.type && is_member db c.id a && is_member db c.id b

module _ (env : Env) (caller participant : Uuid) where
  -- The two share the conversation: it is a direct one, and either has an active row among its members.
  abbrev pub IsShared : Db → Uuid → Type 0
  IsShared before id =
      (c : Conversation) × Mem c before.conversations
      × (is_of_both before caller participant c ≡ true)
      × (c.id ≡ id)

  -- The two share none, or one whose id is uuid.Nil, which the code takes for none.
  abbrev pub NoneShared : Db → Type 0
  NoneShared before =
      (any (is_of_both before caller participant) before.conversations ≡ false) ⊎ IsShared before 0

  -- What the lookup of an existing conversation has found, if its id is the one answered.
  abbrev pub Found : Db → Uuid → Type 0
  Found before id =
      ((id == 0) ≡ true → NoneShared before) × ((id == 0) ≡ false → IsShared before id)

  arranged-Found :
      (before : Db) (cs : List Conversation)
      → Perm cs (select_where (is_of_both before caller participant) before.conversations)
      → Found before (id_of (head? cs))
  arranged-Found before [] p =
      let shared = is_of_both before caller participant in
      let none_there : any shared before.conversations ≡ false =
        sym (any-and_true shared before.conversations)
        ∙ sym (any-select_where shared (λ x. true) before.conversations)
        ∙ sym (any-perm (λ x. true) p) in
      (λ e. inl none_there, λ e. cc)
  arranged-Found before (c ∷ cs) p =
      let (hit, stored) =
        mem-select_where (is_of_both before caller participant) c before.conversations
          ((Perm.mem_iff p).0 mem-cons_self) in
      (λ e. inr (c, stored, hit, ==→eq c.id 0 e), λ e. (c, stored, hit, refl))

  pub find_existing-Found :
      (w w' : World env) (id : Uuid)
      → find_existing_direct_conversation env caller participant w ≡ (ok id, w')
      → Found w.db id × (w'.db ≡ w.db)
  unfolding find_existing_direct_conversation
  find_existing-Found w w' id h =
      let (f, s) = query_ok _ internal w w' id h in
      (
        subst (Found w.db) (sym f) (
            arranged-Found w.db _ (
              env.arrange_perm _ w.tick
                (select_where (is_of_both w.db caller participant) w.db.conversations))),
        ap (λ v. v.db) s,
      )
