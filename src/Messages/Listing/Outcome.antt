-- ===== src/Messages/Listing/Outcome.antt =====
-- ListMessages from end to end.
use flutter_whatsapp_clone.Base.{
  ◌≡◌, sym, ◌∙◌, ap, Bool, true, none, str_eq, List, Option, some, subst, map, reverse, length,
  arith, ℤ, ◌⊎◌, any, String, ltb, select_where, false, first_where, if◌then◌else◌, ◌&&◌, ◌==◌,
}
use mathlib.Core.List.{Mem}
use flutter_whatsapp_clone.Base.Sorting.{first_where_found}
use flutter_whatsapp_clone.Messages.Defs.{
  Error, invalid_before_message_id, internal, is_active_in, is_active_participant,
}
use flutter_whatsapp_clone.Models.{Message, Uuid, Time}
use flutter_whatsapp_clone.Action.{Result, ok, pure, ◌>>=◌, on_error, or_fail}
use flutter_whatsapp_clone.Base.Select.{any-eq-length}
use flutter_whatsapp_clone.Action.Rules.{bind_ok, or_fail_ok, ensure_ok}
use flutter_whatsapp_clone.Store.{Db, Env, World, query, execute}
use flutter_whatsapp_clone.Store.Laws.{query_ok}
use flutter_whatsapp_clone.Messages.Listing.{
  MessageListRow, MessageListItem, clamp_limit, item_of, mark_row, to_mark_delivered, set_delivered,
  resolve_cursor, list_rows, mark_delivered, list_messages,
}
use flutter_whatsapp_clone.Messages.Listing.Page.{IsPage, page, page-IsPage}

module _ (env : Env) where
  abbrev pub marked : List MessageListRow → Time → Db → Db
  marked rows at db = record db {
    recipients = set_delivered (to_mark_delivered rows) at db.recipients;
  }

  -- The rows shown and the tables after: both marked, or the rows as they were read and the tables
  -- as they were, or marked by an update whose reply was lost.
  abbrev pub Marks : Db → Db → List MessageListRow → List MessageListRow → Type 0
  Marks before after rows shown =
      (at : Time) × (((shown ≡ map mark_row rows) × (after ≡ marked rows at before))
        ⊎ ((shown ≡ rows) × ((after ≡ before) ⊎ (after ≡ marked rows at before))))

  mark_delivered_lem :
      (rows shown : List MessageListRow) (w w' : World env)
      → mark_delivered env rows w ≡ (ok shown, w')
      → Marks w.db w'.db rows shown
  unfolding mark_delivered ◌>>=◌ on_error execute
  mark_delivered_lem rows shown w w' h = (env.now w.tick, ground arith)

  resolve_cursor-db :
      (conversation : Uuid) (before : String) (w w' : World env) (cursor : Option Time)
      → resolve_cursor env conversation before w ≡ (ok cursor, w')
      → w'.db ≡ w.db
  unfolding resolve_cursor ◌>>=◌ or_fail query
  resolve_cursor-db conversation before w w' cursor h = ground arith

  resolve_cursor_first :
      (conversation : Uuid) (before : String) (w w' : World env) (cursor : Option Time)
      → resolve_cursor env conversation before w ≡ (ok cursor, w')
      → str_eq before "" ≡ true
      → cursor ≡ none
  unfolding resolve_cursor pure
  resolve_cursor_first conversation before w w' cursor h empty = ground arith

  -- A page that continues after another starts before a message of the conversation that is stored.
  abbrev pub IsCursor : Uuid → String → Option Time → Db → Type 0
  IsCursor conversation before cursor db =
      (m : Message) × Mem m db.messages
      × (m.conversation_id ≡ conversation)
      × (env.parse_uuid before ≡ some m.id)
      × (cursor ≡ some m.created_at)

  resolve_cursor-IsCursor :
      (conversation : Uuid) (before : String) (w w' : World env) (cursor : Option Time)
      → resolve_cursor env conversation before w ≡ (ok cursor, w')
      → str_eq before "" ≡ false
      → IsCursor conversation before cursor w.db
  unfolding resolve_cursor pure
  resolve_cursor-IsCursor conversation before w w' cursor h filled =
      let looked =
        subst
          (λ b.
            (if b then pure none else do
              before_id ← or_fail (env.parse_uuid before) invalid_before_message_id
              found ←
                  query
                    (λ db n.
                      first_where (λ m. m.id)
                        (λ m. m.id == before_id && m.conversation_id == conversation) db.messages)
                    internal
              c ← or_fail found invalid_before_message_id
              pure (some c.created_at))
              w
            ≡ (ok cursor, w'))
          filled h in
      let (id, w₁, e₁, h₁) = bind_ok _ _ w w' cursor looked in
      let (f₁, s₁) = or_fail_ok _ _ w w₁ id e₁ in
      let (found, w₂, e₂, h₂) = bind_ok _ _ w₁ w' cursor h₁ in
      let (f₂, s₂) = query_ok _ internal w₁ w₂ found e₂ in
      let (m, w₃, e₃, h₃) = bind_ok _ _ w₂ w' cursor h₂ in
      let (f₃, s₃) = or_fail_ok _ _ w₂ w₃ m e₃ in
      let (here, stored) = first_where_found _ _ w₁.db.messages m (sym f₂ ∙ f₃) in
      (
        m,
        subst (λ v. Mem m v.db.messages) s₁ stored,
        in_conversation id m here,
        f₁ ∙ ap some (sym (same_id id m here)),
        at_message m h₃,
      )
    where
      in_conversation :
          (id : Uuid) (m : Message)
          → (m.id == id && m.conversation_id == conversation) ≡ true
          → m.conversation_id ≡ conversation
      in_conversation id m e = ground arith

      same_id :
          (id : Uuid) (m : Message)
          → (m.id == id && m.conversation_id == conversation) ≡ true
          → m.id ≡ id
      same_id id m e = ground arith

      at_message :
          (m : Message) {v v' : World env}
          → ◌≡◌ {A = Result Error (Option Time) × World env}
              (ok (some m.created_at), v)
              (ok cursor, v')
          → cursor ≡ some m.created_at
      at_message m e = ground arith

  -- What a successful answer consists of.
  pub record Answer (caller device conversation : Uuid) (limit : ℤ) (before_text : String)
      (before after : Db) (items : List MessageListItem) : Type 0 where
    pub member : any (is_active_in conversation caller) before.participants ≡ true
    pub cursor : Option Time
    pub first_page : str_eq before_text "" ≡ true → cursor ≡ none
    pub next_page : str_eq before_text "" ≡ false → IsCursor conversation before_text cursor before
    pub rows : List MessageListRow
    pub newest : IsPage env caller device conversation cursor (clamp_limit limit) before rows
    pub shown : List MessageListRow
    pub oldest_first : items ≡ reverse (map (item_of env) shown)
    pub marks : Marks before after rows shown

  member_of :
      (conversation caller c : Uuid) (m : Bool) (db db₁ : Db)
      → c ≡ conversation
      → db₁ ≡ db
      → m ≡ ltb 0 (length (select_where (is_active_in c caller) db₁.participants))
      → m ≡ true
      → any (is_active_in conversation caller) db.participants ≡ true
  member_of conversation caller c m db db₁ same q f t =
      rw (← same, ← q) (ground (arith, any-eq-length (is_active_in c caller) db₁.participants))

  -- A successful ListMessages was asked by an active participant, and answers with the newest
  -- matching messages of this device, oldest first, as many as the clamped limit allows; where a
  -- message is named to continue before, it is a stored one of the conversation, and all that match are
  -- older than it.
  pub list_messages-Answer :
      (caller device : Uuid) (conversation_id : String) (conversation : Uuid) (limit : ℤ)
      (before : String) (w w' : World env) (items : List MessageListItem)
      → env.parse_uuid conversation_id ≡ some conversation
      → list_messages env caller device conversation_id limit before w ≡ (ok items, w')
      → Answer caller device conversation limit before w.db w'.db items
  unfolding list_messages pure is_active_participant list_rows
  list_messages-Answer caller device conversation_id conversation limit before w w' items p h =
      let (c, w₁, e₁, h₁) = bind_ok _ _ w w' items h in
      let (f₁, s₁) = or_fail_ok _ _ w w₁ c e₁ in
      let (m, w₂, e₂, h₂) = bind_ok _ _ w₁ w' items h₁ in
      let (f₂, s₂) = query_ok _ internal w₁ w₂ m e₂ in
      let (u, w₃, e₃, h₃) = bind_ok _ _ w₂ w' items h₂ in
      let (f₃, s₃) = ensure_ok m _ w₂ w₃ u e₃ in
      let (cursor, w₄, e₄, h₄) = bind_ok _ _ w₃ w' items h₃ in
      let d₄ = resolve_cursor-db c before w₃ w₄ cursor e₄ in
      let (rows, w₅, e₅, h₅) = bind_ok _ _ w₄ w' items h₄ in
      let (f₅, s₅) = query_ok _ internal w₄ w₅ rows e₅ in
      let (shown, w₆, e₆, h₆) = bind_ok _ _ w₅ w' items h₅ in
      let k = mark_delivered_lem rows shown w₅ w₆ e₆ in
      let same : c ≡ conversation = cc in
      let q₁ : w₁.db ≡ w.db = ap (λ v. v.db) s₁ in
      let q₃ : w₃.db ≡ w₁.db = ap (λ v. v.db) (s₃ ∙ s₂) in
      let q₄ : w₄.db ≡ w.db = d₄ ∙ q₃ ∙ q₁ in
      let q₅ : w₅.db ≡ w.db = ap (λ v. v.db) s₅ ∙ q₄ in
      let q₆ : w'.db ≡ w₆.db = ap (λ v. v.1.db) (sym h₆) in
      record {
        member = member_of conversation caller c m w.db w₁.db same q₁ f₂ f₃;
        cursor = cursor;
        first_page = λ empty. resolve_cursor_first c before w₃ w₄ cursor e₄ empty;
        next_page = λ filled.
            subst (λ v. IsCursor conversation before cursor v) (q₃ ∙ q₁)
              (subst (λ x. IsCursor x before cursor w₃.db) same
                (resolve_cursor-IsCursor c before w₃ w₄ cursor e₄ filled));
        rows = rows;
        newest =
            subst (IsPage env caller device conversation cursor (clamp_limit limit) w.db)
              (sym (
                f₅
                ∙ ap (λ v. page env caller device c cursor (clamp_limit limit) w₄.tick v) q₄
                ∙ ap (λ x. page env caller device x cursor (clamp_limit limit) w₄.tick w.db) same))
              (page-IsPage env caller device conversation cursor (clamp_limit limit) w₄.tick w.db);
        shown = shown;
        oldest_first = ground (arith, ap (λ v. v.0) h₆);
        marks =
            subst (λ v. Marks v w'.db rows shown) q₅
              (subst (λ v. Marks w₅.db v rows shown) (sym q₆) k);
      }
