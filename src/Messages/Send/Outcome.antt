-- ===== src/Messages/Send/Outcome.antt =====
-- SendMessage from end to end: what each way of returning has done to the tables.
use mathlib.Core.List.{Mem}
use mathlib.Core.List.Perm
use flutter_whatsapp_clone.Base.{
  ℕ, suc, ◌≡◌, refl, sym, ◌∙◌, ap, true, false, ◌⊎◌, inl, inr, List, [], ◌∷◌, ◌++◌, map, length,
  ◌==◌, String, Perm, All, any, select_where, ltb, arith, Bool-cases, ==→eq, Option, some, none,
  first_where,
}
use flutter_whatsapp_clone.Base.Select.{any-eq-length}
use flutter_whatsapp_clone.Base.Sorting.{first_where_found}
use flutter_whatsapp_clone.Models.{Uuid, Device, Message, MessageRecipient, sent}
use flutter_whatsapp_clone.Action.{
  Result, ok, err, pure, raise, ◌>>=◌, ◌>>◌, on_error, or_fail, ensure, is_ok,
}
use flutter_whatsapp_clone.Action.Rules.{
  bind_ok, bind_err, bind_cases, on_error_cases, is_ok_cases, or_fail_ok, or_fail_err, ensure_ok,
  ensure_err,
}
use flutter_whatsapp_clone.Store.{Db, Env, World, advance, query, messages_table, fits, transaction}
use flutter_whatsapp_clone.Store.Laws.{query_ok, query_err, transaction_ok, transaction_err}
use flutter_whatsapp_clone.Messages.Defs.{
  Error, internal, client_message_id_reused, is_active_in, is_active_participant,
}
use flutter_whatsapp_clone.Messages.Send.{
  SendMessageRequest, SendResult, TxError, other, duplicate_client_message, has_client_id,
  recipient_row, with_ids, store_message, resolve_duplicate, on_tx_error, send_message,
}
use flutter_whatsapp_clone.Messages.Send.FanOut.{is_target, fan_out, fan_out-perm}
use flutter_whatsapp_clone.Messages.Send.Posting.{posted_rows, store_message_lem}

-- Where a recipient row goes.
abbrev pub address : MessageRecipient → Uuid × Uuid
address r = (r.recipient_user_id, r.recipient_device_id)

-- The tables after a message was stored and fanned out.
pub record Posted (conversation caller device client_id : Uuid) (body : String) (before after : Db)
    (m : Message) : Type 0 where
  pub rows : List MessageRecipient
  pub tables : after ≡ record before {
    messages = before.messages ++ m ∷ [];
    recipients = before.recipients ++ rows;
  }
  -- One row for each active device of each other active participant, and none besides.
  pub addressed : Perm (map address rows) (
      map
        (λ d. (d.user_id, d.id))
        (select_where (is_target before conversation caller) before.devices))
  pub content : All (λ r. (r.message_id ≡ m.id) × (r.ciphertext ≡ body) × (r.status ≡ sent)) rows
  pub author : (m.sender_id ≡ caller) × (m.sender_device_id ≡ device)
  pub place : (m.conversation_id ≡ conversation) × (m.client_message_id ≡ client_id)
  pub undeleted : m.deleted_at ≡ none
  -- It clashes with no earlier message.
  pub fresh : fits messages_table.clash before.messages (m ∷ []) ≡ true

module _ (env : Env) (message_id : Uuid) (body : String) where
  address-with_ids :
      (n i : ℕ) (ds : List Device)
      → map address (with_ids env n i (map (recipient_row env message_id body) ds))
        ≡ map (λ d. (d.user_id, d.id)) ds
  unfolding with_ids
  address-with_ids n i [] = refl
  address-with_ids n i (d ∷ ds) = rw (address-with_ids n (suc i) ds)

  content-with_ids :
      (n i : ℕ) (ds : List Device)
      → All
          (λ r. (r.message_id ≡ message_id) × (r.ciphertext ≡ body) × (r.status ≡ sent))
          (with_ids env n i (map (recipient_row env message_id body) ds))
  unfolding with_ids
  content-with_ids n i [] = tt
  content-with_ids n i (d ∷ ds) = ((refl, refl, refl), content-with_ids n (suc i) ds)

module _ (env : Env) (conversation caller device client_id : Uuid) (body : String) where
  store_message-Posted :
      (w w' : World env) (m : Message)
      → store_message env conversation caller device client_id body w ≡ (ok m, w')
      → Posted conversation caller device client_id body w.db w'.db m
  store_message-Posted w w' m h =
      let (e, t, f) = store_message_lem env conversation caller device client_id body w w' m h in
      record {
        rows = posted_rows env conversation caller device client_id body w.tick w.db m.id;
        tables = t;
        addressed =
            rw
              (address-with_ids env m.id body (suc (suc (suc w.tick))) 0
                (fan_out env conversation caller (suc w.tick) w.db))
              (Perm.map _ (fan_out-perm env conversation caller (suc w.tick) w.db));
        content = content-with_ids env m.id body _ 0 _;
        author = ground arith;
        place = ground arith;
        undeleted = ap (λ x. x.deleted_at) e;
        fresh = f;
      }

  -- How SendMessage may end once the caller is known to be a participant.
  abbrev pub Outcome : Db → Result Error SendResult × World env → Type 0
  Outcome before (ok res, w') =
      ((res.was_created ≡ true)
        × Posted conversation caller device client_id body before w'.db res.message)
      ⊎ ((res.was_created ≡ false)
          × (w'.db ≡ before)
          × Mem res.message before.messages
          × (has_client_id device client_id res.message ≡ true)
          × (res.message.conversation_id ≡ conversation))
  Outcome before (err e, w') =
      (w'.db ≡ before)
      ⊎ ((e ≡ internal)
          × (m : Message) × Posted conversation caller device client_id body before w'.db m)

  answer_duplicate :
      (before : Db) (found : Option Message) (w : World env)
      → w.db ≡ before
      → ((m : Message)
          → found ≡ some m
          → (has_client_id device client_id m ≡ true) × Mem m before.messages)
      → Outcome before (
          (do
            existing ← or_fail found internal
            ensure (existing.conversation_id == conversation) client_message_id_reused
            pure (record { message = existing; body = body; was_created = false }))
            w)
  unfolding or_fail ensure ◌>>=◌
  answer_duplicate before none w h known = inl h
  answer_duplicate before (some m) w h known =
      elim (Bool-cases (m.conversation_id == conversation)) [
        | inl same ↦ rw same (inr (refl, h, (known m refl).1, (known m refl).0, ==→eq _ _ same))
        | inr reused ↦ rw reused (inl h)
      ]

  resolve_duplicate-Outcome :
      (before : Db) (w : World env)
      → w.db ≡ before
      → Outcome before (resolve_duplicate env conversation device client_id body w)
  unfolding resolve_duplicate
  resolve_duplicate-Outcome before w h =
      bind_cases (Outcome before) _ _ w
        (λ found w₁ e.
          let (f, s) = query_ok _ internal w w₁ found e in
          answer_duplicate before found w₁ (ap (λ v. v.db) s ∙ h) (λ m q.
            let k : first_where (λ x. x.id) (has_client_id device client_id) before.messages
                ≡ some m =
              rw (← h) (sym f ∙ q) in
            first_where_found _ _ before.messages m k))
        (λ e w₁ q. inl (ap (λ v. v.db) (query_err _ internal e w w₁ q).1 ∙ h))

  -- What the handler of the transaction's error leaves.
  on_tx_error-Outcome :
      (before : Db) (e : TxError) (w : World env)
      → (w.db ≡ before)
      → Outcome before (on_tx_error env conversation device client_id body e w)
  unfolding raise
  on_tx_error-Outcome before duplicate_client_message w h = resolve_duplicate-Outcome before w h
  on_tx_error-Outcome before other w h = inl h

  -- The transaction, and the resolution of its error.
  post-Outcome :
      (before : Db) (w : World env)
      → w.db ≡ before
      → Outcome before (
          on_error
            (do
              message ←
                  transaction other (store_message env conversation caller device client_id body)
              pure (record { message = message; body = body; was_created = true }))
            (on_tx_error env conversation device client_id body)
            w)
  unfolding pure raise
  post-Outcome before w h =
      on_error_cases (Outcome before) _ _ w
        (λ res w' e.
          let (m, w₁, t, p) = bind_ok _ _ w w' res e in
          let (w₂, s, c) = transaction_ok _ _ w w₁ m t in
          let r : res ≡ record { message = m; body = body; was_created = true } = cc in
          let q : w'.db ≡ w₂.db = ground (arith, ap (λ v. v.1) p) in
          rw (r, q, ← h) (inl (refl, store_message-Posted (advance w) w₂ m s)))
        (λ x w' e. elim (bind_err _ _ w w' x e) [
          | inl t ↦ elim (transaction_err other x _ w w' t) [
            | inl same ↦ on_tx_error-Outcome before x w' (same ∙ h)
            | inr (lost_reply, done_all, q) ↦
                let (m, s) =
                  is_ok_cases (store_message env conversation caller device client_id body)
                    (advance w) done_all in
                rw (lost_reply, q, ← h) (inr (refl, m, store_message-Posted (advance w) _ m s))
          ]
          | inr (m, w₁, t, p) ↦ cc
        ])

-- A request with well-formed ids: SendMessage returns the message that it has just stored and
-- fanned out, or the message stored under this client id before, or an error; whatever the
-- statements do, the tables are as before or hold the message with all of its recipient rows.
pub send_message-Outcome :
    (env : Env) (caller device : Uuid) (req : SendMessageRequest) (conversation client_id : Uuid)
    (w : World env)
    → env.parse_uuid req.conversation_id ≡ some conversation
    → env.parse_uuid req.client_message_id ≡ some client_id
    → Outcome env conversation caller device client_id req.body w.db
        (send_message env caller device req w)
unfolding send_message is_active_participant
send_message-Outcome env caller device req conversation client_id w p q =
    bind_cases P _ _ w
      (λ a w₁ e₁.
        let (f₁, s₁) = or_fail_ok _ _ w w₁ a e₁ in
        let same₁ : a ≡ conversation = cc in
        rw same₁ (
          bind_cases P _ _ w₁
            (λ b w₂ e₂.
              let (f₂, s₂) = or_fail_ok _ _ w₁ w₂ b e₂ in
              let same₂ : b ≡ client_id = cc in
              rw same₂ (
                bind_cases P _ _ w₂
                  (λ member w₃ e₃.
                    let (f₃, s₃) =
                      query_ok
                        (λ db n. ltb 0 (
                          length (select_where (is_active_in conversation caller) db.participants)))
                        internal w₂ w₃ member e₃ in
                    bind_cases P _ _ w₃
                      (λ u w₄ e₄.
                        let (f₄, s₄) = ensure_ok _ _ w₃ w₄ u e₄ in
                        post-Outcome env conversation caller device client_id req.body w.db w₄
                          (rw (s₄, s₃, s₂, s₁)))
                      (λ x w₄ e₄.
                        let (f₄, s₄) = ensure_err _ _ x w₃ w₄ e₄ in inl (rw (s₄, s₃, s₂, s₁))))
                  (λ x w₃ e₃.
                    let (f₃, s₃) =
                      query_err
                        (λ db n. ltb 0 (
                          length (select_where (is_active_in conversation caller) db.participants)))
                        internal x w₂ w₃ e₃ in
                    inl (rw (s₃, s₂, s₁)))))
            (λ x w₂ e₂. let (f₂, s₂) = or_fail_err _ _ x w₁ w₂ e₂ in inl (rw (s₂, s₁)))))
      (λ x w₁ e₁. let (f₁, s₁) = or_fail_err _ _ x w w₁ e₁ in inl (rw s₁))
  where
    P : Result Error SendResult × World env → Type 0
    P = Outcome env conversation caller device client_id req.body w.db

-- Who is not an active participant stores nothing and is answered with an error.
pub send_message_outsider :
    (env : Env) (caller device : Uuid) (req : SendMessageRequest) (conversation : Uuid)
    (w : World env)
    → env.parse_uuid req.conversation_id ≡ some conversation
    → any (is_active_in conversation caller) w.db.participants ≡ false
    → (is_ok (send_message env caller device req w).0 ≡ false)
      × ((send_message env caller device req w).1.db ≡ w.db)
unfolding send_message ◌>>=◌ or_fail ensure query is_active_participant
send_message_outsider env caller device req conversation w p outsider =
    ground (arith, any-eq-length (is_active_in conversation caller) w.db.participants)
