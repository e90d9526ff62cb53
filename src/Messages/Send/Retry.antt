-- ===== src/Messages/Send/Retry.antt =====
-- A client that did not see the reply sends the same request again.
use flutter_whatsapp_clone.Base.{
  ℕ, suc, ◌≡◌, true, false, inl, inr, List, [], ◌∷◌, ◌++◌, any, first_where, arith, Bool-cases,
  some, ◌≤◌,
}
use flutter_whatsapp_clone.Base.Select.{
  any_of_imp, any-append_self, any-eq-length, select_where-append, select_where-nil,
}
use flutter_whatsapp_clone.Base.Sorting.{first_where_only}
use flutter_whatsapp_clone.Models.{Uuid, Message}
use flutter_whatsapp_clone.Action.{ok, ◌>>=◌, or_fail, ensure, on_error}
use flutter_whatsapp_clone.Store.{
  Env, World, done, messages_table, fits, query, insert, transaction,
}
use flutter_whatsapp_clone.Messages.Defs.{is_active_in, is_active_participant}
use flutter_whatsapp_clone.Messages.Send.{
  SendMessageRequest, SendResult, has_client_id, new_message, store_message, resolve_duplicate,
  send_message,
}
use flutter_whatsapp_clone.Messages.Send.Outcome.{
  Posted, send_message-Outcome, send_message_outsider,
}

-- The row with a client id that no earlier row has.
only_with_client_id :
    (device client_id : Uuid) (ms : List Message) (m : Message)
    → has_client_id device client_id m ≡ true
    → fits messages_table.clash ms (m ∷ []) ≡ true
    → first_where (λ x. x.id) (has_client_id device client_id) (ms ++ m ∷ []) ≡ some m
unfolding fits
only_with_client_id device client_id ms m h f =
    let earlier : any (has_client_id device client_id) ms ≡ false =
      any_of_imp (has_client_id device client_id) (messages_table.clash m) (λ x k. ground arith) ms
        (ground arith) in
    first_where_only (λ x. x.id) (has_client_id device client_id) (ms ++ m ∷ []) m
      (rw (
        select_where-append (has_client_id device client_id) ms (m ∷ []),
        select_where-nil _ ms earlier,
        h,
      ))

-- The unique index refuses a second row with this client id.
second_refused :
    (device client_id : Uuid) (ms : List Message) (m new : Message)
    → has_client_id device client_id m ≡ true
    → has_client_id device client_id new ≡ true
    → fits messages_table.clash (ms ++ m ∷ []) (new ∷ []) ≡ false
unfolding fits
second_refused device client_id ms m new h k =
    ground (arith, any-append_self (messages_table.clash new) ms m)

module _ (env : Env) (caller device : Uuid) (req : SendMessageRequest)
    (conversation client_id : Uuid) where
  stored-Posted :
      (w w' : World env) (res : SendResult)
      → env.parse_uuid req.conversation_id ≡ some conversation
      → env.parse_uuid req.client_message_id ≡ some client_id
      → send_message env caller device req w ≡ (ok res, w')
      → res.was_created ≡ true
      → (any (is_active_in conversation caller) w.db.participants ≡ true)
        × Posted conversation caller device client_id req.body w.db w'.db res.message
  stored-Posted w w' res p q sent created = (member, post)
    where
      member : any (is_active_in conversation caller) w.db.participants ≡ true
      member = elim (Bool-cases (any (is_active_in conversation caller) w.db.participants)) [
        | inl inside ↦ inside
        | inr outside ↦
            let refused =
              (send_message_outsider env caller device req conversation w p outside).0 in
            cc
      ]

      post : Posted conversation caller device client_id req.body w.db w'.db res.message
      post =
          elim (rw sent at
            (send_message-Outcome env caller device req conversation client_id w p q)) [
              | inl (flag, stored) ↦ stored
              | inr old ↦ let flag = old.0 in cc
            ]

  resend :
      (w : World env) (m : Message)
      → env.parse_uuid req.conversation_id ≡ some conversation
      → env.parse_uuid req.client_message_id ≡ some client_id
      → ((n : ℕ) → w.tick ≤ n → env.verdict n ≡ done)
      → any (is_active_in conversation caller) w.db.participants ≡ true
      → m.conversation_id ≡ conversation
      → fits messages_table.clash w.db.messages
          (new_message env conversation caller device client_id (suc (suc w.tick)) ∷ [])
        ≡ false
      → first_where (λ x. x.id) (has_client_id device client_id) w.db.messages ≡ some m
      → ((send_message env caller device req w).0
          ≡ ok (record { message = m; body = req.body; was_created = false }))
        × ((send_message env caller device req w).1.db ≡ w.db)
  unfolding send_message ◌>>=◌ or_fail ensure on_error query insert transaction
      is_active_participant store_message resolve_duplicate
  resend w m p q up member place refused found = ground (
    arith,
    any-eq-length (is_active_in conversation caller) w.db.participants,
    up w.tick (omega arith),
    up (suc w.tick) (omega arith),
    up (suc (suc w.tick)) (omega arith),
    up (suc (suc (suc w.tick))) (omega arith),
  )

  -- After a send that stored a message, the same request from the same device returns that very
  -- message, says that nothing was created, and changes no table, while the statements succeed.
  pub send_message_retry :
      (w w' : World env) (res : SendResult)
      → env.parse_uuid req.conversation_id ≡ some conversation
      → env.parse_uuid req.client_message_id ≡ some client_id
      → ((n : ℕ) → w'.tick ≤ n → env.verdict n ≡ done)
      → send_message env caller device req w ≡ (ok res, w')
      → res.was_created ≡ true
      → ((send_message env caller device req w').0
          ≡ ok (record { message = res.message; body = req.body; was_created = false }))
        × ((send_message env caller device req w').1.db ≡ w'.db)
  send_message_retry w w' res p q up sent created =
      let (member, post) = stored-Posted w w' res p q sent created in
      let mine : has_client_id device client_id res.message ≡ true =
        ground (arith, post.author, post.place) in
      resend w' res.message p q up (rw post.tables member) post.place.0
        (rw post.tables
          (second_refused device client_id w.db.messages res.message _ mine (ground arith)))
        (rw post.tables
          (only_with_client_id device client_id w.db.messages res.message mine post.fresh))
