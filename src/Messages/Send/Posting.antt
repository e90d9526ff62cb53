-- ===== src/Messages/Send/Posting.antt =====
-- The transaction of SendMessage: what it has written when it commits.
use mathlib.Core.List.{append-nil}
use flutter_whatsapp_clone.Base.{
  ℕ, suc, ◌≡◌, ◌≢◌, ◌∙◌, ap, true, List, [], ◌∷◌, ◌++◌, map, String, arith,
}
use flutter_whatsapp_clone.Models.{Uuid, Message, MessageRecipient}
use flutter_whatsapp_clone.Action.{ok, ◌>>=◌, on_error}
use flutter_whatsapp_clone.Action.Rules.{bind_ok}
use flutter_whatsapp_clone.Store.{Db, Env, World, write, messages_table, fits, insert_rows}
use flutter_whatsapp_clone.Store.Laws.{insert_ok}
use flutter_whatsapp_clone.Messages.Send.{
  of_insert, new_message, recipient_row, with_ids, add_recipients, build_recipient_rows,
  store_message,
}
use flutter_whatsapp_clone.Messages.Send.FanOut.{fan_out, build_recipient_rows_lem}

module _ (env : Env) (conversation caller device client_id : Uuid) (body : String) where
  -- The rows for a message stored by statement `n`.
  abbrev pub posted_rows : ℕ → Db → Uuid → List MessageRecipient
  posted_rows n db message_id =
      with_ids env (suc (suc (suc n))) 0
        (map (recipient_row env message_id body) (fan_out env conversation caller (suc n) db))

  abbrev pub posted : ℕ → Db → Message → Db
  posted n db m = record db {
    messages = db.messages ++ m ∷ [];
    recipients = db.recipients ++ posted_rows n db m.id;
  }

  add_recipients_lem :
      (m m' : Message) (rows : List MessageRecipient) (w w' : World env)
      → add_recipients env m rows w ≡ (ok m', w')
      → (m' ≡ m)
        × (w'.db ≡ record w.db { recipients = w.db.recipients ++ with_ids env w.tick 0 rows })
  unfolding add_recipients ◌>>=◌ on_error insert_rows
  add_recipients_lem m m' [] w w' h = rw (append-nil w.db.recipients) (ground arith)
  add_recipients_lem m m' (r ∷ rs) w w' h = ground arith

  with_ids-posted_rows :
      (n : ℕ) (db : Db) (id : Uuid) (rows : List MessageRecipient) (tick : ℕ)
      → rows ≡ map (recipient_row env id body) (fan_out env conversation caller (suc n) db)
      → (rows ≢ [] → tick ≡ suc (suc (suc n)))
      → with_ids env tick 0 rows ≡ posted_rows n db id
  unfolding with_ids
  with_ids-posted_rows n db id [] tick e t = ap (with_ids env (suc (suc (suc n))) 0) e
  with_ids-posted_rows n db id (r ∷ rs) tick e t =
      ap (λ k. with_ids env k 0 (r ∷ rs)) (t (λ h. cc)) ∙ ap (with_ids env _ 0) e

  stored :
      (w w₂ w' : World env) (m₁ m : Message) (rows : List MessageRecipient)
      → (w₂.db ≡ record w.db { messages = w.db.messages ++ m₁ ∷ [] })
        × (rows
            ≡ map
                (recipient_row env m₁.id body)
                (fan_out env conversation caller (suc w.tick) w.db))
        × (rows ≢ [] → w₂.tick ≡ suc (suc (suc w.tick)))
      → (m ≡ m₁)
        × (w'.db ≡ record w₂.db { recipients = w₂.db.recipients ++ with_ids env w₂.tick 0 rows })
      → (m ≡ m₁) × (w'.db ≡ posted w.tick w.db m)
  stored w w₂ w' m₁ m rows b a =
      let p = with_ids-posted_rows w.tick w.db m₁.id rows w₂.tick b.1 b.2 in
      (a.0, rw (a.0, a.1, b.0, p))

  pub store_message_lem :
      (w w' : World env) (m : Message)
      → store_message env conversation caller device client_id body w ≡ (ok m, w')
      → (m ≡ new_message env conversation caller device client_id w.tick)
        × (w'.db ≡ posted w.tick w.db m)
        × (fits messages_table.clash w.db.messages (m ∷ []) ≡ true)
  unfolding store_message
  store_message_lem w w' m h =
      let (m₁, w₁, e₁, h₁) = bind_ok _ _ w w' m h in
      let (rows, w₂, e₂, h₂) = bind_ok _ _ w₁ w' m h₁ in
      let i = insert_ok messages_table (of_insert env) _ w w₁ m₁ e₁ in
      let e₂' : build_recipient_rows env conversation caller m₁.id body
            (write (record w.db { messages = w.db.messages ++ m₁ ∷ [] }) w)
          ≡ (ok rows, w₂) =
        rw (← i.1) e₂ in
      let b = build_recipient_rows_lem env conversation caller m₁.id body _ w₂ rows e₂' in
      let s = stored w w₂ w' m₁ m rows b (add_recipients_lem m₁ m rows w₂ w' h₂) in
      (s.0 ∙ i.0, s.1, rw s.0 i.2)
