-- ===== src/History/Delivery.antt =====
-- internal/messages: a message that was sent, and the pages that are asked for later.
use mathlib.Core.List.{Mem, append-nil}
use flutter_whatsapp_clone.Base.{
  ℕ, Bool, true, ◌&&◌, ℤ, none, some, List, [], ◌∷◌, ◌++◌, map, length, any, All, String, str_eq,
  eq_iff, ◌==◌, ◌≡◌, ◌≢◌, ◌⊎◌, inl, inr, refl, sym, ap, ◌∙◌, subst, arith, Bool-cases,
}
use flutter_whatsapp_clone.Base.Select.{
  any_imp, any-append, any-append_self, any-map, any-perm, any-reverse, any-select_where, any_congr,
  length-map, length-reverse,
}
use flutter_whatsapp_clone.Base.Sorting.{any-mem}
use flutter_whatsapp_clone.Models.{Uuid, Device, Message, MessageRecipient, is_sent, sent}
use flutter_whatsapp_clone.Crypto.{Crypto}
use flutter_whatsapp_clone.Action.{ok}
use flutter_whatsapp_clone.Store.{Db, Env, World}
use flutter_whatsapp_clone.Messages.Send.{SendMessageRequest, SendResult, send_message}
use flutter_whatsapp_clone.Messages.Send.FanOut.{is_target}
use flutter_whatsapp_clone.Messages.Send.Outcome.{Posted, Outcome, address, send_message-Outcome}
use flutter_whatsapp_clone.Messages.Listing.{
  MessageListRow, MessageListItem, is_for, joined, item_of, mark_row, clamp_limit, list_messages,
}
use flutter_whatsapp_clone.Messages.Listing.Joined.{shows, carries, is_sent_in, any-joined}
use flutter_whatsapp_clone.Messages.Listing.Outcome.{Marks, Answer, list_messages-Answer}
use flutter_whatsapp_clone.Server.{serve_all, Request}
use flutter_whatsapp_clone.History.Kept.{any-Kept}
use flutter_whatsapp_clone.History.Grows.{always, as_it_is, lasting_recipient}
use flutter_whatsapp_clone.History.Requests.{serve_all-Grows}

-- An item of the answer that shows a message with its sender and this text.
abbrev pub shows_item : Env → Uuid → Uuid → String → MessageListItem → Bool
shows_item env message sender body i =
    str_eq i.id (env.uuid_string message)
    && str_eq i.sender_id (env.uuid_string sender)
    && str_eq i.body body

carried :
    (caller device message : Uuid) (body : String) (rows : List MessageRecipient)
    → All (λ r. (r.message_id ≡ message) × (r.ciphertext ≡ body) × (r.status ≡ sent)) rows
    → any (is_for caller device) rows ≡ true
    → any (carries caller device message body) rows ≡ true
carried caller device message body [] a h = h
carried caller device message body (r ∷ rs) ((m, t, s), a) h =
    elim (Bool-cases (is_for caller device r)) [
      | inl here ↦
          let same : str_eq r.ciphertext body ≡ true = (eq_iff r.ciphertext body).1 t in
          ground arith
      | inr other ↦
          let rest = carried caller device message body rs a (ground arith) in
          rw rest (ground arith)
    ]

-- The rows of a stored message have one for each device that it is for.
module _ (conversation caller device client_id : Uuid) (body : String) (before after : Db)
    (m : Message) (p : Posted conversation caller device client_id body before after m) where
  any-Posted :
      (d : Device)
      → Mem d before.devices
      → is_target before conversation caller d ≡ true
      → any (carries d.user_id d.id m.id body) after.recipients ≡ true
  any-Posted d stored target =
      let at = λ (a : Uuid × Uuid). a.0 == d.user_id && a.1 == d.id in
      let addressed : any (is_for d.user_id d.id) p.rows ≡ true =
        sym (any-map at address p.rows)
        ∙ any-perm at p.addressed
        ∙ any-map at (λ (x : Device). (x.user_id, x.id)) _
        ∙ any-select_where (is_target before conversation caller)
            (λ x. x.user_id == d.user_id && x.id == d.id) before.devices
        ∙ any-mem _ d before.devices stored (ground arith) in
      let here = carried d.user_id d.id m.id body p.rows p.content addressed in
      ap (λ x. any (carries d.user_id d.id m.id body) x.recipients) p.tables
      ∙ any-append (carries d.user_id d.id m.id body) before.recipients p.rows
      ∙ rw here (ground arith)

  sent_in-Posted : any (is_sent_in conversation none m.id caller) after.messages ≡ true
  sent_in-Posted =
      let (s, e) = p.author in
      let (c, i) = p.place in
      let gone = p.undeleted in
      ap (λ x. any (is_sent_in conversation none m.id caller) x.messages) p.tables
      ∙ any-append_self (is_sent_in conversation none m.id caller) before.messages m (
          let here : (m.conversation_id == conversation) ≡ true = ground arith in
          let author : (m.sender_id == caller) ≡ true = ground arith in
          rw (gone, here, author) (ground arith))

module _ (env : Env) (message sender : Uuid) (body : String) where
  shows-item_of :
      (r : MessageListRow)
      → shows message sender body r ≡ true
      → shows_item env message sender body (item_of env r) ≡ true
  shows-item_of r h =
      let id : r.message_id ≡ message = ground arith in
      let author : r.sender_id ≡ sender = ground arith in
      let same_id = (eq_iff _ _).1 (ap env.uuid_string id) in
      let same_author = (eq_iff _ _).1 (ap env.uuid_string author) in
      rw (same_id, same_author) (ground arith)

  -- The rows shown are those of the page, but for their status.
  any-Marks :
      (before after : Db) (rows shown : List MessageListRow)
      → Marks env before after rows shown
      → (any (shows message sender body) shown ≡ any (shows message sender body) rows)
        × (length shown ≡ length rows)
  any-Marks before after rows shown (at, inl (q, _)) = (
    ap (any (shows message sender body)) q
        ∙ any-map (shows message sender body) mark_row rows
        ∙ any_congr _ (shows message sender body) (λ r. ground arith) rows,
    ap length q ∙ length-map mark_row rows,
  )
  any-Marks before after rows shown (at, inr (q, _)) =
      (ap (any (shows message sender body)) q, ap length q)

  either :
      (rows left_out : List MessageListRow) (limit : ℕ)
      → any (shows message sender body) (rows ++ left_out) ≡ true
      → (left_out ≢ [] → length rows ≡ limit)
      → (any (shows message sender body) rows ≡ true) ⊎ (length rows ≡ limit)
  either rows [] limit h full =
      inl (ap (any (shows message sender body)) (sym (append-nil rows)) ∙ h)
  either rows (x ∷ xs) limit h full = inr (full (λ e. cc))

  -- What matches is in the answer, or the page is full.
  listed-Answer :
      (caller device conversation : Uuid) (limit : ℤ) (before after : Db)
      (items : List MessageListItem)
      → Answer env caller device conversation limit "" before after items
      → any (carries caller device message body) before.recipients ≡ true
      → any (is_sent_in conversation none message sender) before.messages ≡ true
      → (any (shows_item env message sender body) items ≡ true) ⊎ (length items ≡ clamp_limit limit)
  listed-Answer caller device conversation limit before after items a r m =
      let page = a.newest in
      let found =
        any-joined caller device conversation none message sender body before.recipients
          before.messages r m in
      let whole =
        any-perm (shows message sender body) page.complete
        ∙ ap
            (λ c.
              any (shows message sender body)
                (joined caller device conversation c before.recipients before.messages))
            (a.first_page refl)
        ∙ found in
      let (shown_same, shown_length) = any-Marks before after a.rows a.shown a.marks in
      let answered =
        ap (any (shows_item env message sender body)) a.oldest_first
        ∙ any-reverse _ (map (item_of env) a.shown)
        ∙ any-map (shows_item env message sender body) (item_of env) a.shown in
      let many =
        ap length a.oldest_first
        ∙ length-reverse _
        ∙ length-map (item_of env) a.shown
        ∙ shown_length in
      elim (either a.rows page.left_out (clamp_limit limit) whole page.full) [
        | inl here ↦ inl (
            answered
            ∙ any_imp (shows message sender body) _ shows-item_of a.shown (shown_same ∙ here))
        | inr full ↦ inr (many ∙ full)
      ]

-- A message that was sent is there for each active device of the other active participants: after any
-- requests that follow, a first page that the device asks for has an item with the id of the message,
-- its sender and its text, or is full.
pub send_message-list_messages :
    (env : Env) (crypto : Crypto) (secret : String) (caller device : Uuid)
    (req : SendMessageRequest) (conversation client_id : Uuid) (d : Device) (limit : ℤ)
    (requests : List Request) (w w₁ v : World env) (res : SendResult) (items : List MessageListItem)
    → env.parse_uuid req.conversation_id ≡ some conversation
    → env.parse_uuid req.client_message_id ≡ some client_id
    → send_message env caller device req w ≡ (ok res, w₁)
    → res.was_created ≡ true
    → Mem d w.db.devices
    → is_target w.db conversation caller d ≡ true
    → list_messages env d.user_id d.id req.conversation_id limit ""
        (serve_all env crypto secret requests w₁)
      ≡ (ok items, v)
    → (any (shows_item env res.message.id caller req.body) items ≡ true)
      ⊎ (length items ≡ clamp_limit limit)
send_message-list_messages env crypto secret caller device req conversation client_id d limit
      requests w w₁ v res items hc hi sent_ok created stored target listed =
    let w₂ = serve_all env crypto secret requests w₁ in
    let p = posted (
      subst (Outcome env conversation caller device client_id req.body w.db) sent_ok
        (send_message-Outcome env caller device req conversation client_id w hc hi)) in
    let answer =
      list_messages-Answer env d.user_id d.id req.conversation_id conversation limit "" w₂ v items
        hc listed in
    let later = serve_all-Grows env crypto secret requests w₁ in
    let message = res.message.id in
    listed-Answer env message caller req.body d.user_id d.id conversation limit w₂.db v.db items
      answer
      (any-Kept lasting_recipient (λ r. is_sent r.status) (carries d.user_id d.id message req.body)
        (λ r. refl) w₁.db.recipients w₂.db.recipients later.recipients
        (any-Posted conversation caller device client_id req.body w.db w₁.db res.message p d stored
          target))
      (any-Kept as_it_is always (is_sent_in conversation none message caller) (λ m. refl)
        w₁.db.messages w₂.db.messages later.messages
        (sent_in-Posted conversation caller device client_id req.body w.db w₁.db res.message p))
  where
    posted :
        Outcome env conversation caller device client_id req.body w.db (ok res, w₁)
        → Posted conversation caller device client_id req.body w.db w₁.db res.message
    posted (inl (c, p)) = p
    posted (inr (c, same, found, own, place)) = cc
