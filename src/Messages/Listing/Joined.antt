-- ===== src/Messages/Listing/Joined.antt =====
-- The join of ListMessages: the rows that it has for certain.
use flutter_whatsapp_clone.Base.{
  Bool, true, ◌&&◌, Option, List, [], ◌∷◌, map, any, select_where, String, str_eq, ◌==◌, ◌≡◌, ◌∙◌,
  refl, arith, Bool-cases, inl, inr,
}
use flutter_whatsapp_clone.Base.Select.{any_imp, any-append, any-map, any-select_where}
use flutter_whatsapp_clone.Models.{Uuid, Time, Message, MessageRecipient}
use flutter_whatsapp_clone.Messages.Listing.{MessageListRow, is_for, is_listed, row_of, joined}

-- A row that shows a message with its sender and this text.
abbrev pub shows : Uuid → Uuid → String → MessageListRow → Bool
shows message sender body r = r.message_id == message && r.sender_id == sender && str_eq r.body body

-- A recipient row of the message with this text, for the device.
abbrev pub carries : Uuid → Uuid → Uuid → String → MessageRecipient → Bool
carries caller device message body r =
    is_for caller device r && r.message_id == message && str_eq r.ciphertext body

-- The message itself, where it may be listed.
abbrev pub is_sent_in : Uuid → Option Time → Uuid → Uuid → Message → Bool
is_sent_in conversation cursor message sender m =
    m.id == message && is_listed conversation cursor m && m.sender_id == sender

module _ (caller device conversation : Uuid) (cursor : Option Time) (message sender : Uuid)
    (body : String) where
  any-row_of :
      (r : MessageRecipient) (ms : List Message)
      → carries caller device message body r ≡ true
      → any (is_sent_in conversation cursor message sender) ms ≡ true
      → any (shows message sender body) (
          map
            (row_of r)
            (select_where (λ m. m.id == r.message_id && is_listed conversation cursor m) ms))
        ≡ true
  any-row_of r ms c h =
      any-map (shows message sender body) (row_of r) _
      ∙ any-select_where (λ m. m.id == r.message_id && is_listed conversation cursor m)
          (λ m. shows message sender body (row_of r m)) ms
      ∙ any_imp (is_sent_in conversation cursor message sender) _ (λ m e. ground arith) ms h

  pub any-joined :
      (rs : List MessageRecipient) (ms : List Message)
      → any (carries caller device message body) rs ≡ true
      → any (is_sent_in conversation cursor message sender) ms ≡ true
      → any (shows message sender body) (joined caller device conversation cursor rs ms) ≡ true
  unfolding joined
  any-joined [] ms c h = c
  any-joined (r ∷ rs) ms c h =
      any-append (shows message sender body) _ (joined caller device conversation cursor rs ms)
      ∙ elim (Bool-cases (carries caller device message body r)) [
        | inl here ↦
            let first = any-row_of r ms here h in
            let for_device : is_for caller device r ≡ true = ground arith in
            rw (for_device, first) refl
        | inr other ↦ let rest = any-joined rs ms (ground arith) h in rw rest (ground arith)
      ]
