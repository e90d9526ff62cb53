-- ===== src/Messages/Listing/Marking.antt =====
-- The side effect of ListMessages: which recipient rows it marks delivered.
use flutter_whatsapp_clone.Base.{
  Bool-cases, ℕ, ◌≡◌, refl, sym, ◌∙◌, Bool, true, false, ◌&&◌, List, [], ◌∷◌, Option, some, map,
  arith, ◌⊎◌, inl, inr, any, All, contains, select_where, ◌==◌, String, ℤ,
}
use flutter_whatsapp_clone.Base.Select.{any_of_imp, any-append, any-map, any-perm, any_of_imp}
use flutter_whatsapp_clone.Models.{Uuid, Time, MessageRecipient, Message, delivered, is_sent}
use flutter_whatsapp_clone.Action.{ok}
use flutter_whatsapp_clone.Store.{Db, Env, World}
use flutter_whatsapp_clone.Messages.Listing.{
  clamp_limit, MessageListRow, MessageListItem, is_for, is_listed, row_of, joined,
  to_mark_delivered, clamp_limit, set_delivered, list_messages,
}
use flutter_whatsapp_clone.Messages.Listing.Page.{IsPage}
use flutter_whatsapp_clone.Messages.Listing.Outcome.{marked, list_messages-Answer}

abbrev pub DistinctIds : List MessageRecipient → Type 0
DistinctIds [] = Unit
DistinctIds (r ∷ rs) = (any (λ x. x.id == r.id) rs ≡ false) × DistinctIds rs

abbrev pub Pointwise :
    (MessageRecipient → MessageRecipient → Type 0)
    → List MessageRecipient
    → List MessageRecipient
    → Type 0
Pointwise R [] [] = Unit
Pointwise R (x ∷ xs) (y ∷ ys) = R x y × Pointwise R xs ys
Pointwise R _ _ = ⊥

-- A row is as it was, or it was a row of this device still marked sent, and is delivered now.
abbrev pub Advances : Uuid → Uuid → MessageRecipient → MessageRecipient → Type 0
Advances caller device r r' =
    (r' ≡ r)
    ⊎ ((is_for caller device r ≡ true)
        × (is_sent r.status ≡ true)
        × (r' ≡ record r { status = delivered; delivered_at = r'.delivered_at }))

contains-to_mark_delivered :
    (i : ℕ) (rows : List MessageListRow)
    → contains (to_mark_delivered rows) i
      ≡ any (λ x. is_sent x.status && x.recipient_row_id == i) rows
unfolding to_mark_delivered
contains-to_mark_delivered i [] = refl
contains-to_mark_delivered i (r ∷ rows) = ground (arith, contains-to_mark_delivered i rows)

any_const {ℓ} : {A : Type ℓ} (b : Bool) (xs : List A) → any (λ x. b) xs ≡ true → b ≡ true
any_const b [] h = cc
any_const b (x ∷ xs) h = ground (arith, any_const b xs)

any-joined :
    (caller device conversation : Uuid) (cursor : Option Time) (i : ℕ) (rs : List MessageRecipient)
    (ms : List Message)
    → any
        (λ x. is_sent x.status && x.recipient_row_id == i)
        (joined caller device conversation cursor rs ms)
      ≡ true
    → any (λ r. (is_for caller device r && is_sent r.status) && r.id == i) rs ≡ true
unfolding joined
any-joined caller device conversation cursor i [] ms h = h
any-joined caller device conversation cursor i (r ∷ rs) ms h =
    elim (Bool-cases (is_for caller device r)) [
      | inl mine ↦
          let matches =
            select_where (λ m. m.id == r.message_id && is_listed conversation cursor m) ms in
          ground (
            arith,
            any-append (λ x. is_sent x.status && x.recipient_row_id == i) (map (row_of r) matches)
                (joined caller device conversation cursor rs ms),
            any-map (λ x. is_sent x.status && x.recipient_row_id == i) (row_of r) matches,
            any_const (is_sent r.status && r.id == i) matches,
            any-joined caller device conversation cursor i rs ms,
          )
      | inr other ↦ ground (arith, any-joined caller device conversation cursor i rs ms)
    ]

module _ (q : MessageRecipient → Bool) where
  -- A row with this id passes the test, if any row with this id does.
  abbrev Decides : List MessageRecipient → MessageRecipient → Type 0
  Decides rs r = any (λ x. q x && x.id == r.id) rs ≡ true → q r ≡ true

  Decides-cons :
      (r : MessageRecipient) (xs ys : List MessageRecipient)
      → any (λ x. x.id == r.id) ys ≡ false
      → All (Decides xs) ys
      → All (Decides (r ∷ xs)) ys
  Decides-cons r xs [] h k = tt
  Decides-cons r xs (y ∷ ys) h k =
      (λ e. k.0 (ground arith), Decides-cons r xs ys (ground arith) k.1)

  by_id : (rs : List MessageRecipient) → DistinctIds rs → All (Decides rs) rs
  by_id [] d = tt
  by_id (r ∷ rs) d =
      let none_later =
        any_of_imp (λ x. q x && x.id == r.id) (λ x. x.id == r.id) (λ x h. ground arith) rs d.0 in
      (λ e. ground arith, Decides-cons r rs rs d.0 (by_id rs d.1))

update-Pointwise :
    (caller device : Uuid) (ids : List Uuid) (at : Time) (rs : List MessageRecipient)
    → All (λ r. contains ids r.id ≡ true → (is_for caller device r && is_sent r.status) ≡ true) rs
    → Pointwise (Advances caller device) rs (set_delivered ids at rs)
update-Pointwise caller device ids at [] h = tt
update-Pointwise caller device ids at (r ∷ rs) h =
    (ground (arith, h.0), update-Pointwise caller device ids at rs h.1)

same-Pointwise :
    (caller device : Uuid) (rs : List MessageRecipient) → Pointwise (Advances caller device) rs rs
same-Pointwise caller device [] = tt
same-Pointwise caller device (r ∷ rs) = (inl refl, same-Pointwise caller device rs)

All-imp {ℓ κ} :
    {A : Type ℓ} (P Q : A → Type κ) (xs : List A) → ((x : A) → P x → Q x) → All P xs → All Q xs
All-imp P Q [] f h = tt
All-imp P Q (x ∷ xs) f h = (f x h.0, All-imp P Q xs f h.1)

module _ (env : Env) (caller device conversation : Uuid) (cursor : Option Time) where
  -- An id that the update names is that of a row of this device still marked sent.
  ids_of_page :
      (limit : ℕ) (db : Db) (rows : List MessageListRow) (i : ℕ)
      → IsPage env caller device conversation cursor limit db rows
      → contains (to_mark_delivered rows) i ≡ true
      → any (λ r. (is_for caller device r && is_sent r.status) && r.id == i) db.recipients ≡ true
  ids_of_page limit db rows i p h =
      any-joined caller device conversation cursor i db.recipients db.messages (
        sym (any-perm (λ x. is_sent x.status && x.recipient_row_id == i) p.complete)
        ∙ ground (
          arith,
          any-append (λ x. is_sent x.status && x.recipient_row_id == i) rows p.left_out,
          contains-to_mark_delivered i rows,
        ))

  marked-Advances :
      (limit : ℕ) (db : Db) (rows : List MessageListRow) (at : Time)
      → DistinctIds db.recipients
      → IsPage env caller device conversation cursor limit db rows
      → Pointwise (Advances caller device) db.recipients (marked env rows at db).recipients
  marked-Advances limit db rows at d p =
      update-Pointwise caller device (to_mark_delivered rows) at db.recipients (
        All-imp _ _ db.recipients (λ r k h. k (ids_of_page limit db rows r.id p h))
          (by_id (λ r. is_for caller device r && is_sent r.status) db.recipients d))

-- Listing changes no recipient row but those of the caller's own device that were still marked
-- sent, and these only to delivered: nothing read is ever turned back.
pub list_messages-Advances :
    (env : Env) (caller device : Uuid) (conversation_id : String) (conversation : Uuid) (limit : ℤ)
    (before : String) (w w' : World env) (items : List MessageListItem)
    → env.parse_uuid conversation_id ≡ some conversation
    → DistinctIds w.db.recipients
    → list_messages env caller device conversation_id limit before w ≡ (ok items, w')
    → Pointwise (Advances caller device) w.db.recipients w'.db.recipients
list_messages-Advances env caller device conversation_id conversation limit before w w' items p d
      h =
    let a =
      list_messages-Answer env caller device conversation_id conversation limit before w w' items p
        h in
    let m =
      marked-Advances env caller device conversation a.cursor (clamp_limit limit) w.db a.rows
        a.marks.0 d a.newest in
    elim a.marks.1 [
      | inl (shown, db) ↦ rw db m
      | inr (shown, inl db) ↦ rw db (same-Pointwise caller device w.db.recipients)
      | inr (shown, inr db) ↦ rw db m
    ]
