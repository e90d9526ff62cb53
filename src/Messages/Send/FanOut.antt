-- ===== src/Messages/Send/FanOut.antt =====
-- buildRecipientRows: the devices that a message goes to.
use mathlib.Core.List.Perm
use flutter_whatsapp_clone.Base.{
  ℕ, suc, ◌≡◌, ◌≢◌, refl, ◌∙◌, ap, Bool, true, false, not, ◌&&◌, List, [], ◌∷◌, map, Perm, any,
  contains, select_where, length, if◌then◌else◌, ◌==◌, String, arith, Bool-cases, inl, inr, subst,
}
use flutter_whatsapp_clone.Base.Select.{
  any-select_where, any-perm, any-map, select_where_congr, select_where-false, length-eq-zero,
  any-and_true,
}
use flutter_whatsapp_clone.Models.{
  Uuid, Device, ConversationParticipant, MessageRecipient, device_is_active,
}
use flutter_whatsapp_clone.Action.{ok, ◌>>=◌}
use flutter_whatsapp_clone.Store.{Db, Env, World, query}
use flutter_whatsapp_clone.Messages.Send.{is_other_in, recipient_row, build_recipient_rows}

-- An active device of another active participant, read off the tables at once.
abbrev pub is_target : Db → Uuid → Uuid → Device → Bool
is_target db conversation caller d =
    any (λ p. is_other_in conversation caller p && p.user_id == d.user_id) db.participants
    && device_is_active d.status

module _ (env : Env) (conversation caller : Uuid) where
  -- The IN list holds a user exactly if another active participant is that user.
  contains-others :
      (n u : ℕ) (ps : List ConversationParticipant)
      → contains
          (map
            (λ p. p.user_id)
            (env.arrange _ n (select_where (is_other_in conversation caller) ps)))
          u
        ≡ any (λ p. is_other_in conversation caller p && p.user_id == u) ps
  contains-others n u ps =
      any-map (λ x. x == u) (λ p. p.user_id) _
      ∙ any-perm (λ p. p.user_id == u) (env.arrange_perm _ n _)
      ∙ any-select_where (is_other_in conversation caller) (λ p. p.user_id == u) ps

  none_is_target :
      (d : Device) (ps : List ConversationParticipant)
      → any (is_other_in conversation caller) ps ≡ false
      → any (λ p. is_other_in conversation caller p && p.user_id == d.user_id) ps ≡ false
  none_is_target d [] h = refl
  none_is_target d (p ∷ ps) h = ground (arith, none_is_target d ps)

  length-others :
      (n : ℕ) (ps : List ConversationParticipant)
      → (length (env.arrange _ n (select_where (is_other_in conversation caller) ps)) == 0)
        ≡ not (any (is_other_in conversation caller) ps)
  length-others n ps =
      length-eq-zero _
      ∙ ap not (
          any-perm (λ p. true) (env.arrange_perm _ n _)
          ∙ any-select_where (is_other_in conversation caller) (λ p. true) ps
          ∙ any-and_true _ ps)

  -- The devices that the two queries deliver, asked as statements `n` and `n + 1`.
  abbrev pub fan_out : ℕ → Db → List Device
  fan_out n db =
      let others =
        env.arrange _ n (select_where (is_other_in conversation caller) db.participants) in
      if length others == 0
      then []
      else env.arrange _ (suc n) (
          select_where
            (λ d. contains (map (λ p. p.user_id) others) d.user_id && device_is_active d.status)
            db.devices)

  -- Each target once, in the order in which PostgreSQL delivers them, and no other device.
  pub fan_out-perm :
      (n : ℕ) (db : Db)
      → Perm (fan_out n db) (select_where (is_target db conversation caller) db.devices)
  fan_out-perm n db = elim (Bool-cases (any (is_other_in conversation caller) db.participants)) [
    | inl some_other ↦
        rw (length-others n db.participants, some_other)
          (subst (Perm _)
            (select_where_congr _ _
              (λ d.
                ap (λ b. b && device_is_active d.status)
                  (contains-others n d.user_id db.participants))
              db.devices)
            (env.arrange_perm _ (suc n) _))
    | inr no_other ↦
        rw
          (
            length-others n db.participants,
            no_other,
            select_where-false (is_target db conversation caller)
                (λ d.
                  ap (λ b. b && device_is_active d.status)
                    (none_is_target d db.participants no_other))
                db.devices,
          )
          (Perm.refl [])
  ]

  pub build_recipient_rows_lem :
      (message_id : Uuid) (body : String) (w w' : World env) (rows : List MessageRecipient)
      → build_recipient_rows env conversation caller message_id body w ≡ (ok rows, w')
      → (w'.db ≡ w.db)
        × (rows ≡ map (recipient_row env message_id body) (fan_out w.tick w.db))
        × (rows ≢ [] → w'.tick ≡ suc (suc w.tick))
  unfolding build_recipient_rows ◌>>=◌ query
  build_recipient_rows_lem message_id body w w' rows h = ground arith
