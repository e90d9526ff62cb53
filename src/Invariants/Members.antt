-- ===== src/Invariants/Members.antt =====
-- The tables of conversations as one picture: who is a member of what.
use flutter_whatsapp_clone.Base.{
  Bool, true, false, ◌&&◌, List, [], ◌∷◌, ◌++◌, any, All, length, select_where, ◌==◌, ◌≡◌, refl,
  arith, ◌∙◌, subst, sym, Bool-cases, inl, inr,
}
use flutter_whatsapp_clone.Base.Select.{All-append, any-append, any-append_self}
use flutter_whatsapp_clone.Models.{Uuid, Conversation, ConversationParticipant, is_direct}

abbrev pub is_stored : Uuid → List Conversation → Bool
is_stored id cs = any (λ c. c.id == id) cs

abbrev member_of : Uuid → ConversationParticipant → Bool
member_of id p = p.conversation_id == id

abbrev active_member_of : Uuid → ConversationParticipant → Bool
active_member_of id p = p.conversation_id == id && p.is_active

-- A direct conversation with two rows of participants, both active.
abbrev pub IsPair : List ConversationParticipant → Conversation → Type 0
IsPair ps c =
    (is_direct c.type ≡ true)
    × (length (select_where (member_of c.id) ps) ≡ 2)
    × (length (select_where (active_member_of c.id) ps) ≡ 2)

-- Every conversation is one of two active members, and every member is one of a stored conversation.
pub record IsPaired (cs : List Conversation) (ps : List ConversationParticipant) : Type 0 where
  pub pairs : All (IsPair ps) cs
  pub members : All (λ p. is_stored p.conversation_id cs ≡ true) ps

module _ (p q : ConversationParticipant) (test : ConversationParticipant → Bool) where
  length-others :
      (ps : List ConversationParticipant)
      → test p ≡ false
      → test q ≡ false
      → length (select_where test (ps ++ p ∷ q ∷ [])) ≡ length (select_where test ps)
  length-others [] h k = ground arith
  length-others (x ∷ ps) h k = ground (arith, length-others ps h k)

  length-both :
      (ps : List ConversationParticipant)
      → test p ≡ true
      → test q ≡ true
      → any test ps ≡ false
      → length (select_where test (ps ++ p ∷ q ∷ [])) ≡ 2
  length-both [] h k f = ground arith
  length-both (x ∷ ps) h k f = ground (arith, length-both ps h k)

module _ (c : Conversation) (p q : ConversationParticipant) where
  pairs-added :
      (cs : List Conversation) (ps : List ConversationParticipant)
      → p.conversation_id ≡ c.id
      → q.conversation_id ≡ c.id
      → is_stored c.id cs ≡ false
      → All (IsPair ps) cs
      → All (IsPair (ps ++ p ∷ q ∷ [])) cs
  pairs-added [] ps ep eq free h = tt
  pairs-added (x ∷ cs) ps ep eq free ((direct, two, active), h) = (
    (
      direct,
      length-others p q (member_of x.id) ps (ground arith) (ground arith) ∙ two,
      length-others p q (active_member_of x.id) ps (ground arith) (ground arith) ∙ active,
    ),
    pairs-added cs ps ep eq (ground arith) h,
  )

  other_conversation :
      (cs : List Conversation) (id : Uuid)
      → is_stored c.id cs ≡ false
      → is_stored id cs ≡ true
      → (id == c.id) ≡ false
  other_conversation cs id free known = elim (Bool-cases (id == c.id)) [
    | inl same ↦
        let e : id ≡ c.id = ground arith in
        let absent : is_stored id cs ≡ false = subst (λ i. is_stored i cs ≡ false) (sym e) free in
        cc
    | inr differs ↦ differs
  ]

  no_member :
      (cs : List Conversation) (ps : List ConversationParticipant)
      → is_stored c.id cs ≡ false
      → All (λ x. is_stored x.conversation_id cs ≡ true) ps
      → (any (member_of c.id) ps ≡ false) × (any (active_member_of c.id) ps ≡ false)
  no_member cs [] free h = (refl, refl)
  no_member cs (x ∷ ps) free (known, h) =
      let (rows, active) = no_member cs ps free h in
      let differs = other_conversation cs x.conversation_id free known in
      (ground (arith, rows, differs), ground (arith, active, differs))

  members-added :
      (cs : List Conversation) (ps : List ConversationParticipant)
      → All (λ x. is_stored x.conversation_id cs ≡ true) ps
      → All (λ x. is_stored x.conversation_id (cs ++ c ∷ []) ≡ true) ps
  members-added cs [] h = tt
  members-added cs (x ∷ ps) (known, h) = (
    ground (arith, any-append (λ y. y.id == x.conversation_id) cs (c ∷ []), known),
    members-added cs ps h,
  )

  -- A new conversation with its two members.
  pub IsPaired-added :
      (cs : List Conversation) (ps : List ConversationParticipant)
      → is_direct c.type ≡ true
      → (p.conversation_id ≡ c.id) × (p.is_active ≡ true)
      → (q.conversation_id ≡ c.id) × (q.is_active ≡ true)
      → is_stored c.id cs ≡ false
      → IsPaired cs ps
      → IsPaired (cs ++ c ∷ []) (ps ++ p ∷ q ∷ [])
  IsPaired-added cs ps direct (ep, act) (eq, acts) free h =
      let (rows, active) = no_member cs ps free h.members in
      let here = any-append_self (λ y. y.id == c.id) cs c (ground arith) in
      record {
        pairs = All-append _ cs (c ∷ []) (pairs-added cs ps ep eq free h.pairs) (
          (
            direct,
            length-both p q (member_of c.id) ps (ground arith) (ground arith) rows,
            length-both p q (active_member_of c.id) ps (ground arith) (ground arith) active,
          ),
          tt,
        );
        members = All-append _ ps (p ∷ q ∷ []) (members-added cs ps h.members) (
          subst (λ i. is_stored i (cs ++ c ∷ []) ≡ true) (sym ep) here,
          (subst (λ i. is_stored i (cs ++ c ∷ []) ≡ true) (sym eq) here, tt),
        );
      }
