-- ===== src/Invariants/Paired.antt =====
-- internal/conversations: conversations and their members, through every request.
use flutter_whatsapp_clone.Base.{String, List, refl, ap, sym, subst}
use flutter_whatsapp_clone.Models.{Uuid, Conversation, is_direct}
use flutter_whatsapp_clone.Crypto.{Crypto}
use flutter_whatsapp_clone.Store.{Db, Env, World, signed_prekeys_table}
use flutter_whatsapp_clone.Store.Keeps.{Order, Keeps-execute, Keeps-insert, Keeps-committed}
use flutter_whatsapp_clone.Conversations.Create.{new_member}
use flutter_whatsapp_clone.Conversations.Create.Outcome.{Created, store_conversation_ok}
use flutter_whatsapp_clone.Keys.Defs.{internal}
use flutter_whatsapp_clone.Server.{Request, serve_all}
use flutter_whatsapp_clone.Steps.Writes.{Writes}
use flutter_whatsapp_clone.Steps.Units.{rotation-Keeps}
use flutter_whatsapp_clone.Steps.Requests.{serve_all-Keeps}
use flutter_whatsapp_clone.Invariants.Standing.{standing, stands}
use flutter_whatsapp_clone.Invariants.Members.{IsPaired, IsPaired-added}

abbrev Paired : Db → Type 0
Paired d = IsPaired d.conversations d.participants

Created-Paired :
    (env : Env) (a b : Uuid) (before after : Db) (c : Conversation)
    → Created env a b before after c
    → Paired before
    → Paired after
Created-Paired env a b before after c made h = subst Paired (sym made.tables) (
    IsPaired-added c (new_member env c.id a made.joined_at 0)
      (new_member env c.id b made.joined_at 1) before.conversations before.participants
      (ap (λ x. is_direct x.type) made.conversation) (refl, refl) (refl, refl) made.fresh h)

-- A change of the tables that leaves every conversation with its two members.
abbrev paired : Order
paired = standing (λ keys cs ps. IsPaired cs ps)

pairings : (env : Env) → Writes env paired
pairings env =
    stands _ env
      (rotation-Keeps (λ device. Keeps-execute _ internal (λ d n h. h))
        (λ make. Keeps-insert signed_prekeys_table make (λ d n f h. h)))
      (λ a b.
        Keeps-committed _ _ (λ w w' c h.
          Created-Paired env a b w.db w'.db c (store_conversation_ok env a b w w' c h)))

-- Where every conversation is a direct one with exactly two rows of participants, both active, and
-- every participant is one of a stored conversation, this is so after any requests: neither a request
-- that fails halfway nor a lost reply leaves a conversation without its members.
pub serve_all-IsPaired :
    (env : Env) (crypto : Crypto) (secret : String) (requests : List Request) (w : World env)
    → IsPaired w.db.conversations w.db.participants
    → let after = (serve_all env crypto secret requests w).db in
      IsPaired after.conversations after.participants
serve_all-IsPaired env crypto secret requests w =
    serve_all-Keeps env paired (pairings env) crypto secret requests w
