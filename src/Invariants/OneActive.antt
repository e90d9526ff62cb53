-- ===== src/Invariants/OneActive.antt =====
-- internal/keys: the active signed prekeys of a device, through every request.
use flutter_whatsapp_clone.Base.{String, List}
use flutter_whatsapp_clone.Crypto.{Crypto}
use flutter_whatsapp_clone.Store.{Env, World, conversations_table, participants_table}
use flutter_whatsapp_clone.Store.Keeps.{Order, Keeps-insert, Keeps-insert_rows}
use flutter_whatsapp_clone.Keys.Upload.Rotation.{
  AtMostOneActive, Rotated-AtMostOneActive, rotate-Rotated,
}
use flutter_whatsapp_clone.Server.{Request, serve_all}
use flutter_whatsapp_clone.Steps.Writes.{Writes}
use flutter_whatsapp_clone.Steps.Units.{conversation-Keeps}
use flutter_whatsapp_clone.Steps.Requests.{serve_all-Keeps}
use flutter_whatsapp_clone.Invariants.Standing.{standing, stands}

-- A change of the tables that leaves every device at one active signed prekey or none.
abbrev one_active : Order
one_active = standing (λ keys cs ps. AtMostOneActive keys)

rotations : (env : Env) → Writes env one_active
rotations env =
    stands _ env
      (λ device k. record {
        at = λ w. Rotated-AtMostOneActive env device k _ _ (rotate-Rotated env device k w);
      })
      (conversation-Keeps (λ make. Keeps-insert conversations_table make (λ d n f h. h))
        (λ make. Keeps-insert_rows participants_table make (λ d n f h. h)))

-- Where no device has two active signed prekeys, none has after any requests.
pub serve_all-AtMostOneActive :
    (env : Env) (crypto : Crypto) (secret : String) (requests : List Request) (w : World env)
    → AtMostOneActive w.db.signed_prekeys
    → AtMostOneActive (serve_all env crypto secret requests w).db.signed_prekeys
serve_all-AtMostOneActive env crypto secret requests w =
    serve_all-Keeps env one_active (rotations env) crypto secret requests w
