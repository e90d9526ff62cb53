-- ===== src/History/Prekeys.antt =====
-- internal/keys: claims of one-time prekeys, with requests in between.
use flutter_whatsapp_clone.Base.{true, some, String, List, ◌==◌, ◌≡◌, ◌≢◌, refl, subst, arith}
use flutter_whatsapp_clone.Base.Sorting.{any-mem}
use flutter_whatsapp_clone.Models.{Uuid, SignalOneTimePrekey}
use flutter_whatsapp_clone.Crypto.{Crypto}
use flutter_whatsapp_clone.Action.{ok}
use flutter_whatsapp_clone.Store.{Env, World}
use flutter_whatsapp_clone.Keys.Defs.{OneTimePrekeyOutput}
use flutter_whatsapp_clone.Keys.Bundle.{claim_one_time_prekey}
use flutter_whatsapp_clone.Keys.Bundle.Claim.{is_left, Claimed, claim-Claimed}
use flutter_whatsapp_clone.Server.{serve_all, Request}
use flutter_whatsapp_clone.History.Kept.{is_taken-Kept}
use flutter_whatsapp_clone.History.Grows.{growing, lasting_one_time, is_unused, Grows}
use flutter_whatsapp_clone.Steps.Contents.{claim-Keeps}
use flutter_whatsapp_clone.History.Writes.{history}
use flutter_whatsapp_clone.History.Requests.{serve_all-Grows}

-- Two claims that hand out a one-time prekey, for whichever devices and with any requests in between,
-- have each found a stored and unused row of its device and marked it, and these rows have two
-- different ids.
pub claim-serve_all :
    (env : Env) (crypto : Crypto) (secret : String) (device next : Uuid) (requests : List Request)
    (w w₁ v : World env) (first second : OneTimePrekeyOutput)
    → claim_one_time_prekey env device w ≡ (ok (some first), w₁)
    → claim_one_time_prekey env next (serve_all env crypto secret requests w₁)
      ≡ (ok (some second), v)
    → let w₂ = serve_all env crypto secret requests w₁ in
      (a : SignalOneTimePrekey) × (b : SignalOneTimePrekey) × Claimed device w.db.one_time_prekeys
        w₁.db.one_time_prekeys first a
      × Claimed next w₂.db.one_time_prekeys v.db.one_time_prekeys second b
      × (b.id ≢ a.id)
claim-serve_all env crypto secret device next requests w w₁ v first second h k =
    let w₂ = serve_all env crypto secret requests w₁ in
    let (a, ca) = claim-Claimed env device w w₁ first h in
    let (b, cb) = claim-Claimed env next w₂ v second k in
    let left =
      subst (λ r. Grows w.db r.1.db) h ((claim-Keeps env growing (history env) device).at w) in
    let taken =
      is_taken-Kept lasting_one_time is_unused (λ x. x.id) (λ x. refl) a.id w.db.one_time_prekeys
        w₁.db.one_time_prekeys left.one_time_prekeys
        (any-mem (λ x. x.id == a.id) a w.db.one_time_prekeys ca.stored (ground arith)) in
    let later =
      (serve_all-Grows env crypto secret requests w₁).used_prekeys a.id (taken, ca.spent) in
    (
      a,
      b,
      ca,
      cb,
      λ same.
          let here : is_left a.id b ≡ true = let q = cb.unused in ground arith in
          let found = any-mem (is_left a.id) b w₂.db.one_time_prekeys cb.stored here in cc,
    )
