-- ===== src/Keys/Bundle/Claim.antt =====
-- internal/keys/service.go: what claiming a one-time prekey hands out.
use flutter_whatsapp_clone.Base.{
  any, ℕ, Bool, true, false, not, ◌&&◌, Option, none, some, List, [], ◌∷◌, map, select_where, leb,
  ◌==◌, ◌≡◌, refl, sym, ap, ◌∙◌, subst, arith,
}
use mathlib.Core.List.{Mem}
use mathlib.Core.List.Perm
use flutter_whatsapp_clone.Base.Sorting.{mem-head?, mem-select_where, order_by-perm}
use flutter_whatsapp_clone.Models.{Uuid, Time, SignalOneTimePrekey}
use flutter_whatsapp_clone.Action.{ok, pure}
use flutter_whatsapp_clone.Action.Rules.{bind_ok}
use flutter_whatsapp_clone.Store.Laws.{execute_returning_ok}
use flutter_whatsapp_clone.Store.{Db, Env, World}
use flutter_whatsapp_clone.Keys.Defs.{OneTimePrekeyOutput}
use flutter_whatsapp_clone.Keys.Bundle.{
  internal, claim_of, mark_used, is_unused_of, oldest_unused, claim, claimed_output,
  claim_one_time_prekey,
}

-- Whether a row of this id is still to be had.
abbrev pub is_left : Uuid → SignalOneTimePrekey → Bool
is_left id k = k.id == id && not k.is_used

-- What a claim for a device hands out: a row that was stored, unused and of the device, which is
-- then marked as used, at a time of the claim, and with it no other.
pub record Claimed (device : Uuid) (before after : List SignalOneTimePrekey)
    (out : OneTimePrekeyOutput) (k : SignalOneTimePrekey) : Type 0 where
  pub stored : Mem k before
  pub owned : k.device_id ≡ device
  pub unused : k.is_used ≡ false
  pub handed_out : (out.key_id ≡ k.key_id) × (out.public_key ≡ k.public_key)
  pub marked : (now : Time) × (after ≡ map (mark_used k.id now) before)
  pub spent : any (is_left k.id) after ≡ false

spent_by_mark :
    (id : Uuid) (now : Time) (rows : List SignalOneTimePrekey)
    → any (is_left id) (map (mark_used id now) rows) ≡ false
spent_by_mark id now [] = refl
spent_by_mark id now (k ∷ ks) = ground (arith, spent_by_mark id now ks)

module _ (env : Env) (device : Uuid) where
  -- The row that the subquery picks is an unused one of the device.
  pub oldest_unused_found :
      (n : ℕ) (rows : List SignalOneTimePrekey) (k : SignalOneTimePrekey)
      → oldest_unused env device n rows ≡ some k
      → (is_unused_of env device n k ≡ true) × Mem k rows
  unfolding oldest_unused
  oldest_unused_found n rows k h = mem-select_where (is_unused_of env device n) k rows (
      (Perm.mem_iff (env.arrange_perm _ n (select_where (is_unused_of env device n) rows))).0 (
        (Perm.mem_iff (order_by-perm (λ x y. leb x.created_at y.created_at) _)).0
          (mem-head? _ k h)))

  claim_of-Claimed :
      (db : Db) (n : ℕ) (k : SignalOneTimePrekey) (out : OneTimePrekeyOutput)
      → oldest_unused env device n db.one_time_prekeys ≡ some k
      → claimed_output env (some k) ≡ some out
      → Claimed device db.one_time_prekeys
          (map (mark_used k.id (env.now n)) db.one_time_prekeys)
          out
          k
  claim_of-Claimed db n k out e h =
      let (test, m) = oldest_unused_found n db.one_time_prekeys k e in
      record {
        stored = m;
        owned = ground arith;
        unused = ground arith;
        handed_out = ground arith;
        marked = (env.now n, refl);
        spent = spent_by_mark k.id (env.now n) db.one_time_prekeys;
      }

  claim_cases :
      (db : Db) (n : ℕ) (out : OneTimePrekeyOutput) (o : Option SignalOneTimePrekey)
      → oldest_unused env device n db.one_time_prekeys ≡ o
      → claimed_output env (claim_of env n db o).0 ≡ some out
      → (k : SignalOneTimePrekey) × Claimed device db.one_time_prekeys
          (claim_of env n db o).1.one_time_prekeys
          out
          k
  claim_cases db n out none e h = cc
  claim_cases db n out (some k) e h = (k, claim_of-Claimed db n k out e h)

  -- A claim that hands out a key has found an unused one of the device and has marked it.
  pub claim-Claimed :
      (w w' : World env) (out : OneTimePrekeyOutput)
      → claim_one_time_prekey env device w ≡ (ok (some out), w')
      → (k : SignalOneTimePrekey) × Claimed device w.db.one_time_prekeys w'.db.one_time_prekeys out
          k
  unfolding claim_one_time_prekey pure
  claim-Claimed w w' out h =
      let (c, w₁, e, p) = bind_ok _ _ w w' (some out) h in
      let (f, s) = execute_returning_ok (claim env device) internal w w₁ c e in
      let shown : claimed_output env c ≡ some out = cc in
      let same : w' ≡ w₁ = cc in
      let (k, claimed) =
        claim_cases w.db w.tick out _ refl (sym (ap (claimed_output env) f) ∙ shown) in
      (
        k,
        subst (λ rows. Claimed device w.db.one_time_prekeys rows out k)
            (sym (ap (λ v. v.db.one_time_prekeys) (same ∙ s))) claimed,
      )
