-- ===== src/Keys/Bundle/Pool.antt =====
-- internal/keys/service.go: a claim refines taking the oldest key from a bag. The bag is what the
-- table says of a device when the order of the rows, and the used ones, are forgotten.
use flutter_whatsapp_clone.Base.{
  Perm, ℕ, inl, inr, true, false, ◌&&◌, Option, none, some, List, [], ◌∷◌, any, map, select_where,
  head?, order_by, leb, ltb, ◌==◌, ◌≡◌, ◌⊎◌, refl, sym, ap, ◌∙◌, subst, arith,
}
use flutter_whatsapp_clone.Base.Select.{any-and_true, any-perm, any-select_where}
use flutter_whatsapp_clone.Base.Sorting.{order_by-perm, order_by-IsSorted, IsSorted}
use flutter_whatsapp_clone.Models.{Uuid, SignalOneTimePrekey}
use flutter_whatsapp_clone.Action.{ok, pure}
use flutter_whatsapp_clone.Action.Rules.{bind_ok}
use flutter_whatsapp_clone.Store.Laws.{execute_returning_ok}
use flutter_whatsapp_clone.Store.{Db, Env, World}
use flutter_whatsapp_clone.Keys.Defs.{OneTimePrekeyOutput, internal}
use flutter_whatsapp_clone.Keys.Bundle.{
  claim_of, mark_used, is_unused_of, oldest_unused, claim, claimed_output, claim_one_time_prekey,
}
use flutter_whatsapp_clone.Keys.Bundle.Claim.{oldest_unused_found}
use flutter_whatsapp_clone.Keys.Bundle.Marks.{
  pool, AllDistinct, pool-mark_used, pool-mark_other, one_owner, head-IsSorted,
}

module _ (env : Env) (device : Uuid) where
  -- No key to be had: every unused one is held by others.
  oldest_unused-none :
      (n : ℕ) (rows : List SignalOneTimePrekey)
      → oldest_unused env device n rows ≡ none
      → any (is_unused_of env device n) rows ≡ false
  unfolding oldest_unused
  oldest_unused-none n rows h =
      let free = select_where (is_unused_of env device n) rows in
      let sorted = order_by (λ x y. leb x.created_at y.created_at) (env.arrange _ n free) in
      sym (any-and_true (is_unused_of env device n) rows)
      ∙ sym (any-select_where (is_unused_of env device n) (λ x. true) rows)
      ∙ sym (any-perm (λ x. true) (env.arrange_perm _ n free))
      ∙ sym (
          any-perm (λ x. true)
            (order_by-perm (λ x y. leb x.created_at y.created_at) (env.arrange _ n free)))
      ∙ nothing sorted h
    where
      nothing : (xs : List SignalOneTimePrekey) → head? xs ≡ none → any (λ x. true) xs ≡ false
      nothing [] e = refl
      nothing (x ∷ xs) e = cc

  -- No unused key that others do not hold is older.
  oldest_unused_oldest :
      (n : ℕ) (rows : List SignalOneTimePrekey) (k : SignalOneTimePrekey)
      → oldest_unused env device n rows ≡ some k
      → any (λ x. is_unused_of env device n x && ltb x.created_at k.created_at) rows ≡ false
  unfolding oldest_unused
  oldest_unused_oldest n rows k h =
      let free = select_where (is_unused_of env device n) rows in
      let by = λ (x y : SignalOneTimePrekey). leb x.created_at y.created_at in
      let older = λ (x : SignalOneTimePrekey). ltb x.created_at k.created_at in
      sym (any-select_where (is_unused_of env device n) older rows)
      ∙ sym (any-perm older (env.arrange_perm _ n free))
      ∙ sym (any-perm older (order_by-perm by (env.arrange _ n free)))
      ∙ first (order_by by (env.arrange _ n free))
          (order_by-IsSorted by (λ x y q. ground arith) (λ x y z q r. ground arith)
            (env.arrange _ n free))
          h
    where
      first :
          (xs : List SignalOneTimePrekey)
          → IsSorted (λ x y. leb x.created_at y.created_at) xs
          → head? xs ≡ some k
          → any (λ x. ltb x.created_at k.created_at) xs ≡ false
      first [] s e = refl
      first (x ∷ xs) s e =
          let same : x ≡ k = cc in
          let rest = head-IsSorted x xs s.0 in
          subst (λ z. any (λ y. ltb y.created_at z.created_at) (x ∷ xs) ≡ false) same (ground arith)

  -- What a bag of keys allows: with nothing to take, nothing happens; otherwise one of the oldest keys
  -- to be had leaves the bag of its device, and no other bag changes.
  pub record Took (n : ℕ) (before after : List SignalOneTimePrekey) (k : SignalOneTimePrekey)
      : Type 0 where
    pub taken : Perm (pool device before) (k ∷ pool device after)
    pub held : env.locked n k.id ≡ false
    pub oldest :
        any (λ x. is_unused_of env device n x && ltb x.created_at k.created_at) before ≡ false
    pub others : (d : Uuid) → (d == device) ≡ false → pool d after ≡ pool d before

  pub record NoneToTake (n : ℕ) (before after : List SignalOneTimePrekey) : Type 0 where
    pub empty : any (is_unused_of env device n) before ≡ false
    pub untouched : after ≡ before

  claim_of-Took :
      (n : ℕ) (db : Db) (k : SignalOneTimePrekey)
      → AllDistinct db.one_time_prekeys
      → oldest_unused env device n db.one_time_prekeys ≡ some k
      → Took n db.one_time_prekeys (map (mark_used k.id (env.now n)) db.one_time_prekeys) k
  claim_of-Took n db k d h =
      let (test, m) = oldest_unused_found env device n db.one_time_prekeys k h in
      record {
        taken = pool-mark_used device (env.now n) k db.one_time_prekeys d m (ground arith);
        held = ground arith;
        oldest = oldest_unused_oldest n db.one_time_prekeys k h;
        others = λ o differs.
            pool-mark_other o k.id k.device_id (env.now n) db.one_time_prekeys
              (one_owner k db.one_time_prekeys d m) (ground arith);
      }

  claim_of_cases :
      (n : ℕ) (db : Db) (o : Option SignalOneTimePrekey)
      → AllDistinct db.one_time_prekeys
      → oldest_unused env device n db.one_time_prekeys ≡ o
      → let (r, after) = claim_of env n db o in
        ((r ≡ none) × NoneToTake n db.one_time_prekeys after.one_time_prekeys)
        ⊎ ((k : SignalOneTimePrekey) × (r ≡ some k)
            × Took n db.one_time_prekeys after.one_time_prekeys k)
  claim_of_cases n db none d h =
      inl (refl, record { empty = oldest_unused-none n db.one_time_prekeys h; untouched = refl })
  claim_of_cases n db (some k) d h = inr (k, refl, claim_of-Took n db k d h)

-- A claim that succeeds refines taking a key from a bag, when the ids of the rows are distinct: either
-- it hands out nothing, no unused key of the device is free of other transactions, and no row changes;
-- or it hands out a key that no other transaction holds and than which no such key is older, exactly
-- this key leaves the bag of unused keys of the device, and the bags of the other devices stay.
pub claim_one_time_prekey-Took :
    (env : Env) (device : Uuid) (w w' : World env) (out : Option OneTimePrekeyOutput)
    → AllDistinct w.db.one_time_prekeys
    → claim_one_time_prekey env device w ≡ (ok out, w')
    → ((out ≡ none) × NoneToTake env device w.tick w.db.one_time_prekeys w'.db.one_time_prekeys)
      ⊎ ((k : SignalOneTimePrekey) × (out ≡ claimed_output env (some k))
          × Took env device w.tick w.db.one_time_prekeys w'.db.one_time_prekeys k)
unfolding claim_one_time_prekey pure
claim_one_time_prekey-Took env device w w' out d h =
    let (c, w₁, e, p) = bind_ok _ _ w w' out h in
    let (f, s) = execute_returning_ok (claim env device) internal w w₁ c e in
    let shown : claimed_output env c ≡ out = cc in
    let same : w' ≡ w₁ = cc in
    let rows = ap (λ v. v.db.one_time_prekeys) (same ∙ s) in
    elim (claim_of_cases env device w.tick w.db
      (oldest_unused env device w.tick w.db.one_time_prekeys) d refl) [
        | inl (q, x) ↦ inl (
          sym shown ∙ ap (claimed_output env) (f ∙ q),
          subst (NoneToTake env device w.tick w.db.one_time_prekeys) (sym rows) x,
        )
        | inr (k, q, x) ↦ inr (
          k,
          sym shown ∙ ap (claimed_output env) (f ∙ q),
          subst (λ r. Took env device w.tick w.db.one_time_prekeys r k) (sym rows) x,
        )
      ]
