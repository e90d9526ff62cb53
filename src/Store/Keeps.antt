-- ===== src/Store/Keeps.antt =====
-- What an action keeps of the tables, whatever each of its statements does: one rule for each way to
-- build an action. A relation is kept if it holds between the tables before and after.
use flutter_whatsapp_clone.Base.{
  ℕ, ◌≡◌, refl, ◌∙◌, sym, subst, ◌⊎◌, inl, inr, true, false, Bool, List, [], ◌∷◌, ◌++◌, Option,
  none, some, if◌then◌else◌, arith,
}
use flutter_whatsapp_clone.Models.{Time}
use flutter_whatsapp_clone.Action.{
  Result, ok, err, is_ok, Action, continue, pure, raise, ◌>>=◌, on_error, ensure, or_fail,
}
use flutter_whatsapp_clone.Store.Defs.{Db, Env, Table}
use flutter_whatsapp_clone.Store.Statements.{
  World, fits, query, execute, execute_returning, insert, insert_rows, transaction, advance,
}
use flutter_whatsapp_clone.Store.Commands.{command, ignored}

-- A relation between tables that may be kept step by step.
pub record Order : Type 1 where
  pub Before : Db → Db → Type 0
  pub same : (d : Db) → Before d d
  pub chain : (a b c : Db) → Before a b → Before b c → Before a c

-- The tables are the same after as before.
abbrev pub reading : Order
reading = record { Before = λ a b. b ≡ a; same = λ d. refl; chain = λ a b c p q. q ∙ p }

pub record Keeps (env : Env) {B : Type 0} (O : Order) (m : World env → B × World env) : Type 0 where
  pub at : (w : World env) → O.Before w.db (m w).1.db

-- The tables after a statement, when it changes them and when it does not.
module _ (env : Env) {E A : Type 0} where
  db-query : (read : Db → ℕ → A) (e : E) (w : World env) → (query read e w).1.db ≡ w.db
  unfolding query
  db-query read e w = ground arith

  db-command :
      (run : Time → env.redis.State → A × env.redis.State) (e : E) (w : World env)
      → (command {env = env} run e w).1.db ≡ w.db
  unfolding command
  db-command run e w = ground arith

  db-execute_returning :
      (change : Db → ℕ → A × Db) (e : E) (w : World env)
      → let d = (execute_returning change e w).1.db in (d ≡ w.db) ⊎ (d ≡ (change w.db w.tick).1)
  unfolding execute_returning
  db-execute_returning change e w = ground arith

  db-transaction :
      (e : E) (m : Action (World env) E A) (w : World env)
      → let d = (transaction e m w).1.db in (d ≡ w.db) ⊎ (d ≡ (m (advance w)).1.db)
  unfolding transaction
  db-transaction e m w = ground arith

  -- The closure counts only where it succeeds.
  db-committed :
      (e : E) (m : Action (World env) E A) (w : World env)
      → let d = (transaction e m w).1.db in
        (d ≡ w.db) ⊎ ((is_ok (m (advance w)).0 ≡ true) × (d ≡ (m (advance w)).1.db))
  unfolding transaction
  db-committed e m w = ground arith

module _ (env : Env) {E : Type 0} where
  db-execute :
      (change : Db → ℕ → Db) (e : E) (w : World env)
      → let d = (execute change e w).1.db in (d ≡ w.db) ⊎ (d ≡ change w.db w.tick)
  unfolding execute
  db-execute change e w = ground arith

module _ (env : Env) {A : Type 0} (t : Table A) where
  db-insert_rows :
      (make : ℕ → List A) (w : World env)
      → let d = (insert_rows t make w).1.db in
        (d ≡ w.db)
        ⊎ ((fits t.clash (t.rows w.db) (make w.tick) ≡ true)
            × (d ≡ t.put (t.rows w.db ++ make w.tick) w.db))
  unfolding insert_rows
  db-insert_rows make w = ground arith

  db-insert :
      (make : ℕ → A) (w : World env)
      → let d = (insert t make w).1.db in
        (d ≡ w.db)
        ⊎ ((fits t.clash (t.rows w.db) (make w.tick ∷ []) ≡ true)
            × (d ≡ t.put (t.rows w.db ++ make w.tick ∷ []) w.db))
  unfolding insert
  db-insert make w = ground arith

module _ (O : Order) where
  from_same : (d x : Db) → x ≡ d → O.Before d x
  from_same d x e = subst (O.Before d) (sym e) (O.same d)

  from_either : (d e x : Db) → O.Before d e → (x ≡ d) ⊎ (x ≡ e) → O.Before d x
  from_either d e x h (inl q) = from_same d x q
  from_either d e x h (inr q) = subst (O.Before d) (sym q) h

  -- A value that must be there: the test that says so, and the tables it leaves.
  from_ok :
      {env : Env} {E A : Type 0} (r : Result E A × World env) (d x : Db)
      → ((a : A) (w : World env) → r ≡ (ok a, w) → O.Before d w.db)
      → (x ≡ d) ⊎ ((is_ok r.0 ≡ true) × (x ≡ r.1.db))
      → O.Before d x
  from_ok r d x h (inl q) = from_same d x q
  from_ok (ok a, w) d x h (inr (f, q)) = subst (O.Before d) (sym q) (h a w refl)
  from_ok (err e, w) d x h (inr (f, q)) = ground arith

  from_insert :
      (b : Bool) (d e x : Db)
      → (b ≡ true → O.Before d e)
      → (x ≡ d) ⊎ ((b ≡ true) × (x ≡ e))
      → O.Before d x
  from_insert b d e x h (inl q) = from_same d x q
  from_insert b d e x h (inr (f, q)) = subst (O.Before d) (sym q) (h f)

module _ {env : Env} {O : Order} {E A : Type 0} where
  pub Keeps-pure : (a : A) → Keeps env O (pure {E = E} a)
  unfolding pure
  Keeps-pure a = record { at = λ w. O.same w.db }

  pub Keeps-raise : (e : E) → Keeps env O (raise {A = A} e)
  unfolding raise
  Keeps-raise e = record { at = λ w. O.same w.db }

  pub Keeps-or_fail : (o : Option A) (e : E) → Keeps env O (or_fail o e)
  unfolding or_fail pure raise
  Keeps-or_fail none e = record { at = λ w. O.same w.db }
  Keeps-or_fail (some a) e = record { at = λ w. O.same w.db }

  pub Keeps-query : (read : Db → ℕ → A) (e : E) → Keeps env O (query read e)
  Keeps-query read e = record { at = λ w. from_same O w.db _ (db-query env read e w) }

  pub Keeps-command :
      (run : Time → env.redis.State → A × env.redis.State) (e : E)
      → Keeps env O (command {env = env} run e)
  Keeps-command run e = record { at = λ w. from_same O w.db _ (db-command env run e w) }

  pub Keeps-execute_returning :
      (change : Db → ℕ → A × Db) (e : E)
      → ((d : Db) (n : ℕ) → O.Before d (change d n).1)
      → Keeps env O (execute_returning change e)
  Keeps-execute_returning change e h = record {
    at = λ w. from_either O w.db _ _ (h w.db w.tick) (db-execute_returning env change e w);
  }

  pub Keeps-if :
      (b : Bool) (m n : Action (World env) E A)
      → Keeps env O m
      → Keeps env O n
      → Keeps env O (if b then m else n)
  Keeps-if true m n km kn = km
  Keeps-if false m n km kn = kn

  -- An action that is chosen by the state it runs in.
  pub Keeps-here :
      (f : World env → Action (World env) E A)
      → ((v : World env) → Keeps env O (f v))
      → Keeps env O (λ w. f w w)
  Keeps-here f h = record { at = λ w. (h w).at w }

  pub Keeps-transaction :
      (e : E) (m : Action (World env) E A) → Keeps env O m → Keeps env O (transaction e m)
  Keeps-transaction e m h = record {
    at = λ w. from_either O w.db _ _ (h.at (advance w)) (db-transaction env e m w);
  }

  -- A transaction keeps what its closure keeps whenever it succeeds.
  pub Keeps-committed :
      (e : E) (m : Action (World env) E A)
      → ((w w' : World env) (a : A) → m w ≡ (ok a, w') → O.Before w.db w'.db)
      → Keeps env O (transaction e m)
  Keeps-committed e m h = record {
    at =
        λ w. from_ok O (m (advance w)) w.db _ (λ a w'. h (advance w) w' a) (db-committed env e m w);
  }

module _ {env : Env} {O : Order} {E : Type 0} where
  pub Keeps-ensure : (b : Bool) (e : E) → Keeps env O (ensure b e)
  unfolding ensure pure raise
  Keeps-ensure true e = record { at = λ w. O.same w.db }
  Keeps-ensure false e = record { at = λ w. O.same w.db }

  pub Keeps-execute :
      (change : Db → ℕ → Db) (e : E)
      → ((d : Db) (n : ℕ) → O.Before d (change d n))
      → Keeps env O (execute change e)
  Keeps-execute change e h = record {
    at = λ w. from_either O w.db _ _ (h w.db w.tick) (db-execute env change e w);
  }

module _ {env : Env} {O : Order} {A : Type 0} (t : Table A) where
  pub Keeps-insert_rows :
      (make : ℕ → List A)
      → ((d : Db) (n : ℕ)
          → fits t.clash (t.rows d) (make n) ≡ true
          → O.Before d (t.put (t.rows d ++ make n) d))
      → Keeps env O (insert_rows t make)
  Keeps-insert_rows make h = record {
    at = λ w. from_insert O _ w.db _ _ (h w.db w.tick) (db-insert_rows env t make w);
  }

  pub Keeps-insert :
      (make : ℕ → A)
      → ((d : Db) (n : ℕ)
          → fits t.clash (t.rows d) (make n ∷ []) ≡ true
          → O.Before d (t.put (t.rows d ++ make n ∷ []) d))
      → Keeps env O (insert t make)
  Keeps-insert make h = record {
    at = λ w. from_insert O _ w.db _ _ (h w.db w.tick) (db-insert env t make w);
  }

module _ {env : Env} {O : Order} {E F A : Type 0} where
  pub Keeps-on_error :
      (m : Action (World env) E A) (handle : E → Action (World env) F A)
      → Keeps env O m
      → ((e : E) → Keeps env O (handle e))
      → Keeps env O (on_error m handle)
  unfolding on_error
  Keeps-on_error m handle h k = record { at = λ w. go w (m w).0 (m w).1 (h.at w) }
    where
      go :
          (w : World env) (r : Result E A) (w' : World env)
          → O.Before w.db w'.db
          → let out : Result F A × World env = elim r [ ok a ↦ (ok a, w') | err e ↦ handle e w' ] in
            O.Before w.db out.1.db
      go w (ok a) w' p = p
      go w (err e) w' p = O.chain w.db w'.db _ p ((k e).at w')

  pub Keeps-ignored : (m : Action (World env) E A) → Keeps env O m → Keeps env O (ignored {F = F} m)
  unfolding ignored
  Keeps-ignored m h = record { at = λ w. h.at w }

module _ {env : Env} {O : Order} {E A B : Type 0} where
  pub Keeps-bind :
      (m : Action (World env) E A) (f : A → Action (World env) E B)
      → Keeps env O m
      → ((a : A) → Keeps env O (f a))
      → Keeps env O (m >>= f)
  unfolding ◌>>=◌
  Keeps-bind m f h k = record { at = λ w. go w (m w).0 (m w).1 (h.at w) }
    where
      go :
          (w : World env) (r : Result E A) (w' : World env)
          → O.Before w.db w'.db
          → O.Before w.db (continue r f w').1.db
      go w (ok a) w' p = O.chain w.db w'.db _ p ((k a).at w')
      go w (err e) w' p = p

pub ruleset keeps_rules = (
  Keeps-pure, Keeps-raise, Keeps-or_fail, Keeps-ensure, Keeps-query, Keeps-command, Keeps-if,
  Keeps-transaction, Keeps-on_error, Keeps-ignored, Keeps-bind,
)
