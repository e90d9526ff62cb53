-- ===== src/Store/Laws.antt =====
-- What a statement has done, by how it ended.
use flutter_whatsapp_clone.Base.{ℕ, ◌≡◌, true, List, [], ◌∷◌, ◌++◌, ◌⊎◌, arith}
use flutter_whatsapp_clone.Action.{ok, err, is_ok, Action, raise, on_error}
use flutter_whatsapp_clone.Store.Defs.{Db, Env, done, Table}
use flutter_whatsapp_clone.Models.{Time}
use flutter_whatsapp_clone.Store.Commands.{command, remember}
use flutter_whatsapp_clone.Store.Statements.{
  execute, World, InsertError, fits, advance, write, query, execute_returning, insert, insert_rows,
  transaction,
}

module _ {env : Env} {E A : Type 0} where
  -- A query changes no table; its value is what the tables hold as it runs.
  pub query_ok :
      (read : Db → ℕ → A) (e : E) (w w' : World env) (a : A)
      → query read e w ≡ (ok a, w')
      → (a ≡ read w.db w.tick) × (w' ≡ advance w)
  unfolding query
  query_ok read e w w' a h = ground arith

  pub query_err :
      (read : Db → ℕ → A) (e x : E) (w w' : World env)
      → query read e w ≡ (err x, w')
      → (x ≡ e) × (w' ≡ advance w)
  unfolding query
  query_err read e x w w' h = ground arith

  pub query_done :
      (read : Db → ℕ → A) (e : E) (w : World env)
      → env.verdict w.tick ≡ done
      → query read e w ≡ (ok (read w.db w.tick), advance w)
  unfolding query
  query_done read e w h = ground arith

  -- A transaction that succeeds has run its closure, and has kept what it did.
  pub transaction_ok :
      (e : E) (m : Action (World env) E A) (w w' : World env) (a : A)
      → transaction e m w ≡ (ok a, w')
      → (w₁ : World env) × (m (advance w) ≡ (ok a, w₁)) × (w' ≡ advance w₁)
  unfolding transaction
  transaction_ok e m w w' a h = ((m (advance w)).1, ground arith, ground arith)

  -- A transaction that fails has changed no table, unless only the reply to COMMIT was lost.
  pub transaction_err :
      (e x : E) (m : Action (World env) E A) (w w' : World env)
      → transaction e m w ≡ (err x, w')
      → (w'.db ≡ w.db)
        ⊎ ((x ≡ e) × (is_ok (m (advance w)).0 ≡ true) × (w'.db ≡ (m (advance w)).1.db))
  unfolding transaction
  transaction_err e x m w w' h = ground arith

module _ {env : Env} {E A : Type 0} where
  pub execute_returning_ok :
      (change : Db → ℕ → A × Db) (e : E) (w w' : World env) (a : A)
      → execute_returning change e w ≡ (ok a, w')
      → (a ≡ (change w.db w.tick).0) × (w' ≡ write (change w.db w.tick).1 w)
  unfolding execute_returning
  execute_returning_ok change e w w' a h = ground arith

module _ {env : Env} {E A : Type 0} where
  pub command_ok :
      (run : Time → env.redis.State → A × env.redis.State) (e : E) (w w' : World env) (a : A)
      → command run e w ≡ (ok a, w')
      → (a ≡ (run (env.now w.tick) w.cache).0) × (w' ≡ remember (run (env.now w.tick) w.cache).1 w)
  unfolding command
  command_ok run e w w' a h = ground arith

module _ {env : Env} {E : Type 0} where
  pub execute_ok :
      (change : Db → ℕ → Db) (e : E) (w w' : World env) (u : Unit {0})
      → execute change e w ≡ (ok u, w')
      → w' ≡ write (change w.db w.tick) w
  unfolding execute
  execute_ok change e w w' u h = ground arith

  -- An UPDATE that fails has changed nothing, unless only its reply was lost.
  pub execute_err :
      (change : Db → ℕ → Db) (e x : E) (w w' : World env)
      → execute change e w ≡ (err x, w')
      → (w' ≡ advance w) ⊎ (w' ≡ write (change w.db w.tick) w)
  unfolding execute
  execute_err change e x w w' h = ground arith

module _ {env : Env} {E A : Type 0} (t : Table A) (f : InsertError → E) where
  pub insert_ok :
      (make : ℕ → A) (w w' : World env) (a : A)
      → on_error (insert t make) (λ e. raise (f e)) w ≡ (ok a, w')
      → (a ≡ make w.tick)
        × (w' ≡ write (t.put (t.rows w.db ++ a ∷ []) w.db) w)
        × (fits t.clash (t.rows w.db) (a ∷ []) ≡ true)
  unfolding insert on_error raise
  insert_ok make w w' a h = ground arith

  pub insert_rows_ok :
      (make : ℕ → List A) (w w' : World env) (rows : List A)
      → on_error (insert_rows t make) (λ e. raise (f e)) w ≡ (ok rows, w')
      → (rows ≡ make w.tick)
        × (w' ≡ write (t.put (t.rows w.db ++ rows) w.db) w)
        × (fits t.clash (t.rows w.db) rows ≡ true)
  unfolding insert_rows on_error raise
  insert_rows_ok make w w' rows h = ground arith

  -- An INSERT that fails has added nothing, unless only its reply was lost.
  pub insert_err :
      (make : ℕ → A) (w w' : World env) (x : E)
      → on_error (insert t make) (λ e. raise (f e)) w ≡ (err x, w')
      → (w' ≡ advance w) ⊎ (w' ≡ write (t.put (t.rows w.db ++ make w.tick ∷ []) w.db) w)
  unfolding insert on_error raise
  insert_err make w w' x h = ground arith
