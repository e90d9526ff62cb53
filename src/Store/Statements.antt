-- ===== src/Store/Statements.antt =====
-- Statements and transactions: each asks the world once how it ends, and counts one.
use flutter_whatsapp_clone.Base.{
  ℕ, suc, Bool, true, ◌&&◌, not, List, [], ◌∷◌, ◌++◌, any, if◌then◌else◌,
}
use flutter_whatsapp_clone.Action.{Result, ok, err, Action}
use flutter_whatsapp_clone.Store.Defs.{Db, Env, done, refused, lost, Table}

pub record World (env : Env) : Type 0 where
  pub db : Db
  pub cache : env.redis.State
  -- The statements issued so far.
  pub tick : ℕ

-- "duplicate key value violates unique constraint", or any other error.
pub data InsertError : Type 0 where
  duplicate_key failed : InsertError

module _ {A : Type 0} where
  -- Whether these rows may be added, one after the other.
  unfoldable pub fits : (A → A → Bool) → List A → List A → Bool
  fits clash rows [] = true
  fits clash rows (x ∷ xs) = not (any (clash x) rows) && fits clash (rows ++ x ∷ []) xs

module _ {env : Env} where
  abbrev pub advance : World env → World env
  advance w = record w { tick = suc w.tick }

  abbrev pub write : Db → World env → World env
  write d w = record w { db = d; tick = suc w.tick }

  module _ {E A : Type 0} where
    -- A SELECT, which is given the tables and the number of the statement.
    unfoldable pub query : (Db → ℕ → A) → E → Action (World env) E A
    query read e w = elim (env.verdict w.tick) [
      | done ↦ (ok (read w.db w.tick), advance w)
      | refused ↦ (err e, advance w)
      | lost ↦ (err e, advance w)
    ]

  module _ {E : Type 0} where
    -- An UPDATE, or an INSERT that overwrites.
    unfoldable pub execute : (Db → ℕ → Db) → E → Action (World env) E (Unit {0})
    execute change e w = elim (env.verdict w.tick) [
      | done ↦ (ok tt, write (change w.db w.tick) w)
      | refused ↦ (err e, advance w)
      | lost ↦ (err e, write (change w.db w.tick) w)
    ]

  module _ {E A : Type 0} where
    -- An UPDATE … RETURNING.
    unfoldable pub execute_returning : (Db → ℕ → A × Db) → E → Action (World env) E A
    execute_returning change e w =
        let (a, db) = change w.db w.tick in
        elim (env.verdict w.tick) [
          | done ↦ (ok a, write db w)
          | refused ↦ (err e, advance w)
          | lost ↦ (err e, write db w)
        ]

  module _ {A : Type 0} (t : Table A) where
    added : List A → World env → World env
    added rows w = write (t.put (t.rows w.db ++ rows) w.db) w

    -- An INSERT of rows that are made as the statement runs, and are returned.
    unfoldable pub insert_rows : (ℕ → List A) → Action (World env) InsertError (List A)
    unfolding added
    insert_rows make w =
        let new = make w.tick in
        let free = fits t.clash (t.rows w.db) new in
        elim (env.verdict w.tick) [
          | done ↦ if free then (ok new, added new w) else (err duplicate_key, advance w)
          | refused ↦ (err failed, advance w)
          | lost ↦ (err failed, if free then added new w else advance w)
        ]

    unfoldable pub insert : (ℕ → A) → Action (World env) InsertError A
    unfolding added
    insert make w =
        let new = make w.tick in
        let free = fits t.clash (t.rows w.db) (new ∷ []) in
        elim (env.verdict w.tick) [
          | done ↦ if free then (ok new, added (new ∷ []) w) else (err duplicate_key, advance w)
          | refused ↦ (err failed, advance w)
          | lost ↦ (err failed, if free then added (new ∷ []) w else advance w)
        ]

  -- ROLLBACK puts the tables of the start back.
  abbrev rolled_back : Db → World env → World env
  rolled_back d w = record w { db = d }

  module _ {E A : Type 0} where
    commit : Db → E → Result E A × World env → Result E A × World env
    commit start e (ok a, w) = elim (env.verdict w.tick) [
      | done ↦ (ok a, advance w)
      | refused ↦ (err e, write start w)
      | lost ↦ (err e, advance w)
    ]
    commit start e (err x, w) = (err x, rolled_back start w)

    -- gorm's Transaction: BEGIN, the closure, then COMMIT or ROLLBACK.
    unfoldable pub transaction : E → Action (World env) E A → Action (World env) E A
    unfolding commit
    transaction e body w = elim (env.verdict w.tick) [
      | done ↦ commit w.db e (body (advance w))
      | refused ↦ (err e, advance w)
      | lost ↦ (err e, advance w)
    ]
