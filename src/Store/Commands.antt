-- ===== src/Store/Commands.antt =====
-- Redis commands: like a statement, each asks the world once how it ends, and counts one.
use flutter_whatsapp_clone.Base.{suc}
use flutter_whatsapp_clone.Models.{Time}
use flutter_whatsapp_clone.Action.{ok, err, Action}
use flutter_whatsapp_clone.Store.Defs.{Env, done, refused, lost}
use flutter_whatsapp_clone.Store.Statements.{World, advance}

module _ {env : Env} where
  abbrev pub remember : env.redis.State → World env → World env
  remember s w = record w { cache = s; tick = suc w.tick }

  module _ {E A : Type 0} where
    unfoldable pub command :
        (Time → env.redis.State → A × env.redis.State) → E → Action (World env) E A
    command run e w =
        let (a, s) = run (env.now w.tick) w.cache in
        elim (env.verdict w.tick) [
          | done ↦ (ok a, remember s w)
          | refused ↦ (err e, advance w)
          | lost ↦ (err e, remember s w)
        ]

  module _ {E F A : Type 0} where
    -- A call whose error the source drops.
    unfoldable pub ignored : Action (World env) E A → Action (World env) F (Unit {0})
    ignored m w = let (r, w') = m w in (ok tt, w')
