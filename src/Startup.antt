-- ===== src/Startup.antt =====
-- cmd/api/main.go, internal/db/db.go and internal/cache/redis.go: the start of the server. The
-- drivers of PostgreSQL and Redis and the network are parameters; log.Fatalf ends the program.
pub mod Ready
use flutter_whatsapp_clone.Base.{
  ℕ, ℤ, Bool, true, false, Option, none, some, String, if◌then◌else◌, ◌≡◌, ◌≢◌, refl,
}
use flutter_whatsapp_clone.Action.{Result, ok, err}
use flutter_whatsapp_clone.Config.{Godotenv, Variables, Config, load}

-- gorm, database/sql and go-redis, and what they answer.
pub record Drivers : Type 1 where
  pub Gorm : Type 0
  pub SqlDb : Type 0
  pub Client : Type 0
  pub gorm_open : String → Option Gorm
  pub sql_db : Gorm → Option SqlDb
  pub ping_db : SqlDb → Bool
  pub new_client : String → String → ℤ → Client
  pub ping_client : Client → Bool

module _ (drivers : Drivers) where
  -- What db.Connect returns, with the limits that it sets.
  pub record Database : Type 0 where
    pub gorm : drivers.Gorm
    pub pool : drivers.SqlDb
    pub max_open : ℕ
    pub max_idle : ℕ

  pub data ConnectError : Type 0 where
    not_opened no_sql_db no_answer : ConnectError

  abbrev pub pinged : drivers.Gorm → drivers.SqlDb → Result ConnectError Database
  pinged g pool =
      if drivers.ping_db pool
      then ok (record { gorm = g; pool = pool; max_open = 25; max_idle = 10 })
      else err no_answer

  abbrev pub with_gorm : Option drivers.Gorm → Result ConnectError Database
  with_gorm none = err not_opened
  with_gorm (some g) = elim (drivers.sql_db g) [ none ↦ err no_sql_db | some pool ↦ pinged g pool ]

  abbrev pub connect_db : String → Result ConnectError Database
  connect_db dsn = with_gorm (drivers.gorm_open dsn)

  -- cache.Connect.
  abbrev pub connect_cache : String → String → ℤ → Option drivers.Client
  connect_cache addr password index =
      let client = drivers.new_client addr password index in
      if drivers.ping_client client then some client else none

  -- The arguments of server.New and of Run.
  pub record Listening : Type 0 where
    pub database : Database
    pub cache : drivers.Client
    pub jwt_secret : String
    pub addr : String

  pub data Fatal : Type 0 where
    no_database : ConnectError → Fatal
    no_redis : Fatal

  abbrev with_cache : Config → Database → Option drivers.Client → Result Fatal Listening
  with_cache cfg database none = err no_redis
  with_cache cfg database (some cache) = ok (record {
    database = database;
    cache = cache;
    jwt_secret = cfg.jwt_secret;
    addr = String.◌∷◌ ":" cfg.port;
  })

  abbrev with_database : Config → Result ConnectError Database → Result Fatal Listening
  with_database cfg (err e) = err (no_database e)
  with_database cfg (ok database) =
      with_cache cfg database (connect_cache cfg.redis_addr cfg.redis_password cfg.redis_db)

  abbrev started : Config → Result Fatal Listening
  started cfg = with_database cfg (connect_db cfg.database_url)

  -- main, up to the call of Run.
  abbrev pub main : Godotenv → Variables → Result Fatal Listening
  main dotenv vars = started (load dotenv vars)
