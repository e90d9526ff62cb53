-- ===== src/Startup/Ready.antt =====
-- cmd/api/main.go: what holds when the server begins to listen.
use flutter_whatsapp_clone.Base.{
  ℤ, Bool, true, false, Option, none, some, String, str_eq, eq_iff, if◌then◌else◌, ◌≡◌, ◌≢◌, refl,
  sym, ap, ◌∙◌, subst, Bool-cases, inl, inr, arith,
}
use flutter_whatsapp_clone.Action.{Result, ok, err}
use flutter_whatsapp_clone.Config.{Godotenv, Variables, Config, getenv, get_env, after_load, load}
use flutter_whatsapp_clone.Startup.{
  Drivers, Database, ConnectError, Listening, pinged, with_gorm, connect_db, connect_cache,
  with_cache, with_database, main,
}

abbrev is_blank : String → Bool
is_blank String.[] = true
is_blank (String.◌∷◌ c s) = false

abbrev rest_of : String → String
rest_of String.[] = ""
rest_of (String.◌∷◌ c s) = s

get_env-filled :
    (vars : Variables) (key fallback : String) → fallback ≢ "" → get_env vars key fallback ≢ ""
get_env-filled vars key fallback h e = elim (Bool-cases (str_eq (getenv vars key) "")) [
  | inl unset ↦ h (sym (ap (λ b. if b then fallback else getenv vars key) unset) ∙ e)
  | inr set ↦
      let same : getenv vars key ≡ "" =
        sym (ap (λ b. if b then fallback else getenv vars key) set) ∙ e in
      let yes = (eq_iff (getenv vars key) "").1 same in cc
]

get_env-set :
    (vars : Variables) (key value fallback : String)
    → vars key ≡ some value
    → value ≢ ""
    → get_env vars key fallback ≡ value
get_env-set vars key value fallback h filled =
    let e : getenv vars key ≡ value = ap (λ o. elim o [ none ↦ "" | some v ↦ v ]) h in
    ap (λ v. if str_eq v "" then fallback else v) e ∙ (elim (Bool-cases (str_eq value "")) [
      | inl same ↦ absurd (filled ((eq_iff value "").0 same))
      | inr differs ↦ ap (λ b. if b then fallback else value) differs
    ])

after_load-set :
    (dotenv : Godotenv) (vars : Variables) (key value : String)
    → vars key ≡ some value
    → after_load dotenv vars key ≡ some value
after_load-set dotenv vars key value h = go (dotenv.load vars) refl
  where
    go :
        (o : Option Variables)
        → dotenv.load vars ≡ o
        → elim o as (λ p. Variables) [ none ↦ vars | some loaded ↦ loaded ] key ≡ some value
    go none e = h
    go (some loaded) e = dotenv.load-keeps vars loaded key value e h

module _ (drivers : Drivers) (dotenv : Godotenv) (vars : Variables) where
  -- What main has seen to before it listens.
  pub record Ready (l : Listening drivers) : Type 0 where
    pub opened : drivers.gorm_open (load dotenv vars).database_url ≡ some l.database.gorm
    pub database_answers :
        (drivers.sql_db l.database.gorm ≡ some l.database.pool)
        × (drivers.ping_db l.database.pool ≡ true)
    pub cache :
        let cfg = load dotenv vars in
        l.cache ≡ drivers.new_client cfg.redis_addr cfg.redis_password cfg.redis_db
    pub cache_answers : drivers.ping_client l.cache ≡ true
    pub secret : l.jwt_secret ≢ ""
    pub secret_set :
        (value : String) → vars "JWT_SECRET" ≡ some value → value ≢ "" → l.jwt_secret ≡ value
    pub address : l.addr ≢ ":"

  pinged_ok :
      (g : drivers.Gorm) (pool : drivers.SqlDb) (d : Database drivers)
      → pinged drivers g pool ≡ ok d
      → (g ≡ d.gorm) × (pool ≡ d.pool) × (drivers.ping_db pool ≡ true)
  pinged_ok g pool d h = ground arith

  sql_db_ok :
      (g : drivers.Gorm) (o : Option drivers.SqlDb) (d : Database drivers)
      → elim o [ none ↦ err ConnectError.no_sql_db | some pool ↦ pinged drivers g pool ] ≡ ok d
      → (g ≡ d.gorm) × (o ≡ some d.pool) × (drivers.ping_db d.pool ≡ true)
  sql_db_ok g none d h = ground arith
  sql_db_ok g (some pool) d h =
      let (e, f, ping) = pinged_ok g pool d h in
      (e, ap some f, subst (λ p. drivers.ping_db p ≡ true) f ping)

  with_gorm_ok :
      (o : Option drivers.Gorm) (d : Database drivers)
      → with_gorm drivers o ≡ ok d
      → (o ≡ some d.gorm) × (drivers.sql_db d.gorm ≡ some d.pool) × (drivers.ping_db d.pool ≡ true)
  with_gorm_ok none d h = ground arith
  with_gorm_ok (some g) d h =
      let (e, f, ping) = sql_db_ok g (drivers.sql_db g) d h in
      (ap some e, subst (λ x. drivers.sql_db x ≡ some d.pool) e f, ping)

  connect_cache_ok :
      (addr password : String) (index : ℤ) (c : drivers.Client)
      → connect_cache drivers addr password index ≡ some c
      → (c ≡ drivers.new_client addr password index) × (drivers.ping_client c ≡ true)
  connect_cache_ok addr password index c h =
      elim (Bool-cases (drivers.ping_client (drivers.new_client addr password index))) [
        | inl answers ↦
            let same : drivers.new_client addr password index ≡ c =
              let e : ◌≡◌ {A = Option drivers.Client}
                  (some (drivers.new_client addr password index)) (some c) =
                sym (
                  ap (λ b. if b then some (drivers.new_client addr password index) else none)
                    answers)
                ∙ h in
              cc in
            (sym same, subst (λ x. drivers.ping_client x ≡ true) same answers)
        | inr silent ↦
            let e : ◌≡◌ {A = Option drivers.Client} none (some c) =
              sym
                (ap (λ b. if b then some (drivers.new_client addr password index) else none) silent)
              ∙ h in
            ground arith
      ]

  with_cache_ok :
      (cfg : Config) (d : Database drivers) (o : Option drivers.Client) (l : Listening drivers)
      → with_cache drivers cfg d o ≡ ok l
      → (d ≡ l.database)
        × (o ≡ some l.cache)
        × (cfg.jwt_secret ≡ l.jwt_secret)
        × (String.◌∷◌ ":" cfg.port ≡ l.addr)
  with_cache_ok cfg d none l h = ground arith
  with_cache_ok cfg d (some c) l h = ground arith

-- If main comes to listen, the database of DATABASE_URL was opened and answered a ping, and so did
-- Redis at the configured address; the secret is not empty, and is the value of JWT_SECRET where the
-- environment of the process sets one that is not empty, whatever a .env file says; and a port is
-- named in the address.
pub main-Ready :
    (drivers : Drivers) (dotenv : Godotenv) (vars : Variables) (l : Listening drivers)
    → main drivers dotenv vars ≡ ok l
    → Ready drivers dotenv vars l
main-Ready drivers dotenv vars l h = go (connect_db drivers cfg.database_url) refl h
  where
    filled : false ≢ true
    filled e = cc

    cfg : Config
    cfg = load dotenv vars

    go :
        (r : Result (ConnectError drivers) (Database drivers))
        → connect_db drivers cfg.database_url ≡ r
        → with_database drivers cfg r ≡ ok l
        → Ready drivers dotenv vars l
    go (err e) k h = ground arith
    go (ok d) k h =
        let (e, c, s, a) =
          with_cache_ok drivers dotenv vars cfg d
            (connect_cache drivers cfg.redis_addr cfg.redis_password cfg.redis_db) l h in
        let (opened, pool, ping) =
          with_gorm_ok drivers dotenv vars (drivers.gorm_open cfg.database_url) l.database
            (k ∙ ap ok e) in
        let (client, answers) =
          connect_cache_ok drivers dotenv vars cfg.redis_addr cfg.redis_password cfg.redis_db
            l.cache c in
        record {
          opened = opened;
          database_answers = (pool, ping);
          cache = client;
          cache_answers = answers;
          secret = λ q.
              get_env-filled (after_load dotenv vars) "JWT_SECRET" _ (λ x. filled (ap is_blank x))
                (s ∙ q);
          secret_set = λ value set given.
              sym s
              ∙ get_env-set (after_load dotenv vars) "JWT_SECRET" value _
                  (after_load-set dotenv vars "JWT_SECRET" value set) given;
          address = λ q.
              get_env-filled (after_load dotenv vars) "PORT" "8080" (λ x. filled (ap is_blank x))
                (ap rest_of (a ∙ q));
        }
