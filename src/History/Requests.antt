-- ===== src/History/Requests.antt =====
-- internal/server: what the tables record, through a run of requests.
use flutter_whatsapp_clone.Base.{String, List}
use flutter_whatsapp_clone.Crypto.{Crypto}
use flutter_whatsapp_clone.Store.{Env, World}
use flutter_whatsapp_clone.Server.{Request, serve_all}
use flutter_whatsapp_clone.Steps.Requests.{serve_all-Keeps}
use flutter_whatsapp_clone.History.Grows.{Grows, growing}
use flutter_whatsapp_clone.History.Writes.{history}

module _ (env : Env) (crypto : Crypto) (secret : String) where
  -- No sequence of requests takes back what the tables record.
  pub serve_all-Grows :
      (requests : List Request) (w : World env)
      → Grows w.db (serve_all env crypto secret requests w).db
  serve_all-Grows = serve_all-Keeps env growing (history env) crypto secret
