-- ===== src/Keys/Bundle/Answer.antt =====
-- internal/keys/service.go: what GetUserKeyBundle answers.
use mathlib.Core.List.{Mem}
use flutter_whatsapp_clone.Base.{ℕ, true, false, List, select_where, length, ◌==◌, ◌&&◌, ◌≡◌}
use flutter_whatsapp_clone.Models.{Uuid, User, Device, account_is_active, device_is_active}
use flutter_whatsapp_clone.Store.{Db, Env}
use flutter_whatsapp_clone.Keys.Defs.{KeyBundleResponse}
use flutter_whatsapp_clone.Keys.Bundle.Devices.{Bundled}

module _ (env : Env) where
  -- The active devices of an account, in the order of the statement n.
  abbrev pub devices_of : ℕ → Uuid → Db → List Device
  devices_of n user db =
      env.arrange _ n
        (select_where (λ d. d.user_id == user && device_is_active d.status) db.devices)

  -- What an answer of GetUserKeyBundle says.
  pub record BundlesOf (user : Uuid) (db : Db) (res : KeyBundleResponse) : Type 0 where
    pub account : User
    pub stored : Mem account db.users
    pub active : (account.id == user && account_is_active account.account_status) ≡ true
    pub user_id : res.user_id ≡ env.uuid_string account.id
    pub asked_at : ℕ
    pub bundled : Bundled env db (devices_of asked_at user db) res.devices
    pub some_device : (length res.devices == 0) ≡ false
