-- ===== src/Tests/Fixtures.antt =====
-- A world that meets the laws of `Env`: Redis as a function, rows in the order of their table, a
-- clock that counts statements, and an id spelled by a letter and as many more as the id says.
use Prim.Native.String.{String}
use mathlib.Core.List.Perm
use text.Mathlib.TextPositions.{eq_refl}
use flutter_whatsapp_clone.Base.{
  ℕ, zero, suc, ◌+◌, ◌*◌, ◌≡◌, refl, ap, true, false, Option, none, some, [], ◌∷◌, str_eq,
  if◌then◌else◌, arith,
}
use flutter_whatsapp_clone.Models.{
  User, Device, ConversationParticipant, AccountStatus, DeviceStatus, ConversationType,
}
use flutter_whatsapp_clone.Redis.{
  Redis, Entry, fresh, live, value_of, is_some, incremented, renewed,
}
use flutter_whatsapp_clone.Store.{Db, Env, World, done}

abbrev put : (String → Option Entry) → String → Option Entry → String → Option Entry
put s k e j = if str_eq k j then e else s j

abbrev incr_of : ℕ → String → (String → Option Entry) → Option ℕ × (String → Option Entry)
incr_of now k s = elim (incremented (live now (s k))) [
  | none ↦ (none, s)
  | some (n, e) ↦ (some n, put s k (some e))
]

pub incr_of_result :
    (now : ℕ) (k : String) (s : String → Option Entry)
    → (incr_of now k s).0
      ≡ elim (incremented (live now (s k))) [ none ↦ none | some (n, e) ↦ some n ]
incr_of_result now k s = ground arith

pub incr_of_entry :
    (now : ℕ) (k : String) (s : String → Option Entry) (j : String)
    → (incr_of now k s).1 j ≡ (
        if str_eq k j
        then elim (incremented (live now (s k))) [ none ↦ s j | some (n, e) ↦ some e ]
        else s j)
incr_of_entry now k s j = ground arith

abbrev table_redis : Redis
table_redis = record {
  State = String → Option Entry;
  entry = λ s k. s k;
  get = λ now k s. value_of (live now (s k));
  set = λ now k v ttl s. put s k (fresh v (now + ttl));
  set_nx = λ now k v ttl s.
      if is_some (live now (s k)) then (false, s) else (true, put s k (fresh v (now + ttl)));
  del = λ k s. put s k none;
  incr = incr_of;
  expire = λ now k ttl s. put s k (renewed (now + ttl) (live now (s k)));
  get_lem = λ now k s. refl;
  set_lem = λ now k v ttl s j. refl;
  set_nx_lem = λ now k v ttl s. refl;
  del_lem = λ k s j. refl;
  incr_result = incr_of_result;
  incr_entry = incr_of_entry;
  expire_lem = λ now k ttl s j. refl;
}

abbrev pub spell : ℕ → String
spell zero = "i"
spell (suc n) = String.◌∷◌ "i" (spell n)

abbrev letters : String → ℕ
letters String.[] = 0
letters (String.◌∷◌ c s) = suc (letters s)

abbrev spelled : String → Option ℕ
spelled String.[] = none
spelled (String.◌∷◌ c s) = some (letters s)

letters-spell : (n : ℕ) → letters (spell n) ≡ suc n
letters-spell zero = refl
letters-spell (suc n) = ap suc (letters-spell n)

pub spelled-spell : (n : ℕ) → spelled (spell n) ≡ some n
spelled-spell zero = refl
spelled-spell (suc n) = ap some (letters-spell n)

-- Every statement does what it says.
abbrev pub calm : Env
calm = record {
  redis = table_redis;
  verdict = λ n. done;
  now = λ n. 1000 + n;
  new_uuid = λ n i. 100 + 10 * n + i;
  arrange = λ A n xs. xs;
  arrange_perm = λ A n xs. Perm.refl xs;
  parse_uuid = spelled;
  uuid_string = spell;
  locked = λ n id. false;
  citext_eq = str_eq;
  citext_refl = eq_refl;
  format_time = spell;
  parse-string = spelled-spell;
}

abbrev pub a_user : ℕ → User
a_user n = record {
  id = n;
  phone_number = some (spell n);
  email = none;
  password_hash = "";
  name = "user";
  profile_photo_url = none;
  about_text = none;
  account_status = AccountStatus.active;
  phone_verified_at = none;
  email_verified_at = none;
  last_seen_at = none;
  created_at = 1;
  updated_at = 1;
}

abbrev pub a_device : ℕ → ℕ → Device
a_device n user = record {
  id = n;
  user_id = user;
  device_name = none;
  platform = "web";
  push_token = none;
  push_token_updated_at = none;
  status = DeviceStatus.active;
  last_active_at = none;
  created_at = 1;
}

abbrev pub a_member : ℕ → ℕ → ℕ → ConversationParticipant
a_member n conversation user = record {
  id = n;
  conversation_id = conversation;
  user_id = user;
  role = "member";
  joined_at = 0;
  left_at = none;
  is_active = true;
}

-- Users 1, 2 and 3 with the devices 11, 12, 22 and 33; 1 and 2 share the conversation 5.
abbrev pub a_db : Db
a_db = record {
  users = a_user 1 ∷ a_user 2 ∷ a_user 3 ∷ [];
  devices = a_device 11 1 ∷ a_device 12 1 ∷ a_device 22 2 ∷ a_device 33 3 ∷ [];
  refresh_tokens = [];
  identity_keys = [];
  signed_prekeys = [];
  one_time_prekeys = [];
  conversations =
      record { id = 5; type = ConversationType.direct; created_by = 1; created_at = 2 } ∷ [];
  participants = a_member 51 5 1 ∷ a_member 52 5 2 ∷ [];
  messages = [];
  recipients = [];
}

abbrev pub a_world : World calm
a_world = record { db = a_db; cache = λ k. none; tick = 0 }
