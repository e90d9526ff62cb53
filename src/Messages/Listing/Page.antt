-- ===== src/Messages/Listing/Page.antt =====
-- The page of messages that ListMessages reads.
use mathlib.Core.List.Perm
use flutter_whatsapp_clone.Base.{
  ℕ, ◌≡◌, ◌≢◌, ◌≤◌, List, [], ◌++◌, Perm, Option, take, length, arith, order_by, ℤ, pos,
}
use flutter_whatsapp_clone.Base.Sorting.{
  IsSorted, order_by-perm, order_by-IsSorted, drop, take-append-drop, length-take-le,
  length-take_full,
}
use flutter_whatsapp_clone.Models.{Uuid, Time}
use flutter_whatsapp_clone.Store.{Db, Env}
use flutter_whatsapp_clone.Messages.Listing.{MessageListRow, clamp_limit, joined, newest_first}

-- Every limit that a client asks for is brought between 1 and 100, and one in that range is kept.
pub clamp_limit_bounds :
    (limit : ℤ)
    → (1 ≤ clamp_limit limit)
      × (clamp_limit limit ≤ 100)
      × ((n : ℕ) → limit ≡ pos n → 1 ≤ n → n ≤ 100 → clamp_limit limit ≡ n)
unfolding clamp_limit
clamp_limit_bounds (pos n) = ground arith
clamp_limit_bounds (ℤ.negsuc n) = ground arith

module _ (env : Env) (caller device conversation : Uuid) (cursor : Option Time) where
  abbrev pub page : ℕ → ℕ → Db → List MessageListRow
  page limit n db = take limit (
      order_by newest_first
        (env.arrange _ n (joined caller device conversation cursor db.recipients db.messages)))

  -- `rows` are the newest of all that match: with those left out they are all, once each, from the
  -- newest to the oldest, and some are left out only if the page is full.
  pub record IsPage (limit : ℕ) (db : Db) (rows : List MessageListRow) : Type 0 where
    pub left_out : List MessageListRow
    pub complete :
        Perm (rows ++ left_out) (joined caller device conversation cursor db.recipients db.messages)
    pub sorted : IsSorted newest_first (rows ++ left_out)
    pub bounded : length rows ≤ limit
    pub full : left_out ≢ [] → length rows ≡ limit

  pub page-IsPage : (limit n : ℕ) (db : Db) → IsPage limit db (page limit n db)
  page-IsPage limit n db =
      let all =
        order_by newest_first
          (env.arrange _ n (joined caller device conversation cursor db.recipients db.messages)) in
      record {
        left_out = drop limit all;
        complete =
            rw (take-append-drop limit all)
              (Perm.trans (order_by-perm newest_first _) (env.arrange_perm _ n _));
        sorted =
            rw (take-append-drop limit all) (
              order_by-IsSorted newest_first (λ x y h. ground arith) (λ x y z h k. ground arith) _);
        bounded = length-take-le limit all;
        full = length-take_full limit all;
      }
