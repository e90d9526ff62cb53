-- ===== src/Base/Order.antt =====
-- ORDER BY, and the row with the least key.
use Prim.Native.Nat.{ℕ}
use mathlib.Core.Bool.{Bool}
use mathlib.Core.Option.{Option}
use mathlib.Core.List.{List, [], ◌∷◌}
use flutter_whatsapp_clone.Base.Tests.{leb, if◌then◌else◌}
use flutter_whatsapp_clone.Base.Lists.{head?, select_where}

module _ {ℓ} {A : Type ℓ} (before : A → A → Bool) where
  -- Insertion keeps the order in which equal keys arrive.
  unfoldable pub insert_sorted : A → List A → List A
  insert_sorted a [] = a ∷ []
  insert_sorted a (x ∷ xs) =
      let rest = insert_sorted a xs in if before a x then a ∷ x ∷ xs else x ∷ rest

  unfoldable pub order_by : List A → List A
  order_by [] = []
  order_by (x ∷ xs) = insert_sorted x (order_by xs)

-- The row with the least key among those that satisfy a test: gorm's First orders by primary key.
unfoldable pub first_where {ℓ} : {A : Type ℓ} → (A → ℕ) → (A → Bool) → List A → Option A
unfolding order_by insert_sorted
first_where key p xs = head? (order_by (λ x y. leb (key x) (key y)) (select_where p xs))
