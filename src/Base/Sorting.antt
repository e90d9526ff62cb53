-- ===== src/Base/Sorting.antt =====
-- Laws of ORDER BY and of the first row.
use mathlib.Core.List.{Mem, Mem-prop, mem-cons, mem-cons_self, mem-cons_of_mem, not-mem-nil}
use mathlib.Core.List.Perm
use mathlib.Core.Logic.Or
use mathlib.Core.HLevel.{×_prop}
use flutter_whatsapp_clone.Base.{
  ◌++◌, zero, ap, length, take, suc, ℕ, ◌≡◌, ◌≢◌, ◌≤◌, refl, sym, ◌∙◌, Bool, true, false, List, [],
  ◌∷◌, Perm, any, All, none, some, select_where, head?, order_by, insert_sorted, first_where, leb,
  arith, Bool-cases, inl, inr,
}
use flutter_whatsapp_clone.Base.Select.{Bool-set, any-perm, any-and_true, any-select_where}

module _ {ℓ} {A : Type ℓ} where
  pub mem-select_where :
      (p : A → Bool) (a : A) (xs : List A) → Mem a (select_where p xs) → (p a ≡ true) × Mem a xs
  mem-select_where p a [] m = absurd (not-mem-nil m)
  mem-select_where p a (x ∷ xs) m = elim (Bool-cases (p x)) [
    | inl hit ↦
        Or.elim (×_prop (Bool-set _ _) Mem-prop) (mem-cons.0 (rw hit at m))
          (λ e. (rw e hit, rw e mem-cons_self))
          (λ later. let (q, k) = mem-select_where p a xs later in (q, mem-cons_of_mem x k))
    | inr miss ↦ let (q, k) = mem-select_where p a xs (rw miss at m) in (q, mem-cons_of_mem x k)
  ]

  pub mem-head? : (xs : List A) (a : A) → head? xs ≡ some a → Mem a xs
  mem-head? [] a e = cc
  mem-head? (x ∷ xs) a e = let same : x ≡ a = cc in rw same mem-cons_self

  pub any-mem : (p : A → Bool) (a : A) (xs : List A) → Mem a xs → p a ≡ true → any p xs ≡ true
  any-mem p a [] m h = absurd (not-mem-nil m)
  any-mem p a (x ∷ xs) m h =
      Or.elim (Bool-set _ _) (mem-cons.0 m)
        (λ e. let here : p x ≡ true = rw (← e) h in ground arith)
        (λ later. ground (arith, any-mem p a xs later h))

  -- What holds of all members, from a fact about each of them.
  pub All-mem {κ} : (P : A → Type κ) (xs : List A) → ((x : A) → Mem x xs → P x) → All P xs
  All-mem P [] h = tt
  All-mem P (x ∷ xs) h = (h x mem-cons_self, All-mem P xs (λ y m. h y (mem-cons_of_mem x m)))

  pub All-any :
      (p q : A → Bool) (xs : List A)
      → All (λ x. p x ≡ true → q x ≡ true) xs
      → any p xs ≡ true
      → any q xs ≡ true
  All-any p q [] h e = e
  All-any p q (x ∷ xs) h e = ground (arith, All-any p q xs h.1, h.0)

module _ {ℓ} {A : Type ℓ} (before : A → A → Bool) where
  insert_sorted-perm : (a : A) (xs : List A) → Perm (insert_sorted before a xs) (a ∷ xs)
  unfolding insert_sorted
  insert_sorted-perm a [] = Perm.refl _
  insert_sorted-perm a (x ∷ xs) = elim (Bool-cases (before a x)) [
    | inl first ↦ rw first (Perm.refl _)
    | inr later ↦ rw later (Perm.trans (Perm.cons x (insert_sorted-perm a xs)) (Perm.swap a x xs))
  ]

  pub order_by-perm : (xs : List A) → Perm (order_by before xs) xs
  unfolding order_by
  order_by-perm [] = Perm.refl []
  order_by-perm (x ∷ xs) =
      Perm.trans (insert_sorted-perm x (order_by before xs)) (Perm.cons x (order_by-perm xs))

  -- Each member stands before all that follow it.
  abbrev pub IsSorted : List A → Type 0
  IsSorted [] = Unit
  IsSorted (x ∷ xs) = All (λ y. before x y ≡ true) xs × IsSorted xs

module _ {ℓ} {A : Type ℓ} (key : A → ℕ) (p : A → Bool) where
  pub first_where_found :
      (xs : List A) (a : A) → first_where key p xs ≡ some a → (p a ≡ true) × Mem a xs
  unfolding first_where
  first_where_found xs a e = mem-select_where p a xs (
      (Perm.mem_iff (order_by-perm (λ x y. leb (key x) (key y)) (select_where p xs))).0
        (mem-head? _ a e))

  head?-none : (xs : List A) → head? xs ≡ none → any (λ x. true) xs ≡ false
  head?-none [] e = refl
  head?-none (x ∷ xs) e = cc

  pub first_where_missing : (xs : List A) → first_where key p xs ≡ none → any p xs ≡ false
  unfolding first_where
  first_where_missing xs e =
      sym (any-and_true p xs)
      ∙ sym (any-select_where p (λ x. true) xs)
      ∙ sym (any-perm (λ x. true) (order_by-perm (λ x y. leb (key x) (key y)) (select_where p xs)))
      ∙ head?-none _ e

  pub first_where_only :
      (xs : List A) (a : A) → select_where p xs ≡ a ∷ [] → first_where key p xs ≡ some a
  unfolding first_where
  first_where_only xs a e = rw e

module _ {ℓ} {A : Type ℓ} where
  abbrev pub drop : ℕ → List A → List A
  drop zero xs = xs
  drop (suc n) [] = []
  drop (suc n) (x ∷ xs) = drop n xs

  pub take-append-drop : (n : ℕ) (xs : List A) → take n xs ++ drop n xs ≡ xs
  take-append-drop zero xs = refl
  take-append-drop (suc n) [] = refl
  take-append-drop (suc n) (x ∷ xs) = ap (λ ys. x ∷ ys) (take-append-drop n xs)

  pub length-take-le : (n : ℕ) (xs : List A) → length (take n xs) ≤ n
  length-take-le zero xs = omega arith
  length-take-le (suc n) [] = omega arith
  length-take-le (suc n) (x ∷ xs) = omega (arith, length-take-le n xs)

  pub length-take_full : (n : ℕ) (xs : List A) → drop n xs ≢ [] → length (take n xs) ≡ n
  length-take_full zero xs h = refl
  length-take_full (suc n) [] h = absurd (h refl)
  length-take_full (suc n) (x ∷ xs) h = ap suc (length-take_full n xs h)

module _ {ℓ} {A : Type ℓ} (before : A → A → Bool)
    (total : (x y : A) → before x y ≡ false → before y x ≡ true)
    (transitive : (x y z : A) → before x y ≡ true → before y z ≡ true → before x z ≡ true) where
  All-before :
      (x y : A) (xs : List A)
      → before x y ≡ true
      → All (λ z. before y z ≡ true) xs
      → All (λ z. before x z ≡ true) xs
  All-before x y [] h k = tt
  All-before x y (z ∷ xs) h k = (transitive x y z h k.0, All-before x y xs h k.1)

  All-insert_sorted {κ} :
      (P : A → Type κ) (a : A) (xs : List A) → P a → All P xs → All P (insert_sorted before a xs)
  unfolding insert_sorted
  All-insert_sorted P a [] p h = (p, tt)
  All-insert_sorted P a (x ∷ xs) p h = elim (Bool-cases (before a x)) [
    | inl e ↦ rw e (p, h)
    | inr e ↦ rw e (h.0, All-insert_sorted P a xs p h.1)
  ]

  insert_sorted-IsSorted :
      (a : A) (xs : List A) → IsSorted before xs → IsSorted before (insert_sorted before a xs)
  unfolding insert_sorted
  insert_sorted-IsSorted a [] s = (tt, tt)
  insert_sorted-IsSorted a (x ∷ xs) s = elim (Bool-cases (before a x)) [
    | inl e ↦ rw e ((e, All-before a x xs e s.0), s)
    | inr e ↦ rw e (
      All-insert_sorted (λ z. before x z ≡ true) a xs (total a x e) s.0,
      insert_sorted-IsSorted a xs s.1,
    )
  ]

  pub order_by-IsSorted : (xs : List A) → IsSorted before (order_by before xs)
  unfolding order_by
  order_by-IsSorted [] = tt
  order_by-IsSorted (x ∷ xs) = insert_sorted-IsSorted x (order_by before xs) (order_by-IsSorted xs)
