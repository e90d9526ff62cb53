-- ===== src/History/Kept.antt =====
-- How a table may change: rows stay where they are, and only in some columns, and rows are added.
use flutter_whatsapp_clone.Base.{
  inr, inl, Bool-cases, ℕ, Bool, true, false, ◌&&◌, List, [], ◌∷◌, ◌++◌, map, any, ◌==◌, ◌≡◌, refl,
  sym, ap, ◌∙◌, subst, arith,
}
use mathlib.Core.List.{append_assoc, append-nil}
use flutter_whatsapp_clone.Base.Select.{any-append, any_of_imp}
use flutter_whatsapp_clone.Store.{fits}

-- `view` shows the columns that never change, and a row that is not `alive` never is again.
module _ {A : Type 0} (view : A → A) (alive : A → Bool) where
  abbrev pub Ages : A → A → Type 0
  Ages x y = (view y ≡ view x) × (alive y ≡ true → alive x ≡ true)

  -- The rows of the first list, aged, begin the second.
  abbrev pub Kept : List A → List A → Type 0
  Kept [] ys = Unit {0}
  Kept (x ∷ xs) [] = ⊥
  Kept (x ∷ xs) (y ∷ ys) = Ages x y × Kept xs ys

  pub Kept-refl : (xs : List A) → Kept xs xs
  Kept-refl [] = tt
  Kept-refl (x ∷ xs) = ((refl, λ h. h), Kept-refl xs)

  pub Kept-trans : (xs ys zs : List A) → Kept xs ys → Kept ys zs → Kept xs zs
  Kept-trans [] ys zs h k = tt
  Kept-trans (x ∷ xs) [] zs h k = elim h [ ]
  Kept-trans (x ∷ xs) (y ∷ ys) [] h k = elim k [ ]
  Kept-trans (x ∷ xs) (y ∷ ys) (z ∷ zs) ((v, a), h) ((w, b), k) =
      ((w ∙ v, λ e. a (b e)), Kept-trans xs ys zs h k)

  pub Kept-append : (xs ys : List A) → Kept xs (xs ++ ys)
  Kept-append [] ys = tt
  Kept-append (x ∷ xs) ys = ((refl, λ h. h), Kept-append xs ys)

  pub Kept-map : (f : A → A) → ((x : A) → Ages x (f x)) → (xs : List A) → Kept xs (map f xs)
  Kept-map f h [] = tt
  Kept-map f h (x ∷ xs) = (h x, Kept-map f h xs)

-- An id none of whose rows is alive: it stays so, and is not taken again.
module _ {A : Type 0} (id : A → ℕ) (alive : A → Bool) where
  abbrev pub is_taken : ℕ → List A → Bool
  is_taken i xs = any (λ x. id x == i) xs

  abbrev pub is_alive : ℕ → List A → Bool
  is_alive i xs = any (λ x. id x == i && alive x) xs

  abbrev pub Buried : ℕ → List A → Type 0
  Buried i xs = (is_taken i xs ≡ true) × (is_alive i xs ≡ false)

  abbrev pub Buries : List A → List A → Type 0
  Buries xs ys = (i : ℕ) → Buried i xs → Buried i ys

  pub Buries-map :
      (f : A → A)
      → ((x : A) → (id (f x) ≡ id x) × (alive (f x) ≡ true → alive x ≡ true))
      → (xs : List A) → Buries xs (map f xs)
  Buries-map f h xs i (t, d) = (taken xs t, dead xs d)
    where
      taken : (xs : List A) → is_taken i xs ≡ true → is_taken i (map f xs) ≡ true
      taken [] t = t
      taken (x ∷ xs) t = let (e, a) = h x in rw e (ground (arith, taken xs))

      dead : (xs : List A) → is_alive i xs ≡ false → is_alive i (map f xs) ≡ false
      dead [] d = d
      dead (x ∷ xs) d = let (e, a) = h x in rw e (ground (arith, a, dead xs))

  -- A row whose id is in use is not added.
  Buries-add : (xs : List A) (y : A) → is_taken (id y) xs ≡ false → Buries xs (xs ++ y ∷ [])
  Buries-add xs y free i (t, d) = elim (Bool-cases (id y == i)) [
    | inl same ↦
        let q : id y ≡ i = ground arith in
        let no : is_taken i xs ≡ false = subst (λ j. is_taken j xs ≡ false) q free in cc
    | inr other ↦ (
      ground (arith, any-append (λ x. id x == i) xs (y ∷ [])),
      ground (arith, any-append (λ x. id x == i && alive x) xs (y ∷ []), d, other),
    )
  ]

  pub Buries-fits :
      (clash : A → A → Bool)
      → ((x y : A) → (id y == id x) ≡ true → clash x y ≡ true)
      → (xs ys : List A) → fits clash xs ys ≡ true
      → Buries xs (xs ++ ys)
  unfolding fits
  Buries-fits clash h xs [] f i b = subst (Buried i) (sym (append-nil xs)) b
  Buries-fits clash h xs (y ∷ ys) f i b =
      let free = any_of_imp (λ x. id x == id y) (clash y) (h y) xs (ground arith) in
      subst (Buried i) (append_assoc xs (y ∷ []) ys)
        (Buries-fits clash h (xs ++ y ∷ []) ys (ground arith) i (Buries-add xs y free i b))

module _ {A : Type 0} (view : A → A) (alive : A → Bool) where
  -- What the columns that never change say of a row, some row says later.
  pub any-Kept :
      (p : A → Bool)
      → ((x : A) → p (view x) ≡ p x)
      → (xs ys : List A) → Kept view alive xs ys
      → any p xs ≡ true
      → any p ys ≡ true
  any-Kept p stable [] ys h t = cc
  any-Kept p stable (x ∷ xs) [] h t = elim h [ ]
  any-Kept p stable (x ∷ xs) (y ∷ ys) ((v, a), h) t =
      let same : p y ≡ p x = sym (stable y) ∙ ap p v ∙ stable x in
      rw same (ground (arith, any-Kept p stable xs ys h))

  -- A row keeps its id.
  pub is_taken-Kept :
      (id : A → ℕ)
      → ((x : A) → id (view x) ≡ id x)
      → (i : ℕ) (xs ys : List A) → Kept view alive xs ys
      → is_taken id alive i xs ≡ true
      → is_taken id alive i ys ≡ true
  is_taken-Kept id stable i = any-Kept (λ x. id x == i) (λ x. ap (λ n. n == i) (stable x))
