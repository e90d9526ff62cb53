-- ===== src/Base/Select.antt =====
-- Laws of WHERE: what a test sees of a selection, of a rearrangement, and of an added row.
use mathlib.Core.HLevel.{hedberg}
use mathlib.Core.Logic.{∥∥₁_elim}
use mathlib.Core.List.{Permᴰ}
use mathlib.Core.List.Permᴰ.{reverse as reversed}
use flutter_whatsapp_clone.Base.{
  reverse, suc, ◌≡◌, refl, ◌∙◌, ap, Bool, true, false, not, ◌&&◌, ◌||◌, List, [], ◌∷◌, ◌++◌, map,
  Perm, any, All, select_where, length, ◌==◌, arith,
}

Bool-discrete : Discrete Bool
Bool-discrete = hlevel

pub Bool-set : IsSet Bool
Bool-set = hedberg Bool-discrete

module _ {ℓ} {A : Type ℓ} where
  pub any-append : (p : A → Bool) (xs ys : List A) → any p (xs ++ ys) ≡ (any p xs || any p ys)
  any-append p [] ys = refl
  any-append p (x ∷ xs) ys = ground (arith, any-append p xs ys)

  pub any-select_where :
      (p q : A → Bool) (xs : List A) → any q (select_where p xs) ≡ any (λ x. p x && q x) xs
  any-select_where p q [] = refl
  any-select_where p q (x ∷ xs) = ground (arith, any-select_where p q xs)

  any-permᴰ : (p : A → Bool) {xs ys : List A} → Permᴰ xs ys → any p xs ≡ any p ys
  any-permᴰ p Permᴰ.nil = refl
  any-permᴰ p (Permᴰ.cons {l₁ = xs} {l₂ = ys} e h) = rw (e, any-permᴰ p h)
  any-permᴰ p (Permᴰ.swap {a} {b} {a'} {b'} {l} e f) = ground (arith, ap p e, ap p f)
  any-permᴰ p (Permᴰ.trans h k) = any-permᴰ p h ∙ any-permᴰ p k

  pub any-perm : (p : A → Bool) {xs ys : List A} → Perm xs ys → any p xs ≡ any p ys
  any-perm p h = ∥∥₁_elim h (Bool-set _ _) (any-permᴰ p)

  length-permᴰ : {xs ys : List A} → Permᴰ xs ys → length xs ≡ length ys
  length-permᴰ Permᴰ.nil = refl
  length-permᴰ (Permᴰ.cons e h) = ap suc (length-permᴰ h)
  length-permᴰ (Permᴰ.swap e f) = refl
  length-permᴰ (Permᴰ.trans h k) = length-permᴰ h ∙ length-permᴰ k

  pub length-reverse : (xs : List A) → length (reverse xs) ≡ length xs
  length-reverse xs = length-permᴰ (reversed xs)

  pub any-reverse : (p : A → Bool) (xs : List A) → any p (reverse xs) ≡ any p xs
  any-reverse p xs = any-permᴰ p (reversed xs)

  pub any_congr : (p q : A → Bool) → ((x : A) → p x ≡ q x) → (xs : List A) → any p xs ≡ any q xs
  any_congr p q h [] = refl
  any_congr p q h (x ∷ xs) = rw (h x, any_congr p q h xs)

  pub select_where_congr :
      (p q : A → Bool)
      → ((x : A) → p x ≡ q x)
      → (xs : List A) → select_where p xs ≡ select_where q xs
  select_where_congr p q h [] = refl
  select_where_congr p q h (x ∷ xs) = rw (h x, select_where_congr p q h xs)

  pub select_where-append :
      (p : A → Bool) (xs ys : List A)
      → select_where p (xs ++ ys) ≡ select_where p xs ++ select_where p ys
  select_where-append p [] ys = refl
  select_where-append p (x ∷ xs) ys = ground (arith, select_where-append p xs ys)

  pub select_where-false :
      (p : A → Bool) → ((x : A) → p x ≡ false) → (xs : List A) → select_where p xs ≡ []
  select_where-false p h [] = refl
  select_where-false p h (x ∷ xs) = rw (h x) (select_where-false p h xs)

  pub length-eq-zero : (xs : List A) → (length xs == 0) ≡ not (any (λ x. true) xs)
  length-eq-zero [] = refl
  length-eq-zero (x ∷ xs) = ground arith

  pub any-and_true : (p : A → Bool) (xs : List A) → any (λ x. p x && true) xs ≡ any p xs
  any-and_true p [] = refl
  any-and_true p (x ∷ xs) = ground (arith, any-and_true p xs)

  pub select_where-nil : (p : A → Bool) (xs : List A) → any p xs ≡ false → select_where p xs ≡ []
  select_where-nil p [] h = refl
  select_where-nil p (x ∷ xs) h = ground (arith, select_where-nil p xs)

  pub any-eq-length :
      (p : A → Bool) (xs : List A) → any p xs ≡ not (length (select_where p xs) == 0)
  any-eq-length p [] = refl
  any-eq-length p (x ∷ xs) = ground (arith, any-eq-length p xs)

module _ {ℓ κ} {A : Type ℓ} {B : Type κ} where
  pub length-map : (f : A → B) (xs : List A) → length (map f xs) ≡ length xs
  length-map f [] = refl
  length-map f (x ∷ xs) = ap suc (length-map f xs)

  pub any-map : (p : B → Bool) (f : A → B) (xs : List A) → any p (map f xs) ≡ any (λ x. p (f x)) xs
  any-map p f [] = refl
  any-map p f (x ∷ xs) = rw (any-map p f xs)

module _ {ℓ κ} {A : Type ℓ} (P : A → Type κ) where
  pub All-append : (xs ys : List A) → All P xs → All P ys → All P (xs ++ ys)
  All-append [] ys hx hy = hy
  All-append (x ∷ xs) ys hx hy = (hx.0, All-append xs ys hx.1 hy)

module _ {ℓ} {A : Type ℓ} where
  -- A test that implies another fails wherever the other does.
  pub any_of_imp :
      (p q : A → Bool)
      → ((x : A) → p x ≡ true → q x ≡ true)
      → (xs : List A) → any q xs ≡ false
      → any p xs ≡ false
  any_of_imp p q h [] e = refl
  any_of_imp p q h (x ∷ xs) e = ground (arith, h x, any_of_imp p q h xs)

  pub any_imp :
      (p q : A → Bool)
      → ((x : A) → p x ≡ true → q x ≡ true)
      → (xs : List A) → any p xs ≡ true
      → any q xs ≡ true
  any_imp p q h [] e = e
  any_imp p q h (x ∷ xs) e = ground (arith, h x, any_imp p q h xs)

  pub any-append_self :
      (p : A → Bool) (xs : List A) (a : A) → p a ≡ true → any p (xs ++ a ∷ []) ≡ true
  any-append_self p [] a h = ground arith
  any-append_self p (x ∷ xs) a h = ground (arith, any-append_self p xs a h)
