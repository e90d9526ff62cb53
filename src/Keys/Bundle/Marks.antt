-- ===== src/Keys/Bundle/Marks.antt =====
-- internal/keys/service.go: what marking a one-time prekey as used does to the unused keys of each device.
use flutter_whatsapp_clone.Base.{
  Perm, Bool, Bool-cases, inl, inr, true, false, not, ◌&&◌, List, [], ◌∷◌, All, any, map,
  select_where, leb, ltb, ◌==◌, ◌≡◌, refl, sym, ap, subst, arith,
}
use mathlib.Core.List.{Mem, mem-cons, not-mem-nil, Perm-prop}
use mathlib.Core.Logic.Or
use mathlib.Core.List.Perm
use flutter_whatsapp_clone.Base.Select.{Bool-set, any_of_imp}
use flutter_whatsapp_clone.Base.Sorting.{any-mem}
use flutter_whatsapp_clone.Models.{Uuid, Time, SignalOneTimePrekey}
use flutter_whatsapp_clone.Keys.Bundle.{mark_used}

abbrev pub is_spare_of : Uuid → SignalOneTimePrekey → Bool
is_spare_of device k = k.device_id == device && not k.is_used

-- The unused keys of a device.
abbrev pub pool : Uuid → List SignalOneTimePrekey → List SignalOneTimePrekey
pool device rows = select_where (is_spare_of device) rows

-- The ids are a primary key.
abbrev pub AllDistinct : List SignalOneTimePrekey → Type 0
AllDistinct [] = Unit {0}
AllDistinct (k ∷ ks) = (any (λ x. x.id == k.id) ks ≡ false) × AllDistinct ks

-- The marks on a list that has no row of the id.
pool-mark_none :
    (device id : Uuid) (now : Time) (rows : List SignalOneTimePrekey)
    → any (λ x. x.id == id) rows ≡ false
    → pool device (map (mark_used id now) rows) ≡ pool device rows
pool-mark_none device id now [] h = refl
pool-mark_none device id now (x ∷ xs) h =
    let rest = pool-mark_none device id now xs (ground arith) in
    let other : (x.id == id) ≡ false = ground arith in rw (other, rest)

-- A row other than a member of the rest, when ids are distinct.
other_row :
    (k x : SignalOneTimePrekey) (xs : List SignalOneTimePrekey)
    → any (λ y. y.id == x.id) xs ≡ false
    → Mem k xs
    → (x.id == k.id) ≡ false
other_row k x xs d m = elim (Bool-cases (x.id == k.id)) [
  | inr other ↦ other
  | inl same ↦
      let hit : (k.id == x.id) ≡ true = ground arith in
      let found = any-mem (λ y. y.id == x.id) k xs m hit in cc
]

pool-mark_head :
    (device : Uuid) (now : Time) (k : SignalOneTimePrekey) (xs : List SignalOneTimePrekey)
    → AllDistinct (k ∷ xs)
    → is_spare_of device k ≡ true
    → pool device (k ∷ xs) ≡ k ∷ pool device (map (mark_used k.id now) (k ∷ xs))
pool-mark_head device now k xs d spare =
    let rest = pool-mark_none device k.id now xs d.0 in
    let used : is_spare_of device (mark_used k.id now k) ≡ false = ground arith in
    rw (spare, used, rest) refl

-- Marking a key takes it out of the pool, and nothing else.
pub pool-mark_used :
    (device : Uuid) (now : Time) (k : SignalOneTimePrekey) (rows : List SignalOneTimePrekey)
    → AllDistinct rows
    → Mem k rows
    → is_spare_of device k ≡ true
    → Perm (pool device rows) (k ∷ pool device (map (mark_used k.id now) rows))
pool-mark_used device now k [] d m spare = absurd (not-mem-nil m)
pool-mark_used device now k (x ∷ xs) d m spare =
    Or.elim Perm-prop (mem-cons.0 m)
      (λ e.
        let here =
          pool-mark_head device now k xs (subst (λ z. AllDistinct (z ∷ xs)) (sym e) d) spare in
        subst
          (λ z. Perm (pool device (z ∷ xs)) (k ∷ pool device (map (mark_used k.id now) (z ∷ xs)))) e
          (subst (λ ys. Perm ys (k ∷ pool device (map (mark_used k.id now) (k ∷ xs)))) (sym here)
            (Perm.refl _)))
      (λ later.
        let other = other_row k x xs d.0 later in
        let rest = pool-mark_used device now k xs d.1 later spare in
        elim (Bool-cases (is_spare_of device x)) [
          | inl hit ↦ rw (other, hit) (Perm.trans (Perm.cons x rest) (Perm.swap k x _))
          | inr miss ↦ rw (other, miss) rest
        ])

-- A row of the id of a member is a row of its device.
pub one_owner :
    (k : SignalOneTimePrekey) (rows : List SignalOneTimePrekey)
    → AllDistinct rows
    → Mem k rows
    → any (λ x. x.id == k.id && not (x.device_id == k.device_id)) rows ≡ false
one_owner k [] d m = refl
one_owner k (x ∷ xs) d m =
    Or.elim (Bool-set _ _) (mem-cons.0 m)
      (λ e.
        let first =
          any_of_imp (λ y. y.id == k.id && not (y.device_id == k.device_id)) (λ y. y.id == x.id)
            (λ y h. let q : k.id ≡ x.id = ap (λ z. z.id) e in ground arith) xs d.0 in
        let here : (x.device_id == k.device_id) ≡ true =
          let q : k.device_id ≡ x.device_id = ap (λ z. z.device_id) e in ground arith in
        ground arith)
      (λ later.
        let other = other_row k x xs d.0 later in
        let rest = one_owner k xs d.1 later in ground arith)

pub pool-mark_other :
    (other id device : Uuid) (now : Time) (rows : List SignalOneTimePrekey)
    → any (λ x. x.id == id && not (x.device_id == device)) rows ≡ false
    → (other == device) ≡ false
    → pool other (map (mark_used id now) rows) ≡ pool other rows
pool-mark_other other id device now [] h differs = refl
pool-mark_other other id device now (x ∷ xs) h differs =
    let rest = pool-mark_other other id device now xs (ground arith) differs in
    elim (Bool-cases (x.id == id)) [
      | inr miss ↦ rw (miss, rest) refl
      | inl hit ↦
          let owner : (x.device_id == other) ≡ false = ground arith in rw (hit, owner, rest) refl
    ]

-- No member of a sorted list stands before its head.
pub head-IsSorted :
    (k : SignalOneTimePrekey) (xs : List SignalOneTimePrekey)
    → All (λ x. leb k.created_at x.created_at ≡ true) xs
    → any (λ x. ltb x.created_at k.created_at) xs ≡ false
head-IsSorted k [] h = refl
head-IsSorted k (x ∷ xs) h = let rest = head-IsSorted k xs h.1 in let here = h.0 in ground arith
