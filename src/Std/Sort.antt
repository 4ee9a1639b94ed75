-- ===== src/Std/Sort.antt =====
-- `[T]::sort` and `Vec::dedup`. The order is total, so the sorted list does not depend on how it is
-- sorted; insertion is used here.
use rnostr.Prelude.Order.{Ord, Ordering-cases}
use rnostr.Prelude.{Ordering, ◌≡◌, refl, ◌⊎◌, inl, inr, List, [], ◌∷◌, All, arith, has, ◌∙◌}

module _ {ℓ} {A : Type ℓ} ⦃o : Ord A⦄ where
  unfoldable pub insert : A → List A → List A
  insert x [] = x ∷ []
  insert x (y ∷ ys) = elim (o.cmp y x) [ Ordering.gt ↦ x ∷ y ∷ ys | _ ↦ y ∷ insert x ys ]

  unfoldable pub sort : List A → List A
  unfolding insert
  sort [] = []
  sort (x ∷ xs) = insert x (sort xs)

  unfoldable pub dedup_from : A → List A → List A
  dedup_from x [] = x ∷ []
  dedup_from x (y ∷ ys) = elim (o.cmp x y) [
    | Ordering.eq ↦ dedup_from x ys
    | _ ↦ x ∷ dedup_from y ys
  ]

  -- Of equal neighbours the first stays.
  unfoldable pub dedup : List A → List A
  unfolding dedup_from
  dedup [] = []
  dedup (x ∷ xs) = dedup_from x xs

  -- `y` does not come before `x`.
  abbrev pub Le : A → A → Type ℓ
  Le x y = (o.cmp x y ≡ Ordering.lt) ⊎ (x ≡ y)

  abbrev pub IsSorted : List A → Type ℓ
  IsSorted [] = Unit
  IsSorted (x ∷ xs) = All (Le x) xs × IsSorted xs

  -- Sorted, with no element twice.
  abbrev pub IsStrict : List A → Type 0
  IsStrict [] = Unit
  IsStrict (x ∷ xs) = All (λ y. o.cmp x y ≡ Ordering.lt) xs × IsStrict xs

  Le-trans : (x y z : A) → Le x y → Le y z → Le x z
  Le-trans x y z (inl p) (inl q) = inl (o.lt_trans x y z p q)
  Le-trans x y z (inl p) (inr q) = inl (ground arith)
  Le-trans x y z (inr p) q = ground arith

  All-Le-trans : (x y : A) (l : List A) → Le x y → All (Le y) l → All (Le x) l
  All-Le-trans x y [] h a = tt
  All-Le-trans x y (z ∷ l) h a = (Le-trans x y z h a.0, All-Le-trans x y l h a.1)

  insert-All {κ} : (P : A → Type κ) (x : A) (l : List A) → P x → All P l → All P (insert x l)
  unfolding insert
  insert-All P x [] h a = (h, tt)
  insert-All P x (y ∷ ys) h a =
      elim (o.cmp y x) as (λ c. All P (elim c [ Ordering.gt ↦ x ∷ y ∷ ys | _ ↦ y ∷ insert x ys ])) [
        | Ordering.gt ↦ (h, a)
        | _ ↦ (a.0, insert-All P x ys h a.1)
      ]

  insert-IsSorted : (x : A) (l : List A) → IsSorted l → IsSorted (insert x l)
  unfolding insert
  insert-IsSorted x [] s = (tt, tt)
  insert-IsSorted x (y ∷ ys) s = elim (Ordering-cases (o.cmp y x)) [
    | inl e ↦ rw (e, insert) (insert-All (Le y) x ys (inl e) s.0, insert-IsSorted x ys s.1)
    | inr (inl e) ↦
        rw (e, insert)
          (insert-All (Le y) x ys (inr ((o.cmp_eq y x).0 e)) s.0, insert-IsSorted x ys s.1)
    | inr (inr e) ↦
        let h : o.cmp x y ≡ Ordering.lt = ground (arith, o.cmp_swap y x) in
        rw (e, insert) ((inl h, All-Le-trans x y ys (inl h) s.0), s)
  ]

  pub sort-IsSorted : (l : List A) → IsSorted (sort l)
  unfolding sort
  sort-IsSorted [] = tt
  sort-IsSorted (x ∷ xs) = insert-IsSorted x (sort xs) (sort-IsSorted xs)

  dedup_from-All {κ} :
      (P : A → Type κ) (x : A) (l : List A) → P x → All P l → All P (dedup_from x l)
  unfolding dedup_from
  dedup_from-All P x [] h a = (h, tt)
  dedup_from-All P x (y ∷ ys) h a = elim (Ordering-cases (o.cmp x y)) [
    | inl e ↦ rw (e, dedup_from) (h, dedup_from-All P y ys a.0 a.1)
    | inr (inl e) ↦ rw (e, dedup_from) (dedup_from-All P x ys h a.1)
    | inr (inr e) ↦ rw (e, dedup_from) (h, dedup_from-All P y ys a.0 a.1)
  ]

  lt-All :
      (x y : A) (l : List A)
      → o.cmp x y ≡ Ordering.lt
      → All (Le y) l
      → All (λ z. o.cmp x z ≡ Ordering.lt) l
  lt-All x y [] h a = tt
  lt-All x y (z ∷ l) h a = (step a.0, lt-All x y l h a.1)
    where
      step : Le y z → o.cmp x z ≡ Ordering.lt
      step (inl p) = o.lt_trans x y z h p
      step (inr p) = ground arith

  dedup_from-IsStrict : (x : A) (l : List A) → IsSorted (x ∷ l) → IsStrict (dedup_from x l)
  unfolding dedup_from
  dedup_from-IsStrict x [] s = (tt, tt)
  dedup_from-IsStrict x (y ∷ ys) s = elim (Ordering-cases (o.cmp x y)) [
    | inl e ↦
        rw (e, dedup_from)
          (
            dedup_from-All (λ z. o.cmp x z ≡ Ordering.lt) y ys e (lt-All x y ys e s.1.0),
            dedup_from-IsStrict y ys s.1,
          )
    | inr (inl e) ↦ rw (e, dedup_from) (dedup_from-IsStrict x ys (s.0.1, s.1.1))
    | inr (inr e) ↦ absurd (ground (arith, o.cmp_eq x y, s.0.0))
  ]

  pub dedup-sort-IsStrict : (l : List A) → IsStrict (dedup (sort l))
  unfolding dedup
  dedup-sort-IsStrict l = go (sort l) (sort-IsSorted l)
    where
      go : (m : List A) → IsSorted m → IsStrict (dedup m)
      go [] s = tt
      go (x ∷ xs) s = dedup_from-IsStrict x xs s

  module _ (dec : Discrete A) where
    has-insert : (a x : A) (l : List A) → has dec a (insert x l) ≡ has dec a (x ∷ l)
    unfolding insert
    has-insert a x [] = refl
    has-insert a x (y ∷ ys) = ground (arith, has-insert a x ys)

    has-sort : (a : A) (l : List A) → has dec a (sort l) ≡ has dec a l
    unfolding sort
    has-sort a [] = refl
    has-sort a (x ∷ xs) = ground (arith, has-insert a x (sort xs), has-sort a xs)

    has-dedup_from : (a x : A) (l : List A) → has dec a (dedup_from x l) ≡ has dec a (x ∷ l)
    unfolding dedup_from
    has-dedup_from a x [] = refl
    has-dedup_from a x (y ∷ ys) =
        ground (arith, has-dedup_from a x ys, has-dedup_from a y ys, o.cmp_eq x y)

    pub has-dedup-sort : (a : A) (l : List A) → has dec a (dedup (sort l)) ≡ has dec a l
    unfolding dedup
    has-dedup-sort a l = go (sort l) ∙ has-sort a l
      where
        go : (m : List A) → has dec a (dedup m) ≡ has dec a m
        go [] = refl
        go (x ∷ xs) = has-dedup_from a x xs
