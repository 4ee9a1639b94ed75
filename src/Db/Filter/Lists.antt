-- ===== src/Db/Filter/Lists.antt =====
-- `SortList` (db/src/filter.rs): what a list made by `from` holds, and what `contains` answers.
use rnostr.Prelude.Order.{Ord}
use rnostr.Prelude.{
  ℕ, zero, suc, ◌<◌, Ordering, ◌≡◌, refl, sym, ◌∙◌, inl, inr, true, false, List, [], ◌∷◌, some,
  length, get_elem?, get_elem?-lt, All, has, any-some, any_of_get, lt-length_of_get, holds,
  Bool-cases, arith,
}
use rnostr.Std.Sort.{IsStrict, dedup-sort-IsStrict, has-dedup-sort}
use rnostr.Std.Search.{
  Searched, probe, binary_search_by, IsMonotone, IsWindow, Splits, binary_search_by-Splits,
  binary_search_by_hit,
}
use rnostr.Db.Filter.{from, contains, is_ok}

module _ {ℓ} {A : Type ℓ} ⦃o : Ord A⦄ (dec : Discrete A) where
  All-get : (P : A → Type 0) (l : List A) (i : ℕ) (a : A) → All P l → get_elem? l i ≡ some a → P a
  All-get P [] i a h e = absurd (ground arith)
  All-get P (x ∷ l) zero a h e = ground (arith, h.0)
  All-get P (x ∷ l) (suc i) a h e = All-get P l i a h.1 e

  IsStrict-get :
      (l : List A) (i j : ℕ) (a b : A)
      → IsStrict l
      → i < j
      → get_elem? l i ≡ some a
      → get_elem? l j ≡ some b
      → o.cmp a b ≡ Ordering.lt
  IsStrict-get [] i j a b s h p q = absurd (ground arith)
  IsStrict-get (x ∷ l) i zero a b s h p q = absurd (omega arith)
  IsStrict-get (x ∷ l) zero (suc j) a b s h p q =
      ground (arith, All-get (λ y. o.cmp x y ≡ Ordering.lt) l j b s.0 q)
  IsStrict-get (x ∷ l) (suc i) (suc j) a b s h p q = IsStrict-get l i j a b s.1 (omega arith) p q

  module _ (item : A) where
    abbrev against : A → Ordering
    against p = o.cmp p item

    probe-some :
        (l : List A) (i : ℕ) (a : A) → get_elem? l i ≡ some a → probe against l i ≡ o.cmp a item
    unfolding probe
    probe-some l i a e = ground arith

    later_gt :
        (a b : A)
        → o.cmp a b ≡ Ordering.lt
        → o.cmp a item ≡ Ordering.gt
        → o.cmp b item ≡ Ordering.gt
    later_gt a b h e = ground (arith, o.cmp_swap a item, o.lt_trans item a b, o.cmp_swap item b)

    IsStrict-IsMonotone : (l : List A) → IsStrict l → IsMonotone against l
    IsStrict-IsMonotone l s i j h k =
        let (a, p) = get_elem?-lt l i (omega arith) in
        let (b, q) = get_elem?-lt l j k in
        ground (
          arith,
          probe-some l i a p,
          probe-some l j b q,
          IsStrict-get l i j a b s,
          later_gt a b,
          o.lt_trans a b item,
        )

    hit-has :
        (l : List A) (i : ℕ) → binary_search_by against l ≡ Searched.ok i → has dec item l ≡ true
    hit-has l i e =
        let (a, g, q) = binary_search_by_hit against l i e in
        any_of_get (λ x. holds (dec x item)) l i a g (ground (arith, o.cmp_eq a item))

    miss-not-has : (l : List A) (i : ℕ) → IsWindow against l i i → has dec item l ≡ false
    miss-not-has l i w = elim (Bool-cases (has dec item l)) [
      | inr e ↦ e
      | inl e ↦
          let (a, j, g, q) = any-some (λ x. holds (dec x item)) l e in
          let lt : j < length l = lt-length_of_get l j a g in
          absurd (ground (arith, probe-some l j a g, o.cmp_eq a item, w.below j, w.above j))
    ]

    answer :
        (l : List A) (r : Searched)
        → binary_search_by against l ≡ r
        → Splits against l r
        → is_ok r ≡ has dec item l
    answer l (Searched.ok i) e s = sym (hit-has l i e)
    answer l (Searched.err i) e s = sym (miss-not-has l i s.1)

  -- `contains` decides membership in a sorted list without repetition.
  pub contains-has : (l : List A) (item : A) → IsStrict l → contains l item ≡ has dec item l
  unfolding contains
  contains-has l item s =
      answer item l (binary_search_by (λ p. o.cmp p item) l) refl
        (binary_search_by-Splits (λ p. o.cmp p item) l (IsStrict-IsMonotone item l s))

  -- A hit needs no order: it is an element.
  pub has-contains : (l : List A) (item : A) → contains l item ≡ true → has dec item l ≡ true
  unfolding contains
  has-contains l item h = found (binary_search_by (λ p. o.cmp p item) l) refl h
    where
      found :
          (r : Searched)
          → binary_search_by (λ p. o.cmp p item) l ≡ r
          → is_ok r ≡ true
          → has dec item l ≡ true
      found (Searched.ok i) e t = hit-has item l i e
      found (Searched.err i) e t = cc

  pub from-IsStrict : (l : List A) → IsStrict (from l)
  unfolding from
  from-IsStrict l = dedup-sort-IsStrict l

  pub has-from : (l : List A) (a : A) → has dec a (from l) ≡ has dec a l
  unfolding from
  has-from l a = has-dedup-sort dec a l

  -- A list made by `SortList::from` is sorted and holds no item twice, and its `contains` finds
  -- exactly the items that it was made of.
  pub contains-from :
      (l : List A) (item : A) → IsStrict (from l) × (contains (from l) item ≡ has dec item l)
  unfolding from
  contains-from l item =
      (from-IsStrict l, contains-has (from l) item (from-IsStrict l) ∙ has-dedup-sort dec item l)
