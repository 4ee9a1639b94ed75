-- ===== src/Std/Search.antt =====
-- `[T]::binary_search_by`: the halving loop of the standard library.
use rnostr.Prelude.{
  ℕ, zero, suc, ◌+◌, ◌-◌, ◌/◌, ◌≤◌, ◌<◌, Ordering, ◌≡◌, refl, inl, inr, List, none, some, length,
  get_elem?, Option, arith, ltb, Bool-cases, ltb→lt, true, false,
}

-- `Ok(i)`, an element that compares equal, or `Err(i)`, the place where it could be put.
pub data Searched : Type 0 where
  ok err : ℕ → Searched

module _ {ℓ} {A : Type ℓ} (f : A → Ordering) where
  -- The comparison at a place; the loop reads none out of range.
  unfoldable pub probe : List A → ℕ → Ordering
  probe l i = elim (get_elem? l i) [ none ↦ Ordering.gt | some a ↦ f a ]

  -- `while left < right`, with as much fuel as the window is wide.
  unfoldable pub search_in : ℕ → List A → ℕ → ℕ → Searched
  search_in zero l left right = err left
  search_in (suc fuel) l left right = elim (ltb left right) [
    | false ↦ err left
    | true ↦ elim (probe l (left + (right - left) / 2)) [
      | Ordering.lt ↦ search_in fuel l (left + (right - left) / 2 + 1) right
      | Ordering.gt ↦ search_in fuel l left (left + (right - left) / 2)
      | Ordering.eq ↦ ok (left + (right - left) / 2)
    ]
  ]

  unfoldable pub binary_search_by : List A → Searched
  unfolding search_in probe
  binary_search_by l = search_in (length l) l 0 (length l)

  search_in_hit :
      (fuel : ℕ) (l : List A) (left right i : ℕ)
      → search_in fuel l left right ≡ ok i
      → probe l i ≡ Ordering.eq
  unfolding search_in
  search_in_hit zero l left right i e = cc
  search_in_hit (suc fuel) l left right i e = ground (
    arith,
    search_in_hit fuel l (left + (right - left) / 2 + 1) right i,
    search_in_hit fuel l left (left + (right - left) / 2) i,
  )

  -- A hit compares equal, whatever the order of the list.
  pub binary_search_by_hit :
      (l : List A) (i : ℕ)
      → binary_search_by l ≡ ok i
      → (a : A) × (get_elem? l i ≡ some a) × (f a ≡ Ordering.eq)
  unfolding binary_search_by
  binary_search_by_hit l i e = read (get_elem? l i) refl
    where
      hit : probe l i ≡ Ordering.eq
      hit = search_in_hit (length l) l 0 (length l) i e

      read :
          (r : Option A)
          → get_elem? l i ≡ r
          → (a : A) × (get_elem? l i ≡ some a) × (f a ≡ Ordering.eq)
      read none q = absurd (ground (arith, hit))
      read (some a) q = (a, q, ground (arith, hit))

  -- Along the list the comparison is first `lt`, then `eq`, then `gt`.
  abbrev pub IsMonotone : List A → Type 0
  IsMonotone l =
      (i j : ℕ)
      → i ≤ j
      → j < length l
      → ((probe l i ≡ Ordering.gt → probe l j ≡ Ordering.gt)
          × (probe l j ≡ Ordering.lt → probe l i ≡ Ordering.lt))

  -- All below `left` compare `lt`, all from `right` on compare `gt`.
  pub record IsWindow (l : List A) (left right : ℕ) : Type 0 where
    pub below : (i : ℕ) → i < left → probe l i ≡ Ordering.lt
    pub above : (i : ℕ) → right ≤ i → i < length l → probe l i ≡ Ordering.gt

  -- A hit is an element that compares equal; a miss splits the list.
  abbrev pub Splits : List A → Searched → Type 0
  Splits l (ok i) = (i < length l) × (probe l i ≡ Ordering.eq)
  Splits l (err i) = (i ≤ length l) × IsWindow l i i

  module _ (l : List A) (mono : IsMonotone l) where
    raise_left :
        {left right : ℕ} (mid : ℕ)
        → IsWindow l left right
        → mid < length l
        → probe l mid ≡ Ordering.lt
        → IsWindow l (mid + 1) right
    raise_left mid w h e = record {
      below = λ i lt. (mono i mid (omega arith) h).1 e;
      above = w.above;
    }

    lower_right :
        {left right : ℕ} (mid : ℕ)
        → IsWindow l left right
        → mid < length l
        → probe l mid ≡ Ordering.gt
        → IsWindow l left mid
    lower_right mid w h e = record { below = w.below; above = λ i le lt. (mono mid i le lt).0 e }

    -- One round, from what the two recursive calls give.
    round-Splits :
        (fuel left right mid : ℕ) (o : Ordering)
        → probe l mid ≡ o
        → mid < length l
        → (o ≡ Ordering.lt → Splits l (search_in fuel l (mid + 1) right))
        → (o ≡ Ordering.gt → Splits l (search_in fuel l left mid))
        → Splits l (elim o [
          | Ordering.lt ↦ search_in fuel l (mid + 1) right
          | Ordering.gt ↦ search_in fuel l left mid
          | Ordering.eq ↦ ok mid
        ])
    round-Splits fuel left right mid Ordering.lt e h up down = up refl
    round-Splits fuel left right mid Ordering.eq e h up down = (h, e)
    round-Splits fuel left right mid Ordering.gt e h up down = down refl

    search_in-Splits :
        (fuel left right : ℕ)
        → left ≤ right
        → right ≤ length l
        → right - left ≤ fuel
        → IsWindow l left right
        → Splits l (search_in fuel l left right)
    unfolding search_in
    search_in-Splits zero left right h k m w =
        let e : right ≡ left = omega arith in (omega arith, rw e at w)
    search_in-Splits (suc fuel) left right h k m w = elim (Bool-cases (ltb left right)) [
      | inr e ↦ let q : right ≡ left = ground arith in rw (e, search_in) (omega arith, rw q at w)
      | inl e ↦
          let lt : left < right = ltb→lt left right e in
          let mid = left + (right - left) / 2 in
          rw (e, search_in)
            (round-Splits fuel left right mid (probe l mid) refl (omega arith)
              (λ p.
                search_in-Splits fuel (mid + 1) right (omega arith) k (omega arith)
                  (raise_left mid w (omega arith) p))
              (λ p.
                search_in-Splits fuel left mid (omega arith) (omega arith) (omega arith)
                  (lower_right mid w (omega arith) p)))
    ]

  -- On a list along which the comparison is monotone, the search finds an equal element, or the
  -- one place at which all before are less and all after are greater.
  pub binary_search_by-Splits : (l : List A) → IsMonotone l → Splits l (binary_search_by l)
  unfolding binary_search_by
  binary_search_by-Splits l mono =
      search_in-Splits l mono (length l) 0 (length l) (omega arith) (omega arith) (omega arith)
        (record { below = λ i h. absurd (omega arith); above = λ i h k. absurd (omega arith) })
