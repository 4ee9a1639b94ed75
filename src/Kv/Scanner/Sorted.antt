-- ===== src/Kv/Scanner/Sorted.antt =====
-- The list of the keys found (kv/src/scanner.rs) stays in the order of keys.
use rnostr.Prelude.{
  ℕ, zero, suc, ◌≤◌, ◌<◌, ◌≡◌, ◌≢◌, sym, ◌∙◌, Ordering, Bool, true, false, List, [], ◌∷◌, length,
  All, arith,
}
use rnostr.Std.Search.{
  Searched, probe, binary_search_by, IsMonotone, Splits, binary_search_by-Splits,
}
use rnostr.Kv.Scanner.{TimeKey, cmp_keys, insert_at, add_key, ℕ, length, suc, IsOrder}
use rnostr.Kv.Scanner.Lists.{All-insert_at}

gt_ne_eq : Ordering.gt ≢ Ordering.eq
gt_ne_eq h = absurd (cc h)

lt_ne_eq : Ordering.lt ≢ Ordering.eq
lt_ne_eq h = absurd (cc h)

lt_ne_gt : Ordering.lt ≢ Ordering.gt
lt_ne_gt h = absurd (cc h)

not_gt_eq : Ordering.eq ≢ Ordering.gt
not_gt_eq h = absurd (cc h)

swap_cmp-IsOrder : {K : Type 0} (cmp : K → K → Ordering) → IsOrder cmp → IsOrder (λ a b. cmp b a)
swap_cmp-IsOrder cmp o = record {
  cmp_swap = λ a b. o.cmp_swap b a;
  le_trans = λ a b c p q. o.le_trans c b a q p;
}

cmp_keys-IsOrder :
    {K : Type 0} (tk : TimeKey K) (reverse : Bool) → IsOrder tk.cmp → IsOrder (cmp_keys tk reverse)
unfolding cmp_keys
cmp_keys-IsOrder tk true o = o
cmp_keys-IsOrder tk false o = swap_cmp-IsOrder tk.cmp o

module _ {K : Type 0} (tk : TimeKey K) where
  -- A key may stand before another: the greater first, or the smaller first if `reverse`.
  abbrev pub Before : Bool → K → K → Type 0
  Before reverse a b = cmp_keys tk reverse a b ≢ Ordering.gt

  abbrev pub IsSorted {ℓ} : {I : Type ℓ} → Bool → List (I × K) → Type 0
  IsSorted reverse [] = Unit
  IsSorted reverse (x ∷ xs) = All (λ y. Before reverse x.1 y.1) xs × IsSorted reverse xs

  module _ (order : IsOrder tk.cmp) (reverse : Bool) where
    abbrev keys_order : IsOrder (cmp_keys tk reverse)
    keys_order = cmp_keys-IsOrder tk reverse order

    Before-gt :
        (a b key : K)
        → Before reverse a b
        → cmp_keys tk reverse a key ≡ Ordering.gt
        → cmp_keys tk reverse b key ≡ Ordering.gt
    Before-gt a b key h e = ground (arith, keys_order.le_trans a b key h)

    pub Before-swap : (a b : K) → cmp_keys tk reverse a b ≢ Ordering.lt → Before reverse b a
    Before-swap a b h = ground (arith, keys_order.cmp_swap a b)

    pub Before-refl : (k : K) → Before reverse k k
    Before-refl k = ground (arith, keys_order.cmp_swap k k)

    Before-lt :
        (a b key : K)
        → Before reverse a b
        → cmp_keys tk reverse b key ≡ Ordering.lt
        → cmp_keys tk reverse a key ≡ Ordering.lt
    Before-lt a b key h e =
        ground
          (arith, keys_order.cmp_swap a key, keys_order.cmp_swap b key, keys_order.le_trans key a b)

    module _ {ℓ} {I : Type ℓ} (key : K) where
      abbrev against : I × K → Ordering
      against p = cmp_keys tk reverse p.1 key

      All-gt :
          (x : I × K) (l : List (I × K)) (j : ℕ)
          → All (λ y. Before reverse x.1 y.1) l
          → against x ≡ Ordering.gt
          → j < length l
          → probe against l j ≡ Ordering.gt
      unfolding probe
      All-gt x [] j a e h = absurd (omega arith)
      All-gt x (y ∷ l) zero a e h = Before-gt x.1 y.1 key a.0 e
      All-gt x (y ∷ l) (suc j) a e h = All-gt x l j a.1 e (omega arith)

      head_lt :
          (x : I × K) (l : List (I × K)) (j : ℕ)
          → All (λ y. Before reverse x.1 y.1) l
          → probe against l j ≡ Ordering.lt
          → against x ≡ Ordering.lt
      unfolding probe
      head_lt x [] j a e = absurd (ground arith)
      head_lt x (y ∷ l) zero a e = Before-lt x.1 y.1 key a.0 e
      head_lt x (y ∷ l) (suc j) a e = head_lt x l j a.1 e

      IsSorted-IsMonotone : (l : List (I × K)) → IsSorted reverse l → IsMonotone against l
      unfolding probe
      IsSorted-IsMonotone [] s i j h k = absurd (omega arith)
      IsSorted-IsMonotone (x ∷ l) s zero zero h k = (λ e. e, λ e. e)
      IsSorted-IsMonotone (x ∷ l) s zero (suc j) h k =
          (λ e. All-gt x l j s.0 e (omega arith), λ e. head_lt x l j s.0 e)
      IsSorted-IsMonotone (x ∷ l) s (suc i) zero h k = absurd (omega arith)
      IsSorted-IsMonotone (x ∷ l) s (suc i) (suc j) h k =
          IsSorted-IsMonotone l s.1 i j (omega arith) (omega arith)

      All-after :
          (l : List (I × K))
          → ((i : ℕ) → i < length l → probe against l i ≢ Ordering.lt)
          → All (λ y. Before reverse key y.1) l
      unfolding probe
      All-after [] h = tt
      All-after (x ∷ l) h =
          (Before-swap x.1 key (h 0 (omega arith)), All-after l (λ i k. h (suc i) (omega arith)))

      insert_at-IsSorted :
          (n : ℕ) (item : I) (l : List (I × K))
          → n ≤ length l
          → ((i : ℕ) → i < n → probe against l i ≢ Ordering.gt)
          → ((i : ℕ) → n ≤ i → i < length l → probe against l i ≢ Ordering.lt)
          → IsSorted reverse l
          → IsSorted reverse (insert_at n (item, key) l)
      unfolding insert_at probe
      insert_at-IsSorted zero item l b low high s = (All-after l (λ i k. high i (omega arith) k), s)
      insert_at-IsSorted (suc n) item [] b low high s = absurd (omega arith)
      insert_at-IsSorted (suc n) item (x ∷ l) b low high s = (
        All-insert_at (λ y. Before reverse x.1 y.1) n (item, key) l (low 0 (omega arith)) s.0,
        insert_at-IsSorted n item l (omega arith) (λ i k. low (suc i) (omega arith))
            (λ i k m. high (suc i) (omega arith) (omega arith)) s.1,
      )

      -- A key is put into the list of the keys found so that their order is kept, wherever equal
      -- keys stand.
      pub add_key-IsSorted :
          (item : I) (l : List (I × K))
          → IsSorted reverse l
          → IsSorted reverse (add_key tk reverse item key l)
      unfolding add_key
      add_key-IsSorted item l s =
          split (binary_search_by against l)
            (binary_search_by-Splits against l (IsSorted-IsMonotone l s))
        where
          split :
              (r : Searched)
              → Splits against l r
              → IsSorted reverse
                  (insert_at (elim r [ Searched.ok i ↦ i | Searched.err i ↦ i ]) (item, key) l)
          split (Searched.ok n) (h, e) =
              insert_at-IsSorted n item l (omega arith)
                (λ i k q. gt_ne_eq (sym ((IsSorted-IsMonotone l s i n (omega arith) h).0 q) ∙ e))
                (λ i k m q. lt_ne_eq (sym ((IsSorted-IsMonotone l s n i k m).1 q) ∙ e)) s
          split (Searched.err n) (h, w) =
              insert_at-IsSorted n item l h (λ i k q. lt_ne_gt (sym (w.below i k) ∙ q))
                (λ i k m q. lt_ne_gt (sym q ∙ w.above i k m)) s
