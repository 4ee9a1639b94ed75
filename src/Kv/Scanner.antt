-- ===== src/Kv/Scanner.antt =====
-- kv/src/scanner.rs: keys found by several scanners, merged or intersected in their order.
pub mod Groups
pub mod Scan
pub mod Lists
pub mod Watched
pub mod Sorted
pub mod Given
pub mod Range
pub mod Merged
pub mod Halts
pub mod Leaves
pub mod Lookups
pub mod Rounds
pub mod Common
use rnostr.Prelude.Order.{Bytes, swap, compare-swap}
use rnostr.Prelude.{
  ℕ, zero, suc, ◌+◌, ◌%◌, compare, Ordering, ◌≡◌, ◌≢◌, Bool, true, false, not, ◌||◌, Option, none,
  some, List, [], ◌∷◌, ◌++◌, map, any, is_empty, length, get_elem?, ◌==◌, if◌then◌else◌, arith,
}
use rnostr.Std.Words.{u64_mod}
use rnostr.Std.Search.{Searched, binary_search_by}
use rnostr.Db.Error.{Outcome, ok, err, panicked}
use rnostr.Kv.Lmdb.{Act, pure, lift, next, ◌>>=◌}

-- The time of a key, the order of keys, and the bytes of an entry's key with another time.
pub record TimeKey (K : Type 0) : Type 0 where
  pub time : K → ℕ
  pub cmp : K → K → Ordering
  pub change_time : K → Bytes → ℕ → Outcome Bytes

-- The order of keys where a type of keys has no other: by time.
unfoldable pub default_cmp : {K : Type 0} → (K → ℕ) → K → K → Ordering
default_cmp time a b = compare (time a) (time b)

-- Keys that compare as equal need not be equal.
pub record IsOrder {K : Type 0} (cmp : K → K → Ordering) : Type 0 where
  pub cmp_swap : (a b : K) → cmp b a ≡ swap (cmp a b)
  pub le_trans : (a b c : K) → cmp a b ≢ Ordering.gt → cmp b c ≢ Ordering.gt → cmp a c ≢ Ordering.gt

pub default_cmp-IsOrder : {K : Type 0} (time : K → ℕ) → IsOrder (default_cmp time)
unfolding default_cmp
default_cmp-IsOrder time = record {
  cmp_swap = λ a b. compare-swap (time a) (time b);
  le_trans = λ a b c p q. ground arith;
}

-- `Vec::insert` and `Vec::pop`.
unfoldable pub insert_at {ℓ} : {A : Type ℓ} → ℕ → A → List A → List A
insert_at zero a xs = a ∷ xs
insert_at (suc n) a [] = a ∷ []
insert_at (suc n) a (x ∷ xs) = x ∷ insert_at n a xs

unfoldable pub pop {ℓ} : {A : Type ℓ} → List A → Option (A × List A)
pop [] = none
pop (x ∷ xs) = elim (pop xs) [ none ↦ some (x, []) | some (y, ys) ↦ some (y, x ∷ ys) ]

unfoldable pub set_at {ℓ} : {A : Type ℓ} → ℕ → A → List A → List A
set_at n a [] = []
set_at zero a (x ∷ xs) = a ∷ xs
set_at (suc n) a (x ∷ xs) = x ∷ set_at n a xs

module _ {K : Type 0} (tk : TimeKey K) where
  -- The order of the list: the smallest key in the back, or the greatest if `reverse`.
  unfoldable pub cmp_keys : Bool → K → K → Ordering
  cmp_keys reverse k1 k2 = if reverse then tk.cmp k1 k2 else tk.cmp k2 k1

  -- `SortedKeyList::add`: after a search for an equal key, or for the key's place.
  unfoldable pub add_key {ℓ} : {I : Type ℓ} → Bool → I → K → List (I × K) → List (I × K)
  unfolding cmp_keys binary_search_by insert_at
  add_key reverse item key inner =
      insert_at
        (elim (binary_search_by (λ p. cmp_keys reverse p.1 key) inner) [
          | Searched.ok i ↦ i
          | Searched.err i ↦ i
        ])
        (item, key) inner
