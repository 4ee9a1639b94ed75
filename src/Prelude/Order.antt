-- ===== src/Prelude/Order.antt =====
-- `Ord`: the total order of numbers, and the lexicographic order of byte strings (`Vec<u8>`,
-- `[u8; 32]`, `&str`), which the code compares, sorts and searches by.
use Prim.Native.Nat.{ℕ, compare, Ordering}
use mathlib.Core.Path.{◌≡◌, refl}
use mathlib.Core.Logic.{◌↔◌, ◌⊎◌, inl, inr}
use mathlib.Core.List.{List, [], ◌∷◌, ◌++◌}
use native.Mathlib.Decide.{ℕ_discrete}
use native.Mathlib.Omega.{arith}

-- A byte string is the list of its bytes; that they are below 256 is stated where it matters.
abbrev pub Bytes : Type 0
Bytes = List ℕ

unfoldable pub Bytes-discrete : Discrete Bytes
Bytes-discrete = hlevel ℕ_discrete

abbrev pub swap : Ordering → Ordering
swap Ordering.lt = Ordering.gt
swap Ordering.eq = Ordering.eq
swap Ordering.gt = Ordering.lt

-- The comparison of a total order.
pub record Ord {ℓ} (A : Type ℓ) : Type ℓ where
  pub cmp : A → A → Ordering
  pub cmp_eq : (a b : A) → (cmp a b ≡ Ordering.eq) ↔ (a ≡ b)
  pub cmp_swap : (a b : A) → cmp b a ≡ swap (cmp a b)
  pub lt_trans : (a b c : A) → cmp a b ≡ Ordering.lt → cmp b c ≡ Ordering.lt → cmp a c ≡ Ordering.lt

pub Ordering-cases : (o : Ordering) → (o ≡ Ordering.lt) ⊎ (o ≡ Ordering.eq) ⊎ (o ≡ Ordering.gt)
Ordering-cases Ordering.lt = inl refl
Ordering-cases Ordering.eq = inr (inl refl)
Ordering-cases Ordering.gt = inr (inr refl)

pub compare_eq : (a b : ℕ) → (compare a b ≡ Ordering.eq) ↔ (a ≡ b)
compare_eq a b = ground arith

pub compare-swap : (a b : ℕ) → compare b a ≡ swap (compare a b)
compare-swap a b = ground arith

pub compare-lt_trans :
    (a b c : ℕ) → compare a b ≡ Ordering.lt → compare b c ≡ Ordering.lt → compare a c ≡ Ordering.lt
compare-lt_trans a b c p q = ground arith

instance abbrev pub nat_ord : Ord ℕ
nat_ord = record {
  cmp = compare;
  cmp_eq = compare_eq;
  cmp_swap = compare-swap;
  lt_trans = compare-lt_trans;
}

-- The order of slices.
unfoldable pub cmp_bytes : Bytes → Bytes → Ordering
cmp_bytes [] [] = Ordering.eq
cmp_bytes [] (y ∷ ys) = Ordering.lt
cmp_bytes (x ∷ xs) [] = Ordering.gt
cmp_bytes (x ∷ xs) (y ∷ ys) = elim (compare x y) [
  | Ordering.lt ↦ Ordering.lt
  | Ordering.eq ↦ cmp_bytes xs ys
  | Ordering.gt ↦ Ordering.gt
]

pub cmp_bytes_eq : (a b : Bytes) → (cmp_bytes a b ≡ Ordering.eq) ↔ (a ≡ b)
unfolding cmp_bytes
cmp_bytes_eq [] [] = (λ _. refl, λ _. refl)
cmp_bytes_eq [] (y ∷ ys) = ground arith
cmp_bytes_eq (x ∷ xs) [] = ground arith
cmp_bytes_eq (x ∷ xs) (y ∷ ys) = ground (arith, cmp_bytes_eq xs ys)

pub cmp_bytes-swap : (a b : Bytes) → cmp_bytes b a ≡ swap (cmp_bytes a b)
unfolding cmp_bytes
cmp_bytes-swap [] [] = refl
cmp_bytes-swap [] (y ∷ ys) = refl
cmp_bytes-swap (x ∷ xs) [] = refl
cmp_bytes-swap (x ∷ xs) (y ∷ ys) = ground (arith, cmp_bytes-swap xs ys)

pub cmp_bytes-lt_trans :
    (a b c : Bytes)
    → cmp_bytes a b ≡ Ordering.lt
    → cmp_bytes b c ≡ Ordering.lt
    → cmp_bytes a c ≡ Ordering.lt
unfolding cmp_bytes
cmp_bytes-lt_trans [] [] c p q = cc
cmp_bytes-lt_trans [] (y ∷ ys) [] p q = cc
cmp_bytes-lt_trans [] (y ∷ ys) (z ∷ zs) p q = refl
cmp_bytes-lt_trans (x ∷ xs) [] c p q = cc
cmp_bytes-lt_trans (x ∷ xs) (y ∷ ys) [] p q = cc
cmp_bytes-lt_trans (x ∷ xs) (y ∷ ys) (z ∷ zs) p q = ground (arith, cmp_bytes-lt_trans xs ys zs)

instance abbrev pub bytes_ord : Ord Bytes
bytes_ord = record {
  cmp = cmp_bytes;
  cmp_eq = cmp_bytes_eq;
  cmp_swap = cmp_bytes-swap;
  lt_trans = cmp_bytes-lt_trans;
}

-- A common prefix does not count.
pub cmp_bytes-append_left : (p a b : Bytes) → cmp_bytes (p ++ a) (p ++ b) ≡ cmp_bytes a b
unfolding cmp_bytes
cmp_bytes-append_left [] a b = refl
cmp_bytes-append_left (x ∷ p) a b =
    ground (arith, cmp_bytes-append_left p a b, (compare_eq x x).1 refl)
