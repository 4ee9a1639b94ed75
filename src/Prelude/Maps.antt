-- ===== src/Prelude/Maps.antt =====
-- `HashMap`: association lists, read and changed by key. The order of the list stands for the
-- order of iteration, which the code leaves open; theorems do not depend on it.
use Prim.Native.Nat.{◌≤◌, ◌+◌}
use mathlib.Core.Path.{◌≡◌, refl}
use mathlib.Core.Logic.{ite, inl, inr}
use mathlib.Core.Bool.{Bool, true, false, ◌&&◌}
use mathlib.Core.List.{List, [], ◌∷◌}
use mathlib.Core.Option.{Option, none, some}
use native.Mathlib.Omega.{arith}
use rnostr.Prelude.Lists.{length, any, all}
use rnostr.Prelude.Tests.{holds, Bool-cases}

abbrev pub Map {ℓ} : Type ℓ → Type ℓ → Type ℓ
Map K V = List (K × V)

module _ {ℓ} {K V : Type ℓ} (dec : Discrete K) where
  unfoldable pub get : K → Map K V → Option V
  get k [] = none
  get k ((j, v) ∷ m) = ite (dec j k) (some v) (get k m)

  unfoldable pub insert : K → V → Map K V → Map K V
  insert k v [] = (k, v) ∷ []
  insert k v ((j, w) ∷ m) = ite (dec j k) ((k, v) ∷ m) ((j, w) ∷ insert k v m)

  unfoldable pub remove : K → Map K V → Map K V
  remove k [] = []
  remove k ((j, w) ∷ m) = ite (dec j k) (remove k m) ((j, w) ∷ remove k m)

  pub get-insert :
      (k : K) (v : V) (q : K) (m : Map K V)
      → get q (insert k v m) ≡ ite (dec k q) (some v) (get q m)
  unfolding get insert
  get-insert k v q [] = refl
  get-insert k v q ((j, w) ∷ m) = ground (arith, get-insert k v q m)

  pub get-remove : (k q : K) (m : Map K V) → get q (remove k m) ≡ ite (dec k q) none (get q m)
  unfolding get remove
  get-remove k q [] = ground arith
  get-remove k q ((j, w) ∷ m) = ground (arith, get-remove k q m)

  -- No key stands twice.
  abbrev pub Distinct : Map K V → Type ℓ
  Distinct [] = Unit
  Distinct ((k, v) ∷ m) = (get k m ≡ none) × Distinct m

  pub insert-Distinct : (k : K) (v : V) (m : Map K V) → Distinct m → Distinct (insert k v m)
  unfolding insert get
  insert-Distinct k v [] d = (refl, tt)
  insert-Distinct k v ((j, w) ∷ m) d = ground (arith, insert-Distinct k v m d.1, get-insert k v j m)

  pub remove-Distinct : (k : K) (m : Map K V) → Distinct m → Distinct (remove k m)
  unfolding remove
  remove-Distinct k [] d = tt
  remove-Distinct k ((j, w) ∷ m) d = ground (arith, remove-Distinct k m d.1, get-remove k j m)

  -- A search through the entries of a map with distinct keys, for one key.
  pub any-get :
      (k : K) (p : V → Bool) (m : Map K V) (v : V)
      → get k m ≡ some v
      → p v ≡ true
      → any (λ e. holds (dec e.0 k) && p e.1) m ≡ true
  unfolding get
  any-get k p [] v g h = absurd (ground arith)
  any-get k p ((j, w) ∷ m) v g h = ground (arith, any-get k p m v)

  absent-any :
      (k : K) (p : V → Bool) (m : Map K V)
      → get k m ≡ none
      → any (λ e. holds (dec e.0 k) && p e.1) m ≡ false
  unfolding get
  absent-any k p [] g = refl
  absent-any k p ((j, w) ∷ m) g = ground (arith, absent-any k p m)

  pub get-any :
      (k : K) (p : V → Bool) (m : Map K V)
      → Distinct m
      → any (λ e. holds (dec e.0 k) && p e.1) m ≡ true
      → (v : V) × (get k m ≡ some v) × (p v ≡ true)
  unfolding get
  get-any k p [] d h = absurd (ground arith)
  get-any k p ((j, w) ∷ m) d h = elim (dec j k) [
    | yes e ↦ (w, ground arith, ground (arith, absent-any k p m))
    | no n ↦ let (v, g, q) = get-any k p m d.1 (ground arith) in (v, ground arith, q)
  ]

  pub all-get :
      (p : K × V → Bool) (m : Map K V) (k : K) (v : V)
      → all p m ≡ true
      → get k m ≡ some v
      → p (k, v) ≡ true
  unfolding get
  all-get p [] k v h g = absurd (ground arith)
  all-get p ((j, w) ∷ m) k v h g = elim (dec j k) [
    | yes e ↦ ground arith
    | no n ↦ all-get p m k v (ground arith) (ground arith)
  ]

  pub get-all :
      (p : K × V → Bool) (m : Map K V)
      → Distinct m
      → ((k : K) (v : V) → get k m ≡ some v → p (k, v) ≡ true)
      → all p m ≡ true
  unfolding get
  get-all p [] d h = refl
  get-all p ((j, w) ∷ m) d h =
      let first : p (j, w) ≡ true = h j w (ground arith) in
      let rest : all p m ≡ true = get-all p m d.1 (λ k v g. h k v (later k v g)) in ground arith
    where
      later : (k : K) (v : V) → get k m ≡ some v → ite (dec j k) (some w) (get k m) ≡ some v
      later k v g = ground (arith, d.0)

  -- Any entry that is read is met by a search.
  pub any_of_read :
      (q : K × V → Bool) (m : Map K V) (k : K) (v : V)
      → get k m ≡ some v
      → q (k, v) ≡ true
      → any q m ≡ true
  unfolding get
  any_of_read q [] k v g h = absurd (ground arith)
  any_of_read q ((j, w) ∷ m) k v g h = elim (dec j k) [
    | yes e ↦ ground arith
    | no n ↦ let rest = any_of_read q m k v (ground arith) h in ground arith
  ]

  -- Where no key stands twice, what a search meets can be read.
  pub read_of_any :
      (q : K × V → Bool) (m : Map K V)
      → Distinct m
      → any q m ≡ true
      → (k : K) × (v : V) × (get k m ≡ some v) × (q (k, v) ≡ true)
  unfolding get
  read_of_any q [] d h = absurd (ground arith)
  read_of_any q ((j, w) ∷ m) d h = elim (Bool-cases (q (j, w))) [
    | inl e ↦ (j, w, ground arith, e)
    | inr e ↦
        let (k, v, g, r) = read_of_any q m d.1 (ground arith) in (k, v, ground (arith, d.0), r)
  ]

  pub length-insert-le : (k : K) (v : V) (m : Map K V) → length (insert k v m) ≤ length m + 1
  unfolding insert
  length-insert-le k v [] = omega arith
  length-insert-le k v ((j, w) ∷ m) = ground (arith, length-insert-le k v m)

  pub length-remove-le : (k : K) (m : Map K V) → length (remove k m) ≤ length m
  unfolding remove
  length-remove-le k [] = omega arith
  length-remove-le k ((j, w) ∷ m) = ground (arith, length-remove-le k m)
