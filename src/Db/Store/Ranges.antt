-- ===== src/Db/Store/Ranges.antt =====
-- `upper` (db/src/db.rs): the end of the range of keys with a prefix.
use rnostr.Prelude.Order.{Bytes, cmp_bytes}
use rnostr.Prelude.{
  ◌+◌, ◌≡◌, refl, subst, Ordering, Bool, true, false, ◌||◌, Option, none, some, [], ◌∷◌,
  Option-cases, inl, inr, arith,
}
use rnostr.Std.Words.{AreBytes}
use rnostr.Db.Store.{upper, starts_with}

-- `a < b` on keys.
abbrev pub before : Bytes → Bytes → Bool
before a b = elim (cmp_bytes a b) [ Ordering.lt ↦ true | _ ↦ false ]

-- Without an upper bound, the prefix is of 255s, and no key comes after it without having it.
upper_none :
    (p k : Bytes)
    → AreBytes p
    → AreBytes k
    → upper p ≡ none
    → (before k p || starts_with p k) ≡ true
unfolding upper cmp_bytes starts_with
upper_none [] k a b h = ground arith
upper_none (x ∷ p) [] a b h = refl
upper_none (x ∷ p) (y ∷ k) a b h = ground (arith, upper_none p k a.1 b.1, a.0, b.0)

before-nil : (k : Bytes) → before k [] ≡ false
unfolding cmp_bytes
before-nil [] = refl
before-nil (y ∷ k) = refl

upper_some :
    (p k u : Bytes)
    → AreBytes p
    → AreBytes k
    → upper p ≡ some u
    → before k u ≡ (before k p || starts_with p k)
unfolding upper cmp_bytes starts_with
upper_some [] k u a b h = cc
upper_some (x ∷ p) k u a b h = elim (Option-cases (upper p)) [
  | inl e ↦ last k b e (λ l. upper_none p l a.1)
  | inr (v, e) ↦ kept k v b e (λ l w. upper_some p l v a.1 w e)
]
  where
    last :
        (l : Bytes)
        → AreBytes l
        → upper p ≡ none
        → ((m : Bytes) → AreBytes m → upper p ≡ none → (before m p || starts_with p m) ≡ true)
        → before l u ≡ (before l (x ∷ p) || starts_with (x ∷ p) l)
    last [] w e rest = unfold cmp_bytes in ground arith
    last (y ∷ l) w e rest =
        let raised : (x + 1) ∷ [] ≡ u = ground arith in
        subst (λ v. before (y ∷ l) v ≡ (before (y ∷ l) (x ∷ p) || starts_with (x ∷ p) (y ∷ l)))
          raised
          (unfold cmp_bytes in unfold starts_with in ground (arith, rest l w.1 e, before-nil l))

    kept :
        (l v : Bytes)
        → AreBytes l
        → upper p ≡ some v
        → ((m : Bytes) → AreBytes m → before m v ≡ (before m p || starts_with p m))
        → before l u ≡ (before l (x ∷ p) || starts_with (x ∷ p) l)
    kept [] v w e rest = unfold cmp_bytes in ground arith
    kept (y ∷ l) v w e rest = unfold cmp_bytes in unfold starts_with in ground (arith, rest l w.1)

-- What a bound promises of a key, and what its absence does.
abbrev pub Bounds : Bytes → Bytes → Option Bytes → Type 0
Bounds p k none = (before k p || starts_with p k) ≡ true
Bounds p k (some u) = before k u ≡ (before k p || starts_with p k)

-- The bound made of a prefix ends its range exactly: a key of bytes comes before it if and only if
-- the key comes before the prefix or starts with it; where there is no bound, every key of
-- bytes does one or the other.
pub upper-Bounds : (p k : Bytes) → AreBytes p → AreBytes k → Bounds p k (upper p)
upper-Bounds p k a b = by_bound (upper p) refl
  where
    by_bound : (r : Option Bytes) → upper p ≡ r → Bounds p k r
    by_bound none e = upper_none p k a b e
    by_bound (some u) e = upper_some p k u a b e
