-- ===== src/Db/Query/Limits.antt =====
-- An iterator (db/src/db.rs) gives no more events than the limit of its filter.
use rnostr.Prelude.{
  ℕ, zero, suc, ◌+◌, ◌-◌, ◌≤◌, ◌<◌, ◌≡◌, refl, ap, ◌∙◌, subst, Bool, true, false, Option, none,
  some, List, [], ◌∷◌, length, leb, if◌then◌else◌, arith,
}
use rnostr.Std.Words.{u64_mod}
use rnostr.Db.Error.{Outcome, ok, err, panicked}
use rnostr.Db.Codec.{Codec, FromEventData}
use rnostr.Db.Query.{}
use rnostr.Db.Query.Open.{Iter}
use rnostr.Db.Query.Read.{next_inner, iter_next, for_each, limit}
use rnostr.Kv.Lmdb.{Ffi}
use rnostr.Kv.Lmdb.Iter.{Cursor}
use rnostr.Kv.Scanner.Groups.{transposed}
use rnostr.Db.Query.Counted.{Given, next_inner-Given}

module _ (ffi : Ffi) (codec : Codec) (C : Cursor) (steps : ℕ) {R : Type 0}
    (r : FromEventData R) where
  iter_next-Given :
      (fuel : ℕ) (it u : Iter C ffi.Txn) (l : ℕ) (event : R)
      → it.filter.limit ≡ some l
      → l + fuel < u64_mod
      → iter_next ffi codec C steps r fuel it ≡ some (some (ok event), u)
      → (it.get_data < l) × (it.get_data < u.get_data) × (u.filter ≡ it.filter)
  unfolding iter_next limit
  iter_next-Given fuel it u l event e h p = by_limit it.filter.limit e p
    where
      inner :
          it.get_data < l
          → (n : Option (Outcome (Option R) × Iter C ffi.Txn))
          → ((m : Outcome (Option R) × Iter C ffi.Txn)
              → n ≡ some m
              → Given ffi codec C steps r it m)
          → (elim n as (λ _. Option (Option (Outcome R) × Iter C ffi.Txn)) [
            | none ↦ none
            | some (a, u) ↦ some (transposed a, u)
          ])
            ≡ some (some (ok event), u)
          → (it.get_data < l) × (it.get_data < u.get_data) × (u.filter ≡ it.filter)
      inner b none k q = absurd (cc q)
      inner b (some (ok none, v)) k q = absurd (cc q)
      inner b (some (ok (some x), v)) k q =
          let g = k (ok (some x), v) refl in
          let same : v ≡ u = cc q in
          (
            b,
            subst (λ w. it.get_data < w.get_data) same (g.more x refl),
            subst (λ w. w.filter ≡ it.filter) same g.filter_same,
          )
      inner b (some (err x, v)) k q = absurd (cc q)
      inner b (some (panicked, v)) k q = absurd (cc q)

      by_limit :
          (o : Option ℕ)
          → o ≡ some l
          → (if limit ffi codec C steps o it.get_data
              then some (none, it)
              else elim (next_inner ffi codec C steps r fuel it)
                  as (λ _. Option (Option (Outcome R) × Iter C ffi.Txn)) [
                    | none ↦ none
                    | some (a, u) ↦ some (transposed a, u)
                  ])
            ≡ some (some (ok event), u)
          → (it.get_data < l) × (it.get_data < u.get_data) × (u.filter ≡ it.filter)
      by_limit none z q = absurd (cc z)
      by_limit (some k) z q = by_leb k z (leb k it.get_data) refl q
        where
          by_leb :
              (k : ℕ)
              → some k ≡ some l
              → (b : Bool) → leb k it.get_data ≡ b
              → (if b
                  then some (none, it)
                  else elim (next_inner ffi codec C steps r fuel it)
                      as (λ _. Option (Option (Outcome R) × Iter C ffi.Txn)) [
                        | none ↦ none
                        | some (a, u) ↦ some (transposed a, u)
                      ])
                ≡ some (some (ok event), u)
              → (it.get_data < l) × (it.get_data < u.get_data) × (u.filter ≡ it.filter)
          by_leb k z true y q = absurd (cc q)
          by_leb k z false y q =
              let same : k ≡ l = cc z in
              let b : it.get_data < l = ground arith in
              inner b (next_inner ffi codec C steps r fuel it)
                (λ m w. next_inner-Given ffi codec C steps r fuel it m (omega arith) w) q

  pub for_each-le :
      (fuel : ℕ) (it : Iter C ffi.Txn) (l : ℕ) (end : Outcome (Unit {0})) (events : List R)
      → it.filter.limit ≡ some l
      → l + fuel < u64_mod
      → for_each ffi codec C steps r fuel it ≡ some (end, events)
      → length events ≤ l - it.get_data
  unfolding for_each
  for_each-le zero it l end events e h p = absurd (cc p)
  for_each-le (suc fuel) it l end events e h p =
      split (λ u m f q. for_each-le fuel u l end m f (omega arith) q)
        (iter_next ffi codec C steps r fuel it)
        (λ event u q. iter_next-Given fuel it u l event e (omega arith) q) p
    where
      later :
          (x : R) (u : Iter C ffi.Txn) (n : Option (Outcome (Unit {0}) × List R))
          → (it.get_data < l) × (it.get_data < u.get_data)
          → ((m : List R) → n ≡ some (end, m) → length m ≤ l - u.get_data)
          → (elim n as (λ _. Option (Outcome (Unit {0}) × List R)) [
            | none ↦ none
            | some (stop, m) ↦ some (stop, x ∷ m)
          ])
            ≡ some (end, events)
          → length events ≤ l - it.get_data
      later x u none b k q = absurd (cc q)
      later x u (some (stop, m)) (b, c) k q =
          let ends : ◌≡◌ {A = Option (Outcome (Unit {0}) × List R)} (some (stop, m))
              (some (end, m)) =
            cc in
          let same : x ∷ m ≡ events = cc q in
          let rest = k m ends in subst (λ es. length es ≤ l - it.get_data) same (omega arith)

      ended : [] ≡ events → length events ≤ l - it.get_data
      ended same = subst (λ es. length es ≤ l - it.get_data) same (omega arith)

      split :
          ((u : Iter C ffi.Txn) (m : List R)
            → u.filter.limit ≡ some l
            → for_each ffi codec C steps r fuel u ≡ some (end, m)
            → length m ≤ l - u.get_data)
          → (n : Option (Option (Outcome R) × Iter C ffi.Txn))
          → ((event : R) (u : Iter C ffi.Txn)
              → n ≡ some (some (ok event), u)
              → (it.get_data < l) × (it.get_data < u.get_data) × (u.filter ≡ it.filter))
          → (elim n as (λ _. Option (Outcome (Unit {0}) × List R)) [
            | none ↦ none
            | some (none, u) ↦ some (ok tt, [])
            | some (some (err x), u) ↦ some (err x, [])
            | some (some panicked, u) ↦ some (panicked, [])
            | some (some (ok event), u) ↦
                elim (for_each ffi codec C steps r fuel u)
                  as (λ _. Option (Outcome (Unit {0}) × List R)) [
                    | none ↦ none
                    | some (stop, m) ↦ some (stop, event ∷ m)
                  ]
          ])
            ≡ some (end, events)
          → length events ≤ l - it.get_data
      split ih none k q = absurd (cc q)
      split ih (some (none, u)) k q = ended (cc q)
      split ih (some (some (err x), u)) k q = ended (cc q)
      split ih (some (some panicked, u)) k q = ended (cc q)
      split ih (some (some (ok x), u)) k q =
          let (b, c, f) = k x u refl in
          later x u (for_each ffi codec C steps r fuel u) (b, c)
            (λ m s. ih u m (ap (λ g. g.limit) f ∙ e) s) q
