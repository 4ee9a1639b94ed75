-- ===== src/Kv/Scanner/Rounds.antt =====
-- What a round of the intersection of scanners changes and answers (kv/src/scanner.rs, `next_and`).
use rnostr.Prelude.{
  ℕ, ◌≡◌, refl, sym, ap, ◌∙◌, Ordering, Bool, true, false, not, ◌||◌, Option, none, some, List, [],
  ◌∷◌, All, get_elem?, if◌then◌else◌,
}
use rnostr.Db.Error.{Outcome, ok, err, panicked}
use rnostr.Kv.Lmdb.{◌>>=◌}
use rnostr.Kv.Lmdb.Writes.{next-eq-ok}
use rnostr.Kv.Scanner.{TimeKey, insert_at, pop, set_at, add_key}
use rnostr.Kv.Scanner.Groups.{
  GroupItem, Group, watch, keep, advance, and_round, go_on, give, differs, is_equal, pop_found,
}
use rnostr.Kv.Scanner.Watched.{watch_cases}

module _ {S K : Type 0} (tk : TimeKey K) (gi : GroupItem S K) where
  watch-founds :
      (n : ℕ) (g h : Group S K) (u : Unit {0})
      → watch tk gi n g ≡ (ok u, h)
      → (h.items ≡ g.items) × (h.founds ≡ g.founds)
  watch-founds n g h u e =
      let (w, same) = watch_cases tk gi n g in
      let moved = sym (ap (λ (r : Outcome (Unit {0}) × Group S K). r.1) e) ∙ same in
      (ap (λ v. v.items) moved, ap (λ v. v.founds) moved)

  keep-founds :
      (i : ℕ) (item : Option (Outcome K)) (g h : Group S K)
      → keep tk gi i item g ≡ (ok true, h)
      → (key : K) × (r : ℕ) × (item ≡ some (ok key))
        × (h.items ≡ g.items)
        × (h.founds ≡ insert_at r (i, key) g.founds)
  unfolding keep add_key
  keep-founds i none g h e = absurd (cc e)
  keep-founds i (some (ok key)) g h e =
      let moved = sym (ap (λ (r : Outcome Bool × Group S K). r.1) e) in
      (key, _, refl, ap (λ v. v.items) moved, ap (λ v. v.founds) moved)
  keep-founds i (some (err x)) g h e = absurd (cc e)
  keep-founds i (some panicked) g h e = absurd (cc e)

  -- What a scanner that had a key leaves.
  pub advance-founds :
      (i : ℕ) (g h : Group S K)
      → advance tk gi i g ≡ (ok true, h)
      → (s : S) × (key : K) × (r : ℕ) × (get_elem? g.items i ≡ some s)
        × ((gi.scan_next s).0 ≡ some (ok key))
        × (h.items ≡ set_at i (gi.scan_next s).1 g.items)
        × (h.founds ≡ insert_at r (i, key) g.founds)
  unfolding advance
  advance-founds i g h e = split (get_elem? g.items i) refl e
    where
      split :
          (o : Option S)
          → get_elem? g.items i ≡ o
          → (elim o as (λ _. Outcome Bool × Group S K) [
            | none ↦ (panicked, g)
            | some s ↦
                (watch tk gi (gi.cur_times (gi.scan_next s).1) >>= λ _.
                keep tk gi i (gi.scan_next s).0)
                  (record g { items = set_at i (gi.scan_next s).1 g.items })
          ])
            ≡ (ok true, h)
          → (s : S) × (key : K) × (r : ℕ) × (get_elem? g.items i ≡ some s)
            × ((gi.scan_next s).0 ≡ some (ok key))
            × (h.items ≡ set_at i (gi.scan_next s).1 g.items)
            × (h.founds ≡ insert_at r (i, key) g.founds)
      split none p q = absurd (cc q)
      split (some s) p q =
          let (u, v, a, b) =
            next-eq-ok
              (watch tk gi (gi.cur_times (gi.scan_next s).1)
                (record g { items = set_at i (gi.scan_next s).1 g.items }))
              _ q in
          let (items, founds) =
            watch-founds _ (record g { items = set_at i (gi.scan_next s).1 g.items }) v u a in
          let (key, r, found, kept, put) = keep-founds i (gi.scan_next s).0 v h b in
          (s, key, r, p, found, kept ∙ items, put ∙ ap (insert_at r (i, key)) founds)

  missed :
      (more : Bool) (u h : Group S K)
      → go_on tk gi more u ≡ (ok none, h)
      → ◌≡◌ {A = Outcome Bool × Group S K} (ok more, u) (ok true, h)
  missed true u h q = cc
  missed false u h q = absurd (cc q)

  given-key :
      (key k : K) (more : Bool) (u h : Group S K)
      → give tk gi key more u ≡ (ok (some (some k)), h)
      → key ≡ k
  given-key key k true u h q = cc q
  given-key key k false u h q = cc q

  missed-key :
      (k : K) (more : Bool) (u h : Group S K) → ¬ (go_on tk gi more u ≡ (ok (some (some k)), h))
  missed-key k true u h q = absurd (cc q)
  missed-key k false u h q = absurd (cc q)

  given-answers :
      (key : K) (more : Bool) (u h : Group S K) → ¬ (give tk gi key more u ≡ (ok none, h))
  given-answers key true u h q = absurd (cc q)
  given-answers key false u h q = absurd (cc q)

  -- A round goes on where the scanner of the last key had another key.
  pub and_round-goes_on :
      (p : ℕ × K) (g h : Group S K)
      → and_round tk gi p g ≡ (ok none, h)
      → advance tk gi p.0 g ≡ (ok true, h)
  unfolding and_round
  and_round-goes_on (i, key) g h e = split (differs tk gi key g.founds) e
    where
      split :
          (b : Bool)
          → (if b
              then (advance tk gi i >>= go_on tk gi) g
              else (advance tk gi i >>= give tk gi key) g)
            ≡ (ok none, h)
          → advance tk gi i g ≡ (ok true, h)
      split true q =
          let (more, u, a, b) = next-eq-ok (advance tk gi i g) (go_on tk gi) q in
          a ∙ missed more u h b
      split false q =
          let (more, u, a, b) = next-eq-ok (advance tk gi i g) (give tk gi key) q in
          absurd (given-answers key more u h b)

  -- A round answers the last key, where no other key found differs.
  pub and_round-gives :
      (p : ℕ × K) (g h : Group S K) (k : K)
      → and_round tk gi p g ≡ (ok (some (some k)), h)
      → (p.1 ≡ k) × (differs tk gi p.1 g.founds ≡ false)
  unfolding and_round
  and_round-gives (i, key) g h k e = split (differs tk gi key g.founds) refl e
    where
      split :
          (b : Bool)
          → differs tk gi key g.founds ≡ b
          → (if b
              then (advance tk gi i >>= go_on tk gi) g
              else (advance tk gi i >>= give tk gi key) g)
            ≡ (ok (some (some k)), h)
          → (key ≡ k) × (differs tk gi key g.founds ≡ false)
      split true d q =
          let (more, u, a, b) = next-eq-ok (advance tk gi i g) (go_on tk gi) q in
          absurd (missed-key k more u h b)
      split false d q =
          let (more, u, a, b) = next-eq-ok (advance tk gi i g) (give tk gi key) q in
          (given-key key k more u h b, d)

  pub differs-All :
      (key : K) (l : List (ℕ × K))
      → differs tk gi key l ≡ false
      → All (λ p. tk.cmp p.1 key ≡ Ordering.eq) l
  differs-All key [] h = tt
  differs-All key ((i, k) ∷ l) h = split (λ q. differs-All key l q) (tk.cmp k key) refl h
    where
      split :
          (differs tk gi key l ≡ false → All (λ p. tk.cmp p.1 key ≡ Ordering.eq) l)
          → (o : Ordering) → tk.cmp k key ≡ o
          → (not (is_equal o) || differs tk gi key l) ≡ false
          → (tk.cmp k key ≡ Ordering.eq) × All (λ p. tk.cmp p.1 key ≡ Ordering.eq) l
      split ih Ordering.lt e q = absurd (cc q)
      split ih Ordering.eq e q = (e, ih q)
      split ih Ordering.gt e q = absurd (cc q)

  pub pop_found-founds :
      (g h : Group S K) (p : ℕ × K)
      → pop_found tk gi g ≡ (ok p, h)
      → (h.items ≡ g.items) × (pop g.founds ≡ some (p, h.founds))
  pop_found-founds g h p e = split (pop g.founds) refl e
    where
      split :
          (r : Option ((ℕ × K) × List (ℕ × K)))
          → pop g.founds ≡ r
          → (elim r as (λ _. Outcome (ℕ × K) × Group S K) [
            | none ↦ (panicked, g)
            | some (p, ps) ↦ (ok p, record g { founds = ps })
          ])
            ≡ (ok p, h)
          → (h.items ≡ g.items) × (pop g.founds ≡ some (p, h.founds))
      split none d q = absurd (cc q)
      split (some (y, ps)) d q =
          let one : y ≡ p = cc q in
          let moved = ap (λ (r : Outcome (ℕ × K) × Group S K). r.1) q in
          let others : ps ≡ h.founds = ap (λ v. v.founds) moved in
          (sym (ap (λ v. v.items) moved), cc)
