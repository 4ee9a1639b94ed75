-- ===== src/Kv/Scanner/Halts.antt =====
-- The intersection of scanners that come to an end (kv/src/scanner.rs, `next_and`) halts.
use rnostr.Prelude.{
  ℕ, zero, suc, ◌+◌, ◌<◌, ◌≡◌, ◌≢◌, refl, sym, ◌∙◌, ap, Bool, true, false, Option, none, some, List,
  [], ◌∷◌, All, subst, get_elem?, if◌then◌else◌, arith,
}
use rnostr.Db.Error.{Outcome, ok, err, panicked}
use rnostr.Kv.Lmdb.{◌>>=◌}
use rnostr.Kv.Lmdb.Writes.{next-eq-ok}
use rnostr.Kv.Scanner.{TimeKey, pop, set_at}
use rnostr.Kv.Scanner.Groups.{
  GroupItem, Group, watch, keep, advance, and_round, go_on, give, differs, pop_found, next_and,
}
use rnostr.Kv.Scanner.Lists.{All-get, All-set_at}
use rnostr.Kv.Scanner.Watched.{watch_cases}

module _ {S K : Type 0} (tk : TimeKey K) (gi : GroupItem S K) (Good : S → Type 0)
    (left : S → ℕ) where
  -- What all scanners have left.
  abbrev pub total : List S → ℕ
  total [] = 0
  total (s ∷ l) = left s + total l

  total-set_at :
      (l : List S) (i : ℕ) (s t : S)
      → get_elem? l i ≡ some s
      → left t < left s
      → total (set_at i t l) < total l
  unfolding set_at
  total-set_at [] i s t g h = absurd (cc g)
  total-set_at (x ∷ l) zero s t g h = let e : left x ≡ left s = ap left (cc g) in omega arith
  total-set_at (x ∷ l) (suc i) s t g h = omega (arith, total-set_at l i s t g h)

  watch-items :
      (n : ℕ) (g h : Group S K) (u : Unit {0}) → watch tk gi n g ≡ (ok u, h) → h.items ≡ g.items
  watch-items n g h u e =
      let (w, same) = watch_cases tk gi n g in
      sym (ap (λ (r : Outcome (Unit {0}) × Group S K). r.1.items) e) ∙ ap (λ v. v.items) same

  keep-items :
      (i : ℕ) (item : Option (Outcome K)) (g h : Group S K)
      → keep tk gi i item g ≡ (ok true, h)
      → (key : K) × (h.items ≡ g.items) × (item ≡ some (ok key))
  unfolding keep
  keep-items i none g h e = absurd (cc e)
  keep-items i (some (ok key)) g h e =
      (key, sym (ap (λ (r : Outcome Bool × Group S K). r.1.items) e), refl)
  keep-items i (some (err x)) g h e = absurd (cc e)
  keep-items i (some panicked) g h e = absurd (cc e)

  pop_found-items :
      (g h : Group S K) (p : ℕ × K) → pop_found tk gi g ≡ (ok p, h) → h.items ≡ g.items
  pop_found-items g h p e = split (pop g.founds) e
    where
      split :
          (r : Option ((ℕ × K) × List (ℕ × K)))
          → (elim r as (λ _. Outcome (ℕ × K) × Group S K) [
            | none ↦ (panicked, g)
            | some (p, ps) ↦ (ok p, record g { founds = ps })
          ])
            ≡ (ok p, h)
          → h.items ≡ g.items
      split none q = absurd (cc q)
      split (some (p, ps)) q = sym (ap (λ (r : Outcome (ℕ × K) × Group S K). r.1.items) q)

  -- Good scanners that have no more left than another list of them has.
  abbrev Fewer : List S → List S → Type 0
  Fewer l m = All Good l × total l < total m

  module _
      (ends : (s t : S) (key : K)
        → Good s
        → gi.scan_next s ≡ (some (ok key), t)
        → Good t × left t < left s) where
    shrinks :
        (s : S) (key : K)
        → Good s
        → (gi.scan_next s).0 ≡ some (ok key)
        → Good (gi.scan_next s).1 × left (gi.scan_next s).1 < left s
    shrinks s key good h = split (gi.scan_next s) refl h
      where
        split :
            (p : Option (Outcome K) × S)
            → gi.scan_next s ≡ p
            → p.0 ≡ some (ok key)
            → Good p.1 × left p.1 < left s
        split (item, t) e q =
            let moved : ◌≡◌ {A = Option (Outcome K) × S} (item, t) (some (ok key), t) = cc in
            ends s t key good (e ∙ moved)

    advance-lt :
        (i : ℕ) (g h : Group S K)
        → All Good g.items
        → advance tk gi i g ≡ (ok true, h)
        → Fewer h.items g.items
    unfolding advance
    advance-lt i g h goods e = split (get_elem? g.items i) refl e
      where
        split :
            (s : Option S)
            → get_elem? g.items i ≡ s
            → (elim s as (λ _. Outcome Bool × Group S K) [
              | none ↦ (panicked, g)
              | some s ↦
                  (watch tk gi (gi.cur_times (gi.scan_next s).1) >>= λ _.
                  keep tk gi i (gi.scan_next s).0)
                    (record g { items = set_at i (gi.scan_next s).1 g.items })
            ])
              ≡ (ok true, h)
            → Fewer h.items g.items
        split none p q = absurd (cc q)
        split (some s) p q =
            let (u, g', a, b) =
              next-eq-ok
                (watch tk gi (gi.cur_times (gi.scan_next s).1)
                  (record g { items = set_at i (gi.scan_next s).1 g.items }))
                _ q in
            let same =
              watch-items _ (record g { items = set_at i (gi.scan_next s).1 g.items }) g' u a in
            let (key, kept, found) = keep-items i (gi.scan_next s).0 g' h b in
            let (good, less) = shrinks s key (All-get Good i s g.items goods p) found in
            let fewer : Fewer (set_at i (gi.scan_next s).1 g.items) g.items = (
              All-set_at Good i (gi.scan_next s).1 g.items good goods,
              total-set_at g.items i s (gi.scan_next s).1 p less,
            ) in
            subst (λ l. Fewer l g.items) (sym (kept ∙ same)) fewer

    -- A round that goes on has used up a key of some scanner.
    and_round-lt :
        (p : ℕ × K) (g h : Group S K)
        → All Good g.items
        → and_round tk gi p g ≡ (ok none, h)
        → Fewer h.items g.items
    unfolding and_round
    and_round-lt (i, key) g h goods e = split (differs tk gi key g.founds) e
      where
        missed :
            (more : Bool) (u : Group S K)
            → go_on tk gi more u ≡ (ok none, h)
            → (more ≡ true) × (u ≡ h)
        missed true u q = (refl, cc q)
        missed false u q = absurd (cc q)

        given : (more : Bool) (u : Group S K) → give tk gi key more u ≢ (ok none, h)
        given true u q = absurd (cc q)
        given false u q = absurd (cc q)

        split :
            (b : Bool)
            → (if b
                then (advance tk gi i >>= go_on tk gi) g
                else (advance tk gi i >>= give tk gi key) g)
              ≡ (ok none, h)
            → Fewer h.items g.items
        split true q =
            let (more, u, a, b) = next-eq-ok (advance tk gi i g) (go_on tk gi) q in
            let (more_true, same) = missed more u b in
            let moved : ◌≡◌ {A = Outcome Bool × Group S K} (ok more, u) (ok true, h) = cc in
            advance-lt i g h goods (a ∙ moved)
        split false q =
            let (more, u, a, b) = next-eq-ok (advance tk gi i g) (give tk gi key) q in
            absurd (given more u b)

    -- Where each key that a good scanner gives leaves it good and with less, the intersection of
    -- good scanners halts, whatever else they do: as many rounds as all have left, and one, find a
    -- key, or that there is none, or an error or a panic of a scanner.
    pub next_and-halts :
        (fuel : ℕ) (g : Group S K)
        → All Good g.items
        → total g.items < fuel
        → next_and tk gi fuel g ≢ none
    unfolding next_and
    next_and-halts zero g goods h = absurd (omega arith)
    next_and-halts (suc fuel) g goods h =
        split (λ u a. next_and-halts fuel u a) ((pop_found tk gi >>= and_round tk gi) g) refl
      where
        split :
            ((u : Group S K)
              → All Good u.items
              → total u.items < fuel
              → next_and tk gi fuel u ≢ none)
            → (r : Outcome (Option (Option K)) × Group S K)
            → (pop_found tk gi >>= and_round tk gi) g ≡ r
            → (elim r.0 as (λ _. Option (Outcome (Option K) × Group S K)) [
              | ok none ↦ next_and tk gi fuel r.1
              | ok (some answer) ↦ some (ok answer, r.1)
              | err x ↦ some (err x, r.1)
              | panicked ↦ some (panicked, r.1)
            ])
              ≢ none
        split ih (ok none, u) e =
            let (p, v, a, b) = next-eq-ok (pop_found tk gi g) (and_round tk gi) e in
            let same = pop_found-items g v p a in
            let (good, less) = and_round-lt p v u (subst (All Good) (sym same) goods) b in
            ih u good (omega (arith, less, ap total same))
        split ih (ok (some answer), u) e = λ q. absurd (cc q)
        split ih (err x, u) e = λ q. absurd (cc q)
        split ih (panicked, u) e = λ q. absurd (cc q)
