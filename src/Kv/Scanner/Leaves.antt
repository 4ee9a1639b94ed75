-- ===== src/Kv/Scanner/Leaves.antt =====
-- A scanner without a range of time (kv/src/scanner.rs) halts, and has less left after each key.
use rnostr.Prelude.{
  ℕ, zero, suc, ◌<◌, ◌≡◌, ◌≢◌, refl, subst, Bool, true, false, Option, none, some, arith,
}
use rnostr.Prelude.Order.{Bytes}
use rnostr.Db.Error.{Outcome, ok, err, panicked}
use rnostr.Kv.Lmdb.Iter.{Cursor, Bound, Item, Iter, seek, iter_next}
use rnostr.Kv.Scanner.{TimeKey}
use rnostr.Kv.Scanner.Scan.{
  MatchResult, continue, stop, found, Scanner, time_check, found_key, read_item, scan_round,
  scan_loop, next_inner,
}

module _ {K : Type 0} (tk : TimeKey K) (C : Cursor)
    (matcher : Scanner C.Cur → Item → Outcome (MatchResult K)) (Fit : Iter C.Cur → Type 0)
    (left : Iter C.Cur → ℕ) where
  -- A scanner that asks for all times, over an iterator that is fit.
  pub record Timeless (s : Scanner C.Cur) : Type 0 where
    pub no_since : s.since ≡ none
    pub no_until : s.until ≡ none
    pub fit : Fit s.inner

  -- It is left so, and with less.
  abbrev Down : ℕ → Scanner C.Cur → Type 0
  Down n t = Timeless t × left t.inner < n

  -- Where it goes on, and where it gives a key.
  abbrev Went : ℕ → Option (Outcome (Option K)) × Scanner C.Cur → Type 0
  Went n (none, t) = Down n t
  Went n (some (ok (some key)), t) = Down n t
  Went n (some (ok none), t) = Unit
  Went n (some (err x), t) = Unit
  Went n (some panicked, t) = Unit

  time_check-timeless :
      (reverse : Bool) (since until : Option ℕ) (key : K) (k : Bytes)
      → since ≡ none
      → until ≡ none
      → time_check tk C matcher reverse since until key k ≡ none
  unfolding time_check
  time_check-timeless reverse none (some u) key k a b = absurd (cc b)
  time_check-timeless reverse (some u) until key k a b = absurd (cc a)
  time_check-timeless true none none key k a b = refl
  time_check-timeless false none none key k a b = refl

  found_key-Went :
      (n : ℕ) (s : Scanner C.Cur) (k : Bytes) (r : Outcome (MatchResult K))
      → Down n s
      → Went n (found_key tk C matcher s k r)
  unfolding found_key
  found_key-Went n s k (ok continue) d = d
  found_key-Went n s k (ok stop) d = tt
  found_key-Went n s k (ok (found key)) d =
      by_time (time_check tk C matcher s.reverse s.since s.until key k)
        (time_check-timeless s.reverse s.since s.until key k d.0.no_since d.0.no_until)
    where
      by_time :
          (o : Option (Outcome Bound))
          → o ≡ none
          → Went n (elim o as (λ _. Option (Outcome (Option K)) × Scanner C.Cur) [
            | none ↦ (some (ok (some key)), s)
            | some (ok from) ↦ (none, record s { inner = seek C from s.reverse s.inner })
            | some (err x) ↦ (some (err x), s)
            | some panicked ↦ (some panicked, s)
          ])
      by_time none e = d
      by_time (some o) e = absurd (cc e)
  found_key-Went n s k (err x) d = tt
  found_key-Went n s k panicked d = tt

  module _
      (down : (it : Iter C.Cur) (item : Item)
        → Fit it
        → (iter_next C it).0 ≡ some (ok item)
        → Fit (iter_next C it).1 × left (iter_next C it).1 < left it) where
    read_item-Went :
        (n : ℕ) (s : Scanner C.Cur) (r : Option (Outcome Item))
        → ((item : Item) → r ≡ some (ok item) → Down n s)
        → Went n (read_item tk C matcher s r)
    unfolding read_item
    read_item-Went n s none h = tt
    read_item-Went n s (some (ok (k, v))) h =
        found_key-Went n s k (matcher s (k, v)) (h (k, v) refl)
    read_item-Went n s (some (err x)) h = tt
    read_item-Went n s (some panicked) h = tt

    scan_round-Went :
        (s : Scanner C.Cur) → Timeless s → Went (left s.inner) (scan_round tk C matcher s)
    unfolding scan_round
    scan_round-Went s o = read_item-Went (left s.inner) _ (iter_next C s.inner).0 (λ item e.
        let (fit, less) = down s.inner item o.fit e in
        (record { no_since = o.no_since; no_until = o.no_until; fit = fit }, less))

    scan_loop-Down :
        (fuel : ℕ) (s t : Scanner C.Cur) (key : K)
        → Timeless s
        → scan_loop tk C matcher fuel s ≡ some (ok (some key), t)
        → Down (left s.inner) t
    unfolding scan_loop
    scan_loop-Down zero s t key o h = absurd (cc h)
    scan_loop-Down (suc fuel) s t key o h =
        split (λ u a q. scan_loop-Down fuel u t key a q) (scan_round tk C matcher s)
          (scan_round-Went s o) h
      where
        split :
            ((u : Scanner C.Cur)
              → Timeless u
              → scan_loop tk C matcher fuel u ≡ some (ok (some key), t)
              → Down (left u.inner) t)
            → (m : Option (Outcome (Option K)) × Scanner C.Cur) → Went (left s.inner) m
            → (elim m.0 as (λ _. Option (Outcome (Option K) × Scanner C.Cur)) [
              | none ↦ scan_loop tk C matcher fuel m.1
              | some r ↦ some (r, m.1)
            ])
              ≡ some (ok (some key), t)
            → Down (left s.inner) t
        split ih (none, u) (a, less) q = let (b, fewer) = ih u a q in (b, omega arith)
        split ih (some (ok (some k)), u) d q =
            let same : u ≡ t = cc q in subst (Down (left s.inner)) same d
        split ih (some (ok none), u) d q = absurd (cc q)
        split ih (some (err x), u) d q = absurd (cc q)
        split ih (some panicked, u) d q = absurd (cc q)

    pub next_inner-Down :
        (fuel : ℕ) (s t : Scanner C.Cur) (key : K)
        → Timeless s
        → next_inner tk C matcher fuel s ≡ some (ok (some key), t)
        → Timeless t × left t.inner < left s.inner
    unfolding next_inner
    next_inner-Down fuel s t key o h =
        scan_loop-Down fuel (record s { cur_times = 0 }) t key
          (record { no_since = o.no_since; no_until = o.no_until; fit = o.fit }) h

    scan_loop-halts :
        (fuel : ℕ) (s : Scanner C.Cur)
        → Timeless s
        → left s.inner < fuel
        → scan_loop tk C matcher fuel s ≢ none
    unfolding scan_loop
    scan_loop-halts zero s o h = absurd (omega arith)
    scan_loop-halts (suc fuel) s o h =
        split (λ u a b. scan_loop-halts fuel u a b) (scan_round tk C matcher s)
          (scan_round-Went s o)
      where
        split :
            ((u : Scanner C.Cur)
              → Timeless u
              → left u.inner < fuel
              → scan_loop tk C matcher fuel u ≢ none)
            → (m : Option (Outcome (Option K)) × Scanner C.Cur) → Went (left s.inner) m
            → (elim m.0 as (λ _. Option (Outcome (Option K) × Scanner C.Cur)) [
              | none ↦ scan_loop tk C matcher fuel m.1
              | some r ↦ some (r, m.1)
            ])
              ≢ none
        split ih (none, u) (a, less) = ih u a (omega arith)
        split ih (some r, u) d = λ q. absurd (cc q)

    -- A scanner without a range of time halts, whatever its matcher says, where its iterator has less
    -- left after each item that it gives: it needs no more rounds than its iterator has left, and one.
    pub next_inner-halts :
        (fuel : ℕ) (s : Scanner C.Cur)
        → Timeless s
        → left s.inner < fuel
        → next_inner tk C matcher fuel s ≢ none
    unfolding next_inner
    next_inner-halts fuel s o h =
        scan_loop-halts fuel (record s { cur_times = 0 })
          (record { no_since = o.no_since; no_until = o.no_until; fit = o.fit }) h
