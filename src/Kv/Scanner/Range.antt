-- ===== src/Kv/Scanner/Range.antt =====
-- What a scanner finds (kv/src/scanner.rs) lies in its range of time.
use rnostr.Prelude.{
  subst, ℕ, ◌≤◌, zero, suc, ◌≡◌, refl, ap, ◌∙◌, Bool, true, false, Option, none, some, [], arith,
}
use rnostr.Db.Error.{Outcome, ok, err, panicked}
use rnostr.Kv.Lmdb.{success}
use rnostr.Kv.Lmdb.Iter.{Cursor, CursorOp, Bound, Item, seek, iter_next}
use rnostr.Kv.Lmdb.Moves.{
  Reached, here, Reached-trans, Moved, Moved-refl, Moved-trans, seek-Moved, iter_next-Moved,
  iter_next-given,
}
use rnostr.Kv.Scanner.{TimeKey}
use rnostr.Kv.Scanner.Scan.{
  MatchResult, continue, stop, found, Scanner, below, above, time_check, found_key, read_item,
  scan_round, scan_loop, next_inner,
}

le_of_below : (n t : ℕ) (since : Option ℕ) → below n since ≡ false → since ≡ some t → t ≤ n
le_of_below n t none h e = absurd (cc e)
le_of_below n t (some u) h e = ground arith

le_of_above : (n t : ℕ) (until : Option ℕ) → above n until ≡ false → until ≡ some t → n ≤ t
le_of_above n t none h e = absurd (cc e)
le_of_above n t (some u) h e = ground arith

module _ {K : Type 0} (tk : TimeKey K) (C : Cursor)
    (matcher : Scanner C.Cur → Item → Outcome (MatchResult K)) where
  -- A key that the matcher found, under the prefix of the scanner, for an item that the scanner's
  -- cursor gave at some place that it came to, and whose time is in the range of the scanner.
  pub record InRange (s : Scanner C.Cur) (key : K) : Type 0 where
    pub from : Scanner C.Cur
    pub item : Item
    pub prefix_kept : from.prefix ≡ s.prefix
    pub matched : matcher from item ≡ ok (found key)
    pub start : C.Cur
    pub started : s.inner.inner ≡ some start
    pub cur : C.Cur
    pub reached : Reached C start cur
    pub op : CursorOp
    pub given : (C.mdb_cursor_get cur op []).0 ≡ success item
    pub since_kept : (t : ℕ) → s.since ≡ some t → t ≤ tk.time key
    pub until_kept : (t : ℕ) → s.until ≡ some t → tk.time key ≤ t

  -- A scanner keeps its range, and moves its cursor only by operations.
  pub record SameRange (s t : Scanner C.Cur) : Type 0 where
    pub since_same : t.since ≡ s.since
    pub until_same : t.until ≡ s.until
    pub reverse_same : t.reverse ≡ s.reverse
    pub prefix_same : t.prefix ≡ s.prefix
    pub moves : Moved C s.inner t.inner

  pub unchanged : (s : Scanner C.Cur) → SameRange s s
  unchanged s = record {
    since_same = refl;
    until_same = refl;
    reverse_same = refl;
    prefix_same = refl;
    moves = Moved-refl C s.inner s.inner refl;
  }

  pub SameRange-trans : (s t u : Scanner C.Cur) → SameRange s t → SameRange t u → SameRange s u
  SameRange-trans s t u a b = record {
    since_same = b.since_same ∙ a.since_same;
    until_same = b.until_same ∙ a.until_same;
    reverse_same = b.reverse_same ∙ a.reverse_same;
    prefix_same = b.prefix_same ∙ a.prefix_same;
    moves = Moved-trans C s.inner t.inner u.inner a.moves b.moves;
  }

  found_key-SameRange :
      (s : Scanner C.Cur) (k : _) (r : Outcome (MatchResult K))
      → SameRange s (found_key tk C matcher s k r).1
  unfolding found_key
  found_key-SameRange s k (ok continue) = unchanged s
  found_key-SameRange s k (ok stop) = unchanged s
  found_key-SameRange s k (ok (found key)) =
      split (time_check tk C matcher s.reverse s.since s.until key k)
    where
      split :
          (o : Option (Outcome Bound))
          → SameRange s
              (elim o as (λ _. Option (Outcome (Option K)) × Scanner C.Cur) [
                | none ↦ (some (ok (some key)), s)
                | some (ok from) ↦ (none, record s { inner = seek C from s.reverse s.inner })
                | some (err x) ↦ (some (err x), s)
                | some panicked ↦ (some panicked, s)
              ]).1
      split none = unchanged s
      split (some (ok from)) = record {
        since_same = refl;
        until_same = refl;
        reverse_same = refl;
        prefix_same = refl;
        moves = seek-Moved C from s.reverse s.inner;
      }
      split (some (err x)) = unchanged s
      split (some panicked) = unchanged s
  found_key-SameRange s k (err x) = unchanged s
  found_key-SameRange s k panicked = unchanged s

  read_item-SameRange :
      (s : Scanner C.Cur) (r : Option (Outcome Item)) → SameRange s (read_item tk C matcher s r).1
  unfolding read_item
  read_item-SameRange s none = unchanged s
  read_item-SameRange s (some (ok (k, v))) = found_key-SameRange s k (matcher s (k, v))
  read_item-SameRange s (some (err x)) = unchanged s
  read_item-SameRange s (some panicked) = unchanged s

  scan_round-SameRange : (s : Scanner C.Cur) → SameRange s (scan_round tk C matcher s).1
  unfolding scan_round
  scan_round-SameRange s =
      let same = read_item-SameRange _ (iter_next C s.inner).0 in
      record {
        since_same = same.since_same;
        until_same = same.until_same;
        reverse_same = same.reverse_same;
        prefix_same = same.prefix_same;
        moves =
            Moved-trans C s.inner (iter_next C s.inner).1 (scan_round tk C matcher s).1.inner
              (iter_next-Moved C s.inner) same.moves;
      }

  time_check-none :
      (reverse : Bool) (since until : Option ℕ) (key : K) (k : _)
      → time_check tk C matcher reverse since until key k ≡ none
      → (below (tk.time key) since ≡ false) × (above (tk.time key) until ≡ false)
  unfolding time_check
  time_check-none true since until key k h = (ground arith, ground arith)
  time_check-none false since until key k h = (ground arith, ground arith)

  -- What a round finds for what the iterator gave.
  record Matched (s : Scanner C.Cur) (r : Option (Outcome Item)) (key : K) : Type 0 where
    item : Item
    from : Scanner C.Cur
    is_item : r ≡ some (ok item)
    prefix_kept : from.prefix ≡ s.prefix
    matched : matcher from item ≡ ok (found key)
    since_kept : (t : ℕ) → s.since ≡ some t → t ≤ tk.time key
    until_kept : (t : ℕ) → s.until ≡ some t → tk.time key ≤ t

  read_item-Matched :
      (s : Scanner C.Cur) (r : Option (Outcome Item)) (key : K)
      → (read_item tk C matcher s r).0 ≡ some (ok (some key))
      → Matched s r key
  unfolding read_item found_key
  read_item-Matched s none key h = absurd (cc h)
  read_item-Matched s (some (err x)) key h = absurd (cc h)
  read_item-Matched s (some panicked) key h = absurd (cc h)
  read_item-Matched s (some (ok (k, v))) key h = by_match (matcher s (k, v)) refl h
    where
      by_time :
          (other : K) (from : _)
          → time_check tk C matcher s.reverse s.since s.until other k ≡ from
          → matcher s (k, v) ≡ ok (found other)
          → (found_key tk C matcher s k (ok (found other))).0 ≡ some (ok (some key))
          → Matched s (some (ok (k, v))) key
      by_time other none e m q =
          let same : other ≡ key = ground arith in
          let (a, b) = time_check-none s.reverse s.since s.until other k e in
          record {
            from = s;
            item = (k, v);
            prefix_kept = refl;
            is_item = refl;
            matched = m ∙ ap (λ z. ok (found z)) same;
            since_kept = λ u e. le_of_below (tk.time key) u s.since (rw (← same) a) e;
            until_kept = λ u e. le_of_above (tk.time key) u s.until (rw (← same) b) e;
          }
      by_time other (some (ok from)) e m q = absurd (ground arith)
      by_time other (some (err x)) e m q = absurd (ground arith)
      by_time other (some panicked) e m q = absurd (ground arith)

      by_match :
          (m : Outcome (MatchResult K))
          → matcher s (k, v) ≡ m
          → (found_key tk C matcher s k m).0 ≡ some (ok (some key))
          → Matched s (some (ok (k, v))) key
      by_match (ok continue) e q = absurd (cc q)
      by_match (ok stop) e q = absurd (cc q)
      by_match (ok (found other)) e q =
          by_time other (time_check tk C matcher s.reverse s.since s.until other k) refl e q
      by_match (err x) e q = absurd (cc q)
      by_match panicked e q = absurd (cc q)

  InRange-same : (s t : Scanner C.Cur) (key : K) → SameRange s t → InRange t key → InRange s key
  InRange-same s t key same r =
      let (c, e, q) = same.moves r.start r.started in
      record {
        start = c;
        started = e;
        cur = r.cur;
        reached = Reached-trans C q r.reached;
        op = r.op;
        given = r.given;
        from = r.from;
        item = r.item;
        prefix_kept = r.prefix_kept ∙ same.prefix_same;
        matched = r.matched;
        since_kept = λ u e. r.since_kept u (same.since_same ∙ e);
        until_kept = λ u e. r.until_kept u (same.until_same ∙ e);
      }

  scan_round-InRange :
      (s : Scanner C.Cur) (key : K)
      → (scan_round tk C matcher s).0 ≡ some (ok (some key))
      → InRange s key
  unfolding scan_round
  scan_round-InRange s key h =
      let m = read_item-Matched _ (iter_next C s.inner).0 key h in
      let (c, e, g) = iter_next-given C s.inner m.item m.is_item in
      record {
        from = m.from;
        item = m.item;
        prefix_kept = m.prefix_kept;
        matched = m.matched;
        start = c;
        started = e;
        cur = c;
        reached = here;
        op = s.inner.op;
        given = g;
        since_kept = m.since_kept;
        until_kept = m.until_kept;
      }

  scan_loop-InRange :
      (fuel : ℕ) (s t : Scanner C.Cur) (key : K)
      → scan_loop tk C matcher fuel s ≡ some (ok (some key), t)
      → InRange s key
  unfolding scan_loop
  scan_loop-InRange zero s t key h = absurd (cc h)
  scan_loop-InRange (suc fuel) s t key h =
      split (λ p. scan_loop-InRange fuel (scan_round tk C matcher s).1 t key p)
        (scan_round tk C matcher s).0 refl h
    where
      split :
          (scan_loop tk C matcher fuel (scan_round tk C matcher s).1 ≡ some (ok (some key), t)
            → InRange (scan_round tk C matcher s).1 key)
          → (answer : Option (Outcome (Option K))) → (scan_round tk C matcher s).0 ≡ answer
          → (elim answer [
            | none ↦ scan_loop tk C matcher fuel (scan_round tk C matcher s).1
            | some r ↦ some (r, (scan_round tk C matcher s).1)
          ])
            ≡ some (ok (some key), t)
          → InRange s key
      split ih none e q = InRange-same s _ key (scan_round-SameRange s) (ih q)
      split ih (some r) e q = scan_round-InRange s key (e ∙ cc q)

  -- A key that a scanner answers is one that its matcher found for an entry that the scanner's
  -- cursor gave, at a place to which operations brought it, and its time is neither before `since`
  -- nor after `until`, in either direction of the scan.
  pub next_inner-InRange :
      (fuel : ℕ) (s t : Scanner C.Cur) (key : K)
      → next_inner tk C matcher fuel s ≡ some (ok (some key), t)
      → InRange s key
  unfolding next_inner
  next_inner-InRange fuel s t key h =
      InRange-same s (record s { cur_times = 0 }) key
        (record {
          since_same = refl;
          until_same = refl;
          reverse_same = refl;
          prefix_same = refl;
          moves = Moved-refl C s.inner s.inner refl;
        })
        (scan_loop-InRange fuel (record s { cur_times = 0 }) t key h)

  scan_loop-SameRange :
      (fuel : ℕ) (s t : Scanner C.Cur) (r : Outcome (Option K))
      → scan_loop tk C matcher fuel s ≡ some (r, t)
      → SameRange s t
  unfolding scan_loop
  scan_loop-SameRange zero s t r h = absurd (cc h)
  scan_loop-SameRange (suc fuel) s t r h =
      split (λ q. scan_loop-SameRange fuel (scan_round tk C matcher s).1 t r q)
        (scan_round tk C matcher s).0 h
    where
      split :
          (scan_loop tk C matcher fuel (scan_round tk C matcher s).1 ≡ some (r, t)
            → SameRange (scan_round tk C matcher s).1 t)
          → (answer : Option (Outcome (Option K)))
          → (elim answer [
            | none ↦ scan_loop tk C matcher fuel (scan_round tk C matcher s).1
            | some a ↦ some (a, (scan_round tk C matcher s).1)
          ])
            ≡ some (r, t)
          → SameRange s t
      split ih none q = SameRange-trans s _ t (scan_round-SameRange s) (ih q)
      split ih (some a) q =
          let same : (scan_round tk C matcher s).1 ≡ t = cc q in
          subst (SameRange s) same (scan_round-SameRange s)

  pub next_inner-SameRange :
      (fuel : ℕ) (s t : Scanner C.Cur) (r : Outcome (Option K))
      → next_inner tk C matcher fuel s ≡ some (r, t)
      → SameRange s t
  unfolding next_inner
  next_inner-SameRange fuel s t r h =
      let later = scan_loop-SameRange fuel (record s { cur_times = 0 }) t r h in
      record {
        since_same = later.since_same;
        until_same = later.until_same;
        reverse_same = later.reverse_same;
        prefix_same = later.prefix_same;
        moves = later.moves;
      }
