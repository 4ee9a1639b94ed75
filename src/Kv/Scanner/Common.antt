-- ===== src/Kv/Scanner/Common.antt =====
-- A key that the intersection of scanners gives (kv/src/scanner.rs) is a key of each of them.
use rnostr.Prelude.{
  ℕ, zero, suc, ◌<◌, ◌≡◌, refl, sym, ap, ◌∙◌, subst, Ordering, Bool, true, false, ◌||◌, Option,
  none, some, All, any, get_elem?, ◌==◌, arith,
}
use rnostr.Prelude.Order.{swap}
use rnostr.Db.Error.{Outcome, ok, err, panicked}
use rnostr.Kv.Lmdb.{◌>>=◌}
use rnostr.Kv.Lmdb.Writes.{next-eq-ok}
use rnostr.Kv.Scanner.{TimeKey, IsOrder, set_at}
use rnostr.Kv.Scanner.Groups.{GroupItem, Group, and_round, pop_found, next_and}
use rnostr.Kv.Scanner.Lists.{All-insert_at, pop-All}
use rnostr.Kv.Scanner.Lookups.{any-insert_at, pop-any, any-All, All-both, set_at-good}
use rnostr.Kv.Scanner.Rounds.{
  advance-founds, and_round-goes_on, and_round-gives, differs-All, pop_found-founds,
}

module _ {S K : Type 0} (tk : TimeKey K) (gi : GroupItem S K) (Good : ℕ → S → Type 0)
    (P : ℕ → K → Type 0) where
  -- What a scanner gives: it stays good, and a key is one of its keys.
  abbrev pub GivesOf : ℕ → Option (Outcome K) × S → Type 0
  GivesOf i (item, t) = Good i t × ((key : K) → item ≡ some (ok key) → P i key)

module _ {S K : Type 0} (tk : TimeKey K) (gi : GroupItem S K) (Good : ℕ → S → Type 0)
    (P : ℕ → K → Type 0) (n : ℕ) where
  -- A group of good scanners, of which each has a key among the keys found.
  pub record IsShared (g : Group S K) : Type 0 where
    pub scans : (i : ℕ) (s : S) → get_elem? g.items i ≡ some s → Good i s
    pub keys : All (λ p. P p.0 p.1) g.founds
    pub covers : (j : ℕ) → j < n → any (λ p. p.0 == j) g.founds ≡ true

  module _ (order : IsOrder tk.cmp)
      (gives : (i : ℕ) (s : S) → Good i s → GivesOf tk gi Good P i (gi.scan_next s)) where
    cmp_self : (k : K) → tk.cmp k k ≡ Ordering.eq
    cmp_self k = split (tk.cmp k k) (order.cmp_swap k k)
      where
        split : (o : Ordering) → o ≡ swap o → o ≡ Ordering.eq
        split Ordering.lt e = absurd (cc e)
        split Ordering.eq e = refl
        split Ordering.gt e = absurd (cc e)

    round-IsShared :
        (g u h : Group S K) (p : ℕ × K)
        → IsShared g
        → pop_found tk gi g ≡ (ok p, u)
        → and_round tk gi p u ≡ (ok none, h)
        → IsShared h
    round-IsShared g u h p o a b =
        let (kept, popped) = pop_found-founds tk gi g u p a in
        let (s, key, r, at_p, found, items, founds) =
          advance-founds tk gi p.0 u h (and_round-goes_on tk gi p u h b) in
        let good : Good p.0 s = o.scans p.0 s (ap (λ l. get_elem? l p.0) (sym kept) ∙ at_p) in
        let items_of_g = items ∙ ap (set_at p.0 (gi.scan_next s).1) kept in
        let (stays, is_key) = gives p.0 s good in
        let (one, others) = pop-All (λ q. P q.0 q.1) g.founds u.founds p o.keys popped in
        record {
          scans = λ i t e.
              set_at-good Good p.0 (gi.scan_next s).1 g.items stays o.scans i t
                (ap (λ l. get_elem? l i) (sym items_of_g) ∙ e);
          keys =
              subst (All (λ q. P q.0 q.1)) (sym founds)
                (All-insert_at (λ q. P q.0 q.1) r (p.0, key) u.founds (is_key key found) others);
          covers = λ j lt.
              ap (any (λ q. q.0 == j)) founds
              ∙ any-insert_at (λ q. q.0 == j) r (p.0, key) u.founds
              ∙ sym (pop-any (λ q. q.0 == j) g.founds u.founds p popped)
              ∙ o.covers j lt;
        }

    answer-Common :
        (g u h : Group S K) (p : ℕ × K) (key : K) (j : ℕ)
        → j < n
        → IsShared g
        → pop_found tk gi g ≡ (ok p, u)
        → and_round tk gi p u ≡ (ok (some (some key)), h)
        → (k : K) × P j k × (tk.cmp k key ≡ Ordering.eq)
    answer-Common g u h p key j lt o a b =
        let (kept, popped) = pop_found-founds tk gi g u p a in
        let (same, equal) = and_round-gives tk gi p u h key b in
        let (one, others) = pop-All (λ q. P q.0 q.1) g.founds u.founds p o.keys popped in
        let here = sym (pop-any (λ q. q.0 == j) g.founds u.founds p popped) ∙ o.covers j lt in
        split (p.0 == j) refl here one same others (differs-All tk gi p.1 u.founds equal)
      where
        split :
            (b : Bool)
            → (p.0 == j) ≡ b
            → (b || any (λ q. q.0 == j) u.founds) ≡ true
            → P p.0 p.1
            → p.1 ≡ key
            → All (λ q. P q.0 q.1) u.founds
            → All (λ q. tk.cmp q.1 p.1 ≡ Ordering.eq) u.founds
            → (k : K) × P j k × (tk.cmp k key ≡ Ordering.eq)
        split true e q one same others equal =
            let at_j : p.0 ≡ j = ground (arith) in
            (p.1, subst (λ m. P m p.1) at_j one, ap (tk.cmp p.1) (sym same) ∙ cmp_self p.1)
        split false e q one same others equal =
            let (x, is_j, (is_key, same_key)) =
              any-All (λ q. q.0 == j) u.founds q (All-both _ _ u.founds others equal) in
            let at_j : x.0 ≡ j = ground (arith) in
            (x.1, subst (λ m. P m x.1) at_j is_key, ap (tk.cmp x.1) (sym same) ∙ same_key)

    -- Where keys are ordered, a good scanner stays good and gives only keys of its own, and at the
    -- start all scanners are good, each key found is one of its scanner's, and each of the first n
    -- scanners has a key among them, a key that the intersection answers, in whatever number of
    -- rounds, is equal in the order of keys to a key of each of these n scanners.
    pub next_and-Common :
        (fuel : ℕ) (g h : Group S K) (key : K) (j : ℕ)
        → j < n
        → IsShared g
        → next_and tk gi fuel g ≡ some (ok (some key), h)
        → (k : K) × P j k × (tk.cmp k key ≡ Ordering.eq)
    unfolding next_and
    next_and-Common zero g h key j lt o e = absurd (cc e)
    next_and-Common (suc fuel) g h key j lt o e =
        split (λ u v q. next_and-Common fuel u h key j lt v q)
          ((pop_found tk gi >>= and_round tk gi) g) refl e
      where
        split :
            ((u : Group S K)
              → IsShared u
              → next_and tk gi fuel u ≡ some (ok (some key), h)
              → (k : K) × P j k × (tk.cmp k key ≡ Ordering.eq))
            → (m : Outcome (Option (Option K)) × Group S K)
            → (pop_found tk gi >>= and_round tk gi) g ≡ m
            → (elim m.0 as (λ _. Option (Outcome (Option K) × Group S K)) [
              | ok none ↦ next_and tk gi fuel m.1
              | ok (some answer) ↦ some (ok answer, m.1)
              | err x ↦ some (err x, m.1)
              | panicked ↦ some (panicked, m.1)
            ])
              ≡ some (ok (some key), h)
            → (k : K) × P j k × (tk.cmp k key ≡ Ordering.eq)
        split ih (ok none, u) d q =
            let (p, v, a, b) = next-eq-ok (pop_found tk gi g) (and_round tk gi) d in
            ih u (round-IsShared g v u p o a b) q
        split ih (ok (some answer), u) d q =
            let (p, v, a, b) = next-eq-ok (pop_found tk gi g) (and_round tk gi) d in
            let same : answer ≡ some key = cc q in
            let moved : ◌≡◌ {A = Outcome (Option (Option K)) × Group S K} (ok (some answer), u)
                (ok (some (some key)), u) =
              cc in
            answer-Common g v u p key j lt o a (b ∙ moved)
        split ih (err x, u) d q = absurd (cc q)
        split ih (panicked, u) d q = absurd (cc q)
