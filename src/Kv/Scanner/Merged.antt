-- ===== src/Kv/Scanner/Merged.antt =====
-- Groups of scanners (kv/src/scanner.rs) keep their keys in order, and `next_or` takes the first.
use rnostr.Prelude.{
  ℕ, ◌≡◌, refl, sym, subst, Bool, true, false, Option, none, some, List, [], ◌∷◌, All, get_elem?,
  if◌then◌else◌, arith,
}
use rnostr.Db.Error.{Outcome, ok, err, panicked}
use rnostr.Kv.Lmdb.{Act, pure, next, ◌>>=◌}
use rnostr.Kv.Lmdb.Writes.{next-eq-ok}
use rnostr.Kv.Scanner.{TimeKey, IsOrder, pop, set_at}
use rnostr.Kv.Scanner.Groups.{GroupItem, Group, watch, keep, advance, pop_equal, next_or}
use rnostr.Kv.Scanner.Sorted.{Before, IsSorted, Before-refl, add_key-IsSorted}
use rnostr.Kv.Scanner.Lists.{pop-All}
use rnostr.Kv.Scanner.Watched.{watch_cases}

module _ {S K : Type 0} (tk : TimeKey K) (order : IsOrder tk.cmp) (gi : GroupItem S K) where
  abbrev pub IsOrdered : Group S K → Type 0
  IsOrdered g = IsSorted tk g.reverse g.founds

  -- Code that leaves the keys in order, also where it fails.
  abbrev pub Keeps : {A : Type 0} → Act (Group S K) A → Type 0
  Keeps m = (g : Group S K) → IsOrdered g → IsOrdered (m g).1

  next-Keeps :
      {A B : Type 0} (r : Outcome A × Group S K) (f : A → Act (Group S K) B)
      → IsOrdered r.1
      → ((a : A) → Keeps (f a))
      → IsOrdered (next r f).1
  next-Keeps (ok a, g) f o h = h a g o
  next-Keeps (err x, g) f o h = o
  next-Keeps (panicked, g) f o h = o

  keep-Keeps : (i : ℕ) (item : Option (Outcome K)) → Keeps (keep tk gi i item)
  unfolding keep
  keep-Keeps i none g o = o
  keep-Keeps i (some (ok key)) g o = add_key-IsSorted tk order g.reverse key i g.founds o
  keep-Keeps i (some (err x)) g o = o
  keep-Keeps i (some panicked) g o = o

  watch-Keeps : (n : ℕ) → Keeps (watch tk gi n)
  watch-Keeps n g o = let (w, same) = watch_cases tk gi n g in subst IsOrdered (sym same) o

  advance-Keeps : (i : ℕ) → Keeps (advance tk gi i)
  unfolding advance
  advance-Keeps i g o = split (get_elem? g.items i)
    where
      split :
          (s : Option S)
          → IsOrdered
              (elim s as (λ _. Outcome Bool × Group S K) [
                | none ↦ (panicked, g)
                | some s ↦
                    (watch tk gi (gi.cur_times (gi.scan_next s).1) >>= λ _.
                    keep tk gi i (gi.scan_next s).0)
                      (record g { items = set_at i (gi.scan_next s).1 g.items })
              ]).1
      split none = o
      split (some s) =
          next-Keeps
            (watch tk gi (gi.cur_times (gi.scan_next s).1)
              (record g { items = set_at i (gi.scan_next s).1 g.items }))
            _
            (watch-Keeps (gi.cur_times (gi.scan_next s).1)
              (record g { items = set_at i (gi.scan_next s).1 g.items }) o)
            (λ _. keep-Keeps i (gi.scan_next s).0)

  pop-none : (l : List (ℕ × K)) → pop l ≡ none → l ≡ []
  unfolding pop
  pop-none [] h = refl
  pop-none (x ∷ l) h = absurd (ground arith)

  -- The last of the list may stand behind all of it, and the others stay in order.
  pop-IsSorted :
      (reverse : Bool) (l ps : List (ℕ × K)) (p : ℕ × K)
      → IsSorted tk reverse l
      → pop l ≡ some (p, ps)
      → All (λ q. Before tk reverse q.1 p.1) l × IsSorted tk reverse ps
  unfolding pop
  pop-IsSorted reverse [] ps p s h = absurd (cc h)
  pop-IsSorted reverse (x ∷ l) ps p s h =
      split (λ ys y. pop-IsSorted reverse l ys y s.1) (pop l) refl h
    where
      split :
          ((ys : List (ℕ × K)) (y : ℕ × K)
            → pop l ≡ some (y, ys)
            → All (λ q. Before tk reverse q.1 y.1) l × IsSorted tk reverse ys)
          → (r : Option ((ℕ × K) × List (ℕ × K))) → pop l ≡ r
          → (elim r as (λ _. Option ((ℕ × K) × List (ℕ × K))) [
            | none ↦ some (x, [])
            | some (y, ys) ↦ some (y, x ∷ ys)
          ])
            ≡ some (p, ps)
          → All (λ q. Before tk reverse q.1 p.1) (x ∷ l) × IsSorted tk reverse ps
      split ih none e q =
          let first : x ≡ p = cc q in
          let others : [] ≡ ps = cc q in
          let alone : l ≡ [] = pop-none l e in
          (
            subst (λ y. All (λ q. Before tk reverse q.1 y.1) (x ∷ l)) first
                (subst (λ m. All (λ q. Before tk reverse q.1 x.1) (x ∷ m)) (sym alone)
                  (Before-refl tk order reverse x.1, tt)),
            subst (IsSorted tk reverse) others tt,
          )
      split ih (some (y, ys)) e q =
          let (b, c) = ih ys y e in
          let (d, f) = pop-All (λ z. Before tk reverse x.1 z.1) l ys y s.0 e in
          let last : y ≡ p = cc q in
          let others : x ∷ ys ≡ ps = cc q in
          (
            subst (λ z. All (λ q. Before tk reverse q.1 z.1) (x ∷ l)) last (d, b),
            subst (IsSorted tk reverse) others (f, c),
          )

  advanced :
      (g h : Group S K) (p : ℕ × K) (key : K)
      → IsOrdered g
      → next (advance tk gi p.0 g) (λ _. pure (some p.1)) ≡ (ok (some key), h)
      → (p.1 ≡ key) × IsOrdered h
  advanced g h p key o e =
      let (more, u, a, b) = next-eq-ok (advance tk gi p.0 g) _ e in
      let end : u ≡ h = cc b in
      let kept : IsOrdered u =
        subst (λ (r : Outcome Bool × Group S K). IsOrdered r.1) a (advance-Keeps p.0 g o) in
      (cc b, subst IsOrdered end kept)

  -- In a group whose keys are in order and where no key may be found twice, the key that
  -- `next_or` gives stands behind every key found or is equal to it, and the keys are in order
  -- afterwards: the smallest key is given first, or the greatest if `reverse`.
  pub next_or-Before :
      (g h : Group S K) (key : K)
      → g.dup ≡ false
      → IsOrdered g
      → next_or tk gi g ≡ (ok (some key), h)
      → All (λ p. Before tk g.reverse p.1 key) g.founds × IsOrdered h
  unfolding next_or
  next_or-Before g h key d o e = split g.dup d (pop g.founds) refl e
    where
      split :
          (dup : Bool)
          → dup ≡ false
          → (r : Option ((ℕ × K) × List (ℕ × K))) → pop g.founds ≡ r
          → next {A = ℕ × K}
              (elim r as (λ _. Outcome (ℕ × K) × Group S K) [
                | none ↦ (panicked, g)
                | some (p, ps) ↦ (ok p, record g { founds = ps })
              ])
              (λ p. (if dup then pop_equal tk gi p else pure p) >>= λ cur.
                advance tk gi cur.0 >>= λ _. pure (some cur.1))
            ≡ (ok (some key), h)
          → All (λ p. Before tk g.reverse p.1 key) g.founds × IsOrdered h
      split true d r q f = absurd (cc d)
      split false d none q f = absurd (cc f)
      split false d (some (p, ps)) q f =
          let (first, rest) = pop-IsSorted g.reverse g.founds ps p o q in
          let (same, kept) = advanced (record g { founds = ps }) h p key rest f in
          (subst (λ k. All (λ x. Before tk g.reverse x.1 k) g.founds) same first, kept)
