-- ===== src/Kv/Scanner/Given/Or.antt =====
-- What holds of the keys that scanners give holds of their union (kv/src/scanner.rs).
use rnostr.Prelude.{
  ℕ, zero, suc, ◌≡◌, refl, Bool, true, false, Option, none, some, List, [], ◌∷◌, ◌++◌, All, length,
  if◌then◌else◌,
}
use rnostr.Db.Error.{Outcome, panicked}
use rnostr.Kv.Lmdb.{pure, ◌>>=◌}
use rnostr.Kv.Scanner.{TimeKey, pop}
use rnostr.Kv.Scanner.Groups.{
  GroupItem, Group, is_equal, take_equal, advance_all, pop_equal, next_or,
}
use rnostr.Kv.Scanner.Lists.{pop-All}
use rnostr.Kv.Scanner.Given.{
  Gives, AllGood, Fine, Any, HasKey, next-Fine, with_founds, advance-Fine,
}
use rnostr.Kv.Scanner.Given.And.{pop_found-Fine}

module _ {S K : Type 0} (tk : TimeKey K) (gi : GroupItem S K) (Good : S → Type 0)
    (P : K → Type 0) where
  module _ (gives : (s : S) → Good s → Gives tk gi Good P (gi.scan_next s)) where
    advance_all-Fine :
        (ps : List (ℕ × K)) (g : Group S K)
        → AllGood tk gi Good P g
        → Fine tk gi Good P Any (advance_all tk gi ps g)
    unfolding advance_all
    advance_all-Fine [] g h = (tt, h)
    advance_all-Fine ((i, key) ∷ ps) g h =
        next-Fine tk gi Good P Any Any _ _ (advance-Fine tk gi Good P gives i g h)
          (λ _ u _ v. advance_all-Fine ps u v)

    All-last :
        (l : List (ℕ × K)) (p : ℕ × K) → All (λ q. P q.1) l → P p.1 → All (λ q. P q.1) (l ++ p ∷ [])
    All-last [] p a k = (k, tt)
    All-last (x ∷ l) p a k = (a.0, All-last l p a.1 k)

    abbrev AllBoth : List (ℕ × K) × List (ℕ × K) → Type 0
    AllBoth ls = All (λ q. P q.1) ls.0 × All (λ q. P q.1) ls.1

    AllBoth-if : (b : Bool) (l m : _) → AllBoth l → AllBoth m → AllBoth (if b then l else m)
    AllBoth-if true l m h k = h
    AllBoth-if false l m h k = k

    take_equal-All :
        (key : K) (n : ℕ) (curs founds : List (ℕ × K))
        → All (λ q. P q.1) curs
        → All (λ q. P q.1) founds
        → AllBoth (take_equal tk gi key n curs founds)
    unfolding take_equal
    take_equal-All key zero curs founds a b = (a, b)
    take_equal-All key (suc n) curs founds a b =
        split (λ l m c d. take_equal-All key n l m c d) (pop founds) refl
      where
        split :
            ((l m : List (ℕ × K))
              → All (λ q. P q.1) l
              → All (λ q. P q.1) m
              → AllBoth (take_equal tk gi key n l m))
            → (r : Option ((ℕ × K) × List (ℕ × K))) → pop founds ≡ r
            → AllBoth (elim r as (λ _. List (ℕ × K) × List (ℕ × K)) [
              | none ↦ (curs, founds)
              | some (p, ps) ↦
                  if is_equal (tk.cmp p.1 key)
                  then take_equal tk gi key n (curs ++ p ∷ []) ps
                  else (curs, founds)
            ])
        split ih none e = (a, b)
        split ih (some (p, ps)) e =
            let (one, others) = pop-All (λ q. P q.1) founds ps p b e in
            AllBoth-if (is_equal (tk.cmp p.1 key)) _ (curs, founds)
              (ih (curs ++ p ∷ []) ps (All-last curs p a one) others) (a, b)

    pop_equal-Fine :
        (p : ℕ × K) (g : Group S K)
        → P p.1
        → AllGood tk gi Good P g
        → Fine tk gi Good P (λ q. P q.1) (pop_equal tk gi p g)
    unfolding pop_equal
    pop_equal-Fine (i, key) g k h =
        let (a, b) =
          take_equal-All key (length g.founds) ((i, key) ∷ []) g.founds (k, tt) h.founds_good in
        split
          (record g {
            founds = (take_equal tk gi key (length g.founds) ((i, key) ∷ []) g.founds).1;
          })
          (take_equal tk gi key (length g.founds) ((i, key) ∷ []) g.founds).0
          (with_founds tk gi Good P g _ h b) a
          (pop (take_equal tk gi key (length g.founds) ((i, key) ∷ []) g.founds).0) refl
      where
        split :
            (u : Group S K) (curs : List (ℕ × K))
            → AllGood tk gi Good P u
            → All (λ q. P q.1) curs
            → (r : Option ((ℕ × K) × List (ℕ × K))) → pop curs ≡ r
            → Fine tk gi Good P
                (λ q. P q.1)
                (elim r as (λ _. Outcome (ℕ × K) × Group S K) [
                  | none ↦ (panicked, u)
                  | some (cur, others) ↦ (advance_all tk gi others >>= λ _. pure cur) u
                ])
        split u curs v a none e = v
        split u curs v a (some (cur, others)) e =
            let (one, rest) = pop-All (λ q. P q.1) curs others cur a e in
            next-Fine tk gi Good P Any (λ q. P q.1) _ _ (advance_all-Fine others u v)
              (λ _ w _ x. (one, x))

    pub next_or-Fine :
        (g : Group S K) → AllGood tk gi Good P g → Fine tk gi Good P (HasKey P) (next_or tk gi g)
    unfolding next_or
    next_or-Fine g h =
        next-Fine tk gi Good P (λ p. P p.1) (HasKey P) _ _ (pop_found-Fine tk gi Good P gives g h)
          (λ p u k v.
            next-Fine tk gi Good P (λ q. P q.1) (HasKey P) _ _ (first g.dup p u k v)
              (λ cur w l x.
                next-Fine tk gi Good P Any (HasKey P) _ _
                  (advance-Fine tk gi Good P gives cur.0 w x) (λ _ y _ z. (l, z))))
      where
        first :
            (dup : Bool) (p : ℕ × K) (u : Group S K)
            → P p.1
            → AllGood tk gi Good P u
            → Fine tk gi Good P (λ q. P q.1) ((if dup then pop_equal tk gi p else pure p) u)
        first true p u k v = pop_equal-Fine p u k v
        first false p u k v = (k, v)
