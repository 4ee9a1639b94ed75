-- ===== src/Kv/Scanner/Given/And.antt =====
-- What holds of the keys that scanners give holds of their intersection (kv/src/scanner.rs).
use rnostr.Prelude.{
  ℕ, zero, suc, ◌≡◌, refl, subst, Bool, true, false, Option, none, some, List, [], if◌then◌else◌,
}
use rnostr.Db.Error.{Outcome, ok, err, panicked}
use rnostr.Kv.Lmdb.{◌>>=◌}
use rnostr.Kv.Scanner.{TimeKey, pop}
use rnostr.Kv.Scanner.Groups.{
  GroupItem, Group, advance, and_round, next_and, pop_found, go_on, give, differs,
}
use rnostr.Kv.Scanner.Lists.{pop-All}
use rnostr.Kv.Scanner.Given.{
  Gives, AllGood, Fine, Any, HasKey, next-Fine, with_founds, advance-Fine,
}

module _ {S K : Type 0} (tk : TimeKey K) (gi : GroupItem S K) (Good : S → Type 0)
    (P : K → Type 0) where
  module _ (gives : (s : S) → Good s → Gives tk gi Good P (gi.scan_next s)) where
    pub pop_found-Fine :
        (g : Group S K)
        → AllGood tk gi Good P g
        → Fine tk gi Good P (λ p. P p.1) (pop_found tk gi g)
    pop_found-Fine g h = split (pop g.founds) refl
      where
        split :
            (r : Option ((ℕ × K) × List (ℕ × K)))
            → pop g.founds ≡ r
            → Fine tk gi Good P
                (λ p. P p.1)
                (elim r as (λ _. Outcome (ℕ × K) × Group S K) [
                  | none ↦ (panicked, g)
                  | some (p, ps) ↦ (ok p, record g { founds = ps })
                ])
        split none e = h
        split (some (p, ps)) e =
            let (one, others) = pop-All (λ q. P q.1) g.founds ps p h.founds_good e in
            (one, with_founds tk gi Good P g ps h others)

    -- What a round of the intersection may answer.
    abbrev Answered : Option (Option K) → Type 0
    Answered none = Unit
    Answered (some answer) = HasKey P answer

    and_round-Fine :
        (p : ℕ × K) (g : Group S K)
        → P p.1
        → AllGood tk gi Good P g
        → Fine tk gi Good P Answered (and_round tk gi p g)
    unfolding and_round
    and_round-Fine (i, key) g k h = split (differs tk gi key g.founds)
      where
        missed :
            (more : Bool) (u : Group S K)
            → AllGood tk gi Good P u
            → Fine tk gi Good P Answered (go_on tk gi more u)
        missed true u v = (tt, v)
        missed false u v = (tt, with_founds tk gi Good P u [] v tt)

        given :
            (more : Bool) (u : Group S K)
            → AllGood tk gi Good P u
            → Fine tk gi Good P Answered (give tk gi key more u)
        given true u v = (k, v)
        given false u v = (k, with_founds tk gi Good P u [] v tt)

        split :
            (b : Bool)
            → Fine tk gi Good P Answered (
                if b
                then (advance tk gi i >>= go_on tk gi) g
                else (advance tk gi i >>= give tk gi key) g)
        split true =
            next-Fine tk gi Good P Any Answered _ _ (advance-Fine tk gi Good P gives i g h)
              (λ more u _ v. missed more u v)
        split false =
            next-Fine tk gi Good P Any Answered _ _ (advance-Fine tk gi Good P gives i g h)
              (λ more u _ v. given more u v)

    same_Fine :
        (m r : Outcome (Option K) × Group S K)
        → some m ≡ some r
        → Fine tk gi Good P (HasKey P) m
        → Fine tk gi Good P (HasKey P) r
    same_Fine m r e f = let same : m ≡ r = cc e in subst (Fine tk gi Good P (HasKey P)) same f

    pub next_and-Fine :
        (fuel : ℕ) (g : Group S K) (r : Outcome (Option K) × Group S K)
        → AllGood tk gi Good P g
        → next_and tk gi fuel g ≡ some r
        → Fine tk gi Good P (HasKey P) r
    unfolding next_and
    next_and-Fine zero g r h e = absurd (cc e)
    next_and-Fine (suc fuel) g r h e =
        split (λ u v q. next_and-Fine fuel u r v q) ((pop_found tk gi >>= and_round tk gi) g)
          (next-Fine tk gi Good P (λ p. P p.1) Answered _ _ (pop_found-Fine g h)
            (λ p u k v. and_round-Fine p u k v))
          e
      where
        split :
            ((u : Group S K)
              → AllGood tk gi Good P u
              → next_and tk gi fuel u ≡ some r
              → Fine tk gi Good P (HasKey P) r)
            → (m : Outcome (Option (Option K)) × Group S K) → Fine tk gi Good P Answered m
            → (elim m.0 as (λ _. Option (Outcome (Option K) × Group S K)) [
              | ok none ↦ next_and tk gi fuel m.1
              | ok (some answer) ↦ some (ok answer, m.1)
              | err x ↦ some (err x, m.1)
              | panicked ↦ some (panicked, m.1)
            ])
              ≡ some r
            → Fine tk gi Good P (HasKey P) r
        split ih (ok none, u) f q = ih u f.1 q
        split ih (ok (some answer), u) f q = same_Fine (ok answer, u) r q f
        split ih (err x, u) f q = same_Fine (err x, u) r q f
        split ih (panicked, u) f q = same_Fine (panicked, u) r q f
