-- ===== src/Kv/Scanner/Given/Next.antt =====
-- What holds of the keys that scanners give holds of the answers of a group (kv/src/scanner.rs).
use rnostr.Prelude.{
  ℕ, ◌≡◌, refl, subst, Bool, true, false, ◌||◌, Option, none, some, is_empty, if◌then◌else◌,
}
use rnostr.Db.Error.{Outcome, ok, err, panicked}
use rnostr.Kv.Scanner.{TimeKey}
use rnostr.Kv.Scanner.Groups.{GroupItem, Group, watch, next_and, next_or, group_next, transposed}
use rnostr.Kv.Scanner.Given.{Gives, AllGood, Fine, Any, HasKey, watch-Fine}
use rnostr.Kv.Scanner.Given.And.{next_and-Fine}
use rnostr.Kv.Scanner.Given.Or.{next_or-Fine}

module _ {S K : Type 0} (tk : TimeKey K) (gi : GroupItem S K) (Good : S → Type 0)
    (P : K → Type 0) where
  module _ (gives : (s : S) → Good s → Gives tk gi Good P (gi.scan_next s)) where
    -- Whether the group gives a key, and what it is.
    abbrev pub GivesKey : Option (Outcome K) × Group S K → Type 0
    GivesKey (item, g) = AllGood tk gi Good P g × ((key : K) → item ≡ some (ok key) → P key)

    transposed-Fine :
        (r : Outcome (Option K) × Group S K)
        → Fine tk gi Good P (HasKey P) r
        → GivesKey (transposed r.0, r.1)
    transposed-Fine (ok none, g) f = (f.1, λ key e. absurd (cc e))
    transposed-Fine (ok (some k), g) f =
        (f.1, λ key e. let same : k ≡ key = cc e in subst P same f.0)
    transposed-Fine (err x, g) f = (f, λ key e. absurd (cc e))
    transposed-Fine (panicked, g) f = (f, λ key e. absurd (cc e))

    -- Where every good scanner gives only keys with a property, and stays good, so does a group of
    -- good scanners, however its keys are merged or intersected.
    pub group_next-GivesKey :
        (fuel : ℕ) (g : Group S K) (r : Option (Outcome K) × Group S K)
        → AllGood tk gi Good P g
        → group_next tk gi fuel g ≡ some r
        → GivesKey r
    unfolding group_next
    group_next-GivesKey fuel g r h e = split g.onlyone refl e
      where
        fresh : AllGood tk gi Good P (record g { cur_times = 0 })
        fresh = record {
          onlyone_good = h.onlyone_good;
          items_good = h.items_good;
          founds_good = h.founds_good;
        }

        same : (m : Option (Outcome K) × Group S K) → some m ≡ some r → GivesKey m → GivesKey r
        same m q f = let s : m ≡ r = cc q in subst GivesKey s f

        merged :
            (both : Bool)
            → (if both
                then elim (next_and tk gi fuel (record g { cur_times = 0 }))
                    as (λ _. Option (Option (Outcome K) × Group S K)) [
                      | none ↦ none
                      | some m ↦ some (transposed m.0, m.1)
                    ]
                else (let m = next_or tk gi (record g { cur_times = 0 }) in
                    some (transposed m.0, m.1)))
              ≡ some r
            → GivesKey r
        merged false q = same _ q (transposed-Fine _ (next_or-Fine tk gi Good P gives _ fresh))
        merged true q =
            by_and (next_and tk gi fuel (record g { cur_times = 0 }))
              (λ m e. next_and-Fine tk gi Good P gives fuel _ m fresh e) q
          where
            by_and :
                (m : Option (Outcome (Option K) × Group S K))
                → ((x : Outcome (Option K) × Group S K)
                    → m ≡ some x
                    → Fine tk gi Good P (HasKey P) x)
                → (elim m as (λ _. Option (Option (Outcome K) × Group S K)) [
                  | none ↦ none
                  | some m ↦ some (transposed m.0, m.1)
                ])
                  ≡ some r
                → GivesKey r
            by_and none f q = absurd (cc q)
            by_and (some x) f q = same _ q (transposed-Fine x (f x refl))

        several :
            (b : Bool)
            → (if b
                then some (none, record g { cur_times = 0 })
                else if g.both
                then elim (next_and tk gi fuel (record g { cur_times = 0 }))
                    as (λ _. Option (Option (Outcome K) × Group S K)) [
                      | none ↦ none
                      | some m ↦ some (transposed m.0, m.1)
                    ]
                else (let m = next_or tk gi (record g { cur_times = 0 }) in
                    some (transposed m.0, m.1)))
              ≡ some r
            → GivesKey r
        several true q = same _ q (fresh, λ key z. absurd (cc z))
        several false q = merged g.both q

        watched :
            (item : Option (Outcome K)) (m : Outcome (Unit {0}) × Group S K)
            → ((key : K) → item ≡ some (ok key) → P key)
            → Fine tk gi Good P Any m
            → GivesKey (
              elim m.0 as (λ _. Option (Outcome K)) [
                | ok _ ↦ item
                | err x ↦ some (err x)
                | panicked ↦ some panicked
              ],
              m.1,
            )
        watched item (ok u, k) p f = (f.1, p)
        watched item (err x, k) p f = (f, λ key z. absurd (cc z))
        watched item (panicked, k) p f = (f, λ key z. absurd (cc z))

        alone :
            (s : S)
            → Good s
            → AllGood tk gi Good P (record g { onlyone = some (gi.scan_next s).1; cur_times = 0 })
        alone s k = record {
          onlyone_good =
              λ t z. let t_same : (gi.scan_next s).1 ≡ t = cc z in subst Good t_same (gives s k).0;
          items_good = h.items_good;
          founds_good = h.founds_good;
        }

        split :
            (o : Option S)
            → g.onlyone ≡ o
            → (elim o as (λ _. Option (Option (Outcome K) × Group S K)) [
              | some s ↦
                  let m =
                    watch tk gi
                      (gi.cur_times (gi.scan_next s).1)
                      (record g { onlyone = some (gi.scan_next s).1; cur_times = 0 }) in
                  some (
                    elim m.0 as (λ _. Option (Outcome K)) [
                      | ok _ ↦ (gi.scan_next s).0
                      | err x ↦ some (err x)
                      | panicked ↦ some panicked
                    ],
                    m.1,
                  )
              | none ↦
                  if is_empty g.founds || g.done
                  then some (none, record g { cur_times = 0 })
                  else if g.both
                  then elim (next_and tk gi fuel (record g { cur_times = 0 }))
                      as (λ _. Option (Option (Outcome K) × Group S K)) [
                        | none ↦ none
                        | some m ↦ some (transposed m.0, m.1)
                      ]
                  else (let m = next_or tk gi (record g { cur_times = 0 }) in
                      some (transposed m.0, m.1))
            ])
              ≡ some r
            → GivesKey r
        split none z q = several (is_empty g.founds || g.done) q
        split (some s) z q =
            let k = h.onlyone_good s z in
            same _ q (
              watched (gi.scan_next s).0 _ (gives s k).1 (
                watch-Fine tk gi Good P (gi.cur_times (gi.scan_next s).1)
                  (record g { onlyone = some (gi.scan_next s).1; cur_times = 0 }) (alone s k)))
