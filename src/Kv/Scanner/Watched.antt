-- ===== src/Kv/Scanner/Watched.antt =====
-- A group that is watched (kv/src/scanner.rs) changes only in its counts and its watcher.
use rnostr.Prelude.{ℕ, ◌≡◌, refl, Option, none, some}
use rnostr.Db.Error.{Outcome, ok, err, panicked}
use rnostr.Kv.Scanner.{TimeKey}
use rnostr.Kv.Scanner.Groups.{Watcher, GroupItem, Group, count, watch}

module _ {S K : Type 0} (tk : TimeKey K) (gi : GroupItem S K) where
  pub watch_cases :
      (n : ℕ) (g : Group S K)
      → (w : Option Watcher) × ((watch tk gi n g).1 ≡ record (count tk gi n g) { watcher = w })
  unfolding watch
  watch_cases n g = split g.watcher refl
    where
      by_check :
          (w : Watcher) (r : Outcome ℕ)
          → g.watcher ≡ some w
          → (v : Option Watcher) × ((elim r as (λ _. Outcome (Unit {0}) × Group S K) [
            | ok last ↦
                (ok tt, record (count tk gi n g) { watcher = some (record w { last = last }) })
            | err x ↦ (err x, count tk gi n g)
            | panicked ↦ (panicked, count tk gi n g)
          ]).1
              ≡ record (count tk gi n g) { watcher = v })
      by_check w (ok last) e = (some (record w { last = last }), refl)
      by_check w (err x) e = (g.watcher, refl)
      by_check w panicked e = (g.watcher, refl)

      split :
          (o : Option Watcher)
          → g.watcher ≡ o
          → (v : Option Watcher) × ((elim o as (λ _. Outcome (Unit {0}) × Group S K) [
            | none ↦ (ok tt, count tk gi n g)
            | some w ↦
                elim (w.check w.last (count tk gi n g).scan_times)
                  as (λ _. Outcome (Unit {0}) × Group S K) [
                    | ok last ↦ (
                      ok tt,
                      record (count tk gi n g) { watcher = some (record w { last = last }) },
                    )
                    | err x ↦ (err x, count tk gi n g)
                    | panicked ↦ (panicked, count tk gi n g)
                  ]
          ]).1
              ≡ record (count tk gi n g) { watcher = v })
      split none e = (g.watcher, refl)
      split (some w) e = by_check w (w.check w.last (count tk gi n g).scan_times) e
