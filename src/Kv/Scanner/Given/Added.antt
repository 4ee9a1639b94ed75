-- ===== src/Kv/Scanner/Given/Added.antt =====
-- A group to which good scanners are added is a group of good scanners (kv/src/scanner.rs).
use rnostr.Prelude.{
  ◌≡◌, refl, subst, Bool, true, false, Option, none, some, List, [], ◌∷◌, ◌++◌, All, map, is_empty,
  length, if◌then◌else◌,
}
use rnostr.Db.Error.{Outcome, ok}
use rnostr.Kv.Lmdb.{Act, ◌>>=◌}
use rnostr.Kv.Scanner.{TimeKey}
use rnostr.Kv.Scanner.Groups.{
  Watcher, watch_all, GroupItem, Group, keep, add_to_list, add_scanner, new_group, count, clear,
  modify,
}
use rnostr.Kv.Scanner.Given.{Gives, AllGood, Fine, Any, next-Fine, keep-Fine}

module _ {S K : Type 0} (tk : TimeKey K) (gi : GroupItem S K) (Good : S → Type 0)
    (P : K → Type 0) where
  All-snoc : (l : List S) (s : S) → All Good l → Good s → All Good (l ++ s ∷ [])
  All-snoc [] s a h = (h, tt)
  All-snoc (x ∷ l) s a h = (a.0, All-snoc l s a.1 h)

  -- The group after the first scan of a new scanner.
  abbrev counted : S → Group S K → Group S K
  counted s g = count tk gi (gi.cur_times (gi.scan_next s).1) g

  abbrev push : S → Act (Group S K) (Unit {0})
  push s = modify tk gi (λ u. record u { items = u.items ++ (gi.scan_next s).1 ∷ [] })

  -- A new scanner that has no key.
  abbrev no_key : Bool → S → Act (Group S K) (Unit {0})
  no_key both s g =
      if both
      then (ok tt, record (clear tk gi (counted s g)) { done = true })
      else push s (counted s g)

  pub new_group-AllGood :
      (reverse both dup : Bool) → AllGood tk gi Good P (new_group tk gi reverse both dup)
  unfolding new_group
  new_group-AllGood reverse both dup = record {
    onlyone_good = λ s e. absurd (cc e);
    items_good = tt;
    founds_good = tt;
  }

  -- A group whose scanners stay good where they are given a watcher.
  pub watch_all-AllGood :
      (w : Watcher) (g : Group S K)
      → ((s : S) → Good s → Good (gi.set_watcher w s))
      → AllGood tk gi Good P g
      → AllGood tk gi Good P (watch_all tk gi w g)
  unfolding watch_all
  watch_all-AllGood w g k h = record {
    onlyone_good = λ s e. alone s g.onlyone h.onlyone_good e;
    items_good = all_items g.items h.items_good;
    founds_good = h.founds_good;
  }
    where
      alone :
          (s : S) (o : Option S)
          → ((t : S) → o ≡ some t → Good t)
          → (elim o as (λ _. Option S) [ none ↦ none | some t ↦ some (gi.set_watcher w t) ])
            ≡ some s
          → Good s
      alone s none a e = absurd (cc e)
      alone s (some t) a e =
          let same : gi.set_watcher w t ≡ s = cc e in subst Good same (k t (a t refl))

      all_items : (l : List S) → All Good l → All Good (map (gi.set_watcher w) l)
      all_items [] a = tt
      all_items (s ∷ l) a = (k s a.0, all_items l a.1)

  module _ (gives : (s : S) → Good s → Gives tk gi Good P (gi.scan_next s)) where
    push-Fine :
        (s : S) (u : Group S K)
        → Good s
        → AllGood tk gi Good P u
        → Fine tk gi Good P {A = Unit} Any (ok tt, record u { items = u.items ++ s ∷ [] })
    push-Fine s u g h = (
      tt,
      record {
        onlyone_good = h.onlyone_good;
        items_good = All-snoc u.items s h.items_good g;
        founds_good = h.founds_good;
      },
    )

    add_to_list-Fine :
        (s : S) (g : Group S K)
        → Good s
        → AllGood tk gi Good P g
        → Fine tk gi Good P Any (add_to_list tk gi s g)
    unfolding add_to_list
    add_to_list-Fine s g k h = by_done g.done
      where
        fresh : AllGood tk gi Good P (counted s g)
        fresh = record {
          onlyone_good = h.onlyone_good;
          items_good = h.items_good;
          founds_good = h.founds_good;
        }

        by_both : (both : Bool) → Fine tk gi Good P Any (no_key both s g)
        by_both true = (
          tt,
          record { onlyone_good = h.onlyone_good; items_good = h.items_good; founds_good = tt },
        )
        by_both false = push-Fine (gi.scan_next s).1 _ (gives s k).0 fresh

        by_item :
            (item : Option (Outcome K))
            → ((key : K) → item ≡ some (ok key) → P key)
            → Fine tk gi Good P Any (elim item as (λ _. Outcome (Unit {0}) × Group S K) [
              | none ↦ no_key g.both s g
              | some r ↦ (keep tk gi (length g.items) (some r) >>= λ _. push s) (counted s g)
            ])
        by_item none p = by_both g.both
        by_item (some r) p =
            next-Fine tk gi Good P Any Any _ _
              (keep-Fine tk gi Good P (length g.items) (some r) _ p fresh)
              (λ _ u _ v. push-Fine (gi.scan_next s).1 u (gives s k).0 v)

        by_done :
            (done : Bool)
            → Fine tk gi Good P Any (
                if done
                then (ok tt, g)
                else (elim (gi.scan_next s).0 as (λ _. Outcome (Unit {0}) × Group S K) [
                  | none ↦ no_key g.both s g
                  | some r ↦ (keep tk gi (length g.items) (some r) >>= λ _. push s) (counted s g)
                ]))
        by_done true = (tt, h)
        by_done false = by_item (gi.scan_next s).0 (gives s k).1

    pub add_scanner-Fine :
        (s : S) (g : Group S K)
        → Good s
        → AllGood tk gi Good P g
        → Fine tk gi Good P Any (add_scanner tk gi s g)
    unfolding add_scanner
    add_scanner-Fine s g k h = by_done g.done
      where
        first : AllGood tk gi Good P (record g { onlyone = some s })
        first = record {
          onlyone_good = λ t e. let same : s ≡ t = cc e in subst Good same k;
          items_good = h.items_good;
          founds_good = h.founds_good;
        }

        emptied : AllGood tk gi Good P (record g { onlyone = none })
        emptied = record {
          onlyone_good = λ t e. absurd (cc e);
          items_good = h.items_good;
          founds_good = h.founds_good;
        }

        by_empty :
            (b : Bool)
            → Fine tk gi Good P Any
                (if b then (ok tt, record g { onlyone = some s }) else add_to_list tk gi s g)
        by_empty true = (tt, first)
        by_empty false = add_to_list-Fine s g k h

        by_only :
            (o : Option S)
            → g.onlyone ≡ o
            → Fine tk gi Good P Any (elim o as (λ _. Outcome (Unit {0}) × Group S K) [
              | none ↦
                  if is_empty g.items
                  then (ok tt, record g { onlyone = some s })
                  else add_to_list tk gi s g
              | some t ↦
                  (add_to_list tk gi t >>= λ _. add_to_list tk gi s) (record g { onlyone = none })
            ])
        by_only none e = by_empty (is_empty g.items)
        by_only (some t) e =
            next-Fine tk gi Good P Any Any _ _ (add_to_list-Fine t _ (h.onlyone_good t e) emptied)
              (λ _ u _ v. add_to_list-Fine s u k v)

        by_done :
            (done : Bool)
            → Fine tk gi Good P Any (
                if done
                then (ok tt, g)
                else (elim g.onlyone as (λ _. Outcome (Unit {0}) × Group S K) [
                  | none ↦
                      if is_empty g.items
                      then (ok tt, record g { onlyone = some s })
                      else add_to_list tk gi s g
                  | some t ↦
                      (add_to_list tk gi t >>= λ _. add_to_list tk gi s)
                        (record g { onlyone = none })
                ]))
        by_done true = (tt, h)
        by_done false = by_only g.onlyone refl
