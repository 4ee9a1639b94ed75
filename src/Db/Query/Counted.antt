-- ===== src/Db/Query/Counted.antt =====
-- What an iterator reads (db/src/db.rs) is counted: each event that it gives, by one or more.
use rnostr.Prelude.{
  ℕ, zero, suc, ◌+◌, ◌≤◌, ◌<◌, ◌≡◌, ◌≢◌, refl, ap, ◌∙◌, subst, Bool, true, false, Option, none,
  some, arith,
}
use rnostr.Std.Words.{u64_mod}
use rnostr.Db.Error.{Outcome, ok, err, panicked}
use rnostr.Db.Codec.{Codec, FromEventData}
use rnostr.Db.Event.{EventIndex}
use rnostr.Db.Key.{IndexKey}
use rnostr.Db.MatchIndex.{MatchIndex}
use rnostr.Db.Query.{Node, index_keys, node_item}
use rnostr.Db.Query.Open.{Iter}
use rnostr.Db.Query.Read.{
  count_index, matches_found, read_index, check_index, check_key, next_key, read_event, try_key,
  read_key, next_inner,
}
use rnostr.Kv.Lmdb.{Ffi, next}
use rnostr.Kv.Lmdb.Iter.{Cursor}
use rnostr.Kv.Scanner.Groups.{Group, group_next}

module _ (ffi : Ffi) (codec : Codec) (C : Cursor) (steps : ℕ) where
  -- What is read for a key leaves the filter, and the count of events.
  pub record SameCount (it u : Iter C ffi.Txn) : Type 0 where
    pub data_same : u.get_data ≡ it.get_data
    pub filter_same : u.filter ≡ it.filter

  check_index-SameCount :
      (key : IndexKey) (it : Iter C ffi.Txn) → SameCount it (check_index ffi codec C steps key it).1
  unfolding check_index matches_found
  check_index-SameCount key it = split (read_index ffi codec C steps key it)
    where
      split :
          (m : Outcome (Option EventIndex))
          → SameCount it
              (elim m as (λ _. Outcome Bool × Iter C ffi.Txn) [
                | ok event ↦
                    matches_found ffi codec C steps event (count_index ffi codec C steps it)
                | err x ↦ (err x, it)
                | panicked ↦ (panicked, it)
              ]).1
      split (ok none) = record { data_same = refl; filter_same = refl }
      split (ok (some event)) = record { data_same = refl; filter_same = refl }
      split (err x) = record { data_same = refl; filter_same = refl }
      split panicked = record { data_same = refl; filter_same = refl }

  check_key-SameCount :
      (mi : MatchIndex) (key : IndexKey) (it : Iter C ffi.Txn)
      → SameCount it (check_key ffi codec C steps mi key it).1
  unfolding check_key
  check_key-SameCount MatchIndex.none key it = record { data_same = refl; filter_same = refl }
  check_key-SameCount MatchIndex.all key it = check_index-SameCount key it
  check_key-SameCount MatchIndex.pubkey key it = check_index-SameCount key it

  module _ {R : Type 0} (r : FromEventData R) where
    -- A key counts one event at most, and one that is given.
    pub record Counted (it : Iter C ffi.Txn) (m : Outcome (Option R) × Iter C ffi.Txn)
        : Type 0 where
      pub no_less : it.get_data ≤ m.1.get_data
      pub no_more : m.1.get_data ≤ it.get_data + 1
      pub given : (event : R) → m.0 ≡ ok (some event) → it.get_data < m.1.get_data
      pub filter_same : m.1.filter ≡ it.filter

    try_key-Counted :
        (key : IndexKey) (it : Iter C ffi.Txn)
        → it.get_data + 1 < u64_mod
        → Counted it (try_key ffi codec C steps r key it)
    unfolding try_key read_event
    try_key-Counted key it h =
        split (check_key ffi codec C steps it.match_index key it)
          (check_key-SameCount it.match_index key it)
      where
        split :
            (m : Outcome Bool × Iter C ffi.Txn)
            → SameCount it m.1
            → Counted it (next m (read_event ffi codec C steps r key))
        split (ok false, u) s =
            let d = s.data_same in
            record {
              no_less = omega arith;
              no_more = omega arith;
              given = λ event e. absurd (cc e);
              filter_same = s.filter_same;
            }
        split (ok true, u) s =
            let d = s.data_same in
            record {
              no_less = ground arith;
              no_more = ground arith;
              given = λ event e. ground arith;
              filter_same = s.filter_same;
            }
        split (err x, u) s =
            let d = s.data_same in
            record {
              no_less = omega arith;
              no_more = omega arith;
              given = λ event e. absurd (cc e);
              filter_same = s.filter_same;
            }
        split (panicked, u) s =
            let d = s.data_same in
            record {
              no_less = omega arith;
              no_more = omega arith;
              given = λ event e. absurd (cc e);
              filter_same = s.filter_same;
            }

    -- A round of the loop.
    pub record CountedRound (it : Iter C ffi.Txn) (m : Option (Outcome (Option R)) × Iter C ffi.Txn)
        : Type 0 where
      pub no_less : it.get_data ≤ m.1.get_data
      pub no_more : m.1.get_data ≤ it.get_data + 1
      pub given : (event : R) → m.0 ≡ some (ok (some event)) → it.get_data < m.1.get_data
      pub filter_same : m.1.filter ≡ it.filter

    no_key :
        (it : Iter C ffi.Txn) (a : Option (Outcome (Option R)))
        → ((event : R) → a ≢ some (ok (some event)))
        → CountedRound it (a, it)
    no_key it a h = record {
      no_less = omega arith;
      no_more = omega arith;
      given = λ event e. absurd (h event e);
      filter_same = refl;
    }

    read_key-CountedRound :
        (item : Option (Outcome IndexKey)) (it : Iter C ffi.Txn)
        → it.get_data + 1 < u64_mod
        → CountedRound it (read_key ffi codec C steps r item it)
    unfolding read_key
    read_key-CountedRound none it h = no_key it _ (λ event e. absurd (cc e))
    read_key-CountedRound (some (err x)) it h = no_key it _ (λ event e. absurd (cc e))
    read_key-CountedRound (some panicked) it h = no_key it _ (λ event e. absurd (cc e))
    read_key-CountedRound (some (ok key)) it h =
        split (try_key ffi codec C steps r key it) (try_key-Counted key it h)
      where
        split :
            (m : Outcome (Option R) × Iter C ffi.Txn)
            → Counted it m
            → CountedRound it (
              elim m.0 as (λ _. Option (Outcome (Option R))) [
                | ok none ↦ none
                | ok (some event) ↦ some (ok (some event))
                | err x ↦ some (err x)
                | panicked ↦ some panicked
              ],
              m.1,
            )
        split (ok none, u) c = record {
          no_less = c.no_less;
          no_more = c.no_more;
          given = λ event e. absurd (cc e);
          filter_same = c.filter_same;
        }
        split (ok (some x), u) c = record {
          no_less = c.no_less;
          no_more = c.no_more;
          given = λ event e. c.given event (cc e);
          filter_same = c.filter_same;
        }
        split (err x, u) c = record {
          no_less = c.no_less;
          no_more = c.no_more;
          given = λ event e. absurd (cc e);
          filter_same = c.filter_same;
        }
        split (panicked, u) c = record {
          no_less = c.no_less;
          no_more = c.no_more;
          given = λ event e. absurd (cc e);
          filter_same = c.filter_same;
        }

    next_key-SameCount :
        (it t : Iter C ffi.Txn) (item : Option (Outcome IndexKey))
        → next_key ffi codec C steps it ≡ some (item, t)
        → SameCount it t
    unfolding next_key
    next_key-SameCount it t item e =
        split (group_next index_keys (node_item C steps) steps it.group) e
      where
        split :
            (m : Option (Option (Outcome IndexKey) × Group (Node C) IndexKey))
            → (elim m as (λ _. Option (Option (Outcome IndexKey) × Iter C ffi.Txn)) [
              | none ↦ none
              | some (i, g) ↦ some (i, record it { group = g })
            ])
              ≡ some (item, t)
            → SameCount it t
        split none p = absurd (cc p)
        split (some (i, g)) p =
            let there : record it { group = g } ≡ t = cc p in
            subst (SameCount it) there (record { data_same = refl; filter_same = refl })

    -- An event that the loop gives is counted, and the filter stays.
    pub record Given (it : Iter C ffi.Txn) (m : Outcome (Option R) × Iter C ffi.Txn) : Type 0 where
      pub more : (event : R) → m.0 ≡ ok (some event) → it.get_data < m.1.get_data
      pub filter_same : m.1.filter ≡ it.filter

    pub next_inner-Given :
        (fuel : ℕ) (it : Iter C ffi.Txn) (m : Outcome (Option R) × Iter C ffi.Txn)
        → it.get_data + fuel < u64_mod
        → next_inner ffi codec C steps r fuel it ≡ some m
        → Given it m
    unfolding next_inner
    next_inner-Given zero it m h e = absurd (cc e)
    next_inner-Given (suc fuel) it m h e =
        split (λ u b q. next_inner-Given fuel u m b q) (next_key ffi codec C steps it)
          (λ item t q. next_key-SameCount it t item q) e
      where
        answered :
            (t : Iter C ffi.Txn)
            → SameCount it t
            → ((u : Iter C ffi.Txn)
                → u.get_data + fuel < u64_mod
                → next_inner ffi codec C steps r fuel u ≡ some m
                → Given u m)
            → (a : Option (Outcome (Option R)) × Iter C ffi.Txn) → CountedRound t a
            → (elim a.0 as (λ _. Option (Outcome (Option R) × Iter C ffi.Txn)) [
              | none ↦ next_inner ffi codec C steps r fuel a.1
              | some x ↦ some (x, a.1)
            ])
              ≡ some m
            → Given it m
        answered t s ih (none, u) c q =
            let d = s.data_same in
            let low = c.no_less in
            let high = c.no_more in
            let g = ih u (omega arith) q in
            record {
              more = λ event p. let up = g.more event p in omega arith;
              filter_same = g.filter_same ∙ c.filter_same ∙ s.filter_same;
            }
        answered t s ih (some x, u) c q =
            let one : Given it (x, u) = record {
              more = λ event p.
                  let d = s.data_same in let up = c.given event (ap some p) in omega arith;
              filter_same = c.filter_same ∙ s.filter_same;
            } in
            let same : ◌≡◌ {A = Outcome (Option R) × Iter C ffi.Txn} (x, u) m = cc q in
            subst (Given it) same one

        split :
            ((u : Iter C ffi.Txn)
              → u.get_data + fuel < u64_mod
              → next_inner ffi codec C steps r fuel u ≡ some m
              → Given u m)
            → (n : Option (Option (Outcome IndexKey) × Iter C ffi.Txn))
            → ((item : Option (Outcome IndexKey)) (t : Iter C ffi.Txn)
                → n ≡ some (item, t)
                → SameCount it t)
            → (elim n as (λ _. Option (Outcome (Option R) × Iter C ffi.Txn)) [
              | none ↦ none
              | some (item, t) ↦
                  let a = read_key ffi codec C steps r item t in
                  elim a.0 as (λ _. Option (Outcome (Option R) × Iter C ffi.Txn)) [
                    | none ↦ next_inner ffi codec C steps r fuel a.1
                    | some x ↦ some (x, a.1)
                  ]
            ])
              ≡ some m
            → Given it m
        split ih none k q = absurd (cc q)
        split ih (some (item, t)) k q =
            let s = k item t refl in
            let d = s.data_same in
            answered t s ih (read_key ffi codec C steps r item t)
              (read_key-CountedRound item t (omega arith)) q
