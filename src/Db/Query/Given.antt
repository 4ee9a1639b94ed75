-- ===== src/Db/Query/Given.antt =====
-- The events that an iterator gives (db/src/db.rs) are events that its filter asks for.
use rnostr.Prelude.Order.{Bytes}
use rnostr.Prelude.{
  ℕ, zero, suc, ◌≡◌, refl, ap, subst, Bool, true, false, Option, none, some, List, [], ◌∷◌, All,
  if◌then◌else◌,
}
use rnostr.Std.Words.{to_be}
use rnostr.Db.Error.{Outcome, ok, err, panicked}
use rnostr.Db.Codec.{Codec, FromEventData}
use rnostr.Db.Filter.{Filter}
use rnostr.Db.Key.{IndexKey}
use rnostr.Db.MatchIndex.{MatchIndex}
use rnostr.Db.Query.Open.{Iter}
use rnostr.Db.Query.Read.{
  document, check_key, next_key, read_event, try_key, read_key, next_inner, iter_next, for_each,
  limit,
}
use rnostr.Db.Query.Keys.{FoundKey}
use rnostr.Db.Query.Sound.{Checked, Good, count_data-Good, next_key-Good, check_key-Good}
use rnostr.Kv.Lmdb.{Ffi, Tree, next}
use rnostr.Kv.Lmdb.Iter.{Cursor, Item}
use rnostr.Kv.Lmdb.Moves.{Reads}
use rnostr.Kv.Scanner.Groups.{transposed}
use rnostr.Db.Tables.{get_event_by_uid}

module _ (ffi : Ffi) (codec : Codec) {R : Type 0} (r : FromEventData R) where
  -- An event that is read for a key that is held under one of the prefixes, of a time that the
  -- filter asks for, and whose index matches what the prefixes do not tell.
  pub record Found (reader : ffi.Txn) (f : Filter) (prefixes : List Bytes) (Held : Item → Type 0)
      (mi : MatchIndex) (event : R) : Type 0 where
    pub key : IndexKey
    pub found : FoundKey f prefixes Held key
    pub read : (get_event_by_uid ffi codec r (to_be 8 key.uid) reader).0 ≡ ok (some event)
    pub checked : Checked ffi codec mi f reader key

  module _ (C : Cursor) (steps : ℕ) (open_cursor : ffi.Txn → Tree → Outcome C.Cur)
      (reader : ffi.Txn) (f : Filter) (prefixes : List Bytes) (rd : Reads C) (mi : MatchIndex) where
    abbrev Fit : Iter C ffi.Txn → Type 0
    Fit it = Good ffi codec C steps open_cursor reader f prefixes rd mi it

    abbrev FoundEvent : R → Type 0
    FoundEvent event = Found reader f prefixes rd.Held mi event

    -- A step that leaves the iterator as it should be, and whose event is found.
    abbrev Sound : Outcome (Option R) × Iter C ffi.Txn → Type 0
    Sound m = Fit m.1 × ((event : R) → m.0 ≡ ok (some event) → FoundEvent event)

    try_key-Sound :
        (key : IndexKey) (it : Iter C ffi.Txn)
        → FoundKey f prefixes rd.Held key
        → Fit it
        → Sound (try_key ffi codec C steps r key it)
    unfolding try_key read_event document
    try_key-Sound key it k h =
        split (check_key ffi codec C steps it.match_index key it)
          (check_key-Good ffi codec C steps open_cursor reader f prefixes rd mi key it h)
      where
        split :
            (m : Outcome Bool × Iter C ffi.Txn)
            → Fit m.1 × (m.0 ≡ ok true → Checked ffi codec mi f reader key)
            → Sound (next m (read_event ffi codec C steps r key))
        split (ok false, u) (g, c) = (g, λ event e. absurd (cc e))
        split (ok true, u) (g, c) = (
          count_data-Good ffi codec C steps open_cursor reader f prefixes rd mi u g,
          λ event e. record {
            key = key;
            found = k;
            read =
                subst (λ w. (get_event_by_uid ffi codec r (to_be 8 key.uid) w).0 ≡ ok (some event))
                  g.reader_same e;
            checked = c refl;
          },
        )
        split (err x, u) (g, c) = (g, λ event e. absurd (cc e))
        split (panicked, u) (g, c) = (g, λ event e. absurd (cc e))

    -- A round of the loop, and the answer of the loop.
    abbrev SoundAnswer : Option (Outcome (Option R)) × Iter C ffi.Txn → Type 0
    SoundAnswer m = Fit m.1 × ((event : R) → m.0 ≡ some (ok (some event)) → FoundEvent event)

    read_key-Sound :
        (item : Option (Outcome IndexKey)) (it : Iter C ffi.Txn)
        → ((key : IndexKey) → item ≡ some (ok key) → FoundKey f prefixes rd.Held key)
        → Fit it
        → SoundAnswer (read_key ffi codec C steps r item it)
    unfolding read_key
    read_key-Sound none it k h = (h, λ event e. absurd (cc e))
    read_key-Sound (some (err x)) it k h = (h, λ event e. absurd (cc e))
    read_key-Sound (some panicked) it k h = (h, λ event e. absurd (cc e))
    read_key-Sound (some (ok key)) it k h =
        split (try_key ffi codec C steps r key it) (try_key-Sound key it (k key refl) h)
      where
        split :
            (m : Outcome (Option R) × Iter C ffi.Txn)
            → Sound m
            → SoundAnswer (
              elim m.0 as (λ _. Option (Outcome (Option R))) [
                | ok none ↦ none
                | ok (some event) ↦ some (ok (some event))
                | err x ↦ some (err x)
                | panicked ↦ some panicked
              ],
              m.1,
            )
        split (ok none, u) (g, c) = (g, λ event e. absurd (cc e))
        split (ok (some x), u) (g, c) = (g, λ event e. c event (cc e))
        split (err x, u) (g, c) = (g, λ event e. absurd (cc e))
        split (panicked, u) (g, c) = (g, λ event e. absurd (cc e))

    next_inner-Sound :
        (fuel : ℕ) (it : Iter C ffi.Txn) (m : Outcome (Option R) × Iter C ffi.Txn)
        → Fit it
        → next_inner ffi codec C steps r fuel it ≡ some m
        → Sound m
    unfolding next_inner
    next_inner-Sound zero it m h e = absurd (cc e)
    next_inner-Sound (suc fuel) it m h e =
        split (λ u g q. next_inner-Sound fuel u m g q) (next_key ffi codec C steps it)
          (λ item t q.
            next_key-Good ffi codec C steps open_cursor reader f prefixes rd mi it t item h q)
          e
      where
        answered :
            ((u : Iter C ffi.Txn)
              → Fit u
              → next_inner ffi codec C steps r fuel u ≡ some m
              → Sound m)
            → (a : Option (Outcome (Option R)) × Iter C ffi.Txn) → SoundAnswer a
            → (elim a.0 as (λ _. Option (Outcome (Option R) × Iter C ffi.Txn)) [
              | none ↦ next_inner ffi codec C steps r fuel a.1
              | some x ↦ some (x, a.1)
            ])
              ≡ some m
            → Sound m
        answered ih (none, u) (g, c) q = ih u g q
        answered ih (some x, u) (g, c) q =
            let sound : Sound (x, u) = (g, λ event p. c event (ap some p)) in
            let same : ◌≡◌ {A = Outcome (Option R) × Iter C ffi.Txn} (x, u) m = cc q in
            subst Sound same sound

        split :
            ((u : Iter C ffi.Txn)
              → Fit u
              → next_inner ffi codec C steps r fuel u ≡ some m
              → Sound m)
            → (n : Option (Option (Outcome IndexKey) × Iter C ffi.Txn))
            → ((item : Option (Outcome IndexKey)) (t : Iter C ffi.Txn)
                → n ≡ some (item, t)
                → Fit t
                  × ((key : IndexKey) → item ≡ some (ok key) → FoundKey f prefixes rd.Held key))
            → (elim n as (λ _. Option (Outcome (Option R) × Iter C ffi.Txn)) [
              | none ↦ none
              | some (item, t) ↦
                  let a = read_key ffi codec C steps r item t in
                  elim a.0 as (λ _. Option (Outcome (Option R) × Iter C ffi.Txn)) [
                    | none ↦ next_inner ffi codec C steps r fuel a.1
                    | some x ↦ some (x, a.1)
                  ]
            ])
              ≡ some m
            → Sound m
        split ih none k q = absurd (cc q)
        split ih (some (item, t)) k q =
            let (g, found) = k item t refl in
            answered ih (read_key ffi codec C steps r item t) (read_key-Sound item t found g) q

    -- What the iterator gives.
    abbrev SoundItem : Option (Outcome R) × Iter C ffi.Txn → Type 0
    SoundItem m = Fit m.1 × ((event : R) → m.0 ≡ some (ok event) → FoundEvent event)

    transposed-Sound :
        (m : Outcome (Option R) × Iter C ffi.Txn) → Sound m → SoundItem (transposed m.0, m.1)
    transposed-Sound (ok none, u) (g, c) = (g, λ event e. absurd (cc e))
    transposed-Sound (ok (some x), u) (g, c) = (g, λ event e. c event (ap ok (cc e)))
    transposed-Sound (err x, u) (g, c) = (g, λ event e. absurd (cc e))
    transposed-Sound (panicked, u) (g, c) = (g, λ event e. absurd (cc e))

    iter_next-Sound :
        (fuel : ℕ) (it : Iter C ffi.Txn) (m : Option (Outcome R) × Iter C ffi.Txn)
        → Fit it
        → iter_next ffi codec C steps r fuel it ≡ some m
        → SoundItem m
    unfolding iter_next
    iter_next-Sound fuel it m h e = by_limit (limit ffi codec C steps it.filter.limit it.get_data) e
      where
        same_item :
            (n : Option (Outcome R) × Iter C ffi.Txn) → some n ≡ some m → SoundItem n → SoundItem m
        same_item n q s = let same : n ≡ m = cc q in subst SoundItem same s

        inner :
            (n : Option (Outcome (Option R) × Iter C ffi.Txn))
            → ((x : Outcome (Option R) × Iter C ffi.Txn) → n ≡ some x → Sound x)
            → (elim n as (λ _. Option (Option (Outcome R) × Iter C ffi.Txn)) [
              | none ↦ none
              | some (a, u) ↦ some (transposed a, u)
            ])
              ≡ some m
            → SoundItem m
        inner none k q = absurd (cc q)
        inner (some x) k q = same_item _ q (transposed-Sound x (k x refl))

        by_limit :
            (b : Bool)
            → (if b
                then some (none, it)
                else elim (next_inner ffi codec C steps r fuel it)
                    as (λ _. Option (Option (Outcome R) × Iter C ffi.Txn)) [
                      | none ↦ none
                      | some (a, u) ↦ some (transposed a, u)
                    ])
              ≡ some m
            → SoundItem m
        by_limit true q = same_item _ q (h, λ event p. absurd (cc p))
        by_limit false q =
            inner (next_inner ffi codec C steps r fuel it) (λ x p. next_inner-Sound fuel it x h p) q

    pub for_each-Found :
        (fuel : ℕ) (it : Iter C ffi.Txn) (end : Outcome (Unit {0})) (events : List R)
        → Fit it
        → for_each ffi codec C steps r fuel it ≡ some (end, events)
        → All FoundEvent events
    unfolding for_each
    for_each-Found zero it end events h e = absurd (cc e)
    for_each-Found (suc fuel) it end events h e =
        split (λ u l g q. for_each-Found fuel u end l g q) (iter_next ffi codec C steps r fuel it)
          (λ m q. iter_next-Sound fuel it m h q) e
      where
        later :
            (x : R) (n : Option (Outcome (Unit {0}) × List R))
            → FoundEvent x
            → ((l : List R) → n ≡ some (end, l) → All FoundEvent l)
            → (elim n as (λ _. Option (Outcome (Unit {0}) × List R)) [
              | none ↦ none
              | some (stop, l) ↦ some (stop, x ∷ l)
            ])
              ≡ some (end, events)
            → All FoundEvent events
        later x none f k q = absurd (cc q)
        later x (some (stop, l)) f k q =
            let ends : ◌≡◌ {A = Option (Outcome (Unit {0}) × List R)} (some (stop, l))
                (some (end, l)) =
              cc in
            let same : x ∷ l ≡ events = cc q in subst (All FoundEvent) same (f, k l ends)

        split :
            ((u : Iter C ffi.Txn) (l : List R)
              → Fit u
              → for_each ffi codec C steps r fuel u ≡ some (end, l)
              → All FoundEvent l)
            → (n : Option (Option (Outcome R) × Iter C ffi.Txn))
            → ((m : Option (Outcome R) × Iter C ffi.Txn) → n ≡ some m → SoundItem m)
            → (elim n as (λ _. Option (Outcome (Unit {0}) × List R)) [
              | none ↦ none
              | some (none, u) ↦ some (ok tt, [])
              | some (some (err x), u) ↦ some (err x, [])
              | some (some panicked, u) ↦ some (panicked, [])
              | some (some (ok event), u) ↦
                  elim (for_each ffi codec C steps r fuel u)
                    as (λ _. Option (Outcome (Unit {0}) × List R)) [
                      | none ↦ none
                      | some (stop, l) ↦ some (stop, event ∷ l)
                    ]
            ])
              ≡ some (end, events)
            → All FoundEvent events
        split ih none k q = absurd (cc q)
        split ih (some (none, u)) k q =
            let same : [] ≡ events = cc q in subst (All FoundEvent) same tt
        split ih (some (some (err x), u)) k q =
            let same : [] ≡ events = cc q in subst (All FoundEvent) same tt
        split ih (some (some panicked, u)) k q =
            let same : [] ≡ events = cc q in subst (All FoundEvent) same tt
        split ih (some (some (ok x), u)) k q =
            let (g, c) = k (some (ok x), u) refl in
            later x (for_each ffi codec C steps r fuel u) (c x refl) (λ l p. ih u l g p) q
