-- ===== src/Db/Query/Read.antt =====
-- db/src/db.rs: the events that an iterator gives, and their number.
use rnostr.Prelude.Order.{Bytes}
use rnostr.Prelude.{
  ℕ, zero, suc, ◌+◌, ◌%◌, Bool, true, false, ◌&&◌, Option, none, some, List, [], ◌∷◌, ltb, leb,
  if◌then◌else◌,
}
use rnostr.Std.Words.{to_be, u64_mod}
use rnostr.Db.Error.{Outcome, ok, err, panicked, scan_timeout}
use rnostr.Db.Event.{EventIndex}
use rnostr.Db.Codec.{Codec, FromEventData}
use rnostr.Db.Key.{IndexKey}
use rnostr.Db.MatchIndex.{MatchIndex, is_match}
use rnostr.Db.Query.{index_keys, node_item}
use rnostr.Db.Query.Open.{Iter}
use rnostr.Kv.Lmdb
use rnostr.Kv.Lmdb.{Ffi, Act, pure, ◌>>=◌}
use rnostr.Kv.Lmdb.Iter.{Cursor}
use rnostr.Kv.Scanner.Groups.{Watcher, watch_all, group_next, transposed}
use rnostr.Db.Tables.{t_index, get_event_by_uid}

pub record Stats : Type 0 where
  pub scan_index : ℕ
  pub get_data : ℕ
  pub get_index : ℕ

unfoldable pub decode_event_index : Codec → Option Bytes → Outcome (Option EventIndex)
decode_event_index codec none = ok none
decode_event_index codec (some v) = ok (some (codec.archived_index v))

module _ (ffi : Ffi) (codec : Codec) (C : Cursor) (steps : ℕ) where
  abbrev pub Events : Type 0
  Events = Iter C ffi.Txn

  -- `Iter::document`: reading changes nothing in the transaction.
  unfoldable pub document : {R : Type 0} → FromEventData R → IndexKey → Events → Outcome (Option R)
  unfolding get_event_by_uid
  document r key it = (get_event_by_uid ffi codec r (to_be 8 key.uid) it.reader).0

  unfoldable pub index_data : IndexKey → Events → Outcome (Option Bytes)
  unfolding Lmdb.get
  index_data key it = (Lmdb.get ffi t_index (to_be 8 key.uid) it.reader).0

  unfoldable pub limit : Option ℕ → ℕ → Bool
  limit none num = false
  limit (some l) num = leb l num

  abbrev pub count_data : Events → Events
  count_data it = record it { get_data = (it.get_data + 1) % u64_mod }

  abbrev pub count_index : Events → Events
  count_index it = record it { get_index = (it.get_index + 1) % u64_mod }

  -- Whether the event of a key is to be given: where the tree does not tell, by its index.
  unfoldable pub matches_found : Option EventIndex → Act Events Bool
  unfolding is_match
  matches_found none it = (ok false, it)
  matches_found (some event) it = (ok (is_match it.match_index it.filter event), it)

  unfoldable pub read_index : IndexKey → Events → Outcome (Option EventIndex)
  unfolding index_data decode_event_index
  read_index key it = elim (index_data key it) [
    | ok bytes ↦ decode_event_index codec bytes
    | err x ↦ err x
    | panicked ↦ panicked
  ]

  unfoldable pub check_index : IndexKey → Act Events Bool
  unfolding read_index matches_found
  check_index key it = elim (read_index key it) [
    | ok event ↦ matches_found event (count_index it)
    | err x ↦ (err x, it)
    | panicked ↦ (panicked, it)
  ]

  unfoldable pub check_key : MatchIndex → IndexKey → Act Events Bool
  unfolding check_index
  check_key MatchIndex.none key = pure true
  check_key MatchIndex.all key = check_index key
  check_key MatchIndex.pubkey key = check_index key

  -- The next key of the group; none is out of fuel.
  unfoldable pub next_key : Events → Option (Option (Outcome IndexKey) × Events)
  unfolding group_next index_keys node_item
  next_key it = elim (group_next index_keys (node_item C steps) steps it.group) [
    | none ↦ none
    | some (item, g) ↦ some (item, record it { group = g })
  ]

  module _ {R : Type 0} (r : FromEventData R) where
    unfoldable pub read_event : IndexKey → Bool → Act Events (Option R)
    unfolding document
    read_event key false it = (ok none, it)
    read_event key true it = (document r key it, count_data it)

    -- What a key comes to: an event to give, or none to go on.
    unfoldable pub try_key : IndexKey → Act Events (Option R)
    unfolding check_key read_event
    try_key key it = (check_key it.match_index key >>= read_event key) it

    -- A round of the loop: an answer, or none to go on.
    unfoldable pub read_key :
        Option (Outcome IndexKey) → Events → Option (Outcome (Option R)) × Events
    unfolding try_key
    read_key none it = (some (ok none), it)
    read_key (some (err x)) it = (some (err x), it)
    read_key (some panicked) it = (some panicked, it)
    read_key (some (ok key)) it =
        let (found, u) = try_key key it in
        (
          elim found [
            | ok none ↦ none
            | ok (some event) ↦ some (ok (some event))
            | err x ↦ some (err x)
            | panicked ↦ some panicked
          ],
          u,
        )

    -- `Iter::next_inner` on fuel; none is out of fuel.
    unfoldable pub next_inner : ℕ → Events → Option (Outcome (Option R) × Events)
    unfolding next_key read_key
    next_inner zero it = none
    next_inner (suc fuel) it = elim (next_key it) [
      | none ↦ none
      | some (item, t) ↦
          let (answer, u) = read_key item t in
          let rest = next_inner fuel u in elim answer [ none ↦ rest | some a ↦ some (a, u) ]
    ]

    -- `Iterator for Iter`.
    unfoldable pub iter_next : ℕ → Events → Option (Option (Outcome R) × Events)
    unfolding limit next_inner
    iter_next fuel it =
        if limit it.filter.limit it.get_data
        then some (none, it)
        else elim (next_inner fuel it) [ none ↦ none | some (a, u) ↦ some (transposed a, u) ]

    -- `for event in iter { let event = event?; ... }`: how the loop ends, and the events before it.
    unfoldable pub for_each : ℕ → Events → Option (Outcome (Unit {0}) × List R)
    unfolding iter_next
    for_each zero it = none
    for_each (suc fuel) it = elim (iter_next fuel it) [
      | none ↦ none
      | some (none, u) ↦ some (ok tt, [])
      | some (some (err x), u) ↦ some (err x, [])
      | some (some panicked, u) ↦ some (panicked, [])
      | some (some (ok event), u) ↦ elim (for_each fuel u) [
        | none ↦ none
        | some (end, events) ↦ some (end, event ∷ events)
      ]
    ]

  -- The next key of the group for `Iter::size`, counted if its event is to be.
  unfoldable pub size_round : IndexKey → ℕ → Act Events (ℕ × Bool)
  unfolding check_key
  size_round key len it =
      (check_key it.match_index key >>= λ counted.
      pure (if counted then ((len + 1) % u64_mod, true) else (len, false)))
        it

  -- `Iter::stats`.
  unfoldable pub stats : Events → Stats
  stats it = record {
    scan_index = it.group.scan_times;
    get_data = it.get_data;
    get_index = it.get_index;
  }

  -- The loop of `size` on fuel.
  unfoldable pub size_loop : ℕ → ℕ → Events → Option (Outcome ℕ × Events)
  unfolding next_key size_round limit
  size_loop zero len it = none
  size_loop (suc fuel) len it = elim (next_key it) [
    | none ↦ none
    | some (none, t) ↦ some (ok len, t)
    | some (some (err x), t) ↦ some (err x, t)
    | some (some panicked, t) ↦ some (panicked, t)
    | some (some (ok key), t) ↦
        let (r, u) = size_round key len t in
        elim r [
          | err x ↦ some (err x, u)
          | panicked ↦ some (panicked, u)
          | ok (n, counted) ↦
              let rest = size_loop fuel n u in
              if counted && limit u.filter.limit n then some (ok n, u) else rest
        ]
  ]

  -- `Iter::size`: the events are counted and not read.
  unfoldable pub size : ℕ → Events → Option (Outcome (ℕ × Stats))
  unfolding size_loop stats
  size fuel it = elim (size_loop fuel 0 it) [
    | none ↦ none
    | some (ok len, u) ↦ some (ok (len, record (stats u) { get_data = 0 }))
    | some (err x, u) ↦ some (err x)
    | some (panicked, u) ↦ some panicked
  ]

  -- The closure of `Iter::scan_time`: after each `check_step` keys it looks at the clock. `late` tells
  -- whether the time is over when so many keys were scanned.
  unfoldable pub timer : (ℕ → Bool) → ℕ → Watcher
  timer late check_step = record {
    last = check_step;
    check = λ last count.
        if ltb last count
        then (if late count then err scan_timeout else ok ((count + check_step) % u64_mod))
        else ok last;
  }

  unfoldable pub scan_time : (ℕ → Bool) → ℕ → Events → Events
  unfolding timer watch_all index_keys node_item
  scan_time late check_step it = record it {
    group = watch_all index_keys (node_item C steps) (timer late check_step) it.group;
  }
