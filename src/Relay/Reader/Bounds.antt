-- ===== src/Relay/Reader/Bounds.antt =====
-- How much a client is sent for a request (relay/src/reader.rs).
use rnostr.Prelude.Order.{Bytes}
use rnostr.Prelude.{
  ℕ, ◌+◌, ◌≤◌, ◌<◌, ◌≡◌, refl, ap, subst, ◌∙◌, Option, none, some, List, [], ◌∷◌, ◌++◌, All, length,
  length-append, arith, Bool,
}
use rnostr.Std.Words.{u64_mod}
use rnostr.Db.Error.{Outcome, ok, err, panicked}
use rnostr.Db.Filter.{Filter}
use rnostr.Db.Codec.{Codec, string_data}
use rnostr.Db.Query.Open.{Iter, iter}
use rnostr.Db.Query.Read.{for_each}
use rnostr.Relay.Reader.Timed.{timed-Opened}
use rnostr.Db.Query.Limits.{for_each-le}
use rnostr.Kv.Lmdb.{Tree, Ffi}
use rnostr.Kv.Lmdb.Iter.{Cursor}
use rnostr.Kv.Lmdb.Moves.{any_reads}
use rnostr.Relay.Message.{OutgoingMessage, get_event_error}
use rnostr.Relay.Reader.{
  ReadEvent, ReadEventResult, result, read_filter, timed, then_others, read_filters, event_results,
  read_sent, closing, on_read,
}
use rnostr.Relay.Reader.Ends.{all_sent, answered}

-- The limits of all filters together.
abbrev pub limit_of : Filter → ℕ
limit_of f = elim f.limit [ none ↦ 0 | some l ↦ l ]

abbrev pub total_limit : List Filter → ℕ
total_limit [] = 0
total_limit (f ∷ fs) = limit_of f + total_limit fs

-- A filter has a limit, and reading so many events and `steps` more counts below 2 ^ 64.
abbrev pub IsLimited : ℕ → Filter → Type 0
IsLimited steps f = (l : ℕ) × (f.limit ≡ some l) × (l + steps < u64_mod)

module _ (ffi : Ffi) (codec : Codec) (C : Cursor) (open_cursor : ffi.Txn → Tree → Outcome C.Cur)
    (steps : ℕ) (timeout : Option (ℕ → ℕ → Bool)) where
  read_filter-le :
      (reader : ffi.Txn) (left : ℕ) (f : Filter) (end : Outcome (Unit {0})) (events : List Bytes)
      → IsLimited steps f
      → read_filter ffi codec C open_cursor steps timeout reader left f ≡ some (end, events)
      → length events ≤ limit_of f
  unfolding read_filter
  read_filter-le reader left f end events (l, b, h) e =
      let limited : limit_of f ≡ l = ap (λ o. elim o as (λ _. ℕ) [ none ↦ 0 | some l ↦ l ]) b in
      let few = split (iter C steps open_cursor reader f) refl e in omega arith
    where
      split :
          (m : Outcome (Iter C ffi.Txn))
          → iter C steps open_cursor reader f ≡ m
          → (elim m as (λ _. Option (Outcome (Unit {0}) × List Bytes)) [
            | err x ↦ some (err x, [])
            | panicked ↦ some (panicked, [])
            | ok it ↦
                for_each ffi codec C steps string_data steps
                  (timed ffi codec C open_cursor steps timeout left it)
          ])
            ≡ some (end, events)
          → length events ≤ l
      split (ok it) q p =
          let opened =
            timed-Opened ffi codec C open_cursor steps timeout reader f left it (λ t. any_reads C)
              (λ t c o. tt) q in
          let few =
            for_each-le ffi codec C steps string_data steps
              (timed ffi codec C open_cursor steps timeout left it) l end events
              (ap (λ g. g.limit) opened.filter_same ∙ b) h p in
          omega arith
      split (err x) q p =
          let same : [] ≡ events = cc p in subst (λ es. length es ≤ l) same (omega arith)
      split panicked q p =
          let same : [] ≡ events = cc p in subst (λ es. length es ≤ l) same (omega arith)

  read_filters-le :
      (reader : ffi.Txn) (fs : List Filter) (end : Outcome (Unit {0})) (events : List Bytes)
      → All (IsLimited steps) fs
      → read_filters ffi codec C open_cursor steps timeout reader fs ≡ some (end, events)
      → length events ≤ total_limit fs
  unfolding read_filters then_others
  read_filters-le reader [] end events a e =
      let same : [] ≡ events = cc e in subst (λ es. length es ≤ 0) same (omega arith)
  read_filters-le reader (f ∷ fs) end events a e =
      split (read_filter ffi codec C open_cursor steps timeout reader (length fs) f)
        (read_filters ffi codec C open_cursor steps timeout reader fs)
        (λ end events p. read_filter-le reader (length fs) f end events a.0 p)
        (λ end events p. read_filters-le reader fs end events a.1 p) e
    where
      split :
          (m n : Option (Outcome (Unit {0}) × List Bytes))
          → ((end : Outcome (Unit {0})) (events : List Bytes)
              → m ≡ some (end, events)
              → length events ≤ limit_of f)
          → ((end : Outcome (Unit {0})) (events : List Bytes)
              → n ≡ some (end, events)
              → length events ≤ total_limit fs)
          → then_others ffi codec C open_cursor steps timeout m n ≡ some (end, events)
          → length events ≤ total_limit (f ∷ fs)
      split none n b c p = absurd (cc p)
      split (some (ok u, l)) none b c p = absurd (cc p)
      split (some (ok u, l)) (some (stop, m)) b c p =
          let same : l ++ m ≡ events = cc p in
          let few = b (ok u) l refl in
          let others = c stop m refl in
          let sum = length-append l m in
          subst (λ es. length es ≤ total_limit (f ∷ fs)) same (omega arith)
      split (some (err x, l)) n b c p =
          let same : l ≡ events = cc p in
          let few = b (err x) l refl in
          subst (λ es. length es ≤ total_limit (f ∷ fs)) same (omega arith)
      split (some (panicked, l)) n b c p =
          let same : l ≡ events = cc p in
          let few = b panicked l refl in
          subst (λ es. length es ≤ total_limit (f ∷ fs)) same (omega arith)

  length-event_results :
      (msg : ReadEvent) (events : List Bytes)
      → length (event_results ffi codec C open_cursor steps timeout msg events) ≡ length events
  length-event_results msg [] = refl
  length-event_results msg (x ∷ events) = omega (arith, length-event_results msg events)

  all_sent-le :
      (msg : ReadEvent) (end : Outcome (Unit {0})) (events : List Bytes)
      → length (all_sent ffi codec C open_cursor steps timeout msg (end, events))
        ≤ length events + 1
  unfolding read_sent closing
  all_sent-le msg (ok u) events =
      let es = event_results ffi codec C open_cursor steps timeout msg events in
      let last = result msg (OutgoingMessage.eose msg.subscription.id) ∷ [] in
      omega (
        arith,
        length-event_results msg events,
        length-append es last,
        length-append (es ++ last) [],
      )
  all_sent-le msg (err x) events = omega (
    arith,
    length-event_results msg events,
    length-append (event_results ffi codec C open_cursor steps timeout msg events)
        (result msg (OutgoingMessage.closed msg.subscription.id (get_event_error x)) ∷ []),
  )
  all_sent-le msg panicked events = omega (
    arith,
    length-event_results msg events,
    length-append (event_results ffi codec C open_cursor steps timeout msg events) [],
  )

  -- Where each filter has a limit, and the limit and the steps of a scan count below 2 ^ 64, a
  -- client is sent no more messages for a request than the limits of its filters together, and one.
  pub on_read-le :
      (reader : ffi.Txn) (msg : ReadEvent) (sent : List ReadEventResult)
      → All (IsLimited steps) msg.subscription.filters
      → on_read ffi codec C open_cursor steps timeout (ok reader) msg ≡ some sent
      → length sent ≤ total_limit msg.subscription.filters + 1
  on_read-le reader msg sent a e =
      let ((end, events), q, same) =
        answered ffi codec C open_cursor steps timeout reader msg sent e in
      let few = read_filters-le reader msg.subscription.filters end events a q in
      let one = all_sent-le msg end events in
      subst (λ l. length l ≤ total_limit msg.subscription.filters + 1) same (omega arith)
