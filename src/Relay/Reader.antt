-- ===== src/Relay/Reader.antt =====
-- relay/src/reader.rs: what is sent for a request to read the store. The beginning of a read
-- transaction, the cursors and the clock are parameters: `timeout` tells, if the time of a query is
-- limited, by the filters left and the keys scanned whether it is over.
pub mod Timed
pub mod Sent
pub mod Ends
pub mod Bounds
use rnostr.Prelude.Order.{Bytes}
use rnostr.Prelude.{ℕ, Bool, length, Option, none, some, List, [], ◌∷◌, ◌++◌, map}
use rnostr.Db.Error.{Outcome, ok, err, panicked}
use rnostr.Db.Filter.{Filter}
use rnostr.Db.Codec.{Codec, string_data}
use rnostr.Db.Query.Open.{Iter, iter}
use rnostr.Db.Query.Read.{for_each, scan_time}
use rnostr.Kv.Lmdb.{Tree, Ffi}
use rnostr.Kv.Lmdb.Iter.{Cursor}
use rnostr.Relay.Message.{Subscription, OutgoingMessage, get_event_error}

pub record ReadEvent : Type 0 where
  pub id : ℕ
  pub subscription : Subscription

pub record ReadEventResult : Type 0 where
  pub id : ℕ
  pub sub_id : Bytes
  pub msg : OutgoingMessage

-- The answer to a request, for its client and its subscription.
abbrev pub result : ReadEvent → OutgoingMessage → ReadEventResult
result msg m = record { id = msg.id; sub_id = msg.subscription.id; msg = m }

module _ (ffi : Ffi) (codec : Codec) (C : Cursor) (open_cursor : ffi.Txn → Tree → Outcome C.Cur)
    (steps : ℕ) (timeout : Option (ℕ → ℕ → Bool)) where
  -- How a part of the reading ends, and the events before; none is out of fuel.
  abbrev pub Events : Type 0
  Events = Option (Outcome (Unit {0}) × List Bytes)

  unfoldable pub timed : ℕ → Iter C ffi.Txn → Iter C ffi.Txn
  unfolding scan_time
  timed left it = elim timeout [
    | none ↦ it
    | some late ↦ scan_time ffi codec C steps (late left) 2_000 it
  ]

  unfoldable pub read_filter : ffi.Txn → ℕ → Filter → Events
  unfolding iter for_each string_data timed
  read_filter reader left filter = elim (iter C steps open_cursor reader filter) [
    | err x ↦ some (err x, [])
    | panicked ↦ some (panicked, [])
    | ok it ↦ for_each ffi codec C steps string_data steps (timed left it)
  ]

  -- After one filter, the others; an error ends the reading.
  unfoldable pub then_others : Events → Events → Events
  then_others none rest = none
  then_others (some (ok _, events)) none = none
  then_others (some (ok _, events)) (some (end, more)) = some (end, events ++ more)
  then_others (some (err x, events)) rest = some (err x, events)
  then_others (some (panicked, events)) rest = some (panicked, events)

  unfoldable pub read_filters : ffi.Txn → List Filter → Events
  unfolding read_filter then_others
  read_filters reader [] = some (ok tt, [])
  read_filters reader (f ∷ fs) =
      then_others (read_filter reader (length fs) f) (read_filters reader fs)

  abbrev pub event_results : ReadEvent → List Bytes → List ReadEventResult
  event_results msg events =
      map (λ e. result msg (OutgoingMessage.event_msg msg.subscription.id e)) events

  unfoldable pub read_sent :
      ReadEvent → Outcome (Unit {0}) × List Bytes → Outcome (Unit {0}) × List ReadEventResult
  read_sent msg (ok _, events) = (
    ok tt,
    event_results msg events ++ result msg (OutgoingMessage.eose msg.subscription.id) ∷ [],
  )
  read_sent msg (err x, events) = (err x, event_results msg events)
  read_sent msg (panicked, events) = (panicked, event_results msg events)

  -- `Reader::read`: how it ends, and what it has sent.
  unfoldable pub read :
      Outcome ffi.Txn → ReadEvent → Option (Outcome (Unit {0}) × List ReadEventResult)
  unfolding read_filters read_sent
  read (err x) msg = some (err x, [])
  read panicked msg = some (panicked, [])
  read (ok reader) msg = elim (read_filters reader msg.subscription.filters) [
    | none ↦ none
    | some r ↦ some (read_sent msg r)
  ]

  -- `Handler<ReadEvent>`: an error closes the subscription. A panic ends the actor.
  unfoldable pub closing : ReadEvent → Outcome (Unit {0}) → List ReadEventResult
  closing msg (ok _) = []
  closing msg (err x) =
      result msg (OutgoingMessage.closed msg.subscription.id (get_event_error x)) ∷ []
  closing msg panicked = []

  unfoldable pub on_read : Outcome ffi.Txn → ReadEvent → Option (List ReadEventResult)
  unfolding read closing
  on_read begin msg = elim (read begin msg) [
    | none ↦ none
    | some (end, sent) ↦ some (sent ++ closing msg end)
  ]
