-- ===== src/Extensions/Count.antt =====
-- extensions/src/count.rs: the answer to a COUNT request. The beginning of a transaction, the
-- cursors and the clock are parameters.
use rnostr.Prelude.Order.{Bytes}
use rnostr.Prelude.{ℕ, Bool, Option, none, some, List, [], ◌∷◌, if◌then◌else◌}
use rnostr.Db.Error.{Outcome, ok, err, panicked}
use rnostr.Db.Codec.{Codec}
use rnostr.Db.Filter.{Filter}
use rnostr.Db.Query.Open.{iter}
use rnostr.Db.Query.Read.{Stats, size}
use rnostr.Kv.Lmdb.{Tree, Ffi}
use rnostr.Kv.Lmdb.Iter.{Cursor}
use rnostr.Relay.Message.{
  Subscription, IncomingMessage, ClientMessage, OutgoingMessage, count_event_error,
}
use rnostr.Relay.Reader.{timed}
use rnostr.Relay.Session.{ExtensionMessageResult}

module _ (ffi : Ffi) (codec : Codec) (C : Cursor) (open_cursor : ffi.Txn → Tree → Outcome C.Cur)
    (steps : ℕ) (timeout : Option (ℕ → ℕ → Bool)) where
  unfoldable pub number : Option (Outcome (ℕ × Stats)) → Option (Outcome ℕ)
  number none = none
  number (some (ok (n, stats))) = some (ok n)
  number (some (err x)) = some (err x)
  number (some panicked) = some panicked

  -- `Count::count`; none is out of fuel.
  unfoldable pub count : Outcome ffi.Txn → Filter → Option (Outcome ℕ)
  unfolding iter size timed number
  count (err x) filter = some (err x)
  count panicked filter = some panicked
  count (ok reader) filter = elim (iter C steps open_cursor reader filter) [
    | err x ↦ some (err x)
    | panicked ↦ some panicked
    | ok it ↦
        number (size ffi codec C steps steps (timed ffi codec C open_cursor steps timeout 0 it))
  ]

  unfoldable pub count_answer : Bytes → Outcome ℕ → Outcome ExtensionMessageResult
  count_answer id (ok n) = ok (ExtensionMessageResult.stop (OutgoingMessage.count_msg id n))
  count_answer id (err x) =
      ok (ExtensionMessageResult.stop (OutgoingMessage.closed id (count_event_error x)))
  count_answer id panicked = panicked

  -- Only the first filter of a request is counted.
  unfoldable pub count_subscription :
      Outcome ffi.Txn
      → ClientMessage
      → Subscription
      → List Filter
      → Option (Outcome ExtensionMessageResult)
  unfolding count count_answer
  count_subscription begin m sub [] = some (ok (ExtensionMessageResult.continue m))
  count_subscription begin m sub (f ∷ fs) = elim (count begin f) [
    | none ↦ none
    | some r ↦ some (count_answer sub.id r)
  ]

  -- `Count::message`; the session is not changed.
  unfoldable pub count_message :
      Outcome ffi.Txn → Bool → ClientMessage → Option (Outcome ExtensionMessageResult)
  unfolding count_subscription
  count_message begin enabled m =
      if enabled
      then elim m.msg [
        | IncomingMessage.count sub ↦ count_subscription begin m sub sub.filters
        | _ ↦ some (ok (ExtensionMessageResult.continue m))
      ]
      else some (ok (ExtensionMessageResult.continue m))
