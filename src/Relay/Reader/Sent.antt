-- ===== src/Relay/Reader/Sent.antt =====
-- What a client is sent for a request (relay/src/reader.rs): events that it asked for, and one end.
use rnostr.Prelude.Order.{Bytes}
use rnostr.Prelude.{◌≡◌, ◌⊎◌, List, [], ◌∷◌}
use rnostr.Db.Filter.{Filter}
use rnostr.Db.Codec.{Codec, string_data}
use rnostr.Db.Query.Open.{Iter}
use rnostr.Db.Query.Chosen.{prefixes, tree_of, left_to_check}
use rnostr.Db.Query.Given.{Found}
use rnostr.Kv.Lmdb.{Ffi, Documented}
use rnostr.Kv.Lmdb.Cursors.{Held}
use rnostr.Relay.Message.{OutgoingMessage}
use rnostr.Relay.Reader.{ReadEvent, ReadEventResult}

module _ (ffi : Ffi) (doc : Documented ffi) (codec : Codec) where
  -- An event that a filter asks for: it is stored under the uid of an entry, which the tree for the
  -- filter holds under a prefix of the filter and with a time in its range, and its index matches
  -- what the prefix does not tell.
  abbrev pub Asked : ffi.Txn → Filter → Bytes → Type 0
  Asked reader f event =
      Found ffi codec string_data reader f (prefixes f) (Held ffi doc reader (tree_of f))
        (left_to_check f) event

  -- One of the filters asks for it.
  abbrev pub AskedBy : ffi.Txn → List Filter → Bytes → Type 0
  AskedBy reader [] event = ⊥
  AskedBy reader (f ∷ fs) event = Asked reader f event ⊎ AskedBy reader fs event

  -- An answer to a request: for its client and its subscription, and an event only if asked for.
  pub record Justified (reader : ffi.Txn) (msg : ReadEvent) (res : ReadEventResult) : Type 0 where
    pub id_same : res.id ≡ msg.id
    pub sub_same : res.sub_id ≡ msg.subscription.id
    pub asked :
        (sub event : Bytes)
        → res.msg ≡ OutgoingMessage.event_msg sub event
        → AskedBy reader msg.subscription.filters event
