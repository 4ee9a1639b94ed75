-- ===== src/Relay/Writer.antt =====
-- relay/src/writer.rs: the events that wait to be written, and what becomes of them. An
-- environment gives a transaction and commits it.
pub mod Answers
pub mod Deletes
use rnostr.Prelude.Order.{Bytes}
use rnostr.Prelude.{ℕ, Bool, true, false, List, [], ◌∷◌, ◌++◌, is_empty, if◌then◌else◌}
use rnostr.Db.Error.{Outcome, ok, err, panicked}
use rnostr.Db.Validate.{Event, Crates}
use rnostr.Db.Store.{CheckEventResult}
use rnostr.Db.Codec.{Codec}
use rnostr.Kv.Lmdb.{Ffi, Act, pure, ◌>>=◌}
use rnostr.Db.Tables.Puts.{Store, put, del}
use rnostr.Relay.Message.{OutgoingMessage, text}
use rnostr.Relay.Server.{WriteEventResult}

pub record WriteEvent : Type 0 where
  pub id : ℕ
  pub event : Event

-- The events that wait, the latest first: `pop` takes the latest.
pub record Writer : Type 0 where
  pub events : List WriteEvent
  pub seq : ℕ

-- `Handler<WriteEvent>`.
unfoldable pub on_event : WriteEvent → Writer → Writer
on_event e w = record w { events = e ∷ w.events }

-- The beginning of a transaction, which may fail, and its commit.
pub record Env (Txn : Type 0) : Type 0 where
  pub begin : Outcome Txn
  pub commit : Txn → Outcome (Unit {0})

-- How a run ends: its outcome, the writer, and what was sent on the way.
pub record Run : Type 0 where
  pub outcome : Outcome (Unit {0})
  pub writer : Writer
  pub sent : List WriteEventResult

module _ (ffi : Ffi) (codec : Codec) (crates : Crates) where
  -- What is sent for an event by the outcome of `put`; nothing where it panics.
  unfoldable pub write_result : WriteEvent → Outcome CheckEventResult → List WriteEventResult
  write_result e (ok result) = WriteEventResult.write e.id e.event result ∷ []
  write_result e (err x) =
      WriteEventResult.reply e.id e.event (
        OutgoingMessage.ok_msg (crates.hex_encode e.event.index.id) false
          (text "write event error"))
      ∷ []
  write_result e panicked = []

  -- How the loop over the events that wait ends: the store, the events left, and what was sent.
  abbrev pub Loop : Type 0
  Loop = Outcome (Unit {0}) × Store ffi.Txn × List WriteEvent × List WriteEventResult

  -- A panic ends the loop.
  unfoldable pub after_put : WriteEvent → Outcome CheckEventResult → Loop → Loop → Loop
  after_put e panicked stopped rest = stopped
  after_put e r stopped rest = (rest.0, rest.1, rest.2, write_result e r ++ rest.3)

  unfoldable pub write_all : List WriteEvent → Store ffi.Txn → Loop
  unfolding put after_put write_result
  write_all [] s = (ok tt, s, [], [])
  write_all (e ∷ es) s =
      let (r, t) = put ffi codec e.event s in after_put e r (panicked, t, es, []) (write_all es t)

  -- `Writer::write`; a transaction that is not committed is aborted.
  unfoldable pub write : Env ffi.Txn → Writer → Run
  unfolding write_all
  write env w =
      if is_empty w.events
      then record { outcome = ok tt; writer = w; sent = [] }
      else (elim env.begin [
        | err x ↦ record { outcome = err x; writer = w; sent = [] }
        | panicked ↦ record { outcome = panicked; writer = w; sent = [] }
        | ok txn ↦
            let (o, s, rest, sent) = write_all w.events (record { txn = txn; seq = w.seq }) in
            record {
              outcome = elim o [ ok _ ↦ env.commit s.txn | err x ↦ err x | panicked ↦ panicked ];
              writer = record { events = rest; seq = s.seq };
              sent = sent;
            }
      ])

  -- `Writer::do_write`: an error is only logged.
  unfoldable pub do_write : Env ffi.Txn → Writer → Writer × List WriteEventResult
  unfolding write
  do_write env w = let r = write env w in (r.writer, r.sent)
