-- ===== src/Lib.antt =====
-- rnostr, a Nostr relay in Rust: a model of the parts that decide which messages are taken, what is
-- stored under which key, which events a filter matches and which subscriptions an event is sent to.
--
-- The program. `db/` holds events, filters, the keys of the index trees and the store on top of
-- lmdb (`kv/`); `relay/` holds the sessions, the messages and the subscriber, an actor that keeps
-- every open subscription and calls those that an event matches; `extensions/` adds permissions
-- and quotas. A session parses and validates a text, shows it to the extensions in turn, and hands
-- it to the server if they all go on; the server asks the writer, the reader and the subscriber.
--
-- The files.
--   Prelude: native numbers, lists, Boolean tests, the total orders, association lists.
--   Std: what the code uses of Rust's library: big-endian words, `sort` and `dedup`,
--     `binary_search_by`, `u64::from_str`, `split`, `strip_prefix`.
--   Db.Error: db/src/error.rs; `Outcome` is `Result`, with a panic as a third outcome.
--   Db.Event: db/src/event.rs, `EventIndex` and `build_index_tags`.
--   Db.Validate: db/src/event.rs, `Event` and the checks of `Event::validate`.
--   Db.Filter: db/src/filter.rs: `SortList`, `Filter`, `match` and its parts, `set_tags`, and
--     `TryFrom<_Filter>`.
--   Db.Key: db/src/key.rs: every index key, `IndexKey::from`, `change_time`, the replace keys.
--   Db.Store: db/src/db.rs, `upper` and the answers of the store.
--   Db.Codec: db/src/event.rs, the forms in which an event is stored and read.
--   Db.Tables: db/src/db.rs, the trees, `put_event`, `del_event` and the reading of an event;
--     Db.Tables.Puts has `put`, `get` (here `get_by_id`) and `del`, Db.Tables.Puts.Reopened
--     `latest_seq` and what `open` does with it, Db.Tables.Batches the batches.
--   Db.Query: db/src/db.rs, the scanners of a query; in Db.Query.Open `Db::iter`, `iter_expiration`
--     and `iter_ephemeral` with the constructors of `Iter`, in Db.Query.Read `next`, `size` and
--     `scan_time`; Db.MatchIndex is `MatchIndex`.
--   Kv.Lmdb: kv/src/lmdb.rs, `get`, `put` and `del` of a transaction; Kv.Lmdb.Iter the iterators,
--     Kv.Lmdb.Moves how they move their cursors.
--   Kv.Scanner: kv/src/scanner.rs: `SortedKeyList`, in Kv.Scanner.Groups `Group`, in Kv.Scanner.Scan
--     `Scanner`.
--   Relay.Message: relay/src/message.rs, the messages, `validate` (here `validate_message`) and
--     `validate_nip70`; Relay.Message.Parsing has `visit_seq`. `Limitation` is from
--     relay/src/setting.rs.
--   Relay.Session: relay/src/session.rs, `handle_message` and `send_error`, and
--     relay/src/extension.rs, `call_message`.
--   Relay.Server: relay/src/server.rs, the handlers of the server; what it sends is a list of effects.
--   Relay.Writer: relay/src/writer.rs, the events that wait, `write` and `do_write`;
--     Relay.Writer.Deletes has `del_expired`, `del_ephemeral` and `do_del`.
--   Relay.Reader: relay/src/reader.rs, `read` and the handler (here `on_read`).
--   Relay.Subscriber: relay/src/subscriber.rs: `SubscriberIndex` with `add`, `remove` (here
--     `remove_sub`), `lookup` and `lookup1`; Relay.Subscriber.Steps has the handlers as steps.
--   Extensions.Auth: extensions/src/auth.rs, `verify_permission`, `connected` and `message` (here
--     `auth_message`).
--   Extensions.RateLimiter: extensions/src/rate_limiter.rs, `hit` and `message` (here
--     `limiter_message`).
--   Extensions.Count: extensions/src/count.rs, `count` and `message` (here `count_message`).
--   Extensions.Search: extensions/src/search.rs, `message` (here `search_message`), with `segment`,
--     `build_words` and `build_note_words` of db/.
--   Tests: concrete runs.
--
-- How the code corresponds. A byte string (`Vec<u8>`, `[u8; 32]`, `&str`) is the list of its
-- bytes, a hash map an association list, `u16` and `u64` numbers below their modulus. A method
-- that changes `self` takes the state and returns it. `Rc<Filter>` is a filter with the address of
-- its allocation, and a `Weak` is live while a subscription owns that address; addresses are taken
-- from a counter in the state. A callback is the list of its calls, and what is sent is a list
-- too. What is foreign is a parameter: hashes, signatures, hexadecimal, JSON, archives, the
-- limiters, and the C library lmdb, of which `Documented` says what its entries are after each
-- call, and `DocumentedCursor` that a cursor gives entries of the tree that it was opened on. Code that works on a transaction gives its result and the transaction, which keeps what
-- was written before an error. The binary search runs on as much fuel as its window is wide, which
-- its proof shows to be enough; the loops of the scanners run on fuel: for an intersection, one
-- round more than all scanners have left is enough, and for a scanner without a range of time one
-- more than its iterator has left. A query has one number `steps` for the rounds of
-- each of its loops, over keys, over groups and over events: how many are needed depends on the
-- trees, so what is shown of a query is shown of the answers that come, not that one comes, and a scan inside a group that
-- is out of fuel gives none, as one that panics. The clock of a query is a function of the keys that
-- a group has scanned. All other loops are structural.
--
-- Not modelled: opening of the environment and the trees, JSON, the settings, the metrics
-- extension, and the actor system with its timers.
pub mod Prelude
pub mod Std
pub mod Db
pub mod Extensions
pub mod Kv
pub mod Relay
pub mod Tests
