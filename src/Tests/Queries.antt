-- ===== src/Tests/Queries.antt =====
-- Requests to a store in memory, and the theorems on iterators and readers applied to them.
use rnostr.Prelude.Order.{Bytes, Bytes-discrete}
use rnostr.Prelude.{
  ℕ, Bool, Option, true, false, ltb, ◌++◌, ◌+◌, ◌≤◌, ◌≡◌, refl, none, some, List, [], ◌∷◌, length,
  replicate, ℕ_discrete, arith,
}
use rnostr.Std.Text.{codes}
use rnostr.Std.Words.{to_be, from_be}
use rnostr.Db.Error.{ok}
use rnostr.Db.Filter.{Filter}
use rnostr.Kv.Lmdb.{Tree-discrete, Entry-discrete, Entry}
use rnostr.Db.Tables.{entry, t_kind, t_tag, t_index, t_data}
use rnostr.Relay.Message.{OutgoingMessage, IncomingMessage}
use rnostr.Relay.Session.{ExtensionMessageResult}
use rnostr.Extensions.Count.{count_message}
use rnostr.Relay.Reader.{ReadEvent, ReadEventResult, result, on_read}
use rnostr.Relay.Reader.Bounds.{total_limit, on_read-le}
use rnostr.Tests.Trees.{memory, find_value, sees}
use rnostr.Tests.Cursors.{in_memory, open_in_memory, step}
use rnostr.Tests.Stores.{plain}

-- A number below 256 in 8 bytes.
abbrev in_eight : ℕ → Bytes
in_eight n = 0 ∷ 0 ∷ 0 ∷ 0 ∷ 0 ∷ 0 ∷ 0 ∷ n ∷ []

-- What is read of two events of the time 100, by their uid: the kind, the tag, the index, the data.
abbrev trees_of : ℕ → List Entry
trees_of uid =
    entry t_kind (0 ∷ 1 ∷ in_eight 100) (in_eight uid)
    ∷ entry t_tag (116 ∷ 0 ∷ 9 ∷ 0 ∷ in_eight 100) (in_eight uid ++ 0 ∷ 1 ∷ [])
    ∷ entry t_index (in_eight uid) (uid ∷ [])
    ∷ entry t_data (in_eight uid) (uid ∷ 125 ∷ [])
    ∷ []

abbrev both_stored : List Entry
both_stored = trees_of 1 ++ trees_of 2

-- Events of kind 1 after the time 50, at most 5.
abbrev kind_one : Filter
kind_one = record {
  ids = [];
  authors = [];
  kinds = 1 ∷ [];
  since = some 50;
  until = none;
  limit = some 5;
  search = none;
  tags = [];
  desc = true;
  words = [];
}

-- Events with the tag "t" of the value 9, of one author, the oldest first.
abbrev tagged : Filter
tagged = record kind_one {
  authors = replicate 32 7 ∷ [];
  kinds = [];
  tags = (codes "t", (9 ∷ []) ∷ []) ∷ [];
  desc = false;
}

-- A clock that stops a query after 50 keys, where it is asked.
abbrev patient : Option (ℕ → ℕ → Bool)
patient = some (λ left count. ltb 50 count)

abbrev request : ReadEvent
request = record {
  id = 3;
  subscription = record { id = codes "a"; filters = kind_one ∷ tagged ∷ [] };
}

abbrev sent_event : ℕ → ReadEventResult
sent_event id = result request (OutgoingMessage.event_msg (codes "a") (id ∷ 125 ∷ []))

abbrev answers : List ReadEventResult
answers =
    sent_event 2
    ∷ sent_event 1
    ∷ sent_event 1
    ∷ sent_event 2
    ∷ result request (OutgoingMessage.eose (codes "a"))
    ∷ []

reads_both :
    on_read memory plain in_memory open_in_memory 9 patient (ok both_stored) request ≡ some answers
unfolding on_read open_in_memory step Tree-discrete Bytes-discrete ℕ_discrete to_be from_be
    find_value sees Entry-discrete
reads_both = refl

on_read-le_example : length answers ≤ total_limit request.subscription.filters + 1
on_read-le_example =
    on_read-le memory plain in_memory open_in_memory 9 patient both_stored request answers
      ((5, refl, omega arith), ((5, refl, omega arith), tt)) reads_both

-- The events of the first filter are counted, and those of no other.
counts_two :
    count_message memory plain in_memory open_in_memory 9 patient (ok both_stored) true (record {
      id = 3;
      text = [];
      msg = IncomingMessage.count request.subscription;
      nip70_checked = false;
    })
    ≡ some (ok (ExtensionMessageResult.stop (OutgoingMessage.count_msg (codes "a") 2)))
unfolding count_message open_in_memory step Tree-discrete Bytes-discrete ℕ_discrete to_be from_be
    find_value sees Entry-discrete
counts_two = refl
