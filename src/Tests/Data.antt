-- ===== src/Tests/Data.antt =====
-- Filters and events for the tests.
use rnostr.Prelude.Order.{bytes_ord, nat_ord}
use rnostr.Prelude.{false, none, some, [], ◌∷◌}
use rnostr.Std.Text.{codes}
use rnostr.Db.Event.{EventIndex}
use rnostr.Db.Filter.{Filter}

abbrev pub any_event : Filter
any_event = record {
  ids = [];
  authors = [];
  kinds = [];
  since = none;
  until = none;
  limit = none;
  search = none;
  tags = [];
  desc = false;
  words = [];
}

abbrev pub by_alice : Filter
by_alice = record any_event { authors = (65 ∷ []) ∷ [] }

abbrev pub by_kind_one : Filter
by_kind_one = record any_event { kinds = 1 ∷ 7 ∷ [] }

abbrev pub tagged : Filter
tagged = record any_event { tags = (codes "t", codes "nostr" ∷ []) ∷ []; since = some 10 }

abbrev pub note : EventIndex
note = record {
  id = 1 ∷ [];
  pubkey = 66 ∷ [];
  created_at = 20;
  kind = 1;
  tags = (codes "t", codes "nostr") ∷ [];
  expiration = none;
  delegator = none;
}

abbrev pub delegated : EventIndex
delegated = record note { delegator = some (65 ∷ []) }
