-- ===== src/Db/MatchIndex.antt =====
-- db/src/db.rs: what an iterator checks on the index of an event.
use rnostr.Prelude.{Bool}
use rnostr.Db.Event.{EventIndex}
use rnostr.Db.Filter.{Filter, match, match_author}

-- What of the filter is left to check on the index of an event.
pub data MatchIndex : Type 0 where
  all pubkey none : MatchIndex

unfoldable pub is_match : MatchIndex → Filter → EventIndex → Bool
unfolding match match_author
is_match MatchIndex.pubkey filter event = match_author filter.authors event.pubkey event.delegator
is_match MatchIndex.all filter event = match filter event
is_match MatchIndex.none filter event = match filter event
