-- ===== src/Extensions/Search.antt =====
-- extensions/src/search.rs, and the words of filters and events (db/src/lib.rs, db/src/filter.rs,
-- db/src/event.rs). The segmentation of a text and its lower case are the crates'.
use rnostr.Prelude.Order.{Bytes, bytes_ord}
use rnostr.Prelude.{
  Bool, none, some, List, [], ◌∷◌, ◌++◌, map, is_empty, length, ltb, ◌==◌, if◌then◌else◌,
}
use rnostr.Std.Sort.{sort, dedup}
use rnostr.Db.Filter.{Filter}
use rnostr.Db.Validate.{Event}
use rnostr.Relay.Message.{IncomingMessage, ClientMessage}
use rnostr.Relay.Session.{ExtensionMessageResult}

-- Words of 255 bytes and more are dropped.
unfoldable pub short_words : List Bytes → List Bytes
short_words [] = []
short_words (w ∷ ws) = let rest = short_words ws in if ltb (length w) 255 then w ∷ rest else rest

module _ (segment_str : Bytes → List Bytes) (to_lowercase : Bytes → Bytes) where
  unfoldable pub segment : Bytes → List Bytes
  unfolding short_words sort dedup
  segment content = dedup (sort (short_words (map to_lowercase (segment_str content))))

  -- `Filter::build_words`.
  unfoldable pub build_words : Filter → Filter
  unfolding segment
  build_words f = elim f.search [
    | none ↦ f
    | some search ↦
        let words = segment search in if is_empty words then f else record f { words = words }
  ]

  unfoldable pub build_note_words : Event → Event
  unfolding segment
  build_note_words e =
      if e.index.kind == 1 then record e { words = e.words ++ segment e.content } else e

  unfoldable pub search_words : IncomingMessage → IncomingMessage
  unfolding build_words build_note_words
  search_words (IncomingMessage.event e) = IncomingMessage.event (build_note_words e)
  search_words (IncomingMessage.req sub) =
      IncomingMessage.req (record sub { filters = map build_words sub.filters })
  search_words m = m

  -- `Search::message`; the session is not changed.
  unfoldable pub search_message : Bool → ClientMessage → ExtensionMessageResult
  unfolding search_words
  search_message enabled m =
      if enabled
      then ExtensionMessageResult.continue (record m { msg = search_words m.msg })
      else ExtensionMessageResult.continue m
