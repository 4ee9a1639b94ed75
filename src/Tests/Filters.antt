-- ===== src/Tests/Filters.antt =====
-- Filters, tags and events, and the theorems about them applied.
use rnostr.Prelude.Order.{cmp_bytes, Bytes, Bytes-discrete, bytes_ord, nat_ord}
use rnostr.Prelude.Maps.{get}
use rnostr.Prelude.{ℕ, ◌≡◌, refl, true, none, some, List, [], ◌∷◌, has, ℕ_discrete, ◌↔◌}
use rnostr.Std.Text.{codes}
use rnostr.Std.Words.{u64_mod}
use rnostr.Db.Filter.{Filter, match, set_tags, from, contains, RawFilter, try_from}
use rnostr.Db.Filter.Matching.{IsWellFormed, Selects, match_iff}
use rnostr.Std.Sort.{IsStrict}
use rnostr.Std.Parse.{parse_uint}
use rnostr.Db.Error.{ok}
use rnostr.Db.Event.{BuildTags, build_index_tags}
use rnostr.Db.Event.Tags.{entries, read_or, last_value, build_index_tags-eq}
use rnostr.Db.Event.Indexed.{IsIndexed, build_index_tags-IsIndexed}
use rnostr.Db.Filter.Lists.{contains-from}
use rnostr.Db.Filter.Parsing.{Mirrors, try_from-Mirrors, set_tags-IsWellFormed}
use rnostr.Db.Filter.Tagged.{TagsOf, set_tags-TagsOf}
use rnostr.Tests.Data.{any_event, note}

any_event-IsWellFormed : IsWellFormed any_event
unfolding get
any_event-IsWellFormed = record {
  ids = tt;
  authors = tt;
  kinds = tt;
  tags = tt;
  values = λ k vs e. cc;
}

abbrev topics : List (Bytes × List Bytes)
topics = (codes "t", codes "nostr" ∷ codes "art" ∷ []) ∷ (codes "title", codes "x" ∷ []) ∷ []

set_tags-TagsOf_example : TagsOf topics (set_tags any_event topics)
set_tags-TagsOf_example = set_tags-TagsOf any_event topics any_event-IsWellFormed

match_iff_example :
    (match (set_tags any_event topics) note ≡ true) ↔ Selects (set_tags any_event topics) note
match_iff_example =
    match_iff (set_tags any_event topics) note
      (set_tags-IsWellFormed any_event topics any_event-IsWellFormed)

abbrev numbers : List ℕ
numbers = 3 ∷ 1 ∷ 3 ∷ []

contains-from_example :
    IsStrict (from numbers) × (contains (from numbers) 3 ≡ has ℕ_discrete 3 numbers)
contains-from_example = contains-from ℕ_discrete numbers 3

abbrev request : RawFilter (List Bytes)
request = record {
  ids = [];
  authors = (2 ∷ []) ∷ (1 ∷ []) ∷ (2 ∷ []) ∷ [];
  kinds = 7 ∷ 1 ∷ [];
  since = none;
  until = none;
  limit = some 5;
  keywords = [];
  search = none;
  tags = (codes "#t", codes "nostr" ∷ []) ∷ (codes "more", []) ∷ [];
}

abbrev request_filter : Filter
request_filter = record any_event {
  authors = (1 ∷ []) ∷ (2 ∷ []) ∷ [];
  kinds = 1 ∷ 7 ∷ [];
  limit = some 5;
  tags = (codes "t", codes "nostr" ∷ []) ∷ [];
  desc = true;
}

try_from-request : try_from some some request ≡ ok request_filter
unfolding try_from Bytes-discrete ℕ_discrete cmp_bytes
try_from-request = refl

try_from-Mirrors_example : Mirrors request request_filter
try_from-Mirrors_example = try_from-Mirrors some some request request_filter try_from-request

-- The tags of an event, their values read as they stand.
abbrev event_tags : List (List Bytes)
event_tags =
    (codes "t" ∷ codes "nostr" ∷ [])
    ∷ (codes "expiration" ∷ codes "12" ∷ [])
    ∷ (codes "alone" ∷ [])
    ∷ (codes "expiration" ∷ codes "30" ∷ codes "more" ∷ [])
    ∷ []

abbrev event_index : BuildTags
event_index = record { t = (codes "t", codes "nostr") ∷ []; expiration = some 30; delegator = none }

build_event_tags : build_index_tags some event_tags ≡ ok event_index
unfolding build_index_tags Bytes-discrete ℕ_discrete parse_uint
build_event_tags = refl

build_index_tags-IsIndexed_example : IsIndexed event_index
build_index_tags-IsIndexed_example =
    build_index_tags-IsIndexed some event_tags event_index build_event_tags

build_index_tags-eq_example :
    (event_index.t ≡ entries some event_tags)
    × (event_index.expiration
        ≡ read_or (parse_uint u64_mod) none (last_value (codes "expiration") event_tags))
    × (event_index.delegator ≡ read_or some none (last_value (codes "delegation") event_tags))
build_index_tags-eq_example = build_index_tags-eq some event_tags event_index build_event_tags
