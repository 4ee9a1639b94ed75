-- ===== src/Db/Query.antt =====
-- db/src/db.rs: iterators over the events that a filter asks for: their state, and the scanners
-- over the trees that each kind of filter makes.
pub mod Open
pub mod Read
pub mod Keys
pub mod Good
pub mod Opened
pub mod Chosen
pub mod Timed
pub mod Sound
pub mod Given
pub mod Counted
pub mod Limits
use rnostr.Prelude.Order.{Bytes, cmp_bytes}
use rnostr.Prelude.{
  ℕ, ◌+◌, ◌%◌, Ordering, Bool, true, false, not, ◌&&◌, ◌||◌, Option, none, some, List, [], ◌∷◌,
  is_empty, length, leb, ◌==◌, if◌then◌else◌,
}
use rnostr.Db.Error.{Outcome, ok, panicked, ◌>>=◌}
use rnostr.Db.Event.{EventIndex}
use rnostr.Db.Store.{starts_with}
use rnostr.Db.Key
use rnostr.Db.Key.{IndexKey, concat, concat_sep, u16_to_ver, slice_to, slice_from, from_be_bytes}
use rnostr.Db.Filter.{Filter, SortList, match, match_author, match_kind}
use rnostr.Kv.Lmdb.Iter.{Cursor, Item}
use rnostr.Kv.Scanner.{TimeKey}
use rnostr.Kv.Scanner.Groups.{Watcher, watch_all, GroupItem, Group, group_next, transposed}
use rnostr.Kv.Scanner.Scan.{MatchResult, continue, stop, found, Scanner, new_scanner, next_inner}

-- `impl TimeKey for IndexKey`.
unfoldable pub index_keys : TimeKey IndexKey
unfolding Key.cmp Key.change_time
index_keys = record {
  time = λ k. k.time;
  cmp = Key.cmp;
  change_time = λ k key time. Key.change_time key time;
}

-- `v[8..10]`, the kind behind the uid in an entry of a tag.
unfoldable pub value_kind : Bytes → Outcome ℕ
unfolding slice_to slice_from from_be_bytes
value_kind v = do head ← slice_to 10 v; tail ← slice_from 8 head; from_be_bytes 2 tail

-- `Ok(MatchResult::Found(IndexKey::from(key, uid)?))`.
unfoldable pub found_index : Bytes → Bytes → Outcome (MatchResult IndexKey)
unfolding Key.from
found_index key uid = do k ← Key.from key uid; ok (found k)

abbrev pub Matcher : Type 0 → Type 0
Matcher Cur = Scanner Cur → Item → Outcome (MatchResult IndexKey)

-- The kinds of a filter on tags are checked in the entry, if there are any.
unfoldable pub check_kind : SortList ℕ → Bytes → Bytes → Outcome (MatchResult IndexKey)
unfolding value_kind match_kind found_index
check_kind kinds k v =
    if is_empty kinds
    then found_index k v
    else (value_kind v >>= λ kind. if match_kind kinds kind then found_index k v else ok continue)

module _ {Cur : Type 0} where
  unfoldable pub any_matcher : Matcher Cur
  unfolding found_index
  any_matcher s (k, v) = found_index k v

  unfoldable pub prefix_matcher : Matcher Cur
  unfolding found_index starts_with
  prefix_matcher s (k, v) = if starts_with s.prefix k then found_index k v else ok stop

  -- A key of the length `klen`: the prefix and a time.
  unfoldable pub word_matcher : ℕ → Matcher Cur
  unfolding found_index starts_with
  word_matcher klen s (k, v) =
      if (length k == klen) && starts_with s.prefix k then found_index k v else ok stop

  unfoldable pub tag_matcher : SortList ℕ → ℕ → Matcher Cur
  unfolding check_kind starts_with
  tag_matcher kinds klen s (k, v) =
      if (length k == klen) && starts_with s.prefix k then check_kind kinds k v else ok stop

  -- Up to the key `end`.
  unfoldable pub ephemeral_matcher : Bytes → Matcher Cur
  unfolding found_index cmp_bytes
  ephemeral_matcher end s (k, v) = elim (cmp_bytes k end) [
    | Ordering.lt ↦ found_index k v
    | _ ↦ ok stop
  ]

module _ (C : Cursor) where
  -- A boxed scanner and its matcher.
  pub record Scan : Type 0 where
    pub scanner : Scanner C.Cur
    pub matcher : Matcher C.Cur

  -- What a group may hold: a scanner, or a group of scanners.
  pub data Node : Type 0 where
    leaf : Scan → Node
    sub : Group Scan IndexKey → Node

  -- A scan has at most `steps` rounds. One that has more ends as one that panics: no key is given.
  module _ (steps : ℕ) where
    unfoldable pub scan_item : GroupItem Scan IndexKey
    unfolding next_inner index_keys
    scan_item = record {
      scan_next = λ s. elim (next_inner index_keys C s.matcher steps s.scanner) [
        | none ↦ (some panicked, s)
        | some (r, t) ↦ (transposed r, record s { scanner = t })
      ];
      cur_times = λ s. s.scanner.cur_times;
      set_watcher = λ w s. s;
    }

    unfoldable pub node_next : Node → Option (Outcome IndexKey) × Node
    unfolding scan_item group_next index_keys
    node_next (leaf s) = let (item, t) = scan_item.scan_next s in (item, leaf t)
    node_next (sub g) = elim (group_next index_keys scan_item steps g) [
      | none ↦ (some panicked, sub g)
      | some (item, h) ↦ (item, sub h)
    ]

    unfoldable pub node_times : Node → ℕ
    node_times (leaf s) = s.scanner.cur_times
    node_times (sub g) = g.cur_times

    unfoldable pub node_watcher : Watcher → Node → Node
    unfolding watch_all scan_item index_keys
    node_watcher w (leaf s) = leaf s
    node_watcher w (sub g) = sub (watch_all index_keys scan_item w g)

    unfoldable pub node_item : GroupItem Node IndexKey
    unfolding node_next node_times node_watcher
    node_item = record { scan_next = node_next; cur_times = node_times; set_watcher = node_watcher }
