-- ===== src/Db/Query/Open.antt =====
-- db/src/db.rs: the iterator that each filter gets, over the tree that suits it.
use rnostr.Prelude.Order.{Bytes}
use rnostr.Prelude.{
  ℕ, ◌+◌, Bool, true, false, not, ◌||◌, ◌&&◌, Option, none, List, [], ◌∷◌, ◌++◌, map, is_empty,
  length, if◌then◌else◌,
}
use rnostr.Std.Words.{to_be}
use rnostr.Db.Error.{Outcome, ok, err, panicked}
use rnostr.Db.Filter.{Filter, SortList, is_some}
use rnostr.Db.Key.{IndexKey, concat, concat_sep, u16_to_ver}
use rnostr.Db.MatchIndex.{MatchIndex}
use rnostr.Db.Query.{
  Matcher, any_matcher, prefix_matcher, word_matcher, tag_matcher, ephemeral_matcher, Scan, Node,
  leaf, sub, index_keys, scan_item, node_item,
}
use rnostr.Kv.Lmdb.{Tree, Act, pure, lift, ◌>>=◌}
use rnostr.Kv.Lmdb.Iter.{Cursor}
use rnostr.Kv.Scanner.Groups.{GroupItem, Group, new_group, add_scanner}
use rnostr.Kv.Scanner.Scan.{new_scanner}
use rnostr.Db.Tables.{
  t_id, t_pubkey, t_kind, t_pubkey_kind, t_created_at, t_tag, t_expiration, t_word,
}
use rnostr.Db.Tables.Batches.{create_iter}

-- `Iter`: the reader is a transaction.
pub record Iter (C : Cursor) (Txn : Type 0) : Type 0 where
  pub reader : Txn
  pub group : Group (Node C) IndexKey
  pub get_data : ℕ
  pub get_index : ℕ
  pub filter : Filter
  pub match_index : MatchIndex

abbrev pub u64_max_before : ℕ
u64_max_before = 18_446_744_073_709_551_614

-- `Filter { desc, until, ..Default::default() }`.
abbrev pub until_filter : Bool → Option ℕ → Filter
until_filter desc until = record {
  ids = [];
  authors = [];
  kinds = [];
  since = none;
  until = until;
  limit = none;
  search = none;
  tags = [];
  desc = desc;
  words = [];
}

module _ (C : Cursor) (steps : ℕ) where
  -- Items that are made one by one and put into a group; the first error ends it.
  module _ {S : Type 0} (gi : GroupItem S IndexKey) where
    unfoldable pub add_each :
        {X : Type 0} → (X → Outcome S) → List X → Act (Group S IndexKey) (Unit {0})
    unfolding add_scanner index_keys
    add_each make [] = pure tt
    add_each make (x ∷ xs) =
        lift (make x) >>= λ s. add_scanner index_keys gi s >>= λ _. add_each make xs

  module _ {Txn : Type 0} (open_cursor : Txn → Tree → Outcome C.Cur) where
    -- `Scanner::new` over `create_iter`, in the order and the range of the filter.
    unfoldable pub make_scan : Txn → Filter → Tree → Bytes → Bytes → Matcher C.Cur → Scan C
    unfolding new_scanner create_iter
    make_scan reader filter view key prefix matcher = record {
      scanner =
          new_scanner (create_iter C (open_cursor reader view) view prefix filter.desc) key prefix
            filter.desc filter.since filter.until;
      matcher = matcher;
    }

    abbrev pub Built : Type 0
    Built = Outcome (Unit {0}) × Group (Node C) IndexKey

    -- `Iter::new`, where the group could be made.
    unfoldable pub new : Txn → Filter → MatchIndex → Built → Outcome (Iter C Txn)
    new reader filter match_index (ok _, group) = ok (record {
      reader = reader;
      group = group;
      get_data = 0;
      get_index = 0;
      filter = filter;
      match_index = match_index;
    })
    new reader filter match_index (err x, group) = err x
    new reader filter match_index (panicked, group) = panicked

    -- A group of scanners, one for each of a list, in the order and the range of the filter.
    unfoldable pub scan_each : {X : Type 0} → Filter → Bool → Bool → (X → Scan C) → List X → Built
    unfolding new_group add_each node_item
    scan_each filter both dup make xs =
        add_each (node_item C steps) (λ x. ok (leaf (make x))) xs
          (new_group index_keys (node_item C steps) filter.desc both dup)

    unfoldable pub new_time : Txn → Filter → Tree → MatchIndex → Outcome (Iter C Txn)
    unfolding scan_each make_scan any_matcher new
    new_time reader filter view match_index =
        let prefix = to_be 8 (if filter.desc then u64_max_before else 0) in
        new reader filter match_index (
          scan_each filter false false (λ p. make_scan reader filter view [] p any_matcher)
            (prefix ∷ []))

    unfoldable pub new_kind : Txn → Filter → Tree → MatchIndex → Outcome (Iter C Txn)
    unfolding scan_each make_scan prefix_matcher new u16_to_ver
    new_kind reader filter view match_index = new reader filter match_index (
        scan_each filter false false
          (λ kind. make_scan reader filter view [] (u16_to_ver kind) prefix_matcher) filter.kinds)

    -- One value of a tag: the separator ends the prefix, so that no longer value intrudes.
    unfoldable pub tag_scan : Txn → Filter → Tree → Bytes → Bytes → Scan C
    unfolding make_scan tag_matcher concat_sep
    tag_scan reader filter view name key =
        let prefix = concat_sep (concat_sep name key) [] in
        make_scan reader filter view [] prefix (tag_matcher filter.kinds (length prefix + 8))

    -- The group of the values of one tag.
    unfoldable pub tag_group : Txn → Filter → Tree → Bytes × SortList Bytes → Outcome (Node C)
    unfolding new_group add_each scan_item tag_scan
    tag_group reader filter view (name, keys) =
        let (r, g) =
          add_each (scan_item C steps) (λ key. ok (tag_scan reader filter view name key)) keys
            (new_group index_keys (scan_item C steps) filter.desc false true) in
        elim r [ ok _ ↦ ok (sub g) | err x ↦ err x | panicked ↦ panicked ]

    unfoldable pub new_tag : Txn → Filter → Tree → MatchIndex → Outcome (Iter C Txn)
    unfolding new_group add_each node_item tag_group new
    new_tag reader filter view match_index = new reader filter match_index (
        add_each (node_item C steps) (tag_group reader filter view) filter.tags
          (new_group index_keys (node_item C steps) filter.desc true false))

    -- Each author with each kind.
    unfoldable pub pairs : List Bytes → List ℕ → List (Bytes × ℕ)
    pairs [] kinds = []
    pairs (author ∷ authors) kinds = map (λ kind. (author, kind)) kinds ++ pairs authors kinds

    unfoldable pub new_author_kind : Txn → Filter → Tree → MatchIndex → Outcome (Iter C Txn)
    unfolding scan_each make_scan prefix_matcher new pairs concat u16_to_ver
    new_author_kind reader filter view match_index = new reader filter match_index (
        scan_each filter false false
          (λ p. make_scan reader filter view p.0 (concat p.0 (u16_to_ver p.1)) prefix_matcher)
          (pairs filter.authors filter.kinds))

    unfoldable pub new_prefix : Txn → Filter → List Bytes → Tree → MatchIndex → Outcome (Iter C Txn)
    unfolding scan_each make_scan prefix_matcher new
    new_prefix reader filter ids view match_index =
        new reader filter match_index (
          scan_each filter false false (λ id. make_scan reader filter view id id prefix_matcher)
            ids)

    unfoldable pub word_scan : Txn → Filter → Tree → Bytes → Scan C
    unfolding make_scan word_matcher concat_sep
    word_scan reader filter view word =
        let prefix = concat_sep word [] in
        make_scan reader filter view [] prefix (word_matcher (length prefix + 8))

    unfoldable pub new_word : Txn → Filter → Tree → MatchIndex → Outcome (Iter C Txn)
    unfolding scan_each word_scan new
    new_word reader filter view match_index =
        new reader filter match_index
          (scan_each filter true true (word_scan reader filter view) filter.words)

    abbrev check_others : Bool → MatchIndex
    check_others others = if others then MatchIndex.all else MatchIndex.none

    -- `Db::iter`: the tree for the filter, and what of the filter is left to check.
    unfoldable pub iter : Txn → Filter → Outcome (Iter C Txn)
    unfolding new_word new_prefix new_tag new_author_kind new_kind new_time
    iter reader f =
        let tags = not (is_empty f.tags) in
        let authors = not (is_empty f.authors) in
        let kinds = not (is_empty f.kinds) in
        if is_some f.search
        then new_word reader f t_word
            (check_others (not (is_empty f.ids) || (tags || (authors || kinds))))
        else if not (is_empty f.ids)
        then new_prefix reader f f.ids t_id (check_others (tags || (authors || kinds)))
        else if tags
        then new_tag reader f t_tag (if authors then MatchIndex.pubkey else MatchIndex.none)
        else if authors && kinds
        then new_author_kind reader f t_pubkey_kind MatchIndex.none
        else if authors
        then new_prefix reader f f.authors t_pubkey MatchIndex.none
        else if kinds
        then new_kind reader f t_kind MatchIndex.none
        else new_time reader f t_created_at MatchIndex.none

    unfoldable pub iter_expiration : Txn → Option ℕ → Outcome (Iter C Txn)
    unfolding new_time
    iter_expiration reader until =
        new_time reader (until_filter true until) t_expiration MatchIndex.none

    -- The kinds from 20000 up to 30000.
    unfoldable pub iter_ephemeral : Txn → Option ℕ → Outcome (Iter C Txn)
    unfolding scan_each make_scan ephemeral_matcher new u16_to_ver
    iter_ephemeral reader until =
        let filter = until_filter false until in
        new reader filter MatchIndex.none (
          scan_each filter false false
            (λ prefix.
              make_scan reader filter t_kind [] prefix (ephemeral_matcher (u16_to_ver 30_000)))
            (u16_to_ver 20_000 ∷ []))
