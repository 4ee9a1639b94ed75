-- ===== src/Db/Query/Sound.antt =====
-- The keys that an iterator takes (db/src/db.rs) are under its prefixes and match what is left.
use rnostr.Prelude.Order.{Bytes}
use rnostr.Prelude.{ℕ, ◌≡◌, refl, sym, ◌∙◌, subst, Bool, true, Option, none, some, List}
use rnostr.Std.Words.{to_be}
use rnostr.Db.Error.{Outcome, ok, err, panicked}
use rnostr.Db.Event.{EventIndex}
use rnostr.Db.Codec.{Codec}
use rnostr.Db.Filter.{Filter}
use rnostr.Db.Key.{IndexKey}
use rnostr.Db.MatchIndex.{MatchIndex, is_match}
use rnostr.Db.Query.{Node, index_keys, node_item}
use rnostr.Db.Query.Open.{Iter}
use rnostr.Db.Query.Read.{
  decode_event_index, index_data, count_data, count_index, matches_found, read_index, check_index,
  check_key, next_key,
}
use rnostr.Db.Query.Keys.{FoundKey, GoodNode, node-Gives}
use rnostr.Db.Query.Opened.{Opened}
use rnostr.Kv.Lmdb
use rnostr.Kv.Lmdb.{Ffi, Tree, next}
use rnostr.Kv.Lmdb.Iter.{Cursor}
use rnostr.Kv.Lmdb.Moves.{Reads}
use rnostr.Kv.Scanner.Groups.{Group, group_next}
use rnostr.Kv.Scanner.Given.Next.{group_next-GivesKey}
use rnostr.Db.Tables.{t_index}

module _ (ffi : Ffi) (codec : Codec) where
  -- The index that is stored for a key matches what is left to check of a filter.
  pub record IndexMatches (mi : MatchIndex) (f : Filter) (reader : ffi.Txn) (key : IndexKey)
      : Type 0 where
    pub bytes : Bytes
    pub stored : (Lmdb.get ffi t_index (to_be 8 key.uid) reader).0 ≡ ok (some bytes)
    pub matched : is_match mi f (codec.archived_index bytes) ≡ true

  abbrev pub Checked : MatchIndex → Filter → ffi.Txn → IndexKey → Type 0
  Checked MatchIndex.none f reader key = Unit
  Checked MatchIndex.all f reader key = IndexMatches MatchIndex.all f reader key
  Checked MatchIndex.pubkey f reader key = IndexMatches MatchIndex.pubkey f reader key

  module _ (C : Cursor) (steps : ℕ) (open_cursor : ffi.Txn → Tree → Outcome C.Cur)
      (reader : ffi.Txn) (f : Filter) (prefixes : List Bytes) (rd : Reads C) (mi : MatchIndex) where
    abbrev pub Good : Iter C ffi.Txn → Type 0
    Good it = Opened C steps open_cursor reader f prefixes rd mi it

    pub count_data-Good : (it : Iter C ffi.Txn) → Good it → Good (count_data ffi codec C steps it)
    count_data-Good it h = record {
      group_good = h.group_good;
      reader_same = h.reader_same;
      filter_same = h.filter_same;
      match_same = h.match_same;
    }

    count_index-Good : (it : Iter C ffi.Txn) → Good it → Good (count_index ffi codec C steps it)
    count_index-Good it h = record {
      group_good = h.group_good;
      reader_same = h.reader_same;
      filter_same = h.filter_same;
      match_same = h.match_same;
    }

    pub next_key-Good :
        (it t : Iter C ffi.Txn) (item : Option (Outcome IndexKey))
        → Good it
        → next_key ffi codec C steps it ≡ some (item, t)
        → Good t × ((key : IndexKey) → item ≡ some (ok key) → FoundKey f prefixes rd.Held key)
    unfolding next_key
    next_key-Good it t item h e =
        split (group_next index_keys (node_item C steps) steps it.group) refl e
      where
        split :
            (m : Option (Option (Outcome IndexKey) × Group (Node C) IndexKey))
            → group_next index_keys (node_item C steps) steps it.group ≡ m
            → (elim m as (λ _. Option (Option (Outcome IndexKey) × Iter C ffi.Txn)) [
              | none ↦ none
              | some (i, g) ↦ some (i, record it { group = g })
            ])
              ≡ some (item, t)
            → Good t × ((key : IndexKey) → item ≡ some (ok key) → FoundKey f prefixes rd.Held key)
        split none q p = absurd (cc p)
        split (some (i, g)) q p =
            let (good, found) =
              group_next-GivesKey index_keys (node_item C steps) (GoodNode C steps f prefixes rd)
                (FoundKey f prefixes rd.Held) (node-Gives C steps f prefixes rd) steps it.group
                (i, g) h.group_good q in
            let later : Good (record it { group = g }) = record {
              group_good = good;
              reader_same = h.reader_same;
              filter_same = h.filter_same;
              match_same = h.match_same;
            } in
            let there : record it { group = g } ≡ t = cc p in
            let same : i ≡ item = cc p in (subst Good there later, λ key z. found key (same ∙ z))

    read_index-some :
        (key : IndexKey) (it : Iter C ffi.Txn) (event : EventIndex)
        → read_index ffi codec C steps key it ≡ ok (some event)
        → (bytes : Bytes) × (index_data ffi codec C steps key it ≡ ok (some bytes))
          × (codec.archived_index bytes ≡ event)
    unfolding read_index decode_event_index
    read_index-some key it event e = split (index_data ffi codec C steps key it) refl e
      where
        split :
            (m : Outcome (Option Bytes))
            → index_data ffi codec C steps key it ≡ m
            → (elim m as (λ _. Outcome (Option EventIndex)) [
              | ok bytes ↦ decode_event_index codec bytes
              | err x ↦ err x
              | panicked ↦ panicked
            ])
              ≡ ok (some event)
            → (bytes : Bytes) × (index_data ffi codec C steps key it ≡ ok (some bytes))
              × (codec.archived_index bytes ≡ event)
        split (ok none) q p = absurd (cc p)
        split (ok (some bytes)) q p = (bytes, q, cc p)
        split (err x) q p = absurd (cc p)
        split panicked q p = absurd (cc p)

    index_matches :
        (key : IndexKey) (it : Iter C ffi.Txn) (event : EventIndex)
        → Good it
        → read_index ffi codec C steps key it ≡ ok (some event)
        → is_match it.match_index it.filter event ≡ true
        → IndexMatches mi f reader key
    unfolding index_data
    index_matches key it event h e m =
        let (bytes, q, s) = read_index-some key it event e in
        record {
          bytes = bytes;
          stored =
              subst (λ w. (Lmdb.get ffi t_index (to_be 8 key.uid) w).0 ≡ ok (some bytes))
                h.reader_same q;
          matched = rw (s, ← h.match_same, ← h.filter_same) m;
        }

    check_index-Good :
        (key : IndexKey) (it : Iter C ffi.Txn)
        → Good it
        → Good (check_index ffi codec C steps key it).1
          × ((check_index ffi codec C steps key it).0 ≡ ok true → IndexMatches mi f reader key)
    unfolding check_index matches_found
    check_index-Good key it h = split (read_index ffi codec C steps key it) refl
      where
        split :
            (m : Outcome (Option EventIndex))
            → read_index ffi codec C steps key it ≡ m
            → Good
                (elim m as (λ _. Outcome Bool × Iter C ffi.Txn) [
                  | ok event ↦
                      matches_found ffi codec C steps event (count_index ffi codec C steps it)
                  | err x ↦ (err x, it)
                  | panicked ↦ (panicked, it)
                ]).1
              × ((elim m as (λ _. Outcome Bool × Iter C ffi.Txn) [
                | ok event ↦
                    matches_found ffi codec C steps event (count_index ffi codec C steps it)
                | err x ↦ (err x, it)
                | panicked ↦ (panicked, it)
              ]).0
                    ≡ ok true
                  → IndexMatches mi f reader key)
        split (ok none) q = (count_index-Good it h, λ p. absurd (cc p))
        split (ok (some event)) q =
            (count_index-Good it h, λ p. index_matches key it event h q (cc p))
        split (err x) q = (h, λ p. absurd (cc p))
        split panicked q = (h, λ p. absurd (cc p))

    pub check_key-Good :
        (key : IndexKey) (it : Iter C ffi.Txn)
        → Good it
        → Good (check_key ffi codec C steps it.match_index key it).1
          × ((check_key ffi codec C steps it.match_index key it).0 ≡ ok true
              → Checked mi f reader key)
    unfolding check_key
    check_key-Good key it h =
        subst
          (λ n.
            Good (check_key ffi codec C steps n key it).1
            × ((check_key ffi codec C steps n key it).0 ≡ ok true → Checked mi f reader key))
          (sym h.match_same) (by_index mi (check_index-Good key it h))
      where
        by_index :
            (n : MatchIndex)
            → Good (check_index ffi codec C steps key it).1
              × ((check_index ffi codec C steps key it).0 ≡ ok true → IndexMatches n f reader key)
            → Good (check_key ffi codec C steps n key it).1
              × ((check_key ffi codec C steps n key it).0 ≡ ok true → Checked n f reader key)
        by_index MatchIndex.none a = (h, λ p. tt)
        by_index MatchIndex.all a = a
        by_index MatchIndex.pubkey a = a
