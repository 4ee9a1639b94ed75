-- ===== src/Db/Query/Timed.antt =====
-- An iterator whose time is limited (db/src/db.rs, `scan_time`) looks under the same prefixes.
use rnostr.Prelude.Order.{Bytes}
use rnostr.Prelude.{ℕ, Bool, List}
use rnostr.Db.Error.{Outcome}
use rnostr.Db.Codec.{Codec}
use rnostr.Db.Filter.{Filter}
use rnostr.Db.MatchIndex.{MatchIndex}
use rnostr.Db.Query.{Scan, Node, leaf, sub, index_keys, scan_item, node_item, node_watcher}
use rnostr.Db.Query.Open.{Iter}
use rnostr.Db.Query.Read.{timer, scan_time}
use rnostr.Db.Query.Keys.{FoundKey, GoodScan, GoodNode}
use rnostr.Db.Query.Opened.{Opened}
use rnostr.Kv.Lmdb.{Ffi, Tree}
use rnostr.Kv.Lmdb.Iter.{Cursor}
use rnostr.Kv.Lmdb.Moves.{Reads}
use rnostr.Kv.Scanner.Groups.{Watcher}
use rnostr.Kv.Scanner.Given.Added.{watch_all-AllGood}

module _ (C : Cursor) (steps : ℕ) (f : Filter) (prefixes : List Bytes) (rd : Reads C) where
  scan_watcher-GoodScan :
      (w : Watcher) (s : Scan C)
      → GoodScan C steps f prefixes rd s
      → GoodScan C steps f prefixes rd ((scan_item C steps).set_watcher w s)
  unfolding scan_item
  scan_watcher-GoodScan w s h = h

  node_watcher-GoodNode :
      (w : Watcher) (n : Node C)
      → GoodNode C steps f prefixes rd n
      → GoodNode C steps f prefixes rd ((node_item C steps).set_watcher w n)
  unfolding node_item node_watcher
  node_watcher-GoodNode w (leaf s) h = h
  node_watcher-GoodNode w (sub g) h =
      watch_all-AllGood index_keys (scan_item C steps) (GoodScan C steps f prefixes rd)
        (FoundKey f prefixes rd.Held) w g (scan_watcher-GoodScan w) h

  pub scan_time-Opened :
      (ffi : Ffi) (codec : Codec) (open_cursor : ffi.Txn → Tree → Outcome C.Cur) (reader : ffi.Txn)
      (mi : MatchIndex) (late : ℕ → Bool) (check_step : ℕ) (it : Iter C ffi.Txn)
      → Opened C steps open_cursor reader f prefixes rd mi it
      → Opened C steps open_cursor reader f prefixes rd mi
          (scan_time ffi codec C steps late check_step it)
  unfolding scan_time
  scan_time-Opened ffi codec open_cursor reader mi late check_step it h = record {
    group_good =
        watch_all-AllGood index_keys (node_item C steps) (GoodNode C steps f prefixes rd)
          (FoundKey f prefixes rd.Held) (timer ffi codec C steps late check_step) it.group
          (node_watcher-GoodNode (timer ffi codec C steps late check_step)) h.group_good;
    reader_same = h.reader_same;
    filter_same = h.filter_same;
    match_same = h.match_same;
  }
