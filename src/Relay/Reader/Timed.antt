-- ===== src/Relay/Reader/Timed.antt =====
-- The iterator of a filter (relay/src/reader.rs), with or without a limit on its time.
use rnostr.Prelude.{ℕ, ◌≡◌, Bool, Option, none, some}
use rnostr.Db.Error.{Outcome, ok}
use rnostr.Db.Codec.{Codec}
use rnostr.Db.Filter.{Filter}
use rnostr.Db.Query.Open.{Iter, iter}
use rnostr.Db.Query.Chosen.{prefixes, tree_of, left_to_check, iter-Opened}
use rnostr.Db.Query.Opened.{Opened}
use rnostr.Db.Query.Timed.{scan_time-Opened}
use rnostr.Kv.Lmdb.{Ffi, Tree}
use rnostr.Kv.Lmdb.Iter.{Cursor}
use rnostr.Kv.Lmdb.Moves.{Reads}
use rnostr.Relay.Reader.{timed}

module _ (ffi : Ffi) (codec : Codec) (C : Cursor) (open_cursor : ffi.Txn → Tree → Outcome C.Cur)
    (steps : ℕ) where
  pub timed-Opened :
      (timeout : Option (ℕ → ℕ → Bool)) (reader : ffi.Txn) (f : Filter) (left : ℕ)
      (it : Iter C ffi.Txn) (reads : Tree → Reads C)
      → ((tree : Tree) (c : C.Cur) → open_cursor reader tree ≡ ok c → (reads tree).On c)
      → iter C steps open_cursor reader f ≡ ok it
      → Opened C steps open_cursor reader f
          (prefixes f)
          (reads (tree_of f))
          (left_to_check f)
          (timed ffi codec C open_cursor steps timeout left it)
  unfolding timed
  timed-Opened none reader f left it reads opens e =
      iter-Opened C steps open_cursor reader f it reads opens e
  timed-Opened (some late) reader f left it reads opens e =
      scan_time-Opened C steps f (prefixes f) (reads (tree_of f)) ffi codec open_cursor reader
        (left_to_check f) (late left) 2_000 it
        (iter-Opened C steps open_cursor reader f it reads opens e)
