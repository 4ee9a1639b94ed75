-- ===== src/Kv/Lmdb/Cursors.antt =====
-- What kv/src/lmdb.rs relies on in the cursors of the C library: they give entries of their tree.
use rnostr.Prelude.{◌≡◌, true}
use rnostr.Prelude.Order.{Bytes}
use rnostr.Db.Error.{Outcome, ok}
use rnostr.Kv.Lmdb.{Tree, Ffi, Documented, success}
use rnostr.Kv.Lmdb.Iter.{Cursor, CursorOp, Item}
use rnostr.Kv.Lmdb.Moves.{Reads}

module _ (ffi : Ffi) (doc : Documented ffi) where
  -- An item is an entry of a tree in the transaction.
  abbrev pub Held : ffi.Txn → Tree → Item → Type 0
  Held w tree item = doc.has w (record { tree = tree; key = item.0; value = item.1 }) ≡ true

  module _ (C : Cursor) (open_cursor : ffi.Txn → Tree → Outcome C.Cur) where
    -- A cursor that is opened on a tree stays on it, and gives entries that the tree holds.
    pub record DocumentedCursor : Type 1 where
      pub On : ffi.Txn → Tree → C.Cur → Type 0
      pub opened : (w : ffi.Txn) (tree : Tree) (c : C.Cur) → open_cursor w tree ≡ ok c → On w tree c
      pub stays :
          (w : ffi.Txn) (tree : Tree) (c : C.Cur) (op : CursorOp) (key : Bytes)
          → On w tree c
          → On w tree (C.mdb_cursor_get c op key).1
      pub gives :
          (w : ffi.Txn) (tree : Tree) (c : C.Cur) (op : CursorOp) (key : Bytes) (item : Item)
          → On w tree c
          → (C.mdb_cursor_get c op key).0 ≡ success item
          → Held w tree item

    abbrev pub reads : DocumentedCursor → ffi.Txn → Tree → Reads C
    reads cd w tree = record {
      On = cd.On w tree;
      Held = Held w tree;
      stays = cd.stays w tree;
      gives = cd.gives w tree;
    }
