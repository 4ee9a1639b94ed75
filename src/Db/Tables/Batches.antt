-- ===== src/Db/Tables/Batches.antt =====
-- db/src/db.rs: the batches in a transaction of their own, up to its commit, the check of the
-- schema, and the iterators over the keys of a prefix.
use rnostr.Prelude.Order.{Bytes, cmp_bytes}
use rnostr.Prelude.{
  ℕ, ◌+◌, Ordering, Bool, true, false, Option, none, some, List, [], ◌∷◌, if◌then◌else◌,
}
use rnostr.Std.Text.{codes, text_eq}
use rnostr.Db.Error.{Outcome, err, version_mismatch}
use rnostr.Db.Validate.{Event}
use rnostr.Db.Store.{CheckEventResult, upper}
use rnostr.Db.Codec.{Codec, FromEventData}
use rnostr.Kv.Lmdb
use rnostr.Kv.Lmdb.{Tree, Ffi, Act, pure, lift, next, ◌>>=◌}
use rnostr.Kv.Lmdb.Iter.{Cursor, Iter, included, excluded, unbounded, iter_from}
use rnostr.Db.Tables.{t_meta}
use rnostr.Db.Tables.Puts.{Store, put, get_by_id}

-- `sort_by` on the ids, which keeps the order of events with the same id.
unfoldable pub insert_by_id : Event → List Event → List Event
insert_by_id x [] = x ∷ []
insert_by_id x (y ∷ ys) = elim (cmp_bytes y.index.id x.index.id) [
  | Ordering.lt ↦ y ∷ insert_by_id x ys
  | _ ↦ x ∷ y ∷ ys
]

unfoldable pub sort_by_id : List Event → List Event
unfolding insert_by_id
sort_by_id [] = []
sort_by_id (x ∷ xs) = insert_by_id x (sort_by_id xs)

abbrev pub is_same_id : Option Event → Event → Bool
is_same_id none e = false
is_same_id (some before) e = text_eq e.index.id before.index.id

abbrev pub stored_count : CheckEventResult → ℕ
stored_count (CheckEventResult.stored n) = n
stored_count _ = 0

-- `create_iter`, over a cursor on the tree.
unfoldable pub create_iter : (C : Cursor) → Outcome C.Cur → Tree → Bytes → Bool → Iter C.Cur
unfolding upper iter_from
create_iter C cursor tree prefix reverse =
    if reverse
    then iter_from C cursor tree
        (elim (upper prefix) [ none ↦ unbounded | some end ↦ excluded end ]) true
    else iter_from C cursor tree (included prefix) false

module _ (ffi : Ffi) (codec : Codec) where
  -- The loop of `batch_put`: the event before, the events left, and the count.
  unfoldable pub put_batch : Option Event → List Event → ℕ → Act (Store ffi.Txn) ℕ
  unfolding put
  put_batch before [] count = pure count
  put_batch before (e ∷ es) count =
      if is_same_id before e
      then put_batch (some e) es count
      else (put ffi codec e >>= λ result. put_batch (some e) es (count + stored_count result))

  unfoldable pub batch_put : List Event → Act (Store ffi.Txn) ℕ
  unfolding put_batch sort_by_id
  batch_put events = put_batch none (sort_by_id events) 0

  unfoldable pub batch_get : {R : Type 0} → FromEventData R → List Bytes → Act ffi.Txn (List R)
  unfolding get_by_id
  batch_get r [] = pure []
  batch_get r (id ∷ ids) = get_by_id ffi codec r id >>= λ found.
      batch_get r ids >>= λ events. pure (elim found [ none ↦ events | some e ↦ e ∷ events ])

  -- `check_schema`: the version is written if there is none.
  unfoldable pub check_version : Bytes → Option Bytes → Act ffi.Txn (Unit {0})
  check_version version none = Lmdb.put ffi t_meta (codes "version") version
  check_version version (some old) =
      if text_eq old version then pure tt else lift (err version_mismatch)

  unfoldable pub check_schema : Bytes → Act ffi.Txn (Unit {0})
  unfolding check_version
  check_schema version = Lmdb.get ffi t_meta (codes "version") >>= check_version version
