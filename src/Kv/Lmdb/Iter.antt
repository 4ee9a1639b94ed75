-- ===== src/Kv/Lmdb/Iter.antt =====
-- kv/src/lmdb.rs: iteration over a tree by a cursor. The cursor of the C library is a parameter.
use rnostr.Prelude.Order.{Bytes, cmp_bytes}
use rnostr.Prelude.{Ordering, Bool, true, false, Option, none, some, if◌then◌else◌}
use rnostr.Db.Error.{Error, Outcome, ok, err, panicked, kv}
use rnostr.Kv.Lmdb.{Reply, success, not_found, failed, Tree, []}

-- `MDB_cursor_op`, as far as the code uses it.
pub data CursorOp : Type 0 where
  first last next prev next_nodup prev_nodup get_current last_dup set_range : CursorOp

abbrev pub Item : Type 0
Item = Bytes × Bytes

-- `mdb_cursor_get`: the key is read by `set_range` only. `not_found` stands for `MDB_NOTFOUND` and
-- for `EINVAL`, which the code takes for one.
pub record Cursor : Type 1 where
  pub Cur : Type 0
  pub mdb_cursor_get : Cur → CursorOp → Bytes → Reply Item × Cur

pub data Bound : Type 0 where
  included excluded : Bytes → Bound
  unbounded : Bound

pub record Iter (Cur : Type 0) : Type 0 where
  pub error : Option Error
  pub inner : Option Cur
  pub rev : Bool
  pub op : CursorOp
  pub next_op : CursorOp
  pub dup : Bool

-- `Iter::new`, where the cursor was opened or not. The operation 0 is `MDB_FIRST`.
unfoldable pub new_iter : {Cur : Type 0} → Outcome Cur → Tree → Iter Cur
new_iter (ok c) tree = record {
  error = none;
  inner = some c;
  rev = false;
  op = first;
  next_op = first;
  dup = tree.dup;
}
new_iter (err x) tree = record {
  error = some x;
  inner = none;
  rev = false;
  op = first;
  next_op = first;
  dup = tree.dup;
}
new_iter panicked tree = record {
  error = none;
  inner = none;
  rev = false;
  op = first;
  next_op = first;
  dup = tree.dup;
}

module _ (C : Cursor) where
  -- `IterInner::get_by_key` and `IterInner::get`.
  unfoldable pub cursor_get : C.Cur → CursorOp → Bytes → Outcome (Option Item) × C.Cur
  cursor_get c op key =
      let (reply, d) = C.mdb_cursor_get c op key in
      (elim reply [ success item ↦ ok (some item) | not_found ↦ ok none | failed ↦ err kv ], d)

  -- From the place of the key: the operation that reads the first item, and the cursor.
  unfoldable pub land_back : Bool → Bool → Bytes → Option Item → C.Cur → CursorOp × C.Cur
  unfolding cursor_get
  land_back dup inclusive start none c = (last, c)
  land_back dup true start (some (key, v)) c = elim (cmp_bytes key start) [
    | Ordering.gt ↦ (prev, c)
    | Ordering.eq ↦ if dup then (get_current, (cursor_get c last_dup []).1) else (get_current, c)
    | Ordering.lt ↦ (get_current, c)
  ]
  land_back dup false start (some (key, v)) c = elim (cmp_bytes key start) [
    | Ordering.lt ↦ (get_current, c)
    | _ ↦ (if dup then prev_nodup else prev, c)
  ]

  unfoldable pub land_on : Bool → Bool → Bytes → Option Item → C.Cur → CursorOp × C.Cur
  land_on dup inclusive start none c = (get_current, c)
  land_on dup true start (some (key, v)) c = (get_current, c)
  land_on dup false start (some (key, v)) c = elim (cmp_bytes start key) [
    | Ordering.eq ↦ (if dup then next_nodup else next, c)
    | _ ↦ (get_current, c)
  ]

  abbrev pub land : Bool → Bool → Bool → Bytes → Option Item → C.Cur → CursorOp × C.Cur
  land rev dup inclusive start found c =
      if rev then land_back dup inclusive start found c else land_on dup inclusive start found c

  abbrev pub step_op : Bool → CursorOp
  step_op rev = if rev then prev else next

  unfoldable pub landed :
      Bytes → Bool → Bool → Iter C.Cur → Outcome (Option Item) × C.Cur → Iter C.Cur
  unfolding land_back land_on
  landed start inclusive rev it (ok found, c) =
      let (op, d) = land rev it.dup inclusive start found c in
      record it { rev = rev; next_op = step_op rev; op = op; inner = some d }
  landed start inclusive rev it (err x, c) = record it {
    rev = rev;
    next_op = step_op rev;
    op = get_current;
    error = some x;
    inner = none;
  }
  landed start inclusive rev it (panicked, c) = record it {
    rev = rev;
    next_op = step_op rev;
    op = get_current;
    inner = none;
  }

  unfoldable pub seek_key : Bytes → Bool → Bool → Iter C.Cur → C.Cur → Iter C.Cur
  unfolding cursor_get landed
  seek_key start inclusive rev it c = landed start inclusive rev it (cursor_get c set_range start)

  unfoldable pub seek_inner : Bound → Bool → Iter C.Cur → Option C.Cur → Iter C.Cur
  unfolding seek_key
  seek_inner from rev it none = record it { rev = rev }
  seek_inner unbounded rev it (some c) = record it {
    rev = rev;
    next_op = step_op rev;
    op = if rev then last else first;
  }
  seek_inner (included start) rev it (some c) = seek_key start true rev it c
  seek_inner (excluded start) rev it (some c) = seek_key start false rev it c

  unfoldable pub seek : Bound → Bool → Iter C.Cur → Iter C.Cur
  unfolding seek_inner
  seek from rev it = seek_inner from rev it it.inner

  unfoldable pub iter_next : Iter C.Cur → Option (Outcome Item) × Iter C.Cur
  unfolding cursor_get
  iter_next it = elim it.inner [
    | none ↦ (elim it.error [ none ↦ none | some x ↦ some (err x) ], it)
    | some c ↦
        let (item, d) = cursor_get c it.op [] in
        (
          elim item [
            | ok none ↦ none
            | ok (some i) ↦ some (ok i)
            | err x ↦ some (err x)
            | panicked ↦ none
          ],
          record it { op = it.next_op; inner = some d },
        )
  ]

  -- `Transaction::iter_from`, by its cursor.
  unfoldable pub iter_from : Outcome C.Cur → Tree → Bound → Bool → Iter C.Cur
  unfolding new_iter seek
  iter_from cursor tree from rev = seek from rev (new_iter cursor tree)
