-- ===== src/Kv/Lmdb/Moves.antt =====
-- How an iterator moves its cursor (kv/src/lmdb.rs): only by operations of the C library.
use rnostr.Prelude.Order.{Bytes, cmp_bytes}
use rnostr.Prelude.{
  ◌≡◌, ◌≢◌, refl, ap, sym, ◌∙◌, subst, Ordering, Bool, true, false, Option, none, some, [],
  if◌then◌else◌,
}
use rnostr.Db.Error.{Error, Outcome, ok, err, panicked, kv}
use rnostr.Kv.Lmdb.{Reply, success, not_found, failed, Tree}
use rnostr.Kv.Lmdb.Iter.{
  Cursor, CursorOp, Item, Bound, included, excluded, unbounded, Iter, cursor_get, land_back,
  land_on, land, landed, seek_key, seek_inner, seek, iter_next, iter_from, new_iter,
}

module _ (C : Cursor) where
  -- A cursor that others come to by operations.
  pub data Reached : C.Cur → C.Cur → Type 0 where
    here : {c : C.Cur} → Reached c c
    moved :
        {c d : C.Cur} (op : CursorOp) (key : Bytes)
        → Reached c d
        → Reached c (C.mdb_cursor_get d op key).1

  pub Reached-trans : {c d e : C.Cur} → Reached c d → Reached d e → Reached c e
  Reached-trans r here = r
  Reached-trans r (moved op key s) = moved op key (Reached-trans r s)

  -- The cursor of an iterator comes from that of another.
  abbrev pub Moved : Iter C.Cur → Iter C.Cur → Type 0
  Moved a b = (d : C.Cur) → b.inner ≡ some d → (c : C.Cur) × (a.inner ≡ some c) × Reached c d

  pub Moved-refl : (a b : Iter C.Cur) → b.inner ≡ a.inner → Moved a b
  Moved-refl a b s d e = (d, sym s ∙ e, here)

  pub Moved-trans : (a b c : Iter C.Cur) → Moved a b → Moved b c → Moved a c
  Moved-trans a b c f g d e =
      let (y, p, r) = g d e in let (x, q, s) = f y p in (x, q, Reached-trans s r)

  cursor_get-next :
      (c : C.Cur) (op : CursorOp) (key : Bytes)
      → (cursor_get C c op key).1 ≡ (C.mdb_cursor_get c op key).1
  unfolding cursor_get
  cursor_get-next c op key = refl

  cursor_get-given :
      (c : C.Cur) (op : CursorOp) (key : Bytes) (item : Item)
      → (cursor_get C c op key).0 ≡ ok (some item)
      → (C.mdb_cursor_get c op key).0 ≡ success item
  unfolding cursor_get
  cursor_get-given c op key item e = split (C.mdb_cursor_get c op key).0 e
    where
      split :
          (r : Reply Item)
          → (elim r as (λ _. Outcome (Option Item)) [
            | success item ↦ ok (some item)
            | not_found ↦ ok none
            | failed ↦ err kv
          ])
            ≡ ok (some item)
          → r ≡ success item
      split (success x) q = cc
      split not_found q = absurd (cc q)
      split failed q = absurd (cc q)

  land-Reached :
      (rev dup inclusive : Bool) (start : Bytes) (item : Option Item) (c : C.Cur)
      → Reached c (land C rev dup inclusive start item c).1
  unfolding land_back land_on cursor_get
  land-Reached true dup true start none c = here
  land-Reached true dup false start none c = here
  land-Reached true dup true start (some (key, v)) c = split (cmp_bytes key start) dup
    where
      split :
          (o : Ordering) (b : Bool)
          → Reached c
              (elim o as (λ _. CursorOp × C.Cur) [
                | Ordering.gt ↦ (CursorOp.prev, c)
                | Ordering.eq ↦
                    if b
                    then (CursorOp.get_current, (C.mdb_cursor_get c CursorOp.last_dup []).1)
                    else (CursorOp.get_current, c)
                | Ordering.lt ↦ (CursorOp.get_current, c)
              ]).1
      split Ordering.gt b = here
      split Ordering.eq true = moved CursorOp.last_dup [] here
      split Ordering.eq false = here
      split Ordering.lt b = here
  land-Reached true dup false start (some (key, v)) c = split (cmp_bytes key start)
    where
      split :
          (o : Ordering)
          → Reached c
              (elim o as (λ _. CursorOp × C.Cur) [
                | Ordering.lt ↦ (CursorOp.get_current, c)
                | Ordering.eq ↦ (if dup then CursorOp.prev_nodup else CursorOp.prev, c)
                | Ordering.gt ↦ (if dup then CursorOp.prev_nodup else CursorOp.prev, c)
              ]).1
      split Ordering.lt = here
      split Ordering.eq = here
      split Ordering.gt = here
  land-Reached false dup true start none c = here
  land-Reached false dup false start none c = here
  land-Reached false dup true start (some (key, v)) c = here
  land-Reached false dup false start (some (key, v)) c = split (cmp_bytes start key)
    where
      split :
          (o : Ordering)
          → Reached c
              (elim o as (λ _. CursorOp × C.Cur) [
                | Ordering.lt ↦ (CursorOp.get_current, c)
                | Ordering.eq ↦ (if dup then CursorOp.next_nodup else CursorOp.next, c)
                | Ordering.gt ↦ (CursorOp.get_current, c)
              ]).1
      split Ordering.lt = here
      split Ordering.eq = here
      split Ordering.gt = here

  landed-Reached :
      (start : Bytes) (inclusive rev : Bool) (it : Iter C.Cur) (r : Outcome (Option Item))
      (c d : C.Cur)
      → (landed C start inclusive rev it (r, c)).inner ≡ some d
      → Reached c d
  unfolding landed
  landed-Reached start inclusive rev it (ok item) c d e =
      let same : (land C rev it.dup inclusive start item c).1 ≡ d = cc e in
      subst (Reached c) same (land-Reached rev it.dup inclusive start item c)
  landed-Reached start inclusive rev it (err x) c d e = absurd (cc e)
  landed-Reached start inclusive rev it panicked c d e = absurd (cc e)

  seek_key-Reached :
      (start : Bytes) (inclusive rev : Bool) (it : Iter C.Cur) (c d : C.Cur)
      → (seek_key C start inclusive rev it c).inner ≡ some d
      → Reached c d
  unfolding seek_key cursor_get
  seek_key-Reached start inclusive rev it c d e =
      Reached-trans (moved CursorOp.set_range start here)
        (landed-Reached start inclusive rev it _ _ d e)

  pub seek-Moved : (from : Bound) (rev : Bool) (it : Iter C.Cur) → Moved it (seek C from rev it)
  unfolding seek seek_inner
  seek-Moved from rev it d e = split from it.inner refl e
    where
      split :
          (from : Bound) (o : Option C.Cur)
          → it.inner ≡ o
          → (seek_inner C from rev it o).inner ≡ some d
          → (c : C.Cur) × (it.inner ≡ some c) × Reached c d
      split from none p q = (d, q, here)
      split unbounded (some c) p q = (d, q, here)
      split (included start) (some c) p q = (c, p, seek_key-Reached start true rev it c d q)
      split (excluded start) (some c) p q = (c, p, seek_key-Reached start false rev it c d q)

  pub iter_next-Moved : (it : Iter C.Cur) → Moved it (iter_next C it).1
  unfolding iter_next cursor_get
  iter_next-Moved it d e = split it.inner refl e
    where
      split :
          (o : Option C.Cur)
          → it.inner ≡ o
          → (elim o as (λ _. Option (Outcome Item) × Iter C.Cur) [
            | none ↦ (elim it.error [ none ↦ none | some x ↦ some (err x) ], it)
            | some c ↦
                let (item, d) = cursor_get C c it.op [] in
                (
                  elim item [
                    | ok none ↦ none
                    | ok (some i) ↦ some (ok i)
                    | err x ↦ some (err x)
                    | panicked ↦ none
                  ],
                  record it { op = it.next_op; inner = some d },
                )
          ]).1.inner
            ≡ some d
          → (c : C.Cur) × (it.inner ≡ some c) × Reached c d
      split none p q = (d, q, here)
      split (some c) p q =
          let same : (C.mdb_cursor_get c it.op []).1 ≡ d = cc q in
          (c, p, subst (Reached c) same (moved it.op [] here))

  -- What an iterator gives, its cursor has given.
  pub iter_next-given :
      (it : Iter C.Cur) (item : Item)
      → (iter_next C it).0 ≡ some (ok item)
      → (c : C.Cur) × (it.inner ≡ some c) × ((C.mdb_cursor_get c it.op []).0 ≡ success item)
  unfolding iter_next
  iter_next-given it item e = split it.inner refl e
    where
      by_error :
          (x : Option Error)
          → (elim x as (λ _. Option (Outcome Item)) [ none ↦ none | some x ↦ some (err x) ])
            ≢ some (ok item)
      by_error none q = absurd (cc q)
      by_error (some x) q = absurd (cc q)

      by_reply :
          (r : Outcome (Option Item))
          → (elim r as (λ _. Option (Outcome Item)) [
            | ok none ↦ none
            | ok (some i) ↦ some (ok i)
            | err x ↦ some (err x)
            | panicked ↦ none
          ])
            ≡ some (ok item)
          → r ≡ ok (some item)
      by_reply (ok none) q = absurd (cc q)
      by_reply (ok (some i)) q = cc
      by_reply (err x) q = absurd (cc q)
      by_reply panicked q = absurd (cc q)

      split :
          (o : Option C.Cur)
          → it.inner ≡ o
          → (elim o as (λ _. Option (Outcome Item) × Iter C.Cur) [
            | none ↦ (elim it.error [ none ↦ none | some x ↦ some (err x) ], it)
            | some c ↦
                let (item, d) = cursor_get C c it.op [] in
                (
                  elim item [
                    | ok none ↦ none
                    | ok (some i) ↦ some (ok i)
                    | err x ↦ some (err x)
                    | panicked ↦ none
                  ],
                  record it { op = it.next_op; inner = some d },
                )
          ]).0
            ≡ some (ok item)
          → (c : C.Cur) × (it.inner ≡ some c) × ((C.mdb_cursor_get c it.op []).0 ≡ success item)
      split none p q = absurd (by_error it.error q)
      split (some c) p q =
          (c, p, cursor_get-given c it.op [] item (by_reply (cursor_get C c it.op []).0 q))

  -- The cursors on a tree and the items that the tree holds: an operation leaves a cursor on its
  -- tree, and what it gives is held.
  pub record Reads : Type 1 where
    pub On : C.Cur → Type 0
    pub Held : Item → Type 0
    pub stays : (c : C.Cur) (op : CursorOp) (key : Bytes) → On c → On (C.mdb_cursor_get c op key).1
    pub gives :
        (c : C.Cur) (op : CursorOp) (key : Bytes) (item : Item)
        → On c
        → (C.mdb_cursor_get c op key).0 ≡ success item
        → Held item

  -- Cursors of which nothing is known.
  abbrev pub any_reads : Reads
  any_reads = record {
    On = λ c. Unit {0};
    Held = λ item. Unit {0};
    stays = λ c op key o. tt;
    gives = λ c op key item o e. tt;
  }

  module _ (rd : Reads) where
    pub On-Reached : {c d : C.Cur} → Reached c d → rd.On c → rd.On d
    On-Reached here o = o
    On-Reached (moved op key r) o = rd.stays _ op key (On-Reached r o)

    -- An iterator whose cursor is on the tree.
    abbrev pub IterOn : Iter C.Cur → Type 0
    IterOn it = (c : C.Cur) → it.inner ≡ some c → rd.On c

    pub IterOn-Moved : (a b : Iter C.Cur) → Moved a b → IterOn a → IterOn b
    IterOn-Moved a b m o d e = let (c, p, r) = m d e in On-Reached r (o c p)

    pub iter_from-IterOn :
        (cursor : Outcome C.Cur) (tree : Tree) (from : Bound) (rev : Bool)
        → ((c : C.Cur) → cursor ≡ ok c → rd.On c)
        → IterOn (iter_from C cursor tree from rev)
    unfolding iter_from new_iter
    iter_from-IterOn cursor tree from rev o =
        IterOn-Moved (new_iter cursor tree) (iter_from C cursor tree from rev)
          (seek-Moved from rev (new_iter cursor tree)) (fresh cursor o)
      where
        fresh : (r : Outcome C.Cur) → ((c : C.Cur) → r ≡ ok c → rd.On c) → IterOn (new_iter r tree)
        fresh (ok c) h d e = let same : c ≡ d = cc e in h d (ap ok same)
        fresh (err x) h d e = absurd (cc e)
        fresh panicked h d e = absurd (cc e)
