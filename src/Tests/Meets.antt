-- ===== src/Tests/Meets.antt =====
-- The intersection of scanners over trees in memory, and the theorem that it halts applied to it.
use rnostr.Prelude.Order.{Bytes}
use rnostr.Prelude.{
  true, false, ℕ, ◌<◌, ◌≡◌, ◌≢◌, refl, sym, subst, Option, none, some, List, [], ◌∷◌, arith,
}
use rnostr.Db.Error.{Outcome, ok, err, panicked}
use rnostr.Db.Key.{IndexKey}
use rnostr.Db.Query.{Scan, index_keys, scan_item, prefix_matcher}
use rnostr.Kv.Lmdb.{success}
use rnostr.Kv.Lmdb.Iter.{CursorOp, Item, Iter, iter_next, cursor_get}
use rnostr.Kv.Lmdb.Moves.{iter_next-given}
use rnostr.Kv.Scanner.Groups.{Group, next_and, transposed}
use rnostr.Kv.Scanner.Scan.{Scanner, next_inner}
use rnostr.Kv.Scanner.Leaves.{Timeless, next_inner-Down, next_inner-halts}
use rnostr.Kv.Scanner.Halts.{total, next_and-halts}
use rnostr.Tests.Cursors.{Place, in_memory, step, items_left, next-items_left}

-- An iterator that goes forward from the item at its cursor.
record Ahead (it : Iter Place) : Type 0 where
  op_next : it.op ≡ CursorOp.next
  next_op_next : it.next_op ≡ CursorOp.next

abbrev iter_left : Iter Place → ℕ
iter_left it = elim it.inner [ none ↦ 0 | some p ↦ items_left p ]

iter_next-Ahead :
    (it : Iter Place) (item : Item)
    → Ahead it
    → (iter_next in_memory it).0 ≡ some (ok item)
    → Ahead (iter_next in_memory it).1 × iter_left (iter_next in_memory it).1 < iter_left it
unfolding iter_next cursor_get
iter_next-Ahead it item a e =
    let (c, p, g) = iter_next-given in_memory it item e in
    let there : it ≡ record it { inner = some c; op = CursorOp.next; next_op = CursorOp.next } =
      fields_same it c p a in
    subst (λ i. Ahead (iter_next in_memory i).1 × iter_left (iter_next in_memory i).1 < iter_left i)
      (sym there)
      (
        record { op_next = refl; next_op_next = refl },
        next-items_left c item (subst (λ op. (step c op []).0 ≡ success item) a.op_next g),
      )
  where
    fields_same :
        (it : Iter Place) (c : Place)
        → it.inner ≡ some c
        → Ahead it
        → it ≡ record it { inner = some c; op = CursorOp.next; next_op = CursorOp.next }
    fields_same it c p a = let o = a.op_next in let n = a.next_op_next in cc

abbrev Ready : Scan in_memory → Type 0
Ready s = Timeless index_keys in_memory s.matcher Ahead iter_left s.scanner

abbrev scan_left : Scan in_memory → ℕ
scan_left s = iter_left s.scanner.inner

scan_ends :
    (s t : Scan in_memory) (key : IndexKey)
    → Ready s
    → (scan_item in_memory 9).scan_next s ≡ (some (ok key), t)
    → Ready t × scan_left t < scan_left s
unfolding scan_item
scan_ends s t key r e = split (next_inner index_keys in_memory s.matcher 9 s.scanner) refl e
  where
    split :
        (m : Option (Outcome (Option IndexKey) × Scanner Place))
        → next_inner index_keys in_memory s.matcher 9 s.scanner ≡ m
        → (elim m as (λ _. Option (Outcome IndexKey) × Scan in_memory) [
          | none ↦ (some panicked, s)
          | some (r, t) ↦ (transposed r, record s { scanner = t })
        ])
          ≡ (some (ok key), t)
        → Ready t × scan_left t < scan_left s
    split none p q = absurd (cc q)
    split (some (ok none, u)) p q = absurd (cc q)
    split (some (err x, u)) p q = absurd (cc q)
    split (some (panicked, u)) p q = absurd (cc q)
    split (some (ok (some k), u)) p q =
        let same : record s { scanner = u } ≡ t = cc q in
        let down : Ready (record s { scanner = u })
            × scan_left (record s { scanner = u }) < scan_left s =
          next_inner-Down index_keys in_memory s.matcher Ahead iter_left iter_next-Ahead 9 s.scanner
            u k r p in
        subst (λ v. Ready v × scan_left v < scan_left s) same down

abbrev key_at : ℕ → Bytes
key_at t = 7 ∷ 0 ∷ 0 ∷ 0 ∷ 0 ∷ 0 ∷ 0 ∷ 0 ∷ t ∷ []

abbrev uid_of : ℕ → Bytes
uid_of n = 0 ∷ 0 ∷ 0 ∷ 0 ∷ 0 ∷ 0 ∷ 0 ∷ n ∷ []

-- A scanner under the prefix 7 that has given the first of its entries.
abbrev scan_over : List Item → Scan in_memory
scan_over items = record {
  scanner = record {
    inner = record {
      error = none;
      inner = some (record { before = []; rest = items });
      rev = false;
      op = CursorOp.next;
      next_op = CursorOp.next;
      dup = true;
    };
    prefix = 7 ∷ [];
    key = [];
    reverse = false;
    since = none;
    until = none;
    times = 1;
    cur_times = 1;
  };
  matcher = prefix_matcher;
}

abbrev index_key : ℕ → ℕ → IndexKey
index_key time uid = record { time = time; uid = uid }

-- The times 1, 3 and 8, and the times 2 and 3; the event of the time 3 is the same.
abbrev two_words : Group (Scan in_memory) IndexKey
two_words = record {
  onlyone = none;
  items =
      scan_over ((key_at 1, uid_of 1) ∷ (key_at 3, uid_of 5) ∷ (key_at 8, uid_of 6) ∷ [])
      ∷ scan_over ((key_at 2, uid_of 2) ∷ (key_at 3, uid_of 5) ∷ [])
      ∷ [];
  founds = (1, index_key 2 2) ∷ (0, index_key 1 1) ∷ [];
  reverse = false;
  scan_times = 2;
  cur_times = 0;
  both = true;
  done = false;
  dup = true;
  watcher = none;
}

scan_over-Ready : (items : List Item) → Ready (scan_over items)
scan_over-Ready items = record {
  no_since = refl;
  no_until = refl;
  fit = record { op_next = refl; next_op_next = refl };
}

few_entries : total index_keys (scan_item in_memory 9) Ready scan_left two_words.items < 9
few_entries = omega arith

next_and-halts_example : next_and index_keys (scan_item in_memory 9) 9 two_words ≢ none
next_and-halts_example =
    next_and-halts index_keys (scan_item in_memory 9) Ready scan_left scan_ends 9 two_words
      (scan_over-Ready _, (scan_over-Ready _, tt)) few_entries

-- The entries 1 and 3 under the prefix 7, and then one under the prefix 8.
abbrev three_items : List Item
three_items = (key_at 1, uid_of 1) ∷ (key_at 3, uid_of 5) ∷ (8 ∷ [], uid_of 6) ∷ []

next_inner-halts_example :
    next_inner index_keys in_memory prefix_matcher 3 (scan_over three_items).scanner ≢ none
next_inner-halts_example =
    next_inner-halts index_keys in_memory prefix_matcher Ahead iter_left iter_next-Ahead 3
      (scan_over three_items).scanner (scan_over-Ready three_items) (omega arith)
