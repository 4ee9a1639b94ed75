-- ===== src/Tests/Cursors.antt =====
-- A cursor over the entries of a tree that is kept in memory, in the order of keys.
use rnostr.Prelude.Order.{Bytes, cmp_bytes}
use rnostr.Prelude.{
  ℕ, ◌<◌, length, arith, Ordering, Bool, true, false, List, [], ◌∷◌, All, ◌≡◌, refl, subst,
  if◌then◌else◌,
}
use rnostr.Std.Text.{text_eq}
use rnostr.Db.Error.{Outcome, ok}
use rnostr.Kv.Lmdb.{Tree, Entry, Reply, success, not_found}
use rnostr.Kv.Lmdb.Cursors.{Held, DocumentedCursor}
use rnostr.Tests.Trees.{memory, sees, sees-has, memory-Documented}
use rnostr.Kv.Lmdb.Iter.{Cursor, CursorOp, Item}

-- The items before the cursor, the nearest first, and those from it on.
pub record Place : Type 0 where
  pub before : List Item
  pub rest : List Item

unfoldable read : Place → Reply Item × Place
read p = elim p.rest [ [] ↦ (not_found, p) | x ∷ _ ↦ (success x, p) ]

unfoldable forward : Place → Place
forward p = elim p.rest [ [] ↦ p | x ∷ xs ↦ record { before = x ∷ p.before; rest = xs } ]

-- One item back; not found before the first.
unfoldable back : Place → Reply Item × Place
back p = elim p.before [
  | [] ↦ (not_found, p)
  | x ∷ xs ↦ (success x, record { before = xs; rest = x ∷ p.rest })
]

unfoldable rewind : List Item → List Item → List Item
rewind [] rest = rest
rewind (x ∷ xs) rest = rewind xs (x ∷ rest)

-- The items of the list that a test takes, one after another.
unfoldable while_before : (Item → Bool) → List Item → List Item → Place
while_before test before [] = record { before = before; rest = [] }
while_before test before (x ∷ xs) =
    let more = while_before test (x ∷ before) xs in
    if test x then more else record { before = before; rest = x ∷ xs }

unfoldable while_back : (Item → Bool) → List Item → List Item → Place
while_back test [] rest = record { before = []; rest = rest }
while_back test (x ∷ xs) rest =
    let more = while_back test xs (x ∷ rest) in
    if test x then more else record { before = x ∷ xs; rest = rest }

abbrev is_less : Bytes → Item → Bool
is_less key x = elim (cmp_bytes x.0 key) [ Ordering.lt ↦ true | _ ↦ false ]

abbrev is_same_key : Place → Item → Bool
is_same_key p x = elim p.rest [ [] ↦ false | y ∷ _ ↦ text_eq y.0 x.0 ]

unfoldable pub step : Place → CursorOp → Bytes → Reply Item × Place
unfolding read forward back rewind while_before while_back cmp_bytes
step p CursorOp.first key = read (record { before = []; rest = rewind p.before p.rest })
step p CursorOp.last key = back (while_before (λ x. true) [] (rewind p.before p.rest))
step p CursorOp.next key = read (forward p)
step p CursorOp.prev key = back p
step p CursorOp.next_nodup key = read (while_before (is_same_key p) p.before p.rest)
step p CursorOp.prev_nodup key = back (while_back (is_same_key p) p.before p.rest)
step p CursorOp.get_current key = read p
step p CursorOp.last_dup key =
    let (r, q) = back (while_before (is_same_key p) p.before p.rest) in (r, q)
step p CursorOp.set_range key = read (while_before (is_less key) [] (rewind p.before p.rest))

abbrev pub in_memory : Cursor
in_memory = record { Cur = Place; mdb_cursor_get = step }

unfoldable insert : Item → List Item → List Item
unfolding cmp_bytes
insert x [] = x ∷ []
insert x (y ∷ ys) =
    let rest = insert x ys in
    elim (cmp_bytes x.0 y.0) [
      | Ordering.lt ↦ x ∷ y ∷ ys
      | Ordering.gt ↦ y ∷ rest
      | Ordering.eq ↦ elim (cmp_bytes x.1 y.1) [
        | Ordering.gt ↦ y ∷ rest
        | Ordering.lt ↦ x ∷ y ∷ ys
        | Ordering.eq ↦ y ∷ ys
      ]
    ]

-- The items of the entries that are seen in the tree.
unfoldable items_of : List Entry → Tree → List Entry → List Item
unfolding insert
items_of w tree [] = []
items_of w tree (e ∷ es) =
    let rest = items_of w tree es in
    if sees w (record { tree = tree; key = e.key; value = e.value })
    then insert (e.key, e.value) rest
    else rest

unfoldable pub open_in_memory : List Entry → Tree → Outcome Place
unfolding items_of
open_in_memory w tree = ok (record { before = []; rest = items_of w tree w })

module _ (Q : Item → Type 0) where
  -- All items before and behind the cursor are good, and so is one that is read.
  abbrev Good : Place → Type 0
  Good p = All Q p.before × All Q p.rest

  abbrev Fine : Reply Item × Place → Type 0
  Fine (r, p) = Good p × ((x : Item) → r ≡ success x → Q x)

  read-Fine : (p : Place) → Good p → Fine (read p)
  unfolding read
  read-Fine p (b, r) = split p.rest r
    where
      split :
          (l : List Item)
          → All Q l
          → Fine
              (elim l as (λ _. Reply Item × Place) [ [] ↦ (not_found, p) | x ∷ _ ↦ (success x, p) ])
      split [] a = ((b, r), λ x e. absurd (cc e))
      split (y ∷ l) a = ((b, r), λ x e. let same : y ≡ x = cc e in subst Q same a.0)

  back-Fine : (p : Place) → Good p → Fine (back p)
  unfolding back
  back-Fine p (b, r) = split p.before b
    where
      split :
          (l : List Item)
          → All Q l
          → Fine (elim l as (λ _. Reply Item × Place) [
            | [] ↦ (not_found, p)
            | x ∷ xs ↦ (success x, record { before = xs; rest = x ∷ p.rest })
          ])
      split [] a = ((b, r), λ x e. absurd (cc e))
      split (y ∷ l) a = ((a.1, (a.0, r)), λ x e. let same : y ≡ x = cc e in subst Q same a.0)

  forward-Good : (p : Place) → Good p → Good (forward p)
  unfolding forward
  forward-Good p (b, r) = split p.rest r
    where
      split :
          (l : List Item)
          → All Q l
          → Good (elim l as (λ _. Place) [
            | [] ↦ p
            | x ∷ xs ↦ record { before = x ∷ p.before; rest = xs }
          ])
      split [] a = (b, r)
      split (y ∷ l) a = ((a.0, b), a.1)

  rewind-All : (l m : List Item) → All Q l → All Q m → All Q (rewind l m)
  unfolding rewind
  rewind-All [] m a b = b
  rewind-All (x ∷ l) m a b = rewind-All l (x ∷ m) a.1 (a.0, b)

  while_before-Good :
      (test : Item → Bool) (l m : List Item) → All Q l → All Q m → Good (while_before test l m)
  unfolding while_before
  while_before-Good test l [] a b = (a, tt)
  while_before-Good test l (x ∷ m) a b =
      split (test x) (while_before-Good test (x ∷ l) m (b.0, a) b.1)
    where
      split :
          (c : Bool)
          → Good (while_before test (x ∷ l) m)
          → Good (if c then while_before test (x ∷ l) m else record { before = l; rest = x ∷ m })
      split true g = g
      split false g = (a, b)

  while_back-Good :
      (test : Item → Bool) (l m : List Item) → All Q l → All Q m → Good (while_back test l m)
  unfolding while_back
  while_back-Good test [] m a b = (tt, b)
  while_back-Good test (x ∷ l) m a b = split (test x) (while_back-Good test l (x ∷ m) a.1 (a.0, b))
    where
      split :
          (c : Bool)
          → Good (while_back test l (x ∷ m))
          → Good (if c then while_back test l (x ∷ m) else record { before = x ∷ l; rest = m })
      split true g = g
      split false g = (a, b)

  step-Fine : (p : Place) (op : CursorOp) (key : Bytes) → Good p → Fine (step p op key)
  unfolding step
  step-Fine p CursorOp.first key g = read-Fine _ (tt, rewind-All p.before p.rest g.0 g.1)
  step-Fine p CursorOp.last key g = back-Fine _ (
      while_before-Good (λ x. true) [] (rewind p.before p.rest) tt
        (rewind-All p.before p.rest g.0 g.1))
  step-Fine p CursorOp.next key g = read-Fine _ (forward-Good p g)
  step-Fine p CursorOp.prev key g = back-Fine p g
  step-Fine p CursorOp.next_nodup key g =
      read-Fine _ (while_before-Good (is_same_key p) p.before p.rest g.0 g.1)
  step-Fine p CursorOp.prev_nodup key g =
      back-Fine _ (while_back-Good (is_same_key p) p.before p.rest g.0 g.1)
  step-Fine p CursorOp.get_current key g = read-Fine p g
  step-Fine p CursorOp.last_dup key g =
      back-Fine _ (while_before-Good (is_same_key p) p.before p.rest g.0 g.1)
  step-Fine p CursorOp.set_range key g = read-Fine _ (
      while_before-Good (is_less key) [] (rewind p.before p.rest) tt
        (rewind-All p.before p.rest g.0 g.1))

  insert-All : (x : Item) (l : List Item) → Q x → All Q l → All Q (insert x l)
  unfolding insert
  insert-All x [] h a = (h, tt)
  insert-All x (y ∷ l) h a = split (cmp_bytes x.0 y.0) (cmp_bytes x.1 y.1) (insert-All x l h a.1)
    where
      split :
          (o u : Ordering)
          → All Q (insert x l)
          → All Q (elim o as (λ _. List Item) [
            | Ordering.lt ↦ x ∷ y ∷ l
            | Ordering.gt ↦ y ∷ insert x l
            | Ordering.eq ↦ elim u as (λ _. List Item) [
              | Ordering.gt ↦ y ∷ insert x l
              | Ordering.lt ↦ x ∷ y ∷ l
              | Ordering.eq ↦ y ∷ l
            ]
          ])
      split Ordering.lt u i = (h, a)
      split Ordering.gt u i = (a.0, i)
      split Ordering.eq Ordering.gt i = (a.0, i)
      split Ordering.eq Ordering.lt i = (h, a)
      split Ordering.eq Ordering.eq i = a

items_of-All :
    (w : List Entry) (tree : Tree) (es : List Entry)
    → All (Held memory memory-Documented w tree) (items_of w tree es)
unfolding items_of
items_of-All w tree [] = tt
items_of-All w tree (e ∷ es) =
    split (sees w (record { tree = tree; key = e.key; value = e.value })) refl
      (items_of-All w tree es)
  where
    split :
        (b : Bool)
        → sees w (record { tree = tree; key = e.key; value = e.value }) ≡ b
        → All (Held memory memory-Documented w tree) (items_of w tree es)
        → All
            (Held memory memory-Documented w tree)
            (if b then insert (e.key, e.value) (items_of w tree es) else items_of w tree es)
    split true h a =
        insert-All (Held memory memory-Documented w tree) (e.key, e.value) (items_of w tree es)
          (sees-has w (record { tree = tree; key = e.key; value = e.value }) h) a
    split false h a = a

pub in_memory-DocumentedCursor : DocumentedCursor memory memory-Documented in_memory open_in_memory
unfolding open_in_memory
in_memory-DocumentedCursor = record {
  On = λ w tree p. Good (Held memory memory-Documented w tree) p;
  opened = λ w tree c e.
      let same : record { before = []; rest = items_of w tree w } ≡ c = cc e in
      subst (Good (Held memory memory-Documented w tree)) same (tt, items_of-All w tree w);
  stays = λ w tree c op key g. (step-Fine (Held memory memory-Documented w tree) c op key g).0;
  gives = λ w tree c op key item g e.
      (step-Fine (Held memory memory-Documented w tree) c op key g).1 item e;
}

-- The number of items behind the one at the cursor.
abbrev pub items_left : Place → ℕ
items_left p = elim p.rest [ [] ↦ 0 | x ∷ xs ↦ length xs ]

pub next-items_left :
    (p : Place) (item : Item)
    → (step p CursorOp.next []).0 ≡ success item
    → items_left (step p CursorOp.next []).1 < items_left p
unfolding step read forward
next-items_left p item e = split p.before p.rest e
  where
    split :
        (b l : List Item)
        → (step (record { before = b; rest = l }) CursorOp.next []).0 ≡ success item
        → items_left (step (record { before = b; rest = l }) CursorOp.next []).1
          < items_left (record { before = b; rest = l })
    split b [] q = absurd (cc q)
    split b (x ∷ []) q = absurd (cc q)
    split b (x ∷ y ∷ l) q = omega arith
