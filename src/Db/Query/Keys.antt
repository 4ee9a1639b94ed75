-- ===== src/Db/Query/Keys.antt =====
-- The keys that scanners over the trees give, alone, in groups and in groups of groups
-- (db/src/db.rs): each is read from an entry under a prefix, and lies in the range of the filter.
use rnostr.Prelude.Order.{Bytes}
use rnostr.Prelude.{ℕ, ◌≤◌, ◌≡◌, refl, ◌∙◌, subst, ◌⊎◌, true, Option, none, some, List, [], ◌∷◌}
use rnostr.Db.Error.{Outcome, ok, err, panicked}
use rnostr.Db.Store.{starts_with}
use rnostr.Db.Key
use rnostr.Db.Key.{IndexKey}
use rnostr.Db.Filter.{Filter}
use rnostr.Db.Query.{Scan, Node, leaf, sub, index_keys, scan_item, node_next, node_item}
use rnostr.Kv.Lmdb.Iter.{Cursor, Item}
use rnostr.Kv.Lmdb.Moves.{Reads, IterOn, IterOn-Moved, On-Reached}
use rnostr.Kv.Scanner.Groups.{Group, group_next, transposed}
use rnostr.Kv.Scanner.Scan.{found, Scanner, next_inner}
use rnostr.Kv.Scanner.Range.{next_inner-InRange, next_inner-SameRange}
use rnostr.Kv.Scanner.Given.{Gives, AllGood}
use rnostr.Kv.Scanner.Given.Next.{group_next-GivesKey}

-- A byte string is one of a list.
abbrev pub Among : Bytes → List Bytes → Type 0
Among p [] = ⊥
Among p (q ∷ l) = (p ≡ q) ⊎ Among p l

-- The entry that a key was read from stands under one of the prefixes.
pub record Comes (prefixes : List Bytes) (item : Item) (key : IndexKey) : Type 0 where
  pub prefix : Bytes
  pub among : Among prefix prefixes
  pub begins : starts_with prefix item.0 ≡ true
  pub read : Key.from item.0 item.1 ≡ ok key

-- A key read from an entry that is held, under one of the prefixes, of a time that the filter asks
-- for.
pub record FoundKey (f : Filter) (prefixes : List Bytes) (Held : Item → Type 0) (key : IndexKey)
    : Type 0 where
  pub item : Item
  pub held : Held item
  pub comes : Comes prefixes item key
  pub since_kept : (t : ℕ) → f.since ≡ some t → t ≤ key.time
  pub until_kept : (t : ℕ) → f.until ≡ some t → key.time ≤ t

module _ (C : Cursor) (steps : ℕ) (f : Filter) (prefixes : List Bytes) (rd : Reads C) where
  -- A scanner with the range of the filter, whose matcher takes only entries under the prefixes.
  pub record GoodScan (s : Scan C) : Type 0 where
    pub since_same : s.scanner.since ≡ f.since
    pub until_same : s.scanner.until ≡ f.until
    pub on_tree : IterOn C rd s.scanner.inner
    pub matches :
        (from : Scanner C.Cur) (item : Item) (key : IndexKey)
        → from.prefix ≡ s.scanner.prefix
        → s.matcher from item ≡ ok (found key)
        → Comes prefixes item key

  pub scan-Gives :
      (s : Scan C)
      → GoodScan s
      → Gives index_keys
          (scan_item C steps)
          GoodScan
          (FoundKey f prefixes rd.Held)
          ((scan_item C steps).scan_next s)
  unfolding scan_item index_keys
  scan-Gives s h = split (next_inner index_keys C s.matcher steps s.scanner) refl
    where
      later :
          (t : Scanner C.Cur) (r : Outcome (Option IndexKey))
          → next_inner index_keys C s.matcher steps s.scanner ≡ some (r, t)
          → GoodScan (record s { scanner = t })
      later t r e =
          let same = next_inner-SameRange index_keys C s.matcher steps s.scanner t r e in
          record {
            since_same = same.since_same ∙ h.since_same;
            until_same = same.until_same ∙ h.until_same;
            on_tree = IterOn-Moved C rd s.scanner.inner t.inner same.moves h.on_tree;
            matches = λ from item key p m. h.matches from item key (p ∙ same.prefix_same) m;
          }

      found_one :
          (t : Scanner C.Cur) (key : IndexKey)
          → next_inner index_keys C s.matcher steps s.scanner ≡ some (ok (some key), t)
          → FoundKey f prefixes rd.Held key
      found_one t key e =
          let r = next_inner-InRange index_keys C s.matcher steps s.scanner t key e in
          record {
            item = r.item;
            held =
                rd.gives r.cur r.op [] r.item
                  (On-Reached C rd r.reached (h.on_tree r.start r.started)) r.given;
            comes = h.matches r.from r.item key r.prefix_kept r.matched;
            since_kept = λ u q. r.since_kept u (h.since_same ∙ q);
            until_kept = λ u q. r.until_kept u (h.until_same ∙ q);
          }

      split :
          (m : Option (Outcome (Option IndexKey) × Scanner C.Cur))
          → next_inner index_keys C s.matcher steps s.scanner ≡ m
          → Gives index_keys
              (scan_item C steps)
              GoodScan
              (FoundKey f prefixes rd.Held)
              (elim m as (λ _. Option (Outcome IndexKey) × Scan C) [
                | none ↦ (some panicked, s)
                | some (r, t) ↦ (transposed r, record s { scanner = t })
              ])
      split none e = (h, λ key q. absurd (cc q))
      split (some (ok none, t)) e = (later t _ e, λ key q. absurd (cc q))
      split (some (ok (some k), t)) e = (
        later t _ e,
        λ key q.
            let same : k ≡ key = cc q in subst (FoundKey f prefixes rd.Held) same (found_one t k e),
      )
      split (some (err x, t)) e = (later t _ e, λ key q. absurd (cc q))
      split (some (panicked, t)) e = (later t _ e, λ key q. absurd (cc q))

  abbrev pub GoodNode : Node C → Type 0
  GoodNode (leaf s) = GoodScan s
  GoodNode (sub g) = AllGood index_keys (scan_item C steps) GoodScan (FoundKey f prefixes rd.Held) g

  pub node-Gives :
      (n : Node C)
      → GoodNode n
      → Gives index_keys
          (node_item C steps)
          GoodNode
          (FoundKey f prefixes rd.Held)
          ((node_item C steps).scan_next n)
  unfolding node_item node_next
  node-Gives (leaf s) h = scan-Gives s h
  node-Gives (sub g) h = split (group_next index_keys (scan_item C steps) steps g) refl
    where
      split :
          (m : Option (Option (Outcome IndexKey) × Group (Scan C) IndexKey))
          → group_next index_keys (scan_item C steps) steps g ≡ m
          → Gives index_keys
              (node_item C steps)
              GoodNode
              (FoundKey f prefixes rd.Held)
              (elim m as (λ _. Option (Outcome IndexKey) × Node C) [
                | none ↦ (some panicked, sub g)
                | some (item, u) ↦ (item, sub u)
              ])
      split none e = (h, λ key q. absurd (cc q))
      split (some (item, u)) e =
          group_next-GivesKey index_keys (scan_item C steps) GoodScan (FoundKey f prefixes rd.Held)
            scan-Gives steps g (item, u) h e

  -- The group of an iterator.
  abbrev pub GoodGroup : Group (Node C) IndexKey → Type 0
  GoodGroup g = AllGood index_keys (node_item C steps) GoodNode (FoundKey f prefixes rd.Held) g
