-- ===== src/Db/Query/Opened.antt =====
-- The iterator that a filter gets (db/src/db.rs) looks under the prefixes that the filter asks for.
use rnostr.Prelude.Order.{Bytes}
use rnostr.Prelude.{
  ℕ, ◌≡◌, refl, subst, Bool, true, false, none, some, List, [], ◌∷◌, All, if◌then◌else◌,
}
use rnostr.Std.Words.{to_be}
use rnostr.Db.Error.{Outcome, ok, err, panicked}
use rnostr.Db.Key.{IndexKey, concat, concat_sep, u16_to_ver}
use rnostr.Db.Filter.{Filter, SortList}
use rnostr.Db.MatchIndex.{MatchIndex}
use rnostr.Db.Query.{Matcher, any_matcher, Scan, Node, leaf, sub, index_keys, scan_item, node_item}
use rnostr.Db.Query.Open.{
  Iter, u64_max_before, add_each, make_scan, scan_each, new, new_time, new_kind, tag_scan,
  tag_group, new_tag, pairs, new_author_kind, new_prefix, word_scan, new_word,
}
use rnostr.Db.Query.Keys.{Among, FoundKey, GoodScan, GoodNode, GoodGroup, scan-Gives, node-Gives}
use rnostr.Db.Query.Good.{
  Takes, any_matcher-Takes, prefix_matcher-Takes, word_matcher-Takes, tag_matcher-Takes,
}
use rnostr.Kv.Lmdb.{Tree, lift, ◌>>=◌}
use rnostr.Kv.Lmdb.Iter.{Cursor, Bound, iter_from}
use rnostr.Kv.Lmdb.Moves.{Reads, IterOn, iter_from-IterOn}
use rnostr.Db.Store.{upper}
use rnostr.Db.Tables.Batches.{create_iter}
use rnostr.Kv.Scanner.Groups.{GroupItem, Group, add_scanner}
use rnostr.Kv.Scanner.Scan.{new_scanner}
use rnostr.Kv.Scanner.Given.{Gives, AllGood, Fine, Any, next-Fine}
use rnostr.Kv.Scanner.Given.Added.{new_group-AllGood, add_scanner-Fine}

pub All-imp {ℓ κ κ'} :
    {A : Type ℓ} {P : A → Type κ} {Q : A → Type κ'} (l : List A)
    → ((a : A) → P a → Q a)
    → All P l
    → All Q l
All-imp [] h a = tt
All-imp (x ∷ l) h a = (h x a.0, All-imp l h a.1)

module _ (C : Cursor) (steps : ℕ) where
  -- Items that are good are added to a group of good items.
  module _ {S : Type 0} (gi : GroupItem S IndexKey) (Good : S → Type 0) (P : IndexKey → Type 0)
      (gives : (s : S) → Good s → Gives index_keys gi Good P (gi.scan_next s)) where
    add_each-Fine :
        {X : Type 0} (make : X → Outcome S) (xs : List X) (g : Group S IndexKey)
        → All (λ x. (s : S) → make x ≡ ok s → Good s) xs
        → AllGood index_keys gi Good P g
        → Fine index_keys gi Good P Any (add_each C steps gi make xs g)
    unfolding add_each
    add_each-Fine make [] g a h = (tt, h)
    add_each-Fine make (x ∷ xs) g a h = split (λ u v. add_each-Fine make xs u a.1 v) (make x) refl
      where
        split :
            ((u : Group S IndexKey)
              → AllGood index_keys gi Good P u
              → Fine index_keys gi Good P Any (add_each C steps gi make xs u))
            → (r : Outcome S) → make x ≡ r
            → Fine index_keys gi Good P Any (
                (lift r >>= λ s. add_scanner index_keys gi s >>= λ _. add_each C steps gi make xs)
                  g)
        split ih (ok s) e =
            next-Fine index_keys gi Good P Any Any _ _
              (add_scanner-Fine index_keys gi Good P gives s g (a.0 s e) h) (λ _ u _ v. ih u v)
        split ih (err x) e = h
        split ih panicked e = h

  module _ {Txn : Type 0} (open_cursor : Txn → Tree → Outcome C.Cur) (reader : Txn) (f : Filter)
      (prefixes : List Bytes) (rd : Reads C) where
    -- The cursors that are opened for a tree are on it.
    abbrev pub Opens : Tree → Type 0
    Opens view = (c : C.Cur) → open_cursor reader view ≡ ok c → rd.On c

    create_iter-IterOn :
        (view : Tree) (prefix : Bytes)
        → Opens view
        → IterOn C rd (create_iter C (open_cursor reader view) view prefix f.desc)
    unfolding create_iter
    create_iter-IterOn view prefix o = split f.desc
      where
        split :
            (b : Bool)
            → IterOn C rd (
                if b
                then iter_from C
                    (open_cursor reader view)
                    view
                    (elim (upper prefix) [ none ↦ Bound.unbounded | some end ↦ Bound.excluded end ])
                    true
                else iter_from C (open_cursor reader view) view (Bound.included prefix) false)
        split true = iter_from-IterOn C rd (open_cursor reader view) view _ true o
        split false =
            iter_from-IterOn C rd (open_cursor reader view) view (Bound.included prefix) false o

    make_scan-GoodScan :
        (view : Tree) (key prefix : Bytes) (matcher : Matcher C.Cur)
        → Opens view
        → Takes prefixes prefix matcher
        → GoodScan C steps f prefixes rd
            (make_scan C steps open_cursor reader f view key prefix matcher)
    unfolding make_scan new_scanner
    make_scan-GoodScan view key prefix matcher o t = record {
      since_same = refl;
      until_same = refl;
      on_tree = create_iter-IterOn view prefix o;
      matches = t;
    }

    abbrev Ready : Outcome (Unit {0}) × Group (Node C) IndexKey → Type 0
    Ready b =
        Fine index_keys (node_item C steps) (GoodNode C steps f prefixes rd)
          (FoundKey f prefixes rd.Held) Any b

    scan_each-Fine :
        {X : Type 0} (both dup : Bool) (make : X → Scan C) (xs : List X)
        → All (λ x. GoodScan C steps f prefixes rd (make x)) xs
        → Ready (scan_each C steps open_cursor f both dup make xs)
    unfolding scan_each
    scan_each-Fine both dup make xs a =
        add_each-Fine (node_item C steps) (GoodNode C steps f prefixes rd)
          (FoundKey f prefixes rd.Held) (node-Gives C steps f prefixes rd) (λ x. ok (leaf (make x)))
          xs _ (leaves xs a)
          (new_group-AllGood index_keys (node_item C steps) (GoodNode C steps f prefixes rd)
            (FoundKey f prefixes rd.Held) f.desc both dup)
      where
        leaves :
            (l : List _)
            → All (λ x. GoodScan C steps f prefixes rd (make x)) l
            → All
                (λ x. (s : Node C) → ok (leaf (make x)) ≡ ok s → GoodNode C steps f prefixes rd s)
                l
        leaves [] b = tt
        leaves (x ∷ l) b = (
          λ s e.
              let same : leaf (make x) ≡ s = cc e in
              subst (GoodNode C steps f prefixes rd) same b.0,
          leaves l b.1,
        )

    -- The iterator of a filter, which looks under the prefixes.
    pub record Opened (match_index : MatchIndex) (it : Iter C Txn) : Type 0 where
      pub group_good : GoodGroup C steps f prefixes rd it.group
      pub reader_same : it.reader ≡ reader
      pub filter_same : it.filter ≡ f
      pub match_same : it.match_index ≡ match_index

    new-Opened :
        (mi : MatchIndex) (b : Outcome (Unit {0}) × Group (Node C) IndexKey) (it : Iter C Txn)
        → Ready b
        → new C steps open_cursor reader f mi b ≡ ok it
        → Opened mi it
    unfolding new
    new-Opened mi (ok u, g) it h e =
        let made : Iter C Txn = record {
          reader = reader;
          group = g;
          get_data = 0;
          get_index = 0;
          filter = f;
          match_index = mi;
        } in
        let same : made ≡ it = cc e in
        subst (Opened mi) same
          (record { group_good = h.1; reader_same = refl; filter_same = refl; match_same = refl })
    new-Opened mi (err x, g) it h e = absurd (cc e)
    new-Opened mi (panicked, g) it h e = absurd (cc e)

    pub new_time-Opened :
        (view : Tree) (mi : MatchIndex) (it : Iter C Txn)
        → Opens view
        → Among [] prefixes
        → new_time C steps open_cursor reader f view mi ≡ ok it
        → Opened mi it
    unfolding new_time
    new_time-Opened view mi it o a e =
        let start = to_be 8 (if f.desc then u64_max_before else 0) in
        let scan : Bytes → Scan C =
          λ p. make_scan C steps open_cursor reader f view [] p any_matcher in
        new-Opened mi (scan_each C steps open_cursor f false false scan (start ∷ [])) it
          (scan_each-Fine false false scan (start ∷ []) (
            make_scan-GoodScan view [] start any_matcher o (any_matcher-Takes prefixes start a),
            tt,
          ))
          e

    pub new_kind-Opened :
        (view : Tree) (mi : MatchIndex) (it : Iter C Txn)
        → Opens view
        → All (λ kind. Among (u16_to_ver kind) prefixes) f.kinds
        → new_kind C steps open_cursor reader f view mi ≡ ok it
        → Opened mi it
    unfolding new_kind
    new_kind-Opened view mi it o a e =
        new-Opened mi _ it
          (scan_each-Fine false false _ f.kinds (
            All-imp f.kinds
              (λ kind b. make_scan-GoodScan view [] _ _ o (prefix_matcher-Takes prefixes _ b)) a))
          e

    pub new_author_kind-Opened :
        (view : Tree) (mi : MatchIndex) (it : Iter C Txn)
        → Opens view
        → All
            (λ p. Among (concat p.0 (u16_to_ver p.1)) prefixes)
            (pairs C steps open_cursor f.authors f.kinds)
        → new_author_kind C steps open_cursor reader f view mi ≡ ok it
        → Opened mi it
    unfolding new_author_kind
    new_author_kind-Opened view mi it o a e =
        new-Opened mi _ it
          (scan_each-Fine false false _ (pairs C steps open_cursor f.authors f.kinds) (
            All-imp (pairs C steps open_cursor f.authors f.kinds)
              (λ p b. make_scan-GoodScan view p.0 _ _ o (prefix_matcher-Takes prefixes _ b)) a))
          e

    pub new_prefix-Opened :
        (ids : List Bytes) (view : Tree) (mi : MatchIndex) (it : Iter C Txn)
        → Opens view
        → All (λ id. Among id prefixes) ids
        → new_prefix C steps open_cursor reader f ids view mi ≡ ok it
        → Opened mi it
    unfolding new_prefix
    new_prefix-Opened ids view mi it o a e =
        new-Opened mi _ it
          (scan_each-Fine false false _ ids (
            All-imp ids
              (λ id b. make_scan-GoodScan view id id _ o (prefix_matcher-Takes prefixes _ b)) a))
          e

    pub new_word-Opened :
        (view : Tree) (mi : MatchIndex) (it : Iter C Txn)
        → Opens view
        → All (λ word. Among (concat_sep word []) prefixes) f.words
        → new_word C steps open_cursor reader f view mi ≡ ok it
        → Opened mi it
    unfolding new_word word_scan
    new_word-Opened view mi it o a e =
        new-Opened mi _ it
          (scan_each-Fine true true _ f.words (
            All-imp f.words
              (λ w b. make_scan-GoodScan view [] _ _ o (word_matcher-Takes prefixes _ _ b)) a))
          e

    abbrev pub tag_prefix : Bytes → Bytes → Bytes
    tag_prefix name key = concat_sep (concat_sep name key) []

    tag_group-GoodNode :
        (view : Tree) (name : Bytes) (keys : SortList Bytes) (n : Node C)
        → Opens view
        → All (λ key. Among (tag_prefix name key) prefixes) keys
        → tag_group C steps open_cursor reader f view (name, keys) ≡ ok n
        → GoodNode C steps f prefixes rd n
    unfolding tag_group tag_scan
    tag_group-GoodNode view name keys n o a e =
        built _
          (add_each-Fine (scan_item C steps) (GoodScan C steps f prefixes rd)
            (FoundKey f prefixes rd.Held) (scan-Gives C steps f prefixes rd) _ keys _ (scans keys a)
            (new_group-AllGood index_keys (scan_item C steps) (GoodScan C steps f prefixes rd)
              (FoundKey f prefixes rd.Held) f.desc false true))
          e
      where
        scans :
            (l : List Bytes)
            → All (λ key. Among (tag_prefix name key) prefixes) l
            → All
                (λ key.
                  (s : Scan C)
                  → ok (tag_scan C steps open_cursor reader f view name key) ≡ ok s
                  → GoodScan C steps f prefixes rd s)
                l
        scans [] b = tt
        scans (key ∷ l) b = (
          λ s q.
              let same : tag_scan C steps open_cursor reader f view name key ≡ s = cc q in
              subst (GoodScan C steps f prefixes rd) same
                (make_scan-GoodScan view [] _ _ o (tag_matcher-Takes prefixes f.kinds _ _ b.0)),
          scans l b.1,
        )

        built :
            (b : Outcome (Unit {0}) × Group (Scan C) IndexKey)
            → Fine index_keys
                (scan_item C steps)
                (GoodScan C steps f prefixes rd)
                (FoundKey f prefixes rd.Held)
                Any
                b
            → (elim b.0 as (λ _. Outcome (Node C)) [
              | ok _ ↦ ok (sub b.1)
              | err x ↦ err x
              | panicked ↦ panicked
            ])
              ≡ ok n
            → GoodNode C steps f prefixes rd n
        built (ok u, g) h q =
            let same : sub g ≡ n = cc q in subst (GoodNode C steps f prefixes rd) same h.1
        built (err x, g) h q = absurd (cc q)
        built (panicked, g) h q = absurd (cc q)

    pub new_tag-Opened :
        (view : Tree) (mi : MatchIndex) (it : Iter C Txn)
        → Opens view
        → All (λ t. All (λ key. Among (tag_prefix t.0 key) prefixes) t.1) f.tags
        → new_tag C steps open_cursor reader f view mi ≡ ok it
        → Opened mi it
    unfolding new_tag
    new_tag-Opened view mi it o a e =
        new-Opened mi _ it
          (add_each-Fine (node_item C steps) (GoodNode C steps f prefixes rd)
            (FoundKey f prefixes rd.Held) (node-Gives C steps f prefixes rd) _ f.tags _
            (All-imp f.tags (λ t b n q. tag_group-GoodNode view t.0 t.1 n o b q) a)
            (new_group-AllGood index_keys (node_item C steps) (GoodNode C steps f prefixes rd)
              (FoundKey f prefixes rd.Held) f.desc true false))
          e
