-- ===== src/Db/Query/Good.antt =====
-- The scanners that the code makes for a filter (db/src/db.rs) take only entries under their prefix.
use rnostr.Prelude.Order.{Bytes}
use rnostr.Prelude.{
  ℕ, ◌≡◌, refl, subst, Bool, true, false, ◌&&◌, ◌==◌, List, [], length, is_empty, if◌then◌else◌,
  arith,
}
use rnostr.Db.Error.{Outcome, ok, err, panicked, ◌>>=◌}
use rnostr.Db.Store.{starts_with}
use rnostr.Db.Key
use rnostr.Db.Key.{IndexKey}
use rnostr.Db.Filter.{SortList, match_kind}
use rnostr.Db.Query.{
  Matcher, found_index, any_matcher, prefix_matcher, word_matcher, tag_matcher, check_kind,
  value_kind,
}
use rnostr.Db.Query.Keys.{Among, Comes}
use rnostr.Kv.Lmdb.Iter.{Item}
use rnostr.Kv.Scanner.Scan.{MatchResult, found, continue, stop, Scanner}

found_index-from :
    (k v : Bytes) (key : IndexKey) → found_index k v ≡ ok (found key) → Key.from k v ≡ ok key
unfolding found_index
found_index-from k v key h = split (Key.from k v) h
  where
    split : (r : Outcome IndexKey) → (r >>= λ k. ok (found k)) ≡ ok (found key) → r ≡ ok key
    split (ok k) q = ground arith
    split (err x) q = absurd (cc q)
    split panicked q = absurd (cc q)

check_kind-from :
    (kinds : SortList ℕ) (k v : Bytes) (key : IndexKey)
    → check_kind kinds k v ≡ ok (found key)
    → Key.from k v ≡ ok key
unfolding check_kind
check_kind-from kinds k v key h = by_kinds (is_empty kinds) h
  where
    by_match :
        (b : Bool)
        → (if b then found_index k v else ok continue) ≡ ok (found key)
        → Key.from k v ≡ ok key
    by_match true q = found_index-from k v key q
    by_match false q = absurd (cc q)

    by_kind :
        (r : Outcome ℕ)
        → (r >>= λ kind. if match_kind kinds kind then found_index k v else ok continue)
          ≡ ok (found key)
        → Key.from k v ≡ ok key
    by_kind (ok kind) q = by_match (match_kind kinds kind) q
    by_kind (err x) q = absurd (cc q)
    by_kind panicked q = absurd (cc q)

    by_kinds :
        (b : Bool)
        → (if b
            then found_index k v
            else (value_kind v >>= λ kind.
                if match_kind kinds kind then found_index k v else ok continue))
          ≡ ok (found key)
        → Key.from k v ≡ ok key
    by_kinds true q = found_index-from k v key q
    by_kinds false q = by_kind (value_kind v) q

comes :
    (prefixes : List Bytes) (p k v : Bytes) (key : IndexKey)
    → Among p prefixes
    → starts_with p k ≡ true
    → Key.from k v ≡ ok key
    → Comes prefixes (k, v) key
comes prefixes p k v key a s r = record { prefix = p; among = a; begins = s; read = r }

module _ {Cur : Type 0} (prefixes : List Bytes) where
  -- A matcher that takes only entries under the prefixes, in a scanner with the prefix `p`.
  abbrev pub Takes : Bytes → Matcher Cur → Type 0
  Takes p matcher =
      (from : Scanner Cur) (item : Item) (key : IndexKey)
      → from.prefix ≡ p
      → matcher from item ≡ ok (found key)
      → Comes prefixes item key

  pub any_matcher-Takes : (p : Bytes) → Among [] prefixes → Takes p any_matcher
  unfolding any_matcher starts_with
  any_matcher-Takes p a from (k, v) key s e =
      comes prefixes [] k v key a refl (found_index-from k v key e)

  by_prefix :
      (p : Bytes) (from : Scanner Cur) (k v : Bytes) (key : IndexKey) (b : Bool)
      (r : Outcome (MatchResult IndexKey))
      → Among p prefixes
      → from.prefix ≡ p
      → (b ≡ true → starts_with from.prefix k ≡ true)
      → (r ≡ ok (found key) → Key.from k v ≡ ok key)
      → (if b then r else ok stop) ≡ ok (found key)
      → Comes prefixes (k, v) key
  by_prefix p from k v key true r a s t u e =
      comes prefixes p k v key a (subst (λ q. starts_with q k ≡ true) s (t refl)) (u e)
  by_prefix p from k v key false r a s t u e = absurd (cc e)

  pub prefix_matcher-Takes : (p : Bytes) → Among p prefixes → Takes p prefix_matcher
  unfolding prefix_matcher
  prefix_matcher-Takes p a from (k, v) key s e =
      by_prefix p from k v key (starts_with from.prefix k) (found_index k v) a s (λ q. q)
        (found_index-from k v key) e

  pub word_matcher-Takes : (klen : ℕ) (p : Bytes) → Among p prefixes → Takes p (word_matcher klen)
  unfolding word_matcher
  word_matcher-Takes klen p a from (k, v) key s e =
      by_prefix p from k v key ((length k == klen) && starts_with from.prefix k) (found_index k v) a
        s (λ q. ground arith) (found_index-from k v key) e

  pub tag_matcher-Takes :
      (kinds : SortList ℕ) (klen : ℕ) (p : Bytes)
      → Among p prefixes
      → Takes p (tag_matcher kinds klen)
  unfolding tag_matcher
  tag_matcher-Takes kinds klen p a from (k, v) key s e =
      by_prefix p from k v key ((length k == klen) && starts_with from.prefix k)
        (check_kind kinds k v) a s (λ q. ground arith) (check_kind-from kinds k v key) e
